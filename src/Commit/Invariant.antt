-- ===== src/Commit/Invariant.antt =====
-- The account of records holds after every run of `CommitTracker` of rust/client/src/protocol.rs.
use chorus.Prelude.{
  ℕ, zero, suc, ◌+◌, ◌≤◌, max, ◌≡◌, refl, ap, ◌∙◌, inl, inr, false, Option, none, some, List, [],
  ◌∷◌, ◌++◌, append_assoc, append-nil, arith, leb, Bool-cases, Option-cases, length, length-append,
}
use chorus.Prelude.Int.{pos, negsuc}
use chorus.Transport.{TransportError}
use chorus.Commit.{
  poisoned, fenced, fences_writer, nonnegative, finish, poison, activate_lane, finish_lane,
  default_lane, publish_durable, replicate, admit_window, new, lane_durable, fail, update_lane,
  with_lanes, represent, CommitFailure, publish, durables, inl, leb, Bool-cases, ◌∷◌, arith,
  CommitTracker, last_or, List, LaneCommitState,
}
use chorus.Commit.Watermark.{count_at_least}
use chorus.Commit.Steps.{called, Call, step, admitted_by, Allowed, Reachable}
use chorus.Commit.Account.{Supported, Inv, All-map, recompute-Inv}

-- The lane's offset in place of `zone` is not lowered.
abbrev Raises : (LaneCommitState → LaneCommitState) → List LaneCommitState → ℕ → Type 0
Raises f lanes zone =
    (lane : LaneCommitState)
    → lane.durable ≡ lane_durable lanes zone
    → lane.durable ≤ (f lane).durable

count-update_lane :
    (b zone : ℕ) (f : LaneCommitState → LaneCommitState) (lanes : List LaneCommitState)
    → Raises f lanes zone
    → count_at_least b (durables lanes) ≤ count_at_least b (durables (update_lane zone f lanes))
unfolding count_at_least update_lane
count-update_lane b zone f [] h = omega arith
count-update_lane b zero f (lane ∷ lanes) h = let raised = h lane refl in ground arith
count-update_lane b (suc zone) f (lane ∷ lanes) h =
    ground (arith, count-update_lane b zone f lanes h)

length-update_lane :
    (zone : ℕ) (f : LaneCommitState → LaneCommitState) (lanes : List LaneCommitState)
    → length (update_lane zone f lanes) ≡ length lanes
unfolding update_lane
length-update_lane zone f [] = refl
length-update_lane zero f (lane ∷ lanes) = refl
length-update_lane (suc zone) f (lane ∷ lanes) = ap suc (length-update_lane zone f lanes)

-- Lanes that replace a tracker's: as many, and with no less support for any boundary.
abbrev Raised : List LaneCommitState → List LaneCommitState → Type 0
Raised lanes lanes' =
    (length lanes' ≡ length lanes)
    × ((b : ℕ) → count_at_least b (durables lanes) ≤ count_at_least b (durables lanes'))

update_lane-Raised :
    (zone : ℕ) (f : LaneCommitState → LaneCommitState) (lanes : List LaneCommitState)
    → Raises f lanes zone
    → Raised lanes (update_lane zone f lanes)
update_lane-Raised zone f lanes h =
    (length-update_lane zone f lanes, λ b. count-update_lane b zone f lanes h)

represent-Raised :
    (end : ℕ) (zones : List ℕ) (lanes : List LaneCommitState)
    → Raised lanes (represent end zones lanes)
unfolding represent
represent-Raised end [] lanes = (refl, λ b. omega arith)
represent-Raised end (zone ∷ zones) lanes =
    let f : LaneCommitState → LaneCommitState =
      λ lane. record lane { represented_end = max lane.represented_end end } in
    let (len, more) = update_lane-Raised zone f lanes (λ lane e. omega arith) in
    let (len', more') = represent-Raised end zones (update_lane zone f lanes) in
    (len' ∙ len, λ b. let x = more b in let y = more' b in omega arith)

with_lanes-Inv :
    (count quorum : ℕ) (log : List ℕ) (t : CommitTracker) (lanes : List LaneCommitState)
    → Raised t.state.lanes lanes
    → Inv count quorum log t
    → Inv count quorum log (with_lanes t lanes)
with_lanes-Inv count quorum log t lanes (len, more) inv = record {
  resolved = inv.resolved;
  split = inv.split;
  committed = inv.committed;
  admitted = inv.admitted;
  bytes = inv.bytes;
  supported =
      All-map (Supported quorum t.state.lanes) (Supported quorum lanes) inv.resolved
        (λ b s. let m = more b in omega arith) inv.supported;
  lanes = len ∙ inv.lanes;
  same_quorum = inv.same_quorum;
  published = inv.published;
}

fail-Inv :
    (count quorum : ℕ) (log : List ℕ) (failure : CommitFailure) (t : CommitTracker)
    → Inv count quorum log t
    → Inv count quorum log (fail failure t)
unfolding fail publish
fail-Inv count quorum log failure t inv = elim (Option-cases t.state.failure) [
  | inl live ↦
      rw (live, fail)
        (record {
          resolved = inv.resolved;
          split = inv.split;
          committed = inv.committed;
          admitted = inv.admitted;
          bytes = inv.bytes;
          supported = inv.supported;
          lanes = inv.lanes;
          same_quorum = inv.same_quorum;
          published = refl;
        })
  | inr (f, failed) ↦ rw (failed, fail) inv
]

add_boundaries-Inv :
    (count quorum : ℕ) (log boundaries : List ℕ) (t : CommitTracker)
    → Inv count quorum log t
    → Inv count quorum (log ++ boundaries) (record t {
      state = record t.state {
        admitted = t.state.admitted + length boundaries;
        boundaries = t.state.boundaries ++ boundaries;
      };
    })
add_boundaries-Inv count quorum log boundaries t inv = record {
  resolved = inv.resolved;
  split =
      ap (λ xs. xs ++ boundaries) inv.split
      ∙ append_assoc inv.resolved t.state.boundaries boundaries;
  committed = inv.committed;
  admitted = omega (arith, inv.admitted, length-append log boundaries);
  bytes = inv.bytes;
  supported = inv.supported;
  lanes = inv.lanes;
  same_quorum = inv.same_quorum;
  published = inv.published;
}

length-replicate {ℓ} : {A : Type ℓ} (n : ℕ) (a : A) → length (replicate n a) ≡ n
length-replicate zero a = refl
length-replicate (suc n) a = ap suc (length-replicate n a)

new-Inv : (count quorum : ℕ) → Inv count quorum [] (new count quorum)
unfolding new
new-Inv count quorum = record {
  resolved = [];
  split = refl;
  committed = refl;
  admitted = refl;
  bytes = refl;
  supported = tt;
  lanes = length-replicate count default_lane;
  same_quorum = refl;
  published = refl;
}

finish-Inv :
    (count quorum : ℕ) (log : List ℕ) (zone : ℕ) (error : Option TransportError) (t : CommitTracker)
    → Inv count quorum log t
    → Inv count quorum log (with_lanes t (update_lane zone (finish error) t.state.lanes))
finish-Inv count quorum log zone error t inv =
    with_lanes-Inv count quorum log t (update_lane zone (finish error) t.state.lanes)
      (update_lane-Raised zone (finish error) t.state.lanes (λ lane same.
        elim (Option-cases error) [ inl e ↦ rw e (omega arith) | inr (a, e) ↦ rw e (omega arith) ]))
      inv

module _ (count quorum : ℕ) (positive : 1 ≤ quorum) (fits : quorum ≤ count) where
  step-Inv :
      (call : Call) (log : List ℕ) (t : CommitTracker)
      → Allowed call t
      → Inv count quorum log t
      → Inv count quorum (log ++ admitted_by call) (step call t)
  unfolding step admit_window publish_durable finish_lane activate_lane poison
  step-Inv (Call.activate zone offset) log t allowed inv =
      let f : LaneCommitState → LaneCommitState =
        λ lane. record lane { durable = nonnegative offset; finished = false } in
      rw (append-nil log) (
        with_lanes-Inv count quorum log t (update_lane zone f t.state.lanes)
          (update_lane-Raised zone f t.state.lanes (λ lane e. omega arith)) inv)
  step-Inv (Call.admit boundaries zones) log t allowed inv =
      recompute-Inv count quorum positive fits (log ++ boundaries) _ (
        with_lanes-Inv count quorum (log ++ boundaries) _
          (represent (last_or 0 boundaries) zones t.state.lanes)
          (represent-Raised (last_or 0 boundaries) zones t.state.lanes)
          (add_boundaries-Inv count quorum log boundaries t inv))
  step-Inv (Call.durable zone (negsuc n)) log t allowed inv = rw (append-nil log) inv
  step-Inv (Call.durable zone (pos n)) log t allowed inv =
      let f : LaneCommitState → LaneCommitState = λ lane. record lane { durable = n } in
      elim (Bool-cases (leb n (lane_durable t.state.lanes zone))) [
        | inl e ↦ rw (e, append-nil log) inv
        | inr e ↦
            let above : lane_durable t.state.lanes zone ≤ n = ground arith in
            rw (e, append-nil log)
              (recompute-Inv count quorum positive fits log _ (
                with_lanes-Inv count quorum log t (update_lane zone f t.state.lanes)
                  (update_lane-Raised zone f t.state.lanes (λ lane same. omega arith)) inv))
      ]
  step-Inv (Call.finished zone none) log t allowed inv =
      rw (append-nil log) (
        recompute-Inv count quorum positive fits log _
          (finish-Inv count quorum log zone none t inv))
  step-Inv (Call.finished zone (some error)) log t allowed inv =
      let ended = finish-Inv count quorum log zone (some error) t inv in
      elim (Bool-cases (fences_writer error.code)) [
        | inl e ↦ rw (e, append-nil log) (fail-Inv count quorum log (fenced error.message) _ ended)
        | inr e ↦ rw (e, append-nil log) (recompute-Inv count quorum positive fits log _ ended)
      ]
  step-Inv Call.poisoned log t allowed inv =
      rw (append-nil log) (fail-Inv count quorum log poisoned t inv)

  -- With a quorum of at least one and at most all lanes, after any interleaving of the calls of writer
  -- and lanes in which no lane is activated below what it reported: the admitted boundaries are those
  -- resolved and then those held in order; the committed count is that of the resolved ones, each of
  -- which a quorum of lanes has durable; the committed bytes are the last of them, and the channel
  -- shows count and failure.
  pub Reachable-Inv :
      (log : List ℕ) (t : CommitTracker) → Reachable count quorum log t → Inv count quorum log t
  Reachable-Inv log t Reachable.started = new-Inv count quorum
  Reachable-Inv log t (called {log = log'} {t = t'} call allowed reached) =
      step-Inv call log' t' allowed (Reachable-Inv log' t' reached)
