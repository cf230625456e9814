-- ===== src/Commit/Failure.antt =====
-- When `CommitTracker` of rust/client/src/protocol.rs fails, and what it does afterwards.
use chorus.Prelude.{
  max, if◌then◌else◌, ℕ, ◌+◌, ◌≤◌, ◌<◌, ◌≡◌, refl, sym, ap, ◌∙◌, ◌⊎◌, inl, inr, Bool, true, false,
  ◌||◌, none, some, List, [], ◌∷◌, ◌++◌, arith, ltb, leb, ltb→lt, leb→le, Bool-cases, length,
}
use chorus.Prelude.Int.{pos, negsuc}
use chorus.Transport.{fences_writer}
use chorus.Commit.{
  may_reach, finish, update_lane, is_some, Drained, last_or, represent, CommitState, publish,
  quorum_durable_watermark, with_lanes, failed_boundary, settle, select_commit_failure, possible,
  get_or, durables, fenced, lane_durable, poison, activate_lane, finish_lane, CommitTracker,
  publish_durable, CommitFailure, drain, recompute, fail, admit_window, LaneCommitState,
}
use chorus.Commit.Watermark.{count_at_least, quorum_durable_watermark_iff}
use chorus.Commit.Steps.{Call, step}

drain_stops :
    (watermark : ℕ) (boundaries : List ℕ) (committed bytes : ℕ) (changed : Bool) (b : ℕ)
    (bs : List ℕ)
    → (drain watermark boundaries committed bytes changed).boundaries ≡ b ∷ bs
    → watermark < b
unfolding drain
drain_stops watermark [] committed bytes changed b bs = λ e. absurd (ground arith)
drain_stops watermark (x ∷ xs) committed bytes changed b bs = elim (Bool-cases (leb x watermark)) [
  | inl below ↦ rw (below, drain) (drain_stops watermark xs (committed + 1) x true b bs)
  | inr above ↦ rw (above, drain) (λ e. let same = ap (λ ys. get_or ys 0 0) e in ground arith)
]

-- What the tracker reports about a failure `f` from `t` to `t'`: it is kept, and so are the count
-- and what the channel shows.
abbrev Frozen : CommitFailure → CommitTracker → CommitTracker → Type 0
Frozen f t t' =
    (t'.state.failure ≡ some f)
    × (t'.state.committed ≡ t.state.committed)
    × (t'.updates ≡ t.updates)

recompute-Frozen :
    (f : CommitFailure) (t : CommitTracker) → t.state.failure ≡ some f → Frozen f t (recompute t)
unfolding recompute
recompute-Frozen f t failed = rw (failed, recompute) (failed, refl, refl)

fail-Frozen :
    (f failure : CommitFailure) (t : CommitTracker)
    → t.state.failure ≡ some f
    → Frozen f t (fail failure t)
unfolding fail
fail-Frozen f failure t failed = rw (failed, fail) (failed, refl, refl)

abbrev add_boundaries : List ℕ → CommitTracker → CommitTracker
add_boundaries boundaries t = record t {
  state = record t.state {
    admitted = t.state.admitted + length boundaries;
    boundaries = t.state.boundaries ++ boundaries;
  };
}

-- Once a tracker has failed, no call changes its failure, its committed count or what the channel
-- shows.
pub step-Frozen :
    (call : Call) (f : CommitFailure) (t : CommitTracker)
    → t.state.failure ≡ some f
    → Frozen f t (step call t)
unfolding step admit_window publish_durable finish_lane activate_lane poison
step-Frozen (Call.activate zone offset) f t failed = (failed, refl, refl)
step-Frozen (Call.admit boundaries zones) f t failed =
    recompute-Frozen f
      (with_lanes (add_boundaries boundaries t)
        (represent (last_or 0 boundaries) zones t.state.lanes))
      failed
step-Frozen (Call.durable zone (negsuc n)) f t failed = (failed, refl, refl)
step-Frozen (Call.durable zone (pos n)) f t failed =
    elim (Bool-cases (leb n (lane_durable t.state.lanes zone))) [
      | inl e ↦ rw e (failed, refl, refl)
      | inr e ↦ rw e (
          recompute-Frozen f
            (with_lanes t (update_lane zone (λ lane. record lane { durable = n }) t.state.lanes))
            failed)
    ]
step-Frozen (Call.finished zone none) f t failed =
    recompute-Frozen f (with_lanes t (update_lane zone (finish none) t.state.lanes)) failed
step-Frozen (Call.finished zone (some error)) f t failed =
    let t' = with_lanes t (update_lane zone (finish (some error)) t.state.lanes) in
    elim (Bool-cases (fences_writer error.code)) [
      | inl e ↦ rw e (fail-Frozen f (fenced error.message) t' failed)
      | inr e ↦ rw e (recompute-Frozen f t' failed)
    ]
step-Frozen Call.poisoned f t failed = fail-Frozen f CommitFailure.poisoned t failed

settle-state :
    (t : CommitTracker) (d : Drained)
    → (settle t d).state ≡ record t.state {
      boundaries = d.boundaries;
      committed = d.committed;
      committed_bytes = d.committed_bytes;
      failure = failed_boundary t.quorum t.state.lanes d.boundaries;
    }
unfolding settle publish
settle-state t d =
    elim (Bool-cases (d.changed || is_some (failed_boundary t.quorum t.state.lanes d.boundaries))) [
      | inl e ↦ rw e
      | inr e ↦ rw e
    ]

-- How far a lane may still get without a new window: one that has ended stays, one that runs reports at
-- most what it was sent.
abbrev pub MayBecome : LaneCommitState → LaneCommitState → Type 0
MayBecome lane lane' =
    (lane.durable ≤ lane'.durable)
    × (lane.finished ≡ true → lane'.durable ≡ lane.durable)
    × (lane'.durable ≤ max lane.durable lane.represented_end)

-- A future of the lanes.
abbrev pub Future : List LaneCommitState → List LaneCommitState → Type 0
Future [] [] = Unit {0}
Future (lane ∷ lanes) (lane' ∷ lanes') = MayBecome lane lane' × Future lanes lanes'
Future _ _ = ⊥

-- A quorum of lanes has the boundary in some future, or in none.
abbrev pub Possible : ℕ → ℕ → List LaneCommitState → Type 0
Possible quorum oldest lanes =
    (lanes' : List LaneCommitState) × Future lanes lanes'
    × (quorum ≤ count_at_least oldest (durables lanes'))

abbrev pub Impossible : ℕ → ℕ → List LaneCommitState → Type 0
Impossible quorum oldest lanes =
    (lanes' : List LaneCommitState)
    → Future lanes lanes'
    → count_at_least oldest (durables lanes') < quorum

-- One lane's part of the bound.
MayBecome-may_reach :
    (oldest : ℕ) (lane lane' : LaneCommitState)
    → MayBecome lane lane'
    → (if leb oldest lane'.durable then 1 else 0) ≤ (if may_reach oldest lane then 1 else 0)
MayBecome-may_reach oldest lane lane' (up, still, most) = elim (Bool-cases lane.finished) [
  | inl e ↦ let same = still e in rw e (ground arith)
  | inr e ↦ rw e (ground arith)
]

Future-possible :
    (oldest : ℕ) (lanes lanes' : List LaneCommitState)
    → Future lanes lanes'
    → count_at_least oldest (durables lanes') ≤ possible oldest lanes
unfolding count_at_least possible
Future-possible oldest [] [] f = omega arith
Future-possible oldest [] (lane' ∷ lanes') f = absurd f
Future-possible oldest (lane ∷ lanes) [] f = absurd f
Future-possible oldest (lane ∷ lanes) (lane' ∷ lanes') (one, f) =
    let a = MayBecome-may_reach oldest lane lane' one in
    let b = Future-possible oldest lanes lanes' f in omega arith

-- The best future: every lane that runs reports all that it was sent.
abbrev best_lane : LaneCommitState → LaneCommitState
best_lane lane = record lane {
  durable = if lane.finished then lane.durable else max lane.durable lane.represented_end;
}

abbrev best : List LaneCommitState → List LaneCommitState
best [] = []
best (lane ∷ lanes) = best_lane lane ∷ best lanes

best_lane-MayBecome : (lane : LaneCommitState) → MayBecome lane (best_lane lane)
best_lane-MayBecome lane = elim (Bool-cases lane.finished) [
  | inl e ↦ rw e (omega arith, (λ h. refl), omega arith)
  | inr e ↦ rw e (omega arith, (λ h. absurd (ground arith)), omega arith)
]

best-Future : (lanes : List LaneCommitState) → Future lanes (best lanes)
best-Future [] = tt
best-Future (lane ∷ lanes) = (best_lane-MayBecome lane, best-Future lanes)

best_lane-may_reach :
    (oldest : ℕ) (lane : LaneCommitState)
    → (if may_reach oldest lane then 1 else 0)
      ≤ (if leb oldest (best_lane lane).durable then 1 else 0)
best_lane-may_reach oldest lane = elim (Bool-cases lane.finished) [
  | inl e ↦ rw e (ground arith)
  | inr e ↦ rw e (ground arith)
]

best-possible :
    (oldest : ℕ) (lanes : List LaneCommitState)
    → possible oldest lanes ≤ count_at_least oldest (durables (best lanes))
unfolding count_at_least possible
best-possible oldest [] = omega arith
best-possible oldest (lane ∷ lanes) =
    let a = best_lane-may_reach oldest lane in let b = best-possible oldest lanes in omega arith

failed_boundary-cases :
    (quorum : ℕ) (lanes : List LaneCommitState) (oldest : ℕ) (rest : List ℕ)
    → (failed_boundary quorum lanes (oldest ∷ rest) ≡ none) × Possible quorum oldest lanes
      ⊎ (failed_boundary quorum lanes (oldest ∷ rest) ≡ some (select_commit_failure lanes oldest))
        × Impossible quorum oldest lanes
unfolding failed_boundary
failed_boundary-cases quorum lanes oldest rest =
    elim (Bool-cases (ltb (possible oldest lanes) quorum)) [
      | inl e ↦ rw e (
          inr (
            refl,
            λ lanes' f.
                let bound = Future-possible oldest lanes lanes' f in
                let few = ltb→lt (possible oldest lanes) quorum e in omega arith,
          ))
      | inr e ↦
          let enough : quorum ≤ possible oldest lanes = ground arith in
          let reached = best-possible oldest lanes in
          rw e (inl (refl, (best lanes, best-Future lanes, omega arith)))
    ]

-- With a quorum of at least one and at most all lanes, after a tracker that had not failed is
-- recomputed and boundaries are left: the oldest of them lacks the support of a quorum; and either the
-- tracker has not failed and in some future of the lanes a quorum has that boundary, or it has failed and
-- in no future one has. In a future a lane that has ended has what it had, and one that runs at most
-- what it was sent.
pub recompute_oldest :
    (t : CommitTracker) (oldest : ℕ) (rest : List ℕ)
    → 1 ≤ t.quorum
    → t.quorum ≤ length t.state.lanes
    → t.state.failure ≡ none
    → (recompute t).state.boundaries ≡ oldest ∷ rest
    → (count_at_least oldest (durables t.state.lanes) < t.quorum)
      × (((recompute t).state.failure ≡ none) × Possible t.quorum oldest t.state.lanes
          ⊎ ((recompute t).state.failure ≡ some (select_commit_failure t.state.lanes oldest))
            × Impossible t.quorum oldest t.state.lanes)
unfolding recompute
recompute_oldest t oldest rest positive fits live =
    let watermark = quorum_durable_watermark t.state.lanes t.quorum in
    let d = drain watermark t.state.boundaries t.state.committed t.state.committed_bytes false in
    rw (live, recompute)
      (λ left.
        let same = settle-state t d in
        let head : d.boundaries ≡ oldest ∷ rest = ap CommitState.boundaries (sym same) ∙ left in
        let beyond =
          drain_stops watermark t.state.boundaries t.state.committed t.state.committed_bytes false
            oldest rest head in
        let supported = quorum_durable_watermark_iff t.state.lanes t.quorum oldest positive fits in
        let failure : (settle t d).state.failure
            ≡ failed_boundary t.quorum t.state.lanes (oldest ∷ rest) =
          ap CommitState.failure same ∙ ap (failed_boundary t.quorum t.state.lanes) head in
        let unsupported : count_at_least oldest (durables t.state.lanes) < t.quorum =
          elim (Bool-cases (leb t.quorum (count_at_least oldest (durables t.state.lanes)))) [
            | inl e ↦
                let below =
                  supported.1
                    (leb→le t.quorum (count_at_least oldest (durables t.state.lanes)) e) in
                absurd (omega arith)
            | inr e ↦ ground arith
          ] in
        (unsupported, rw failure (failed_boundary-cases t.quorum t.state.lanes oldest rest)))
