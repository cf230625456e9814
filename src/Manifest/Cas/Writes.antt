-- ===== src/Manifest/Cas/Writes.antt =====
-- What the register's mutators write, in any environment.
use chorus.Prelude.{
  ℕ, ◌+◌, ◌≤◌, ◌≡◌, refl, ◌≢◌, inl, inr, Bool, true, false, none, some, List, [], ◌∷◌, arith, ◌==◌,
  if◌then◌else◌, ==_iff, Bool-cases, u64_max, All, ok, err,
}
use chorus.Text.{Text, text_eq}
use chorus.Text.Equality.{text_eq-ne, eq_of_text_eq}
use chorus.Errors.{ProtocolError}
use chorus.Errors.ProtocolError.{fenced, manifest_unavailable}
use chorus.Manifest.{ManifestRecord}
use chorus.Manifest.Wire.{encode}
use chorus.Manifest.Store.{World, Write}
use chorus.Manifest.Mutations.{
  CasTransform, update, Mutation, registers_pending, replaces_frontier, folds_pending, raises_trunc,
  removes_segments, transform, claim, claim_of,
}
use chorus.Manifest.Mutations.Fencing.{transform_fenced, transform_keeps}
use chorus.Manifest.Mutations.Progress.{Advances, transform-Advances}
use chorus.Manifest.Cas.{
  Manifest, Outcome, cas_transform, cas_loop, max_cas_rounds, mutate, claim_epoch, refresh,
  after_refresh, claimed,
}
use chorus.Manifest.Cas.Known.{Represents, Knows, Justified, Sound}
use chorus.Manifest.Cas.Refresh.{refresh-Keeps}
use chorus.Manifest.Cas.Atomic.{cas_transform_atomic, cas_loop-Keeps, after_refresh-Keeps}

-- A claim-bound mutator that goes through was run under its own claim.
transform_claimed :
    (m : Mutation) (r : ManifestRecord) (x : CasTransform (Unit {0})) (epoch : ℕ) (owner : Text)
    → transform m r ≡ ok x
    → claim_of m ≡ some (epoch, owner)
    → (r.epoch ≡ epoch) × (r.owner ≡ owner)
transform_claimed m r x epoch owner h c = elim (Bool-cases (r.epoch == epoch)) [
  | inr other ↦
      absurd (cc (transform_fenced m r epoch owner c (inl (λ e. cc ((==_iff r.epoch epoch).1 e)))))
  | inl same ↦ elim (Bool-cases (text_eq r.owner owner)) [
    | inl mine ↦ ((==_iff r.epoch epoch).0 same, eq_of_text_eq r.owner owner mine)
    | inr other ↦
        absurd (cc (transform_fenced m r epoch owner c (inr (text_eq-ne r.owner owner other))))
  ]
]

-- One write of a mutator: from a valid register, under the mutator's claim if it has one, to a
-- register with the same claim and replicas that is further on.
pub record Step (m : Mutation) (write : Write) : Type 0 where
  pub old : ManifestRecord
  pub new : ManifestRecord
  pub replaced : Represents write.before old
  pub written : write.after ≡ encode new
  pub claim_held :
      (epoch : ℕ) (owner : Text)
      → claim_of m ≡ some (epoch, owner)
      → (old.epoch ≡ epoch) × (old.owner ≡ owner)
  pub claim_kept : (new.epoch ≡ old.epoch) × (new.owner ≡ old.owner)
  pub advances : Advances old new

Step-of_Justified : (m : Mutation) (write : Write) → Justified (transform m) write → Step m write
Step-of_Justified m write j =
    let (epoch, owner, _) = transform_keeps m j.old j.new j.decided in
    record {
      old = j.old;
      new = j.new;
      replaced = j.replaced;
      written = j.written;
      claim_held = λ e o. transform_claimed m j.old _ e o j.decided;
      claim_kept = (epoch, owner);
      advances = transform-Advances m j.old j.new j.decided j.replaced.0 j.accepted;
    }

Steps_of_Justified :
    (m : Mutation) (writes : List Write)
    → All (Justified (transform m)) writes
    → All (Step m) writes
Steps_of_Justified m [] j = tt
Steps_of_Justified m (write ∷ writes) j =
    (Step-of_Justified m write j.0, Steps_of_Justified m writes j.1)

cas_transform-Steps :
    (m : Mutation) (h : Manifest) (w : World) (exhausted : ProtocolError)
    → Knows h.version h.cached w.register
    → w.writes ≡ []
    → All (Step m) (cas_transform exhausted (transform m) h w).2.writes
cas_transform-Steps m h w exhausted k empty =
    Steps_of_Justified m _ (cas_transform_atomic (transform m) exhausted h w k empty).0

refreshed-Steps :
    (m : Mutation) (h : Manifest) (w : World) (exhausted : ProtocolError)
    → Knows h.version h.cached w.register
    → w.writes ≡ []
    → All (Step m) (after_refresh (cas_transform exhausted (transform m)) (refresh h w)).2.writes
unfolding cas_transform
refreshed-Steps m h w exhausted k empty =
    let s : Sound (transform m) h.version h.cached w = record {
      knows = k;
      justified = rw empty tt;
    } in
    let kept =
      after_refresh-Keeps (transform m) (cas_loop max_cas_rounds exhausted (transform m))
        (refresh h w) (refresh-Keeps (transform m) h w s)
        (cas_loop-Keeps (transform m) max_cas_rounds exhausted) in
    Steps_of_Justified m _ kept.justified

gated-Steps :
    (m : Mutation) (h : Manifest) (w : World) (fault exhausted : ProtocolError) (b : Bool)
    → Knows h.version h.cached w.register
    → w.writes ≡ []
    → All
        (Step m)
        (if b then (err fault, h, w) else cas_transform exhausted (transform m) h w).2.writes
gated-Steps m h w fault exhausted true k empty = rw empty tt
gated-Steps m h w fault exhausted false k empty = cas_transform-Steps m h w exhausted k empty

-- In any environment each write of a mutator other than claim that replaces the register replaces a
-- valid one that holds the mutator's claim (a removal has none) by one that keeps the claim and is
-- further on: no lower floor, no lower tail, and every record at or above the floor in the sealed
-- segment that held it. The premise is that the handle's cache is what the register held at the cached
-- version.
pub mutate-Steps :
    (m : Mutation) (h : Manifest) (w : World)
    → Knows h.version h.cached w.register
    → w.writes ≡ []
    → All (Step m) (mutate m h w).2.writes
unfolding mutate
mutate-Steps (removes_segments [] floor) h w k empty = rw empty tt
mutate-Steps (removes_segments (id ∷ ids) floor) h w k empty =
    cas_transform-Steps (removes_segments (id ∷ ids) floor) h w manifest_unavailable k empty
mutate-Steps (raises_trunc epoch owner floor) h w k empty =
    refreshed-Steps (raises_trunc epoch owner floor) h w manifest_unavailable k empty
mutate-Steps (registers_pending e o p) h w k empty =
    gated-Steps (registers_pending e o p) h w _ manifest_unavailable (h.epoch == 0) k empty
mutate-Steps (replaces_frontier e o f) h w k empty =
    gated-Steps (replaces_frontier e o f) h w _ manifest_unavailable (h.epoch == 0) k empty
mutate-Steps (folds_pending e o n f) h w k empty =
    gated-Steps (folds_pending e o n f) h w _ manifest_unavailable (h.epoch == 0) k empty

-- One write of a claim: the next epoch for the claiming owner, a tail id if there was none, and
-- nothing else.
pub record Claims (owner : Text) (write : Write) : Type 0 where
  pub old : ManifestRecord
  pub new : ManifestRecord
  pub replaced : Represents write.before old
  pub written : write.after ≡ encode new
  pub epoch : (new.epoch ≡ old.epoch + 1) × (new.epoch ≤ u64_max)
  pub owned : new.owner ≡ owner
  pub tail_named : new.tail_id ≢ none
  pub rest :
      (new.tail_base ≡ old.tail_base)
      × (new.trunc ≡ old.trunc)
      × (new.segments ≡ old.segments)
      × (new.pending_id ≡ old.pending_id)
      × (new.buckets ≡ old.buckets)

claim-eq-update :
    (owner : Text) (r next : ManifestRecord) (n : ℕ)
    → claim owner r ≡ ok (update next n)
    → ((next.epoch ≡ r.epoch + 1) × (next.epoch ≤ u64_max))
      × (next.owner ≡ owner)
      × (next.tail_id ≢ none)
      × ((next.tail_base ≡ r.tail_base)
          × (next.trunc ≡ r.trunc)
          × (next.segments ≡ r.segments)
          × (next.pending_id ≡ r.pending_id)
          × (next.buckets ≡ r.buckets))
unfolding claim
claim-eq-update owner r next n h = (ground arith, ground arith, ground arith, ground arith)

Claims-of_Justified :
    (owner : Text) (writes : List Write)
    → All (Justified (claim owner)) writes
    → All (Claims owner) writes
Claims-of_Justified owner [] j = tt
Claims-of_Justified owner (write ∷ writes) (j, js) =
    let (epoch, owned, named, rest) = claim-eq-update owner j.old j.new j.value j.decided in
    (
      record {
        old = j.old;
        new = j.new;
        replaced = j.replaced;
        written = j.written;
        epoch = epoch;
        owned = owned;
        tail_named = named;
        rest = rest;
      },
      Claims-of_Justified owner writes js,
    )

writes-claimed : (o : Outcome ℕ) → (claimed o).2.writes ≡ o.2.writes
writes-claimed (ok candidate, m, w) = refl
writes-claimed (err e, m, w) = refl

-- Every write of `claim`, in any environment, raises the epoch of the register that it replaces by
-- exactly one, within 64 bits, for its own owner, and leaves floor, tail base, directory, pending
-- slot and replicas alone.
pub claim_epoch-Claims :
    (h : Manifest) (w : World)
    → Knows h.version h.cached w.register
    → w.writes ≡ []
    → All (Claims h.owner) (claim_epoch h w).2.writes
unfolding claim_epoch
claim_epoch-Claims h w k empty =
    let exhausted = fenced "manifest epoch claim did not converge under contention" in
    rw (writes-claimed (cas_transform exhausted (claim h.owner) h w))
      (Claims-of_Justified h.owner _ (cas_transform_atomic (claim h.owner) exhausted h w k empty).0)
