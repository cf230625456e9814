-- ===== src/Manifest/Mutations/Fencing.antt =====
-- A mutator acts only under the claim that it carries, and leaves the claim and the replica binding
-- alone.
use chorus.Prelude.{
  ◌∙◌, ℕ, List, Option, none, some, ◌≡◌, ◌≢◌, ◌⊎◌, inl, inr, arith, Result, ok, err, ◌>>◌,
  >>=-eq-ok,
}
use chorus.Errors.{ProtocolError}
use chorus.Errors.ProtocolError.{fenced}
use chorus.Text.{Text}
use chorus.Text.Equality.{text_eq_refl, eq_of_text_eq, text_eq-false}
use chorus.Manifest.{ManifestRecord}
use chorus.Manifest.Mutations.{
  validate_removals, raise_trunc_into, update, Mutation, registers_pending, replaces_frontier,
  folds_pending, raises_trunc, removes_segments, transform, claim_of, check_claim, remove_segments,
  register_pending_into, replace_frontier_into, fold_into, fold_result,
}

pub check_claim-ok :
    (r : ManifestRecord) (epoch : ℕ) (owner : Text)
    → check_claim r epoch owner ≡ ok tt
    → (r.epoch ≡ epoch) × (r.owner ≡ owner)
unfolding check_claim
check_claim-ok r epoch owner h = ground (arith, eq_of_text_eq r.owner owner)

check_claim_fenced :
    (r : ManifestRecord) (epoch : ℕ) (owner : Text)
    → (r.epoch ≢ epoch) ⊎ (r.owner ≢ owner)
    → check_claim r epoch owner ≡ err (fenced "a higher epoch claimed the manifest")
unfolding check_claim
check_claim_fenced r epoch owner (inl ne) = ground arith
check_claim_fenced r epoch owner (inr ne) = ground (arith, text_eq-false r.owner owner)

fenced_first :
    {A : Type 0} (r : ManifestRecord) (e epoch : ℕ) (o owner : Text) (m : Result ProtocolError A)
    → ◌≡◌ {A = Option (ℕ × Text)} (some (e, o)) (some (epoch, owner))
    → (r.epoch ≢ epoch) ⊎ (r.owner ≢ owner)
    → (check_claim r e o >> m) ≡ err (fenced "a higher epoch claimed the manifest")
fenced_first r e epoch o owner m c ne = rw (check_claim_fenced r e o (moved ne))
  where
    moved : (r.epoch ≢ epoch) ⊎ (r.owner ≢ owner) → (r.epoch ≢ e) ⊎ (r.owner ≢ o)
    moved (inl n) = inl (λ k. n (cc))
    moved (inr n) = inr (λ k. n (cc))

-- Once the register's epoch or owner is not the writer's, every claim-bound mutator is refused as
-- fenced, whatever its other arguments and the rest of the register.
pub transform_fenced :
    (m : Mutation) (r : ManifestRecord) (epoch : ℕ) (owner : Text)
    → claim_of m ≡ some (epoch, owner)
    → (r.epoch ≢ epoch) ⊎ (r.owner ≢ owner)
    → transform m r ≡ err (fenced "a higher epoch claimed the manifest")
unfolding transform
transform_fenced (registers_pending e o p) r epoch owner c ne =
    fenced_first r e epoch o owner (register_pending_into p r.pending_id r) c ne
transform_fenced (replaces_frontier e o f) r epoch owner c ne =
    fenced_first r e epoch o owner (replace_frontier_into f r) c ne
transform_fenced (folds_pending e o n f) r epoch owner c ne =
    fenced_first r e epoch o owner (fold_into n f r) c ne
transform_fenced (raises_trunc e o n) r epoch owner c ne =
    fenced_first r e epoch o owner (raise_trunc_into n r) c ne
transform_fenced (removes_segments ids n) r epoch owner c ne = cc

pub claim_first :
    {A : Type 0} (r : ManifestRecord) (e : ℕ) (o : Text) (m : Result ProtocolError A) (x : A)
    → (check_claim r e o >> m) ≡ ok x
    → (r.epoch ≡ e) × (r.owner ≡ o) × (m ≡ ok x)
claim_first r e o m x h =
    let (u, claimed, rest) = >>=-eq-ok (check_claim r e o) (λ _. m) h in
    let (same_epoch, same_owner) = check_claim-ok r e o claimed in (same_epoch, same_owner, rest)

register_pending_into_keeps :
    (p : Text) (o : Option Text) (r next : ManifestRecord)
    → register_pending_into p o r ≡ ok (update next tt)
    → (next.epoch ≡ r.epoch) × (next.owner ≡ r.owner) × (next.buckets ≡ r.buckets)
unfolding register_pending_into
register_pending_into_keeps p (some q) r next h = ground arith
register_pending_into_keeps p none r next h = ground arith

replace_frontier_into_keeps :
    (f : _) (r next : ManifestRecord)
    → replace_frontier_into f r ≡ ok (update next tt)
    → (next.epoch ≡ r.epoch) × (next.owner ≡ r.owner) × (next.buckets ≡ r.buckets)
unfolding replace_frontier_into
replace_frontier_into_keeps f r next h = ground arith

fold_into_keeps :
    (n : ℕ) (f : _) (r next : ManifestRecord)
    → fold_into n f r ≡ ok (update next tt)
    → (next.epoch ≡ r.epoch) × (next.owner ≡ r.owner) × (next.buckets ≡ r.buckets)
unfolding fold_into fold_result
fold_into_keeps n f r next h = ground arith

raise_trunc_into_keeps :
    (n : ℕ) (r next : ManifestRecord)
    → raise_trunc_into n r ≡ ok (update next tt)
    → (next.epoch ≡ r.epoch) × (next.owner ≡ r.owner) × (next.buckets ≡ r.buckets)
unfolding raise_trunc_into
raise_trunc_into_keeps n r next h = ground arith

remove_segments_keeps :
    (ids : List Text) (n : ℕ) (r next : ManifestRecord)
    → remove_segments ids n r ≡ ok (update next tt)
    → (next.epoch ≡ r.epoch) × (next.owner ≡ r.owner) × (next.buckets ≡ r.buckets)
unfolding remove_segments
remove_segments_keeps ids n r next h =
    let (_, _, rest) = >>=-eq-ok (validate_removals r ids n) _ h in ground arith

-- No mutator but `claim` changes the epoch, the owner or the replica binding.
pub transform_keeps :
    (m : Mutation) (r next : ManifestRecord)
    → transform m r ≡ ok (update next tt)
    → (next.epoch ≡ r.epoch) × (next.owner ≡ r.owner) × (next.buckets ≡ r.buckets)
unfolding transform
transform_keeps (registers_pending e o p) r next h =
    register_pending_into_keeps p r.pending_id r next (claim_first r e o _ _ h).2
transform_keeps (replaces_frontier e o f) r next h =
    replace_frontier_into_keeps f r next (claim_first r e o _ _ h).2
transform_keeps (folds_pending e o n f) r next h =
    fold_into_keeps n f r next (claim_first r e o _ _ h).2
transform_keeps (raises_trunc e o n) r next h =
    raise_trunc_into_keeps n r next (claim_first r e o _ _ h).2
transform_keeps (removes_segments ids n) r next h = remove_segments_keeps ids n r next h

check_claim_passes :
    (r : ManifestRecord) (epoch : ℕ) (owner : Text)
    → r.epoch ≡ epoch
    → r.owner ≡ owner
    → check_claim r epoch owner ≡ ok tt
unfolding check_claim
check_claim_passes r epoch owner e o = ground (arith, text_eq_refl owner)

-- A register that keeps the claim passes the check again.
pub claim_again :
    {A : Type 0} (r next : ManifestRecord) (e : ℕ) (o : Text) (m : Result ProtocolError A) (x : A)
    → (r.epoch ≡ e) × (r.owner ≡ o)
    → (next.epoch ≡ r.epoch) × (next.owner ≡ r.owner) × (next.buckets ≡ r.buckets)
    → m ≡ ok x
    → (check_claim next e o >> m) ≡ ok x
claim_again r next e o m x (epoch, owner) (kept_epoch, kept_owner, _) h =
    rw (check_claim_passes next e o (kept_epoch ∙ epoch) (kept_owner ∙ owner)) h
