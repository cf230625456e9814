-- ===== src/Manifest/Mutations/Retry.antt =====
-- A retry after a lost response: applied to the register that it has itself written, a mutator
-- other than claim finds its work done.
use chorus.Prelude.{
  ℕ, ◌+◌, ◌≤◌, ◌≡◌, refl, inl, inr, true, false, Option, none, some, List, [], ◌∷◌, ◌++◌, arith,
  Bool-cases, u64_max, ok, >>=-eq-ok,
}
use chorus.Text.{Text}
use chorus.Text.Equality.{eq_of_option_eq, text_eq_refl}
use chorus.Manifest.{contains, ◌∷◌, ManifestRecord, DirectoryEntry, last?}
use chorus.Manifest.Mutations.{
  validate_removals, retain_unlisted, committed_crc32c, any_listed, check_removals, done, update,
  Mutation, registers_pending, replaces_frontier, folds_pending, raises_trunc, removes_segments,
  transform, EmptyFrontier, PendingFold, register_pending_into, replace_frontier_into, fold_into,
  fold_result, fold_committed, raise_trunc_into, remove_segments,
}
use chorus.Manifest.Mutations.Fencing.{transform_keeps, claim_again, claim_first}

register_pending_into_retry :
    (p : Text) (o : Option Text) (r next : ManifestRecord)
    → register_pending_into p o r ≡ ok (update next tt)
    → register_pending_into p next.pending_id next ≡ ok (done tt)
unfolding register_pending_into
register_pending_into_retry p (some q) r next h = ground arith
register_pending_into_retry p none r next h = ground (arith, text_eq_refl p)

replace_frontier_into_retry :
    (f : EmptyFrontier) (r next : ManifestRecord)
    → replace_frontier_into f r ≡ ok (update next tt)
    → replace_frontier_into f next ≡ ok (done tt)
unfolding replace_frontier_into
replace_frontier_into_retry f r next h =
    ground (arith, text_eq_refl f.active_id, text_eq_refl f.pending_id)

raise_trunc_into_retry :
    (n : ℕ) (r next : ManifestRecord)
    → raise_trunc_into n r ≡ ok (update next tt)
    → raise_trunc_into n next ≡ ok (done tt)
unfolding raise_trunc_into
raise_trunc_into_retry n r next h = ground arith

pub fold_into-eq-update :
    (n : ℕ) (f : PendingFold) (r next : ManifestRecord)
    → fold_into n f r ≡ ok (update next tt)
    → (f.old_tail_end + 1 ≤ u64_max)
      × (next ≡ fold_result f r (f.old_tail_end + 1))
      × (r.tail_id ≡ some f.old_tail_id)
      × (r.tail_base ≡ f.old_tail_base)
      × (r.pending_id ≡ some f.consumed_pending_id)
unfolding fold_into
fold_into-eq-update n f r next h = ground (
  arith,
  eq_of_option_eq r.tail_id (some f.old_tail_id),
  eq_of_option_eq r.pending_id (some f.consumed_pending_id),
)

fold_result_committed :
    (f : PendingFold) (r : ManifestRecord)
    → f.old_tail_end + 1 ≤ u64_max
    → fold_committed f (fold_result f r (f.old_tail_end + 1)) ≡ true
unfolding fold_committed fold_result
fold_result_committed f r h = ground (
  arith,
  text_eq_refl f.successor_tail_id,
  text_eq_refl f.refill_pending_id,
  text_eq_refl f.old_tail_id,
  text_eq_refl f.old_tail_digest,
)

last?-append : (es : List DirectoryEntry) (e : DirectoryEntry) → last? (es ++ (e ∷ [])) ≡ some e
last?-append [] e = refl
last?-append (x ∷ []) e = refl
last?-append (x ∷ y ∷ es) e = last?-append (y ∷ es) e

fold_result_crc :
    (f : PendingFold) (r : ManifestRecord) (tail_base : ℕ)
    → committed_crc32c f (last? (fold_result f r tail_base).segments) ≡ some f.old_tail_crc32c
unfolding fold_result
fold_result_crc f r tail_base =
    rw
      (last?-append r.segments
        (record { id = f.old_tail_id; base = f.old_tail_base; crc32c = f.old_tail_crc32c }))
      (ground (arith, text_eq_refl f.old_tail_id))

fold_into_retry :
    (n : ℕ) (f : PendingFold) (r next : ManifestRecord)
    → fold_into n f r ≡ ok (update next tt)
    → fold_into n f next ≡ ok (done tt)
unfolding fold_into
fold_into_retry n f r next h =
    let (fits, e, _, _, _) = fold_into-eq-update n f r next h in
    rw (e, fold_result_committed f r fits, fold_result_crc f r (f.old_tail_end + 1)) (ground arith)

kept :
    (ids : List Text) (n tail_base : ℕ) (e : DirectoryEntry) (es : List DirectoryEntry)
    → contains ids e.id ≡ false
    → check_removals ids n tail_base es ≡ ok tt
    → check_removals ids n tail_base (e ∷ es) ≡ ok tt
unfolding check_removals
kept ids n tail_base e es h rest = rw h rest

check_removals-retain :
    (ids : List Text) (n tail_base : ℕ) (es : List DirectoryEntry)
    → check_removals ids n tail_base (retain_unlisted ids es) ≡ ok tt
unfolding check_removals retain_unlisted
check_removals-retain ids n tail_base [] = refl
check_removals-retain ids n tail_base (e ∷ es) = elim (Bool-cases (contains ids e.id)) [
  | inl h ↦ rw h (check_removals-retain ids n tail_base es)
  | inr h ↦
      rw h (
        kept ids n tail_base e (retain_unlisted ids es) h
          (check_removals-retain ids n tail_base es))
]

any_listed-retain :
    (ids : List Text) (es : List DirectoryEntry) → any_listed ids (retain_unlisted ids es) ≡ false
unfolding any_listed retain_unlisted
any_listed-retain ids [] = refl
any_listed-retain ids (e ∷ es) = elim (Bool-cases (contains ids e.id)) [
  | inl h ↦ rw h (any_listed-retain ids es)
  | inr h ↦ rw h (ground (arith, any_listed-retain ids es))
]

pub remove_segments-eq-update :
    (ids : List Text) (n : ℕ) (r next : ManifestRecord)
    → remove_segments ids n r ≡ ok (update next tt)
    → (n ≤ r.trunc)
      × (check_removals ids n r.tail_base r.segments ≡ ok tt)
      × (next ≡ record r { segments = retain_unlisted ids r.segments })
unfolding remove_segments
remove_segments-eq-update ids n r next h =
    let (u, checked, rest) = >>=-eq-ok (validate_removals r ids n) _ h in ground arith

remove_segments_retry :
    (ids : List Text) (n : ℕ) (r next : ManifestRecord)
    → remove_segments ids n r ≡ ok (update next tt)
    → remove_segments ids n next ≡ ok (done tt)
unfolding remove_segments
remove_segments_retry ids n r next h =
    let (floor, _, e) = remove_segments-eq-update ids n r next h in
    rw (e, check_removals-retain ids n r.tail_base r.segments, any_listed-retain ids r.segments)
      (ground arith)

-- Each mutator but claim (register_pending, replace_empty_frontier, fold_pending, raise_trunc and
-- remove_segments) recognises its own committed write: applied again to the register that it wrote, it
-- reports success and writes nothing.
pub transform_retry :
    (m : Mutation) (r next : ManifestRecord)
    → transform m r ≡ ok (update next tt)
    → transform m next ≡ ok (done tt)
unfolding transform
transform_retry (registers_pending e o p) r next h =
    let (epoch, owner, rest) = claim_first r e o _ _ h in
    claim_again r next e o (register_pending_into p next.pending_id next) (done tt) (epoch, owner)
      (transform_keeps (registers_pending e o p) r next h)
      (register_pending_into_retry p r.pending_id r next rest)
transform_retry (replaces_frontier e o f) r next h =
    let (epoch, owner, rest) = claim_first r e o _ _ h in
    claim_again r next e o (replace_frontier_into f next) (done tt) (epoch, owner)
      (transform_keeps (replaces_frontier e o f) r next h)
      (replace_frontier_into_retry f r next rest)
transform_retry (folds_pending e o n f) r next h =
    let (epoch, owner, rest) = claim_first r e o _ _ h in
    claim_again r next e o (fold_into n f next) (done tt) (epoch, owner)
      (transform_keeps (folds_pending e o n f) r next h) (fold_into_retry n f r next rest)
transform_retry (raises_trunc e o n) r next h =
    let (epoch, owner, rest) = claim_first r e o _ _ h in
    claim_again r next e o (raise_trunc_into n next) (done tt) (epoch, owner)
      (transform_keeps (raises_trunc e o n) r next h) (raise_trunc_into_retry n r next rest)
transform_retry (removes_segments ids n) r next h = remove_segments_retry ids n r next h
