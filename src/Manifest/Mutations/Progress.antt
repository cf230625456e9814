-- ===== src/Manifest/Mutations/Progress.antt =====
-- The register only moves forward: no mutator lowers the floor or the tail, and none changes which
-- sealed segment holds a retained record.
use chorus.Prelude.{
  ℕ, ◌+◌, ◌≤◌, ◌<◌, ◌≡◌, sym, ap, ◌∙◌, Option, none, some, List, [], ◌∷◌, ◌++◌, arith, ok,
}
use chorus.Manifest.{ManifestRecord, DirectoryEntry, validate}
use chorus.Manifest.Valid.{IsOrdered, validate-IsValid}
use chorus.Text.{Text}
use chorus.Manifest.Mutations.{
  update, Mutation, registers_pending, replaces_frontier, folds_pending, raises_trunc,
  removes_segments, transform, EmptyFrontier, PendingFold, register_pending_into,
  replace_frontier_into, fold_into, fold_result, raise_trunc_into,
}
use chorus.Manifest.Mutations.Fencing.{claim_first}
use chorus.Manifest.Mutations.Retry.{fold_into-eq-update, remove_segments-eq-update}
use chorus.Manifest.Mutations.Removal.{segment_at, segment_at-retain}

abbrev pub HoldsAt : ManifestRecord → ℕ → DirectoryEntry → Type 0
HoldsAt r i entry = segment_at r.tail_base r.segments i ≡ some entry

pub record Advances (r next : ManifestRecord) : Type 0 where
  pub floor : r.trunc ≤ next.trunc
  pub tail : r.tail_base ≤ next.tail_base
  pub history :
      (i : ℕ) (entry : DirectoryEntry) → next.trunc ≤ i → HoldsAt r i entry → HoldsAt next i entry

-- A register with the same directory and tail and no lower floor.
same_directory :
    (r next : ManifestRecord)
    → r.trunc ≤ next.trunc
    → next.tail_base ≡ r.tail_base
    → next.segments ≡ r.segments
    → Advances r next
same_directory r next floor tail segments = record {
  floor = floor;
  tail = omega arith;
  history = λ i entry above held. rw (tail, segments) held;
}

ordered_last :
    (tail_base : ℕ) (es : List DirectoryEntry) (e : DirectoryEntry)
    → IsOrdered tail_base (es ++ (e ∷ []))
    → e.base < tail_base
ordered_last tail_base [] e o = o.0
ordered_last tail_base (x ∷ es) e o = ordered_last tail_base es e o.1

-- A new entry at the old tail leaves every older entry its range.
segment_at-append :
    (tail_base new_tail i : ℕ) (es : List DirectoryEntry) (e entry : DirectoryEntry)
    → e.base ≡ tail_base
    → segment_at tail_base es i ≡ some entry
    → segment_at new_tail (es ++ (e ∷ [])) i ≡ some entry
unfolding segment_at
segment_at-append tail_base new_tail i [] e entry at h = cc
segment_at-append tail_base new_tail i (x ∷ []) e entry at h = ground arith
segment_at-append tail_base new_tail i (x ∷ y ∷ es) e entry at h =
    ground (arith, segment_at-append tail_base new_tail i (y ∷ es) e entry at)

fold_parts :
    (f : PendingFold) (r next : ManifestRecord) (tail_base : ℕ)
    → next ≡ fold_result f r tail_base
    → r.tail_base ≡ f.old_tail_base
    → IsOrdered next.tail_base next.segments
    → Advances r next
unfolding fold_result
fold_parts f r next tail_base moved at ordered =
    let folded : DirectoryEntry = record {
      id = f.old_tail_id;
      base = f.old_tail_base;
      crc32c = f.old_tail_crc32c;
    } in
    let tail : next.tail_base ≡ tail_base = ap (λ (x : ManifestRecord). x.tail_base) moved in
    let entries : next.segments ≡ r.segments ++ (folded ∷ []) =
      ap (λ (x : ManifestRecord). x.segments) moved in
    let floor : next.trunc ≡ r.trunc = ap (λ (x : ManifestRecord). x.trunc) moved in
    let later = ordered_last next.tail_base r.segments folded (rw entries at ordered) in
    record {
      floor = omega arith;
      tail = omega arith;
      history = λ i entry above held.
          rw entries
            (segment_at-append r.tail_base next.tail_base i r.segments folded entry (sym at) held);
    }

fold-Advances :
    (n : ℕ) (f : PendingFold) (r next : ManifestRecord)
    → fold_into n f r ≡ ok (update next tt)
    → validate next ≡ ok tt
    → Advances r next
fold-Advances n f r next h valid =
    let v = (validate-IsValid next valid).ordered in
    let (fits, moved, _, at, _) = fold_into-eq-update n f r next h in
    fold_parts f r next (f.old_tail_end + 1) moved at v

register-Advances :
    (p : Text) (o : Option Text) (r next : ManifestRecord)
    → register_pending_into p o r ≡ ok (update next tt)
    → Advances r next
unfolding register_pending_into
register-Advances p (some q) r next h =
    same_directory r next (ground arith) (ground arith) (ground arith)
register-Advances p none r next h =
    same_directory r next (ground arith) (ground arith) (ground arith)

replace-Advances :
    (f : EmptyFrontier) (r next : ManifestRecord)
    → replace_frontier_into f r ≡ ok (update next tt)
    → Advances r next
unfolding replace_frontier_into
replace-Advances f r next h = same_directory r next (ground arith) (ground arith) (ground arith)

raise-Advances :
    (n : ℕ) (r next : ManifestRecord) → raise_trunc_into n r ≡ ok (update next tt) → Advances r next
unfolding raise_trunc_into
raise-Advances n r next h = same_directory r next (ground arith) (ground arith) (ground arith)

-- Every mutation that the register accepts, from a valid register to a valid one, advances it.
pub transform-Advances :
    (m : Mutation) (r next : ManifestRecord)
    → transform m r ≡ ok (update next tt)
    → validate r ≡ ok tt
    → validate next ≡ ok tt
    → Advances r next
unfolding transform
transform-Advances (registers_pending e o p) r next h v w =
    register-Advances p r.pending_id r next (claim_first r e o _ _ h).2
transform-Advances (replaces_frontier e o f) r next h v w =
    replace-Advances f r next (claim_first r e o _ _ h).2
transform-Advances (folds_pending e o n f) r next h v w =
    fold-Advances n f r next (claim_first r e o _ _ h).2 w
transform-Advances (raises_trunc e o n) r next h v w =
    raise-Advances n r next (claim_first r e o _ _ h).2
transform-Advances (removes_segments ids n) r next h v w =
    let (floor, checked, e) = remove_segments-eq-update ids n r next h in
    rw e (record {
      floor = omega arith;
      tail = omega arith;
      history = λ i entry above held.
          segment_at-retain ids n r.tail_base i r.segments (validate-IsValid r v).ordered checked
            (omega arith)
          ∙ held;
    })
