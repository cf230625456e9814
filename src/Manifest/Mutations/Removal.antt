-- ===== src/Manifest/Mutations/Removal.antt =====
-- Removing directory entries: what the removed entries are, and that the others still hold the
-- records that they held.
use chorus.Prelude.{
  ℕ, ◌≤◌, ◌<◌, ◌≡◌, refl, ◌⊎◌, inl, inr, true, false, ◌&&◌, Option, none, some, List, [], ◌∷◌,
  arith, ltb, leb, if◌then◌else◌, Bool-cases, ok,
}
use chorus.Manifest.{DirectoryEntry, next_base}
use chorus.Manifest.Valid.{IsOrdered}
use chorus.Text.{Text, contains}
use chorus.Manifest.Mutations.{check_removals, retain_unlisted}

-- The directory entry that holds a record index: the ends are derived, each entry ends before the
-- next begins and the last before the tail.
unfoldable pub segment_at : ℕ → List DirectoryEntry → ℕ → Option DirectoryEntry
segment_at tail_base [] i = none
segment_at tail_base (entry ∷ segments) i =
    if leb entry.base i && ltb i (next_base tail_base segments)
    then some entry
    else segment_at tail_base segments i

-- The guard of a listed entry: its derived end lies below the floor.
check_removals_listed :
    (ids : List Text) (n tail_base : ℕ) (e : DirectoryEntry) (es : List DirectoryEntry)
    → contains ids e.id ≡ true
    → check_removals ids n tail_base (e ∷ es) ≡ ok tt
    → (0 < next_base tail_base es)
      × (next_base tail_base es ≤ n)
      × (check_removals ids n tail_base es ≡ ok tt)
unfolding check_removals
check_removals_listed ids n tail_base e es listed h = ground arith

check_removals_kept :
    (ids : List Text) (n tail_base : ℕ) (e : DirectoryEntry) (es : List DirectoryEntry)
    → contains ids e.id ≡ false
    → check_removals ids n tail_base (e ∷ es) ≡ ok tt
    → check_removals ids n tail_base es ≡ ok tt
unfolding check_removals
check_removals_kept ids n tail_base e es kept h = ground arith

retain_listed :
    (ids : List Text) (e : DirectoryEntry) (es : List DirectoryEntry)
    → contains ids e.id ≡ true
    → retain_unlisted ids (e ∷ es) ≡ retain_unlisted ids es
unfolding retain_unlisted
retain_listed ids e es h = rw h

retain_kept :
    (ids : List Text) (e : DirectoryEntry) (es : List DirectoryEntry)
    → contains ids e.id ≡ false
    → retain_unlisted ids (e ∷ es) ≡ e ∷ retain_unlisted ids es
unfolding retain_unlisted
retain_kept ids e es h = rw h

-- A removal moves the base that follows a place only to another base at or below the floor.
next_base-retain :
    (ids : List Text) (n tail_base : ℕ) (es : List DirectoryEntry)
    → IsOrdered tail_base es
    → check_removals ids n tail_base es ≡ ok tt
    → (next_base tail_base (retain_unlisted ids es) ≡ next_base tail_base es)
      ⊎ ((next_base tail_base (retain_unlisted ids es) ≤ n)
          × (next_base tail_base es ≤ next_base tail_base (retain_unlisted ids es))
          × (next_base tail_base es < n))
next_base-retain ids n tail_base [] o h = inl (unfold retain_unlisted in refl)
next_base-retain ids n tail_base (e ∷ es) o h = elim (Bool-cases (contains ids e.id)) [
  | inr kept ↦ inl (rw (retain_kept ids e es kept))
  | inl listed ↦
      let (pos, below, rest) = check_removals_listed ids n tail_base e es listed h in
      rw (retain_listed ids e es listed)
        (inr (further es o below (next_base-retain ids n tail_base es o.1 rest)))
]
  where
    further :
        (es' : List DirectoryEntry)
        → IsOrdered tail_base (e ∷ es')
        → next_base tail_base es' ≤ n
        → (next_base tail_base (retain_unlisted ids es') ≡ next_base tail_base es')
          ⊎ ((next_base tail_base (retain_unlisted ids es') ≤ n)
              × (next_base tail_base es' ≤ next_base tail_base (retain_unlisted ids es'))
              × (next_base tail_base es' < n))
        → (next_base tail_base (retain_unlisted ids es') ≤ n)
          × (e.base ≤ next_base tail_base (retain_unlisted ids es'))
          × (e.base < n)
    further es' o' b (inl same) = omega arith
    further es' o' b (inr (x, y, z)) = omega arith

module _ (ids : List Text) (n tail_base i : ℕ) (e : DirectoryEntry) (es : List DirectoryEntry) where
  skip :
      next_base tail_base es ≤ i
      → segment_at tail_base (retain_unlisted ids es) i ≡ segment_at tail_base es i
      → segment_at tail_base (retain_unlisted ids es) i ≡ segment_at tail_base (e ∷ es) i
  unfolding segment_at
  skip below rest = ground arith

  same :
      (next_base tail_base (retain_unlisted ids es) ≡ next_base tail_base es)
        ⊎ ((next_base tail_base (retain_unlisted ids es) ≤ n)
            × (next_base tail_base es ≤ next_base tail_base (retain_unlisted ids es))
            × (next_base tail_base es < n))
      → n ≤ i
      → segment_at tail_base (retain_unlisted ids es) i ≡ segment_at tail_base es i
      → segment_at tail_base (e ∷ retain_unlisted ids es) i ≡ segment_at tail_base (e ∷ es) i
  unfolding segment_at
  same (inl eq) above rest = rw (eq, rest)
  same (inr (x, y, z)) above rest = ground arith

-- At or above the floor of a removal, every record index is held by the same entry as before, or
-- by none as before.
pub segment_at-retain :
    (ids : List Text) (n tail_base i : ℕ) (es : List DirectoryEntry)
    → IsOrdered tail_base es
    → check_removals ids n tail_base es ≡ ok tt
    → n ≤ i
    → segment_at tail_base (retain_unlisted ids es) i ≡ segment_at tail_base es i
segment_at-retain ids n tail_base i [] o h above = unfold retain_unlisted in refl
segment_at-retain ids n tail_base i (e ∷ es) o h above = elim (Bool-cases (contains ids e.id)) [
  | inl listed ↦
      let (pos, below, rest) = check_removals_listed ids n tail_base e es listed h in
      rw (retain_listed ids e es listed) (
        skip ids n tail_base i e es (omega arith)
          (segment_at-retain ids n tail_base i es o.1 rest above))
  | inr kept ↦
      let rest = check_removals_kept ids n tail_base e es kept h in
      rw (retain_kept ids e es kept) (
        same ids n tail_base i e es (next_base-retain ids n tail_base es o.1 rest) above
          (segment_at-retain ids n tail_base i es o.1 rest above))
]
