-- ===== src/Slatedb/Retention.antt =====
-- `retain_from` of rust/client/src/slatedb/gc.rs: the first record that any retained range protects.
-- An id of the database is a u64, one more than the index of the record that it names.
use mathlib.Core.Path.{subst}
use chorus.Prelude.{
  ℕ, ◌+◌, ◌-◌, ◌≤◌, ◌<◌, min, ◌≡◌, refl, sym, ◌⊎◌, inl, inr, Bool, true, Option, none, some, List,
  [], ◌∷◌, arith, ltb, leb, if◌then◌else◌, Bool-cases, u64_max, checked_add, All,
}

pub data Bound : Type 0 where
  included : ℕ → Bound
  excluded : ℕ → Bound
  unbounded : Bound

abbrev pub first_id : Bound → Option ℕ
first_id (included id) = some id
first_id (excluded id) = checked_add id 1
first_id unbounded = some 0

abbrev pub is_nonempty : ℕ → Bound → Bool
is_nonempty first (included last) = leb first last
is_nonempty first (excluded end) = ltb first end
is_nonempty first unbounded = true

unfoldable pub protected : Bound × Bound → Option ℕ
protected (start, end) = elim (first_id start) [
  | none ↦ none
  | some first ↦ if is_nonempty first end then some (first - 1) else none
]

abbrev pub smaller : Option ℕ → ℕ → ℕ
smaller none least = least
smaller (some first) least = min first least

unfoldable pub retain_from : List (Bound × Bound) → ℕ
unfolding protected
retain_from [] = u64_max
retain_from (range ∷ ranges) = smaller (protected range) (retain_from ranges)

-- The ids that a range holds.
abbrev pub After : Bound → ℕ → Type 0
After (included start) id = start ≤ id
After (excluded start) id = start < id
After unbounded id = Unit {0}

abbrev pub Before : Bound → ℕ → Type 0
Before (included last) id = id ≤ last
Before (excluded end) id = id < end
Before unbounded id = Unit {0}

abbrev pub Holds : List (Bound × Bound) → ℕ → Type 0
Holds [] id = ⊥
Holds (range ∷ ranges) id = After range.0 id × Before range.1 id ⊎ Holds ranges id

-- The bounds are 64-bit numbers.
abbrev pub Word : Bound → Type 0
Word (included id) = id ≤ u64_max
Word (excluded id) = id ≤ u64_max
Word unbounded = Unit {0}

-- The first id of a range, if any, and the one that is protected.
abbrev Protects : Bound × Bound → Option ℕ → Type 0
Protects range none = (id : ℕ) → id ≤ u64_max → After range.0 id → Before range.1 id → ⊥
Protects range (some index) =
    ((id : ℕ) → After range.0 id → Before range.1 id → index ≤ id - 1)
    × ((id : ℕ) × (id ≤ u64_max) × After range.0 id × Before range.1 id × (index ≡ id - 1))

from_first :
    (first : ℕ) (start end : Bound)
    → first ≤ u64_max
    → After start first
    → ((id : ℕ) → After start id → first ≤ id)
    → Protects (start, end) (if is_nonempty first end then some (first - 1) else none)
from_first first start (included last) h after least = elim (Bool-cases (leb first last)) [
  | inl e ↦
      rw e ((λ id a b. let l = least id a in omega arith), (first, h, after, ground arith, refl))
  | inr e ↦ rw e (λ id fits a b. let l = least id a in ground arith)
]
from_first first start (excluded end) h after least = elim (Bool-cases (ltb first end)) [
  | inl e ↦
      rw e ((λ id a b. let l = least id a in omega arith), (first, h, after, ground arith, refl))
  | inr e ↦ rw e (λ id fits a b. let l = least id a in ground arith)
]
from_first first start unbounded h after least =
    ((λ id a b. let l = least id a in omega arith), (first, h, after, tt, refl))

protected-Protects : (range : Bound × Bound) → Word range.0 → Protects range (protected range)
unfolding protected
protected-Protects (included id, end) h = from_first id (included id) end h (omega arith) (λ i a. a)
protected-Protects (unbounded, end) h =
    from_first 0 unbounded end (omega arith) tt (λ i a. omega arith)
protected-Protects (excluded id, end) h = elim (Bool-cases (leb (id + 1) u64_max)) [
  | inl e ↦
      let computed : protected (excluded id, end)
          ≡ (if is_nonempty (id + 1) end then some (id + 1 - 1) else none) =
        rw (protected, e) refl in
      subst (Protects (excluded id, end)) (sym computed)
        (from_first (id + 1) (excluded id) end (ground arith) (omega arith) (λ i a. omega arith))
  | inr e ↦
      let computed : protected (excluded id, end) ≡ none = rw (protected, e) refl in
      subst (Protects (excluded id, end)) (sym computed) (λ i fits a b. ground arith)
]

-- The least index that is protected, and the range that protects it.
abbrev pub Least : List (Bound × Bound) → ℕ → Type 0
Least ranges index =
    ((id : ℕ) → id ≤ u64_max → Holds ranges id → index ≤ id - 1)
    × ((index ≡ u64_max) ⊎ ((id : ℕ) × (id ≤ u64_max) × Holds ranges id × (index ≡ id - 1)))

smaller-Least :
    (range : Bound × Bound) (ranges : List (Bound × Bound)) (first : Option ℕ) (index : ℕ)
    → Protects range first
    → Least ranges index
    → Least (range ∷ ranges) (smaller first index)
smaller-Least range ranges none index empty (bound, found) = (
  (λ id fits held. elim held [
    | inl (a, b) ↦ absurd (empty id fits a b)
    | inr held' ↦ bound id fits held'
  ]),
  elim found [ inl top ↦ inl top | inr (id, fits, held, same) ↦ inr (id, fits, inr held, same) ],
)
smaller-Least range ranges (some first) index (least, (id0, fits0, after0, before0, same))
      (bound, found) =
    (
      (λ id fits held. elim held [
        | inl (a, b) ↦ let l = least id a b in omega arith
        | inr held' ↦ let l = bound id fits held' in omega arith
      ]),
      elim (Bool-cases (leb first index)) [
        | inl e ↦ inr (id0, fits0, inl (after0, before0), ground arith)
        | inr e ↦ elim found [
          | inl top ↦ inl (ground arith)
          | inr (id, fits, held, same') ↦ inr (id, fits, inr held, ground arith)
        ]
      ],
    )

-- For ranges with 64-bit bounds: no id within them names a record below the boundary, and the boundary
-- is the largest 64-bit number or the record of an id that some range holds.
pub retain_from-Least :
    (ranges : List (Bound × Bound))
    → All (λ range. Word range.0) ranges
    → Least ranges (retain_from ranges)
unfolding retain_from
retain_from-Least [] h = ((λ id fits held. absurd held), inl refl)
retain_from-Least (range ∷ ranges) (w, h) =
    smaller-Least range ranges (protected range) (retain_from ranges) (protected-Protects range w)
      (retain_from-Least ranges h)
