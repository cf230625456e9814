-- ===== src/Commit/Watermark.antt =====
-- What the sorted index of `quorum_durable_watermark` means: support by a quorum of lanes.
use chorus.Prelude.{
  ℕ, zero, suc, ◌+◌, ◌-◌, ◌≤◌, ◌<◌, ◌≡◌, refl, ap, ◌↔◌, inl, inr, List, [], ◌∷◌, arith, leb,
  if◌then◌else◌, leb→le, Bool-cases, length,
}
use chorus.Commit.{LaneCommitState, insert_sorted, sort, get_or, durables, quorum_durable_watermark}

-- How many of the numbers are at least `v`.
unfoldable pub count_at_least : ℕ → List ℕ → ℕ
count_at_least v [] = 0
count_at_least v (n ∷ ns) = (if leb v n then 1 else 0) + count_at_least v ns

abbrev AllAbove : ℕ → List ℕ → Type 0
AllAbove x [] = Unit {0}
AllAbove x (n ∷ ns) = (x ≤ n) × AllAbove x ns

abbrev IsSorted : List ℕ → Type 0
IsSorted [] = Unit {0}
IsSorted (n ∷ ns) = AllAbove n ns × IsSorted ns

AllAbove-mono : (x y : ℕ) (ns : List ℕ) → x ≤ y → AllAbove y ns → AllAbove x ns
AllAbove-mono x y [] h a = tt
AllAbove-mono x y (n ∷ ns) h a = (omega arith, AllAbove-mono x y ns h a.1)

AllAbove-insert : (x n : ℕ) (ns : List ℕ) → x ≤ n → AllAbove x ns → AllAbove x (insert_sorted n ns)
unfolding insert_sorted
AllAbove-insert x n [] h a = (h, tt)
AllAbove-insert x n (m ∷ ms) h a = elim (Bool-cases (leb n m)) [
  | inl e ↦ rw e (h, a)
  | inr e ↦ rw e (a.0, AllAbove-insert x n ms h a.1)
]

IsSorted-insert : (n : ℕ) (ns : List ℕ) → IsSorted ns → IsSorted (insert_sorted n ns)
unfolding insert_sorted
IsSorted-insert n [] s = (tt, tt)
IsSorted-insert n (m ∷ ms) s = elim (Bool-cases (leb n m)) [
  | inl e ↦ let below = leb→le n m e in rw e ((below, AllAbove-mono n m ms below s.0), s)
  | inr e ↦
      let above : m ≤ n = ground arith in
      rw e (AllAbove-insert m n ms above s.0, IsSorted-insert n ms s.1)
]

sort-IsSorted : (ns : List ℕ) → IsSorted (sort ns)
unfolding sort
sort-IsSorted [] = tt
sort-IsSorted (n ∷ ns) = IsSorted-insert n (sort ns) (sort-IsSorted ns)

count-insert :
    (v n : ℕ) (ns : List ℕ) → count_at_least v (insert_sorted n ns) ≡ count_at_least v (n ∷ ns)
unfolding insert_sorted count_at_least
count-insert v n [] = refl
count-insert v n (m ∷ ms) = elim (Bool-cases (leb n m)) [
  | inl e ↦ rw e
  | inr e ↦ rw e (omega (arith, count-insert v n ms))
]

count-sort : (v : ℕ) (ns : List ℕ) → count_at_least v (sort ns) ≡ count_at_least v ns
unfolding sort count_at_least
count-sort v [] = refl
count-sort v (n ∷ ns) = omega (arith, count-insert v n (sort ns), count-sort v ns)

length-insert : (n : ℕ) (ns : List ℕ) → length (insert_sorted n ns) ≡ suc (length ns)
unfolding insert_sorted
length-insert n [] = refl
length-insert n (m ∷ ms) = ground (arith, length-insert n ms)

length-sort : (ns : List ℕ) → length (sort ns) ≡ length ns
unfolding sort
length-sort [] = refl
length-sort (n ∷ ns) = omega (arith, length-insert n (sort ns), length-sort ns)

pub count-le-length : (v : ℕ) (ns : List ℕ) → count_at_least v ns ≤ length ns
unfolding count_at_least
count-le-length v [] = omega arith
count-le-length v (n ∷ ns) = ground (arith, count-le-length v ns)

pub count_mono : (v w : ℕ) (ns : List ℕ) → v ≤ w → count_at_least w ns ≤ count_at_least v ns
unfolding count_at_least
count_mono v w [] h = omega arith
count_mono v w (n ∷ ns) h = ground (arith, count_mono v w ns h)

count_all : (v x : ℕ) (ns : List ℕ) → v ≤ x → AllAbove x ns → count_at_least v ns ≡ length ns
unfolding count_at_least
count_all v x [] h a = refl
count_all v x (n ∷ ns) h a = ground (arith, count_all v x ns h a.1)

get_or_above : (x i : ℕ) (ns : List ℕ) → AllAbove x ns → i < length ns → x ≤ get_or ns i 0
get_or_above x i [] a h = absurd (omega arith)
get_or_above x zero (n ∷ ns) a h = a.0
get_or_above x (suc i) (n ∷ ns) a h = get_or_above x i ns a.1 (omega arith)

-- In a sorted list the numbers at least `v` are those from some index on.
get_or_iff :
    (v i : ℕ) (ns : List ℕ)
    → IsSorted ns
    → i < length ns
    → (v ≤ get_or ns i 0) ↔ (length ns ≤ count_at_least v ns + i)
unfolding count_at_least
get_or_iff v i [] s h = absurd (omega arith)
get_or_iff v zero (n ∷ ns) s h = (
  (λ below. ground (arith, count_all v n ns below s.0)),
  λ enough. ground (arith, count-le-length v ns),
)
get_or_iff v (suc i) (n ∷ ns) s h =
    let (to, from) = get_or_iff v i ns s.1 (omega arith) in
    let above = get_or_above n i ns s.0 (omega arith) in
    (
      (λ below. let enough = to below in ground arith),
      λ enough. elim (Bool-cases (leb v n)) [
        | inl e ↦ omega (arith, leb→le v n e)
        | inr e ↦ from (ground arith)
      ],
    )

pub length-durables : (lanes : List LaneCommitState) → length (durables lanes) ≡ length lanes
length-durables [] = refl
length-durables (lane ∷ lanes) = ap suc (length-durables lanes)

-- The number that `support` places from the end of the sorted list hold at least.
pub sorted_index_iff :
    (ns : List ℕ) (support v : ℕ)
    → 1 ≤ support
    → support ≤ length ns
    → (v ≤ get_or (sort ns) (length ns - support) 0) ↔ (support ≤ count_at_least v ns)
sorted_index_iff ns support v positive fits =
    let len = length-sort ns in
    let same = count-sort v ns in
    let (to, from) =
      get_or_iff v (length ns - support) (sort ns) (sort-IsSorted ns) (omega arith) in
    ((λ below. let enough = to below in omega arith), λ enough. from (omega arith))

-- With a quorum of at least one and at most all lanes, an offset is at or below the quorum watermark
-- exactly if at least a quorum of lanes has it durable.
pub quorum_durable_watermark_iff :
    (lanes : List LaneCommitState) (quorum v : ℕ)
    → 1 ≤ quorum
    → quorum ≤ length lanes
    → (v ≤ quorum_durable_watermark lanes quorum) ↔ (quorum ≤ count_at_least v (durables lanes))
unfolding quorum_durable_watermark
quorum_durable_watermark_iff lanes quorum v positive fits =
    let len = length-durables lanes in
    sorted_index_iff (durables lanes) quorum v positive (omega arith)
