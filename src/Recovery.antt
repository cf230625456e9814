-- ===== src/Recovery.antt =====
-- `select_canonical_quorum` of rust/client/src/protocol.rs: the record prefix that a quorum of recovery
-- witnesses agrees on. A quorum is one at least, so a subset has a first member; a record's index is
-- below its prefix's length wherever its bytes are read.
pub mod Subsets
pub mod Agreement
pub mod Canonical
mod Examples
use chorus.Prelude.{
  is_some, ℕ, zero, suc, ◌+◌, ◌-◌, ◌*◌, ◌/◌, ◌%◌, ◌^◌, ◌≤◌, ◌<◌, min, max, ◌≡◌, refl, sym, ap, ◌∙◌,
  ◌≢◌, ◌↔◌, ◌⊎◌, inl, inr, Bool, true, false, not, ◌&&◌, ◌||◌, Option, none, some, List, [], ◌∷◌,
  ◌++◌, map, append_assoc, append-nil, String, arith, ltb, leb, ◌==◌, if◌then◌else◌, ltb→lt, lt→ltb,
  leb→le, le→leb, ==_iff, Bool-cases, Option-cases, u32_max, u64_max, checked_add, length,
  get_elem?, set, take, drop, All, length-append, length-drop, length-take, take-append-drop,
  take-append_left, drop-append_left, drop-nil, drop-drop, All-append, All-drop, Result, ok, err,
  ◌>>=◌, ◌>>◌, map_ok, >>=-eq-ok, Result-cases, ok-injective, reject,
}
use chorus.Text.{text_eq}
use chorus.Record.{complete_prefix_ends}
use chorus.Errors.{ProtocolError, no_quorum, conflicting_prefix}

-- What the selection reads of a snapshot (transport.rs).
pub record ReplicaSnapshot : Type 0 where
  pub zone : ℕ
  pub bytes : List ℕ

pub record WitnessPrefix : Type 0 where
  pub bytes : List ℕ
  pub record_ends : List ℕ

abbrev pub last_or : ℕ → List ℕ → ℕ
last_or n [] = n
last_or n (x ∷ xs) = last_or x xs

unfoldable pub from_snapshot : ReplicaSnapshot → WitnessPrefix
unfolding complete_prefix_ends
from_snapshot snapshot =
    let record_ends = complete_prefix_ends snapshot.bytes in
    record { bytes = take (last_or 0 record_ends) snapshot.bytes; record_ends = record_ends }

abbrev pub len : WitnessPrefix → ℕ
len p = length p.record_ends

abbrev pub nth : List ℕ → ℕ → ℕ
nth [] i = 0
nth (x ∷ xs) zero = x
nth (x ∷ xs) (suc i) = nth xs i

abbrev pub start_of : List ℕ → ℕ → ℕ
start_of record_ends zero = 0
start_of record_ends (suc previous) = nth record_ends previous

abbrev pub record_bytes : WitnessPrefix → ℕ → List ℕ
record_bytes p index =
    let start = start_of p.record_ends index in
    take (nth p.record_ends index - start) (drop start p.bytes)

-- The first of the records from an index on in which two prefixes differ.
unfoldable pub find_difference : ℕ → ℕ → WitnessPrefix → WitnessPrefix → Option ℕ
unfolding text_eq
find_difference zero index left right = none
find_difference (suc count) index left right =
    let rest = find_difference count (index + 1) left right in
    if text_eq (record_bytes left index) (record_bytes right index) then rest else some index

unfoldable pub conflict : WitnessPrefix → WitnessPrefix → Option ℕ
unfolding find_difference
conflict left right = find_difference (min (len left) (len right)) 0 left right

abbrev pub or_else : Option ℕ → Option ℕ → Option ℕ
or_else none b = b
or_else (some a) b = some a

abbrev pub conflict_with : WitnessPrefix → List WitnessPrefix → Option ℕ
conflict_with left [] = none
conflict_with left (right ∷ rest) = or_else (conflict left right) (conflict_with left rest)

unfoldable pub first_conflict : List WitnessPrefix → Option ℕ
unfolding conflict
first_conflict [] = none
first_conflict (left ∷ rest) = or_else (conflict_with left rest) (first_conflict rest)

-- `extend` of `quorum_subsets`: `left` indices from `start` on may still be taken, `missing` are.
unfoldable pub extend : ℕ → ℕ → ℕ → List ℕ → List (List ℕ)
extend left zero start current = current ∷ []
extend zero (suc missing) start current = []
extend (suc left) (suc missing) start current =
    extend left missing (start + 1) (current ++ (start ∷ []))
    ++ extend left (suc missing) (start + 1) current

unfoldable pub quorum_subsets : ℕ → ℕ → List (List ℕ)
unfolding extend
quorum_subsets count quorum = extend count quorum 0 []

abbrev pub nothing : WitnessPrefix
nothing = record { bytes = []; record_ends = [] }

-- The witness at an index.
abbrev pub witness_at : List WitnessPrefix → ℕ → WitnessPrefix
witness_at [] i = nothing
witness_at (p ∷ decoded) zero = p
witness_at (p ∷ decoded) (suc i) = witness_at decoded i

module _ (decoded : List WitnessPrefix) where
  unfoldable pub clear : ℕ → List ℕ → Bool
  unfolding conflict
  clear left [] = true
  clear left (right ∷ rest) =
      not (is_some (conflict (witness_at decoded left) (witness_at decoded right)))
      && clear left rest

  unfoldable pub consistent : List ℕ → Bool
  unfolding clear
  consistent [] = true
  consistent (left ∷ rest) = clear left rest && consistent rest

  unfoldable pub longest_member : ℕ → List ℕ → ℕ
  longest_member best [] = best
  longest_member best (member ∷ rest) =
      longest_member
        (if ltb (len (witness_at decoded best)) (len (witness_at decoded member))
          then member
          else best)
        rest

  abbrev pub longest_of : List ℕ → ℕ
  longest_of [] = 0
  longest_of (first ∷ rest) = longest_member first rest

  -- A candidate is its longest member and its subset.
  unfoldable pub candidates : List (List ℕ) → List (ℕ × List ℕ)
  unfolding consistent longest_member
  candidates [] = []
  candidates (subset ∷ subsets) =
      let rest = candidates subsets in
      if consistent subset then (longest_of subset, subset) ∷ rest else rest

  unfoldable pub longest : List (ℕ × List ℕ) → ℕ
  longest [] = 0
  longest ((candidate, _) ∷ rest) = max (len (witness_at decoded candidate)) (longest rest)

  unfoldable pub of_length : ℕ → List (ℕ × List ℕ) → List (ℕ × List ℕ)
  of_length n [] = []
  of_length n ((candidate, subset) ∷ rest) =
      let kept = of_length n rest in
      if len (witness_at decoded candidate) == n then (candidate, subset) ∷ kept else kept

  -- All must hold the same bytes as the first.
  unfoldable pub equivalent : ℕ → List (ℕ × List ℕ) → Result ProtocolError (Unit {0})
  unfolding text_eq find_difference
  equivalent first [] = ok tt
  equivalent first ((candidate, _) ∷ rest) =
      let other = witness_at decoded candidate in
      let others = equivalent first rest in
      if text_eq other.bytes (witness_at decoded first).bytes
      then others
      else err (
          conflicting_prefix
            (elim (find_difference (len other) 0 other (witness_at decoded first)) [
              | some index ↦ index
              | none ↦ 0
            ]))

abbrev pub lex_lt : List ℕ → List ℕ → Bool
lex_lt [] [] = false
lex_lt [] (y ∷ ys) = true
lex_lt (x ∷ xs) [] = false
lex_lt (x ∷ xs) (y ∷ ys) = ltb x y || ((x == y) && lex_lt xs ys)

abbrev pub zone_at : List ReplicaSnapshot → ℕ → ℕ
zone_at [] i = 0
zone_at (s ∷ snapshots) zero = s.zone
zone_at (s ∷ snapshots) (suc i) = zone_at snapshots i

-- `max_by` with the order of the zones reversed: of equal ones the last.
unfoldable pub lowest_zones : List ReplicaSnapshot → (ℕ × List ℕ) → List (ℕ × List ℕ) → ℕ × List ℕ
lowest_zones snapshots best [] = best
lowest_zones snapshots best (c ∷ rest) =
    lowest_zones snapshots
      (if lex_lt (map (zone_at snapshots) best.1) (map (zone_at snapshots) c.1) then best else c)
      rest

pub record CanonicalSelection : Type 0 where
  pub witness : ℕ
  pub record_ends : List ℕ

unfoldable pub choose :
    List ReplicaSnapshot
    → List WitnessPrefix
    → List (ℕ × List ℕ)
    → Result ProtocolError CanonicalSelection
unfolding equivalent lowest_zones first_conflict
choose snapshots decoded [] =
    err (conflicting_prefix (elim (first_conflict decoded) [ some index ↦ index | none ↦ 0 ]))
choose snapshots decoded (first ∷ rest) = do
  equivalent decoded first.0 rest
  let selected = (lowest_zones snapshots first rest).0
  ok (record { witness = selected; record_ends = (witness_at decoded selected).record_ends })

unfoldable pub select_canonical_quorum :
    List ReplicaSnapshot → ℕ → Result ProtocolError CanonicalSelection
unfolding from_snapshot quorum_subsets candidates longest of_length choose
select_canonical_quorum snapshots quorum =
    if ltb (length snapshots) quorum
    then err no_quorum
    else (let decoded = map from_snapshot snapshots in
        let found = candidates decoded (quorum_subsets (length decoded) quorum) in
        choose snapshots decoded (of_length decoded (longest decoded found) found))
