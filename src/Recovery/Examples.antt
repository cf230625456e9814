-- ===== src/Recovery/Examples.antt =====
-- A selection of rust/client/src/protocol.rs among three witnesses.
use chorus.Prelude.{ℕ, ◌≡◌, refl, List, [], ◌∷◌, map, arith, ok}
use chorus.Text.{text_eq}
use chorus.Record.{complete_prefix_ends, ends_loop, decoded_len}
use chorus.Recovery.{
  ReplicaSnapshot, from_snapshot, find_difference, conflict, witness_at, clear, consistent,
  longest_member, candidates, longest, of_length, equivalent, lowest_zones, CanonicalSelection,
  choose, select_canonical_quorum, quorum_subsets, extend,
}
use chorus.Recovery.Canonical.{Agreed, LongerQuorum, select_canonical_quorum-Agreed}

abbrev snapshot : ℕ → List ℕ → ReplicaSnapshot
snapshot zone bytes = record { zone = zone; bytes = bytes }

-- One record, that record and another, and a record that differs from both.
abbrev snapshots : List ReplicaSnapshot
snapshots =
    snapshot 0 (0 ∷ 0 ∷ 0 ∷ 5 ∷ 9 ∷ [])
    ∷ snapshot 1 (0 ∷ 0 ∷ 0 ∷ 5 ∷ 9 ∷ 0 ∷ 0 ∷ 0 ∷ 4 ∷ 0 ∷ [])
    ∷ snapshot 2 (0 ∷ 0 ∷ 0 ∷ 5 ∷ 8 ∷ [])
    ∷ []

abbrev selection : CanonicalSelection
selection = record { witness = 1; record_ends = 5 ∷ 9 ∷ [] }

selects : select_canonical_quorum snapshots 2 ≡ ok selection
unfolding select_canonical_quorum from_snapshot complete_prefix_ends ends_loop decoded_len
    quorum_subsets extend candidates consistent clear conflict find_difference text_eq
    longest_member longest of_length choose equivalent lowest_zones
selects = refl

select_canonical_quorum-Agreed_example :
    let decoded = map from_snapshot snapshots in
    ((s : List ℕ) × Agreed decoded 2 (1, s))
    × (¬ LongerQuorum decoded 2 1)
    × (selection.record_ends ≡ (witness_at decoded 1).record_ends)
select_canonical_quorum-Agreed_example =
    select_canonical_quorum-Agreed snapshots 2 selection (omega arith) selects
