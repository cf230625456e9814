-- ===== src/Recovery/Canonical.antt =====
-- What a selection of rust/client/src/protocol.rs's `select_canonical_quorum` is agreed on by.
use mathlib.Core.Path.{subst}
use chorus.Prelude.{
  ℕ, ◌≤◌, ◌<◌, max, ◌≡◌, refl, sym, inl, inr, true, List, [], ◌∷◌, map, arith, ltb, ◌==◌,
  Bool-cases, length, All, ok, >>=-eq-ok, ok-injective,
}
use chorus.Recovery.{
  ReplicaSnapshot, WitnessPrefix, from_snapshot, len, record_bytes, witness_at, consistent,
  longest_member, longest_of, candidates, longest, of_length, equivalent, lowest_zones, zone_at,
  lex_lt, CanonicalSelection, choose, select_canonical_quorum, quorum_subsets,
}
use chorus.Recovery.Subsets.{Proper, quorum_subsets-Proper, quorum_subsets-complete}
use chorus.Recovery.Agreement.{
  In, Pairwise, Pairwise-consistent, consistent-Agrees, longest_member-In, longest_member-bound,
}

module _ (decoded : List WitnessPrefix) where
  -- Every record of a member is, at its position, a record of the witness.
  abbrev pub Covers : ℕ → ℕ → Type 0
  Covers w m =
      (len (witness_at decoded m) ≤ len (witness_at decoded w))
      × ((j : ℕ)
          → j < len (witness_at decoded m)
          → record_bytes (witness_at decoded m) j ≡ record_bytes (witness_at decoded w) j)

  -- A candidate of a quorum: distinct indices, the witness among them, which covers them all.
  abbrev pub Agreed : ℕ → (ℕ × List ℕ) → Type 0
  Agreed quorum (w, s) = Proper (length decoded) quorum s × In w s × ((m : ℕ) → In m s → Covers w m)

  subset-Agreed :
      (quorum : ℕ) (s : List ℕ)
      → 1 ≤ quorum
      → Proper (length decoded) quorum s
      → consistent decoded s ≡ true
      → Agreed quorum (longest_of decoded s, s)
  subset-Agreed quorum [] h (size, _, _) ok_all = absurd (omega arith)
  subset-Agreed quorum (x ∷ rest) h proper ok_all =
      let held = longest_member-In decoded x rest in
      (
        proper,
        held,
        λ m in_s.
            let bound = longest_member-bound decoded x rest m in_s in
            (
              bound,
              λ j lt.
                  consistent-Agrees decoded (x ∷ rest) m (longest_member decoded x rest) ok_all in_s
                    held j lt (omega arith),
            ),
      )

  candidates-Agreed :
      (quorum : ℕ) (subsets : List (List ℕ))
      → 1 ≤ quorum
      → All (Proper (length decoded) quorum) subsets
      → All (Agreed quorum) (candidates decoded subsets)
  unfolding candidates
  candidates-Agreed quorum [] h proper = tt
  candidates-Agreed quorum (s ∷ subsets) h (p, proper) =
      let rest = candidates-Agreed quorum subsets h proper in
      elim (Bool-cases (consistent decoded s)) [
        | inl e ↦ rw e (subset-Agreed quorum s h p e, rest)
        | inr e ↦ rw e rest
      ]

  of_length-All :
      (P : ℕ × List ℕ → Type 0) (n : ℕ) (cs : List (ℕ × List ℕ))
      → All P cs
      → All P (of_length decoded n cs)
  unfolding of_length
  of_length-All P n [] h = tt
  of_length-All P n ((candidate, s) ∷ rest) (p, h) =
      let kept = of_length-All P n rest h in
      elim (Bool-cases (len (witness_at decoded candidate) == n)) [
        | inl e ↦ rw e (p, kept)
        | inr e ↦ rw e kept
      ]

  of_length-len :
      (n : ℕ) (cs : List (ℕ × List ℕ))
      → All (λ c. len (witness_at decoded c.0) ≡ n) (of_length decoded n cs)
  unfolding of_length
  of_length-len n [] = tt
  of_length-len n ((candidate, s) ∷ rest) =
      let kept = of_length-len n rest in
      elim (Bool-cases (len (witness_at decoded candidate) == n)) [
        | inl e ↦ rw e (ground arith, kept)
        | inr e ↦ rw e kept
      ]

  All-max :
      (a b : ℕ) (cs : List (ℕ × List ℕ))
      → All (λ c. len (witness_at decoded c.0) ≤ b) cs
      → All (λ c. len (witness_at decoded c.0) ≤ max a b) cs
  All-max a b [] h = tt
  All-max a b (c ∷ cs) (p, h) = (omega arith, All-max a b cs h)

  longest-bound :
      (cs : List (ℕ × List ℕ)) → All (λ c. len (witness_at decoded c.0) ≤ longest decoded cs) cs
  unfolding longest
  longest-bound [] = tt
  longest-bound ((candidate, s) ∷ rest) = (
    omega arith,
    All-max (len (witness_at decoded candidate)) (longest decoded rest) rest (longest-bound rest),
  )

  candidates-back :
      (P : ℕ × List ℕ → Type 0) (subsets : List (List ℕ))
      → All P (candidates decoded subsets)
      → All (λ s. consistent decoded s ≡ true → P (longest_of decoded s, s)) subsets
  unfolding candidates
  candidates-back P [] h = tt
  candidates-back P (s ∷ subsets) h = elim (Bool-cases (consistent decoded s)) [
    | inl e ↦ let (p, rest) = rw e at h in ((λ yes. p), candidates-back P subsets rest)
    | inr e ↦
        let rest : All P (candidates decoded subsets) = rw e at h in
        ((λ yes. absurd (ground arith)), candidates-back P subsets rest)
  ]

  -- A quorum of witnesses that agree, of which one has more records than the witness at `w`.
  abbrev pub LongerQuorum : ℕ → ℕ → Type 0
  LongerQuorum quorum w =
      (s : List ℕ) × Proper (length decoded) quorum s
      × Pairwise decoded s
      × ((m : ℕ) × In m s × (len (witness_at decoded w) < len (witness_at decoded m)))

  member-bound :
      (s : List ℕ) (m bound : ℕ)
      → In m s
      → len (witness_at decoded (longest_of decoded s)) ≤ bound
      → len (witness_at decoded m) ≤ bound
  member-bound [] m bound held h = absurd held
  member-bound (x ∷ rest) m bound held h =
      let most = longest_member-bound decoded x rest m held in omega arith

  no_LongerQuorum :
      (quorum w : ℕ)
      → All
          (λ c. len (witness_at decoded c.0) ≤ len (witness_at decoded w))
          (candidates decoded (quorum_subsets (length decoded) quorum))
      → ¬ LongerQuorum quorum w
  no_LongerQuorum quorum w h (s, proper, agree, (m, held, more)) =
      let P = λ (t : List ℕ).
        consistent decoded t ≡ true
        → len (witness_at decoded (longest_of decoded t)) ≤ len (witness_at decoded w) in
      let bound =
        quorum_subsets-complete P (length decoded) quorum s proper
          (candidates-back (λ c. len (witness_at decoded c.0) ≤ len (witness_at decoded w))
            (quorum_subsets (length decoded) quorum) h)
          (Pairwise-consistent decoded s agree) in
      absurd (let l = member-bound s m (len (witness_at decoded w)) held bound in omega arith)

All-and :
    (P Q : ℕ × List ℕ → Type 0) (cs : List (ℕ × List ℕ))
    → All P cs
    → All Q cs
    → All (λ c. P c × Q c) cs
All-and P Q [] h k = tt
All-and P Q (c ∷ cs) (p, h) (q, k) = ((p, q), All-and P Q cs h k)

lowest_zones-All :
    (P : ℕ × List ℕ → Type 0) (snapshots : List ReplicaSnapshot) (best : ℕ × List ℕ)
    (cs : List (ℕ × List ℕ))
    → P best
    → All P cs
    → P (lowest_zones snapshots best cs)
unfolding lowest_zones
lowest_zones-All P snapshots best [] p h = p
lowest_zones-All P snapshots best (c ∷ cs) p (q, h) =
    elim (Bool-cases (lex_lt (map (zone_at snapshots) best.1) (map (zone_at snapshots) c.1))) [
      | inl e ↦ rw e (lowest_zones-All P snapshots best cs p h)
      | inr e ↦ rw e (lowest_zones-All P snapshots c cs q h)
    ]

choose-All :
    (P : ℕ × List ℕ → Type 0) (snapshots : List ReplicaSnapshot) (decoded : List WitnessPrefix)
    (cs : List (ℕ × List ℕ)) (selection : CanonicalSelection)
    → choose snapshots decoded cs ≡ ok selection
    → All P cs
    → (s : List ℕ) × P (selection.witness, s)
      × (selection.record_ends ≡ (witness_at decoded selection.witness).record_ends)
unfolding choose
choose-All P snapshots decoded [] selection h all_cs = absurd (ground arith)
choose-All P snapshots decoded (first ∷ rest) selection h (p, all_cs) =
    let chosen = lowest_zones snapshots first rest in
    let (_, _, done) = >>=-eq-ok (equivalent decoded first.0 rest) _ h in
    subst
      (λ selected.
        (s : List ℕ) × P (selected.witness, s)
        × (selected.record_ends ≡ (witness_at decoded selected.witness).record_ends))
      (ok-injective done) (chosen.1, lowest_zones-All P snapshots first rest p all_cs, refl)

-- With a quorum of one at least: the witness that recovery selects is one of a quorum of distinct
-- snapshots, each of whose records is at its position a record of the witness; no quorum of distinct
-- snapshots, of which any two hold the same records as far as both go, has a member with more records;
-- and the record ends are those of the witness.
pub select_canonical_quorum-Agreed :
    (snapshots : List ReplicaSnapshot) (quorum : ℕ) (selection : CanonicalSelection)
    → 1 ≤ quorum
    → select_canonical_quorum snapshots quorum ≡ ok selection
    → let decoded = map from_snapshot snapshots in
      ((s : List ℕ) × Agreed decoded quorum (selection.witness, s))
      × (¬ LongerQuorum decoded quorum selection.witness)
      × (selection.record_ends ≡ (witness_at decoded selection.witness).record_ends)
unfolding select_canonical_quorum
select_canonical_quorum-Agreed snapshots quorum selection h e =
    let decoded = map from_snapshot snapshots in
    let found = candidates decoded (quorum_subsets (length decoded) quorum) in
    let n = longest decoded found in
    let agreed =
      candidates-Agreed decoded quorum (quorum_subsets (length decoded) quorum) h
        (quorum_subsets-Proper (length decoded) quorum) in
    let kept =
      All-and (Agreed decoded quorum) (λ c. len (witness_at decoded c.0) ≡ n)
        (of_length decoded n found) (of_length-All decoded (Agreed decoded quorum) n found agreed)
        (of_length-len decoded n found) in
    elim (Bool-cases (ltb (length snapshots) quorum)) [
      | inl few ↦ absurd (ground arith)
      | inr many ↦
          let chosen : choose snapshots decoded (of_length decoded n found) ≡ ok selection =
            rw many at e in
          let (s, (good, size), ends) =
            choose-All (λ c. Agreed decoded quorum c × (len (witness_at decoded c.0) ≡ n)) snapshots
              decoded (of_length decoded n found) selection chosen kept in
          (
            (s, good),
            no_LongerQuorum decoded quorum selection.witness (
                subst (λ k. All (λ c. len (witness_at decoded c.0) ≤ k) found) (sym size)
                  (longest-bound decoded found)),
            ends,
          )
    ]
