-- ===== src/Recovery/Agreement.antt =====
-- Witnesses of rust/client/src/protocol.rs's `select_canonical_quorum` that do not conflict, and the
-- longest of them.
use mathlib.Core.Path.{subst}
use chorus.Prelude.{
  All, is_some, ℕ, zero, suc, ◌+◌, ◌≤◌, ◌<◌, min, ◌≡◌, refl, sym, ap, ◌∙◌, ◌⊎◌, inl, inr, true,
  false, none, List, [], ◌∷◌, arith, ltb, ◌==◌, if◌then◌else◌, Bool-cases, Option-cases,
}
use chorus.Text.{text_eq}
use chorus.Text.Equality.{eq_of_text_eq, text_eq_refl}
use chorus.Recovery.{
  WitnessPrefix, len, record_bytes, find_difference, conflict, witness_at, clear, consistent,
  longest_member,
}

find_difference-none :
    (count index : ℕ) (left right : WitnessPrefix) (j : ℕ)
    → find_difference count index left right ≡ none
    → index ≤ j
    → j < index + count
    → record_bytes left j ≡ record_bytes right j
unfolding find_difference
find_difference-none zero index left right j h lo hi = absurd (omega arith)
find_difference-none (suc count) index left right j h lo hi =
    elim (Bool-cases (text_eq (record_bytes left index) (record_bytes right index))) [
      | inr e ↦ absurd (ground arith)
      | inl e ↦ elim (Bool-cases (index == j)) [
        | inl same ↦
            let i : index ≡ j = ground arith in
            subst (λ k. record_bytes left k ≡ record_bytes right k) i
              (eq_of_text_eq (record_bytes left index) (record_bytes right index) e)
        | inr other ↦
            find_difference-none count (index + 1) left right j (ground arith) (ground arith)
              (omega arith)
      ]
    ]

-- Two prefixes hold the same records as far as both go.
abbrev pub Agrees : WitnessPrefix → WitnessPrefix → Type 0
Agrees p q = (j : ℕ) → j < len p → j < len q → record_bytes p j ≡ record_bytes q j

conflict-Agrees : (p q : WitnessPrefix) → is_some (conflict p q) ≡ false → Agrees p q
unfolding conflict
conflict-Agrees p q h j lp lq = elim (Option-cases (conflict p q)) [
  | inl e ↦ find_difference-none (min (len p) (len q)) 0 p q j e (omega arith) (omega arith)
  | inr (i, e) ↦ absurd (ground arith)
]

find_difference-Agrees :
    (count index : ℕ) (left right : WitnessPrefix)
    → ((j : ℕ) → j < index + count → record_bytes left j ≡ record_bytes right j)
    → find_difference count index left right ≡ none
unfolding find_difference
find_difference-Agrees zero index left right h = refl
find_difference-Agrees (suc count) index left right h =
    let same : text_eq (record_bytes left index) (record_bytes right index) ≡ true =
      subst (λ t. text_eq (record_bytes left index) t ≡ true) (h index (omega arith))
        (text_eq_refl (record_bytes left index)) in
    rw same (find_difference-Agrees count (index + 1) left right (λ j lt. h j (omega arith)))

Agrees-conflict : (p q : WitnessPrefix) → Agrees p q → conflict p q ≡ none
unfolding conflict
Agrees-conflict p q h =
    find_difference-Agrees (min (len p) (len q)) 0 p q (λ j lt. h j (omega arith) (omega arith))

abbrev pub In : ℕ → List ℕ → Type 0
In m [] = ⊥
In m (x ∷ xs) = (m ≡ x) ⊎ In m xs

module _ (decoded : List WitnessPrefix) where
  clear-Agrees :
      (left : ℕ) (rest : List ℕ) (m : ℕ)
      → clear decoded left rest ≡ true
      → In m rest
      → Agrees (witness_at decoded left) (witness_at decoded m)
  unfolding clear
  clear-Agrees left [] m h held = absurd held
  clear-Agrees left (right ∷ rest) m h (inl same) =
      subst (λ k. Agrees (witness_at decoded left) (witness_at decoded k)) (sym same)
        (conflict-Agrees (witness_at decoded left) (witness_at decoded right) (ground arith))
  clear-Agrees left (right ∷ rest) m h (inr held) = clear-Agrees left rest m (ground arith) held

  pub consistent-Agrees :
      (s : List ℕ) (m w : ℕ)
      → consistent decoded s ≡ true
      → In m s
      → In w s
      → Agrees (witness_at decoded m) (witness_at decoded w)
  unfolding consistent
  consistent-Agrees [] m w h held _ = absurd held
  consistent-Agrees (x ∷ rest) m w h (inl a) (inl b) =
      subst (λ k. Agrees (witness_at decoded m) (witness_at decoded k)) (a ∙ sym b) (λ j p q. refl)
  consistent-Agrees (x ∷ rest) m w h (inl a) (inr b) =
      subst (λ k. Agrees (witness_at decoded k) (witness_at decoded w)) (sym a)
        (clear-Agrees x rest w (ground arith) b)
  consistent-Agrees (x ∷ rest) m w h (inr a) (inl b) =
      subst (λ k. Agrees (witness_at decoded m) (witness_at decoded k)) (sym b)
        (λ j p q. sym (clear-Agrees x rest m (ground arith) a j q p))
  consistent-Agrees (x ∷ rest) m w h (inr a) (inr b) = consistent-Agrees rest m w (ground arith) a b

  -- The longer of two members, the first of equal ones.
  abbrev longer : ℕ → ℕ → ℕ
  longer best x =
      if ltb (len (witness_at decoded best)) (len (witness_at decoded x)) then x else best

  longer-cases : (best x : ℕ) → (longer best x ≡ x) ⊎ (longer best x ≡ best)
  longer-cases best x =
      elim (Bool-cases (ltb (len (witness_at decoded best)) (len (witness_at decoded x)))) [
        | inl e ↦ inl (rw e refl)
        | inr e ↦ inr (rw e refl)
      ]

  longer-bound :
      (best x : ℕ)
      → (len (witness_at decoded best) ≤ len (witness_at decoded (longer best x)))
        × (len (witness_at decoded x) ≤ len (witness_at decoded (longer best x)))
  longer-bound best x =
      elim (Bool-cases (ltb (len (witness_at decoded best)) (len (witness_at decoded x)))) [
        | inl e ↦ rw e (ground arith, omega arith)
        | inr e ↦ rw e (omega arith, ground arith)
      ]

  pub longest_member-In :
      (best : ℕ) (rest : List ℕ) → In (longest_member decoded best rest) (best ∷ rest)
  unfolding longest_member
  longest_member-In best [] = inl refl
  longest_member-In best (x ∷ rest) = elim (longest_member-In (longer best x) rest) [
    | inr held ↦ inr (inr held)
    | inl same ↦ elim (longer-cases best x) [
      | inl e ↦ inr (inl (same ∙ e))
      | inr e ↦ inl (same ∙ e)
    ]
  ]

  pub longest_member-bound :
      (best : ℕ) (rest : List ℕ) (m : ℕ)
      → In m (best ∷ rest)
      → len (witness_at decoded m) ≤ len (witness_at decoded (longest_member decoded best rest))
  unfolding longest_member
  longest_member-bound best [] m (inl same) =
      subst (λ k. len (witness_at decoded m) ≤ len (witness_at decoded k)) same (omega arith)
  longest_member-bound best [] m (inr held) = absurd held
  longest_member-bound best (x ∷ rest) m (inl same) =
      let (a, b) = longer-bound best x in
      let c = longest_member-bound (longer best x) rest (longer best x) (inl refl) in
      let e = ap (λ k. len (witness_at decoded k)) same in omega arith
  longest_member-bound best (x ∷ rest) m (inr (inl same)) =
      let (a, b) = longer-bound best x in
      let c = longest_member-bound (longer best x) rest (longer best x) (inl refl) in
      let e = ap (λ k. len (witness_at decoded k)) same in omega arith
  longest_member-bound best (x ∷ rest) m (inr (inr held)) =
      longest_member-bound (longer best x) rest m (inr held)

  -- Any two of these witnesses hold the same records as far as both go.
  abbrev pub Pairwise : List ℕ → Type 0
  Pairwise [] = Unit {0}
  Pairwise (x ∷ xs) =
      All (λ y. Agrees (witness_at decoded x) (witness_at decoded y)) xs × Pairwise xs

  Agrees-clear :
      (left : ℕ) (rest : List ℕ)
      → All (λ y. Agrees (witness_at decoded left) (witness_at decoded y)) rest
      → clear decoded left rest ≡ true
  unfolding clear
  Agrees-clear left [] h = refl
  Agrees-clear left (right ∷ rest) (agree, h) =
      rw (Agrees-conflict (witness_at decoded left) (witness_at decoded right) agree)
        (Agrees-clear left rest h)

  pub Pairwise-consistent : (s : List ℕ) → Pairwise s → consistent decoded s ≡ true
  unfolding consistent
  Pairwise-consistent [] h = refl
  Pairwise-consistent (x ∷ xs) (agree, h) =
      let one = Agrees-clear x xs agree in
      let rest = Pairwise-consistent xs h in rw (one, rest) refl
