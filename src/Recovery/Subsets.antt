-- ===== src/Recovery/Subsets.antt =====
-- `quorum_subsets` of rust/client/src/protocol.rs: ascending index combinations.
use mathlib.Core.Path.{subst}
use chorus.Prelude.{
  sym, append-nil, append_assoc, Bool-cases, ◌==◌, inl, inr, ℕ, zero, suc, ◌+◌, ◌≤◌, ◌<◌, ◌≡◌, List,
  [], ◌∷◌, ◌++◌, arith, length, All, length-append, All-append,
}
use chorus.Recovery.{extend, quorum_subsets}

abbrev pub Strict : List ℕ → Type 0
Strict [] = Unit {0}
Strict (x ∷ xs) = All (λ y. x < y) xs × Strict xs

-- A subset of so many indices below a count.
abbrev pub Proper : ℕ → ℕ → List ℕ → Type 0
Proper count quorum s = (length s ≡ quorum) × Strict s × All (λ m. m < count) s

All-snoc : (P : ℕ → Type 0) (xs : List ℕ) (y : ℕ) → All P xs → P y → All P (xs ++ (y ∷ []))
All-snoc P [] y h p = (p, tt)
All-snoc P (x ∷ xs) y (a, h) p = (a, All-snoc P xs y h p)

Strict-snoc : (xs : List ℕ) (y : ℕ) → Strict xs → All (λ x. x < y) xs → Strict (xs ++ (y ∷ []))
Strict-snoc [] y h below = (tt, tt)
Strict-snoc (x ∷ xs) y (above, h) (lt, below) =
    (All-snoc (λ z. x < z) xs y above lt, Strict-snoc xs y h below)

All-weaken : (n m : ℕ) (xs : List ℕ) → n ≤ m → All (λ x. x < n) xs → All (λ x. x < m) xs
All-weaken n m [] h below = tt
All-weaken n m (x ∷ xs) h (lt, below) = (omega arith, All-weaken n m xs h below)

extend-Proper :
    (left missing start count : ℕ) (current : List ℕ)
    → start + left ≡ count
    → Strict current
    → All (λ m. m < start) current
    → All (Proper count (length current + missing)) (extend left missing start current)
unfolding extend
extend-Proper left zero start count current e strict below =
    ((omega arith, strict, All-weaken start count current (omega arith) below), tt)
extend-Proper zero (suc missing) start count current e strict below = tt
extend-Proper (suc left) (suc missing) start count current e strict below =
    let wider = All-weaken start (start + 1) current (omega arith) below in
    let size : length (current ++ (start ∷ [])) + missing ≡ length current + suc missing =
      (let l = length-append current (start ∷ []) in omega arith) in
    All-append (Proper count (length current + suc missing))
      (extend left missing (start + 1) (current ++ (start ∷ [])))
      (extend left (suc missing) (start + 1) current)
      (subst (λ n. All (Proper count n) (extend left missing (start + 1) (current ++ (start ∷ []))))
        size
        (extend-Proper left missing (start + 1) count (current ++ (start ∷ [])) (omega arith)
          (Strict-snoc current start strict below)
          (All-snoc (λ m. m < start + 1) current start wider (omega arith))))
      (extend-Proper left (suc missing) (start + 1) count current (omega arith) strict wider)

pub quorum_subsets-Proper :
    (count quorum : ℕ) → All (Proper count quorum) (quorum_subsets count quorum)
unfolding quorum_subsets
quorum_subsets-Proper count quorum =
    let size : 0 + quorum ≡ quorum = omega arith in
    subst (λ n. All (Proper count n) (extend count quorum 0 [])) size
      (extend-Proper count quorum 0 count [] (omega arith) tt tt)

All-left : (P : List ℕ → Type 0) (xs ys : List (List ℕ)) → All P (xs ++ ys) → All P xs
All-left P [] ys h = tt
All-left P (x ∷ xs) ys (p, h) = (p, All-left P xs ys h)

All-right : (P : List ℕ → Type 0) (xs ys : List (List ℕ)) → All P (xs ++ ys) → All P ys
All-right P [] ys h = h
All-right P (x ∷ xs) ys (p, h) = All-right P xs ys h

All-above : (x : ℕ) (xs : List ℕ) → All (λ y. x < y) xs → All (λ y. x + 1 ≤ y) xs
All-above x [] h = tt
All-above x (y ∷ ys) (lt, h) = (omega arith, All-above x ys h)

All-above_trans :
    (start x : ℕ) (xs : List ℕ) → start ≤ x → All (λ y. x < y) xs → All (λ y. start ≤ y) xs
All-above_trans start x [] h above = tt
All-above_trans start x (y ∷ ys) h (lt, above) = (omega arith, All-above_trans start x ys h above)

-- What holds of all that `extend` gives holds of every ascending choice of the missing indices.
extend-complete :
    (P : List ℕ → Type 0) (left missing start count : ℕ) (current s : List ℕ)
    → start + left ≡ count
    → length s ≡ missing
    → Strict s
    → All (λ m. start ≤ m) s
    → All (λ m. m < count) s
    → All P (extend left missing start current)
    → P (current ++ s)
unfolding extend
extend-complete P left zero start count current [] e size strict above below (p, _) =
    subst P (sym (append-nil current)) p
extend-complete P left zero start count current (x ∷ s) e size strict above below h =
    absurd (omega arith)
extend-complete P left (suc missing) start count current [] e size strict above below h =
    absurd (omega arith)
extend-complete P zero (suc missing) start count current (x ∷ s) e size strict above below h =
    absurd (let a = above.0 in let b = below.0 in omega arith)
extend-complete P (suc left) (suc missing) start count current (x ∷ s) e size strict above below h =
    let taken = extend left missing (start + 1) (current ++ (start ∷ [])) in
    let skipped = extend left (suc missing) (start + 1) current in
    elim (Bool-cases (x == start)) [
      | inl same ↦
          let here : start ≡ x = ground arith in
          let next : All (λ m. start + 1 ≤ m) s =
            subst (λ k. All (λ m. k + 1 ≤ m) s) (sym here) (All-above x s strict.0) in
          subst (λ k. P (current ++ (k ∷ s))) here
            (subst P (append_assoc current (start ∷ []) s) (
              extend-complete P left missing (start + 1) count (current ++ (start ∷ [])) s
                (omega arith) (omega arith) strict.1 next below.1 (All-left P taken skipped h)))
      | inr other ↦
          let a = above.0 in
          let more : start + 1 ≤ x = ground arith in
          extend-complete P left (suc missing) (start + 1) count current (x ∷ s) (omega arith) size
            strict (more, All-above_trans (start + 1) x s more strict.0) below
            (All-right P taken skipped h)
    ]

All-zero : (s : List ℕ) → All (λ m. 0 ≤ m) s
All-zero [] = tt
All-zero (x ∷ s) = (omega arith, All-zero s)

pub quorum_subsets-complete :
    (P : List ℕ → Type 0) (count quorum : ℕ) (s : List ℕ)
    → Proper count quorum s
    → All P (quorum_subsets count quorum)
    → P s
unfolding quorum_subsets
quorum_subsets-complete P count quorum s (size, strict, below) h =
    extend-complete P count quorum 0 count [] s (omega arith) size strict (All-zero s) below h
