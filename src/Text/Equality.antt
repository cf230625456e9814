-- ===== src/Text/Equality.antt =====
-- The Boolean tests on texts decide what their names say.
use chorus.Prelude.{
  inr, inl, Bool-cases, ◌≢◌, false, List, [], ◌∷◌, Option, none, some, true, ◌≡◌, refl, arith, ap,
}
use chorus.Text.{Text, text_eq, option_eq, contains}

pub text_eq_refl : (t : Text) → text_eq t t ≡ true
unfolding text_eq
text_eq_refl [] = refl
text_eq_refl (a ∷ t) = ground (arith, text_eq_refl t)

pub eq_of_text_eq : (t u : Text) → text_eq t u ≡ true → t ≡ u
unfolding text_eq
eq_of_text_eq [] [] h = refl
eq_of_text_eq [] (b ∷ u) h = cc
eq_of_text_eq (a ∷ t) [] h = cc
eq_of_text_eq (a ∷ t) (b ∷ u) h = ground (arith, eq_of_text_eq t u)

pub option_eq_refl : (t : Option Text) → option_eq t t ≡ true
option_eq_refl none = refl
option_eq_refl (some t) = text_eq_refl t

pub eq_of_option_eq : (t u : Option Text) → option_eq t u ≡ true → t ≡ u
eq_of_option_eq none none h = refl
eq_of_option_eq none (some u) h = cc
eq_of_option_eq (some t) none h = cc
eq_of_option_eq (some t) (some u) h = ap some (eq_of_text_eq t u h)

-- No text of the list is `t`.
abbrev pub Unlisted : Text → List Text → Type 0
Unlisted t [] = Unit {0}
Unlisted t (u ∷ us) = (u ≢ t) × Unlisted t us

pub text_eq-ne : (t u : Text) → text_eq t u ≡ false → t ≢ u
text_eq-ne t u h e = cc (text_eq_refl u, ap (λ (x : Text). text_eq x u) e)

pub text_eq-false : (t u : Text) → t ≢ u → text_eq t u ≡ false
text_eq-false t u h = elim (Bool-cases (text_eq t u)) [
  | inl e ↦ absurd (h (eq_of_text_eq t u e))
  | inr e ↦ e
]

pub contains-false : (us : List Text) (t : Text) → contains us t ≡ false → Unlisted t us
unfolding contains
contains-false [] t h = tt
contains-false (u ∷ us) t h = elim (Bool-cases (text_eq u t)) [
  | inl e ↦ cc
  | inr e ↦ (text_eq-ne u t e, contains-false us t (ground arith))
]

pub contains_of_Unlisted : (us : List Text) (t : Text) → Unlisted t us → contains us t ≡ false
unfolding contains
contains_of_Unlisted [] t h = refl
contains_of_Unlisted (u ∷ us) t h = rw (text_eq-false u t h.0) (contains_of_Unlisted us t h.1)
