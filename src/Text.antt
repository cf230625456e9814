-- ===== src/Text.antt =====
-- Rust strings as lists of their bytes, with what the source uses of them: equality, `contains`,
-- `join`, `split`, decimal and hexadecimal formatting and parsing.
pub mod Equality
pub mod Format
use chorus.Prelude.{
  ℕ, zero, suc, ◌+◌, ◌-◌, ◌*◌, ◌/◌, ◌%◌, List, [], ◌∷◌, ◌++◌, Option, none, some, Bool, true, false,
  ◌&&◌, ◌||◌, ltb, leb, ◌==◌, if◌then◌else◌,
}

abbrev pub Text : Type 0
Text = List ℕ

unfoldable pub text_eq : Text → Text → Bool
text_eq [] [] = true
text_eq [] (b ∷ u) = false
text_eq (a ∷ t) [] = false
text_eq (a ∷ t) (b ∷ u) = (a == b) && text_eq t u

abbrev pub option_eq : Option Text → Option Text → Bool
option_eq none none = true
option_eq none (some u) = false
option_eq (some t) none = false
option_eq (some t) (some u) = text_eq t u

unfoldable pub contains_byte : ℕ → Text → Bool
contains_byte c [] = false
contains_byte c (b ∷ t) = (b == c) || contains_byte c t

-- Membership in a `HashSet<String>`, kept as a list.
unfoldable pub contains : List Text → Text → Bool
contains [] t = false
contains (u ∷ us) t = text_eq u t || contains us t

abbrev pub is_empty : Text → Bool
is_empty [] = true
is_empty (b ∷ t) = false
