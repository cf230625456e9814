-- ===== src/Text/Format.antt =====
-- `format!` and `parse` of numbers in bases 10 and 16.
use chorus.Prelude.{
  ℕ, zero, suc, ◌+◌, ◌-◌, ◌*◌, ◌/◌, ◌%◌, ◌^◌, [], ◌∷◌, ◌++◌, Option, none, some, true, false, ◌&&◌,
  ltb, leb, ◌==◌, if◌then◌else◌,
}
use chorus.Text.{Text}

abbrev pub hex_digit : ℕ → ℕ
hex_digit d = if ltb d 10 then 48 + d else 87 + d

-- The k lowest hexadecimal digits, highest first.
unfoldable pub hex_fixed : ℕ → ℕ → Text
hex_fixed zero n = []
hex_fixed (suc k) n = hex_fixed k (n / 16) ++ (hex_digit (n % 16) ∷ [])

-- `{:0wx}` of a u64: at least w digits, and more where the number needs them.
unfoldable pub hex_width : ℕ → ℕ → ℕ → ℕ
hex_width zero w n = w
hex_width (suc fuel) w n =
    let wider = hex_width fuel (w + 1) n in if ltb n (16 ^ w) then w else wider

unfoldable pub hex_padded : ℕ → ℕ → Text
unfolding hex_width hex_fixed
hex_padded w n = hex_fixed (hex_width 16 w n) n

-- The digits of a number below 10 ^ fuel.
unfoldable pub decimal_loop : ℕ → ℕ → Text
decimal_loop zero n = []
decimal_loop (suc fuel) n =
    let high = decimal_loop fuel (n / 10) in
    if ltb n 10 then (48 + n) ∷ [] else high ++ ((48 + n % 10) ∷ [])

-- `to_string` of a u64, which has at most 20 digits.
unfoldable pub decimal : ℕ → Text
unfolding decimal_loop
decimal n = decimal_loop 20 n

abbrev pub digit_value : ℕ → ℕ → Option ℕ
digit_value radix c =
    if leb 48 c && ltb c (48 + 10)
    then some (c - 48)
    else if (radix == 16) && (leb 97 c && leb c 102)
    then some (c - 87)
    else if (radix == 16) && (leb 65 c && leb c 70)
    then some (c - 55)
    else none

unfoldable pub parse_loop : ℕ → ℕ → ℕ → Text → Option ℕ
parse_loop radix limit acc [] = some acc
parse_loop radix limit acc (c ∷ t) = elim (digit_value radix c) [
  | none ↦ none
  | some d ↦ elim (leb (acc * radix + d) limit) [
    | true ↦ parse_loop radix limit (acc * radix + d) t
    | false ↦ none
  ]
]

-- `from_str_radix` of an unsigned type: one leading plus sign is read over, no digit is an error.
unfoldable pub from_str_radix : ℕ → ℕ → Text → Option ℕ
unfolding parse_loop
from_str_radix radix limit [] = none
from_str_radix radix limit (c ∷ []) = if c == b'+' then none else parse_loop radix limit 0 (c ∷ [])
from_str_radix radix limit (c ∷ d ∷ t) =
    if c == b'+' then parse_loop radix limit 0 (d ∷ t) else parse_loop radix limit 0 (c ∷ d ∷ t)

-- `format!("{epoch:016x}-{seq:08x}")`
unfoldable pub segment_id : ℕ → ℕ → Text
unfolding hex_padded
segment_id epoch seq = hex_padded 16 epoch ++ (b'-' ∷ hex_padded 8 seq)
