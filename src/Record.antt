-- ===== src/Record.antt =====
-- rust/client/src/record.rs: the durable envelope of one record, a 4-byte big-endian total length
-- and the payload. A byte slice is a list of numbers.
mod Frame
pub mod RoundTrip
pub mod Loop
pub mod Agreement
mod Examples
use chorus.Prelude.{
  ℕ, zero, suc, ◌+◌, ◌*◌, ◌/◌, ◌%◌, List, [], ◌∷◌, ◌++◌, none, some, ltb, leb, if◌then◌else◌,
  u32_max, checked_add, length, take, drop, Result, ok, err, ◌>>=◌,
}

pub record RecordFrame : Type 0 where
  pub payload : List ℕ

pub data RecordError : Type 0 where
  truncated : RecordError
  invalid_length : ℕ → RecordError
  too_large : RecordError

abbrev pub header_len : ℕ
header_len = 4

-- `put_u32` and `u32::from_be_bytes`; the latter is called on four bytes at least.
abbrev pub put_u32 : ℕ → List ℕ
put_u32 n = (n / 16777216 % 256) ∷ (n / 65536 % 256) ∷ (n / 256 % 256) ∷ (n % 256) ∷ []

abbrev pub from_be_bytes : List ℕ → ℕ
from_be_bytes (a ∷ b ∷ c ∷ d ∷ rest) = a * 16777216 + b * 65536 + c * 256 + d
from_be_bytes _ = 0

unfoldable pub encoded_len : RecordFrame → Result RecordError ℕ
encoded_len frame = elim (checked_add header_len (length frame.payload)) [
  | none ↦ err too_large
  | some total_len ↦ if leb total_len u32_max then ok total_len else err too_large
]

unfoldable pub encode : RecordFrame → Result RecordError (List ℕ)
unfolding encoded_len
encode frame = do total_len ← encoded_len frame; ok (put_u32 total_len ++ frame.payload)

unfoldable pub encode_records : List RecordFrame → Result RecordError (List ℕ)
encode_records [] = ok []
encode_records (frame ∷ frames) = do
  bytes ← encode frame
  rest ← encode_records frames
  ok (bytes ++ rest)

unfoldable pub decoded_len : List ℕ → Result RecordError ℕ
decoded_len input =
    if ltb (length input) header_len
    then err truncated
    else (let total_len = from_be_bytes (take header_len input) in
        if ltb total_len header_len
        then err (invalid_length total_len)
        else if ltb (length input) total_len
        then err truncated
        else ok total_len)

-- `decode_one` copies the payload and `decode_one_bytes` shares it: their values are the same.
unfoldable pub decode_one : List ℕ → Result RecordError (RecordFrame × ℕ)
decode_one input = do
  total_len ← decoded_len input
  ok (record { payload = drop header_len (take total_len input) }, total_len)

-- The loops run on fuel, the length of the input: a record takes four bytes at least.
unfoldable pub decode_loop : ℕ → List ℕ → Result RecordError (List RecordFrame)
decode_loop fuel [] = ok []
decode_loop zero (b ∷ input) = err truncated
decode_loop (suc fuel) (b ∷ input) = do
  (frame, consumed) ← decode_one (b ∷ input)
  records ← decode_loop fuel (drop consumed (b ∷ input))
  ok (frame ∷ records)

unfoldable pub decode_all_bytes : List ℕ → Result RecordError (List RecordFrame)
decode_all_bytes input = decode_loop (length input) input

unfoldable pub validate_loop : ℕ → List ℕ → ℕ → Result RecordError ℕ
validate_loop fuel [] records = ok records
validate_loop zero (b ∷ input) records = err truncated
validate_loop (suc fuel) (b ∷ input) records = do
  consumed ← decoded_len (b ∷ input)
  validate_loop fuel (drop consumed (b ∷ input)) (records + 1)

unfoldable pub validate_all : List ℕ → Result RecordError ℕ
validate_all input = validate_loop (length input) input 0

unfoldable pub prefix_loop : ℕ → List ℕ → List RecordFrame → ℕ → List RecordFrame × ℕ
prefix_loop fuel [] records consumed = (records, consumed)
prefix_loop zero (b ∷ input) records consumed = (records, consumed)
prefix_loop (suc fuel) (b ∷ input) records consumed = elim (decode_one (b ∷ input)) [
  | err _ ↦ (records, consumed)
  | ok (frame, record_len) ↦
      prefix_loop fuel (drop record_len (b ∷ input)) (records ++ (frame ∷ []))
        (consumed + record_len)
]

unfoldable pub decode_complete_prefix : List ℕ → List RecordFrame × ℕ
decode_complete_prefix input = prefix_loop (length input) input [] 0

unfoldable pub ends_loop : ℕ → List ℕ → ℕ → List ℕ → List ℕ
ends_loop zero input consumed ends = ends
ends_loop (suc fuel) input consumed ends = elim (decoded_len (drop consumed input)) [
  | err _ ↦ ends
  | ok record_len ↦
      ends_loop fuel input (consumed + record_len) (ends ++ ((consumed + record_len) ∷ []))
]

unfoldable pub complete_prefix_ends : List ℕ → List ℕ
complete_prefix_ends input = ends_loop (length input) input 0 []
