-- ===== src/Record/Examples.antt =====
-- Runs of record.rs and the theorems at concrete segments.
use chorus.Prelude.{ℕ, ◌≡◌, refl, List, [], ◌∷◌, ◌++◌, length, ok, err, map_ok}
use chorus.Record.Loop.{Loop, decode_all_bytes-Loop}
use chorus.Record.{
  RecordFrame, truncated, invalid_length, encode, encode_records, decoded_len, decode_one,
  decode_loop, decode_all_bytes, decode_complete_prefix, validate_all, validate_loop,
  complete_prefix_ends, ends_loop,
}
use chorus.Record.Agreement.{
  validate_all-decode_all_bytes, complete_prefix_ends-decode_complete_prefix, ends_from, end_from,
}
use chorus.Record.RoundTrip.{decode_all_bytes-encode_records, decode_complete_prefix-encode_records}

abbrev alpha : RecordFrame
alpha = record { payload = b'a' ∷ b'l' ∷ b'p' ∷ b'h' ∷ b'a' ∷ [] }

abbrev blank : RecordFrame
blank = record { payload = [] }

abbrev segment : List ℕ
segment = 0 ∷ 0 ∷ 0 ∷ 9 ∷ b'a' ∷ b'l' ∷ b'p' ∷ b'h' ∷ b'a' ∷ 0 ∷ 0 ∷ 0 ∷ 4 ∷ []

encode_records_run : encode_records (alpha ∷ blank ∷ []) ≡ ok segment
unfolding encode_records encode
encode_records_run = refl

validate_all_run : validate_all segment ≡ ok 2
unfolding validate_all validate_loop decoded_len
validate_all_run = refl

complete_prefix_ends_run : complete_prefix_ends (segment ++ (0 ∷ 0 ∷ [])) ≡ 9 ∷ 13 ∷ []
unfolding complete_prefix_ends ends_loop decoded_len
complete_prefix_ends_run = refl

short_header : decode_all_bytes (0 ∷ 0 ∷ 0 ∷ []) ≡ err truncated
unfolding decode_all_bytes decode_loop decode_one decoded_len
short_header = refl

small_length : decode_all_bytes (0 ∷ 0 ∷ 0 ∷ 3 ∷ []) ≡ err (invalid_length 3)
unfolding decode_all_bytes decode_loop decode_one decoded_len
small_length = refl

decode_all_bytes-encode_records_example : decode_all_bytes segment ≡ ok (alpha ∷ blank ∷ [])
decode_all_bytes-encode_records_example =
    decode_all_bytes-encode_records (alpha ∷ blank ∷ []) segment encode_records_run

decode_all_bytes-Loop_example : Loop segment (decode_all_bytes segment)
decode_all_bytes-Loop_example = decode_all_bytes-Loop segment

cut_short : decode_one (0 ∷ 0 ∷ 0 ∷ 8 ∷ 1 ∷ 2 ∷ []) ≡ err truncated
unfolding decode_one decoded_len
cut_short = refl

decode_complete_prefix-encode_records_example :
    decode_complete_prefix (segment ++ (0 ∷ 0 ∷ 0 ∷ 8 ∷ 1 ∷ 2 ∷ [])) ≡ (alpha ∷ blank ∷ [], 13)
decode_complete_prefix-encode_records_example =
    decode_complete_prefix-encode_records (alpha ∷ blank ∷ []) segment (0 ∷ 0 ∷ 0 ∷ 8 ∷ 1 ∷ 2 ∷ [])
      truncated encode_records_run cut_short

validate_all-decode_all_bytes_example :
    validate_all segment ≡ map_ok length (decode_all_bytes segment)
validate_all-decode_all_bytes_example = validate_all-decode_all_bytes segment

complete_prefix_ends-decode_complete_prefix_example :
    (complete_prefix_ends segment ≡ ends_from 0 (decode_complete_prefix segment).0)
    × ((decode_complete_prefix segment).1 ≡ end_from 0 (decode_complete_prefix segment).0)
complete_prefix_ends-decode_complete_prefix_example =
    complete_prefix_ends-decode_complete_prefix segment
