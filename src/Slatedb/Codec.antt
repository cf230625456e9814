-- ===== src/Slatedb/Codec.antt =====
-- rust/client/src/slatedb/codec.rs: one batch of rows as the payload of one record. A byte slice is
-- a list of numbers; `split_to` gives what it splits off and what is left.
use chorus.Prelude.{
  is_some, ℕ, zero, suc, ◌+◌, ◌-◌, ◌*◌, ◌/◌, ◌%◌, Bool, true, false, not, ◌||◌, Option, none, some,
  List, [], ◌∷◌, ◌++◌, ltb, leb, ◌==◌, if◌then◌else◌, u32_max, u64_max, checked_add, length, take,
  drop, Result, ok, err, ◌>>=◌, ◌>>◌, reject,
}
use chorus.Prelude.Int.{ℤ, pos, negsuc}
use chorus.Text.{text_eq}
use chorus.Slatedb.{
  WalError, internal_error, data_error, ValueDeletable, merge, tombstone, RowEntry, ValueMethods,
}

-- The lowest bytes of a number, highest first: `put_u32` writes four and `put_u64` eight.
unfoldable pub be : ℕ → ℕ → List ℕ
be zero n = []
be (suc k) n = be k (n / 256) ++ (n % 256 ∷ [])

unfoldable pub from_be : ℕ → List ℕ → ℕ
from_be acc [] = acc
from_be acc (b ∷ bytes) = from_be (acc * 256 + b) bytes

-- The two's complement of an i64.
abbrev pub to_unsigned : ℤ → ℕ
to_unsigned (pos n) = n
to_unsigned (negsuc n) = u64_max - n

abbrev pub to_signed : ℕ → ℤ
to_signed n = if ltb n 9223372036854775808 then pos n else negsuc (u64_max - n)

abbrev pub magic : List ℕ
magic = 67 ∷ 72 ∷ 83 ∷ 76 ∷ 87 ∷ 65 ∷ 76 ∷ 1 ∷ []

abbrev pub bit : Bool → ℕ
bit true = 1
bit false = 0

abbrev pub first_seq : List RowEntry → Result WalError ℕ
first_seq [] = err (internal_error "empty SlateDB write batch")
first_seq (row ∷ rows) = ok row.seq

abbrev pub checked_sum : Option ℕ → ℕ → Option ℕ
checked_sum none n = none
checked_sum (some m) n = checked_add m n

abbrev pub metadata : ValueMethods → RowEntry → ℕ
metadata methods row =
    6
    + bit (is_some row.create_ts) * 8
    + bit (is_some row.expire_ts) * 8
    + (if methods.is_tombstone row.value then 0 else 4)

abbrev pub add_row : ValueMethods → RowEntry → ℕ → Option ℕ
add_row methods row size =
    checked_sum (checked_sum (checked_add size (metadata methods row)) (length row.key))
      (methods.len row.value)

abbrev pub ok_or : Option ℕ → WalError → Result WalError ℕ
ok_or none error = err error
ok_or (some n) error = ok n

unfoldable pub sized : ValueMethods → ℕ → List RowEntry → ℕ → Result WalError ℕ
sized methods seq [] size = ok size
sized methods seq (row ∷ rows) size = do
  reject (not (row.seq == seq)) (internal_error "all rows in a SlateDB batch must share a sequence")
  reject (ltb u32_max (length row.key)) (internal_error "key too large")
  reject (ltb u32_max (methods.len row.value)) (internal_error "value too large")
  size' ← ok_or (add_row methods row size) (internal_error "batch size overflow")
  sized methods seq rows size'

abbrev pub tag_of : ValueDeletable → ℕ
tag_of (ValueDeletable.value _) = 0
tag_of (merge _) = 1
tag_of tombstone = 2

abbrev pub put_ts : Option ℤ → List ℕ
put_ts none = []
put_ts (some ts) = be 8 (to_unsigned ts)

abbrev pub put_field : List ℕ → List ℕ
put_field bytes = be 4 (length bytes) ++ bytes

abbrev pub put_value : Option (List ℕ) → List ℕ
put_value none = []
put_value (some bytes) = put_field bytes

-- The two bits of the flags do not overlap, so their sum is their disjunction.
abbrev pub flags_of : RowEntry → ℕ
flags_of row = bit (is_some row.create_ts) + 2 * bit (is_some row.expire_ts)

unfoldable pub put_row : ValueMethods → RowEntry → List ℕ
unfolding be
put_row methods row =
    put_field row.key
    ++ (tag_of row.value
        ∷ flags_of row
        ∷ (put_ts row.create_ts
            ++ (put_ts row.expire_ts ++ put_value (methods.as_bytes row.value))))

unfoldable pub put_rows : ValueMethods → List RowEntry → List ℕ
unfolding put_row
put_rows methods [] = []
put_rows methods (row ∷ rows) = put_row methods row ++ put_rows methods rows

unfoldable pub encode : ValueMethods → List RowEntry → ℕ → Result WalError (List ℕ)
unfolding sized put_rows be
encode methods rows max_bytes = do
  seq ← first_seq rows
  reject (ltb u32_max (length rows)) (internal_error "too many batch rows")
  size ← sized methods seq rows (length magic + 4 + 8)
  reject (ltb max_bytes size) (internal_error "encoded SlateDB batch exceeds the record limit")
  ok (magic ++ (be 4 (length rows) ++ (be 8 seq ++ put_rows methods rows)))

-- `take` of the source.
unfoldable pub split_to : List ℕ → ℕ → Result WalError (List ℕ × List ℕ)
split_to bytes count =
    if ltb (length bytes) count
    then err (data_error "truncated SlateDB WAL batch")
    else ok (take count bytes, drop count bytes)

unfoldable pub get : ℕ → List ℕ → Result WalError (ℕ × List ℕ)
unfolding split_to from_be
get width bytes = do (number, rest) ← split_to bytes width; ok (from_be 0 number, rest)

unfoldable pub field : List ℕ → Result WalError (List ℕ × List ℕ)
unfolding get split_to
field bytes = do (size, rest) ← get 4 bytes; split_to rest size

unfoldable pub get_ts : Bool → List ℕ → Result WalError (Option ℤ × List ℕ)
unfolding get
get_ts false bytes = ok (none, bytes)
get_ts true bytes = do (ts, rest) ← get 8 bytes; ok (some (to_signed ts), rest)

unfoldable pub get_value : ℕ → List ℕ → Result WalError (ValueDeletable × List ℕ)
unfolding field
get_value tag bytes =
    if tag == 0
    then (do (b, rest) ← field bytes; ok (ValueDeletable.value b, rest))
    else if tag == 1
    then (do (b, rest) ← field bytes; ok (merge b, rest))
    else if tag == 2
    then ok (tombstone, bytes)
    else err (data_error "unknown SlateDB WAL value tag")

-- Flags are a byte: `flags & !3` is nonzero from four on, and its two low bits are these remainders.
unfoldable pub get_row : ℕ → List ℕ → Result WalError (RowEntry × List ℕ)
unfolding field get get_ts get_value
get_row seq bytes = do
  (key, after_key) ← field bytes
  (tag, after_tag) ← get 1 after_key
  (flags, after_flags) ← get 1 after_tag
  reject (leb 4 flags) (data_error "unknown SlateDB WAL row flags")
  (create_ts, after_create) ← get_ts (flags % 2 == 1) after_flags
  (expire_ts, after_expire) ← get_ts (flags / 2 % 2 == 1) after_create
  (content, rest) ← get_value tag after_expire
  ok (
    record { key = key; value = content; seq = seq; create_ts = create_ts; expire_ts = expire_ts },
    rest,
  )

unfoldable pub get_rows : ℕ → ℕ → List ℕ → Result WalError (List RowEntry × List ℕ)
unfolding get_row
get_rows zero seq bytes = ok ([], bytes)
get_rows (suc count) seq bytes = do
  (row, after_row) ← get_row seq bytes
  (rows, rest) ← get_rows count seq after_row
  ok (row ∷ rows, rest)

unfoldable pub decode : List ℕ → Result WalError (List RowEntry)
unfolding split_to get get_rows text_eq
decode bytes = do
  (found, after_magic) ← split_to bytes (length magic)
  reject (not (text_eq found magic)) (data_error "unknown Chorus SlateDB WAL format/version")
  (count, after_count) ← get 4 after_magic
  (seq, after_seq) ← get 8 after_count
  reject (count == 0 || ltb (length after_seq / 6) count)
      (data_error "invalid SlateDB WAL row count")
  (rows, rest) ← get_rows count seq after_seq
  reject (not (length rest == 0)) (data_error "trailing bytes in SlateDB WAL batch")
  ok rows
