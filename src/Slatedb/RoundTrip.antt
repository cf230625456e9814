-- ===== src/Slatedb/RoundTrip.antt =====
-- Batches of rust/client/src/slatedb/codec.rs: decoding undoes encoding.
use chorus.Prelude.{
  is_some, ℕ, zero, suc, ◌+◌, ◌*◌, ◌/◌, ◌%◌, ◌^◌, ◌≤◌, ◌<◌, ◌≡◌, refl, sym, ap, ◌∙◌, Bool, true,
  false, Option, none, some, List, [], ◌∷◌, ◌++◌, append_assoc, arith, leb, ◌==◌, u32_max, length,
  All, length-append, take-append_left, drop-append_left, ok, ◌>>=◌,
}
use chorus.Prelude.Int.{ℤ, pos, negsuc}
use chorus.Slatedb.{ValueDeletable, merge, tombstone, RowEntry, ValueMethods, Documented}
use chorus.Slatedb.Codec.{
  be, from_be, to_unsigned, to_signed, bit, tag_of, put_ts, put_field, put_value, flags_of, put_row,
  put_rows, split_to, get, field, get_ts, get_value, get_row, get_rows,
}

pub length-be : (k n : ℕ) → length (be k n) ≡ k
unfolding be
length-be zero n = refl
length-be (suc k) n =
    length-append (be k (n / 256)) (n % 256 ∷ []) ∙ omega (arith, length-be k (n / 256))

from_be-append :
    (acc : ℕ) (xs : List ℕ) (b : ℕ) → from_be acc (xs ++ (b ∷ [])) ≡ from_be acc xs * 256 + b
unfolding from_be
from_be-append acc [] b = refl
from_be-append acc (x ∷ xs) b = from_be-append (acc * 256 + x) xs b

pub from_be-be : (k n : ℕ) → n < 256 ^ k → from_be 0 (be k n) ≡ n
unfolding be from_be
from_be-be zero n h = omega arith
from_be-be (suc k) n h =
    from_be-append 0 (be k (n / 256)) (n % 256)
    ∙ (let high = from_be-be k (n / 256) (omega arith) in omega arith)

-- A timestamp fits in an i64.
abbrev pub IsI64 : ℤ → Type 0
IsI64 (pos n) = n < 9223372036854775808
IsI64 (negsuc n) = n < 9223372036854775808

to_unsigned-IsI64 : (ts : ℤ) → IsI64 ts → to_unsigned ts < 256 ^ 8
to_unsigned-IsI64 (pos n) h = omega arith
to_unsigned-IsI64 (negsuc n) h = omega arith

to_signed-to_unsigned : (ts : ℤ) → IsI64 ts → to_signed (to_unsigned ts) ≡ ts
to_signed-to_unsigned (pos n) h = ground arith
to_signed-to_unsigned (negsuc n) h = ground arith

pub split_to-append :
    (n : ℕ) (xs rest : List ℕ) → n ≡ length xs → split_to (xs ++ rest) n ≡ ok (xs, rest)
unfolding split_to
split_to-append n xs rest e =
    rw (take-append_left n xs rest e, drop-append_left n xs rest e)
      (let l = length-append xs rest in ground arith)

pub get-be : (k n : ℕ) (rest : List ℕ) → n < 256 ^ k → get k (be k n ++ rest) ≡ ok (n, rest)
unfolding get
get-be k n rest h =
    rw (split_to-append k (be k n) rest (sym (length-be k n)), from_be-be k n h) refl

get-byte : (b : ℕ) (rest : List ℕ) → get 1 (b ∷ rest) ≡ ok (b, rest)
unfolding get split_to from_be
get-byte b rest = ground arith

field-put_field :
    (bytes rest : List ℕ)
    → length bytes ≤ u32_max
    → field (put_field bytes ++ rest) ≡ ok (bytes, rest)
unfolding field
field-put_field bytes rest h =
    rw
      (
        append_assoc (be 4 (length bytes)) bytes rest,
        get-be 4 (length bytes) (bytes ++ rest) (omega arith),
      )
      (split_to-append (length bytes) bytes rest refl)

-- The timestamps of a row fit.
abbrev pub FitsTs : Option ℤ → Type 0
FitsTs none = Unit {0}
FitsTs (some ts) = IsI64 ts

get_ts-put_ts :
    (ts : Option ℤ) (rest : List ℕ)
    → FitsTs ts
    → get_ts (is_some ts) (put_ts ts ++ rest) ≡ ok (ts, rest)
unfolding get_ts
get_ts-put_ts none rest h = refl
get_ts-put_ts (some ts) rest h =
    rw (get-be 8 (to_unsigned ts) rest (to_unsigned-IsI64 ts h), to_signed-to_unsigned ts h) refl

get_value-put_value :
    (methods : ValueMethods) (v : ValueDeletable) (rest : List ℕ)
    → Documented methods
    → methods.len v ≤ u32_max
    → get_value (tag_of v) (put_value (methods.as_bytes v) ++ rest) ≡ ok (v, rest)
unfolding get_value
get_value-put_value methods (ValueDeletable.value b) rest d h = rw (d.bytes_value b) (
    ap (λ r. r >>= (λ (b', rest'). ok (ValueDeletable.value b', rest')))
      (field-put_field b rest (let l = d.len_value b in omega arith)))
get_value-put_value methods (merge b) rest d h = rw (d.bytes_merge b) (
    ap (λ r. r >>= (λ (b', rest'). ok (merge b', rest')))
      (field-put_field b rest (let l = d.len_merge b in omega arith)))
get_value-put_value methods tombstone rest d h = rw d.bytes_tombstone refl

low_bit : (a b : Bool) → ((bit a + 2 * bit b) % 2 == 1) ≡ a
low_bit true true = refl
low_bit true false = refl
low_bit false true = refl
low_bit false false = refl

high_bit : (a b : Bool) → ((bit a + 2 * bit b) / 2 % 2 == 1) ≡ b
high_bit true true = refl
high_bit true false = refl
high_bit false true = refl
high_bit false false = refl

two_bits : (a b : Bool) → leb 4 (bit a + 2 * bit b) ≡ false
two_bits true true = refl
two_bits true false = refl
two_bits false true = refl
two_bits false false = refl

-- The lengths of a row fit in 32 bits, and its timestamps in an i64.
abbrev pub Fits : ValueMethods → RowEntry → Type 0
Fits methods row =
    (length row.key ≤ u32_max)
    × (methods.len row.value ≤ u32_max)
    × FitsTs row.create_ts
    × FitsTs row.expire_ts

put_row-append :
    (methods : ValueMethods) (row : RowEntry) (rest : List ℕ)
    → put_row methods row ++ rest
      ≡ put_field row.key
        ++ (tag_of row.value
            ∷ flags_of row
            ∷ (put_ts row.create_ts
                ++ (put_ts row.expire_ts ++ (put_value (methods.as_bytes row.value) ++ rest))))
unfolding put_row
put_row-append methods row rest = simp append_assoc

get_row-fields :
    (methods : ValueMethods) (row : RowEntry) (rest : List ℕ)
    → Documented methods
    → Fits methods row
    → get_row row.seq (
        put_field row.key
        ++ (tag_of row.value
            ∷ flags_of row
            ∷ (put_ts row.create_ts
                ++ (put_ts row.expire_ts ++ (put_value (methods.as_bytes row.value) ++ rest)))))
      ≡ ok (row, rest)
unfolding get_row
get_row-fields methods row rest d (key_fits, value_fits, create_fits, expire_fits) =
    let c = is_some row.create_ts in
    let e = is_some row.expire_ts in
    let left = put_value (methods.as_bytes row.value) ++ rest in
    let times = put_ts row.create_ts ++ (put_ts row.expire_ts ++ left) in
    rw (field-put_field row.key (tag_of row.value ∷ flags_of row ∷ times) key_fits) (
      rw (get-byte (tag_of row.value) (flags_of row ∷ times)) (
        rw (get-byte (flags_of row) times) (
          rw (two_bits c e, low_bit c e, high_bit c e)
            (rw (get_ts-put_ts row.create_ts (put_ts row.expire_ts ++ left) create_fits) (
              rw (get_ts-put_ts row.expire_ts left expire_fits)
                (rw (get_value-put_value methods row.value rest d value_fits) refl))))))

get_row-put_row :
    (methods : ValueMethods) (row : RowEntry) (rest : List ℕ)
    → Documented methods
    → Fits methods row
    → get_row row.seq (put_row methods row ++ rest) ≡ ok (row, rest)
get_row-put_row methods row rest d fits =
    ap (get_row row.seq) (put_row-append methods row rest) ∙ get_row-fields methods row rest d fits

pub get_rows-put_rows :
    (methods : ValueMethods) (seq : ℕ) (rows : List RowEntry)
    → Documented methods
    → All (λ row. (row.seq ≡ seq) × Fits methods row) rows
    → get_rows (length rows) seq (put_rows methods rows) ≡ ok (rows, [])
unfolding get_rows put_rows
get_rows-put_rows methods seq [] d h = refl
get_rows-put_rows methods seq (row ∷ rows) d ((e, fits), h) =
    rw
      (
        sym e,
        get_row-put_row methods row (put_rows methods rows) d fits,
        e,
        get_rows-put_rows methods seq rows d h,
      )
      refl
