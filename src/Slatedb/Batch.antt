-- ===== src/Slatedb/Batch.antt =====
-- Whole batches of rust/client/src/slatedb/codec.rs: the size that `encode` computes, and decoding what
-- it gives.
use chorus.Prelude.{
  is_some, ℕ, ◌+◌, ◌*◌, ◌/◌, ◌≤◌, ◌≡◌, refl, sym, ap, ◌∙◌, false, not, ◌||◌, Option, none, some,
  List, [], ◌∷◌, ◌++◌, arith, ltb, ◌==◌, if◌then◌else◌, u32_max, u64_max, checked_add, length, All,
  length-append, ok, >>=-eq-ok, ok-injective, reject,
}
use chorus.Prelude.Int.{ℤ}
use chorus.Text.{text_eq}
use chorus.Slatedb.{WalError, ValueDeletable, merge, tombstone, RowEntry, ValueMethods, Documented}
use chorus.Slatedb.Codec.{
  be, checked_sum, to_unsigned, magic, bit, first_seq, metadata, add_row, ok_or, sized, tag_of,
  put_ts, put_field, put_value, flags_of, put_row, put_rows, encode, split_to, get, get_rows,
  decode,
}
use chorus.Slatedb.RoundTrip.{length-be, get-be, split_to-append, get_rows-put_rows, Fits, FitsTs}

length-put_field : (bytes : List ℕ) → length (put_field bytes) ≡ 4 + length bytes
length-put_field bytes =
    length-append (be 4 (length bytes)) bytes ∙ omega (arith, length-be 4 (length bytes))

length-put_ts : (ts : Option ℤ) → length (put_ts ts) ≡ bit (is_some ts) * 8
length-put_ts none = refl
length-put_ts (some ts) = length-be 8 (to_unsigned ts)

length-put_value :
    (methods : ValueMethods) (v : ValueDeletable)
    → Documented methods
    → length (put_value (methods.as_bytes v))
      ≡ (if methods.is_tombstone v then 0 else 4) + methods.len v
length-put_value methods (ValueDeletable.value b) d =
    rw (d.bytes_value b, d.tombstone_value b, d.len_value b) (length-put_field b)
length-put_value methods (merge b) d =
    rw (d.bytes_merge b, d.tombstone_merge b, d.len_merge b) (length-put_field b)
length-put_value methods tombstone d =
    rw (d.bytes_tombstone, d.tombstone_tombstone, d.len_tombstone) (omega arith)

length-put_row :
    (methods : ValueMethods) (row : RowEntry)
    → Documented methods
    → length (put_row methods row) ≡ metadata methods row + length row.key + methods.len row.value
unfolding put_row
length-put_row methods row d =
    let values = put_value (methods.as_bytes row.value) in
    let k = length-append (put_field row.key) (
      tag_of row.value
      ∷ flags_of row
      ∷ (put_ts row.create_ts ++ (put_ts row.expire_ts ++ values))) in
    let f = length-put_field row.key in
    let c = length-append (put_ts row.create_ts) (put_ts row.expire_ts ++ values) in
    let e = length-append (put_ts row.expire_ts) values in
    let a = length-put_ts row.create_ts in
    let b = length-put_ts row.expire_ts in
    let v = length-put_value methods row.value d in omega arith

checked_sum-eq-some :
    (size m k v total : ℕ) (error : WalError)
    → ok_or (checked_sum (checked_sum (checked_add size m) k) v) error ≡ ok total
    → total ≡ size + m + k + v
checked_sum-eq-some size m k v total error h = ground arith

add_row-eq-some :
    (methods : ValueMethods) (row : RowEntry) (size total : ℕ) (error : WalError)
    → ok_or (add_row methods row size) error ≡ ok total
    → total ≡ size + metadata methods row + length row.key + methods.len row.value
add_row-eq-some methods row size total error h =
    checked_sum-eq-some size (metadata methods row) (length row.key) (methods.len row.value) total
      error h

-- What a batch's checks establish of a row.
abbrev Sound : ValueMethods → ℕ → RowEntry → Type 0
Sound methods seq row =
    (row.seq ≡ seq) × (length row.key ≤ u32_max) × (methods.len row.value ≤ u32_max)

sized-eq-ok :
    (methods : ValueMethods) (seq : ℕ) (rows : List RowEntry) (size total : ℕ)
    → Documented methods
    → sized methods seq rows size ≡ ok total
    → All (Sound methods seq) rows × (total ≡ size + length (put_rows methods rows))
unfolding sized put_rows
sized-eq-ok methods seq [] size total d h = (tt, (let e = ok-injective h in omega arith))
sized-eq-ok methods seq (row ∷ rows) size total d h =
    let (_, same, h1) = >>=-eq-ok (reject (not (row.seq == seq)) _) _ h in
    let (_, key, h2) = >>=-eq-ok (reject (ltb u32_max (length row.key)) _) _ h1 in
    let (_, value, h3) = >>=-eq-ok (reject (ltb u32_max (methods.len row.value)) _) _ h2 in
    let (size', added, rest) = >>=-eq-ok (ok_or (add_row methods row size) _) _ h3 in
    let (sound, sum) = sized-eq-ok methods seq rows size' total d rest in
    let step = add_row-eq-some methods row size size' _ added in
    let one = length-put_row methods row d in
    let both = length-append (put_row methods row) (put_rows methods rows) in
    (((ground arith, ground arith, ground arith), sound), omega arith)

-- The values of the fields that have a machine type.
abbrev pub Typed : RowEntry → Type 0
Typed row = (row.seq ≤ u64_max) × FitsTs row.create_ts × FitsTs row.expire_ts

Sound-Fits :
    (methods : ValueMethods) (seq : ℕ) (rows : List RowEntry)
    → All (Sound methods seq) rows
    → All Typed rows
    → All (λ row. (row.seq ≡ seq) × Fits methods row) rows
Sound-Fits methods seq [] sound typed = tt
Sound-Fits methods seq (row ∷ rows) ((e, k, v), sound) ((_, c, x), typed) =
    ((e, (k, v, c, x)), Sound-Fits methods seq rows sound typed)

-- What `encode` has checked, and what it gives.
record Encoded (methods : ValueMethods) (rows : List RowEntry) (max_bytes : ℕ) (bytes : List ℕ)
    : Type 0 where
  seq : ℕ
  first : first_seq rows ≡ ok seq
  few : length rows ≤ u32_max
  sound : All (Sound methods seq) rows
  small : 20 + length (put_rows methods rows) ≤ max_bytes
  layout : bytes ≡ magic ++ (be 4 (length rows) ++ (be 8 seq ++ put_rows methods rows))

encode-Encoded :
    (methods : ValueMethods) (rows : List RowEntry) (max_bytes : ℕ) (bytes : List ℕ)
    → Documented methods
    → encode methods rows max_bytes ≡ ok bytes
    → Encoded methods rows max_bytes bytes
unfolding encode
encode-Encoded methods rows max_bytes bytes d h =
    let (seq, first, h1) = >>=-eq-ok (first_seq rows) _ h in
    let (_, few, h2) = >>=-eq-ok (reject (ltb u32_max (length rows)) _) _ h1 in
    let (size, sized_ok, h3) = >>=-eq-ok (sized methods seq rows 20) _ h2 in
    let (_, small, h4) = >>=-eq-ok (reject (ltb max_bytes size) _) _ h3 in
    let (sound, sum) = sized-eq-ok methods seq rows 20 size d sized_ok in
    let bound : size ≤ max_bytes = ground arith in
    record {
      seq = seq;
      first = first;
      few = ground arith;
      sound = sound;
      small = omega arith;
      layout = sym (ok-injective h4);
    }

first_seq-length : (rows : List RowEntry) (seq : ℕ) → first_seq rows ≡ ok seq → 1 ≤ length rows
first_seq-length [] seq h = absurd (ground arith)
first_seq-length (row ∷ rows) seq h = omega arith

first_seq-Typed :
    (rows : List RowEntry) (seq : ℕ) → first_seq rows ≡ ok seq → All Typed rows → seq ≤ u64_max
first_seq-Typed [] seq h typed = absurd (ground arith)
first_seq-Typed (row ∷ rows) seq h ((fits, _, _), _) = let e = ok-injective h in omega arith

-- A row takes six bytes at least.
rows_long :
    (methods : ValueMethods) (rows : List RowEntry)
    → Documented methods
    → length rows * 6 ≤ length (put_rows methods rows)
unfolding put_rows
rows_long methods [] d = omega arith
rows_long methods (row ∷ rows) d =
    let one = length-put_row methods row d in
    let both = length-append (put_row methods row) (put_rows methods rows) in
    omega (arith, rows_long methods rows d)

decode_steps :
    (bytes a b c : List ℕ) (count seq : ℕ) (rows : List RowEntry)
    → split_to bytes 8 ≡ ok (magic, a)
    → get 4 a ≡ ok (count, b)
    → get 8 b ≡ ok (seq, c)
    → ((count == 0) || ltb (length c / 6) count) ≡ false
    → get_rows count seq c ≡ ok (rows, [])
    → decode bytes ≡ ok rows
unfolding decode text_eq
decode_steps bytes a b c count seq rows h1 h2 h3 h4 h5 = rw h1 (rw h2 (rw h3 (rw (h4, h5) refl)))

decode_layout :
    (methods : ValueMethods) (rows : List RowEntry) (seq : ℕ)
    → Documented methods
    → 1 ≤ length rows
    → length rows ≤ u32_max
    → seq ≤ u64_max
    → All (λ row. (row.seq ≡ seq) × Fits methods row) rows
    → decode (magic ++ (be 4 (length rows) ++ (be 8 seq ++ put_rows methods rows))) ≡ ok rows
decode_layout methods rows seq d has_rows few fits h =
    let body = put_rows methods rows in
    let long = rows_long methods rows d in
    decode_steps (magic ++ (be 4 (length rows) ++ (be 8 seq ++ body)))
      (be 4 (length rows) ++ (be 8 seq ++ body)) (be 8 seq ++ body) body (length rows) seq rows
      (split_to-append 8 magic (be 4 (length rows) ++ (be 8 seq ++ body)) refl)
      (get-be 4 (length rows) (be 8 seq ++ body) (omega arith)) (get-be 8 seq body (omega arith))
      (ground arith) (get_rows-put_rows methods seq rows d h)

-- Where the methods of a value are as documented and the fields of the rows are within their machine
-- types, a batch that encodes within a size limit takes no more bytes than that, and decodes to the
-- same rows.
pub decode-encode :
    (methods : ValueMethods) (rows : List RowEntry) (max_bytes : ℕ) (bytes : List ℕ)
    → Documented methods
    → All Typed rows
    → encode methods rows max_bytes ≡ ok bytes
    → (decode bytes ≡ ok rows) × (length bytes ≤ max_bytes)
decode-encode methods rows max_bytes bytes d typed h =
    let e = encode-Encoded methods rows max_bytes bytes d h in
    let a = length-append (be 4 (length rows)) (be 8 e.seq ++ put_rows methods rows) in
    let b = length-append (be 8 e.seq) (put_rows methods rows) in
    let c = length-be 4 (length rows) in
    let f = length-be 8 e.seq in
    let l = ap length e.layout in
    (
      ap decode e.layout
          ∙ decode_layout methods rows e.seq d (first_seq-length rows e.seq e.first) e.few
              (first_seq-Typed rows e.seq e.first typed)
              (Sound-Fits methods e.seq rows e.sound typed),
      (let s = e.small in omega arith),
    )
