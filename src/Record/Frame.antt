-- ===== src/Record/Frame.antt =====
-- One frame: what `decoded_len` and `decode_one` accept, and that they undo `encode`.
use chorus.Prelude.{
  ℕ, suc, ◌+◌, ◌≤◌, List, [], ◌++◌, ◌≡◌, refl, ap, ◌∙◌, arith, u32_max, length, take, drop, Result,
  ok, length-append, take-append_left, append_assoc, length-drop, length-take, >>=-eq-ok, min, ◌-◌,
}
use chorus.Record.{
  RecordFrame, put_u32, from_be_bytes, encode, decoded_len, decode_one, RecordError,
}

pub encode-eq-ok :
    (frame : RecordFrame) (bytes : List ℕ)
    → encode frame ≡ ok bytes
    → (4 + length frame.payload ≤ u32_max)
      × (bytes ≡ put_u32 (4 + length frame.payload) ++ frame.payload)
unfolding encode
encode-eq-ok frame bytes h = ground arith

pub decoded_len_bounds :
    (input : List ℕ) (n : ℕ) → decoded_len input ≡ ok n → (4 ≤ n) × (n ≤ length input)
unfolding decoded_len
decoded_len_bounds input n h = ground arith

from_be_bytes-put_u32 :
    (n : ℕ) (rest : List ℕ) → n ≤ u32_max → from_be_bytes (put_u32 n ++ rest) ≡ n
from_be_bytes-put_u32 n rest h = omega arith

decoded_len-put_u32 :
    (n : ℕ) (rest : List ℕ)
    → 4 ≤ n
    → n ≤ u32_max
    → n ≤ 4 + length rest
    → decoded_len (put_u32 n ++ rest) ≡ ok n
unfolding decoded_len
decoded_len-put_u32 n rest lo hi fits = rw (from_be_bytes-put_u32 n [] hi) (ground arith)

decode_one-put_u32 :
    (n : ℕ) (payload rest : List ℕ)
    → n ≡ suc (suc (suc (suc (length payload))))
    → n ≤ u32_max
    → decode_one (put_u32 n ++ (payload ++ rest)) ≡ ok (record { payload = payload }, n)
unfolding decode_one
decode_one-put_u32 n payload rest e hi =
    rw
      (decoded_len-put_u32 n (payload ++ rest) (omega arith) hi
        (omega (arith, length-append payload rest)))
      (cut n e)
  where
    cut :
        (m : ℕ)
        → m ≡ suc (suc (suc (suc (length payload))))
        → ◌≡◌ {A = Result RecordError (RecordFrame × ℕ)}
            (ok (record { payload = drop 4 (take m (put_u32 n ++ (payload ++ rest))) }, n))
            (ok (record { payload = payload }, n))
    cut m em = rw (em, take-append_left (length payload) payload rest refl)

-- Decoding the encoding of a frame gives the frame back and the length of its encoding, whatever
-- follows.
pub decode_one-encode :
    (frame : RecordFrame) (bytes rest : List ℕ)
    → encode frame ≡ ok bytes
    → decode_one (bytes ++ rest) ≡ ok (frame, length bytes)
decode_one-encode frame bytes rest h =
    let (fits, e) = encode-eq-ok frame bytes h in
    rw (e, append_assoc (put_u32 (4 + length frame.payload)) frame.payload rest)
      (decode_one-put_u32 (4 + length frame.payload) frame.payload rest (omega arith) fits
        ∙ ap (λ (n : ℕ). ok (frame, n)) (omega arith))

-- A decoded frame and its length, in terms of the input.
pub length-decode_one :
    (input : List ℕ) (frame : RecordFrame) (n : ℕ)
    → decode_one input ≡ ok (frame, n)
    → (4 + length frame.payload ≡ n) × (n ≤ length input)
unfolding decode_one
length-decode_one input frame n h =
    let (m, found, e) = >>=-eq-ok (decoded_len input) _ h in
    let (lo, hi) = decoded_len_bounds input m found in
    let l : length (drop 4 (take m input)) ≡ min m (length input) - 4 =
      length-drop 4 (take m input) ∙ ap (λ (k : ℕ). k - 4) (length-take m input) in
    ground (arith, l)
