-- ===== src/Record/RoundTrip.antt =====
-- Encoding and decoding a whole segment of frames (`decode_all_bytes`, `decode_complete_prefix`).
use chorus.Prelude.{
  ℕ, zero, suc, ◌+◌, ◌≤◌, List, [], ◌∷◌, ◌++◌, ◌≡◌, refl, ap, ◌∙◌, arith, length, drop, ok, err,
  ◌>>=◌, >>=-eq-ok, length-append, drop-append_left, append_assoc, append-nil,
}
use chorus.Record.{
  RecordFrame, RecordError, encode, decoded_len, decode_one, encode_records, decode_loop,
  decode_all_bytes, prefix_loop, decode_complete_prefix,
}
use chorus.Record.Frame.{encode-eq-ok, decoded_len_bounds, decode_one-encode}

pub decode_one_bounds :
    (input : List ℕ) (frame : RecordFrame) (n : ℕ)
    → decode_one input ≡ ok (frame, n)
    → (4 ≤ n) × (n ≤ length input)
unfolding decode_one
decode_one_bounds input frame n h =
    let (m, found, e) = >>=-eq-ok (decoded_len input) _ h in
    let bounds = decoded_len_bounds input m found in ground arith

encode_records-eq-ok :
    (frame : RecordFrame) (frames : List RecordFrame) (bytes : List ℕ)
    → encode_records (frame ∷ frames) ≡ ok bytes
    → (b : List ℕ) × (rest : List ℕ) × (encode frame ≡ ok b)
      × (encode_records frames ≡ ok rest)
      × (bytes ≡ b ++ rest)
unfolding encode_records
encode_records-eq-ok frame frames bytes h =
    let (b, hb, h') = >>=-eq-ok (encode frame) _ h in
    let (rest, hr, e) = >>=-eq-ok (encode_records frames) _ h' in (b, rest, hb, hr, ground arith)

length-encode : (frame : RecordFrame) (b : List ℕ) → encode frame ≡ ok b → 4 ≤ length b
length-encode frame b h = let (_, e) = encode-eq-ok frame b h in omega (arith, ap length e)

decode_loop-suc :
    (fuel n : ℕ) (input : List ℕ) (frame : RecordFrame)
    → decode_one input ≡ ok (frame, n)
    → decode_loop (suc fuel) input
      ≡ (decode_loop fuel (drop n input) >>= λ records. ok (frame ∷ records))
unfolding decode_loop
decode_loop-suc fuel n [] frame h = absurd (omega (arith, decode_one_bounds [] frame n h))
decode_loop-suc fuel n (b ∷ input) frame h = rw h

encode_records_nil : (bytes : List ℕ) → encode_records [] ≡ ok bytes → [] ≡ bytes
unfolding encode_records
encode_records_nil bytes h = ground arith

decode_loop_nil : (fuel : ℕ) → decode_loop fuel [] ≡ ok []
unfolding decode_loop
decode_loop_nil fuel = refl

decode_loop-encode :
    (frames : List RecordFrame) (fuel : ℕ) (bytes : List ℕ)
    → encode_records frames ≡ ok bytes
    → length bytes ≤ fuel
    → decode_loop fuel bytes ≡ ok frames
decode_loop-encode [] fuel bytes h fits = rw (← encode_records_nil bytes h) (decode_loop_nil fuel)
decode_loop-encode (frame ∷ frames) zero bytes h fits =
    let (b, rest, hb, hr, e) = encode_records-eq-ok frame frames bytes h in
    absurd (omega (arith, ap length e, length-append b rest, length-encode frame b hb))
decode_loop-encode (frame ∷ frames) (suc fuel) bytes h fits =
    let (b, rest, hb, hr, e) = encode_records-eq-ok frame frames bytes h in
    rw e (
      decode_loop-suc fuel (length b) (b ++ rest) frame (decode_one-encode frame b rest hb)
      ∙ rw (
        drop-append_left (length b) b rest refl,
        decode_loop-encode frames fuel rest hr
            (omega (arith, ap length e, length-append b rest, length-encode frame b hb)),
      ))

-- Decoding the encoding of any list of frames that can be encoded gives exactly those frames.
pub decode_all_bytes-encode_records :
    (frames : List RecordFrame) (bytes : List ℕ)
    → encode_records frames ≡ ok bytes
    → decode_all_bytes bytes ≡ ok frames
unfolding decode_all_bytes
decode_all_bytes-encode_records frames bytes h =
    decode_loop-encode frames (length bytes) bytes h (omega arith)

pub prefix_loop-suc :
    (fuel n c : ℕ) (input : List ℕ) (acc : List RecordFrame) (frame : RecordFrame)
    → decode_one input ≡ ok (frame, n)
    → prefix_loop (suc fuel) input acc c
      ≡ prefix_loop fuel (drop n input) (acc ++ (frame ∷ [])) (c + n)
unfolding prefix_loop
prefix_loop-suc fuel n c [] acc frame h = absurd (omega (arith, decode_one_bounds [] frame n h))
prefix_loop-suc fuel n c (b ∷ input) acc frame h = rw (h, prefix_loop)

pub prefix_loop_stop :
    (fuel c : ℕ) (tail : List ℕ) (acc : List RecordFrame) (e : RecordError)
    → decode_one tail ≡ err e
    → prefix_loop fuel tail acc c ≡ (acc, c)
unfolding prefix_loop
prefix_loop_stop fuel c [] acc e h = refl
prefix_loop_stop zero c (b ∷ tail) acc e h = refl
prefix_loop_stop (suc fuel) c (b ∷ tail) acc e h = rw (h, prefix_loop)

prefix_loop-encode :
    (frames : List RecordFrame) (fuel c : ℕ) (bytes tail : List ℕ) (acc : List RecordFrame)
    (e : RecordError)
    → encode_records frames ≡ ok bytes
    → decode_one tail ≡ err e
    → length bytes ≤ fuel
    → prefix_loop fuel (bytes ++ tail) acc c ≡ (acc ++ frames, c + length bytes)
prefix_loop-encode [] fuel c bytes tail acc e h bad fits =
    rw (← encode_records_nil bytes h, prefix_loop_stop fuel c tail acc e bad, append-nil acc)
      (ap (λ (n : ℕ). (acc, n)) (omega arith))
prefix_loop-encode (frame ∷ frames) zero c bytes tail acc e h bad fits =
    let (b, rest, hb, hr, eq) = encode_records-eq-ok frame frames bytes h in
    absurd (omega (arith, ap length eq, length-append b rest, length-encode frame b hb))
prefix_loop-encode (frame ∷ frames) (suc fuel) c bytes tail acc e h bad fits =
    let (b, rest, hb, hr, eq) = encode_records-eq-ok frame frames bytes h in
    rw (eq, append_assoc b rest tail)
      (prefix_loop-suc fuel (length b) c (b ++ (rest ++ tail)) acc frame
          (decode_one-encode frame b (rest ++ tail) hb)
        ∙ rw (drop-append_left (length b) b (rest ++ tail) refl) (
            prefix_loop-encode frames fuel (c + length b) rest tail (acc ++ (frame ∷ [])) e hr bad
              (omega (arith, ap length eq, length-append b rest, length-encode frame b hb))
            ∙ rw (append_assoc acc (frame ∷ []) frames, length-append b rest)
                (ap (λ (n : ℕ). (acc ++ (frame ∷ frames), n)) (omega arith))))

-- Whole frames followed by a tail that is no frame (empty, cut short or malformed): the decoded
-- prefix is exactly those frames, and it ends where they end.
pub decode_complete_prefix-encode_records :
    (frames : List RecordFrame) (bytes tail : List ℕ) (e : RecordError)
    → encode_records frames ≡ ok bytes
    → decode_one tail ≡ err e
    → decode_complete_prefix (bytes ++ tail) ≡ (frames, length bytes)
unfolding decode_complete_prefix
decode_complete_prefix-encode_records frames bytes tail e h bad =
    prefix_loop-encode frames (length (bytes ++ tail)) 0 bytes tail [] e h bad
      (omega (arith, length-append bytes tail))
    ∙ ap (λ (n : ℕ). (frames, n)) (omega arith)
