-- ===== src/Record/Agreement.antt =====
-- The scans that copy no payload (`validate_all`, `complete_prefix_ends`) against the decoders.
use chorus.Prelude.{
  ℕ, zero, suc, ◌+◌, List, [], ◌∷◌, ◌++◌, ◌≡◌, refl, sym, ap, ◌∙◌, arith, length, take, drop,
  Result, ok, err, map_ok, Result-cases, inl, inr, drop-drop, append_assoc, append-nil,
}
use chorus.Record.{
  RecordFrame, RecordError, decoded_len, decode_one, decode_loop, decode_all_bytes, validate_loop,
  validate_all, prefix_loop, decode_complete_prefix, ends_loop, complete_prefix_ends,
}
use chorus.Record.Frame.{length-decode_one}
use chorus.Record.RoundTrip.{prefix_loop-suc, prefix_loop_stop}

validate_loop-decode_loop :
    (fuel : ℕ) (input : List ℕ) (n : ℕ)
    → validate_loop fuel input n ≡ map_ok (λ frames. n + length frames) (decode_loop fuel input)
unfolding validate_loop decode_loop decode_one
validate_loop-decode_loop fuel [] n = ap (λ (k : ℕ). ok k) (omega arith)
validate_loop-decode_loop zero (b ∷ input) n = refl
validate_loop-decode_loop (suc fuel) (b ∷ input) n = elim (Result-cases (decoded_len (b ∷ input))) [
  | inr (e, h) ↦ rw h
  | inl (m, h) ↦ elim (Result-cases (decode_loop fuel (drop m (b ∷ input)))) [
    | inr (e, h') ↦ rw (h, validate_loop-decode_loop fuel (drop m (b ∷ input)) (n + 1), h')
    | inl (frames, h') ↦
        rw (h, validate_loop-decode_loop fuel (drop m (b ∷ input)) (n + 1), h')
          (ap (λ (k : ℕ). ok k) (omega arith))
  ]
]

-- On every input `validate_all` counts the records that `decode_all_bytes` returns, and fails with
-- the same error where that fails.
pub validate_all-decode_all_bytes :
    (input : List ℕ) → validate_all input ≡ map_ok length (decode_all_bytes input)
unfolding validate_all decode_all_bytes
validate_all-decode_all_bytes input =
    validate_loop-decode_loop (length input) input 0 ∙ at_zero (decode_loop (length input) input)
  where
    at_zero :
        (r : Result RecordError (List RecordFrame))
        → map_ok (λ frames. 0 + length frames) r ≡ map_ok length r
    at_zero (ok frames) = ap (λ (k : ℕ). ok k) (omega arith)
    at_zero (err e) = refl

-- The end offset of each of the frames that begin at an offset, and the end of the last.
abbrev pub ends_from : ℕ → List RecordFrame → List ℕ
ends_from start [] = []
ends_from start (frame ∷ frames) =
    (start + (4 + length frame.payload)) ∷ ends_from (start + (4 + length frame.payload)) frames

abbrev pub end_from : ℕ → List RecordFrame → ℕ
end_from start [] = start
end_from start (frame ∷ frames) = end_from (start + (4 + length frame.payload)) frames

prefix_loop_zero :
    (input : List ℕ) (acc : List RecordFrame) (c : ℕ) → prefix_loop 0 input acc c ≡ (acc, c)
unfolding prefix_loop
prefix_loop_zero [] acc c = refl
prefix_loop_zero (b ∷ input) acc c = refl

decode_one-decoded_len :
    (input : List ℕ) (n : ℕ)
    → decoded_len input ≡ ok n
    → decode_one input ≡ ok (record { payload = drop 4 (take n input) }, n)
unfolding decode_one
decode_one-decoded_len input n h = rw h

decode_one-decoded_len_err :
    (input : List ℕ) (e : RecordError) → decoded_len input ≡ err e → decode_one input ≡ err e
unfolding decode_one
decode_one-decoded_len_err input e h = rw h

ends_loop-suc :
    (fuel : ℕ) (input : List ℕ) (c n : ℕ) (ends : List ℕ)
    → decoded_len (drop c input) ≡ ok n
    → ends_loop (suc fuel) input c ends ≡ ends_loop fuel input (c + n) (ends ++ ((c + n) ∷ []))
unfolding ends_loop
ends_loop-suc fuel input c n ends h = rw (h, ends_loop)

ends_loop_stop :
    (fuel : ℕ) (input : List ℕ) (c : ℕ) (ends : List ℕ) (e : RecordError)
    → decoded_len (drop c input) ≡ err e
    → ends_loop (suc fuel) input c ends ≡ ends
unfolding ends_loop
ends_loop_stop fuel input c ends e h = rw (h, ends_loop)

-- Both scans find the same new frames.
ends_loop-prefix_loop :
    (fuel : ℕ) (input : List ℕ) (c : ℕ) (ends : List ℕ) (acc : List RecordFrame)
    → (frames : List RecordFrame) × (ends_loop fuel input c ends ≡ ends ++ ends_from c frames)
      × (prefix_loop fuel (drop c input) acc c ≡ (acc ++ frames, end_from c frames))
ends_loop-prefix_loop zero input c ends acc = (
  [],
  unfold ends_loop in sym (append-nil ends),
  rw (append-nil acc) (prefix_loop_zero (drop c input) acc c),
)
ends_loop-prefix_loop (suc fuel) input c ends acc =
    elim (Result-cases (decoded_len (drop c input))) [
      | inr (e, h) ↦ (
        [],
        ends_loop_stop fuel input c ends e h ∙ sym (append-nil ends),
        rw (append-nil acc) (
            prefix_loop_stop (suc fuel) c (drop c input) acc e
              (decode_one-decoded_len_err (drop c input) e h)),
      )
      | inl (n, h) ↦
          let frame : RecordFrame = record { payload = drop 4 (take n (drop c input)) } in
          let found = decode_one-decoded_len (drop c input) n h in
          let (size, _) = length-decode_one (drop c input) frame n found in
          let (frames, e1, e2) =
            ends_loop-prefix_loop fuel input (c + n) (ends ++ ((c + n) ∷ []))
              (acc ++ (frame ∷ [])) in
          (
            frame ∷ frames,
            ends_loop-suc fuel input c n ends h
                ∙ e1
                ∙ append_assoc ends ((c + n) ∷ []) (ends_from (c + n) frames)
                ∙ ap (λ (k : ℕ). ends ++ ((c + k) ∷ ends_from (c + k) frames)) (sym size),
            prefix_loop-suc fuel n c (drop c input) acc frame found
                ∙ rw (drop-drop c n input) (e2 ∙ rw (append_assoc acc (frame ∷ []) frames, size)),
          )
    ]

-- On every input the end offsets are those of the records that `decode_complete_prefix` returns,
-- and the bytes it reports as consumed end with the last of them.
pub complete_prefix_ends-decode_complete_prefix :
    (input : List ℕ)
    → (complete_prefix_ends input ≡ ends_from 0 (decode_complete_prefix input).0)
      × ((decode_complete_prefix input).1 ≡ end_from 0 (decode_complete_prefix input).0)
unfolding complete_prefix_ends decode_complete_prefix
complete_prefix_ends-decode_complete_prefix input =
    let (frames, e1, e2) = ends_loop-prefix_loop (length input) input 0 [] [] in
    (
      e1 ∙ ap (ends_from 0) (sym (ap (λ (p : List RecordFrame × ℕ). p.0) e2)),
      ap (λ (p : List RecordFrame × ℕ). p.1) e2
          ∙ ap (end_from 0) (sym (ap (λ (p : List RecordFrame × ℕ). p.0) e2)),
    )
