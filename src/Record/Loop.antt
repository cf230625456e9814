-- ===== src/Record/Loop.antt =====
-- The loop of `decode_all_bytes` (rust/client/src/record.rs) without fuel, as a relation: a derivation is
-- a run of the loop that ends.
use chorus.Prelude.{
  ℕ, zero, suc, ◌≤◌, ◌≡◌, ap, ◌≢◌, inl, inr, List, [], ◌∷◌, arith, length, drop, length-drop,
  Result, ok, err, ◌>>=◌, Result-cases,
}
use chorus.Record.{RecordFrame, RecordError, decode_one, decode_loop, decode_all_bytes}
use chorus.Record.RoundTrip.{decode_one_bounds}

-- The rounds of the loop on an input, and what it returns.
pub data Loop : List ℕ → Result RecordError (List RecordFrame) → Type 0 where
  ended : Loop [] (ok [])
  failed :
      {input : List ℕ} (error : RecordError)
      → input ≢ []
      → decode_one input ≡ err error
      → Loop input (err error)
  decoded :
      {input : List ℕ} {rest : Result RecordError (List RecordFrame)} (frame : RecordFrame)
      (consumed : ℕ)
      → input ≢ []
      → decode_one input ≡ ok (frame, consumed)
      → Loop (drop consumed input) rest
      → Loop input (rest >>= λ records. ok (frame ∷ records))

not_empty : (b : ℕ) (input : List ℕ) → (b ∷ input) ≢ []
not_empty b input e = absurd (let l = ap length e in omega arith)

decode_loop-Loop :
    (fuel : ℕ) (input : List ℕ) → length input ≤ fuel → Loop input (decode_loop fuel input)
unfolding decode_loop
decode_loop-Loop fuel [] h = ended
decode_loop-Loop zero (b ∷ input) h = absurd (omega arith)
decode_loop-Loop (suc fuel) (b ∷ input) h = elim (Result-cases (decode_one (b ∷ input))) [
  | inr (error, e) ↦ rw (e, decode_loop) (failed error (not_empty b input) e)
  | inl ((frame, n), e) ↦
      let bounds = decode_one_bounds (b ∷ input) frame n e in
      let shorter = length-drop n (b ∷ input) in
      rw (e, decode_loop)
        (decoded frame n (not_empty b input) e
          (decode_loop-Loop fuel (drop n (b ∷ input)) (omega arith)))
]

-- On every input the source's loop ends, and `decode_all_bytes` is what it returns, errors included.
pub decode_all_bytes-Loop : (input : List ℕ) → Loop input (decode_all_bytes input)
unfolding decode_all_bytes
decode_all_bytes-Loop input = decode_loop-Loop (length input) input (omega arith)
