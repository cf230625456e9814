-- ===== src/Segment/ActiveRead/Decision.antt =====
-- The rounds of `active_read_decision` of rust/client/src/segment.rs together: what they return, and
-- that they end.
use mathlib.Core.Path.{subst}
use chorus.Prelude.{
  ℕ, zero, suc, ◌+◌, ◌≤◌, ◌<◌, ◌≡◌, refl, inl, inr, ◌||◌, none, some, err, List, [], ◌∷◌, ◌++◌,
  arith, ltb, leb, ◌==◌, Bool-cases, Option-cases, length, get_elem?, All, length-append, Result,
  ok, Result-cases,
}
use chorus.Record.{RecordFrame, encode}
use chorus.Text.{Text}
use chorus.Errors.{Error}
use chorus.Segment.{ActiveReadObservation}
use chorus.Segment.ActiveRead.{
  after_round, longest, active_read_decision, successful, find_quorum, still_pending, tally, decide,
  stop, ActiveReadDecision, Vote,
}
use chorus.Segment.ActiveRead.Agreement.{support, Backed, tally-Backed, find_quorum-Backed}

module _ (observations : List ActiveReadObservation) (quorum : ℕ) where
  -- A quorum of observations has the frame's bytes as its record at the index.
  abbrev pub Supported : ℕ → RecordFrame → Type 0
  Supported index frame =
      (t : Text) × (encode frame ≡ ok t) × (quorum ≤ support index t observations)

  abbrev pub Agreed : ℕ → List RecordFrame → Type 0
  Agreed index [] = Unit {0}
  Agreed index (frame ∷ frames) = Supported index frame × Agreed (index + 1) frames

  abbrev AgreedDecision : ActiveReadDecision → Type 0
  AgreedDecision (ActiveReadDecision.frames frames) = Agreed 0 frames
  AgreedDecision _ = Unit {0}

  Agreed-append :
      (start index : ℕ) (frames : List RecordFrame) (frame : RecordFrame)
      → start + length frames ≡ index
      → Agreed start frames
      → Supported index frame
      → Agreed start (frames ++ (frame ∷ []))
  Agreed-append start index [] frame e agreed s =
      let here : index ≡ start = omega arith in (subst (λ i. Supported i frame) here s, tt)
  Agreed-append start index (first ∷ frames) frame e (one, agreed) s =
      (one, Agreed-append (start + 1) index frames frame (omega arith) agreed s)

  stop-Agreed :
      (accepted : List RecordFrame) (end_votes : ℕ)
      → Agreed 0 accepted
      → AgreedDecision (stop observations quorum accepted end_votes)
  unfolding stop
  stop-Agreed accepted end_votes agreed =
      elim (Bool-cases (ltb 0 (length accepted) || leb quorum end_votes)) [
        | inl e ↦ rw e agreed
        | inr e ↦ elim (Bool-cases (still_pending observations == 0)) [
          | inr e' ↦ rw (e, e') tt
          | inl e' ↦ elim (Bool-cases (ltb (successful observations) quorum)) [
            | inl e'' ↦ rw (e, e', e'') tt
            | inr e'' ↦ rw (e, e', e'') tt
          ]
        ]
      ]

  after_round-Agreed :
      (next : List RecordFrame → Result Error ActiveReadDecision) (index : ℕ)
      (accepted : List RecordFrame) (counted : List Vote × ℕ) (decision : ActiveReadDecision)
      → ((accepted' : List RecordFrame)
          → length accepted' ≡ index + 1
          → Agreed 0 accepted'
          → next accepted' ≡ ok decision
          → AgreedDecision decision)
      → length accepted ≡ index
      → Agreed 0 accepted
      → All (Backed index observations []) counted.0
      → after_round next observations quorum accepted counted ≡ ok decision
      → AgreedDecision decision
  unfolding after_round
  after_round-Agreed next index accepted counted decision continues len agreed backed =
      elim (Option-cases (find_quorum quorum counted.0)) [
        | inl missing ↦
            rw (missing, after_round)
              (λ e.
                let same : stop observations quorum accepted counted.1 ≡ decision = cc in
                subst AgreedDecision same (stop-Agreed accepted counted.1 agreed))
        | inr (frame, found) ↦
            rw (found, after_round)
              (continues (accepted ++ (frame ∷ []))
                (omega (arith, length-append accepted (frame ∷ [])))
                (Agreed-append 0 index accepted frame (omega arith) agreed
                  (find_quorum-Backed index observations quorum counted.0 frame backed found)))
      ]

  decide-Agreed :
      (fuel index : ℕ) (accepted : List RecordFrame) (decision : ActiveReadDecision)
      → length accepted ≡ index
      → Agreed 0 accepted
      → decide fuel observations quorum index accepted ≡ ok decision
      → AgreedDecision decision
  unfolding decide
  decide-Agreed zero index accepted decision len agreed = λ e. absurd (ground arith)
  decide-Agreed (suc fuel) index accepted decision len agreed =
      elim (Result-cases (tally index observations [] 0)) [
        | inr (error, t) ↦ rw (t, decide) (λ e. absurd (ground arith))
        | inl (counted, t) ↦
            rw (t, decide)
              (after_round-Agreed (decide fuel observations quorum (index + 1)) index accepted
                counted decision
                (λ accepted' len' agreed'.
                  decide-Agreed fuel (index + 1) accepted' decision len' agreed')
                len agreed
                (tally-Backed index observations observations [] 0 counted (λ u. omega arith) tt t))
      ]

-- Every record that is returned is, at its position, the record of at least a quorum of the
-- observations, byte for byte.
pub active_read_decision-Agreed :
    (observations : List ActiveReadObservation) (quorum : ℕ) (frames : List RecordFrame)
    → active_read_decision observations quorum ≡ ok (ActiveReadDecision.frames frames)
    → Agreed observations quorum 0 frames
unfolding active_read_decision
active_read_decision-Agreed observations quorum frames e =
    decide-Agreed observations quorum (suc (longest observations)) 0 []
      (ActiveReadDecision.frames frames) refl tt e

get_elem?-beyond {ℓ} : {A : Type ℓ} (xs : List A) (i : ℕ) → length xs ≤ i → get_elem? xs i ≡ none
get_elem?-beyond [] i h = refl
get_elem?-beyond (x ∷ xs) zero h = absurd (omega arith)
get_elem?-beyond (x ∷ xs) (suc i) h = get_elem?-beyond xs i (omega arith)

-- Past the longest observation there is no vote.
tally-beyond :
    (index : ℕ) (left : List ActiveReadObservation) (end_votes : ℕ)
    → longest left ≤ index
    → (ended : ℕ) × (tally index left [] end_votes ≡ ok ([], ended))
unfolding tally
tally-beyond index [] end_votes h = (end_votes, refl)
tally-beyond index (ActiveReadObservation.pending ∷ left) end_votes h =
    tally-beyond index left end_votes h
tally-beyond index (ActiveReadObservation.failed error ∷ left) end_votes h =
    tally-beyond index left end_votes h
tally-beyond index (ActiveReadObservation.records records ∷ left) end_votes h =
    let (ended, e) = tally-beyond index left (end_votes + 1) (omega arith) in
    (ended, rw (get_elem?-beyond records index (omega arith), tally) e)

module _ (observations : List ActiveReadObservation) (quorum : ℕ) where
  -- The rounds from an index on, with no bound on their number: a derivation is a run that ends.
  pub data Rounds : ℕ → List RecordFrame → Result Error ActiveReadDecision → Type 0 where
    failed :
        {index : ℕ} {accepted : List RecordFrame} (error : Error)
        → tally index observations [] 0 ≡ err error
        → Rounds index accepted (err error)
    stopped :
        {index : ℕ} {accepted : List RecordFrame} (counted : List Vote × ℕ)
        → tally index observations [] 0 ≡ ok counted
        → find_quorum quorum counted.0 ≡ none
        → Rounds index accepted (ok (stop observations quorum accepted counted.1))
    accepts :
        {index : ℕ} {accepted : List RecordFrame} {decision : Result Error ActiveReadDecision}
        (counted : List Vote × ℕ) (frame : RecordFrame)
        → tally index observations [] 0 ≡ ok counted
        → find_quorum quorum counted.0 ≡ some frame
        → Rounds (index + 1) (accepted ++ (frame ∷ [])) decision
        → Rounds index accepted decision

  decide-Rounds :
      (fuel index : ℕ) (accepted : List RecordFrame)
      → index ≤ longest observations
      → longest observations < fuel + index
      → Rounds index accepted (decide fuel observations quorum index accepted)
  unfolding decide after_round find_quorum
  decide-Rounds zero index accepted within enough = absurd (omega arith)
  decide-Rounds (suc fuel) index accepted within enough =
      elim (Bool-cases (ltb index (longest observations))) [
        | inr outside ↦
            let (ended, e) = tally-beyond index observations 0 (ground arith) in
            rw (e, decide) (stopped ([], ended) e refl)
        | inl inside ↦ elim (Result-cases (tally index observations [] 0)) [
          | inr (error, t) ↦ rw (t, decide) (failed error t)
          | inl (counted, t) ↦ elim (Option-cases (find_quorum quorum counted.0)) [
            | inl missing ↦ rw (t, decide) (rw (missing, after_round) (stopped counted t missing))
            | inr (frame, found) ↦
                rw (t, decide)
                  (rw (found, after_round)
                    (accepts counted frame t found (
                      decide-Rounds fuel (index + 1) (accepted ++ (frame ∷ [])) (ground arith)
                        (omega arith))))
          ]
        ]
      ]

-- The rounds, which the source does not bound, end on all observations, and the decision is the one with
-- which they end.
pub active_read_decision-Rounds :
    (observations : List ActiveReadObservation) (quorum : ℕ)
    → Rounds observations quorum 0 [] (active_read_decision observations quorum)
unfolding active_read_decision
active_read_decision-Rounds observations quorum =
    decide-Rounds observations quorum (suc (longest observations)) 0 [] (omega arith) (omega arith)
