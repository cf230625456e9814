-- ===== src/Segment/ActiveRead/Agreement.antt =====
-- What `active_read_decision` of rust/client/src/segment.rs returns has the agreement of a quorum, and
-- its rounds end.
use chorus.Prelude.{
  ℕ, ◌+◌, ◌≤◌, ◌≡◌, inl, inr, Bool, true, false, none, some, List, [], ◌∷◌, arith, leb,
  if◌then◌else◌, Bool-cases, Option-cases, get_elem?, All, ok, err, Result-cases,
}
use chorus.Record.{RecordFrame, RecordError, encode}
use chorus.Text.{Text, text_eq}
use chorus.Text.Equality.{text_eq_refl, eq_of_text_eq}
use chorus.Errors.{from_record}
use chorus.Segment.{ActiveReadObservation}
use chorus.Segment.ActiveRead.{encoded_frame, find_quorum, tally, Vote, cast}

-- Whether the observation's record at the index has this encoding.
pub agrees : ℕ → Text → ActiveReadObservation → Bool
agrees index t (ActiveReadObservation.records records) = elim (get_elem? records index) [
  | none ↦ false
  | some frame ↦ elim (encode frame) [ ok encoded ↦ text_eq encoded t | err e ↦ false ]
]
agrees index t _ = false

pub support : ℕ → Text → List ActiveReadObservation → ℕ
support index t [] = 0
support index t (observation ∷ observations) =
    (if agrees index t observation then 1 else 0) + support index t observations

encoded_ok :
    (frame : RecordFrame) (encoded : Text)
    → encode frame ≡ ok encoded
    → encoded_frame frame ≡ ok encoded
encoded_ok frame encoded e = rw (e, encoded_frame)

encoded_err :
    (frame : RecordFrame) (error : RecordError)
    → encode frame ≡ err error
    → encoded_frame frame ≡ err (from_record error)
encoded_err frame error e = rw (e, encoded_frame)

module _ (index : ℕ) (all : List ActiveReadObservation) where
  -- A vote for a frame that the observations so far support, when `left` are left.
  pub record Backed (left : List ActiveReadObservation) (vote : Vote) : Type 0 where
    pub encodes : encode vote.frame ≡ ok vote.encoded
    pub counted : vote.count + support index vote.encoded left ≤ support index vote.encoded all

  abbrev pub Within : List ActiveReadObservation → Type 0
  Within left = (t : Text) → support index t left ≤ support index t all

  -- An observation that does not vote.
  skip-Backed :
      (observation : ActiveReadObservation) (left : List ActiveReadObservation) (votes : List Vote)
      → All (Backed (observation ∷ left)) votes
      → All (Backed left) votes
  unfolding support
  skip-Backed observation left [] b = tt
  skip-Backed observation left (vote ∷ votes) (first, rest) = (
    record { encodes = first.encodes; counted = let h = first.counted in omega arith },
    skip-Backed observation left votes rest,
  )

  cast-Backed :
      (observation : ActiveReadObservation) (left : List ActiveReadObservation) (votes : List Vote)
      (encoded : Text) (frame : RecordFrame)
      → encode frame ≡ ok encoded
      → agrees index encoded observation ≡ true
      → Within (observation ∷ left)
      → All (Backed (observation ∷ left)) votes
      → All (Backed left) (cast encoded frame votes)
  unfolding cast support
  cast-Backed observation left [] encoded frame e agreed within b =
      let h = within encoded in (record { encodes = e; counted = ground arith }, tt)
  cast-Backed observation left (vote ∷ votes) encoded frame e agreed within (first, rest) =
      elim (Bool-cases (text_eq vote.encoded encoded)) [
        | inl same ↦
            let eq = eq_of_text_eq vote.encoded encoded same in
            rw same (
              record {
                encodes = first.encodes;
                counted =
                    let h = first.counted in
                    let here : agrees index vote.encoded observation ≡ true = rw eq agreed in
                    ground arith;
              },
              skip-Backed observation left votes rest,
            )
        | inr other ↦ rw other (
          record { encodes = first.encodes; counted = let h = first.counted in omega arith },
          cast-Backed observation left votes encoded frame e agreed within rest,
        )
      ]

  Within-rest :
      (observation : ActiveReadObservation) (left : List ActiveReadObservation)
      → Within (observation ∷ left)
      → Within left
  unfolding support
  Within-rest observation left within t = let h = within t in omega arith

  pub tally-Backed :
      (left : List ActiveReadObservation) (votes : List Vote) (end_votes : ℕ)
      (counted : List Vote × ℕ)
      → Within left
      → All (Backed left) votes
      → tally index left votes end_votes ≡ ok counted
      → All (Backed []) counted.0
  unfolding tally agrees
  tally-Backed [] votes end_votes counted within b =
      λ e. let same : votes ≡ counted.0 = cc in rw (← same) b
  tally-Backed (ActiveReadObservation.pending ∷ left) votes end_votes counted within b =
      tally-Backed left votes end_votes counted
        (Within-rest ActiveReadObservation.pending left within)
        (skip-Backed ActiveReadObservation.pending left votes b)
  tally-Backed (ActiveReadObservation.failed error ∷ left) votes end_votes counted within b =
      tally-Backed left votes end_votes counted
        (Within-rest (ActiveReadObservation.failed error) left within)
        (skip-Backed (ActiveReadObservation.failed error) left votes b)
  tally-Backed (ActiveReadObservation.records records ∷ left) votes end_votes counted within b =
      let observation = ActiveReadObservation.records records in
      let within' = Within-rest observation left within in
      elim (Option-cases (get_elem? records index)) [
        | inl missing ↦
            rw (missing, tally)
              (tally-Backed left votes (end_votes + 1) counted within'
                (skip-Backed observation left votes b))
        | inr (frame, found) ↦ elim (Result-cases (encode frame)) [
          | inr (error, e) ↦
              rw (found, tally) (rw (encoded_err frame error e) (λ h. absurd (ground arith)))
          | inl (encoded, e) ↦
              let here : agrees index encoded observation ≡ true =
                rw (found, agrees) (rw e (text_eq_refl encoded)) in
              rw (found, tally)
                (rw (encoded_ok frame encoded e) (
                  tally-Backed left (cast encoded frame votes) end_votes counted within'
                    (cast-Backed observation left votes encoded frame e here within b)))
        ]
      ]

  pub find_quorum-Backed :
      (quorum : ℕ) (votes : List Vote) (frame : RecordFrame)
      → All (Backed []) votes
      → find_quorum quorum votes ≡ some frame
      → (t : Text) × (encode frame ≡ ok t) × (quorum ≤ support index t all)
  unfolding find_quorum support
  find_quorum-Backed quorum [] frame b = λ e. absurd (ground arith)
  find_quorum-Backed quorum (vote ∷ votes) frame (first, rest) =
      elim (Bool-cases (leb quorum vote.count)) [
        | inl enough ↦
            rw (enough, find_quorum)
              (λ e.
                let same : vote.frame ≡ frame = cc in
                let h = first.counted in (vote.encoded, rw (← same) first.encodes, ground arith))
        | inr few ↦ rw (few, find_quorum) (find_quorum-Backed quorum votes frame rest)
      ]
