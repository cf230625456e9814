-- ===== src/Segment/ActiveRead.antt =====
-- `active_read_decision` of rust/client/src/segment.rs: which records of an active segment a quorum of
-- replicas agrees on. The votes, a HashMap in the source, are an association list; at most one frame
-- has a strict majority, so the order of the search does not matter. The count of rounds is unbounded
-- in the source; here it is one more than the longest observation.
pub mod Agreement
pub mod Decision
use chorus.Prelude.{
  ℕ, zero, suc, ◌+◌, ◌-◌, ◌*◌, ◌/◌, ◌%◌, ◌^◌, ◌≤◌, ◌<◌, min, max, ◌≡◌, refl, sym, ap, ◌∙◌, ◌≢◌, ◌↔◌,
  ◌⊎◌, inl, inr, Bool, true, false, not, ◌&&◌, ◌||◌, Option, none, some, List, [], ◌∷◌, ◌++◌, map,
  append_assoc, append-nil, String, arith, ltb, leb, ◌==◌, if◌then◌else◌, ltb→lt, lt→ltb, leb→le,
  le→leb, ==_iff, Bool-cases, Option-cases, u32_max, u64_max, checked_add, length, get_elem?, set,
  take, drop, All, length-append, length-drop, length-take, take-append-drop, take-append_left,
  drop-append_left, drop-nil, drop-drop, All-append, All-drop, Result, ok, err, ◌>>=◌, ◌>>◌, map_ok,
  >>=-eq-ok, Result-cases,
}
use chorus.Record.{RecordFrame, RecordError, encode}
use chorus.Text.{Text, text_eq}
use chorus.Errors.{Error, from_record}
use chorus.Segment.{ActiveReadObservation}

pub data ActiveReadDecision : Type 0 where
  pending : ActiveReadDecision
  frames : List RecordFrame → ActiveReadDecision
  no_read_quorum : ActiveReadDecision

pub record Vote : Type 0 where
  pub encoded : Text
  pub count : ℕ
  pub frame : RecordFrame

unfoldable pub successful : List ActiveReadObservation → ℕ
successful [] = 0
successful (ActiveReadObservation.records _ ∷ observations) = suc (successful observations)
successful (_ ∷ observations) = successful observations

unfoldable pub still_pending : List ActiveReadObservation → ℕ
still_pending [] = 0
still_pending (ActiveReadObservation.pending ∷ observations) = suc (still_pending observations)
still_pending (_ ∷ observations) = still_pending observations

-- `entry(encoded).and_modify(..).or_insert_with(..)`
unfoldable pub cast : Text → RecordFrame → List Vote → List Vote
cast encoded frame [] = record { encoded = encoded; count = 1; frame = frame } ∷ []
cast encoded frame (vote ∷ votes) =
    if text_eq vote.encoded encoded
    then record vote { count = vote.count + 1 } ∷ votes
    else vote ∷ cast encoded frame votes

abbrev pub encoded_frame : RecordFrame → Result Error Text
encoded_frame frame = elim (encode frame) [ ok encoded ↦ ok encoded | err e ↦ err (from_record e) ]

-- One round over the observations: the votes on a record, and how many observations have ended.
unfoldable pub tally : ℕ → List ActiveReadObservation → List Vote → ℕ → Result Error (List Vote × ℕ)
unfolding cast
tally index [] votes end_votes = ok (votes, end_votes)
tally index (ActiveReadObservation.records records ∷ observations) votes end_votes =
    elim (get_elem? records index) [
      | none ↦ tally index observations votes (end_votes + 1)
      | some frame ↦ do
        encoded ← encoded_frame frame
        tally index observations (cast encoded frame votes) end_votes
    ]
tally index (_ ∷ observations) votes end_votes = tally index observations votes end_votes

unfoldable pub find_quorum : ℕ → List Vote → Option RecordFrame
find_quorum quorum [] = none
find_quorum quorum (vote ∷ votes) =
    if leb quorum vote.count then some vote.frame else find_quorum quorum votes

-- What is decided in a round without an accepted frame.
unfoldable pub stop : List ActiveReadObservation → ℕ → List RecordFrame → ℕ → ActiveReadDecision
unfolding successful still_pending
stop observations quorum accepted end_votes =
    if ltb 0 (length accepted) || leb quorum end_votes
    then frames accepted
    else if still_pending observations == 0
    then (if ltb (successful observations) quorum then no_read_quorum else frames [])
    else pending

-- What follows a round: the next one, or a decision.
unfoldable pub after_round :
    (List RecordFrame → Result Error ActiveReadDecision)
    → List ActiveReadObservation
    → ℕ
    → List RecordFrame
    → List Vote × ℕ
    → Result Error ActiveReadDecision
unfolding find_quorum stop
after_round next observations quorum accepted counted = elim (find_quorum quorum counted.0) [
  | some frame ↦ next (accepted ++ (frame ∷ []))
  | none ↦ ok (stop observations quorum accepted counted.1)
]

unfoldable pub decide :
    ℕ → List ActiveReadObservation → ℕ → ℕ → List RecordFrame → Result Error ActiveReadDecision
unfolding tally after_round
decide zero observations quorum index accepted =
    err (Error.internal "an active read decision always terminates at a finite prefix")
decide (suc fuel) observations quorum index accepted =
    tally index observations [] 0
    >>= after_round (decide fuel observations quorum (index + 1)) observations quorum accepted

abbrev pub longest : List ActiveReadObservation → ℕ
longest [] = 0
longest (ActiveReadObservation.records records ∷ observations) =
    max (length records) (longest observations)
longest (_ ∷ observations) = longest observations

unfoldable pub active_read_decision :
    List ActiveReadObservation → ℕ → Result Error ActiveReadDecision
unfolding decide
active_read_decision observations quorum =
    decide (suc (longest observations)) observations quorum 0 []
