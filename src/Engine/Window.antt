-- ===== src/Engine/Window.antt =====
-- The pipeline window of dispatch in rust/client/src/engine.rs.
use mathlib.Core.Path.{subst}
use chorus.Prelude.{
  ℕ, ◌+◌, ◌-◌, ◌≤◌, ◌<◌, ◌≡◌, refl, ◌⊎◌, inl, inr, Bool, true, false, not, ◌||◌, List, [], ◌∷◌,
  arith, ltb, leb, ◌==◌, ltb→lt, Bool-cases, length, Result, ok, err,
}
use chorus.Errors.{Error}
use chorus.Engine.{
  encoded_bytes, append, shutdown, AdmittedAppend, EngineState, Command, Receiver,
  RecordCommitRange,
}
use chorus.Engine.Dispatch.{
  dispatch_taken, dispatch, last_append, after_answer, enqueue_batch, take_appends, bytes_of,
}

-- A batch is within the room, unless it is one record that is dispatched alone.
take_appends_more :
    (room pending_records : ℕ) (queue : List Command)
    → bytes_of (take_appends room pending_records false queue).appends ≤ room
unfolding take_appends
take_appends_more room pending_records [] = omega arith
take_appends_more room pending_records (shutdown _ _ ∷ queue) = omega arith
take_appends_more room pending_records (append a ∷ queue) =
    let rest = take_appends_more (room - encoded_bytes a) pending_records queue in
    elim (Bool-cases (ltb room (encoded_bytes a))) [
      | inl e ↦ elim (Bool-cases (not (pending_records == 0))) [
        | inl e' ↦ rw (e, e') (omega arith)
        | inr e' ↦ rw (e, e') (omega arith)
      ]
      | inr e ↦ rw e (ground arith)
    ]

no_bytes : (appends : List AdmittedAppend) → bytes_of appends ≤ 0 → length appends ≡ 0
no_bytes [] h = refl
no_bytes (a ∷ appends) h = absurd (omega arith)

pub take_appends_bound :
    (room pending_records : ℕ) (queue : List Command)
    → let appends = (take_appends room pending_records true queue).appends in
      (bytes_of appends ≤ room) ⊎ (pending_records ≡ 0) × (length appends ≡ 1)
unfolding take_appends
take_appends_bound room pending_records [] = inl (omega arith)
take_appends_bound room pending_records (shutdown _ _ ∷ queue) = inl (omega arith)
take_appends_bound room pending_records (append a ∷ queue) =
    let more = (take_appends (room - encoded_bytes a) pending_records false queue).appends in
    let rest = take_appends_more (room - encoded_bytes a) pending_records queue in
    elim (Bool-cases (ltb room (encoded_bytes a))) [
      | inr e ↦ rw e (inl (ground arith))
      | inl e ↦ elim (Bool-cases (not (pending_records == 0))) [
        | inl e' ↦ rw (e, e') (inl (omega arith))
        | inr e' ↦
            let none_more =
              no_bytes more (let h = ltb→lt room (encoded_bytes a) e in omega arith) in
            rw (e, e') (inr (ground arith, omega arith))
      ]
    ]

-- How a pass that goes on may have filled the pipeline.
abbrev Bounded : ℕ → EngineState → Bool × EngineState × Receiver → Type 0
Bounded window s (false, s', rx) = Unit {0}
Bounded window s (true, s', rx) =
    (s'.pending_bytes ≤ window)
    ⊎ (s'.pending_bytes ≡ s.pending_bytes) × (s'.pending_records ≡ s.pending_records)
    ⊎ (s.pending_records ≡ 0) × (s'.pending_records ≡ 1)

after_answer-Bounded :
    (window : ℕ) (answer : Result Error RecordCommitRange) (first : AdmittedAppend)
    (appends : List AdmittedAppend) (rest : List Command) (s : EngineState) (rx : Receiver)
    → s.pending_bytes < window
    → (bytes_of (first ∷ appends) ≤ window - s.pending_bytes)
      ⊎ (s.pending_records ≡ 0) × (length (first ∷ appends) ≡ 1)
    → Bounded window s (after_answer answer first appends (record s { queue = rest }) rx)
unfolding after_answer enqueue_batch
after_answer-Bounded window (err e) first appends rest s rx h room = tt
after_answer-Bounded window (ok commits) first appends rest s rx h room =
    elim (Bool-cases (
      not (commits.first_global_record_index == first.seqno)
      || not (commits.end_global_record_index == (last_append first appends).seqno + 1))) [
        | inl e ↦ rw e tt
        | inr e ↦ rw e (elim room [
          | inl fits ↦ inl (omega arith)
          | inr (idle, one) ↦ inr (inr (idle, omega arith))
        ])
      ]

dispatch_taken-Bounded :
    (window : ℕ) (answer : Result Error RecordCommitRange) (appends : List AdmittedAppend)
    (rest : List Command) (s : EngineState) (rx : Receiver)
    → s.pending_bytes < window
    → (bytes_of appends ≤ window - s.pending_bytes) ⊎ (s.pending_records ≡ 0) × (length appends ≡ 1)
    → Bounded window s (dispatch_taken answer appends rest s rx)
dispatch_taken-Bounded window answer [] rest s rx h room = inr (inl (refl, refl))
dispatch_taken-Bounded window answer (first ∷ appends) rest s rx h room =
    after_answer-Bounded window answer first appends rest s rx h room

dispatch-Bounded :
    (window : ℕ) (paused : Bool) (answer : Result Error RecordCommitRange) (s : EngineState)
    (rx : Receiver)
    → Bounded window s (dispatch window paused answer s rx)
unfolding dispatch
dispatch-Bounded window paused answer s rx =
    let t = take_appends (window - s.pending_bytes) s.pending_records true s.queue in
    elim (Bool-cases paused) [
      | inl e ↦ rw e (inr (inl (refl, refl)))
      | inr e ↦ elim (Bool-cases (leb window s.pending_bytes)) [
        | inl e' ↦ rw (e, e') (inr (inl (refl, refl)))
        | inr e' ↦
            rw (e, e')
              (dispatch_taken-Bounded window answer t.appends t.rest s rx (ground arith)
                (take_appends_bound (window - s.pending_bytes) s.pending_records s.queue))
      ]
    ]

-- A dispatch after which the engine goes on leaves the pipeline within its window, or as it was, or
-- with one record alone where nothing was pending.
pub dispatch_bound :
    (window : ℕ) (paused : Bool) (answer : Result Error RecordCommitRange) (s s' : EngineState)
    (rx rx' : Receiver)
    → dispatch window paused answer s rx ≡ (true, s', rx')
    → (s'.pending_bytes ≤ window)
      ⊎ (s'.pending_bytes ≡ s.pending_bytes) × (s'.pending_records ≡ s.pending_records)
      ⊎ (s.pending_records ≡ 0) × (s'.pending_records ≡ 1)
dispatch_bound window paused answer s s' rx rx' e =
    subst (Bounded window s) e (dispatch-Bounded window paused answer s rx)
