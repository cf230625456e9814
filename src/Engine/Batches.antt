-- ===== src/Engine/Batches.antt =====
-- Admission, dispatch and the graceful stop of the engine task of rust/client/src/engine.rs keep the
-- account of records, or end it with everything that is left in balance.
use mathlib.Core.Path.{subst}
use chorus.Prelude.{
  ℕ, ◌+◌, ◌-◌, ◌≡◌, refl, sym, ap, ◌∙◌, inl, inr, Bool, true, false, not, ◌&&◌, ◌||◌, List, [], ◌∷◌,
  ◌++◌, append_assoc, append-nil, arith, ltb, leb, ◌==◌, Bool-cases, length, length-append, Result,
  ok, err,
}
use chorus.Errors.{Error}
use chorus.Engine.{
  fail_all, fail_appends, encoded_bytes, append, shutdown, stop_admission, AdmittedAppend,
  CompletionBatch, EngineState, Command, Receiver, RecordCommitRange,
}
use chorus.Engine.Order.{
  receipts, outcomes, numbered-append, bytes_of-append, pending-append, numbered, Consecutive,
  pending, queued, Account,
}
use chorus.Engine.Settle.{
  stop_admission-Balance, fail_appends-Balance, fail_all-Balance, left_over, Balance,
}
use chorus.Engine.Passes.{Continues, Account-Balance}
use chorus.Engine.Dispatch.{
  pop_front, pop_shutdown, dispatch_taken, dispatch, last_append, after_answer, enqueue_batch,
  take_appends, fail_dispatch, bytes_of,
}

pub queued-take_appends :
    (room pending_records : ℕ) (empty : Bool) (queue : List Command)
    → let t = take_appends room pending_records empty queue in
      queued queue ≡ t.appends ++ queued t.rest
unfolding take_appends
queued-take_appends room pending_records empty [] = refl
queued-take_appends room pending_records empty (shutdown _ _ ∷ queue) = refl
queued-take_appends room pending_records empty (append a ∷ queue) =
    elim (Bool-cases (ltb room (encoded_bytes a) && (not (pending_records == 0) || not empty))) [
      | inl e ↦ rw e
      | inr e ↦ rw e (
          ap (λ r. a ∷ r)
            (queued-take_appends (room - encoded_bytes a) pending_records false queue))
    ]

Account-queue :
    (start : ℕ) (s : EngineState) (pend taken : List AdmittedAppend) (rest commands : List Command)
    (next : ℕ)
    → queued s.queue ≡ taken ++ queued rest
    → Account start s pend commands next
    → Consecutive s.next_completion ((pend ++ taken) ++ queued rest) s.next_admission
Account-queue start s pend taken rest commands next same acc =
    subst (λ xs. Consecutive s.next_completion xs s.next_admission)
      (ap (λ xs. pend ++ xs) same ∙ sym (append_assoc pend taken (queued rest))) acc.waiting

enqueue_batch-Account :
    (start : ℕ) (s : EngineState) (first : AdmittedAppend) (appends : List AdmittedAppend)
    (rest : List Command) (commits : RecordCommitRange) (commands : List Command) (next : ℕ)
    → queued s.queue ≡ (first ∷ appends) ++ queued rest
    → Account start s (pending s.completion_batches) commands next
    → let s' = enqueue_batch first appends commits (record s { queue = rest }) in
      Account start s' (pending s'.completion_batches) commands next
unfolding enqueue_batch
enqueue_batch-Account start s first appends rest commits commands next same acc =
    let taken = first ∷ appends in
    let batch : CompletionBatch = record { commits = commits; appends = taken } in
    let pend : pending (s.completion_batches ++ (batch ∷ []))
        ≡ pending s.completion_batches ++ taken =
      pending-append s.completion_batches (batch ∷ [])
      ∙ ap (λ xs. pending s.completion_batches ++ xs) (append-nil taken) in
    let size = ap length pend in
    let size' = length-append (pending s.completion_batches) taken in
    let weight = ap bytes_of pend in
    let weight' = bytes_of-append (pending s.completion_batches) taken in
    let records = acc.records in
    let bytes = acc.bytes in
    record {
      begun = acc.begun;
      resolved = acc.resolved;
      receipted = acc.receipted;
      waiting =
          rw pend (
            Account-queue start s (pending s.completion_batches) taken rest commands next same acc);
      arriving = acc.arriving;
      records = omega arith;
      bytes = omega arith;
    }

retake-Balance :
    (start committed : ℕ) (s s' : EngineState) (taken : List AdmittedAppend)
    (commands : List Command) (next : ℕ)
    → s'.sent ≡ s.sent
    → s'.completion_batches ≡ s.completion_batches
    → queued s.queue ≡ taken ++ queued s'.queue
    → Balance start committed s [] commands next
    → Balance start committed s' taken commands next
unfolding left_over numbered
retake-Balance start committed s s' taken commands next same_sent same_batches same b = record {
  begun = b.begun;
  ended = b.ended;
  balance = λ i.
      let h = b.balance i in
      let moved = ap (numbered i) same in
      let sum = numbered-append i taken (queued s'.queue) in
      let sent = ap (outcomes i) same_sent in
      let batches = ap (λ bs. numbered i (pending bs)) same_batches in omega arith;
  receipted = λ i. ap (receipts i) same_sent ∙ b.receipted i;
}

fail_dispatch-Balance :
    (start committed : ℕ) (e : Error) (taken : List AdmittedAppend) (s : EngineState)
    (rx : Receiver) (next : ℕ)
    → Balance start committed s taken rx.commands next
    → Balance start committed (fail_dispatch e taken s rx).0 [] [] next
unfolding fail_dispatch
fail_dispatch-Balance start committed e taken s rx next b =
    let s' = (stop_admission s rx).0 in
    fail_all-Balance start committed next e (record s' { sent = s'.sent ++ fail_appends e taken })
      [] []
      (fail_appends-Balance start committed next e s' taken []
        (stop_admission-Balance start committed next s taken rx b))

pub whole-Balance :
    (start : ℕ) (s : EngineState) (rx : Receiver) (next : ℕ)
    → Account start s (pending s.completion_batches) rx.commands next
    → Balance start s.next_completion s [] rx.commands next
unfolding numbered
whole-Balance start s rx next acc =
    Account-Balance start s (pending s.completion_batches) [] rx.commands next (λ i. omega arith)
      acc

after_answer-Continues :
    (start : ℕ) (answer : Result Error RecordCommitRange) (first : AdmittedAppend)
    (appends : List AdmittedAppend) (rest : List Command) (s : EngineState) (rx : Receiver)
    (next : ℕ)
    → queued s.queue ≡ (first ∷ appends) ++ queued rest
    → Account start s (pending s.completion_batches) rx.commands next
    → Continues start next (after_answer answer first appends (record s { queue = rest }) rx)
unfolding after_answer
after_answer-Continues start (err e) first appends rest s rx next same acc = (
  s.next_completion,
  fail_dispatch-Balance start s.next_completion e (first ∷ appends) (record s { queue = rest }) rx
      next
      (retake-Balance start s.next_completion s (record s { queue = rest }) (first ∷ appends)
        rx.commands next refl refl same (whole-Balance start s rx next acc)),
)
after_answer-Continues start (ok commits) first appends rest s rx next same acc =
    let last = (last_append first appends).admission_end_bytes in
    let s' = record s { queue = rest; last_dispatched_admission_bytes = last } in
    elim (Bool-cases (
      not (commits.first_global_record_index == first.seqno)
      || not (commits.end_global_record_index == (last_append first appends).seqno + 1))) [
        | inl e ↦ rw e (
          s.next_completion,
          fail_dispatch-Balance start s.next_completion
              (Error.internal "WAL assigned records that differ from those admitted")
              (first ∷ appends) s' rx next
              (retake-Balance start s.next_completion s s' (first ∷ appends) rx.commands next refl
                refl same (whole-Balance start s rx next acc)),
        )
        | inr e ↦
            rw e
              (enqueue_batch-Account start s first appends rest commits rx.commands next same acc)
      ]

dispatch_taken-Continues :
    (start : ℕ) (answer : Result Error RecordCommitRange) (appends : List AdmittedAppend)
    (rest : List Command) (s : EngineState) (rx : Receiver) (next : ℕ)
    → queued s.queue ≡ appends ++ queued rest
    → Account start s (pending s.completion_batches) rx.commands next
    → Continues start next (dispatch_taken answer appends rest s rx)
dispatch_taken-Continues start answer [] rest s rx next same acc = acc
dispatch_taken-Continues start answer (first ∷ appends) rest s rx next same acc =
    after_answer-Continues start answer first appends rest s rx next same acc

pub dispatch-Continues :
    (start window : ℕ) (paused : Bool) (answer : Result Error RecordCommitRange) (s : EngineState)
    (rx : Receiver) (next : ℕ)
    → Account start s (pending s.completion_batches) rx.commands next
    → Continues start next (dispatch window paused answer s rx)
unfolding dispatch
dispatch-Continues start window paused answer s rx next acc =
    let t = take_appends (window - s.pending_bytes) s.pending_records true s.queue in
    elim (Bool-cases (paused || leb window s.pending_bytes)) [
      | inl e ↦ rw e acc
      | inr e ↦ rw e (
          dispatch_taken-Continues start answer t.appends t.rest s rx next
            (queued-take_appends (window - s.pending_bytes) s.pending_records true s.queue) acc)
    ]

pop_front-Continues :
    (start : ℕ) (queue : List Command) (s : EngineState) (rx : Receiver) (next : ℕ)
    → queue ≡ s.queue
    → Account start s (pending s.completion_batches) rx.commands next
    → Continues start next ((pop_front queue s).0, (pop_front queue s).1, rx)
unfolding pop_front fail_all left_over
pop_front-Continues start [] s rx next same acc = acc
pop_front-Continues start (append a ∷ queue) s rx next same acc = acc
pop_front-Continues start (shutdown response deadline ∷ queue) s rx next same acc =
    let s' = record s { queue = queue } in
    let b = fail_all-Balance start s.next_completion next Error.closed s' [] rx.commands (
      retake-Balance start s.next_completion s s' [] rx.commands next refl refl
        (ap queued (sym same)) (whole-Balance start s rx next acc)) in
    (
      s.next_completion,
      record { begun = b.begun; ended = b.ended; balance = b.balance; receipted = b.receipted },
    )

pub pop_shutdown-Continues :
    (start : ℕ) (s : EngineState) (rx : Receiver) (next : ℕ)
    → Account start s (pending s.completion_batches) rx.commands next
    → Continues start next ((pop_shutdown s).0, (pop_shutdown s).1, rx)
unfolding pop_shutdown
pop_shutdown-Continues start s rx next acc = elim (Bool-cases (s.pending_records == 0)) [
  | inl e ↦ rw e (pop_front-Continues start s.queue s rx next refl acc)
  | inr e ↦ rw e acc
]
