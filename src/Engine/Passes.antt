-- ===== src/Engine/Passes.antt =====
-- The passes of the engine task of rust/client/src/engine.rs keep the account of records, or end it
-- with everything that is left in balance.
use mathlib.Core.Path.{subst}
use chorus.Prelude.{
  ℕ, ◌+◌, ◌≤◌, ◌≡◌, refl, sym, ap, inl, inr, Bool, true, false, Option, none, some, List, [], ◌∷◌,
  ◌++◌, arith, ltb, ◌==◌, Bool-cases,
}
use chorus.Errors.{Error}
use chorus.Engine.{
  stop_admission, poison, fail_appends, AdmittedAppend, CompletionBatch, EngineState, Command,
  Outcome, Receiver, RecordCommitRange,
}
use chorus.Engine.Order.{
  numbered-append, numbered-Consecutive, Consecutive-le, numbered, receipts-append, receipts,
  outcomes, outcomes-append, hits, within, pending, queued, Account,
}
use chorus.Engine.Settle.{fail_appends-Balance, poison-Balance, left_over, Balance}
use chorus.Engine.Complete.{
  after_pass, after_batch, invariant, complete, complete_batches, with_batches, append_failed,
  after_committed, debit, complete_append, complete_committed, CompletionFailure, Resolved,
}

within-split : (i n k m : ℕ) → n ≤ k → k ≤ m → within n m i ≡ within n k i + within k m i
unfolding within
within-split i n k m h h' = ground arith

pub Account-Balance :
    (start : ℕ) (s : EngineState) (pend extra : List AdmittedAppend) (commands : List Command)
    (next : ℕ)
    → ((i : ℕ) → numbered i pend ≡ numbered i (pending s.completion_batches) + numbered i extra)
    → Account start s pend commands next
    → Balance start s.next_completion s extra commands next
unfolding left_over
Account-Balance start s pend extra commands next same a =
    let below =
      Consecutive-le s.next_completion s.next_admission (pend ++ queued s.queue) a.waiting in
    let below' = Consecutive-le s.next_admission next (queued commands) a.arriving in
    record {
      begun = a.begun;
      ended = omega arith;
      balance = λ i.
          let sent = a.resolved i in
          let here = same i in
          let w =
            numbered-Consecutive i s.next_completion s.next_admission (pend ++ queued s.queue)
              a.waiting in
          let v = numbered-Consecutive i s.next_admission next (queued commands) a.arriving in
          let sum = numbered-append i pend (queued s.queue) in
          let cut = within-split i start s.next_completion next a.begun (omega arith) in
          let cut' = within-split i s.next_completion s.next_admission next below below' in
          omega arith;
      receipted = a.receipted;
    }

within_next : (i n m : ℕ) → n ≤ m → within n (m + 1) i ≡ within n m i + hits i m
unfolding within hits
within_next i n m h = ground arith

complete_append-Account :
    (start : ℕ) (s : EngineState) (a : AdmittedAppend) (pend : List AdmittedAppend)
    (commands : List Command) (next : ℕ)
    → Account start s (a ∷ pend) commands next
    → Account start (complete_append a s) pend commands next
unfolding complete_append debit outcomes receipts
complete_append-Account start s a pend commands next acc =
    let (here, rest) = acc.waiting in
    let records = acc.records in
    let bytes = acc.bytes in
    record {
      begun = let h = acc.begun in omega arith;
      resolved = λ i.
          let h = acc.resolved i in
          let joined = outcomes-append i s.sent (Outcome.receipt a.seqno ∷ []) in
          let step = within_next i start s.next_completion acc.begun in
          let same = ap (hits i) here in omega arith;
      receipted = λ i.
          let h = acc.receipted i in
          let joined = receipts-append i s.sent (Outcome.receipt a.seqno ∷ []) in
          let step = within_next i start s.next_completion acc.begun in
          let same = ap (hits i) here in omega arith;
      waiting = rest;
      arriving = acc.arriving;
      records = omega arith;
      bytes = omega arith;
    }

complete_committed-Account :
    (start committed_end : ℕ) (s : EngineState) (appends rest : List AdmittedAppend)
    (commands : List Command) (next : ℕ)
    → Account start s (appends ++ rest) commands next
    → let r = complete_committed committed_end appends s in
      (r.broken ≡ none) × Account start r.state (r.left ++ rest) commands next
unfolding complete_committed
complete_committed-Account start committed_end s [] rest commands next acc = (refl, acc)
complete_committed-Account start committed_end s (a ∷ appends) rest commands next acc =
    elim (Bool-cases (ltb a.seqno committed_end)) [
      | inr e ↦ rw e (refl, acc)
      | inl e ↦
          let some_pending : (s.pending_records == 0) ≡ false =
            let h = acc.records in ground arith in
          rw (e, some_pending)
            (complete_committed-Account start committed_end (complete_append a s) appends rest
              commands next (complete_append-Account start s a (appends ++ rest) commands next acc))
    ]

with_batches-Account :
    (start : ℕ) (s : EngineState) (pend : List AdmittedAppend) (batches : List CompletionBatch)
    (commands : List Command) (next : ℕ)
    → Account start s pend commands next
    → Account start (with_batches s batches) pend commands next
with_batches-Account start s pend batches commands next acc = record {
  begun = acc.begun;
  resolved = acc.resolved;
  receipted = acc.receipted;
  waiting = acc.waiting;
  arriving = acc.arriving;
  records = acc.records;
  bytes = acc.bytes;
}

-- What the completion pass establishes: the account, or with a failed append in hand the balance.
abbrev Passed : ℕ → List Command → ℕ → Option CompletionFailure × EngineState → Type 0
Passed start commands next (none, s) = Account start s (pending s.completion_batches) commands next
Passed start commands next (some (append_failed a e), s) =
    Balance start s.next_completion s (a ∷ []) commands next
Passed start commands next (some (invariant message), s) = ⊥

append_failed-Balance :
    (start : ℕ) (s : EngineState) (a : AdmittedAppend) (batch : CompletionBatch)
    (batches : List CompletionBatch) (commands : List Command) (next : ℕ)
    → Account start s (a ∷ (batch.appends ++ pending batches)) commands next
    → Balance start s.next_completion
        (with_batches (debit a s) (batch ∷ batches))
        (a ∷ [])
        commands
        next
unfolding debit left_over numbered
append_failed-Balance start s a batch batches commands next acc =
    let pend = a ∷ (batch.appends ++ pending batches) in
    let b =
      Account-Balance start (with_batches s (batch ∷ batches)) pend (a ∷ []) commands next
        (λ i. omega arith)
        (with_batches-Account start s pend (batch ∷ batches) commands next acc) in
    record { begun = b.begun; ended = b.ended; balance = b.balance; receipted = b.receipted }

after_committed-Passed :
    (start : ℕ) (next_pass : EngineState → Option CompletionFailure × EngineState)
    (failed : Option Error) (batch : CompletionBatch) (batches : List CompletionBatch)
    (left : List AdmittedAppend) (s : EngineState) (commands : List Command) (next : ℕ)
    → ((s' : EngineState)
        → Account start s' (pending batches) commands next
        → Passed start commands next (next_pass s'))
    → Account start s (left ++ pending batches) commands next
    → Passed start commands next (after_committed next_pass failed batch batches left s)
unfolding after_committed
after_committed-Passed start next_pass failed batch batches [] s commands next rest acc = rest s acc
after_committed-Passed start next_pass none batch batches (a ∷ left) s commands next rest acc =
    with_batches-Account start s (a ∷ (left ++ pending batches))
      (record batch { appends = a ∷ left } ∷ batches) commands next acc
after_committed-Passed start next_pass (some e) batch batches (a ∷ left) s commands next rest acc =
    let some_pending : (s.pending_records == 0) ≡ false = let h = acc.records in ground arith in
    rw some_pending
      (append_failed-Balance start s a (record batch { appends = left }) batches commands next acc)

after_batch_whole :
    (next_pass : EngineState → Option CompletionFailure × EngineState) (failed : Option Error)
    (batch : CompletionBatch) (batches : List CompletionBatch) (r : Resolved)
    → r.broken ≡ none
    → after_batch next_pass failed batch batches r
      ≡ after_committed next_pass failed batch batches r.left r.state
after_batch_whole next_pass failed batch batches r e = rw (e, after_batch)

complete_batches-Passed :
    (start : ℕ) (progress : RecordCommitRange → ℕ × Option Error) (batches : List CompletionBatch)
    (s : EngineState) (commands : List Command) (next : ℕ)
    → Account start s (pending batches) commands next
    → Passed start commands next (complete_batches progress batches s)
unfolding complete_batches
complete_batches-Passed start progress [] s commands next acc =
    with_batches-Account start s [] [] commands next acc
complete_batches-Passed start progress (batch ∷ batches) s commands next acc =
    let committed_end = (progress batch.commits).0 in
    let failed = (progress batch.commits).1 in
    let r = complete_committed committed_end batch.appends s in
    let (whole, acc') =
      complete_committed-Account start committed_end s batch.appends (pending batches) commands next
        acc in
    subst (Passed start commands next)
      (sym (after_batch_whole (complete_batches progress batches) failed batch batches r whole))
      (after_committed-Passed start (complete_batches progress batches) failed batch batches r.left
        r.state commands next
        (λ s'. complete_batches-Passed start progress batches s' commands next) acc')

-- Either the engine goes on with the account, or it stops with the rest in balance.
abbrev pub Continues : ℕ → ℕ → Bool × EngineState × Receiver → Type 0
Continues start next (true, s, rx) = Account start s (pending s.completion_batches) rx.commands next
Continues start next (false, s, rx) =
    (committed : ℕ) × Balance start committed s [] rx.commands next

after_pass-Continues :
    (start : ℕ) (passed : Option CompletionFailure × EngineState) (rx : Receiver) (next : ℕ)
    → Passed start rx.commands next passed
    → Continues start next (after_pass passed rx)
unfolding fail_appends poison stop_admission
after_pass-Continues start (none, s) rx next acc = acc
after_pass-Continues start (some (invariant message), s) rx next acc = absurd acc
after_pass-Continues start (some (append_failed a e), s) rx next b = (
  s.next_completion,
  poison-Balance start s.next_completion next
      (record s { sent = s.sent ++ fail_appends e (a ∷ []) }) rx
      (fail_appends-Balance start s.next_completion next e s (a ∷ []) rx.commands b),
)

pub complete-Continues :
    (start : ℕ) (progress : RecordCommitRange → ℕ × Option Error) (s : EngineState) (rx : Receiver)
    (next : ℕ)
    → Account start s (pending s.completion_batches) rx.commands next
    → Continues start next (complete progress s rx)
unfolding complete
complete-Continues start progress s rx next acc =
    after_pass-Continues start (complete_batches progress s.completion_batches s) rx next
      (complete_batches-Passed start progress s.completion_batches s rx.commands next acc)
