-- ===== src/Engine/System.antt =====
-- The handle, the command channel and the engine task of rust/client/src/engine.rs together: any
-- interleaving of admissions with the passes of `run_engine`, up to each of the task's exits.
use mathlib.Core.Path.{subst}
use chorus.Engine
use chorus.Engine.Complete.{complete}
use chorus.Engine.Dispatch.{dispatch, pop_shutdown, is_drained}
use chorus.Prelude.{
  not, Bool-cases, inl, inr, ℕ, ◌≡◌, refl, sym, ap, ◌∙◌, Bool, true, false, Option, List, [], ◌∷◌,
  ◌++◌, append-nil, arith, Result, ok,
}
use chorus.Errors.{Error}
use chorus.Engine.{
  append, fail_queued, watch_failed, recv, shutdown, drain_available, finish, AdmittedAppend,
  CompletionBatch, EngineState, Command, Outcome, Receiver, RecordCommitRange,
}
use chorus.Engine.Order.{
  within, Consecutive-append, queued-append, receipts, outcomes, pending, queued, Account, Settled,
}
use chorus.Engine.Settle.{fail_queued-Balance, watch_failed-Balance, finish-Settled}
use chorus.Engine.Handle.{enqueue_inner-Admission, enqueue_inner, WalHandle, ActiveSegmentCapacity}
use chorus.Engine.Passes.{Continues, complete-Continues}
use chorus.Engine.Batches.{whole-Balance, pop_shutdown-Continues, dispatch-Continues}
use chorus.Engine.Intake.{recv-Continues, drain_available-Continues}

abbrev pub open_channel : Receiver
open_channel = record { commands = []; disconnected = false; closed = false }

-- The passes of the task, with what the writer, the commit channels and rotation answer.
pub data Pass : Type 0 where
  drains : Pass
  receives : Pass
  completes : (RecordCommitRange → ℕ × Option Error) → Pass
  dispatches : ℕ → Bool → Result Error RecordCommitRange → Pass
  pops_shutdown : Pass
  ends_drained : Pass
  fails_watch : Error → Pass
  fails_queued : Error → Pass

abbrev pub stopped : EngineState × Receiver → Bool × EngineState × Receiver
stopped (s, rx) = (false, s, rx)

abbrev pub going : EngineState × Receiver → Bool × EngineState × Receiver
going (s, rx) = (true, s, rx)

-- Whether the task goes on, its state and the channel.
unfoldable pub run_pass : Pass → EngineState → Receiver → Bool × EngineState × Receiver
unfolding drain_available recv complete dispatch pop_shutdown is_drained watch_failed fail_queued
run_pass drains s rx = going (drain_available s rx)
run_pass receives s rx = going (recv s rx)
run_pass (completes progress) s rx = complete progress s rx
run_pass (dispatches window paused answer) s rx = dispatch window paused answer s rx
run_pass pops_shutdown s rx = ((pop_shutdown s).0, (pop_shutdown s).1, rx)
run_pass ends_drained s rx = (not (is_drained s), s, rx)
run_pass (fails_watch error) s rx = stopped (watch_failed error s rx)
run_pass (fails_queued error) s rx = stopped (fail_queued error s rx)

-- The states that a running engine reaches from a log that ends at `start`.
pub data Runs (start : ℕ) : WalHandle → EngineState → Receiver → Type 0 where
  started :
      (handle : WalHandle)
      → handle.next_seqno ≡ start
      → Runs start handle (Engine.new start) open_channel
  enqueued :
      {handle : WalHandle} {s : EngineState} {rx : Receiver} (seqno : ℕ) (payload : List ℕ)
      (capacity : ActiveSegmentCapacity) (granted : Bool) (admitted : WalHandle × Receiver)
      → enqueue_inner seqno payload capacity granted handle rx ≡ ok admitted
      → Runs start handle s rx
      → Runs start admitted.0 s admitted.1
  shut_down :
      {handle : WalHandle} {s : EngineState} {rx : Receiver} (response deadline : ℕ)
      → Runs start handle s rx
      → Runs start handle s
          (record rx { commands = rx.commands ++ (shutdown response deadline ∷ []) })
  disconnected :
      {handle : WalHandle} {s : EngineState} {rx : Receiver}
      → Runs start handle s rx
      → Runs start handle s (record rx { disconnected = true })
  passed :
      {handle : WalHandle} {s : EngineState} {rx : Receiver} (pass : Pass) (s' : EngineState)
      (rx' : Receiver)
      → run_pass pass s rx ≡ (true, s', rx')
      → Runs start handle s rx
      → Runs start handle s' rx'

run_pass-Continues :
    (start : ℕ) (pass : Pass) (s : EngineState) (rx : Receiver) (next : ℕ)
    → Account start s (pending s.completion_batches) rx.commands next
    → Continues start next (run_pass pass s rx)
unfolding run_pass
run_pass-Continues start drains s rx next acc = drain_available-Continues start s rx next acc
run_pass-Continues start receives s rx next acc = recv-Continues start s rx next acc
run_pass-Continues start (completes progress) s rx next acc =
    complete-Continues start progress s rx next acc
run_pass-Continues start (dispatches window paused answer) s rx next acc =
    dispatch-Continues start window paused answer s rx next acc
run_pass-Continues start pops_shutdown s rx next acc = pop_shutdown-Continues start s rx next acc
run_pass-Continues start ends_drained s rx next acc = elim (Bool-cases (is_drained s)) [
  | inl e ↦ rw e (s.next_completion, whole-Balance start s rx next acc)
  | inr e ↦ rw e acc
]
run_pass-Continues start (fails_watch error) s rx next acc = (
  s.next_completion,
  watch_failed-Balance start s.next_completion next error s rx (whole-Balance start s rx next acc),
)
run_pass-Continues start (fails_queued error) s rx next acc = (
  s.next_completion,
  fail_queued-Balance start s.next_completion next error s rx (whole-Balance start s rx next acc),
)

-- While the engine runs, what has been sent is one receipt for each record before the next completion,
-- in order of index what is pending, queued and in the channel is every record from there to the
-- handle's next one, and the pending counts are those of the pending records.
pub Runs-Account :
    (start : ℕ) (handle : WalHandle) (s : EngineState) (rx : Receiver)
    → Runs start handle s rx
    → Account start s (pending s.completion_batches) rx.commands handle.next_seqno
unfolding Engine.new outcomes receipts within
Runs-Account start handle s rx (started _ e) = record {
  begun = omega arith;
  resolved = λ i. ground arith;
  receipted = λ i. ground arith;
  waiting = refl;
  arriving = sym e;
  records = refl;
  bytes = refl;
}
Runs-Account start handle s rx
      (enqueued {handle = h} {rx = rx0} seqno payload capacity granted admitted e r) =
    let acc = Runs-Account start h s rx0 r in
    let a = enqueue_inner-Admission seqno payload capacity granted h rx0 admitted e in
    let commands = ap Receiver.commands a.queued in
    let order = ap queued commands ∙ queued-append rx0.commands (append a.command ∷ []) in
    record {
      begun = acc.begun;
      resolved = acc.resolved;
      receipted = acc.receipted;
      waiting = acc.waiting;
      arriving = rw order (
          Consecutive-append s.next_admission h.next_seqno admitted.0.next_seqno
            (queued rx0.commands) (a.command ∷ []) acc.arriving
            (a.numbered ∙ a.in_order, sym a.next));
      records = acc.records;
      bytes = acc.bytes;
    }
Runs-Account start handle s rx (shut_down {rx = rx0} response deadline r) =
    let acc = Runs-Account start handle s rx0 r in
    let order =
      queued-append rx0.commands (shutdown response deadline ∷ [])
      ∙ append-nil (queued rx0.commands) in
    record {
      begun = acc.begun;
      resolved = acc.resolved;
      receipted = acc.receipted;
      waiting = acc.waiting;
      arriving = rw order acc.arriving;
      records = acc.records;
      bytes = acc.bytes;
    }
Runs-Account start handle s rx (disconnected {rx = rx0} r) =
    let acc = Runs-Account start handle s rx0 r in acc
Runs-Account start handle s rx (passed {s = s0} {rx = rx0} pass _ _ e r) =
    let acc = Runs-Account start handle s0 rx0 r in
    subst (Continues start handle.next_seqno) e
      (run_pass-Continues start pass s0 rx0 handle.next_seqno acc)

-- Whenever the engine stops, at any of its exits, every record that was admitted has exactly one
-- outcome, and no other record has any; those with a receipt are a prefix of them.
pub Runs-Settled :
    (start : ℕ) (handle : WalHandle) (s s' : EngineState) (rx rx' : Receiver) (pass : Pass)
    → Runs start handle s rx
    → run_pass pass s rx ≡ (false, s', rx')
    → Settled start (finish s' rx') handle.next_seqno
Runs-Settled start handle s s' rx rx' pass r e =
    let (committed, b) =
      subst (Continues start handle.next_seqno) e
        (run_pass-Continues start pass s rx handle.next_seqno (Runs-Account start handle s rx r)) in
    finish-Settled start committed handle.next_seqno s' rx' b
