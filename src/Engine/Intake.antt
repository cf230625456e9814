-- ===== src/Engine/Intake.antt =====
-- What the channel of rust/client/src/engine.rs brings into the queue keeps the order of the records.
use mathlib.Core.Path.{subst}
use chorus.Prelude.{
  ℕ, ◌+◌, ◌≡◌, refl, sym, ap, ◌∙◌, inl, inr, true, List, [], ◌∷◌, ◌++◌, append_assoc, append-nil,
  Bool-cases,
}
use chorus.Engine.{
  recv_from, drain_available, recv, admit_command, admit_all, append, shutdown, AdmittedAppend,
  EngineState, Command, Receiver,
}
use chorus.Engine.Order.{Consecutive-append, queued-append, pending, queued, Account}
use chorus.Engine.Passes.{Continues}

admit_command-Account :
    (start : ℕ) (s : EngineState) (pend : List AdmittedAppend) (command : Command)
    (commands : List Command) (next : ℕ)
    → Account start s pend (command ∷ commands) next
    → Account start (admit_command command s) pend commands next
unfolding admit_command
admit_command-Account start s pend (append a) commands next acc =
    let (here, rest) = acc.arriving in
    let order : pend ++ queued (s.queue ++ (append a ∷ [])) ≡ (pend ++ queued s.queue) ++ (a ∷ []) =
      ap (λ xs. pend ++ xs) (queued-append s.queue (append a ∷ []))
      ∙ sym (append_assoc pend (queued s.queue) (a ∷ [])) in
    record {
      begun = acc.begun;
      resolved = acc.resolved;
      receipted = acc.receipted;
      waiting = rw order (
          Consecutive-append s.next_completion s.next_admission (s.next_admission + 1)
            (pend ++ queued s.queue) (a ∷ []) acc.waiting (here, refl));
      arriving = rest;
      records = acc.records;
      bytes = acc.bytes;
    }
admit_command-Account start s pend (shutdown response deadline) commands next acc =
    let order : pend ++ queued (s.queue ++ (shutdown response deadline ∷ []))
        ≡ pend ++ queued s.queue =
      ap (λ xs. pend ++ xs)
        (queued-append s.queue (shutdown response deadline ∷ []) ∙ append-nil (queued s.queue)) in
    record {
      begun = acc.begun;
      resolved = acc.resolved;
      receipted = acc.receipted;
      waiting = rw order acc.waiting;
      arriving = acc.arriving;
      records = acc.records;
      bytes = acc.bytes;
    }

admit_all-Account :
    (start : ℕ) (s : EngineState) (pend : List AdmittedAppend) (commands : List Command) (next : ℕ)
    → Account start s pend commands next
    → Account start (admit_all commands s) pend [] next
unfolding admit_all
admit_all-Account start s pend [] next acc = acc
admit_all-Account start s pend (command ∷ commands) next acc =
    admit_all-Account start (admit_command command s) pend commands next
      (admit_command-Account start s pend command commands next acc)

admit_command-batches :
    (command : Command) (s : EngineState)
    → (admit_command command s).completion_batches ≡ s.completion_batches
unfolding admit_command
admit_command-batches (append a) s = refl
admit_command-batches (shutdown _ _) s = refl

admit_all-batches :
    (commands : List Command) (s : EngineState)
    → (admit_all commands s).completion_batches ≡ s.completion_batches
unfolding admit_all
admit_all-batches [] s = refl
admit_all-batches (command ∷ commands) s =
    admit_all-batches commands (admit_command command s) ∙ admit_command-batches command s

close_input-Account :
    (start : ℕ) (s : EngineState) (pend : List AdmittedAppend) (commands : List Command) (next : ℕ)
    → Account start s pend commands next
    → Account start (record s { input_closed = true }) pend commands next
close_input-Account start s pend commands next acc = record {
  begun = acc.begun;
  resolved = acc.resolved;
  receipted = acc.receipted;
  waiting = acc.waiting;
  arriving = acc.arriving;
  records = acc.records;
  bytes = acc.bytes;
}

recv_from-Continues :
    (start : ℕ) (commands : List Command) (s : EngineState) (rx : Receiver) (next : ℕ)
    → rx.commands ≡ commands
    → Account start s (pending s.completion_batches) rx.commands next
    → Continues start next (true, (recv_from commands s rx).0, (recv_from commands s rx).1)
unfolding admit_command
recv_from-Continues start [] s rx next same acc =
    close_input-Account start s (pending s.completion_batches) rx.commands next acc
recv_from-Continues start (command ∷ commands) s rx next same acc =
    rw (admit_command-batches command s) (
      admit_command-Account start s (pending s.completion_batches) command commands next
        (subst (λ cs. Account start s (pending s.completion_batches) cs next) same acc))

pub drain_available-Continues :
    (start : ℕ) (s : EngineState) (rx : Receiver) (next : ℕ)
    → Account start s (pending s.completion_batches) rx.commands next
    → Continues start next (true, (drain_available s rx).0, (drain_available s rx).1)
unfolding drain_available
drain_available-Continues start s rx next acc =
    let s' = admit_all rx.commands s in
    let acc' =
      subst (λ batches. Account start s' (pending batches) [] next)
        (sym (admit_all-batches rx.commands s))
        (admit_all-Account start s (pending s.completion_batches) rx.commands next acc) in
    elim (Bool-cases rx.disconnected) [
      | inl e ↦ rw e (close_input-Account start s' (pending s'.completion_batches) [] next acc')
      | inr e ↦ rw e acc'
    ]

pub recv-Continues :
    (start : ℕ) (s : EngineState) (rx : Receiver) (next : ℕ)
    → Account start s (pending s.completion_batches) rx.commands next
    → Continues start next (true, (recv s rx).0, (recv s rx).1)
unfolding recv
recv-Continues start s rx next acc = recv_from-Continues start rx.commands s rx next refl acc
