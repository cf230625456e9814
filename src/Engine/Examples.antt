-- ===== src/Engine/Examples.antt =====
-- Runs of rust/client/src/engine.rs at concrete records, answers and timers.
use chorus.Prelude.{ℕ, ◌≤◌, ◌≡◌, refl, ◌↔◌, ◌⊎◌, Bool, true, false, none, some, List, [], ◌∷◌, ok}
use chorus.Errors.{Error}
use chorus.Record.{encoded_len}
use chorus.Engine.{
  Option, append, failure, new, admit_command, admit_all, drain_available, stop_admission,
  fail_appends, fail_commands, fail_all, fail_batches, fail_completion_batches, fail_front,
  watch_failed, finish, AdmittedAppend, Command, RecordCommitRange, EngineState, Receiver,
}
use chorus.Engine.Dispatch.{dispatch, take_appends, after_answer, enqueue_batch}
use chorus.Engine.Handle.{
  ActiveSegmentCapacity, WalHandle, Admission, enqueue_inner, check_seqno, check_capacity, sum_up,
  enqueue_inner-Admission,
}
use chorus.Engine.Order.{Account, Settled, pending}
use chorus.Engine.Window.{dispatch_bound}
use chorus.Engine.Config
use chorus.Engine.Config.{default_config, check_bytes, check_segments, IsUsable, validate_iff}
use chorus.Engine.System.{
  open_channel, drains, dispatches, fails_watch, run_pass, Runs, Runs-Account, Runs-Settled,
}
use chorus.Engine.Rotation.{
  Rotation, Control, fresh_drain, next_attempt, fold_ready, folds, FoldAnswers, fold_done,
}
use chorus.Engine.Rotation.Requests.{Runs-next_attempt}
use chorus.Engine.Rotation.{request, Attempt}
use chorus.Engine.Rotation.Diagram
use chorus.Engine.Rotation.Diagram.{
  completed, answered, handle, Drains, handle-Drains, Runs-fold_done,
}

abbrev capacity : ActiveSegmentCapacity
capacity = record { admission_start_bytes = 0; existing_bytes = 100; seal_room = true }

abbrev handle_at : ℕ → ℕ → WalHandle
handle_at next_seqno total = record {
  next_seqno = next_seqno;
  max_active_segment_bytes = 1000;
  total_admitted_bytes = total;
}

abbrev payload : List ℕ
payload = 1 ∷ 2 ∷ 3 ∷ []

abbrev first_append : AdmittedAppend
first_append = record {
  seqno = 7;
  frame = record { payload = payload };
  payload_bytes = 3;
  admission_end_bytes = 7;
}

abbrev channel_with : List Command → Receiver
channel_with commands = record { commands = commands; disconnected = false; closed = false }

abbrev admitted_first : WalHandle × Receiver
admitted_first = (handle_at 8 7, channel_with (append first_append ∷ []))

admits : enqueue_inner 7 payload capacity true (handle_at 7 0) open_channel ≡ ok admitted_first
unfolding enqueue_inner check_seqno check_capacity encoded_len sum_up
admits = refl

enqueue_inner-Admission_example :
    Admission 7 payload capacity (handle_at 7 0) open_channel admitted_first
enqueue_inner-Admission_example =
    enqueue_inner-Admission 7 payload capacity true (handle_at 7 0) open_channel admitted_first
      admits

abbrev idle_at : List Command → EngineState
idle_at queue = record {
  queue = queue;
  completion_batches = [];
  pending_records = 0;
  pending_bytes = 0;
  next_completion = 7;
  next_admission = 8;
  last_dispatched_admission_bytes = 0;
  input_closed = false;
  shutdown_response = none;
  seal_deadline = none;
  sent = [];
}

abbrev queued_first : EngineState
queued_first = idle_at (append first_append ∷ [])

abbrev commits : RecordCommitRange
commits = record {
  base_record_index = 7;
  first_global_record_index = 7;
  end_global_record_index = 8;
}

abbrev dispatched : EngineState
dispatched = record {
  queue = [];
  completion_batches = record { commits = commits; appends = first_append ∷ [] } ∷ [];
  pending_records = 1;
  pending_bytes = 7;
  next_completion = 7;
  next_admission = 8;
  last_dispatched_admission_bytes = 7;
  input_closed = false;
  shutdown_response = none;
  seal_deadline = none;
  sent = [];
}

drains_first :
    run_pass drains (new 7) (channel_with (append first_append ∷ []))
    ≡ (true, queued_first, open_channel)
unfolding run_pass drain_available admit_all admit_command new
drains_first = refl

dispatches_first :
    dispatch 4096 false (ok commits) queued_first open_channel ≡ (true, dispatched, open_channel)
unfolding dispatch take_appends after_answer enqueue_batch
dispatches_first = refl

passes_first :
    run_pass (dispatches 4096 false (ok commits)) queued_first open_channel
    ≡ (true, dispatched, open_channel)
unfolding run_pass
passes_first = dispatches_first

dispatch_bound_example :
    (dispatched.pending_bytes ≤ 4096)
    ⊎ (dispatched.pending_bytes ≡ 0) × (dispatched.pending_records ≡ 0)
    ⊎ (queued_first.pending_records ≡ 0) × (dispatched.pending_records ≡ 1)
dispatch_bound_example =
    dispatch_bound 4096 false (ok commits) queued_first dispatched open_channel open_channel
      dispatches_first

run : Runs 7 (handle_at 8 7) dispatched open_channel
run = Runs.passed (dispatches 4096 false (ok commits)) dispatched open_channel passes_first (
    Runs.passed drains queued_first open_channel drains_first (
      Runs.enqueued 7 payload capacity true admitted_first admits
        (Runs.started (handle_at 7 0) refl)))

Runs-Account_example :
    Account 7 dispatched (pending dispatched.completion_batches) open_channel.commands 8
Runs-Account_example = Runs-Account 7 (handle_at 8 7) dispatched open_channel run

-- The watch of the pending record fails.
abbrev after_watch : EngineState × Receiver
after_watch = (
  record dispatched { completion_batches = []; sent = failure 7 Error.closed ∷ [] },
  record { commands = []; disconnected = false; closed = true },
)

watch_fails :
    run_pass (fails_watch Error.closed) dispatched open_channel
    ≡ (false, after_watch.0, after_watch.1)
unfolding run_pass watch_failed stop_admission fail_front fail_completion_batches fail_all
    fail_batches fail_appends fail_commands
watch_fails = refl

Runs-Settled_example : Settled 7 (finish after_watch.0 after_watch.1) 8
Runs-Settled_example =
    Runs-Settled 7 (handle_at 8 7) dispatched after_watch.0 open_channel after_watch.1
      (fails_watch Error.closed) run watch_fails

validate_iff_example :
    (Config.validate 2305843009213693951 default_config ≡ ok tt)
    ↔ IsUsable 2305843009213693951 default_config
validate_iff_example = validate_iff 2305843009213693951 default_config

defaults_test : Config.validate 2305843009213693951 default_config ≡ ok tt
unfolding Config.validate check_bytes check_segments
defaults_test = refl

abbrev control : Rotation → Bool → Control
control rotation requested = record {
  rotation = rotation;
  spare_requested = requested;
  spare_attempts = 0;
  spare_retry = none;
  recheck_due = false;
  recheck_attempts = 0;
  recheck_retry = none;
}

abbrev rotating : Control
rotating = control (fresh_drain 3 9) false

handle-Drains_example : Drains 3 9 (handle (completed true) rotating).1.rotation
handle-Drains_example = handle-Drains (completed true) rotating none 3 9 tt tt (refl, refl)

folds_next : next_attempt 10 true true rotating ≡ some folds
unfolding next_attempt fold_ready
folds_next = refl

Runs-next_attempt_example :
    (◌≡◌ {A = Option Attempt} none none)
    × ((n : ℕ) (ready wanted : Bool)
        → next_attempt n ready wanted (request (some folds) true rotating) ≡ none)
Runs-next_attempt_example =
    Runs-next_attempt rotating none 10 true true folds (Diagram.Runs.started rotating refl)
      folds_next

abbrev answers : FoldAnswers
answers = record { confirmed = ok tt; has_segment = true; queued = true; is_due = false }

Runs-fold_done_example :
    (handle (answered 1000 true (fold_done answers)) (control (fresh_drain 3 9) true)).0 ≡ none
Runs-fold_done_example =
    Runs-fold_done (control (fresh_drain 3 9) true) 1000 true answers
      (Diagram.Runs.requested 10 true true folds folds_next (Diagram.Runs.started rotating refl))
      refl refl
