-- ===== src/Engine.antt =====
-- rust/client/src/engine.rs: the state of the engine task, the admission of commands into its queue,
-- and the ways in which it fails what is left. A channel is the list of the commands in it. A oneshot
-- sender is what has been sent on it: `sent` lists the outcomes in the order in which they leave the
-- engine. Latency and queue metrics have no effect on the state.
pub mod Complete
pub mod Dispatch
pub mod Handle
pub mod Config
pub mod Rotation
pub mod Order
pub mod Settle
pub mod Passes
pub mod Batches
pub mod Intake
pub mod Window
pub mod System
mod Examples
use chorus.Prelude.{
  ℕ, zero, suc, ◌+◌, ◌-◌, ◌*◌, ◌/◌, ◌%◌, ◌^◌, ◌≤◌, ◌<◌, min, max, ◌≡◌, refl, sym, ap, ◌∙◌, ◌≢◌, ◌↔◌,
  ◌⊎◌, inl, inr, Bool, true, false, not, ◌&&◌, ◌||◌, Option, none, some, List, [], ◌∷◌, ◌++◌, map,
  append_assoc, append-nil, String, arith, ltb, leb, ◌==◌, if◌then◌else◌, ltb→lt, lt→ltb, leb→le,
  le→leb, ==_iff, Bool-cases, Option-cases, u32_max, u64_max, checked_add, length, get_elem?, set,
  take, drop, All, length-append, length-drop, length-take, take-append-drop, take-append_left,
  drop-append_left, drop-nil, drop-drop, All-append, All-drop, Result, ok, err, ◌>>=◌, ◌>>◌, map_ok,
  >>=-eq-ok, Result-cases, ok-injective,
}
use chorus.Record.{RecordFrame, header_len}
use chorus.Errors.{Error}

pub record AdmittedAppend : Type 0 where
  pub seqno : ℕ
  pub frame : RecordFrame
  pub payload_bytes : ℕ
  pub admission_end_bytes : ℕ

abbrev pub encoded_bytes : AdmittedAppend → ℕ
encoded_bytes a = a.payload_bytes + header_len

-- The numbers are the response's channel and the deadline.
pub data Command : Type 0 where
  append : AdmittedAppend → Command
  shutdown : ℕ → ℕ → Command

-- What is sent on a completion or a response. An append that is dropped resolves its receiver as
-- closed.
pub data Outcome : Type 0 where
  receipt : ℕ → Outcome
  failure : ℕ → Error → Outcome
  dropped : ℕ → Outcome
  acknowledged : ℕ → Outcome

-- The part of `RecordCommitRange` (segment.rs) that does not change.
pub record RecordCommitRange : Type 0 where
  pub base_record_index : ℕ
  pub first_global_record_index : ℕ
  pub end_global_record_index : ℕ

pub record CompletionBatch : Type 0 where
  pub commits : RecordCommitRange
  pub appends : List AdmittedAppend

pub record EngineState : Type 0 where
  pub queue : List Command
  pub completion_batches : List CompletionBatch
  pub pending_records : ℕ
  pub pending_bytes : ℕ
  pub next_completion : ℕ
  pub next_admission : ℕ
  pub last_dispatched_admission_bytes : ℕ
  pub input_closed : Bool
  pub shutdown_response : Option ℕ
  pub seal_deadline : Option ℕ
  pub sent : List Outcome

-- The receiving end of the command channel.
pub record Receiver : Type 0 where
  pub commands : List Command
  pub disconnected : Bool
  pub closed : Bool

unfoldable pub new : ℕ → EngineState
new next_record_index = record {
  queue = [];
  completion_batches = [];
  pending_records = 0;
  pending_bytes = 0;
  next_completion = next_record_index;
  next_admission = next_record_index;
  last_dispatched_admission_bytes = 0;
  input_closed = false;
  shutdown_response = none;
  seal_deadline = none;
  sent = [];
}

-- An index counts up to the largest one, which the handle never admits: it does not wrap.
unfoldable pub admit_command : Command → EngineState → EngineState
admit_command (append a) s = record s {
  queue = s.queue ++ (append a ∷ []);
  next_admission = s.next_admission + 1;
}
admit_command (shutdown response deadline) s = record s {
  queue = s.queue ++ (shutdown response deadline ∷ []);
}

unfoldable pub admit_all : List Command → EngineState → EngineState
unfolding admit_command
admit_all [] s = s
admit_all (command ∷ commands) s = admit_all commands (admit_command command s)

unfoldable pub drain_available : EngineState → Receiver → EngineState × Receiver
unfolding admit_all
drain_available s rx =
    let s' = admit_all rx.commands s in
    (
      (if rx.disconnected then record s' { input_closed = true } else s'),
      record rx { commands = [] },
    )

-- Close the channel and queue what it still holds.
unfoldable pub stop_admission : EngineState → Receiver → EngineState × Receiver
stop_admission s rx =
    (record s { queue = s.queue ++ rx.commands }, record rx { commands = []; closed = true })

unfoldable pub fail_appends : Error → List AdmittedAppend → List Outcome
fail_appends error [] = []
fail_appends error (a ∷ appends) = failure a.seqno error ∷ fail_appends error appends

unfoldable pub fail_commands : Error → List Command → List Outcome
fail_commands error [] = []
fail_commands error (append a ∷ queue) = failure a.seqno error ∷ fail_commands error queue
fail_commands error (shutdown response deadline ∷ queue) =
    acknowledged response ∷ fail_commands error queue

unfoldable pub fail_all : Error → EngineState → EngineState
unfolding fail_commands
fail_all error s = record s { queue = []; sent = s.sent ++ fail_commands error s.queue }

unfoldable pub fail_batches : Error → List CompletionBatch → List Outcome
unfolding fail_appends
fail_batches error [] = []
fail_batches error (batch ∷ batches) =
    fail_appends error batch.appends ++ fail_batches error batches

unfoldable pub fail_completion_batches : Error → EngineState → EngineState
unfolding fail_batches
fail_completion_batches error s = record s {
  completion_batches = [];
  sent = s.sent ++ fail_batches error s.completion_batches;
}

unfoldable pub fail_queued : Error → EngineState → Receiver → EngineState × Receiver
unfolding stop_admission fail_all
fail_queued error s rx = let (s', rx') = stop_admission s rx in (fail_all error s', rx')

unfoldable pub poison : EngineState → Receiver → EngineState × Receiver
unfolding stop_admission fail_all fail_completion_batches
poison s rx =
    let (s', rx') = stop_admission s rx in
    (fail_all Error.poisoned (fail_completion_batches Error.poisoned s'), rx')

-- The oldest pending append of the first batch is failed.
abbrev pub fail_first :
    Error
    → RecordCommitRange
    → List AdmittedAppend
    → List CompletionBatch
    → EngineState
    → EngineState
fail_first error commits [] batches s = s
fail_first error commits (a ∷ appends) batches s = record s {
  completion_batches = record { commits = commits; appends = appends } ∷ batches;
  sent = s.sent ++ (failure a.seqno error ∷ []);
}

unfoldable pub fail_front : Error → List CompletionBatch → EngineState → EngineState
fail_front error [] s = s
fail_front error (batch ∷ batches) s = fail_first error batch.commits batch.appends batches s

-- The wait for a commit update failed.
unfoldable pub watch_failed : Error → EngineState → Receiver → EngineState × Receiver
unfolding stop_admission fail_front fail_completion_batches fail_all
watch_failed error s rx =
    let (s', rx') = stop_admission s rx in
    (
      fail_all Error.poisoned
          (fail_completion_batches Error.poisoned (fail_front error s'.completion_batches s')),
      rx',
    )

-- One command of the channel, or its end.
abbrev pub recv_from : List Command → EngineState → Receiver → EngineState × Receiver
recv_from [] s rx = (record s { input_closed = true }, rx)
recv_from (command ∷ commands) s rx = (admit_command command s, record rx { commands = commands })

unfoldable pub recv : EngineState → Receiver → EngineState × Receiver
unfolding admit_command
recv s rx = recv_from rx.commands s rx

unfoldable pub drop_appends : List AdmittedAppend → List Outcome
drop_appends [] = []
drop_appends (a ∷ appends) = dropped a.seqno ∷ drop_appends appends

unfoldable pub drop_batches : List CompletionBatch → List Outcome
unfolding drop_appends
drop_batches [] = []
drop_batches (batch ∷ batches) = drop_appends batch.appends ++ drop_batches batches

unfoldable pub drop_commands : List Command → List Outcome
drop_commands [] = []
drop_commands (append a ∷ queue) = dropped a.seqno ∷ drop_commands queue
drop_commands (shutdown _ _ ∷ queue) = drop_commands queue

abbrev pub respond : Option ℕ → List Outcome
respond none = []
respond (some response) = acknowledged response ∷ []

-- When the task ends it answers a shutdown, and drops its state and its end of the channel: an append
-- that is still there resolves its receiver as closed.
unfoldable pub finish : EngineState → Receiver → List Outcome
unfolding drop_batches drop_commands
finish s rx =
    s.sent
    ++ (respond s.shutdown_response
        ++ (drop_batches s.completion_batches
            ++ (drop_commands s.queue ++ drop_commands rx.commands)))
