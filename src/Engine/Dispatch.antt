-- ===== src/Engine/Dispatch.antt =====
-- Dispatch and the graceful stop of `run_engine` in rust/client/src/engine.rs. The segmented writer's
-- answer to a batch is an argument.
use chorus.Prelude.{
  ℕ, ◌+◌, ◌-◌, Bool, true, false, not, ◌&&◌, ◌||◌, some, List, [], ◌∷◌, ◌++◌, ltb, leb, ◌==◌,
  if◌then◌else◌, length, Result, ok, err,
}
use chorus.Errors.{Error}
use chorus.Engine.{
  fail_appends, shutdown, append, encoded_bytes, fail_all, stop_admission, AdmittedAppend,
  RecordCommitRange, EngineState, Receiver, Command,
}

pub record Taken : Type 0 where
  pub appends : List AdmittedAppend
  pub rest : List Command

-- Records from the front of the queue that fit the room. `empty` says that none has been taken yet.
unfoldable pub take_appends : ℕ → ℕ → Bool → List Command → Taken
take_appends room pending_records empty (append a ∷ queue) =
    let more = take_appends (room - encoded_bytes a) pending_records false queue in
    if ltb room (encoded_bytes a) && (not (pending_records == 0) || not empty)
    then record { appends = []; rest = append a ∷ queue }
    else record { appends = a ∷ more.appends; rest = more.rest }
take_appends room pending_records empty queue = record { appends = []; rest = queue }

abbrev pub bytes_of : List AdmittedAppend → ℕ
bytes_of [] = 0
bytes_of (a ∷ appends) = encoded_bytes a + bytes_of appends

abbrev pub last_append : AdmittedAppend → List AdmittedAppend → AdmittedAppend
last_append a [] = a
last_append a (b ∷ appends) = last_append b appends

-- A failed dispatch: the batch and everything queued or still in the channel is failed.
unfoldable pub fail_dispatch :
    Error → List AdmittedAppend → EngineState → Receiver → EngineState × Receiver
unfolding stop_admission fail_appends fail_all
fail_dispatch error appends s rx =
    let (s', rx') = stop_admission s rx in
    (fail_all error (record s' { sent = s'.sent ++ fail_appends error appends }), rx')

unfoldable pub enqueue_batch :
    AdmittedAppend → List AdmittedAppend → RecordCommitRange → EngineState → EngineState
enqueue_batch first appends commits s = record s {
  last_dispatched_admission_bytes = (last_append first appends).admission_end_bytes;
  pending_records = s.pending_records + length (first ∷ appends);
  pending_bytes = s.pending_bytes + bytes_of (first ∷ appends);
  completion_batches =
      s.completion_batches ++ (record { commits = commits; appends = first ∷ appends } ∷ []);
}

-- What follows the writer's answer to a batch.
unfoldable pub after_answer :
    Result Error RecordCommitRange
    → AdmittedAppend
    → List AdmittedAppend
    → EngineState
    → Receiver
    → Bool × EngineState × Receiver
unfolding fail_dispatch enqueue_batch
after_answer (err error) first appends s rx =
    let (s', rx') = fail_dispatch error (first ∷ appends) s rx in (false, s', rx')
after_answer (ok commits) first appends s rx =
    if not (commits.first_global_record_index == first.seqno)
      || not (commits.end_global_record_index == (last_append first appends).seqno + 1)
    then (let (s', rx') =
          fail_dispatch (Error.internal "WAL assigned records that differ from those admitted")
            (first ∷ appends)
            (record s {
              last_dispatched_admission_bytes = (last_append first appends).admission_end_bytes;
            })
            rx in
        (false, s', rx'))
    else (true, enqueue_batch first appends commits s, rx)

abbrev pub dispatch_taken :
    Result Error RecordCommitRange
    → List AdmittedAppend
    → List Command
    → EngineState
    → Receiver
    → Bool × EngineState × Receiver
dispatch_taken answer [] rest s rx = (true, s, rx)
dispatch_taken answer (first ∷ appends) rest s rx =
    after_answer answer first appends (record s { queue = rest }) rx

-- One round of the dispatch loop, if its conditions hold: an empty batch waits for completions.
unfoldable pub dispatch :
    ℕ
    → Bool
    → Result Error RecordCommitRange
    → EngineState
    → Receiver
    → Bool × EngineState × Receiver
unfolding take_appends after_answer
dispatch pipeline_window_bytes paused answer s rx =
    if paused || leb pipeline_window_bytes s.pending_bytes
    then (true, s, rx)
    else (let taken =
          take_appends (pipeline_window_bytes - s.pending_bytes) s.pending_records true s.queue in
        dispatch_taken answer taken.appends taken.rest s rx)

-- A shutdown at the front of the queue, once nothing is pending: the queue behind it is closed.
unfoldable pub pop_front : List Command → EngineState → Bool × EngineState
unfolding fail_all
pop_front (shutdown response deadline ∷ queue) s = (
  false,
  record (fail_all Error.closed (record s { queue = queue })) {
    shutdown_response = some response;
    seal_deadline = some deadline;
  },
)
pop_front _ s = (true, s)

unfoldable pub pop_shutdown : EngineState → Bool × EngineState
unfolding pop_front
pop_shutdown s = if s.pending_records == 0 then pop_front s.queue s else (true, s)

abbrev is_empty : List Command → Bool
is_empty [] = true
is_empty (command ∷ queue) = false

-- Nothing is queued or pending, and nothing more comes.
unfoldable pub is_drained : EngineState → Bool
is_drained s = s.input_closed && (is_empty s.queue && (s.pending_records == 0))
