-- ===== src/Engine/Complete.antt =====
-- The completion pass of `run_engine` in rust/client/src/engine.rs. What the commit channels show is a
-- function from a batch's range to its progress, since the pass reads each batch's channel once.
-- The mark for a due rotation is in Engine/Rotation.
use chorus.Prelude.{
  ℕ, ◌+◌, ◌-◌, Bool, true, false, Option, none, some, List, [], ◌∷◌, ◌++◌, String, ltb, ◌==◌,
  if◌then◌else◌,
}
use chorus.Errors.{Error}
use chorus.Engine.{
  failure, receipt, encoded_bytes, dropped, poison, AdmittedAppend, RecordCommitRange,
  CompletionBatch, EngineState, Receiver,
}

pub data CompletionFailure : Type 0 where
  append_failed : AdmittedAppend → Error → CompletionFailure
  invariant : String → CompletionFailure

pub record Resolved : Type 0 where
  pub broken : Option CompletionFailure
  pub left : List AdmittedAppend
  pub state : EngineState

-- Return the record's share of the pipeline window.
unfoldable pub debit : AdmittedAppend → EngineState → EngineState
debit a s = record s {
  pending_records = s.pending_records - 1;
  pending_bytes = s.pending_bytes - encoded_bytes a;
}

unfoldable pub complete_append : AdmittedAppend → EngineState → EngineState
unfolding debit
complete_append a s =
    let s' = debit a s in
    record s' { next_completion = s'.next_completion + 1; sent = s'.sent ++ (receipt a.seqno ∷ []) }

abbrev pub drop_append : AdmittedAppend → EngineState → EngineState
drop_append a s = record s { sent = s.sent ++ (dropped a.seqno ∷ []) }

unfoldable pub complete_committed : ℕ → List AdmittedAppend → EngineState → Resolved
unfolding complete_append
complete_committed committed_end [] s = record { broken = none; left = []; state = s }
complete_committed committed_end (a ∷ appends) s =
    if ltb a.seqno committed_end
    then (if s.pending_records == 0
        then record {
          broken = some (invariant "completion queue exceeded the pending record count");
          left = appends;
          state = drop_append a s;
        }
        else complete_committed committed_end appends (complete_append a s))
    else record { broken = none; left = a ∷ appends; state = s }

abbrev pub with_batches : EngineState → List CompletionBatch → EngineState
with_batches s batches = record s { completion_batches = batches }

-- What follows the committed records of a batch, by what is left of it.
unfoldable pub after_committed :
    (EngineState → Option CompletionFailure × EngineState)
    → Option Error
    → CompletionBatch
    → List CompletionBatch
    → List AdmittedAppend
    → EngineState
    → Option CompletionFailure × EngineState
unfolding debit
after_committed next failed batch batches [] s = next s
after_committed next none batch batches (a ∷ left) s =
    (none, with_batches s (record batch { appends = a ∷ left } ∷ batches))
after_committed next (some error) batch batches (a ∷ left) s =
    if s.pending_records == 0
    then (
      some (invariant "failed completion exceeded the pending record count"),
      with_batches (drop_append a s) (record batch { appends = left } ∷ batches),
    )
    else (
      some (append_failed a error),
      with_batches (debit a s) (record batch { appends = left } ∷ batches),
    )

abbrev pub after_batch :
    (EngineState → Option CompletionFailure × EngineState)
    → Option Error
    → CompletionBatch
    → List CompletionBatch
    → Resolved
    → Option CompletionFailure × EngineState
after_batch next failed batch batches r = elim r.broken [
  | some broken ↦ (some broken, with_batches r.state (record batch { appends = r.left } ∷ batches))
  | none ↦ after_committed next failed batch batches r.left r.state
]

unfoldable pub complete_batches :
    (RecordCommitRange → ℕ × Option Error)
    → List CompletionBatch
    → EngineState
    → Option CompletionFailure × EngineState
unfolding complete_committed after_committed
complete_batches progress [] s = (none, with_batches s [])
complete_batches progress (batch ∷ batches) s =
    let (committed_end, failed) = progress batch.commits in
    after_batch (complete_batches progress batches) failed batch batches
      (complete_committed committed_end batch.appends s)

abbrev pub send_failure : CompletionFailure → EngineState → EngineState
send_failure (append_failed a error) s = record s { sent = s.sent ++ (failure a.seqno error ∷ []) }
send_failure (invariant message) s = s

-- What follows the pass: whether the engine goes on, its state and the channel.
abbrev pub after_pass :
    Option CompletionFailure × EngineState → Receiver → Bool × EngineState × Receiver
after_pass (none, s) rx = (true, s, rx)
after_pass (some broken, s) rx =
    let (s', rx') = poison (send_failure broken s) rx in (false, s', rx')

unfoldable pub complete :
    (RecordCommitRange → ℕ × Option Error) → EngineState → Receiver → Bool × EngineState × Receiver
unfolding complete_batches poison
complete progress s rx = after_pass (complete_batches progress s.completion_batches s) rx
