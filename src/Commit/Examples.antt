-- ===== src/Commit/Examples.antt =====
-- Concrete runs of the commit tracker of rust/client/src/protocol.rs: three lanes, a quorum of two.
use chorus.Prelude.{
  ℕ, ◌≤◌, ◌<◌, ◌≡◌, refl, ◌↔◌, ◌⊎◌, Bool, true, false, Option, none, some, List, [], ◌∷◌, arith,
}
use chorus.Prelude.Int.{pos}
use chorus.Transport.{TransportError}
use chorus.Commit.{
  lane_durable, select_commit_failure, represent, possible, CommitFailure, failed_boundary,
  update_lane, publish_durable, insert_sorted, publish, drain, durables, fail, sort, settle,
  admit_window, recompute, quorum_durable_watermark, activate_lane, new, CommitTracker, poison,
  LaneCommitState,
}
use chorus.Commit.Watermark.{count_at_least, quorum_durable_watermark_iff}
use chorus.Commit.Steps.{Call, step, Reachable}
use chorus.Commit.Account.{Inv}
use chorus.Commit.Invariant.{Reachable-Inv}
use chorus.Commit.Failure.{step-Frozen, recompute_oldest, Possible, Impossible}

abbrev lane : ℕ → ℕ → Bool → Option TransportError → LaneCommitState
lane durable represented_end finished error = record {
  durable = durable;
  represented_end = represented_end;
  finished = finished;
  error = error;
}

abbrev three_lanes : List LaneCommitState
three_lanes = lane 10 20 false none ∷ lane 15 20 false none ∷ lane 0 0 true none ∷ []

quorum_durable_watermark_iff_example :
    (10 ≤ quorum_durable_watermark three_lanes 2) ↔ (2 ≤ count_at_least 10 (durables three_lanes))
quorum_durable_watermark_iff_example =
    quorum_durable_watermark_iff three_lanes 2 10 (omega arith) (omega arith)

watermark_test : quorum_durable_watermark three_lanes 2 ≡ 10
unfolding quorum_durable_watermark sort insert_sorted
watermark_test = refl

abbrev calls : List Call
calls =
    Call.activate 0 (pos 0)
    ∷ Call.activate 1 (pos 0)
    ∷ Call.admit (10 ∷ 20 ∷ []) (0 ∷ 1 ∷ [])
    ∷ Call.durable 0 (pos 10)
    ∷ Call.durable 1 (pos 15)
    ∷ []

abbrev run : List Call → CommitTracker → CommitTracker
run [] t = t
run (call ∷ calls) t = run calls (step call t)

run_test : (run calls (new 3 2)).state.committed ≡ 1
unfolding step activate_lane admit_window publish_durable recompute settle drain
    quorum_durable_watermark sort insert_sorted update_lane represent new publish failed_boundary
    possible
run_test = refl

idle_lane : lane_durable (step (Call.activate 0 (pos 0)) (new 3 2)).state.lanes 1 ≡ 0
unfolding step activate_lane update_lane new
idle_lane = refl

Reachable-Inv_example : Inv 3 2 (10 ∷ 20 ∷ []) (run calls (new 3 2))
unfolding new
Reachable-Inv_example =
    Reachable-Inv 3 2 (omega arith) (omega arith) (10 ∷ 20 ∷ []) (run calls (new 3 2)) (
      Reachable.called (Call.durable 1 (pos 15)) tt (
        Reachable.called (Call.durable 0 (pos 10)) tt (
          Reachable.called (Call.admit (10 ∷ 20 ∷ []) (0 ∷ 1 ∷ [])) tt (
            Reachable.called (Call.activate 1 (pos 0)) (rw idle_lane (omega arith))
              (Reachable.called (Call.activate 0 (pos 0)) (omega arith) Reachable.started)))))

abbrev stalled : CommitTracker
stalled = record {
  quorum = 2;
  state = record {
    boundaries = 10 ∷ 20 ∷ [];
    admitted = 2;
    committed = 0;
    committed_bytes = 0;
    failure = none;
    lanes = three_lanes;
  };
  updates = record { committed = 0; failure = none };
}

recompute_oldest_example :
    (count_at_least 20 (durables three_lanes) < 2)
    × (((recompute stalled).state.failure ≡ none) × Possible 2 20 three_lanes
        ⊎ ((recompute stalled).state.failure ≡ some (select_commit_failure three_lanes 20))
          × Impossible 2 20 three_lanes)
unfolding recompute settle drain quorum_durable_watermark sort insert_sorted publish failed_boundary
    possible
recompute_oldest_example = recompute_oldest stalled 20 [] (omega arith) (omega arith) refl refl

step-Frozen_example :
    ((step (Call.durable 0 (pos 30)) (poison stalled)).state.failure ≡ some CommitFailure.poisoned)
    × ((step (Call.durable 0 (pos 30)) (poison stalled)).state.committed ≡ 0)
    × ((step (Call.durable 0 (pos 30)) (poison stalled)).updates ≡ (poison stalled).updates)
unfolding poison fail publish
step-Frozen_example =
    step-Frozen (Call.durable 0 (pos 30)) CommitFailure.poisoned (poison stalled) refl
