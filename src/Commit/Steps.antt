-- ===== src/Commit/Steps.antt =====
-- Runs of `CommitTracker` of rust/client/src/protocol.rs: any interleaving of the calls that the
-- writer and its lanes make, each under the tracker's lock.
use chorus.Prelude.{ℕ, ◌≤◌, Option, List, [], ◌++◌}
use chorus.Prelude.Int.{ℤ}
use chorus.Transport.{TransportError}
use chorus.Commit.{
  [], Option, List, lane_durable, CommitTracker, new, activate_lane, admit_window, publish_durable,
  finish_lane, poison, nonnegative,
}

pub data Call : Type 0 where
  activate : ℕ → ℤ → Call
  admit : List ℕ → List ℕ → Call
  durable : ℕ → ℤ → Call
  finished : ℕ → Option TransportError → Call
  poisoned : Call

unfoldable pub step : Call → CommitTracker → CommitTracker
unfolding admit_window
step (activate zone offset) t = activate_lane zone offset t
step (admit boundaries zones) t = (admit_window boundaries zones t).1
step (durable zone offset) t = publish_durable zone offset t
step (finished zone error) t = finish_lane zone error t
step poisoned t = poison t

-- The boundaries that a call admits.
abbrev pub admitted_by : Call → List ℕ
admitted_by (admit boundaries zones) = boundaries
admitted_by _ = []

-- A lane is activated at no less than it reported before.
abbrev pub Allowed : Call → CommitTracker → Type 0
Allowed (activate zone offset) t = lane_durable t.state.lanes zone ≤ nonnegative offset
Allowed _ t = Unit {0}

-- The trackers that runs lead to, with the boundaries admitted so far.
pub data Reachable (lanes quorum : ℕ) : List ℕ → CommitTracker → Type 0 where
  started : Reachable lanes quorum [] (new lanes quorum)
  called :
      {log : List ℕ} {t : CommitTracker} (call : Call)
      → Allowed call t
      → Reachable lanes quorum log t
      → Reachable lanes quorum (log ++ admitted_by call) (step call t)
