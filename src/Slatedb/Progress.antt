-- ===== src/Slatedb/Progress.antt =====
-- rust/client/src/slatedb/progress.rs: the snapshot of the durable prefix that completions update.
use chorus.Prelude.{is_some, ℕ, ◌+◌, Option, none, some, ◌==◌, if◌then◌else◌, Result, ok, err}
use chorus.Errors.{Error}
use chorus.Slatedb.{WalError, internal_error, wal_error}

pub record Position : Type 0 where
  pub wal_id : ℕ
  pub seq : ℕ
  pub total_rows : ℕ

pub record Progress : Type 0 where
  pub committed : Option Position
  pub failure : Option WalError

abbrev pub or_first : {A : Type 0} → Option A → A → Option A
or_first none a = some a
or_first (some b) a = some b

abbrev pub fail : WalError → Progress → Progress
fail error p = record p { failure = or_first p.failure error }

-- The answer to a position: the index of the receipt's record, or an error.
abbrev pub answered : Position → Result Error ℕ → Progress → Progress
answered position (ok seqno) p =
    if seqno + 1 == position.wal_id
    then record p { committed = some position }
    else fail (internal_error "WAL completion position mismatch") p
answered position (err error) p = fail (wal_error error) p

unfoldable pub completion : Position → Result Error ℕ → Progress → Progress
unfolding wal_error
completion position result p = if is_some p.failure then p else answered position result p
