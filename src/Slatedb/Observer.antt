-- ===== src/Slatedb/Observer.antt =====
-- `Observer` and `State` of rust/client/src/slatedb.rs: the status that the adapter publishes. Each
-- method holds the locks while it updates, and one publisher drains the events in their order, so a
-- call is one step and `published` lists the events as the listeners get them.
pub mod Events
pub mod Listeners
pub mod Commits
pub mod Coalescing
use chorus.Prelude.{
  is_some, ℕ, zero, suc, ◌+◌, ◌-◌, ◌*◌, ◌/◌, ◌%◌, ◌^◌, ◌≤◌, ◌<◌, min, max, ◌≡◌, refl, sym, ap, ◌∙◌,
  ◌≢◌, ◌↔◌, ◌⊎◌, inl, inr, Bool, true, false, not, ◌&&◌, ◌||◌, Option, none, some, List, [], ◌∷◌,
  ◌++◌, map, append_assoc, append-nil, String, arith, ltb, leb, ◌==◌, if◌then◌else◌, ltb→lt, lt→ltb,
  leb→le, le→leb, ==_iff, Bool-cases, Option-cases, u32_max, u64_max, checked_add, length,
  get_elem?, set, take, drop, All, length-append, length-drop, length-take, take-append-drop,
  take-append_left, drop-append_left, drop-nil, drop-drop, All-append, All-drop, Result, ok, err,
  ◌>>=◌, ◌>>◌, map_ok, >>=-eq-ok, Result-cases, ok-injective, reject,
}
use chorus.Slatedb.{WalError}
use chorus.Slatedb.Progress.{Position, Progress}

pub record WalStatus : Type 0 where
  pub closed_reason : Option WalError
  pub last_flushed_wal_id : ℕ
  pub last_flushed_seq : Option ℕ
  pub buffered_wal_entries_count : ℕ

pub data WalEvent : Type 0 where
  wal_flushed : WalStatus → WalEvent
  wal_closed : WalStatus → WalEvent

-- A listener is a number.
pub record Observer : Type 0 where
  pub status : WalStatus
  pub listeners : List ℕ
  pub admitted_rows : ℕ
  pub committed_rows : ℕ
  pub published : List (WalEvent × List ℕ)

abbrev pub new : ℕ → Observer
new last_flushed_wal_id = record {
  status = record {
    closed_reason = none;
    last_flushed_wal_id = last_flushed_wal_id;
    last_flushed_seq = none;
    buffered_wal_entries_count = 0;
  };
  listeners = [];
  admitted_rows = 0;
  committed_rows = 0;
  published = [];
}

-- The difference of the counters, saturated, of which 64 bits are kept.
abbrev pub update_buffered_rows : Observer → Observer
update_buffered_rows o = record o {
  status = record o.status {
    buffered_wal_entries_count = min (o.admitted_rows - o.committed_rows) u64_max;
  };
}

abbrev pub is_closed : Observer → Bool
is_closed o = is_some o.status.closed_reason

abbrev pub close_now : WalError → Observer → Observer
close_now error o =
    let status = record o.status { closed_reason = some error } in
    record o {
      status = status;
      listeners = [];
      published = o.published ++ ((wal_closed status, o.listeners) ∷ []);
    }

unfoldable pub close : WalError → Observer → Observer
close error o = if is_closed o then o else close_now error o

unfoldable pub admitted : ℕ → Observer → Observer
admitted total_rows o = update_buffered_rows (record o { admitted_rows = total_rows })

abbrev pub commit_now : Position → Observer → Observer
commit_now position o =
    let o' = update_buffered_rows (record o {
      status = record o.status {
        last_flushed_wal_id = position.wal_id;
        last_flushed_seq = some position.seq;
      };
      committed_rows = position.total_rows;
    }) in
    record o' { published = o'.published ++ ((wal_flushed o'.status, o'.listeners) ∷ []) }

unfoldable pub committed : Position → Observer → Observer
committed position o =
    if is_closed o || leb position.wal_id o.status.last_flushed_wal_id
    then o
    else commit_now position o

abbrev pub committed_some : Option Position → Observer → Observer
committed_some none o = o
committed_some (some position) o = committed position o

abbrev pub close_some : Option WalError → Observer → Observer
close_some none o = o
close_some (some error) o = close error o

-- The successful prefix is published before its suffix is closed.
unfoldable pub progress : Progress → Observer → Observer
unfolding committed close
progress p o = close_some p.failure (committed_some p.committed o)

abbrev pub subscribe_at : Option WalError → ℕ → Observer → Result WalError Observer
subscribe_at (some error) listener o = err error
subscribe_at none listener o = ok (record o { listeners = o.listeners ++ (listener ∷ []) })

unfoldable pub subscribe : ℕ → Observer → Result WalError Observer
subscribe listener o = subscribe_at o.status.closed_reason listener o

unfoldable pub status_of : Observer → Result WalStatus WalStatus
status_of o = if is_closed o then err o.status else ok o.status

-- One look of a barrier at the status: it waits on none.
unfoldable pub barrier : ℕ → Observer → Option (Result WalError (Unit {0}))
barrier wal_id o =
    if leb wal_id o.status.last_flushed_wal_id
    then some (ok tt)
    else elim o.status.closed_reason [ some error ↦ some (err error) | none ↦ none ]
