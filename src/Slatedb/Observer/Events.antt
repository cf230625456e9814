-- ===== src/Slatedb/Observer/Events.antt =====
-- What the listeners of rust/client/src/slatedb.rs are told, over any sequence of calls.
use mathlib.Core.Path.{subst}
use chorus.Prelude.{
  ℕ, ◌<◌, ◌≡◌, refl, sym, ◌∙◌, inl, inr, Bool, true, false, ◌||◌, Option, none, some, List, [], ◌∷◌,
  ◌++◌, arith, leb, Bool-cases, Result, ok, err,
}
use chorus.Slatedb.{WalError}
use chorus.Slatedb.Progress.{Position, Progress}
use chorus.Slatedb.Observer.{
  WalStatus, WalEvent, wal_flushed, wal_closed, Observer, is_closed, close, admitted, commit_now,
  committed, committed_some, close_some, progress, subscribe, subscribe_at,
}

pub data Call : Type 0 where
  closes : WalError → Call
  admits : ℕ → Call
  commits : Position → Call
  progresses : Progress → Call
  subscribes : ℕ → Call

abbrev pub subscribed : Result WalError Observer → Observer → Observer
subscribed (ok o') o = o'
subscribed (err _) o = o

unfoldable pub step : Call → Observer → Observer
unfolding close admitted committed progress subscribe
step (closes error) o = close error o
step (admits total_rows) o = admitted total_rows o
step (commits position) o = committed position o
step (progresses p) o = progress p o
step (subscribes listener) o = subscribed (subscribe listener o) o

unfoldable pub run : List Call → Observer → Observer
unfolding step
run [] o = o
run (call ∷ calls) o = run calls (step call o)

-- The events from a flushed id on: flushes of ever larger ids, up to the last one, and one close if any,
-- which shows that id and comes at the end.
abbrev pub Story : ℕ → List (WalEvent × List ℕ) → ℕ → Bool → Type 0
Story from [] last closed = (from ≡ last) × (closed ≡ false)
Story from ((wal_flushed status, listeners) ∷ events) last closed =
    (from < status.last_flushed_wal_id) × Story status.last_flushed_wal_id events last closed
Story from ((wal_closed status, listeners) ∷ events) last closed =
    (status.last_flushed_wal_id ≡ from) × (events ≡ []) × (from ≡ last) × (closed ≡ true)

Story-flush :
    (from last : ℕ) (events : List (WalEvent × List ℕ)) (status : WalStatus) (listeners : List ℕ)
    → last < status.last_flushed_wal_id
    → Story from events last false
    → Story from (events ++ ((wal_flushed status, listeners) ∷ [])) status.last_flushed_wal_id false
Story-flush from last [] status listeners h (e, _) = (omega arith, (refl, refl))
Story-flush from last ((wal_flushed s, _) ∷ events) status listeners h (a, story) =
    (a, Story-flush s.last_flushed_wal_id last events status listeners h story)
Story-flush from last ((wal_closed s, _) ∷ events) status listeners h (_, _, _, never) =
    absurd (ground arith)

Story-close :
    (from last : ℕ) (events : List (WalEvent × List ℕ)) (status : WalStatus) (listeners : List ℕ)
    → status.last_flushed_wal_id ≡ last
    → Story from events last false
    → Story from (events ++ ((wal_closed status, listeners) ∷ [])) last true
Story-close from last [] status listeners h (e, _) = (h ∙ sym e, refl, e, refl)
Story-close from last ((wal_flushed s, _) ∷ events) status listeners h (a, story) =
    (a, Story-close s.last_flushed_wal_id last events status listeners h story)
Story-close from last ((wal_closed s, _) ∷ events) status listeners h (_, _, _, never) =
    absurd (ground arith)

-- The events of an observer that started at an id.
abbrev pub Told : ℕ → Observer → Type 0
Told start o = Story start o.published o.status.last_flushed_wal_id (is_closed o)

close-Told :
    (start : ℕ) (error : WalError) (o : Observer) → Told start o → Told start (close error o)
unfolding close
close-Told start error o told = elim (Bool-cases (is_closed o)) [
  | inl e ↦ rw e told
  | inr e ↦ rw e (
      Story-close start o.status.last_flushed_wal_id o.published
        (record o.status { closed_reason = some error }) o.listeners refl
        (subst (Story start o.published o.status.last_flushed_wal_id) e told))
]

committed-Told :
    (start : ℕ) (position : Position) (o : Observer)
    → Told start o
    → Told start (committed position o)
unfolding committed
committed-Told start position o told =
    elim (Bool-cases (is_closed o || leb position.wal_id o.status.last_flushed_wal_id)) [
      | inl e ↦ rw e told
      | inr e ↦
          let alive : is_closed o ≡ false = ground arith in
          let newer : o.status.last_flushed_wal_id < position.wal_id = ground arith in
          let computed : committed position o ≡ commit_now position o = rw (committed, e) refl in
          subst (Told start) (sym computed) (
            subst
              (Story start (commit_now position o).published
                (commit_now position o).status.last_flushed_wal_id)
              (sym alive)
              (Story-flush start o.status.last_flushed_wal_id o.published
                (commit_now position o).status o.listeners newer
                (subst (Story start o.published o.status.last_flushed_wal_id) alive told)))
    ]

committed_some-Told :
    (start : ℕ) (position : Option Position) (o : Observer)
    → Told start o
    → Told start (committed_some position o)
committed_some-Told start none o told = told
committed_some-Told start (some position) o told = committed-Told start position o told

close_some-Told :
    (start : ℕ) (error : Option WalError) (o : Observer)
    → Told start o
    → Told start (close_some error o)
close_some-Told start none o told = told
close_some-Told start (some error) o told = close-Told start error o told

subscribed-Told :
    (start listener : ℕ) (reason : Option WalError) (o : Observer)
    → Told start o
    → Told start (subscribed (subscribe_at reason listener o) o)
subscribed-Told start listener none o told = told
subscribed-Told start listener (some error) o told = told

step-Told : (start : ℕ) (call : Call) (o : Observer) → Told start o → Told start (step call o)
unfolding step progress admitted subscribe
step-Told start (closes error) o told = close-Told start error o told
step-Told start (admits total_rows) o told = told
step-Told start (commits position) o told = committed-Told start position o told
step-Told start (progresses p) o told =
    close_some-Told start p.failure (committed_some p.committed o)
      (committed_some-Told start p.committed o told)
step-Told start (subscribes listener) o told =
    subscribed-Told start listener o.status.closed_reason o told

pub run-keeps :
    (start : ℕ) (calls : List Call) (o : Observer) → Told start o → Told start (run calls o)
unfolding run
run-keeps start [] o told = told
run-keeps start (call ∷ calls) o told =
    run-keeps start calls (step call o) (step-Told start call o told)
