-- ===== src/Slatedb/Observer/Commits.antt =====
-- When the calls of `committed` and `close` in rust/client/src/slatedb.rs change an observer, and when a
-- later one overrides an earlier.
use chorus.Prelude.{
  ◌≤◌, ◌<◌, ◌≡◌, refl, sym, ap, ◌∙◌, ◌⊎◌, inl, inr, true, false, Option, none, some, [], arith, leb,
  Bool-cases,
}
use chorus.Slatedb.{WalError}
use chorus.Slatedb.Progress.{Position, Progress}
use chorus.Slatedb.Observer.{
  Observer, is_closed, close, commit_now, committed, committed_some, close_some, progress,
}

-- An observer but for what has been published.
abbrev pub forget : Observer → Observer
forget o = record o { published = [] }

pub committed-closed :
    (position : Position) (o : Observer) → is_closed o ≡ true → committed position o ≡ o
unfolding committed
committed-closed position o h = rw h refl

pub committed_some-closed :
    (position : Option Position) (o : Observer) → is_closed o ≡ true → committed_some position o ≡ o
committed_some-closed none o h = refl
committed_some-closed (some position) o h = committed-closed position o h

pub close_some-closed :
    (error : Option WalError) (o : Observer) → is_closed o ≡ true → close_some error o ≡ o
unfolding close
close_some-closed none o h = refl
close_some-closed (some error) o h = rw h refl

pub progress-closed : (p : Progress) (o : Observer) → is_closed o ≡ true → progress p o ≡ o
unfolding progress
progress-closed p o h =
    ap (close_some p.failure) (committed_some-closed p.committed o h)
    ∙ close_some-closed p.failure o h

pub close-closes : (error : WalError) (o : Observer) → is_closed (close error o) ≡ true
unfolding close
close-closes error o = elim (Bool-cases (is_closed o)) [ inl e ↦ rw e e | inr e ↦ rw e refl ]

committed-old :
    (position : Position) (o : Observer)
    → position.wal_id ≤ o.status.last_flushed_wal_id
    → committed position o ≡ o
unfolding committed
committed-old position o h = elim (Bool-cases (is_closed o)) [
  | inl e ↦ rw e refl
  | inr e ↦
      let old : leb position.wal_id o.status.last_flushed_wal_id ≡ true = ground arith in
      rw (e, old) refl
]

committed-new :
    (position : Position) (o : Observer)
    → is_closed o ≡ false
    → o.status.last_flushed_wal_id < position.wal_id
    → committed position o ≡ commit_now position o
unfolding committed
committed-new position o alive newer =
    let fresh : leb position.wal_id o.status.last_flushed_wal_id ≡ false = ground arith in
    rw (alive, fresh) refl

-- A commit that is not lost shows its position.
committed-cases :
    (position : Position) (o : Observer)
    → (committed position o ≡ o) × (is_closed o ≡ true)
      ⊎ (committed position o ≡ o) × (position.wal_id ≤ o.status.last_flushed_wal_id)
      ⊎ (committed position o ≡ commit_now position o)
        × (is_closed o ≡ false)
        × (o.status.last_flushed_wal_id < position.wal_id)
unfolding committed
committed-cases position o = elim (Bool-cases (is_closed o)) [
  | inl e ↦ inl (rw e refl, e)
  | inr e ↦ elim (Bool-cases (leb position.wal_id o.status.last_flushed_wal_id)) [
    | inl old ↦ inr (inl (rw (e, old) refl, ground arith))
    | inr newer ↦ inr (inr (rw (e, newer) refl, e, ground arith))
  ]
]

pub committed-again :
    (position : Position) (o : Observer)
    → committed position (committed position o) ≡ committed position o
committed-again position o = elim (committed-cases position o) [
  | inl (same, closed) ↦ ap (committed position) same
  | inr (inl (same, old)) ↦ ap (committed position) same
  | inr (inr (now, alive, newer)) ↦
      ap (committed position) now
      ∙ committed-old position (commit_now position o) (omega arith)
      ∙ sym now
]

pub committed-later :
    (q position : Position) (o : Observer)
    → q.wal_id < position.wal_id
    → forget (committed position (committed q o)) ≡ forget (committed position o)
committed-later q position o h = elim (committed-cases q o) [
  | inl (same, closed) ↦ ap (λ o'. forget (committed position o')) same
  | inr (inl (same, old)) ↦ ap (λ o'. forget (committed position o')) same
  | inr (inr (now, alive, newer)) ↦
      let again : committed position (commit_now q o) ≡ commit_now position (commit_now q o) =
        committed-new position (commit_now q o) alive h in
      let once : committed position o ≡ commit_now position o =
        committed-new position o alive (omega arith) in
      ap (λ o'. forget (committed position o')) now ∙ ap forget again ∙ sym (ap forget once)
]
