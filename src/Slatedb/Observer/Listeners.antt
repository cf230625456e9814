-- ===== src/Slatedb/Observer/Listeners.antt =====
-- Who is told what in rust/client/src/slatedb.rs: each event goes to everyone who has subscribed.
use chorus.Prelude.{
  is_some, if◌then◌else◌, append-nil, append_assoc, All, All-append, ap, ℕ, ◌≡◌, refl, sym, ◌∙◌,
  inl, inr, Bool, true, false, ◌||◌, Option, none, some, List, [], ◌∷◌, ◌++◌, arith, leb,
  Bool-cases,
}
use chorus.Slatedb.{WalError}
use chorus.Slatedb.Progress.{Position, Progress}
use chorus.Slatedb.Observer.{
  WalStatus, WalEvent, wal_flushed, wal_closed, Observer, new, is_closed, close, admitted,
  commit_now, committed, committed_some, close_some, progress, subscribe, subscribe_at,
}
use chorus.Slatedb.Observer.Events.{
  Call, closes, subscribes, admits, commits, progresses, subscribed, step, run, Told, run-keeps,
}

-- Who joins by a call, and whether a call closes; the calls alone say so.
abbrev joins : Call → List ℕ
joins (subscribes listener) = listener ∷ []
joins _ = []

abbrev ends : Call → Bool
ends (closes _) = true
ends (progresses p) = is_some p.failure
ends _ = false

-- The listeners that have subscribed before the first call that closes, in order.
abbrev pub joined : Bool → List Call → List ℕ
joined closed [] = []
joined closed (call ∷ calls) =
    (if closed then [] else joins call) ++ joined (closed || ends call) calls

-- While an observer is open its listeners are these.
abbrev pub Hears : List ℕ → Observer → Type 0
Hears listeners o = is_closed o ≡ false → o.listeners ≡ listeners

-- What a call publishes goes to these listeners, and it publishes nothing else.
abbrev pub Sent : List ℕ → Observer → Observer → Type 0
Sent listeners o o' =
    (added : List (WalEvent × List ℕ)) × (o'.published ≡ o.published ++ added)
    × All (λ event. event.1 ≡ listeners) added

Sent-refl : (listeners : List ℕ) (o : Observer) → Sent listeners o o
Sent-refl listeners o = ([], sym (append-nil o.published), tt)

Sent-trans :
    (listeners : List ℕ) (a b c : Observer)
    → Sent listeners a b
    → Sent listeners b c
    → Sent listeners a c
Sent-trans listeners a b c (xs, e, all_xs) (ys, f, all_ys) = (
  xs ++ ys,
  f ∙ ap (λ es. es ++ ys) e ∙ append_assoc a.published xs ys,
  All-append (λ event. event.1 ≡ listeners) xs ys all_xs all_ys,
)

-- What a call does to who is told.
abbrev Tells : List ℕ → Bool → Observer → Observer → Type 0
Tells listeners closing o o' =
    Sent listeners o o' × (is_closed o' ≡ is_closed o || closing) × Hears listeners o'

close-Tells :
    (listeners : List ℕ) (error : WalError) (o : Observer)
    → Hears listeners o
    → Tells listeners true o (close error o)
unfolding close
close-Tells listeners error o h = elim (Bool-cases (is_closed o)) [
  | inl e ↦ rw (close, e) (Sent-refl listeners o, e, λ alive. absurd (ground arith))
  | inr e ↦
      rw (close, e)
        (
          (
            (wal_closed (record o.status { closed_reason = some error }), o.listeners) ∷ [],
            refl,
            (h e, tt),
          ),
          refl,
          λ alive. absurd (ground arith),
        )
]

committed-Tells :
    (listeners : List ℕ) (position : Position) (o : Observer)
    → Hears listeners o
    → Tells listeners false o (committed position o)
unfolding committed
committed-Tells listeners position o h =
    elim (Bool-cases (is_closed o || leb position.wal_id o.status.last_flushed_wal_id)) [
      | inl e ↦ rw (committed, e) (Sent-refl listeners o, ground arith, h)
      | inr e ↦
          let alive : is_closed o ≡ false = ground arith in
          rw (committed, e)
            (
              ((wal_flushed (commit_now position o).status, o.listeners) ∷ [], refl, (h alive, tt)),
              ground arith,
              h,
            )
    ]

committed_some-Tells :
    (listeners : List ℕ) (position : Option Position) (o : Observer)
    → Hears listeners o
    → Tells listeners false o (committed_some position o)
committed_some-Tells listeners none o h = (Sent-refl listeners o, ground arith, h)
committed_some-Tells listeners (some position) o h = committed-Tells listeners position o h

close_some-Tells :
    (listeners : List ℕ) (error : Option WalError) (o : Observer)
    → Hears listeners o
    → Tells listeners (is_some error) o (close_some error o)
close_some-Tells listeners none o h = (Sent-refl listeners o, ground arith, h)
close_some-Tells listeners (some error) o h = close-Tells listeners error o h

progress-Tells :
    (listeners : List ℕ) (p : Progress) (o : Observer)
    → Hears listeners o
    → Tells listeners (is_some p.failure) o (progress p o)
unfolding progress
progress-Tells listeners p o h =
    let middle = committed_some p.committed o in
    let (sent, same, heard) = committed_some-Tells listeners p.committed o h in
    let (sent', closed, heard') = close_some-Tells listeners p.failure middle heard in
    (Sent-trans listeners o middle (close_some p.failure middle) sent sent', ground arith, heard')

subscribed-listeners :
    (listener : ℕ) (reason : Option WalError) (o : Observer) (listeners : List ℕ)
    → o.listeners ≡ listeners
    → is_some reason ≡ false
    → (subscribed (subscribe_at reason listener o) o).listeners ≡ listeners ++ (listener ∷ [])
subscribed-listeners listener none o listeners h open_now = ap (λ ls. ls ++ (listener ∷ [])) h
subscribed-listeners listener (some e) o listeners h open_now = absurd (ground arith)

subscribed-status :
    (listener : ℕ) (reason : Option WalError) (o : Observer)
    → ((subscribed (subscribe_at reason listener o) o).status ≡ o.status)
      × ((subscribed (subscribe_at reason listener o) o).published ≡ o.published)
subscribed-status listener none o = (refl, refl)
subscribed-status listener (some e) o = (refl, refl)

-- A call by which nobody joins.
nobody_joins :
    (listeners : List ℕ) (closing : Bool) (o o' : Observer)
    → Tells listeners closing o o'
    → Hears (listeners ++ (if is_closed o then [] else [])) o'
nobody_joins listeners closing o o' (_, _, heard) alive = elim (Bool-cases (is_closed o)) [
  | inl e ↦ rw (e, append-nil listeners) (heard alive)
  | inr e ↦ rw (e, append-nil listeners) (heard alive)
]

quiet :
    (listeners : List ℕ) (closing : Bool) (o o' : Observer)
    → Tells listeners closing o o'
    → Sent listeners o o'
      × (is_closed o' ≡ is_closed o || closing)
      × Hears (listeners ++ (if is_closed o then [] else [])) o'
quiet listeners closing o o' tells = (tells.0, tells.1, nobody_joins listeners closing o o' tells)

step-Tells :
    (listeners : List ℕ) (call : Call) (o : Observer)
    → Hears listeners o
    → Sent listeners o (step call o)
      × (is_closed (step call o) ≡ is_closed o || ends call)
      × Hears (listeners ++ (if is_closed o then [] else joins call)) (step call o)
unfolding step admitted subscribe
step-Tells listeners (closes error) o h =
    quiet listeners true o (close error o) (close-Tells listeners error o h)
step-Tells listeners (admits n) o h =
    quiet listeners false o (admitted n o) (Sent-refl listeners o, ground arith, h)
step-Tells listeners (commits position) o h =
    quiet listeners false o (committed position o) (committed-Tells listeners position o h)
step-Tells listeners (progresses p) o h =
    quiet listeners (is_some p.failure) o (progress p o) (progress-Tells listeners p o h)
step-Tells listeners (subscribes listener) o h =
    let o' = subscribed (subscribe_at o.status.closed_reason listener o) o in
    let (status, published) = subscribed-status listener o.status.closed_reason o in
    let closed : is_closed o' ≡ is_closed o =
      ap (λ (s : WalStatus). is_some s.closed_reason) status in
    (
      ([], published ∙ sym (append-nil o.published), tt),
      ground arith,
      λ alive.
          let before : is_closed o ≡ false = sym closed ∙ alive in
          rw before
            (subscribed-listeners listener o.status.closed_reason o listeners (h before) before),
    )

run-Hears :
    (calls : List Call) (listeners : List ℕ) (o : Observer)
    → Hears listeners o
    → Hears (listeners ++ joined (is_closed o) calls) (run calls o)
unfolding run
run-Hears [] listeners o h = λ alive. h alive ∙ sym (append-nil listeners)
run-Hears (call ∷ calls) listeners o h =
    let new_ones = if is_closed o then [] else joins call in
    let (_, closed, heard) = step-Tells listeners call o h in
    let rest = run-Hears calls (listeners ++ new_ones) (step call o) heard in
    λ alive.
      rest alive
      ∙ ap (λ b. (listeners ++ new_ones) ++ joined b calls) closed
      ∙ append_assoc listeners new_ones (joined (is_closed o || ends call) calls)

-- After any calls of a new observer, what has been published is flushes of ever larger ids, the last of
-- which the status shows, and once closed one close after them all, which shows the same id; and what
-- the next call publishes goes to exactly the listeners that have subscribed before, in order, unless a
-- call has closed before them.
pub run-Told :
    (start : ℕ) (calls : List Call) (call : Call)
    → Told start (run calls (new start))
      × Sent (joined false calls) (run calls (new start)) (step call (run calls (new start)))
run-Told start calls call =
    let o = run calls (new start) in
    (
      run-keeps start calls (new start) (refl, refl),
      (step-Tells (joined false calls) call o (run-Hears calls [] (new start) (λ alive. refl))).0,
    )
