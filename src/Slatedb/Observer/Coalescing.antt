-- ===== src/Slatedb/Observer/Coalescing.antt =====
-- `forward` of rust/client/src/slatedb/progress.rs skips the snapshots that are replaced before it looks.
use mathlib.Core.Path.{subst}
use chorus.Prelude.{
  ℕ, ◌+◌, ◌≤◌, ◌<◌, ◌≡◌, refl, sym, ap, ◌∙◌, ◌⊎◌, inl, inr, Option, none, some, List, [], ◌∷◌,
  arith, ◌==◌, Bool-cases, Result, ok, err,
}
use chorus.Errors.{Error}
use chorus.Slatedb.{WalError, internal_error, wal_error}
use chorus.Slatedb.Progress.{Position, Progress, completion}
use chorus.Slatedb.Observer.{
  Observer, is_closed, close, committed, committed_some, close_some, progress,
}
use chorus.Slatedb.Observer.Commits.{
  forget, progress-closed, close-closes, committed-again, committed-later,
}

-- Forward the snapshot before each completion and after the last one.
unfoldable pub forward_each : List (Position × Result Error ℕ) → Progress → Observer → Observer
unfolding completion progress
forward_each [] p o = progress p o
forward_each ((position, result) ∷ rest) p o =
    forward_each rest (completion position result p) (progress p o)

unfoldable pub latest : List (Position × Result Error ℕ) → Progress → Progress
unfolding completion
latest [] p = p
latest ((position, result) ∷ rest) p = latest rest (completion position result p)

-- The ids ascend from a bound.
abbrev pub Ascending : ℕ → List (Position × Result Error ℕ) → Type 0
Ascending last [] = Unit {0}
Ascending last ((position, result) ∷ rest) =
    (last < position.wal_id) × Ascending position.wal_id rest

abbrev pub AtMost : Option Position → ℕ → Type 0
AtMost none last = Unit {0}
AtMost (some position) last = position.wal_id ≤ last

abbrev snapshot : Option Position → Option WalError → Progress
snapshot committed failure = record { committed = committed; failure = failure }

failed-twice :
    (c : Option Position) (e : WalError) (o : Observer)
    → progress (snapshot c (some e)) (progress (snapshot c (some e)) o)
      ≡ progress (snapshot c (some e)) o
unfolding progress
failed-twice c e o =
    progress-closed (snapshot c (some e)) (progress (snapshot c (some e)) o)
      (close-closes e (committed_some c o))

close_some-forget :
    (e : Option WalError) (o : Observer)
    → forget (close_some e o) ≡ forget (close_some e (forget o))
unfolding close
close_some-forget none o = refl
close_some-forget (some e) o = elim (Bool-cases (is_closed o)) [
  | inl closed ↦ rw (close, closed) refl
  | inr alive ↦ rw (close, alive) refl
]

-- The position is later than a bound.
abbrev Later : Option Position → ℕ → Type 0
Later none last = ⊥
Later (some position) last = last < position.wal_id

committed-absorbs :
    (c c' : Option Position) (last : ℕ) (o : Observer)
    → AtMost c last
    → (c' ≡ c) ⊎ Later c' last
    → forget (committed_some c' (committed_some c o)) ≡ forget (committed_some c' o)
committed-absorbs none c' last o at_most _ = refl
committed-absorbs (some q) c' last o at_most (inl same) =
    subst (λ x. forget (committed_some x (committed q o)) ≡ forget (committed_some x o)) (sym same)
      (ap forget (committed-again q o))
committed-absorbs (some q) none last o at_most (inr later) = absurd later
committed-absorbs (some q) (some position) last o at_most (inr later) =
    committed-later q position o (omega arith)

absorbs :
    (c : Option Position) (p : Progress) (last : ℕ) (o : Observer)
    → AtMost c last
    → (p.committed ≡ c) ⊎ Later p.committed last
    → forget (progress p (progress (snapshot c none) o)) ≡ forget (progress p o)
unfolding progress
absorbs c p last o at_most later =
    close_some-forget p.failure (committed_some p.committed (committed_some c o))
    ∙ ap (λ o'. forget (close_some p.failure o'))
        (committed-absorbs c p.committed last o at_most later)
    ∙ sym (close_some-forget p.failure (committed_some p.committed o))

latest-failed :
    (cs : List (Position × Result Error ℕ)) (c : Option Position) (e : WalError)
    → latest cs (snapshot c (some e)) ≡ snapshot c (some e)
unfolding latest completion
latest-failed [] c e = refl
latest-failed ((position, result) ∷ rest) c e = latest-failed rest c e

Later-weaken :
    (c : Option Position) (position : Position) (last : ℕ)
    → last < position.wal_id
    → (c ≡ some position) ⊎ Later c position.wal_id
    → Later c last
Later-weaken c position last h (inl same) = subst (λ x. Later x last) (sym same) h
Later-weaken none position last h (inr later) = absurd later
Later-weaken (some q) position last h (inr later) = omega arith

latest-Later :
    (cs : List (Position × Result Error ℕ)) (c : Option Position) (last : ℕ)
    → Ascending last cs
    → ((latest cs (snapshot c none)).committed ≡ c)
      ⊎ Later (latest cs (snapshot c none)).committed last
unfolding latest completion
latest-Later [] c last up = inl refl
latest-Later ((position, err error) ∷ rest) c last up =
    inl (ap Progress.committed (latest-failed rest c (wal_error error)))
latest-Later ((position, ok seqno) ∷ rest) c last (above, up) =
    let Goal : Progress → Type 0 =
      λ p. ((latest rest p).committed ≡ c) ⊎ Later (latest rest p).committed last in
    elim (Bool-cases (seqno + 1 == position.wal_id)) [
      | inl e ↦
          let next : completion position (ok seqno) (snapshot c none)
              ≡ snapshot (some position) none =
            rw (completion, e) refl in
          subst Goal (sym next) (
            inr (
              Later-weaken (latest rest (snapshot (some position) none)).committed position last
                above (latest-Later rest (some position) position.wal_id up)))
      | inr e ↦
          let mismatch = internal_error "WAL completion position mismatch" in
          let next : completion position (ok seqno) (snapshot c none) ≡ snapshot c (some mismatch) =
            rw (completion, e) refl in
          subst Goal (sym next) (inl (ap Progress.committed (latest-failed rest c mismatch)))
    ]

completion-AtMost :
    (position : Position) (result : Result Error ℕ) (c : Option Position)
    (failure : Option WalError) (last : ℕ)
    → AtMost c last
    → last < position.wal_id
    → AtMost (completion position result (snapshot c failure)).committed position.wal_id
unfolding completion
completion-AtMost position result none (some e) last h above = tt
completion-AtMost position result (some q) (some e) last h above = omega arith
completion-AtMost position (err error) none none last h above = tt
completion-AtMost position (err error) (some q) none last h above = omega arith
completion-AtMost position (ok seqno) none none last h above =
    elim (Bool-cases (seqno + 1 == position.wal_id)) [
      | inl e ↦ rw e (omega arith)
      | inr e ↦ rw e tt
    ]
completion-AtMost position (ok seqno) (some q) none last h above =
    elim (Bool-cases (seqno + 1 == position.wal_id)) [
      | inl e ↦ rw e (omega arith)
      | inr e ↦ rw e (omega arith)
    ]

latest-absorbs :
    (cs : List (Position × Result Error ℕ)) (c : Option Position) (failure : Option WalError)
    (last : ℕ) (o : Observer)
    → AtMost c last
    → Ascending last cs
    → forget (progress (latest cs (snapshot c failure)) (progress (snapshot c failure) o))
      ≡ forget (progress (latest cs (snapshot c failure)) o)
latest-absorbs cs c (some e) last o at_most up =
    subst (λ p. forget (progress p (progress (snapshot c (some e)) o)) ≡ forget (progress p o))
      (sym (latest-failed cs c e)) (ap forget (failed-twice c e o))
latest-absorbs cs c none last o at_most up =
    absorbs c (latest cs (snapshot c none)) last o at_most (latest-Later cs c last up)

-- With positions of ascending ids, all above the one in the first snapshot, forwarding the last snapshot
-- alone leaves the observer as forwarding every snapshot does, but for the events in between.
pub forward_each-latest :
    (cs : List (Position × Result Error ℕ)) (p : Progress) (last : ℕ) (o : Observer)
    → AtMost p.committed last
    → Ascending last cs
    → forget (forward_each cs p o) ≡ forget (progress (latest cs p) o)
unfolding forward_each latest
forward_each-latest [] p last o at_most up = refl
forward_each-latest ((position, result) ∷ rest) p last o at_most (above, up) =
    forward_each-latest rest (completion position result p) position.wal_id (progress p o)
      (completion-AtMost position result p.committed p.failure last at_most above) up
    ∙ latest-absorbs ((position, result) ∷ rest) p.committed p.failure last o at_most (above, up)
