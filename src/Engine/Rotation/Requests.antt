-- ===== src/Engine/Rotation/Requests.antt =====
-- The background work of rust/client/src/engine.rs: at most one piece of it is outstanding.
use mathlib.Core.Path.{subst}
use chorus.Prelude.{
  is_some, ℕ, ◌≡◌, refl, sym, ◌∙◌, inl, inr, Bool, true, false, ◌&&◌, Option, none, some, arith,
  Bool-cases, Result, ok, err, Result-cases,
}
use chorus.Errors.{Error}
use chorus.Engine.Rotation.{
  Rotation, Control, FoldAnswers, folded, draining, fences, is_directory_full, has_pending_fold,
  work_failed, swap, swap_ready, after_swap, sealed, recheck, provisioned, Provisioned, fold_done,
  failed, request, next_attempt, Attempt,
}
use chorus.Engine.Rotation.Diagram.{
  Event, completed, rechecked, swapped, seal_wake, retry_elapsed, recheck_asked, recheck_elapsed,
  spare_elapsed, answered, handle, Runs, after_event,
}

folded-requested :
    (a : FoldAnswers) (r : Rotation) (c : Control)
    → (folded a r c).1.spare_requested ≡ c.spare_requested
unfolding folded
folded-requested a Rotation.idle c = refl
folded-requested a Rotation.due c = refl
folded-requested a Rotation.sealing c = refl
folded-requested a (draining d) c = elim (Result-cases a.confirmed) [
  | inr (error, e) ↦ rw (folded, e) refl
  | inl (_, e) ↦ elim (Bool-cases a.has_segment) [
    | inr e' ↦ rw (folded, e, e') refl
    | inl e' ↦ elim (Bool-cases a.queued) [
      | inl e'' ↦ rw (folded, e, e', e'') refl
      | inr e'' ↦ rw (folded, e, e', e'') refl
    ]
  ]
]

work_failed-requested :
    (base : ℕ) (ready : Bool) (error : Error) (c : Control)
    → (work_failed base ready error c).1.spare_requested ≡ c.spare_requested
unfolding work_failed
work_failed-requested base ready error c =
    elim (Bool-cases (is_directory_full error && has_pending_fold c.rotation)) [
      | inl e ↦ rw e refl
      | inr e ↦ elim (Bool-cases (fences error)) [
        | inl e' ↦ rw (e, e') refl
        | inr e' ↦ elim (Bool-cases (has_pending_fold c.rotation && ready)) [
          | inl e'' ↦ rw (e, e', e'') refl
          | inr e'' ↦ rw (e, e', e'') refl
        ]
      ]
    ]

swap-requested :
    (ready boundary : Bool) (answer : Result Error (Option (ℕ × ℕ))) (c : Control)
    → (swap ready boundary answer c).1.spare_requested ≡ c.spare_requested
unfolding swap
swap-requested ready boundary answer c =
    elim (Bool-cases (swap_ready c.rotation && (ready && boundary))) [
      | inr e ↦ rw e refl
      | inl e ↦ rw e (after answer)
    ]
  where
    after :
        (answer : Result Error (Option (ℕ × ℕ)))
        → (after_swap answer c).1.spare_requested ≡ c.spare_requested
    after (ok (some (swap_id, end))) = refl
    after (ok none) = refl
    after (err error) = refl

-- Work is marked as requested exactly while some is outstanding.
abbrev Marked : Control → Option Attempt → Type 0
Marked c outstanding = c.spare_requested ≡ is_some outstanding

handle-Marked :
    (event : Event) (c : Control) (outstanding : Option Attempt)
    → Marked c outstanding
    → Marked (handle event c).1 (after_event event outstanding)
unfolding handle recheck sealed provisioned
handle-Marked (completed b) c outstanding h = h
handle-Marked (rechecked base (ok b)) c outstanding h = h
handle-Marked (rechecked base (err e)) c outstanding h = h
handle-Marked (swapped ready boundary answer) c outstanding h =
    swap-requested ready boundary answer c ∙ h
handle-Marked (seal_wake true b) c outstanding h = h
handle-Marked (seal_wake false b) c outstanding h = h
handle-Marked retry_elapsed c outstanding h = h
handle-Marked recheck_asked c outstanding h = h
handle-Marked recheck_elapsed c outstanding h = h
handle-Marked spare_elapsed c outstanding h = h
handle-Marked (answered base ready Provisioned.registered) c outstanding h = refl
handle-Marked (answered base ready Provisioned.unregistered) c outstanding h = refl
handle-Marked (answered base ready (fold_done a)) c outstanding h =
    folded-requested a c.rotation (record c { spare_requested = false })
handle-Marked (answered base ready (failed e)) c outstanding h =
    work_failed-requested base ready e (record c { spare_requested = false })
handle-Marked (answered base ready Provisioned.stopped) c outstanding h = refl

Runs-Marked :
    (c : Control) (outstanding : Option Attempt) → Runs c outstanding → Marked c outstanding
Runs-Marked c outstanding (Runs.started _ e) = e
Runs-Marked c outstanding (Runs.requested {c = before} n ready wanted attempt e run) = refl
Runs-Marked c outstanding (Runs.happened {c = before} {outstanding = o} event _ may e run) =
    subst (λ step. Marked step.1 (after_event event o)) e
      (handle-Marked event before o (Runs-Marked before o run))

next_attempt-requested :
    (n : ℕ) (ready wanted : Bool) (c : Control)
    → c.spare_requested ≡ true
    → next_attempt n ready wanted c ≡ none
unfolding next_attempt
next_attempt-requested n ready wanted c h = rw h refl

none_outstanding : (o : Option Attempt) → is_some o ≡ false → o ≡ none
none_outstanding none h = refl
none_outstanding (some a) h = absurd (ground arith)

-- In every run, work is requested of the provisioner only while none is outstanding; and once it is
-- requested no other work is, whatever has completed and whichever spares are ready or wanted.
pub Runs-next_attempt :
    (c : Control) (outstanding : Option Attempt) (n : ℕ) (ready wanted : Bool) (attempt : Attempt)
    → Runs c outstanding
    → next_attempt n ready wanted c ≡ some attempt
    → (outstanding ≡ none)
      × ((n' : ℕ) (ready' wanted' : Bool)
          → next_attempt n' ready' wanted' (request (some attempt) true c) ≡ none)
Runs-next_attempt c outstanding n ready wanted attempt run e =
    let marked = Runs-Marked c outstanding run in
    (
      elim (Bool-cases c.spare_requested) [
        | inl busy ↦
            absurd (let idle = next_attempt-requested n ready wanted c busy in ground arith)
        | inr idle ↦ none_outstanding outstanding (sym marked ∙ idle)
      ],
      λ n' ready' wanted'.
          next_attempt-requested n' ready' wanted' (request (some attempt) true c) refl,
    )
