-- ===== src/Engine/Rotation/Diagram.antt =====
-- Runs of the rotation control in rust/client/src/engine.rs, with the one piece of background work that
-- may be outstanding.
use mathlib.Core.Path.{subst}
use chorus.Prelude.{
  ℕ, ◌<◌, ◌≡◌, refl, ◌≢◌, inl, inr, Bool, true, false, not, ◌&&◌, ◌||◌, Option, none, some, arith,
  Bool-cases, Result, ok, err,
}
use chorus.Errors.{Error}
use chorus.Engine.Rotation.{
  FoldAnswers, folded, is_none, fences, has_pending_fold, failed, is_directory_full, arm_fold_retry,
  Draining, fold_ready, set_capacity_block, work_failed, swap_ready, Step, provisioned, clear_retry,
  sealed, swap, request, folds, next_attempt, fold_done, recheck, draining, Provisioned, mark_due,
  Attempt, Rotation, Control,
}

-- The arms of the engine's wait, and the parts of its loop that move rotation. A provisioner answers
-- the work that it was given.
pub data Event : Type 0 where
  completed : Bool → Event
  rechecked : ℕ → Result Error Bool → Event
  swapped : Bool → Bool → Result Error (Option (ℕ × ℕ)) → Event
  seal_wake : Bool → Bool → Event
  retry_elapsed : Event
  recheck_asked : Event
  recheck_elapsed : Event
  spare_elapsed : Event
  answered : ℕ → Bool → Provisioned → Event

unfoldable pub handle : Event → Control → Step
unfolding mark_due recheck swap sealed clear_retry provisioned
handle (completed is_due) c = (none, record c { rotation = mark_due is_due c.rotation })
handle (rechecked retry_base answer) c = (none, recheck retry_base answer c)
handle (swapped spare_ready boundary_ready answer) c = swap spare_ready boundary_ready answer c
handle (seal_wake enforced is_due) c = sealed enforced is_due c
handle retry_elapsed c = (none, record c { rotation = clear_retry c.rotation })
handle recheck_asked c =
    (none, record c { recheck_due = true; recheck_attempts = 0; recheck_retry = none })
handle recheck_elapsed c = (none, record c { recheck_due = true; recheck_retry = none })
handle spare_elapsed c = (none, record c { spare_retry = none })
handle (answered retry_base spare_ready result) c = provisioned retry_base spare_ready result c

-- Rotation drains a swap.
abbrev pub Drains : ℕ → ℕ → Rotation → Type 0
Drains swap_id end (draining d) = (d.swap_id ≡ swap_id) × (d.end_record_index ≡ end)
Drains swap_id end _ = ⊥

abbrev pub is_sealing : Rotation → Bool
is_sealing Rotation.sealing = true
is_sealing _ = false

-- Whether an event may come: only a sealing rotation is woken by its seal, and the result of a fold
-- answers a fold.
abbrev pub May : Event → Rotation → Option Attempt → Type 0
May (seal_wake _ _) r outstanding = is_sealing r ≡ true
May (answered _ _ (fold_done _)) r outstanding = outstanding ≡ some folds
May (answered _ _ _) r outstanding = outstanding ≢ none
May _ r outstanding = Unit {0}

abbrev pub after_event : Event → Option Attempt → Option Attempt
after_event (answered _ _ _) outstanding = none
after_event _ outstanding = outstanding

-- Work is requested while none is outstanding; then it is.
pub data Runs : Control → Option Attempt → Type 0 where
  started : (c : Control) → c.spare_requested ≡ false → Runs c none
  requested :
      {c : Control} {outstanding : Option Attempt} (next_completion : ℕ)
      (unregistered_spare_ready spare_wanted : Bool) (attempt : Attempt)
      → next_attempt next_completion unregistered_spare_ready spare_wanted c ≡ some attempt
      → Runs c outstanding
      → Runs (request (some attempt) true c) (some attempt)
  happened :
      {c : Control} {outstanding : Option Attempt} (event : Event) (c' : Control)
      → May event c.rotation outstanding
      → handle event c ≡ (none, c')
      → Runs c outstanding
      → Runs c' (after_event event outstanding)

-- The event is not the result of a fold.
abbrev pub NotFold : Event → Type 0
NotFold (answered _ _ (fold_done _)) = ⊥
NotFold _ = Unit {0}

module _ (swap_id end : ℕ) where
  Drains-elim :
      (P : Rotation → Type 0)
      → ((d : Draining) → d.swap_id ≡ swap_id → d.end_record_index ≡ end → P (draining d))
      → (r : Rotation) → Drains swap_id end r
      → P r
  Drains-elim P f (draining d) (same, same_end) = f d same same_end
  Drains-elim P f Rotation.idle h = absurd h
  Drains-elim P f Rotation.due h = absurd h
  Drains-elim P f Rotation.sealing h = absurd h

  mark_due-Drains :
      (b : Bool) (r : Rotation) → Drains swap_id end r → Drains swap_id end (mark_due b r)
  unfolding mark_due
  mark_due-Drains true = Drains-elim (λ r. Drains swap_id end (mark_due true r)) (λ d p q. (p, q))
  mark_due-Drains false = Drains-elim (λ r. Drains swap_id end (mark_due false r)) (λ d p q. (p, q))

  set_capacity_block-Drains :
      (b : Bool) (r : Rotation) → Drains swap_id end r → Drains swap_id end (set_capacity_block b r)
  unfolding set_capacity_block
  set_capacity_block-Drains b =
      Drains-elim (λ r. Drains swap_id end (set_capacity_block b r)) (λ d p q. (p, q))

  clear_retry-Drains : (r : Rotation) → Drains swap_id end r → Drains swap_id end (clear_retry r)
  unfolding clear_retry
  clear_retry-Drains = Drains-elim (λ r. Drains swap_id end (clear_retry r)) (λ d p q. (p, q))

  arm_fold_retry-Drains :
      (base : ℕ) (r : Rotation) → Drains swap_id end r → Drains swap_id end (arm_fold_retry base r)
  unfolding arm_fold_retry
  arm_fold_retry-Drains base =
      Drains-elim (λ r. Drains swap_id end (arm_fold_retry base r)) (λ d p q. (p, q))

  not_swap_ready : (r : Rotation) → Drains swap_id end r → swap_ready r ≡ false
  not_swap_ready = Drains-elim (λ r. swap_ready r ≡ false) (λ d p q. refl)

  not_sealing : (r : Rotation) → Drains swap_id end r → is_sealing r ≡ false
  not_sealing = Drains-elim (λ r. is_sealing r ≡ false) (λ d p q. refl)

work_failed-Drains :
    (base : ℕ) (ready : Bool) (error : Error) (c : Control) (swap_id end : ℕ)
    → Drains swap_id end c.rotation
    → Drains swap_id end (work_failed base ready error c).1.rotation
unfolding work_failed
work_failed-Drains base ready error c swap_id end h =
    elim (Bool-cases (is_directory_full error && has_pending_fold c.rotation)) [
      | inl e ↦ rw e (set_capacity_block-Drains swap_id end true c.rotation h)
      | inr e ↦ elim (Bool-cases (fences error)) [
        | inl e' ↦ rw (e, e') h
        | inr e' ↦ elim (Bool-cases (has_pending_fold c.rotation && ready)) [
          | inl e'' ↦ rw (e, e', e'') (arm_fold_retry-Drains swap_id end base c.rotation h)
          | inr e'' ↦ rw (e, e', e'') h
        ]
      ]
    ]

-- Of the events that may come, none but the result of a fold takes a rotation out of the swap that it
-- drains, or changes that swap's id or end.
pub handle-Drains :
    (event : Event) (c : Control) (outstanding : Option Attempt) (swap_id end : ℕ)
    → May event c.rotation outstanding
    → NotFold event
    → Drains swap_id end c.rotation
    → Drains swap_id end (handle event c).1.rotation
unfolding handle recheck swap sealed provisioned
handle-Drains (completed b) c outstanding swap_id end may other h =
    mark_due-Drains swap_id end b c.rotation h
handle-Drains (rechecked base (ok b)) c outstanding swap_id end may other h =
    mark_due-Drains swap_id end b (set_capacity_block false c.rotation)
      (set_capacity_block-Drains swap_id end false c.rotation h)
handle-Drains (rechecked base (err e)) c outstanding swap_id end may other h = h
handle-Drains (swapped ready boundary answer) c outstanding swap_id end may other h =
    rw (not_swap_ready swap_id end c.rotation h) h
handle-Drains (seal_wake enforced b) c outstanding swap_id end may other h =
    absurd (let no_seal = not_sealing swap_id end c.rotation h in ground arith)
handle-Drains retry_elapsed c outstanding swap_id end may other h =
    clear_retry-Drains swap_id end c.rotation h
handle-Drains recheck_asked c outstanding swap_id end may other h = h
handle-Drains recheck_elapsed c outstanding swap_id end may other h = h
handle-Drains spare_elapsed c outstanding swap_id end may other h = h
handle-Drains (answered base ready Provisioned.registered) c outstanding swap_id end may other h = h
handle-Drains (answered base ready Provisioned.unregistered) c outstanding swap_id end may other h =
    h
handle-Drains (answered base ready (fold_done a)) c outstanding swap_id end may other h =
    absurd other
handle-Drains (answered base ready (failed e)) c outstanding swap_id end may other h =
    work_failed-Drains base ready e (record c { spare_requested = false }) swap_id end h
handle-Drains (answered base ready Provisioned.stopped) c outstanding swap_id end may other h = h

fold_ready-Drains :
    (next_completion : ℕ) (r : Rotation)
    → fold_ready next_completion r ≡ true
    → (d : Draining) × (r ≡ draining d)
      × (d.end_record_index < next_completion)
      × (d.retry ≡ none)
      × (d.fold_capacity_blocked ≡ false)
unfolding fold_ready
fold_ready-Drains next_completion (draining d) h =
    (d, refl, ground arith, ground arith, ground arith)
fold_ready-Drains next_completion Rotation.idle h = absurd (ground arith)
fold_ready-Drains next_completion Rotation.due h = absurd (ground arith)
fold_ready-Drains next_completion Rotation.sealing h = absurd (ground arith)

-- A fold is requested for a swap that drains, whose records have completed.
next_attempt-folds :
    (next_completion : ℕ) (ready wanted : Bool) (c : Control)
    → next_attempt next_completion ready wanted c ≡ some folds
    → (c.spare_requested ≡ false)
      × ((d : Draining) × (c.rotation ≡ draining d)
          × (d.end_record_index < next_completion)
          × (d.retry ≡ none)
          × (d.fold_capacity_blocked ≡ false))
unfolding next_attempt
next_attempt-folds next_completion ready wanted c h =
    elim (Bool-cases (c.spare_requested || not (is_none c.spare_retry))) [
      | inl e ↦ absurd (ground arith)
      | inr e ↦ elim (Bool-cases (fold_ready next_completion c.rotation && ready)) [
        | inl e' ↦ (ground arith, fold_ready-Drains next_completion c.rotation (ground arith))
        | inr e' ↦ absurd (ground arith)
      ]
    ]

-- Fold work that is outstanding has a swap to fold.
abbrev FoldHasSwap : Control → Option Attempt → Type 0
FoldHasSwap c (some folds) = (swap_id : ℕ) × (end : ℕ) × Drains swap_id end c.rotation
FoldHasSwap c _ = Unit {0}

request-FoldHasSwap :
    (next_completion : ℕ) (ready wanted : Bool) (c : Control) (attempt : Attempt)
    → next_attempt next_completion ready wanted c ≡ some attempt
    → FoldHasSwap (request (some attempt) true c) (some attempt)
request-FoldHasSwap next_completion ready wanted c folds e =
    let (_, (d, same, _, _, _)) = next_attempt-folds next_completion ready wanted c e in
    (d.swap_id, d.end_record_index, rw same (refl, refl))
request-FoldHasSwap next_completion ready wanted c Attempt.provisions_unregistered e = tt
request-FoldHasSwap next_completion ready wanted c Attempt.provisions_registered e = tt

after_event-FoldHasSwap :
    (event : Event) (c : Control) (outstanding : Option Attempt)
    → (NotFold event → FoldHasSwap c outstanding)
    → FoldHasSwap c (after_event event outstanding)
after_event-FoldHasSwap (completed _) c outstanding f = f tt
after_event-FoldHasSwap (rechecked _ _) c outstanding f = f tt
after_event-FoldHasSwap (swapped _ _ _) c outstanding f = f tt
after_event-FoldHasSwap (seal_wake _ _) c outstanding f = f tt
after_event-FoldHasSwap retry_elapsed c outstanding f = f tt
after_event-FoldHasSwap recheck_asked c outstanding f = f tt
after_event-FoldHasSwap recheck_elapsed c outstanding f = f tt
after_event-FoldHasSwap spare_elapsed c outstanding f = f tt
after_event-FoldHasSwap (answered _ _ _) c outstanding f = tt

handle-FoldHasSwap :
    (event : Event) (c c' : Control) (outstanding : Option Attempt)
    → May event c.rotation outstanding
    → handle event c ≡ (none, c')
    → FoldHasSwap c outstanding
    → NotFold event
    → FoldHasSwap c' outstanding
handle-FoldHasSwap event c c' none may e has other = tt
handle-FoldHasSwap event c c' (some folds) may e (swap_id, end, drains) other = (
  swap_id,
  end,
  subst (λ step. Drains swap_id end step.1.rotation) e
      (handle-Drains event c (some folds) swap_id end may other drains),
)
handle-FoldHasSwap event c c' (some Attempt.provisions_unregistered) may e has other = tt
handle-FoldHasSwap event c c' (some Attempt.provisions_registered) may e has other = tt

Runs-FoldHasSwap :
    (c : Control) (outstanding : Option Attempt) → Runs c outstanding → FoldHasSwap c outstanding
Runs-FoldHasSwap c outstanding (started _ _) = tt
Runs-FoldHasSwap c outstanding (requested {c = before} next_completion ready wanted attempt e run) =
    request-FoldHasSwap next_completion ready wanted before attempt e
Runs-FoldHasSwap c outstanding (happened {c = before} {outstanding = o} event _ may e run) =
    after_event-FoldHasSwap event c o
      (handle-FoldHasSwap event before c o may e (Runs-FoldHasSwap before o run))

folded_lands :
    (a : FoldAnswers) (r : Rotation) (c : Control) (swap_id end : ℕ)
    → a.confirmed ≡ ok tt
    → a.queued ≡ true
    → Drains swap_id end r
    → (folded a r c).0 ≡ none
unfolding folded
folded_lands a r c swap_id end confirmed queued =
    Drains-elim swap_id end (λ r'. (folded a r' c).0 ≡ none)
      (λ d _ _. elim (Bool-cases a.has_segment) [
        | inl e ↦ rw (folded, confirmed, e, queued)
        | inr e ↦ rw (folded, confirmed, e)
      ])
      r

-- In every run the result of a fold finds the swap that it folds: where the writer confirms the fold and
-- maintenance takes the segment, the engine goes on.
pub Runs-fold_done :
    (c : Control) (retry_base : ℕ) (spare_ready : Bool) (a : FoldAnswers)
    → Runs c (some folds)
    → a.confirmed ≡ ok tt
    → a.queued ≡ true
    → (handle (answered retry_base spare_ready (fold_done a)) c).0 ≡ none
unfolding handle provisioned
Runs-fold_done c retry_base spare_ready a run confirmed queued =
    let (swap_id, end, drains) = Runs-FoldHasSwap c (some folds) run in
    folded_lands a c.rotation (record c { spare_requested = false }) swap_id end confirmed queued
      drains
