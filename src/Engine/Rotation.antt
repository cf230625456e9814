-- ===== src/Engine/Rotation.antt =====
-- Rotation in rust/client/src/engine.rs: the state of the segment that is due, draining or sealing, and
-- the arms of the engine's wait that move it. What the segmented writer, the provisioner and the
-- maintenance task answer are arguments. A duration is a number of nanoseconds, a timer its delay.
pub mod Diagram
pub mod Requests
use chorus.Prelude.{
  ℕ, zero, suc, ◌+◌, ◌-◌, ◌*◌, ◌/◌, ◌%◌, ◌^◌, ◌≤◌, ◌<◌, min, max, ◌≡◌, refl, sym, ap, ◌∙◌, ◌≢◌, ◌↔◌,
  ◌⊎◌, inl, inr, Bool, true, false, not, ◌&&◌, ◌||◌, Option, none, some, List, [], ◌∷◌, ◌++◌, map,
  append_assoc, append-nil, String, arith, ltb, leb, ◌==◌, if◌then◌else◌, ltb→lt, lt→ltb, leb→le,
  le→leb, ==_iff, Bool-cases, Option-cases, u32_max, u64_max, checked_add, length, get_elem?, set,
  take, drop, All, length-append, length-drop, length-take, take-append-drop, take-append_left,
  drop-append_left, drop-nil, drop-drop, All-append, All-drop, Result, ok, err, ◌>>=◌, ◌>>◌, map_ok,
  >>=-eq-ok, Result-cases, ok-injective,
}
use chorus.Errors.{Error}

-- `PendingSwap` (segment.rs) by what rotation reads of it.
pub record Draining : Type 0 where
  pub swap_id : ℕ
  pub end_record_index : ℕ
  pub fold_attempts : ℕ
  pub retry : Option ℕ
  pub fold_capacity_blocked : Bool

pub data Rotation : Type 0 where
  idle : Rotation
  due : Rotation
  draining : Draining → Rotation
  sealing : Rotation

unfoldable pub mark_due : Bool → Rotation → Rotation
mark_due true idle = due
mark_due _ r = r

abbrev pub swap_ready : Rotation → Bool
swap_ready due = true
swap_ready _ = false

abbrev is_none : Option ℕ → Bool
is_none none = true
is_none (some _) = false

unfoldable pub fold_ready : ℕ → Rotation → Bool
fold_ready next_completion (draining d) =
    is_none d.retry && (not d.fold_capacity_blocked && ltb d.end_record_index next_completion)
fold_ready next_completion _ = false

abbrev pub has_pending_fold : Rotation → Bool
has_pending_fold (draining _) = true
has_pending_fold _ = false

abbrev pub dispatch_paused : Bool → Rotation → Bool
dispatch_paused spare_ready r = swap_ready r && spare_ready

abbrev pub duration_max : ℕ
duration_max = 18446744073709551615999999999

-- `ROTATION_MAX_RETRY_DELAY`, ten seconds.
abbrev pub rotation_max_retry_delay : ℕ
rotation_max_retry_delay = 10000000000

-- `retry_delay` (protocol.rs), with the base of the client's configuration.
unfoldable pub retry_delay : ℕ → ℕ → ℕ
retry_delay retry_base attempt = min (retry_base * 2 ^ min attempt 16) duration_max

abbrev pub backoff : ℕ → ℕ → ℕ
backoff retry_base attempt = min (retry_delay retry_base attempt) rotation_max_retry_delay

abbrev pub saturating_suc : ℕ → ℕ
saturating_suc n = if leb u64_max n then n else n + 1

unfoldable pub arm_fold_retry : ℕ → Rotation → Rotation
unfolding retry_delay
arm_fold_retry retry_base (draining d) = draining (record d {
  fold_attempts = saturating_suc d.fold_attempts;
  retry = some (backoff retry_base d.fold_attempts);
})
arm_fold_retry retry_base r = r

unfoldable pub set_capacity_block : Bool → Rotation → Rotation
set_capacity_block blocked (draining d) = draining (record d { fold_capacity_blocked = blocked })
set_capacity_block blocked r = r

unfoldable pub clear_retry : Rotation → Rotation
clear_retry (draining d) = draining (record d { retry = none })
clear_retry r = r

-- Rotation beside the state of the spare's provisioning and of the recheck after a truncation.
pub record Control : Type 0 where
  pub rotation : Rotation
  pub spare_requested : Bool
  pub spare_attempts : ℕ
  pub spare_retry : Option ℕ
  pub recheck_due : Bool
  pub recheck_attempts : ℕ
  pub recheck_retry : Option ℕ

-- A handler gives the new control, and the error for what is queued if the engine stops.
abbrev pub Step : Type 0
Step = Option Error × Control

unfoldable pub recheck : ℕ → Result Error Bool → Control → Control
unfolding mark_due set_capacity_block retry_delay
recheck retry_base (ok is_due) c = record c {
  recheck_due = false;
  recheck_attempts = 0;
  rotation = mark_due is_due (set_capacity_block false c.rotation);
}
recheck retry_base (err error) c = record c {
  recheck_due = false;
  recheck_attempts = saturating_suc c.recheck_attempts;
  recheck_retry = some (backoff retry_base c.recheck_attempts);
}

pub data Attempt : Type 0 where
  folds : Attempt
  provisions_unregistered : Attempt
  provisions_registered : Attempt

-- Which work is requested of the provisioner, if any.
unfoldable pub next_attempt : ℕ → Bool → Bool → Control → Option Attempt
unfolding fold_ready
next_attempt next_completion unregistered_spare_ready spare_wanted c =
    if c.spare_requested || not (is_none c.spare_retry)
    then none
    else if fold_ready next_completion c.rotation && unregistered_spare_ready
    then some folds
    else if spare_wanted
    then (if has_pending_fold c.rotation
        then some provisions_unregistered
        else some provisions_registered)
    else none

abbrev pub request : Option Attempt → Bool → Control → Control
request (some attempt) true c = record c { spare_requested = true }
request _ _ c = c

abbrev pub fresh_drain : ℕ → ℕ → Rotation
fresh_drain swap_id end_record_index = draining (record {
  swap_id = swap_id;
  end_record_index = end_record_index;
  fold_attempts = 0;
  retry = none;
  fold_capacity_blocked = false;
})

-- What `begin_swap` answered, where it was called.
abbrev pub after_swap : Result Error (Option (ℕ × ℕ)) → Control → Step
after_swap (ok (some (swap_id, end))) c = (none, record c { rotation = fresh_drain swap_id end })
after_swap (ok none) c = (none, record c { rotation = idle })
after_swap (err error) c = (some error, c)

unfoldable pub swap : Bool → Bool → Result Error (Option (ℕ × ℕ)) → Control → Step
swap spare_ready swap_boundary_ready answer c =
    if swap_ready c.rotation && (spare_ready && swap_boundary_ready)
    then after_swap answer c
    else (none, c)

-- The wake of a sealing rotation: the seal is enforced, or the maintenance task is gone.
unfoldable pub sealed : Bool → Bool → Control → Step
unfolding mark_due
sealed true is_due c = (none, record c { rotation = mark_due is_due idle })
sealed false is_due c = (some Error.closed, c)

pub record FoldAnswers : Type 0 where
  pub confirmed : Result Error (Unit {0})
  pub has_segment : Bool
  pub queued : Bool
  pub is_due : Bool

unfoldable pub folded : FoldAnswers → Rotation → Control → Step
unfolding mark_due
folded a (draining d) c = elim a.confirmed [
  | err error ↦ (some error, record c { rotation = idle })
  | ok _ ↦
      if a.has_segment
      then (if a.queued
          then (none, record c { rotation = sealing })
          else (some Error.closed, record c { rotation = idle }))
      else (none, record c { rotation = mark_due a.is_due idle })
]
folded a r c = (some Error.poisoned, record c { rotation = idle })

abbrev pub fences : Error → Bool
fences Error.poisoned = true
fences (Error.fenced _) = true
fences _ = false

abbrev pub is_directory_full : Error → Bool
is_directory_full Error.segment_directory_full = true
is_directory_full _ = false

-- Background work that failed.
unfoldable pub work_failed : ℕ → Bool → Error → Control → Step
unfolding set_capacity_block arm_fold_retry retry_delay
work_failed retry_base unregistered_spare_ready error c =
    if is_directory_full error && has_pending_fold c.rotation
    then (none, record c { rotation = set_capacity_block true c.rotation })
    else if fences error
    then (some error, c)
    else if has_pending_fold c.rotation && unregistered_spare_ready
    then (none, record c { rotation = arm_fold_retry retry_base c.rotation })
    else (
      none,
      record c {
        spare_attempts = saturating_suc c.spare_attempts;
        spare_retry = some (backoff retry_base c.spare_attempts);
      },
    )

pub data Provisioned : Type 0 where
  registered : Provisioned
  unregistered : Provisioned
  fold_done : FoldAnswers → Provisioned
  failed : Error → Provisioned
  stopped : Provisioned

unfoldable pub provisioned : ℕ → Bool → Provisioned → Control → Step
unfolding folded work_failed
provisioned retry_base spare_ready registered c =
    (none, record c { spare_requested = false; spare_attempts = 0 })
provisioned retry_base spare_ready unregistered c =
    (none, record c { spare_requested = false; spare_attempts = 0 })
provisioned retry_base spare_ready (fold_done a) c =
    folded a c.rotation (record c { spare_requested = false })
provisioned retry_base spare_ready (failed error) c =
    work_failed retry_base spare_ready error (record c { spare_requested = false })
provisioned retry_base spare_ready stopped c =
    (some Error.closed, record c { spare_requested = false })
