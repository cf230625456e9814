-- ===== src/Commit.antt =====
-- `CommitTracker` of rust/client/src/protocol.rs: from the durable byte offsets that the lanes
-- report to one contiguous watermark of committed records. A lock is held through each method, so a
-- method is a function on the state. Offsets are natural numbers where the source keeps them
-- nonnegative; lag metrics and the log line are left out. An index past the lanes, which the source
-- panics on, changes nothing here.
pub mod Watermark
pub mod Steps
pub mod Account
pub mod Invariant
pub mod Failure
mod Examples
pub use chorus.Prelude.{is_some}
use chorus.Prelude.{
  ℕ, zero, suc, ◌+◌, ◌-◌, ◌*◌, ◌/◌, ◌%◌, ◌^◌, ◌≤◌, ◌<◌, min, max, ◌≡◌, refl, sym, ap, ◌∙◌, ◌≢◌, ◌↔◌,
  ◌⊎◌, inl, inr, Bool, true, false, not, ◌&&◌, ◌||◌, Option, none, some, List, [], ◌∷◌, ◌++◌, map,
  append_assoc, append-nil, String, arith, ltb, leb, ◌==◌, if◌then◌else◌, ltb→lt, lt→ltb, leb→le,
  le→leb, ==_iff, Bool-cases, Option-cases, u32_max, u64_max, checked_add, length, get_elem?, set,
  take, drop, All, length-append, length-drop, length-take, take-append-drop, take-append_left,
  drop-append_left, drop-nil, drop-drop, All-append, All-drop, Result, ok, err, ◌>>=◌, ◌>>◌, map_ok,
  >>=-eq-ok, Result-cases,
}
use chorus.Prelude.Int.{ℤ, pos, negsuc}
use mathlib.Core.Option
use chorus.Errors.{ProtocolError}
use chorus.Transport.{TransportError, fences_writer, transient}

pub data CommitFailure : Type 0 where
  poisoned : CommitFailure
  fenced : String → CommitFailure
  transport : TransportError → CommitFailure

unfoldable pub protocol_error : CommitFailure → ProtocolError
protocol_error poisoned = ProtocolError.poisoned
protocol_error (fenced error) = ProtocolError.fenced error
protocol_error (transport error) = ProtocolError.transport error

pub record CommitSnapshot : Type 0 where
  pub committed : ℕ
  pub failure : Option CommitFailure

pub record LaneCommitState : Type 0 where
  pub durable : ℕ
  pub represented_end : ℕ
  pub finished : Bool
  pub error : Option TransportError

abbrev pub default_lane : LaneCommitState
default_lane = record { durable = 0; represented_end = 0; finished = true; error = none }

pub record CommitState : Type 0 where
  pub boundaries : List ℕ
  pub admitted : ℕ
  pub committed : ℕ
  pub committed_bytes : ℕ
  pub failure : Option CommitFailure
  pub lanes : List LaneCommitState

-- `updates` is the watch channel's current value.
pub record CommitTracker : Type 0 where
  pub quorum : ℕ
  pub state : CommitState
  pub updates : CommitSnapshot

abbrev pub replicate {ℓ} : {A : Type ℓ} → ℕ → A → List A
replicate zero a = []
replicate (suc n) a = a ∷ replicate n a

unfoldable pub new : ℕ → ℕ → CommitTracker
new lanes quorum = record {
  quorum = quorum;
  state = record {
    boundaries = [];
    admitted = 0;
    committed = 0;
    committed_bytes = 0;
    failure = none;
    lanes = replicate lanes default_lane;
  };
  updates = record { committed = 0; failure = none };
}

unfoldable pub update_lane :
    ℕ → (LaneCommitState → LaneCommitState) → List LaneCommitState → List LaneCommitState
update_lane zone f [] = []
update_lane zero f (lane ∷ lanes) = f lane ∷ lanes
update_lane (suc zone) f (lane ∷ lanes) = lane ∷ update_lane zone f lanes

-- `sort_unstable` on numbers.
unfoldable pub insert_sorted : ℕ → List ℕ → List ℕ
insert_sorted n [] = n ∷ []
insert_sorted n (m ∷ ms) = if leb n m then n ∷ (m ∷ ms) else m ∷ insert_sorted n ms

unfoldable pub sort : List ℕ → List ℕ
sort [] = []
sort (n ∷ ns) = insert_sorted n (sort ns)

abbrev pub get_or : List ℕ → ℕ → ℕ → ℕ
get_or [] i d = d
get_or (x ∷ xs) zero d = x
get_or (x ∷ xs) (suc i) d = get_or xs i d

abbrev pub durables : List LaneCommitState → List ℕ
durables [] = []
durables (lane ∷ lanes) = lane.durable ∷ durables lanes

unfoldable pub quorum_durable_watermark : List LaneCommitState → ℕ → ℕ
unfolding sort insert_sorted
quorum_durable_watermark lanes quorum =
    get_or (sort (durables lanes)) (length (durables lanes) - quorum) 0

-- Keep the error of the lower zone.
unfoldable pub prefer_lower_zone : Option TransportError → TransportError → Option TransportError
prefer_lower_zone none candidate = some candidate
prefer_lower_zone (some existing) candidate =
    if ltb candidate.zone existing.zone then some candidate else some existing

-- The loop over the represented lanes' errors.
unfoldable pub collect_errors :
    ℕ
    → Option TransportError
    → Option TransportError
    → List LaneCommitState
    → Option TransportError × Option TransportError
collect_errors boundary fence terminal [] = (fence, terminal)
collect_errors boundary fence terminal (lane ∷ lanes) =
    elim (if leb boundary lane.represented_end then lane.error else none) [
      | none ↦ collect_errors boundary fence terminal lanes
      | some error ↦ elim (fences_writer error.code) [
        | true ↦ collect_errors boundary (prefer_lower_zone fence error) terminal lanes
        | false ↦ elim (transient error.code) [
          | true ↦ collect_errors boundary fence terminal lanes
          | false ↦ collect_errors boundary fence (prefer_lower_zone terminal error) lanes
        ]
      ]
    ]

abbrev pub failure_of : Option TransportError × Option TransportError → CommitFailure
failure_of (some error, terminal) = fenced error.message
failure_of (none, some error) = transport error
failure_of (none, none) = poisoned

unfoldable pub select_commit_failure : List LaneCommitState → ℕ → CommitFailure
unfolding collect_errors prefer_lower_zone
select_commit_failure lanes boundary = failure_of (collect_errors boundary none none lanes)

-- The loop that resolves boundaries: what is left, the new counts, and whether any was resolved.
pub record Drained : Type 0 where
  pub boundaries : List ℕ
  pub committed : ℕ
  pub committed_bytes : ℕ
  pub changed : Bool

unfoldable pub drain : ℕ → List ℕ → ℕ → ℕ → Bool → Drained
drain watermark [] committed committed_bytes changed = record {
  boundaries = [];
  committed = committed;
  committed_bytes = committed_bytes;
  changed = changed;
}
drain watermark (boundary ∷ boundaries) committed committed_bytes changed =
    elim (leb boundary watermark) [
      | true ↦ drain watermark boundaries (committed + 1) boundary true
      | false ↦ record {
        boundaries = boundary ∷ boundaries;
        committed = committed;
        committed_bytes = committed_bytes;
        changed = changed;
      }
    ]

-- Whether a lane has the boundary durable or may still get there.
abbrev pub may_reach : ℕ → LaneCommitState → Bool
may_reach oldest lane =
    leb oldest lane.durable || not lane.finished && leb oldest lane.represented_end

unfoldable pub possible : ℕ → List LaneCommitState → ℕ
possible oldest [] = 0
possible oldest (lane ∷ lanes) = (if may_reach oldest lane then 1 else 0) + possible oldest lanes

-- The failure, if the oldest unresolved boundary can no longer reach a quorum.
unfoldable pub failed_boundary : ℕ → List LaneCommitState → List ℕ → Option CommitFailure
failed_boundary quorum lanes [] = none
failed_boundary quorum lanes (oldest ∷ boundaries) =
    if ltb (possible oldest lanes) quorum then some (select_commit_failure lanes oldest) else none

unfoldable pub publish : CommitTracker → CommitTracker
publish t = record t {
  updates = record { committed = t.state.committed; failure = t.state.failure };
}

unfoldable pub settle : CommitTracker → Drained → CommitTracker
unfolding failed_boundary publish
settle t d =
    let failure = failed_boundary t.quorum t.state.lanes d.boundaries in
    let t' = record t {
      state = record t.state {
        boundaries = d.boundaries;
        committed = d.committed;
        committed_bytes = d.committed_bytes;
        failure = failure;
      };
    } in
    if d.changed || is_some failure then publish t' else t'

unfoldable pub recompute : CommitTracker → CommitTracker
unfolding settle drain quorum_durable_watermark
recompute t = elim t.state.failure [
  | some failure ↦ t
  | none ↦ settle t (
      drain (quorum_durable_watermark t.state.lanes t.quorum) t.state.boundaries t.state.committed
        t.state.committed_bytes false)
]

abbrev pub with_lanes : CommitTracker → List LaneCommitState → CommitTracker
with_lanes t lanes = record t { state = record t.state { lanes = lanes } }

-- `durable.max(0)`
abbrev pub nonnegative : ℤ → ℕ
nonnegative (pos n) = n
nonnegative (negsuc n) = 0

unfoldable pub activate_lane : ℕ → ℤ → CommitTracker → CommitTracker
unfolding update_lane
activate_lane zone durable t = with_lanes t (
    update_lane zone (λ lane. record lane { durable = nonnegative durable; finished = false })
      t.state.lanes)

abbrev pub last_or : ℕ → List ℕ → ℕ
last_or d [] = d
last_or d (x ∷ xs) = last_or x xs

unfoldable pub represent : ℕ → List ℕ → List LaneCommitState → List LaneCommitState
represent end [] lanes = lanes
represent end (zone ∷ zones) lanes = represent end zones (
    update_lane zone (λ lane. record lane { represented_end = max lane.represented_end end }) lanes)

-- The window's records, and the tracker. A window is not empty.
unfoldable pub admit_window : List ℕ → List ℕ → CommitTracker → (ℕ × ℕ) × CommitTracker
unfolding represent update_lane recompute
admit_window boundaries represented_zones t =
    let admitted = t.state.admitted + length boundaries in
    (
      (t.state.admitted, admitted),
      recompute (record t {
        state = record t.state {
          admitted = admitted;
          boundaries = t.state.boundaries ++ boundaries;
          lanes = represent (last_or 0 boundaries) represented_zones t.state.lanes;
        };
      }),
    )

abbrev pub lane_durable : List LaneCommitState → ℕ → ℕ
lane_durable lanes zone = get_or (durables lanes) zone 0

unfoldable pub publish_durable : ℕ → ℤ → CommitTracker → CommitTracker
unfolding update_lane recompute
publish_durable zone (negsuc n) t = t
publish_durable zone (pos durable) t =
    if leb durable (lane_durable t.state.lanes zone)
    then t
    else recompute
        (with_lanes t (update_lane zone (λ lane. record lane { durable = durable }) t.state.lanes))

abbrev pub finish : Option TransportError → LaneCommitState → LaneCommitState
finish none lane = record lane { finished = true }
finish (some error) lane = record lane { finished = true; error = some error }

-- Fail the tracker once, and publish it.
unfoldable pub fail : CommitFailure → CommitTracker → CommitTracker
unfolding publish
fail failure t = elim t.state.failure [
  | some earlier ↦ t
  | none ↦ publish (record t { state = record t.state { failure = some failure } })
]

-- A takeover fence fails the writer at once; any other end of a lane is weighed by `recompute`.
unfoldable pub finish_lane : ℕ → Option TransportError → CommitTracker → CommitTracker
unfolding update_lane recompute fail
finish_lane zone error t =
    let t' = with_lanes t (update_lane zone (finish error) t.state.lanes) in
    elim error [
      | none ↦ recompute t'
      | some e ↦ if fences_writer e.code then fail (fenced e.message) t' else recompute t'
    ]

unfoldable pub poison : CommitTracker → CommitTracker
unfolding fail
poison t = fail poisoned t

unfoldable pub lane_durable_lag : LaneCommitState → ℕ
lane_durable_lag lane = if lane.finished then 0 else lane.represented_end - lane.durable

-- `CommitRange::progress` reads the channel.
unfoldable pub progress : CommitTracker → ℕ × Option ProtocolError
unfolding protocol_error
progress t = (t.updates.committed, Option.map protocol_error t.updates.failure)
