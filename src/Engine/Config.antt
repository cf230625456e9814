-- ===== src/Engine/Config.antt =====
-- `WalEngineConfig` of rust/client/src/engine.rs. A duration is a number of nanoseconds. The largest
-- number of permits of tokio's semaphore is an argument.
use chorus.Prelude.{
  ℕ, ◌≤◌, ◌<◌, ◌≡◌, refl, ap, ◌∙◌, ◌≢◌, ◌↔◌, inl, inr, Bool, false, Option, none, some, arith, ltb,
  ◌==◌, Bool-cases, Result, ok, ◌>>=◌, ◌>>◌, >>=-eq-ok, reject,
}
use chorus.Errors.{Error}

pub record WalEngineConfig : Type 0 where
  pub queue_capacity_bytes : ℕ
  pub pipeline_window_bytes : ℕ
  pub max_inflight_bytes : ℕ
  pub max_replica_lag_bytes : ℕ
  pub lane_stall_timeout : ℕ
  pub max_segment_bytes : ℕ
  pub max_active_segment_bytes : ℕ
  pub repair_interval : Option ℕ
  pub shutdown_timeout : ℕ

abbrev pub default_config : WalEngineConfig
default_config = record {
  queue_capacity_bytes = 67108864;
  pipeline_window_bytes = 4194304;
  max_inflight_bytes = 67108864;
  max_replica_lag_bytes = 67108864;
  lane_stall_timeout = 5000000000;
  max_segment_bytes = 268435456;
  max_active_segment_bytes = 4294967296;
  repair_interval = some 300000000000;
  shutdown_timeout = 300000000000;
}

abbrev is_zero : Option ℕ → Bool
is_zero none = false
is_zero (some n) = n == 0

unfoldable pub check_bytes : ℕ → WalEngineConfig → Result Error (Unit {0})
check_bytes max_permits c = do
  reject (c.queue_capacity_bytes == 0) (Error.invalid_config "queue_capacity_bytes must be nonzero")
  reject (c.pipeline_window_bytes == 0)
      (Error.invalid_config "pipeline_window_bytes must be nonzero")
  reject (c.max_inflight_bytes == 0) (Error.invalid_config "max_inflight_bytes must be nonzero")
  reject (c.max_replica_lag_bytes == 0)
      (Error.invalid_config "max_replica_lag_bytes must be nonzero")
  reject (ltb c.max_replica_lag_bytes c.max_inflight_bytes)
      (Error.invalid_config "max_replica_lag_bytes must be at least max_inflight_bytes")
  reject (c.lane_stall_timeout == 0) (Error.invalid_config "lane_stall_timeout must be nonzero")
  reject (ltb max_permits c.max_inflight_bytes)
      (Error.invalid_config "max_inflight_bytes exceeds the semaphore limit")
  reject (ltb max_permits c.queue_capacity_bytes)
      (Error.invalid_config "queue_capacity_bytes exceeds the semaphore limit")

unfoldable pub check_segments : WalEngineConfig → Result Error (Unit {0})
check_segments c = do
  reject (c.max_segment_bytes == 0) (Error.invalid_config "max_segment_bytes must be nonzero")
  reject (c.max_active_segment_bytes == 0)
      (Error.invalid_config "max_active_segment_bytes must be nonzero")
  reject (ltb c.max_active_segment_bytes c.max_segment_bytes)
      (Error.invalid_config "max_active_segment_bytes must be at least max_segment_bytes")
  reject (is_zero c.repair_interval) (Error.invalid_config "repair_interval must be nonzero")
  reject (c.shutdown_timeout == 0) (Error.invalid_config "shutdown_timeout must be nonzero")

unfoldable pub validate : ℕ → WalEngineConfig → Result Error (Unit {0})
unfolding check_bytes check_segments
validate max_permits c = do check_bytes max_permits c; check_segments c

-- A configuration under which the pipeline can make progress.
pub record IsUsable (max_permits : ℕ) (c : WalEngineConfig) : Type 0 where
  pub queue : (0 < c.queue_capacity_bytes) × (c.queue_capacity_bytes ≤ max_permits)
  pub window : 0 < c.pipeline_window_bytes
  pub inflight : (0 < c.max_inflight_bytes) × (c.max_inflight_bytes ≤ max_permits)
  pub lag : c.max_inflight_bytes ≤ c.max_replica_lag_bytes
  pub timeouts : (0 < c.lane_stall_timeout) × (0 < c.shutdown_timeout)
  pub segments : (0 < c.max_segment_bytes) × (c.max_segment_bytes ≤ c.max_active_segment_bytes)
  pub repair : c.repair_interval ≢ some 0

bytes_usable :
    (max_permits : ℕ) (c : WalEngineConfig)
    → check_bytes max_permits c ≡ ok tt
    → (0 < c.queue_capacity_bytes)
      × (c.queue_capacity_bytes ≤ max_permits)
      × (0 < c.pipeline_window_bytes)
      × (0 < c.max_inflight_bytes)
      × (c.max_inflight_bytes ≤ max_permits)
      × (c.max_inflight_bytes ≤ c.max_replica_lag_bytes)
      × (0 < c.lane_stall_timeout)
unfolding check_bytes
bytes_usable max_permits c h = ground arith

segments_usable :
    (c : WalEngineConfig)
    → check_segments c ≡ ok tt
    → (0 < c.max_segment_bytes)
      × (c.max_segment_bytes ≤ c.max_active_segment_bytes)
      × (0 < c.shutdown_timeout)
      × (c.repair_interval ≢ some 0)
unfolding check_segments
segments_usable c h = ground arith

bytes_accepted :
    (max_permits : ℕ) (c : WalEngineConfig)
    → 0 < c.queue_capacity_bytes
    → c.queue_capacity_bytes ≤ max_permits
    → 0 < c.pipeline_window_bytes
    → 0 < c.max_inflight_bytes
    → c.max_inflight_bytes ≤ max_permits
    → c.max_inflight_bytes ≤ c.max_replica_lag_bytes
    → 0 < c.lane_stall_timeout
    → check_bytes max_permits c ≡ ok tt
unfolding check_bytes
bytes_accepted max_permits c a b d e f g h = ground arith

is_zero-false : (o : Option ℕ) → o ≢ some 0 → is_zero o ≡ false
is_zero-false none h = refl
is_zero-false (some n) h = elim (Bool-cases (n == 0)) [
  | inl e ↦ absurd (h (ap some (ground arith)))
  | inr e ↦ e
]

segments_accepted :
    (c : WalEngineConfig)
    → 0 < c.max_segment_bytes
    → c.max_segment_bytes ≤ c.max_active_segment_bytes
    → 0 < c.shutdown_timeout
    → is_zero c.repair_interval ≡ false
    → check_segments c ≡ ok tt
unfolding check_segments
segments_accepted c a b d e = ground arith

validate-accepts :
    (max_permits : ℕ) (c : WalEngineConfig)
    → IsUsable max_permits c
    → validate max_permits c ≡ ok tt
unfolding validate
validate-accepts max_permits c u =
    let bytes =
      bytes_accepted max_permits c u.queue.0 u.queue.1 u.window u.inflight.0 u.inflight.1 u.lag
        u.timeouts.0 in
    let segments =
      segments_accepted c u.segments.0 u.segments.1 u.timeouts.1
        (is_zero-false c.repair_interval u.repair) in
    ap (λ r. r >>= (λ _. check_segments c)) bytes ∙ segments

-- The engine accepts exactly the configurations whose budgets, window, timeouts and segment sizes are
-- nonzero, whose budgets fit the semaphores, whose replica lag covers what may be in flight, whose
-- segments fit the active ceiling, and whose repair interval, if any, is nonzero.
pub validate_iff :
    (max_permits : ℕ) (c : WalEngineConfig)
    → (validate max_permits c ≡ ok tt) ↔ IsUsable max_permits c
unfolding validate
validate_iff max_permits c = (
  (λ h.
      let (_, bytes, segments) = >>=-eq-ok (check_bytes max_permits c) _ h in
      let (a, b, d, e, f, g, i) = bytes_usable max_permits c bytes in
      let (j, k, l, m) = segments_usable c segments in
      record {
        queue = (a, b);
        window = d;
        inflight = (e, f);
        lag = g;
        timeouts = (i, l);
        segments = (j, k);
        repair = m;
      }),
  validate-accepts max_permits c,
)
