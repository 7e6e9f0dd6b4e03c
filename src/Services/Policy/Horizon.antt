-- ===== src/Services/Policy/Horizon.antt =====
-- What a validated policy guarantees of its times.
use hypercarry.Base.{
  ℕ, ◌/◌, ◌≤◌, ◌<◌, ◌≡◌, true, ltb, leb, arith, and_true, leb→le, ltb→lt, option_eq, is_some, ◌==◌,
  some, ◌&&◌,
}
use hypercarry.Base.Json.{bool_eq}
use hypercarry.Base.Text.{text_eq}
use hypercarry.Base.Outcome.{value}
use hypercarry.Decimal.{Decimal}
use hypercarry.Services.Policy.{
  RuntimeConfig, ServicePolicy, PathAnswers, validate_policy, within, rearm_valid, ensured,
  backend_config_valid,
}

-- The bounds between the times of a policy and of its runtime.
pub record IsPaced {Num : Type 0} (p : ServicePolicy Num) (r : RuntimeConfig Num) : Type 0 where
  pub horizon_low : 30000 ≤ p.cancel_horizon_ms
  pub horizon_high : p.cancel_horizon_ms ≤ 120000
  pub poll_low : 100 ≤ p.watchdog_interval_ms
  pub poll_before_rearm : p.watchdog_interval_ms ≤ p.rearm_interval_ms
  pub rearm_third : p.rearm_interval_ms ≤ p.cancel_horizon_ms / 3
  pub heartbeat_half : r.heartbeat_timeout_ms < p.cancel_horizon_ms / 2

within_bounds : (lo hi x : ℕ) → within lo hi x ≡ true → (lo ≤ x) × (x ≤ hi)
within_bounds lo hi x h = ground arith

module _ {Num : Type 0} ⦃d : Decimal Num⦄ where
  pub validate_policy-IsPaced :
      (answers : PathAnswers) (p : ServicePolicy Num) (r : RuntimeConfig Num)
      → validate_policy answers p r ≡ value tt
      → IsPaced p r
  unfolding validate_policy
  validate_policy-IsPaced answers p r h =
      let (_, h1) = ensured (option_eq text_eq r.executor_lease (some p.executor_lease)) _ h in
      let (_, h2) = ensured (p.schema_version == 1) _ h1 in
      let (_, h3) =
        ensured (bool_eq (is_some p.backend_config) (is_some p.backend_config_sha256)) _ h2 in
      let (_, h4) =
        ensured (backend_config_valid answers p.backend_config p.backend_config_sha256) _ h3 in
      let (_, h5) = ensured (within 100 60000 p.backend_timeout_ms) _ h4 in
      let (poll, h6) = ensured (within 100 1000 p.watchdog_interval_ms) _ h5 in
      let (horizon, h7) = ensured (within 30000 120000 p.cancel_horizon_ms) _ h6 in
      let (rearm, h8) = ensured (rearm_valid p) _ h7 in
      let (_, h9) = ensured (within 1000 30000 p.executor_lease_timeout_ms) _ h8 in
      let (beat, h10) = ensured (ltb r.heartbeat_timeout_ms (p.cancel_horizon_ms / 2)) _ h9 in
      let (front, third) =
        and_true
          (within 1000 30000 p.rearm_interval_ms && leb p.watchdog_interval_ms p.rearm_interval_ms)
          (leb p.rearm_interval_ms (p.cancel_horizon_ms / 3)) rearm in
      let (_, poll_rearm) =
        and_true (within 1000 30000 p.rearm_interval_ms)
          (leb p.watchdog_interval_ms p.rearm_interval_ms) front in
      let (low, high) = within_bounds 30000 120000 p.cancel_horizon_ms horizon in
      let (poll_low, _) = within_bounds 100 1000 p.watchdog_interval_ms poll in
      record {
        horizon_low = low;
        horizon_high = high;
        poll_low = poll_low;
        poll_before_rearm = leb→le _ _ poll_rearm;
        rearm_third = leb→le _ _ third;
        heartbeat_half = ltb→lt _ _ beat;
      }
