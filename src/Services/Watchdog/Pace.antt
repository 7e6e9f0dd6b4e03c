-- ===== src/Services/Watchdog/Pace.antt =====
-- The times of the watchdog under a validated policy.
use hypercarry.Base.{ℕ, ◌+◌, ◌/◌, ◌≤◌, ◌≡◌, true, false, Option, none, some, arith}
use hypercarry.Base.Outcome.{value}
use hypercarry.Decimal.{Decimal}
use hypercarry.Services.Policy.{RuntimeConfig, ServicePolicy, PathAnswers, validate_policy}
use hypercarry.Services.Policy.Horizon.{IsPaced, validate_policy-IsPaced}
use hypercarry.Services.Watchdog.{rearm_due, heartbeat_permitted}

module _ {Num : Type 0} ⦃d : Decimal Num⦄ where
  paced :
      (p : ServicePolicy Num) (r : RuntimeConfig Num) (armed : Option ℕ) (now later : ℕ)
      → IsPaced p r
      → later ≤ now + p.cancel_horizon_ms / 6
      → rearm_due armed now p ≡ false
      → heartbeat_permitted armed later r.heartbeat_timeout_ms ≡ true
  unfolding rearm_due heartbeat_permitted
  paced p r none now later h soon due = cc
  paced p r (some armed) now later h soon due =
      ground (arith, h.rearm_third, h.heartbeat_half, h.horizon_low)

  -- Under a validated policy, a deadline that is not yet due for re-arming still permits a heartbeat,
  -- now and for a sixth of the cancel horizon: the protection that stands outlasts the trust in the
  -- heartbeat.
  pub rearm_due-heartbeat_permitted :
      (answers : PathAnswers) (p : ServicePolicy Num) (r : RuntimeConfig Num) (armed : Option ℕ)
      (now later : ℕ)
      → validate_policy answers p r ≡ value tt
      → later ≤ now + p.cancel_horizon_ms / 6
      → rearm_due armed now p ≡ false
      → heartbeat_permitted armed later r.heartbeat_timeout_ms ≡ true
  rearm_due-heartbeat_permitted answers p r armed now later valid soon due =
      paced p r armed now later (validate_policy-IsPaced answers p r valid) soon due
