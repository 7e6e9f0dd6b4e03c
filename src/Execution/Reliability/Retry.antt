-- ===== src/Execution/Reliability/Retry.antt =====
-- The retry policy of crates/hypercarry-execution/src/reliability.rs.
use native.Mathlib.Nat.{pow-le-pow_right, one-le-pow}
use hypercarry.Base.{ℕ, ◌-◌, ◌*◌, ◌^◌, ◌≤◌, ◌<◌, ◌≡◌, ◌≢◌, min, max, arith}
use hypercarry.Base.Int.{u64_bound}
use hypercarry.Execution.Error.{ok}
use hypercarry.Execution.Reliability.{
  SubmissionFailure, uncertain_after_write, permanent, rate_limited, retry_after, RetryPolicy,
  new_policy, exponential, action, value_or_zero, saturating_mul,
}

-- The delay that the venue itself asked for.
abbrev pub venue_delay : SubmissionFailure → ℕ
venue_delay (rate_limited delay) = value_or_zero delay
venue_delay _ = 0

pow_pos : (k : ℕ) → 1 ≤ 2 ^ k
pow_pos k = one-le-pow k 2 (omega arith)

le_saturating_mul : (a b : ℕ) → 1 ≤ b → a < u64_bound → a ≤ saturating_mul a b
le_saturating_mul a b h k = grind arith

mul_mono : (a b c : ℕ) → b ≤ c → a * b ≤ a * c
mul_mono a b c h = grind arith

-- The backoff never shrinks from one attempt to a later one.
pub exponential_mono : (p : RetryPolicy) (m n : ℕ) → m ≤ n → exponential p m ≤ exponential p n
unfolding exponential
exponential_mono p m n h =
    let pow : 2 ^ min (m - 1) 63 ≤ 2 ^ min (n - 1) 63 =
      pow-le-pow_right (omega arith) (omega arith) in
    omega (arith, mul_mono p.base_backoff_ms _ _ pow)

module _ (attempts base cap : ℕ) (p : RetryPolicy)
    (made : new_policy attempts base cap ≡ ok p) where
  fields :
      (p.max_attempts ≡ attempts)
      × (p.base_backoff_ms ≡ base)
      × (p.max_backoff_ms ≡ cap)
      × (0 < base)
      × (base ≤ cap)
  unfolding new_policy
  fields = ground arith

  exponential_bounds :
      (attempt : ℕ)
      → cap < u64_bound
      → (base ≤ exponential p attempt) × (exponential p attempt ≤ cap)
  unfolding exponential
  exponential_bounds attempt h = ground (
    arith,
    fields,
    pow_pos (min (attempt - 1) 63),
    le_saturating_mul p.base_backoff_ms (2 ^ min (attempt - 1) 63),
  )

  -- A retry is answered only to an attempt from 1 to below the maximum, and never after an uncertain
  -- or permanent failure; its delay is at least the base and at least what the venue asked for, and
  -- at most the larger of the cap and what the venue asked for.
  pub action-retry :
      (attempt : ℕ) (failure : SubmissionFailure) (delay : ℕ)
      → cap < u64_bound
      → action p attempt failure ≡ retry_after delay
      → (0 < attempt)
        × (attempt < attempts)
        × (failure ≢ uncertain_after_write)
        × (failure ≢ permanent)
        × (base ≤ delay)
        × (venue_delay failure ≤ delay)
        × (delay ≤ max cap (venue_delay failure))
  unfolding action
  action-retry attempt failure delay h e = ground (arith, fields, exponential_bounds attempt h)
