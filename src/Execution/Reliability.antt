-- ===== src/Execution/Reliability.antt =====
-- crates/hypercarry-execution/src/reliability.rs: the request throttle and the retry policy.
pub mod Window
pub mod Delay
pub mod Retry
use hypercarry.Base.{
  ℕ, zero, suc, ◌+◌, ◌-◌, ◌*◌, ◌^◌, ◌≡◌, min, max, Bool, true, false, not, ◌||◌, Option, none, some,
  List, [], ◌∷◌, ◌++◌, ltb, leb, ◌==◌, length, if◌then◌else◌,
}
use hypercarry.Base.Int.{ℤ, pos, ltb_ℤ, leb_ℤ, checked_add, checked_sub, to_u64, u64_bound}
use hypercarry.Execution.Error.{Result, ok, err, panic, reliability, ◌>>=◌, ◌>>◌, fail_if, or_fail}

pub data ThrottleDecision : Type 0 where
  allow : ThrottleDecision
  wait : ℕ → ThrottleDecision

-- `admitted_at_ms` has the front of the deque first.
pub record RequestThrottle : Type 0 where
  pub max_requests : ℕ
  pub window_ms : ℤ
  pub admitted_at_ms : List ℤ

-- `RequestThrottle::new`
unfoldable pub new_throttle : ℕ → ℤ → Result RequestThrottle
new_throttle max_requests window_ms = do
  fail_if (max_requests == 0 || leb_ℤ window_ms (pos 0)) reliability
  ok (record { max_requests = max_requests; window_ms = window_ms; admitted_at_ms = [] })

abbrev pub back : List ℤ → Option ℤ
back [] = none
back (x ∷ []) = some x
back (x ∷ y ∷ r) = back (y ∷ r)

abbrev pub front : List ℤ → Option ℤ
front [] = none
front (x ∷ r) = some x

-- `back().is_some_and(|last| now_ms < *last)`
abbrev pub precedes : ℤ → Option ℤ → Bool
precedes now none = false
precedes now (some last) = ltb_ℤ now last

-- The loop that pops the front while it is at or before the cutoff.
unfoldable pub drop_expired : ℤ → List ℤ → List ℤ
drop_expired cutoff [] = []
drop_expired cutoff (x ∷ r) =
    let rest = drop_expired cutoff r in if leb_ℤ x cutoff then rest else x ∷ r

abbrev pub delay_from : Option ℤ → ℤ → Option ℕ
delay_from none now = none
delay_from (some available_at) now = elim (checked_sub available_at now) [
  | none ↦ none
  | some value ↦ to_u64 value
]

-- The delay until the front leaves the window.
unfoldable pub retry_delay : RequestThrottle → ℤ → Result ThrottleDecision
retry_delay t now = do
  earliest ← or_fail (front t.admitted_at_ms) reliability
  available_at ← or_fail (checked_add earliest t.window_ms) reliability
  delay ← or_fail (delay_from (some available_at) now) reliability
  ok (wait delay)

-- The part of `admit` after the expired entries are gone.
unfoldable pub admit_live : RequestThrottle → ℤ → RequestThrottle × Result ThrottleDecision
admit_live t now =
    if ltb (length t.admitted_at_ms) t.max_requests
    then (record t { admitted_at_ms = t.admitted_at_ms ++ now ∷ [] }, ok allow)
    else (t, retry_delay t now)

-- `RequestThrottle::admit`, with the throttle after it: entries popped before an error stay popped.
unfoldable pub admit : RequestThrottle → ℤ → RequestThrottle × Result ThrottleDecision
admit t now =
    if ltb_ℤ now (pos 0) || precedes now (back t.admitted_at_ms)
    then (t, err reliability)
    else elim (checked_sub now t.window_ms) [
      | none ↦ (t, err reliability)
      | some cutoff ↦
          admit_live (record t { admitted_at_ms = drop_expired cutoff t.admitted_at_ms }) now
    ]

pub data SubmissionFailure : Type 0 where
  transient_before_write uncertain_after_write permanent : SubmissionFailure
  rate_limited : Option ℕ → SubmissionFailure

pub data RecoveryAction : Type 0 where
  retry_after : ℕ → RecoveryAction
  reconcile_before_retry stop : RecoveryAction

pub record RetryPolicy : Type 0 where
  pub max_attempts : ℕ
  pub base_backoff_ms : ℕ
  pub max_backoff_ms : ℕ

-- `RetryPolicy::new`
unfoldable pub new_policy : ℕ → ℕ → ℕ → Result RetryPolicy
new_policy max_attempts base_backoff_ms max_backoff_ms = do
  fail_if (max_attempts == 0 || base_backoff_ms == 0 || ltb max_backoff_ms base_backoff_ms)
      reliability
  ok (record {
    max_attempts = max_attempts;
    base_backoff_ms = base_backoff_ms;
    max_backoff_ms = max_backoff_ms;
  })

-- `u64::saturating_mul`
abbrev pub saturating_mul : ℕ → ℕ → ℕ
saturating_mul a b = min (a * b) (u64_bound - 1)

-- The backoff before the venue's own delay; `1_u64 << exponent` is a power of two at most 2^63.
unfoldable pub exponential : RetryPolicy → ℕ → ℕ
exponential p attempt =
    min (saturating_mul p.base_backoff_ms (2 ^ min (attempt - 1) 63)) p.max_backoff_ms

abbrev value_or_zero : Option ℕ → ℕ
value_or_zero none = 0
value_or_zero (some n) = n

-- The two early returns for the kind of failure stand where the source tests it.
unfoldable pub retry_or_reconcile : RetryPolicy → ℕ → SubmissionFailure → RecoveryAction
unfolding exponential
retry_or_reconcile p attempt permanent = stop
retry_or_reconcile p attempt uncertain_after_write = reconcile_before_retry
retry_or_reconcile p attempt (rate_limited delay) =
    retry_after (max (exponential p attempt) (value_or_zero delay))
retry_or_reconcile p attempt transient_before_write = retry_after (exponential p attempt)

-- `RetryPolicy::action`
unfoldable pub action : RetryPolicy → ℕ → SubmissionFailure → RecoveryAction
unfolding retry_or_reconcile
action p attempt failure =
    if attempt == 0 || leb p.max_attempts attempt
    then stop
    else retry_or_reconcile p attempt failure
