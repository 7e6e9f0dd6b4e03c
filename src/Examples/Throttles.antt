-- ===== src/Examples/Throttles.antt =====
-- The throttle and the retry policy of crates/hypercarry-execution/src/reliability.rs on concrete calls.
use hypercarry.Base.{◌-◌, ◌≤◌, ◌<◌, ◌≡◌, ◌≢◌, refl, max, List, [], ◌∷◌, some, arith}
use hypercarry.Base.Int.{ℤ, pos, ◌+ℤ◌, ◌-ℤ◌, checked_add, checked_sub}
use hypercarry.Execution.Error.{ok}
use hypercarry.Execution.Reliability.{
  RequestThrottle, allow, wait, new_throttle, admit, admit_live, retry_delay, drop_expired,
  uncertain_after_write, permanent, rate_limited, retry_after, RetryPolicy, new_policy, action,
}
use hypercarry.Execution.Reliability.Window.{Limited, calls, call, calls-Limited}
use hypercarry.Execution.Reliability.Delay.{wait_early, wait_over}
use hypercarry.Execution.Reliability.Retry.{action-retry, venue_delay}

abbrev two_per_second : RequestThrottle
two_per_second = record { max_requests = 2; window_ms = pos 1000; admitted_at_ms = [] }

abbrev full : RequestThrottle
full = record { max_requests = 2; window_ms = pos 1000; admitted_at_ms = pos 10 ∷ pos 20 ∷ [] }

made : new_throttle 2 (pos 1000) ≡ ok two_per_second
unfolding new_throttle
made = refl

abbrev times : List ℤ
times = pos 10 ∷ pos 20 ∷ pos 30 ∷ pos 1010 ∷ pos 5 ∷ pos 1020 ∷ []

granted_times :
    (calls (record { throttle = two_per_second; granted = [] }) times).granted
    ≡ pos 1020 ∷ pos 1010 ∷ pos 20 ∷ pos 10 ∷ []
unfolding calls call admit admit_live retry_delay drop_expired checked_sub checked_add ◌-ℤ◌ ◌+ℤ◌
granted_times = refl

told : admit full (pos 30) ≡ (full, ok (wait 980))
unfolding admit admit_live retry_delay drop_expired checked_sub checked_add ◌-ℤ◌ ◌+ℤ◌
told = refl

calls-Limited_example :
    Limited 2 (pos 1000) (calls (record { throttle = two_per_second; granted = [] }) times).granted
calls-Limited_example = calls-Limited 2 (pos 1000) two_per_second times made

wait_early_example :
    (full ≡ full) × (admit full (pos 30 +ℤ pos 500) ≡ (full, ok (wait (980 - 500))))
wait_early_example =
    wait_early full full (pos 30) 980 500 (ground arith) (ground arith) (omega arith) told
      (omega arith)

wait_over_example : (admit full (pos 30 +ℤ pos 980)).1 ≡ ok allow
wait_over_example =
    wait_over full full (pos 30) 980 0 (ground arith) (ground arith) (omega arith) told

abbrev policy_1 : RetryPolicy
policy_1 = record { max_attempts = 5; base_backoff_ms = 100; max_backoff_ms = 1000 }

made_policy : new_policy 5 100 1000 ≡ ok policy_1
unfolding new_policy
made_policy = refl

retried : action policy_1 3 (rate_limited (some 2500)) ≡ retry_after 2500
unfolding action
retried = refl

action-retry_example :
    (0 < 3)
    × (3 < 5)
    × (rate_limited (some 2500) ≢ uncertain_after_write)
    × (rate_limited (some 2500) ≢ permanent)
    × (100 ≤ 2500)
    × (venue_delay (rate_limited (some 2500)) ≤ 2500)
    × (2500 ≤ max 1000 (venue_delay (rate_limited (some 2500))))
action-retry_example =
    action-retry 5 100 1000 policy_1 made_policy 3 (rate_limited (some 2500)) 2500 (omega arith)
      retried
