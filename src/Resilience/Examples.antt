-- ===== src/Resilience/Examples.antt =====
-- Small policies, breakers and windows, at which the theorems on resilience apply.
use graphrefly_rs.Prelude.{
  ℕ, ◌≤◌, ◌≡◌, refl, none, some, List, [], ◌∷◌, arith, min, u32_max, leb, is_some, take, drop,
}
use graphrefly_rs.Resilience.Backoff.{BackoffPolicy, delay_ms, fibonacci}
use graphrefly_rs.Resilience.Backoff.Fibonacci.{fib, fibonacci_saturates}
use graphrefly_rs.Resilience.Backoff.Bounds.{
  WithinMax, declared_max, delay_ms-WithinMax, Grows, delay_ms_mono,
}
use graphrefly_rs.Resilience.Retry.{RetryPolicy, RetryEvent, retry_status}
use graphrefly_rs.Resilience.Retry.Status.{retry_status-last, awaits_retry}
use graphrefly_rs.Resilience.Breaker.{BreakerStatus, breaker_run}
use graphrefly_rs.Resilience.Breaker.Threshold.{breaker_opens_at_threshold, is_opened, failures_in}
use graphrefly_rs.Resilience.RateLimit.{limit_run, allowed_values, dropped_values}
use graphrefly_rs.Resilience.RateLimit.Window.{window_budget}

abbrev doubling : BackoffPolicy
doubling = BackoffPolicy.exponential 100 2 (some 1000)

fibonacci_saturates_example : fibonacci 9 ≡ min (fib 9) u32_max
fibonacci_saturates_example = fibonacci_saturates 9

delay_ms-WithinMax_example : WithinMax (declared_max doubling) (delay_ms doubling 7)
delay_ms-WithinMax_example = delay_ms-WithinMax doubling 7

delay_ms_mono_example : delay_ms doubling 2 ≤ delay_ms doubling 3
unfolding Grows
delay_ms_mono_example = delay_ms_mono doubling 2 3 (omega arith) (omega arith)

abbrev thrice : RetryPolicy
thrice = record { max_attempts = 3; backoff = doubling }

retry_status-last_example :
    let s = retry_status thrice (RetryEvent.attempted 1 ∷ RetryEvent.failure 1 "no" ∷ []) in
    (s.attempt ≡ 1) × (s.max_attempts ≡ 3) × (is_some s.delay ≡ awaits_retry s.state)
retry_status-last_example =
    retry_status-last thrice (RetryEvent.attempted 1 ∷ []) (RetryEvent.failure 1 "no") (omega arith)

abbrev two_failures : List (RetryEvent × ℕ)
two_failures = (RetryEvent.failure 1 "no", 20) ∷ (RetryEvent.failure 2 "no", 30) ∷ []

breaker_opens_at_threshold_example :
    (s : BreakerStatus) × (breaker_run 2
        (((RetryEvent.success 1, 10) ∷ []) ∷ two_failures ∷ [])
        none
      ≡ some s)
    × (s.failures ≡ min (failures_in two_failures) u32_max)
    × (is_opened s.state ≡ leb 2 (failures_in two_failures))
    × (is_some s.opened_at_ms ≡ leb 2 (failures_in two_failures))
breaker_opens_at_threshold_example =
    breaker_opens_at_threshold 2 ((RetryEvent.success 1, 10) ∷ []) (two_failures ∷ []) []
      two_failures 1 10 (omega arith) (omega arith) refl refl

window_budget_example :
    let es = (limit_run {A = ℕ} 2 100 ((5, 1 ∷ 2 ∷ []) ∷ (50, 3 ∷ []) ∷ []) none).1 in
    (allowed_values es ≡ take 2 (1 ∷ 2 ∷ 3 ∷ [])) × (dropped_values es ≡ drop 2 (1 ∷ 2 ∷ 3 ∷ []))
window_budget_example =
    window_budget 2 100 5 (1 ∷ 2 ∷ []) ((50, 3 ∷ []) ∷ []) none (omega arith) refl refl
