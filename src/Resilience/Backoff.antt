-- ===== src/Resilience/Backoff.antt =====
-- The delay of a retry attempt: `BackoffPolicy`, `cap` and `fibonacci` of
-- crates/graphrefly/src/resilience.rs.
use graphrefly_rs.Prelude.{
  ℕ, zero, suc, ◌-◌, min, Option, none, some, u32_max, u64_max, saturating_add, saturating_mul,
  saturating_pow,
}
pub mod Bounds
pub mod Fibonacci

-- `None` is `no_backoff` and `Fibonacci` is `fibonacci_backoff`.
pub data BackoffPolicy : Type 0 where
  no_backoff : BackoffPolicy
  constant : (delay_ms : ℕ) → BackoffPolicy
  linear : (initial_ms step_ms : ℕ) (max_ms : Option ℕ) → BackoffPolicy
  exponential : (initial_ms factor : ℕ) (max_ms : Option ℕ) → BackoffPolicy
  fibonacci_backoff : (unit_ms : ℕ) (max_ms : Option ℕ) → BackoffPolicy

unfoldable pub cap : ℕ → Option ℕ → ℕ
cap value none = value
cap value (some max) = min value max

-- The loop of `fibonacci`, with its rounds left, `prev` and `curr`.
unfoldable pub fibonacci_loop : ℕ → ℕ → ℕ → ℕ
fibonacci_loop zero prev curr = curr
fibonacci_loop (suc n) prev curr = fibonacci_loop n curr (saturating_add u32_max prev curr)

unfoldable pub fibonacci : ℕ → ℕ
fibonacci zero = 0
fibonacci (suc zero) = 1
fibonacci (suc (suc n)) = fibonacci_loop (suc n) 0 1

unfoldable pub delay_ms : BackoffPolicy → ℕ → ℕ
delay_ms BackoffPolicy.no_backoff attempt = 0
delay_ms (BackoffPolicy.constant delay) attempt = delay
delay_ms (BackoffPolicy.linear initial step max) attempt =
    cap (saturating_add u64_max initial (saturating_mul u64_max step (attempt - 1))) max
delay_ms (BackoffPolicy.exponential initial factor max) attempt =
    cap (saturating_mul u64_max initial (saturating_pow u32_max factor (attempt - 1))) max
delay_ms (BackoffPolicy.fibonacci_backoff unit max) attempt =
    cap (saturating_mul u64_max unit (fibonacci attempt)) max
