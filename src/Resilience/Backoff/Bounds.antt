-- ===== src/Resilience/Backoff/Bounds.antt =====
-- The range of the delays of a policy, and their growth.
use graphrefly_rs.Prelude.{
  ℕ, zero, suc, ◌+◌, ◌-◌, ◌*◌, ◌^◌, ◌≤◌, ◌≡◌, subst, Option, none, some, arith, u64_max, u32_max,
  saturating_add, saturating_mul, saturating_pow,
}
use native.Mathlib.Nat.{pow-le-pow_right, mul-le-mul_left}
use graphrefly_rs.Resilience.Backoff.{BackoffPolicy, cap, delay_ms, fibonacci}
use graphrefly_rs.Resilience.Backoff.Fibonacci.{fib, fibonacci_saturates}

-- The longest delay that a policy declares.
abbrev pub declared_max : BackoffPolicy → Option ℕ
declared_max BackoffPolicy.no_backoff = none
declared_max (BackoffPolicy.constant d) = some d
declared_max (BackoffPolicy.linear i s m) = m
declared_max (BackoffPolicy.exponential i f m) = m
declared_max (BackoffPolicy.fibonacci_backoff u m) = m

-- A delay is at most what is declared, and fits in a `u64`.
pub WithinMax : Option ℕ → ℕ → Type 0
WithinMax none d = d ≤ u64_max
WithinMax (some m) d = d ≤ m

cap-WithinMax : (v : ℕ) (m : Option ℕ) → v ≤ u64_max → WithinMax m (cap v m)
unfolding cap WithinMax
cap-WithinMax v none h = h
cap-WithinMax v (some m) h = omega arith

-- Every delay is at most the longest that its policy declares, and fits in a `u64` where the policy
-- declares none.
pub delay_ms-WithinMax : (p : BackoffPolicy) (a : ℕ) → WithinMax (declared_max p) (delay_ms p a)
unfolding delay_ms
delay_ms-WithinMax BackoffPolicy.no_backoff a = unfold WithinMax in omega arith
delay_ms-WithinMax (BackoffPolicy.constant d) a = unfold WithinMax in omega arith
delay_ms-WithinMax (BackoffPolicy.linear i s m) a =
    cap-WithinMax (saturating_add u64_max i (saturating_mul u64_max s (a - 1))) m (omega arith)
delay_ms-WithinMax (BackoffPolicy.exponential i f m) a =
    cap-WithinMax (saturating_mul u64_max i (saturating_pow u32_max f (a - 1))) m (omega arith)
delay_ms-WithinMax (BackoffPolicy.fibonacci_backoff u m) a =
    cap-WithinMax (saturating_mul u64_max u (fibonacci a)) m (omega arith)

cap_mono : (v w : ℕ) (m : Option ℕ) → v ≤ w → cap v m ≤ cap w m
unfolding cap
cap_mono v w none h = h
cap_mono v w (some m) h = omega arith

fib_step : (n : ℕ) → fib n ≤ fib (suc n)
fib_step zero = omega arith
fib_step (suc n) = omega arith

mul_mono : (c a b : ℕ) → a ≤ b → c * a ≤ c * b
mul_mono c a b h = mul-le-mul_left c h

pred_mono : (a b : ℕ) → a ≤ b → a - 1 ≤ b - 1
pred_mono a b h = omega arith

fib_mono : (a n : ℕ) → fib a ≤ fib (a + n)
fib_mono a zero = let same : a + 0 ≡ a = omega arith in rw same (omega arith)
fib_mono a (suc n) =
    let next : a + suc n ≡ suc (a + n) = omega arith in
    rw next (omega (arith, fib_mono a n, fib_step (a + n)))

fibonacci_mono : (a b : ℕ) → a ≤ b → fibonacci a ≤ fibonacci b
fibonacci_mono a b h =
    let split : a + (b - a) ≡ b = omega arith in
    let grows : fib a ≤ fib b = subst (λ x. fib a ≤ fib x) split (fib_mono a (b - a)) in
    rw (fibonacci_saturates a, fibonacci_saturates b) (omega arith)

saturated_mul_mono : (c a b : ℕ) → a ≤ b → saturating_mul u64_max c a ≤ saturating_mul u64_max c b
saturated_mul_mono c a b h = let grows = mul_mono c a b h in omega arith

pow_mono : (f a b : ℕ) → 1 ≤ f → a ≤ b → saturating_pow u32_max f a ≤ saturating_pow u32_max f b
pow_mono f a b pos h = let grows : f ^ a ≤ f ^ b = pow-le-pow_right (omega arith) h in omega arith

-- A policy whose delays can only grow: an exponential one has a factor of at least 1.
unfoldable pub Grows : BackoffPolicy → Type 0
Grows BackoffPolicy.no_backoff = Unit
Grows (BackoffPolicy.constant d) = Unit
Grows (BackoffPolicy.linear i s m) = Unit
Grows (BackoffPolicy.exponential i f m) = 1 ≤ f
Grows (BackoffPolicy.fibonacci_backoff u m) = Unit

-- A later attempt waits at least as long, for every policy but an exponential one with factor 0.
pub delay_ms_mono : (p : BackoffPolicy) (a b : ℕ) → Grows p → a ≤ b → delay_ms p a ≤ delay_ms p b
unfolding delay_ms Grows
delay_ms_mono BackoffPolicy.no_backoff a b g h = omega arith
delay_ms_mono (BackoffPolicy.constant d) a b g h = omega arith
delay_ms_mono (BackoffPolicy.linear i s m) a b g h =
    let steps = saturated_mul_mono s (a - 1) (b - 1) (pred_mono a b h) in
    cap_mono (saturating_add u64_max i (saturating_mul u64_max s (a - 1)))
      (saturating_add u64_max i (saturating_mul u64_max s (b - 1))) m (omega arith)
delay_ms_mono (BackoffPolicy.exponential i f m) a b g h =
    cap_mono (saturating_mul u64_max i (saturating_pow u32_max f (a - 1)))
      (saturating_mul u64_max i (saturating_pow u32_max f (b - 1))) m
      (saturated_mul_mono i (saturating_pow u32_max f (a - 1)) (saturating_pow u32_max f (b - 1))
        (pow_mono f (a - 1) (b - 1) g (pred_mono a b h)))
delay_ms_mono (BackoffPolicy.fibonacci_backoff u m) a b g h =
    cap_mono (saturating_mul u64_max u (fibonacci a)) (saturating_mul u64_max u (fibonacci b)) m
      (saturated_mul_mono u (fibonacci a) (fibonacci b) (fibonacci_mono a b h))
