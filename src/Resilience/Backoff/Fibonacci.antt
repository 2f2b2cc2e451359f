-- ===== src/Resilience/Backoff/Fibonacci.antt =====
-- The loop of `fibonacci` and the Fibonacci numbers.
use graphrefly_rs.Prelude.{
  ℕ, zero, suc, ◌+◌, min, ◌≡◌, refl, ◌∙◌, sym, ap, arith, u32_max, saturating_add,
}
use graphrefly_rs.Resilience.Backoff.{fibonacci_loop, fibonacci}

-- The Fibonacci numbers, with no bound.
abbrev pub fib : ℕ → ℕ
fib zero = 0
fib (suc zero) = 1
fib (suc (suc n)) = fib (suc n) + fib n

next_fib :
    (k : ℕ)
    → saturating_add u32_max (min (fib k) u32_max) (min (fib (suc k)) u32_max)
      ≡ min (fib (suc (suc k))) u32_max
next_fib k = omega arith

fibonacci_loop-fib :
    (n k : ℕ)
    → fibonacci_loop n (min (fib k) u32_max) (min (fib (suc k)) u32_max)
      ≡ min (fib (suc (n + k))) u32_max
unfolding fibonacci_loop
fibonacci_loop-fib zero k =
    let same : 0 + k ≡ k = omega arith in sym (ap (λ i. min (fib (suc i)) u32_max) same)
fibonacci_loop-fib (suc n) k =
    let shift : n + suc k ≡ suc n + k = omega arith in
    ap (fibonacci_loop n (min (fib (suc k)) u32_max)) (next_fib k)
    ∙ fibonacci_loop-fib n (suc k)
    ∙ ap (λ i. min (fib (suc i)) u32_max) shift

-- The number that the loop computes is the Fibonacci number of its argument, or `u32::MAX` where
-- that is larger.
pub fibonacci_saturates : (n : ℕ) → fibonacci n ≡ min (fib n) u32_max
unfolding fibonacci
fibonacci_saturates zero = refl
fibonacci_saturates (suc zero) = refl
fibonacci_saturates (suc (suc n)) =
    let shift : suc n + 0 ≡ suc n = omega arith in
    fibonacci_loop-fib (suc n) 0 ∙ ap (λ i. min (fib (suc i)) u32_max) shift
