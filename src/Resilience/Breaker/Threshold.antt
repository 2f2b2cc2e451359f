-- ===== src/Resilience/Breaker/Threshold.antt =====
-- When the breaker of crates/graphrefly/src/resilience.rs opens, over any calls of its node.
use graphrefly_rs.Prelude.{
  ℕ, suc, ◌+◌, ◌≤◌, min, ◌≡◌, refl, ◌∙◌, sym, ap, subst, Bool, true, false, ◌||◌, none, some, List,
  [], ◌∷◌, ◌++◌, arith, u32_max, leb, is_some, if◌then◌else◌,
}
use graphrefly_rs.Resilience.Retry.{RetryEvent}
use graphrefly_rs.Resilience.Breaker.{
  BreakerState, BreakerStatus, closed_status, count_failure, breaker_step, breaker_batch,
  breaker_status, breaker_run,
}

abbrev pub is_failure : RetryEvent → Bool
is_failure (RetryEvent.failure a error) = true
is_failure (RetryEvent.gave_up a error) = true
is_failure e = false

abbrev pub is_success : RetryEvent → Bool
is_success (RetryEvent.success a) = true
is_success e = false

abbrev pub failures_in : List (RetryEvent × ℕ) → ℕ
failures_in [] = 0
failures_in ((e, now) ∷ es) = let rest = failures_in es in if is_failure e then suc rest else rest

abbrev pub recovers : List (RetryEvent × ℕ) → Bool
recovers [] = false
recovers ((e, now) ∷ es) = is_success e || recovers es

-- All events of some batches, in order.
abbrev pub joined : List (List (RetryEvent × ℕ)) → List (RetryEvent × ℕ)
joined [] = []
joined (b ∷ bs) = b ++ joined bs

abbrev pub is_opened : BreakerState → Bool
is_opened BreakerState.opened = true
is_opened BreakerState.closed = false
is_opened BreakerState.half_open = false

-- What a breaker shows after so many failures in a row.
pub record Tracks (threshold : ℕ) (failures : ℕ) (s : BreakerStatus) : Type 0 where
  pub counted : s.failures ≡ min failures u32_max
  pub opens : is_opened s.state ≡ leb threshold failures
  pub timed : is_some s.opened_at_ms ≡ leb threshold failures

count_failure-Tracks :
    (threshold f now : ℕ) (s : BreakerStatus)
    → threshold ≤ u32_max
    → Tracks threshold f s
    → Tracks threshold (suc f) (count_failure threshold now s)
unfolding count_failure
count_failure-Tracks threshold f now s fits t = record {
  counted = ground (arith, t.counted);
  opens = ground (arith, t.counted, t.opens);
  timed = ground (arith, t.counted, t.timed);
}

breaker_batch-append :
    (threshold : ℕ) (xs ys : List (RetryEvent × ℕ)) (s : BreakerStatus)
    → breaker_batch threshold (xs ++ ys) s
      ≡ breaker_batch threshold ys (breaker_batch threshold xs s)
unfolding breaker_batch
breaker_batch-append threshold [] ys s = refl
breaker_batch-append threshold ((e, now) ∷ xs) ys s =
    breaker_batch-append threshold xs ys (breaker_step threshold e now s)

plus_suc : (f n : ℕ) → suc f + n ≡ f + suc n
plus_suc f n = omega arith

breaker_batch-Tracks :
    (threshold f : ℕ) (es : List (RetryEvent × ℕ)) (s : BreakerStatus)
    → threshold ≤ u32_max
    → recovers es ≡ false
    → Tracks threshold f s
    → Tracks threshold (f + failures_in es) (breaker_batch threshold es s)
unfolding breaker_batch breaker_step
breaker_batch-Tracks threshold f [] s fits none_recovers t =
    let same : f + 0 ≡ f = omega arith in rw same t
breaker_batch-Tracks threshold f ((RetryEvent.success a, now) ∷ es) s fits h t = ground arith
breaker_batch-Tracks threshold f ((RetryEvent.failure a error, now) ∷ es) s fits h t =
    subst (λ n. Tracks threshold n (breaker_batch threshold es (count_failure threshold now s)))
      (plus_suc f (failures_in es))
      (breaker_batch-Tracks threshold (suc f) es (count_failure threshold now s) fits h
        (count_failure-Tracks threshold f now s fits t))
breaker_batch-Tracks threshold f ((RetryEvent.gave_up a error, now) ∷ es) s fits h t =
    subst (λ n. Tracks threshold n (breaker_batch threshold es (count_failure threshold now s)))
      (plus_suc f (failures_in es))
      (breaker_batch-Tracks threshold (suc f) es (count_failure threshold now s) fits h
        (count_failure-Tracks threshold f now s fits t))
breaker_batch-Tracks threshold f ((RetryEvent.attempted a, now) ∷ es) s fits h t =
    breaker_batch-Tracks threshold f es s fits h t
breaker_batch-Tracks threshold f ((RetryEvent.retry a delay error, now) ∷ es) s fits h t =
    breaker_batch-Tracks threshold f es s fits h t

closed_status-Tracks : (threshold : ℕ) → 1 ≤ threshold → Tracks threshold 0 closed_status
closed_status-Tracks threshold pos = record {
  counted = refl;
  opens = ground arith;
  timed = ground arith;
}

breaker_run-joined :
    (threshold : ℕ) (bs : List (List (RetryEvent × ℕ))) (s : BreakerStatus)
    → breaker_run threshold bs (some s) ≡ some (breaker_batch threshold (joined bs) s)
unfolding breaker_run breaker_status
breaker_run-joined threshold [] s = unfold breaker_batch in refl
breaker_run-joined threshold (b ∷ bs) s =
    breaker_run-joined threshold bs (breaker_batch threshold b s)
    ∙ ap some (sym (breaker_batch-append threshold b (joined bs) s))

run_since_success :
    (threshold : ℕ) (b : List (RetryEvent × ℕ)) (bs : List (List (RetryEvent × ℕ)))
    (before after : List (RetryEvent × ℕ)) (a now : ℕ)
    → joined (b ∷ bs) ≡ before ++ (RetryEvent.success a, now) ∷ after
    → breaker_run threshold (b ∷ bs) none ≡ some (breaker_batch threshold after closed_status)
unfolding breaker_run breaker_status
run_since_success threshold b bs before after a now split =
    breaker_run-joined threshold bs (breaker_batch threshold b closed_status)
    ∙ ap some (sym (breaker_batch-append threshold b (joined bs) closed_status))
    ∙ ap (λ es. some (breaker_batch threshold es closed_status)) split
    ∙ ap some
        (breaker_batch-append threshold before ((RetryEvent.success a, now) ∷ after) closed_status)
    ∙ unfold breaker_batch in unfold breaker_step in refl

-- However the events come in batches, if the last success is followed by `after`, the breaker has
-- counted the failures of `after` (up to `u32::MAX`), and it is open, with the time it opened,
-- exactly when these have reached the threshold, for a threshold that is positive and a `u32`.
pub breaker_opens_at_threshold :
    (threshold : ℕ) (b : List (RetryEvent × ℕ)) (bs : List (List (RetryEvent × ℕ)))
    (before after : List (RetryEvent × ℕ)) (a now : ℕ)
    → 1 ≤ threshold
    → threshold ≤ u32_max
    → joined (b ∷ bs) ≡ before ++ (RetryEvent.success a, now) ∷ after
    → recovers after ≡ false
    → (s : BreakerStatus) × (breaker_run threshold (b ∷ bs) none ≡ some s)
      × (s.failures ≡ min (failures_in after) u32_max)
      × (is_opened s.state ≡ leb threshold (failures_in after))
      × (is_some s.opened_at_ms ≡ leb threshold (failures_in after))
breaker_opens_at_threshold threshold b bs before after a now pos fits split none_recovers =
    let s = breaker_batch threshold after closed_status in
    let t =
      breaker_batch-Tracks threshold 0 after closed_status fits none_recovers
        (closed_status-Tracks threshold pos) in
    let same : 0 + failures_in after ≡ failures_in after = omega arith in
    (
      s,
      run_since_success threshold b bs before after a now split,
      t.counted ∙ ap (λ n. min n u32_max) same,
      t.opens ∙ ap (leb threshold) same,
      t.timed ∙ ap (leb threshold) same,
    )
