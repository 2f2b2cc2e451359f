-- ===== src/Resilience/Retry/Status.antt =====
-- What the projected retry status shows after a batch.
use graphrefly_rs.Prelude.{
  ℕ, ◌+◌, ◌<◌, ◌≡◌, refl, Bool, true, false, none, List, [], ◌∷◌, ◌++◌, arith, u32_max, is_some,
}
use graphrefly_rs.Resilience.Retry.{
  RetryPolicy, RetryEvent, RetryState, RetryStatus, should_retry, next_delay_ms, next_status,
  status_loop, retry_status, status_of,
}

-- A failed attempt of a number below `u32::MAX` may be retried exactly when the next attempt has a
-- delay.
retry-delay :
    (p : RetryPolicy) (a : ℕ) → a < u32_max → is_some (next_delay_ms p (a + 1)) ≡ should_retry p a
unfolding should_retry next_delay_ms
retry-delay p a h = ground arith

-- The states in which another attempt will follow.
abbrev pub awaits_retry : RetryState → Bool
awaits_retry RetryState.waiting = true
awaits_retry RetryState.failed = true
awaits_retry s = false

abbrev pub attempt_of : RetryEvent → ℕ
attempt_of (RetryEvent.attempted a) = a
attempt_of (RetryEvent.retry a delay error) = a
attempt_of (RetryEvent.success a) = a
attempt_of (RetryEvent.failure a error) = a
attempt_of (RetryEvent.gave_up a error) = a

status_loop-append :
    (p : RetryPolicy) (s : RetryStatus) (es : List RetryEvent) (e : RetryEvent)
    → status_loop p s (es ++ e ∷ []) ≡ next_status p e
unfolding status_loop
status_loop-append p s [] e = refl
status_loop-append p s (x ∷ es) e = status_loop-append p (next_status p x) es e

next_status-delay :
    (p : RetryPolicy) (e : RetryEvent)
    → attempt_of e < u32_max
    → let s = next_status p e in
      (s.attempt ≡ attempt_of e)
      × (s.max_attempts ≡ p.max_attempts)
      × (is_some s.delay ≡ awaits_retry s.state)
unfolding next_status
next_status-delay p (RetryEvent.attempted a) h = (refl, refl, refl)
next_status-delay p (RetryEvent.retry a delay error) h = (refl, refl, refl)
next_status-delay p (RetryEvent.success a) h = (refl, refl, refl)
next_status-delay p (RetryEvent.failure a error) h = (refl, refl, failed_delay)
  where
    failed_delay :
        is_some (next_status p (RetryEvent.failure a error)).delay
        ≡ awaits_retry (next_status p (RetryEvent.failure a error)).state
    failed_delay = ground (arith, retry-delay p a h)
next_status-delay p (RetryEvent.gave_up a error) h = (refl, refl, refl)

-- After any batch of events, the status is about the last one: it shows that event's attempt and
-- the policy's limit, and it shows a delay exactly when it says that another attempt will
-- follow (waiting, or failed with attempts left), for attempts below `u32::MAX`.
pub retry_status-last :
    (p : RetryPolicy) (es : List RetryEvent) (e : RetryEvent)
    → attempt_of e < u32_max
    → let s = retry_status p (es ++ e ∷ []) in
      (s.attempt ≡ attempt_of e)
      × (s.max_attempts ≡ p.max_attempts)
      × (is_some s.delay ≡ awaits_retry s.state)
unfolding retry_status
retry_status-last p es e h =
    rw (status_loop-append p (status_of p 0 none RetryState.idle) es e) (next_status-delay p e h)
