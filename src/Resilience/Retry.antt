-- ===== src/Resilience/Retry.antt =====
-- Retry policies, their events, and the status that is projected from a batch of events: `RetryPolicy`
-- and `retry_status_node` of crates/graphrefly/src/resilience.rs.
use graphrefly_rs.Prelude.{
  ℕ, Bool, true, false, ◌||◌, Option, none, some, List, [], ◌∷◌, String, ltb, ◌==◌, if◌then◌else◌,
  u32_max, saturating_add,
}
use graphrefly_rs.Resilience.Backoff.{BackoffPolicy, delay_ms}
pub mod Status

pub record RetryPolicy : Type 0 where
  pub max_attempts : ℕ
  pub backoff : BackoffPolicy

-- `RetryPolicy::new`, which panics (`none`) when no attempt is allowed.
unfoldable pub new : ℕ → BackoffPolicy → Option RetryPolicy
new max backoff =
    if ltb 0 max then some (record { max_attempts = max; backoff = backoff }) else none

unfoldable pub should_retry : RetryPolicy → ℕ → Bool
should_retry p failed_attempt = ltb failed_attempt p.max_attempts

unfoldable pub next_delay_ms : RetryPolicy → ℕ → Option ℕ
next_delay_ms p next_attempt =
    if (next_attempt == 0) || ltb p.max_attempts next_attempt
    then none
    else some (delay_ms p.backoff next_attempt)

pub data RetryState : Type 0 where
  idle running waiting succeeded failed exhausted : RetryState

pub record RetryStatus : Type 0 where
  pub attempt : ℕ
  pub max_attempts : ℕ
  pub delay : Option ℕ
  pub state : RetryState

-- `Attempt` and `Exhausted` are `attempted` and `gave_up`: the first is a field of each event, the
-- second a state.
pub data RetryEvent : Type 0 where
  attempted : (attempt : ℕ) → RetryEvent
  retry : (attempt delay : ℕ) (error : String) → RetryEvent
  success : (attempt : ℕ) → RetryEvent
  failure : (attempt : ℕ) (error : String) → RetryEvent
  gave_up : (attempt : ℕ) (error : String) → RetryEvent

abbrev pub status_of : RetryPolicy → ℕ → Option ℕ → RetryState → RetryStatus
status_of p attempt delay state = record {
  attempt = attempt;
  max_attempts = p.max_attempts;
  delay = delay;
  state = state;
}

-- The status after one event; it does not look at the status before it.
unfoldable pub next_status : RetryPolicy → RetryEvent → RetryStatus
next_status p (RetryEvent.attempted a) = status_of p a none RetryState.running
next_status p (RetryEvent.retry a delay error) = status_of p a (some delay) RetryState.waiting
next_status p (RetryEvent.success a) = status_of p a none RetryState.succeeded
next_status p (RetryEvent.failure a error) =
    status_of p a (next_delay_ms p (saturating_add u32_max a 1))
      (if should_retry p a then RetryState.failed else RetryState.exhausted)
next_status p (RetryEvent.gave_up a error) = status_of p a none RetryState.exhausted

-- The loop over the batch, from the status `next`.
unfoldable pub status_loop : RetryPolicy → RetryStatus → List RetryEvent → RetryStatus
status_loop p next [] = next
status_loop p next (e ∷ es) = status_loop p (next_status p e) es

unfoldable pub retry_status : RetryPolicy → List RetryEvent → RetryStatus
retry_status p events = status_loop p (status_of p 0 none RetryState.idle) events
