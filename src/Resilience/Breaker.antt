-- ===== src/Resilience/Breaker.antt =====
-- The breaker projected from retry events: `breaker_status_node` of
-- crates/graphrefly/src/resilience.rs. An event comes with what the clock shows when it is handled.
use graphrefly_rs.Prelude.{
  ℕ, Option, none, some, List, [], ◌∷◌, leb, if◌then◌else◌, u32_max, saturating_add,
}
use graphrefly_rs.Resilience.Retry.{RetryEvent}
pub mod Threshold

-- `Open` is `opened`, since `open` is a reserved word.
pub data BreakerState : Type 0 where
  closed opened half_open : BreakerState

pub record BreakerStatus : Type 0 where
  pub state : BreakerState
  pub failures : ℕ
  pub opened_at_ms : Option ℕ

abbrev pub closed_status : BreakerStatus
closed_status = record { state = BreakerState.closed; failures = 0; opened_at_ms = none }

unfoldable pub count_failure : ℕ → ℕ → BreakerStatus → BreakerStatus
count_failure threshold now s =
    let failures = saturating_add u32_max s.failures 1 in
    if leb threshold failures
    then record { state = BreakerState.opened; failures = failures; opened_at_ms = some now }
    else record s { failures = failures }

unfoldable pub breaker_step : ℕ → RetryEvent → ℕ → BreakerStatus → BreakerStatus
breaker_step threshold (RetryEvent.success a) now s = closed_status
breaker_step threshold (RetryEvent.failure a error) now s = count_failure threshold now s
breaker_step threshold (RetryEvent.gave_up a error) now s = count_failure threshold now s
breaker_step threshold (RetryEvent.attempted a) now s = s
breaker_step threshold (RetryEvent.retry a delay error) now s = s

-- The loop over a batch.
unfoldable pub breaker_batch : ℕ → List (RetryEvent × ℕ) → BreakerStatus → BreakerStatus
breaker_batch threshold [] s = s
breaker_batch threshold ((e, now) ∷ es) s =
    breaker_batch threshold es (breaker_step threshold e now s)

-- One call of the node: the status kept from the last call, or a closed one, and the batch.
unfoldable pub breaker_status : ℕ → List (RetryEvent × ℕ) → Option BreakerStatus → BreakerStatus
breaker_status threshold events none = breaker_batch threshold events closed_status
breaker_status threshold events (some kept) = breaker_batch threshold events kept

-- The calls of the node, each keeping its status for the next.
unfoldable pub breaker_run :
    ℕ → List (List (RetryEvent × ℕ)) → Option BreakerStatus → Option BreakerStatus
breaker_run threshold [] kept = kept
breaker_run threshold (events ∷ rest) kept =
    breaker_run threshold rest (some (breaker_status threshold events kept))
