-- ===== src/Resilience.antt =====
-- The passive resilience policies of crates/graphrefly/src/resilience.rs: retry delays and the
-- projections of retry events, breaker state and rate limits.
pub mod Backoff
pub mod Retry
pub mod Breaker
pub mod RateLimit
mod Examples
