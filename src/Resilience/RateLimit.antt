-- ===== src/Resilience/RateLimit.antt =====
-- The fixed-window rate limiter: `rate_limit_bundle` of crates/graphrefly/src/resilience.rs. Each
-- call of the events node reads the clock once and handles a batch of values.
use graphrefly_rs.Prelude.{
  ℕ, ◌-◌, Bool, ◌&&◌, true, false, Option, none, some, List, [], ◌∷◌, ◌++◌, map, ltb, leb,
  if◌then◌else◌, u64_max, u32_max, saturating_add,
}
pub mod Budget
pub mod Window

pub record RateLimitState : Type 0 where
  pub count : ℕ
  pub reset_at_ms : ℕ
  pub allowed : ℕ
  pub dropped : ℕ

pub record RateLimitStatus : Type 0 where
  pub allowed : ℕ
  pub dropped : ℕ
  pub remaining : ℕ
  pub reset_at_ms : ℕ

-- `Allowed` and `Dropped`, which are also fields.
pub data RateLimitEventKind : Type 0 where
  admitted refused : RateLimitEventKind

pub record RateLimitEvent {ℓ} (A : Type ℓ) : Type ℓ where
  pub kind : RateLimitEventKind
  pub value : A
  pub status : RateLimitStatus

-- The limiter is built only with a positive `max` and window.
unfoldable pub accepts : ℕ → ℕ → Bool
accepts max window = ltb 0 max && ltb 0 window

unfoldable pub fresh_state : ℕ → ℕ → RateLimitState
fresh_state window now = record {
  count = 0;
  reset_at_ms = saturating_add u64_max now window;
  allowed = 0;
  dropped = 0;
}

-- The state kept from the last call, in a new window if the old one has ended.
unfoldable pub open_window : ℕ → ℕ → Option RateLimitState → RateLimitState
open_window window now none =
    let s = fresh_state window now in
    if leb s.reset_at_ms now
    then record s { count = 0; reset_at_ms = saturating_add u64_max now window }
    else s
open_window window now (some s) =
    if leb s.reset_at_ms now
    then record s { count = 0; reset_at_ms = saturating_add u64_max now window }
    else s

unfoldable pub count_value : ℕ → RateLimitState → RateLimitState × RateLimitEventKind
count_value max s =
    if ltb s.count max
    then (
      record s {
        count = saturating_add u32_max s.count 1;
        allowed = saturating_add u64_max s.allowed 1;
      },
      RateLimitEventKind.admitted,
    )
    else (record s { dropped = saturating_add u64_max s.dropped 1 }, RateLimitEventKind.refused)

unfoldable pub status_of : ℕ → RateLimitState → RateLimitStatus
status_of max s = record {
  allowed = s.allowed;
  dropped = s.dropped;
  remaining = max - s.count;
  reset_at_ms = s.reset_at_ms;
}

module _ {ℓ} {A : Type ℓ} where
  abbrev pub event_of : ℕ → A → RateLimitState × RateLimitEventKind → RateLimitEvent A
  event_of max value (s, kind) = record { kind = kind; value = value; status = status_of max s }

  -- The loop over a batch: the state after it, and the events emitted.
  unfoldable pub limit_batch :
      ℕ → List A → RateLimitState → RateLimitState × List (RateLimitEvent A)
  limit_batch max [] s = (s, [])
  limit_batch max (value ∷ values) s =
      let counted = count_value max s in
      let (end, events) = limit_batch max values counted.0 in
      (end, event_of max value counted ∷ events)

  unfoldable pub limit_call :
      ℕ → ℕ → ℕ → List A → Option RateLimitState → RateLimitState × List (RateLimitEvent A)
  limit_call max window now values kept = limit_batch max values (open_window window now kept)

  -- The nodes `allowed`, `dropped` and `status` of the bundle, on the events of one call.
  unfoldable pub allowed_values : List (RateLimitEvent A) → List A
  allowed_values [] = []
  allowed_values (e ∷ es) =
      let rest = allowed_values es in
      elim e.kind [
        | RateLimitEventKind.admitted ↦ e.value ∷ rest
        | RateLimitEventKind.refused ↦ rest
      ]

  unfoldable pub dropped_values : List (RateLimitEvent A) → List A
  dropped_values [] = []
  dropped_values (e ∷ es) =
      let rest = dropped_values es in
      elim e.kind [
        | RateLimitEventKind.admitted ↦ rest
        | RateLimitEventKind.refused ↦ e.value ∷ rest
      ]

  unfoldable pub statuses : List (RateLimitEvent A) → List RateLimitStatus
  statuses es = map (λ e. e.status) es

  -- Successive calls, each with its clock and its values; the events of all, in order.
  unfoldable pub limit_run :
      ℕ
      → ℕ
      → List (ℕ × List A)
      → Option RateLimitState
      → Option RateLimitState × List (RateLimitEvent A)
  limit_run max window [] kept = (kept, [])
  limit_run max window ((now, values) ∷ calls) kept =
      let (s, events) = limit_call max window now values kept in
      let (end, later) = limit_run max window calls (some s) in (end, events ++ later)
