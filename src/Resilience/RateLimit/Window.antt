-- ===== src/Resilience/RateLimit/Window.antt =====
-- The limiter of crates/graphrefly/src/resilience.rs over the calls of one window.
use graphrefly_rs.Prelude.{
  ℕ, ◌+◌, ◌-◌, ◌≤◌, ◌≡◌, refl, ◌∙◌, sym, ap, subst, Bool, true, false, ◌&&◌, Option, none, some,
  List, [], ◌∷◌, ◌++◌, take, drop, arith, length, ltb, leb, u32_max, u64_max, min, saturating_add,
}
use graphrefly_rs.Resilience.RateLimit.{
  RateLimitState, RateLimitEvent, open_window, limit_batch, limit_call, allowed_values,
  dropped_values, limit_run, fresh_state,
}
use graphrefly_rs.Resilience.RateLimit.Budget.{
  take_nil, drop_nil, take-append, drop-append, allowed_values-append, dropped_values-append,
  batch_budget, Spends,
}

open_window-before :
    (window now : ℕ) (s : RateLimitState)
    → ltb now s.reset_at_ms ≡ true
    → open_window window now (some s) ≡ s
unfolding open_window
open_window-before window now s h = ground arith

both_true : (a b : Bool) → a && b ≡ true → (a ≡ true) × (b ≡ true)
both_true true b h = (refl, h)
both_true false b h = ground arith

-- Whether a call at this time opens a new window.
abbrev pub opens_window : ℕ → Option RateLimitState → Bool
opens_window now none = true
opens_window now (some s) = leb s.reset_at_ms now

open_window-new :
    (window now : ℕ) (kept : Option RateLimitState)
    → opens_window now kept ≡ true
    → ((open_window window now kept).count ≡ 0)
      × ((open_window window now kept).reset_at_ms ≡ saturating_add u64_max now window)
unfolding open_window fresh_state
open_window-new window now none h = ground arith
open_window-new window now (some s) h = ground arith

module _ {ℓ} {A : Type ℓ} where
  -- The values of some calls, in order.
  abbrev pub values_of : List (ℕ × List A) → List A
  values_of [] = []
  values_of ((now, vs) ∷ calls) = vs ++ values_of calls

  -- All clocks before a time.
  abbrev pub before : ℕ → List (ℕ × List A) → Bool
  before t [] = true
  before t ((now, vs) ∷ calls) = ltb now t && before t calls

  -- The values that calls let through, and those they refuse, with a budget of `k` left.
  Shares : ℕ → List A → List (RateLimitEvent A) → Type ℓ
  Shares k vs es = (allowed_values es ≡ take k vs) × (dropped_values es ≡ drop k vs)

  Shares-append :
      (k : ℕ) (vs ws : List A) (es fs : List (RateLimitEvent A))
      → Shares k vs es
      → Shares (k - length vs) ws fs
      → Shares k (vs ++ ws) (es ++ fs)
  unfolding Shares
  Shares-append k vs ws es fs (ae, de) (af, df) =
      rw
        (
          allowed_values-append es fs,
          dropped_values-append es fs,
          take-append k vs ws,
          drop-append k vs ws,
          ae,
          de,
          af,
          df,
        )
        (refl, refl)

  spent-Shares :
      (max : ℕ) (vs : List A) (s : RateLimitState)
      → Spends max vs s
      → Shares (max - s.count) vs (limit_batch max vs s).1
  unfolding Spends Shares
  spent-Shares max vs s (allowed, dropped, _, _) = (allowed, dropped)

  spent_count :
      (max : ℕ) (vs : List A) (s : RateLimitState)
      → Spends max vs s
      → (limit_batch max vs s).0.count ≡ min max (s.count + length vs)
  unfolding Spends
  spent_count max vs s (_, _, counted, _) = counted

  spent_reset :
      (max : ℕ) (vs : List A) (s : RateLimitState)
      → Spends max vs s
      → (limit_batch max vs s).0.reset_at_ms ≡ s.reset_at_ms
  unfolding Spends
  spent_reset max vs s (_, _, _, reset) = reset

  -- A batch, and a run in the same window after it.
  call_budget :
      (max : ℕ) (vs later : List A) (es : List (RateLimitEvent A)) (s : RateLimitState)
      → max ≤ u32_max
      → s.count ≤ max
      → Shares (max - (limit_batch max vs s).0.count) later es
      → Shares (max - s.count) (vs ++ later) ((limit_batch max vs s).1 ++ es)
  call_budget max vs later es s fits within shares =
      let spent = batch_budget max vs s fits within in
      let left : max - (limit_batch max vs s).0.count ≡ (max - s.count) - length vs =
        omega (arith, spent_count max vs s spent) in
      Shares-append (max - s.count) vs later (limit_batch max vs s).1 es
        (spent-Shares max vs s spent) (subst (λ k. Shares k later es) left shares)

  after_batch :
      (max : ℕ) (vs : List A) (calls : List (ℕ × List A)) (s : RateLimitState)
      → max ≤ u32_max
      → s.count ≤ max
      → before s.reset_at_ms calls ≡ true
      → ((limit_batch max vs s).0.count ≤ max)
        × (before (limit_batch max vs s).0.reset_at_ms calls ≡ true)
  after_batch max vs calls s fits within inside =
      let spent = batch_budget max vs s fits within in
      (
        omega (arith, spent_count max vs s spent),
        ap (λ t. before t calls) (spent_reset max vs s spent) ∙ inside,
      )

  run_budget :
      (max window : ℕ) (calls : List (ℕ × List A)) (s : RateLimitState)
      → max ≤ u32_max
      → s.count ≤ max
      → before s.reset_at_ms calls ≡ true
      → Shares (max - s.count) (values_of calls) (limit_run max window calls (some s)).1
  unfolding limit_run limit_call
  run_budget max window [] s fits within inside =
      unfold Shares in
      unfold allowed_values in
      unfold dropped_values in (sym (take_nil A (max - s.count)), sym (drop_nil A (max - s.count)))
  run_budget max window ((now, vs) ∷ calls) s fits within inside =
      let end = (limit_batch max vs s).0 in
      let (now_in, rest_in) =
        both_true (ltb now s.reset_at_ms) (before s.reset_at_ms calls) inside in
      let (end_within, end_inside) = after_batch max vs calls s fits within rest_in in
      rw (open_window-before window now s now_in) (
        call_budget max vs (values_of calls) (limit_run max window calls (some end)).1 s fits within
          (run_budget max window calls end fits end_within end_inside))

  -- In a window that a call opens, however its values come in calls, the first `max` values are
  -- let through and all others refused, in order, where `max` is a `u32`: a limiter never lets more
  -- than `max` values through in a window, and never refuses one while budget is left.
  pub window_budget :
      (max window now : ℕ) (vs : List A) (calls : List (ℕ × List A)) (kept : Option RateLimitState)
      → max ≤ u32_max
      → opens_window now kept ≡ true
      → before (saturating_add u64_max now window) calls ≡ true
      → let es = (limit_run max window ((now, vs) ∷ calls) kept).1 in
        (allowed_values es ≡ take max (vs ++ values_of calls))
        × (dropped_values es ≡ drop max (vs ++ values_of calls))
  unfolding Shares limit_run limit_call
  window_budget max window now vs calls kept fits opens inside =
      let s = open_window window now kept in
      let end = (limit_batch max vs s).0 in
      let (none_used, reset) = open_window-new window now kept opens in
      let within : s.count ≤ max = omega arith in
      let inside_s = ap (λ t. before t calls) reset ∙ inside in
      let (end_within, end_inside) = after_batch max vs calls s fits within inside_s in
      let whole : max - s.count ≡ max = omega arith in
      subst
        (λ k.
          Shares k (vs ++ values_of calls)
            ((limit_batch max vs s).1 ++ (limit_run max window calls (some end)).1))
        whole
        (call_budget max vs (values_of calls) (limit_run max window calls (some end)).1 s fits
          within (run_budget max window calls end fits end_within end_inside))
