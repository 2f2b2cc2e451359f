-- ===== src/Resilience/RateLimit/Budget.antt =====
-- A batch and the budget of a window.
use graphrefly_rs.Prelude.{
  ℕ, zero, suc, ◌+◌, ◌-◌, ◌≤◌, ◌<◌, ◌≡◌, refl, ◌∙◌, sym, ap, List, [], ◌∷◌, ◌++◌, take, drop, arith,
  length, u32_max, u64_max, ◌⊎◌, inl, inr, min, saturating_add,
}
use graphrefly_rs.Resilience.RateLimit.{
  RateLimitState, RateLimitEvent, RateLimitEventKind, count_value, limit_batch, allowed_values,
  dropped_values,
}

abbrev after_admitted : RateLimitState → RateLimitState
after_admitted s = record s {
  count = saturating_add u32_max s.count 1;
  allowed = saturating_add u64_max s.allowed 1;
}

abbrev after_refused : RateLimitState → RateLimitState
after_refused s = record s { dropped = saturating_add u64_max s.dropped 1 }

admits :
    (max : ℕ) (s : RateLimitState)
    → s.count < max
    → count_value max s ≡ (after_admitted s, RateLimitEventKind.admitted)
unfolding count_value
admits max s h = ground arith

refuses :
    (max : ℕ) (s : RateLimitState)
    → max ≤ s.count
    → count_value max s ≡ (after_refused s, RateLimitEventKind.refused)
unfolding count_value
refuses max s h = ground arith

budget_left : (a b : ℕ) → (a < b) ⊎ (b ≤ a)
budget_left a b = ground arith

pub take_nil {ℓ} : (A : Type ℓ) (n : ℕ) → take {A = A} n [] ≡ []
take_nil A zero = refl
take_nil A (suc n) = refl

pub drop_nil {ℓ} : (A : Type ℓ) (n : ℕ) → drop {A = A} n [] ≡ []
drop_nil A zero = refl
drop_nil A (suc n) = refl

module _ {ℓ} {A : Type ℓ} where
  pub take-append :
      (n : ℕ) (xs ys : List A) → take n (xs ++ ys) ≡ take n xs ++ take (n - length xs) ys
  take-append zero xs ys = let none_left : 0 - length xs ≡ 0 = omega arith in rw none_left refl
  take-append (suc n) [] ys = let same : suc n - 0 ≡ suc n = omega arith in rw same refl
  take-append (suc n) (x ∷ xs) ys =
      let less : suc n - suc (length xs) ≡ n - length xs = omega arith in
      rw (take-append n xs ys, less) refl

  pub drop-append :
      (n : ℕ) (xs ys : List A) → drop n (xs ++ ys) ≡ drop n xs ++ drop (n - length xs) ys
  drop-append zero xs ys = let none_left : 0 - length xs ≡ 0 = omega arith in rw none_left refl
  drop-append (suc n) [] ys = let same : suc n - 0 ≡ suc n = omega arith in rw same refl
  drop-append (suc n) (x ∷ xs) ys =
      let less : suc n - suc (length xs) ≡ n - length xs = omega arith in
      rw (drop-append n xs ys, less) refl

  pub allowed_values-append :
      (xs ys : List (RateLimitEvent A))
      → allowed_values (xs ++ ys) ≡ allowed_values xs ++ allowed_values ys
  unfolding allowed_values
  allowed_values-append [] ys = refl
  allowed_values-append (e ∷ xs) ys = ground (arith, allowed_values-append xs ys)

  pub dropped_values-append :
      (xs ys : List (RateLimitEvent A))
      → dropped_values (xs ++ ys) ≡ dropped_values xs ++ dropped_values ys
  unfolding dropped_values
  dropped_values-append [] ys = refl
  dropped_values-append (e ∷ xs) ys = ground (arith, dropped_values-append xs ys)

  -- What a batch does to a window with some of its budget used.
  unfoldable pub Spends : ℕ → List A → RateLimitState → Type ℓ
  Spends max vs s =
      let (end, es) = limit_batch max vs s in
      (allowed_values es ≡ take (max - s.count) vs)
      × (dropped_values es ≡ drop (max - s.count) vs)
      × (end.count ≡ min max (s.count + length vs))
      × (end.reset_at_ms ≡ s.reset_at_ms)

  spend_admitted :
      (max : ℕ) (v : A) (vs : List A) (s : RateLimitState)
      → max ≤ u32_max
      → s.count < max
      → Spends max vs (after_admitted s)
      → Spends max (v ∷ vs) s
  unfolding Spends limit_batch allowed_values dropped_values
  spend_admitted max v vs s fits room (allowed, dropped, counted, reset) =
      let one : saturating_add u32_max s.count 1 ≡ suc s.count = omega arith in
      let less : max - s.count ≡ suc (max - saturating_add u32_max s.count 1) = omega arith in
      rw (admits max s room, less) (ap (◌∷◌ v) allowed, dropped, counted ∙ omega arith, reset)

  spend_refused :
      (max : ℕ) (v : A) (vs : List A) (s : RateLimitState)
      → s.count ≤ max
      → max ≤ s.count
      → Spends max vs (after_refused s)
      → Spends max (v ∷ vs) s
  unfolding Spends limit_batch allowed_values dropped_values
  spend_refused max v vs s within full (allowed, dropped, counted, reset) =
      let spent : max - s.count ≡ 0 = omega arith in
      rw (refuses max s full, spent)
        (
          allowed ∙ ap (λ k. take k vs) spent,
          ap (◌∷◌ v) (dropped ∙ ap (λ k. drop k vs) spent),
          counted ∙ omega arith,
          reset,
        )

  pub batch_budget :
      (max : ℕ) (vs : List A) (s : RateLimitState) → max ≤ u32_max → s.count ≤ max → Spends max vs s
  batch_budget max [] s fits within =
      let least : s.count ≡ min max (s.count + 0) = omega arith in
      unfold Spends in
      unfold limit_batch in
      unfold allowed_values in
      unfold dropped_values in
      (sym (take_nil A (max - s.count)), sym (drop_nil A (max - s.count)), least, refl)
  batch_budget max (v ∷ vs) s fits within = elim (budget_left s.count max) [
    | inl room ↦
        spend_admitted max v vs s fits room
          (batch_budget max vs (after_admitted s) fits (omega arith))
    | inr full ↦
        spend_refused max v vs s within full (batch_budget max vs (after_refused s) fits within)
  ]
