-- ===== src/Node/Down/Invalidation.antt =====
-- INVALIDATE, repeated.
use graphrefly_rs.Prelude.{
  ℕ, zero, suc, ◌≡◌, refl, true, false, [], ◌∷◌, ◌++◌, map, arith, ◌∙◌, ap, if◌then◌else◌,
}
use graphrefly_rs.Protocol.{Message, Wave, tier}
use graphrefly_rs.Node.State.{NodeState, Delivery, Effect}
use graphrefly_rs.Node.Sorting.{prepare, sort_by_tier, insert_by_tier, retain_first_invalidate}
use graphrefly_rs.Node.Steps.{returned}
use graphrefly_rs.Node.Gates.{should_buffer_on_pause}
use graphrefly_rs.Node.Down.{down, deliver, send_all, send_one, invalidate, end_external_wave}
use graphrefly_rs.Node.Down.External.{down_outside}

module _ {ℓ} {A : Type ℓ} where
  abbrev pub repeated : ℕ → Wave A
  repeated zero = []
  repeated (suc k) = Message.invalidate ∷ repeated k

  insert-repeated : (k : ℕ) → insert_by_tier Message.invalidate (repeated k) ≡ repeated (suc k)
  unfolding insert_by_tier tier
  insert-repeated zero = refl
  insert-repeated (suc k) = refl

  sort-repeated : (k : ℕ) → sort_by_tier (repeated k) ≡ repeated k
  unfolding sort_by_tier
  sort-repeated zero = refl
  sort-repeated (suc k) = rw (sort-repeated k, sort_by_tier) (insert-repeated k)

  retain-repeated : (k : ℕ) → retain_first_invalidate true (repeated k) ≡ []
  unfolding retain_first_invalidate
  retain-repeated zero = refl
  retain-repeated (suc k) = retain-repeated k

  prepare-repeated : (k : ℕ) → prepare (repeated (suc k)) ≡ Message.invalidate ∷ []
  unfolding prepare retain_first_invalidate
  prepare-repeated k = rw (sort-repeated (suc k)) (ap (◌∷◌ Message.invalidate) (retain-repeated k))

  delivered_once :
      (n : NodeState A)
      → deliver false (Message.invalidate ∷ []) n ≡ (end_external_wave (invalidate n), returned)
  unfolding deliver send_all send_one
  delivered_once n = refl

  invalidated_again : (n : NodeState A) → invalidate (invalidate n) ≡ invalidate n
  unfolding invalidate
  invalidated_again n = ground arith

  -- A wave of one or more INVALIDATEs, sent from outside to a live node that neither a batch nor a
  -- pause holds back, acts once: if the node has a value it loses it, its hooks run and one
  -- INVALIDATE goes out; if it has none, nothing goes out. To invalidate again changes nothing.
  pub invalidates_once :
      (d : Delivery) (k : ℕ) (n : NodeState A)
      → n.value.terminal ≡ false
      → n.wave.inside_run_wave ≡ false
      → d.collecting_batch ≡ false
      → should_buffer_on_pause n ≡ false
      → (down d (repeated (suc k)) n ≡ (end_external_wave (invalidate n), returned))
        × ((invalidate n).effects ≡ (
            if n.value.has_data
            then n.effects
              ++ (map Effect.ran_hook n.aux.on_invalidate ++ Effect.sent Message.invalidate ∷ [])
            else n.effects))
        × ((invalidate n).value.has_data ≡ false)
        × (invalidate (invalidate n) ≡ invalidate n)
  unfolding invalidate
  invalidates_once d k n live outside free awake = (
    down_outside d (repeated (suc k)) n live outside free awake
        ∙ (ap (λ ms. deliver false ms n) (prepare-repeated k) ∙ delivered_once n),
    ground arith,
    ground arith,
    invalidated_again n,
  )
