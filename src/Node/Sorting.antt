-- ===== src/Node/Sorting.antt =====
-- The order in which `down` sends a wave: `sort_by_key` by tier, which is stable, and then only the
-- first INVALIDATE.
pub mod Stable
use graphrefly_rs.Prelude.{ℕ, Bool, true, false, ◌||◌, [], ◌∷◌, leb, if◌then◌else◌}
use graphrefly_rs.Protocol.{Message, Wave, as_u8, tier}

module _ {ℓ} {A : Type ℓ} where
  abbrev pub rank : Message A → ℕ
  rank m = as_u8 (tier m)

  -- Before the first message of a higher or equal tier.
  unfoldable pub insert_by_tier : Message A → Wave A → Wave A
  insert_by_tier m [] = m ∷ []
  insert_by_tier m (x ∷ xs) =
      let rest = insert_by_tier m xs in if leb (rank m) (rank x) then m ∷ x ∷ xs else x ∷ rest

  unfoldable pub sort_by_tier : Wave A → Wave A
  unfolding insert_by_tier
  sort_by_tier [] = []
  sort_by_tier (m ∷ ms) = insert_by_tier m (sort_by_tier ms)

  abbrev pub is_invalidate : Message A → Bool
  is_invalidate Message.invalidate = true
  is_invalidate _ = false

  -- `retain` with the flag `seen`.
  unfoldable pub retain_first_invalidate : Bool → Wave A → Wave A
  retain_first_invalidate seen [] = []
  retain_first_invalidate seen (m ∷ ms) =
      let rest = retain_first_invalidate (seen || is_invalidate m) ms in
      if is_invalidate m then (if seen then rest else m ∷ rest) else m ∷ rest

  unfoldable pub prepare : Wave A → Wave A
  unfolding sort_by_tier retain_first_invalidate
  prepare ms = retain_first_invalidate false (sort_by_tier ms)
