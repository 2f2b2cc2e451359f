-- ===== src/Node/Slots/Dirty.antt =====
-- How the writes to dependency slots change the number of dirty ones.
use graphrefly_rs.Prelude.{
  ℕ, zero, suc, ◌<◌, ◌≡◌, refl, true, false, List, [], ◌∷◌, map, arith, length,
}
use graphrefly_rs.Node.State.{DepSlot}
use graphrefly_rs.Node.Slots.{update_at, dirty_at, count_dirty}

module _ {ℓ} {A : Type ℓ} where
  pub count_dirty-map :
      (f : DepSlot A → DepSlot A) (ss : List (DepSlot A))
      → ((s : DepSlot A) → (f s).dirty ≡ s.dirty)
      → count_dirty (map f ss) ≡ count_dirty ss
  unfolding count_dirty
  count_dirty-map f [] h = refl
  count_dirty-map f (s ∷ ss) h = ground (arith, h s, count_dirty-map f ss h)

  pub count_dirty-update_at :
      (i : ℕ) (f : DepSlot A → DepSlot A) (ss : List (DepSlot A))
      → ((s : DepSlot A) → (f s).dirty ≡ s.dirty)
      → count_dirty (update_at i f ss) ≡ count_dirty ss
  unfolding count_dirty update_at
  count_dirty-update_at i f [] h = refl
  count_dirty-update_at zero f (s ∷ ss) h = ground (arith, h s)
  count_dirty-update_at (suc i) f (s ∷ ss) h = ground (arith, count_dirty-update_at i f ss h)

  pub count_dirty-mark :
      (i : ℕ) (f : DepSlot A → DepSlot A) (ss : List (DepSlot A))
      → ((s : DepSlot A) → (f s).dirty ≡ true)
      → i < length ss
      → dirty_at i ss ≡ false
      → count_dirty (update_at i f ss) ≡ suc (count_dirty ss)
  unfolding count_dirty update_at dirty_at
  count_dirty-mark i f [] h l e = absurd (omega arith)
  count_dirty-mark zero f (s ∷ ss) h l e = ground (arith, h s)
  count_dirty-mark (suc i) f (s ∷ ss) h l e = ground (arith, count_dirty-mark i f ss h)

  pub count_dirty-clear :
      (i : ℕ) (f : DepSlot A → DepSlot A) (ss : List (DepSlot A))
      → ((s : DepSlot A) → (f s).dirty ≡ false)
      → dirty_at i ss ≡ true
      → suc (count_dirty (update_at i f ss)) ≡ count_dirty ss
  unfolding count_dirty update_at dirty_at
  count_dirty-clear i f [] h e = ground arith
  count_dirty-clear zero f (s ∷ ss) h e = ground (arith, h s)
  count_dirty-clear (suc i) f (s ∷ ss) h e = ground (arith, count_dirty-clear i f ss h)

  pub count_dirty-reset :
      (f : DepSlot A → DepSlot A) (ss : List (DepSlot A))
      → ((s : DepSlot A) → (f s).dirty ≡ false)
      → count_dirty (map f ss) ≡ 0
  unfolding count_dirty
  count_dirty-reset f [] h = refl
  count_dirty-reset f (s ∷ ss) h = ground (arith, h s, count_dirty-reset f ss h)

  pub not-dirty_of_count :
      (i : ℕ) (ss : List (DepSlot A)) → count_dirty ss ≡ 0 → dirty_at i ss ≡ false
  unfolding count_dirty dirty_at
  not-dirty_of_count i [] h = refl
  not-dirty_of_count zero (s ∷ ss) h = ground arith
  not-dirty_of_count (suc i) (s ∷ ss) h = ground (arith, not-dirty_of_count i ss)
