-- ===== src/Node/Sorting/Stable.antt =====
-- The sort by tier: its order, and the order within each tier.
use graphrefly_rs.Prelude.{ℕ, ◌≤◌, ◌≡◌, refl, Bool, false, ◌||◌, [], ◌∷◌, arith, keep, ◌==◌}
use graphrefly_rs.Protocol.{Message, Wave}
use graphrefly_rs.Node.Sorting.{
  rank, insert_by_tier, sort_by_tier, is_invalidate, retain_first_invalidate, prepare,
}

module _ {ℓ} {A : Type ℓ} where
  -- Every message of the wave has at least this rank.
  abbrev pub RankFrom : ℕ → Wave A → Type 0
  RankFrom k [] = Unit {0}
  RankFrom k (m ∷ ms) = (k ≤ rank m) × RankFrom k ms

  abbrev pub IsSorted : Wave A → Type 0
  IsSorted [] = Unit {0}
  IsSorted (m ∷ ms) = RankFrom (rank m) ms × IsSorted ms

  pub RankFrom-mono : {j k : ℕ} (ms : Wave A) → j ≤ k → RankFrom k ms → RankFrom j ms
  RankFrom-mono [] h r = tt
  RankFrom-mono (m ∷ ms) h r = (omega arith, RankFrom-mono ms h r.1)

  insert-RankFrom :
      (k : ℕ) (m : Message A) (ms : Wave A)
      → k ≤ rank m
      → RankFrom k ms
      → RankFrom k (insert_by_tier m ms)
  unfolding insert_by_tier
  insert-RankFrom k m [] h r = (h, tt)
  insert-RankFrom k m (x ∷ xs) h r = ground (arith, insert-RankFrom k m xs h r.1)

  insert-IsSorted : (m : Message A) (ms : Wave A) → IsSorted ms → IsSorted (insert_by_tier m ms)
  unfolding insert_by_tier
  insert-IsSorted m [] s = (tt, tt)
  insert-IsSorted m (x ∷ xs) s = ground (
    arith,
    RankFrom-mono {j = rank m} {k = rank x} xs,
    insert-RankFrom (rank x) m xs,
    insert-IsSorted m xs s.1,
  )

  pub sort-IsSorted : (ms : Wave A) → IsSorted (sort_by_tier ms)
  unfolding sort_by_tier
  sort-IsSorted [] = tt
  sort-IsSorted (m ∷ ms) = insert-IsSorted m (sort_by_tier ms) (sort-IsSorted ms)

  abbrev pub of_rank : ℕ → Wave A → Wave A
  of_rank k ms = keep (λ m. rank m == k) ms

  insert-of_rank :
      (k : ℕ) (m : Message A) (ms : Wave A) → of_rank k (insert_by_tier m ms) ≡ of_rank k (m ∷ ms)
  unfolding insert_by_tier
  insert-of_rank k m [] = refl
  insert-of_rank k m (x ∷ xs) = ground (arith, insert-of_rank k m xs)

  pub sort-of_rank : (k : ℕ) (ms : Wave A) → of_rank k (sort_by_tier ms) ≡ of_rank k ms
  unfolding sort_by_tier
  sort-of_rank k [] = refl
  sort-of_rank k (m ∷ ms) = ground (arith, insert-of_rank k m (sort_by_tier ms), sort-of_rank k ms)

  -- The wave that `down` prepares is sorted by tier.
  retain-RankFrom :
      (k : ℕ) (seen : Bool) (ms : Wave A)
      → RankFrom k ms
      → RankFrom k (retain_first_invalidate seen ms)
  unfolding retain_first_invalidate
  retain-RankFrom k seen [] r = tt
  retain-RankFrom k seen (m ∷ ms) r =
      ground (arith, retain-RankFrom k (seen || is_invalidate m) ms r.1)

  retain-IsSorted :
      (seen : Bool) (ms : Wave A) → IsSorted ms → IsSorted (retain_first_invalidate seen ms)
  unfolding retain_first_invalidate
  retain-IsSorted seen [] s = tt
  retain-IsSorted seen (m ∷ ms) s = ground (
    arith,
    retain-RankFrom (rank m) (seen || is_invalidate m) ms s.0,
    retain-IsSorted (seen || is_invalidate m) ms s.1,
  )

  pub prepare-IsSorted : (ms : Wave A) → IsSorted (prepare ms)
  unfolding prepare
  prepare-IsSorted ms = retain-IsSorted false (sort_by_tier ms) (sort-IsSorted ms)
