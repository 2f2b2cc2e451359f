-- ===== src/WorkQueue/Claims/Oldest.antt =====
-- The order in which candidates are claimed: `sort_by` in `claim_work` of
-- crates/graphrefly/src/work_queue.rs.
use mathlib.Core.List.{Perm}
use mathlib.Core.List.Perm
use graphrefly_rs.Prelude.{ℕ, ◌<◌, ◌⊎◌, ◌≡◌, ◌≢◌, List, [], ◌∷◌, String}
use Prim.Native.Nat.{gt}
use graphrefly_rs.WorkQueue.State.{Host}

module _ (host : Host) where
  -- The contract of the order: a lower number of admission, or the same one and no later id.
  unfoldable pub Before : ℕ × String → ℕ × String → Type 0
  Before (i, a) (j, b) = (i < j) ⊎ ((i ≡ j) × (host.order.cmp a b ≢ gt))

  -- Every candidate of the list comes no earlier than this one.
  abbrev pub AllLater : ℕ × String → List (ℕ × String) → Type 0
  AllLater c [] = Unit {0}
  AllLater c (d ∷ ds) = Before c d × AllLater c ds

  abbrev pub InClaimOrder : List (ℕ × String) → Type 0
  InClaimOrder [] = Unit {0}
  InClaimOrder (c ∷ cs) = AllLater c cs × InClaimOrder cs
