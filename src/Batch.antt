-- ===== src/Batch.antt =====
-- Batches: the frame that collects settle waves, its commit and its rollback, of
-- crates/graphrefly/src/batch.rs. Nodes and graph roots are numbers.
use graphrefly_rs.Prelude.{
  ℕ, zero, suc, ◌==◌, Bool, true, false, not, ◌&&◌, ◌||◌, Option, none, some, List, [], ◌∷◌, ◌++◌,
  length, get_elem?, any, if◌then◌else◌, is_some,
}
use graphrefly_rs.Node.Steps.{Exit}
pub mod Collects
pub mod Examples

-- The cells `committed` and `rolled_back` that a frame shares with its tasks are parts of it.
pub record ActiveBatch {ℓ} (W : Type ℓ) : Type ℓ where
  pub targets : List ℕ
  pub order : List ℕ
  pub deferred : List (Option W)
  pub boundary_roots : List ℕ
  pub committed : Bool
  pub rolled_back : Bool
  pub collecting : Bool

abbrev pub next_place : Option ℕ → Option ℕ
next_place none = none
next_place (some i) = some (suc i)

-- `position` of a target.
unfoldable pub position : ℕ → List ℕ → Option ℕ
position target [] = none
position target (t ∷ ts) =
    let rest = position target ts in if t == target then some 0 else next_place rest

-- `deferred[index] = ..`; the index is in range.
unfoldable pub set_at {ℓ} : {A : Type ℓ} → ℕ → A → List A → List A
set_at i a [] = []
set_at zero a (x ∷ xs) = a ∷ xs
set_at (suc i) a (x ∷ xs) = x ∷ set_at i a xs

-- The loops of `commit` and `rollback` stop when a node panics, or at an index out of range.
module _ {ℓ'} {X : Type ℓ'} where
  abbrev pub go_on : X × Exit → (X → X × Exit) → X × Exit
  go_on (x, Exit.returned) k = k x
  go_on (x, Exit.panicked) k = (x, Exit.panicked)

  abbrev pub at_target : Option ℕ → (ℕ → X → X × Exit) → X → X × Exit
  at_target none k x = (x, Exit.panicked)
  at_target (some t) k x = k t x

module _ {ℓ} {W : Type ℓ} where
  unfoldable pub new_batch : ActiveBatch W
  new_batch = record {
    targets = [];
    order = [];
    deferred = [];
    boundary_roots = [];
    committed = false;
    rolled_back = false;
    collecting = true;
  }

  -- On the frame of the thread, if there is one.
  unfoldable pub boundary_drains_blocked : Option (ActiveBatch W) → Bool
  boundary_drains_blocked active = is_some active

  unfoldable pub collecting_batch : Option (ActiveBatch W) → Bool
  collecting_batch none = false
  collecting_batch (some b) = b.collecting

  unfoldable pub active_batch_committed_token : Option (ActiveBatch W) → Option Bool
  active_batch_committed_token none = none
  active_batch_committed_token (some b) = some b.committed

  -- `root` is the graph root of the target.
  unfoldable pub register_boundary_root : ℕ → Option (ActiveBatch W) → Option (ActiveBatch W)
  register_boundary_root root none = none
  register_boundary_root root (some b) =
      if any (λ r. r == root) b.boundary_roots
      then some b
      else some (record b { boundary_roots = b.boundary_roots ++ root ∷ [] })

  -- A wave for a target whose place is known, or for a new target, which is pinned if it is live.
  unfoldable pub defer_at : Option ℕ → Bool → ℕ → W → ActiveBatch W → ActiveBatch W × Bool
  defer_at (some index) live target wave b =
      (record b { deferred = set_at index (some wave) b.deferred }, true)
  defer_at none false target wave b = (b, false)
  defer_at none true target wave b =
      let index = length b.targets in
      (
        record b {
          targets = b.targets ++ target ∷ [];
          order = b.order ++ index ∷ [];
          deferred = set_at index (some wave) (b.deferred ++ none ∷ []);
        },
        true,
      )

  abbrev pub in_frame : ActiveBatch W × Bool → Option (ActiveBatch W) × Bool
  in_frame (b, taken) = (some b, taken)

  unfoldable pub defer_to_batch :
      Bool → ℕ → W → Option (ActiveBatch W) → Option (ActiveBatch W) × Bool
  defer_to_batch live target wave none = (none, false)
  defer_to_batch live target wave (some b) =
      if b.collecting
      then in_frame (defer_at (position target b.targets) live target wave b)
      else (some b, false)

  -- The commit token for a target that has a wave in the frame.
  unfoldable pub has_wave : ℕ → List ℕ → List (Option W) → Bool
  has_wave target [] ds = false
  has_wave target (t ∷ ts) [] = false
  has_wave target (t ∷ ts) (d ∷ ds) = ((t == target) && is_some d) || has_wave target ts ds

  unfoldable pub committed_after_batch_for_target : ℕ → Option (ActiveBatch W) → Option Bool
  committed_after_batch_for_target target none = none
  committed_after_batch_for_target target (some b) =
      if not b.collecting || not (has_wave target b.targets b.deferred)
      then none
      else some b.committed

  -- The frame that is left, which no longer collects, and what is taken from it.
  unfoldable pub take_for_finish : ActiveBatch W → ActiveBatch W × ActiveBatch W
  take_for_finish b = (
    record b { targets = []; order = []; deferred = []; boundary_roots = []; collecting = false },
    b,
  )

  -- `commit` and `rollback` go over the nodes; `step` is what a node does with its wave or with a
  -- rollback.
  module _ {ℓ'} {X : Type ℓ'} where
    unfoldable pub commit_from :
        (ℕ → W → X → X × Exit) → List ℕ → ℕ → List (Option W) → X → X × Exit
    commit_from step targets i [] x = (x, Exit.returned)
    commit_from step targets i (none ∷ ds) x = commit_from step targets (suc i) ds x
    commit_from step targets i (some wave ∷ ds) x =
        go_on (at_target (get_elem? targets i) (λ t. step t wave) x)
          (commit_from step targets (suc i) ds)

    unfoldable pub commit : (ℕ → W → X → X × Exit) → List ℕ → List (Option W) → X → X × Exit
    commit step targets deferred x = commit_from step targets 0 deferred x

-- Of a rollback, `order` has the places of the targets.
module _ {ℓ} {X : Type ℓ} where
  unfoldable pub rollback : (ℕ → X → X × Exit) → List ℕ → List ℕ → X → X × Exit
  rollback step targets [] x = (x, Exit.returned)
  rollback step targets (i ∷ order) x =
      go_on (at_target (get_elem? targets i) step x) (rollback step targets order)
