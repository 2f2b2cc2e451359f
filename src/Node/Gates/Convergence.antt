-- ===== src/Node/Gates/Convergence.antt =====
-- The second phase of a wave at a node with several dependencies.
use graphrefly_rs.Prelude.{ℕ, ◌≡◌, true, false, ◌&&◌, ◌||◌, [], ◌∷◌, ltb, if◌then◌else◌}
use graphrefly_rs.Node.State.{NodeState, Delivery}
use graphrefly_rs.Node.Gates.{run, is_paused, pull_quiet, is_coalesce}
use graphrefly_rs.Node.Receive.{ReceiveAction, idle}
use graphrefly_rs.Node.State.{Effect}
use graphrefly_rs.Node.Steps.{Exit, done, followed_by, perform}
use graphrefly_rs.Node.Run.{NodeFn, run_wave}
use graphrefly_rs.Node.Pause.{fire_owed_demand_if_ready}

-- What the node must allow for its function to run when its last dirty dependency settles.
pub record MayRun {ℓ} {A : Type ℓ} (n : NodeState A) : Type 0 where
  pub stable : n.wave.in_dep_mutation ≡ false
  pub awake : (is_coalesce n.config.pausable && (is_paused n || pull_quiet n)) ≡ false
  pub callable : n.config.has_handle ≡ true
  pub started : n.has_called_fn_once ≡ true

module _ {ℓ} {A : Type ℓ} where
  -- What follows a value: nothing, a run at the delivery boundary, or a run now.
  abbrev pub next_action : Delivery → ℕ → ReceiveAction A
  next_action d pending =
      if ltb 1 pending
      then idle
      else if d.in_flight
      then record idle { defer_maybe_run = true; fire_demand = true }
      else record idle { maybe_run_decision = run; fire_demand = true }

  -- What a node does once the value is recorded: nothing while another dependency is dirty; then it
  -- leaves a run to the delivery boundary if a delivery is in flight, and else runs its function; and
  -- it serves a demand that is owed.
  abbrev pub next_step : NodeFn A → Delivery → ℕ → NodeState A → NodeState A × Exit
  next_step fn d pending n =
      if ltb 1 pending
      then done n
      else followed_by
          (if d.in_flight then done (perform (Effect.deferred_run ∷ []) n) else run_wave fn d n)
          (fire_owed_demand_if_ready fn d)
