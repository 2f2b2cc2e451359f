-- ===== src/Node/Machine/Reach.antt =====
-- The invariant over every history of a node.
use graphrefly_rs.Prelude.{ℕ, zero, suc, ◌≡◌, refl, arith}
use graphrefly_rs.Node.State.{NodeState, NodeConfig, is_fresh, is_terminal, new_slot}
use graphrefly_rs.Node.Slots.{count_dirty}
use graphrefly_rs.Node.Run.{NodeFn, maybe_run, settle_after_absorbed_terminal}
use graphrefly_rs.Node.Down.{down}
use graphrefly_rs.Node.Pause.{pause_release, on_demand}
use graphrefly_rs.Node.Apply.{receive_from_dep}
use graphrefly_rs.Node.Invariant.{Inv, down-Inv}
use graphrefly_rs.Node.Invariant.Runs.{maybe_run-Inv, settle_after_absorbed_terminal-Inv}
use graphrefly_rs.Node.Invariant.Pulls.{pause_acquire-Inv, pause_release-Inv, on_demand-Inv}
use graphrefly_rs.Node.Invariant.Applies.{receive_from_dep-Inv, with_wave_owner-Inv}
use graphrefly_rs.Node.Machine.{
  Step, Reaches, receives, emits, locks, unlocks, demands, runs, settles, here, after, new_node,
  new_slots,
}

count_dirty-new_slots {ℓ} : (A : Type ℓ) (k : ℕ) → count_dirty (new_slots {A = A} k) ≡ 0
unfolding new_slots count_dirty new_slot
count_dirty-new_slots A zero = refl
count_dirty-new_slots A (suc k) = count_dirty-new_slots A k

new_node-Inv {ℓ} : (A : Type ℓ) (c : NodeConfig) (k : ℕ) → Inv (new_node {A = A} c k)
unfolding new_node is_fresh is_terminal
new_node-Inv A c k = ground (arith, count_dirty-new_slots A k)

module _ {ℓ} {A : Type ℓ} where
  Step-Inv : {fn : NodeFn A} {n m : NodeState A} → Step fn n m → Inv n → Inv m
  Step-Inv {fn} {n} (receives d text i x h) v =
      with_wave_owner-Inv d text (receive_from_dep fn d i x) n (receive_from_dep-Inv fn d i x n v h)
  Step-Inv {fn} {n} (emits d text ms) v =
      with_wave_owner-Inv d text (down d ms) n (down-Inv d ms n v)
  Step-Inv {fn} {n} (locks l) v = pause_acquire-Inv l n v
  Step-Inv {fn} {n} (unlocks d text l) v =
      with_wave_owner-Inv d text (pause_release fn d l) n (pause_release-Inv fn d l n v)
  Step-Inv {fn} {n} (demands d text p) v =
      with_wave_owner-Inv d text (on_demand fn d p) n (on_demand-Inv fn d p n v)
  Step-Inv {fn} {n} (runs d text) v =
      with_wave_owner-Inv d text (maybe_run fn d) n (maybe_run-Inv fn d n v)
  Step-Inv {fn} {n} (settles d text) v =
      with_wave_owner-Inv d text (settle_after_absorbed_terminal fn d) n
        (settle_after_absorbed_terminal-Inv fn d n v)

  Reaches-Inv : {fn : NodeFn A} {n m : NodeState A} → Reaches fn n m → Inv n → Inv m
  Reaches-Inv here v = v
  Reaches-Inv (after r s) v = Step-Inv s (Reaches-Inv r v)

  -- After any sequence of messages of dependencies, waves of its own, locks taken and released, demands
  -- and tasks of the delivery boundary, a node that was built with no value, and is not deactivated,
  -- rewired or entered again in the middle of a wave, whatever its function does, panics included:
  -- `pending` counts its dirty dependencies, its cache is present exactly when `has_data`
  -- says so, a fresh status has a cached value, and `terminal` is what the status says.
  pub history-Inv :
      (fn : NodeFn A) (c : NodeConfig) (k : ℕ) (n : NodeState A)
      → Reaches fn (new_node c k) n
      → Inv n
  history-Inv fn c k n r = Reaches-Inv r (new_node-Inv A c k)
