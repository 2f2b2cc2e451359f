-- ===== src/Node/Machine.antt =====
-- A node over time: the messages, waves, locks, demands and tasks that reach it, one step each, every
-- step its own wave. It is not deactivated, rewired, or entered again in the middle of a wave.
pub mod Reach
use graphrefly_rs.Prelude.{
  ℕ, ◌<◌, ◌≡◌, String, List, Option, none, some, map, [], ◌∷◌, zero, suc, false, length,
}
use graphrefly_rs.Protocol.{LockId, PullDemand, Message, Wave}
use graphrefly_rs.Node.State.{
  NodeState, NodeConfig, DepSlot, Delivery, new_slot, new_value_state, new_wave_state, new_aux,
}
use graphrefly_rs.Node.Down.{down}
use graphrefly_rs.Node.Run.{NodeFn, maybe_run, settle_after_absorbed_terminal}
use graphrefly_rs.Node.Pause.{pause_acquire, pause_release, on_demand}
use graphrefly_rs.Node.Apply.{receive_from_dep, with_wave_owner}
use graphrefly_rs.Node.Steps.{Exit, done}

module _ {ℓ} {A : Type ℓ} where
  new_slots : ℕ → List (DepSlot A)
  new_slots zero = []
  new_slots (suc k) = new_slot ∷ new_slots k

  -- A node as built with `k` dependencies and no initial value.
  unfoldable pub new_node : NodeConfig → ℕ → NodeState A
  unfolding new_slots new_slot new_value_state new_wave_state new_aux
  new_node c k = record {
    config = c;
    deps = new_slots k;
    pending = 0;
    value = new_value_state;
    wave = new_wave_state;
    aux = new_aux;
    has_called_fn_once = false;
    effects = [];
  }

  -- What reaches a node that stays active: a dependency's message, a wave of its owner, a lock taken or released, a
  -- demand, and the two tasks that a delivery leaves to its boundary.
  pub data Step (fn : NodeFn A) (n : NodeState A) : NodeState A → Type ℓ where
    receives :
        (d : Delivery) (text : String) (i : ℕ) (m : Message A)
        → i < length n.deps
        → Step fn n (with_wave_owner d text (receive_from_dep fn d i m) n)
    emits :
        (d : Delivery) (text : String) (ms : Wave A)
        → Step fn n (with_wave_owner d text (down d ms) n)
    locks : (l : LockId) → Step fn n (pause_acquire l n)
    unlocks :
        (d : Delivery) (text : String) (l : LockId)
        → Step fn n (with_wave_owner d text (pause_release fn d l) n)
    demands :
        (d : Delivery) (text : String) (p : PullDemand A)
        → Step fn n (with_wave_owner d text (on_demand fn d p) n)
    runs : (d : Delivery) (text : String) → Step fn n (with_wave_owner d text (maybe_run fn d) n)
    settles :
        (d : Delivery) (text : String)
        → Step fn n (with_wave_owner d text (settle_after_absorbed_terminal fn d) n)

  pub data Reaches (fn : NodeFn A) (n : NodeState A) : NodeState A → Type ℓ where
    here : Reaches fn n n
    after : {m k : NodeState A} → Reaches fn n m → Step fn m k → Reaches fn n k
