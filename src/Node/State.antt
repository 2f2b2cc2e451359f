-- ===== src/Node/State.antt =====
-- The state of one node: the side tables of `GraphCore` for its key. The parallel vectors of
-- `DepState` and of `DepEdges`, all as long as `deps`, are one list of slots. `i32 pending` is a
-- number: it falls only where a slot's `dirty` falls.
use graphrefly_rs.Prelude.{ℕ, String, Bool, true, false, Option, none, List, []}
use graphrefly_rs.Protocol.{LockId, PullDemand, Message, Wave}

pub data Status : Type 0 where
  sentinel pending dirty settled resolved completed errored : Status

unfoldable pub is_fresh : Status → Bool
is_fresh Status.settled = true
is_fresh Status.resolved = true
is_fresh _ = false

unfoldable pub is_terminal : Status → Bool
is_terminal Status.completed = true
is_terminal Status.errored = true
is_terminal _ = false

-- `Pausable::True`, `Pausable::ResumeAll` and `Pausable::False`.
pub data Pausable : Type 0 where
  coalesce resume_all never : Pausable

pub data DepTerminal : Type 0 where
  complete : DepTerminal
  error : String → DepTerminal

pub data WaveData {ℓ} (A : Type ℓ) : Type ℓ where
  datum : A → WaveData A
  sentinel : WaveData A

pub record DepSlot {ℓ} (A : Type ℓ) : Type ℓ where
  pub batch : Option (List A)
  pub batch_waves : List (List (WaveData A))
  pub batch_wave_id : Option ℕ
  pub prev : Option A
  pub has_data : Bool
  pub dirty : Bool
  pub tier : ℕ
  pub terminal : Option DepTerminal
  pub terminal_wave : Option DepTerminal
  pub restored_activation_handshake : Bool

pub record NodeWaveState : Type 0 where
  pub emitted_dirty_this_wave : Bool
  pub emitted_tier3_this_wave : Bool
  pub inside_run_wave : Bool
  pub in_dep_mutation : Bool
  pub rewire_run_pending : Bool
  pub batch_dirty_owed : Bool

pub record NodeValueState {ℓ} (A : Type ℓ) : Type ℓ where
  pub cache : Option A
  pub has_data : Bool
  pub status : Status
  pub terminal : Bool

-- `NodeConfigSlot`, with what the wave path reads of `NodeCallSlot`: whether there is a callable,
-- and whether it stands in the async pool.
pub record NodeConfig : Type 0 where
  pub partial : Bool
  pub pausable : Pausable
  pub pull_id : Option LockId
  pub complete_when_deps_complete : Bool
  pub error_when_deps_error : Bool
  pub terminal_as_real_input : Bool
  pub has_handle : Bool
  pub is_async : Bool

-- Hooks are opaque; each has a number.
pub record NodeAux {ℓ} (A : Type ℓ) : Type ℓ where
  pub on_invalidate : List ℕ
  pub pull_demand_owed : Option (PullDemand A)
  pub active_pull : Option (PullDemand A)
  pub in_deliver_demand : Bool
  pub pull_dirty_owed : Bool
  pub pause_lockset : List LockId
  pub paused_dep_wave_occurred : Bool
  pub pause_buffer : List (Wave A)

-- What a node does to the world around it, in order: a message to its subscribers, a hook, a task
-- left to the delivery boundary, a wave handed to the open batch.
pub data Effect {ℓ} (A : Type ℓ) : Type ℓ where
  sent : Message A → Effect A
  ran_hook : ℕ → Effect A
  deferred_run : Effect A
  deferred_settle : Effect A
  deferred_wave : Wave A → Effect A

-- `effects` is the record of what the node has done.
pub record NodeState {ℓ} (A : Type ℓ) : Type ℓ where
  pub config : NodeConfig
  pub deps : List (DepSlot A)
  pub pending : ℕ
  pub value : NodeValueState A
  pub wave : NodeWaveState
  pub aux : NodeAux A
  pub has_called_fn_once : Bool
  pub effects : List (Effect A)

-- What the thread-locals say when a node acts.
pub record Delivery : Type 0 where
  pub in_flight : Bool
  pub id : ℕ
  pub collecting_batch : Bool

module _ {ℓ} {A : Type ℓ} where
  -- One column of `DepState::new` and `DepEdges::new`.
  unfoldable pub new_slot : DepSlot A
  new_slot = record {
    batch = none;
    batch_waves = [];
    batch_wave_id = none;
    prev = none;
    has_data = false;
    dirty = false;
    tier = 0;
    terminal = none;
    terminal_wave = none;
    restored_activation_handshake = false;
  }

  unfoldable pub new_value_state : NodeValueState A
  new_value_state = record {
    cache = none;
    has_data = false;
    status = Status.sentinel;
    terminal = false;
  }

  unfoldable pub new_aux : NodeAux A
  new_aux = record {
    on_invalidate = [];
    pull_demand_owed = none;
    active_pull = none;
    in_deliver_demand = false;
    pull_dirty_owed = false;
    pause_lockset = [];
    paused_dep_wave_occurred = false;
    pause_buffer = [];
  }

unfoldable pub new_wave_state : NodeWaveState
new_wave_state = record {
  emitted_dirty_this_wave = false;
  emitted_tier3_this_wave = false;
  inside_run_wave = false;
  in_dep_mutation = false;
  rewire_run_pending = false;
  batch_dirty_owed = false;
}
