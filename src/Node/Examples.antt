-- ===== src/Node/Examples.antt =====
-- Small nodes of numbers, at which the theorems on nodes apply.
use graphrefly_rs.Prelude.{List, ℕ, ◌≡◌, refl, true, false, none, some, [], ◌∷◌, arith}
use graphrefly_rs.Protocol.{LockId, Message, Wave}
use graphrefly_rs.Node.State.{
  NodeState, NodeConfig, Delivery, Effect, Status, Pausable, DepSlot, is_fresh, is_terminal,
}
use graphrefly_rs.Node.Slots.{count_dirty}
use graphrefly_rs.Node.Steps.{returned, done}
use graphrefly_rs.Node.Gates.{is_paused, pull_quiet, should_buffer_on_pause}
use graphrefly_rs.Node.Down.{down, invalidate, end_external_wave}
use graphrefly_rs.Node.Down.External.{external_values, data_wave}
use graphrefly_rs.Node.Down.Invalidation.{invalidates_once, repeated}
use graphrefly_rs.Node.Run.{NodeFn, CtxAction, run_wave}
use graphrefly_rs.Node.Run.Undirty.{silent_run_balances}
use graphrefly_rs.Node.Pause.{down_each, pause_release, holds_lock, set_locks}
use graphrefly_rs.Node.Pause.Lockset.{LockCall, lock_calls, held_after, locks_nest}
use graphrefly_rs.Node.Pause.Holding.{waves, led}
use graphrefly_rs.Node.Pause.Replay.{resume_replays}
use graphrefly_rs.Node.Apply.{receive_from_dep, with_wave_owner}
use graphrefly_rs.Node.Invariant.{Inv}
use graphrefly_rs.Node.Machine.{new_node, receives, emits, here, after}
use graphrefly_rs.Node.Machine.Reach.{history-Inv}
use graphrefly_rs.Node.Terminal.{Silent, ended_forever}

-- A synchronous node with a function, that holds whole waves back while it is paused.
abbrev buffering : NodeConfig
buffering = record {
  partial = false;
  pausable = Pausable.resume_all;
  pull_id = none;
  complete_when_deps_complete = true;
  error_when_deps_error = true;
  terminal_as_real_input = false;
  has_handle = true;
  is_async = false;
}

abbrev idle_delivery : Delivery
idle_delivery = record { in_flight = false; id = 1; collecting_batch = false }

abbrev blank_slot : DepSlot ℕ
blank_slot = record {
  batch = none;
  batch_waves = [];
  batch_wave_id = none;
  prev = none;
  has_data = true;
  dirty = false;
  tier = 0;
  terminal = none;
  terminal_wave = none;
  restored_activation_handshake = false;
}

-- A node with two settled dependencies and the value 7.
abbrev settled_node : NodeState ℕ
settled_node = record {
  config = buffering;
  deps = blank_slot ∷ blank_slot ∷ [];
  pending = 0;
  value = record { cache = some 7; has_data = true; status = Status.settled; terminal = false };
  wave = record {
    emitted_dirty_this_wave = false;
    emitted_tier3_this_wave = false;
    inside_run_wave = false;
    in_dep_mutation = false;
    rewire_run_pending = false;
    batch_dirty_owed = false;
  };
  aux = record {
    on_invalidate = 4 ∷ [];
    pull_demand_owed = none;
    active_pull = none;
    in_deliver_demand = false;
    pull_dirty_owed = false;
    pause_lockset = [];
    paused_dep_wave_occurred = false;
    pause_buffer = [];
  };
  has_called_fn_once = true;
  effects = [];
}

abbrev dirty_slot : DepSlot ℕ
dirty_slot = record blank_slot { dirty = true }

-- The same node while both dependencies, or the second alone, are dirty.
abbrev waiting_node : NodeState ℕ
waiting_node = record settled_node { deps = dirty_slot ∷ dirty_slot ∷ []; pending = 2 }

abbrev last_node : NodeState ℕ
last_node = record settled_node { deps = blank_slot ∷ dirty_slot ∷ []; pending = 1 }

abbrev paused_node : NodeState ℕ
paused_node = record settled_node { aux = record settled_node.aux { pause_lockset = "a" ∷ [] } }

abbrev ended_node : NodeState ℕ
ended_node = record settled_node {
  value = record settled_node.value { status = Status.completed; terminal = true };
}

abbrev dirtied_node : NodeState ℕ
dirtied_node = record settled_node {
  wave = record settled_node.wave { emitted_dirty_this_wave = true };
}

abbrev silent : NodeFn ℕ
silent ctx = []

abbrev constantly : NodeFn ℕ
constantly ctx = CtxAction.emits (Message.datum 9 ∷ []) ∷ []

-- The node after a value from its one dependency.
abbrev received : NodeState ℕ
received =
    with_wave_owner idle_delivery "owner"
      (receive_from_dep constantly idle_delivery 0 (Message.datum 5)) (new_node buffering 1)

history-Inv_example : Inv (
    with_wave_owner idle_delivery "owner"
      (down idle_delivery (Message.datum 6 ∷ Message.complete ∷ []))
      received)
unfolding new_node
history-Inv_example =
    history-Inv constantly buffering 1
      (with_wave_owner idle_delivery "owner"
        (down idle_delivery (Message.datum 6 ∷ Message.complete ∷ [])) received)
      (after (after here (receives idle_delivery "owner" 0 (Message.datum 5) (omega arith)))
        (emits idle_delivery "owner" (Message.datum 6 ∷ Message.complete ∷ [])))

settled_node-Inv : Inv settled_node
unfolding count_dirty is_fresh is_terminal
settled_node-Inv = record { counted = refl; cached = refl; fresh = refl; ended = refl }

resume_replays_example :
    let held = down_each idle_delivery (waves ((1, 2 ∷ []) ∷ (3, []) ∷ [])) paused_node in
    let (m, e) = pause_release silent idle_delivery "a" held.0 in
    (held.1 ≡ returned)
    × (held.0.effects ≡ [])
    × (e ≡ returned)
    × (m.effects ≡ led ((1, 2 ∷ []) ∷ (3, []) ∷ []))
    × (m.value.cache ≡ some 3)
    × (m.aux.pause_lockset ≡ [])
    × (m.aux.pause_buffer ≡ [])
resume_replays_example =
    resume_replays silent idle_delivery "a" ((1, 2 ∷ []) ∷ (3, []) ∷ []) paused_node
      (record { live = refl; outside = refl; free = refl; holds = refl; pushed = refl }) refl refl
      refl refl

external_values_example : down idle_delivery (data_wave (1 ∷ 2 ∷ [])) settled_node ≡ (
  record settled_node {
    value = record settled_node.value { cache = some 2 };
    effects =
        Effect.sent Message.dirty
        ∷ Effect.sent (Message.datum 1)
        ∷ Effect.sent (Message.datum 2)
        ∷ [];
  },
  returned,
)
unfolding should_buffer_on_pause
external_values_example = external_values idle_delivery 1 (2 ∷ []) settled_node refl refl refl refl

silent_run_balances_example :
    let (m, e) = run_wave silent idle_delivery dirtied_node in
    (e ≡ returned)
    × (m.effects ≡ Effect.sent Message.resolved ∷ [])
    × (m.value.cache ≡ some 7)
    × (m.value.status ≡ Status.resolved)
    × (m.wave.emitted_dirty_this_wave ≡ false)
unfolding is_paused pull_quiet
silent_run_balances_example =
    silent_run_balances silent idle_delivery dirtied_node refl refl refl refl refl refl refl refl
      refl

ended_forever_example : Silent ended_node (
    with_wave_owner idle_delivery "p" (down idle_delivery (Message.datum 1 ∷ [])) (
      with_wave_owner idle_delivery "p"
        (receive_from_dep silent idle_delivery 0 Message.teardown)
        ended_node))
unfolding down
ended_forever_example =
    ended_forever silent ended_node
      (with_wave_owner idle_delivery "p" (down idle_delivery (Message.datum 1 ∷ [])) (
        with_wave_owner idle_delivery "p" (receive_from_dep silent idle_delivery 0 Message.teardown)
          ended_node))
      refl
      (after (after here (receives idle_delivery "p" 0 Message.teardown (omega arith)))
        (emits idle_delivery "p" (Message.datum 1 ∷ [])))

invalidates_once_example :
    (down idle_delivery (repeated 3) settled_node
      ≡ (end_external_wave (invalidate settled_node), returned))
    × ((invalidate settled_node).effects ≡ Effect.ran_hook 4 ∷ Effect.sent Message.invalidate ∷ [])
    × ((invalidate settled_node).value.has_data ≡ false)
    × (invalidate (invalidate settled_node) ≡ invalidate settled_node)
unfolding should_buffer_on_pause
invalidates_once_example = invalidates_once idle_delivery 2 settled_node refl refl refl refl

abbrev mixed : Wave ℕ
mixed = Message.complete ∷ Message.datum 1 ∷ Message.dirty ∷ Message.datum 2 ∷ []

abbrev nested : List LockCall
nested = (true, "b") ∷ (false, "c") ∷ (true, "c") ∷ (false, "b") ∷ []

locks_nest_example :
    (ks : List LockId) × (lock_calls silent idle_delivery nested paused_node
      ≡ done (set_locks ks paused_node))
    × (holds_lock "c" ks ≡ held_after "c" (holds_lock "c" paused_node.aux.pause_lockset) nested)
unfolding holds_lock
locks_nest_example = locks_nest silent idle_delivery "a" "c" nested paused_node refl refl refl
