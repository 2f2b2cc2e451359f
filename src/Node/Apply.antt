-- ===== src/Node/Apply.antt =====
-- A message from a dependency, whole: `receive_from_dep` with `InWaveDepReceiveAction::apply`, and
-- the recovery of `with_wave_owner` for the node that owns the wave.
use graphrefly_rs.Prelude.{ℕ, String, false, ◌&&◌, Option, none, some, [], ◌∷◌, map, if◌then◌else◌}
use graphrefly_rs.Protocol.{Message, Wave}
use graphrefly_rs.Node.State.{DepSlot, NodeState, Effect, Delivery}
use graphrefly_rs.Node.Receive.{ReceiveAction, collect_receive}
use graphrefly_rs.Node.Steps.{Exit, done, followed_by, when, perform, send}
use graphrefly_rs.Node.Down.{down, invalidate}
use graphrefly_rs.Node.Run.{NodeFn, carry_out, settle_after_absorbed_terminal}
use graphrefly_rs.Node.Pause.{fire_owed_demand_if_ready}

module _ {ℓ} {A : Type ℓ} where
  unfoldable pub apply_invalidate : Delivery → ReceiveAction A → NodeState A → NodeState A × Exit
  unfolding down invalidate
  apply_invalidate d a n =
      if a.invalidate_as_invalidate_msg && a.had_node_data_before_invalidate
      then down d (Message.invalidate ∷ []) n
      else done (invalidate n)

  unfoldable pub apply_undirty : Delivery → ReceiveAction A → NodeState A → NodeState A × Exit
  unfolding down
  apply_undirty d a n =
      if a.had_node_data_before_invalidate
      then done (record n { wave = record n.wave { emitted_dirty_this_wave = false } })
      else down d (Message.resolved ∷ []) n

  unfoldable pub apply_msgs : Delivery → Option (Wave A) → NodeState A → NodeState A × Exit
  unfolding down
  apply_msgs d none n = done n
  apply_msgs d (some msgs) n = down d msgs n

  -- The last three tests of `apply`.
  unfoldable pub settle_and_serve :
      NodeFn A → Delivery → ReceiveAction A → NodeState A → NodeState A × Exit
  unfolding apply_msgs settle_after_absorbed_terminal fire_owed_demand_if_ready
  settle_and_serve fn d a n = followed_by (apply_msgs d a.down_msgs n) λ n1.
      followed_by
        (when a.do_settle_after_absorbed_terminal (settle_after_absorbed_terminal fn d) n1)
        λ n2. when a.fire_demand (fire_owed_demand_if_ready fn d) n2

  -- `defer_maybe_run` and the decision, then the rest.
  unfoldable pub run_and_settle :
      NodeFn A → Delivery → ReceiveAction A → NodeState A → NodeState A × Exit
  unfolding carry_out settle_and_serve
  run_and_settle fn d a n =
      followed_by
        (carry_out fn d a.maybe_run_decision
          (if a.defer_maybe_run then perform (Effect.deferred_run ∷ []) n else n))
        λ n1. settle_and_serve fn d a n1

  unfoldable pub after_invalidate :
      NodeFn A → Delivery → ReceiveAction A → NodeState A → NodeState A × Exit
  unfolding apply_undirty run_and_settle
  after_invalidate fn d a n =
      followed_by (when a.clear_undirty_after_invalidate (apply_undirty d a) n)
        λ n1. run_and_settle fn d a n1

  -- One step for each test of `apply`, in its order.
  unfoldable pub apply_action :
      NodeFn A → Delivery → ReceiveAction A → NodeState A → NodeState A × Exit
  unfolding apply_invalidate after_invalidate
  apply_action fn d a n =
      let n1 = if a.emit_teardown_subscribers then send Message.teardown n else n in
      let n2 = if a.emit_dirty then send Message.dirty n1 else n1 in
      followed_by (when a.do_invalidate (apply_invalidate d a) n2) λ n3. after_invalidate fn d a n3

  unfoldable pub apply_some :
      NodeFn A → Delivery → Option (ReceiveAction A) → NodeState A → NodeState A × Exit
  unfolding apply_action
  apply_some fn d none n = done n
  apply_some fn d (some a) n = apply_action fn d a n

  unfoldable pub receive_from_dep :
      NodeFn A → Delivery → ℕ → Message A → NodeState A → NodeState A × Exit
  unfolding collect_receive apply_some
  receive_from_dep fn d i m n = let (n', a) = collect_receive d i m n in apply_some fn d a n'

  unfoldable pub reset_slot : DepSlot A → DepSlot A
  reset_slot s = record s {
    batch = none;
    batch_waves = [];
    batch_wave_id = none;
    terminal_wave = none;
    dirty = false;
  }

  unfoldable pub reset_wave_flags : NodeState A → NodeState A
  unfolding reset_slot
  reset_wave_flags n = record n {
    deps = map reset_slot n.deps;
    pending = 0;
    wave = record n.wave {
      inside_run_wave = false;
      emitted_dirty_this_wave = false;
      emitted_tier3_this_wave = false;
    };
  }

  abbrev recover : Delivery → String → Exit → NodeState A → NodeState A
  recover d text Exit.returned n = n
  recover d text Exit.panicked n = (down d (Message.error text ∷ []) (reset_wave_flags n)).0

  -- `with_wave_owner` for a wave that touches and blames this node alone; `text` is the panic's.
  unfoldable pub with_wave_owner :
      Delivery → String → (NodeState A → NodeState A × Exit) → NodeState A → NodeState A
  unfolding reset_wave_flags down
  with_wave_owner d text body n = let (n', e) = body n in recover d text e n'
