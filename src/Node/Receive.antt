-- ===== src/Node/Receive.antt =====
-- `collect_receive_from_dep_action_from_graph`: what a node does to its own state when dependency
-- `idx` delivers a message, and the action that it leaves to be applied.
use graphrefly_rs.Prelude.{
  ℕ, suc, String, Bool, true, false, not, ◌&&◌, ◌||◌, Option, none, some, List, [], ◌∷◌, all,
  get_elem?, is_some, is_nil, ◌==◌, if◌then◌else◌,
}
use graphrefly_rs.Protocol.{Message, Wave}
use graphrefly_rs.Node.State.{DepSlot, DepTerminal, NodeState, Delivery, Status}
use graphrefly_rs.Node.Slots.{
  update_at, dirty_at, release, push_batch, record_wave_data, record_wave_sentinel,
  record_resolved_wave, had_current_projection, has_run_triggering_projection,
  clear_wave_projection,
}
use graphrefly_rs.Node.Gates.{
  MaybeRunDecision, decide_maybe_run, is_paused, pull_quiet, is_coalesce, is_resume_all,
}

-- `InWaveDepReceiveAction`.
pub record ReceiveAction {ℓ} (A : Type ℓ) : Type ℓ where
  pub emit_teardown_subscribers : Bool
  pub emit_dirty : Bool
  pub do_invalidate : Bool
  pub invalidate_as_invalidate_msg : Bool
  pub had_node_data_before_invalidate : Bool
  pub clear_undirty_after_invalidate : Bool
  pub defer_maybe_run : Bool
  pub maybe_run_decision : MaybeRunDecision
  pub down_msgs : Option (Wave A)
  pub do_settle_after_absorbed_terminal : Bool
  pub fire_demand : Bool

abbrev is_skip : MaybeRunDecision → Bool
is_skip MaybeRunDecision.skip = true
is_skip _ = false

abbrev error_of : DepTerminal → Option String
error_of DepTerminal.complete = none
error_of (DepTerminal.error e) = some e

module _ {ℓ} {A : Type ℓ} where
  abbrev pub idle : ReceiveAction A
  idle = record {
    emit_teardown_subscribers = false;
    emit_dirty = false;
    do_invalidate = false;
    invalidate_as_invalidate_msg = false;
    had_node_data_before_invalidate = false;
    clear_undirty_after_invalidate = false;
    defer_maybe_run = false;
    maybe_run_decision = MaybeRunDecision.skip;
    down_msgs = none;
    do_settle_after_absorbed_terminal = false;
    fire_demand = false;
  }

  abbrev has_msgs : Option (Wave A) → Bool
  has_msgs none = false
  has_msgs (some msgs) = not (is_nil msgs)

  unfoldable pub has_work : ReceiveAction A → Bool
  has_work a =
      a.emit_teardown_subscribers
      || (a.emit_dirty
          || (a.do_invalidate
              || (a.defer_maybe_run
                  || (not (is_skip a.maybe_run_decision)
                      || (a.do_settle_after_absorbed_terminal
                          || (a.fire_demand || has_msgs a.down_msgs))))))

  unfoldable pub slot_at : ℕ → List (DepSlot A) → Option (DepSlot A)
  slot_at i ss = get_elem? ss i

  unfoldable pub edit : ℕ → (DepSlot A → DepSlot A) → NodeState A → NodeState A
  edit i f n = record n { deps = update_at i f n.deps }

  abbrev pub restored_at : Option (DepSlot A) → Bool
  restored_at none = false
  restored_at (some s) = s.restored_activation_handshake

  abbrev pub projected_at : ℕ → Option (DepSlot A) → Bool
  projected_at id none = false
  projected_at id (some s) = had_current_projection id s

  -- `set_maybe_run_action` on an action with `fire_demand` as given.
  unfoldable pub set_maybe_run : Delivery → Bool → NodeState A → NodeState A × ReceiveAction A
  unfolding decide_maybe_run
  set_maybe_run d fire n =
      if d.in_flight
      then (n, record idle { defer_maybe_run = true; fire_demand = fire })
      else let (n', decision) = decide_maybe_run n in
        (n', record idle { maybe_run_decision = decision; fire_demand = fire })

  -- A wave that arrives while a coalescing node is paused and is not yet complete is remembered.
  unfoldable pub note_paused_wave : NodeState A → NodeState A
  unfolding is_paused pull_quiet
  note_paused_wave n =
      if is_coalesce n.config.pausable
        && (not n.wave.in_dep_mutation && (is_paused n || pull_quiet n))
      then record n { aux = record n.aux { paused_dep_wave_occurred = true } }
      else n

  -- The common end of the DATA and the RESOLVED case, after the slot is written.
  unfoldable pub settle_dep : Delivery → ℕ → NodeState A → NodeState A × ReceiveAction A
  unfolding release note_paused_wave set_maybe_run
  settle_dep d i n =
      let n' = release i n in
      if n'.pending == 0 then set_maybe_run d true n' else (note_paused_wave n', idle)

  unfoldable pub restore_slot : A → DepSlot A → DepSlot A
  restore_slot v s = record s { prev = some v; has_data = true; tier = 3; batch = none }

  unfoldable pub data_slot : ℕ → A → DepSlot A → DepSlot A
  unfolding push_batch record_wave_data
  data_slot id v s = record (record_wave_data id v (record s { batch = push_batch v s.batch })) {
    has_data = true;
    tier = 3;
  }

  unfoldable pub receive_data : Delivery → ℕ → A → NodeState A → NodeState A × ReceiveAction A
  receive_data d i v n =
      if restored_at (slot_at i n.deps)
      then (edit i (restore_slot v) n, idle)
      else settle_dep d i (edit i (data_slot d.id v) n)

  unfoldable pub resolved_slot : ℕ → DepSlot A → DepSlot A
  unfolding record_resolved_wave
  resolved_slot id s = record (record_resolved_wave id s) { tier = 3 }

  unfoldable pub receive_resolved : Delivery → ℕ → NodeState A → NodeState A × ReceiveAction A
  receive_resolved d i n = settle_dep d i (edit i (resolved_slot d.id) n)

  unfoldable pub receive_dirty : ℕ → NodeState A → NodeState A × ReceiveAction A
  unfolding dirty_at edit pull_quiet
  receive_dirty i n =
      if dirty_at i n.deps
      then (n, idle)
      else let marked = record (edit i (λ s. record s { dirty = true; tier = 2 }) n) {
        pending = suc n.pending;
      } in
        if pull_quiet n || n.wave.emitted_dirty_this_wave then (marked, idle) else (
          record marked {
            wave = record n.wave { emitted_dirty_this_wave = true };
            value = record n.value { status = Status.dirty };
          },
          record idle { emit_dirty = true },
        )

  unfoldable pub invalid_slot : ℕ → DepSlot A → DepSlot A
  unfolding record_wave_sentinel
  invalid_slot id s =
      record_wave_sentinel id (record s { prev = none; has_data = false; batch = none })

  -- `if !had_current_projection && !has_run_triggering_projection() { clear… }`.
  unfoldable pub sentinel_slot : ℕ → ℕ → NodeState A → NodeState A
  sentinel_slot id i n =
      let n' = edit i (invalid_slot id) n in
      if not (projected_at id (slot_at i n.deps)) && not (has_run_triggering_projection n'.deps)
      then edit i clear_wave_projection n'
      else n'

  unfoldable pub forget_paused_wave : NodeState A → NodeState A
  forget_paused_wave n =
      if n.aux.paused_dep_wave_occurred && all (λ s. not (is_some s.batch)) n.deps
      then record n { aux = record n.aux { paused_dep_wave_occurred = false } }
      else n

  unfoldable pub receive_invalidate : Delivery → ℕ → NodeState A → NodeState A × ReceiveAction A
  unfolding is_paused pull_quiet
  receive_invalidate d i n =
      let n' = forget_paused_wave (release i (sentinel_slot d.id i n)) in
      let had = n'.value.has_data in
      let undirty = n'.pending == 0 && n'.wave.emitted_dirty_this_wave in
      let held = (is_paused n' || pull_quiet n') && is_resume_all n.config.pausable in
      (
        n',
        record idle {
          had_node_data_before_invalidate = had;
          do_invalidate = true;
          invalidate_as_invalidate_msg = held && had;
          down_msgs = if undirty && not had then some (Message.resolved ∷ []) else none;
          clear_undirty_after_invalidate = undirty && had;
          fire_demand = true;
        },
      )

  -- The branch on the policy flags, after the slot is written.
  unfoldable pub terminal_action :
      Delivery → DepTerminal → NodeState A → NodeState A × ReceiveAction A
  unfolding set_maybe_run
  terminal_action d t n =
      let ended = not (is_nil n.deps) && all (λ s. is_some s.terminal) n.deps in
      let otherwise =
        if n.config.terminal_as_real_input
        then set_maybe_run d true n
        else if n.config.complete_when_deps_complete && ended
        then (n, record idle { down_msgs = some (Message.complete ∷ []); fire_demand = true })
        else (n, record idle { do_settle_after_absorbed_terminal = true; fire_demand = true }) in
      elim (error_of t) [
        | none ↦ otherwise
        | some e ↦
            if n.config.error_when_deps_error
            then (n, record idle { down_msgs = some (Message.error e ∷ []); fire_demand = true })
            else otherwise
      ]

  unfoldable pub terminal_slot : DepTerminal → DepSlot A → DepSlot A
  terminal_slot t s = record s { terminal = some t; terminal_wave = some t }

  unfoldable pub receive_terminal :
      Delivery → ℕ → DepTerminal → NodeState A → NodeState A × ReceiveAction A
  receive_terminal d i t n = terminal_action d t (release i (edit i (terminal_slot t) n))

  unfoldable pub receive_live :
      Delivery → ℕ → Message A → NodeState A → NodeState A × ReceiveAction A
  receive_live d i Message.invalidate n = receive_invalidate d i n
  receive_live d i Message.dirty n = receive_dirty i n
  receive_live d i (Message.datum v) n = receive_data d i v n
  receive_live d i Message.resolved n = receive_resolved d i n
  receive_live d i Message.complete n = receive_terminal d i DepTerminal.complete n
  receive_live d i (Message.error e) n = receive_terminal d i (DepTerminal.error e) n
  receive_live d i Message.teardown n =
      (n, record idle { down_msgs = some (Message.complete ∷ Message.teardown ∷ []) })
  receive_live d i _ n = (n, idle)

  abbrev pub is_teardown : Message A → Bool
  is_teardown Message.teardown = true
  is_teardown _ = false

  abbrev pub worth : ReceiveAction A → Option (ReceiveAction A)
  worth a = if has_work a then some a else none

  unfoldable pub collect_receive :
      Delivery → ℕ → Message A → NodeState A → NodeState A × Option (ReceiveAction A)
  unfolding has_work
  collect_receive d i m n =
      if n.value.terminal
      then (
        n,
        if is_teardown m then some (record idle { emit_teardown_subscribers = true }) else none,
      )
      else let (n', a) = receive_live d i m n in (n', worth a)
