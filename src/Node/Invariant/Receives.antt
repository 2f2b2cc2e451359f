-- ===== src/Node/Invariant/Receives.antt =====
-- A message from a dependency and the invariant; also the recovery from a panic.
use graphrefly_rs.Prelude.{ℕ, ◌<◌, ◌≡◌, refl, Bool, true, false, arith, length}
use graphrefly_rs.Protocol.{Message}
use graphrefly_rs.Node.State.{NodeState, DepSlot, DepTerminal, Delivery, is_fresh, is_terminal}
use graphrefly_rs.Node.Slots.{release, clear_wave_projection}
use graphrefly_rs.Node.Slots.Dirty.{count_dirty-update_at, count_dirty-mark, count_dirty-clear}
use graphrefly_rs.Node.Receive.{
  edit, set_maybe_run, note_paused_wave, settle_dep, restore_slot, data_slot, invalid_slot,
  resolved_slot, terminal_slot, receive_data, receive_resolved, receive_dirty, sentinel_slot,
  forget_paused_wave, receive_invalidate, terminal_action, receive_terminal, receive_live,
  collect_receive,
}
use graphrefly_rs.Node.Invariant.{Inv}
use graphrefly_rs.Node.Invariant.Runs.{decide_maybe_run-Inv}

module _ {ℓ} {A : Type ℓ} where
  -- A write to a slot that leaves its `dirty` alone.
  edit-Inv :
      (i : ℕ) (f : DepSlot A → DepSlot A) (n : NodeState A)
      → ((s : DepSlot A) → (f s).dirty ≡ s.dirty)
      → Inv n
      → Inv (edit i f n)
  unfolding edit
  edit-Inv i f n h v = ground (arith, count_dirty-update_at i f n.deps h)

  release-Inv : (i : ℕ) (n : NodeState A) → Inv n → Inv (release i n)
  unfolding release
  release-Inv i n v =
      ground (arith, count_dirty-clear i (λ s. record s { dirty = false }) n.deps (λ s. refl))

  set_maybe_run-Inv :
      (d : Delivery) (b : Bool) (n : NodeState A) → Inv n → Inv (set_maybe_run d b n).0
  unfolding set_maybe_run
  set_maybe_run-Inv d b n v = ground (arith, decide_maybe_run-Inv n v)

  note_paused_wave-Inv : (n : NodeState A) → Inv n → Inv (note_paused_wave n)
  unfolding note_paused_wave
  note_paused_wave-Inv n v = ground arith

  settle_dep-Inv : (d : Delivery) (i : ℕ) (n : NodeState A) → Inv n → Inv (settle_dep d i n).0
  unfolding settle_dep
  settle_dep-Inv d i n v =
      let w = release-Inv i n v in
      ground (arith, set_maybe_run-Inv d true (release i n) w, note_paused_wave-Inv (release i n) w)

  data_slot_dirty : (id : ℕ) (x : A) (s : DepSlot A) → (data_slot id x s).dirty ≡ s.dirty
  unfolding data_slot
  data_slot_dirty id x s = ground arith

  invalid_slot_dirty : (id : ℕ) (s : DepSlot A) → (invalid_slot id s).dirty ≡ s.dirty
  unfolding invalid_slot
  invalid_slot_dirty id s = ground arith

  resolved_slot_dirty : (id : ℕ) (s : DepSlot A) → (resolved_slot id s).dirty ≡ s.dirty
  unfolding resolved_slot
  resolved_slot_dirty id s = ground arith

  receive_data-Inv :
      (d : Delivery) (i : ℕ) (x : A) (n : NodeState A) → Inv n → Inv (receive_data d i x n).0
  unfolding receive_data
  receive_data-Inv d i x n v =
      let restored = edit-Inv i (restore_slot x) n (λ s. unfold restore_slot in refl) v in
      let written = edit-Inv i (data_slot d.id x) n (data_slot_dirty d.id x) v in
      ground (arith, restored, settle_dep-Inv d i (edit i (data_slot d.id x) n) written)

  receive_resolved-Inv :
      (d : Delivery) (i : ℕ) (n : NodeState A) → Inv n → Inv (receive_resolved d i n).0
  unfolding receive_resolved
  receive_resolved-Inv d i n v =
      settle_dep-Inv d i (edit i (resolved_slot d.id) n)
        (edit-Inv i (resolved_slot d.id) n (resolved_slot_dirty d.id) v)

  receive_dirty-Inv :
      (i : ℕ) (n : NodeState A)
      → Inv n
      → n.value.terminal ≡ false
      → i < length n.deps
      → Inv (receive_dirty i n).0
  unfolding receive_dirty edit is_fresh is_terminal
  receive_dirty-Inv i n v live h =
      ground
        (arith, count_dirty-mark i (λ s. record s { dirty = true; tier = 2 }) n.deps (λ s. refl) h)

  sentinel_slot-Inv : (id i : ℕ) (n : NodeState A) → Inv n → Inv (sentinel_slot id i n)
  unfolding sentinel_slot
  sentinel_slot-Inv id i n v =
      let w = edit-Inv i (invalid_slot id) n (invalid_slot_dirty id) v in
      let cleared =
        edit-Inv i clear_wave_projection (edit i (invalid_slot id) n)
          (λ s. unfold clear_wave_projection in refl) w in
      ground (arith, w, cleared)

  forget_paused_wave-Inv : (n : NodeState A) → Inv n → Inv (forget_paused_wave n)
  unfolding forget_paused_wave
  forget_paused_wave-Inv n v = ground arith

  receive_invalidate-Inv :
      (d : Delivery) (i : ℕ) (n : NodeState A) → Inv n → Inv (receive_invalidate d i n).0
  unfolding receive_invalidate
  receive_invalidate-Inv d i n v =
      forget_paused_wave-Inv _ (release-Inv i _ (sentinel_slot-Inv d.id i n v))

  terminal_action-Inv :
      (d : Delivery) (t : DepTerminal) (n : NodeState A) → Inv n → Inv (terminal_action d t n).0
  unfolding terminal_action
  terminal_action-Inv d t n v = ground (arith, set_maybe_run-Inv d true n v)

  receive_terminal-Inv :
      (d : Delivery) (i : ℕ) (t : DepTerminal) (n : NodeState A)
      → Inv n
      → Inv (receive_terminal d i t n).0
  unfolding receive_terminal
  receive_terminal-Inv d i t n v =
      terminal_action-Inv d t _
        (release-Inv i _ (edit-Inv i (terminal_slot t) n (λ s. unfold terminal_slot in refl) v))

  receive_live-Inv :
      (d : Delivery) (i : ℕ) (m : Message A) (n : NodeState A)
      → Inv n
      → n.value.terminal ≡ false
      → i < length n.deps
      → Inv (receive_live d i m n).0
  unfolding receive_live
  receive_live-Inv d i Message.invalidate n v live h = receive_invalidate-Inv d i n v
  receive_live-Inv d i Message.dirty n v live h = receive_dirty-Inv i n v live h
  receive_live-Inv d i (Message.datum x) n v live h = receive_data-Inv d i x n v
  receive_live-Inv d i Message.resolved n v live h = receive_resolved-Inv d i n v
  receive_live-Inv d i Message.complete n v live h =
      receive_terminal-Inv d i DepTerminal.complete n v
  receive_live-Inv d i (Message.error e) n v live h =
      receive_terminal-Inv d i (DepTerminal.error e) n v
  receive_live-Inv d i Message.teardown n v live h = v
  receive_live-Inv d i _ n v live h = v

  pub collect_receive-Inv :
      (d : Delivery) (i : ℕ) (m : Message A) (n : NodeState A)
      → Inv n
      → i < length n.deps
      → Inv (collect_receive d i m n).0
  unfolding collect_receive
  collect_receive-Inv d i m n v h = ground (arith, receive_live-Inv d i m n v)
