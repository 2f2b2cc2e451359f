-- ===== src/Node/Invariant/Lives.antt =====
-- A message from a dependency and the `terminal` flag.
use graphrefly_rs.Prelude.{◌∙◌, ℕ, ◌≡◌, refl, Bool, true, arith}
use graphrefly_rs.Protocol.{Message}
use graphrefly_rs.Node.State.{NodeState, DepSlot, DepTerminal, Delivery}
use graphrefly_rs.Node.Slots.{release, clear_wave_projection}
use graphrefly_rs.Node.Gates.{decide_maybe_run}
use graphrefly_rs.Node.Receive.{
  edit, set_maybe_run, note_paused_wave, settle_dep, restore_slot, data_slot, invalid_slot,
  resolved_slot, terminal_slot, receive_data, receive_resolved, receive_dirty, sentinel_slot,
  forget_paused_wave, receive_invalidate, terminal_action, receive_terminal, receive_live,
}

module _ {ℓ} {A : Type ℓ} where
  terminal-edit :
      (i : ℕ) (f : DepSlot A → DepSlot A) (n : NodeState A)
      → (edit i f n).value.terminal ≡ n.value.terminal
  unfolding edit
  terminal-edit i f n = refl

  terminal-release : (i : ℕ) (n : NodeState A) → (release i n).value.terminal ≡ n.value.terminal
  unfolding release
  terminal-release i n = ground arith

  terminal-set_maybe_run :
      (d : Delivery) (b : Bool) (n : NodeState A)
      → (set_maybe_run d b n).0.value.terminal ≡ n.value.terminal
  unfolding set_maybe_run decide_maybe_run
  terminal-set_maybe_run d b n = ground arith

  terminal-settle_dep :
      (d : Delivery) (i : ℕ) (n : NodeState A)
      → (settle_dep d i n).0.value.terminal ≡ n.value.terminal
  unfolding settle_dep note_paused_wave
  terminal-settle_dep d i n =
      ground (arith, terminal-release i n, terminal-set_maybe_run d true (release i n))

  terminal-sentinel_slot :
      (id i : ℕ) (n : NodeState A) → (sentinel_slot id i n).value.terminal ≡ n.value.terminal
  unfolding sentinel_slot
  terminal-sentinel_slot id i n =
      let n' = edit i (invalid_slot id) n in
      ground (arith, terminal-edit i (invalid_slot id) n, terminal-edit i clear_wave_projection n')

  terminal-forget_paused_wave :
      (n : NodeState A) → (forget_paused_wave n).value.terminal ≡ n.value.terminal
  unfolding forget_paused_wave
  terminal-forget_paused_wave n = ground arith

  terminal-terminal_action :
      (d : Delivery) (t : DepTerminal) (n : NodeState A)
      → (terminal_action d t n).0.value.terminal ≡ n.value.terminal
  unfolding terminal_action
  terminal-terminal_action d t n = ground (arith, terminal-set_maybe_run d true n)

  terminal-receive_data :
      (d : Delivery) (i : ℕ) (x : A) (n : NodeState A)
      → (receive_data d i x n).0.value.terminal ≡ n.value.terminal
  unfolding receive_data
  terminal-receive_data d i x n = ground (
    arith,
    terminal-edit i (restore_slot x) n,
    terminal-edit i (data_slot d.id x) n,
    terminal-settle_dep d i (edit i (data_slot d.id x) n),
  )

  terminal-receive_dirty :
      (i : ℕ) (n : NodeState A) → (receive_dirty i n).0.value.terminal ≡ n.value.terminal
  unfolding receive_dirty
  terminal-receive_dirty i n = ground arith

  -- A message from a dependency does not by itself end a node.
  pub terminal-receive_live :
      (d : Delivery) (i : ℕ) (m : Message A) (n : NodeState A)
      → (receive_live d i m n).0.value.terminal ≡ n.value.terminal
  unfolding receive_live edit
  terminal-receive_live d i Message.invalidate n =
      unfold receive_invalidate in
      (terminal-forget_paused_wave (release i (sentinel_slot d.id i n))
        ∙ (terminal-release i (sentinel_slot d.id i n) ∙ terminal-sentinel_slot d.id i n))
  terminal-receive_live d i Message.dirty n = terminal-receive_dirty i n
  terminal-receive_live d i (Message.datum x) n = terminal-receive_data d i x n
  terminal-receive_live d i Message.resolved n =
      unfold receive_resolved in terminal-settle_dep d i (edit i (resolved_slot d.id) n)
  terminal-receive_live d i Message.complete n =
      unfold receive_terminal in
      (terminal-terminal_action d DepTerminal.complete
          (release i (edit i (terminal_slot DepTerminal.complete) n))
        ∙ terminal-release i (edit i (terminal_slot DepTerminal.complete) n))
  terminal-receive_live d i (Message.error e) n =
      unfold receive_terminal in
      (terminal-terminal_action d (DepTerminal.error e)
          (release i (edit i (terminal_slot (DepTerminal.error e)) n))
        ∙ terminal-release i (edit i (terminal_slot (DepTerminal.error e)) n))
  terminal-receive_live d i Message.teardown n = refl
  terminal-receive_live d i _ n = refl
