-- ===== src/Node/Invariant/Applies.antt =====
-- Applying the action that a message leaves, and the invariant; also the recovery from a panic.
use graphrefly_rs.Prelude.{
  ℕ, ◌<◌, ◌≡◌, refl, String, Bool, true, false, Option, none, some, [], ◌∷◌, arith, length,
  Bool-cases, inl, inr, if◌then◌else◌,
}
use graphrefly_rs.Protocol.{Message, Wave}
use graphrefly_rs.Node.State.{NodeState, Delivery, Effect}
use graphrefly_rs.Node.Slots.Dirty.{count_dirty-reset}
use graphrefly_rs.Node.Steps.{Exit, when, perform, send}
use graphrefly_rs.Node.Receive.{ReceiveAction, collect_receive}
use graphrefly_rs.Node.Run.{NodeFn, carry_out, settle_after_absorbed_terminal}
use graphrefly_rs.Node.Pause.{fire_owed_demand_if_ready}
use graphrefly_rs.Node.Apply.{
  apply_invalidate, apply_undirty, apply_msgs, settle_and_serve, run_and_settle, after_invalidate,
  apply_action, apply_some, receive_from_dep, reset_slot, reset_wave_flags, with_wave_owner,
}
use graphrefly_rs.Node.Invariant.{Inv, down-Inv, invalidate-Inv}
use graphrefly_rs.Node.Invariant.Runs.{
  followed_by-Inv, when-Inv, carry_out-Inv, settle_after_absorbed_terminal-Inv,
}
use graphrefly_rs.Node.Invariant.Pulls.{fire_owed_demand_if_ready-Inv}
use graphrefly_rs.Node.Invariant.Receives.{collect_receive-Inv}
use graphrefly_rs.Node.Invariant.Lives.{terminal-receive_live}

module _ {ℓ} {A : Type ℓ} where
  apply_invalidate-Inv :
      (d : Delivery) (a : ReceiveAction A) (n : NodeState A)
      → Inv n
      → n.value.terminal ≡ false
      → Inv (apply_invalidate d a n).0
  unfolding apply_invalidate
  apply_invalidate-Inv d a n v live =
      ground (arith, down-Inv d (Message.invalidate ∷ []) n v, invalidate-Inv n v live)

  apply_undirty-Inv :
      (d : Delivery) (a : ReceiveAction A) (n : NodeState A) → Inv n → Inv (apply_undirty d a n).0
  unfolding apply_undirty
  apply_undirty-Inv d a n v = ground (arith, down-Inv d (Message.resolved ∷ []) n v)

  apply_msgs-Inv :
      (d : Delivery) (o : Option (Wave A)) (n : NodeState A) → Inv n → Inv (apply_msgs d o n).0
  unfolding apply_msgs
  apply_msgs-Inv d none n v = v
  apply_msgs-Inv d (some ms) n v = down-Inv d ms n v

  defer-Inv :
      (b : Bool) (n : NodeState A)
      → Inv n
      → Inv (if b then perform (Effect.deferred_run ∷ []) n else n)
  defer-Inv true n v = ground arith
  defer-Inv false n v = v

  send_if-Inv :
      (b : Bool) (m : Message A) (n : NodeState A) → Inv n → Inv (if b then send m n else n)
  send_if-Inv true m n v = ground arith
  send_if-Inv false m n v = v

  send_if_live :
      (b : Bool) (m : Message A) (n : NodeState A)
      → n.value.terminal ≡ false
      → (if b then send m n else n).value.terminal ≡ false
  send_if_live true m n live = live
  send_if_live false m n live = live

  settle_and_serve-Inv :
      (fn : NodeFn A) (d : Delivery) (a : ReceiveAction A) (n : NodeState A)
      → Inv n
      → Inv (settle_and_serve fn d a n).0
  unfolding settle_and_serve
  settle_and_serve-Inv fn d a n v =
      followed_by-Inv (apply_msgs d a.down_msgs n) _ (apply_msgs-Inv d a.down_msgs n v) λ m w.
        followed_by-Inv
          (when a.do_settle_after_absorbed_terminal (settle_after_absorbed_terminal fn d) m)
          (when a.fire_demand (fire_owed_demand_if_ready fn d))
          (when-Inv a.do_settle_after_absorbed_terminal (settle_after_absorbed_terminal fn d) m w
            (settle_after_absorbed_terminal-Inv fn d))
          λ k u.
            when-Inv a.fire_demand (fire_owed_demand_if_ready fn d) k u
              (fire_owed_demand_if_ready-Inv fn d)

  run_and_settle-Inv :
      (fn : NodeFn A) (d : Delivery) (a : ReceiveAction A) (n : NodeState A)
      → Inv n
      → Inv (run_and_settle fn d a n).0
  unfolding run_and_settle
  run_and_settle-Inv fn d a n v =
      let n' = if a.defer_maybe_run then perform (Effect.deferred_run ∷ []) n else n in
      followed_by-Inv (carry_out fn d a.maybe_run_decision n') (settle_and_serve fn d a)
        (carry_out-Inv fn d a.maybe_run_decision n' (defer-Inv a.defer_maybe_run n v))
        (settle_and_serve-Inv fn d a)

  -- The steps after the invalidation need no living node.
  after_invalidate-Inv :
      (fn : NodeFn A) (d : Delivery) (a : ReceiveAction A) (n : NodeState A)
      → Inv n
      → Inv (after_invalidate fn d a n).0
  unfolding after_invalidate
  after_invalidate-Inv fn d a n v =
      followed_by-Inv (when a.clear_undirty_after_invalidate (apply_undirty d a) n)
        (run_and_settle fn d a)
        (when-Inv a.clear_undirty_after_invalidate (apply_undirty d a) n v (apply_undirty-Inv d a))
        (run_and_settle-Inv fn d a)

  apply_action-Inv :
      (fn : NodeFn A) (d : Delivery) (a : ReceiveAction A) (n : NodeState A)
      → Inv n
      → (a.do_invalidate ≡ true → n.value.terminal ≡ false)
      → Inv (apply_action fn d a n).0
  unfolding apply_action
  apply_action-Inv fn d a n v live =
      let n1 = if a.emit_teardown_subscribers then send Message.teardown n else n in
      let v1 = send_if-Inv a.emit_teardown_subscribers Message.teardown n v in
      let n2 = if a.emit_dirty then send Message.dirty n1 else n1 in
      let v2 = send_if-Inv a.emit_dirty Message.dirty n1 v1 in
      followed_by-Inv (when a.do_invalidate (apply_invalidate d a) n2) (after_invalidate fn d a)
        (elim (Bool-cases a.do_invalidate) [
          | inl e ↦ rw e (
              apply_invalidate-Inv d a n2 v2 (
                send_if_live a.emit_dirty Message.dirty n1
                  (send_if_live a.emit_teardown_subscribers Message.teardown n (live e))))
          | inr e ↦ rw e v2
        ])
        (after_invalidate-Inv fn d a)

  -- The action that a message leaves invalidates only a living node.
  collect_receive_live :
      (d : Delivery) (i : ℕ) (m : Message A) (n : NodeState A) (a : ReceiveAction A)
      → (collect_receive d i m n).1 ≡ some a
      → a.do_invalidate ≡ true
      → (collect_receive d i m n).0.value.terminal ≡ false
  unfolding collect_receive
  collect_receive_live d i m n a e h = ground (arith, terminal-receive_live d i m n)

  apply_some-Inv :
      (fn : NodeFn A) (d : Delivery) (o : Option (ReceiveAction A)) (n : NodeState A)
      → Inv n
      → ((a : ReceiveAction A) → o ≡ some a → a.do_invalidate ≡ true → n.value.terminal ≡ false)
      → Inv (apply_some fn d o n).0
  unfolding apply_some
  apply_some-Inv fn d none n v live = v
  apply_some-Inv fn d (some a) n v live = apply_action-Inv fn d a n v (live a refl)

  -- A message from any dependency, with whatever the node's function then does, keeps the
  -- invariant.
  pub receive_from_dep-Inv :
      (fn : NodeFn A) (d : Delivery) (i : ℕ) (m : Message A) (n : NodeState A)
      → Inv n
      → i < length n.deps
      → Inv (receive_from_dep fn d i m n).0
  unfolding receive_from_dep
  receive_from_dep-Inv fn d i m n v h =
      apply_some-Inv fn d (collect_receive d i m n).1 (collect_receive d i m n).0
        (collect_receive-Inv d i m n v h) (collect_receive_live d i m n)

  reset_wave_flags-Inv : (n : NodeState A) → Inv n → Inv (reset_wave_flags n)
  unfolding reset_wave_flags
  reset_wave_flags-Inv n v =
      ground (arith, count_dirty-reset reset_slot n.deps (λ s. unfold reset_slot in refl))

  -- The recovery from a panic restores the invariant's counts.
  pub with_wave_owner-Inv :
      (d : Delivery) (text : String) (body : NodeState A → NodeState A × Exit) (n : NodeState A)
      → Inv (body n).0
      → Inv (with_wave_owner d text body n)
  unfolding with_wave_owner
  with_wave_owner-Inv d text body n v =
      let w = reset_wave_flags-Inv (body n).0 v in
      ground (arith, down-Inv d (Message.error text ∷ []) (reset_wave_flags (body n).0) w)
