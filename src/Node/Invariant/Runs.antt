-- ===== src/Node/Invariant/Runs.antt =====
-- Running the node's function and the invariant; also RESUME and PULL.
use graphrefly_rs.Prelude.{refl, Bool, true, false, Option, none, some, List, [], ◌∷◌, arith, any}
use graphrefly_rs.Protocol.{Message}
use graphrefly_rs.Node.State.{NodeState, Delivery}
use graphrefly_rs.Node.Slots.{update_at}
use graphrefly_rs.Node.Slots.Dirty.{count_dirty-map, count_dirty-update_at}
use graphrefly_rs.Node.Steps.{Exit, followed_by, when}
use graphrefly_rs.Node.Gates.{MaybeRunDecision, decide_maybe_run}
use graphrefly_rs.Node.Down.{down}
use graphrefly_rs.Node.Run.{
  NodeFn, CtxAction, emits, registers_on_invalidate, panics, take_record, roll_slot, ctx_of,
  enter_run, act_one, act, leave_run, owes_undirty, roll_wave, settle_run, run_wave,
  passthrough_emit, drain_slot, relay, first_batch, carry_out, maybe_run, try_run, saw_data,
  settle_debt, settle_after_absorbed_terminal,
}
use graphrefly_rs.Node.Invariant.{Inv, down-Inv}

module _ {ℓ} {A : Type ℓ} where
  -- A step after a step: the second starts where the first returned.
  pub followed_by-Inv :
      (r : NodeState A × Exit) (k : NodeState A → NodeState A × Exit)
      → Inv r.0
      → ((n : NodeState A) → Inv n → Inv (k n).0)
      → Inv (followed_by r k).0
  followed_by-Inv (n, Exit.returned) k v h = h n v
  followed_by-Inv (n, Exit.panicked) k v h = v

  pub when-Inv :
      (b : Bool) (k : NodeState A → NodeState A × Exit) (n : NodeState A)
      → Inv n
      → ((m : NodeState A) → Inv m → Inv (k m).0)
      → Inv (when b k n).0
  when-Inv true k n v h = h n v
  when-Inv false k n v h = v

  act_one-Inv : (d : Delivery) (c : CtxAction A) (n : NodeState A) → Inv n → Inv (act_one d c n).0
  unfolding act_one
  act_one-Inv d (emits ms) n v = down-Inv d ms n v
  act_one-Inv d (registers_on_invalidate h) n v = ground arith
  act_one-Inv d panics n v = v

  act-Inv : (d : Delivery) (cs : List (CtxAction A)) (n : NodeState A) → Inv n → Inv (act d cs n).0
  unfolding act
  act-Inv d [] n v = v
  act-Inv d (c ∷ cs) n v =
      followed_by-Inv (act_one d c n) (λ m. act d cs m) (act_one-Inv d c n v)
        (λ m w. act-Inv d cs m w)

  enter_run-Inv : (n : NodeState A) → Inv n → Inv (enter_run n)
  unfolding enter_run
  enter_run-Inv n v =
      ground (arith, count_dirty-map take_record n.deps (λ s. unfold take_record in refl))

  leave_run-Inv : (r : NodeState A × Exit) → Inv r.0 → Inv (leave_run r).0
  leave_run-Inv (n, e) v = ground arith

  roll_wave-Inv : (b : Bool) (n : NodeState A) → Inv n → Inv (roll_wave b n)
  unfolding roll_wave
  roll_wave-Inv b n v =
      ground (arith, count_dirty-map roll_slot n.deps (λ s. unfold roll_slot in refl))

  settle_run-Inv : (d : Delivery) (n : NodeState A) → Inv n → Inv (settle_run d n).0
  unfolding settle_run
  settle_run-Inv d n v =
      followed_by-Inv (when (owes_undirty n) (down d (Message.resolved ∷ [])) n)
        (λ m. (roll_wave (owes_undirty n) m, Exit.returned))
        (when-Inv (owes_undirty n) (down d (Message.resolved ∷ [])) n v
          (down-Inv d (Message.resolved ∷ [])))
        (λ m w. roll_wave-Inv (owes_undirty n) m w)

  pub run_wave-Inv :
      (fn : NodeFn A) (d : Delivery) (n : NodeState A) → Inv n → Inv (run_wave fn d n).0
  unfolding run_wave
  run_wave-Inv fn d n v =
      let acted = act d (fn (ctx_of n)) (enter_run n) in
      let ran =
        followed_by-Inv (leave_run acted) (settle_run d)
          (leave_run-Inv acted (act-Inv d (fn (ctx_of n)) (enter_run n) (enter_run-Inv n v)))
          (settle_run-Inv d) in
      ground (arith, ran)

  relay-Inv : (d : Delivery) (o : Option A) (n : NodeState A) → Inv n → Inv (relay d o n).0
  unfolding relay
  relay-Inv d none n v = v
  relay-Inv d (some x) n v = down-Inv d (Message.datum x ∷ []) n v

  passthrough_emit-Inv : (d : Delivery) (n : NodeState A) → Inv n → Inv (passthrough_emit d n).0
  unfolding passthrough_emit
  passthrough_emit-Inv d n v =
      let n' = record n { deps = update_at 0 drain_slot n.deps } in
      let same = count_dirty-update_at 0 drain_slot n.deps (λ s. unfold drain_slot in refl) in
      let v' : Inv n' = ground (arith, same) in relay-Inv d (first_batch n.deps) n' v'

  pub carry_out-Inv :
      (fn : NodeFn A) (d : Delivery) (c : MaybeRunDecision) (n : NodeState A)
      → Inv n
      → Inv (carry_out fn d c n).0
  unfolding carry_out
  carry_out-Inv fn d MaybeRunDecision.skip n v = v
  carry_out-Inv fn d MaybeRunDecision.passthrough n v = passthrough_emit-Inv d n v
  carry_out-Inv fn d MaybeRunDecision.run n v = run_wave-Inv fn d n v

  pub decide_maybe_run-Inv : (n : NodeState A) → Inv n → Inv (decide_maybe_run n).0
  unfolding decide_maybe_run
  decide_maybe_run-Inv n v = ground arith

  pub maybe_run-Inv :
      (fn : NodeFn A) (d : Delivery) (n : NodeState A) → Inv n → Inv (maybe_run fn d n).0
  unfolding maybe_run
  maybe_run-Inv fn d n v = ground (
    arith,
    carry_out-Inv fn d (decide_maybe_run n).1 (decide_maybe_run n).0 (decide_maybe_run-Inv n v),
  )

  pub try_run-Inv :
      (fn : NodeFn A) (d : Delivery) (n : NodeState A) → Inv n → Inv (try_run fn d n).0
  unfolding try_run
  try_run-Inv fn d n v = ground (arith, passthrough_emit-Inv d n v, run_wave-Inv fn d n v)

  settle_debt-Inv : (d : Delivery) (n : NodeState A) → Inv n → Inv (settle_debt d n).0
  unfolding settle_debt
  settle_debt-Inv d n v =
      when-Inv n.wave.emitted_dirty_this_wave (down d (Message.resolved ∷ [])) n v
        (down-Inv d (Message.resolved ∷ []))

  pub settle_after_absorbed_terminal-Inv :
      (fn : NodeFn A) (d : Delivery) (n : NodeState A)
      → Inv n
      → Inv (settle_after_absorbed_terminal fn d n).0
  unfolding settle_after_absorbed_terminal
  settle_after_absorbed_terminal-Inv fn d n v =
      let b = any (λ s. saw_data s.batch) n.deps in
      ground (
        arith,
        followed_by-Inv (when b (maybe_run fn d) n) (settle_debt d)
            (when-Inv b (maybe_run fn d) n v (maybe_run-Inv fn d)) (settle_debt-Inv d),
      )
