-- ===== src/Node/Run/Undirty.antt =====
-- A run that produces nothing.
use graphrefly_rs.Prelude.{◌≡◌, refl, true, false, [], ◌∷◌, ◌++◌, arith, ◌∙◌, ap, if◌then◌else◌}
use graphrefly_rs.Protocol.{Message, tier}
use graphrefly_rs.Node.State.{NodeState, Delivery, Effect, Status}
use graphrefly_rs.Node.Sorting.{prepare}
use graphrefly_rs.Node.Steps.{returned}
use graphrefly_rs.Node.Gates.{should_buffer_on_pause, is_paused, pull_quiet}
use graphrefly_rs.Node.Down.{down, deliver, send_all, send_one, emit_dirty_once, end_external_wave}
use graphrefly_rs.Node.Down.External.{down_outside}
use graphrefly_rs.Node.Run.{
  NodeFn, run_wave, settle_run, roll_wave, owes_undirty, act, ctx_of, enter_run, leave_run,
}

module _ {ℓ} {A : Type ℓ} where
  prepare_resolved : prepare {A = A} (Message.resolved ∷ []) ≡ Message.resolved ∷ []
  unfolding prepare tier
  prepare_resolved = refl

  pub awake_unbuffered :
      (n : NodeState A)
      → is_paused n ≡ false
      → pull_quiet n ≡ false
      → should_buffer_on_pause n ≡ false
  unfolding should_buffer_on_pause
  awake_unbuffered n p q = ground arith

  -- One balancing RESOLVED, after a DIRTY that is still owed.
  abbrev balanced : NodeState A → NodeState A
  balanced n = record n {
    value = record n.value {
      status = if n.value.has_data then Status.resolved else Status.sentinel;
    };
    wave = record n.wave { emitted_dirty_this_wave = false; emitted_tier3_this_wave = false };
    effects = n.effects ++ Effect.sent Message.resolved ∷ [];
  }

  resolved_outside :
      (d : Delivery) (n : NodeState A)
      → n.value.terminal ≡ false
      → n.wave.inside_run_wave ≡ false
      → n.wave.emitted_dirty_this_wave ≡ true
      → d.collecting_batch ≡ false
      → should_buffer_on_pause n ≡ false
      → down d (Message.resolved ∷ []) n ≡ (balanced n, returned)
  resolved_outside d n live outside owed free awake =
      down_outside d (Message.resolved ∷ []) n live outside free awake
      ∙ (ap (λ ms. deliver false ms n) prepare_resolved ∙ delivered)
    where
      delivered : deliver false (Message.resolved ∷ []) n ≡ (balanced n, returned)
      delivered =
          unfold deliver send_all send_one emit_dirty_once end_external_wave in (rw owed refl)

  settled_run :
      (d : Delivery) (n : NodeState A)
      → n.value.terminal ≡ false
      → n.wave.inside_run_wave ≡ false
      → n.wave.emitted_dirty_this_wave ≡ true
      → n.wave.emitted_tier3_this_wave ≡ false
      → n.config.is_async ≡ false
      → d.collecting_batch ≡ false
      → should_buffer_on_pause n ≡ false
      → settle_run d n ≡ (roll_wave true (balanced n), returned)
  unfolding settle_run
  settled_run d n live outside owed silent sync free awake =
      let owes : owes_undirty n ≡ true = unfold owes_undirty in ground arith in
      let sent = resolved_outside d n live outside owed free awake in
      rw (owes, settle_run) (rw sent refl)

  -- The state between the function's return and the balancing RESOLVED.
  abbrev ran : NodeState A → NodeState A
  ran n = (leave_run (enter_run n, returned)).0

  silent_wave :
      (fn : NodeFn A) (d : Delivery) (n : NodeState A)
      → fn (ctx_of n) ≡ []
      → n.wave.inside_run_wave ≡ false
      → run_wave fn d n ≡ settle_run d (ran n)
  unfolding run_wave act
  silent_wave fn d n silent outside = rw (outside, run_wave) (rw (silent, act) refl)

  ran_awake :
      (n : NodeState A)
      → is_paused n ≡ false
      → pull_quiet n ≡ false
      → should_buffer_on_pause (ran n) ≡ false
  unfolding is_paused pull_quiet enter_run
  ran_awake n p q = awake_unbuffered (ran n) (ground arith) (ground arith)

  -- A run whose function emits nothing, on a node that has broadcast DIRTY and owes its settle to no
  -- batch: it sends exactly one RESOLVED, keeps the cached value, which is fresh again if there is
  -- one, and leaves no dirty owed. The node is live, not already running, synchronous, and not held
  -- back by a batch, a pause or a quiet pull.
  pub silent_run_balances :
      (fn : NodeFn A) (d : Delivery) (n : NodeState A)
      → fn (ctx_of n) ≡ []
      → n.value.terminal ≡ false
      → n.wave.inside_run_wave ≡ false
      → n.wave.emitted_dirty_this_wave ≡ true
      → n.wave.batch_dirty_owed ≡ false
      → n.config.is_async ≡ false
      → d.collecting_batch ≡ false
      → is_paused n ≡ false
      → pull_quiet n ≡ false
      → let (m, e) = run_wave fn d n in
        (e ≡ returned)
        × (m.effects ≡ n.effects ++ Effect.sent Message.resolved ∷ [])
        × (m.value.cache ≡ n.value.cache)
        × (m.value.status ≡ (if n.value.has_data then Status.resolved else Status.sentinel))
        × (m.wave.emitted_dirty_this_wave ≡ false)
  silent_run_balances fn d n silent live outside owed unbatched sync free p q =
      let settled : settle_run d (ran n) ≡ (roll_wave true (balanced (ran n)), returned) =
        unfold enter_run in settled_run d (ran n) live refl owed refl sync free (ran_awake n p q) in
      rw (silent_wave fn d n silent outside ∙ settled)
        (unfold enter_run roll_wave in (refl, refl, refl, refl, ground arith))
