-- ===== src/Node/Run.antt =====
-- Running a node's function: `run_wave`, `maybe_run`, `try_run`, `passthrough_emit`, and
-- `InWaveDepReceiveAction::apply`.
pub mod Undirty
use graphrefly_rs.Prelude.{
  ℕ, Bool, true, false, not, ◌&&◌, ◌||◌, Option, none, some, List, [], ◌∷◌, ◌++◌, map, any, is_nil,
  last, ltb, ◌==◌, if◌then◌else◌,
}
use graphrefly_rs.Protocol.{Message, Wave, PullDemand}
use graphrefly_rs.Node.State.{DepSlot, DepTerminal, WaveData, NodeState, Effect, Delivery}
use graphrefly_rs.Node.Slots.{update_at}
use graphrefly_rs.Node.Gates.{MaybeRunDecision, decide_maybe_run, gate_open}
use graphrefly_rs.Node.Steps.{Exit, done, followed_by, when, perform}
use graphrefly_rs.Node.Down.{down}

-- `DepRecord`: what a function reads of one dependency.
pub record DepRecord {ℓ} (A : Type ℓ) : Type ℓ where
  pub wave_data : List (List (WaveData A))
  pub prev_data : Option A
  pub latest : Option A
  pub terminal : Option DepTerminal

-- `Ctx`, without the handle through which a function emits.
pub record Ctx {ℓ} (A : Type ℓ) : Type ℓ where
  pub dep_records : List (DepRecord A)
  pub pull : Option (PullDemand A)

-- What a function does, in order.
pub data CtxAction {ℓ} (A : Type ℓ) : Type ℓ where
  emits : Wave A → CtxAction A
  registers_on_invalidate : ℕ → CtxAction A
  panics : CtxAction A

-- A user function: it reads the context and acts. It does not reach this node by another way.
abbrev pub NodeFn {ℓ} : Type ℓ → Type ℓ
NodeFn A = Ctx A → List (CtxAction A)

module _ {ℓ} {A : Type ℓ} where
  -- `batch.last()`, or else the given value.
  abbrev pub latest_or : Option A → Option (List A) → Option A
  latest_or old none = old
  latest_or old (some b) = elim (last b) [ none ↦ old | some v ↦ some v ]

  unfoldable pub dep_record : DepSlot A → DepRecord A
  dep_record s = record {
    wave_data = s.batch_waves;
    prev_data = s.prev;
    latest = latest_or s.prev s.batch;
    terminal = s.terminal_wave;
  }

  unfoldable pub take_record : DepSlot A → DepSlot A
  take_record s = record s { batch_waves = []; batch_wave_id = none; terminal_wave = none }

  -- `if let Some(last) = … { prev[i] = Some(last); } *b = None;`
  unfoldable pub roll_slot : DepSlot A → DepSlot A
  roll_slot s = record s { prev = latest_or s.prev s.batch; batch = none }

  unfoldable pub ctx_of : NodeState A → Ctx A
  unfolding dep_record
  ctx_of n = record { dep_records = map dep_record n.deps; pull = n.aux.active_pull }

  unfoldable pub enter_run : NodeState A → NodeState A
  unfolding take_record
  enter_run n = record n {
    deps = map take_record n.deps;
    has_called_fn_once = true;
    wave = record n.wave { inside_run_wave = true; emitted_tier3_this_wave = false };
    aux = record n.aux { on_invalidate = [] };
  }

  unfoldable pub act_one : Delivery → CtxAction A → NodeState A → NodeState A × Exit
  unfolding down
  act_one d (emits ms) n = down d ms n
  act_one d (registers_on_invalidate h) n =
      done (record n { aux = record n.aux { on_invalidate = n.aux.on_invalidate ++ h ∷ [] } })
  act_one d panics n = (n, Exit.panicked)

  unfoldable pub act : Delivery → List (CtxAction A) → NodeState A → NodeState A × Exit
  unfolding act_one
  act d [] n = done n
  act d (c ∷ cs) n = followed_by (act_one d c n) (λ m. act d cs m)

  -- `WaveGuard`, which a panic does not skip.
  abbrev pub leave_run : NodeState A × Exit → NodeState A × Exit
  leave_run (n, e) = (record n { wave = record n.wave { inside_run_wave = false } }, e)

  -- The dirty that the node broadcast and has not settled.
  unfoldable pub owes_undirty : NodeState A → Bool
  owes_undirty n =
      n.wave.emitted_dirty_this_wave
      && (not n.wave.emitted_tier3_this_wave && (not n.value.terminal && not n.config.is_async))

  unfoldable pub roll_wave : Bool → NodeState A → NodeState A
  unfolding roll_slot
  roll_wave undirty n =
      let kept = undirty && (n.wave.batch_dirty_owed || n.wave.emitted_tier3_this_wave) in
      record n {
        deps = map roll_slot n.deps;
        wave =
            if kept
            then n.wave
            else record n.wave { emitted_dirty_this_wave = false; emitted_tier3_this_wave = false };
      }

  unfoldable pub settle_run : Delivery → NodeState A → NodeState A × Exit
  unfolding owes_undirty down roll_wave
  settle_run d n =
      let undirty = owes_undirty n in
      followed_by (when undirty (down d (Message.resolved ∷ [])) n)
        (λ m. done (roll_wave undirty m))

  unfoldable pub run_wave : NodeFn A → Delivery → NodeState A → NodeState A × Exit
  unfolding ctx_of enter_run act settle_run
  run_wave fn d n =
      if n.wave.inside_run_wave
      then (n, Exit.panicked)
      else followed_by (leave_run (act d (fn (ctx_of n)) (enter_run n))) (settle_run d)

  abbrev pub first_batch : List (DepSlot A) → Option A
  first_batch [] = none
  first_batch (s ∷ ss) = latest_or none s.batch

  unfoldable pub drain_slot : DepSlot A → DepSlot A
  drain_slot s = record s {
    prev = latest_or s.prev s.batch;
    batch = none;
    batch_waves = [];
    batch_wave_id = none;
  }

  unfoldable pub relay : Delivery → Option A → NodeState A → NodeState A × Exit
  unfolding down
  relay d none n = done n
  relay d (some v) n = down d (Message.datum v ∷ []) n

  -- A node with no function relays the latest DATA of dependency 0.
  unfoldable pub passthrough_emit : Delivery → NodeState A → NodeState A × Exit
  unfolding update_at drain_slot relay
  passthrough_emit d n =
      relay d (first_batch n.deps) (record n { deps = update_at 0 drain_slot n.deps })

  unfoldable pub carry_out :
      NodeFn A → Delivery → MaybeRunDecision → NodeState A → NodeState A × Exit
  unfolding run_wave passthrough_emit
  carry_out fn d MaybeRunDecision.skip n = done n
  carry_out fn d MaybeRunDecision.passthrough n = passthrough_emit d n
  carry_out fn d MaybeRunDecision.run n = run_wave fn d n

  unfoldable pub maybe_run : NodeFn A → Delivery → NodeState A → NodeState A × Exit
  unfolding decide_maybe_run carry_out
  maybe_run fn d n =
      if d.in_flight
      then done (perform (Effect.deferred_run ∷ []) n)
      else let (n', decision) = decide_maybe_run n in carry_out fn d decision n'

  unfoldable pub try_run : NodeFn A → Delivery → NodeState A → NodeState A × Exit
  unfolding run_wave passthrough_emit gate_open
  try_run fn d n =
      if ltb 0 n.pending
      then done n
      else if not n.config.has_handle
      then passthrough_emit d n
      else if gate_open n
      then run_wave fn d n
      else done n

  unfoldable pub saw_data : Option (List A) → Bool
  saw_data none = false
  saw_data (some b) = not (is_nil b)

  unfoldable pub settle_debt : Delivery → NodeState A → NodeState A × Exit
  unfolding down
  settle_debt d n = when n.wave.emitted_dirty_this_wave (down d (Message.resolved ∷ [])) n

  unfoldable pub settle_after_absorbed_terminal :
      NodeFn A → Delivery → NodeState A → NodeState A × Exit
  unfolding maybe_run saw_data settle_debt
  settle_after_absorbed_terminal fn d n =
      if d.in_flight
      then done (perform (Effect.deferred_settle ∷ []) n)
      else if not (n.pending == 0 && n.wave.emitted_dirty_this_wave)
      then done n
      else followed_by (when (any (λ s. saw_data s.batch) n.deps) (maybe_run fn d) n)
          (settle_debt d)
