-- ===== src/Node/Down.antt =====
-- `Core::down` and what it calls: a wave toward the subscribers. The node's versioning policy is
-- `Disabled`, under which the version stays absent and every DATA is compatible.
pub mod External
pub mod Invalidation
pub mod Order
use graphrefly_rs.Prelude.{
  ℕ, Bool, true, false, not, ◌&&◌, ◌||◌, none, some, List, [], ◌∷◌, ◌++◌, map, any, keep,
  if◌then◌else◌,
}
use graphrefly_rs.Protocol.{Message, Wave, tier, is_batch_deferred, is_pause_buffered}
use graphrefly_rs.Node.State.{NodeState, NodeAux, Effect, Delivery, Status}
use graphrefly_rs.Node.Gates.{should_buffer_on_pause}
use graphrefly_rs.Node.Sorting.{prepare}
use graphrefly_rs.Node.Steps.{Exit, done, perform, send}

module _ {ℓ} {A : Type ℓ} where
  -- `emit_dirty_once` and the part of `mark_dirty` that it shares.
  unfoldable pub emit_dirty_once : NodeState A → NodeState A
  emit_dirty_once n =
      if n.wave.emitted_dirty_this_wave
      then n
      else send Message.dirty (record n {
        wave = record n.wave { emitted_dirty_this_wave = true };
        value = record n.value { status = Status.dirty };
      })

  unfoldable pub run_hooks : List ℕ → List (Effect A)
  run_hooks hs = map Effect.ran_hook hs

  -- What a terminal message clears.
  unfoldable pub clear_on_terminal : NodeAux A → NodeAux A
  clear_on_terminal a = record a {
    pull_demand_owed = none;
    active_pull = none;
    in_deliver_demand = false;
    pull_dirty_owed = false;
    paused_dep_wave_occurred = false;
    pause_buffer = [];
  }

  unfoldable pub finish : Status → Message A → NodeState A → NodeState A
  unfolding clear_on_terminal
  finish s m n =
      if n.value.terminal
      then n
      else send m (record n {
        value = record n.value { terminal = true; status = s };
        aux = clear_on_terminal n.aux;
      })

  unfoldable pub clear_cache : NodeState A → NodeState A
  clear_cache n = record n {
    value = record n.value { cache = none; has_data = false; status = Status.sentinel };
  }

  -- `invalidate`: the hooks run before the subscribers hear of it.
  unfoldable pub invalidate : NodeState A → NodeState A
  unfolding clear_cache run_hooks
  invalidate n =
      if n.value.has_data
      then perform (run_hooks n.aux.on_invalidate ++ Effect.sent Message.invalidate ∷ [])
          (clear_cache n)
      else n

  -- `collect_down_action_from_graph` and `apply_down_action` for one message.
  unfoldable pub send_one : Message A → NodeState A → NodeState A
  unfolding emit_dirty_once invalidate finish
  send_one Message.dirty n = emit_dirty_once n
  send_one (Message.datum v) n = send (Message.datum v) (record n {
    value = record n.value { cache = some v; has_data = true; status = Status.settled };
    wave = record n.wave { emitted_tier3_this_wave = true };
  })
  send_one Message.resolved n = send Message.resolved (record n {
    value = record n.value {
      status = if n.value.has_data then Status.resolved else Status.sentinel;
    };
    wave = record n.wave { emitted_tier3_this_wave = true };
  })
  send_one Message.invalidate n = invalidate n
  send_one Message.complete n = finish Status.completed Message.complete n
  send_one (Message.error e) n = finish Status.errored (Message.error e) n
  send_one Message.teardown n = send Message.teardown n
  send_one _ n = n

  unfoldable pub send_all : Wave A → NodeState A → NodeState A
  send_all [] n = n
  send_all (m ∷ ms) n = send_all ms (send_one m n)

  abbrev pub is_datum : Message A → Bool
  is_datum (Message.datum v) = true
  is_datum _ = false

  abbrev pub is_resolved : Message A → Bool
  is_resolved Message.resolved = true
  is_resolved _ = false

  unfoldable pub end_external_wave : NodeState A → NodeState A
  end_external_wave n = record n {
    wave = record n.wave { emitted_dirty_this_wave = false; emitted_tier3_this_wave = false };
  }

  -- From the check of tier-3 exclusivity on; `inside` was read when the call began.
  unfoldable pub deliver : Bool → Wave A → NodeState A → NodeState A × Exit
  unfolding send_all emit_dirty_once end_external_wave
  deliver inside ms n =
      if any is_datum ms && any is_resolved ms
      then (n, Exit.panicked)
      else let has_tier3 = any is_datum ms || any is_resolved ms in
        let led =
          if has_tier3 && (not inside || n.aux.pull_dirty_owed) then emit_dirty_once n else n in
        let sent = send_all ms led in done (if inside then sent else end_external_wave sent)

  abbrev pub buffered : Wave A → Wave A
  buffered ms = keep (λ m. is_pause_buffered (tier m)) ms

  abbrev pub unbuffered : Wave A → Wave A
  unbuffered ms = keep (λ m. not (is_pause_buffered (tier m))) ms

  unfoldable pub hold : Wave A → NodeState A → NodeState A
  hold [] n = n
  hold (m ∷ ms) n = record n {
    wave = record n.wave { emitted_tier3_this_wave = true };
    aux = record n.aux { pause_buffer = n.aux.pause_buffer ++ (m ∷ ms) ∷ [] };
  }

  -- `sorted = rest; if sorted.is_empty() { return; }`, then the rest of the call.
  unfoldable pub deliver_rest : Bool → Wave A → NodeState A → NodeState A × Exit
  unfolding deliver
  deliver_rest inside [] n = done n
  deliver_rest inside (m ∷ ms) n = deliver inside (m ∷ ms) n

  unfoldable pub gate_pause : Bool → Wave A → NodeState A → NodeState A × Exit
  unfolding should_buffer_on_pause hold deliver deliver_rest
  gate_pause inside ms n =
      if should_buffer_on_pause n
      then deliver_rest inside (unbuffered ms) (hold (buffered ms) n)
      else deliver inside ms n

  abbrev pub batched : Wave A → Wave A
  batched ms = keep (λ m. is_batch_deferred (tier m)) ms

  abbrev pub unbatched : Wave A → Wave A
  unbatched ms = keep (λ m. not (is_batch_deferred (tier m))) ms

  -- `defer_to_batch`, which succeeds for a live node in a collecting batch.
  unfoldable pub hand_to_batch : Wave A → NodeState A → NodeState A
  unfolding emit_dirty_once
  hand_to_batch ms n =
      let n' = emit_dirty_once (perform (Effect.deferred_wave ms ∷ []) n) in
      record n' { wave = record n'.wave { batch_dirty_owed = true } }

  unfoldable pub gate_rest : Wave A → NodeState A → NodeState A × Exit
  unfolding gate_pause
  gate_rest [] n = done n
  gate_rest (m ∷ ms) n = gate_pause false (m ∷ ms) n

  unfoldable pub gate_batch : Wave A → Wave A → NodeState A → NodeState A × Exit
  unfolding hand_to_batch gate_rest
  gate_batch [] rest n = gate_rest rest n
  gate_batch (m ∷ ms) rest n = done (hand_to_batch (m ∷ ms) n)

  unfoldable pub down : Delivery → Wave A → NodeState A → NodeState A × Exit
  unfolding prepare gate_batch gate_pause
  down d msgs n =
      if n.value.terminal
      then done n
      else let ms = prepare msgs in
        if not n.wave.inside_run_wave && d.collecting_batch
        then gate_batch (batched ms) (unbatched ms) n
        else gate_pause n.wave.inside_run_wave ms n
