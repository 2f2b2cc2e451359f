-- ===== src/Node/Invariant.antt =====
-- What holds of a node between any two of its steps, and the steps of `down`.
pub mod Runs
pub mod Pulls
pub mod Receives
pub mod Lives
pub mod Applies
use graphrefly_rs.Prelude.{
  ℕ, ◌≤◌, ◌<◌, ◌≡◌, refl, ◌⊎◌, inl, inr, Bool, true, false, not, ◌&&◌, ◌||◌, Option, none, some,
  List, [], ◌∷◌, ◌++◌, arith, is_some, keep, any, Bool-cases, if◌then◌else◌,
}
use graphrefly_rs.Protocol.{Message, Wave, tier}
use graphrefly_rs.Node.State.{NodeState, Delivery, Effect, Status, is_fresh, is_terminal}
use graphrefly_rs.Node.Slots.{count_dirty}
use graphrefly_rs.Node.Sorting.{rank, prepare}
use graphrefly_rs.Node.Sorting.Stable.{IsSorted, RankFrom, RankFrom-mono, prepare-IsSorted}
use graphrefly_rs.Node.Down.{
  emit_dirty_once, finish, clear_cache, invalidate, send_one, send_all, deliver, deliver_rest, hold,
  gate_pause, hand_to_batch, gate_batch, gate_rest, down, is_datum, is_resolved, buffered,
  unbuffered, batched, unbatched, end_external_wave,
}
use graphrefly_rs.Node.Gates.{should_buffer_on_pause}
use graphrefly_rs.Node.Steps.{Exit}

-- `pending` counts the dirty dependencies; the cache is there exactly when `has_data` says so; a
-- fresh status has a cached value; `terminal` is what the status says.
pub record Inv {ℓ} {A : Type ℓ} (n : NodeState A) : Type 0 where
  pub counted : n.pending ≡ count_dirty n.deps
  pub cached : n.value.has_data ≡ is_some n.value.cache
  pub fresh : not (is_fresh n.value.status) || n.value.has_data ≡ true
  pub ended : n.value.terminal ≡ is_terminal n.value.status

module _ {ℓ} {A : Type ℓ} where
  pub emit_dirty_once-Inv :
      (n : NodeState A) → Inv n → n.value.terminal ≡ false → Inv (emit_dirty_once n)
  unfolding emit_dirty_once is_fresh is_terminal
  emit_dirty_once-Inv n v live = ground arith

  emit_dirty_once_live :
      (n : NodeState A) → n.value.terminal ≡ false → (emit_dirty_once n).value.terminal ≡ false
  unfolding emit_dirty_once
  emit_dirty_once_live n live = ground arith

  pub invalidate-Inv : (n : NodeState A) → Inv n → n.value.terminal ≡ false → Inv (invalidate n)
  unfolding invalidate is_fresh is_terminal
  invalidate-Inv n v live = ground arith

  -- A message is sent while the node lives, or it is terminal or teardown.
  abbrev MaySend : ℕ → NodeState A → Type 0
  MaySend k n = (n.value.terminal ≡ false) ⊎ (5 ≤ k)

  send_one-Inv : (m : Message A) (n : NodeState A) → Inv n → MaySend (rank m) n → Inv (send_one m n)
  unfolding send_one is_fresh is_terminal tier
  send_one-Inv Message.start n v s = v
  send_one-Inv (Message.pause l) n v s = v
  send_one-Inv (Message.resume l) n v s = v
  send_one-Inv (Message.pull d) n v s = v
  send_one-Inv Message.dirty n v s = ground arith
  send_one-Inv (Message.datum x) n v s = ground arith
  send_one-Inv Message.resolved n v s = ground arith
  send_one-Inv Message.invalidate n v s = ground arith
  send_one-Inv Message.complete n v s = ground arith
  send_one-Inv (Message.error e) n v s = ground arith
  send_one-Inv Message.teardown n v s = ground arith

  send_one-MaySend :
      (m : Message A) (n : NodeState A) → MaySend (rank m) n → MaySend (rank m) (send_one m n)
  unfolding send_one tier
  send_one-MaySend Message.start n s = s
  send_one-MaySend (Message.pause l) n s = s
  send_one-MaySend (Message.resume l) n s = s
  send_one-MaySend (Message.pull d) n s = s
  send_one-MaySend Message.dirty n s = ground arith
  send_one-MaySend (Message.datum x) n s = s
  send_one-MaySend Message.resolved n s = s
  send_one-MaySend Message.invalidate n s = ground arith
  send_one-MaySend Message.complete n s = inr (omega arith)
  send_one-MaySend (Message.error e) n s = inr (omega arith)
  send_one-MaySend Message.teardown n s = s

  send_all-Inv :
      (ms : Wave A) (n : NodeState A) (k : ℕ)
      → Inv n
      → RankFrom k ms
      → IsSorted ms
      → MaySend k n
      → Inv (send_all ms n)
  unfolding send_all
  send_all-Inv [] n k v r s l = v
  send_all-Inv (m ∷ ms) n k v r s l =
      send_all-Inv ms (send_one m n) (rank m) (send_one-Inv m n v (ground arith)) s.0 s.1
        (send_one-MaySend m n (ground arith))

  end_external_wave-Inv : (n : NodeState A) → Inv n → Inv (end_external_wave n)
  unfolding end_external_wave
  end_external_wave-Inv n v = ground arith

  RankFrom-zero : (ms : Wave A) → RankFrom 0 ms
  RankFrom-zero [] = tt
  RankFrom-zero (m ∷ ms) = (omega arith, RankFrom-zero ms)

  keep-RankFrom :
      (p : Message A → Bool) (k : ℕ) (ms : Wave A) → RankFrom k ms → RankFrom k (keep p ms)
  keep-RankFrom p k [] r = tt
  keep-RankFrom p k (m ∷ ms) r = ground (arith, keep-RankFrom p k ms r.1)

  pub keep-IsSorted : (p : Message A → Bool) (ms : Wave A) → IsSorted ms → IsSorted (keep p ms)
  keep-IsSorted p [] s = tt
  keep-IsSorted p (m ∷ ms) s =
      ground (arith, keep-RankFrom p (rank m) ms s.0, keep-IsSorted p ms s.1)

  deliver-Inv :
      (inside : Bool) (ms : Wave A) (n : NodeState A)
      → Inv n
      → IsSorted ms
      → n.value.terminal ≡ false
      → Inv (deliver inside ms n).0
  unfolding deliver
  deliver-Inv inside ms n v s live = ground (
    arith,
    send_all-Inv ms n 0 v (RankFrom-zero ms) s (inl live),
    send_all-Inv ms (emit_dirty_once n) 0 (emit_dirty_once-Inv n v live) (RankFrom-zero ms) s
        (inl (emit_dirty_once_live n live)),
    end_external_wave-Inv (send_all ms n),
    end_external_wave-Inv (send_all ms (emit_dirty_once n)),
  )

  hold-Inv : (ms : Wave A) (n : NodeState A) → Inv n → Inv (hold ms n)
  unfolding hold
  hold-Inv [] n v = v
  hold-Inv (m ∷ ms) n v = ground arith

  hold_live :
      (ms : Wave A) (n : NodeState A)
      → n.value.terminal ≡ false
      → (hold ms n).value.terminal ≡ false
  unfolding hold
  hold_live [] n live = live
  hold_live (m ∷ ms) n live = live

  deliver_rest-Inv :
      (inside : Bool) (ms : Wave A) (n : NodeState A)
      → Inv n
      → IsSorted ms
      → n.value.terminal ≡ false
      → Inv (deliver_rest inside ms n).0
  unfolding deliver_rest
  deliver_rest-Inv inside [] n v s live = v
  deliver_rest-Inv inside (m ∷ ms) n v s live = deliver-Inv inside (m ∷ ms) n v s live

  gate_pause-Inv :
      (inside : Bool) (ms : Wave A) (n : NodeState A)
      → Inv n
      → IsSorted ms
      → n.value.terminal ≡ false
      → Inv (gate_pause inside ms n).0
  unfolding gate_pause
  gate_pause-Inv inside ms n v s live =
      let held =
        deliver_rest-Inv inside (unbuffered ms) (hold (buffered ms) n) (hold-Inv (buffered ms) n v)
          (keep-IsSorted _ ms s) (hold_live (buffered ms) n live) in
      ground (arith, held, deliver-Inv inside ms n v s live)

  hand_to_batch-Inv :
      (ms : Wave A) (n : NodeState A) → Inv n → n.value.terminal ≡ false → Inv (hand_to_batch ms n)
  unfolding hand_to_batch is_fresh is_terminal
  hand_to_batch-Inv ms n v live = ground arith

  gate_rest-Inv :
      (ms : Wave A) (n : NodeState A)
      → Inv n
      → IsSorted ms
      → n.value.terminal ≡ false
      → Inv (gate_rest ms n).0
  unfolding gate_rest
  gate_rest-Inv [] n v s live = v
  gate_rest-Inv (m ∷ ms) n v s live = gate_pause-Inv false (m ∷ ms) n v s live

  gate_batch-Inv :
      (ms rest : Wave A) (n : NodeState A)
      → Inv n
      → IsSorted rest
      → n.value.terminal ≡ false
      → Inv (gate_batch ms rest n).0
  unfolding gate_batch
  gate_batch-Inv [] rest n v s live = gate_rest-Inv rest n v s live
  gate_batch-Inv (m ∷ ms) rest n v s live = hand_to_batch-Inv (m ∷ ms) n v live

  -- Any wave, sent at any time, keeps the invariant.
  pub down-Inv : (d : Delivery) (ms : Wave A) (n : NodeState A) → Inv n → Inv (down d ms n).0
  unfolding down
  down-Inv d ms n v =
      let s = prepare-IsSorted ms in
      let batch =
        gate_batch-Inv (batched (prepare ms)) (unbatched (prepare ms)) n v
          (keep-IsSorted _ (prepare ms) s) in
      ground (arith, batch, gate_pause-Inv n.wave.inside_run_wave (prepare ms) n v s)
