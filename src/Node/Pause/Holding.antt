-- ===== src/Node/Pause/Holding.antt =====
-- The waves that a paused node holds back.
use graphrefly_rs.Prelude.{
  ◌≡◌, refl, true, false, none, List, [], ◌∷◌, ◌++◌, map, arith, ◌∙◌, ap, if◌then◌else◌, is_nil,
}
use mathlib.Core.List.{append-nil, append_assoc}
use graphrefly_rs.Protocol.{Message, Wave, tier, LockId, is_pause_buffered}
use graphrefly_rs.Node.Sorting.{prepare}
use graphrefly_rs.Node.State.{NodeState, Delivery, Effect, Pausable}
use graphrefly_rs.Node.Steps.{returned}
use graphrefly_rs.Node.Gates.{should_buffer_on_pause, is_paused}
use graphrefly_rs.Node.Down.{down, gate_pause, hold, deliver_rest, buffered, unbuffered}
use graphrefly_rs.Node.Down.External.{data_wave, prepare-data_wave}
use graphrefly_rs.Node.Pause.{down_each}

module _ {ℓ} {A : Type ℓ} where
  buffered-data_wave : (vs : List A) → buffered (data_wave vs) ≡ data_wave vs
  unfolding tier is_pause_buffered
  buffered-data_wave [] = refl
  buffered-data_wave (v ∷ vs) = ap (◌∷◌ (Message.datum v)) (buffered-data_wave vs)

  unbuffered-data_wave : (vs : List A) → unbuffered (data_wave vs) ≡ []
  unfolding tier is_pause_buffered
  unbuffered-data_wave [] = refl
  unbuffered-data_wave (v ∷ vs) = unbuffered-data_wave vs

  down_paused :
      (d : Delivery) (ms : Wave A) (n : NodeState A)
      → n.value.terminal ≡ false
      → n.wave.inside_run_wave ≡ false
      → d.collecting_batch ≡ false
      → should_buffer_on_pause n ≡ true
      → down d ms n ≡ deliver_rest false (unbuffered (prepare ms)) (hold (buffered (prepare ms)) n)
  unfolding down gate_pause
  down_paused d ms n live outside free paused = ground arith

  held_back :
      (d : Delivery) (v : A) (vs : List A) (n : NodeState A)
      → n.value.terminal ≡ false
      → n.wave.inside_run_wave ≡ false
      → d.collecting_batch ≡ false
      → should_buffer_on_pause n ≡ true
      → down d (data_wave (v ∷ vs)) n ≡ (hold (data_wave (v ∷ vs)) n, returned)
  held_back d v vs n live outside free paused =
      let ws = data_wave (v ∷ vs) in
      down_paused d ws n live outside free paused
      ∙ rw (prepare-data_wave (v ∷ vs), buffered-data_wave (v ∷ vs), unbuffered-data_wave (v ∷ vs))
          (unfold deliver_rest in refl)

  -- Waves of values, each of at least one.
  abbrev pub waves : List (A × List A) → List (Wave A)
  waves [] = []
  waves ((v, vs) ∷ rest) = data_wave (v ∷ vs) ∷ waves rest

  abbrev pub hold_each : List (Wave A) → NodeState A → NodeState A
  hold_each [] n = n
  hold_each (w ∷ ws) n = hold_each ws (hold w n)

  -- A node that holds its output back, or that would if it did not: live, outside a run.
  pub record IsSource (d : Delivery) (n : NodeState A) : Type ℓ where
    pub live : n.value.terminal ≡ false
    pub outside : n.wave.inside_run_wave ≡ false
    pub free : d.collecting_batch ≡ false
    pub holds : n.config.pausable ≡ Pausable.resume_all
    pub pushed : n.config.pull_id ≡ none

  hold-IsSource :
      (d : Delivery) (w : Wave A) (n : NodeState A) → IsSource d n → IsSource d (hold w n)
  unfolding hold
  hold-IsSource d [] n s = s
  hold-IsSource d (m ∷ ms) n s = record {
    live = s.live;
    outside = s.outside;
    free = s.free;
    holds = s.holds;
    pushed = s.pushed;
  }

  lockset-hold : (w : Wave A) (n : NodeState A) → (hold w n).aux.pause_lockset ≡ n.aux.pause_lockset
  unfolding hold
  lockset-hold [] n = refl
  lockset-hold (m ∷ ms) n = refl

  paused_buffers :
      (d : Delivery) (l : LockId) (n : NodeState A)
      → IsSource d n
      → n.aux.pause_lockset ≡ l ∷ []
      → should_buffer_on_pause n ≡ true
  unfolding should_buffer_on_pause
  paused_buffers d l n s locked = rw (s.holds, should_buffer_on_pause) (rw (locked, is_paused) refl)

  pub held_each :
      (d : Delivery) (l : LockId) (vss : List (A × List A)) (n : NodeState A)
      → IsSource d n
      → n.aux.pause_lockset ≡ l ∷ []
      → down_each d (waves vss) n ≡ (hold_each (waves vss) n, returned)
  unfolding down_each
  held_each d l [] n s locked = refl
  held_each d l ((v, vs) ∷ rest) n s locked =
      let w = data_wave (v ∷ vs) in
      let one = held_back d v vs n s.live s.outside s.free (paused_buffers d l n s locked) in
      rw (one, down_each)
        (held_each d l rest (hold w n) (hold-IsSource d w n s) (lockset-hold w n ∙ locked))

  -- What an awake node sends for the waves: each led by its DIRTY.
  abbrev pub led : List (A × List A) → List (Effect A)
  led [] = []
  led ((v, vs) ∷ rest) =
      (Effect.sent Message.dirty ∷ map Effect.sent (data_wave (v ∷ vs))) ++ led rest

  -- The state of a node that holds the waves `vss` back.
  abbrev pub stored : List (A × List A) → NodeState A → NodeState A
  stored vss n = record n {
    wave = record n.wave {
      emitted_tier3_this_wave = if is_nil vss then n.wave.emitted_tier3_this_wave else true;
    };
    aux = record n.aux { pause_buffer = n.aux.pause_buffer ++ waves vss };
  }

  pub hold_each-stored :
      (vss : List (A × List A)) (n : NodeState A) → hold_each (waves vss) n ≡ stored vss n
  hold_each-stored [] n = simp append-nil
  hold_each-stored ((v, vs) ∷ rest) n = hold_each-stored rest (hold (data_wave (v ∷ vs)) n) ∙ again
    where
      again : stored rest (hold (data_wave (v ∷ vs)) n) ≡ stored ((v, vs) ∷ rest) n
      again = unfold hold in (simp append_assoc (ground arith))
