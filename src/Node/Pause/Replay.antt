-- ===== src/Node/Pause/Replay.antt =====
-- RESUME and the waves that were held back.
use graphrefly_rs.Prelude.{
  eq_iff, ◌≡◌, refl, true, false, Option, none, some, List, [], ◌∷◌, ◌++◌, map, arith, ◌∙◌, sym, ap,
}
use mathlib.Core.List.{append-nil, append_assoc}
use graphrefly_rs.Protocol.{Message, LockId}
use graphrefly_rs.Node.State.{NodeState, Delivery, Effect, Status}
use graphrefly_rs.Node.Steps.{Exit, returned, followed_by, done}
use graphrefly_rs.Node.Gates.{should_buffer_on_pause, is_paused, pull_quiet}
use graphrefly_rs.Node.Down.{down}
use graphrefly_rs.Node.Down.External.{data_wave, external_values, holds_values}
use graphrefly_rs.Node.Run.{NodeFn}
use graphrefly_rs.Node.Pause.{
  down_each, set_locks, holds_lock, remove_lock, fire_skipped, on_resume, fire_owed_demand_if_ready,
  pause_release,
}
use graphrefly_rs.Node.Pause.Holding.{waves, IsSource, held_each, led, stored, hold_each-stored}

sole_lock : (l : LockId) → (holds_lock l (l ∷ []) ≡ true) × (remove_lock l (l ∷ []) ≡ [])
unfolding holds_lock remove_lock
sole_lock l = ground (arith, eq_iff l l)

module _ {ℓ} {A : Type ℓ} where
  abbrev pub cache_after : Option A → List (A × List A) → Option A
  cache_after old [] = old
  cache_after old ((v, vs) ∷ rest) = cache_after (holds_values (some v) vs) rest

  awake :
      (d : Delivery) (n : NodeState A)
      → IsSource d n
      → n.aux.pause_lockset ≡ []
      → should_buffer_on_pause n ≡ false
  unfolding should_buffer_on_pause
  awake d n s unlocked =
      rw (s.holds, should_buffer_on_pause)
        (rw (unlocked, is_paused) (rw (s.pushed, pull_quiet) refl))

  -- One wave leaves an awake node as it was, but for the value and what it has sent.
  abbrev after_one : A → List A → NodeState A → NodeState A
  after_one v vs n = record n {
    value = record n.value {
      cache = holds_values (some v) vs;
      has_data = true;
      status = Status.settled;
    };
    wave = record n.wave { emitted_dirty_this_wave = false; emitted_tier3_this_wave = false };
    effects = n.effects ++ (Effect.sent Message.dirty ∷ map Effect.sent (data_wave (v ∷ vs)));
  }

  after_one-IsSource :
      (d : Delivery) (v : A) (vs : List A) (n : NodeState A)
      → IsSource d n
      → IsSource d (after_one v vs n)
  after_one-IsSource d v vs n s = record {
    live = s.live;
    outside = s.outside;
    free = s.free;
    holds = s.holds;
    pushed = s.pushed;
  }

  one_wave :
      (d : Delivery) (v : A) (vs : List A) (n : NodeState A)
      → IsSource d n
      → n.aux.pause_lockset ≡ []
      → n.wave.emitted_dirty_this_wave ≡ false
      → down d (data_wave (v ∷ vs)) n ≡ (after_one v vs n, returned)
  one_wave d v vs n s unlocked clean =
      external_values d v vs n s.live s.outside s.free (awake d n s unlocked)
      ∙ rw clean (simp append_assoc)

  -- What is sent for the waves, in order.
  sent_each :
      (d : Delivery) (vss : List (A × List A)) (n : NodeState A)
      → IsSource d n
      → n.aux.pause_lockset ≡ []
      → n.wave.emitted_dirty_this_wave ≡ false
      → let (m, e) = down_each d (waves vss) n in
        (e ≡ returned)
        × (m.effects ≡ n.effects ++ led vss)
        × (m.value.cache ≡ cache_after n.value.cache vss)
        × (m.aux ≡ n.aux)
        × (m.config ≡ n.config)
  unfolding down_each
  sent_each d [] n s unlocked clean = (refl, sym (append-nil n.effects), refl, refl, refl)
  sent_each d ((v, vs) ∷ rest) n s unlocked clean =
      let (e, sent, cached, aux, config) =
        sent_each d rest (after_one v vs n) (after_one-IsSource d v vs n s) unlocked refl in
      rw (one_wave d v vs n s unlocked clean, down_each)
        (
          e,
          sent
              ∙ append_assoc n.effects
                  (Effect.sent Message.dirty ∷ map Effect.sent (data_wave (v ∷ vs))) (led rest),
          cached,
          aux,
          config,
        )

  released :
      (fn : NodeFn A) (d : Delivery) (l : LockId) (n : NodeState A)
      → n.aux.pause_lockset ≡ l ∷ []
      → n.config.pull_id ≡ none
      → pause_release fn d l n
        ≡ followed_by (on_resume fn d (set_locks [] n)) (fire_owed_demand_if_ready fn d)
  unfolding pause_release
  released fn d l n locked pushed =
      rw (locked, pause_release)
        (rw ((sole_lock l).0, pause_release) (rw (sole_lock l).1 (rw pushed refl)))

  no_demand :
      (fn : NodeFn A) (d : Delivery) (n : NodeState A)
      → n.config.pull_id ≡ none
      → fire_owed_demand_if_ready fn d n ≡ done n
  unfolding fire_owed_demand_if_ready
  no_demand fn d n pushed = ground arith

  none_skipped :
      (fn : NodeFn A) (d : Delivery) (n : NodeState A)
      → n.aux.paused_dep_wave_occurred ≡ false
      → fire_skipped fn d n ≡ done n
  unfolding fire_skipped
  none_skipped fn d n h = ground arith

  abbrev awake_copy : NodeState A → NodeState A
  awake_copy n = record n { aux = record n.aux { pause_lockset = []; pause_buffer = [] } }

  replayed :
      (fn : NodeFn A) (d : Delivery) (n : NodeState A)
      → n.value.terminal ≡ false
      → on_resume fn d (set_locks [] n)
        ≡ followed_by (down_each d n.aux.pause_buffer (awake_copy n)) (fire_skipped fn d)
  unfolding on_resume
  replayed fn d n live = ground arith

  quiet_end :
      (fn : NodeFn A) (d : Delivery) (x : NodeState A × Exit)
      → x.1 ≡ returned
      → x.0.aux.paused_dep_wave_occurred ≡ false
      → x.0.config.pull_id ≡ none
      → followed_by (followed_by x (fire_skipped fn d)) (fire_owed_demand_if_ready fn d) ≡ x
  quiet_end fn d (m, e) back unskipped pushed =
      rw (back, followed_by)
        (rw (none_skipped fn d m unskipped, followed_by) (no_demand fn d m pushed))

  awake_copy-IsSource :
      (d : Delivery) (vss : List (A × List A)) (n : NodeState A)
      → IsSource d n
      → IsSource d (awake_copy (stored vss n))
  awake_copy-IsSource d vss n s = record {
    live = s.live;
    outside = s.outside;
    free = s.free;
    holds = s.holds;
    pushed = s.pushed;
  }

  released_run :
      (fn : NodeFn A) (d : Delivery) (l : LockId) (vss : List (A × List A)) (n : NodeState A)
      → IsSource d n
      → n.aux.pause_lockset ≡ l ∷ []
      → n.aux.pause_buffer ≡ []
      → n.aux.paused_dep_wave_occurred ≡ false
      → n.wave.emitted_dirty_this_wave ≡ false
      → pause_release fn d l (stored vss n) ≡ down_each d (waves vss) (awake_copy (stored vss n))
  released_run fn d l vss n s locked empty unskipped clean =
      let (back, _, _, aux, config) =
        sent_each d vss (awake_copy (stored vss n)) (awake_copy-IsSource d vss n s) refl clean in
      released fn d l (stored vss n) locked s.pushed
      ∙ ap (λ x. followed_by x (fire_owed_demand_if_ready fn d))
          (replayed fn d (stored vss n) s.live
            ∙ ap (λ b. followed_by (down_each d b (awake_copy (stored vss n))) (fire_skipped fn d))
                (ap (◌++ waves vss) empty))
      ∙ quiet_end fn d (down_each d (waves vss) (awake_copy (stored vss n))) back
          (ap (λ a. a.paused_dep_wave_occurred) aux ∙ unskipped)
          (ap (λ c. c.pull_id) config ∙ s.pushed)

  -- A live node without a pull id that holds its output back under one lock, with nothing held yet,
  -- no skipped run and no open DIRTY, sends nothing for the waves of values it is given. When
  -- that lock is released it sends them all in order, each led by one DIRTY, and ends with no lock
  -- held, no wave held, and the last value cached.
  pub resume_replays :
      (fn : NodeFn A) (d : Delivery) (l : LockId) (vss : List (A × List A)) (n : NodeState A)
      → IsSource d n
      → n.aux.pause_lockset ≡ l ∷ []
      → n.aux.pause_buffer ≡ []
      → n.aux.paused_dep_wave_occurred ≡ false
      → n.wave.emitted_dirty_this_wave ≡ false
      → let held = down_each d (waves vss) n in
        let (m, e) = pause_release fn d l held.0 in
        (held.1 ≡ returned)
        × (held.0.effects ≡ n.effects)
        × (e ≡ returned)
        × (m.effects ≡ n.effects ++ led vss)
        × (m.value.cache ≡ cache_after n.value.cache vss)
        × (m.aux.pause_lockset ≡ [])
        × (m.aux.pause_buffer ≡ [])
  resume_replays fn d l vss n s locked empty unskipped clean =
      let (back, sent, cached, aux, _) =
        sent_each d vss (awake_copy (stored vss n)) (awake_copy-IsSource d vss n s) refl clean in
      let run = released_run fn d l vss n s locked empty unskipped clean in
      rw (held_each d l vss n s locked, hold_each-stored vss n)
        (
          refl,
          refl,
          ap (λ x. x.1) run ∙ back,
          ap (λ x. x.0.effects) run ∙ sent,
          ap (λ x. x.0.value.cache) run ∙ cached,
          ap (λ x. x.0.aux.pause_lockset) run ∙ ap (λ a. a.pause_lockset) aux,
          ap (λ x. x.0.aux.pause_buffer) run ∙ ap (λ a. a.pause_buffer) aux,
        )
