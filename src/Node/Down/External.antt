-- ===== src/Node/Down/External.antt =====
-- A wave of values from outside a run.
use mathlib.Core.List.{append_assoc, append-nil}
use graphrefly_rs.Prelude.{
  ◌≡◌, refl, true, false, Option, some, List, [], ◌∷◌, ◌++◌, map, arith, any, if◌then◌else◌, ◌∙◌,
  ap,
}
use graphrefly_rs.Protocol.{Message, Wave, tier}
use graphrefly_rs.Node.State.{NodeState, Delivery, Effect, Status}
use graphrefly_rs.Node.Sorting.{insert_by_tier, sort_by_tier, retain_first_invalidate, prepare}
use graphrefly_rs.Node.Steps.{returned}
use graphrefly_rs.Node.Gates.{should_buffer_on_pause}
use graphrefly_rs.Node.Down.{
  down, gate_pause, deliver, send_all, send_one, emit_dirty_once, end_external_wave, is_resolved,
}

module _ {ℓ} {A : Type ℓ} where
  abbrev pub data_wave : List A → Wave A
  data_wave vs = map Message.datum vs

  insert-data_wave :
      (v : A) (vs : List A) → insert_by_tier (Message.datum v) (data_wave vs) ≡ data_wave (v ∷ vs)
  unfolding insert_by_tier tier
  insert-data_wave v [] = refl
  insert-data_wave v (w ∷ vs) = refl

  sort-data_wave : (vs : List A) → sort_by_tier (data_wave vs) ≡ data_wave vs
  unfolding sort_by_tier
  sort-data_wave [] = refl
  sort-data_wave (v ∷ vs) = rw (sort-data_wave vs, sort_by_tier) (insert-data_wave v vs)

  retain-data_wave : (vs : List A) → retain_first_invalidate false (data_wave vs) ≡ data_wave vs
  unfolding retain_first_invalidate
  retain-data_wave [] = refl
  retain-data_wave (v ∷ vs) = ap (◌∷◌ (Message.datum v)) (retain-data_wave vs)

  pub prepare-data_wave : (vs : List A) → prepare (data_wave vs) ≡ data_wave vs
  unfolding prepare
  prepare-data_wave vs = rw (sort-data_wave vs) (retain-data_wave vs)

  -- The state after the values `vs` are sent one by one.
  abbrev pub holds_values : Option A → List A → Option A
  holds_values old [] = old
  holds_values old (v ∷ vs) = holds_values (some v) vs

  abbrev pub after_values : List A → NodeState A → NodeState A
  after_values [] n = n
  after_values (v ∷ vs) n = record n {
    value = record n.value {
      cache = holds_values (some v) vs;
      has_data = true;
      status = Status.settled;
    };
    wave = record n.wave { emitted_tier3_this_wave = true };
    effects = n.effects ++ map Effect.sent (data_wave (v ∷ vs));
  }

  send_values :
      (vs : List A) (v : A) (n : NodeState A)
      → send_all (data_wave (v ∷ vs)) n ≡ after_values (v ∷ vs) n
  unfolding send_all send_one
  send_values [] v n = refl
  send_values (w ∷ vs) v n = send_values vs w (send_one (Message.datum v) n) ∙ regroup
    where
      regroup : after_values (w ∷ vs) (send_one (Message.datum v) n) ≡ after_values (v ∷ w ∷ vs) n
      regroup = simp append_assoc

  no_resolved : (vs : List A) → any is_resolved (data_wave vs) ≡ false
  no_resolved [] = refl
  no_resolved (v ∷ vs) = no_resolved vs

  delivered_values :
      (v : A) (vs : List A) (n : NodeState A)
      → deliver false (data_wave (v ∷ vs)) n
        ≡ (end_external_wave (after_values (v ∷ vs) (emit_dirty_once n)), returned)
  unfolding deliver
  delivered_values v vs n = ground (arith, no_resolved vs, send_values vs v (emit_dirty_once n))

  -- A wave from outside that neither a batch nor a pause holds back is delivered.
  pub down_outside :
      (d : Delivery) (ms : Wave A) (n : NodeState A)
      → n.value.terminal ≡ false
      → n.wave.inside_run_wave ≡ false
      → d.collecting_batch ≡ false
      → should_buffer_on_pause n ≡ false
      → down d ms n ≡ deliver false (prepare ms) n
  unfolding down gate_pause
  down_outside d ms n live outside free awake = ground arith

  led_values :
      (v : A) (vs : List A) (n : NodeState A)
      → end_external_wave (after_values (v ∷ vs) (emit_dirty_once n)) ≡ record n {
        value = record n.value {
          cache = holds_values (some v) vs;
          has_data = true;
          status = Status.settled;
        };
        wave = record n.wave { emitted_dirty_this_wave = false; emitted_tier3_this_wave = false };
        effects =
            (n.effects
              ++ (if n.wave.emitted_dirty_this_wave then [] else Effect.sent Message.dirty ∷ []))
            ++ map Effect.sent (data_wave (v ∷ vs));
      }
  unfolding end_external_wave emit_dirty_once
  led_values v vs n = ground (arith, append-nil n.effects)

  -- What a live node sends when values `vs` (at least one) are pushed into it from outside: DIRTY
  -- first, unless this wave has sent it already, and then every value in order. The cache is the last
  -- value, the status is settled, and the wave's flags are down again. The node is not held back by
  -- a pause or a quiet pull, and no batch collects.
  pub external_values :
      (d : Delivery) (v : A) (vs : List A) (n : NodeState A)
      → n.value.terminal ≡ false
      → n.wave.inside_run_wave ≡ false
      → d.collecting_batch ≡ false
      → should_buffer_on_pause n ≡ false
      → down d (data_wave (v ∷ vs)) n ≡ (
        record n {
          value = record n.value {
            cache = holds_values (some v) vs;
            has_data = true;
            status = Status.settled;
          };
          wave = record n.wave { emitted_dirty_this_wave = false; emitted_tier3_this_wave = false };
          effects =
              (n.effects
                ++ (if n.wave.emitted_dirty_this_wave then [] else Effect.sent Message.dirty ∷ []))
              ++ map Effect.sent (data_wave (v ∷ vs));
        },
        returned,
      )
  external_values d v vs n live outside free awake =
      down_outside d (data_wave (v ∷ vs)) n live outside free awake
      ∙ (ap (λ ms. deliver false ms n) (prepare-data_wave (v ∷ vs))
          ∙ (delivered_values v vs n ∙ ap (λ m. (m, returned)) (led_values v vs n)))
