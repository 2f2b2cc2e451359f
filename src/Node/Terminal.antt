-- ===== src/Node/Terminal.antt =====
-- What a node that has ended still does.
use graphrefly_rs.Prelude.{
  ℕ, ◌≡◌, refl, sym, ap, ◌∙◌, Bool, true, false, not, ◌&&◌, ◌||◌, Bool-cases, inl, inr,
  true-ne-false, arith, String, Option, none, some, List, [], ◌∷◌, ◌++◌, append-nil, append_assoc,
  all, any, is_nil, ◌==◌, is_some, if◌then◌else◌,
}
use graphrefly_rs.Protocol.{Message, Wave, LockId, PullDemand}
use graphrefly_rs.Node.State.{NodeState, Delivery, Effect}
use graphrefly_rs.Node.Gates.{MaybeRunDecision, decide_maybe_run, can_fire_demand}
use graphrefly_rs.Node.Steps.{Exit, returned, send, done, followed_by, when, perform}
use graphrefly_rs.Node.Receive.{idle, is_teardown, collect_receive}
use graphrefly_rs.Node.Down.{down, clear_on_terminal}
use graphrefly_rs.Node.Run.{
  NodeFn, CtxAction, emits, registers_on_invalidate, panics, act, act_one, ctx_of, enter_run,
  leave_run, settle_run, owes_undirty, roll_wave, run_wave, relay, first_batch, passthrough_emit,
  carry_out, maybe_run, saw_data, settle_debt, settle_after_absorbed_terminal,
}
use graphrefly_rs.Node.Pause.{
  pause_acquire, pause_release, holds_lock, remove_lock, set_locks, on_resume, on_demand,
  fire_owed_demand_if_ready,
}
use graphrefly_rs.Node.Apply.{apply_some, receive_from_dep, with_wave_owner, reset_wave_flags}
use graphrefly_rs.Node.Machine.{
  Step, Reaches, receives, emits as emits_wave, locks, unlocks, demands, runs, settles, here, after,
}

module _ {ℓ} {A : Type ℓ} where
  heard_when_ended :
      (d : Delivery) (i : ℕ) (m : Message A) (n : NodeState A)
      → n.value.terminal ≡ true
      → collect_receive d i m n ≡ (
        n,
        if is_teardown m then some (record idle { emit_teardown_subscribers = true }) else none,
      )
  unfolding collect_receive
  heard_when_ended d i m n ended = rw (ended, collect_receive)

  passed_on :
      (fn : NodeFn A) (d : Delivery) (b : Bool) (n : NodeState A)
      → apply_some fn d
          (if b then some (record idle { emit_teardown_subscribers = true }) else none)
          n
        ≡ (if b then send Message.teardown n else n, returned)
  unfolding apply_some
  passed_on fn d true n = refl
  passed_on fn d false n = refl

  teardown_only :
      (fn : NodeFn A) (d : Delivery) (i : ℕ) (m : Message A) (n : NodeState A)
      → n.value.terminal ≡ true
      → receive_from_dep fn d i m n
        ≡ (if is_teardown m then send Message.teardown n else n, returned)
  unfolding receive_from_dep
  teardown_only fn d i m n ended =
      rw (heard_when_ended d i m n ended, receive_from_dep) (passed_on fn d (is_teardown m) n)

  -- What an ended node may do: send TEARDOWN, and leave a task to the delivery boundary.
  abbrev pub is_quiet : Effect A → Bool
  is_quiet (Effect.sent m) = is_teardown m
  is_quiet (Effect.ran_hook h) = false
  is_quiet Effect.deferred_run = true
  is_quiet Effect.deferred_settle = true
  is_quiet (Effect.deferred_wave ms) = false

  -- The value, the status and the end are as before, and what was done since is quiet.
  pub record Silent (n m : NodeState A) : Type ℓ where
    pub value : m.value ≡ n.value
    pub since : List (Effect A)
    pub effects : m.effects ≡ n.effects ++ since
    pub quiet : all is_quiet since ≡ true

  unmoved : (n m : NodeState A) → m.value ≡ n.value → m.effects ≡ n.effects → Silent n m
  unmoved n m v e = record {
    value = v;
    since = [];
    effects = e ∙ sym (append-nil n.effects);
    quiet = refl;
  }

  all-append :
      (xs ys : List (Effect A))
      → all is_quiet xs ≡ true
      → all is_quiet ys ≡ true
      → all is_quiet (xs ++ ys) ≡ true
  all-append [] ys h k = k
  all-append (x ∷ xs) ys h k = ground (arith, all-append xs ys)

  Silent-trans : (n m k : NodeState A) → Silent n m → Silent m k → Silent n k
  Silent-trans n m k a b = record {
    value = b.value ∙ a.value;
    since = a.since ++ b.since;
    effects =
        b.effects ∙ ap (λ es. es ++ b.since) a.effects ∙ append_assoc n.effects a.since b.since;
    quiet = all-append a.since b.since a.quiet b.quiet;
  }

  -- A part of the code that an ended node gets through silently.
  abbrev IsSilent : (NodeState A → NodeState A × Exit) → Type ℓ
  IsSilent body = (n : NodeState A) → n.value.terminal ≡ true → Silent n (body n).0

  seq-Silent :
      (n : NodeState A) (r : NodeState A × Exit) (k : NodeState A → NodeState A × Exit)
      → n.value.terminal ≡ true
      → Silent n r.0
      → IsSilent k
      → Silent n (followed_by r k).0
  seq-Silent n (m, Exit.returned) k ended a b =
      Silent-trans n m (k m).0 a (b m (ap (λ v. v.terminal) a.value ∙ ended))
  seq-Silent n (m, Exit.panicked) k ended a b = a

  when-IsSilent :
      (b : Bool) (k : NodeState A → NodeState A × Exit) → IsSilent k → IsSilent (when b k)
  when-IsSilent true k h n ended = h n ended
  when-IsSilent false k h n ended = unmoved n n refl refl

  if-Silent :
      (n : NodeState A) (b : Bool) (x y : NodeState A × Exit)
      → (b ≡ true → Silent n x.0)
      → (b ≡ false → Silent n y.0)
      → Silent n (if b then x else y).0
  if-Silent n true x y h k = h refl
  if-Silent n false x y h k = k refl

  down-IsSilent : (d : Delivery) (ms : Wave A) → IsSilent (down d ms)
  unfolding down
  down-IsSilent d ms n ended =
      if-Silent n n.value.terminal _ _ (λ over. unmoved n n refl refl)
        (λ live. absurd (true-ne-false (sym ended ∙ live)))

  act_one-IsSilent : (d : Delivery) (c : CtxAction A) → IsSilent (act_one d c)
  unfolding act_one
  act_one-IsSilent d (emits ms) n ended = down-IsSilent d ms n ended
  act_one-IsSilent d (registers_on_invalidate h) n ended = unmoved n _ refl refl
  act_one-IsSilent d panics n ended = unmoved n n refl refl

  act-IsSilent : (d : Delivery) (cs : List (CtxAction A)) → IsSilent (act d cs)
  unfolding act
  act-IsSilent d [] n ended = unmoved n n refl refl
  act-IsSilent d (c ∷ cs) n ended =
      seq-Silent n (act_one d c n) (act d cs) ended (act_one-IsSilent d c n ended)
        (act-IsSilent d cs)

  settle_run-IsSilent : (d : Delivery) → IsSilent (settle_run d)
  unfolding settle_run roll_wave
  settle_run-IsSilent d n ended =
      seq-Silent n (when (owes_undirty n) (down d (Message.resolved ∷ [])) n)
        (λ m. done (roll_wave (owes_undirty n) m)) ended
        (when-IsSilent (owes_undirty n) (down d (Message.resolved ∷ []))
          (down-IsSilent d (Message.resolved ∷ [])) n ended)
        (λ m over. unmoved m _ refl refl)

  run_wave-IsSilent : (fn : NodeFn A) (d : Delivery) → IsSilent (run_wave fn d)
  unfolding run_wave enter_run
  run_wave-IsSilent fn d n ended =
      if-Silent n n.wave.inside_run_wave _ _ (λ inside. unmoved n n refl refl)
        λ outside.
          let acted = act-IsSilent d (fn (ctx_of n)) (enter_run n) ended in
          seq-Silent n (leave_run (act d (fn (ctx_of n)) (enter_run n))) (settle_run d) ended
            (record {
              value = acted.value;
              since = acted.since;
              effects = acted.effects;
              quiet = acted.quiet;
            })
            (settle_run-IsSilent d)

  relay-IsSilent : (d : Delivery) (o : Option A) → IsSilent (relay d o)
  unfolding relay
  relay-IsSilent d none n ended = unmoved n n refl refl
  relay-IsSilent d (some v) n ended = down-IsSilent d (Message.datum v ∷ []) n ended

  -- A change that leaves the value and the record of effects, then silence.
  after-change :
      (n m : NodeState A) (body : NodeState A → NodeState A × Exit)
      → m.value ≡ n.value
      → m.effects ≡ n.effects
      → n.value.terminal ≡ true
      → IsSilent body
      → Silent n (body m).0
  after-change n m body v e ended h =
      Silent-trans n m (body m).0 (unmoved n m v e) (h m (ap (λ x. x.terminal) v ∙ ended))

  passthrough_emit-IsSilent : (d : Delivery) → IsSilent (passthrough_emit d)
  unfolding passthrough_emit
  passthrough_emit-IsSilent d n ended =
      after-change n _ (relay d (first_batch n.deps)) refl refl ended
        (relay-IsSilent d (first_batch n.deps))

  carry_out-IsSilent :
      (fn : NodeFn A) (d : Delivery) (x : MaybeRunDecision) → IsSilent (carry_out fn d x)
  unfolding carry_out
  carry_out-IsSilent fn d MaybeRunDecision.skip n ended = unmoved n n refl refl
  carry_out-IsSilent fn d MaybeRunDecision.passthrough n ended = passthrough_emit-IsSilent d n ended
  carry_out-IsSilent fn d MaybeRunDecision.run n ended = run_wave-IsSilent fn d n ended

  decided :
      (n : NodeState A)
      → ((decide_maybe_run n).0.value ≡ n.value) × ((decide_maybe_run n).0.effects ≡ n.effects)
  unfolding decide_maybe_run
  decided n = (ground arith, ground arith)

  did : (e : Effect A) (n : NodeState A) → is_quiet e ≡ true → Silent n (perform (e ∷ []) n)
  did e n h = record { value = refl; since = e ∷ []; effects = refl; quiet = rw (h) refl }

  maybe_run-IsSilent : (fn : NodeFn A) (d : Delivery) → IsSilent (maybe_run fn d)
  unfolding maybe_run
  maybe_run-IsSilent fn d n ended =
      if-Silent n d.in_flight _ _ (λ flight. did Effect.deferred_run n refl)
        λ landed.
          after-change n (decide_maybe_run n).0 (carry_out fn d (decide_maybe_run n).1)
            (decided n).0 (decided n).1 ended (carry_out-IsSilent fn d (decide_maybe_run n).1)

  settle_debt-IsSilent : (d : Delivery) → IsSilent (settle_debt d)
  unfolding settle_debt
  settle_debt-IsSilent d n ended =
      when-IsSilent n.wave.emitted_dirty_this_wave (down d (Message.resolved ∷ []))
        (down-IsSilent d (Message.resolved ∷ [])) n ended

  settle-IsSilent : (fn : NodeFn A) (d : Delivery) → IsSilent (settle_after_absorbed_terminal fn d)
  unfolding settle_after_absorbed_terminal
  settle-IsSilent fn d n ended =
      let fresh = any (λ s. saw_data s.batch) n.deps in
      if-Silent n d.in_flight _ _ (λ flight. did Effect.deferred_settle n refl)
        λ landed.
          if-Silent n (not (n.pending == 0 && n.wave.emitted_dirty_this_wave)) _ _
            (λ idle_now. unmoved n n refl refl)
            λ owes.
              seq-Silent n (when fresh (maybe_run fn d) n) (settle_debt d) ended
                (when-IsSilent fresh (maybe_run fn d) (maybe_run-IsSilent fn d) n ended)
                (settle_debt-IsSilent d)

  fire_owed-IsSilent : (fn : NodeFn A) (d : Delivery) → IsSilent (fire_owed_demand_if_ready fn d)
  unfolding fire_owed_demand_if_ready can_fire_demand
  fire_owed-IsSilent fn d n ended =
      let nothing : fire_owed_demand_if_ready fn d n ≡ done n = ground arith in
      rw (nothing) (unmoved n n refl refl)

  on_demand-IsSilent :
      (fn : NodeFn A) (d : Delivery) (p : PullDemand A) → IsSilent (on_demand fn d p)
  unfolding on_demand
  on_demand-IsSilent fn d p n ended =
      if-Silent n (not (is_some n.config.pull_id) || n.aux.in_deliver_demand) _ _
        (λ ignored. unmoved n n refl refl)
        λ taken.
          after-change n (record n { aux = record n.aux { pull_demand_owed = some p } })
            (fire_owed_demand_if_ready fn d) refl refl ended (fire_owed-IsSilent fn d)

  on_resume-IsSilent : (fn : NodeFn A) (d : Delivery) → IsSilent (on_resume fn d)
  unfolding on_resume
  on_resume-IsSilent fn d n ended =
      if-Silent n n.value.terminal _ _
        (λ over. unmoved n (record n { aux = clear_on_terminal n.aux }) refl refl)
        (λ live. absurd (true-ne-false (sym ended ∙ live)))

  pause_release-IsSilent :
      (fn : NodeFn A) (d : Delivery) (l : LockId) → IsSilent (pause_release fn d l)
  unfolding pause_release
  pause_release-IsSilent fn d l n ended =
      let left = set_locks (remove_lock l n.aux.pause_lockset) n in
      let resumes = is_nil left.aux.pause_lockset && not (is_some n.config.pull_id) in
      if-Silent n (not (holds_lock l n.aux.pause_lockset)) _ _ (λ unknown. unmoved n n refl refl)
        λ held.
          seq-Silent n (when resumes (on_resume fn d) left) (fire_owed_demand_if_ready fn d) ended
            (after-change n left (when resumes (on_resume fn d)) refl refl ended
              (when-IsSilent resumes (on_resume fn d) (on_resume-IsSilent fn d)))
            (fire_owed-IsSilent fn d)

  receive-IsSilent :
      (fn : NodeFn A) (d : Delivery) (i : ℕ) (m : Message A) → IsSilent (receive_from_dep fn d i m)
  receive-IsSilent fn d i m n ended =
      rw (teardown_only fn d i m n ended) (elim (Bool-cases (is_teardown m)) [
        | inl torn ↦ rw (torn) (did (Effect.sent Message.teardown) n refl)
        | inr other ↦ rw (other) (unmoved n n refl refl)
      ])

  owner-Silent :
      (d : Delivery) (text : String) (body : NodeState A → NodeState A × Exit) (n : NodeState A)
      → n.value.terminal ≡ true
      → IsSilent body
      → Silent n (with_wave_owner d text body n)
  unfolding with_wave_owner reset_wave_flags
  owner-Silent d text body n ended h = recovered (body n) (h n ended)
    where
      recovered :
          (r : NodeState A × Exit) → Silent n r.0 → Silent n (with_wave_owner d text (λ m. r) n)
      recovered (m, Exit.returned) a = a
      recovered (m, Exit.panicked) a =
          let over : m.value.terminal ≡ true = ap (λ v. v.terminal) a.value ∙ ended in
          Silent-trans n m _ a (
            after-change m (reset_wave_flags m) (down d (Message.error text ∷ [])) refl refl over
              (down-IsSilent d (Message.error text ∷ [])))

  Step-Silent :
      {fn : NodeFn A} {n m : NodeState A} → Step fn n m → n.value.terminal ≡ true → Silent n m
  unfolding pause_acquire
  Step-Silent {fn} {n} (receives d text i x h) ended =
      owner-Silent d text (receive_from_dep fn d i x) n ended (receive-IsSilent fn d i x)
  Step-Silent {fn} {n} (emits_wave d text ms) ended =
      owner-Silent d text (down d ms) n ended (down-IsSilent d ms)
  Step-Silent {fn} {n} (locks l) ended = unmoved n _ refl refl
  Step-Silent {fn} {n} (unlocks d text l) ended =
      owner-Silent d text (pause_release fn d l) n ended (pause_release-IsSilent fn d l)
  Step-Silent {fn} {n} (demands d text p) ended =
      owner-Silent d text (on_demand fn d p) n ended (on_demand-IsSilent fn d p)
  Step-Silent {fn} {n} (runs d text) ended =
      owner-Silent d text (maybe_run fn d) n ended (maybe_run-IsSilent fn d)
  Step-Silent {fn} {n} (settles d text) ended =
      owner-Silent d text (settle_after_absorbed_terminal fn d) n ended (settle-IsSilent fn d)

  -- A node that has completed or failed keeps its value and its status through any sequence of
  -- messages of dependencies, waves of its own, locks taken and released, demands, and tasks of the
  -- delivery boundary, whatever its function does, panics included; all that it sends is TEARDOWN, and
  -- it runs no hook and defers no wave. (It is not deactivated or rewired meanwhile.)
  pub ended_forever :
      (fn : NodeFn A) (n m : NodeState A) → n.value.terminal ≡ true → Reaches fn n m → Silent n m
  ended_forever fn n m ended here = unmoved n n refl refl
  ended_forever fn n m ended (after {m = k} r step) =
      let past = ended_forever fn n k ended r in
      Silent-trans n k m past (Step-Silent step (ap (λ v. v.terminal) past.value ∙ ended))
