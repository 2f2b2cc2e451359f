-- ===== src/WorkQueue/Leases/Checked.antt =====
-- The cases of the check of a lease.
use graphrefly_rs.Prelude.{
  ℕ, ◌≡◌, refl, sym, ap, ◌∙◌, subst, ◌⊎◌, inl, inr, true, false, Bool-cases, Option-cases, Option,
  none, some, List, ◌++◌, String, str_eq, eq_iff, ◌==◌, arith,
}
use graphrefly_rs.WorkQueue.Commands.{WorkQueueCommand, is_some_and}
use graphrefly_rs.WorkQueue.Events.{QueueEvent, RuntimeOptions}
use graphrefly_rs.Collections.Maps.{insert_row}
use graphrefly_rs.WorkQueue.State.{
  Host, WorkQueueDerivedState, WorkState, RuntimeState, find_work, is_terminal, is_leased,
  is_expired,
}
use graphrefly_rs.WorkQueue.Leases.{
  LeaseCheck, materialize_lease_expired, current_lease, under_lease, refuse,
}
use graphrefly_rs.WorkQueue.Contract.{reset, lapse, Holds, target, credentials, IsCoherent}
use graphrefly_rs.WorkQueue.Trace.{Run, done, wrote, moved, Run-append}
use graphrefly_rs.WorkQueue.Trace.Works.{AreWorks, find_row-AreCoherent}
use graphrefly_rs.WorkQueue.Outcome.{Outcome, runs, rejected-Run}

-- An option that holds a text is that text.
is_some_and-text :
    (o : Option String) (x : String) → is_some_and o (λ y. str_eq y x) ≡ true → o ≡ some x
is_some_and-text none x h = ground arith
is_some_and-text (some y) x h = ap some ((eq_iff y x).0 h)

module _ {ℓ} {T : Type ℓ} (host : Host) (opts : RuntimeOptions) where
  pub materialize-Run :
      (c : WorkQueueCommand T) (now : ℕ) (s : RuntimeState T) (w : WorkState T)
      (command : Option String)
      → find_work host w.work_id s ≡ some w
      → is_expired w now ≡ true
      → Run host c now s
          (materialize_lease_expired host opts s w command now none).1
          (materialize_lease_expired host opts s w command now none).0
  unfolding materialize_lease_expired
  materialize-Run c now s w command found h =
      rw (found, materialize_lease_expired)
        (moved w.work_id w _ found (lapse w h) (wrote _ refl done))

  -- The works after an expiry.
  pub materialize-works :
      (s : RuntimeState T) (w : WorkState T) (command : Option String) (now : ℕ)
      → find_work host w.work_id s ≡ some w
      → (materialize_lease_expired host opts s w command now none).0.works
        ≡ insert_row host.order w.work_id (reset WorkQueueDerivedState.ready w) s.works
  unfolding materialize_lease_expired
  materialize-works s w command now found = rw (found, materialize_lease_expired) refl

  -- What the check found out.
  record IsChecked (s : RuntimeState T) (check : LeaseCheck) (w : WorkState T) : Type ℓ where
    passes : current_lease host opts s check ≡ none
    held : is_leased w.state ≡ true
    lease : w.lease_id ≡ some check.lease_id
    attempt : w.attempt ≡ check.attempt
    worker : w.worker_id ≡ some check.worker_id
    live : is_expired w check.now_ms ≡ false

  abbrev Refuses : RuntimeState T → LeaseCheck → Type ℓ
  Refuses s check =
      (code : String) × (message : String) × (current_lease host opts s check
        ≡ some (s, refuse host opts check code message))

  abbrev Lapses : RuntimeState T → LeaseCheck → WorkState T → Type ℓ
  Lapses s check w =
      let lapsed = materialize_lease_expired host opts s w check.command_id check.now_ms none in
      (is_expired w check.now_ms ≡ true)
      × (current_lease host opts s check
          ≡ some (lapsed.0, lapsed.1 ++ refuse host opts check "lease-expired" "lease expired"))

  current_lease-cases :
      (s : RuntimeState T) (check : LeaseCheck) (w : WorkState T)
      → find_work host check.work_id s ≡ some w
      → IsChecked s check w ⊎ (Refuses s check ⊎ Lapses s check w)
  unfolding current_lease
  current_lease-cases s check w found = elim (Bool-cases (is_terminal w.state)) [
    | inl ended ↦
        inr (inl ("terminal-work", "work is terminal", rw (found, ended, current_lease) refl))
    | inr going ↦ elim (Bool-cases (is_leased w.state)) [
      | inr free ↦ inr (
          inl (
            "lease-not-current",
            "work is not leased",
            rw (found, going, free, current_lease) refl,
          ))
      | inl held ↦ elim (Bool-cases (is_some_and w.lease_id (λ x. str_eq x check.lease_id))) [
        | inr other ↦ inr (
            inl (
              "stale-lease",
              "lease is not current",
              rw (found, going, held, other, current_lease) refl,
            ))
        | inl lease ↦ elim (Bool-cases (w.attempt == check.attempt)) [
          | inr other ↦ inr (
              inl (
                "attempt-mismatch",
                "attempt mismatch",
                rw (found, going, held, lease, other, current_lease) refl,
              ))
          | inl attempt ↦
              elim (Bool-cases (is_some_and w.worker_id (λ x. str_eq x check.worker_id))) [
                | inr other ↦ inr (
                    inl (
                      "worker-mismatch",
                      "worker mismatch",
                      rw (found, going, held, lease, attempt, other, current_lease) refl,
                    ))
                | inl worker ↦ elim (Bool-cases (is_expired w check.now_ms)) [
                  | inl late ↦ inr (
                      inr (
                        late,
                        rw (found, going, held, lease, attempt, worker, late, current_lease) refl,
                      ))
                  | inr live ↦ inl (record {
                    passes =
                        rw (found, going, held, lease, attempt, worker, live, current_lease) refl;
                    held = held;
                    lease = is_some_and-text w.lease_id check.lease_id lease;
                    attempt = ground arith;
                    worker = is_some_and-text w.worker_id check.worker_id worker;
                    live = live;
                  })
                ]
              ]
        ]
      ]
    ]
  ]

  under_lease-refused :
      (s : RuntimeState T) (check : LeaseCheck)
      (k : WorkState T → Option (RuntimeState T × List (QueueEvent T)))
      (refused : RuntimeState T × List (QueueEvent T))
      → current_lease host opts s check ≡ some refused
      → under_lease host opts s check k ≡ some refused
  unfolding under_lease
  under_lease-refused s check k refused h = rw (h, under_lease) refl

  current_lease-unknown :
      (s : RuntimeState T) (check : LeaseCheck)
      → find_work host check.work_id s ≡ none
      → current_lease host opts s check
        ≡ some (s, refuse host opts check "unknown-work" "unknown work")
  unfolding current_lease
  current_lease-unknown s check h = rw (h, current_lease) refl

  under_lease-passed :
      (s : RuntimeState T) (check : LeaseCheck)
      (k : WorkState T → Option (RuntimeState T × List (QueueEvent T))) (w : WorkState T)
      → current_lease host opts s check ≡ none
      → find_work host check.work_id s ≡ some w
      → under_lease host opts s check k ≡ k w
  unfolding under_lease
  under_lease-passed s check k w h found = rw (h, found, under_lease) refl

  -- A command that shows what it checks.
  pub record IsShown (c : WorkQueueCommand T) (now : ℕ) (check : LeaseCheck) : Type ℓ where
    pub about : target c ≡ some check.work_id
    pub shows : credentials c ≡ some (check.lease_id, check.attempt, check.worker_id)
    pub at : check.now_ms ≡ now

  IsChecked-Holds :
      (c : WorkQueueCommand T) (now : ℕ) (s : RuntimeState T) (check : LeaseCheck) (w : WorkState T)
      → IsShown c now check
      → IsChecked s check w
      → Holds c now w
  IsChecked-Holds c now s check w shown ok = record {
    lease = check.lease_id;
    worker = check.worker_id;
    shown = shown.shows ∙ ap (λ n. some (check.lease_id, n, check.worker_id)) (sym ok.attempt);
    held = ok.held;
    same_lease = ok.lease;
    same_worker = ok.worker;
    live = ap (is_expired w) (sym shown.at) ∙ ok.live;
  }

  -- A command under a lease keeps the contract if what it does with the lease does.
  pub under_lease-Outcome :
      (c : WorkQueueCommand T) (now : ℕ) (s : RuntimeState T) (check : LeaseCheck)
      (k : WorkState T → Option (RuntimeState T × List (QueueEvent T)))
      → IsShown c now check
      → AreWorks host s
      → ((w : WorkState T)
          → find_work host check.work_id s ≡ some w
          → Holds c now w
          → IsCoherent w
          → Outcome host opts c now s (k w))
      → Outcome host opts c now s (under_lease host opts s check k)
  under_lease-Outcome c now s check k shown works run =
      elim (Option-cases (find_work host check.work_id s)) [
        | inl missing ↦
            runs (under_lease-refused s check k _ (current_lease-unknown s check missing))
              (rejected-Run opts _ _ _ _)
        | inr (w, found) ↦
            let old =
              find_row-AreCoherent host.order check.work_id s.works w works.coherent found in
            let here = ap (λ x. find_work host x s) old.0 ∙ found in
            elim (current_lease-cases s check w found) [
              | inl ok ↦
                  subst (Outcome host opts c now s)
                    (sym (under_lease-passed s check k w ok.passes found))
                    (run w found (IsChecked-Holds c now s check w shown ok) old.1)
              | inr (inl (code, message, e)) ↦
                  runs (under_lease-refused s check k _ e) (rejected-Run opts _ _ _ _)
              | inr (inr (late, e)) ↦ runs (under_lease-refused s check k _ e) (
                  Run-append
                    (subst
                      (λ t.
                        Run host c now s
                          (materialize_lease_expired host opts s w check.command_id t none).1
                          (materialize_lease_expired host opts s w check.command_id t none).0)
                      (sym shown.at)
                      (materialize-Run c now s w check.command_id here
                        (ap (is_expired w) (sym shown.at) ∙ late)))
                    (rejected-Run opts _ _ _ _))
            ]
      ]
