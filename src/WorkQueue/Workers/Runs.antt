-- ===== src/WorkQueue/Workers/Runs.antt =====
-- The commands about one work and the contract.
use graphrefly_rs.Prelude.{
  ℕ, ◌+◌, ◌≡◌, refl, ◌⊎◌, inl, inr, Bool, true, false, Bool-cases, Option-cases, Option, none, some,
  List, String, arith, leb, u64_max, is_some, if◌then◌else◌,
}
use graphrefly_rs.WorkQueue.Commands.{WorkQueueCommand}
use graphrefly_rs.WorkQueue.Events.{
  QueueEvent, RuntimeOptions, checked_timestamp, reject_queue_command_by_id,
}
use graphrefly_rs.WorkQueue.State.{Host, RuntimeState, find_work, is_terminal, is_leased}
use graphrefly_rs.WorkQueue.Leases.{renew_lease, renewed_expiry, unwrap_or}
use graphrefly_rs.WorkQueue.Leases.Checked.{under_lease-Outcome}
use graphrefly_rs.WorkQueue.Workers.{
  release_work, complete_work, fail_work, cancel_work, schedule_work, retry_time, retry_work,
  give_up_work, retry_delay, wants_retry,
}
use graphrefly_rs.WorkQueue.Contract.{renew, release, complete, retry, give_up, cancel, schedule}
use graphrefly_rs.WorkQueue.Trace.{done, told, wrote, buried, moved}
use graphrefly_rs.WorkQueue.Trace.Works.{AreWorks}
use graphrefly_rs.WorkQueue.Outcome.{Outcome, runs, rejected-Run}

is_some-held : (o : Option ℕ) (b : Bool) → is_some o ≡ b → b ≡ true → (n : ℕ) × (o ≡ some n)
is_some-held none b h held = absurd (ground (arith, h, held))
is_some-held (some n) b h held = (n, refl)

module _ {ℓ} {T : Type ℓ} (host : Host) (opts : RuntimeOptions) where
  -- A timestamp, or the events of its refusal.
  pub checked_timestamp-cases :
      (command : Option String) (now delta : ℕ) (message : String)
      → ((leb (now + delta) u64_max ≡ true)
          × (checked_timestamp {T = T} opts command now delta message ≡ inl (now + delta)))
        ⊎ ((leb (now + delta) u64_max ≡ false)
            × (checked_timestamp {T = T} opts command now delta message
                ≡ inr (reject_queue_command_by_id opts command "clock-overflow" message now)))
  unfolding checked_timestamp
  checked_timestamp-cases command now delta message =
      elim (Bool-cases (leb (now + delta) u64_max)) [
        | inl fits ↦ inl (fits, rw (fits, checked_timestamp) refl)
        | inr late ↦ inr (late, rw (late, checked_timestamp) refl)
      ]

  renewed_expiry-cases :
      (command : String) (duration expiry : Option ℕ) (now : ℕ)
      → ((n : ℕ) × (renewed_expiry {T = T} host opts command duration expiry now ≡ inl n))
        ⊎ ((message : String) × (renewed_expiry {T = T} host opts command duration expiry now
              ≡ inr (reject_queue_command_by_id opts (some command) "clock-overflow" message now)))
  unfolding renewed_expiry
  renewed_expiry-cases command duration (some n) now = inl (n, refl)
  renewed_expiry-cases command duration none now =
      elim (checked_timestamp-cases (some command) now (unwrap_or duration opts.lease_duration_ms)
        "lease renewal duration overflows timestamp") [
          | inl (fits, e) ↦ inl (_, e)
          | inr (late, e) ↦ inr (_, e)
        ]

  retry_time-cases :
      (c : String) (again : Bool) (delay now : ℕ)
      → (retry_time {T = T} host opts c again delay now ≡ inl (if again then now + delay else now))
        ⊎ (retry_time {T = T} host opts c again delay now
            ≡ inr (
                reject_queue_command_by_id opts
                  (some c)
                  "clock-overflow"
                  "retry delay overflows timestamp"
                  now))
  unfolding retry_time
  retry_time-cases c false delay now = inl refl
  retry_time-cases c true delay now =
      elim (checked_timestamp-cases (some c) now delay "retry delay overflows timestamp") [
        | inl (fits, e) ↦ inl e
        | inr (late, e) ↦ inr e
      ]

  -- The outcome of each command about one work, once its lease is checked.
  abbrev pub KeepsContract :
      (RuntimeState T → WorkQueueCommand T → ℕ → Option (RuntimeState T × List (QueueEvent T)))
      → WorkQueueCommand T
      → Type ℓ
  KeepsContract handler c =
      (s : RuntimeState T) (now : ℕ) → AreWorks host s → Outcome host opts c now s (handler s c now)

  pub release_work-Outcome :
      (c : String) (q k : Option String) (id lease : String) (n : ℕ) (worker : String)
      (reason : Option String) (at : Option ℕ)
      → KeepsContract
          (release_work host opts)
          (WorkQueueCommand.release c q k id lease n worker reason at)
  unfolding release_work
  release_work-Outcome c q k id lease n worker reason at s now works =
      under_lease-Outcome host opts _ now s _ _ (record { about = refl; shows = refl; at = refl })
        works
        (λ w found holds ok.
          runs refl
            (moved id w _ found (release w refl refl holds) (wrote _ refl (told _ refl done))))

  pub complete_work-Outcome :
      (c : String) (q k : Option String) (id lease : String) (n : ℕ) (worker : String)
      (result : Option String) (at : Option ℕ)
      → KeepsContract
          (complete_work host opts)
          (WorkQueueCommand.complete c q k id lease n worker result at)
  unfolding complete_work
  complete_work-Outcome c q k id lease n worker result at s now works =
      under_lease-Outcome host opts _ now s _ _ (record { about = refl; shows = refl; at = refl })
        works
        (λ w found holds ok. runs refl (
          moved id w _ found (complete w refl refl holds)
            (wrote _ refl (wrote _ refl (told _ refl done)))))

  pub renew_lease-Outcome :
      (c : String) (q k : Option String) (id lease : String) (n : ℕ) (worker : String)
      (duration expiry at : Option ℕ)
      → KeepsContract
          (renew_lease host opts)
          (WorkQueueCommand.renew c q k id lease n worker duration expiry at)
  unfolding renew_lease
  renew_lease-Outcome c q k id lease n worker duration expiry at s now works =
      under_lease-Outcome host opts _ now s _ _ (record { about = refl; shows = refl; at = refl })
        works
        (λ w found holds ok.
          let (previous, e) = is_some-held w.lease_expires_at_ms _ ok.expiry holds.held in
          elim (renewed_expiry-cases c duration expiry now) [
            | inl (later, fits) ↦
                rw (e, fits)
                  (runs refl (
                    moved id w _ found (renew w later refl refl holds)
                      (wrote _ refl (told _ refl done))))
            | inr (message, late) ↦ rw (e, late) (runs refl (rejected-Run opts _ _ _ _))
          ])

  pub fail_work-Outcome :
      (c : String) (q k : Option String) (id lease : String) (n : ℕ) (worker : String)
      (error : Option String) (retryable : Option Bool) (at : Option ℕ)
      → KeepsContract
          (fail_work host opts)
          (WorkQueueCommand.fail c q k id lease n worker error retryable at)
  unfolding fail_work retry_work give_up_work
  fail_work-Outcome c q k id lease n worker error retryable at s now works =
      under_lease-Outcome host opts _ now s _ _ (record { about = refl; shows = refl; at = refl })
        works
        (λ w found holds ok.
          elim (retry_time-cases c (wants_retry opts.retry retryable w.attempt)
            (retry_delay opts.retry (wants_retry opts.retry retryable w.attempt) w.attempt) now) [
              | inr late ↦ rw (late) (runs refl (rejected-Run opts _ _ _ _))
              | inl fits ↦ elim (Bool-cases (wants_retry opts.retry retryable w.attempt)) [
                | inl again ↦
                    rw (fits, again)
                      (runs refl (
                        wrote _ refl (
                          moved id w _ found (retry w _ refl refl holds)
                            (wrote _ refl (told _ refl done)))))
                | inr over ↦
                    rw (fits, over)
                      (runs refl (
                        wrote _ refl (
                          moved id w _ found (give_up w refl refl holds)
                            (buried _ refl (told _ refl done)))))
              ]
            ])

  pub cancel_work-Outcome :
      (c : String) (q k : Option String) (id : String) (reason : Option String) (at : Option ℕ)
      → KeepsContract (cancel_work host opts) (WorkQueueCommand.cancel c q k id reason at)
  unfolding cancel_work
  cancel_work-Outcome c q k id reason at s now works = elim (Option-cases (find_work host id s)) [
    | inl missing ↦ rw (missing, cancel_work) (runs refl (rejected-Run opts _ _ _ _))
    | inr (w, found) ↦ elim (Bool-cases (is_terminal w.state)) [
      | inl ended ↦ rw (found, ended, cancel_work) (runs refl (rejected-Run opts _ _ _ _))
      | inr going ↦
          rw (found, going, cancel_work)
            (runs refl
              (moved id w _ found (cancel w refl refl going) (wrote _ refl (told _ refl done))))
    ]
  ]

  pub schedule_work-Outcome :
      (c : String) (q k : Option String) (id : String) (plan : Option String) (start : ℕ)
      (deadline : Option ℕ) (reason : Option String) (at : Option ℕ)
      → KeepsContract
          (schedule_work host opts)
          (WorkQueueCommand.schedule c q k id plan start deadline reason at)
  unfolding schedule_work
  schedule_work-Outcome c q k id plan start deadline reason at s now works =
      elim (Option-cases (find_work host id s)) [
        | inl missing ↦ rw (missing, schedule_work) (runs refl (rejected-Run opts _ _ _ _))
        | inr (w, found) ↦ elim (Bool-cases (is_terminal w.state)) [
          | inl ended ↦ rw (found, ended, schedule_work) (runs refl (rejected-Run opts _ _ _ _))
          | inr going ↦ elim (Bool-cases (is_leased w.state)) [
            | inl held ↦
                rw (found, going, held, schedule_work) (runs refl (rejected-Run opts _ _ _ _))
            | inr free ↦
                rw (found, going, free, schedule_work)
                  (runs refl (
                    moved id w _ found (schedule w start deadline refl refl going free)
                      (wrote _ refl (told _ refl done))))
          ]
        ]
      ]
