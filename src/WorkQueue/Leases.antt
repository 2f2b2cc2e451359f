-- ===== src/WorkQueue/Leases.antt =====
-- The check of a lease and its expiry: `current_lease`, `materialize_lease_expired` and
-- `renew_lease` of crates/graphrefly/src/work_queue.rs.
use graphrefly_rs.Prelude.{
  ℕ, ◌==◌, ◌⊎◌, inl, inr, not, Option, none, some, List, [], ◌∷◌, ◌++◌, String, str_eq,
  if◌then◌else◌, ◌>>=◌,
}
use graphrefly_rs.WorkQueue.Commands.{WorkQueueCommand, is_some_and}
use graphrefly_rs.WorkQueue.Records.{WorkQueueRecord}
use graphrefly_rs.WorkQueue.Events.{
  RuntimeOptions, QueueEvent, reject_queue_command_by_id, checked_timestamp, accepted,
}
use graphrefly_rs.WorkQueue.State.{
  Host, WorkQueueDerivedState, WorkState, RuntimeState, is_terminal, is_leased, is_expired,
  clear_lease, append_record, find_work, put_work,
}
pub mod Checked

pub record LeaseCheck : Type 0 where
  pub work_id : String
  pub lease_id : String
  pub attempt : ℕ
  pub worker_id : String
  pub command_id : Option String
  pub now_ms : ℕ

abbrev pub unwrap_or {ℓ} : {A : Type ℓ} → Option A → A → A
unwrap_or none a = a
unwrap_or (some b) a = b

module _ {ℓ} {T : Type ℓ} (host : Host) (opts : RuntimeOptions) where
  abbrev expired_record : WorkState T → Option String → ℕ → WorkQueueRecord T
  expired_record w command now =
      WorkQueueRecord.lease_expired 0 opts.queue_id w.work_id command (unwrap_or w.lease_id "")
        w.attempt (unwrap_or w.worker_id "") (unwrap_or w.lease_expires_at_ms now) now

  abbrev rejection_events : Option String → ℕ → Option (String × String) → List (QueueEvent T)
  rejection_events command now none = []
  rejection_events command now (some (code, message)) =
      reject_queue_command_by_id opts command code message now

  unfoldable pub materialize_lease_expired :
      RuntimeState T
      → WorkState T
      → Option String
      → ℕ
      → Option (String × String)
      → RuntimeState T × List (QueueEvent T)
  materialize_lease_expired s w command now rejection = elim (find_work host w.work_id s) [
    | none ↦ (s, [])
    | some current ↦
        let freed =
          put_work host w.work_id
            (clear_lease (record current { state = WorkQueueDerivedState.ready })) s in
        let appended = append_record freed (expired_record w command now) in
        (appended.0, QueueEvent.recorded appended.1 ∷ rejection_events command now rejection)
  ]

  abbrev pub refuse : LeaseCheck → String → String → List (QueueEvent T)
  refuse check code message =
      reject_queue_command_by_id opts check.command_id code message check.now_ms

  -- `Ok(())` is `none`. `Err` has the state that the check leaves.
  unfoldable pub current_lease :
      RuntimeState T → LeaseCheck → Option (RuntimeState T × List (QueueEvent T))
  current_lease s check = elim (find_work host check.work_id s) [
    | none ↦ some (s, refuse check "unknown-work" "unknown work")
    | some w ↦
        let lapsed = materialize_lease_expired s w check.command_id check.now_ms none in
        if is_terminal w.state
        then some (s, refuse check "terminal-work" "work is terminal")
        else if not (is_leased w.state)
        then some (s, refuse check "lease-not-current" "work is not leased")
        else if not (is_some_and w.lease_id (λ x. str_eq x check.lease_id))
        then some (s, refuse check "stale-lease" "lease is not current")
        else if not (w.attempt == check.attempt)
        then some (s, refuse check "attempt-mismatch" "attempt mismatch")
        else if not (is_some_and w.worker_id (λ x. str_eq x check.worker_id))
        then some (s, refuse check "worker-mismatch" "worker mismatch")
        else if is_expired w check.now_ms
        then some (lapsed.0, lapsed.1 ++ refuse check "lease-expired" "lease expired")
        else none
  ]

  -- What a command does once its lease is checked, with the work that `get_mut` finds.
  unfoldable pub under_lease :
      RuntimeState T
      → LeaseCheck
      → (WorkState T → Option (RuntimeState T × List (QueueEvent T)))
      → Option (RuntimeState T × List (QueueEvent T))
  under_lease s check k = elim (current_lease s check) [
    | some refused ↦ some refused
    | none ↦ find_work host check.work_id s >>= k
  ]

  -- The new expiry of a lease.
  unfoldable pub renewed_expiry : String → Option ℕ → Option ℕ → ℕ → ℕ ⊎ List (QueueEvent T)
  renewed_expiry command duration (some expires) now = inl expires
  renewed_expiry command duration none now =
      checked_timestamp opts (some command) now (unwrap_or duration opts.lease_duration_ms)
        "lease renewal duration overflows timestamp"

  unfoldable pub renew_lease :
      RuntimeState T → WorkQueueCommand T → ℕ → Option (RuntimeState T × List (QueueEvent T))
  renew_lease s (WorkQueueCommand.renew c q k id lease n worker duration expires at) now =
      under_lease s
        (record {
          work_id = id;
          lease_id = lease;
          attempt = n;
          worker_id = worker;
          command_id = some c;
          now_ms = now;
        })
        (λ w. w.lease_expires_at_ms >>= λ previous. elim (renewed_expiry c duration expires now) [
          | inr refused ↦ some (s, refused)
          | inl next ↦
              let written = put_work host id (record w { lease_expires_at_ms = some next }) s in
              let appended = append_record written (
                WorkQueueRecord.lease_renewed 0 opts.queue_id id c lease n worker previous next
                  now) in
              some (appended.0, accepted opts appended.1 (some id) (some c) now)
        ])
  renew_lease s _ now = some (s, [])
