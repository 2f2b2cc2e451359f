-- ===== src/WorkQueue/Workers.antt =====
-- The commands about one work: `release_work`, `complete_work`, `fail_work`, `cancel_work` and
-- `schedule_work` of crates/graphrefly/src/work_queue.rs.
use graphrefly_rs.Prelude.{
  ℕ, ◌⊎◌, inl, inr, Bool, true, false, ◌&&◌, Option, none, some, List, [], ◌∷◌, ◌++◌, String, ltb,
  if◌then◌else◌, u32_max, saturating_add,
}
use graphrefly_rs.Resilience.Retry.{RetryPolicy, should_retry, next_delay_ms}
use graphrefly_rs.WorkQueue.Commands.{WorkQueueCommand}
use graphrefly_rs.WorkQueue.Records.{WorkQueueRecord}
use graphrefly_rs.WorkQueue.Events.{
  RuntimeOptions, QueueEvent, reject_queue_command_by_id, checked_timestamp, accepted,
}
use graphrefly_rs.WorkQueue.State.{
  Host, WorkQueueDerivedState, WorkState, RuntimeState, is_terminal, is_leased, clear_lease,
  append_record, find_work, put_work,
}
use graphrefly_rs.WorkQueue.Leases.{unwrap_or, under_lease}
pub mod Runs

-- The retry of a failed attempt, `none` where the work is given up, and its time or a refusal.
unfoldable pub wants_retry : RetryPolicy → Option Bool → ℕ → Bool
wants_retry policy retryable attempt = unwrap_or retryable true && should_retry policy attempt

unfoldable pub retry_delay : RetryPolicy → Bool → ℕ → ℕ
retry_delay policy again attempt =
    if again then unwrap_or (next_delay_ms policy (saturating_add u32_max attempt 1)) 0 else 0

module _ {ℓ} {T : Type ℓ} (host : Host) (opts : RuntimeOptions) where
  unfoldable pub retry_time : String → Bool → ℕ → ℕ → ℕ ⊎ List (QueueEvent T)
  retry_time c true delay now =
      checked_timestamp opts (some c) now delay "retry delay overflows timestamp"
  retry_time c false delay now = inl now

  unfoldable pub release_work :
      RuntimeState T → WorkQueueCommand T → ℕ → Option (RuntimeState T × List (QueueEvent T))
  release_work s (WorkQueueCommand.release c q k id lease n worker reason at) now =
      under_lease host opts s
        (record {
          work_id = id;
          lease_id = lease;
          attempt = n;
          worker_id = worker;
          command_id = some c;
          now_ms = now;
        })
        (λ w.
          let freed =
            put_work host id (record (clear_lease w) { state = WorkQueueDerivedState.ready }) s in
          let appended =
            append_record freed
              (WorkQueueRecord.work_released 0 opts.queue_id id c lease n worker now reason) in
          some (appended.0, accepted opts appended.1 (some id) (some c) now))
  release_work s _ now = some (s, [])

  -- A record and the one after it, with the status that a command with two records sends.
  abbrev pub accepted_two :
      WorkQueueRecord T
      → WorkQueueRecord T
      → Option String
      → Option String
      → ℕ
      → List (QueueEvent T)
  accepted_two first r id c now = QueueEvent.recorded first ∷ accepted opts r id c now

  unfoldable pub complete_work :
      RuntimeState T → WorkQueueCommand T → ℕ → Option (RuntimeState T × List (QueueEvent T))
  complete_work s (WorkQueueCommand.complete c q k id lease n worker result at) now =
      under_lease host opts s
        (record {
          work_id = id;
          lease_id = lease;
          attempt = n;
          worker_id = worker;
          command_id = some c;
          now_ms = now;
        })
        (λ w.
          let closed =
            put_work host id (clear_lease (record w { state = WorkQueueDerivedState.completed }))
              s in
          let attempted =
            append_record closed
              (WorkQueueRecord.attempt_completed 0 opts.queue_id id c lease n worker result now) in
          let done =
            append_record attempted.0
              (WorkQueueRecord.work_completed 0 opts.queue_id id c lease n worker result now) in
          some (done.0, accepted_two attempted.1 done.1 (some id) (some c) now))
  complete_work s _ now = some (s, [])

  -- The end of `fail_work`, after the record of the failed attempt.
  unfoldable pub give_up_work :
      RuntimeState T
      → WorkQueueRecord T
      → WorkState T
      → String
      → String
      → ℕ
      → ℕ
      → RuntimeState T × List (QueueEvent T)
  give_up_work s failed w id c n now =
      let closed =
        put_work host id (clear_lease (record w { state = WorkQueueDerivedState.dead_lettered }))
          s in
      let dead = append_record closed (
        WorkQueueRecord.work_dead_lettered 0 opts.queue_id id c "attempts-exhausted" (some n)
          now) in
      (
        record (dead.0) { dead_letters = dead.0.dead_letters ++ dead.1 ∷ [] },
        accepted_two failed dead.1 (some id) (some c) now,
      )

  unfoldable pub retry_work :
      RuntimeState T
      → WorkQueueRecord T
      → WorkState T
      → String
      → String
      → ℕ
      → ℕ
      → ℕ
      → RuntimeState T × List (QueueEvent T)
  retry_work s failed w id c delay retry_at now =
      let waiting =
        put_work host id
          (clear_lease (record w {
            state =
                if ltb 0 delay
                then WorkQueueDerivedState.retry_wait
                else WorkQueueDerivedState.ready;
            retry_at_ms = some retry_at;
          }))
          s in
      let retry = append_record waiting (
        WorkQueueRecord.retry_scheduled 0 opts.queue_id id c retry_at delay (some "retry-policy")
          now) in
      (retry.0, accepted_two failed retry.1 (some id) (some c) now)

  unfoldable pub fail_work :
      RuntimeState T → WorkQueueCommand T → ℕ → Option (RuntimeState T × List (QueueEvent T))
  fail_work s (WorkQueueCommand.fail c q k id lease n worker error retryable at) now =
      under_lease host opts s
        (record {
          work_id = id;
          lease_id = lease;
          attempt = n;
          worker_id = worker;
          command_id = some c;
          now_ms = now;
        })
        (λ w.
          let again = wants_retry opts.retry retryable w.attempt in
          let delay = retry_delay opts.retry again w.attempt in
          elim (retry_time c again delay now) [
            | inr refused ↦ some (s, refused)
            | inl retry_at ↦
                let failed = append_record s (
                  WorkQueueRecord.attempt_failed 0 opts.queue_id id c lease n worker error retryable
                    now) in
                some (
                  if again
                  then retry_work failed.0 failed.1 w id c delay retry_at now
                  else give_up_work failed.0 failed.1 w id c n now)
          ])
  fail_work s _ now = some (s, [])

  unfoldable pub cancel_work :
      RuntimeState T → WorkQueueCommand T → ℕ → Option (RuntimeState T × List (QueueEvent T))
  cancel_work s (WorkQueueCommand.cancel c q k id reason at) now = elim (find_work host id s) [
    | none ↦ some (s, reject_queue_command_by_id opts (some c) "unknown-work" "unknown work" now)
    | some w ↦
        let closed =
          put_work host id (clear_lease (record w { state = WorkQueueDerivedState.canceled })) s in
        let appended = append_record closed (
          WorkQueueRecord.work_canceled 0 opts.queue_id id c reason now w.lease_id
            (if ltb 0 w.attempt then some w.attempt else none)) in
        if is_terminal w.state
        then some
            (s, reject_queue_command_by_id opts (some c) "terminal-work" "work is terminal" now)
        else some (appended.0, accepted opts appended.1 (some id) (some c) now)
  ]
  cancel_work s _ now = some (s, [])

  unfoldable pub schedule_work :
      RuntimeState T → WorkQueueCommand T → ℕ → Option (RuntimeState T × List (QueueEvent T))
  schedule_work s (WorkQueueCommand.schedule c q k id plan start deadline reason at) now =
      elim (find_work host id s) [
        | none ↦
            some (s, reject_queue_command_by_id opts (some c) "unknown-work" "unknown work" now)
        | some w ↦
            let planned =
              put_work host id
                (record w {
                  state = WorkQueueDerivedState.scheduled;
                  not_before_ms = some start;
                  deadline_ms = deadline;
                })
                s in
            let appended = append_record planned (
              WorkQueueRecord.work_scheduled 0 opts.queue_id id c plan start deadline reason now) in
            if is_terminal w.state
            then some
                (s, reject_queue_command_by_id opts (some c) "terminal-work" "work is terminal" now)
            else if is_leased w.state
            then some (
              s,
              reject_queue_command_by_id opts (some c) "schedule-conflict"
                  "leased work cannot be scheduled without release or cancel" now,
            )
            else some (appended.0, accepted opts appended.1 (some id) (some c) now)
      ]
  schedule_work s _ now = some (s, [])
