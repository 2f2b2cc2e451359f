-- ===== src/WorkQueue/Records.antt =====
-- The records of the work queue's journal: `WorkQueueRecord` of
-- crates/graphrefly/src/work_queue.rs.
use graphrefly_rs.Prelude.{ℕ, ℤ, Bool, Option, none, some, List, String}

pub record WorkQueueMessageBusRef : Type 0 where
  pub topic : String
  pub seq : ℕ
  pub subscription_id : String

-- Each variant has the fields of the source in their order.
pub data WorkQueueRecord {ℓ} (T : Type ℓ) : Type ℓ where
  work_admitted :
      (record_seq : ℕ) (queue_id work_id : String) (payload : T)
      (message_bus : WorkQueueMessageBusRef) (priority : Option ℤ) (tags requirements : List String)
      (not_before_ms deadline_ms : Option ℕ) (recorded_at_ms : ℕ)
      → WorkQueueRecord T
  admission_deduped :
      (record_seq : ℕ) (queue_id work_id : String) (message_bus : WorkQueueMessageBusRef)
      (reason existing_work_id : String) (recorded_at_ms : ℕ)
      → WorkQueueRecord T
  work_scheduled :
      (record_seq : ℕ) (queue_id work_id command_id : String) (schedule_id : Option String)
      (not_before_ms : ℕ) (deadline_ms : Option ℕ) (reason : Option String) (recorded_at_ms : ℕ)
      → WorkQueueRecord T
  work_claimed :
      (record_seq : ℕ) (queue_id work_id command_id lease_id : String) (attempt : ℕ)
      (worker_id : String) (claimed_at_ms lease_expires_at_ms : ℕ)
      → WorkQueueRecord T
  lease_renewed :
      (record_seq : ℕ) (queue_id work_id command_id lease_id : String) (attempt : ℕ)
      (worker_id : String) (previous_lease_expires_at_ms lease_expires_at_ms renewed_at_ms : ℕ)
      → WorkQueueRecord T
  work_released :
      (record_seq : ℕ) (queue_id work_id command_id lease_id : String) (attempt : ℕ)
      (worker_id : String) (released_at_ms : ℕ) (reason : Option String)
      → WorkQueueRecord T
  lease_expired :
      (record_seq : ℕ) (queue_id work_id : String) (command_id : Option String) (lease_id : String)
      (attempt : ℕ) (worker_id : String) (lease_expires_at_ms expired_at_ms : ℕ)
      → WorkQueueRecord T
  attempt_completed :
      (record_seq : ℕ) (queue_id work_id command_id lease_id : String) (attempt : ℕ)
      (worker_id : String) (result : Option String) (recorded_at_ms : ℕ)
      → WorkQueueRecord T
  work_completed :
      (record_seq : ℕ) (queue_id work_id command_id lease_id : String) (attempt : ℕ)
      (worker_id : String) (result : Option String) (recorded_at_ms : ℕ)
      → WorkQueueRecord T
  attempt_failed :
      (record_seq : ℕ) (queue_id work_id command_id lease_id : String) (attempt : ℕ)
      (worker_id : String) (error : Option String) (retryable : Option Bool) (recorded_at_ms : ℕ)
      → WorkQueueRecord T
  retry_scheduled :
      (record_seq : ℕ) (queue_id work_id command_id : String) (retry_at_ms delay_ms : ℕ)
      (reason : Option String) (recorded_at_ms : ℕ)
      → WorkQueueRecord T
  work_dead_lettered :
      (record_seq : ℕ) (queue_id work_id command_id reason : String) (exhausted_attempts : Option ℕ)
      (recorded_at_ms : ℕ)
      → WorkQueueRecord T
  work_canceled :
      (record_seq : ℕ) (queue_id work_id command_id : String) (reason : Option String)
      (canceled_at_ms : ℕ) (canceled_lease_id : Option String) (attempt : Option ℕ)
      → WorkQueueRecord T

module _ {ℓ} {T : Type ℓ} where
  unfoldable pub record_seq : WorkQueueRecord T → ℕ
  record_seq (work_admitted n q w p m x5 x6 x7 x8 x9 x10) = n
  record_seq (admission_deduped n q w m x4 x5 x6) = n
  record_seq (work_scheduled n q w x3 x4 x5 x6 x7 x8) = n
  record_seq (work_claimed n q w x3 x4 x5 x6 x7 x8) = n
  record_seq (lease_renewed n q w x3 x4 x5 x6 x7 x8 x9) = n
  record_seq (work_released n q w x3 x4 x5 x6 x7 x8) = n
  record_seq (lease_expired n q w x3 x4 x5 x6 x7 x8) = n
  record_seq (attempt_completed n q w x3 x4 x5 x6 x7 x8) = n
  record_seq (work_completed n q w x3 x4 x5 x6 x7 x8) = n
  record_seq (attempt_failed n q w x3 x4 x5 x6 x7 x8 x9) = n
  record_seq (retry_scheduled n q w x3 x4 x5 x6 x7) = n
  record_seq (work_dead_lettered n q w x3 x4 x5 x6) = n
  record_seq (work_canceled n q w x3 x4 x5 x6 x7) = n

  -- `work_id()`.
  unfoldable pub record_work_id : WorkQueueRecord T → String
  record_work_id (work_admitted n q w p m x5 x6 x7 x8 x9 x10) = w
  record_work_id (admission_deduped n q w m x4 x5 x6) = w
  record_work_id (work_scheduled n q w x3 x4 x5 x6 x7 x8) = w
  record_work_id (work_claimed n q w x3 x4 x5 x6 x7 x8) = w
  record_work_id (lease_renewed n q w x3 x4 x5 x6 x7 x8 x9) = w
  record_work_id (work_released n q w x3 x4 x5 x6 x7 x8) = w
  record_work_id (lease_expired n q w x3 x4 x5 x6 x7 x8) = w
  record_work_id (attempt_completed n q w x3 x4 x5 x6 x7 x8) = w
  record_work_id (work_completed n q w x3 x4 x5 x6 x7 x8) = w
  record_work_id (attempt_failed n q w x3 x4 x5 x6 x7 x8 x9) = w
  record_work_id (retry_scheduled n q w x3 x4 x5 x6 x7) = w
  record_work_id (work_dead_lettered n q w x3 x4 x5 x6) = w
  record_work_id (work_canceled n q w x3 x4 x5 x6 x7) = w

  unfoldable pub record_queue_id : WorkQueueRecord T → String
  record_queue_id (work_admitted n q w p m x5 x6 x7 x8 x9 x10) = q
  record_queue_id (admission_deduped n q w m x4 x5 x6) = q
  record_queue_id (work_scheduled n q w x3 x4 x5 x6 x7 x8) = q
  record_queue_id (work_claimed n q w x3 x4 x5 x6 x7 x8) = q
  record_queue_id (lease_renewed n q w x3 x4 x5 x6 x7 x8 x9) = q
  record_queue_id (work_released n q w x3 x4 x5 x6 x7 x8) = q
  record_queue_id (lease_expired n q w x3 x4 x5 x6 x7 x8) = q
  record_queue_id (attempt_completed n q w x3 x4 x5 x6 x7 x8) = q
  record_queue_id (work_completed n q w x3 x4 x5 x6 x7 x8) = q
  record_queue_id (attempt_failed n q w x3 x4 x5 x6 x7 x8 x9) = q
  record_queue_id (retry_scheduled n q w x3 x4 x5 x6 x7) = q
  record_queue_id (work_dead_lettered n q w x3 x4 x5 x6) = q
  record_queue_id (work_canceled n q w x3 x4 x5 x6 x7) = q

  unfoldable pub admission_message_bus : WorkQueueRecord T → Option WorkQueueMessageBusRef
  admission_message_bus (work_admitted n q w p m x5 x6 x7 x8 x9 x10) = some m
  admission_message_bus (admission_deduped n q w m x4 x5 x6) = some m
  admission_message_bus (work_scheduled n q w x3 x4 x5 x6 x7 x8) = none
  admission_message_bus (work_claimed n q w x3 x4 x5 x6 x7 x8) = none
  admission_message_bus (lease_renewed n q w x3 x4 x5 x6 x7 x8 x9) = none
  admission_message_bus (work_released n q w x3 x4 x5 x6 x7 x8) = none
  admission_message_bus (lease_expired n q w x3 x4 x5 x6 x7 x8) = none
  admission_message_bus (attempt_completed n q w x3 x4 x5 x6 x7 x8) = none
  admission_message_bus (work_completed n q w x3 x4 x5 x6 x7 x8) = none
  admission_message_bus (attempt_failed n q w x3 x4 x5 x6 x7 x8 x9) = none
  admission_message_bus (retry_scheduled n q w x3 x4 x5 x6 x7) = none
  admission_message_bus (work_dead_lettered n q w x3 x4 x5 x6) = none
  admission_message_bus (work_canceled n q w x3 x4 x5 x6 x7) = none

  unfoldable pub with_record_seq : WorkQueueRecord T → ℕ → WorkQueueRecord T
  with_record_seq (work_admitted n q w p m x5 x6 x7 x8 x9 x10) next =
      work_admitted next q w p m x5 x6 x7 x8 x9 x10
  with_record_seq (admission_deduped n q w m x4 x5 x6) next = admission_deduped next q w m x4 x5 x6
  with_record_seq (work_scheduled n q w x3 x4 x5 x6 x7 x8) next =
      work_scheduled next q w x3 x4 x5 x6 x7 x8
  with_record_seq (work_claimed n q w x3 x4 x5 x6 x7 x8) next =
      work_claimed next q w x3 x4 x5 x6 x7 x8
  with_record_seq (lease_renewed n q w x3 x4 x5 x6 x7 x8 x9) next =
      lease_renewed next q w x3 x4 x5 x6 x7 x8 x9
  with_record_seq (work_released n q w x3 x4 x5 x6 x7 x8) next =
      work_released next q w x3 x4 x5 x6 x7 x8
  with_record_seq (lease_expired n q w x3 x4 x5 x6 x7 x8) next =
      lease_expired next q w x3 x4 x5 x6 x7 x8
  with_record_seq (attempt_completed n q w x3 x4 x5 x6 x7 x8) next =
      attempt_completed next q w x3 x4 x5 x6 x7 x8
  with_record_seq (work_completed n q w x3 x4 x5 x6 x7 x8) next =
      work_completed next q w x3 x4 x5 x6 x7 x8
  with_record_seq (attempt_failed n q w x3 x4 x5 x6 x7 x8 x9) next =
      attempt_failed next q w x3 x4 x5 x6 x7 x8 x9
  with_record_seq (retry_scheduled n q w x3 x4 x5 x6 x7) next =
      retry_scheduled next q w x3 x4 x5 x6 x7
  with_record_seq (work_dead_lettered n q w x3 x4 x5 x6) next =
      work_dead_lettered next q w x3 x4 x5 x6
  with_record_seq (work_canceled n q w x3 x4 x5 x6 x7) next = work_canceled next q w x3 x4 x5 x6 x7
