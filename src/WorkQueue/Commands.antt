-- ===== src/WorkQueue/Commands.antt =====
-- The commands of the work queue and what is submitted to it: `WorkQueueSubmit` and
-- `WorkQueueCommand` of crates/graphrefly/src/work_queue.rs.
use graphrefly_rs.Prelude.{ℕ, ℤ, Bool, false, Option, none, some, List, String, str_eq}

pub record WorkQueueSubmit {ℓ} (T : Type ℓ) : Type ℓ where
  pub payload : T
  pub work_id : Option String
  pub priority : Option ℤ
  pub tags : List String
  pub requirements : List String
  pub not_before_ms : Option ℕ
  pub deadline_ms : Option ℕ

-- Each variant has the fields of the source in their order.
pub data WorkQueueCommand {ℓ} (T : Type ℓ) : Type ℓ where
  submit :
      (payload : T) (command_id : String) (queue_id idempotency_key : Option String)
      → WorkQueueCommand T
  claim :
      (command_id : String) (queue_id idempotency_key : Option String) (worker_id : String)
      (requested_work_ids : List String) (limit lease_duration_ms now_ms : Option ℕ)
      → WorkQueueCommand T
  renew :
      (command_id : String) (queue_id idempotency_key : Option String) (work_id lease_id : String)
      (attempt : ℕ) (worker_id : String) (lease_duration_ms lease_expires_at_ms now_ms : Option ℕ)
      → WorkQueueCommand T
  release :
      (command_id : String) (queue_id idempotency_key : Option String) (work_id lease_id : String)
      (attempt : ℕ) (worker_id : String) (reason : Option String) (now_ms : Option ℕ)
      → WorkQueueCommand T
  complete :
      (command_id : String) (queue_id idempotency_key : Option String) (work_id lease_id : String)
      (attempt : ℕ) (worker_id : String) (result : Option String) (now_ms : Option ℕ)
      → WorkQueueCommand T
  fail :
      (command_id : String) (queue_id idempotency_key : Option String) (work_id lease_id : String)
      (attempt : ℕ) (worker_id : String) (error : Option String) (retryable : Option Bool)
      (now_ms : Option ℕ)
      → WorkQueueCommand T
  cancel :
      (command_id : String) (queue_id idempotency_key : Option String) (work_id : String)
      (reason : Option String) (now_ms : Option ℕ)
      → WorkQueueCommand T
  schedule :
      (command_id : String) (queue_id idempotency_key : Option String) (work_id : String)
      (schedule_id : Option String) (not_before_ms : ℕ) (deadline_ms : Option ℕ)
      (reason : Option String) (now_ms : Option ℕ)
      → WorkQueueCommand T
  expire :
      (command_id : String) (queue_id idempotency_key : Option String) (work_ids : List String)
      (limit now_ms : Option ℕ)
      → WorkQueueCommand T

-- `String::is_empty` and `Option::is_some_and`.
abbrev pub is_blank : String → Bool
is_blank s = str_eq s ""

abbrev pub is_some_and {ℓ} : {A : Type ℓ} → Option A → (A → Bool) → Bool
is_some_and none p = false
is_some_and (some a) p = p a

module _ {ℓ} {T : Type ℓ} where
  unfoldable pub command_id : WorkQueueCommand T → String
  command_id (submit payload c q k) = c
  command_id (claim c q k worker ids limit duration now) = c
  command_id (renew c q k id lease n worker duration expires now) = c
  command_id (release c q k id lease n worker reason now) = c
  command_id (complete c q k id lease n worker result now) = c
  command_id (fail c q k id lease n worker error retryable now) = c
  command_id (cancel c q k id reason now) = c
  command_id (schedule c q k id schedule_id start deadline reason now) = c
  command_id (expire c q k ids limit now) = c

  unfoldable pub queue_id : WorkQueueCommand T → Option String
  queue_id (submit payload c q k) = q
  queue_id (claim c q k worker ids limit duration now) = q
  queue_id (renew c q k id lease n worker duration expires now) = q
  queue_id (release c q k id lease n worker reason now) = q
  queue_id (complete c q k id lease n worker result now) = q
  queue_id (fail c q k id lease n worker error retryable now) = q
  queue_id (cancel c q k id reason now) = q
  queue_id (schedule c q k id schedule_id start deadline reason now) = q
  queue_id (expire c q k ids limit now) = q

  unfoldable pub idempotency_key : WorkQueueCommand T → Option String
  idempotency_key (submit payload c q k) = k
  idempotency_key (claim c q k worker ids limit duration now) = k
  idempotency_key (renew c q k id lease n worker duration expires now) = k
  idempotency_key (release c q k id lease n worker reason now) = k
  idempotency_key (complete c q k id lease n worker result now) = k
  idempotency_key (fail c q k id lease n worker error retryable now) = k
  idempotency_key (cancel c q k id reason now) = k
  idempotency_key (schedule c q k id schedule_id start deadline reason now) = k
  idempotency_key (expire c q k ids limit now) = k

  unfoldable pub command_now_ms : WorkQueueCommand T → Option ℕ
  command_now_ms (submit payload c q k) = none
  command_now_ms (claim c q k worker ids limit duration now) = now
  command_now_ms (renew c q k id lease n worker duration expires now) = now
  command_now_ms (release c q k id lease n worker reason now) = now
  command_now_ms (complete c q k id lease n worker result now) = now
  command_now_ms (fail c q k id lease n worker error retryable now) = now
  command_now_ms (cancel c q k id reason now) = now
  command_now_ms (schedule c q k id schedule_id start deadline reason now) = now
  command_now_ms (expire c q k ids limit now) = now
