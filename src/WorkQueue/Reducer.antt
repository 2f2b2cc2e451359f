-- ===== src/WorkQueue/Reducer.antt =====
-- The reducer: `reduce_queue_command`, `admit_message` and the runtime node of
-- crates/graphrefly/src/work_queue.rs, and `MessageEnvelope` of crates/graphrefly/src/messaging.rs.
use graphrefly_rs.Prelude.{
  ℕ, ◌==◌, Bool, not, ◌||◌, Option, none, some, List, [], ◌∷◌, ◌++◌, String, str_eq, any, ltb,
  if◌then◌else◌, is_some,
}
use graphrefly_rs.WorkQueue.Commands.{
  WorkQueueCommand, WorkQueueSubmit, command_id, queue_id, idempotency_key, command_now_ms,
  is_blank, is_some_and,
}
use graphrefly_rs.WorkQueue.Records.{WorkQueueRecord, WorkQueueMessageBusRef, record_seq}
use graphrefly_rs.WorkQueue.Events.{
  RuntimeOptions, QueueEvent, WorkQueueStatusKind, reject_queue_command, status_event, no_fields,
}
use graphrefly_rs.WorkQueue.State.{
  Host, WorkQueueDerivedState, WorkState, RuntimeState, append_record, find_work, put_work,
  contains, canonical_tuple_key, compound_tuple_key, after_events,
}
use graphrefly_rs.WorkQueue.Leases.{unwrap_or, renew_lease}
use graphrefly_rs.WorkQueue.Workers.{
  release_work, complete_work, fail_work, cancel_work, schedule_work,
}
use graphrefly_rs.WorkQueue.Claims.{claim_work, expire_leases}
use graphrefly_rs.WorkQueue.Validation.{validate_queue_command}
pub mod Refines
pub mod Admission
pub mod Promises
pub mod Journaling
pub mod Batches
pub mod Once

pub record MessageEnvelope {ℓ} (T : Type ℓ) : Type ℓ where
  pub topic : String
  pub seq : ℕ
  pub payload : T
  pub key : Option String
  pub timestamp_ms : ℕ
  pub command_id : Option String
  pub idempotency_key : Option String

abbrev pub insert_key : Option String → List String → List String
insert_key none keys = keys
insert_key (some key) keys = key ∷ keys

module _ {ℓ} {T : Type ℓ} where
  -- What is remembered of a command that is taken.
  abbrev pub remember : WorkQueueCommand T → RuntimeState T → RuntimeState T
  remember command s = record s {
    command_ids = command_id command ∷ s.command_ids;
    idempotency_keys = insert_key (idempotency_key command) s.idempotency_keys;
  }

module _ {ℓ} {T : Type ℓ} (host : Host) (opts : RuntimeOptions) where
  unfoldable pub dispatch_command :
      RuntimeState T → WorkQueueCommand T → ℕ → Option (RuntimeState T × List (QueueEvent T))
  dispatch_command s (WorkQueueCommand.submit payload c q k) now = some (
    s,
    status_event opts WorkQueueStatusKind.command_accepted now
          (record no_fields { command_id = some c; details = some "submit uses messageBus" })
        ∷ [],
  )
  dispatch_command s (WorkQueueCommand.claim c q k w i l d t) now =
      claim_work host opts s (WorkQueueCommand.claim c q k w i l d t) now
  dispatch_command s (WorkQueueCommand.renew c q k i l n w d e t) now =
      renew_lease host opts s (WorkQueueCommand.renew c q k i l n w d e t) now
  dispatch_command s (WorkQueueCommand.release c q k i l n w r t) now =
      release_work host opts s (WorkQueueCommand.release c q k i l n w r t) now
  dispatch_command s (WorkQueueCommand.complete c q k i l n w r t) now =
      complete_work host opts s (WorkQueueCommand.complete c q k i l n w r t) now
  dispatch_command s (WorkQueueCommand.fail c q k i l n w e r t) now =
      fail_work host opts s (WorkQueueCommand.fail c q k i l n w e r t) now
  dispatch_command s (WorkQueueCommand.cancel c q k i r t) now =
      cancel_work host opts s (WorkQueueCommand.cancel c q k i r t) now
  dispatch_command s (WorkQueueCommand.schedule c q k i p b d r t) now =
      schedule_work host opts s (WorkQueueCommand.schedule c q k i p b d r t) now
  dispatch_command s (WorkQueueCommand.expire c q k i l t) now =
      expire_leases host opts s (WorkQueueCommand.expire c q k i l t) now

  -- Why a command is refused before it is looked at.
  unfoldable pub refusal : RuntimeState T → WorkQueueCommand T → Option (String × String)
  refusal s command = elim (validate_queue_command opts.queue_id command) [
    | some error ↦ some error
    | none ↦
        if contains (command_id command) s.command_ids
        then some ("duplicate-command", "duplicate commandId")
        else if is_some_and (idempotency_key command) (λ key. contains key s.idempotency_keys)
        then some ("duplicate-command", "duplicate idempotencyKey")
        else none
  ]

  unfoldable pub reduce_queue_command :
      RuntimeState T → WorkQueueCommand T → ℕ → Option (RuntimeState T × List (QueueEvent T))
  reduce_queue_command s command now = elim (refusal s command) [
    | some (code, message) ↦ some (s, reject_queue_command opts command code message now)
    | none ↦ dispatch_command (remember command s) command now
  ]

  -- The work that a message asks for, and the records of its admission.
  unfoldable pub admitted_id : MessageEnvelope (WorkQueueSubmit T) → String
  admitted_id m =
      unwrap_or m.payload.work_id
        (compound_tuple_key host "work-queue-work" (opts.queue_id ∷ m.topic ∷ host.show m.seq ∷ []))

  abbrev pub bus_ref : MessageEnvelope (WorkQueueSubmit T) → WorkQueueMessageBusRef
  bus_ref m = record { topic = m.topic; seq = m.seq; subscription_id = opts.subscription_id }

  unfoldable pub admitted_work : MessageEnvelope (WorkQueueSubmit T) → ℕ → WorkState T
  admitted_work m now =
      let submit = m.payload in
      record {
        work_id = admitted_id m;
        payload = submit.payload;
        state =
            if is_some_and submit.not_before_ms (λ t. ltb now t)
            then WorkQueueDerivedState.scheduled
            else WorkQueueDerivedState.ready;
        admission_seq = m.seq;
        priority = submit.priority;
        tags = submit.tags;
        requirements = submit.requirements;
        not_before_ms = submit.not_before_ms;
        retry_at_ms = none;
        deadline_ms = submit.deadline_ms;
        attempt = 0;
        lease_id = none;
        worker_id = none;
        lease_expires_at_ms = none;
      }

  unfoldable pub admit_new :
      RuntimeState T
      → MessageEnvelope (WorkQueueSubmit T)
      → ℕ
      → RuntimeState T × List (QueueEvent T)
  admit_new s m now =
      let submit = m.payload in
      let id = admitted_id m in
      let appended = append_record (put_work host id (admitted_work m now) s) (
        WorkQueueRecord.work_admitted 0 opts.queue_id id submit.payload (bus_ref m) submit.priority
          submit.tags submit.requirements submit.not_before_ms submit.deadline_ms now) in
      (
        appended.0,
        QueueEvent.recorded appended.1
            ∷ status_event opts WorkQueueStatusKind.admission_accepted now
                (record no_fields { work_id = some id; record_seq = some (record_seq appended.1) })
            ∷ [],
      )

  unfoldable pub admit_duplicate :
      RuntimeState T
      → MessageEnvelope (WorkQueueSubmit T)
      → ℕ
      → RuntimeState T × List (QueueEvent T)
  admit_duplicate s m now =
      let id = admitted_id m in
      let appended = append_record s (
        WorkQueueRecord.admission_deduped 0 opts.queue_id id (bus_ref m) "duplicate-work" id now) in
      (
        appended.0,
        QueueEvent.recorded appended.1
            ∷ status_event opts WorkQueueStatusKind.admission_rejected now (record no_fields {
              work_id = some id;
              record_seq = some (record_seq appended.1);
              issue_code = some "duplicate-work";
            })
            ∷ [],
      )

  unfoldable pub admit_message :
      RuntimeState T
      → MessageEnvelope (WorkQueueSubmit T)
      → ℕ
      → RuntimeState T × List (QueueEvent T)
  admit_message s m now =
      let source = canonical_tuple_key host (m.topic ∷ host.show m.seq ∷ []) in
      let seen = record s { source_seqs = source ∷ s.source_seqs } in
      if contains source s.source_seqs
      then (s, [])
      else if is_some (find_work host (admitted_id m) seen)
      then admit_duplicate seen m now
      else admit_new seen m now

  -- The runtime node: the messages of a batch, then its commands, each with the time that the clock
  -- gives for it; a reading that panics gives 0.
  unfoldable pub admit_all :
      List (MessageEnvelope (WorkQueueSubmit T) × ℕ)
      → RuntimeState T
      → RuntimeState T × List (QueueEvent T)
  admit_all [] s = (s, [])
  admit_all ((m, clock) ∷ ms) s =
      let one = admit_message s m clock in
      let rest = admit_all ms one.0 in (rest.0, one.1 ++ rest.1)

  abbrev pub then_next :
      (RuntimeState T → Option (RuntimeState T × List (QueueEvent T)))
      → Option (RuntimeState T × List (QueueEvent T))
      → Option (RuntimeState T × List (QueueEvent T))
  then_next k none = none
  then_next k (some (s, es)) = after_events es (k s)

  unfoldable pub reduce_all :
      List (WorkQueueCommand T × ℕ) → RuntimeState T → Option (RuntimeState T × List (QueueEvent T))
  reduce_all [] s = some (s, [])
  reduce_all ((c, clock) ∷ cs) s =
      then_next (reduce_all cs) (reduce_queue_command s c (unwrap_or (command_now_ms c) clock))

  unfoldable pub run_batch :
      List (MessageEnvelope (WorkQueueSubmit T) × ℕ)
      → List (WorkQueueCommand T × ℕ)
      → RuntimeState T
      → Option (RuntimeState T × List (QueueEvent T))
  run_batch messages commands s =
      let admitted = admit_all messages s in
      after_events admitted.1 (reduce_all commands admitted.0)
