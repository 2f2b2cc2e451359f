-- ===== src/WorkQueue/Events.antt =====
-- What the reducer of crates/graphrefly/src/work_queue.rs sends out: records, statuses, issues; and
-- `DataIssue` of crates/graphrefly/src/messaging.rs.
use Prim.Native.String.{◌++◌ as str_append}
use graphrefly_rs.Prelude.{
  ℕ, ◌+◌, ◌⊎◌, inl, inr, Option, none, some, List, [], ◌∷◌, String, leb, if◌then◌else◌, u64_max,
}
use graphrefly_rs.Resilience.Retry.{RetryPolicy}
use graphrefly_rs.WorkQueue.Commands.{WorkQueueCommand, command_id}
use graphrefly_rs.WorkQueue.Records.{WorkQueueRecord, record_seq}

pub data WorkQueueStatusKind : Type 0 where
  command_accepted command_rejected admission_accepted admission_rejected : WorkQueueStatusKind
  projection_ready projection_partial maintenance_applied maintenance_noop : WorkQueueStatusKind
  policy_warning : WorkQueueStatusKind

pub record WorkQueueStatus : Type 0 where
  pub kind : WorkQueueStatusKind
  pub queue_id : String
  pub work_id : Option String
  pub command_id : Option String
  pub record_seq : Option ℕ
  pub as_of_record_seq : Option ℕ
  pub issue_code : Option String
  pub timestamp_ms : ℕ
  pub details : Option String

pub record DataIssue : Type 0 where
  pub kind : String
  pub code : String
  pub message : String
  pub severity : String
  pub source : String
  pub topic : Option String
  pub details : Option String

pub data QueueEvent {ℓ} (T : Type ℓ) : Type ℓ where
  recorded : WorkQueueRecord T → QueueEvent T
  status : WorkQueueStatus → QueueEvent T
  issue : DataIssue → QueueEvent T

-- The clock `now` is read by the caller, which passes the time on.
pub record RuntimeOptions : Type 0 where
  pub queue_id : String
  pub subscription_id : String
  pub lease_duration_ms : ℕ
  pub retry : RetryPolicy

pub record StatusFields : Type 0 where
  pub work_id : Option String
  pub command_id : Option String
  pub record_seq : Option ℕ
  pub as_of_record_seq : Option ℕ
  pub issue_code : Option String
  pub details : Option String

-- `StatusFields::default()`.
abbrev pub no_fields : StatusFields
no_fields = record {
  work_id = none;
  command_id = none;
  record_seq = none;
  as_of_record_seq = none;
  issue_code = none;
  details = none;
}

module _ {ℓ} {T : Type ℓ} where
  abbrev pub status_event : RuntimeOptions → WorkQueueStatusKind → ℕ → StatusFields → QueueEvent T
  status_event opts kind timestamp_ms fields = QueueEvent.status (record {
    kind = kind;
    queue_id = opts.queue_id;
    work_id = fields.work_id;
    command_id = fields.command_id;
    record_seq = fields.record_seq;
    as_of_record_seq = fields.as_of_record_seq;
    issue_code = fields.issue_code;
    timestamp_ms = timestamp_ms;
    details = fields.details;
  })

  abbrev pub reject_queue_command_by_id :
      RuntimeOptions → Option String → String → String → ℕ → List (QueueEvent T)
  reject_queue_command_by_id opts command code message now =
      QueueEvent.issue (record {
        kind = "issue";
        code = code;
        message = message;
        severity = "error";
        source = "workQueue";
        topic = none;
        details = some (str_append "queueId=" opts.queue_id);
      })
      ∷ status_event opts WorkQueueStatusKind.command_rejected now
          (record no_fields { command_id = command; issue_code = some code })
      ∷ []

  abbrev pub reject_queue_command :
      RuntimeOptions → WorkQueueCommand T → String → String → ℕ → List (QueueEvent T)
  reject_queue_command opts command code message now =
      reject_queue_command_by_id opts (some (command_id command)) code message now

  abbrev pub accepted :
      RuntimeOptions → WorkQueueRecord T → Option String → Option String → ℕ → List (QueueEvent T)
  accepted opts r work command now =
      QueueEvent.recorded r
      ∷ status_event opts WorkQueueStatusKind.command_accepted now (record no_fields {
        work_id = work;
        command_id = command;
        record_seq = some (record_seq r);
      })
      ∷ []

  -- `Ok` is `inl`, and `Err` with its events `inr`.
  unfoldable pub checked_timestamp :
      RuntimeOptions → Option String → ℕ → ℕ → String → ℕ ⊎ List (QueueEvent T)
  checked_timestamp opts command now delta message =
      if leb (now + delta) u64_max
      then inl (now + delta)
      else inr (reject_queue_command_by_id opts command "clock-overflow" message now)
