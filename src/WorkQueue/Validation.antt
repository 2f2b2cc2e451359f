-- ===== src/WorkQueue/Validation.antt =====
-- The validation of commands: `validate_queue_command` of crates/graphrefly/src/work_queue.rs.
use graphrefly_rs.Prelude.{
  ℕ, ◌==◌, Bool, not, ◌||◌, Option, none, some, String, str_eq, any, if◌then◌else◌,
}
use graphrefly_rs.WorkQueue.Commands.{WorkQueueCommand, command_id, queue_id, is_blank, is_some_and}

abbrev pub is_zero : ℕ → Bool
is_zero n = n == 0

abbrev pub malformed : Bool → String → Option (String × String)
malformed b message = if b then some ("malformed-command", message) else none

abbrev pub malformed_lease : String → String → ℕ → String → Bool
malformed_lease id lease n worker = is_blank id || is_blank lease || is_blank worker || is_zero n

module _ {ℓ} {T : Type ℓ} where
  -- The part of the validation that depends on the variant.
  unfoldable pub validate_fields : WorkQueueCommand T → Option (String × String)
  validate_fields (WorkQueueCommand.claim c q k worker ids limit duration now) =
      if is_blank worker
      then some ("malformed-command", "claim workerId is required")
      else malformed (is_some_and limit is_zero || is_some_and duration is_zero || any is_blank ids)
          "claim options are malformed"
  validate_fields (WorkQueueCommand.renew c q k id lease n worker duration expires now) =
      malformed (malformed_lease id lease n worker || is_some_and duration is_zero)
        "lease command is malformed"
  validate_fields (WorkQueueCommand.release c q k id lease n worker reason now) =
      malformed (malformed_lease id lease n worker) "lease command is malformed"
  validate_fields (WorkQueueCommand.complete c q k id lease n worker result now) =
      malformed (malformed_lease id lease n worker) "lease command is malformed"
  validate_fields (WorkQueueCommand.fail c q k id lease n worker error retryable now) =
      malformed (malformed_lease id lease n worker) "lease command is malformed"
  validate_fields (WorkQueueCommand.cancel c q k id reason now) =
      malformed (is_blank id) "workId must be non-empty"
  validate_fields (WorkQueueCommand.schedule c q k id plan start deadline reason now) =
      malformed (is_blank id) "workId must be non-empty"
  validate_fields (WorkQueueCommand.expire c q k ids limit now) =
      malformed (is_some_and limit is_zero || any is_blank ids)
        "expire-leases options are malformed"
  validate_fields (WorkQueueCommand.submit payload c q k) = none

  unfoldable pub validate_queue_command : String → WorkQueueCommand T → Option (String × String)
  validate_queue_command queue command =
      if is_blank (command_id command)
      then some ("malformed-command", "commandId must be non-empty")
      else if is_some_and (queue_id command) (λ id. not (str_eq id queue))
      then some ("queue-mismatch", "command queueId does not match this queue")
      else validate_fields command
