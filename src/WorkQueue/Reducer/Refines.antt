-- ===== src/WorkQueue/Reducer/Refines.antt =====
-- `reduce_queue_command` and the contract.
use graphrefly_rs.Prelude.{
  ℕ, ◌≡◌, refl, inl, inr, false, Option-cases, Option, none, some, List, String, arith,
}
use graphrefly_rs.WorkQueue.Commands.{WorkQueueCommand, is_some_and}
use graphrefly_rs.WorkQueue.Events.{RuntimeOptions, reject_queue_command}
use graphrefly_rs.WorkQueue.State.{Host, RuntimeState}
use graphrefly_rs.WorkQueue.Workers.Runs.{
  release_work-Outcome, complete_work-Outcome, renew_lease-Outcome, fail_work-Outcome,
  cancel_work-Outcome, schedule_work-Outcome,
}
use graphrefly_rs.WorkQueue.Claims.Outcomes.{claim_work-Outcome, expire_leases-Outcome}
use graphrefly_rs.WorkQueue.Reducer.{refusal, remember, dispatch_command, reduce_queue_command}
use graphrefly_rs.WorkQueue.Validation.{is_zero, validate_fields, validate_queue_command}
use graphrefly_rs.WorkQueue.Trace.{done, told}
use graphrefly_rs.WorkQueue.Trace.Works.{AreWorks}
use graphrefly_rs.WorkQueue.Outcome.{Outcome, runs}

claim_limit-valid {ℓ} :
    (T : Type ℓ) (c : String) (q k : Option String) (worker : String) (ids : List String)
    (bound duration at : Option ℕ)
    → validate_fields {T = T} (WorkQueueCommand.claim c q k worker ids bound duration at) ≡ none
    → is_some_and bound is_zero ≡ false
unfolding validate_fields
claim_limit-valid T c q k worker ids bound duration at h = ground arith

expire_limit-valid {ℓ} :
    (T : Type ℓ) (c : String) (q k : Option String) (ids : List String) (bound at : Option ℕ)
    → validate_fields {T = T} (WorkQueueCommand.expire c q k ids bound at) ≡ none
    → is_some_and bound is_zero ≡ false
unfolding validate_fields
expire_limit-valid T c q k ids bound at h = ground arith

module _ {ℓ} {T : Type ℓ} (host : Host) (opts : RuntimeOptions) where
  dispatch_command-Outcome :
      (command : WorkQueueCommand T) (s : RuntimeState T) (now : ℕ)
      → validate_fields command ≡ none
      → AreWorks host s
      → Outcome host opts command now s (dispatch_command host opts s command now)
  unfolding dispatch_command
  dispatch_command-Outcome (WorkQueueCommand.submit payload c q k) s now valid works =
      runs refl (told _ refl done)
  dispatch_command-Outcome (WorkQueueCommand.claim c q k w ids b d t) s now valid works =
      claim_work-Outcome host opts c q k w ids b d t s now
        (claim_limit-valid T c q k w ids b d t valid) works
  dispatch_command-Outcome (WorkQueueCommand.renew c q k i l n w d e t) s now valid works =
      renew_lease-Outcome host opts c q k i l n w d e t s now works
  dispatch_command-Outcome (WorkQueueCommand.release c q k i l n w r t) s now valid works =
      release_work-Outcome host opts c q k i l n w r t s now works
  dispatch_command-Outcome (WorkQueueCommand.complete c q k i l n w r t) s now valid works =
      complete_work-Outcome host opts c q k i l n w r t s now works
  dispatch_command-Outcome (WorkQueueCommand.fail c q k i l n w e r t) s now valid works =
      fail_work-Outcome host opts c q k i l n w e r t s now works
  dispatch_command-Outcome (WorkQueueCommand.cancel c q k i r t) s now valid works =
      cancel_work-Outcome host opts c q k i r t s now works
  dispatch_command-Outcome (WorkQueueCommand.schedule c q k i p b d r t) s now valid works =
      schedule_work-Outcome host opts c q k i p b d r t s now works
  dispatch_command-Outcome (WorkQueueCommand.expire c q k ids b t) s now valid works =
      expire_leases-Outcome host opts c q k ids b t s now (expire_limit-valid T c q k ids b t valid)
        works

  -- A command that is not refused has fields that are valid.
  refusal-none :
      (s : RuntimeState T) (command : WorkQueueCommand T)
      → refusal host opts s command ≡ none
      → validate_fields command ≡ none
  unfolding refusal validate_queue_command
  refusal-none s command h = ground arith

  -- What `reduce_queue_command` does: it refuses and changes nothing, or it remembers the command and
  -- keeps the contract.
  pub data Reduces (command : WorkQueueCommand T) (now : ℕ) (s : RuntimeState T) : Type ℓ where
    refused :
        (code message : String)
        → refusal host opts s command ≡ some (code, message)
        → reduce_queue_command host opts s command now
          ≡ some (s, reject_queue_command opts command code message now)
        → Reduces command now s
    reduced :
        refusal host opts s command ≡ none
        → Outcome host opts command now
            (remember command s)
            (reduce_queue_command host opts s command now)
        → Reduces command now s

  pub reduce_queue_command-Reduces :
      (command : WorkQueueCommand T) (s : RuntimeState T) (now : ℕ)
      → AreWorks host s
      → Reduces command now s
  unfolding reduce_queue_command
  reduce_queue_command-Reduces command s now works =
      elim (Option-cases (refusal host opts s command)) [
        | inr ((code, message), e) ↦ refused code message e (rw (e, reduce_queue_command) refl)
        | inl e ↦ reduced e (
            rw (e, reduce_queue_command)
              (dispatch_command-Outcome command (remember command s) now (refusal-none s command e)
                (record { sorted = works.sorted; coherent = works.coherent })))
      ]
