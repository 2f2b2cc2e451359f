-- ===== src/WorkQueue/Outcome.antt =====
-- What it is for a handler of crates/graphrefly/src/work_queue.rs to keep the contract: it returns, and
-- its effect is a run.
use graphrefly_rs.Prelude.{
  ℕ, ◌+◌, ◌≡◌, refl, ◌⊎◌, inl, Bool, true, false, not, Option, some, List, String, leb, u64_max,
}
use graphrefly_rs.WorkQueue.Commands.{WorkQueueCommand}
use graphrefly_rs.WorkQueue.Events.{QueueEvent, RuntimeOptions, reject_queue_command_by_id}
use graphrefly_rs.WorkQueue.State.{Host, RuntimeState}
use graphrefly_rs.WorkQueue.Leases.{unwrap_or}
use graphrefly_rs.WorkQueue.Trace.{Run, done, told}

module _ {ℓ} {T : Type ℓ} where
  -- A claim whose lease would end after the last timestamp.
  abbrev pub claim_overflows : RuntimeOptions → WorkQueueCommand T → ℕ → Bool
  claim_overflows opts (WorkQueueCommand.claim c q k worker ids limit duration at) now =
      not (leb (now + unwrap_or duration opts.lease_duration_ms) u64_max)
  claim_overflows opts _ now = false

  -- The handler returned this state and these events; `logged` are the events of its run, which it
  -- sends unless a claim overflows.
  pub record Outcome (host : Host) (opts : RuntimeOptions) (c : WorkQueueCommand T) (now : ℕ)
      (s : RuntimeState T) (o : Option (RuntimeState T × List (QueueEvent T))) : Type ℓ where
    pub left : RuntimeState T
    pub sent : List (QueueEvent T)
    pub logged : List (QueueEvent T)
    pub result : o ≡ some (left, sent)
    pub run : Run host c now s logged left
    pub faithful : (sent ≡ logged) ⊎ (claim_overflows opts c now ≡ true)

  module _ {host : Host} {opts : RuntimeOptions} {c : WorkQueueCommand T} {now : ℕ}
      {s : RuntimeState T} where
    -- A run whose events are all sent.
    pub runs :
        {o : Option (RuntimeState T × List (QueueEvent T))} {t : RuntimeState T}
        {es : List (QueueEvent T)}
        → o ≡ some (t, es)
        → Run host c now s es t
        → Outcome host opts c now s o
    runs {o} {t} {es} result run = record {
      left = t;
      sent = es;
      logged = es;
      result = result;
      run = run;
      faithful = inl refl;
    }

  pub rejected-Run :
      {host : Host} {c : WorkQueueCommand T} {now : ℕ} {s : RuntimeState T} (opts : RuntimeOptions)
      (command : Option String) (code message : String) (at : ℕ)
      → Run host c now s (reject_queue_command_by_id opts command code message at) s
  rejected-Run opts command code message at = told _ refl (told _ refl done)
