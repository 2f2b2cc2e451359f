-- ===== src/WorkQueue/Reducer/Journaling.antt =====
-- The journal and what is sent to the records node.
use graphrefly_rs.Prelude.{
  ℕ, ◌≡◌, sym, ap, ◌∙◌, subst, inl, inr, false, Option, some, List, ◌++◌, some-injective,
  append-nil, true-ne-false,
}
use graphrefly_rs.WorkQueue.Commands.{WorkQueueCommand}
use graphrefly_rs.WorkQueue.Events.{QueueEvent, RuntimeOptions}
use graphrefly_rs.WorkQueue.State.{Host, RuntimeState}
use graphrefly_rs.WorkQueue.Trace.{journaled}
use graphrefly_rs.WorkQueue.Trace.Journal.{Run-records}
use graphrefly_rs.WorkQueue.Outcome.{claim_overflows}
use graphrefly_rs.WorkQueue.Reducer.{reduce_queue_command}
use graphrefly_rs.WorkQueue.Reducer.Refines.{refused, reduced, reduce_queue_command-Reduces}
use graphrefly_rs.WorkQueue.Reducer.Promises.{IsQueue}

module _ {ℓ} {T : Type ℓ} (host : Host) (opts : RuntimeOptions) where
  -- The records that a command sends are the ones it appends to the journal.
  pub sends_journal :
      (command : WorkQueueCommand T) (s t : RuntimeState T) (es : List (QueueEvent T)) (now : ℕ)
      → IsQueue host s
      → claim_overflows opts command now ≡ false
      → reduce_queue_command host opts s command now ≡ some (t, es)
      → t.records ≡ s.records ++ journaled es
  sends_journal command s t es now queue fits e =
      elim (reduce_queue_command-Reduces host opts command s now queue.works) [
        | refused code message h r ↦ sent_records s (sym r ∙ e) (sym (append-nil s.records))
        | reduced fresh out ↦ elim out.faithful [
          | inr over ↦ absurd (true-ne-false (sym over ∙ fits))
          | inl same ↦
              sent_records out.left (sym out.result ∙ e)
                (Run-records out.run ∙ ap (λ fs. s.records ++ journaled fs) (sym same))
        ]
      ]
    where
      sent_records :
          (u : RuntimeState T) {fs : List (QueueEvent T)}
          → ◌≡◌ {A = Option (RuntimeState T × List (QueueEvent T))} (some (u, fs)) (some (t, es))
          → u.records ≡ s.records ++ journaled fs
          → t.records ≡ s.records ++ journaled es
      sent_records u {fs} same h =
          subst (λ x. x.0.records ≡ s.records ++ journaled x.1)
            (some-injective (u, fs) (t, es) same) h
