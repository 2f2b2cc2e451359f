-- ===== src/WorkQueue/Reducer/Once.antt =====
-- What a queue remembers: the ids of its commands and the sources of its messages, in
-- `reduce_queue_command` and `admit_message` of crates/graphrefly/src/work_queue.rs.
use graphrefly_rs.Prelude.{
  ℕ, ◌≡◌, refl, sym, ap, ◌∙◌, subst, inl, inr, true, Bool-cases, Option-cases, none, some, List, [],
  ◌∷◌, String, arith, some-injective, none-ne-some,
}
use graphrefly_rs.WorkQueue.Commands.{WorkQueueCommand, WorkQueueSubmit, command_id}
use graphrefly_rs.WorkQueue.Events.{QueueEvent, RuntimeOptions, reject_queue_command}
use graphrefly_rs.WorkQueue.State.{
  Host, RuntimeState, contains, contains-head, find_work, canonical_tuple_key,
}
use graphrefly_rs.WorkQueue.Trace.{Run, done, told, wrote, buried, moved, counted}
use graphrefly_rs.WorkQueue.Reducer.{
  MessageEnvelope, refusal, reduce_queue_command, admitted_id, admit_new, admit_duplicate,
  admit_message,
}
use graphrefly_rs.WorkQueue.Validation.{validate_queue_command}
use graphrefly_rs.WorkQueue.Reducer.Admission.{admit_message-Admits}
use graphrefly_rs.WorkQueue.Reducer.Promises.{IsQueue, reduced-to}
use graphrefly_rs.WorkQueue.Reducer.Refines.{
  Reduces, refused, reduced, reduce_queue_command-Reduces,
}

contains-tail :
    (x y : String) (ys : List String) → contains x ys ≡ true → contains x (y ∷ ys) ≡ true
contains-tail x y ys h = ground arith

module _ {ℓ} {T : Type ℓ} where
  Run-command_ids :
      {host : Host} {c : WorkQueueCommand T} {now : ℕ} {s t : RuntimeState T}
      {es : List (QueueEvent T)}
      → Run host c now s es t
      → t.command_ids ≡ s.command_ids
  Run-command_ids done = refl
  Run-command_ids (told e h run) = Run-command_ids run
  Run-command_ids (wrote r h run) = Run-command_ids run
  Run-command_ids (buried r h run) = Run-command_ids run
  Run-command_ids (moved key w w' found step run) = Run-command_ids run
  Run-command_ids (counted n run) = Run-command_ids run

  Run-source_seqs :
      {host : Host} {c : WorkQueueCommand T} {now : ℕ} {s t : RuntimeState T}
      {es : List (QueueEvent T)}
      → Run host c now s es t
      → t.source_seqs ≡ s.source_seqs
  Run-source_seqs done = refl
  Run-source_seqs (told e h run) = Run-source_seqs run
  Run-source_seqs (wrote r h run) = Run-source_seqs run
  Run-source_seqs (buried r h run) = Run-source_seqs run
  Run-source_seqs (moved key w w' found step run) = Run-source_seqs run
  Run-source_seqs (counted n run) = Run-source_seqs run

  -- Every id and every source that one state remembers, the other does.
  record Remembers (s t : RuntimeState T) : Type ℓ where
    commands : (id : String) → contains id s.command_ids ≡ true → contains id t.command_ids ≡ true
    sources :
        (source : String)
        → contains source s.source_seqs ≡ true
        → contains source t.source_seqs ≡ true

module _ {ℓ} {T : Type ℓ} (host : Host) (opts : RuntimeOptions) where
  -- Commands and messages that come one after the other, in any order.
  pub data Later : RuntimeState T → RuntimeState T → Type ℓ where
    at_once : {s : RuntimeState T} → Later s s
    after_command :
        {s t u : RuntimeState T} (c : WorkQueueCommand T) (now : ℕ) (es : List (QueueEvent T))
        → reduce_queue_command host opts s c now ≡ some (t, es)
        → Later t u
        → Later s u
    after_message :
        {s u : RuntimeState T} (m : MessageEnvelope (WorkQueueSubmit T)) (now : ℕ)
        → Later (admit_message host opts s m now).0 u
        → Later s u

  command-Remembers :
      (c : WorkQueueCommand T) (now : ℕ) (s t : RuntimeState T) (es : List (QueueEvent T))
      → reduce_queue_command host opts s c now ≡ some (t, es)
      → Reduces host opts c now s
      → Remembers s t
  command-Remembers c now s t es e (refused code message h r) =
      subst (Remembers s) (ap (λ x. x.0) (some-injective _ (t, es) (sym r ∙ e)))
        (record { commands = λ id seen. seen; sources = λ source seen. seen })
  command-Remembers c now s t es e (reduced h out) =
      subst (Remembers s)
        (ap (λ x. x.0) (some-injective (out.left, out.sent) (t, es) (sym out.result ∙ e)))
        (record {
          commands = λ id seen.
              subst (λ ids. contains id ids ≡ true) (sym (Run-command_ids out.run))
                (contains-tail id (command_id c) s.command_ids seen);
          sources = λ source seen.
              subst (λ xs. contains source xs ≡ true) (sym (Run-source_seqs out.run)) seen;
        })

  message-Remembers :
      (s : RuntimeState T) (m : MessageEnvelope (WorkQueueSubmit T)) (now : ℕ)
      → Remembers s (admit_message host opts s m now).0
  unfolding admit_message admit_new admit_duplicate
  message-Remembers s m now =
      let source = canonical_tuple_key host (m.topic ∷ host.show m.seq ∷ []) in
      elim (Bool-cases (contains source s.source_seqs)) [
        | inl again ↦
            rw (again, admit_message)
              (record { commands = λ id seen. seen; sources = λ x seen. seen })
        | inr first ↦ elim (Option-cases (find_work host (admitted_id host opts m) s)) [
          | inl free ↦
              rw (first, free, admit_message)
                (record {
                  commands = λ id seen. seen;
                  sources = λ x. contains-tail x source s.source_seqs;
                })
          | inr (w, taken) ↦
              rw (first, taken, admit_message)
                (record {
                  commands = λ id seen. seen;
                  sources = λ x. contains-tail x source s.source_seqs;
                })
        ]
      ]

  message-IsQueue :
      (s : RuntimeState T) (m : MessageEnvelope (WorkQueueSubmit T)) (now : ℕ)
      → IsQueue host s
      → IsQueue host (admit_message host opts s m now).0
  message-IsQueue s m now ok =
      let admits = admit_message-Admits host opts s m now in
      record { works = admits.works ok.works; journal = admits.journal ok.journal }

  Later-Remembers : {s t : RuntimeState T} → IsQueue host s → Later s t → Remembers s t
  Later-Remembers queue at_once = record { commands = λ id seen. seen; sources = λ x seen. seen }
  Later-Remembers {s} queue (after_command {t = t} c now es e later) =
      let one =
        command-Remembers c now s t es e
          (reduce_queue_command-Reduces host opts c s now queue.works) in
      let rest = Later-Remembers (reduced-to host opts c s t es now "" queue e).0 later in
      record {
        commands = λ id seen. rest.commands id (one.commands id seen);
        sources = λ x seen. rest.sources x (one.sources x seen);
      }
  Later-Remembers {s} queue (after_message m now later) =
      let one = message-Remembers s m now in
      let rest = Later-Remembers (message-IsQueue s m now queue) later in
      record {
        commands = λ id seen. rest.commands id (one.commands id seen);
        sources = λ x seen. rest.sources x (one.sources x seen);
      }

  refusal-seen :
      (s : RuntimeState T) (command : WorkQueueCommand T)
      → contains (command_id command) s.command_ids ≡ true
      → (error : String × String) × (refusal host opts s command ≡ some error)
  unfolding refusal
  refusal-seen s command seen = elim (Option-cases (validate_queue_command opts.queue_id command)) [
    | inl valid ↦ (("duplicate-command", "duplicate commandId"), rw (valid, seen, refusal) refl)
    | inr (error, e) ↦ (error, rw (e, refusal) refl)
  ]

  refused-reduce :
      (s : RuntimeState T) (command : WorkQueueCommand T) (now : ℕ) (error : String × String)
      → refusal host opts s command ≡ some error
      → reduce_queue_command host opts s command now
        ≡ some (s, reject_queue_command opts command error.0 error.1 now)
  unfolding reduce_queue_command
  refused-reduce s command now error h = rw (h, reduce_queue_command) refl

  -- After a command that a queue in order did not refuse, and after any further commands and
  -- messages, every command with its id is refused and changes nothing.
  pub command_id_once :
      (command again : WorkQueueCommand T) (s t u : RuntimeState T) (es : List (QueueEvent T))
      (now later : ℕ)
      → IsQueue host s
      → refusal host opts s command ≡ none
      → reduce_queue_command host opts s command now ≡ some (t, es)
      → Later t u
      → command_id again ≡ command_id command
      → (error : String × String) × (reduce_queue_command host opts u again later
          ≡ some (u, reject_queue_command opts again error.0 error.1 later))
  command_id_once command again s t u es now later queue fresh e since same =
      let known = seen (reduce_queue_command-Reduces host opts command s now queue.works) in
      let kept = Later-Remembers (reduced-to host opts command s t es now "" queue e).0 since in
      let (error, h) = refusal-seen u again (kept.commands (command_id again) known) in
      (error, refused-reduce u again later error h)
    where
      seen : Reduces host opts command now s → contains (command_id again) t.command_ids ≡ true
      seen (refused code message h r) = absurd (none-ne-some _ (sym fresh ∙ h))
      seen (reduced h out) =
          subst (λ ids. contains (command_id again) ids ≡ true)
            (sym (Run-command_ids out.run)
              ∙ ap (λ x. x.0.command_ids)
                  (some-injective (out.left, out.sent) (t, es) (sym out.result ∙ e)))
            (subst (λ x. contains (command_id again) (x ∷ s.command_ids) ≡ true) same
              (contains-head (command_id again) s.command_ids))

  again-ignored :
      (s : RuntimeState T) (m : MessageEnvelope (WorkQueueSubmit T)) (later : ℕ)
      → contains (canonical_tuple_key host (m.topic ∷ host.show m.seq ∷ [])) s.source_seqs ≡ true
      → admit_message host opts s m later ≡ (s, [])
  unfolding admit_message
  again-ignored s m later h = rw (h, admit_message) refl

  remembers-source :
      (s : RuntimeState T) (m : MessageEnvelope (WorkQueueSubmit T)) (now : ℕ)
      → contains
          (canonical_tuple_key host (m.topic ∷ host.show m.seq ∷ []))
          (admit_message host opts s m now).0.source_seqs
        ≡ true
  unfolding admit_message admit_new admit_duplicate
  remembers-source s m now =
      let source = canonical_tuple_key host (m.topic ∷ host.show m.seq ∷ []) in
      elim (Bool-cases (contains source s.source_seqs)) [
        | inl again ↦ rw (again, admit_message) again
        | inr first ↦ elim (Option-cases (find_work host (admitted_id host opts m) s)) [
          | inl free ↦ rw (first, free, admit_message) (contains-head source s.source_seqs)
          | inr (w, taken) ↦ rw (first, taken, admit_message) (contains-head source s.source_seqs)
        ]
      ]

  -- A message that comes again, to a queue in order that has handled it and then any further commands
  -- and messages, at any time, changes nothing and sends nothing.
  pub admitted_once :
      (s u : RuntimeState T) (m : MessageEnvelope (WorkQueueSubmit T)) (now later : ℕ)
      → IsQueue host s
      → Later (admit_message host opts s m now).0 u
      → admit_message host opts u m later ≡ (u, [])
  admitted_once s u m now later queue since =
      let kept = Later-Remembers (message-IsQueue s m now queue) since in
      again-ignored u m later (kept.sources _ (remembers-source s m now))
