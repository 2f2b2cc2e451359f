-- ===== src/WorkQueue/Reducer/Admission.antt =====
-- Admission of messages, `admit_message` of crates/graphrefly/src/work_queue.rs: what it keeps.
use graphrefly_rs.Prelude.{
  ℕ, ◌≡◌, refl, sym, ap, ◌∙◌, inl, inr, Bool-cases, Option-cases, none, some, List, [], ◌∷◌, String,
  ltb, none-ne-some,
}
use graphrefly_rs.Collections.Maps.Laws.{find_row-other}
use graphrefly_rs.WorkQueue.Commands.{WorkQueueSubmit, is_some_and}
use graphrefly_rs.WorkQueue.Events.{RuntimeOptions}
use graphrefly_rs.WorkQueue.State.{
  Host, WorkState, RuntimeState, find_work, put_work, is_leased, contains, canonical_tuple_key,
}
use graphrefly_rs.WorkQueue.Reducer.{
  MessageEnvelope, admitted_id, admitted_work, admit_new, admit_duplicate, admit_message,
}
use graphrefly_rs.WorkQueue.Contract.{IsCoherent}
use graphrefly_rs.WorkQueue.Trace.Journal.{IsJournal, append_record-IsJournal}
use graphrefly_rs.WorkQueue.Trace.Works.{AreWorks, put_work-AreWorks}

module _ {ℓ} {T : Type ℓ} (host : Host) (opts : RuntimeOptions) where
  admitted_work-IsCoherent :
      (m : MessageEnvelope (WorkQueueSubmit T)) (now : ℕ)
      → IsCoherent (admitted_work host opts m now)
  unfolding admitted_work is_leased
  admitted_work-IsCoherent m now =
      elim (Bool-cases (is_some_and m.payload.not_before_ms (λ t. ltb now t))) [
        | inl later ↦
            rw (later, admitted_work) (record { lease = refl; worker = refl; expiry = refl })
        | inr soon ↦
            rw (soon, admitted_work) (record { lease = refl; worker = refl; expiry = refl })
      ]

  admitted_work-work_id :
      (m : MessageEnvelope (WorkQueueSubmit T)) (now : ℕ)
      → (admitted_work host opts m now).work_id ≡ admitted_id host opts m
  unfolding admitted_work
  admitted_work-work_id m now = refl

  -- What an admission keeps.
  pub record Admits (s t : RuntimeState T) : Type ℓ where
    pub works : AreWorks host s → AreWorks host t
    pub journal : IsJournal s → IsJournal t
    pub keeps :
        (key : String) (w : WorkState T)
        → find_work host key s ≡ some w
        → find_work host key t ≡ some w

  admit_new-Admits :
      (s : RuntimeState T) (m : MessageEnvelope (WorkQueueSubmit T)) (now : ℕ)
      → find_work host (admitted_id host opts m) s ≡ none
      → Admits s (admit_new host opts s m now).0
  unfolding admit_new
  admit_new-Admits s m now free = record {
    works = λ ok.
        let written =
          put_work-AreWorks host (admitted_id host opts m) (admitted_work host opts m now) s
            (admitted_work-work_id m now, admitted_work-IsCoherent m now) ok in
        record { sorted = written.sorted; coherent = written.coherent };
    journal = λ ok.
        append_record-IsJournal
          (put_work host (admitted_id host opts m) (admitted_work host opts m now) s) _ refl
          (record { counts = ok.counts; numbered = ok.numbered; dead = ok.dead });
    keeps = λ key w found.
        find_row-other host.order key _ _ s.works (λ e.
          none-ne-some w
            (sym free ∙ ap (λ x. find_work host x s) (sym (host.order.cmp_eq key _ e)) ∙ found))
        ∙ found;
  }

  admit_duplicate-Admits :
      (s : RuntimeState T) (m : MessageEnvelope (WorkQueueSubmit T)) (now : ℕ)
      → Admits s (admit_duplicate host opts s m now).0
  unfolding admit_duplicate
  admit_duplicate-Admits s m now = record {
    works = λ ok. record { sorted = ok.sorted; coherent = ok.coherent };
    journal = λ ok. append_record-IsJournal s _ refl ok;
    keeps = λ key w found. found;
  }

  pub admit_message-Admits :
      (s : RuntimeState T) (m : MessageEnvelope (WorkQueueSubmit T)) (now : ℕ)
      → Admits s (admit_message host opts s m now).0
  unfolding admit_message
  admit_message-Admits s m now =
      elim (Bool-cases
        (contains (canonical_tuple_key host (m.topic ∷ host.show m.seq ∷ [])) s.source_seqs)) [
          | inl again ↦ rw (again, admit_message) (same s)
          | inr first ↦ elim (Option-cases (find_work host (admitted_id host opts m) s)) [
            | inl free ↦ rw (first, free, admit_message) (seen s _ (admit_new-Admits _ m now free))
            | inr (w, taken) ↦
                rw (first, taken, admit_message) (seen s _ (admit_duplicate-Admits _ m now))
          ]
        ]
    where
      same : (u : RuntimeState T) → Admits u u
      same u = record { works = λ ok. ok; journal = λ ok. ok; keeps = λ key w found. found }

      -- Remembering the source of the message first makes no difference.
      seen :
          (u t : RuntimeState T) {sources : List String}
          → Admits (record u { source_seqs = sources }) t
          → Admits u t
      seen u t h = record {
        works = λ ok. h.works (record { sorted = ok.sorted; coherent = ok.coherent });
        journal =
            λ ok. h.journal (record { counts = ok.counts; numbered = ok.numbered; dead = ok.dead });
        keeps = h.keeps;
      }
