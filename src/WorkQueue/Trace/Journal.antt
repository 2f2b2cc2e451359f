-- ===== src/WorkQueue/Trace/Journal.antt =====
-- The journal of a run: the numbers of its records, and its dead letters.
use graphrefly_rs.Prelude.{
  ℕ, ◌+◌, ◌≡◌, sym, ap, ◌∙◌, true, false, List, [], ◌∷◌, ◌++◌, keep, length, length-append,
  keep-snoc_in, keep-snoc_out, append-nil, append_assoc, arith,
}
use graphrefly_rs.WorkQueue.Commands.{WorkQueueCommand}
use graphrefly_rs.WorkQueue.Records.{WorkQueueRecord, record_seq, with_record_seq}
use graphrefly_rs.WorkQueue.Events.{QueueEvent}
use graphrefly_rs.WorkQueue.State.{Host, RuntimeState, append_record}
use graphrefly_rs.WorkQueue.Trace.{
  Run, done, told, wrote, buried, moved, counted, is_dead_letter, journaled, is_record, bury,
}

module _ {ℓ} {T : Type ℓ} where
  -- Records with these numbers in order, from the first one on.
  abbrev pub NumberedFrom : ℕ → List (WorkQueueRecord T) → Type 0
  NumberedFrom n [] = Unit
  NumberedFrom n (r ∷ rs) = (record_seq r ≡ n) × NumberedFrom (n + 1) rs

  -- The journal counts its records from 1, and the dead letters are those among them.
  pub record IsJournal (s : RuntimeState T) : Type ℓ where
    pub counts : s.record_seq ≡ length s.records
    pub numbered : NumberedFrom 1 s.records
    pub dead : s.dead_letters ≡ keep is_dead_letter s.records

  record_seq-with_record_seq :
      (r : WorkQueueRecord T) (n : ℕ) → record_seq (with_record_seq r n) ≡ n
  unfolding record_seq with_record_seq
  record_seq-with_record_seq r n = ground arith

  is_dead_letter-with_record_seq :
      (r : WorkQueueRecord T) (n : ℕ) → is_dead_letter (with_record_seq r n) ≡ is_dead_letter r
  unfolding with_record_seq
  is_dead_letter-with_record_seq r n = ground arith

  NumberedFrom-snoc :
      (n : ℕ) (rs : List (WorkQueueRecord T)) (r : WorkQueueRecord T)
      → NumberedFrom n rs
      → record_seq r ≡ n + length rs
      → NumberedFrom n (rs ++ r ∷ [])
  NumberedFrom-snoc n [] r h e = (omega (arith, e), tt)
  NumberedFrom-snoc n (x ∷ rs) r h e = (h.0, NumberedFrom-snoc (n + 1) rs r h.1 (omega (arith, e)))

  -- One more record.
  append_record-numbered :
      (s : RuntimeState T) (r : WorkQueueRecord T)
      → s.record_seq ≡ length s.records
      → NumberedFrom 1 s.records
      → NumberedFrom 1 (append_record s r).0.records
  append_record-numbered s r counts numbered =
      NumberedFrom-snoc 1 s.records (append_record s r).1 numbered
        (omega (arith, record_seq-with_record_seq r (s.record_seq + 1)))

  pub append_record-IsJournal :
      (s : RuntimeState T) (r : WorkQueueRecord T)
      → is_dead_letter r ≡ false
      → IsJournal s
      → IsJournal (append_record s r).0
  append_record-IsJournal s r h ok = record {
    counts = omega (arith, ok.counts, length-append s.records ((append_record s r).1 ∷ []));
    numbered = append_record-numbered s r ok.counts ok.numbered;
    dead =
        ok.dead
        ∙ sym (
            keep-snoc_out is_dead_letter s.records (append_record s r).1
              (is_dead_letter-with_record_seq r (s.record_seq + 1) ∙ h));
  }

  bury-IsJournal :
      (s : RuntimeState T) (r : WorkQueueRecord T)
      → is_dead_letter r ≡ true
      → IsJournal s
      → IsJournal (bury s r)
  bury-IsJournal s r h ok = record {
    counts = omega (arith, ok.counts, length-append s.records ((append_record s r).1 ∷ []));
    numbered = append_record-numbered s r ok.counts ok.numbered;
    dead =
        ap (λ ds. ds ++ (append_record s r).1 ∷ []) ok.dead
        ∙ sym (
            keep-snoc_in is_dead_letter s.records (append_record s r).1
              (is_dead_letter-with_record_seq r (s.record_seq + 1) ∙ h));
  }

  pub Run-IsJournal :
      {host : Host} {c : WorkQueueCommand T} {now : ℕ} {s t : RuntimeState T}
      {es : List (QueueEvent T)}
      → Run host c now s es t
      → IsJournal s
      → IsJournal t
  Run-IsJournal done ok = ok
  Run-IsJournal (told e h run) ok = Run-IsJournal run ok
  Run-IsJournal (wrote {s} r h run) ok = Run-IsJournal run (append_record-IsJournal s r h ok)
  Run-IsJournal (buried {s} r h run) ok = Run-IsJournal run (bury-IsJournal s r h ok)
  Run-IsJournal (moved key w w' found step run) ok =
      Run-IsJournal run (record { counts = ok.counts; numbered = ok.numbered; dead = ok.dead })
  Run-IsJournal (counted n run) ok =
      Run-IsJournal run (record { counts = ok.counts; numbered = ok.numbered; dead = ok.dead })

  journaled-told :
      (e : QueueEvent T) (es : List (QueueEvent T))
      → is_record e ≡ false
      → journaled (e ∷ es) ≡ journaled es
  journaled-told e es h = ground arith

  -- The records sent are the records appended.
  pub Run-records :
      {host : Host} {c : WorkQueueCommand T} {now : ℕ} {s t : RuntimeState T}
      {es : List (QueueEvent T)}
      → Run host c now s es t
      → t.records ≡ s.records ++ journaled es
  Run-records {s} done = sym (append-nil s.records)
  Run-records {s} (told {es} e h run) =
      Run-records run ∙ ap (λ rs. s.records ++ rs) (sym (journaled-told e es h))
  Run-records {s} (wrote {es} r h run) =
      Run-records run ∙ append_assoc s.records ((append_record s r).1 ∷ []) (journaled es)
  Run-records {s} (buried {es} r h run) =
      Run-records run ∙ append_assoc s.records ((append_record s r).1 ∷ []) (journaled es)
  Run-records (moved key w w' found step run) = Run-records run
  Run-records (counted n run) = Run-records run
