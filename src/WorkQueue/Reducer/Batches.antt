-- ===== src/WorkQueue/Reducer/Batches.antt =====
-- Whole histories of a work queue: batches of messages and commands from the empty queue.
use graphrefly_rs.Prelude.{
  ℕ, ◌≡◌, refl, sym, ap, ◌∙◌, subst, true, Option, some, List, [], ◌∷◌, ◌++◌, String,
  some-injective, is_some,
}
use graphrefly_rs.WorkQueue.Commands.{WorkQueueCommand, WorkQueueSubmit, command_now_ms}
use graphrefly_rs.WorkQueue.Events.{QueueEvent, RuntimeOptions}
use graphrefly_rs.WorkQueue.State.{
  Host, WorkState, RuntimeState, default_state, find_work, is_terminal, after_events,
}
use graphrefly_rs.WorkQueue.Leases.{unwrap_or}
use graphrefly_rs.WorkQueue.Reducer.{
  MessageEnvelope, admit_message, admit_all, reduce_all, run_batch, reduce_queue_command,
}
use graphrefly_rs.WorkQueue.Reducer.Admission.{admit_message-Admits}
use graphrefly_rs.WorkQueue.Reducer.Promises.{
  IsQueue, Advances-terminal, reduce_queue_command-Refines, reduced-to,
}
use graphrefly_rs.WorkQueue.Trace.Works.{Advances}

module _ {ℓ} {T : Type ℓ} (host : Host) (opts : RuntimeOptions) where
  -- The queue stays in order, and works that have ended stay as they are.
  record Keeps (s t : RuntimeState T) : Type ℓ where
    queue : IsQueue host s → IsQueue host t
    ended :
        (key : String) (w : WorkState T)
        → find_work host key s ≡ some w
        → is_terminal w.state ≡ true
        → find_work host key t ≡ some w

  Keeps-trans : (s t u : RuntimeState T) → Keeps s t → Keeps t u → Keeps s u
  Keeps-trans s t u h k = record {
    queue = λ ok. k.queue (h.queue ok);
    ended = λ key w found over. k.ended key w (h.ended key w found over) over;
  }

  admit_all-Keeps :
      (ms : List (MessageEnvelope (WorkQueueSubmit T) × ℕ)) (s : RuntimeState T)
      → Keeps s (admit_all host opts ms s).0
  unfolding admit_all
  admit_all-Keeps [] s = record { queue = λ ok. ok; ended = λ key w found over. found }
  admit_all-Keeps ((m, clock) ∷ ms) s =
      let one = admit_message-Admits host opts s m clock in
      Keeps-trans s (admit_message host opts s m clock).0 _
        (record {
          queue = λ ok. record { works = one.works ok.works; journal = one.journal ok.journal };
          ended = λ key w found over. one.keeps key w found;
        })
        (admit_all-Keeps ms (admit_message host opts s m clock).0)

  -- A result without a panic, from which the state is as it was in this sense.
  abbrev Returns : RuntimeState T → Option (RuntimeState T × List (QueueEvent T)) → Type ℓ
  Returns s o = (t : RuntimeState T) × (es : List (QueueEvent T)) × (o ≡ some (t, es)) × Keeps s t

  reduce_queue_command-Keeps :
      (command : WorkQueueCommand T) (s t : RuntimeState T) (es : List (QueueEvent T)) (now : ℕ)
      → IsQueue host s
      → reduce_queue_command host opts s command now ≡ some (t, es)
      → Keeps s t
  reduce_queue_command-Keeps command s t es now queue e = record {
    queue = λ ok. (reduced-to host opts command s t es now "" queue e).0;
    ended = λ key w found over.
        Advances-terminal w
          (subst (λ o. Advances command now key o (find_work host key t)) found
            (reduced-to host opts command s t es now key queue e).1)
          over;
  }

  reduce_all-Returns :
      (cs : List (WorkQueueCommand T × ℕ)) (s : RuntimeState T)
      → IsQueue host s
      → Returns s (reduce_all host opts cs s)
  unfolding reduce_all
  reduce_all-Returns [] s ok =
      (s, [], refl, record { queue = λ h. h; ended = λ key w found over. found })
  reduce_all-Returns ((c, clock) ∷ cs) s ok =
      let now = unwrap_or (command_now_ms c) clock in
      let (t, es, e, queue, advanced) = reduce_queue_command-Refines host opts c s now "" ok in
      let (u, fs, r, keeps) = reduce_all-Returns cs t queue in
      rw (e, r, reduce_all)
        (u, es ++ fs, refl, Keeps-trans s t u (reduce_queue_command-Keeps c s t es now ok e) keeps)

  -- The states that a queue can be in.
  pub data History : RuntimeState T → Type ℓ where
    empty : History default_state
    batch :
        {s : RuntimeState T} (messages : List (MessageEnvelope (WorkQueueSubmit T) × ℕ))
        (commands : List (WorkQueueCommand T × ℕ)) (t : RuntimeState T) (es : List (QueueEvent T))
        → History s
        → run_batch host opts messages commands s ≡ some (t, es)
        → History t

  run_batch-Returns :
      (messages : List (MessageEnvelope (WorkQueueSubmit T) × ℕ))
      (commands : List (WorkQueueCommand T × ℕ)) (s : RuntimeState T)
      → IsQueue host s
      → Returns s (run_batch host opts messages commands s)
  unfolding run_batch
  run_batch-Returns messages commands s ok =
      let admitted = admit_all-Keeps messages s in
      let (t, es, e, keeps) =
        reduce_all-Returns commands (admit_all host opts messages s).0 (admitted.queue ok) in
      (
        t,
        _,
        ap (after_events (admit_all host opts messages s).1) e,
        Keeps-trans s (admit_all host opts messages s).0 t admitted keeps,
      )

  run_batch-Keeps :
      (messages : List (MessageEnvelope (WorkQueueSubmit T) × ℕ))
      (commands : List (WorkQueueCommand T × ℕ)) (s t : RuntimeState T) (es : List (QueueEvent T))
      → IsQueue host s
      → run_batch host opts messages commands s ≡ some (t, es)
      → Keeps s t
  run_batch-Keeps messages commands s t es ok e =
      let (u, fs, r, keeps) = run_batch-Returns messages commands s ok in
      subst (Keeps s) (ap (λ x. x.0) (some-injective (u, fs) (t, es) (sym r ∙ e))) keeps

  -- In every state that batches lead to, the works are well-formed and the journal complete.
  pub History-IsQueue : {s : RuntimeState T} → History s → IsQueue host s
  History-IsQueue empty = record {
    works = record { sorted = tt; coherent = tt };
    journal = record { counts = refl; numbered = tt; dead = refl };
  }
  History-IsQueue (batch {s} messages commands t es past e) =
      (run_batch-Keeps messages commands s t es (History-IsQueue past) e).queue
        (History-IsQueue past)

  -- No batch panics, in a build without overflow checks, where counters wrap: no lease that is renewed lacks its expiry, no candidate is missing, and no
  -- limit is 0.
  pub never_panics :
      {s : RuntimeState T} (messages : List (MessageEnvelope (WorkQueueSubmit T) × ℕ))
      (commands : List (WorkQueueCommand T × ℕ))
      → History s
      → is_some (run_batch host opts messages commands s) ≡ true
  never_panics {s} messages commands past =
      let (t, es, e, keeps) = run_batch-Returns messages commands s (History-IsQueue past) in
      ap is_some e

  -- A work that is completed, canceled or dead-lettered stays exactly as it is, whatever comes.
  pub ended_stays :
      {s t : RuntimeState T} (messages : List (MessageEnvelope (WorkQueueSubmit T) × ℕ))
      (commands : List (WorkQueueCommand T × ℕ)) (es : List (QueueEvent T)) (key : String)
      (w : WorkState T)
      → History s
      → find_work host key s ≡ some w
      → is_terminal w.state ≡ true
      → run_batch host opts messages commands s ≡ some (t, es)
      → find_work host key t ≡ some w
  ended_stays {s} {t} messages commands es key w past found over e =
      (run_batch-Keeps messages commands s t es (History-IsQueue past) e).ended key w found over
