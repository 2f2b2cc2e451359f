-- ===== src/WorkQueue/Trace.antt =====
-- How a handler of crates/graphrefly/src/work_queue.rs may change the state: by transitions of the
-- contract, by appending to the journal, and by nothing else.
use graphrefly_rs.Prelude.{
  ℕ, ◌+◌, ◌≡◌, Bool, true, false, Option, none, some, List, [], ◌∷◌, ◌++◌, String, keep,
}
use graphrefly_rs.WorkQueue.Commands.{WorkQueueCommand}
use graphrefly_rs.WorkQueue.Records.{WorkQueueRecord}
use graphrefly_rs.WorkQueue.Events.{QueueEvent}
use graphrefly_rs.WorkQueue.State.{
  Host, WorkState, RuntimeState, append_record, find_work, put_work,
}
use graphrefly_rs.WorkQueue.Contract.{Move}
pub mod Journal
pub mod Works

module _ {ℓ} {T : Type ℓ} where
  abbrev pub is_dead_letter : WorkQueueRecord T → Bool
  is_dead_letter (WorkQueueRecord.work_dead_lettered n q w c reason attempts at) = true
  is_dead_letter _ = false

  -- The records among events.
  abbrev pub journaled : List (QueueEvent T) → List (WorkQueueRecord T)
  journaled [] = []
  journaled (QueueEvent.recorded r ∷ es) = r ∷ journaled es
  journaled (QueueEvent.status x ∷ es) = journaled es
  journaled (QueueEvent.issue x ∷ es) = journaled es

  abbrev pub is_record : QueueEvent T → Bool
  is_record (QueueEvent.recorded r) = true
  is_record _ = false

  -- The state with a record that is also kept among the dead letters.
  abbrev pub bury : RuntimeState T → WorkQueueRecord T → RuntimeState T
  bury s r =
      let dead = append_record s r in
      record (dead.0) { dead_letters = dead.0.dead_letters ++ dead.1 ∷ [] }

  pub data Run (host : Host) (c : WorkQueueCommand T) (now : ℕ)
      : RuntimeState T → List (QueueEvent T) → RuntimeState T → Type ℓ where
    done : {s : RuntimeState T} → Run host c now s [] s
    told :
        {s s' : RuntimeState T} {es : List (QueueEvent T)} (e : QueueEvent T)
        → is_record e ≡ false
        → Run host c now s es s'
        → Run host c now s (e ∷ es) s'
    wrote :
        {s s' : RuntimeState T} {es : List (QueueEvent T)} (r : WorkQueueRecord T)
        → is_dead_letter r ≡ false
        → Run host c now (append_record s r).0 es s'
        → Run host c now s (QueueEvent.recorded (append_record s r).1 ∷ es) s'
    buried :
        {s s' : RuntimeState T} {es : List (QueueEvent T)} (r : WorkQueueRecord T)
        → is_dead_letter r ≡ true
        → Run host c now (bury s r) es s'
        → Run host c now s (QueueEvent.recorded (append_record s r).1 ∷ es) s'
    moved :
        {s s' : RuntimeState T} {es : List (QueueEvent T)} (key : String) (w w' : WorkState T)
        → find_work host key s ≡ some w
        → Move c now key w w'
        → Run host c now (put_work host key w' s) es s'
        → Run host c now s es s'
    counted :
        {s s' : RuntimeState T} {es : List (QueueEvent T)} (n : ℕ)
        → Run host c now (record s { lease_seq = n }) es s'
        → Run host c now s es s'

  pub Run-append :
      {host : Host} {c : WorkQueueCommand T} {now : ℕ} {s t u : RuntimeState T}
      {es fs : List (QueueEvent T)}
      → Run host c now s es t
      → Run host c now t fs u
      → Run host c now s (es ++ fs) u
  Run-append done after = after
  Run-append (told e h run) after = told e h (Run-append run after)
  Run-append (wrote r h run) after = wrote r h (Run-append run after)
  Run-append (buried r h run) after = buried r h (Run-append run after)
  Run-append (moved key w w' found step run) after =
      moved key w w' found step (Run-append run after)
  Run-append (counted n run) after = counted n (Run-append run after)
