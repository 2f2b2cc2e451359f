-- ===== src/WorkQueue/Reducer/Promises.antt =====
-- What the reducer promises of one command.
use graphrefly_rs.Prelude.{
  ℕ, ◌≡◌, refl, sym, ap, ◌∙◌, subst, ◌⊎◌, inl, inr, true, false, Option, some, List, String, arith,
  some-injective, true-ne-false,
}
use graphrefly_rs.WorkQueue.Commands.{WorkQueueCommand}
use graphrefly_rs.WorkQueue.Events.{QueueEvent, RuntimeOptions}
use graphrefly_rs.WorkQueue.State.{
  Host, WorkState, RuntimeState, find_work, is_terminal, is_leased, is_expired, is_ready,
}
use graphrefly_rs.WorkQueue.Contract.{
  Move, lapse, claim, renew, release, complete, retry, give_up, cancel, schedule, Moves, stay, move,
  Holds, verb, Verb, target, Move-terminal,
}
use graphrefly_rs.WorkQueue.Trace.Journal.{IsJournal, Run-IsJournal}
use graphrefly_rs.WorkQueue.Trace.Works.{
  AreWorks, Run-AreWorks, Advances, present, Run-Advances, Advances-refl,
}
use graphrefly_rs.WorkQueue.Reducer.{reduce_queue_command}
use graphrefly_rs.WorkQueue.Reducer.Refines.{refused, reduced, reduce_queue_command-Reduces}

module _ {ℓ} {T : Type ℓ} where
  -- The works are well-formed and the journal is complete.
  pub record IsQueue (host : Host) (s : RuntimeState T) : Type ℓ where
    pub works : AreWorks host s
    pub journal : IsJournal s

  Moves-terminal :
      {c : WorkQueueCommand T} {now : ℕ} {key : String} {w w' : WorkState T}
      → Moves c now key w w'
      → is_terminal w.state ≡ true
      → w' ≡ w
  Moves-terminal stay h = refl
  Moves-terminal (move step rest) h = absurd (true-ne-false (sym h ∙ Move-terminal step))

  pub Advances-terminal :
      {c : WorkQueueCommand T} {now : ℕ} {key : String} {o : Option (WorkState T)} (w : WorkState T)
      → Advances c now key (some w) o
      → is_terminal w.state ≡ true
      → o ≡ some w
  Advances-terminal w (present moves) h = ap some (Moves-terminal moves h)

  -- Who may move a work under a live lease: its holder, and whoever cancels it.
  Move-held :
      {c : WorkQueueCommand T} {now : ℕ} {key : String} {w w' : WorkState T}
      → Move c now key w w'
      → is_leased w.state ≡ true
      → is_expired w now ≡ false
      → (target c ≡ some key) × ((verb c ≡ Verb.canceling) ⊎ Holds c now w)
  unfolding is_leased is_ready
  Move-held (lapse w h) held live = absurd (true-ne-false (sym h ∙ live))
  Move-held (claim w l u e by h) held live = absurd (ground (arith, h, held))
  Move-held (renew w later v t h) held live = (t, inr h)
  Move-held (release w v t h) held live = (t, inr h)
  Move-held (complete w v t h) held live = (t, inr h)
  Move-held (retry w d v t h) held live = (t, inr h)
  Move-held (give_up w v t h) held live = (t, inr h)
  Move-held (cancel w v t h) held live = (t, inl v)
  Move-held (schedule w b d v t h free) held live = absurd (true-ne-false (sym held ∙ free))

  Advances-held :
      {c : WorkQueueCommand T} {now : ℕ} {key : String} {o : Option (WorkState T)} (w : WorkState T)
      → Advances c now key (some w) o
      → is_leased w.state ≡ true
      → is_expired w now ≡ false
      → ((target c ≡ some key) × ((verb c ≡ Verb.canceling) ⊎ Holds c now w)) ⊎ (o ≡ some w)
  Advances-held w (present stay) held live = inr refl
  Advances-held w (present (move step rest)) held live = inl (Move-held step held live)

module _ {ℓ} {T : Type ℓ} (host : Host) (opts : RuntimeOptions) where
  -- From a queue in order, every command returns, leaves the queue in order, and whatever stands under
  -- a key makes only transitions of the contract for that command, by its sender and at its time. The
  -- attempts and the lease counter wrap, as in a build without overflow checks.
  pub reduce_queue_command-Refines :
      (command : WorkQueueCommand T) (s : RuntimeState T) (now : ℕ) (key : String)
      → IsQueue host s
      → (t : RuntimeState T) × (es : List (QueueEvent T)) × (reduce_queue_command host opts s
            command now
          ≡ some (t, es))
        × IsQueue host t
        × Advances command now key (find_work host key s) (find_work host key t)
  reduce_queue_command-Refines command s now key queue =
      elim (reduce_queue_command-Reduces host opts command s now queue.works) [
        | refused code message h e ↦
            (s, _, e, queue, Advances-refl command now key (find_work host key s))
        | reduced fresh out ↦ (
          out.left,
          out.sent,
          out.result,
          record {
            works =
                Run-AreWorks out.run
                  (record { sorted = queue.works.sorted; coherent = queue.works.coherent });
            journal = Run-IsJournal out.run (record {
              counts = queue.journal.counts;
              numbered = queue.journal.numbered;
              dead = queue.journal.dead;
            });
          },
          Run-Advances key out.run,
        )
      ]

  -- What a run that is known leaves.
  pub reduced-to :
      (command : WorkQueueCommand T) (s t : RuntimeState T) (es : List (QueueEvent T)) (now : ℕ)
      (key : String)
      → IsQueue host s
      → reduce_queue_command host opts s command now ≡ some (t, es)
      → IsQueue host t × Advances command now key (find_work host key s) (find_work host key t)
  reduced-to command s t es now key queue e =
      let (u, fs, r, later, advanced) = reduce_queue_command-Refines command s now key queue in
      subst
        (λ x.
          IsQueue host x × Advances command now key (find_work host key s) (find_work host key x))
        (ap (λ x. x.0) (some-injective (u, fs) (t, es) (sym r ∙ e))) (later, advanced)

  -- A live lease is only touched by a command about its work, and then only by one that shows the
  -- lease, its attempt and its worker, or that cancels the work.
  pub lease_is_exclusive :
      (command : WorkQueueCommand T) (s t : RuntimeState T) (es : List (QueueEvent T)) (now : ℕ)
      (key : String) (w : WorkState T)
      → IsQueue host s
      → find_work host key s ≡ some w
      → is_leased w.state ≡ true
      → is_expired w now ≡ false
      → reduce_queue_command host opts s command now ≡ some (t, es)
      → ((target command ≡ some key) × ((verb command ≡ Verb.canceling) ⊎ Holds command now w))
        ⊎ (find_work host key t ≡ some w)
  lease_is_exclusive command s t es now key w queue found held live e =
      Advances-held w
        (subst (λ o. Advances command now key o (find_work host key t)) found
          (reduced-to command s t es now key queue e).1)
        held live
