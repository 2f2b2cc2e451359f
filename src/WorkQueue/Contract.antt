-- ===== src/WorkQueue/Contract.antt =====
-- What the work queue promises of one work: the transitions that a command may make, and who may make
-- them. Written apart from the handlers of crates/graphrefly/src/work_queue.rs.
use graphrefly_rs.Prelude.{
  ℕ, ◌+◌, ◌%◌, ◌≡◌, refl, sym, ◌∙◌, inl, inr, Bool-cases, arith, true, false, Option, none, some,
  String, if◌then◌else◌, ltb, is_some,
}
use graphrefly_rs.WorkQueue.Commands.{WorkQueueCommand}
use graphrefly_rs.WorkQueue.State.{
  WorkQueueDerivedState, WorkState, is_terminal, is_leased, is_ready, is_expired, clear_lease,
}

-- What a command asks for.
pub data Verb : Type 0 where
  submitting claiming renewing releasing completing failing canceling scheduling expiring : Verb

module _ {ℓ} {T : Type ℓ} where
  abbrev pub verb : WorkQueueCommand T → Verb
  verb (WorkQueueCommand.submit payload c q k) = Verb.submitting
  verb (WorkQueueCommand.claim c q k worker ids limit duration now) = Verb.claiming
  verb (WorkQueueCommand.renew c q k id lease n worker duration expires now) = Verb.renewing
  verb (WorkQueueCommand.release c q k id lease n worker reason now) = Verb.releasing
  verb (WorkQueueCommand.complete c q k id lease n worker result now) = Verb.completing
  verb (WorkQueueCommand.fail c q k id lease n worker error retryable now) = Verb.failing
  verb (WorkQueueCommand.cancel c q k id reason now) = Verb.canceling
  verb (WorkQueueCommand.schedule c q k id plan start deadline reason now) = Verb.scheduling
  verb (WorkQueueCommand.expire c q k ids limit now) = Verb.expiring

  -- The one work that a command is about.
  abbrev pub target : WorkQueueCommand T → Option String
  target (WorkQueueCommand.renew c q k id lease n worker duration expires now) = some id
  target (WorkQueueCommand.release c q k id lease n worker reason now) = some id
  target (WorkQueueCommand.complete c q k id lease n worker result now) = some id
  target (WorkQueueCommand.fail c q k id lease n worker error retryable now) = some id
  target (WorkQueueCommand.cancel c q k id reason now) = some id
  target (WorkQueueCommand.schedule c q k id plan start deadline reason now) = some id
  target _ = none

  -- The lease, attempt and worker that a command shows.
  abbrev pub credentials : WorkQueueCommand T → Option (String × ℕ × String)
  credentials (WorkQueueCommand.renew c q k id lease n worker duration expires now) =
      some (lease, n, worker)
  credentials (WorkQueueCommand.release c q k id lease n worker reason now) =
      some (lease, n, worker)
  credentials (WorkQueueCommand.complete c q k id lease n worker result now) =
      some (lease, n, worker)
  credentials (WorkQueueCommand.fail c q k id lease n worker error retryable now) =
      some (lease, n, worker)
  credentials _ = none

  abbrev pub claimant : WorkQueueCommand T → Option String
  claimant (WorkQueueCommand.claim c q k worker ids limit duration now) = some worker
  claimant _ = none

  -- The command shows the lease of a work, which has not run out.
  pub record Holds (c : WorkQueueCommand T) (now : ℕ) (w : WorkState T) : Type 0 where
    pub lease : String
    pub worker : String
    pub shown : credentials c ≡ some (lease, w.attempt, worker)
    pub held : is_leased w.state ≡ true
    pub same_lease : w.lease_id ≡ some lease
    pub same_worker : w.worker_id ≡ some worker
    pub live : is_expired w now ≡ false

  abbrev pub reset : WorkQueueDerivedState → WorkState T → WorkState T
  reset state w = clear_lease (record w { state = state })

  -- A transition of the work at `key` that command `c` makes at time `now`.
  pub data Move (c : WorkQueueCommand T) (now : ℕ) (key : String)
      : WorkState T → WorkState T → Type ℓ where
    lapse :
        (w : WorkState T)
        → is_expired w now ≡ true
        → Move c now key w (reset WorkQueueDerivedState.ready w)
    claim :
        (w : WorkState T) (lease worker : String) (expires : ℕ)
        → claimant c ≡ some worker
        → is_ready w now ≡ true
        → Move c now key w (record w {
          state = WorkQueueDerivedState.leased;
          attempt = (w.attempt + 1) % 4294967296;
          lease_id = some lease;
          worker_id = some worker;
          lease_expires_at_ms = some expires;
        })
    renew :
        (w : WorkState T) (next : ℕ)
        → verb c ≡ Verb.renewing
        → target c ≡ some key
        → Holds c now w
        → Move c now key w (record w { lease_expires_at_ms = some next })
    release :
        (w : WorkState T)
        → verb c ≡ Verb.releasing
        → target c ≡ some key
        → Holds c now w
        → Move c now key w (reset WorkQueueDerivedState.ready w)
    complete :
        (w : WorkState T)
        → verb c ≡ Verb.completing
        → target c ≡ some key
        → Holds c now w
        → Move c now key w (reset WorkQueueDerivedState.completed w)
    retry :
        (w : WorkState T) (delay : ℕ)
        → verb c ≡ Verb.failing
        → target c ≡ some key
        → Holds c now w
        → Move c now key w (
            clear_lease (record w {
              state =
                  if ltb 0 delay
                  then WorkQueueDerivedState.retry_wait
                  else WorkQueueDerivedState.ready;
              retry_at_ms = some (now + delay);
            }))
    give_up :
        (w : WorkState T)
        → verb c ≡ Verb.failing
        → target c ≡ some key
        → Holds c now w
        → Move c now key w (reset WorkQueueDerivedState.dead_lettered w)
    cancel :
        (w : WorkState T)
        → verb c ≡ Verb.canceling
        → target c ≡ some key
        → is_terminal w.state ≡ false
        → Move c now key w (reset WorkQueueDerivedState.canceled w)
    schedule :
        (w : WorkState T) (start : ℕ) (deadline : Option ℕ)
        → verb c ≡ Verb.scheduling
        → target c ≡ some key
        → is_terminal w.state ≡ false
        → is_leased w.state ≡ false
        → Move c now key w (record w {
          state = WorkQueueDerivedState.scheduled;
          not_before_ms = some start;
          deadline_ms = deadline;
        })

  pub data Moves (c : WorkQueueCommand T) (now : ℕ) (key : String)
      : WorkState T → WorkState T → Type ℓ where
    stay : {w : WorkState T} → Moves c now key w w
    move : {u v w : WorkState T} → Move c now key u v → Moves c now key v w → Moves c now key u w

  -- A lease has its id, worker and expiry exactly while a work is leased.
  pub record IsCoherent (w : WorkState T) : Type 0 where
    pub lease : is_some w.lease_id ≡ is_leased w.state
    pub worker : is_some w.worker_id ≡ is_leased w.state
    pub expiry : is_some w.lease_expires_at_ms ≡ is_leased w.state

  pub Move-IsCoherent :
      {c : WorkQueueCommand T} {now : ℕ} {key : String} {w w' : WorkState T}
      → Move c now key w w'
      → IsCoherent w
      → IsCoherent w'
  unfolding is_leased is_expired
  Move-IsCoherent (lapse w h) ok = record { lease = refl; worker = refl; expiry = refl }
  Move-IsCoherent (claim w l u e by h) ok = record { lease = refl; worker = refl; expiry = refl }
  Move-IsCoherent (renew w next v t h) ok = record {
    lease = ok.lease;
    worker = ok.worker;
    expiry = sym h.held;
  }
  Move-IsCoherent (release w v t h) ok = record { lease = refl; worker = refl; expiry = refl }
  Move-IsCoherent (complete w v t h) ok = record { lease = refl; worker = refl; expiry = refl }
  Move-IsCoherent (retry w d v t h) ok = elim (Bool-cases (ltb 0 d)) [
    | inl more ↦ rw (more) (record { lease = refl; worker = refl; expiry = refl })
    | inr less ↦ rw (less) (record { lease = refl; worker = refl; expiry = refl })
  ]
  Move-IsCoherent (give_up w v t h) ok = record { lease = refl; worker = refl; expiry = refl }
  Move-IsCoherent (cancel w v t h) ok = record { lease = refl; worker = refl; expiry = refl }
  Move-IsCoherent (schedule w b d v t h free) ok = record {
    lease = ok.lease ∙ free;
    worker = ok.worker ∙ free;
    expiry = ok.expiry ∙ free;
  }

  -- A work that has ended makes no move.
  pub Move-terminal :
      {c : WorkQueueCommand T} {now : ℕ} {key : String} {w w' : WorkState T}
      → Move c now key w w'
      → is_terminal w.state ≡ false
  unfolding is_leased is_terminal is_expired is_ready
  Move-terminal (lapse w h) = ground arith
  Move-terminal (claim w l u e by h) = ground arith
  Move-terminal (renew w next v t h) = ground (arith, h.held)
  Move-terminal (release w v t h) = ground (arith, h.held)
  Move-terminal (complete w v t h) = ground (arith, h.held)
  Move-terminal (retry w d v t h) = ground (arith, h.held)
  Move-terminal (give_up w v t h) = ground (arith, h.held)
  Move-terminal (cancel w v t h) = h
  Move-terminal (schedule w b d v t h free) = h

  -- A move keeps the id.
  pub Move-work_id :
      {c : WorkQueueCommand T} {now : ℕ} {key : String} {w w' : WorkState T}
      → Move c now key w w'
      → w'.work_id ≡ w.work_id
  Move-work_id (lapse w h) = refl
  Move-work_id (claim w l u e by h) = refl
  Move-work_id (renew w later v t h) = refl
  Move-work_id (release w v t h) = refl
  Move-work_id (complete w v t h) = refl
  Move-work_id (retry w d v t h) = refl
  Move-work_id (give_up w v t h) = refl
  Move-work_id (cancel w v t h) = refl
  Move-work_id (schedule w b d v t h free) = refl
