-- ===== src/WorkQueue/Claims/Outcomes.antt =====
-- Claims and the expiry of leases as whole commands.
use graphrefly_rs.Prelude.{
  ℕ, ◌≡◌, refl, inl, inr, false, Bool-cases, Option, List, String, arith, take, is_nil, length,
}
use graphrefly_rs.WorkQueue.Commands.{WorkQueueCommand, is_some_and}
use graphrefly_rs.WorkQueue.Validation.{is_zero}
use graphrefly_rs.WorkQueue.Events.{RuntimeOptions}
use graphrefly_rs.WorkQueue.State.{Host, RuntimeState, is_expired}
use graphrefly_rs.WorkQueue.Claims.{
  at_least_one, usize_max, select_ids, is_lapsed, claim_work, expire_leases,
}
use graphrefly_rs.WorkQueue.Claims.Picked.{Picked, Picked-weaken, Picked-take, select_ids-Picked}
use graphrefly_rs.WorkQueue.Claims.Runs.{
  expire_each-Run, claim_candidates-Outcome, candidates-Picked, positive_limit-some,
  is_lapsed-is_expired,
}
use graphrefly_rs.WorkQueue.Trace.{done, told, Run-append}
use graphrefly_rs.WorkQueue.Trace.Works.{AreWorks, Run-AreWorks}
use graphrefly_rs.WorkQueue.Outcome.{Outcome, runs}

module _ {ℓ} {T : Type ℓ} (host : Host) (opts : RuntimeOptions) where
  lapsed-Picked :
      (requested : List String) (now : ℕ) (s : RuntimeState T)
      → AreWorks host s
      → Picked host.order
          (λ w. is_expired w now)
          s.works
          (select_ids (is_lapsed requested now) s.works)
  lapsed-Picked requested now s works =
      Picked-weaken host.order (is_lapsed requested now) _ s.works _
        (is_lapsed-is_expired requested now)
        (select_ids-Picked host.order (is_lapsed requested now) s.works works.sorted works.coherent)

  pub claim_work-Outcome :
      (c : String) (q k : Option String) (worker : String) (ids : List String)
      (bound duration at : Option ℕ) (s : RuntimeState T) (now : ℕ)
      → is_some_and bound is_zero ≡ false
      → AreWorks host s
      → Outcome host opts
          (WorkQueueCommand.claim c q k worker ids bound duration at)
          now
          s
          (claim_work host opts s (WorkQueueCommand.claim c q k worker ids bound duration at) now)
  unfolding claim_work
  claim_work-Outcome c q k worker ids bound duration at s now valid works =
      let first =
        expire_each-Run host opts (WorkQueueCommand.claim c q k worker ids bound duration at)
          (select_ids (is_lapsed ids now) s.works) c now s (lapsed-Picked ids now s works) in
      let (limit, e) = positive_limit-some bound (at_least_one (length ids)) valid (ground arith) in
      rw (e, claim_work)
        (claim_candidates-Outcome host opts c q k worker ids bound duration at _ now s _ _ first
          (candidates-Picked host opts ids now limit _ (Run-AreWorks first works)))

  pub expire_leases-Outcome :
      (c : String) (q k : Option String) (ids : List String) (bound at : Option ℕ)
      (s : RuntimeState T) (now : ℕ)
      → is_some_and bound is_zero ≡ false
      → AreWorks host s
      → Outcome host opts
          (WorkQueueCommand.expire c q k ids bound at)
          now
          s
          (expire_leases host opts s (WorkQueueCommand.expire c q k ids bound at) now)
  unfolding expire_leases
  expire_leases-Outcome c q k ids bound at s now valid works =
      let (limit, e) = positive_limit-some bound usize_max valid refl in
      let first =
        expire_each-Run host opts (WorkQueueCommand.expire c q k ids bound at)
          (take limit (select_ids (is_lapsed ids now) s.works)) c now s
          (Picked-take host.order _ s.works limit _ (lapsed-Picked ids now s works)) in
      elim (Bool-cases (is_nil (take limit (select_ids (is_lapsed ids now) s.works)))) [
        | inl idle ↦ rw (e, idle, expire_leases) (runs refl (told _ refl done))
        | inr busy ↦ rw (e, busy, expire_leases) (runs refl (Run-append first (told _ refl done)))
      ]
