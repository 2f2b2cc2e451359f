-- ===== src/WorkQueue/Claims/Runs.antt =====
-- Claims and the expiry of leases, and the contract.
use graphrefly_rs.Prelude.{
  ℕ, ◌+◌, ◌≡◌, refl, sym, ap, ◌∙◌, subst, ◌⊎◌, inl, inr, Bool, true, false, not, ◌&&◌, Bool-cases,
  Option-cases, Option, none, some, List, [], ◌∷◌, ◌++◌, String, arith, map, keep, is_nil, ltb,
  map-take, if◌then◌else◌,
}
use graphrefly_rs.WorkQueue.Commands.{WorkQueueCommand, is_some_and}
use graphrefly_rs.WorkQueue.Validation.{is_zero}
use graphrefly_rs.WorkQueue.Events.{QueueEvent, reject_queue_command_by_id, RuntimeOptions}
use graphrefly_rs.WorkQueue.State.{
  Host, WorkState, RuntimeState, find_work, is_ready, is_expired, after_events, contains,
}
use graphrefly_rs.WorkQueue.Leases.{unwrap_or, materialize_lease_expired}
use graphrefly_rs.WorkQueue.Leases.Checked.{materialize-Run, materialize-works}
use graphrefly_rs.WorkQueue.Workers.Runs.{checked_timestamp-cases}
use graphrefly_rs.WorkQueue.Claims.{
  positive_limit, select_ids, is_lapsed, is_candidate, is_requested, expire_each, claim_each,
  claim_miss_events, misses, candidates, claim_candidates,
}
use graphrefly_rs.WorkQueue.Claims.Picked.{
  Picked, Fresh, Picked-put, Picked-weaken, Picked-take, select_ids-Picked, Picked-sort_candidates,
}
use graphrefly_rs.WorkQueue.Contract.{claim, claimant}
use graphrefly_rs.WorkQueue.Trace.{Run, done, told, wrote, moved, counted, Run-append}
use graphrefly_rs.WorkQueue.Trace.Works.{AreWorks}
use graphrefly_rs.WorkQueue.Outcome.{Outcome, runs, rejected-Run}

and_right : (a b : Bool) → (a && b) ≡ true → b ≡ true
and_right a b h = ground arith

pub positive_limit-some :
    (bound : Option ℕ) (n : ℕ)
    → is_some_and bound is_zero ≡ false
    → ltb 0 n ≡ true
    → (limit : ℕ) × (positive_limit (unwrap_or bound n) ≡ some limit)
unfolding positive_limit
positive_limit-some none n h pos = (n, rw (pos) refl)
positive_limit-some (some m) n h pos = (m, ground arith)

candidate-ids {ℓ} :
    {T : Type ℓ} (rows : List (String × WorkState T))
    → map
        (λ (d : ℕ × String). d.1)
        (map (λ (row : String × WorkState T). (row.1.admission_seq, row.1.work_id)) rows)
      ≡ map (λ (row : String × WorkState T). row.1.work_id) rows
candidate-ids [] = refl
candidate-ids ((k, w) ∷ rows) = ap (λ ids. w.work_id ∷ ids) (candidate-ids rows)

pub is_lapsed-is_expired {ℓ} :
    {T : Type ℓ} (requested : List String) (now : ℕ) (w : WorkState T)
    → is_lapsed requested now w ≡ true
    → is_expired w now ≡ true
unfolding is_lapsed
is_lapsed-is_expired requested now w h = and_right (is_requested requested w.work_id) _ h

is_candidate-is_ready {ℓ} :
    {T : Type ℓ} (requested : List String) (now : ℕ) (w : WorkState T)
    → is_candidate requested now w ≡ true
    → is_ready w now ≡ true
unfolding is_candidate
is_candidate-is_ready requested now w h = and_right (is_requested requested w.work_id) _ h

module _ {ℓ} {T : Type ℓ} (host : Host) (opts : RuntimeOptions) where
  pub expire_each-Run :
      (command : WorkQueueCommand T) (ids : List String) (c : String) (now : ℕ) (s : RuntimeState T)
      → Picked host.order (λ w. is_expired w now) s.works ids
      → Run host command now s
          (expire_each host opts ids c now s).1
          (expire_each host opts ids c now s).0
  unfolding expire_each
  expire_each-Run command [] c now s picked = done
  expire_each-Run command (id ∷ ids) c now s picked =
      let pick = picked.0 in
      let here = ap (λ x. find_work host x s) pick.named ∙ pick.found in
      rw (pick.found, expire_each)
        (Run-append (materialize-Run host opts command now s pick.work (some c) here pick.passes) (
          expire_each-Run command ids c now
            (materialize_lease_expired host opts s pick.work (some c) now none).0
            (subst (λ rows. Picked host.order (λ v. is_expired v now) rows ids)
              (sym (materialize-works host opts s pick.work (some c) now here))
              (Picked-put host.order (λ v. is_expired v now) s.works pick.work.work_id _ ids
                (subst (λ x. Fresh x ids) (sym pick.named) picked.1) picked.2))))

  -- A result that a run explains.
  abbrev Returns :
      WorkQueueCommand T
      → ℕ
      → RuntimeState T
      → Option (RuntimeState T × List (QueueEvent T))
      → Type ℓ
  Returns command now s o =
      (t : RuntimeState T) × (es : List (QueueEvent T)) × (o ≡ some (t, es))
      × Run host command now s es t

  Returns-after :
      (command : WorkQueueCommand T) (now : ℕ) (s s' : RuntimeState T) (es : List (QueueEvent T))
      (o : Option (RuntimeState T × List (QueueEvent T)))
      → Run host command now s es s'
      → Returns command now s' o
      → Returns command now s (after_events es o)
  Returns-after command now s s' es o first (t, fs, e, run) =
      (t, es ++ fs, ap (after_events es) e, Run-append first run)

  claim_each-Returns :
      (command : WorkQueueCommand T) (ids : List String) (c worker : String) (expires now : ℕ)
      (s : RuntimeState T)
      → claimant command ≡ some worker
      → Picked host.order (λ w. is_ready w now) s.works ids
      → Returns command now s (claim_each host opts ids c worker expires now s)
  unfolding claim_each
  claim_each-Returns command [] c worker expires now s by picked = (_, _, refl, done)
  claim_each-Returns command (id ∷ ids) c worker expires now s by picked =
      let pick = picked.0 in
      rw (pick.found, claim_each)
        (Returns-after command now s _ _ _
          (counted _ (
            moved id pick.work _ pick.found (claim pick.work _ worker expires by pick.passes)
              (wrote _ refl (told _ refl done))))
          (claim_each-Returns command ids c worker expires now _ by
            (Picked-put host.order (λ w. is_ready w now) s.works id _ ids picked.1 picked.2)))

  claim_miss_events-Run :
      (command : WorkQueueCommand T) (s : RuntimeState T) (c : String) (ids claimed : List String)
      (now : ℕ)
      → Run host command now s (claim_miss_events host opts s c ids claimed now) s
  unfolding claim_miss_events
  claim_miss_events-Run command s c [] claimed now = done
  claim_miss_events-Run command s c (id ∷ ids) claimed now =
      let rest = claim_miss_events-Run command s c ids claimed now in
      elim (Bool-cases (contains id claimed)) [
        | inl taken ↦ rw (taken, claim_miss_events) rest
        | inr missed ↦ elim (Option-cases (find_work host id s)) [
          | inl missing ↦
              rw (missed, missing, claim_miss_events) (Run-append (rejected-Run opts _ _ _ _) rest)
          | inr (w, found) ↦ elim (Bool-cases (is_ready w now)) [
            | inl ready ↦ rw (missed, found, ready, claim_miss_events) rest
            | inr waiting ↦
                rw (missed, found, waiting, claim_miss_events)
                  (Run-append (rejected-Run opts _ _ _ _) rest)
          ]
        ]
      ]

  misses-Run :
      (command : WorkQueueCommand T) (s : RuntimeState T) (c : String)
      (requested claimed : List String) (now : ℕ)
      → Run host command now s (misses host opts s c requested claimed now) s
  unfolding misses
  misses-Run command s c requested claimed now = elim (Bool-cases (is_nil requested)) [
    | inl all_works ↦ rw (all_works, misses) done
    | inr named ↦
        rw (named, misses) (claim_miss_events-Run command s c (host.visit requested) claimed now)
  ]

  pub candidates-Picked :
      (requested : List String) (now limit : ℕ) (s : RuntimeState T)
      → AreWorks host s
      → Picked host.order (λ w. is_ready w now) s.works (candidates host opts requested now limit s)
  unfolding candidates select_ids
  candidates-Picked requested now limit s works =
      subst (Picked host.order (λ w. is_ready w now) s.works)
        (sym (map-take (λ (d : ℕ × String). d.1) limit _))
        (Picked-take host.order _ s.works limit _ (
          Picked-sort_candidates host.order host _ s.works _ (
            subst (Picked host.order (λ w. is_ready w now) s.works)
              (sym (candidate-ids (keep (λ row. is_candidate requested now row.1) s.works)))
              (Picked-weaken host.order (is_candidate requested now) _ s.works _
                (is_candidate-is_ready requested now)
                (select_ids-Picked host.order (is_candidate requested now) s.works works.sorted
                  works.coherent)))))

  pub claim_candidates-Outcome :
      (c : String) (q k : Option String) (worker : String) (ids : List String)
      (bound duration at : Option ℕ) (chosen : List String) (now : ℕ) (s s' : RuntimeState T)
      (es : List (QueueEvent T))
      → Run host (WorkQueueCommand.claim c q k worker ids bound duration at) now s es s'
      → Picked host.order (λ w. is_ready w now) s'.works chosen
      → Outcome host opts
          (WorkQueueCommand.claim c q k worker ids bound duration at)
          now
          s
          (claim_candidates host opts c worker ids chosen duration now (s', es))
  unfolding claim_candidates
  claim_candidates-Outcome c q k worker ids bound duration at chosen now s s' es first picked =
      elim (Bool-cases (is_nil chosen)) [
        | inl idle ↦
            rw (idle, claim_candidates)
              (runs refl (Run-append first (nothing (Bool-cases (is_nil ids)))))
        | inr busy ↦
            elim (checked_timestamp-cases {T = T} host opts (some c) now
              (unwrap_or duration opts.lease_duration_ms) "lease duration overflows timestamp") [
                | inr (late, e) ↦
                    rw (busy, e, claim_candidates)
                      (record {
                        left = s';
                        sent = _;
                        logged = es;
                        result = refl;
                        run = first;
                        faithful = inr (ap not late);
                      })
                | inl (fits, e) ↦
                    let (t, fs, r, run) =
                      claim_each-Returns command chosen c worker
                        (now + unwrap_or duration opts.lease_duration_ms) now s' refl picked in
                    rw (busy, e, r, claim_candidates)
                      (runs refl
                        (Run-append first (Run-append run (misses-Run command t c ids chosen now))))
              ]
      ]
    where
      command : WorkQueueCommand T
      command = WorkQueueCommand.claim c q k worker ids bound duration at

      nothing :
          (is_nil ids ≡ true) ⊎ (is_nil ids ≡ false)
          → Run host command now s'
              (if is_nil ids
                then reject_queue_command_by_id opts (some c) "not-ready" "no ready work" now
                else claim_miss_events host opts s' c (host.visit ids) [] now)
              s'
      nothing (inl all_works) = rw (all_works) (rejected-Run opts _ _ _ _)
      nothing (inr named) = rw (named) (claim_miss_events-Run command s' c (host.visit ids) [] now)
