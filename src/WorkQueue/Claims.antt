-- ===== src/WorkQueue/Claims.antt =====
-- Claims and the expiry of leases: `claim_work`, `claim_miss_events` and `expire_leases` of
-- crates/graphrefly/src/work_queue.rs.
use Prim.Native.Nat.{compare, lt, eq, gt}
use Prim.Native.String.{◌++◌ as str_append}
use graphrefly_rs.Prelude.{
  ℕ, ◌+◌, ◌%◌, wrapping_suc, inl, inr, Bool, true, false, ◌&&◌, ◌||◌, Option, none, some, List, [],
  ◌∷◌, ◌++◌, map, String, length, take, keep, is_nil, ltb, if◌then◌else◌, ◌>>=◌,
}
use graphrefly_rs.WorkQueue.Commands.{WorkQueueCommand}
use graphrefly_rs.WorkQueue.Records.{WorkQueueRecord}
use graphrefly_rs.WorkQueue.Events.{
  RuntimeOptions, QueueEvent, WorkQueueStatusKind, reject_queue_command_by_id, checked_timestamp,
  accepted, status_event, no_fields,
}
use graphrefly_rs.WorkQueue.State.{
  Host, WorkQueueDerivedState, WorkState, RuntimeState, is_terminal, is_leased, is_ready,
  is_expired, append_record, find_work, put_work, contains, compound_tuple_key, after_events,
}
use graphrefly_rs.WorkQueue.Leases.{unwrap_or, materialize_lease_expired}
pub mod Picked
pub mod Runs
pub mod Outcomes
pub mod Oldest

-- Panics, which is `none`, for no work at all.
unfoldable pub positive_limit : ℕ → Option ℕ
positive_limit limit = if ltb 0 limit then some limit else none

-- `usize::MAX` on a 64-bit machine.
abbrev pub usize_max : ℕ
usize_max = 18446744073709551615

-- `len().max(1)`.
abbrev pub at_least_one : ℕ → ℕ
at_least_one n = if ltb 0 n then n else 1

abbrev pub is_requested : List String → String → Bool
is_requested requested id = is_nil requested || contains id requested

module _ {ℓ} {T : Type ℓ} where
  -- The ids of the works that a test selects, in the order of their keys.
  unfoldable pub select_ids : (WorkState T → Bool) → List (String × WorkState T) → List String
  select_ids p rows = map (λ row. row.1.work_id) (keep (λ row. p row.1) rows)

  unfoldable pub is_lapsed : List String → ℕ → WorkState T → Bool
  is_lapsed requested now w = is_requested requested w.work_id && is_expired w now

  unfoldable pub is_candidate : List String → ℕ → WorkState T → Bool
  is_candidate requested now w = is_requested requested w.work_id && is_ready w now

-- `sort_by` of candidates: by number of admission, then by id. It is stable.
module _ (host : Host) where
  unfoldable pub claims_first : ℕ × String → ℕ × String → Bool
  claims_first (a_seq, a_id) (b_seq, b_id) = elim (compare a_seq b_seq) [
    | lt ↦ true
    | gt ↦ false
    | eq ↦ elim (host.order.cmp a_id b_id) [ lt ↦ true | eq ↦ true | gt ↦ false ]
  ]

  unfoldable pub insert_candidate : ℕ × String → List (ℕ × String) → List (ℕ × String)
  insert_candidate c [] = c ∷ []
  insert_candidate c (d ∷ ds) =
      let rest = insert_candidate c ds in if claims_first c d then c ∷ d ∷ ds else d ∷ rest

  unfoldable pub sort_candidates : List (ℕ × String) → List (ℕ × String)
  sort_candidates [] = []
  sort_candidates (c ∷ cs) = insert_candidate c (sort_candidates cs)

module _ {ℓ} {T : Type ℓ} (host : Host) (opts : RuntimeOptions) where
  -- The loop over the works whose lease has run out.
  unfoldable pub expire_each :
      List String → String → ℕ → RuntimeState T → RuntimeState T × List (QueueEvent T)
  expire_each [] c now s = (s, [])
  expire_each (id ∷ ids) c now s = elim (find_work host id s) [
    | none ↦ expire_each ids c now s
    | some w ↦
        let expired = materialize_lease_expired host opts s w (some c) now none in
        let rest = expire_each ids c now expired.0 in (rest.0, expired.1 ++ rest.1)
  ]

  -- `get_mut(..).expect(..)` of a work that is not there panics. The counters wrap, a `u64` and a
  -- `u32`, as in a build without overflow checks.
  unfoldable pub claim_each :
      List String
      → String
      → String
      → ℕ
      → ℕ
      → RuntimeState T
      → Option (RuntimeState T × List (QueueEvent T))
  claim_each [] c worker expires now s = some (s, [])
  claim_each (id ∷ ids) c worker expires now s = find_work host id s >>= λ w.
      let lease_seq = wrapping_suc s.lease_seq in
      let attempt = (w.attempt + 1) % 4294967296 in
      let lease =
        compound_tuple_key host "work-queue-lease" (w.work_id ∷ host.show lease_seq ∷ []) in
      let held =
        put_work host id
          (record w {
            state = WorkQueueDerivedState.leased;
            attempt = attempt;
            lease_id = some lease;
            worker_id = some worker;
            lease_expires_at_ms = some expires;
          })
          (record s { lease_seq = lease_seq }) in
      let appended =
        append_record held
          (WorkQueueRecord.work_claimed 0 opts.queue_id id c lease attempt worker now expires) in
      after_events (accepted opts appended.1 (some id) (some c) now)
        (claim_each ids c worker expires now appended.0)

  unfoldable pub miss_code : WorkState T → String
  miss_code w =
      if is_terminal w.state
      then "terminal-work"
      else if is_leased w.state
      then "already-leased"
      else "not-ready"

  -- The loop over the requested ids, in the order of the hash set.
  unfoldable pub claim_miss_events :
      RuntimeState T → String → List String → List String → ℕ → List (QueueEvent T)
  claim_miss_events s c [] claimed now = []
  claim_miss_events s c (id ∷ ids) claimed now =
      let rest = claim_miss_events s c ids claimed now in
      if contains id claimed then rest else elim (find_work host id s) [
        | none ↦
            reject_queue_command_by_id opts (some c) "unknown-work"
              (str_append "unknown work '" (str_append id "'")) now
            ++ rest
        | some w ↦
            if is_ready w now
            then rest
            else reject_queue_command_by_id opts (some c) (miss_code w)
                (str_append "requested work '" (str_append id "' is not claimable")) now
              ++ rest
      ]

  unfoldable pub misses :
      RuntimeState T → String → List String → List String → ℕ → List (QueueEvent T)
  misses s c requested claimed now =
      if is_nil requested then [] else claim_miss_events s c (host.visit requested) claimed now

  abbrev pub then_misses :
      String
      → List String
      → List String
      → ℕ
      → Option (RuntimeState T × List (QueueEvent T))
      → Option (RuntimeState T × List (QueueEvent T))
  then_misses c requested claimed now none = none
  then_misses c requested claimed now (some (s, es)) =
      some (s, es ++ misses s c requested claimed now)

  -- The ids to claim: of all candidates, the first ones.
  unfoldable pub candidates : List String → ℕ → ℕ → RuntimeState T → List String
  candidates requested now limit s =
      map (λ c. c.1)
        (take limit (
          sort_candidates host (
            map (λ row. (row.1.admission_seq, row.1.work_id))
              (keep (λ row. is_candidate requested now row.1) s.works))))

  -- What follows once the leases that ran out are expired. An overflow returns without the events
  -- of those.
  unfoldable pub claim_candidates :
      String
      → String
      → List String
      → List String
      → Option ℕ
      → ℕ
      → RuntimeState T × List (QueueEvent T)
      → Option (RuntimeState T × List (QueueEvent T))
  claim_candidates c worker requested chosen duration now (s, events) =
      if is_nil chosen
      then some (
        s,
        events
            ++ (if is_nil requested
                then reject_queue_command_by_id opts (some c) "not-ready" "no ready work" now
                else claim_miss_events s c (host.visit requested) [] now),
      )
      else elim (checked_timestamp {T = T} opts (some c) now
          (unwrap_or duration opts.lease_duration_ms) "lease duration overflows timestamp") [
            | inr refused ↦ some (s, refused)
            | inl expires ↦
                after_events events
                  (then_misses c requested chosen now (claim_each chosen c worker expires now s))
          ]

  unfoldable pub claim_work :
      RuntimeState T → WorkQueueCommand T → ℕ → Option (RuntimeState T × List (QueueEvent T))
  claim_work s (WorkQueueCommand.claim c q k worker requested bound duration at) now =
      positive_limit (unwrap_or bound (at_least_one (length requested))) >>= λ limit.
      let expired = expire_each (select_ids (is_lapsed requested now) s.works) c now s in
      claim_candidates c worker requested (candidates requested now limit expired.0) duration now
        expired
  claim_work s _ now = some (s, [])

  unfoldable pub expire_leases :
      RuntimeState T → WorkQueueCommand T → ℕ → Option (RuntimeState T × List (QueueEvent T))
  expire_leases s (WorkQueueCommand.expire c q k requested bound at) now =
      positive_limit (unwrap_or bound usize_max) >>= λ limit.
      let ids = take limit (select_ids (is_lapsed requested now) s.works) in
      let expired = expire_each ids c now s in
      some (
        if is_nil ids
        then (
          s,
          status_event opts WorkQueueStatusKind.maintenance_noop now
                (record no_fields { command_id = some c })
              ∷ [],
        )
        else (
          expired.0,
          expired.1
              ++ status_event opts WorkQueueStatusKind.maintenance_applied now (record no_fields {
                command_id = some c;
                details = some (str_append "expired=" (host.show (length ids)));
              })
                ∷ [],
        ))
  expire_leases s _ now = some (s, [])
