-- ===== src/WorkQueue/Pages.antt =====
-- The pages that are read from the state of the queue: `available_page`, `work_snapshot` and
-- `dead_letter_page` of crates/graphrefly/src/work_queue.rs.
use Prim.Native.Nat.{compare, Ordering, lt, eq, gt}
use graphrefly_rs.Prelude.{
  ℕ, ℤ, Bool, true, false, not, ◌&&◌, Option, none, some, List, [], ◌∷◌, map, String, length, take,
  last, keep, ltb, str_eq, if◌then◌else◌, ◌>>=◌,
}
use graphrefly_rs.WorkQueue.Records.{WorkQueueRecord, record_seq, record_work_id}
use graphrefly_rs.WorkQueue.State.{
  Host, WorkQueueDerivedState, WorkState, RuntimeState, is_leased, is_ready_for_projection,
  find_work,
}
use graphrefly_rs.WorkQueue.Leases.{unwrap_or}
use graphrefly_rs.WorkQueue.Claims.{positive_limit}
pub mod DeadLetters

pub record WorkQueueAvailableItem {ℓ} (T : Type ℓ) : Type ℓ where
  pub work_id : String
  pub state : WorkQueueDerivedState
  pub payload : T
  pub admission_seq : ℕ
  pub priority : Option ℤ
  pub tags : List String
  pub requirements : List String
  pub not_before_ms : Option ℕ
  pub retry_at_ms : Option ℕ
  pub deadline_ms : Option ℕ

pub record WorkQueueAvailablePage {ℓ} (T : Type ℓ) : Type ℓ where
  pub items : List (WorkQueueAvailableItem T)
  pub next_after_work_id : Option String
  pub next_after_admission_seq : Option ℕ
  pub has_more : Bool
  pub as_of_record_seq : ℕ

pub record WorkQueueActiveLease : Type 0 where
  pub lease_id : String
  pub attempt : ℕ
  pub worker_id : String
  pub lease_expires_at_ms : ℕ

pub record WorkQueueWorkSnapshot {ℓ} (T : Type ℓ) : Type ℓ where
  pub work_id : String
  pub state : Option WorkQueueDerivedState
  pub payload : Option T
  pub active_lease : Option WorkQueueActiveLease
  pub records : List (WorkQueueRecord T)
  pub as_of_record_seq : ℕ

pub record WorkQueueDeadLetterPage {ℓ} (T : Type ℓ) : Type ℓ where
  pub entries : List (WorkQueueRecord T)
  pub next_after_dead_letter_seq : Option ℕ
  pub has_more : Bool
  pub as_of_record_seq : ℕ

pub record WorkQueueAvailableParams : Type 0 where
  pub limit : Option ℕ
  pub after_work_id : Option String
  pub after_admission_seq : Option ℕ
  pub now_ms : Option ℕ

pub record WorkQueueDeadLetterParams : Type 0 where
  pub limit : Option ℕ
  pub after_dead_letter_seq : Option ℕ
  pub after_work_id : Option String

-- `Option::is_none_or`.
abbrev pub is_none_or {ℓ} : {A : Type ℓ} → Option A → (A → Bool) → Bool
is_none_or none p = true
is_none_or (some a) p = p a

-- `then(..)` of an option that is flattened.
abbrev pub when_more {ℓ} : {A : Type ℓ} → Bool → Option A → Option A
when_more true o = o
when_more false o = none

module _ (host : Host) where
  -- `a > b` of strings.
  unfoldable pub is_after : String → String → Bool
  is_after a b = elim (host.order.cmp b a) [ lt ↦ true | eq ↦ false | gt ↦ false ]

  module _ {ℓ} {T : Type ℓ} where
    unfoldable pub is_past : WorkQueueAvailableParams → WorkState T → Bool
    is_past params w = past params.after_admission_seq params.after_work_id
      where
        past : Option ℕ → Option String → Bool
        past (some seq) (some id) = elim (compare w.admission_seq seq) [
          | lt ↦ false
          | eq ↦ is_after w.work_id id
          | gt ↦ true
        ]
        past (some seq) none = ltb seq w.admission_seq
        past none (some id) = is_after w.work_id id
        past none none = true

    abbrev pub item_of : WorkState T → WorkQueueAvailableItem T
    item_of w = record {
      work_id = w.work_id;
      state = w.state;
      payload = w.payload;
      admission_seq = w.admission_seq;
      priority = w.priority;
      tags = w.tags;
      requirements = w.requirements;
      not_before_ms = w.not_before_ms;
      retry_at_ms = w.retry_at_ms;
      deadline_ms = w.deadline_ms;
    }

    -- `sort_by` of items: by number of admission, then by id. It is stable.
    unfoldable pub item_first : WorkQueueAvailableItem T → WorkQueueAvailableItem T → Bool
    item_first a b = elim (compare a.admission_seq b.admission_seq) [
      | lt ↦ true
      | gt ↦ false
      | eq ↦ not (is_after a.work_id b.work_id)
    ]

    unfoldable pub insert_item :
        WorkQueueAvailableItem T → List (WorkQueueAvailableItem T) → List (WorkQueueAvailableItem T)
    insert_item a [] = a ∷ []
    insert_item a (b ∷ bs) =
        let rest = insert_item a bs in if item_first a b then a ∷ b ∷ bs else b ∷ rest

    unfoldable pub sort_items : List (WorkQueueAvailableItem T) → List (WorkQueueAvailableItem T)
    sort_items [] = []
    sort_items (a ∷ items) = insert_item a (sort_items items)

    unfoldable pub available_page :
        RuntimeState T → WorkQueueAvailableParams → Option (WorkQueueAvailablePage T)
    available_page s params = positive_limit (unwrap_or params.limit 100) >>= λ limit.
        let items = sort_items (
          map (λ row. item_of row.1)
            (keep (λ row. is_ready_for_projection row.1 params.now_ms && is_past params row.1)
              s.works)) in
        let page = take limit items in
        let more = ltb limit (length items) in
        some (record {
          items = page;
          next_after_work_id = when_more more (last page >>= λ a. some a.work_id);
          next_after_admission_seq = when_more more (last page >>= λ a. some a.admission_seq);
          has_more = more;
          as_of_record_seq = s.record_seq;
        })

    -- The lease of a work, each part of which `?` asks for.
    abbrev pub lease_of : WorkState T → Option WorkQueueActiveLease
    lease_of w = w.lease_id >>= λ lease. w.worker_id >>= λ worker.
        w.lease_expires_at_ms >>= λ expires. some (record {
          lease_id = lease;
          attempt = w.attempt;
          worker_id = worker;
          lease_expires_at_ms = expires;
        })

    abbrev pub active_lease : WorkState T → Option WorkQueueActiveLease
    active_lease w = if is_leased w.state then lease_of w else none

    unfoldable pub work_snapshot : RuntimeState T → String → WorkQueueWorkSnapshot T
    work_snapshot s id =
        let work = find_work host id s in
        record {
          work_id = id;
          state = work >>= λ w. some w.state;
          payload = work >>= λ w. some w.payload;
          active_lease = work >>= active_lease;
          records = keep (λ r. str_eq (record_work_id r) id) s.records;
          as_of_record_seq = s.record_seq;
        }

    unfoldable pub is_listed : WorkQueueDeadLetterParams → WorkQueueRecord T → Bool
    is_listed params r =
        is_none_or params.after_dead_letter_seq (λ after. ltb after (record_seq r))
        && is_none_or params.after_work_id (λ after. is_after (record_work_id r) after)

    unfoldable pub dead_letter_page :
        RuntimeState T → WorkQueueDeadLetterParams → Option (WorkQueueDeadLetterPage T)
    dead_letter_page s params = positive_limit (unwrap_or params.limit 100) >>= λ limit.
        let entries = keep (is_listed params) s.dead_letters in
        let page = take limit entries in
        let more = ltb limit (length entries) in
        some (record {
          entries = page;
          next_after_dead_letter_seq = when_more more (last page >>= λ r. some (record_seq r));
          has_more = more;
          as_of_record_seq = s.record_seq;
        })
