-- ===== src/WorkQueue/State.antt =====
-- The state of the work queue's reducer and the parts that its handlers share: `WorkState`,
-- `RuntimeState`, `append_record`, `clear_lease` and the tests on a work, of
-- crates/graphrefly/src/work_queue.rs, and the keys of crates/graphrefly/src/identity.rs.
use Prim.Native.String.{◌++◌ as str_append}
use graphrefly_rs.Prelude.{
  ℕ, ℤ, ◌+◌, Bool, true, false, ◌&&◌, Option, none, some, List, [], ◌∷◌, ◌++◌, String, ◌≡◌, refl,
  eq_iff, str_eq, any, leb,
}
use graphrefly_rs.Collections.Maps.{Order, insert_row, find_row}
use graphrefly_rs.WorkQueue.Commands.{is_some_and}
use graphrefly_rs.WorkQueue.Records.{WorkQueueRecord, with_record_seq}
use graphrefly_rs.WorkQueue.Events.{QueueEvent}

-- What the reducer takes from Rust's libraries: the order of strings, `to_string` of a number,
-- the JSON text of a list of strings, and the order in which a hash set is visited.
pub record Host : Type 0 where
  pub order : Order String
  pub show : ℕ → String
  pub json : List String → String
  pub visit : List String → List String

pub data WorkQueueDerivedState : Type 0 where
  scheduled ready leased retry_wait completed canceled dead_lettered : WorkQueueDerivedState

pub record WorkState {ℓ} (T : Type ℓ) : Type ℓ where
  pub work_id : String
  pub payload : T
  pub state : WorkQueueDerivedState
  pub admission_seq : ℕ
  pub priority : Option ℤ
  pub tags : List String
  pub requirements : List String
  pub not_before_ms : Option ℕ
  pub retry_at_ms : Option ℕ
  pub deadline_ms : Option ℕ
  pub attempt : ℕ
  pub lease_id : Option String
  pub worker_id : Option String
  pub lease_expires_at_ms : Option ℕ

-- A `HashSet` is a list that is only asked what it contains.
pub record RuntimeState {ℓ} (T : Type ℓ) : Type ℓ where
  pub record_seq : ℕ
  pub lease_seq : ℕ
  pub works : List (String × WorkState T)
  pub source_seqs : List String
  pub command_ids : List String
  pub idempotency_keys : List String
  pub records : List (WorkQueueRecord T)
  pub dead_letters : List (WorkQueueRecord T)

abbrev pub contains : String → List String → Bool
contains x xs = any (str_eq x) xs

pub contains-head : (x : String) (xs : List String) → contains x (x ∷ xs) ≡ true
contains-head x xs = rw ((eq_iff x x).1 refl) refl

unfoldable pub canonical_tuple_key : Host → List String → String
canonical_tuple_key host parts = host.json parts

unfoldable pub compound_tuple_key : Host → String → List String → String
compound_tuple_key host prefix parts =
    str_append prefix (str_append ":" (canonical_tuple_key host parts))

unfoldable pub is_terminal : WorkQueueDerivedState → Bool
is_terminal WorkQueueDerivedState.completed = true
is_terminal WorkQueueDerivedState.canceled = true
is_terminal WorkQueueDerivedState.dead_lettered = true
is_terminal _ = false

unfoldable pub is_leased : WorkQueueDerivedState → Bool
is_leased WorkQueueDerivedState.leased = true
is_leased _ = false

module _ {ℓ} {T : Type ℓ} where
  -- `RuntimeState::default()`.
  abbrev pub default_state : RuntimeState T
  default_state = record {
    record_seq = 0;
    lease_seq = 0;
    works = [];
    source_seqs = [];
    command_ids = [];
    idempotency_keys = [];
    records = [];
    dead_letters = [];
  }

  abbrev pub clear_lease : WorkState T → WorkState T
  clear_lease w = record w { lease_id = none; worker_id = none; lease_expires_at_ms = none }

  unfoldable pub is_ready : WorkState T → ℕ → Bool
  is_ready w now = elim w.state [
    | WorkQueueDerivedState.scheduled ↦ is_some_and w.not_before_ms (λ t. leb t now)
    | WorkQueueDerivedState.retry_wait ↦ is_some_and w.retry_at_ms (λ t. leb t now)
    | WorkQueueDerivedState.ready ↦ true
    | _ ↦ false
  ]

  unfoldable pub is_ready_for_projection : WorkState T → Option ℕ → Bool
  is_ready_for_projection w now = elim w.state [
    | WorkQueueDerivedState.scheduled ↦ is_some_and now (is_ready w)
    | WorkQueueDerivedState.retry_wait ↦ is_some_and now (is_ready w)
    | WorkQueueDerivedState.ready ↦ true
    | _ ↦ false
  ]

  unfoldable pub is_expired : WorkState T → ℕ → Bool
  is_expired w now = is_leased w.state && is_some_and w.lease_expires_at_ms (λ t. leb t now)

  -- The next record of the journal, with its number, and the state with it.
  abbrev pub append_record : RuntimeState T → WorkQueueRecord T → RuntimeState T × WorkQueueRecord T
  append_record s r =
      let next = s.record_seq + 1 in
      let numbered = with_record_seq r next in
      (record s { record_seq = next; records = s.records ++ numbered ∷ [] }, numbered)

  -- `state.works.get` and `state.works.insert`, with which also a work that is changed in place is
  -- written back.
  abbrev pub find_work : Host → String → RuntimeState T → Option (WorkState T)
  find_work host key s = find_row host.order key s.works

  abbrev pub put_work : Host → String → WorkState T → RuntimeState T → RuntimeState T
  put_work host key w s = record s { works = insert_row host.order key w s.works }

  -- What a handler leaves and sends, after these events. `none` is a panic.
  abbrev pub after_events :
      List (QueueEvent T)
      → Option (RuntimeState T × List (QueueEvent T))
      → Option (RuntimeState T × List (QueueEvent T))
  after_events es none = none
  after_events es (some (s, rest)) = some (s, es ++ rest)
