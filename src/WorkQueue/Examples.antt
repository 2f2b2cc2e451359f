-- ===== src/WorkQueue/Examples.antt =====
-- Runs of the work queue at concrete inputs: two works, of which one fails for good and the other is
-- leased.
use Prim.Native.String.{◌++◌ as str_append}
use graphrefly_rs.Prelude.{
  ℕ, zero, suc, ◌≡◌, ◌⊎◌, refl, ◌++◌, true, false, Option, none, some, List, [], ◌∷◌, String,
  is_some, true-ne-false, sym, take, length, u64_max,
}
use graphrefly_rs.Resilience.Backoff.{BackoffPolicy}
use graphrefly_rs.Collections.Maps.Strings.{text_order}
use graphrefly_rs.WorkQueue.Commands.{WorkQueueCommand, WorkQueueSubmit}
use graphrefly_rs.WorkQueue.Events.{RuntimeOptions, QueueEvent}
use graphrefly_rs.WorkQueue.State.{
  Host, RuntimeState, WorkState, WorkQueueDerivedState, default_state,
}
use graphrefly_rs.WorkQueue.Reducer.{MessageEnvelope}
use graphrefly_rs.WorkQueue.State.{find_work}
use graphrefly_rs.WorkQueue.Events.{reject_queue_command}
use graphrefly_rs.WorkQueue.Contract.{target, verb, Verb, Holds}
use graphrefly_rs.WorkQueue.Trace.{journaled}
use graphrefly_rs.WorkQueue.Trace.Works.{Advances}
use graphrefly_rs.WorkQueue.Reducer.Promises.{
  IsQueue, reduce_queue_command-Refines, lease_is_exclusive,
}
use graphrefly_rs.WorkQueue.Reducer.Once.{at_once, after_message, command_id_once, admitted_once}
use graphrefly_rs.WorkQueue.Reducer.Journaling.{sends_journal}
use graphrefly_rs.WorkQueue.Reducer.Batches.{History, never_panics, History-IsQueue, ended_stays}
use graphrefly_rs.WorkQueue.Pages.{WorkQueueDeadLetterPage, dead_letter_page}
use graphrefly_rs.WorkQueue.Pages.DeadLetters.{params_after, entries_after, Continues, pages_follow}
use graphrefly_rs.WorkQueue.Commands.{command_id, queue_id, idempotency_key, command_now_ms}
use graphrefly_rs.WorkQueue.Records.{record_seq, with_record_seq}
use graphrefly_rs.WorkQueue.Events.{checked_timestamp}
use graphrefly_rs.WorkQueue.State.{
  canonical_tuple_key, compound_tuple_key, is_terminal, is_leased, is_ready,
  is_ready_for_projection, is_expired,
}
use graphrefly_rs.WorkQueue.Leases.{
  materialize_lease_expired, current_lease, under_lease, renewed_expiry, renew_lease,
}
use graphrefly_rs.WorkQueue.Workers.{
  wants_retry, retry_delay, retry_time, release_work, complete_work, give_up_work, retry_work,
  fail_work, cancel_work, schedule_work,
}
use graphrefly_rs.WorkQueue.Claims.{
  positive_limit, select_ids, is_lapsed, is_candidate, claims_first, insert_candidate,
  sort_candidates, expire_each, claim_each, miss_code, claim_miss_events, misses, candidates,
  claim_candidates, claim_work, expire_leases,
}
use graphrefly_rs.WorkQueue.Reducer.{
  dispatch_command, refusal, reduce_queue_command, admitted_id, admitted_work, admit_new,
  admit_duplicate, admit_message, admit_all, reduce_all, run_batch,
}
use graphrefly_rs.WorkQueue.Validation.{validate_fields, validate_queue_command}
use graphrefly_rs.Collections.Maps.{insert_row, find_row}
use graphrefly_rs.Resilience.Retry.{should_retry, next_delay_ms}

abbrev show_tally : ℕ → String
show_tally zero = ""
show_tally (suc n) = str_append "1" (show_tally n)

abbrev show_parts : List String → String
show_parts [] = ""
show_parts (p ∷ ps) = str_append p (str_append "," (show_parts ps))

abbrev host : Host
host = record { order = text_order; show = show_tally; json = show_parts; visit = λ ids. ids }

abbrev opts : RuntimeOptions
opts = record {
  queue_id = "q";
  subscription_id = "s";
  lease_duration_ms = 100;
  retry = record { max_attempts = 3; backoff = BackoffPolicy.constant 10 };
}

abbrev asked : String → ℕ → MessageEnvelope (WorkQueueSubmit ℕ) × ℕ
asked id seq = (
  record {
    topic = "t";
    seq = seq;
    payload = record {
      payload = seq;
      work_id = some id;
      priority = none;
      tags = [];
      requirements = [];
      not_before_ms = none;
      deadline_ms = none;
    };
    key = none;
    timestamp_ms = 0;
    command_id = none;
    idempotency_key = none;
  },
  5,
)

abbrev messages : List (MessageEnvelope (WorkQueueSubmit ℕ) × ℕ)
messages = asked "a" 1 ∷ asked "b" 2 ∷ []

abbrev claim_one : String → String → WorkQueueCommand ℕ
claim_one c id = WorkQueueCommand.claim c none none "w" (id ∷ []) none none none

abbrev commands : List (WorkQueueCommand ℕ × ℕ)
commands =
    (claim_one "c1" "a", 10)
    ∷ (
      WorkQueueCommand.fail "c2" none none "a" "work-queue-lease:a,1," 1 "w" none (some false) none,
      20,
    )
    ∷ (claim_one "c3" "b", 30)
    ∷ []

abbrev state_of : Option (RuntimeState ℕ × List (QueueEvent ℕ)) → RuntimeState ℕ
state_of none = default_state
state_of (some (s, es)) = s

abbrev events_of : Option (RuntimeState ℕ × List (QueueEvent ℕ)) → List (QueueEvent ℕ)
events_of none = []
events_of (some (s, es)) = es

abbrev first_run : Option (RuntimeState ℕ × List (QueueEvent ℕ))
first_run = run_batch host opts messages commands default_state

abbrev busy : RuntimeState ℕ
busy = state_of first_run

some-parts :
    (o : Option (RuntimeState ℕ × List (QueueEvent ℕ)))
    → is_some o ≡ true
    → o ≡ some (state_of o, events_of o)
some-parts none h = absurd (true-ne-false (sym h))
some-parts (some (s, es)) h = refl

never_panics_example : is_some (run_batch host opts messages commands default_state) ≡ true
never_panics_example = never_panics host opts messages commands History.empty

busy-History : History host opts busy
busy-History =
    History.batch messages commands busy (events_of first_run) History.empty
      (some-parts first_run (never_panics host opts messages commands History.empty))

busy-IsQueue : IsQueue host busy
busy-IsQueue = History-IsQueue host opts busy-History

History-IsQueue_example : IsQueue host busy
History-IsQueue_example = History-IsQueue host opts busy-History

abbrev work_of : String → ℕ → WorkQueueDerivedState → WorkState ℕ
work_of id seq state = record {
  work_id = id;
  payload = seq;
  state = state;
  admission_seq = seq;
  priority = none;
  tags = [];
  requirements = [];
  not_before_ms = none;
  retry_at_ms = none;
  deadline_ms = none;
  attempt = 1;
  lease_id = none;
  worker_id = none;
  lease_expires_at_ms = none;
}

abbrev dead : WorkState ℕ
dead = work_of "a" 1 WorkQueueDerivedState.dead_lettered

abbrev held : WorkState ℕ
held = record (work_of "b" 2 WorkQueueDerivedState.leased) {
  lease_id = some "work-queue-lease:b,11,";
  worker_id = some "w";
  lease_expires_at_ms = some 130;
}

abbrev cancel_dead : List (WorkQueueCommand ℕ × ℕ)
cancel_dead = (WorkQueueCommand.cancel "c4" none none "a" none none, 40) ∷ []

-- Another worker tries to complete the work that is leased.
abbrev intrude : WorkQueueCommand ℕ
intrude = WorkQueueCommand.complete "c5" none none "b" "work-queue-lease:b,11," 1 "thief" none none

abbrev intruded : Option (RuntimeState ℕ × List (QueueEvent ℕ))
intruded = reduce_queue_command host opts busy intrude 50

-- The lease of "b" has run out, and its new lease would end after the last timestamp.
abbrev overflowed : Option (RuntimeState ℕ × List (QueueEvent ℕ))
overflowed =
    reduce_queue_command host opts busy
      (WorkQueueCommand.claim "c6" none none "w" [] none (some u64_max) none) 200

-- What these runs give. In the last one the record of the expiry is in the journal and is not sent.
runs_give :
    (find_work host "a" busy ≡ some dead)
    × (find_work host "b" busy ≡ some held)
    × (is_some intruded ≡ true)
    × (refusal host opts busy intrude ≡ none)
    × (length busy.records ≡ 6)
    × (length (state_of overflowed).records ≡ 7)
    × (journaled (events_of overflowed) ≡ [])
unfolding command_id queue_id idempotency_key command_now_ms record_seq with_record_seq
    checked_timestamp canonical_tuple_key compound_tuple_key is_terminal is_leased is_ready
    is_ready_for_projection is_expired materialize_lease_expired current_lease under_lease
    renewed_expiry renew_lease wants_retry retry_delay retry_time release_work complete_work
    give_up_work retry_work fail_work cancel_work schedule_work positive_limit select_ids is_lapsed
    is_candidate claims_first insert_candidate sort_candidates expire_each claim_each miss_code
    claim_miss_events misses candidates claim_candidates claim_work expire_leases validate_fields
    validate_queue_command dispatch_command refusal reduce_queue_command admitted_id admitted_work
    admit_new admit_duplicate admit_message admit_all reduce_all run_batch insert_row find_row
    should_retry next_delay_ms
runs_give = (refl, refl, refl, refl, refl, refl, refl)

ended_stays_example :
    find_work host "a" (state_of (run_batch host opts [] cancel_dead busy)) ≡ some dead
unfolding is_terminal
ended_stays_example =
    ended_stays host opts [] cancel_dead (events_of (run_batch host opts [] cancel_dead busy)) "a"
      dead busy-History runs_give.0 refl
      (some-parts (run_batch host opts [] cancel_dead busy)
        (never_panics host opts [] cancel_dead busy-History))

lease_is_exclusive_example :
    ((target intrude ≡ some "b") × ((verb intrude ≡ Verb.canceling) ⊎ Holds intrude 50 held))
    ⊎ (find_work host "b" (state_of intruded) ≡ some held)
unfolding is_leased is_expired
lease_is_exclusive_example =
    lease_is_exclusive host opts intrude busy (state_of intruded) (events_of intruded) 50 "b" held
      busy-IsQueue runs_give.1 refl refl (some-parts intruded runs_give.2)

reduce_queue_command-Refines_example :
    (t : RuntimeState ℕ) × (es : List (QueueEvent ℕ)) × (reduce_queue_command host opts busy intrude
        50
      ≡ some (t, es))
    × IsQueue host t
    × Advances intrude 50 "b" (find_work host "b" busy) (find_work host "b" t)
reduce_queue_command-Refines_example =
    reduce_queue_command-Refines host opts intrude busy 50 "b" busy-IsQueue

sends_journal_example : (state_of intruded).records ≡ busy.records ++ journaled (events_of intruded)
sends_journal_example =
    sends_journal host opts intrude busy (state_of intruded) (events_of intruded) 50 busy-IsQueue
      refl (some-parts intruded runs_give.2)

command_id_once_example :
    let later = (admit_message host opts (state_of intruded) (asked "c" 3).0 55).0 in
    (error : String × String) × (reduce_queue_command host opts later intrude 60
      ≡ some (later, reject_queue_command opts intrude error.0 error.1 60))
command_id_once_example =
    command_id_once host opts intrude intrude busy (state_of intruded)
      (admit_message host opts (state_of intruded) (asked "c" 3).0 55).0 (events_of intruded) 50 60
      busy-IsQueue runs_give.3 (some-parts intruded runs_give.2)
      (after_message (asked "c" 3).0 55 at_once) refl

admitted_once_example :
    let once = (admit_message host opts busy (asked "c" 3).0 70).0 in
    let later = (admit_message host opts once (asked "d" 4).0 75).0 in
    admit_message host opts later (asked "c" 3).0 80 ≡ (later, [])
admitted_once_example =
    admitted_once host opts busy
      (admit_message host opts (admit_message host opts busy (asked "c" 3).0 70).0 (asked "d" 4).0
        75).0
      (asked "c" 3).0 70 80 busy-IsQueue (after_message (asked "d" 4).0 75 at_once)

pages_follow_example :
    (page : WorkQueueDeadLetterPage ℕ) × (dead_letter_page host busy (params_after 1 0) ≡ some page)
    × (page.entries ≡ take 1 (entries_after busy 0))
    × Continues busy 1 0 page
pages_follow_example = pages_follow host busy 0 0 busy-IsQueue.journal

abbrev waiting : List (ℕ × String)
waiting = (4, "b") ∷ (9, "a") ∷ (4, "a") ∷ []

sorted_waiting : sort_candidates host waiting ≡ (4, "a") ∷ (4, "b") ∷ (9, "a") ∷ []
unfolding sort_candidates insert_candidate claims_first
sorted_waiting = refl
