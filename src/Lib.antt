-- ===== src/Lib.antt =====
-- The reactive graph core of graphrefly (crates/graphrefly/src), with the policies and the stores
-- that stand on it.
--
-- The program. A graph is a set of nodes. A node has dependencies, a cached value, and a function
-- that runs when its dependencies have settled. Nodes speak in waves of messages (protocol.rs):
-- DIRTY says that a value will follow, DATA and RESOLVED settle it, INVALIDATE takes a value back,
-- COMPLETE and ERROR end a node. Each message has a tier, and a wave is sent in the order of its
-- tiers. A node can be paused under locks, can wait for demands, and can stand in a batch, which
-- all hold waves back.
--
-- The files.
-- - Prelude: names of the libraries, Boolean tests, list helpers, saturating and wrapping
--   arithmetic.
-- - Protocol: crates/graphrefly/src/protocol.rs, tiers and messages.
-- - Node: crates/graphrefly/src/node.rs. Node.State has the side tables of one node (DepState,
--   NodeWaveState, NodeValueState, NodeConfigSlot, NodeAux; DepRecord and Ctx of ctx.rs are in
--   Node.Run). The parallel vectors of a node's dependencies are one list of slots. What a node
--   does to others is a list of effects in its state. Node.Slots has the writes to a slot,
--   Node.Gates the tests that decide whether a node runs or holds back (decide_maybe_run,
--   should_buffer_on_pause, can_fire_demand), Node.Receive what a message from a dependency leaves
--   to do (collect_receive_from_dep_action_from_graph) and Node.Apply how that is done
--   (InWaveDepReceiveAction::apply, receive_from_dep, with_wave_owner). Node.Sorting and Node.Down
--   are `down`, Node.Run is run_wave, maybe_run, try_run and settle_after_absorbed_terminal,
--   Node.Pause is pause_acquire, pause_release, on_resume and the demands. A panic is an exit that
--   keeps what was written (Node.Steps). Node.Machine is a node over time: a step for each message
--   of a dependency, wave of its own, PAUSE, RESUME, demand, and task of the delivery boundary; a
--   node that is deactivated, rewired or entered again in the middle of a wave is not covered.
--   Node.Invariant and its children, and the children of the other modules, have the proofs.
-- - Resilience: crates/graphrefly/src/resilience.rs. Backoff (BackoffPolicy::delay_ms, cap,
--   fibonacci), Retry (RetryPolicy, retry_status_node), Breaker (breaker_status_node), RateLimit
--   (rate_limit_bundle). The body of each node is a function of its kept state, its batch and the
--   clock.
-- - Collections: the backends of crates/graphrefly/src/data_structures.rs. Buffer has what
--   ListBackend and LogBackend share, Lists and Log the rest of each, Maps is MapBackend and Index
--   is IndexBackend. A BTreeMap is a sorted list of entries.
-- - WorkQueue: the reducer of crates/graphrefly/src/work_queue.rs. Commands, Records, Events and
--   State have its data types (WorkQueueCommand, WorkQueueRecord, WorkQueueStatus, WorkState,
--   RuntimeState), Leases has current_lease, materialize_lease_expired and renew_lease, Workers
--   the commands about one work, Claims has claim_work, claim_miss_events and expire_leases,
--   Validation has validate_queue_command, Reducer reduce_queue_command, admit_message and the
--   runtime node, Pages what is read from the state. A handler returns the state and the events,
--   or a panic. A work that is changed in place is written back. WorkQueue.Contract has the
--   transitions that a work may make and who may make them, written apart from the handlers;
--   WorkQueue.Trace is a run of such transitions and appended records, and WorkQueue.Outcome says
--   that a handler is one. The children of the modules have the proofs.
-- - Batch: the frame of crates/graphrefly/src/batch.rs (ActiveBatch, defer_to_batch, commit,
--   rollback and the questions about the frame of a thread). The commit of a wave by a node is an
--   argument. Batch.Collects has the map that a frame stands for.
-- - Versioning: crates/graphrefly/src/versioning.rs. Policies, create_node_version,
--   advance_node_version and next_counter stand in Versioning, the JSON of a version and its
--   restore in Versioning.Json, and the check of strict JSON (validate_strict_json_value of
--   crates/graphrefly/src/json.rs) in Versioning.Strict.
-- - Node.Examples, Resilience.Examples, Collections.Examples, WorkQueue.Examples, Batch.Examples
--   and Versioning.Examples have small concrete cases.
--
-- Bounds. Numbers are natural numbers. u32 and u64 values saturate or wrap where the code says so;
-- that an input is in range is a hypothesis where it matters. The pending count of a node is an
-- i32 in the code and a number here; it falls only together with a dirty flag. All loops are over
-- lists or count down, so there is no fuel; the walk over a JSON value counts down the 128 levels
-- that the code allows. The attempts (u32) and the lease counter (u64) of the work queue wrap, as
-- in a build without overflow checks; with the checks a counter that is full panics. The record
-- counter, a u64, is not bounded: it is the length of the journal that the state holds, which no
-- memory makes that long. Timestamps are checked as in the code.
--
-- Sorting. `sort_by_key` and `sort_by` of the standard library are stable sorts, whose result is
-- determined by their documentation; they are written as insertion sorts.
--
-- Parameters. The user's function is a parameter: it reads its context and returns a list of
-- actions (send a wave, register a hook, panic). It does not reach its own node in another way.
-- Hooks and subscribers are opaque: a hook has a number, a message to subscribers is an effect.
-- The erased type of values is a type parameter. The order of keys in a map is a record with its
-- laws; Collections.Maps.Strings has the one of strings. The work queue takes this order, the text
-- of a number (to_string), the JSON text of a list of strings (serde_json) and the order in which
-- a hash set is visited from a record, WorkQueue.State.Host, and asks nothing of them beyond the
-- laws of the order. The time is passed to its handlers. Versions take the canonical bytes of
-- values and the JSON values of serde_json as interfaces (Versioning.Codec,
-- Versioning.Strict.JsonValues), the second with the laws that serde_json documents
-- (Versioning.Restore.IsJson): the map of an object keeps its entries sorted by key.
--
-- Not modelled. The place of versions in a node, which is modelled under the policy that disables
-- them; activation and deactivation of nodes, rewiring, routing of messages upstream, delivery
-- between nodes and the drain of the delivery boundary (a task left to it is an effect, and doing
-- it is a step of Node.Machine); recovery of other nodes than the one that panicked; the arena's
-- reference counts. Of the collections, the reactive wrappers and views over the backends. The
-- timeout bundle of resilience.rs. Of the work queue, the nodes that carry its events, the polling
-- of the message bus and the readiness helper. Of batches, the function that runs one, and the
-- drain of boundary tasks. Storage, codecs, operators, messaging, process and CQRS patterns,
-- adapters and bindings.
pub mod Prelude
pub mod Protocol
pub mod Node
pub mod Resilience
pub mod Collections
pub mod WorkQueue
pub mod Versioning
pub mod Batch
