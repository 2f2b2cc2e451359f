-- ===== src/Node/Pause.antt =====
-- The PAUSE and RESUME lockset, and PULL demands.
pub mod Lockset
pub mod Holding
pub mod Replay
use graphrefly_rs.Prelude.{
  Bool, true, false, not, ◌&&◌, ◌||◌, Option, none, some, List, [], ◌∷◌, is_nil, is_some, last,
  ◌==◌, str_eq, if◌then◌else◌,
}
use graphrefly_rs.Protocol.{LockId, Wave, PullDemand}
use graphrefly_rs.Node.State.{NodeState, Delivery}
use graphrefly_rs.Node.Gates.{can_fire_demand, first_run_gated, is_coalesce}
use graphrefly_rs.Node.Steps.{Exit, done, followed_by, when}
use graphrefly_rs.Node.Down.{down, clear_on_terminal}
use graphrefly_rs.Node.Run.{NodeFn, try_run}

-- `HashSet<LockId>`: `insert`, `remove` and `contains`.
unfoldable pub holds_lock : LockId → List LockId → Bool
holds_lock l [] = false
holds_lock l (k ∷ ks) = str_eq k l || holds_lock l ks

unfoldable pub insert_lock : LockId → List LockId → List LockId
unfolding holds_lock
insert_lock l ks = if holds_lock l ks then ks else l ∷ ks

unfoldable pub remove_lock : LockId → List LockId → List LockId
remove_lock l [] = []
remove_lock l (k ∷ ks) = let rest = remove_lock l ks in if str_eq k l then rest else k ∷ rest

module _ {ℓ} {A : Type ℓ} where
  abbrev pub set_locks : List LockId → NodeState A → NodeState A
  set_locks ks n = record n { aux = record n.aux { pause_lockset = ks } }

  unfoldable pub pause_acquire : LockId → NodeState A → NodeState A
  unfolding insert_lock
  pause_acquire l n = set_locks (insert_lock l n.aux.pause_lockset) n

  unfoldable pub down_each : Delivery → List (Wave A) → NodeState A → NodeState A × Exit
  unfolding down
  down_each d [] n = done n
  down_each d (w ∷ ws) n = followed_by (down d w n) (λ m. down_each d ws m)

  unfoldable pub fire_skipped : NodeFn A → Delivery → NodeState A → NodeState A × Exit
  unfolding try_run
  fire_skipped fn d n =
      if n.aux.paused_dep_wave_occurred
      then try_run fn d (record n { aux = record n.aux { paused_dep_wave_occurred = false } })
      else done n

  unfoldable pub on_resume : NodeFn A → Delivery → NodeState A → NodeState A × Exit
  unfolding clear_on_terminal down_each fire_skipped
  on_resume fn d n =
      if n.value.terminal
      then done (record n { aux = clear_on_terminal n.aux })
      else followed_by
          (down_each d n.aux.pause_buffer (record n { aux = record n.aux { pause_buffer = [] } }))
          (fire_skipped fn d)

  -- A coalescing node delivers only the last wave that it holds.
  unfoldable pub to_replay : Bool → List (Wave A) → List (Wave A)
  to_replay true ws = elim (last ws) [ none ↦ [] | some w ↦ w ∷ [] ]
  to_replay false ws = ws

  unfoldable pub owe_dirty : NodeState A → NodeState A
  owe_dirty n = record n {
    aux = record n.aux { pull_dirty_owed = true };
    wave = record n.wave { emitted_dirty_this_wave = false };
  }

  unfoldable pub fire_pull_demand : NodeFn A → Delivery → NodeState A → NodeState A × Exit
  unfolding to_replay down_each first_run_gated try_run owe_dirty
  fire_pull_demand fn d n =
      let ws = n.aux.pause_buffer in
      let n' = record n { aux = record n.aux { pause_buffer = [] } } in
      if not (is_nil ws)
      then down_each d (to_replay (is_coalesce n.config.pausable) ws) n'
      else if n.aux.paused_dep_wave_occurred
      then (if not (n.pending == 0) || first_run_gated n
          then done n'
          else try_run fn d
              (owe_dirty (record n' { aux = record n'.aux { paused_dep_wave_occurred = false } })))
      else when n.config.has_handle (λ m. try_run fn d (owe_dirty m)) n'

  -- `PullDelivery`, which a panic does not skip.
  abbrev pub leave_demand : NodeState A × Exit → NodeState A × Exit
  leave_demand (n, e) = (
    record n {
      aux = record n.aux { active_pull = none; in_deliver_demand = false; pull_dirty_owed = false };
    },
    e,
  )

  unfoldable pub deliver_pull_demand :
      NodeFn A → Delivery → PullDemand A → NodeState A → NodeState A × Exit
  unfolding fire_pull_demand
  deliver_pull_demand fn d p n = leave_demand (
      fire_pull_demand fn d
        (record n { aux = record n.aux { active_pull = some p; in_deliver_demand = true } }))

  unfoldable pub serve_owed :
      NodeFn A → Delivery → Option (PullDemand A) → NodeState A → NodeState A × Exit
  unfolding deliver_pull_demand
  serve_owed fn d none n = done n
  serve_owed fn d (some p) n =
      deliver_pull_demand fn d p (record n { aux = record n.aux { pull_demand_owed = none } })

  unfoldable pub fire_owed_demand_if_ready : NodeFn A → Delivery → NodeState A → NodeState A × Exit
  unfolding can_fire_demand serve_owed
  fire_owed_demand_if_ready fn d n =
      if n.aux.in_deliver_demand || not (can_fire_demand n)
      then done n
      else serve_owed fn d n.aux.pull_demand_owed n

  unfoldable pub on_demand : NodeFn A → Delivery → PullDemand A → NodeState A → NodeState A × Exit
  unfolding fire_owed_demand_if_ready
  on_demand fn d p n =
      if not (is_some n.config.pull_id) || n.aux.in_deliver_demand
      then done n
      else fire_owed_demand_if_ready fn d
          (record n { aux = record n.aux { pull_demand_owed = some p } })

  unfoldable pub pause_release : NodeFn A → Delivery → LockId → NodeState A → NodeState A × Exit
  unfolding holds_lock remove_lock on_resume fire_owed_demand_if_ready
  pause_release fn d l n =
      if not (holds_lock l n.aux.pause_lockset)
      then done n
      else let n' = set_locks (remove_lock l n.aux.pause_lockset) n in
        followed_by
          (when (is_nil n'.aux.pause_lockset && not (is_some n.config.pull_id)) (on_resume fn d) n')
          (fire_owed_demand_if_ready fn d)
