-- ===== src/Node/Invariant/Pulls.antt =====
-- RESUME and PULL, and the invariant.
use graphrefly_rs.Prelude.{
  true, false, Option, none, some, List, [], ◌∷◌, arith, is_some, is_nil, not, ◌&&◌,
}
use graphrefly_rs.Protocol.{Wave, PullDemand, LockId}
use graphrefly_rs.Node.State.{NodeState, Delivery}
use graphrefly_rs.Node.Steps.{Exit, when}
use graphrefly_rs.Node.Gates.{is_coalesce}
use graphrefly_rs.Node.Down.{down}
use graphrefly_rs.Node.Run.{NodeFn}
use graphrefly_rs.Node.Pause.{
  down_each, fire_skipped, on_resume, to_replay, owe_dirty, leave_demand, fire_pull_demand,
  deliver_pull_demand, serve_owed, fire_owed_demand_if_ready, on_demand, set_locks, remove_lock,
  pause_acquire, pause_release,
}
use graphrefly_rs.Node.Invariant.{Inv, down-Inv}
use graphrefly_rs.Node.Invariant.Runs.{followed_by-Inv, when-Inv, try_run-Inv}

module _ {ℓ} {A : Type ℓ} where
  down_each-Inv :
      (d : Delivery) (ws : List (Wave A)) (n : NodeState A) → Inv n → Inv (down_each d ws n).0
  unfolding down_each
  down_each-Inv d [] n v = v
  down_each-Inv d (w ∷ ws) n v =
      followed_by-Inv (down d w n) (λ m. down_each d ws m) (down-Inv d w n v)
        (λ m u. down_each-Inv d ws m u)

  fire_skipped-Inv :
      (fn : NodeFn A) (d : Delivery) (n : NodeState A) → Inv n → Inv (fire_skipped fn d n).0
  unfolding fire_skipped
  fire_skipped-Inv fn d n v = ground (
    arith,
    try_run-Inv fn d (record n { aux = record n.aux { paused_dep_wave_occurred = false } }),
  )

  pub on_resume-Inv :
      (fn : NodeFn A) (d : Delivery) (n : NodeState A) → Inv n → Inv (on_resume fn d n).0
  unfolding on_resume
  on_resume-Inv fn d n v =
      let n' = record n { aux = record n.aux { pause_buffer = [] } } in
      let v' : Inv n' = ground arith in
      ground (
        arith,
        followed_by-Inv (down_each d n.aux.pause_buffer n') (fire_skipped fn d)
            (down_each-Inv d n.aux.pause_buffer n' v') (fire_skipped-Inv fn d),
      )

  owe_dirty-Inv : (n : NodeState A) → Inv n → Inv (owe_dirty n)
  unfolding owe_dirty
  owe_dirty-Inv n v = ground arith

  fire_pull_demand-Inv :
      (fn : NodeFn A) (d : Delivery) (n : NodeState A) → Inv n → Inv (fire_pull_demand fn d n).0
  unfolding fire_pull_demand
  fire_pull_demand-Inv fn d n v =
      let n' = record n { aux = record n.aux { pause_buffer = [] } } in
      let v' : Inv n' = ground arith in
      let n'' = record n' { aux = record n'.aux { paused_dep_wave_occurred = false } } in
      let v'' : Inv n'' = ground arith in
      ground (
        arith,
        down_each-Inv d (to_replay (is_coalesce n.config.pausable) n.aux.pause_buffer) n' v',
        try_run-Inv fn d (owe_dirty n'') (owe_dirty-Inv n'' v''),
        try_run-Inv fn d (owe_dirty n') (owe_dirty-Inv n' v'),
      )

  leave_demand-Inv : (r : NodeState A × Exit) → Inv r.0 → Inv (leave_demand r).0
  leave_demand-Inv (n, e) v = ground arith

  deliver_pull_demand-Inv :
      (fn : NodeFn A) (d : Delivery) (p : PullDemand A) (n : NodeState A)
      → Inv n
      → Inv (deliver_pull_demand fn d p n).0
  unfolding deliver_pull_demand
  deliver_pull_demand-Inv fn d p n v =
      let n' = record n { aux = record n.aux { active_pull = some p; in_deliver_demand = true } } in
      let v' : Inv n' = ground arith in
      leave_demand-Inv (fire_pull_demand fn d n') (fire_pull_demand-Inv fn d n' v')

  serve_owed-Inv :
      (fn : NodeFn A) (d : Delivery) (o : Option (PullDemand A)) (n : NodeState A)
      → Inv n
      → Inv (serve_owed fn d o n).0
  unfolding serve_owed
  serve_owed-Inv fn d none n v = v
  serve_owed-Inv fn d (some p) n v =
      let n' = record n { aux = record n.aux { pull_demand_owed = none } } in
      let v' : Inv n' = ground arith in deliver_pull_demand-Inv fn d p n' v'

  pub fire_owed_demand_if_ready-Inv :
      (fn : NodeFn A) (d : Delivery) (n : NodeState A)
      → Inv n
      → Inv (fire_owed_demand_if_ready fn d n).0
  unfolding fire_owed_demand_if_ready
  fire_owed_demand_if_ready-Inv fn d n v =
      ground (arith, serve_owed-Inv fn d n.aux.pull_demand_owed n v)

  pub on_demand-Inv :
      (fn : NodeFn A) (d : Delivery) (p : PullDemand A) (n : NodeState A)
      → Inv n
      → Inv (on_demand fn d p n).0
  unfolding on_demand
  on_demand-Inv fn d p n v =
      let n' = record n { aux = record n.aux { pull_demand_owed = some p } } in
      let v' : Inv n' = ground arith in ground (arith, fire_owed_demand_if_ready-Inv fn d n' v')

  pub pause_acquire-Inv : (l : LockId) (n : NodeState A) → Inv n → Inv (pause_acquire l n)
  unfolding pause_acquire
  pause_acquire-Inv l n v = ground arith

  pub pause_release-Inv :
      (fn : NodeFn A) (d : Delivery) (l : LockId) (n : NodeState A)
      → Inv n
      → Inv (pause_release fn d l n).0
  unfolding pause_release
  pause_release-Inv fn d l n v =
      let n' = set_locks (remove_lock l n.aux.pause_lockset) n in
      let v' : Inv n' = ground arith in
      let b = is_nil n'.aux.pause_lockset && not (is_some n.config.pull_id) in
      ground (
        arith,
        followed_by-Inv (when b (on_resume fn d) n') (fire_owed_demand_if_ready fn d)
            (when-Inv b (on_resume fn d) n' v' (on_resume-Inv fn d))
            (fire_owed_demand_if_ready-Inv fn d),
      )
