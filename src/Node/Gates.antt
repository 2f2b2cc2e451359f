-- ===== src/Node/Gates.antt =====
-- The gates that decide whether a node's function runs, and whether its output is held back.
pub mod Convergence
use graphrefly_rs.Prelude.{
  Bool, true, false, not, ◌&&◌, ◌||◌, is_some, is_nil, ltb, ◌==◌, if◌then◌else◌,
}
use graphrefly_rs.Node.State.{NodeState, Pausable}
use graphrefly_rs.Node.Slots.{all_settled}

pub data MaybeRunDecision : Type 0 where
  skip passthrough run : MaybeRunDecision

abbrev pub is_coalesce : Pausable → Bool
is_coalesce Pausable.coalesce = true
is_coalesce _ = false

abbrev pub is_resume_all : Pausable → Bool
is_resume_all Pausable.resume_all = true
is_resume_all _ = false

module _ {ℓ} {A : Type ℓ} where
  unfoldable pub is_paused : NodeState A → Bool
  is_paused n = not (is_nil n.aux.pause_lockset)

  -- A pull node is quiet but while it serves a demand.
  unfoldable pub pull_quiet : NodeState A → Bool
  pull_quiet n = is_some n.config.pull_id && not (is_some n.aux.active_pull)

  unfoldable pub all_deps_settled : NodeState A → Bool
  all_deps_settled n = all_settled n.config.terminal_as_real_input n.deps

  -- `has_called_fn_once || partial || all_deps_settled`.
  unfoldable pub gate_open : NodeState A → Bool
  unfolding all_deps_settled
  gate_open n = n.has_called_fn_once || (n.config.partial || all_deps_settled n)

  unfoldable pub decide_maybe_run : NodeState A → NodeState A × MaybeRunDecision
  unfolding is_paused pull_quiet gate_open
  decide_maybe_run n =
      if n.wave.in_dep_mutation
      then (record n { wave = record n.wave { rewire_run_pending = true } }, MaybeRunDecision.skip)
      else if is_coalesce n.config.pausable && (is_paused n || pull_quiet n)
      then (
        record n { aux = record n.aux { paused_dep_wave_occurred = true } },
        MaybeRunDecision.skip,
      )
      else if ltb 0 n.pending
      then (n, MaybeRunDecision.skip)
      else if not n.config.has_handle
      then (n, MaybeRunDecision.passthrough)
      else if not (gate_open n)
      then (n, MaybeRunDecision.skip)
      else (n, MaybeRunDecision.run)

  unfoldable pub should_buffer_on_pause : NodeState A → Bool
  unfolding is_paused pull_quiet
  should_buffer_on_pause n = elim n.config.pausable [
    | Pausable.never ↦ false
    | Pausable.resume_all ↦ is_paused n || pull_quiet n
    | Pausable.coalesce ↦
        (is_paused n || pull_quiet n)
        && ((pull_quiet n && (not n.wave.inside_run_wave && is_nil n.deps))
            || (not n.wave.inside_run_wave && (n.config.is_async && not (is_nil n.deps))))
  ]

  -- `!has_called_fn_once && !partial && !all_deps_settled` for a node with a callable.
  unfoldable pub first_run_gated : NodeState A → Bool
  unfolding gate_open
  first_run_gated n = n.config.has_handle && not (gate_open n)

  unfoldable pub can_fire_demand : NodeState A → Bool
  unfolding first_run_gated is_paused
  can_fire_demand n =
      if not (is_some n.config.pull_id)
        || (n.value.terminal || (not (n.pending == 0) || is_paused n))
      then false
      else not (first_run_gated n)
