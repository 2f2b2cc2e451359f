-- ===== src/Node/Slots.antt =====
-- The operations on dependency slots, `impl DepState`. `id` is the current delivery's number.
pub mod Dirty
use graphrefly_rs.Prelude.{
  ℕ, zero, suc, ◌-◌, Bool, true, false, ◌&&◌, ◌||◌, Option, none, some, List, [], ◌∷◌, ◌++◌, any,
  all, is_some, is_nil, ◌==◌, if◌then◌else◌,
}
use graphrefly_rs.Node.State.{DepSlot, WaveData, NodeState}

is_current : ℕ → Option ℕ → Bool
is_current id none = false
is_current id (some j) = j == id

module _ {ℓ} {A : Type ℓ} where
  -- `v[idx] = …`; the callers pass an index below the number of deps.
  unfoldable pub update_at : ℕ → (DepSlot A → DepSlot A) → List (DepSlot A) → List (DepSlot A)
  update_at i f [] = []
  update_at zero f (s ∷ ss) = f s ∷ ss
  update_at (suc i) f (s ∷ ss) = s ∷ update_at i f ss

  -- `all_settled`: the first-run gate.
  unfoldable pub is_settled : Bool → DepSlot A → Bool
  is_settled terminal_as_real_input s = s.has_data || (terminal_as_real_input && is_some s.terminal)

  unfoldable pub all_settled : Bool → List (DepSlot A) → Bool
  unfolding is_settled
  all_settled terminal_as_real_input = all (is_settled terminal_as_real_input)

  -- Appends to the last wave of the list.
  push_last : WaveData A → List (List (WaveData A)) → List (List (WaveData A))
  push_last d [] = []
  push_last d (w ∷ []) = (w ++ d ∷ []) ∷ []
  push_last d (w ∷ v ∷ ws) = w ∷ push_last d (v ∷ ws)

  -- `current_wave_mut` without the reference that it returns.
  unfoldable pub open_wave : ℕ → DepSlot A → DepSlot A
  unfolding is_current
  open_wave id s =
      if is_current id s.batch_wave_id
      then s
      else record s { batch_waves = s.batch_waves ++ [] ∷ []; batch_wave_id = some id }

  record_in_wave : WaveData A → DepSlot A → DepSlot A
  unfolding push_last
  record_in_wave d s = record s { batch_waves = push_last d s.batch_waves }

  unfoldable pub record_wave_data : ℕ → A → DepSlot A → DepSlot A
  unfolding open_wave record_in_wave
  record_wave_data id v s = record_in_wave (WaveData.datum v) (open_wave id s)

  -- The Boolean that `record_wave_sentinel` returns is `had_current_projection` before it.
  unfoldable pub had_current_projection : ℕ → DepSlot A → Bool
  unfolding is_current
  had_current_projection id s = is_current id s.batch_wave_id

  unfoldable pub record_wave_sentinel : ℕ → DepSlot A → DepSlot A
  unfolding open_wave record_in_wave
  record_wave_sentinel id s = record_in_wave WaveData.sentinel (open_wave id s)

  abbrev is_datum : WaveData A → Bool
  is_datum (WaveData.datum v) = true
  is_datum WaveData.sentinel = false

  triggers_run : List (WaveData A) → Bool
  triggers_run w = is_nil w || any is_datum w

  unfoldable pub has_run_triggering_projection : List (DepSlot A) → Bool
  unfolding triggers_run
  has_run_triggering_projection = any (λ s. any triggers_run s.batch_waves)

  unfoldable pub clear_wave_projection : DepSlot A → DepSlot A
  clear_wave_projection s = record s { batch_waves = []; batch_wave_id = none }

  unfoldable pub record_resolved_wave : ℕ → DepSlot A → DepSlot A
  unfolding open_wave
  record_resolved_wave id s = open_wave id s

  -- `match &mut batch[idx] { Some(b) => b.push(v), none => *none = Some(vec![v]) }`.
  unfoldable pub push_batch : A → Option (List A) → Option (List A)
  push_batch v none = some (v ∷ [])
  push_batch v (some b) = some (b ++ v ∷ [])

  unfoldable pub dirty_at : ℕ → List (DepSlot A) → Bool
  dirty_at i [] = false
  dirty_at zero (s ∷ ss) = s.dirty
  dirty_at (suc i) (s ∷ ss) = dirty_at i ss

  -- `if dirty[idx] { dirty[idx] = false; pending -= 1; }`.
  unfoldable pub release : ℕ → NodeState A → NodeState A
  unfolding dirty_at update_at
  release i n =
      if dirty_at i n.deps
      then record n {
        deps = update_at i (λ s. record s { dirty = false }) n.deps;
        pending = n.pending - 1;
      }
      else n

  unfoldable pub count_dirty : List (DepSlot A) → ℕ
  count_dirty [] = 0
  count_dirty (s ∷ ss) = let rest = count_dirty ss in if s.dirty then suc rest else rest
