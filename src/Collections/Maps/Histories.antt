-- ===== src/Collections/Maps/Histories.antt =====
-- The map backend over its histories: its rows stay sorted, so that it is a map.
use graphrefly_rs.Prelude.{
  ◌≡◌, false, none, some, List, [], ◌∷◌, arith, is_some, is_nil, inl, inr, Bool-cases,
}
use Prim.Native.Nat.{lt, eq, gt}
use graphrefly_rs.Collections.Maps.{
  Order, insert_row, find_row, collect, MapBackend, new, get, set, delete, clear,
}
use graphrefly_rs.Collections.Maps.Laws.{
  IsSorted, IsSorted-insert_row, IsSorted-remove_row, find_row-insert_row, find_row-remove_row,
}

module _ {ℓ ℓ'} {K : Type ℓ} {V : Type ℓ'} (order : Order K) where
  -- The maps that are made and then changed by the operations.
  pub data Reaches : MapBackend K V → Type (ℓ ⊔ ℓ') where
    made : (initial : List (K × V)) → Reaches (new order initial)
    by_set : (k : K) (v : V) (m : MapBackend K V) → Reaches m → Reaches (set order k v m)
    by_delete : (k : K) (m : MapBackend K V) → Reaches m → Reaches (delete order k m).0
    by_clear : (m : MapBackend K V) → Reaches m → Reaches (clear order m).0

  collect-IsSorted :
      (entries rows : List (K × V))
      → IsSorted order rows
      → IsSorted order (collect order entries rows)
  unfolding collect
  collect-IsSorted [] rows sorted = sorted
  collect-IsSorted ((k, v) ∷ entries) rows sorted =
      collect-IsSorted entries (insert_row order k v rows)
        (IsSorted-insert_row order k v rows sorted)

  delete-IsSorted :
      (k : K) (m : MapBackend K V)
      → IsSorted order m.rows
      → IsSorted order (delete order k m).0.rows
  unfolding delete
  delete-IsSorted k m sorted = elim (Bool-cases (is_some (find_row order k m.rows))) [
    | inl found ↦ rw found (IsSorted-remove_row order k m.rows sorted)
    | inr absent ↦ rw absent sorted
  ]

  clear-IsSorted :
      (m : MapBackend K V) → IsSorted order m.rows → IsSorted order (clear order m).0.rows
  unfolding clear
  clear-IsSorted m sorted = elim (Bool-cases (is_nil m.rows)) [
    | inl empty ↦ rw empty sorted
    | inr held ↦ rw held tt
  ]

  history-IsSorted : (m : MapBackend K V) → Reaches m → IsSorted order m.rows
  unfolding new set
  history-IsSorted _ (made initial) = collect-IsSorted initial [] tt
  history-IsSorted _ (by_set k v m r) = IsSorted-insert_row order k v m.rows (history-IsSorted m r)
  history-IsSorted _ (by_delete k m r) = delete-IsSorted k m (history-IsSorted m r)
  history-IsSorted _ (by_clear m r) = clear-IsSorted m (history-IsSorted m r)

  delete_returns : (k : K) (m : MapBackend K V) → (delete order k m).1 ≡ find_row order k m.rows
  unfolding delete
  delete_returns k m = ground arith

  absent_key :
      (k key : K) (rows : List (K × V))
      → is_some (find_row order k rows) ≡ false
      → find_row order key rows ≡ elim (order.cmp key k) [
        | lt ↦ find_row order key rows
        | eq ↦ none
        | gt ↦ find_row order key rows
      ]
  absent_key k key rows absent = grind (arith, order.cmp_eq key k)

  delete_finds :
      (k key : K) (m : MapBackend K V)
      → IsSorted order m.rows
      → find_row order key (delete order k m).0.rows ≡ elim (order.cmp key k) [
        | lt ↦ find_row order key m.rows
        | eq ↦ none
        | gt ↦ find_row order key m.rows
      ]
  unfolding delete
  delete_finds k key m sorted = elim (Bool-cases (is_some (find_row order k m.rows))) [
    | inl found ↦ rw found (find_row-remove_row order key k m.rows sorted)
    | inr absent ↦ rw absent (absent_key k key m.rows absent)
  ]

  -- In every map that a history of operations makes, `set` changes what `get` finds at its key
  -- alone, and `delete` returns what was at its key, after which the key has no value and all
  -- others have what they had.
  pub changes_one_key :
      (m : MapBackend K V) (k : K) (v : V) (key : K)
      → Reaches m
      → (get order key (set order k v m)
          ≡ elim (order.cmp key k) [ lt ↦ get order key m | eq ↦ some v | gt ↦ get order key m ])
        × ((delete order k m).1 ≡ get order k m)
        × (get order key (delete order k m).0
            ≡ elim (order.cmp key k) [ lt ↦ get order key m | eq ↦ none | gt ↦ get order key m ])
  unfolding get set
  changes_one_key m k v key r = (
    find_row-insert_row order key k v m.rows,
    delete_returns k m,
    delete_finds k key m (history-IsSorted m r),
  )
