-- ===== src/Collections/Index.antt =====
-- The index backend of crates/graphrefly/src/data_structures.rs: rows under a primary key, shown in
-- the order of a secondary one.
pub mod Deletes
use graphrefly_rs.Prelude.{
  ℕ, Bool, true, false, not, ◌&&◌, Option, List, [], ◌∷◌, map, length, if◌then◌else◌, is_some,
  is_nil, keep, wrapping_suc,
}
use Prim.Native.Nat.{Ordering, lt, eq, gt}
use mathlib.Core.Option.{map as option_map}
use graphrefly_rs.Collections.Maps.{Order, insert_row, find_row, remove_row, collect}

pub record IndexRow {ℓ} (K S V : Type ℓ) : Type ℓ where
  pub primary : K
  pub secondary : S
  pub value : V

pub record IndexBackend {ℓ} (K S V : Type ℓ) : Type ℓ where
  pub rows : List (K × (S × V))
  pub version : ℕ

abbrev pub is_lt : Ordering → Bool
is_lt lt = true
is_lt eq = false
is_lt gt = false

module _ {ℓ} {K S V : Type ℓ} (keys : Order K) (seconds : Order S) where
  abbrev pub with_rows : List (K × (S × V)) → IndexBackend K S V → IndexBackend K S V
  with_rows rows m = record { rows = rows; version = wrapping_suc m.version }

  abbrev pub entry_of : IndexRow K S V → K × (S × V)
  entry_of row = (row.primary, (row.secondary, row.value))

  abbrev pub row_of : K × (S × V) → IndexRow K S V
  row_of (k, (s, v)) = record { primary = k; secondary = s; value = v }

  unfoldable pub new : List (IndexRow K S V) → IndexBackend K S V
  new initial = record { rows = collect keys (map entry_of initial) []; version = 0 }

  unfoldable pub has : K → IndexBackend K S V → Bool
  has primary m = is_some (find_row keys primary m.rows)

  unfoldable pub get : K → IndexBackend K S V → Option V
  get primary m = option_map (λ row. row.1) (find_row keys primary m.rows)

  -- Whether the first row may stand before the second in a snapshot.
  unfoldable pub row_leb : IndexRow K S V → IndexRow K S V → Bool
  row_leb a b = elim (seconds.cmp a.secondary b.secondary) [
    | lt ↦ true
    | gt ↦ false
    | eq ↦ elim (keys.cmp a.primary b.primary) [ gt ↦ false | _ ↦ true ]
  ]

  unfoldable pub insert_sorted : IndexRow K S V → List (IndexRow K S V) → List (IndexRow K S V)
  insert_sorted row [] = row ∷ []
  insert_sorted row (r ∷ rows) =
      let rest = insert_sorted row rows in if row_leb row r then row ∷ r ∷ rows else r ∷ rest

  unfoldable pub sort_rows : List (IndexRow K S V) → List (IndexRow K S V)
  sort_rows [] = []
  sort_rows (r ∷ rows) = insert_sorted r (sort_rows rows)

  unfoldable pub snapshot : IndexBackend K S V → List (IndexRow K S V)
  snapshot m = sort_rows (map row_of m.rows)

  unfoldable pub range_by_primary : K → K → IndexBackend K S V → List V
  range_by_primary start end m =
      if is_lt (keys.cmp start end)
      then map (λ row. row.1.1)
          (keep (λ row. not (is_lt (keys.cmp row.0 start)) && is_lt (keys.cmp row.0 end)) m.rows)
      else []

  unfoldable pub upsert : K → S → V → IndexBackend K S V → IndexBackend K S V
  upsert primary secondary value m = with_rows (insert_row keys primary (secondary, value) m.rows) m

  unfoldable pub delete : K → IndexBackend K S V → IndexBackend K S V × Bool
  delete primary m =
      let removed = is_some (find_row keys primary m.rows) in
      if removed then (with_rows (remove_row keys primary m.rows) m, true) else (m, false)

  -- The loop of `delete_many`: the rows that are left, and the keys removed, in order.
  unfoldable pub remove_each : List K → List (K × (S × V)) → List (K × (S × V)) × List K
  remove_each [] rows = (rows, [])
  remove_each (p ∷ ps) rows =
      let found = is_some (find_row keys p rows) in
      let (left, removed) = remove_each ps (remove_row keys p rows) in
      (left, if found then p ∷ removed else removed)

  unfoldable pub delete_many : List K → IndexBackend K S V → IndexBackend K S V × List K
  delete_many primaries m =
      let (left, removed) = remove_each primaries m.rows in
      (if is_nil removed then record m { rows = left } else with_rows left m, removed)

  unfoldable pub clear : IndexBackend K S V → IndexBackend K S V × ℕ
  clear m = if is_nil m.rows then (m, 0) else (with_rows [] m, length m.rows)
