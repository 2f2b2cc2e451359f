-- ===== src/Collections/Maps.antt =====
-- The map backend of crates/graphrefly/src/data_structures.rs. A `BTreeMap` is the list of its
-- entries, sorted by key.
use graphrefly_rs.Prelude.{
  ℕ, Bool, true, false, ◌≡◌, Option, none, some, List, [], ◌∷◌, length, if◌then◌else◌, is_some,
  is_nil, keep, wrapping_suc,
}
use Prim.Native.Nat.{Ordering, lt, eq, gt}
pub mod Laws
pub mod Histories
pub mod Strings

-- The order of keys, `Ord::cmp`.
pub record Order {ℓ} (K : Type ℓ) : Type ℓ where
  pub cmp : K → K → Ordering
  pub cmp_refl : (a : K) → cmp a a ≡ eq
  pub cmp_eq : (a b : K) → cmp a b ≡ eq → a ≡ b
  pub cmp_trans : (a b c : K) → cmp a b ≡ lt → cmp b c ≡ lt → cmp a c ≡ lt
  pub cmp_flip : (a b : K) → cmp a b ≡ gt → cmp b a ≡ lt

module _ {ℓ ℓ'} {K : Type ℓ} {V : Type ℓ'} (order : Order K) where
  -- `BTreeMap::insert`, `get` and `remove`.
  unfoldable pub insert_row : K → V → List (K × V) → List (K × V)
  insert_row key value [] = (key, value) ∷ []
  insert_row key value ((k, v) ∷ rows) =
      let rest = insert_row key value rows in
      elim (order.cmp key k) [
        | lt ↦ (key, value) ∷ (k, v) ∷ rows
        | eq ↦ (key, value) ∷ rows
        | gt ↦ (k, v) ∷ rest
      ]

  unfoldable pub find_row : K → List (K × V) → Option V
  find_row key [] = none
  find_row key ((k, v) ∷ rows) =
      let rest = find_row key rows in elim (order.cmp key k) [ lt ↦ none | eq ↦ some v | gt ↦ rest ]

  unfoldable pub remove_row : K → List (K × V) → List (K × V)
  remove_row key [] = []
  remove_row key ((k, v) ∷ rows) =
      let rest = remove_row key rows in
      elim (order.cmp key k) [ lt ↦ (k, v) ∷ rows | eq ↦ rows | gt ↦ (k, v) ∷ rest ]

  -- `collect()` of entries in order: a later one replaces an earlier one of its key.
  unfoldable pub collect : List (K × V) → List (K × V) → List (K × V)
  collect [] rows = rows
  collect ((k, v) ∷ entries) rows = collect entries (insert_row k v rows)

pub record MapBackend {ℓ ℓ'} (K : Type ℓ) (V : Type ℓ') : Type (ℓ ⊔ ℓ') where
  pub rows : List (K × V)
  pub version : ℕ

module _ {ℓ ℓ'} {K : Type ℓ} {V : Type ℓ'} (order : Order K) where
  abbrev pub with_rows : List (K × V) → MapBackend K V → MapBackend K V
  with_rows rows m = record { rows = rows; version = wrapping_suc m.version }

  unfoldable pub new : List (K × V) → MapBackend K V
  new initial = record { rows = collect order initial []; version = 0 }

  unfoldable pub get : K → MapBackend K V → Option V
  get key m = find_row order key m.rows

  unfoldable pub has : K → MapBackend K V → Bool
  has key m = is_some (find_row order key m.rows)

  unfoldable pub selected_snapshot : (V → K → Bool) → MapBackend K V → List (K × V)
  selected_snapshot predicate m = keep (λ row. predicate row.1 row.0) m.rows

  unfoldable pub set : K → V → MapBackend K V → MapBackend K V
  set key value m = with_rows (insert_row order key value m.rows) m

  unfoldable pub delete : K → MapBackend K V → MapBackend K V × Option V
  delete key m =
      let previous = find_row order key m.rows in
      if is_some previous
      then (with_rows (remove_row order key m.rows) m, previous)
      else (m, previous)

  unfoldable pub clear : MapBackend K V → MapBackend K V × ℕ
  clear m = if is_nil m.rows then (m, 0) else (with_rows [] m, length m.rows)
