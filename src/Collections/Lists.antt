-- ===== src/Collections/Lists.antt =====
-- The list backend of crates/graphrefly/src/data_structures.rs. A panic is `none`.
use graphrefly_rs.Prelude.{
  ℕ, zero, suc, ℤ, negsuc, Option, none, some, ◌>>=◌, List, [], ◌∷◌, ◌++◌, length, take, drop,
  get_elem?, leb, if◌then◌else◌, is_nil,
}
use graphrefly_rs.Collections.Buffer.{Buffer, bumped, normalize_read_index}
pub mod Laws

unfoldable pub index_or_last : Option ℤ → ℤ
index_or_last none = negsuc 0
index_or_last (some index) = index

module _ {ℓ} {A : Type ℓ} where
  unfoldable pub append : A → Buffer A → Buffer A
  append value b = bumped (b.buf ++ value ∷ []) b

  unfoldable pub append_many : List A → Buffer A → Buffer A
  append_many values b = if is_nil values then b else bumped (b.buf ++ values) b

  unfoldable pub insert : ℕ → A → Buffer A → Option (Buffer A)
  insert index value b =
      if leb index (length b.buf)
      then some (bumped (take index b.buf ++ value ∷ drop index b.buf) b)
      else none

  unfoldable pub insert_many : ℕ → List A → Buffer A → Option (Buffer A)
  insert_many index values b =
      if leb index (length b.buf)
      then if is_nil values
        then some b
        else some (bumped (take index b.buf ++ values ++ drop index b.buf) b)
      else none

  unfoldable pub pop : Option ℤ → Buffer A → Option (Buffer A × ℕ × A)
  pop index b = do
    i ← normalize_read_index (index_or_last index) (length b.buf)
    value ← get_elem? b.buf i
    some (bumped (take i b.buf ++ drop (suc i) b.buf) b, i, value)
