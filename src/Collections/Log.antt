-- ===== src/Collections/Log.antt =====
-- The log backend of crates/graphrefly/src/data_structures.rs, with its limit `max`. A panic is
-- `none`.
use graphrefly_rs.Prelude.{
  ℕ, ◌==◌, Option, none, some, List, [], ◌∷◌, ◌++◌, length, drop, min, if◌then◌else◌, is_nil,
}
use graphrefly_rs.Collections.Buffer.{Buffer, bumped, enforce_max_size}
pub mod Tail

module _ {ℓ} {A : Type ℓ} where
  unfoldable pub append : Option ℕ → A → Buffer A → Option (Buffer A × ℕ)
  append max value b = enforce_max_size max (bumped (b.buf ++ value ∷ []) b)

  unfoldable pub append_many : Option ℕ → List A → Buffer A → Option (Buffer A × ℕ)
  append_many max values b =
      if is_nil values then some (b, 0) else enforce_max_size max (bumped (b.buf ++ values) b)

  unfoldable pub trim_head : ℕ → Buffer A → Buffer A × ℕ
  trim_head n b =
      let removed = min n (length b.buf) in
      if n == 0
      then (b, 0)
      else if removed == 0
      then (b, 0)
      else (bumped (drop removed b.buf) b, removed)
