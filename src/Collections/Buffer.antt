-- ===== src/Collections/Buffer.antt =====
-- A buffer with its version: what the list and the log backend share, `normalize_read_index` and
-- `trim_head_overflow` of crates/graphrefly/src/data_structures.rs.
use graphrefly_rs.Prelude.{
  ℕ, suc, ◌-◌, ℤ, pos, negsuc, Option, none, some, ◌>>=◌, List, [], length, drop, get_elem?, ltb,
  leb, if◌then◌else◌, is_nil, isize_max, wrapping_suc,
}

-- The index that a read means: a negative one counts from the end.
unfoldable pub normalize_read_index : ℤ → ℕ → Option ℕ
normalize_read_index (pos n) len =
    if ltb isize_max len then none else if ltb n len then some n else none
normalize_read_index (negsuc n) len =
    if ltb isize_max len then none else if leb (suc n) len then some (len - suc n) else none

module _ {ℓ} {A : Type ℓ} where
  -- What is left, and how many were removed. It panics (`none`) where the limit is 0.
  unfoldable pub trim_head_overflow : List A → Option ℕ → Option (List A × ℕ)
  trim_head_overflow buf none = some (buf, 0)
  trim_head_overflow buf (some max) =
      if ltb 0 max
      then if leb (length buf) max
        then some (buf, 0)
        else some (drop (length buf - max) buf, length buf - max)
      else none

pub record Buffer {ℓ} (A : Type ℓ) : Type ℓ where
  pub buf : List A
  pub version : ℕ

module _ {ℓ} {A : Type ℓ} where
  abbrev pub bumped : List A → Buffer A → Buffer A
  bumped xs b = record { buf = xs; version = wrapping_suc b.version }

  -- `ListBackend::new` and `LogBackend::new`.
  unfoldable pub new : List A → Option ℕ → Option (Buffer A)
  new initial max = do
    trimmed ← trim_head_overflow initial max
    some (record { buf = trimmed.0; version = 0 })

  unfoldable pub at : ℤ → Buffer A → Option A
  at index b = do i ← normalize_read_index index (length b.buf); get_elem? b.buf i

  unfoldable pub clear : Buffer A → Buffer A × ℕ
  clear b = if is_nil b.buf then (b, 0) else (bumped [] b, length b.buf)

  -- The buffer trimmed, with its version changed if an entry went.
  unfoldable pub enforce_max_size : Option ℕ → Buffer A → Option (Buffer A × ℕ)
  enforce_max_size max b = do
    trimmed ← trim_head_overflow b.buf max
    some (if ltb 0 trimmed.1 then bumped trimmed.0 b else record b { buf = trimmed.0 }, trimmed.1)
