-- ===== src/Collections/Lists/Laws.antt =====
-- What the list backend inserts, `pop` gives back.
use graphrefly_rs.Prelude.{
  ℕ, zero, suc, ◌-◌, ◌≤◌, ◌<◌, ℤ, pos, negsuc, ◌≡◌, refl, ◌∙◌, ap, some, ◌>>=◌, List, [], ◌∷◌, ◌++◌,
  arith, length, take, drop, get_elem?, isize_max, wrapping_suc,
}
use graphrefly_rs.Collections.Buffer.{Buffer, bumped, normalize_read_index}
use graphrefly_rs.Collections.Lists.{insert, pop, index_or_last}

normal_pos : (i len : ℕ) → i < len → len ≤ isize_max → normalize_read_index (pos i) len ≡ some i
unfolding normalize_read_index
normal_pos i len h fits = ground arith

normal_neg :
    (j len : ℕ)
    → j < len
    → len ≤ isize_max
    → normalize_read_index (negsuc j) len ≡ some (len - suc j)
unfolding normalize_read_index
normal_neg j len h fits = ground arith

module _ {ℓ} {A : Type ℓ} where
  -- A list with a value put in at an index.
  abbrev put : ℕ → A → List A → List A
  put i v xs = take i xs ++ v ∷ drop i xs

  put-length : (i : ℕ) (v : A) (xs : List A) → length (put i v xs) ≡ suc (length xs)
  put-length zero v xs = refl
  put-length (suc i) v [] = refl
  put-length (suc i) v (x ∷ xs) = ap suc (put-length i v xs)

  put-get : (i : ℕ) (v : A) (xs : List A) → i ≤ length xs → get_elem? (put i v xs) i ≡ some v
  put-get zero v xs h = refl
  put-get (suc i) v [] h = ground arith
  put-get (suc i) v (x ∷ xs) h = put-get i v xs (omega arith)

  put-out :
      (i : ℕ) (v : A) (xs : List A)
      → i ≤ length xs
      → take i (put i v xs) ++ drop (suc i) (put i v xs) ≡ xs
  put-out zero v xs h = refl
  put-out (suc i) v [] h = ground arith
  put-out (suc i) v (x ∷ xs) h = ap (◌∷◌ x) (put-out i v xs (omega arith))

  -- An index that means the place of the value put in at `i`: `i` itself, or as far from the end.
  abbrev pub index_from_end : ℕ → Buffer A → ℤ
  index_from_end i b = negsuc (length b.buf - i)

  inserted :
      (i : ℕ) (v : A) (b : Buffer A)
      → i ≤ length b.buf
      → insert i v b ≡ some (bumped (put i v b.buf) b)
  unfolding insert
  inserted i v b within = ground arith

  popped :
      (i : ℕ) (index : ℤ) (v : A) (b : Buffer A)
      → i ≤ length b.buf
      → normalize_read_index index (suc (length b.buf)) ≡ some i
      → pop (some index) (bumped (put i v b.buf) b)
        ≡ some (record b { version = wrapping_suc (wrapping_suc b.version) }, i, v)
  unfolding pop index_or_last
  popped i index v b within normal =
      rw (put-length i v b.buf, normal, put-get i v b.buf within)
        (ap
          (λ xs. some (record { buf = xs; version = wrapping_suc (wrapping_suc b.version) }, i, v))
          (put-out i v b.buf within))

  -- A value inserted anywhere in a list of fewer than `isize::MAX` values is given back by `pop` at
  -- its index, written from the start or from the end, and the list is then as before, with its
  -- version changed twice.
  pub pop-insert :
      (i : ℕ) (v : A) (b : Buffer A)
      → i ≤ length b.buf
      → length b.buf < isize_max
      → let before = record b { version = wrapping_suc (wrapping_suc b.version) } in
        ((insert i v b >>= pop (some (pos i))) ≡ some (before, i, v))
        × ((insert i v b >>= pop (some (index_from_end i b))) ≡ some (before, i, v))
  pop-insert i v b within fits =
      let len = length b.buf in
      let from_end : suc len - suc (len - i) ≡ i = omega arith in
      rw (inserted i v b within) (
        popped i (pos i) v b within (normal_pos i (suc len) (omega arith) (omega arith)),
        popped i (index_from_end i b) v b within
            (normal_neg (len - i) (suc len) (omega arith) (omega arith) ∙ ap some from_end),
      )
