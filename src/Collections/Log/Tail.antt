-- ===== src/Collections/Log/Tail.antt =====
-- What a limited log holds.
use graphrefly_rs.Prelude.{
  ℕ, zero, suc, ◌+◌, ◌-◌, ◌≤◌, ◌<◌, ◌≡◌, refl, ◌∙◌, inl, inr, Bool-cases, leb→le, sym, ap, subst,
  Option, some, ◌>>=◌, List, [], ◌∷◌, ◌++◌, arith, length, drop, length-append, length-drop,
  if◌then◌else◌, leb, ltb,
}
use mathlib.Core.List.{append_assoc, append-nil}
use graphrefly_rs.Collections.Buffer.{Buffer, bumped, new, enforce_max_size, trim_head_overflow}
use graphrefly_rs.Collections.Log.{append_many}

module _ {ℓ} {A : Type ℓ} where
  -- The last `m` entries.
  abbrev pub tail : ℕ → List A → List A
  tail m xs = drop (length xs - m) xs

  drop-drop : (j k : ℕ) (xs : List A) → drop j (drop k xs) ≡ drop (k + j) xs
  drop-drop j zero xs = let same : 0 + j ≡ j = omega arith in rw same refl
  drop-drop zero (suc k) [] = let same : suc k + 0 ≡ suc k = omega arith in rw same refl
  drop-drop (suc j) (suc k) [] =
      let same : suc k + suc j ≡ suc (k + suc j) = omega arith in rw same refl
  drop-drop j (suc k) (x ∷ xs) =
      let same : suc k + j ≡ suc (k + j) = omega arith in rw same (drop-drop j k xs)

  drop_within : (k : ℕ) (xs ys : List A) → k ≤ length xs → drop k (xs ++ ys) ≡ drop k xs ++ ys
  drop_within zero xs ys h = refl
  drop_within (suc k) [] ys h = ground arith
  drop_within (suc k) (x ∷ xs) ys h = drop_within k xs ys (omega arith)

  tail_append : (m : ℕ) (xs ys : List A) → tail m (tail m xs ++ ys) ≡ tail m (xs ++ ys)
  tail_append m xs ys =
      let k = length xs - m in
      let kept = length-drop k xs in
      let all_len = length-append xs ys in
      let kept_len = length-append (drop k xs) ys in
      let total : k + (length (drop k xs ++ ys) - m) ≡ length (xs ++ ys) - m = omega arith in
      ap (drop (length (drop k xs ++ ys) - m)) (sym (drop_within k xs ys (omega arith)))
      ∙ drop-drop (length (drop k xs ++ ys) - m) k (xs ++ ys)
      ∙ ap (λ i. drop i (xs ++ ys)) total

  trim_tail :
      (m : ℕ) (xs : List A)
      → 0 < m
      → trim_head_overflow xs (some m) ≡ some (tail m xs, length xs - m)
  unfolding trim_head_overflow
  trim_tail m xs pos = elim (Bool-cases (leb (length xs) m)) [
    | inl short ↦
        let all : length xs - m ≡ 0 = omega (arith, leb→le (length xs) m short) in
        rw (short, all) (ground arith)
    | inr long ↦ rw long (ground arith)
  ]

  trimmed : ℕ → Buffer A → Buffer A
  trimmed m b =
      if ltb 0 (length b.buf - m) then bumped (tail m b.buf) b else record b { buf = tail m b.buf }

  trimmed-tail : (m : ℕ) (b : Buffer A) → (trimmed m b).buf ≡ tail m b.buf
  unfolding trimmed
  trimmed-tail m b = ground arith

  enforce_tail :
      (m : ℕ) (b : Buffer A)
      → 0 < m
      → enforce_max_size (some m) b ≡ some (trimmed m b, length b.buf - m)
  unfolding enforce_max_size trimmed
  enforce_tail m b pos = rw (trim_tail m b.buf pos) refl

  -- Appends one after the other: the log at the end.
  abbrev pub append_all : ℕ → List (List A) → Buffer A → Option (Buffer A)
  append_all m [] b = some b
  append_all m (vs ∷ vss) b = append_many (some m) vs b >>= λ r. append_all m vss r.0

  abbrev pub joined : List (List A) → List A
  joined [] = []
  joined (vs ∷ vss) = vs ++ joined vss

  append_one :
      (m : ℕ) (vs : List A) (b : Buffer A)
      → 0 < m
      → length b.buf ≤ m
      → (c : Buffer A) × (removed : ℕ) × (append_many (some m) vs b ≡ some (c, removed))
        × (c.buf ≡ tail m (b.buf ++ vs))
  unfolding append_many
  append_one m [] b pos short =
      let none_over : length b.buf - m ≡ 0 = omega arith in
      (b, 0, refl, rw (append-nil b.buf, none_over) refl)
  append_one m (v ∷ vs) b pos short =
      let c = bumped (b.buf ++ v ∷ vs) b in
      (trimmed m c, length c.buf - m, enforce_tail m c pos, trimmed-tail m c)

  tail_short : (m : ℕ) (xs : List A) → length (tail m xs) ≤ m
  tail_short m xs = omega (arith, length-drop (length xs - m) xs)

  append_all-tail :
      (m : ℕ) (vss : List (List A)) (b : Buffer A)
      → 0 < m
      → length b.buf ≤ m
      → (c : Buffer A) × (append_all m vss b ≡ some c) × (c.buf ≡ tail m (b.buf ++ joined vss))
  append_all-tail m [] b pos short =
      let none_over : length b.buf - m ≡ 0 = omega arith in
      (b, refl, rw (append-nil b.buf, none_over) refl)
  append_all-tail m (vs ∷ vss) b pos short =
      let (c, removed, ran, holds) = append_one m vs b pos short in
      let (d, rest, held) =
        append_all-tail m vss c pos
          (subst (λ xs. length xs ≤ m) (sym holds) (tail_short m (b.buf ++ vs))) in
      (
        d,
        ap (λ o. o >>= λ r. append_all m vss r.0) ran ∙ rest,
        held
            ∙ ap (λ xs. tail m (xs ++ joined vss)) holds
            ∙ tail_append m (b.buf ++ vs) (joined vss)
            ∙ ap (tail m) (append_assoc b.buf vs (joined vss)),
      )

  -- A log of positive limit `m` that is made with some entries, and to which values are then appended
  -- in any batches, never panics and holds the last `m` of all these values, in order.
  pub log_holds_tail :
      (m : ℕ) (initial : List A) (vss : List (List A))
      → 0 < m
      → (c : Buffer A) × ((new initial (some m) >>= append_all m vss) ≡ some c)
        × (c.buf ≡ tail m (initial ++ joined vss))
  unfolding new
  log_holds_tail m initial vss pos =
      let b : Buffer A = record { buf = tail m initial; version = 0 } in
      let (c, ran, held) = append_all-tail m vss b pos (tail_short m initial) in
      (c, rw (trim_tail m initial pos) ran, held ∙ tail_append m initial (joined vss))
