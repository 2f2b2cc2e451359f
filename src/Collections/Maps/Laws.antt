-- ===== src/Collections/Maps/Laws.antt =====
-- The map backend is a map: what `get` finds after every operation that changes it.
use graphrefly_rs.Prelude.{
  ◌≡◌, ◌≢◌, ◌∙◌, refl, sym, ◌⊎◌, inl, inr, subst, none, some, List, [], ◌∷◌, arith,
}
use Prim.Native.Nat.{Ordering, lt, eq, gt}
use graphrefly_rs.Collections.Maps.{Order, insert_row, find_row, remove_row}

pub Ordering-cases : (o : Ordering) → (o ≡ lt) ⊎ (o ≡ eq) ⊎ (o ≡ gt)
Ordering-cases lt = inl refl
Ordering-cases eq = inr (inl refl)
Ordering-cases gt = inr (inr refl)

pub lt-ne-eq : lt ≢ eq
lt-ne-eq e = ground arith

pub gt-ne-eq : gt ≢ eq
gt-ne-eq e = ground arith

module _ {ℓ} {K : Type ℓ} (order : Order K) where
  -- An order goes one way.
  pub cmp-after : (a b : K) → order.cmp a b ≡ lt → order.cmp b a ≡ gt
  cmp-after a b h = elim (Ordering-cases (order.cmp b a)) [
    | inl less ↦ absurd (lt-ne-eq (sym (order.cmp_trans a b a h less) ∙ order.cmp_refl a))
    | inr (inl same) ↦ absurd (
        lt-ne-eq
          (sym (subst (λ x. order.cmp a x ≡ lt) (order.cmp_eq b a same) h) ∙ order.cmp_refl a))
    | inr (inr more) ↦ more
  ]

module _ {ℓ ℓ'} {K : Type ℓ} {V : Type ℓ'} (order : Order K) where
  -- Every key above this one.
  abbrev pub Above : K → List (K × V) → Type ℓ
  Above key [] = Unit
  Above key ((k, v) ∷ rows) = (order.cmp key k ≡ lt) × Above key rows

  abbrev pub IsSorted : List (K × V) → Type ℓ
  IsSorted [] = Unit
  IsSorted ((k, v) ∷ rows) = Above k rows × IsSorted rows

  find-Above : (key : K) (rows : List (K × V)) → Above key rows → find_row order key rows ≡ none
  unfolding find_row
  find-Above key [] h = refl
  find-Above key ((k, v) ∷ rows) h = rw (h.0, find_row) refl

  pub find_row-insert_row :
      (key k : K) (v : V) (rows : List (K × V))
      → find_row order key (insert_row order k v rows) ≡ elim (order.cmp key k) [
        | lt ↦ find_row order key rows
        | eq ↦ some v
        | gt ↦ find_row order key rows
      ]
  unfolding find_row insert_row
  find_row-insert_row key k v [] = ground arith
  find_row-insert_row key k v ((k₁, v₁) ∷ rows) = grind (
    arith,
    find_row-insert_row key k v rows,
    order.cmp_trans key k k₁,
    order.cmp_trans key k₁ k,
    order.cmp_flip k k₁,
    order.cmp_eq k k₁,
    order.cmp_eq key k₁,
  )

  pub find_row-here :
      (key k : K) (v : V) (rows : List (K × V))
      → order.cmp key k ≡ eq
      → find_row order key ((k, v) ∷ rows) ≡ some v
  unfolding find_row
  find_row-here key k v rows h = rw (h, find_row) refl

  pub find_row-later :
      (key k : K) (v : V) (rows : List (K × V))
      → order.cmp key k ≡ gt
      → find_row order key ((k, v) ∷ rows) ≡ find_row order key rows
  unfolding find_row
  find_row-later key k v rows h = rw (h, find_row) refl

  pub find_row-before :
      (key k : K) (v : V) (rows : List (K × V))
      → order.cmp key k ≡ lt
      → find_row order key ((k, v) ∷ rows) ≡ none
  unfolding find_row
  find_row-before key k v rows h = rw (h, find_row) refl

  -- The row that was written, and the others.
  pub find_row-written :
      (k : K) (v : V) (rows : List (K × V)) → find_row order k (insert_row order k v rows) ≡ some v
  find_row-written k v rows = rw (find_row-insert_row k k v rows, order.cmp_refl k) refl

  pub find_row-other :
      (key k : K) (v : V) (rows : List (K × V))
      → order.cmp key k ≢ eq
      → find_row order key (insert_row order k v rows) ≡ find_row order key rows
  find_row-other key k v rows h =
      find_row-insert_row key k v rows ∙ elim (Ordering-cases (order.cmp key k)) [
        | inl less ↦ rw (less) refl
        | inr (inl same) ↦ absurd (h same)
        | inr (inr more) ↦ rw (more) refl
      ]

  Above-trans : (a b : K) (rows : List (K × V)) → order.cmp a b ≡ lt → Above b rows → Above a rows
  Above-trans a b [] h above = above
  Above-trans a b ((k, v) ∷ rows) h (head, rest) =
      (order.cmp_trans a b k h head, Above-trans a b rows h rest)

  Above-insert_row :
      (a k : K) (v : V) (rows : List (K × V))
      → order.cmp a k ≡ lt
      → Above a rows
      → Above a (insert_row order k v rows)
  unfolding insert_row
  Above-insert_row a k v [] h above = (h, above)
  Above-insert_row a k v ((k₁, v₁) ∷ rows) h above = elim (Ordering-cases (order.cmp k k₁)) [
    | inl less ↦ rw (less, insert_row) (h, above)
    | inr (inl same) ↦ rw (same, insert_row) (h, above.1)
    | inr (inr more) ↦ rw (more, insert_row) (above.0, Above-insert_row a k v rows h above.1)
  ]

  pub IsSorted-insert_row :
      (k : K) (v : V) (rows : List (K × V)) → IsSorted rows → IsSorted (insert_row order k v rows)
  unfolding insert_row
  IsSorted-insert_row k v [] sorted = (sorted, sorted)
  IsSorted-insert_row k v ((k₁, v₁) ∷ rows) sorted = elim (Ordering-cases (order.cmp k k₁)) [
    | inl less ↦ rw (less, insert_row) ((less, Above-trans k k₁ rows less sorted.0), sorted)
    | inr (inl same) ↦
        rw (same, insert_row)
          (subst (λ x. Above x rows) (sym (order.cmp_eq k k₁ same)) sorted.0, sorted.1)
    | inr (inr more) ↦
        rw (more, insert_row)
          (
            Above-insert_row k₁ k v rows (order.cmp_flip k k₁ more) sorted.0,
            IsSorted-insert_row k v rows sorted.1,
          )
  ]

  Above-remove_row :
      (a k : K) (rows : List (K × V)) → Above a rows → Above a (remove_row order k rows)
  unfolding remove_row
  Above-remove_row a k [] above = above
  Above-remove_row a k ((k₁, v₁) ∷ rows) above = elim (Ordering-cases (order.cmp k k₁)) [
    | inl less ↦ rw (less, remove_row) above
    | inr (inl same) ↦ rw (same, remove_row) above.1
    | inr (inr more) ↦ rw (more, remove_row) (above.0, Above-remove_row a k rows above.1)
  ]

  pub IsSorted-remove_row :
      (k : K) (rows : List (K × V)) → IsSorted rows → IsSorted (remove_row order k rows)
  unfolding remove_row
  IsSorted-remove_row k [] sorted = sorted
  IsSorted-remove_row k ((k₁, v₁) ∷ rows) sorted = elim (Ordering-cases (order.cmp k k₁)) [
    | inl less ↦ rw (less, remove_row) sorted
    | inr (inl same) ↦ rw (same, remove_row) sorted.1
    | inr (inr more) ↦
        rw (more, remove_row)
          (Above-remove_row k₁ k rows sorted.0, IsSorted-remove_row k rows sorted.1)
  ]

  find_row-Above :
      (a key : K) (rows : List (K × V))
      → Above a rows
      → order.cmp key a ≡ lt
      → find_row order key rows ≡ none
  find_row-Above a key rows above h = find-Above key rows (Above-trans key a rows h above)

  pub find_row-remove_row :
      (key k : K) (rows : List (K × V))
      → IsSorted rows
      → find_row order key (remove_row order k rows) ≡ elim (order.cmp key k) [
        | lt ↦ find_row order key rows
        | eq ↦ none
        | gt ↦ find_row order key rows
      ]
  unfolding find_row remove_row
  find_row-remove_row key k [] sorted = ground arith
  find_row-remove_row key k ((k₁, v₁) ∷ rows) sorted =
      let gone = find_row-Above k₁ key rows sorted.0 in
      let here = find-Above k₁ rows sorted.0 in
      grind (
        arith,
        find_row-remove_row key k rows sorted.1,
        order.cmp_trans key k k₁,
        order.cmp_trans key k₁ k,
        order.cmp_flip k k₁,
        order.cmp_eq k k₁,
        order.cmp_eq key k₁,
        order.cmp_eq key k,
        gone,
        here,
      )
