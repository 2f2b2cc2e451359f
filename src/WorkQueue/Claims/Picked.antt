-- ===== src/WorkQueue/Claims/Picked.antt =====
-- Ids that a test picks from the works, under selecting, sorting, cutting off and writes to other
-- works.
use graphrefly_rs.Prelude.{
  ℕ, zero, suc, ◌≡◌, ◌≢◌, refl, sym, ap, ◌∙◌, subst, inl, inr, Bool, true, Bool-cases, some, List,
  [], ◌∷◌, String, map, take,
}
use Prim.Native.Nat.{lt}
use graphrefly_rs.Collections.Maps.{Order, insert_row, find_row}
use graphrefly_rs.Collections.Maps.Laws.{
  IsSorted, Above, cmp-after, lt-ne-eq, find_row-here, find_row-later, find_row-other,
}
use graphrefly_rs.WorkQueue.State.{Host, WorkState}
use graphrefly_rs.WorkQueue.Trace.Works.{AreCoherent}
use graphrefly_rs.WorkQueue.Claims.{select_ids, claims_first, insert_candidate, sort_candidates}

abbrev pub Fresh : String → List String → Type 0
Fresh id [] = Unit
Fresh id (x ∷ xs) = (x ≢ id) × Fresh id xs

abbrev AllAbove : Order String → String → List String → Type 0
AllAbove order key [] = Unit
AllAbove order key (x ∷ xs) = (order.cmp key x ≡ lt) × AllAbove order key xs

AllAbove-Fresh :
    (order : Order String) (key : String) (ids : List String)
    → AllAbove order key ids
    → Fresh key ids
AllAbove-Fresh order key [] h = tt
AllAbove-Fresh order key (x ∷ xs) h = (
  λ e. lt-ne-eq (sym h.0 ∙ ap (order.cmp key) e ∙ order.cmp_refl key),
  AllAbove-Fresh order key xs h.1,
)

Fresh-insert_candidate :
    (host : Host) (x : String) (c : ℕ × String) (cs : List (ℕ × String))
    → Fresh x (map (λ d. d.1) (c ∷ cs))
    → Fresh x (map (λ d. d.1) (insert_candidate host c cs))
unfolding insert_candidate
Fresh-insert_candidate host x c [] fresh = fresh
Fresh-insert_candidate host x c (d ∷ ds) fresh = elim (Bool-cases (claims_first host c d)) [
  | inl first ↦ rw (first, insert_candidate) fresh
  | inr after ↦
      rw (after, insert_candidate)
        (fresh.1.0, Fresh-insert_candidate host x c ds (fresh.0, fresh.1.1))
]

module _ {ℓ} {T : Type ℓ} (order : Order String) where
  -- The work under an id, which passes the test.
  pub record IsPick (p : WorkState T → Bool) (rows : List (String × WorkState T)) (id : String)
      : Type ℓ where
    pub work : WorkState T
    pub found : find_row order id rows ≡ some work
    pub named : work.work_id ≡ id
    pub passes : p work ≡ true

  abbrev pub Picked : (WorkState T → Bool) → List (String × WorkState T) → List String → Type ℓ
  Picked p rows [] = Unit
  Picked p rows (id ∷ ids) = IsPick p rows id × Fresh id ids × Picked p rows ids

  pub Picked-put :
      (p : WorkState T → Bool) (rows : List (String × WorkState T)) (key : String) (w : WorkState T)
      (ids : List String)
      → Fresh key ids
      → Picked p rows ids
      → Picked p (insert_row order key w rows) ids
  Picked-put p rows key w [] fresh h = tt
  Picked-put p rows key w (id ∷ ids) fresh h = (
    record {
      work = h.0.work;
      found = find_row-other order id key w rows (λ e. fresh.0 (order.cmp_eq id key e)) ∙ h.0.found;
      named = h.0.named;
      passes = h.0.passes;
    },
    h.1,
    Picked-put p rows key w ids fresh.1 h.2,
  )

  pub Picked-weaken :
      (p q : WorkState T → Bool) (rows : List (String × WorkState T)) (ids : List String)
      → ((w : WorkState T) → p w ≡ true → q w ≡ true)
      → Picked p rows ids
      → Picked q rows ids
  Picked-weaken p q rows [] weaker h = tt
  Picked-weaken p q rows (id ∷ ids) weaker h = (
    record {
      work = h.0.work;
      found = h.0.found;
      named = h.0.named;
      passes = weaker h.0.work h.0.passes;
    },
    h.1,
    Picked-weaken p q rows ids weaker h.2,
  )

  Picked-later :
      (p : WorkState T → Bool) (k : String) (v : WorkState T) (rows : List (String × WorkState T))
      (ids : List String)
      → AllAbove order k ids
      → Picked p rows ids
      → Picked p ((k, v) ∷ rows) ids
  Picked-later p k v rows [] above h = tt
  Picked-later p k v rows (id ∷ ids) above h = (
    record {
      work = h.0.work;
      found = find_row-later order id k v rows (cmp-after order k id above.0) ∙ h.0.found;
      named = h.0.named;
      passes = h.0.passes;
    },
    h.1,
    Picked-later p k v rows ids above.1 h.2,
  )

  select_ids-AllAbove :
      (p : WorkState T → Bool) (k : String) (rows : List (String × WorkState T))
      → Above order k rows
      → AreCoherent rows
      → AllAbove order k (select_ids p rows)
  unfolding select_ids
  select_ids-AllAbove p k [] above ok = tt
  select_ids-AllAbove p k ((key, v) ∷ rows) above ok = elim (Bool-cases (p v)) [
    | inl picked ↦
        rw (picked, select_ids)
          (
            subst (λ x. order.cmp k x ≡ lt) (sym ok.0.0) above.0,
            select_ids-AllAbove p k rows above.1 ok.1,
          )
    | inr out ↦ rw (out, select_ids) (select_ids-AllAbove p k rows above.1 ok.1)
  ]

  pub select_ids-Picked :
      (p : WorkState T → Bool) (rows : List (String × WorkState T))
      → IsSorted order rows
      → AreCoherent rows
      → Picked p rows (select_ids p rows)
  unfolding select_ids
  select_ids-Picked p [] sorted ok = tt
  select_ids-Picked p ((k, v) ∷ rows) sorted ok =
      let above = select_ids-AllAbove p k rows sorted.0 ok.1 in
      let rest =
        Picked-later p k v rows (select_ids p rows) above
          (select_ids-Picked p rows sorted.1 ok.1) in
      elim (Bool-cases (p v)) [
        | inr out ↦ rw (out, select_ids) rest
        | inl picked ↦
            rw (picked, select_ids)
              (
                record {
                  work = v;
                  found =
                      find_row-here order v.work_id k v rows
                        (ap (λ x. order.cmp x k) ok.0.0 ∙ order.cmp_refl k);
                  named = refl;
                  passes = picked;
                },
                subst (λ x. Fresh x (select_ids p rows)) (sym ok.0.0)
                    (AllAbove-Fresh order k (select_ids p rows) above),
                rest,
              )
      ]

  pub Picked-take :
      (p : WorkState T → Bool) (rows : List (String × WorkState T)) (n : ℕ) (ids : List String)
      → Picked p rows ids
      → Picked p rows (take n ids)
  Picked-take p rows zero ids h = tt
  Picked-take p rows (suc n) [] h = tt
  Picked-take p rows (suc n) (id ∷ ids) h =
      (h.0, Fresh-take id n ids h.1, Picked-take p rows n ids h.2)
    where
      Fresh-take : (x : String) (m : ℕ) (xs : List String) → Fresh x xs → Fresh x (take m xs)
      Fresh-take x zero xs fresh = tt
      Fresh-take x (suc m) [] fresh = tt
      Fresh-take x (suc m) (y ∷ ys) fresh = (fresh.0, Fresh-take x m ys fresh.1)

  -- Sorting candidates, which have their numbers of admission.
  module _ (host : Host) where
    Picked-insert_candidate :
        (p : WorkState T → Bool) (rows : List (String × WorkState T)) (c : ℕ × String)
        (cs : List (ℕ × String))
        → Picked p rows (map (λ d. d.1) (c ∷ cs))
        → Picked p rows (map (λ d. d.1) (insert_candidate host c cs))
    unfolding insert_candidate
    Picked-insert_candidate p rows c [] h = h
    Picked-insert_candidate p rows c (d ∷ ds) h = elim (Bool-cases (claims_first host c d)) [
      | inl first ↦ rw (first, insert_candidate) h
      | inr after ↦
          rw (after, insert_candidate)
            (
              h.2.0,
              Fresh-insert_candidate host d.1 c ds ((λ e. h.1.0 (sym e)), h.2.1),
              Picked-insert_candidate p rows c ds (h.0, h.1.1, h.2.2),
            )
    ]

    pub Picked-sort_candidates :
        (p : WorkState T → Bool) (rows : List (String × WorkState T)) (cs : List (ℕ × String))
        → Picked p rows (map (λ d. d.1) cs)
        → Picked p rows (map (λ d. d.1) (sort_candidates host cs))
    unfolding sort_candidates
    Picked-sort_candidates p rows [] h = h
    Picked-sort_candidates p rows (c ∷ cs) h =
        Picked-insert_candidate p rows c (sort_candidates host cs)
          (h.0, Fresh-sort c.1 cs h.1, Picked-sort_candidates p rows cs h.2)
      where
        Fresh-sort :
            (x : String) (ds : List (ℕ × String))
            → Fresh x (map (λ d. d.1) ds)
            → Fresh x (map (λ d. d.1) (sort_candidates host ds))
        Fresh-sort x [] fresh = fresh
        Fresh-sort x (d ∷ ds) fresh =
            Fresh-insert_candidate host x d (sort_candidates host ds)
              (fresh.0, Fresh-sort x ds fresh.1)
