-- ===== src/Batch/Collects.antt =====
-- A batch as a map from targets to their last waves.
use graphrefly_rs.Prelude.{
  ℕ, suc, ◌==◌, ◌≡◌, refl, sym, ap, ◌∙◌, subst, Bool, true, false, ◌&&◌, Bool-cases, inl, inr,
  Option, Option-cases, none, some, List, [], ◌∷◌, ◌++◌, length, get_elem?, append_assoc,
  length-append, arith, if◌then◌else◌, none-ne-some, some-injective,
}
use graphrefly_rs.Node.Steps.{Exit}
use graphrefly_rs.Batch.{
  ActiveBatch, position, next_place, set_at, new_batch, defer_at, defer_to_batch, commit_from,
  commit, go_on, at_target,
}

position_same : (t k : ℕ) (ks : List ℕ) → (k == t) ≡ true → position t (k ∷ ks) ≡ some 0
unfolding position
position_same t k ks h = rw (h, position) refl

position_other :
    (t k : ℕ) (ks : List ℕ) → (k == t) ≡ false → position t (k ∷ ks) ≡ next_place (position t ks)
unfolding position
position_other t k ks h = rw (h, position) refl

get_elem?-middle :
    (before : List ℕ) (k : ℕ) (after : List ℕ)
    → get_elem? (before ++ (k ∷ after)) (length before) ≡ some k
get_elem?-middle [] k after = refl
get_elem?-middle (x ∷ before) k after = get_elem?-middle before k after

module _ {ℓ} {W : Type ℓ} where
  -- The abstract view: each target with its wave.
  abbrev pub put : ℕ → W → List (ℕ × W) → List (ℕ × W)
  put t w [] = (t, w) ∷ []
  put t w ((k, v) ∷ ps) = let rest = put t w ps in if k == t then (k, w) ∷ ps else (k, v) ∷ rest

  abbrev pub put_all : List (ℕ × W) → List (ℕ × W) → List (ℕ × W)
  put_all [] ps = ps
  put_all ((t, w) ∷ calls) ps = put_all calls (put t w ps)

  abbrev pub wave_of : ℕ → List (ℕ × W) → Option W
  wave_of t [] = none
  wave_of t ((k, v) ∷ ps) = let rest = wave_of t ps in if k == t then some v else rest

  -- The last wave that was deferred for a target, or an earlier one.
  abbrev pub last_wave : ℕ → Option W → List (ℕ × W) → Option W
  last_wave t before [] = before
  last_wave t before ((k, w) ∷ calls) =
      let newer = last_wave t (some w) calls in
      let older = last_wave t before calls in if k == t then newer else older

  wave_of-put :
      (t k : ℕ) (w : W) (ps : List (ℕ × W))
      → wave_of t (put k w ps) ≡ (if k == t then some w else wave_of t ps)
  wave_of-put t k w [] = refl
  wave_of-put t k w ((j, v) ∷ ps) = ground (arith, wave_of-put t k w ps)

  wave_of-put_all :
      (t : ℕ) (calls ps : List (ℕ × W))
      → wave_of t (put_all calls ps) ≡ last_wave t (wave_of t ps) calls
  wave_of-put_all t [] ps = refl
  wave_of-put_all t ((k, w) ∷ calls) ps =
      wave_of-put_all t calls (put k w ps)
      ∙ ap (λ o. last_wave t o calls) (wave_of-put t k w ps)
      ∙ elim (Bool-cases (k == t)) [ inl same ↦ rw (same) refl | inr other ↦ rw (other) refl ]

  abbrev keys : List (ℕ × W) → List ℕ
  keys [] = []
  keys ((k, v) ∷ ps) = k ∷ keys ps

  abbrev slots : List (ℕ × W) → List (Option W)
  slots [] = []
  slots ((k, v) ∷ ps) = some v ∷ slots ps

  -- A target that has a place.
  put-placed :
      (t i : ℕ) (w : W) (ps : List (ℕ × W))
      → position t (keys ps) ≡ some i
      → (keys (put t w ps) ≡ keys ps) × (set_at i (some w) (slots ps) ≡ slots (put t w ps))
  unfolding position set_at
  put-placed t i w [] h = absurd (none-ne-some i h)
  put-placed t i w ((k, v) ∷ ps) h = elim (Bool-cases (k == t)) [
    | inl same ↦
        subst
          (λ j.
            (keys (put t w ((k, v) ∷ ps)) ≡ k ∷ keys ps)
            × (set_at j (some w) (some v ∷ slots ps) ≡ slots (put t w ((k, v) ∷ ps))))
          (some-injective 0 i (sym (position_same t k (keys ps) same) ∙ h)) (rw (same) (refl, refl))
    | inr other ↦ elim (Option-cases (position t (keys ps))) [
      | inl missing ↦
          absurd
            (none-ne-some i (sym (position_other t k (keys ps) other ∙ ap next_place missing) ∙ h))
      | inr (j, e) ↦
          let rest = put-placed t j w ps e in
          subst
            (λ n.
              (keys (put t w ((k, v) ∷ ps)) ≡ k ∷ keys ps)
              × (set_at n (some w) (some v ∷ slots ps) ≡ slots (put t w ((k, v) ∷ ps))))
            (some-injective (suc j) i
              (sym (position_other t k (keys ps) other ∙ ap next_place e) ∙ h))
            (rw (other) (ap (λ ks. k ∷ ks) rest.0, ap (λ ds. some v ∷ ds) rest.1))
    ]
  ]

  put-new :
      (t : ℕ) (w : W) (ps : List (ℕ × W))
      → position t (keys ps) ≡ none
      → (keys (put t w ps) ≡ keys ps ++ t ∷ [])
        × (set_at (length (keys ps)) (some w) (slots ps ++ none ∷ []) ≡ slots (put t w ps))
  unfolding position set_at
  put-new t w [] h = (refl, refl)
  put-new t w ((k, v) ∷ ps) h = elim (Bool-cases (k == t)) [
    | inl same ↦ absurd (none-ne-some 0 (sym h ∙ position_same t k (keys ps) same))
    | inr other ↦ elim (Option-cases (position t (keys ps))) [
      | inr (j, e) ↦
          absurd
            (none-ne-some (suc j) (sym h ∙ position_other t k (keys ps) other ∙ ap next_place e))
      | inl missing ↦
          let rest = put-new t w ps missing in
          rw (other) (ap (λ ks. k ∷ ks) rest.0, ap (λ ds. some v ∷ ds) rest.1)
    ]
  ]

  -- The frame holds these targets and waves, and still collects.
  record IsView (b : ActiveBatch W) (ps : List (ℕ × W)) : Type ℓ where
    targets : b.targets ≡ keys ps
    deferred : b.deferred ≡ slots ps
    collecting : b.collecting ≡ true

  defer_at-IsView :
      (o : Option ℕ) (t : ℕ) (w : W) (b : ActiveBatch W) (ps : List (ℕ × W))
      → position t b.targets ≡ o
      → IsView b ps
      → IsView (defer_at o true t w b).0 (put t w ps)
  unfolding defer_at
  defer_at-IsView (some i) t w b ps h view =
      let placed = put-placed t i w ps (ap (position t) (sym view.targets) ∙ h) in
      record {
        targets = view.targets ∙ sym placed.0;
        deferred = ap (set_at i (some w)) view.deferred ∙ placed.1;
        collecting = view.collecting;
      }
  defer_at-IsView none t w b ps h view =
      let added = put-new t w ps (ap (position t) (sym view.targets) ∙ h) in
      record {
        targets = ap (λ ts. ts ++ t ∷ []) view.targets ∙ sym added.0;
        deferred =
            ap (λ ts. set_at (length ts) (some w) (b.deferred ++ none ∷ [])) view.targets
            ∙ ap (λ ds. set_at (length (keys ps)) (some w) (ds ++ none ∷ [])) view.deferred
            ∙ added.1;
        collecting = view.collecting;
      }

  -- Waves of live targets, deferred one after the other.
  abbrev pub defer_all : List (ℕ × W) → Option (ActiveBatch W) → Option (ActiveBatch W)
  defer_all [] active = active
  defer_all ((t, w) ∷ calls) active = defer_all calls (defer_to_batch true t w active).0

  -- Whether each of the calls takes its wave.
  abbrev pub all_taken : List (ℕ × W) → Option (ActiveBatch W) → Bool
  all_taken [] active = true
  all_taken ((t, w) ∷ calls) active =
      let (next, taken) = defer_to_batch true t w active in taken && all_taken calls next

  defer_at-taken :
      (o : Option ℕ) (t : ℕ) (w : W) (b : ActiveBatch W) → (defer_at o true t w b).1 ≡ true
  unfolding defer_at
  defer_at-taken none t w b = refl
  defer_at-taken (some i) t w b = refl

  defer_to_batch-taken :
      (t : ℕ) (w : W) (b : ActiveBatch W)
      → b.collecting ≡ true
      → (defer_to_batch true t w (some b)).1 ≡ true
  unfolding defer_to_batch
  defer_to_batch-taken t w b h =
      let answer : (defer_to_batch true t w (some b)).1
          ≡ (defer_at (position t b.targets) true t w b).1 =
        rw (h, defer_to_batch) refl in
      answer ∙ defer_at-taken (position t b.targets) t w b

  defer_to_batch-collecting :
      (t : ℕ) (w : W) (b : ActiveBatch W)
      → b.collecting ≡ true
      → (defer_to_batch true t w (some b)).0 ≡ some (defer_at (position t b.targets) true t w b).0
  unfolding defer_to_batch
  defer_to_batch-collecting t w b h = rw (h, defer_to_batch) refl

  defer_all-IsView :
      (calls : List (ℕ × W)) (b : ActiveBatch W) (ps : List (ℕ × W))
      → IsView b ps
      → (c : ActiveBatch W) × (defer_all calls (some b) ≡ some c)
        × IsView c (put_all calls ps)
        × (all_taken calls (some b) ≡ true)
  defer_all-IsView [] b ps view = (b, refl, view, refl)
  defer_all-IsView ((t, w) ∷ calls) b ps view =
      let next = (defer_at (position t b.targets) true t w b).0 in
      let (c, e, later, taken) =
        defer_all-IsView calls next (put t w ps)
          (defer_at-IsView (position t b.targets) t w b ps refl view) in
      let first = defer_to_batch-collecting t w b view.collecting in
      (
        c,
        ap (defer_all calls) first ∙ e,
        later,
        rw (defer_to_batch-taken t w b view.collecting) (ap (all_taken calls) first ∙ taken),
      )

  module _ {ℓ'} {X : Type ℓ'} (step : ℕ → W → X → X × Exit) where
    -- Each target is given its wave, until one panics.
    abbrev pub give_all : List (ℕ × W) → X → X × Exit
    give_all [] x = (x, Exit.returned)
    give_all ((k, v) ∷ ps) x = go_on (step k v x) (give_all ps)

    commit_from-next :
        (before : List ℕ) (k : ℕ) (ps : List (ℕ × W)) (y : X)
        → commit_from step (before ++ (k ∷ keys ps)) (suc (length before)) (slots ps) y
          ≡ commit_from step
              (before ++ (k ∷ []) ++ keys ps)
              (length (before ++ (k ∷ [])))
              (slots ps)
              y
    commit_from-next before k ps y =
        ap (λ ts. commit_from step ts (suc (length before)) (slots ps) y)
          (sym (append_assoc before (k ∷ []) (keys ps)))
        ∙ ap (λ n. commit_from step (before ++ (k ∷ []) ++ keys ps) n (slots ps) y)
            (omega (arith, length-append before (k ∷ [])))

    commit_from-give_all :
        (before : List ℕ) (ps : List (ℕ × W)) (x : X)
        → commit_from step (before ++ keys ps) (length before) (slots ps) x ≡ give_all ps x
    unfolding commit_from
    commit_from-give_all before [] x = refl
    commit_from-give_all before ((k, v) ∷ ps) x =
        ap
          (λ o.
            go_on (at_target o (λ t. step t v) x)
              (commit_from step (before ++ (k ∷ keys ps)) (suc (length before)) (slots ps)))
          (get_elem?-middle before k (keys ps))
        ∙ ap (go_on (step k v x)) (λ i y.
          (commit_from-next before k ps y ∙ commit_from-give_all (before ++ (k ∷ [])) ps y) i)

    -- However waves of live targets are deferred to a new batch, all of them are taken, and its commit
    -- gives out the rows of the view in order, until a target panics; in the view each target has the
    -- last wave that was deferred for it.
    pub commits_last_waves :
        (calls : List (ℕ × W)) (x : X) (t : ℕ)
        → (b : ActiveBatch W) × (defer_all calls (some new_batch) ≡ some b)
          × (all_taken calls (some new_batch) ≡ true)
          × (commit step b.targets b.deferred x ≡ give_all (put_all calls []) x)
          × (wave_of t (put_all calls []) ≡ last_wave t none calls)
    unfolding commit new_batch
    commits_last_waves calls x t =
        let (b, e, view, taken) =
          defer_all-IsView calls new_batch []
            (record { targets = refl; deferred = refl; collecting = refl }) in
        (
          b,
          e,
          taken,
          ap (λ ts. commit_from step ts 0 b.deferred x) view.targets
              ∙ ap (λ ds. commit_from step (keys (put_all calls [])) 0 ds x) view.deferred
              ∙ commit_from-give_all [] (put_all calls []) x,
          wave_of-put_all t calls [],
        )
