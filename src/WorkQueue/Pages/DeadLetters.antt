-- ===== src/WorkQueue/Pages/DeadLetters.antt =====
-- Walking the pages of dead letters.
use graphrefly_rs.Prelude.{
  ℕ, zero, suc, ◌+◌, ◌≤◌, ◌<◌, ◌≡◌, refl, sym, ap, ◌∙◌, subst, Bool, false, Bool-cases, inl, inr,
  none, some, List, [], ◌∷◌, length, take, drop, last, keep, ltb, lt→ltb, ltb→lt, ◌>>=◌, le→ltb,
  arith, none-ne-some, some-injective, ◌⊎◌,
}
use graphrefly_rs.WorkQueue.Records.{WorkQueueRecord, record_seq}
use graphrefly_rs.WorkQueue.State.{Host, RuntimeState}
use graphrefly_rs.WorkQueue.Claims.{positive_limit}
use graphrefly_rs.WorkQueue.Pages.{
  WorkQueueDeadLetterPage, WorkQueueDeadLetterParams, dead_letter_page, is_listed, when_more,
}
use graphrefly_rs.WorkQueue.Trace.{is_dead_letter}
use graphrefly_rs.WorkQueue.Trace.Journal.{NumberedFrom, IsJournal}

module _ {ℓ} {T : Type ℓ} where
  -- Records with growing numbers above this one.
  abbrev GrowingFrom : ℕ → List (WorkQueueRecord T) → Type 0
  GrowingFrom n [] = Unit
  GrowingFrom n (r ∷ rs) = (n < record_seq r) × GrowingFrom (record_seq r) rs

  GrowingFrom-weaken :
      (m n : ℕ) (rs : List (WorkQueueRecord T)) → m ≤ n → GrowingFrom n rs → GrowingFrom m rs
  GrowingFrom-weaken m n [] h g = tt
  GrowingFrom-weaken m n (r ∷ rs) h g = (omega (arith, g.0), g.1)

  Numbered-Growing :
      (n : ℕ) (rs : List (WorkQueueRecord T)) → NumberedFrom (n + 1) rs → GrowingFrom n rs
  Numbered-Growing n [] h = tt
  Numbered-Growing n (r ∷ rs) h = (
    omega (arith, h.0),
    GrowingFrom-weaken (record_seq r) (n + 1) rs (omega (arith, h.0))
        (Numbered-Growing (n + 1) rs h.1),
  )

  keep-Growing :
      (p : WorkQueueRecord T → Bool) (n : ℕ) (rs : List (WorkQueueRecord T))
      → GrowingFrom n rs
      → GrowingFrom n (keep p rs)
  keep-Growing p n [] g = tt
  keep-Growing p n (r ∷ rs) g = elim (Bool-cases (p r)) [
    | inl yes_kept ↦ rw (yes_kept) (g.0, keep-Growing p (record_seq r) rs g.1)
    | inr out ↦ rw (out) (
        GrowingFrom-weaken n (record_seq r) (keep p rs) (omega (arith, g.0))
          (keep-Growing p (record_seq r) rs g.1))
  ]

  abbrev after : ℕ → List (WorkQueueRecord T) → List (WorkQueueRecord T)
  after n rs = keep (λ r. ltb n (record_seq r)) rs

  after-all : (n : ℕ) (rs : List (WorkQueueRecord T)) → GrowingFrom n rs → after n rs ≡ rs
  after-all n [] g = refl
  after-all n (r ∷ rs) g = rw (lt→ltb n (record_seq r) g.0) (
      ap (λ xs. r ∷ xs)
        (after-all n rs (GrowingFrom-weaken n (record_seq r) rs (omega (arith, g.0)) g.1)))

  last-Growing :
      (m n : ℕ) (rs : List (WorkQueueRecord T)) (r : WorkQueueRecord T)
      → GrowingFrom m rs
      → last (take (suc n) rs) ≡ some r
      → m < record_seq r
  last-Growing m n [] r g h = absurd (none-ne-some r h)
  last-Growing m zero (x ∷ rs) r g h = subst (λ y. m < record_seq y) (some-injective x r h) g.0
  last-Growing m (suc n) (x ∷ []) r g h = subst (λ y. m < record_seq y) (some-injective x r h) g.0
  last-Growing m (suc n) (x ∷ y ∷ rs) r g h =
      omega (arith, g.0, last-Growing (record_seq x) n (y ∷ rs) r g.1 h)

  after-skip :
      (k : ℕ) (x : WorkQueueRecord T) (rs : List (WorkQueueRecord T))
      → record_seq x ≤ k
      → after k (x ∷ rs) ≡ after k rs
  after-skip k x rs h = rw (le→ltb k (record_seq x) h) refl

  after-first :
      (m : ℕ) (x r : WorkQueueRecord T) (rs : List (WorkQueueRecord T))
      → GrowingFrom m (x ∷ rs)
      → x ≡ r
      → after (record_seq r) (x ∷ rs) ≡ rs
  after-first m x r rs g same =
      subst (λ y. after (record_seq y) (x ∷ rs) ≡ rs) same
        (after-skip (record_seq x) x rs (omega arith) ∙ after-all (record_seq x) rs g.1)

  -- What comes after the last entry of a page.
  after-page :
      (m n : ℕ) (rs : List (WorkQueueRecord T)) (r : WorkQueueRecord T)
      → GrowingFrom m rs
      → last (take (suc n) rs) ≡ some r
      → after (record_seq r) rs ≡ drop (suc n) rs
  after-page m n [] r g h = refl
  after-page m zero (x ∷ rs) r g h = after-first m x r rs g (some-injective x r h)
  after-page m (suc n) (x ∷ []) r g h = after-first m x r [] g (some-injective x r h)
  after-page m (suc n) (x ∷ y ∷ rs) r g h =
      after-skip (record_seq r) x (y ∷ rs)
        (omega (arith, last-Growing (record_seq x) n (y ∷ rs) r g.1 h))
      ∙ after-page (record_seq x) n (y ∷ rs) r g.1 h

  -- A later place leaves out what an earlier one does.
  after-after :
      (m k : ℕ) (rs : List (WorkQueueRecord T)) → m ≤ k → after k (after m rs) ≡ after k rs
  after-after m k [] h = refl
  after-after m k (r ∷ rs) h = ground (arith, after-after m k rs h)

  -- The entries from a place on, and those of its page.
  abbrev pub entries_after : RuntimeState T → ℕ → List (WorkQueueRecord T)
  entries_after s place = after place s.dead_letters

  dead_letters-Growing : (s : RuntimeState T) → IsJournal s → GrowingFrom 0 s.dead_letters
  dead_letters-Growing s ok =
      subst (GrowingFrom 0) (sym ok.dead)
        (keep-Growing is_dead_letter 0 s.records (Numbered-Growing 0 s.records ok.numbered))

  last-take :
      (n : ℕ) (rs : List (WorkQueueRecord T))
      → suc n < length rs
      → (r : WorkQueueRecord T) × (last (take (suc n) rs) ≡ some r)
  last-take n [] h = absurd (omega (arith, h))
  last-take zero (x ∷ rs) h = (x, refl)
  last-take (suc n) (x ∷ []) h = (x, refl)
  last-take (suc n) (x ∷ y ∷ rs) h = last-take n (y ∷ rs) (omega (arith, h))

  -- The page that holds these entries.
  abbrev page_of : RuntimeState T → ℕ → List (WorkQueueRecord T) → WorkQueueDeadLetterPage T
  page_of s limit entries = record {
    entries = take limit entries;
    next_after_dead_letter_seq =
        when_more (ltb limit (length entries))
          (last (take limit entries) >>= λ r. some (record_seq r));
    has_more = ltb limit (length entries);
    as_of_record_seq = s.record_seq;
  }

  -- What a page says of the entries from its place on: they are all on it, or it names a later place
  -- from which on the others come.
  abbrev pub Continues : RuntimeState T → ℕ → ℕ → WorkQueueDeadLetterPage T → Type ℓ
  Continues s limit place page =
      ((page.has_more ≡ false) × (length (entries_after s place) ≤ limit))
      ⊎ ((n : ℕ) × (page.next_after_dead_letter_seq ≡ some n)
          × (place < n)
          × (entries_after s n ≡ drop limit (entries_after s place)))

  after-Growing :
      (place : ℕ) (m : ℕ) (rs : List (WorkQueueRecord T))
      → GrowingFrom m rs
      → GrowingFrom place (after place rs)
  after-Growing place m [] g = tt
  after-Growing place m (r ∷ rs) g = elim (Bool-cases (ltb place (record_seq r))) [
    | inl later ↦ rw (later) (
      ltb→lt place (record_seq r) later,
      keep-Growing (λ x. ltb place (record_seq x)) (record_seq r) rs g.1,
    )
    | inr past ↦ rw (past) (after-Growing place (record_seq r) rs g.1)
  ]

  page_of-Continues :
      (s : RuntimeState T) (n place : ℕ)
      → IsJournal s
      → Continues s (suc n) place (page_of s (suc n) (entries_after s place))
  page_of-Continues s n place ok =
      let entries = entries_after s place in
      elim (Bool-cases (ltb (suc n) (length entries))) [
        | inr all_shown ↦ inl (all_shown, ground arith)
        | inl more ↦
            let (r, e) = last-take n entries (ltb→lt (suc n) (length entries) more) in
            let growing = after-Growing place 0 s.dead_letters (dead_letters-Growing s ok) in
            let later = last-Growing place n entries r growing e in
            inr (
              record_seq r,
              rw (more, e) refl,
              later,
              sym (after-after place (record_seq r) s.dead_letters (omega (arith, later)))
                  ∙ after-page place n entries r growing e,
            )
      ]

abbrev pub params_after : ℕ → ℕ → WorkQueueDeadLetterParams
params_after limit place = record {
  limit = some limit;
  after_dead_letter_seq = some place;
  after_work_id = none;
}

module _ {ℓ} {T : Type ℓ} (host : Host) where
  entries-listed :
      (limit place : ℕ) (rs : List (WorkQueueRecord T))
      → keep (is_listed host (params_after limit place)) rs ≡ after place rs
  unfolding is_listed
  entries-listed limit place [] = refl
  entries-listed limit place (r ∷ rs) = ground (arith, entries-listed limit place rs)

  -- A page of dead letters after a place holds the first `limit` of the entries after it, and leads on
  -- to exactly the others.
  pub pages_follow :
      (s : RuntimeState T) (n place : ℕ)
      → IsJournal s
      → (page : WorkQueueDeadLetterPage T) × (dead_letter_page host s (params_after (suc n) place)
          ≡ some page)
        × (page.entries ≡ take (suc n) (entries_after s place))
        × Continues s (suc n) place page
  unfolding dead_letter_page positive_limit
  pages_follow s n place ok = (
    page_of s (suc n) (entries_after s place),
    rw
        (
          entries-listed (suc n) place s.dead_letters,
          lt→ltb 0 (suc n) (omega arith),
          dead_letter_page,
          positive_limit,
        )
        refl,
    refl,
    page_of-Continues s n place ok,
  )
