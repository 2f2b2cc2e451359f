-- ===== src/WorkQueue/Trace/Works.antt =====
-- The works of a run: what each may become.
use graphrefly_rs.Prelude.{
  ℕ, ◌≡◌, sym, ap, ◌∙◌, subst, Option, none, some, List, [], ◌∷◌, String, arith, inl, inr, ◌≢◌,
  some-injective, none-ne-some,
}
use Prim.Native.Nat.{eq}
use graphrefly_rs.Collections.Maps.{Order, insert_row, find_row}
use graphrefly_rs.Collections.Maps.Laws.{
  IsSorted, IsSorted-insert_row, find_row-here, find_row-later, find_row-before, find_row-written,
  find_row-other, Ordering-cases, lt-ne-eq, gt-ne-eq,
}
use graphrefly_rs.WorkQueue.Commands.{WorkQueueCommand}
use graphrefly_rs.WorkQueue.Events.{QueueEvent}
use graphrefly_rs.WorkQueue.State.{Host, WorkState, RuntimeState, find_work, put_work}
use graphrefly_rs.WorkQueue.Contract.{
  Move, Moves, stay, move, IsCoherent, Move-IsCoherent, Move-work_id,
}
use graphrefly_rs.WorkQueue.Trace.{Run, done, told, wrote, buried, moved, counted}

module _ {ℓ} {T : Type ℓ} where
  -- Every work stands under its id, and has a lease exactly while it is leased.
  abbrev pub AreCoherent : List (String × WorkState T) → Type 0
  AreCoherent [] = Unit
  AreCoherent ((key, w) ∷ rows) = ((w.work_id ≡ key) × IsCoherent w) × AreCoherent rows

  pub record AreWorks (host : Host) (s : RuntimeState T) : Type ℓ where
    pub sorted : IsSorted host.order s.works
    pub coherent : AreCoherent s.works

  pub find_row-AreCoherent :
      (order : Order String) (key : String) (rows : List (String × WorkState T)) (w : WorkState T)
      → AreCoherent rows
      → find_row order key rows ≡ some w
      → (w.work_id ≡ key) × IsCoherent w
  unfolding find_row
  find_row-AreCoherent order key [] w ok found = ground arith
  find_row-AreCoherent order key ((k, v) ∷ rows) w ok found =
      elim (Ordering-cases (order.cmp key k)) [
        | inl less ↦ absurd (none-ne-some w (sym (find_row-before order key k v rows less) ∙ found))
        | inr (inl same) ↦
            subst (λ x. (x.work_id ≡ key) × IsCoherent x)
              (some-injective v w (sym (find_row-here order key k v rows same) ∙ found))
              (ok.0.0 ∙ sym (order.cmp_eq key k same), ok.0.1)
        | inr (inr more) ↦
            find_row-AreCoherent order key rows w ok.1
              (sym (find_row-later order key k v rows more) ∙ found)
      ]

  AreCoherent-insert_row :
      (order : Order String) (key : String) (w : WorkState T) (rows : List (String × WorkState T))
      → (w.work_id ≡ key) × IsCoherent w
      → AreCoherent rows
      → AreCoherent (insert_row order key w rows)
  unfolding insert_row
  AreCoherent-insert_row order key w [] h ok = (h, tt)
  AreCoherent-insert_row order key w ((k, v) ∷ rows) h ok =
      elim (Ordering-cases (order.cmp key k)) [
        | inl less ↦ rw (less, insert_row) (h, ok)
        | inr (inl same) ↦ rw (same, insert_row) (h, ok.1)
        | inr (inr more) ↦
            rw (more, insert_row) (ok.0, AreCoherent-insert_row order key w rows h ok.1)
      ]

  pub put_work-AreWorks :
      (host : Host) (key : String) (w : WorkState T) (s : RuntimeState T)
      → (w.work_id ≡ key) × IsCoherent w
      → AreWorks host s
      → AreWorks host (put_work host key w s)
  put_work-AreWorks host key w s h ok = record {
    sorted = IsSorted-insert_row host.order key w s.works ok.sorted;
    coherent = AreCoherent-insert_row host.order key w s.works h ok.coherent;
  }

  move-AreWorks :
      (host : Host) (c : WorkQueueCommand T) (now : ℕ) (key : String) (w w' : WorkState T)
      (s : RuntimeState T)
      → find_work host key s ≡ some w
      → Move c now key w w'
      → AreWorks host s
      → AreWorks host (put_work host key w' s)
  move-AreWorks host c now key w w' s found step ok =
      let old = find_row-AreCoherent host.order key s.works w ok.coherent found in
      put_work-AreWorks host key w' s (Move-work_id step ∙ old.0, Move-IsCoherent step old.1) ok

  pub Run-AreWorks :
      {host : Host} {c : WorkQueueCommand T} {now : ℕ} {s t : RuntimeState T}
      {es : List (QueueEvent T)}
      → Run host c now s es t
      → AreWorks host s
      → AreWorks host t
  Run-AreWorks done ok = ok
  Run-AreWorks (told e h run) ok = Run-AreWorks run ok
  Run-AreWorks (wrote r h run) ok =
      Run-AreWorks run (record { sorted = ok.sorted; coherent = ok.coherent })
  Run-AreWorks (buried r h run) ok =
      Run-AreWorks run (record { sorted = ok.sorted; coherent = ok.coherent })
  Run-AreWorks {host} {c} {now} {s} (moved key w w' found step run) ok =
      Run-AreWorks run (move-AreWorks host c now key w w' s found step ok)
  Run-AreWorks (counted n run) ok =
      Run-AreWorks run (record { sorted = ok.sorted; coherent = ok.coherent })

  -- What stands under a key before and after: nothing and nothing, or a work and what the contract
  -- lets it become.
  pub data Advances (c : WorkQueueCommand T) (now : ℕ) (key : String)
      : Option (WorkState T) → Option (WorkState T) → Type ℓ where
    absent : Advances c now key none none
    present : {w w' : WorkState T} → Moves c now key w w' → Advances c now key (some w) (some w')

  pub Advances-refl :
      (c : WorkQueueCommand T) (now : ℕ) (key : String) (o : Option (WorkState T))
      → Advances c now key o o
  Advances-refl c now key none = absent
  Advances-refl c now key (some w) = present stay

  Advances-move :
      {c : WorkQueueCommand T} {now : ℕ} {key : String} {w w' : WorkState T}
      {o : Option (WorkState T)}
      → Move c now key w w'
      → Advances c now key (some w') o
      → Advances c now key (some w) o
  Advances-move step (present rest) = present (move step rest)

  moved-Advances :
      (host : Host) (c : WorkQueueCommand T) (now : ℕ) (key k : String) (w w' : WorkState T)
      (s : RuntimeState T) (o : Option (WorkState T))
      → find_work host k s ≡ some w
      → Move c now k w w'
      → Advances c now key (find_work host key (put_work host k w' s)) o
      → Advances c now key (find_work host key s) o
  moved-Advances host c now key k w w' s o found step rest =
      elim (Ordering-cases (host.order.cmp key k)) [
        | inl less ↦ elsewhere (λ e. lt-ne-eq (sym less ∙ e))
        | inr (inl same) ↦
            let e = host.order.cmp_eq key k same in
            subst (λ x. Advances c now key x o) (sym (ap (λ x. find_work host x s) e ∙ found))
              (Advances-move (subst (λ x. Move c now x w w') (sym e) step) (
                subst (λ x. Advances c now key x o)
                  (ap (λ x. find_work host x (put_work host k w' s)) e
                    ∙ find_row-written host.order k w' s.works)
                  rest))
        | inr (inr more) ↦ elsewhere (λ e. gt-ne-eq (sym more ∙ e))
      ]
    where
      elsewhere : host.order.cmp key k ≢ eq → Advances c now key (find_work host key s) o
      elsewhere h =
          subst (λ x. Advances c now key x o) (find_row-other host.order key k w' s.works h) rest

  pub Run-Advances :
      {host : Host} {c : WorkQueueCommand T} {now : ℕ} {s t : RuntimeState T}
      {es : List (QueueEvent T)} (key : String)
      → Run host c now s es t
      → Advances c now key (find_work host key s) (find_work host key t)
  Run-Advances {host} {c} {now} {s} key done = Advances-refl c now key (find_work host key s)
  Run-Advances key (told e h run) = Run-Advances key run
  Run-Advances key (wrote r h run) = Run-Advances key run
  Run-Advances key (buried r h run) = Run-Advances key run
  Run-Advances {host} {c} {now} {s} {t} key (moved k w w' found step run) =
      moved-Advances host c now key k w w' s (find_work host key t) found step
        (Run-Advances key run)
  Run-Advances key (counted n run) = Run-Advances key run
