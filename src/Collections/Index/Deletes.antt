-- ===== src/Collections/Index/Deletes.antt =====
-- Deleting many rows of an index at once.
use Prim.Native.Nat.{Ordering, lt, eq, gt}
use mathlib.Core.Option.{map as option_map}
use graphrefly_rs.Prelude.{
  ◌≡◌, refl, ◌∙◌, ap, Bool, true, false, Option, none, List, [], ◌∷◌, arith, any, if◌then◌else◌,
}
use graphrefly_rs.Collections.Maps.{Order, find_row, remove_row}
use graphrefly_rs.Collections.Maps.Laws.{IsSorted, IsSorted-remove_row, find_row-remove_row}
use graphrefly_rs.Collections.Index.{IndexBackend, get, delete_many, remove_each}

abbrev pub is_eq : Ordering → Bool
is_eq lt = false
is_eq eq = true
is_eq gt = false

-- Whether a key is among some keys.
abbrev pub listed {ℓ} : {K : Type ℓ} → Order K → K → List K → Bool
listed keys key ps = any (λ p. is_eq (keys.cmp key p)) ps

unlisted {ℓ ℓ'} :
    {A : Type ℓ} {B : Type ℓ'} (f : A → B) (b : Bool) (o : Option A)
    → option_map f (if b then none else o) ≡ (if b then none else option_map f o)
unlisted f true o = refl
unlisted f false o = refl

module _ {ℓ} {K S V : Type ℓ} (keys : Order K) (seconds : Order S) where
  remove_each-finds :
      (key : K) (ps : List K) (rows : List (K × (S × V)))
      → IsSorted keys rows
      → find_row keys key (remove_each keys seconds ps rows).0
        ≡ (if listed keys key ps then none else find_row keys key rows)
  unfolding remove_each
  remove_each-finds key [] rows sorted = refl
  remove_each-finds key (p ∷ ps) rows sorted =
      let rest =
        remove_each-finds key ps (remove_row keys p rows)
          (IsSorted-remove_row keys p rows sorted) in
      ground (arith, rest, find_row-remove_row keys key p rows sorted)

  delete_many-rows :
      (ps : List K) (m : IndexBackend K S V)
      → (delete_many keys seconds ps m).0.rows ≡ (remove_each keys seconds ps m.rows).0
  unfolding delete_many
  delete_many-rows ps m = ground arith

  -- Whatever keys are deleted together from an index whose rows are sorted, no key among them has a
  -- value afterwards, and every other key has the value it had.
  pub delete_many-get :
      (key : K) (ps : List K) (m : IndexBackend K S V)
      → IsSorted keys m.rows
      → get keys seconds key (delete_many keys seconds ps m).0
        ≡ (if listed keys key ps then none else get keys seconds key m)
  unfolding get
  delete_many-get key ps m sorted =
      ap (λ rows. option_map (λ row. row.1) (find_row keys key rows)) (delete_many-rows ps m)
      ∙ ap (option_map (λ row. row.1)) (remove_each-finds key ps m.rows sorted)
      ∙ unlisted (λ row. row.1) (listed keys key ps) (find_row keys key m.rows)
