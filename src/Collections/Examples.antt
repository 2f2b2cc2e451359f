-- ===== src/Collections/Examples.antt =====
-- Small stores, at which the theorems on collections apply.
use Prim.Native.Nat.{compare, lt, eq, gt}
use graphrefly_rs.Prelude.{
  refl, if◌then◌else◌, ℕ, ◌≡◌, pos, negsuc, none, some, ◌>>=◌, [], ◌∷◌, arith,
}
use graphrefly_rs.Collections.Buffer.{Buffer, new}
use graphrefly_rs.Collections.Lists.{insert, pop}
use graphrefly_rs.Collections.Lists.Laws.{pop-insert}
use graphrefly_rs.Collections.Log.Tail.{append_all, tail, log_holds_tail}
use graphrefly_rs.Collections.Index
use graphrefly_rs.Collections.Index.Deletes.{listed, delete_many-get}
use graphrefly_rs.Collections.Maps
use graphrefly_rs.Collections.Maps.{Order, MapBackend, get, set, delete}
use graphrefly_rs.Collections.Maps.Histories.{Reaches, changes_one_key}

abbrev three : Buffer ℕ
three = record { buf = 1 ∷ 2 ∷ 3 ∷ []; version = 4 }

pop-insert_example :
    let before : Buffer ℕ = record three { version = 6 } in
    ((insert 1 9 three >>= pop (some (pos 1))) ≡ some (before, 1, 9))
    × ((insert 1 9 three >>= pop (some (negsuc 2))) ≡ some (before, 1, 9))
pop-insert_example = pop-insert 1 9 three (omega arith) (omega arith)

log_holds_tail_example :
    (c : Buffer ℕ) × ((new (1 ∷ 2 ∷ []) (some 2) >>= append_all 2 ((3 ∷ []) ∷ (4 ∷ 5 ∷ []) ∷ []))
      ≡ some c)
    × (c.buf ≡ tail 2 (1 ∷ 2 ∷ 3 ∷ 4 ∷ 5 ∷ []))
log_holds_tail_example = log_holds_tail 2 (1 ∷ 2 ∷ []) ((3 ∷ []) ∷ (4 ∷ 5 ∷ []) ∷ []) (omega arith)

numbers : Order ℕ
numbers = record {
  cmp = compare;
  cmp_refl = λ a. ground arith;
  cmp_eq = λ a b h. ground arith;
  cmp_trans = λ a b c h k. ground arith;
  cmp_flip = λ a b h. ground arith;
}

abbrev pairs : MapBackend ℕ ℕ
pairs = Maps.new numbers ((3, 30) ∷ (1, 10) ∷ [])

changes_one_key_example :
    (get numbers 3 (set numbers 1 11 pairs) ≡ elim (numbers.cmp 3 1) [
      | lt ↦ get numbers 3 pairs
      | eq ↦ some 11
      | gt ↦ get numbers 3 pairs
    ])
    × ((delete numbers 1 pairs).1 ≡ get numbers 1 pairs)
    × (get numbers 3 (delete numbers 1 pairs).0 ≡ elim (numbers.cmp 3 1) [
      | lt ↦ get numbers 3 pairs
      | eq ↦ none
      | gt ↦ get numbers 3 pairs
    ])
changes_one_key_example =
    changes_one_key numbers pairs 1 11 3 (Reaches.made ((3, 30) ∷ (1, 10) ∷ []))

abbrev rows_two : Index.IndexBackend ℕ ℕ ℕ
rows_two = record { rows = (1, (7, 10)) ∷ (3, (5, 30)) ∷ []; version = 0 }

delete_many-get_example :
    Index.get numbers numbers 3 (Index.delete_many numbers numbers (1 ∷ 3 ∷ []) rows_two).0
    ≡ (if listed numbers 3 (1 ∷ 3 ∷ []) then none else Index.get numbers numbers 3 rows_two)
unfolding numbers
delete_many-get_example =
    delete_many-get numbers numbers 3 (1 ∷ 3 ∷ []) rows_two ((refl, tt), (tt, tt))
