-- ===== src/Collections/Maps/Strings.antt =====
-- The order of Rust's strings, `str::cmp`, which is that of their characters' numbers.
use graphrefly_rs.Prelude.{ℕ, ◌≡◌, ◌≢◌, refl, sym, ◌∙◌, String, arith}
use Prim.Native.Nat.{Ordering, lt, eq, gt, compare as compare_numbers}
use Prim.Native.Char.{code}
use Prim.Native.String.compare as compare
use Prim.Native.String.{[], ◌∷◌, compare, then}
use text.Mathlib.TextEquality.{path_by_compare}
use graphrefly_rs.Collections.Maps.{Order}

lt-ne-gt : lt ≢ gt
lt-ne-gt e = ground arith

then_refl : (a : ℕ) (x : Ordering) → x ≡ eq → then (compare_numbers a a) x ≡ eq
then_refl a x h = ground arith

then-flip :
    (a b : ℕ) (x y : Ordering)
    → (x ≡ gt → y ≡ lt)
    → then (compare_numbers a b) x ≡ gt
    → then (compare_numbers b a) y ≡ lt
then-flip a b x y flip h = ground arith

then_trans :
    (a b c : ℕ) (x y z : Ordering)
    → (x ≡ lt → y ≡ lt → z ≡ lt)
    → then (compare_numbers a b) x ≡ lt
    → then (compare_numbers b c) y ≡ lt
    → then (compare_numbers a c) z ≡ lt
then_trans a b c x y z trans h k = ground arith

pub compare_refl : (s : String) → compare s s ≡ eq
compare_refl [] = refl
compare_refl (c ∷ s) = compare.cons-cons c c s s ∙ then_refl (code c) (compare s s) (compare_refl s)

pub compare-flip : (s t : String) → compare s t ≡ gt → compare t s ≡ lt
compare-flip [] [] h = absurd (ground (arith, h))
compare-flip [] (d ∷ t) h = absurd (lt-ne-gt (sym (compare.nil-cons d t) ∙ h))
compare-flip (c ∷ s) [] h = compare.nil-cons c s
compare-flip (c ∷ s) (d ∷ t) h =
    compare.cons-cons d c t s
    ∙ then-flip (code c) (code d) (compare s t) (compare t s) (compare-flip s t)
        (sym (compare.cons-cons c d s t) ∙ h)

pub compare_trans : (s t u : String) → compare s t ≡ lt → compare t u ≡ lt → compare s u ≡ lt
compare_trans [] [] u h k = k
compare_trans [] (d ∷ t) [] h k = absurd (lt-ne-gt (sym k ∙ compare.cons-nil d t))
compare_trans [] (d ∷ t) (e ∷ u) h k = compare.nil-cons e u
compare_trans (c ∷ s) [] u h k = absurd (lt-ne-gt (sym h ∙ compare.cons-nil c s))
compare_trans (c ∷ s) (d ∷ t) [] h k = absurd (lt-ne-gt (sym k ∙ compare.cons-nil d t))
compare_trans (c ∷ s) (d ∷ t) (e ∷ u) h k =
    compare.cons-cons c e s u
    ∙ then_trans (code c) (code d) (code e) (compare s t) (compare t u) (compare s u)
        (compare_trans s t u) (sym (compare.cons-cons c d s t) ∙ h)
        (sym (compare.cons-cons d e t u) ∙ k)

abbrev pub text_order : Order String
text_order = record {
  cmp = compare;
  cmp_refl = compare_refl;
  cmp_eq = path_by_compare;
  cmp_trans = compare_trans;
  cmp_flip = compare-flip;
}
