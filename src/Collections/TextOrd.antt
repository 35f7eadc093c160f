-- ===== src/Collections/TextOrd.antt =====
-- Strings ordered code point by code point, which is the byte order of their UTF-8.
use Prim.Native.Nat.{compare, Ordering}
use Prim.Native.Nat.Ordering.{lt, eq, gt}
use flux_rs.Base.{◌≡◌, ◌↔◌, refl, [], ◌∷◌, arith}
use flux_rs.Base.Text.{Text}
use flux_rs.Collections.Ord.{Ord, reverse, compare-eq, compare-reverse}

abbrev pub then_by : Ordering → Ordering → Ordering
then_by lt o = lt
then_by eq o = o
then_by gt o = gt

abbrev pub text_compare : Text → Text → Ordering
text_compare [] [] = eq
text_compare [] (d ∷ t) = lt
text_compare (c ∷ s) [] = gt
text_compare (c ∷ s) (d ∷ t) = then_by (compare c d) (text_compare s t)

pub text_compare-eq : (s t : Text) → (text_compare s t ≡ eq) ↔ (s ≡ t)
text_compare-eq [] [] = ground arith
text_compare-eq [] (d ∷ t) = ground arith
text_compare-eq (c ∷ s) [] = ground arith
text_compare-eq (c ∷ s) (d ∷ t) = ground (arith, compare-eq c d, text_compare-eq s t)

pub text_compare-reverse : (s t : Text) → text_compare t s ≡ reverse (text_compare s t)
text_compare-reverse [] [] = refl
text_compare-reverse [] (d ∷ t) = refl
text_compare-reverse (c ∷ s) [] = refl
text_compare-reverse (c ∷ s) (d ∷ t) = ground (arith, compare-reverse c d, text_compare-reverse s t)

pub text_compare_trans :
    (s t u : Text) → text_compare s t ≡ lt → text_compare t u ≡ lt → text_compare s u ≡ lt
text_compare_trans [] [] u h k = ground arith
text_compare_trans [] (d ∷ t) [] h k = ground arith
text_compare_trans [] (d ∷ t) (e ∷ u) h k = refl
text_compare_trans (c ∷ s) [] u h k = ground arith
text_compare_trans (c ∷ s) (d ∷ t) [] h k = ground arith
text_compare_trans (c ∷ s) (d ∷ t) (e ∷ u) h k = ground (arith, text_compare_trans s t u)

instance abbrev pub text_ord : Ord Text
text_ord = record {
  cmp = text_compare;
  cmp_eq = text_compare-eq;
  cmp_reverse = text_compare-reverse;
  cmp_trans = text_compare_trans;
}
