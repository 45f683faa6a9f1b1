-- ===== src/Prelude/Text.antt =====
-- The order of texts by their code points, which is Python's on `str`.
use Prim.Native.Nat.{compare as compare_ℕ, Ordering}
use Prim.Native.Nat.{ℕ}
use Prim.Native.Char.{code}
use Prim.Native.String.compare
use Prim.Native.String.{String, [], ◌∷◌, compare, then}
use mathlib.Core.Path.{◌≡◌, sym, ◌∙◌, ap}
use native.Mathlib.Omega.{arith}
use text.Mathlib.TextEquality.{path_by_compare}
use text.Mathlib.TextPositions.{compare_refl}

abbrev pub text_order : String → String → Ordering
text_order s t = compare s t

abbrev flip : Ordering → Ordering
flip Ordering.lt = Ordering.gt
flip Ordering.eq = Ordering.eq
flip Ordering.gt = Ordering.lt

pub text_order-flip : (s t : String) → text_order t s ≡ flip (text_order s t)
text_order-flip [] [] = compare.nil-nil ∙ sym (ap flip compare.nil-nil)
text_order-flip [] (d ∷ t) = compare.cons-nil d t ∙ sym (ap flip (compare.nil-cons d t))
text_order-flip (c ∷ s) [] = compare.nil-cons c s ∙ sym (ap flip (compare.cons-nil c s))
text_order-flip (c ∷ s) (d ∷ t) =
    rw (compare.cons-cons d c t s)
      (rw (compare.cons-cons c d s t) (rw (text_order-flip s t) (ground arith)))

not_lt_nil : (s : String) → text_order s [] ≡ Ordering.lt → ⊥
not_lt_nil [] h = let e = sym compare.nil-nil ∙ h in cc
not_lt_nil (c ∷ s) h = let e = sym (compare.cons-nil c s) ∙ h in cc

then-eq-lt :
    (m n k : ℕ) (p q r : Ordering)
    → then (compare_ℕ m n) p ≡ Ordering.lt
    → then (compare_ℕ n k) q ≡ Ordering.lt
    → (p ≡ Ordering.lt → q ≡ Ordering.lt → r ≡ Ordering.lt)
    → then (compare_ℕ m k) r ≡ Ordering.lt
then-eq-lt m n k p q r h1 h2 step = ground (arith, step)

pub text_order_trans :
    (s t u : String)
    → text_order s t ≡ Ordering.lt
    → text_order t u ≡ Ordering.lt
    → text_order s u ≡ Ordering.lt
text_order_trans s t [] h1 h2 = absurd (not_lt_nil t h2)
text_order_trans s [] (e ∷ u) h1 h2 = absurd (not_lt_nil s h1)
text_order_trans [] (d ∷ t) (e ∷ u) h1 h2 = compare.nil-cons e u
text_order_trans (c ∷ s) (d ∷ t) (e ∷ u) h1 h2 =
    compare.cons-cons c e s u
    ∙ then-eq-lt (code c) (code d) (code e) (compare s t) (compare t u) (compare s u)
        (sym (compare.cons-cons c d s t) ∙ h1) (sym (compare.cons-cons d e t u) ∙ h2)
        (text_order_trans s t u)

pub text_order-eq : (s t : String) → text_order s t ≡ Ordering.eq → s ≡ t
text_order-eq = path_by_compare

pub text_order_self : (s : String) → text_order s s ≡ Ordering.eq
text_order_self = compare_refl
