-- ===== src/Products/Keys/Canonical.antt =====
-- The key of a variant's attributes stands for the attributes as a dictionary: two dictionaries
-- have the same key exactly if each attribute has the same value in both.
use Prim.Native.Nat.{Ordering}
use aurapro.Prelude.{
  ◌≡◌, refl, ◌∙◌, ap, sym, subst, inl, inr, String, true, none, some, List, [], ◌∷◌, arith, str_eq,
  eq_iff, Bool-cases, ◌↔◌,
}
use mathlib.Core.Path.{ap₂}
use aurapro.Prelude.Text.{text_order, text_order-eq}
use aurapro.Products.Keys.{attributes_key, keys_equal}
use aurapro.Products.Keys.Sorted.{
  Items, get, IsDict, After, IsSorted, str_eq_self, After-trans, Ordering-cases, gt_flips,
  get-After, get-attributes_key, IsSorted-attributes_key,
}

get-head : (k v : String) (xs : Items) → get k ((k, v) ∷ xs) ≡ some v
get-head k v xs = rw (str_eq_self k) refl

get-before :
    (k i w : String) (xs : Items)
    → text_order k i ≡ Ordering.lt
    → After i xs
    → get k ((i, w) ∷ xs) ≡ none
get-before k i w xs h a = get-After k ((i, w) ∷ xs) (h, After-trans k i xs h a)

-- Without their first items, two sorted lists that agree still agree.
tails_agree :
    (k v : String) (xs ys : Items)
    → After k xs
    → After k ys
    → ((j : String) → get j ((k, v) ∷ xs) ≡ get j ((k, v) ∷ ys))
    → (j : String) → get j xs ≡ get j ys
tails_agree k v xs ys ax ay agree j = elim (Bool-cases (str_eq k j)) [
  | inl same ↦
      subst (λ i. get i xs ≡ get i ys) ((eq_iff k j).0 same)
        (get-After k xs ax ∙ sym (get-After k ys ay))
  | inr differ ↦ let h = agree j in ground (arith, h, differ)
]

-- Sorted lists that give every key the same value are equal.
sorted_unique :
    (xs ys : Items) → IsSorted xs → IsSorted ys → ((j : String) → get j xs ≡ get j ys) → xs ≡ ys
sorted_unique [] [] sx sy agree = refl
sorted_unique [] ((i, w) ∷ ys) sx sy agree = absurd (ground (arith, agree i, get-head i w ys))
sorted_unique ((k, v) ∷ xs) [] sx sy agree = absurd (ground (arith, agree k, get-head k v xs))
sorted_unique ((k, v) ∷ xs) ((i, w) ∷ ys) sx sy agree = elim (Ordering-cases (text_order k i)) [
  | inl before ↦ absurd (ground (arith, agree k, get-head k v xs, get-before k i w ys before sy.0))
  | inr (inr past) ↦
      absurd
        (ground (arith, agree i, get-head i w ys, get-before i k v xs (gt_flips k i past) sx.0))
  | inr (inl same) ↦
      let key = text_order-eq k i same in
      let at_key : some v ≡ some w =
        sym (get-head k v xs)
        ∙ agree k
        ∙ subst (λ z. get z ((i, w) ∷ ys) ≡ some w) (sym key) (get-head i w ys) in
      let value : v ≡ w = ground (arith, at_key) in
      let first : (i, w) ≡ (k, v) = ap₂ (λ a b. (a, b)) (sym key) (sym value) in
      let after = subst (λ z. After z ys) (sym key) sy.0 in
      let agree' =
        tails_agree k v xs ys sx.0 after (λ j. agree j ∙ ap (λ x. get j (x ∷ ys)) first) in
      ap₂ ◌∷◌ (sym first) (sorted_unique xs ys sx.1 sy.1 agree')
]

pub keys_equal_sound : (xs ys : Items) → keys_equal xs ys ≡ true → xs ≡ ys
unfolding keys_equal
keys_equal_sound [] [] h = refl
keys_equal_sound [] (y ∷ ys) h = cc
keys_equal_sound (x ∷ xs) [] h = cc
keys_equal_sound ((k, v) ∷ xs) ((j, w) ∷ ys) h =
    let (p, q, r) : (str_eq k j ≡ true) × (str_eq v w ≡ true) × (keys_equal xs ys ≡ true) =
      ground arith in
    ap₂ ◌∷◌ (ap₂ (λ a b. (a, b)) ((eq_iff k j).0 p) ((eq_iff v w).0 q)) (keys_equal_sound xs ys r)

pub keys_equal_self : (xs : Items) → keys_equal xs xs ≡ true
unfolding keys_equal
keys_equal_self [] = refl
keys_equal_self ((k, v) ∷ xs) = rw (str_eq_self k) (rw (str_eq_self v) (keys_equal_self xs))

keys_equal_iff : (xs ys : Items) → (keys_equal xs ys ≡ true) ↔ (xs ≡ ys)
keys_equal_iff xs ys =
    (keys_equal_sound xs ys, λ e. subst (λ z. keys_equal xs z ≡ true) e (keys_equal_self xs))

-- Two variants' attributes have equal keys exactly if they are the same as dictionaries: every
-- attribute is set to the same value in both, or in neither. The order in which the attributes are
-- written does not matter.
pub attributes_key_iff :
    (a b : List (String × String))
    → IsDict a
    → IsDict b
    → (keys_equal (attributes_key a) (attributes_key b) ≡ true) ↔ ((k : String) → get k a ≡ get k b)
attributes_key_iff a b da db = (
  λ h k.
      sym (get-attributes_key k a da)
      ∙ ap (get k) ((keys_equal_iff (attributes_key a) (attributes_key b)).0 h)
      ∙ get-attributes_key k b db,
  λ agree. (keys_equal_iff (attributes_key a) (attributes_key b)).1 (
      sorted_unique (attributes_key a) (attributes_key b) (IsSorted-attributes_key a da)
        (IsSorted-attributes_key b db)
        (λ k. get-attributes_key k a da ∙ agree k ∙ sym (get-attributes_key k b db))),
)
