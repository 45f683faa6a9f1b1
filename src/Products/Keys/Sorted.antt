-- ===== src/Products/Keys/Sorted.antt =====
-- The key of a dictionary is sorted and holds what the dictionary holds.
use Prim.Native.Nat.{Ordering}
use aurapro.Prelude.{
  ◌≡◌, refl, ◌∙◌, ap, sym, subst, ◌⊎◌, inl, inr, String, true, false, Option, none, some, List, [],
  ◌∷◌, arith, str_eq, eq_iff, if◌then◌else◌, Bool-cases, All,
}
use aurapro.Prelude.Text.{
  text_order, text_order-flip, text_order_trans, text_order-eq, text_order_self,
}
use aurapro.Products.Keys.{item_order, insert_item, attributes_key}

abbrev pub Items : Type 0
Items = List (String × String)

-- `attributes.get(key)`
abbrev pub get : String → Items → Option String
get k [] = none
get k ((j, w) ∷ rest) = if str_eq j k then some w else get k rest

-- The keys of a dictionary are distinct.
abbrev pub IsDict : Items → Type 0
IsDict [] = Unit
IsDict ((k, v) ∷ rest) = (get k rest ≡ none) × IsDict rest

-- Every key comes after `k`.
abbrev pub After : String → Items → Type 0
After k rest = All (λ x. text_order k x.0 ≡ Ordering.lt) rest

abbrev pub IsSorted : Items → Type 0
IsSorted [] = Unit
IsSorted ((k, v) ∷ rest) = After k rest × IsSorted rest

pub str_eq_self : (k : String) → str_eq k k ≡ true
str_eq_self k = (eq_iff k k).1 refl

pub After-trans :
    (j k : String) (xs : Items) → text_order j k ≡ Ordering.lt → After k xs → After j xs
After-trans j k [] h a = tt
After-trans j k ((i, v) ∷ xs) h a = (text_order_trans j k i h a.0, After-trans j k xs h a.1)

pub Ordering-cases : (o : Ordering) → (o ≡ Ordering.lt) ⊎ (o ≡ Ordering.eq) ⊎ (o ≡ Ordering.gt)
Ordering-cases Ordering.lt = inl refl
Ordering-cases Ordering.eq = inr (inl refl)
Ordering-cases Ordering.gt = inr (inr refl)

-- Two keys in order differ.
lt_differs : (k j : String) → text_order k j ≡ Ordering.lt → str_eq k j ≡ false
lt_differs k j h = elim (Bool-cases (str_eq k j)) [
  | inr differ ↦ differ
  | inl same ↦
      let equal = (eq_iff k j).0 same in
      let self = text_order_self j in
      let h' = subst (λ i. text_order i j ≡ Ordering.lt) equal h in
      absurd (ground (arith, self, h'))
]

pub gt_flips : (k j : String) → text_order k j ≡ Ordering.gt → text_order j k ≡ Ordering.lt
gt_flips k j h = text_order-flip k j ∙ ground (arith, h)

pub get-After : (k : String) (xs : Items) → After k xs → get k xs ≡ none
get-After k [] a = refl
get-After k ((i, v) ∷ xs) a =
    let differ : str_eq i k ≡ false = elim (Bool-cases (str_eq i k)) [
      | inr no_match ↦ no_match
      | inl same ↦
          let equal = (eq_iff i k).0 same in
          let self = text_order_self k in
          let h = subst (λ j. text_order k j ≡ Ordering.lt) equal a.0 in
          absurd (ground (arith, self, h))
    ] in
    rw differ (get-After k xs a.1)

-- The item comes first, or it goes past the first one; a dictionary has no other with its key.
insert_item-cases :
    (k v i w : String) (xs : Items)
    → str_eq i k ≡ false
    → ((insert_item (k, v) ((i, w) ∷ xs) ≡ (k, v) ∷ (i, w) ∷ xs) × (text_order k i ≡ Ordering.lt))
      ⊎ ((insert_item (k, v) ((i, w) ∷ xs) ≡ (i, w) ∷ insert_item (k, v) xs)
          × (text_order i k ≡ Ordering.lt))
unfolding insert_item item_order
insert_item-cases k v i w xs differ = elim (Ordering-cases (text_order k i)) [
  | inl before ↦ inl (ground (arith, before), before)
  | inr (inl same) ↦
      let equal = text_order-eq k i same in
      let clash = subst (λ j. str_eq i j ≡ false) equal differ in
      let self = str_eq_self i in absurd (ground (arith, clash, self))
  | inr (inr past) ↦ inr (ground (arith, past), gt_flips k i past)
]

get-insert_item :
    (j k v : String) (xs : Items)
    → get k xs ≡ none
    → get j (insert_item (k, v) xs) ≡ (if str_eq k j then some v else get j xs)
unfolding insert_item
get-insert_item j k v [] fresh = refl
get-insert_item j k v ((i, w) ∷ xs) fresh = elim (Bool-cases (str_eq i k)) [
  | inl same ↦ absurd (ground (arith, same, fresh))
  | inr differ ↦
      let fresh' : get k xs ≡ none = ground (arith, differ, fresh) in
      elim (insert_item-cases k v i w xs differ) [
        | inl (e, before) ↦ ap (get j) e
        | inr (e, past) ↦ ap (get j) e ∙ elim (Bool-cases (str_eq i j)) [
          | inl here ↦
              let equal = (eq_iff i j).0 here in
              let apart : str_eq k j ≡ false = elim (Bool-cases (str_eq k j)) [
                | inr no_match ↦ no_match
                | inl also ↦
                    let equal' = (eq_iff k j).0 also in
                    let ik = equal ∙ sym equal' in
                    let clash = (eq_iff i k).1 ik in absurd (ground (arith, clash, differ))
              ] in
              rw here (rw apart refl)
          | inr away ↦ rw away (get-insert_item j k v xs fresh')
        ]
      ]
]

After-insert_item :
    (j k v : String) (xs : Items)
    → text_order j k ≡ Ordering.lt
    → After j xs
    → get k xs ≡ none
    → After j (insert_item (k, v) xs)
unfolding insert_item
After-insert_item j k v [] h a fresh = (h, tt)
After-insert_item j k v ((i, w) ∷ xs) h a fresh = elim (Bool-cases (str_eq i k)) [
  | inl same ↦ absurd (ground (arith, same, fresh))
  | inr differ ↦
      let fresh' : get k xs ≡ none = ground (arith, differ, fresh) in
      elim (insert_item-cases k v i w xs differ) [
        | inl (e, before) ↦ subst (After j) (sym e) (h, a)
        | inr (e, past) ↦ subst (After j) (sym e) (a.0, After-insert_item j k v xs h a.1 fresh')
      ]
]

IsSorted-insert_item :
    (k v : String) (xs : Items) → get k xs ≡ none → IsSorted xs → IsSorted (insert_item (k, v) xs)
unfolding insert_item
IsSorted-insert_item k v [] fresh sorted = (tt, tt)
IsSorted-insert_item k v ((i, w) ∷ xs) fresh sorted = elim (Bool-cases (str_eq i k)) [
  | inl same ↦ absurd (ground (arith, same, fresh))
  | inr differ ↦
      let fresh' : get k xs ≡ none = ground (arith, differ, fresh) in
      elim (insert_item-cases k v i w xs differ) [
        | inl (e, before) ↦
            subst IsSorted (sym e) ((before, After-trans k i xs before sorted.0), sorted)
        | inr (e, past) ↦ subst IsSorted (sym e) (
          After-insert_item i k v xs past sorted.0 fresh',
          IsSorted-insert_item k v xs fresh' sorted.1,
        )
      ]
]

pub get-attributes_key :
    (j : String) (xs : Items) → IsDict xs → get j (attributes_key xs) ≡ get j xs
unfolding attributes_key
get-attributes_key j [] d = refl
get-attributes_key j ((k, v) ∷ xs) d =
    get-insert_item j k v (attributes_key xs) (get-attributes_key k xs d.1 ∙ d.0)
    ∙ ap (λ o. if str_eq k j then some v else o) (get-attributes_key j xs d.1)

pub IsSorted-attributes_key : (xs : Items) → IsDict xs → IsSorted (attributes_key xs)
unfolding attributes_key
IsSorted-attributes_key [] d = tt
IsSorted-attributes_key ((k, v) ∷ xs) d =
    IsSorted-insert_item k v (attributes_key xs) (get-attributes_key k xs d.1 ∙ d.0)
      (IsSorted-attributes_key xs d.1)
