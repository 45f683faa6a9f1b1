-- ===== src/Products/Variants/Seen.antt =====
-- What the check of a batch (`check_batch`) says of each item and what was seen before it.
use aurapro.Prelude.{
  ◌≡◌, sym, subst, String, true, false, List, [], ◌∷◌, arith, inl, inr, Bool-cases, All, All-imp,
  str_eq, eq_iff,
}
use aurapro.Models.Products.{variant_row}
use aurapro.Products.Keys.{attributes_key}
use aurapro.Products.Keys.Sorted.{Items, str_eq_self}
use aurapro.Products.Keys.Canonical.{keys_equal_self}
use aurapro.Products.Variants.{
  ProductVariantCreate, is_taken, is_empty_key, contains_key, seen_sku, repeats_sku, add_sku,
  add_combo, clean_sku,
}
use aurapro.Products.Variants.Batch.{IsFreeBatch}

seen_sku-add_sku :
    (x y : String) (seen : List String)
    → seen_sku x seen ≡ true
    → seen_sku x (add_sku y seen) ≡ true
unfolding seen_sku add_sku
seen_sku-add_sku x y seen h = ground arith

pub seen_sku-own :
    (x : String) (seen : List String) → str_eq x "" ≡ false → seen_sku x (add_sku x seen) ≡ true
unfolding seen_sku add_sku
seen_sku-own x seen full = ground (arith, str_eq_self x)

contains_key-add_combo :
    (x y : Items) (seen : List Items)
    → contains_key x seen ≡ true
    → contains_key x (add_combo y seen) ≡ true
unfolding contains_key add_combo
contains_key-add_combo x y seen h = ground arith

pub contains_key-own :
    (x : Items) (seen : List Items)
    → is_empty_key x ≡ false
    → contains_key x (add_combo x seen) ≡ true
unfolding contains_key add_combo
contains_key-own x seen full = ground (arith, keys_equal_self x)

-- An item that repeats no SKU that was seen, unless it has none, and the same for combinations.
abbrev pub IsNewSku : (String → String) → List String → ProductVariantCreate → Type 0
IsNewSku strip skus item =
    (x : String)
    → seen_sku x skus ≡ true
    → clean_sku strip item.sku ≡ x
    → clean_sku strip item.sku ≡ ""

abbrev pub IsNewCombo : List Items → ProductVariantCreate → Type 0
IsNewCombo combos item =
    (x : Items)
    → contains_key x combos ≡ true
    → attributes_key item.attributes ≡ x
    → is_empty_key (attributes_key item.attributes) ≡ true

pub new_skus :
    (strip : String → String) (items : List ProductVariantCreate) (skus : List String)
    (combos : List Items)
    → IsFreeBatch strip items skus combos
    → All (IsNewSku strip skus) items
unfolding repeats_sku
new_skus strip [] skus combos free = tt
new_skus strip (item ∷ rest) skus combos free =
    let sku = clean_sku strip item.sku in
    (
      λ x seen same. elim (Bool-cases (str_eq sku "")) [
        | inl blank ↦ (eq_iff sku "").0 blank
        | inr full ↦
            let seen' = subst (λ z. seen_sku z skus ≡ true) (sym same) seen in
            absurd (ground (arith, free.0, seen', full))
      ],
      All-imp (IsNewSku strip (add_sku sku skus)) (IsNewSku strip skus) rest
          (λ i h x seen. h x (seen_sku-add_sku x sku skus seen))
          (new_skus strip rest (add_sku sku skus)
            (add_combo (attributes_key item.attributes) combos) free.2),
    )

pub new_combos :
    (strip : String → String) (items : List ProductVariantCreate) (skus : List String)
    (combos : List Items)
    → IsFreeBatch strip items skus combos
    → All (IsNewCombo combos) items
unfolding is_taken
new_combos strip [] skus combos free = tt
new_combos strip (item ∷ rest) skus combos free =
    let key = attributes_key item.attributes in
    (
      λ x seen same. elim (Bool-cases (is_empty_key key)) [
        | inl blank ↦ blank
        | inr full ↦
            let seen' = subst (λ z. contains_key z combos ≡ true) (sym same) seen in
            absurd (ground (arith, free.1, seen', full))
      ],
      All-imp (IsNewCombo (add_combo key combos)) (IsNewCombo combos) rest
          (λ i h x seen. h x (contains_key-add_combo x key combos seen))
          (new_combos strip rest (add_sku (clean_sku strip item.sku) skus) (add_combo key combos)
            free.2),
    )
