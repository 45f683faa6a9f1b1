-- ===== src/Products/Variants/Wholeness.antt =====
-- A batch of variants, in terms of its items and of the table alone.
use aurapro.Prelude.{
  ℕ, ◌+◌, ◌≡◌, refl, sym, ap, subst, ◌∙◌, String, true, false, some, List, [], ◌∷◌, ◌++◌, arith,
  inl, inr, Bool-cases, map, length, All, AllPairs, All-both, All-imp, All-always, str_eq, eq_iff,
}
use Prim.Native.Nat.{Ordering}
use aurapro.Models.{Database}
use aurapro.Models.Products.{ProductVariant, variant_row}
use aurapro.Session.{Session, opened, Result, ok, err}
use aurapro.Products.Keys.{attributes_key, insert_item, item_order}
use aurapro.Products.Keys.Sorted.{Items, get, IsDict}
use aurapro.Products.Keys.Canonical.{attributes_key_iff, keys_equal_sound, keys_equal_self}
use aurapro.Products.Variants.{
  ProductVariantCreate, variants_of, is_empty_key, contains_key, combo_of, add_sku, add_combo,
  clean_sku, create_variants_bulk,
}
use aurapro.Products.Variants.Batch.{
  batch_rows, IsFreeBatch, IsAllOrNothing, create_variants_bulk-IsAllOrNothing,
}
use aurapro.Products.Variants.Seen.{
  seen_sku-own, contains_key-own, IsNewSku, IsNewCombo, new_skus, new_combos,
}

-- Two items whose SKUs, blanks around them aside, are different or empty.
abbrev pub SkusDiffer : (String → String) → ProductVariantCreate → ProductVariantCreate → Type 0
SkusDiffer strip x y =
    (a b : String) → x.sku ≡ some a → y.sku ≡ some b → strip a ≡ strip b → strip a ≡ ""

-- Two dictionaries that differ, or are empty.
abbrev pub CombinationsDiffer : Items → Items → Type 0
CombinationsDiffer a b = ((k : String) → get k a ≡ get k b) → a ≡ []

-- The rows answer the items one by one, with identifiers from `n` on.
abbrev pub AnswerItems : ℕ → ℕ → ℕ → ℕ → List ProductVariantCreate → List ProductVariant → Type 0
AnswerItems n now t p [] [] = Unit
AnswerItems n now t p [] (row ∷ rows) = ⊥
AnswerItems n now t p (item ∷ items) [] = ⊥
AnswerItems n now t p (item ∷ items) (row ∷ rows) =
    ((row.id ≡ n)
      × (row.created_at ≡ now)
      × (row.tenant_id ≡ t)
      × (row.product_id ≡ p)
      × (row.attributes ≡ item.attributes)
      × (row.sku ≡ item.sku)
      × (row.stock ≡ item.stock))
    × AnswerItems (n + 1) now t p items rows

-- An item whose combination no variant of tenant `t`'s product `p` has.
abbrev pub IsFreeIn : ℕ → ℕ → List ProductVariant → ProductVariantCreate → Type 0
IsFreeIn t p variants item =
    All
      (λ (v : ProductVariant).
        v.tenant_id ≡ t → v.product_id ≡ p → CombinationsDiffer item.attributes v.attributes)
      variants

abbrev pub IsWhole :
    (String → String)
    → ℕ
    → ℕ
    → ℕ
    → List ProductVariantCreate
    → Database
    → Result (List ProductVariant) × Session
    → Type 0
IsWhole strip now t p items d (err e, s') = s'.committed ≡ d
IsWhole strip now t p items d (ok rows, s') =
    AnswerItems d.next_id now t p items rows
    × (s'.committed
        ≡ record d { next_id = d.next_id + length items; variants = d.variants ++ rows })
    × AllPairs (SkusDiffer strip) items
    × AllPairs (λ x y. CombinationsDiffer x.attributes y.attributes) items
    × All (IsFreeIn t p d.variants) items

batch_rows-AnswerItems :
    (n now t p : ℕ) (items : List ProductVariantCreate)
    → AnswerItems n now t p items (batch_rows n now t p items)
batch_rows-AnswerItems n now t p [] = tt
batch_rows-AnswerItems n now t p (item ∷ items) =
    ((refl, refl, refl, refl, refl, refl, refl), batch_rows-AnswerItems (n + 1) now t p items)

-- Only the empty dictionary has the empty key.
insert_item-full : (x : String × String) (xs : Items) → is_empty_key (insert_item x xs) ≡ false
unfolding insert_item
insert_item-full x [] = refl
insert_item-full x (y ∷ xs) = go (item_order x y)
  where
    go :
        (o : Ordering)
        → is_empty_key (elim o [
          | Ordering.gt ↦ y ∷ insert_item x xs
          | Ordering.lt ↦ x ∷ y ∷ xs
          | Ordering.eq ↦ x ∷ y ∷ xs
        ])
          ≡ false
    go Ordering.lt = refl
    go Ordering.eq = refl
    go Ordering.gt = refl

empty_of_key : (a : Items) → is_empty_key (attributes_key a) ≡ true → a ≡ []
unfolding attributes_key
empty_of_key [] h = refl
empty_of_key (x ∷ rest) h = absurd (ground (arith, h, insert_item-full x (attributes_key rest)))

-- Dictionaries that agree have the same key.
same_key :
    (a b : Items)
    → IsDict a
    → IsDict b
    → ((k : String) → get k a ≡ get k b)
    → attributes_key a ≡ attributes_key b
same_key a b da db agree =
    keys_equal_sound (attributes_key a) (attributes_key b) ((attributes_key_iff a b da db).1 agree)

skus_differ :
    (strip : String → String) (items : List ProductVariantCreate) (skus : List String)
    (combos : List Items)
    → IsFreeBatch strip items skus combos
    → AllPairs (SkusDiffer strip) items
unfolding clean_sku
skus_differ strip [] skus combos free = tt
skus_differ strip (item ∷ rest) skus combos free =
    let sku = clean_sku strip item.sku in
    let skus' = add_sku sku skus in
    let combos' = add_combo (attributes_key item.attributes) combos in
    (
      elim (Bool-cases (str_eq sku "")) [
        | inl blank ↦
            All-always (SkusDiffer strip item) rest
              λ later a b own other same. sym (ap (clean_sku strip) own) ∙ (eq_iff sku "").0 blank
        | inr full ↦
            All-imp (IsNewSku strip skus') (SkusDiffer strip item) rest
              (λ later new a b own other same.
                let mine = ap (clean_sku strip) own in
                let theirs = ap (clean_sku strip) other in
                same
                ∙ sym theirs
                ∙ new sku (seen_sku-own sku skus full) (theirs ∙ sym same ∙ sym mine))
              (new_skus strip rest skus' combos' free.2)
      ],
      skus_differ strip rest skus' combos' free.2,
    )

abbrev AreDicts : List ProductVariantCreate → Type 0
AreDicts items = All (λ (item : ProductVariantCreate). IsDict item.attributes) items

combinations_differ :
    (strip : String → String) (items : List ProductVariantCreate) (skus : List String)
    (combos : List Items)
    → AreDicts items
    → IsFreeBatch strip items skus combos
    → AllPairs (λ x y. CombinationsDiffer x.attributes y.attributes) items
combinations_differ strip [] skus combos dicts free = tt
combinations_differ strip (item ∷ rest) skus combos dicts free =
    let key = attributes_key item.attributes in
    let skus' = add_sku (clean_sku strip item.sku) skus in
    let combos' = add_combo key combos in
    (
      elim (Bool-cases (is_empty_key key)) [
        | inl blank ↦
            All-always
              (λ (y : ProductVariantCreate). CombinationsDiffer item.attributes y.attributes) rest
              (λ later agree. empty_of_key item.attributes blank)
        | inr full ↦
            All-both (λ (y : ProductVariantCreate). IsDict y.attributes) (IsNewCombo combos')
              (λ (y : ProductVariantCreate). CombinationsDiffer item.attributes y.attributes) rest
              (λ later dict new agree.
                let same = same_key item.attributes later.attributes dicts.0 dict agree in
                empty_of_key item.attributes
                  (ap is_empty_key same ∙ new key (contains_key-own key combos full) (sym same)))
              dicts.1 (new_combos strip rest skus' combos' free.2)
      ],
      combinations_differ strip rest skus' combos' dicts.1 free.2,
    )

free_in :
    (t p : ℕ) (item : ProductVariantCreate) (combos : List Items) (variants : List ProductVariant)
    → IsDict item.attributes
    → IsNewCombo combos item
    → All (λ (v : ProductVariant). IsDict v.attributes) variants
    → ((x : Items)
        → contains_key x (map combo_of (variants_of p (some t) variants)) ≡ true
        → contains_key x combos ≡ true)
    → IsFreeIn t p variants item
unfolding contains_key
free_in t p item combos [] dict new known there = tt
free_in t p item combos (v ∷ rest) dict new known there = (
  λ owner product agree.
      let same = same_key item.attributes v.attributes dict known.0 agree in
      empty_of_key item.attributes (
        new (combo_of v)
          (there (combo_of v) (ground (arith, owner, product, keys_equal_self (combo_of v)))) same),
  free_in t p item combos rest dict new known.1 (λ x here. there x (ground (arith, here))),
)

existing_differ :
    (strip : String → String) (t p : ℕ) (items : List ProductVariantCreate)
    (variants : List ProductVariant)
    → AreDicts items
    → All (λ (v : ProductVariant). IsDict v.attributes) variants
    → IsFreeBatch strip items [] (map combo_of (variants_of p (some t) variants))
    → All (IsFreeIn t p variants) items
existing_differ strip t p items variants dicts known free =
    let combos = map combo_of (variants_of p (some t) variants) in
    All-both (λ (i : ProductVariantCreate). IsDict i.attributes) (IsNewCombo combos)
      (IsFreeIn t p variants) items
      (λ i dict new. free_in t p i combos variants dict new known (λ x here. here)) dicts
      (new_combos strip items [] combos free)

whole :
    (strip : String → String) (now t p : ℕ) (items : List ProductVariantCreate) (d : Database)
    (r : Result (List ProductVariant) × Session)
    → AreDicts items
    → All (λ (v : ProductVariant). IsDict v.attributes) d.variants
    → IsAllOrNothing strip now t p items d r
    → IsWhole strip now t p items d r
whole strip now t p items d (err e, s') dicts known h = h
whole strip now t p items d (ok rows, s') dicts known (same, after, free) = (
  subst (AnswerItems d.next_id now t p items) (sym same)
      (batch_rows-AnswerItems d.next_id now t p items),
  after
      ∙ ap (λ z. record d { next_id = d.next_id + length items; variants = d.variants ++ z })
          (sym same),
  skus_differ strip items [] (map combo_of (variants_of p (some t) d.variants)) free,
  combinations_differ strip items [] (map combo_of (variants_of p (some t) d.variants)) dicts free,
  existing_differ strip t p items d.variants dicts known free,
)

-- A batch of variants is created whole or not at all, provided that the attributes of its items and
-- of the variants that are there are dictionaries. If the request raises, the committed data is what
-- it was. If it returns, then its rows, and no others, are appended to the variants: they answer the
-- items one by one, in order, each with its item's attributes, SKU and stock. In this case any two
-- items that both have a SKU have different ones, blanks around them aside, or empty ones; any two
-- items' attributes are different dictionaries, or empty; and so are an item's and those of each
-- variant that the tenant's product had.
pub create_variants_bulk-IsWhole :
    (strip : String → String) (t now p : ℕ) (items : List ProductVariantCreate) (d : Database)
    → All (λ (item : ProductVariantCreate). IsDict item.attributes) items
    → All (λ (v : ProductVariant). IsDict v.attributes) d.variants
    → IsWhole strip now t p items d (create_variants_bulk strip t p items (opened t now d))
create_variants_bulk-IsWhole strip t now p items d dicts known =
    whole strip now t p items d (create_variants_bulk strip t p items (opened t now d)) dicts known
      (create_variants_bulk-IsAllOrNothing strip t now p items d)
