-- ===== src/Products/Variants/Batch.antt =====
-- `create_variants_bulk`: the whole batch or none of it.
use aurapro.Prelude.{
  ℕ, ◌+◌, ◌≡◌, refl, String, false, some, List, [], ◌∷◌, ◌++◌, arith, inl, inr, ◌⊎◌, Option-cases,
  Bool-cases, map, length, all,
}
use aurapro.Models.{Database}
use aurapro.Models.Products.{ProductVariant, product_row, variant_row}
use aurapro.Session.{Session, opened, Result, ok, err}
use aurapro.Session.Errors.{Error}
use aurapro.Query.{find_by_id}
use aurapro.Query.Laws.{find_by_id_sound}
use aurapro.Products.Keys.{attributes_key}
use aurapro.Products.Catalogue.{get_product}
use aurapro.Products.Variants.{
  ProductVariantCreate, variants_of, is_taken, combo_of, new_variant, variant_in_range, all_fit,
  insert_variants, build_variants, repeats_sku, add_sku, add_combo, clean_sku, check_batch,
  create_variants_bulk,
}

-- The rows of a batch, with identifiers from `n` on.
abbrev pub batch_rows : ℕ → ℕ → ℕ → ℕ → List ProductVariantCreate → List ProductVariant
batch_rows n now t p [] = []
batch_rows n now t p (item ∷ rest) = new_variant n now t p item ∷ batch_rows (n + 1) now t p rest

-- `n` identifiers are used up.
abbrev pub take_ids : ℕ → Session → Session
take_ids n s = record s { pending = record s.pending { next_id = s.pending.next_id + n } }

build_variants_lem :
    (t p : ℕ) (items : List ProductVariantCreate) (s : Session)
    → build_variants t p items s
      ≡ (ok (batch_rows s.pending.next_id s.now t p items), take_ids (length items) s)
unfolding build_variants
build_variants_lem t p [] s = ground arith
build_variants_lem t p (item ∷ rest) s =
    let tail = build_variants_lem t p rest (take_ids 1 s) in ground (arith, tail)

-- A batch that passes the check: no SKU and no combination is repeated.
abbrev pub IsFreeBatch :
    (String → String)
    → List ProductVariantCreate
    → List String
    → List (List (String × String))
    → Type 0
IsFreeBatch strip [] skus combos = Unit
IsFreeBatch strip (item ∷ rest) skus combos =
    (repeats_sku (clean_sku strip item.sku) skus ≡ false)
    × (is_taken (attributes_key item.attributes) combos ≡ false)
    × IsFreeBatch strip rest (add_sku (clean_sku strip item.sku) skus)
        (add_combo (attributes_key item.attributes) combos)

check_batch-cases :
    (strip : String → String) (items : List ProductVariantCreate) (skus : List String)
    (combos : List (List (String × String))) (s : Session)
    → ((check_batch strip items skus combos s ≡ (ok tt, s)) × IsFreeBatch strip items skus combos)
      ⊎ ((e : Error) × (check_batch strip items skus combos s ≡ (err e, s)))
unfolding check_batch
check_batch-cases strip [] skus combos s = inl (refl, tt)
check_batch-cases strip (item ∷ rest) skus combos s =
    elim (Bool-cases (repeats_sku (clean_sku strip item.sku) skus)) [
      | inl repeated ↦ inr (Error.product_variant_duplicate, rw repeated refl)
      | inr new_sku ↦ elim (Bool-cases (is_taken (attributes_key item.attributes) combos)) [
        | inl taken ↦ inr (Error.product_variant_attributes_conflict, rw new_sku (rw taken refl))
        | inr free ↦
            elim (check_batch-cases strip rest (add_sku (clean_sku strip item.sku) skus)
              (add_combo (attributes_key item.attributes) combos) s) [
                | inl (passed, others) ↦ inl (rw new_sku (rw free passed), (new_sku, free, others))
                | inr (e, refused) ↦ inr (e, rw new_sku (rw free refused))
              ]
      ]
    ]

-- The data once the batch is there.
abbrev pub with_batch : ℕ → ℕ → ℕ → List ProductVariantCreate → Database → Database
with_batch now t p items d = record d {
  next_id = d.next_id + length items;
  variants = d.variants ++ batch_rows d.next_id now t p items;
}

-- Either nothing is committed and the request raises, or the whole batch is committed and returned.
abbrev pub IsAllOrNothing :
    (String → String)
    → ℕ
    → ℕ
    → ℕ
    → List ProductVariantCreate
    → Database
    → Result (List ProductVariant) × Session
    → Type 0
IsAllOrNothing strip now t p items d (err e, s') = s'.committed ≡ d
IsAllOrNothing strip now t p items d (ok rows, s') =
    (rows ≡ batch_rows d.next_id now t p items)
    × (s'.committed ≡ with_batch now t p items d)
    × IsFreeBatch strip items [] (map combo_of (variants_of p (some t) d.variants))

-- A batch of variants is created whole or not at all. If the request raises, the committed data is
-- what it was. If it returns, exactly the rows of the batch, in its order, are appended to the
-- variants; no SKU of the batch is repeated in it, blanks around it aside, and no combination of
-- attributes is repeated in the batch or taken by another variant of the product.
pub create_variants_bulk-IsAllOrNothing :
    (strip : String → String) (t now p : ℕ) (items : List ProductVariantCreate) (d : Database)
    → IsAllOrNothing strip now t p items d (create_variants_bulk strip t p items (opened t now d))
unfolding create_variants_bulk get_product insert_variants
create_variants_bulk-IsAllOrNothing strip t now p items d =
    elim (Option-cases (find_by_id (some t) p d.products)) [
      | inl absent ↦ rw absent refl
      | inr (product, found) ↦
          let key = (find_by_id_sound (some t) p d.products product found).0 in
          let combos = map combo_of (variants_of p (some t) d.variants) in
          elim (check_batch-cases strip items [] combos (opened t now d)) [
            | inr (e, refused) ↦ rw found (rw key (rw refused refl))
            | inl (passed, free) ↦
                let built = build_variants_lem t p items (opened t now d) in
                let rows = batch_rows d.next_id now t p items in
                elim (Bool-cases (all variant_in_range rows)) [
                  | inr outside ↦ rw found (rw key (rw passed (rw built (rw outside refl))))
                  | inl inside ↦ elim (Bool-cases (all_fit rows d.variants)) [
                    | inl fits ↦
                        rw found
                          (rw key (rw passed (rw built (rw inside (rw fits (refl, refl, free))))))
                    | inr unfit ↦
                        rw found (rw key (rw passed (rw built (rw inside (rw unfit refl)))))
                  ]
                ]
          ]
    ]
