-- ===== src/Products/Variants/Life.antt =====
-- The variants of a product over any sequence of requests on the catalogue.
use aurapro.Prelude.{ℕ, refl, sym, subst, String, not, List, [], ◌==◌, inl, inr}
use aurapro.Models.{Database}
use aurapro.Models.Products.{ProductVariant, variant_row}
use aurapro.Session.{Session, Result, ok, err, opened}
use aurapro.Products.Removal.{delete_variant, delete_product}
use aurapro.Products.Variants.{
  ProductVariantCreate, ProductVariantUpdate, new_variant, create_variant, create_variants_bulk,
  update_variant,
}
use aurapro.Products.Variants.Effects.{
  create_variant-cases, delete_variant-cases, delete_product-cases, update_variant-cases,
}
use aurapro.Products.Variants.Batch.{IsAllOrNothing, create_variants_bulk-IsAllOrNothing}
use aurapro.Products.Variants.Rows.{HasDistinct, HasDistinct-append, HasDistinct-batch}
use aurapro.Products.Variants.Changes.{HasDistinct-filter, HasDistinct-update_of}

-- The requests of tenant `t` that write variants, with what each leaves committed, whether it
-- returned or raised. `strip` is Python's on `str`.
pub data Step (t : ℕ) (strip : String → String) : Database → Database → Type 0 where
  creation :
      (now p : ℕ) (payload : ProductVariantCreate) {d : Database}
      → Step t strip d (create_variant t p payload (opened t now d)).1.committed
  bulk_creation :
      (now p : ℕ) (items : List ProductVariantCreate) {d : Database}
      → Step t strip d (create_variants_bulk strip t p items (opened t now d)).1.committed
  change :
      (now p k : ℕ) (payload : ProductVariantUpdate) {d : Database}
      → Step t strip d (update_variant p k payload (opened t now d)).1.committed
  removal :
      (now p k : ℕ) {d : Database}
      → Step t strip d (delete_variant p k (opened t now d)).1.committed
  product_removal :
      (now k : ℕ) {d : Database} → Step t strip d (delete_product k (opened t now d)).1.committed

-- Any number of them.
pub data Steps (t : ℕ) (strip : String → String) : Database → Database → Type 0 where
  done : {d : Database} → Steps t strip d d
  step : {d d' d'' : Database} → Step t strip d d' → Steps t strip d' d'' → Steps t strip d d''

-- The same of the committed data.
abbrev pub HasDistinctVariants : ℕ → Database → Type 0
HasDistinctVariants t d = HasDistinct t d.next_id d.variants

bulk_keeps :
    (t : ℕ) (strip : String → String) (now p : ℕ) (items : List ProductVariantCreate) (d : Database)
    (r : Result (List ProductVariant) × Session)
    → IsAllOrNothing strip now t p items d r
    → HasDistinctVariants t d
    → HasDistinctVariants t r.1.committed
bulk_keeps t strip now p items d (err e, s') h distinct =
    subst (HasDistinctVariants t) (sym h) distinct
bulk_keeps t strip now p items d (ok rows, s') h distinct =
    subst (HasDistinctVariants t) (sym h.1) (
      HasDistinct-batch strip t now p d.next_id items [] _ d.variants h.2 (λ x free. free) distinct)

Step-HasDistinct :
    (t : ℕ) (strip : String → String) {d d' : Database}
    → Step t strip d d'
    → HasDistinctVariants t d
    → HasDistinctVariants t d'
Step-HasDistinct t strip (creation now p payload {d}) h =
    elim (create_variant-cases t now p payload d) [
      | inl same ↦ subst (HasDistinctVariants t) (sym same) h
      | inr (free, after) ↦ subst (HasDistinctVariants t) (sym after) (
          HasDistinct-append t d.next_id p d.variants (new_variant d.next_id now t p payload) refl
            refl refl free h)
    ]
Step-HasDistinct t strip (bulk_creation now p items {d}) h =
    bulk_keeps t strip now p items d (create_variants_bulk strip t p items (opened t now d))
      (create_variants_bulk-IsAllOrNothing strip t now p items d) h
Step-HasDistinct t strip (change now p k payload {d}) h =
    elim (update_variant-cases t now p k payload d) [
      | inl same ↦ subst (HasDistinctVariants t) (sym same) h
      | inr (v, found, clash, after) ↦
          subst (HasDistinctVariants t) (sym after)
            (HasDistinct-update_of t d.next_id p k payload d.variants v found clash h)
    ]
Step-HasDistinct t strip (removal now p k {d}) h = elim (delete_variant-cases t now p k d) [
  | inl same ↦ subst (HasDistinctVariants t) (sym same) h
  | inr (v, free, after) ↦
      subst (HasDistinctVariants t) (sym after)
        (HasDistinct-filter t d.next_id (λ (w : ProductVariant). not (w.id == v.id)) d.variants h)
]
Step-HasDistinct t strip (product_removal now k {d}) h = elim (delete_product-cases t now k d) [
  | inl same ↦ subst (HasDistinctVariants t) (sym same) h
  | inr (p, found, free, after) ↦ subst (HasDistinctVariants t) (sym after) (
      HasDistinct-filter t d.next_id (λ (w : ProductVariant). not (w.product_id == k)) d.variants h)
]

-- No product ever has two variants with the same combination of attributes, but for variants with no
-- attributes at all: if this holds of the products of tenant `t`, and the identifiers of all variants
-- are unique and below the supply's next one, then both still hold after any number of requests of
-- the tenant to create variants, singly or in batches, to change or delete them and to delete
-- products, in any order and whether they succeed or not.
pub combinations_stay_distinct :
    (t : ℕ) (strip : String → String) {d d' : Database}
    → HasDistinctVariants t d
    → Steps t strip d d'
    → HasDistinctVariants t d'
combinations_stay_distinct t strip h done = h
combinations_stay_distinct t strip h (step first rest) =
    combinations_stay_distinct t strip (Step-HasDistinct t strip first h) rest
