-- ===== src/Products/Variants.antt =====
-- The variants of backend/app/modules/products/services.py.
pub mod Effects
pub mod Batch
pub mod Seen
pub mod Wholeness
pub mod Combinations
pub mod Rows
pub mod Changes
pub mod Life
use aurapro.Prelude.{
  ℕ, String, Bool, true, false, not, ◌&&◌, ◌||◌, Option, none, some, List, [], ◌∷◌, ◌++◌, ltb,
  str_eq, ◌==◌, if◌then◌else◌, map, filter, all,
}
use aurapro.Models.{Database}
use aurapro.Models.Products.{Product, ProductVariant, variant_row}
use aurapro.Patch.{set_field, set_value, sets_null}
use aurapro.Session.{Exec, pure, gets, raise, ◌>>=◌, ◌>>◌, raise_if, commit_or_rescue, fresh_id}
use aurapro.Session.Errors.{Error}
use aurapro.Query.{in_scope, update_by_id}
use aurapro.Sales.{integer_limit}
use aurapro.Products.Keys.{attributes_key, keys_equal}
use aurapro.Products.Catalogue.{get_product, same_sku}
use aurapro.Products.Removal.{get_variant}

abbrev Items : Type 0
Items = List (String × String)

pub record ProductVariantCreate : Type 0 where
  pub attributes : List (String × String)
  pub sku : Option String
  pub stock : ℕ

pub record ProductVariantUpdate : Type 0 where
  pub attributes : Option (Option (List (String × String)))
  pub sku : Option (Option String)
  pub stock : Option (Option ℕ)

-- `product.variants`, as a session of that scope loads them
abbrev pub variants_of : ℕ → Option ℕ → List ProductVariant → List ProductVariant
variants_of product_id scope variants =
    filter (λ (v : ProductVariant). v.product_id == product_id) (in_scope scope variants)

-- `combo and combo in combos`
abbrev pub is_empty_key : Items → Bool
is_empty_key [] = true
is_empty_key (x ∷ xs) = false

unfoldable pub contains_key : Items → List Items → Bool
contains_key combo [] = false
contains_key combo (k ∷ rest) = keys_equal combo k || contains_key combo rest

unfoldable pub is_taken : Items → List Items → Bool
is_taken combo combos = not (is_empty_key combo) && contains_key combo combos

abbrev pub combo_of : ProductVariant → Items
combo_of v = attributes_key v.attributes

abbrev pub variant_clashes : ProductVariant → ProductVariant → Bool
variant_clashes v w = v.tenant_id == w.tenant_id && same_sku v.sku w.sku && not (v.id == w.id)

-- The range of the column. A value outside is a `DataError`, which no handler here catches.
abbrev pub variant_in_range : ProductVariant → Bool
variant_in_range v = ltb v.stock integer_limit

-- The unique SKU. A stock below 0 is no ℕ.
unfoldable pub variant_fits : ProductVariant → List ProductVariant → Bool
variant_fits v variants = all (λ (w : ProductVariant). not (variant_clashes v w)) variants

abbrev pub new_variant : ℕ → ℕ → ℕ → ℕ → ProductVariantCreate → ProductVariant
new_variant id now tenant_id product_id payload = record {
  id = id;
  created_at = now;
  tenant_id = tenant_id;
  product_id = product_id;
  attributes = payload.attributes;
  sku = payload.sku;
  stock = payload.stock;
}

-- The rows of one flush: each has to fit beside those that are there and those before it.
unfoldable pub all_fit : List ProductVariant → List ProductVariant → Bool
all_fit [] variants = true
all_fit (v ∷ rest) variants = variant_fits v variants && all_fit rest (variants ++ v ∷ [])

unfoldable pub insert_variants : List ProductVariant → Exec (Unit {0})
insert_variants new = do
  variants ← gets (λ s. s.pending.variants)
  raise_if (not (all variant_in_range new)) Error.data_error
  commit_or_rescue (all_fit new variants) Error.product_variant_sku_conflict
      λ d. record d { variants = d.variants ++ new }

unfoldable pub create_variant : ℕ → ℕ → ProductVariantCreate → Exec ProductVariant
create_variant tenant_id product_id payload = do
  product ← get_product product_id
  combos ← gets (λ s. map combo_of (variants_of product.id s.scope s.pending.variants))
  raise_if (is_taken (attributes_key payload.attributes) combos)
      Error.product_variant_attributes_conflict
  id ← fresh_id
  now ← gets (λ s. s.now)
  let variant = new_variant id now tenant_id product_id payload
  insert_variants (variant ∷ [])
  pure variant

-- The objects of a batch.
unfoldable pub build_variants : ℕ → ℕ → List ProductVariantCreate → Exec (List ProductVariant)
build_variants tenant_id product_id [] = pure []
build_variants tenant_id product_id (item ∷ rest) = do
  id ← fresh_id
  now ← gets (λ s. s.now)
  others ← build_variants tenant_id product_id rest
  pure (new_variant id now tenant_id product_id item ∷ others)

unfoldable pub seen_sku : String → List String → Bool
seen_sku sku [] = false
seen_sku sku (s ∷ rest) = str_eq sku s || seen_sku sku rest

unfoldable pub repeats_sku : String → List String → Bool
repeats_sku sku seen = not (str_eq sku "") && seen_sku sku seen

-- `if sku: seen_skus.add(sku)`, and the same for a combination
unfoldable pub add_sku : String → List String → List String
add_sku sku seen = if str_eq sku "" then seen else sku ∷ seen

unfoldable pub add_combo : Items → List Items → List Items
add_combo combo seen = if is_empty_key combo then seen else combo ∷ seen

-- `strip` is Python's on `str`.
module _ (strip : String → String) where
  -- `(item.sku or "").strip()`
  unfoldable pub clean_sku : Option String → String
  clean_sku none = strip ""
  clean_sku (some sku) = strip sku

  -- The loop over the batch, with the SKUs and the combinations that it has seen.
  unfoldable pub check_batch :
      List ProductVariantCreate → List String → List Items → Exec (Unit {0})
  check_batch [] seen_skus seen_combos = pure tt
  check_batch (item ∷ rest) seen_skus seen_combos = do
    raise_if (repeats_sku (clean_sku item.sku) seen_skus) Error.product_variant_duplicate
    raise_if (is_taken (attributes_key item.attributes) seen_combos)
        Error.product_variant_attributes_conflict
    check_batch rest (add_sku (clean_sku item.sku) seen_skus)
        (add_combo (attributes_key item.attributes) seen_combos)

  unfoldable pub create_variants_bulk :
      ℕ → ℕ → List ProductVariantCreate → Exec (List ProductVariant)
  create_variants_bulk tenant_id product_id payload = do
    product ← get_product product_id
    combos ← gets (λ s. map combo_of (variants_of product.id s.scope s.pending.variants))
    check_batch payload [] combos
    variants ← build_variants tenant_id product_id payload
    insert_variants variants
    pure variants

-- The variant's new columns.
abbrev pub update_of : ProductVariantUpdate → ProductVariant → ProductVariant
update_of payload v = record v {
  attributes = set_value payload.attributes v.attributes;
  sku = set_field payload.sku v.sku;
  stock = set_value payload.stock v.stock;
}

abbrev pub null_column : ProductVariantUpdate → Bool
null_column payload = sets_null payload.attributes || sets_null payload.stock

-- `if "attributes" in updates`; the key of null is an error.
unfoldable pub check_new_attributes :
    ℕ → ℕ → Option (Option (List (String × String))) → Exec (Unit {0})
check_new_attributes product_id variant_id none = pure tt
check_new_attributes product_id variant_id (some none) = do
  product ← get_product product_id
  raise Error.attribute_error
check_new_attributes product_id variant_id (some (some attributes)) = do
  product ← get_product product_id
  others ← gets λ s.
      filter (λ (v : ProductVariant). not (v.id == variant_id))
        (variants_of product.id s.scope s.pending.variants)
  raise_if (is_taken (attributes_key attributes) (map combo_of others))
      Error.product_variant_attributes_conflict

unfoldable pub write_variant : ProductVariantUpdate → ProductVariant → Exec ProductVariant
write_variant payload variant = do
  variants ← gets (λ s. s.pending.variants)
  let updated = update_of payload variant
  raise_if (not (variant_in_range updated)) Error.data_error
  commit_or_rescue (not (null_column payload) && variant_fits updated variants)
      Error.product_variant_sku_conflict
      λ d. record d { variants = update_by_id variant.id (update_of payload) d.variants }
  pure updated

unfoldable pub update_variant : ℕ → ℕ → ProductVariantUpdate → Exec ProductVariant
update_variant product_id variant_id payload = do
  variant ← get_variant product_id variant_id
  check_new_attributes product_id variant_id payload.attributes
  write_variant payload variant
