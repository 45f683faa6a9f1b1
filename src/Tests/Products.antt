-- ===== src/Tests/Products.antt =====
-- The catalogue of the fixture's shop.
use aurapro.Prelude.{ℕ, ◌≡◌, refl, String, true, Option, none, some, List, [], ◌∷◌, arith}
use aurapro.Models.{Database}
use aurapro.Models.Products.{ProductCategory, category_row}
use aurapro.Session.{opened, err}
use aurapro.Session.Errors.{Error}
use aurapro.Products.Keys.{item_order, insert_item, attributes_key, keys_equal}
use aurapro.Products.Keys.Sorted.{get}
use aurapro.Products.Keys.Canonical.{attributes_key_iff}
use aurapro.Products.Catalogue.{
  ProductUpdate, product_in_range, product_fits, validate_category, get_product,
  validate_new_category, write_product, update_product,
}
use aurapro.Products.Attributes.{create_attribute, create_attribute_value}
use aurapro.Products.Attributes.Auxiliary
use aurapro.Products.Attributes.Auxiliary.{IsAuxiliary, attributes_stay_apart}
use aurapro.Products.Patching.{IsPatched, update_product-IsPatched}
use aurapro.Products.Ownership
use aurapro.Products.Ownership.{HasOwnCategories, own_categories_stay}
use aurapro.Products.Removal.{
  all_references, is_unreferenced, delete_product, delete_variant, delete_category,
}
use aurapro.Products.Integrity.{HasReferences, deletions_keep_references}
use aurapro.Products.Variants.{
  ProductVariantCreate, contains_key, is_taken, variant_fits, all_fit, insert_variants,
  build_variants, seen_sku, repeats_sku, add_sku, add_combo, clean_sku, check_batch,
  create_variants_bulk, create_variant, variants_of,
}
use aurapro.Products.Variants.Wholeness.{IsWhole, create_variants_bulk-IsWhole}
use aurapro.Products.Variants.Combinations.{IsDistinct}
use aurapro.Products.Variants.Life
use aurapro.Products.Variants.Life.{HasDistinctVariants, combinations_stay_distinct}
use aurapro.Tests.Fixtures.{shop}

product_code : ℕ
unfolding attributes_key insert_item item_order keys_equal contains_key is_taken variant_fits
    all_fit insert_variants build_variants seen_sku repeats_sku add_sku add_combo clean_sku
    check_batch create_variants_bulk create_variant get_product product_in_range product_fits
    validate_category validate_new_category write_product update_product all_references
    is_unreferenced delete_product
product_code = 0

abbrev strip : String → String
strip text = text

abbrev red_m : List (String × String)
red_m = ("talle", "M") ∷ ("color", "rojo") ∷ []

abbrev m_red : List (String × String)
m_red = ("color", "rojo") ∷ ("talle", "M") ∷ []

key_runs : attributes_key red_m ≡ m_red
unfolding product_code
key_runs = refl

same_keys : keys_equal (attributes_key red_m) (attributes_key m_red) ≡ true
unfolding product_code
same_keys = refl

attributes_key_iff_example : get "talle" red_m ≡ get "talle" m_red
attributes_key_iff_example =
    (attributes_key_iff red_m m_red (refl, (refl, tt)) (refl, (refl, tt))).0 same_keys "talle"

abbrev item : List (String × String) → Option String → ProductVariantCreate
item attributes sku = record { attributes = attributes; sku = sku; stock = 2 }

-- The fixture's variant has the combination of the second item.
clash :
    (create_variants_bulk strip 1 31
      (item red_m none ∷ item (("talle", "M") ∷ []) none ∷ [])
      (opened 1 5 shop)).0
    ≡ err Error.product_variant_attributes_conflict
unfolding product_code
clash = refl

abbrev batch : List ProductVariantCreate
batch = item red_m (some "r") ∷ item (("talle", "L") ∷ []) none ∷ []

create_variants_bulk-IsWhole_example :
    IsWhole strip 5 1 31 batch shop (create_variants_bulk strip 1 31 batch (opened 1 5 shop))
create_variants_bulk-IsWhole_example =
    create_variants_bulk-IsWhole strip 1 5 31 batch shop (((refl, (refl, tt)), ((refl, tt), tt)))
      ((refl, tt), tt)

abbrev after_batch : Database
after_batch = (create_variants_bulk strip 1 31 batch (opened 1 5 shop)).1.committed

abbrev after_copy : Database
after_copy = (create_variant 1 31 (item m_red none) (opened 1 6 after_batch)).1.committed

one_variant : (p : ℕ) → IsDistinct (variants_of p (some 1) shop.variants)
unfolding product_code
one_variant p = ground arith

shop-HasDistinct : HasDistinctVariants 1 shop
shop-HasDistinct = record {
  keyed = (refl, tt);
  below = (omega arith, tt);
  distinct = λ p. one_variant p;
}

-- The copy is refused, and the batch stays.
copy_refused : after_copy ≡ after_batch
unfolding product_code
copy_refused = refl

combinations_stay_distinct_example : HasDistinctVariants 1 after_copy
combinations_stay_distinct_example =
    combinations_stay_distinct 1 strip {d = shop} {d' = after_copy} shop-HasDistinct (
      Life.step (Life.bulk_creation 5 31 batch)
        (Life.step (Life.creation 6 31 (item m_red none)) Life.done))

shop-HasReferences : HasReferences shop
unfolding product_code
shop-HasReferences = refl

deletions_keep_references_example :
    HasReferences (delete_product 30 (opened 1 5 shop)).1.committed
    × HasReferences (delete_variant 31 40 (opened 1 5 shop)).1.committed
deletions_keep_references_example = deletions_keep_references 1 5 30 31 40 shop shop-HasReferences

abbrev food : ProductCategory
food = record { id = 70; created_at = 0; tenant_id = 1; name = "Almacén" }

abbrev kept_shop : Database
kept_shop = record shop { categories = food ∷ [] }

abbrev change : Option (Option ℕ) → ProductUpdate
change category_id = record {
  name = none;
  description = some none;
  price = some (some 450);
  cost = none;
  wholesale_price = none;
  current_stock = none;
  category_id = category_id;
  sku = none;
  barcode = none;
  image_url = none;
  is_active = none;
}

update_product-IsPatched_example :
    IsPatched 1 30
      (change (some (some 70)))
      kept_shop
      (update_product 30 (change (some (some 70))) (opened 1 5 kept_shop))
update_product-IsPatched_example =
    update_product-IsPatched 1 5 30 (change (some (some 70))) kept_shop

-- A category that is not there.
unknown_category :
    (update_product 30 (change (some (some 71))) (opened 1 5 kept_shop)).0
    ≡ err Error.invalid_category
unfolding product_code
unknown_category = refl

abbrev after_change : Database
after_change = (update_product 30 (change (some (some 70))) (opened 1 5 kept_shop)).1.committed

abbrev after_removal : Database
after_removal = (delete_category 70 (opened 1 6 after_change)).1.committed

own_categories_stay_example : HasOwnCategories 1 after_removal
own_categories_stay_example = own_categories_stay 1 {d = kept_shop} {d' = after_removal} refl (
    Ownership.step (Ownership.change 5 30 (change (some (some 70))))
      (Ownership.step (Ownership.category_removal 6 70) Ownership.done))

abbrev after_attribute : Database
after_attribute = (create_attribute 1 "Color" (opened 1 5 shop)).1.committed

abbrev after_value : Database
after_value = (create_attribute_value 1 100 "rojo" (opened 1 6 after_attribute)).1.committed

attributes_stay_apart_example : IsAuxiliary shop after_value
attributes_stay_apart_example = attributes_stay_apart 1 {d = shop} {d' = after_value} (
    Auxiliary.step (Auxiliary.attribute_creation 5 "Color")
      (Auxiliary.step (Auxiliary.value_creation 6 100 "rojo") Auxiliary.done))
