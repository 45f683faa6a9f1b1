-- ===== src/Products/Attributes.antt =====
-- The catalogues of categories and attributes of backend/app/modules/products/services.py.
pub mod Auxiliary
use aurapro.Prelude.{
  ℕ, String, Bool, true, false, not, ◌&&◌, Option, none, some, List, [], ◌∷◌, ◌++◌, str_eq, ◌==◌,
  if◌then◌else◌, filter, find, all,
}
use aurapro.Models.{Database}
use aurapro.Models.Products.{
  ProductCategory, ProductAttribute, ProductAttributeValue, category_row, attribute_row,
  attribute_value_row,
}
use aurapro.Session.{
  Exec, pure, gets, or_raise, ◌>>=◌, ◌>>◌, raise_if, modify, commit, commit_or_rescue, fresh_id,
}
use aurapro.Session.Errors.{Error}
use aurapro.Query.{select_by_id, visible, delete_by_id}

-- The unique constraints on the tenant and the name, and on the attribute and the value.
abbrev pub category_fits : ProductCategory → List ProductCategory → Bool
category_fits c categories =
    all (λ (o : ProductCategory). not (o.tenant_id == c.tenant_id && str_eq o.name c.name))
      categories

abbrev pub attribute_fits : ProductAttribute → List ProductAttribute → Bool
attribute_fits a attributes =
    all (λ (o : ProductAttribute). not (o.tenant_id == a.tenant_id && str_eq o.name a.name))
      attributes

abbrev pub attribute_value_fits : ProductAttributeValue → List ProductAttributeValue → Bool
attribute_value_fits v values =
    all
      (λ (o : ProductAttributeValue).
        not (o.attribute_id == v.attribute_id && str_eq o.value v.value))
      values

unfoldable pub create_category : ℕ → String → Exec ProductCategory
create_category tenant_id name = do
  id ← fresh_id
  s ← gets (λ s. s)
  let category : ProductCategory = record {
    id = id;
    created_at = s.now;
    tenant_id = tenant_id;
    name = name;
  }
  commit_or_rescue (category_fits category s.pending.categories)
      Error.product_category_duplicate_name
      λ d. record d { categories = d.categories ++ category ∷ [] }
  pure category

unfoldable pub create_attribute : ℕ → String → Exec ProductAttribute
create_attribute tenant_id name = do
  id ← fresh_id
  s ← gets (λ s. s)
  let attribute : ProductAttribute = record {
    id = id;
    created_at = s.now;
    tenant_id = tenant_id;
    name = name;
  }
  commit_or_rescue (attribute_fits attribute s.pending.attributes)
      Error.product_attribute_duplicate_name
      λ d. record d { attributes = d.attributes ++ attribute ∷ [] }
  pure attribute

unfoldable pub get_attribute : ℕ → Exec ProductAttribute
get_attribute attribute_id = do
  found ← select_by_id (λ d. d.attributes) attribute_id
  or_raise found Error.product_attribute_not_found

-- The attribute's values go with it (`CASCADE`).
unfoldable pub delete_attribute : ℕ → Exec (Unit {0})
delete_attribute attribute_id = do
  attribute ← get_attribute attribute_id
  modify λ d. record d {
    attributes = delete_by_id attribute.id d.attributes;
    attribute_values =
        filter (λ (v : ProductAttributeValue). not (v.attribute_id == attribute.id))
          d.attribute_values;
  }
  commit

unfoldable pub create_attribute_value : ℕ → ℕ → String → Exec ProductAttributeValue
create_attribute_value tenant_id attribute_id text = do
  attribute ← get_attribute attribute_id
  id ← fresh_id
  s ← gets (λ s. s)
  let value : ProductAttributeValue = record {
    id = id;
    created_at = s.now;
    tenant_id = tenant_id;
    attribute_id = attribute_id;
    value = text;
  }
  commit_or_rescue (attribute_value_fits value s.pending.attribute_values)
      Error.product_attribute_value_duplicate
      λ d. record d { attribute_values = d.attribute_values ++ value ∷ [] }
  pure value

abbrev pub select_attribute_value :
    ℕ → ℕ → Option ℕ → List ProductAttributeValue → Option ProductAttributeValue
select_attribute_value attribute_id value_id scope values =
    find
      (λ (v : ProductAttributeValue).
        v.id == value_id && v.attribute_id == attribute_id && visible scope v.tenant_id)
      values

unfoldable pub delete_attribute_value : ℕ → ℕ → Exec (Unit {0})
delete_attribute_value attribute_id value_id = do
  found ← gets λ s. select_attribute_value attribute_id value_id s.scope s.pending.attribute_values
  value ← or_raise found Error.product_attribute_value_not_found
  modify (λ d. record d { attribute_values = delete_by_id value.id d.attribute_values })
  commit
