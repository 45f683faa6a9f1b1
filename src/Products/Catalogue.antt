-- ===== src/Products/Catalogue.antt =====
-- Categories and products of backend/app/modules/products/services.py.
use aurapro.Prelude.{
  ℕ, String, Bool, true, false, not, ◌&&◌, ◌||◌, Option, none, some, List, [], ◌∷◌, ◌++◌, ltb,
  str_eq, ◌==◌, all,
}
use aurapro.Models.Products.{Product, category_row, product_row, variant_row}
use aurapro.Patch.{set_field, set_value, sets_null}
use aurapro.Session.{Exec, pure, gets, or_raise, ◌>>=◌, ◌>>◌, raise_if, commit_or_rescue, fresh_id}
use aurapro.Session.Errors.{Error}
use aurapro.Query.{select_by_id, update_by_id}
use aurapro.Treasury.{numeric_limit}
use aurapro.Sales.{integer_limit}

pub record ProductCreate : Type 0 where
  pub name : String
  pub description : Option String
  pub price : ℕ
  pub cost : Option ℕ
  pub wholesale_price : Option ℕ
  pub current_stock : ℕ
  pub category_id : Option ℕ
  pub sku : Option String
  pub barcode : Option String
  pub image_url : Option String
  pub is_active : Bool

pub record ProductUpdate : Type 0 where
  pub name : Option (Option String)
  pub description : Option (Option String)
  pub price : Option (Option ℕ)
  pub cost : Option (Option ℕ)
  pub wholesale_price : Option (Option ℕ)
  pub current_stock : Option (Option ℕ)
  pub category_id : Option (Option ℕ)
  pub sku : Option (Option String)
  pub barcode : Option (Option String)
  pub image_url : Option (Option String)
  pub is_active : Option (Option Bool)

-- A test of a column that may be null, which passes on null.
abbrev pub passes_on_null : (ℕ → Bool) → Option ℕ → Bool
passes_on_null test none = true
passes_on_null test (some n) = test n

-- The ranges of the columns. A value outside is a `DataError`, which no handler here catches.
unfoldable pub product_in_range : Product → Bool
product_in_range p =
    ltb p.price numeric_limit
    && passes_on_null (λ n. ltb n numeric_limit) p.cost
    && passes_on_null (λ n. ltb n numeric_limit) p.wholesale_price
    && ltb p.current_stock integer_limit

-- Two texts of a unique column; null clashes with nothing.
abbrev pub same_sku : Option String → Option String → Bool
same_sku none b = false
same_sku (some a) none = false
same_sku (some a) (some b) = str_eq a b

abbrev pub clashes : Product → Product → Bool
clashes p q = p.tenant_id == q.tenant_id && same_sku p.sku q.sku && not (p.id == q.id)

-- The check constraints and the unique constraint of the table `products`.
unfoldable pub product_fits : Product → List Product → Bool
product_fits p products =
    ltb 0 p.price
    && passes_on_null (λ n. ltb 0 n) p.cost
    && passes_on_null (λ n. ltb 0 n) p.wholesale_price
    && all (λ (q : Product). not (clashes p q)) products

unfoldable pub validate_category : Option ℕ → Exec (Unit {0})
validate_category none = pure tt
validate_category (some k) = do
  found ← select_by_id (λ d. d.categories) k
  or_raise found Error.invalid_category
  pure tt

abbrev pub new_product : ℕ → ℕ → ℕ → ProductCreate → Product
new_product id now tenant_id payload = record {
  id = id;
  created_at = now;
  tenant_id = tenant_id;
  name = payload.name;
  description = payload.description;
  price = payload.price;
  cost = payload.cost;
  wholesale_price = payload.wholesale_price;
  current_stock = payload.current_stock;
  category_id = payload.category_id;
  sku = payload.sku;
  barcode = payload.barcode;
  image_url = payload.image_url;
  is_active = payload.is_active;
}

unfoldable pub insert_product : Product → Exec Product
insert_product product = do
  products ← gets (λ s. s.pending.products)
  raise_if (not (product_in_range product)) Error.data_error
  commit_or_rescue (product_fits product products) Error.product_sku_conflict
      λ d. record d { products = d.products ++ product ∷ [] }
  pure product

unfoldable pub create_product : ℕ → ProductCreate → Exec Product
create_product tenant_id payload = do
  validate_category payload.category_id
  id ← fresh_id
  now ← gets (λ s. s.now)
  insert_product (new_product id now tenant_id payload)

unfoldable pub get_product : ℕ → Exec Product
get_product product_id = do
  found ← select_by_id (λ d. d.products) product_id
  or_raise found Error.product_not_found

abbrev pub update_of : ProductUpdate → Product → Product
update_of payload p = record p {
  name = set_value payload.name p.name;
  description = set_field payload.description p.description;
  price = set_value payload.price p.price;
  cost = set_field payload.cost p.cost;
  wholesale_price = set_field payload.wholesale_price p.wholesale_price;
  current_stock = set_value payload.current_stock p.current_stock;
  category_id = set_field payload.category_id p.category_id;
  sku = set_field payload.sku p.sku;
  barcode = set_field payload.barcode p.barcode;
  image_url = set_field payload.image_url p.image_url;
  is_active = set_value payload.is_active p.is_active;
}

-- A null for a column that takes none.
abbrev pub null_column : ProductUpdate → Bool
null_column payload =
    sets_null payload.name
    || sets_null payload.price
    || sets_null payload.current_stock
    || sets_null payload.is_active

-- `if "category_id" in updates`
unfoldable pub validate_new_category : Option (Option ℕ) → Exec (Unit {0})
validate_new_category none = pure tt
validate_new_category (some category_id) = validate_category category_id

unfoldable pub write_product : ProductUpdate → Product → Exec Product
write_product payload product = do
  products ← gets (λ s. s.pending.products)
  let updated = update_of payload product
  raise_if (not (product_in_range updated)) Error.data_error
  commit_or_rescue (not (null_column payload) && product_fits updated products)
      Error.product_sku_conflict
      λ d. record d { products = update_by_id product.id (update_of payload) d.products }
  pure updated

unfoldable pub update_product : ℕ → ProductUpdate → Exec Product
update_product product_id payload = do
  product ← get_product product_id
  validate_new_category payload.category_id
  write_product payload product
