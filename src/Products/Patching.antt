-- ===== src/Products/Patching.antt =====
-- What a PATCH request makes of a product, in terms of the tables and of the request alone.
use aurapro.Prelude.{
  ℕ, ◌≡◌, ◌<◌, ◌^◌, refl, true, false, not, String, Option, none, some, List, [], ◌∷◌, arith,
  eq_iff, all, All, Rowwise, ltb, Option-cases, inl, inr, sym, subst, ap, ◌∙◌, ==_self,
}
use aurapro.Models.{Database}
use aurapro.Models.Products.{Product, ProductCategory, product_row, category_row}
use aurapro.Patch.{set_field, set_value, sets_null}
use aurapro.Session.{Session, Result, ok, err, opened}
use aurapro.Query.{find_by_id, update_by_id}
use aurapro.Query.Laws.{find_by_id_sound, find_by_id-update, update_by_id-Rowwise, ChangesOnly}
use aurapro.Products.Catalogue.{
  ProductUpdate, product_in_range, product_fits, passes_on_null, clashes, update_of, null_column,
  update_product,
}
use aurapro.Products.Categories.{IsWritten, is_own_category, update_product-IsWritten}

-- A column after the request: what it sets, or what was there.
module _ {A : Type 0} where
  abbrev pub Writes : Option A → A → A → Type 0
  Writes none old new = new ≡ old
  Writes (some v) old new = new ≡ v

  -- One that takes no null.
  abbrev pub WritesValue : Option (Option A) → A → A → Type 0
  WritesValue none old new = new ≡ old
  WritesValue (some v) old new = v ≡ some new

  set_field-Writes : (f : Option A) (old : A) → Writes f old (set_field f old)
  set_field-Writes none old = refl
  set_field-Writes (some v) old = refl

  set_value-WritesValue :
      (f : Option (Option A)) (old : A) → sets_null f ≡ false → WritesValue f old (set_value f old)
  set_value-WritesValue none old h = refl
  set_value-WritesValue (some none) old h = absurd (ground arith)
  set_value-WritesValue (some (some v)) old h = refl

-- A product before and after the request, column by column.
pub record Patches (payload : ProductUpdate) (old new : Product) : Type 0 where
  pub id : new.id ≡ old.id
  pub created_at : new.created_at ≡ old.created_at
  pub tenant_id : new.tenant_id ≡ old.tenant_id
  pub name : WritesValue payload.name old.name new.name
  pub description : Writes payload.description old.description new.description
  pub price : WritesValue payload.price old.price new.price
  pub cost : Writes payload.cost old.cost new.cost
  pub wholesale_price : Writes payload.wholesale_price old.wholesale_price new.wholesale_price
  pub current_stock : WritesValue payload.current_stock old.current_stock new.current_stock
  pub category_id : Writes payload.category_id old.category_id new.category_id
  pub sku : Writes payload.sku old.sku new.sku
  pub barcode : Writes payload.barcode old.barcode new.barcode
  pub image_url : Writes payload.image_url old.image_url new.image_url
  pub is_active : WritesValue payload.is_active old.is_active new.is_active

-- Above 0 and below 10 to the 12th cents.
abbrev pub IsPrice : ℕ → Type 0
IsPrice n = (0 < n) × (n < 10 ^ 12)

-- What the database asks of the new row beside the products that are there.
pub record MeetsConstraints (p : Product) (products : List Product) : Type 0 where
  pub price : IsPrice p.price
  pub cost : (n : ℕ) → p.cost ≡ some n → IsPrice n
  pub wholesale_price : (n : ℕ) → p.wholesale_price ≡ some n → IsPrice n
  pub current_stock : p.current_stock < 2 ^ 31
  pub sku :
      (a : String)
      → p.sku ≡ some a
      → All (λ (q : Product). q.sku ≡ some a → q.tenant_id ≡ p.tenant_id → q.id ≡ p.id) products

-- A request of tenant `t` for product `k`.
abbrev pub IsPatched : ℕ → ℕ → ProductUpdate → Database → Result Product × Session → Type 0
IsPatched t k payload d (err e, s') = s'.committed ≡ d
IsPatched t k payload d (ok p, s') =
    (old : Product) × (find_by_id (some t) k d.products ≡ some old)
    × Patches payload old p
    × ((c : ℕ)
        → payload.category_id ≡ some (some c)
        → (category : ProductCategory) × (find_by_id (some t) c d.categories ≡ some category))
    × MeetsConstraints p d.products
    × (find_by_id (some t) k s'.committed.products ≡ some p)
    × Rowwise (ChangesOnly k (Patches payload)) d.products s'.committed.products
    × (s'.committed ≡ record d { products = s'.committed.products })

update_of-Patches :
    (payload : ProductUpdate) (old : Product)
    → null_column payload ≡ false
    → Patches payload old (update_of payload old)
update_of-Patches payload old h = record {
  id = refl;
  created_at = refl;
  tenant_id = refl;
  name = set_value-WritesValue payload.name old.name (ground arith);
  description = set_field-Writes payload.description old.description;
  price = set_value-WritesValue payload.price old.price (ground arith);
  cost = set_field-Writes payload.cost old.cost;
  wholesale_price = set_field-Writes payload.wholesale_price old.wholesale_price;
  current_stock = set_value-WritesValue payload.current_stock old.current_stock (ground arith);
  category_id = set_field-Writes payload.category_id old.category_id;
  sku = set_field-Writes payload.sku old.sku;
  barcode = set_field-Writes payload.barcode old.barcode;
  image_url = set_field-Writes payload.image_url old.image_url;
  is_active = set_value-WritesValue payload.is_active old.is_active (ground arith);
}

optional-IsPrice :
    (o : Option ℕ)
    → passes_on_null (λ n. ltb n (10 ^ 12)) o ≡ true
    → passes_on_null (λ n. ltb 0 n) o ≡ true
    → (n : ℕ) → o ≡ some n
    → IsPrice n
optional-IsPrice none h k n e = absurd (ground arith)
optional-IsPrice (some m) h k n e = (ground arith, ground arith)

unique_sku :
    (p : Product) (a : String) (products : List Product)
    → p.sku ≡ some a
    → all (λ (q : Product). not (clashes p q)) products ≡ true
    → All (λ (q : Product). q.sku ≡ some a → q.tenant_id ≡ p.tenant_id → q.id ≡ p.id) products
unique_sku p a [] e h = tt
unique_sku p a (q ∷ rest) e h = (
  λ same owner. ground (arith, same, owner, e, h, (eq_iff a a).1 refl),
  unique_sku p a rest e (ground (arith, h)),
)

product_fits-MeetsConstraints :
    (p : Product) (products : List Product)
    → product_in_range p ≡ true
    → product_fits p products ≡ true
    → MeetsConstraints p products
unfolding product_in_range product_fits
product_fits-MeetsConstraints p products inside fits = record {
  price = (ground arith, ground arith);
  cost = optional-IsPrice p.cost (ground arith) (ground arith);
  wholesale_price = optional-IsPrice p.wholesale_price (ground arith) (ground arith);
  current_stock = ground arith;
  sku = λ a e. unique_sku p a products e (ground arith);
}

own_category :
    (t : ℕ) (categories : List ProductCategory) (c : ℕ) (f : Option (Option ℕ))
    → f ≡ some (some c)
    → is_own_category t categories (set_field f none) ≡ true
    → (category : ProductCategory) × (find_by_id (some t) c categories ≡ some category)
own_category t categories c f e h = elim (Option-cases (find_by_id (some t) c categories)) [
  | inl absent ↦ absurd (ground (arith, go f e h absent))
  | inr found ↦ found
]
  where
    go :
        (f : Option (Option ℕ))
        → f ≡ some (some c)
        → is_own_category t categories (set_field f none) ≡ true
        → find_by_id (some t) c categories ≡ none
        → true ≡ false
    go f e h absent =
        let there : is_own_category t categories (some c) ≡ true =
          subst (λ z. is_own_category t categories (set_field z none) ≡ true) e h in
        sym there ∙ rw absent refl

written :
    (t k : ℕ) (payload : ProductUpdate) (d : Database) (r : Result Product × Session)
    → IsWritten t k payload d r
    → IsPatched t k payload d r
written t k payload d (err e, s') h = h
written t k payload d (ok p, s') (old, found, row, valued, own, inside, fits, after) =
    let f = update_of payload in
    let rows : s'.committed.products ≡ update_by_id k f d.products = ap (λ z. z.products) after in
    let key = (find_by_id_sound (some t) k d.products old found).0 in
    let here : find_by_id (some t) k (update_by_id k f d.products) ≡ some p =
      find_by_id-update (some t) k k f d.products (λ q. (refl, refl))
      ∙ rw (==_self k, found, row) refl in
    (
      old,
      found,
      subst (Patches payload old) (sym row) (update_of-Patches payload old valued),
      λ c e. own_category t d.categories c payload.category_id e own,
      product_fits-MeetsConstraints p d.products inside fits,
      ap (find_by_id (some t) k) rows ∙ here,
      subst (Rowwise (ChangesOnly k (Patches payload)) d.products) (sym rows) (
          update_by_id-Rowwise k f (Patches payload) d.products
            (λ q. update_of-Patches payload q valued)),
      after ∙ ap (λ z. record d { products = z }) (sym rows),
    )

-- A PATCH request to a product is refused with the committed data as it was, or it is answered with
-- a product that the tenant had, each of whose columns is what the request sets for it, or else what
-- it was, null being set in no column that takes none. In this case a category that the request sets
-- is one that the tenant sees, the prices are above 0 and in their columns' range, as is the stock,
-- no other product of the tenant has the same SKU, the product is found in the committed data, no
-- other product's row has changed and no other table either.
pub update_product-IsPatched :
    (t now k : ℕ) (payload : ProductUpdate) (d : Database)
    → IsPatched t k payload d (update_product k payload (opened t now d))
update_product-IsPatched t now k payload d =
    written t k payload d (update_product k payload (opened t now d))
      (update_product-IsWritten t now k payload d)
