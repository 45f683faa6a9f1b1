-- ===== src/Sales/Stock.antt =====
-- What a sale takes from the stock of products and variants.
use aurapro.Prelude.{
  ℕ, ◌+◌, ◌-◌, ◌≡◌, refl, ◌∙◌, Option, none, some, List, arith, subst, ◌==◌, if◌then◌else◌,
  Option-cases, inl, inr,
}
use aurapro.Models.Customers.{CustomerType}
use aurapro.Models.Products.{Product, ProductVariant, product_row, variant_row}
use aurapro.Session.{Session, ok}
use aurapro.Query.{find_by_id}
use aurapro.Query.Laws.{find_by_id-update, find_by_id_sound}
use aurapro.Sales.{discount_product, discount_variant, take_units}
use aurapro.Pricing.{resolve_unit_price}
use aurapro.Sales.Schemas.{SaleItemCreate}

-- The units of product `k` and of variant `k` that a session's queries show.
abbrev pub units_left : Option Product → ℕ
units_left none = 0
units_left (some p) = p.current_stock

abbrev pub variant_units_left : Option ProductVariant → ℕ
variant_units_left none = 0
variant_units_left (some v) = v.stock

abbrev pub product_stock : Session → ℕ → ℕ
product_stock s k = units_left (find_by_id s.scope k s.pending.products)

abbrev pub variant_stock : Session → ℕ → ℕ
variant_stock s k = variant_units_left (find_by_id s.scope k s.pending.variants)

-- The units that a line asks of product `k` itself, and of variant `k`.
abbrev pub product_units : ℕ → SaleItemCreate → ℕ
product_units k item = elim item.variant_id [
  | none ↦ if item.product_id == k then item.quantity else 0
  | some _ ↦ 0
]

abbrev pub variant_units : ℕ → SaleItemCreate → ℕ
variant_units k item = elim item.variant_id [
  | none ↦ 0
  | some v ↦ if v == k then item.quantity else 0
]

abbrev pub set_stock : ℕ → Product → Product
set_stock left p = record p { current_stock = left }

abbrev pub set_variant_stock : ℕ → ProductVariant → ProductVariant
set_variant_stock left v = record v { stock = left }

-- The session after a step that wrote nothing but stock.
abbrev pub with_stock : Session → List Product → List ProductVariant → Session
with_stock s products variants = record s {
  pending = record s.pending { products = products; variants = variants };
}

-- The price of product `k`, for a customer of that type.
abbrev pub price_of : Option CustomerType → Option Product → Option ℕ
price_of ct none = none
price_of ct (some p) = some (resolve_unit_price ct p)

abbrev pub quoted : Session → Option CustomerType → ℕ → Option ℕ
quoted s ct k = price_of ct (find_by_id s.scope k s.pending.products)

-- What one step has taken from the stock.
pub record Takes (s s' : Session) (from_product from_variant : ℕ → ℕ) : Type 0 where
  pub same : s' ≡ with_stock s s'.pending.products s'.pending.variants
  pub products : (k : ℕ) → product_stock s k ≡ product_stock s' k + from_product k
  pub variants : (k : ℕ) → variant_stock s k ≡ variant_stock s' k + from_variant k
  pub prices : (ct : Option CustomerType) (k : ℕ) → quoted s' ct k ≡ quoted s ct k

discount_product-Takes :
    (product : Product) (quantity : ℕ) (s s' : Session)
    → find_by_id s.scope product.id s.pending.products ≡ some product
    → discount_product product quantity s ≡ (ok tt, s')
    → Takes s s' (λ k. if product.id == k then quantity else 0) (λ k. 0)
unfolding discount_product resolve_unit_price
discount_product-Takes product quantity s s' found h = record {
  same = ground arith;
  products = λ k. ground (
    arith,
    find_by_id-update s.scope k product.id (set_stock (product.current_stock - quantity))
        s.pending.products (λ q. (refl, refl)),
  );
  variants = λ k. ground arith;
  prices = λ ct k. ground (
    arith,
    find_by_id-update s.scope k product.id (set_stock (product.current_stock - quantity))
        s.pending.products (λ q. (refl, refl)),
  );
}

discount_variant-Takes :
    (variant : ProductVariant) (quantity : ℕ) (s s' : Session)
    → find_by_id s.scope variant.id s.pending.variants ≡ some variant
    → discount_variant variant quantity s ≡ (ok tt, s')
    → Takes s s' (λ k. 0) (λ k. if variant.id == k then quantity else 0)
unfolding discount_variant
discount_variant-Takes variant quantity s s' found h = record {
  same = ground arith;
  products = λ k. ground arith;
  variants = λ k. ground (
    arith,
    find_by_id-update s.scope k variant.id (set_variant_stock (variant.stock - quantity))
        s.pending.variants (λ q. (refl, refl)),
  );
  prices = λ ct k. ground arith;
}

pub take_units-Takes :
    (product : Product) (variant_id : Option ℕ) (quantity : ℕ) (s s' : Session)
    → find_by_id s.scope product.id s.pending.products ≡ some product
    → take_units product variant_id quantity s ≡ (ok tt, s')
    → Takes s s'
        (λ k.
          product_units k
            (record { product_id = product.id; variant_id = variant_id; quantity = quantity }))
        (λ k.
          variant_units k
            (record { product_id = product.id; variant_id = variant_id; quantity = quantity }))
unfolding take_units
take_units-Takes product none quantity s s' found h =
    discount_product-Takes product quantity s s' found h
take_units-Takes product (some k) quantity s s' found h =
    elim (Option-cases (find_by_id s.scope k s.pending.variants)) [
      | inl absent ↦ absurd (ground arith)
      | inr (variant, e) ↦
          let sound = find_by_id_sound s.scope k s.pending.variants variant e in
          subst (λ j. Takes s s' (λ _. 0) (λ i. if j == i then quantity else 0)) sound.0
            (discount_variant-Takes variant quantity s s' (ground arith) (ground arith))
    ]

pub Takes-refl : (s : Session) → Takes s s (λ k. 0) (λ k. 0)
Takes-refl s = record {
  same = refl;
  products = λ k. omega arith;
  variants = λ k. omega arith;
  prices = λ ct k. refl;
}

pub Takes-trans :
    (s s1 s2 : Session) (f g f' g' : ℕ → ℕ)
    → Takes s s1 f g
    → Takes s1 s2 f' g'
    → Takes s s2 (λ k. f k + f' k) (λ k. g k + g' k)
Takes-trans s s1 s2 f g f' g' a b = record {
  same = ground (arith, a.same, b.same);
  products = λ k. omega (arith, a.products k, b.products k);
  variants = λ k. omega (arith, a.variants k, b.variants k);
  prices = λ ct k. b.prices ct k ∙ a.prices ct k;
}
