-- ===== src/Sales/Lines.antt =====
-- The lines of a sale: what the loop over the requested items has put into the cart.
use aurapro.Prelude.{
  ℕ, ◌+◌, ◌*◌, ◌≡◌, refl, ◌∙◌, ap, sym, true, Option, some, List, [], ◌∷◌, ◌++◌, arith, sum_by,
  Option-cases, inl, inr, map, All, subst, append_assoc, append-nil,
}
use mathlib.Core.Path.{ap₂, subst₂}
use aurapro.Models.Customers.{CustomerType}
use aurapro.Models.Documents.{SaleItem, ProductDetail}
use aurapro.Models.Products.{Product, product_row, variant_row}
use aurapro.Session.{Session, ok}
use aurapro.Session.Rules.{>>=-eq-ok}
use aurapro.Query.{find_by_id}
use aurapro.Query.Laws.{find_by_id_sound}
use aurapro.Pricing.{resolve_unit_price}
use aurapro.Sales.{Cart, take_units, sell_item, sell_items, put_line}
use aurapro.Sales.Schemas.{SaleItemCreate}
use aurapro.Sales.Stock.{
  Takes, take_units-Takes, Takes-refl, Takes-trans, product_units, variant_units, quoted,
}

-- A line that was sold: its product, which is on sale, and what became of the cart.
pub record Sold (t : ℕ) (ct : Option CustomerType) (item : SaleItemCreate) (cart : Cart)
    (s : Session) (cart' : Cart) (s' : Session) : Type 0 where
  pub product : Product
  pub found : find_by_id s.scope item.product_id s.pending.products ≡ some product
  pub active : product.is_active ≡ true
  pub taken : take_units product item.variant_id item.quantity s ≡ (ok tt, s')
  pub line : cart' ≡ put_line t product item (resolve_unit_price ct product) cart

pub sell_item-Sold :
    (t : ℕ) (ct : Option CustomerType) (item : SaleItemCreate) (cart : Cart) (s : Session)
    (cart' : Cart) (s' : Session)
    → sell_item t ct item cart s ≡ (ok cart', s')
    → Sold t ct item cart s cart' s'
unfolding sell_item
sell_item-Sold t ct item cart s cart' s' h =
    elim (Option-cases (find_by_id s.scope item.product_id s.pending.products)) [
      | inl absent ↦ absurd (ground arith)
      | inr (product, e) ↦ record {
        product = product;
        found = e;
        active = ground arith;
        taken = ground arith;
        line = ground arith;
      }
    ]

sell_item-Takes :
    (t : ℕ) (ct : Option CustomerType) (item : SaleItemCreate) (cart : Cart) (s : Session)
    (cart' : Cart) (s' : Session)
    → Sold t ct item cart s cart' s'
    → Takes s s' (λ k. product_units k item) (λ k. variant_units k item)
sell_item-Takes t ct item cart s cart' s' sold =
    let sound =
      find_by_id_sound s.scope item.product_id s.pending.products sold.product sold.found in
    subst
      (λ j.
        Takes s s' (λ k. product_units k (record item { product_id = j }))
          (λ k. variant_units k (record item { product_id = j })))
      sound.0
      (take_units-Takes sold.product item.variant_id item.quantity s s' (ground arith) sold.taken)

abbrev pub line_total : SaleItem → ℕ
line_total i = i.unit_price * i.quantity

-- The request that a line answers.
abbrev pub requested : SaleItem → SaleItemCreate
requested i = record { product_id = i.product_id; variant_id = i.variant_id; quantity = i.quantity }

-- What the event tells of a line.
abbrev pub told : SaleItem → ℕ × ℕ × ℕ
told i = (i.product_id, i.quantity, i.unit_price)

abbrev pub heard : ProductDetail → ℕ × ℕ × ℕ
heard d = (d.product_id, d.quantity, d.unit_price)

pub record SoldAll (t : ℕ) (ct : Option CustomerType) (items : List SaleItemCreate) (cart : Cart)
    (s : Session) (cart' : Cart) (s' : Session) : Type 0 where
  pub lines : List SaleItem
  pub details : List ProductDetail
  pub sale_items : cart'.sale_items ≡ cart.sale_items ++ lines
  pub product_details : cart'.product_details ≡ cart.product_details ++ details
  pub total : cart'.total_amount ≡ cart.total_amount + sum_by line_total lines
  pub requests : map requested lines ≡ items
  pub prices :
      map (λ (i : SaleItem). some i.unit_price) lines
      ≡ map (λ (i : SaleItemCreate). quoted s ct i.product_id) items
  pub news : map heard details ≡ map told lines
  pub owners : All (λ (i : SaleItem). i.tenant_id ≡ t) lines
  pub takes : Takes s s' (λ k. sum_by (product_units k) items) (λ k. sum_by (variant_units k) items)

SoldAll-nil :
    (t : ℕ) (ct : Option CustomerType) (cart : Cart) (s : Session) → SoldAll t ct [] cart s cart s
SoldAll-nil t ct cart s = record {
  lines = [];
  details = [];
  sale_items = sym (append-nil cart.sale_items);
  product_details = sym (append-nil cart.product_details);
  total = omega arith;
  requests = refl;
  prices = refl;
  news = refl;
  owners = tt;
  takes = Takes-refl s;
}

-- The line that a sold item adds.
line_of : ℕ → Option CustomerType → SaleItemCreate → Product → SaleItem
line_of t ct item product = record {
  tenant_id = t;
  product_id = product.id;
  variant_id = item.variant_id;
  quantity = item.quantity;
  unit_price = resolve_unit_price ct product;
}

map-quoted :
    (ct : Option CustomerType) (s s1 : Session) (items : List SaleItemCreate)
    → ((k : ℕ) → quoted s1 ct k ≡ quoted s ct k)
    → map (λ (i : SaleItemCreate). quoted s1 ct i.product_id) items
      ≡ map (λ (i : SaleItemCreate). quoted s ct i.product_id) items
map-quoted ct s s1 [] same = refl
map-quoted ct s s1 (i ∷ rest) same = ap₂ ◌∷◌ (same i.product_id) (map-quoted ct s s1 rest same)

SoldAll-cons :
    (t : ℕ) (ct : Option CustomerType) (item : SaleItemCreate) (rest : List SaleItemCreate)
    (cart cart1 cart' : Cart) (s s1 s' : Session)
    → Sold t ct item cart s cart1 s1
    → SoldAll t ct rest cart1 s1 cart' s'
    → SoldAll t ct (item ∷ rest) cart s cart' s'
unfolding line_of
SoldAll-cons t ct item rest cart cart1 cart' s s1 s' sold ih =
    let taken = sell_item-Takes t ct item cart s cart1 s1 sold in
    let sound =
      find_by_id_sound s.scope item.product_id s.pending.products sold.product sold.found in
    record {
      lines = line_of t ct item sold.product ∷ ih.lines;
      details =
          record {
            product_id = sold.product.id;
            name = sold.product.name;
            quantity = item.quantity;
            unit_price = resolve_unit_price ct sold.product;
          }
          ∷ ih.details;
      sale_items = ih.sale_items ∙ rw sold.line (append_assoc cart.sale_items _ _);
      product_details = ih.product_details ∙ rw sold.line (append_assoc cart.product_details _ _);
      total = omega (arith, ih.total, ap (λ (c : Cart). c.total_amount) sold.line);
      requests = ground (arith, ih.requests, sound.0);
      prices = ground (arith, ih.prices, sold.found, map-quoted ct s s1 rest (taken.prices ct));
      news = ground (arith, ih.news);
      owners = (refl, ih.owners);
      takes = Takes-trans s s1 s' _ _ _ _ taken ih.takes;
    }

pub sell_items-SoldAll :
    (t : ℕ) (ct : Option CustomerType) (items : List SaleItemCreate) (cart : Cart) (s : Session)
    (cart' : Cart) (s' : Session)
    → sell_items t ct items cart s ≡ (ok cart', s')
    → SoldAll t ct items cart s cart' s'
unfolding sell_items
sell_items-SoldAll t ct [] cart s cart' s' h =
    subst₂ (λ c z. SoldAll t ct [] cart s c z) (ground arith) (ground arith)
      (SoldAll-nil t ct cart s)
sell_items-SoldAll t ct (item ∷ rest) cart s cart' s' h =
    let (cart1, s1, first, then_rest) =
      >>=-eq-ok (sell_item t ct item cart) (sell_items t ct rest) s h in
    let sold = sell_item-Sold t ct item cart s cart1 s1 first in
    let ih = sell_items-SoldAll t ct rest cart1 s1 cart' s' then_rest in
    SoldAll-cons t ct item rest cart cart1 cart' s s1 s' sold ih
