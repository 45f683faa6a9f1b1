-- ===== src/Sales/OwnStock.antt =====
-- The loop over a sale's items writes only the tenant's own products and variants.
use aurapro.Prelude.{
  ℕ, ◌-◌, ◌≡◌, refl, ◌∙◌, sym, subst, Option, some, none, List, [], ◌∷◌, arith, Option-cases, inl,
  inr,
}
use mathlib.Core.Path.{subst₂}
use aurapro.Models.Customers.{CustomerType}
use aurapro.Models.Products.{Product, ProductVariant, product_row, variant_row}
use aurapro.Models.Documents.{sale_row, order_note_row}
use aurapro.Models.Treasury.{account_movement_row, cash_movement_row}
use aurapro.Session.{Session, ok}
use aurapro.Session.Rules.{>>=-eq-ok}
use aurapro.Query.{find_by_id, update_by_id}
use aurapro.Query.Laws.{IsKeyed, IsKeyed-update, of_others, of_others-update, find_by_id_sound}
use aurapro.Sales.{Cart, discount_product, discount_variant, take_units, sell_item, sell_items}
use aurapro.Sales.Schemas.{SaleItemCreate}
use aurapro.Sales.Stock.{set_stock, set_variant_stock}
use aurapro.Sales.Lines.{sell_item-Sold}

-- The step took stock of the tenant's own products and variants only.
pub record OwnStock (t : ℕ) (s s' : Session) : Type 0 where
  scope : s'.scope ≡ s.scope
  pub products : of_others t s'.pending.products ≡ of_others t s.pending.products
  pub variants : of_others t s'.pending.variants ≡ of_others t s.pending.variants
  products_keyed : IsKeyed s'.pending.products
  variants_keyed : IsKeyed s'.pending.variants

OwnStock-refl :
    (t : ℕ) (s : Session) → IsKeyed s.pending.products → IsKeyed s.pending.variants → OwnStock t s s
OwnStock-refl t s kp kv = record {
  scope = refl;
  products = refl;
  variants = refl;
  products_keyed = kp;
  variants_keyed = kv;
}

OwnStock-trans : (t : ℕ) (s s1 s2 : Session) → OwnStock t s s1 → OwnStock t s1 s2 → OwnStock t s s2
OwnStock-trans t s s1 s2 a b = record {
  scope = b.scope ∙ a.scope;
  products = b.products ∙ a.products;
  variants = b.variants ∙ a.variants;
  products_keyed = b.products_keyed;
  variants_keyed = b.variants_keyed;
}

module _ (t : ℕ) where
  discount_product-OwnStock :
      (product : Product) (quantity : ℕ) (s s' : Session)
      → s.scope ≡ some t
      → IsKeyed s.pending.products
      → IsKeyed s.pending.variants
      → find_by_id (some t) product.id s.pending.products ≡ some product
      → discount_product product quantity s ≡ (ok tt, s')
      → OwnStock t s s'
  unfolding discount_product
  discount_product-OwnStock product quantity s s' scoped kp kv found h =
      let left = product.current_stock - quantity in
      let others =
        of_others-update t product.id (set_stock left) s.pending.products product kp
          (λ q. (refl, refl)) found in
      let rows : s'.pending.products ≡ update_by_id product.id (set_stock left) s.pending.products =
        ground arith in
      let same : s'.pending.variants ≡ s.pending.variants = ground arith in
      record {
        scope = ground arith;
        products = rw rows others;
        variants = rw same;
        products_keyed =
            rw rows (
              IsKeyed-update product.id (set_stock left) s.pending.products (λ q. (refl, refl)) kp);
        variants_keyed = rw same kv;
      }

  discount_variant-OwnStock :
      (variant : ProductVariant) (quantity : ℕ) (s s' : Session)
      → s.scope ≡ some t
      → IsKeyed s.pending.products
      → IsKeyed s.pending.variants
      → find_by_id (some t) variant.id s.pending.variants ≡ some variant
      → discount_variant variant quantity s ≡ (ok tt, s')
      → OwnStock t s s'
  unfolding discount_variant
  discount_variant-OwnStock variant quantity s s' scoped kp kv found h =
      let left = variant.stock - quantity in
      let others =
        of_others-update t variant.id (set_variant_stock left) s.pending.variants variant kv
          (λ q. (refl, refl)) found in
      let rows : s'.pending.variants
          ≡ update_by_id variant.id (set_variant_stock left) s.pending.variants =
        ground arith in
      let same : s'.pending.products ≡ s.pending.products = ground arith in
      record {
        scope = ground arith;
        products = rw same;
        variants = rw rows others;
        products_keyed = rw same kp;
        variants_keyed = rw rows (
            IsKeyed-update variant.id (set_variant_stock left) s.pending.variants
              (λ q. (refl, refl)) kv);
      }

  take_units-OwnStock :
      (product : Product) (variant_id : Option ℕ) (quantity : ℕ) (s s' : Session)
      → s.scope ≡ some t
      → IsKeyed s.pending.products
      → IsKeyed s.pending.variants
      → find_by_id (some t) product.id s.pending.products ≡ some product
      → take_units product variant_id quantity s ≡ (ok tt, s')
      → OwnStock t s s'
  unfolding take_units
  take_units-OwnStock product none quantity s s' scoped kp kv found h =
      discount_product-OwnStock product quantity s s' scoped kp kv found h
  take_units-OwnStock product (some k) quantity s s' scoped kp kv found h =
      elim (Option-cases (find_by_id s.scope k s.pending.variants)) [
        | inl absent ↦ absurd (ground arith)
        | inr (variant, e) ↦
            let key = (find_by_id_sound s.scope k s.pending.variants variant e).0 in
            let e' = rw scoped at e in
            discount_variant-OwnStock variant quantity s s' scoped kp kv
              (subst (λ j. find_by_id (some t) j s.pending.variants ≡ some variant) (sym key) e')
              (ground arith)
      ]

  pub sell_items-OwnStock :
      (ct : Option CustomerType) (items : List SaleItemCreate) (cart : Cart) (s : Session)
      (cart' : Cart) (s' : Session)
      → s.scope ≡ some t
      → IsKeyed s.pending.products
      → IsKeyed s.pending.variants
      → sell_items t ct items cart s ≡ (ok cart', s')
      → OwnStock t s s'
  unfolding sell_items
  sell_items-OwnStock ct [] cart s cart' s' scoped kp kv h =
      subst (OwnStock t s) (ground arith) (OwnStock-refl t s kp kv)
  sell_items-OwnStock ct (item ∷ rest) cart s cart' s' scoped kp kv h =
      let (cart1, s1, first, then_rest) =
        >>=-eq-ok (sell_item t ct item cart) (sell_items t ct rest) s h in
      let sold = sell_item-Sold t ct item cart s cart1 s1 first in
      let key =
        (find_by_id_sound s.scope item.product_id s.pending.products sold.product sold.found).0 in
      let found' =
        subst₂ (λ sc j. find_by_id sc j s.pending.products ≡ some sold.product) scoped (sym key)
          sold.found in
      let own =
        take_units-OwnStock sold.product item.variant_id item.quantity s s1 scoped kp kv found'
          sold.taken in
      OwnStock-trans t s s1 s' own (
        sell_items-OwnStock ct rest cart1 s1 cart' s' (own.scope ∙ scoped) own.products_keyed
          own.variants_keyed then_rest)
