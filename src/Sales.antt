-- ===== src/Sales.antt =====
-- backend/app/modules/sales/services.py: `create_sale` and its steps, in the source's order. The
-- exact sum of prices in cents stands for the source's sum of floats.
pub mod Schemas
pub mod Atomicity
pub mod Stock
pub mod Lines
pub mod Steps
pub mod Effects
pub mod Trail
pub mod Posting
pub mod Payment
pub mod Notes
pub mod Numbers
pub mod OwnStock
pub mod Isolation
use aurapro.Prelude.{
  ℕ, ◌+◌, ◌-◌, ◌*◌, ◌^◌, String, Bool, true, false, not, ◌&&◌, Option, none, some, List, [], ◌∷◌,
  ◌++◌, ltb, leb, str_eq, ◌==◌, if◌then◌else◌, find, all, map, length,
}
use aurapro.Models.{Database}
use aurapro.Models.Identity.{Tenant}
use aurapro.Models.Customers.{Customer, CustomerType, customer_row, customer_type_row}
use aurapro.Models.Products.{Product, ProductVariant, product_row, variant_row}
use aurapro.Models.Documents.{
  Sale, SaleStatus, SaleItem, OrderNote, OrderNoteStatus, ProductDetail, SalesEvent, OutboxEvent,
  sale_row, order_note_row,
}
use aurapro.Session.{Exec, pure, gets, or_raise, ◌>>=◌, ◌>>◌, raise_if, modify, commit, fresh_id}
use aurapro.Session.Errors.{Error}
use aurapro.Query.{select_by_id, update_by_id}
use aurapro.Pricing.{resolve_unit_price, is_currency}
use aurapro.Treasury.{
  cash_payment_method, numeric_limit, record_sale_on_account, record_cash_income_from_sale,
}
use Schemas.{SaleItemCreate, SaleCreate}

abbrev pub account_payment_method : String
account_payment_method = "account"

-- What fits a column of 32 bits.
abbrev pub integer_limit : ℕ
integer_limit = 2 ^ 31

-- `selectinload(Customer.customer_type)`
unfoldable pub load_customer_type : Customer → Exec (Option CustomerType)
load_customer_type customer = elim customer.customer_type_id [
  | none ↦ pure none
  | some k ↦ select_by_id (λ d. d.customer_types) k
]

abbrev pub is_pending : OrderNote → Bool
is_pending note = elim note.status [ OrderNoteStatus.pending ↦ true | _ ↦ false ]

-- The note that the sale takes up: it is there, pending, and of the same customer.
unfoldable pub lock_order_note : ℕ → Option ℕ → Exec (Option OrderNote)
lock_order_note customer_id none = pure none
lock_order_note customer_id (some k) = do
  found ← select_by_id (λ d. d.order_notes) k
  order_note ← or_raise found Error.order_note_not_found
  raise_if (not (is_pending order_note)) Error.order_note_not_pending
  raise_if (not (order_note.customer_id == customer_id)) Error.order_note_customer_mismatch
  pure (some order_note)

-- `_discount_stock`, at a product and at a variant.
unfoldable pub discount_product : Product → ℕ → Exec (Unit {0})
discount_product product quantity = do
  raise_if (ltb product.current_stock quantity) Error.insufficient_stock
  modify λ d. record d {
    products =
        update_by_id product.id
          (λ (p : Product). record p { current_stock = product.current_stock - quantity })
          d.products;
  }

unfoldable pub discount_variant : ProductVariant → ℕ → Exec (Unit {0})
discount_variant variant quantity = do
  raise_if (ltb variant.stock quantity) Error.insufficient_stock
  modify λ d. record d {
    variants =
        update_by_id variant.id
          (λ (v : ProductVariant). record v { stock = variant.stock - quantity }) d.variants;
  }

unfoldable pub take_units : Product → Option ℕ → ℕ → Exec (Unit {0})
take_units product none quantity = discount_product product quantity
take_units product (some k) quantity = do
  found ← select_by_id (λ d. d.variants) k
  variant ← or_raise found Error.product_variant_not_found
  raise_if (not (variant.product_id == product.id)) Error.variant_product_mismatch
  discount_variant variant quantity

-- The loop's variables.
pub record Cart : Type 0 where
  pub sale_items : List SaleItem
  pub product_details : List ProductDetail
  pub total_amount : ℕ

abbrev pub empty_cart : Cart
empty_cart = record { sale_items = []; product_details = []; total_amount = 0 }

-- One more line.
abbrev pub put_line : ℕ → Product → SaleItemCreate → ℕ → Cart → Cart
put_line tenant_id product item unit_price cart = record {
  sale_items =
      cart.sale_items
      ++ record {
        tenant_id = tenant_id;
        product_id = product.id;
        variant_id = item.variant_id;
        quantity = item.quantity;
        unit_price = unit_price;
      }
        ∷ [];
  product_details =
      cart.product_details
      ++ record {
        product_id = product.id;
        name = product.name;
        quantity = item.quantity;
        unit_price = unit_price;
      }
        ∷ [];
  total_amount = cart.total_amount + unit_price * item.quantity;
}

-- The body of `for item in payload.items`.
unfoldable pub sell_item : ℕ → Option CustomerType → SaleItemCreate → Cart → Exec Cart
sell_item tenant_id customer_type item cart = do
  found ← select_by_id (λ d. d.products) item.product_id
  product ← or_raise found Error.product_not_found
  raise_if (not product.is_active) Error.product_not_active
  take_units product item.variant_id item.quantity
  pure (put_line tenant_id product item (resolve_unit_price customer_type product) cart)

unfoldable pub sell_items : ℕ → Option CustomerType → List SaleItemCreate → Cart → Exec Cart
sell_items tenant_id customer_type [] cart = pure cart
sell_items tenant_id customer_type (item ∷ rest) cart =
    sell_item tenant_id customer_type item cart >>= sell_items tenant_id customer_type rest

-- The next number of the tenant's sales, which moves its counter on.
unfoldable pub assign_sale_number : ℕ → Exec ℕ
assign_sale_number tenant_id = do
  found ← gets (λ s. find (λ (t : Tenant). t.id == tenant_id) s.pending.tenants)
  tenant ← or_raise found Error.attribute_error
  modify λ d. record d {
    tenants =
        map
          (λ (t : Tenant).
            if t.id == tenant_id
            then record t { next_sale_number = tenant.next_sale_number + 1 }
            else t)
          d.tenants;
  }
  pure tenant.next_sale_number

-- The constraints of the tables `sales` and `sale_items`, and the ranges of their columns. The
-- counter, which is written along with the sale, has to fit too.
abbrev pub item_fits : SaleItem → Bool
item_fits i =
    ltb 0 i.quantity
    && ltb i.quantity integer_limit
    && ltb 0 i.unit_price
    && ltb i.unit_price numeric_limit

unfoldable pub sale_fits : Sale → List Sale → Bool
sale_fits sale sales =
    ltb 0 sale.total_amount
    && ltb sale.total_amount numeric_limit
    && all item_fits sale.items
    && ltb (sale.sale_number + 1) integer_limit
    && all (λ (s : Sale). not (s.tenant_id == sale.tenant_id && s.sale_number == sale.sale_number))
        sales

-- `db.add(sale)` and `db.flush()`
unfoldable pub insert_sale : ℕ → ℕ → SaleCreate → ℕ → Cart → Exec Sale
insert_sale tenant_id customer_id payload sale_number cart = do
  id ← fresh_id
  s ← gets (λ s. s)
  let sale : Sale = record {
    id = id;
    created_at = s.now;
    tenant_id = tenant_id;
    customer_id = customer_id;
    total_amount = cart.total_amount;
    currency = payload.currency;
    sale_number = sale_number;
    status = SaleStatus.completed;
    payment_method = payload.payment_method;
    card_coupon_number = payload.card_coupon_number;
    card_authorization_code = payload.card_authorization_code;
    items = cart.sale_items;
  }
  raise_if (not (sale_fits sale s.pending.sales)) Error.integrity_error
  modify (λ d. record d { sales = d.sales ++ sale ∷ [] })
  pure sale

unfoldable pub invoice_order_note : Option OrderNote → ℕ → Exec (Unit {0})
invoice_order_note none sale_id = pure tt
invoice_order_note (some order_note) sale_id = modify λ d. record d {
  order_notes =
      update_by_id order_note.id
        (λ (n : OrderNote). record n { status = OrderNoteStatus.invoiced; sale_id = some sale_id })
        d.order_notes;
}

-- The treasury's part of the sale.
unfoldable pub record_payment : ℕ → Customer → Sale → String → Exec (Unit {0})
record_payment tenant_id customer sale payment_method =
    if str_eq payment_method account_payment_method
    then record_sale_on_account tenant_id customer sale
    else if str_eq payment_method cash_payment_method
    then record_cash_income_from_sale tenant_id sale
    else pure tt

-- What pydantic checks of `SalesEvent`.
unfoldable pub event_is_valid : SalesEvent → Bool
event_is_valid e =
    ltb 0 (length e.product_details)
    && all (λ (d : ProductDetail). not (str_eq d.name "") && ltb 0 d.quantity && ltb 0 d.unit_price)
        e.product_details
    && ltb 0 e.amount
    && is_currency e.currency

unfoldable pub append_event : ℕ → String → Cart → Exec (Unit {0})
append_event tenant_id currency cart = do
  event_id ← fresh_id
  now ← gets (λ s. s.now)
  let event : SalesEvent = record {
    event_id = event_id;
    timestamp = now;
    tenant_id = tenant_id;
    product_details = cart.product_details;
    amount = cart.total_amount;
    currency = currency;
  }
  raise_if (not (event_is_valid event)) Error.validation_error
  id ← fresh_id
  let row : OutboxEvent = record {
    id = id;
    created_at = now;
    aggregate_id = tenant_id;
    event_type = "VentaRealizada";
    payload = event;
    status = "PENDING";
  }
  modify (λ d. record d { outbox = d.outbox ++ row ∷ [] })

-- All that the transaction does before its commit.
unfoldable pub prepare_sale : ℕ → SaleCreate → Exec Sale
prepare_sale tenant_id payload = do
  found ← select_by_id (λ d. d.customers) payload.customer_id
  customer ← or_raise found Error.customer_not_found
  customer_type ← load_customer_type customer
  order_note ← lock_order_note customer.id payload.order_note_id
  cart ← sell_items tenant_id customer_type payload.items empty_cart
  sale_number ← assign_sale_number tenant_id
  sale ← insert_sale tenant_id customer.id payload sale_number cart
  invoice_order_note order_note sale.id
  record_payment tenant_id customer sale payload.payment_method
  append_event tenant_id payload.currency cart
  pure sale

unfoldable pub create_sale : ℕ → SaleCreate → Exec Sale
create_sale tenant_id payload = do sale ← prepare_sale tenant_id payload; commit; pure sale
