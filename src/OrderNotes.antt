-- ===== src/OrderNotes.antt =====
-- backend/app/modules/order_notes/services.py: order notes, and the items of their requests
-- (schemas.py).
pub mod Status
pub mod Settling
pub mod Life
pub mod Lines
pub mod Rules
pub mod Creation
use aurapro.Prelude.{
  ℕ, ◌+◌, ◌*◌, ◌^◌, String, Bool, true, false, not, ◌&&◌, Option, none, some, List, [], ◌∷◌, ◌++◌,
  ltb, ◌==◌, if◌then◌else◌, find, all, map,
}
use aurapro.Models.Identity.{Tenant}
use aurapro.Models.Customers.{CustomerType, customer_row}
use aurapro.Models.Products.{product_row, variant_row}
use aurapro.Models.Documents.{OrderNote, OrderNoteItem, OrderNoteStatus, order_note_row}
use aurapro.Session.{Exec, pure, gets, or_raise, ◌>>=◌, ◌>>◌, raise_if, modify, commit, fresh_id}
use aurapro.Session.Errors.{Error}
use aurapro.Query.{select_by_id, update_by_id}
use aurapro.Pricing.{resolve_unit_price}
use aurapro.Treasury.{numeric_limit}
use aurapro.Sales.{load_customer_type, is_pending, integer_limit}

pub record OrderNoteItemCreate : Type 0 where
  pub product_id : ℕ
  pub variant_id : Option ℕ
  pub quantity : ℕ

pub record OrderNoteCreate : Type 0 where
  pub customer_id : ℕ
  pub currency : String
  pub items : List OrderNoteItemCreate

-- The variant, if one is asked for, is one of the product's.
unfoldable pub check_variant : ℕ → Option ℕ → Exec (Unit {0})
check_variant product_id none = pure tt
check_variant product_id (some k) = do
  found ← select_by_id (λ d. d.variants) k
  variant ← or_raise found Error.product_variant_not_found
  raise_if (not (variant.product_id == product_id)) Error.variant_product_mismatch

-- The loop's variables.
pub record Draft : Type 0 where
  pub order_note_items : List OrderNoteItem
  pub total_amount : ℕ

abbrev pub empty_draft : Draft
empty_draft = record { order_note_items = []; total_amount = 0 }

-- One more line.
abbrev pub add_line : ℕ → OrderNoteItemCreate → ℕ → ℕ → Draft → Draft
add_line tenant_id item product_id unit_price draft = record {
  order_note_items =
      draft.order_note_items
      ++ record {
        tenant_id = tenant_id;
        product_id = product_id;
        variant_id = item.variant_id;
        quantity = item.quantity;
        unit_price = unit_price;
      }
        ∷ [];
  total_amount = draft.total_amount + unit_price * item.quantity;
}

-- The body of `for item in payload.items`: it reads the catalogue and takes no stock.
unfoldable pub price_item : ℕ → Option CustomerType → OrderNoteItemCreate → Draft → Exec Draft
price_item tenant_id customer_type item draft = do
  found ← select_by_id (λ d. d.products) item.product_id
  product ← or_raise found Error.product_not_found
  check_variant product.id item.variant_id
  pure (add_line tenant_id item product.id (resolve_unit_price customer_type product) draft)

unfoldable pub price_items : ℕ → Option CustomerType → List OrderNoteItemCreate → Draft → Exec Draft
price_items tenant_id customer_type [] draft = pure draft
price_items tenant_id customer_type (item ∷ rest) draft =
    price_item tenant_id customer_type item draft >>= price_items tenant_id customer_type rest

abbrev pub advance_notes : ℕ → ℕ → List Tenant → List Tenant
advance_notes tenant_id n tenants =
    map (λ (t : Tenant). if t.id == tenant_id then record t { next_order_note_number = n } else t)
      tenants

-- The next number of the tenant's order notes, which moves its counter on.
unfoldable pub assign_order_note_number : ℕ → Exec ℕ
assign_order_note_number tenant_id = do
  found ← gets (λ s. find (λ (t : Tenant). t.id == tenant_id) s.pending.tenants)
  tenant ← or_raise found Error.no_result_found
  modify λ d. record d {
    tenants = advance_notes tenant_id (tenant.next_order_note_number + 1) d.tenants;
  }
  pure tenant.next_order_note_number

-- The constraints of the tables `order_notes` and `order_note_items`, and the ranges of their
-- columns and of the counter.
abbrev pub note_item_fits : OrderNoteItem → Bool
note_item_fits i =
    ltb 0 i.quantity
    && ltb i.quantity integer_limit
    && ltb 0 i.unit_price
    && ltb i.unit_price numeric_limit

unfoldable pub note_fits : OrderNote → List OrderNote → Bool
note_fits note notes =
    ltb 0 note.total_amount
    && ltb note.total_amount numeric_limit
    && all note_item_fits note.items
    && ltb (note.order_note_number + 1) integer_limit
    && all
        (λ (n : OrderNote).
          not (n.tenant_id == note.tenant_id && n.order_note_number == note.order_note_number))
        notes

-- The row of a new order note.
abbrev pub new_note : ℕ → ℕ → ℕ → ℕ → OrderNoteCreate → ℕ → Draft → OrderNote
new_note id now tenant_id customer_id payload order_note_number draft = record {
  id = id;
  created_at = now;
  tenant_id = tenant_id;
  customer_id = customer_id;
  total_amount = draft.total_amount;
  currency = payload.currency;
  order_note_number = order_note_number;
  status = OrderNoteStatus.pending;
  sale_id = none;
  items = draft.order_note_items;
}

-- `db.add(order_note)`, as the commit's flush writes it
unfoldable pub insert_order_note : ℕ → ℕ → OrderNoteCreate → ℕ → Draft → Exec OrderNote
insert_order_note tenant_id customer_id payload order_note_number draft = do
  id ← fresh_id
  s ← gets (λ s. s)
  let note = new_note id s.now tenant_id customer_id payload order_note_number draft
  raise_if (not (note_fits note s.pending.order_notes)) Error.integrity_error
  modify (λ d. record d { order_notes = d.order_notes ++ note ∷ [] })
  pure note

-- All that `create_order_note` does before its commit.
unfoldable pub prepare_order_note : ℕ → OrderNoteCreate → Exec OrderNote
prepare_order_note tenant_id payload = do
  found ← select_by_id (λ d. d.customers) payload.customer_id
  customer ← or_raise found Error.customer_not_found
  customer_type ← load_customer_type customer
  draft ← price_items tenant_id customer_type payload.items empty_draft
  order_note_number ← assign_order_note_number tenant_id
  insert_order_note tenant_id customer.id payload order_note_number draft

unfoldable pub create_order_note : ℕ → OrderNoteCreate → Exec OrderNote
create_order_note tenant_id payload = do
  order_note ← prepare_order_note tenant_id payload
  commit
  pure order_note

unfoldable pub get_order_note : ℕ → Exec OrderNote
get_order_note order_note_id = do
  found ← select_by_id (λ d. d.order_notes) order_note_id
  or_raise found Error.order_note_not_found

abbrev pub is_invoiced : OrderNoteStatus → Bool
is_invoiced OrderNoteStatus.invoiced = true
is_invoiced OrderNoteStatus.pending = false
is_invoiced OrderNoteStatus.cancelled = false

abbrev pub with_status : OrderNoteStatus → OrderNote → OrderNote
with_status status n = record n { status = status }

unfoldable pub update_order_note_status : ℕ → OrderNoteStatus → Exec OrderNote
update_order_note_status order_note_id status = do
  raise_if (is_invoiced status) Error.cannot_set_invoiced_manually
  order_note ← get_order_note order_note_id
  raise_if (not (is_pending order_note)) Error.order_note_not_pending
  modify
      λ d. record d { order_notes = update_by_id order_note.id (with_status status) d.order_notes }
  commit
  pure (with_status status order_note)
