-- ===== src/Sales/Effects.antt =====
-- What each step of a sale writes, once its units have been taken.
use aurapro.Prelude.{
  ℕ, ◌+◌, String, ◌≡◌, true, Option, none, some, List, [], ◌∷◌, ◌++◌, map, find, str_eq, arith, inl,
  inr, Option-cases, Bool-cases, if◌then◌else◌, ◌==◌,
}
use aurapro.Models.Customers.{Customer}
use aurapro.Models.Documents.{
  Sale, SaleStatus, OrderNote, OrderNoteStatus, SalesEvent, OutboxEvent, order_note_row,
}
use aurapro.Models.Identity.{Tenant}
use aurapro.Session.{Session, Result, ok}
use aurapro.Query.{update_by_id}
use aurapro.Treasury.Effects.{
  Posts, record_sale_on_account-Posts, record_cash_income_from_sale-Posts,
}
use aurapro.Sales.{
  Cart, assign_sale_number, sale_fits, insert_sale, invoice_order_note, record_payment,
  event_is_valid, append_event,
}
use aurapro.Sales.Schemas.{SaleCreate}

abbrev pub tenant_of : ℕ → List Tenant → Option Tenant
tenant_of t tenants = find (λ (r : Tenant). r.id == t) tenants

abbrev pub advance : ℕ → ℕ → List Tenant → List Tenant
advance t n tenants =
    map (λ (r : Tenant). if r.id == t then record r { next_sale_number = n } else r) tenants

pub record Numbered (t : ℕ) (s : Session) (n : ℕ) (s' : Session) : Type 0 where
  pub tenant : Tenant
  pub found : tenant_of t s.pending.tenants ≡ some tenant
  pub number : n ≡ tenant.next_sale_number
  pub effect :
      s' ≡ record s { pending = record s.pending { tenants = advance t (n + 1) s.pending.tenants } }

pub assign_sale_number-Numbered :
    (t : ℕ) (s : Session) (n : ℕ) (s' : Session)
    → assign_sale_number t s ≡ (ok n, s')
    → Numbered t s n s'
unfolding assign_sale_number
assign_sale_number-Numbered t s n s' h = elim (Option-cases (tenant_of t s.pending.tenants)) [
  | inl absent ↦ absurd (ground arith)
  | inr (tenant, e) ↦ record {
    tenant = tenant;
    found = e;
    number = ground arith;
    effect = ground arith;
  }
]

abbrev pub sale_of : ℕ → ℕ → SaleCreate → ℕ → Cart → ℕ → ℕ → Sale
sale_of t customer_id payload n cart id now = record {
  id = id;
  created_at = now;
  tenant_id = t;
  customer_id = customer_id;
  total_amount = cart.total_amount;
  currency = payload.currency;
  sale_number = n;
  status = SaleStatus.completed;
  payment_method = payload.payment_method;
  card_coupon_number = payload.card_coupon_number;
  card_authorization_code = payload.card_authorization_code;
  items = cart.sale_items;
}

pub record Inserted (t customer_id : ℕ) (payload : SaleCreate) (n : ℕ) (cart : Cart) (s : Session)
    (sale : Sale) (s' : Session) : Type 0 where
  pub row : sale ≡ sale_of t customer_id payload n cart s.pending.next_id s.now
  pub fits : sale_fits sale s.pending.sales ≡ true
  pub effect : s' ≡ record s {
    pending = record s.pending {
      next_id = s.pending.next_id + 1;
      sales = s.pending.sales ++ sale ∷ [];
    };
  }

pub insert_sale-Inserted :
    (t customer_id : ℕ) (payload : SaleCreate) (n : ℕ) (cart : Cart) (s : Session) (sale : Sale)
    (s' : Session)
    → insert_sale t customer_id payload n cart s ≡ (ok sale, s')
    → Inserted t customer_id payload n cart s sale s'
unfolding insert_sale
insert_sale-Inserted t customer_id payload n cart s sale s' h =
    elim (Bool-cases
      (sale_fits (sale_of t customer_id payload n cart s.pending.next_id s.now) s.pending.sales)) [
        | inl fits ↦ record { row = ground arith; fits = ground arith; effect = ground arith }
        | inr not_fits ↦ absurd (ground arith)
      ]

abbrev pub invoice : ℕ → OrderNote → OrderNote
invoice sale_id order_note = record order_note {
  status = OrderNoteStatus.invoiced;
  sale_id = some sale_id;
}

abbrev pub invoice_in : Option OrderNote → ℕ → List OrderNote → List OrderNote
invoice_in none sale_id order_notes = order_notes
invoice_in (some order_note) sale_id order_notes =
    update_by_id order_note.id (invoice sale_id) order_notes

pub invoice_order_note-effect :
    (order_note : Option OrderNote) (sale_id : ℕ) (s : Session) (r : Result (Unit {0}))
    (s' : Session)
    → invoice_order_note order_note sale_id s ≡ (r, s')
    → s' ≡ record s {
      pending = record s.pending {
        order_notes = invoice_in order_note sale_id s.pending.order_notes;
      };
    }
unfolding invoice_order_note
invoice_order_note-effect none sale_id s r s' h = ground arith
invoice_order_note-effect (some order_note) sale_id s r s' h = ground arith

-- A payment writes account and cash movements only.
pub record_payment-Posts :
    (t : ℕ) (customer : Customer) (sale : Sale) (method : String) (s s' : Session)
    → record_payment t customer sale method s ≡ (ok tt, s')
    → Posts s s'
unfolding record_payment
record_payment-Posts t customer sale method s s' h = elim (Bool-cases (str_eq method "account")) [
  | inl on_account ↦ record_sale_on_account-Posts t customer sale s s' (ground arith)
  | inr other ↦ elim (Bool-cases (str_eq method "cash")) [
    | inl cash ↦ record_cash_income_from_sale-Posts t sale s s' (ground arith)
    | inr neither ↦ ground arith
  ]
]

abbrev pub event_of : ℕ → String → Cart → ℕ → ℕ → SalesEvent
event_of t currency cart id now = record {
  event_id = id;
  timestamp = now;
  tenant_id = t;
  product_details = cart.product_details;
  amount = cart.total_amount;
  currency = currency;
}

abbrev pub outbox_row : ℕ → SalesEvent → ℕ → OutboxEvent
outbox_row t event id = record {
  id = id;
  created_at = event.timestamp;
  aggregate_id = t;
  event_type = "VentaRealizada";
  payload = event;
  status = "PENDING";
}

pub append_event-effect :
    (t : ℕ) (currency : String) (cart : Cart) (s s' : Session)
    → append_event t currency cart s ≡ (ok tt, s')
    → (event_is_valid (event_of t currency cart s.pending.next_id s.now) ≡ true)
      × (s' ≡ record s {
        pending = record s.pending {
          next_id = s.pending.next_id + 1 + 1;
          outbox =
              s.pending.outbox
              ++ outbox_row t
                  (event_of t currency cart s.pending.next_id s.now)
                  (s.pending.next_id + 1)
                ∷ [];
        };
      })
unfolding append_event
append_event-effect t currency cart s s' h =
    elim (Bool-cases (event_is_valid (event_of t currency cart s.pending.next_id s.now))) [
      | inl valid ↦ (valid, ground arith)
      | inr invalid ↦ absurd (ground arith)
    ]
