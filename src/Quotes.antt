-- ===== src/Quotes.antt =====
-- backend/app/modules/quotes/services.py: quotes, with the items of their requests (schemas.py). The
-- loop over the items is the one of the order notes, word for word but for the names.
pub mod Creation
pub mod Life
use aurapro.Prelude.{
  ℕ, ◌+◌, String, Bool, true, false, not, ◌&&◌, Option, List, [], ◌∷◌, ◌++◌, ltb, ◌==◌,
  if◌then◌else◌, find, all, map,
}
use aurapro.Models.Identity.{Tenant}
use aurapro.Models.Customers.{customer_row}
use aurapro.Models.Documents.{Quote, QuoteStatus, quote_row}
use aurapro.Session.{Exec, pure, gets, or_raise, ◌>>=◌, ◌>>◌, raise_if, modify, commit, fresh_id}
use aurapro.Session.Errors.{Error}
use aurapro.Query.{select_by_id, update_by_id}
use aurapro.Treasury.{numeric_limit}
use aurapro.Sales.{load_customer_type, integer_limit}
use aurapro.OrderNotes.{OrderNoteItemCreate, Draft, empty_draft, price_items, note_item_fits}

abbrev pub QuoteItemCreate : Type 0
QuoteItemCreate = OrderNoteItemCreate

pub record QuoteCreate : Type 0 where
  pub customer_id : ℕ
  pub currency : String
  pub valid_until : Option ℕ
  pub items : List QuoteItemCreate

abbrev pub advance_quotes : ℕ → ℕ → List Tenant → List Tenant
advance_quotes tenant_id n tenants =
    map (λ (t : Tenant). if t.id == tenant_id then record t { next_quote_number = n } else t)
      tenants

-- The next number of the tenant's quotes, which moves its counter on.
unfoldable pub assign_quote_number : ℕ → Exec ℕ
assign_quote_number tenant_id = do
  found ← gets (λ s. find (λ (t : Tenant). t.id == tenant_id) s.pending.tenants)
  tenant ← or_raise found Error.no_result_found
  modify
      λ d. record d { tenants = advance_quotes tenant_id (tenant.next_quote_number + 1) d.tenants }
  pure tenant.next_quote_number

-- The constraints of the tables `quotes` and `quote_items`, and the ranges of their columns and of
-- the counter.
unfoldable pub quote_fits : Quote → List Quote → Bool
quote_fits quote quotes =
    ltb 0 quote.total_amount
    && ltb quote.total_amount numeric_limit
    && all note_item_fits quote.items
    && ltb (quote.quote_number + 1) integer_limit
    && all
        (λ (q : Quote).
          not (q.tenant_id == quote.tenant_id && q.quote_number == quote.quote_number))
        quotes

-- The row of a new quote.
abbrev pub new_quote : ℕ → ℕ → ℕ → ℕ → QuoteCreate → ℕ → Draft → Quote
new_quote id now tenant_id customer_id payload quote_number draft = record {
  id = id;
  created_at = now;
  tenant_id = tenant_id;
  customer_id = customer_id;
  total_amount = draft.total_amount;
  currency = payload.currency;
  quote_number = quote_number;
  status = QuoteStatus.pending;
  valid_until = payload.valid_until;
  items = draft.order_note_items;
}

-- `db.add(quote)`, as the commit's flush writes it
unfoldable pub insert_quote : ℕ → ℕ → QuoteCreate → ℕ → Draft → Exec Quote
insert_quote tenant_id customer_id payload quote_number draft = do
  id ← fresh_id
  s ← gets (λ s. s)
  let quote = new_quote id s.now tenant_id customer_id payload quote_number draft
  raise_if (not (quote_fits quote s.pending.quotes)) Error.integrity_error
  modify (λ d. record d { quotes = d.quotes ++ quote ∷ [] })
  pure quote

-- All that `create_quote` does before its commit.
unfoldable pub prepare_quote : ℕ → QuoteCreate → Exec Quote
prepare_quote tenant_id payload = do
  found ← select_by_id (λ d. d.customers) payload.customer_id
  customer ← or_raise found Error.customer_not_found
  customer_type ← load_customer_type customer
  draft ← price_items tenant_id customer_type payload.items empty_draft
  quote_number ← assign_quote_number tenant_id
  insert_quote tenant_id customer.id payload quote_number draft

unfoldable pub create_quote : ℕ → QuoteCreate → Exec Quote
create_quote tenant_id payload = do quote ← prepare_quote tenant_id payload; commit; pure quote

unfoldable pub get_quote : ℕ → Exec Quote
get_quote quote_id = do
  found ← select_by_id (λ d. d.quotes) quote_id
  or_raise found Error.quote_not_found

abbrev pub is_pending : Quote → Bool
is_pending q = elim q.status [
  | QuoteStatus.pending ↦ true
  | QuoteStatus.accepted ↦ false
  | QuoteStatus.rejected ↦ false
  | QuoteStatus.expired ↦ false
]

abbrev pub with_status : QuoteStatus → Quote → Quote
with_status status q = record q { status = status }

unfoldable pub update_quote_status : ℕ → QuoteStatus → Exec Quote
update_quote_status quote_id status = do
  quote ← get_quote quote_id
  raise_if (not (is_pending quote)) Error.quote_not_pending
  modify (λ d. record d { quotes = update_by_id quote.id (with_status status) d.quotes })
  commit
  pure (with_status status quote)
