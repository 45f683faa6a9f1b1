-- ===== src/Sales/Trail.antt =====
-- A sale that was created, with the effect of each of its steps.
use aurapro.Prelude.{ℕ, ◌+◌, ◌≡◌, [], ◌∷◌, ◌++◌, true}
use aurapro.Models.Documents.{Sale}
use aurapro.Session.{Session, ok}
use aurapro.Treasury.Effects.{Posts}
use aurapro.Sales.{empty_cart, event_is_valid, create_sale}
use aurapro.Sales.Schemas.{SaleCreate}
use aurapro.Sales.Steps.{Steps, create_sale-Steps}
use aurapro.Sales.Lines.{SoldAll, sell_items-SoldAll}
use aurapro.Sales.Effects.{
  Numbered, assign_sale_number-Numbered, Inserted, insert_sale-Inserted, invoice_in,
  invoice_order_note-effect, record_payment-Posts, event_of, outbox_row, append_event-effect,
  advance,
}

pub record Trail (t : ℕ) (payload : SaleCreate) (s : Session) (sale : Sale) (s' : Session)
    : Type 0 where
  pub prepared : Session
  pub steps : Steps t payload s sale prepared
  pub lines : SoldAll t steps.customer_type payload.items empty_cart s steps.cart steps.sold
  pub numbered : Numbered t steps.sold steps.sale_number steps.numbered
  pub inserted :
      Inserted t steps.customer.id payload steps.sale_number steps.cart steps.numbered sale
        steps.inserted
  pub invoiced : steps.invoiced ≡ record (steps.inserted) {
    pending = record (steps.inserted.pending) {
      order_notes = invoice_in steps.order_note sale.id steps.inserted.pending.order_notes;
    };
  }
  pub paid : Posts steps.invoiced steps.paid
  pub appended :
      (event_is_valid
          (event_of t payload.currency steps.cart steps.paid.pending.next_id steps.paid.now)
        ≡ true)
      × (prepared ≡ record (steps.paid) {
        pending = record (steps.paid.pending) {
          next_id = steps.paid.pending.next_id + 1 + 1;
          outbox =
              steps.paid.pending.outbox
              ++ outbox_row t
                  (event_of t payload.currency steps.cart steps.paid.pending.next_id steps.paid.now)
                  (steps.paid.pending.next_id + 1)
                ∷ [];
        };
      })
  pub final : s' ≡ record prepared { committed = prepared.pending }

pub create_sale-Trail :
    (t : ℕ) (payload : SaleCreate) (s : Session) (sale : Sale) (s' : Session)
    → create_sale t payload s ≡ (ok sale, s')
    → Trail t payload s sale s'
create_sale-Trail t payload s sale s' h =
    let (p, st, final) = create_sale-Steps t payload s sale s' h in
    record {
      prepared = p;
      steps = st;
      lines =
          sell_items-SoldAll t st.customer_type payload.items empty_cart s st.cart st.sold st.sells;
      numbered = assign_sale_number-Numbered t st.sold st.sale_number st.numbered st.numbers;
      inserted =
          insert_sale-Inserted t st.customer.id payload st.sale_number st.cart st.numbered sale
            st.inserted st.inserts;
      invoiced =
          invoice_order_note-effect st.order_note sale.id st.inserted (ok tt) st.invoiced
            st.invoices;
      paid =
          record_payment-Posts t st.customer sale payload.payment_method st.invoiced st.paid
            st.pays;
      appended = append_event-effect t payload.currency st.cart st.paid p st.appends;
      final = final;
    }

-- What the whole sale leaves in each table.
pub record Tables (t : ℕ) (payload : SaleCreate) (s : Session) (sale : Sale) (s' : Session)
    (trail : Trail t payload s sale s') : Type 0 where
  pub scope : s'.scope ≡ s.scope
  pub committed : s'.committed ≡ s'.pending
  pub products : s'.pending.products ≡ trail.steps.sold.pending.products
  pub variants : s'.pending.variants ≡ trail.steps.sold.pending.variants
  pub tenants : s'.pending.tenants ≡ advance t (trail.steps.sale_number + 1) s.pending.tenants
  pub sales : s'.pending.sales ≡ s.pending.sales ++ sale ∷ []
  pub order_notes :
      s'.pending.order_notes ≡ invoice_in trail.steps.order_note sale.id s.pending.order_notes
  pub account_movements : s'.pending.account_movements ≡ trail.steps.paid.pending.account_movements
  pub cash_movements : s'.pending.cash_movements ≡ trail.steps.paid.pending.cash_movements
  pub outbox :
      s'.pending.outbox
      ≡ s.pending.outbox
        ++ outbox_row t
            (event_of t payload.currency trail.steps.cart trail.steps.paid.pending.next_id
              trail.steps.paid.now)
            (trail.steps.paid.pending.next_id + 1)
          ∷ []
  -- where the payment began
  pub start_scope : trail.steps.invoiced.scope ≡ s.scope
  pub start_account_movements :
      trail.steps.invoiced.pending.account_movements ≡ s.pending.account_movements
  pub start_cash_movements : trail.steps.invoiced.pending.cash_movements ≡ s.pending.cash_movements
  pub start_cash_sessions : trail.steps.invoiced.pending.cash_sessions ≡ s.pending.cash_sessions
  -- what no sale writes
  pub users : s'.pending.users ≡ s.pending.users
  pub customers : s'.pending.customers ≡ s.pending.customers
  pub customer_types : s'.pending.customer_types ≡ s.pending.customer_types
  pub categories : s'.pending.categories ≡ s.pending.categories
  pub cash_sessions : s'.pending.cash_sessions ≡ s.pending.cash_sessions
  pub quotes : s'.pending.quotes ≡ s.pending.quotes
  pub invitations : s'.pending.invitations ≡ s.pending.invitations
  pub password_resets : s'.pending.password_resets ≡ s.pending.password_resets

pub Trail-Tables :
    (t : ℕ) (payload : SaleCreate) (s : Session) (sale : Sale) (s' : Session)
    (trail : Trail t payload s sale s')
    → Tables t payload s sale s' trail
Trail-Tables t payload s sale s' trail =
    let e1 = trail.lines.takes.same in
    let e2 = trail.numbered.effect in
    let e3 = trail.inserted.effect in
    let e4 = trail.invoiced in
    let e5 = trail.paid in
    let e6 = trail.appended.1 in
    let e7 = trail.final in
    record {
      scope = cc;
      committed = cc;
      products = cc;
      variants = cc;
      tenants = cc;
      sales = cc;
      order_notes = cc;
      account_movements = cc;
      cash_movements = cc;
      outbox = cc;
      start_scope = cc;
      start_account_movements = cc;
      start_cash_movements = cc;
      start_cash_sessions = cc;
      users = cc;
      customers = cc;
      customer_types = cc;
      categories = cc;
      cash_sessions = cc;
      quotes = cc;
      invitations = cc;
      password_resets = cc;
    }
