-- ===== src/Sales/Isolation.antt =====
-- A tenant's sale reaches no other tenant's rows.
use aurapro.Prelude.{
  ℕ, ◌+◌, ◌≡◌, refl, ◌∙◌, ap, sym, not, Option, some, none, List, [], ◌∷◌, ◌++◌, arith, ◌==◌,
  filter, String, str_eq, Bool-cases, inl, inr,
}
use mathlib.Core.Path.{subst₂}
use aurapro.Models.{Database}
use aurapro.Models.Customers.{Customer}
use aurapro.Models.Identity.{Tenant}
use aurapro.Models.Products.{product_row, variant_row}
use aurapro.Models.Documents.{Sale, OrderNote, OutboxEvent, sale_row, order_note_row}
use aurapro.Models.Treasury.{CashSession, account_movement_row, cash_movement_row}
use aurapro.Session.{Session, ok}
use aurapro.Query.{find_by_id}
use aurapro.Query.Laws.{IsKeyed, of_others, of_others-update, of_others-append, find_by_id_sound}
use aurapro.Sales.{create_sale, record_payment, lock_order_note, empty_cart}
use aurapro.Sales.Schemas.{SaleCreate}
use aurapro.Treasury.Effects.{
  sale_debit, record_sale_on_account-OnAccount, with_income,
  record_cash_income_from_sale-CashIncome,
}
use aurapro.Sales.Effects.{advance, invoice, invoice_in, event_of, outbox_row}
use aurapro.Sales.Notes.{lock_order_note-Locked}
use aurapro.Sales.Trail.{Trail, create_sale-Trail, Tables, Trail-Tables}
use aurapro.Sales.OwnStock.{sell_items-OwnStock}

module _ (t : ℕ) where
  -- A payment posts the tenant's own movements.
  record_payment-others :
      (customer : Customer) (sale : Sale) (method : String) (s s' : Session)
      → record_payment t customer sale method s ≡ (ok tt, s')
      → (of_others t s'.pending.account_movements ≡ of_others t s.pending.account_movements)
        × (of_others t s'.pending.cash_movements ≡ of_others t s.pending.cash_movements)
  unfolding record_payment
  record_payment-others customer sale method s s' h = elim (Bool-cases (str_eq method "account")) [
    | inl account ↦
        let e = (record_sale_on_account-OnAccount t customer sale s s' (ground arith)).effect in
        let row = sale_debit t customer sale s.pending.next_id s.now in
        let rows : s'.pending.account_movements ≡ s.pending.account_movements ++ row ∷ [] =
          ground arith in
        let same : s'.pending.cash_movements ≡ s.pending.cash_movements = ground arith in
        (rw rows (of_others-append t s.pending.account_movements row refl), rw same)
    | inr other ↦ elim (Bool-cases (str_eq method "cash")) [
      | inl cash ↦
          let r = record_cash_income_from_sale-CashIncome t sale s s' (ground arith) in
          income-others r.session sale s s' r.effect
      | inr neither ↦ let same : s' ≡ s = ground arith in rw same (refl, refl)
    ]
  ]
    where
      income-others :
          (session : Option CashSession) (sale : Sale) (s s' : Session)
          → s' ≡ with_income t session sale.total_amount "Venta" (some sale.id) s
          → (of_others t s'.pending.account_movements ≡ of_others t s.pending.account_movements)
            × (of_others t s'.pending.cash_movements ≡ of_others t s.pending.cash_movements)
      income-others none sale s s' e = rw e (refl, refl)
      income-others (some session) sale s s' e =
          rw e (refl, of_others-append t s.pending.cash_movements _ refl)

  tenants-advance :
      (n : ℕ) (tenants : List Tenant)
      → filter (λ (r : Tenant). not (r.id == t)) (advance t n tenants)
        ≡ filter (λ (r : Tenant). not (r.id == t)) tenants
  tenants-advance n [] = refl
  tenants-advance n (x ∷ rest) = ground (arith, tenants-advance n rest)

  outbox-append :
      (rows : List OutboxEvent) (r : OutboxEvent)
      → r.aggregate_id ≡ t
      → filter (λ (r : OutboxEvent). not (r.aggregate_id == t)) (rows ++ r ∷ [])
        ≡ filter (λ (r : OutboxEvent). not (r.aggregate_id == t)) rows
  outbox-append [] r h = ground arith
  outbox-append (x ∷ rows) r h = ground (arith, outbox-append rows r h)

  invoice_in-others :
      (customer_id : ℕ) (k : Option ℕ) (s : Session) (order_note : Option OrderNote) (sale_id : ℕ)
      → s.scope ≡ some t
      → IsKeyed s.pending.order_notes
      → lock_order_note customer_id k s ≡ (ok order_note, s)
      → of_others t (invoice_in order_note sale_id s.pending.order_notes)
        ≡ of_others t s.pending.order_notes
  unfolding lock_order_note
  invoice_in-others customer_id none s order_note sale_id scoped keyed h =
      let nothing : order_note ≡ none = ground arith in rw nothing
  invoice_in-others customer_id (some k) s order_note sale_id scoped keyed h =
      let locked = lock_order_note-Locked customer_id k s order_note h in
      let key =
        (find_by_id_sound s.scope k s.pending.order_notes locked.order_note locked.found).0 in
      let found =
        subst₂ (λ sc j. find_by_id sc j s.pending.order_notes ≡ some locked.order_note) scoped
          (sym key) locked.found in
      rw (locked.same) (
        of_others-update t locked.order_note.id (invoice sale_id) s.pending.order_notes
          locked.order_note keyed (λ n. (refl, refl)) found)

-- In every table that a sale writes, the other tenants' rows are as they were.
abbrev pub LeavesOthers : ℕ → Database → Database → Type 0
LeavesOthers t d d' =
    (of_others t d'.products ≡ of_others t d.products)
    × (of_others t d'.variants ≡ of_others t d.variants)
    × (of_others t d'.sales ≡ of_others t d.sales)
    × (of_others t d'.order_notes ≡ of_others t d.order_notes)
    × (of_others t d'.account_movements ≡ of_others t d.account_movements)
    × (of_others t d'.cash_movements ≡ of_others t d.cash_movements)
    × (filter (λ (r : OutboxEvent). not (r.aggregate_id == t)) d'.outbox
        ≡ filter (λ (r : OutboxEvent). not (r.aggregate_id == t)) d.outbox)
    × (filter (λ (r : Tenant). not (r.id == t)) d'.tenants
        ≡ filter (λ (r : Tenant). not (r.id == t)) d.tenants)

module _ (t : ℕ) (payload : SaleCreate) (s : Session) (sale : Sale) (s' : Session)
    (created : create_sale t payload s ≡ (ok sale, s')) where
  trail : Trail t payload s sale s'
  trail = create_sale-Trail t payload s sale s' created

  tables : Tables t payload s sale s' trail
  tables = Trail-Tables t payload s sale s' trail

  -- A sale in a tenant's own session that succeeds leaves the rows of all other tenants as they
  -- were, in every table that it writes: products, variants, sales, order notes, account and cash
  -- movements, events, and the tenants themselves with their counters. It needs primary keys to be
  -- unique in the tables whose rows it updates.
  pub create_sale-others :
      s.scope ≡ some t
      → IsKeyed s.pending.products
      → IsKeyed s.pending.variants
      → IsKeyed s.pending.order_notes
      → LeavesOthers t s.pending s'.committed
  create_sale-others scoped kp kv kn =
      let st = trail.steps in
      let own =
        sell_items-OwnStock t st.customer_type payload.items empty_cart s st.cart st.sold scoped kp
          kv st.sells in
      let pays =
        record_payment-others t st.customer sale payload.payment_method st.invoiced st.paid
          st.pays in
      let p = st.paid in
      let e = event_of t payload.currency st.cart p.pending.next_id p.now in
      let owner : sale.tenant_id ≡ t = ap (λ (r : Sale). r.tenant_id) trail.inserted.row in
      rw (tables.committed) (
        ap (of_others t) tables.products ∙ own.products,
        ap (of_others t) tables.variants ∙ own.variants,
        ap (of_others t) tables.sales ∙ of_others-append t s.pending.sales sale owner,
        ap (of_others t) tables.order_notes
            ∙ invoice_in-others t st.customer.id payload.order_note_id s st.order_note sale.id
                scoped kn st.locked,
        ap (of_others t) tables.account_movements
            ∙ pays.0
            ∙ ap (of_others t) tables.start_account_movements,
        ap (of_others t) tables.cash_movements
            ∙ pays.1
            ∙ ap (of_others t) tables.start_cash_movements,
        ap (filter (λ (r : OutboxEvent). not (r.aggregate_id == t))) tables.outbox
            ∙ outbox-append t s.pending.outbox (outbox_row t e (p.pending.next_id + 1)) refl,
        ap (filter (λ (r : Tenant). not (r.id == t))) tables.tenants
            ∙ tenants-advance t (st.sale_number + 1) s.pending.tenants,
      )
