-- ===== src/Sales/Posting.antt =====
-- What a created sale records: its lines, the units it takes, its row, and its event.
use aurapro.Prelude.{
  ℕ, ◌+◌, ◌≡◌, refl, ◌∙◌, ap, sym, Option, some, [], ◌∷◌, ◌++◌, arith, map, sum_by, All,
}
use aurapro.Models.{Database}
use aurapro.Models.Customers.{Customer, CustomerType, customer_row}
use aurapro.Models.Documents.{Sale, SaleItem, OutboxEvent}
use aurapro.Session.{Session, ok}
use aurapro.Query.{find_by_id}
use aurapro.Sales.{load_customer_type, create_sale}
use aurapro.Sales.Schemas.{SaleCreate, SaleItemCreate}
use aurapro.Sales.Stock.{product_stock, variant_stock, product_units, variant_units, quoted}
use aurapro.Sales.Lines.{line_total, requested, told, heard}
use aurapro.Sales.Effects.{event_of, outbox_row}
use aurapro.Sales.Trail.{Trail, create_sale-Trail, Tables, Trail-Tables}

-- The sale's lines answer the request one for one and in order, at the catalogue's prices for the
-- customer's type, and add up to its total.
abbrev pub AnswersRequest : ℕ → SaleCreate → Session → Sale → Type 0
AnswersRequest t payload s sale =
    (customer : Customer) × (customer_type : Option CustomerType) × (find_by_id s.scope
        payload.customer_id s.pending.customers
      ≡ some customer)
    × (load_customer_type customer s ≡ (ok customer_type, s))
    × (map requested sale.items ≡ payload.items)
    × (map (λ (i : SaleItem). some i.unit_price) sale.items
        ≡ map (λ (i : SaleItemCreate). quoted s customer_type i.product_id) payload.items)
    × (sale.total_amount ≡ sum_by line_total sale.items)
    × All (λ (i : SaleItem). i.tenant_id ≡ t) sale.items

-- The sale and one event that tells of it are committed.
abbrev pub RecordsEvent : ℕ → Session → Sale → Session → Type 0
RecordsEvent t s sale s' =
    (row : OutboxEvent) × (s'.committed.outbox ≡ s.pending.outbox ++ row ∷ [])
    × (s'.committed.sales ≡ s.pending.sales ++ sale ∷ [])
    × (row.aggregate_id ≡ t)
    × (row.payload.tenant_id ≡ t)
    × (row.event_type ≡ "VentaRealizada")
    × (row.status ≡ "PENDING")
    × (map heard row.payload.product_details ≡ map told sale.items)
    × (row.payload.amount ≡ sale.total_amount)
    × (row.payload.currency ≡ sale.currency)

module _ (t : ℕ) (payload : SaleCreate) (s : Session) (sale : Sale) (s' : Session)
    (created : create_sale t payload s ≡ (ok sale, s')) where
  trail : Trail t payload s sale s'
  trail = create_sale-Trail t payload s sale s' created

  tables : Tables t payload s sale s' trail
  tables = Trail-Tables t payload s sale s' trail

  -- Units are conserved: for every product and every variant, the stock before a sale that
  -- succeeds is the stock after it and the units that its lines ask of that product itself, or of
  -- that variant, also where several lines ask for the same one.
  pub create_sale-stock :
      (k : ℕ)
      → (product_stock s k ≡ product_stock s' k + sum_by (product_units k) payload.items)
        × (variant_stock s k ≡ variant_stock s' k + sum_by (variant_units k) payload.items)
  create_sale-stock k =
      let same = trail.lines.takes.same in
      let p = tables.products in
      let v = tables.variants in
      let c = tables.scope in
      (
        trail.lines.takes.products k ∙ ap (λ n. n + sum_by (product_units k) payload.items) cc,
        trail.lines.takes.variants k ∙ ap (λ n. n + sum_by (variant_units k) payload.items) cc,
      )

  -- The lines of a sale that succeeds answer its request one for one and in order, with the
  -- request's products, variants and quantities. Each line's price is the catalogue's for the
  -- customer's type, at the time of the sale, and the total is the sum of price times quantity.
  pub create_sale-lines : AnswersRequest t payload s sale
  create_sale-lines =
      let items : sale.items ≡ trail.lines.lines =
        ap (λ (r : Sale). r.items) trail.inserted.row ∙ trail.lines.sale_items in
      (
        trail.steps.customer,
        trail.steps.customer_type,
        trail.steps.found,
        trail.steps.typed,
        rw items trail.lines.requests,
        rw items trail.lines.prices,
        rw items (
            ap (λ (r : Sale). r.total_amount) trail.inserted.row ∙ trail.lines.total ∙ omega arith),
        rw items trail.lines.owners,
      )

  -- A sale that succeeds appends one event to the outbox and commits it together with the sale's
  -- own row. The event is pending, stands under the tenant, and tells the product, the quantity
  -- and the price of every line of the sale in order, its total and its currency.
  pub create_sale-event : RecordsEvent t s sale s'
  create_sale-event =
      let p = trail.steps.paid in
      let e = event_of t payload.currency trail.steps.cart p.pending.next_id p.now in
      let items : sale.items ≡ trail.lines.lines =
        ap (λ (r : Sale). r.items) trail.inserted.row ∙ trail.lines.sale_items in
      (
        outbox_row t e (p.pending.next_id + 1),
        ap (λ (d : Database). d.outbox) tables.committed ∙ tables.outbox,
        ap (λ (d : Database). d.sales) tables.committed ∙ tables.sales,
        refl,
        refl,
        refl,
        refl,
        rw items (ap (map heard) trail.lines.product_details ∙ trail.lines.news),
        sym (ap (λ (r : Sale). r.total_amount) trail.inserted.row),
        sym (ap (λ (r : Sale). r.currency) trail.inserted.row),
      )
