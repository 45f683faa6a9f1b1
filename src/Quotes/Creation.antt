-- ===== src/Quotes/Creation.antt =====
-- What `create_quote` commits, and what it leaves alone.
use aurapro.Prelude.{
  ℕ, ◌+◌, ◌≡◌, refl, ◌∙◌, ap, sym, Option, some, [], ◌∷◌, ◌++◌, arith, sum_by, map, inl, inr,
  Option-cases, Bool-cases, subst, true,
}
use aurapro.Models.{Database}
use aurapro.Models.Identity.{Tenant}
use aurapro.Models.Customers.{Customer, CustomerType, customer_row}
use aurapro.Models.Documents.{Quote, QuoteItem}
use aurapro.Session.{Session, Result, ok, err}
use aurapro.Session.Rules.{IsUncommitted, uncommitted_rules, Result-cases}
use aurapro.Query.{find_by_id}
use aurapro.Query.Laws.{find_by_id_sound}
use aurapro.Sales.{load_customer_type}
use aurapro.Sales.Atomicity.{load_customer_type-IsUncommitted}
use aurapro.Sales.Effects.{tenant_of}
use aurapro.Sales.Steps.{load_customer_type-same}
use aurapro.Sales.Stock.{quoted}
use aurapro.OrderNotes.{Draft, empty_draft, price_items}
use aurapro.OrderNotes.Lines.{PricedAll, price_items-PricedAll, line_total, requested}
use aurapro.OrderNotes.Rules.{price_items-IsUncommitted}
use aurapro.Quotes.{
  create_quote, QuoteItemCreate, QuoteCreate, advance_quotes, assign_quote_number, quote_fits,
  new_quote, insert_quote, prepare_quote,
}

-- The data once the quote is there and the tenant's counter of quotes is past it: all other tables
-- are as they were.
abbrev pub with_quote : ℕ → Quote → Database → Database
with_quote t quote d = record d {
  next_id = d.next_id + 1;
  tenants = advance_quotes t (quote.quote_number + 1) d.tenants;
  quotes = d.quotes ++ quote ∷ [];
}

module _ (t : ℕ) (payload : QuoteCreate) (s : Session) where
  -- What a quote is made of.
  pub record Proposed (quote : Quote) : Type 0 where
    pub customer : Customer
    pub customer_type : Option CustomerType
    pub tenant : Tenant
    pub draft : Draft
    pub found : find_by_id s.scope payload.customer_id s.pending.customers ≡ some customer
    pub typed : load_customer_type customer s ≡ (ok customer_type, s)
    pub counted : tenant_of t s.pending.tenants ≡ some tenant
    pub row :
        quote
        ≡ new_quote s.pending.next_id s.now t payload.customer_id payload tenant.next_quote_number
            draft
    pub requests : map requested quote.items ≡ payload.items
    pub prices :
        map (λ (i : QuoteItem). some i.unit_price) quote.items
        ≡ map (λ (i : QuoteItemCreate). quoted s customer_type i.product_id) payload.items
    pub total : quote.total_amount ≡ sum_by line_total quote.items

  abbrev priced_row : Customer → Tenant → Draft → Quote
  priced_row customer tenant draft =
      new_quote s.pending.next_id s.now t customer.id payload tenant.next_quote_number draft

  prepare_quote-runs :
      (customer : Customer) (ct : Option CustomerType) (draft : Draft) (tenant : Tenant)
      → find_by_id s.scope payload.customer_id s.pending.customers ≡ some customer
      → load_customer_type customer s ≡ (ok ct, s)
      → price_items t ct payload.items empty_draft s ≡ (ok draft, s)
      → tenant_of t s.pending.tenants ≡ some tenant
      → quote_fits (priced_row customer tenant draft) s.pending.quotes ≡ true
      → prepare_quote t payload s ≡ (
        ok (priced_row customer tenant draft),
        record s { pending = with_quote t (priced_row customer tenant draft) s.pending },
      )
  unfolding prepare_quote assign_quote_number insert_quote
  prepare_quote-runs customer ct draft tenant found typed priced counted fits =
      rw found (rw typed (rw priced (rw counted (rw fits refl))))

  Ended : Result Quote × Session → Type 0
  Ended (err e, s') = Unit
  Ended (ok quote, s') = Proposed quote × (s'.pending ≡ with_quote t quote s.pending)

  -- The numbering and the row, after the loop.
  prepare_quote-priced :
      (customer : Customer) (ct : Option CustomerType) (draft : Draft)
      → find_by_id s.scope payload.customer_id s.pending.customers ≡ some customer
      → load_customer_type customer s ≡ (ok ct, s)
      → price_items t ct payload.items empty_draft s ≡ (ok draft, s)
      → PricedAll t ct payload.items empty_draft s draft s
      → Ended (prepare_quote t payload s)
  unfolding prepare_quote assign_quote_number insert_quote Ended
  prepare_quote-priced customer ct draft found typed priced all =
      let buyer =
        (find_by_id_sound s.scope payload.customer_id s.pending.customers customer found).0 in
      elim (Option-cases (tenant_of t s.pending.tenants)) [
        | inl absent ↦ rw found (rw typed (rw priced (rw absent tt)))
        | inr (tenant, counted) ↦
            elim (Bool-cases (quote_fits (priced_row customer tenant draft) s.pending.quotes)) [
              | inr not_fits ↦ rw found (rw typed (rw priced (rw counted (rw not_fits tt))))
              | inl fits ↦
                  subst Ended
                    (sym
                      (prepare_quote-runs customer ct draft tenant found typed priced counted fits))
                    (
                      record {
                        customer = customer;
                        customer_type = ct;
                        tenant = tenant;
                        draft = draft;
                        found = found;
                        typed = typed;
                        counted = counted;
                        row = rw buyer refl;
                        requests = ap (map requested) all.note_items ∙ all.requests;
                        prices =
                            ap (map (λ (i : QuoteItem). some i.unit_price)) all.note_items
                            ∙ all.prices;
                        total =
                            all.total ∙ omega arith ∙ ap (sum_by line_total) (sym all.note_items);
                      },
                      refl,
                    )
            ]
      ]

  prepare_quote-Ended : Ended (prepare_quote t payload s)
  unfolding prepare_quote Ended
  prepare_quote-Ended =
      elim (Option-cases (find_by_id s.scope payload.customer_id s.pending.customers)) [
        | inl absent ↦ rw absent tt
        | inr (customer, found) ↦ elim (Result-cases (load_customer_type customer s)) [
          | inr (e, s1, failed) ↦ rw found (rw failed tt)
          | inl (ct, s1, typed) ↦
              let here = load_customer_type-same customer s (ok ct) s1 typed in
              let typed' : load_customer_type customer s ≡ (ok ct, s) =
                typed ∙ ap (λ (z : Session). (ok ct, z)) here in
              elim (Result-cases (price_items t ct payload.items empty_draft s)) [
                | inr (e, s2, failed) ↦ rw found (rw typed' (rw failed tt))
                | inl (draft, s2, ran) ↦
                    let all = price_items-PricedAll t ct payload.items empty_draft s draft s2 ran in
                    prepare_quote-priced customer ct draft found typed'
                      (ran ∙ ap (λ (z : Session). (ok draft, z)) all.same)
                      (subst (PricedAll t ct payload.items empty_draft s draft) all.same all)
              ]
        ]
      ]

assign_quote_number-IsUncommitted : (t : ℕ) → IsUncommitted (assign_quote_number t)
unfolding assign_quote_number
assign_quote_number-IsUncommitted t = search uncommitted_rules depth 9

insert_quote-IsUncommitted :
    (t c : ℕ) (payload : QuoteCreate) (n : ℕ) (draft : Draft)
    → IsUncommitted (insert_quote t c payload n draft)
unfolding insert_quote
insert_quote-IsUncommitted t c payload n draft = search uncommitted_rules depth 9

prepare_quote-IsUncommitted :
    (t : ℕ) (payload : QuoteCreate) → IsUncommitted (prepare_quote t payload)
unfolding prepare_quote
prepare_quote-IsUncommitted t payload =
    search
      (
        uncommitted_rules, load_customer_type-IsUncommitted, price_items-IsUncommitted,
        assign_quote_number-IsUncommitted, insert_quote-IsUncommitted,
      )
      depth 12

-- What the request leaves committed: on an error what was there before, else what the transaction
-- saw at its beginning, with one quote more.
abbrev pub IsProposal : ℕ → QuoteCreate → Session → Result Quote × Session → Type 0
IsProposal t payload s (err e, s') = s'.committed ≡ s.committed
IsProposal t payload s (ok quote, s') =
    Proposed t payload s quote × (s'.committed ≡ with_quote t quote s.pending)

-- A quote is a proposal only. If `create_quote` raises, the committed data is what it was. If it
-- returns, the committed data is what the session saw, with the quote appended and the tenant's
-- counter of quotes past its number, so that stock, accounts, cash, sales and the outbox are as they
-- were. The quote is pending and of the request's customer, it has the counter's number, its lines
-- answer the request one for one and in order at the catalogue's prices for the customer's type,
-- and its total is the sum of price times quantity.
pub create_quote-IsProposal :
    (tenant_id : ℕ) (payload : QuoteCreate) (s : Session)
    → IsProposal tenant_id payload s (create_quote tenant_id payload s)
unfolding create_quote Ended
create_quote-IsProposal t payload s = elim (Result-cases (prepare_quote t payload s)) [
  | inr (e, s', h) ↦ rw h (
      subst (λ (z : Result Quote × Session). z.1.committed ≡ s.committed) h
        ((prepare_quote-IsUncommitted t payload).committed s))
  | inl (quote, s', h) ↦ rw h (subst (Ended t payload s) h (prepare_quote-Ended t payload s))
]
