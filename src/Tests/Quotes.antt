-- ===== src/Tests/Quotes.antt =====
-- A quote of the fixture's shop.
use aurapro.Prelude.{ℕ, ◌≡◌, refl, none, some, [], ◌∷◌}
use aurapro.Models.{Database}
use aurapro.Models.Documents.{Quote, QuoteStatus}
use aurapro.Session.{Session, Result, opened, ok, err}
use aurapro.Session.Errors.{Error}
use aurapro.Pricing.{resolve_unit_price}
use aurapro.Sales.{load_customer_type}
use aurapro.OrderNotes.{check_variant, price_item, price_items}
use aurapro.Quotes.{
  QuoteCreate, assign_quote_number, quote_fits, insert_quote, prepare_quote, create_quote,
  get_quote, update_quote_status,
}
use aurapro.Quotes.Creation.{IsProposal, create_quote-IsProposal}
use aurapro.Quotes.Life
use aurapro.Quotes.Life.{quote_of, settled_quote}
use aurapro.Tests.Fixtures.{shop}

quote_code : ℕ
unfolding resolve_unit_price load_customer_type check_variant price_item price_items
    assign_quote_number quote_fits insert_quote prepare_quote create_quote get_quote
    update_quote_status
quote_code = 0

-- Two units at the wholesale price, and three of a variant.
abbrev proposal : QuoteCreate
proposal = record {
  customer_id = 20;
  currency = "ARS";
  valid_until = some 365;
  items =
      record { product_id = 30; variant_id = none; quantity = 2 }
      ∷ record { product_id = 31; variant_id = some 40; quantity = 3 }
      ∷ [];
}

abbrev quoted : Result Quote × Session
quoted = create_quote 1 proposal (opened 1 5 shop)

abbrev quote : Quote
quote = record {
  id = 100;
  created_at = 5;
  tenant_id = 1;
  customer_id = 20;
  total_amount = 3500;
  currency = "ARS";
  quote_number = 1;
  status = QuoteStatus.pending;
  valid_until = some 365;
  items =
      record { tenant_id = 1; product_id = 30; variant_id = none; quantity = 2; unit_price = 400 }
      ∷ record {
        tenant_id = 1;
        product_id = 31;
        variant_id = some 40;
        quantity = 3;
        unit_price = 900;
      }
      ∷ [];
}

quoting : quoted ≡ (ok quote, quoted.1)
unfolding quote_code
quoting = refl

create_quote-IsProposal_example :
    IsProposal 1 proposal (opened 1 5 shop) (create_quote 1 proposal (opened 1 5 shop))
create_quote-IsProposal_example = create_quote-IsProposal 1 proposal (opened 1 5 shop)

abbrev rejected : Database
rejected =
    (update_quote_status 100 QuoteStatus.rejected (opened 1 6 quoted.1.committed)).1.committed

abbrev accepted : Database
accepted = (update_quote_status 100 QuoteStatus.accepted (opened 1 7 rejected)).1.committed

refused :
    (update_quote_status 100 QuoteStatus.accepted (opened 1 7 rejected)).0
    ≡ err Error.quote_not_pending
unfolding quote_code
refused = refl

abbrev rejected_quote : Quote
rejected_quote = record quote { status = QuoteStatus.rejected }

there : quote_of 1 100 rejected ≡ some rejected_quote
unfolding quote_code
there = refl

settled_quote_example : quote_of 1 100 accepted ≡ some rejected_quote
settled_quote_example =
    settled_quote 1 100 rejected_quote {d = rejected} {d' = accepted} there refl
      (Life.step (Life.status_update 7 100 QuoteStatus.accepted) Life.done)
