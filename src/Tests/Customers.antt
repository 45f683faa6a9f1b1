-- ===== src/Tests/Customers.antt =====
-- The customers of the fixture's shop.
use aurapro.Prelude.{[], ◌∷◌, ℕ, ◌≡◌, refl, true, none, some}
use aurapro.Models.{Database}
use aurapro.Session.{opened, err}
use aurapro.Session.Errors.{Error}
use aurapro.Customers.{
  CustomerCreate, validate_salesperson, validate_customer_type, insert_customer, create_customer,
  get_customer, is_unused, delete_customer, type_fits, create_customer_type, delete_customer_type,
}
use aurapro.Customers.Links.{HasOwnLinks}
use aurapro.Customers.Life
use aurapro.Customers.Life.{own_links_stay}
use aurapro.Quotes.{QuoteCreate, create_quote}
use aurapro.Customers.Documents
use aurapro.Customers.Documents.{HasCustomers, documents_keep_customers}
use aurapro.Tests.Fixtures.{shop}

customer_code : ℕ
unfolding validate_salesperson validate_customer_type insert_customer create_customer get_customer
    is_unused delete_customer type_fits create_customer_type delete_customer_type
customer_code = 0

abbrev eva : CustomerCreate
eva = record {
  name = "Eva";
  email = none;
  phone = none;
  address = none;
  credit_limit = some 7000;
  default_salesperson_id = none;
  customer_type_id = some 10;
  cuit = none;
  tax_status = none;
}

-- Type 10 is not one of tenant 2's.
other_tenant : (create_customer 2 eva (opened 2 5 shop)).0 ≡ err Error.invalid_customer_type
unfolding customer_code
other_tenant = refl

duplicate :
    (create_customer_type 1
      (record { name = "Mayorista"; is_wholesale = true })
      (opened 1 5 shop)).0
    ≡ err Error.customer_type_duplicate_name
unfolding customer_code
duplicate = refl

-- Customer 20 has an order note.
in_use : (delete_customer 20 (opened 1 5 shop)).0 ≡ err Error.customer_in_use
unfolding customer_code
in_use = refl

abbrev with_eva : Database
with_eva = (create_customer 1 eva (opened 1 5 shop)).1.committed

abbrev without_type : Database
without_type = (delete_customer_type 10 (opened 1 6 with_eva)).1.committed

own_links_stay_example : HasOwnLinks 1 without_type
own_links_stay_example =
    own_links_stay 1 {d = shop} {d' = without_type} refl
      (Life.step (Life.creation 5 eva) (Life.step (Life.type_removal 6 10) Life.done))

-- Customer 21 asks for a quote, and cannot be deleted any more.
abbrev proposal : QuoteCreate
proposal = record {
  customer_id = 21;
  currency = "ARS";
  valid_until = none;
  items = record { product_id = 30; variant_id = none; quantity = 1 } ∷ [];
}

abbrev with_quote : Database
with_quote = (create_quote 1 proposal (opened 1 5 shop)).1.committed

abbrev kept : Database
kept = (delete_customer 21 (opened 1 6 with_quote)).1.committed

documents_keep_customers_example : HasCustomers kept
documents_keep_customers_example =
    documents_keep_customers 1 {d = shop} {d' = kept} (refl, refl, refl, refl)
      (Documents.step (Documents.quote 5 proposal)
        (Documents.step (Documents.request (Life.removal 6 21)) Documents.done))
