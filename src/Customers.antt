-- ===== src/Customers.antt =====
-- backend/app/modules/customers/services.py: customers, and the types that tenants sort them by.
pub mod Links
pub mod Changes
pub mod Life
pub mod Documents
use aurapro.Prelude.{
  ℕ, String, Bool, true, not, ◌&&◌, Option, none, some, List, [], ◌∷◌, ◌++◌, ltb, str_eq, ◌==◌,
  if◌then◌else◌, map, all, is_some,
}
use aurapro.Models.{Database}
use aurapro.Models.Identity.{TaxStatus, user_row}
use aurapro.Models.Customers.{Customer, CustomerType, customer_row, customer_type_row}
use aurapro.Models.Documents.{Sale, Quote, OrderNote}
use aurapro.Models.Treasury.{AccountMovement}
use aurapro.Patch.{set_field, set_value, sets_null}
use aurapro.Session.{
  Exec, pure, gets, or_raise, ◌>>=◌, ◌>>◌, raise_if, modify, commit, commit_or_rescue, fresh_id,
}
use aurapro.Session.Errors.{Error}
use aurapro.Query.{select_by_id, update_by_id, delete_by_id}
use aurapro.Users.{clear_reference}
use aurapro.Treasury.{numeric_limit}

pub record CustomerCreate : Type 0 where
  pub name : String
  pub email : Option String
  pub phone : Option String
  pub address : Option String
  pub credit_limit : Option ℕ
  pub default_salesperson_id : Option ℕ
  pub customer_type_id : Option ℕ
  pub cuit : Option String
  pub tax_status : Option TaxStatus

-- A field that is not set is `none`; one that is set to null is `some none`.
pub record CustomerUpdate : Type 0 where
  pub name : Option (Option String)
  pub email : Option (Option String)
  pub phone : Option (Option String)
  pub address : Option (Option String)
  pub credit_limit : Option (Option ℕ)
  pub default_salesperson_id : Option (Option ℕ)
  pub customer_type_id : Option (Option ℕ)
  pub cuit : Option (Option String)
  pub tax_status : Option (Option TaxStatus)

pub record CustomerTypeCreate : Type 0 where
  pub name : String
  pub is_wholesale : Bool

unfoldable pub validate_salesperson : Option ℕ → Exec (Unit {0})
validate_salesperson none = pure tt
validate_salesperson (some user_id) = do
  found ← select_by_id (λ d. d.users) user_id
  raise_if (not (is_some found)) Error.invalid_salesperson

unfoldable pub validate_customer_type : Option ℕ → Exec (Unit {0})
validate_customer_type none = pure tt
validate_customer_type (some customer_type_id) = do
  found ← select_by_id (λ d. d.customer_types) customer_type_id
  raise_if (not (is_some found)) Error.invalid_customer_type

-- The range of the column `credit_limit`.
abbrev pub limit_fits : Option ℕ → Bool
limit_fits none = true
limit_fits (some limit) = ltb limit numeric_limit

abbrev pub new_customer : ℕ → ℕ → ℕ → CustomerCreate → Customer
new_customer id now tenant_id payload = record {
  id = id;
  created_at = now;
  tenant_id = tenant_id;
  name = payload.name;
  email = payload.email;
  phone = payload.phone;
  address = payload.address;
  credit_limit = payload.credit_limit;
  default_salesperson_id = payload.default_salesperson_id;
  customer_type_id = payload.customer_type_id;
  cuit = payload.cuit;
  tax_status = payload.tax_status;
}

-- `db.add(customer)` and the commit, which nothing catches
unfoldable pub insert_customer : Customer → Exec (Unit {0})
insert_customer customer = do
  raise_if (not (limit_fits customer.credit_limit)) Error.integrity_error
  modify (λ d. record d { customers = d.customers ++ customer ∷ [] })
  commit

unfoldable pub create_customer : ℕ → CustomerCreate → Exec Customer
create_customer tenant_id payload = do
  validate_salesperson payload.default_salesperson_id
  validate_customer_type payload.customer_type_id
  id ← fresh_id
  now ← gets (λ s. s.now)
  insert_customer (new_customer id now tenant_id payload)
  pure (new_customer id now tenant_id payload)

unfoldable pub get_customer : ℕ → Exec Customer
get_customer customer_id = do
  found ← select_by_id (λ d. d.customers) customer_id
  or_raise found Error.customer_not_found

-- The customer's new columns.
abbrev pub update_of : CustomerUpdate → Customer → Customer
update_of payload c = record c {
  name = set_value payload.name c.name;
  email = set_field payload.email c.email;
  phone = set_field payload.phone c.phone;
  address = set_field payload.address c.address;
  credit_limit = set_field payload.credit_limit c.credit_limit;
  default_salesperson_id = set_field payload.default_salesperson_id c.default_salesperson_id;
  customer_type_id = set_field payload.customer_type_id c.customer_type_id;
  cuit = set_field payload.cuit c.cuit;
  tax_status = set_field payload.tax_status c.tax_status;
}

-- The checks of the fields that the request sets; one that is not set is not checked.
unfoldable pub validate_links : CustomerUpdate → Exec (Unit {0})
validate_links payload = do
  validate_salesperson (set_field payload.default_salesperson_id none)
  validate_customer_type (set_field payload.customer_type_id none)

-- The column `name` takes no null.
unfoldable pub write_customer : CustomerUpdate → Customer → Exec Customer
write_customer payload customer = do
  raise_if (sets_null payload.name) Error.integrity_error
  raise_if (not (limit_fits (update_of payload customer).credit_limit)) Error.integrity_error
  modify (λ d. record d { customers = update_by_id customer.id (update_of payload) d.customers })
  commit
  pure (update_of payload customer)

unfoldable pub update_customer : ℕ → CustomerUpdate → Exec Customer
update_customer customer_id payload = do
  customer ← get_customer customer_id
  validate_links payload
  write_customer payload customer

-- No sale, quote, order note or movement of an account is the customer's: each of these foreign keys
-- restricts the deletion.
unfoldable pub is_unused : ℕ → Database → Bool
is_unused k d =
    all (λ (s : Sale). not (s.customer_id == k)) d.sales
    && all (λ (q : Quote). not (q.customer_id == k)) d.quotes
    && all (λ (n : OrderNote). not (n.customer_id == k)) d.order_notes
    && all (λ (m : AccountMovement). not (m.customer_id == k)) d.account_movements

unfoldable pub delete_customer : ℕ → Exec (Unit {0})
delete_customer customer_id = do
  customer ← get_customer customer_id
  free ← gets (λ s. is_unused customer.id s.pending)
  commit_or_rescue free Error.customer_in_use
      λ d. record d { customers = delete_by_id customer.id d.customers }

abbrev pub new_customer_type : ℕ → ℕ → ℕ → CustomerTypeCreate → CustomerType
new_customer_type id now tenant_id payload = record {
  id = id;
  created_at = now;
  tenant_id = tenant_id;
  name = payload.name;
  is_wholesale = payload.is_wholesale;
}

-- A tenant's types have different names.
unfoldable pub type_fits : CustomerType → List CustomerType → Bool
type_fits new types =
    all (λ (c : CustomerType). not (c.tenant_id == new.tenant_id && str_eq c.name new.name)) types

unfoldable pub create_customer_type : ℕ → CustomerTypeCreate → Exec CustomerType
create_customer_type tenant_id payload = do
  id ← fresh_id
  s ← gets (λ s. s)
  let customer_type = new_customer_type id s.now tenant_id payload
  commit_or_rescue (type_fits customer_type s.pending.customer_types)
      Error.customer_type_duplicate_name
      λ d. record d { customer_types = d.customer_types ++ customer_type ∷ [] }
  pure customer_type

-- `ondelete="SET NULL"`
abbrev pub clear_type : ℕ → Customer → Customer
clear_type k c = record c { customer_type_id = clear_reference k c.customer_type_id }

unfoldable pub delete_customer_type : ℕ → Exec (Unit {0})
delete_customer_type customer_type_id = do
  found ← select_by_id (λ d. d.customer_types) customer_type_id
  customer_type ← or_raise found Error.customer_type_not_found
  modify λ d. record d {
    customer_types = delete_by_id customer_type.id d.customer_types;
    customers = map (clear_type customer_type.id) d.customers;
  }
  commit
