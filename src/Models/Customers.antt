-- ===== src/Models/Customers.antt =====
-- backend/app/modules/customers/models.py. Amounts of money are whole cents (`Numeric(12, 2)`).
use aurapro.Prelude.{ℕ, String, Bool, Option}
use aurapro.Models.Row.{Row}
use aurapro.Models.Identity.{TaxStatus}

pub record CustomerType : Type 0 where
  pub id : ℕ
  pub created_at : ℕ
  pub tenant_id : ℕ
  pub name : String
  pub is_wholesale : Bool

pub record Customer : Type 0 where
  pub id : ℕ
  pub created_at : ℕ
  pub tenant_id : ℕ
  pub name : String
  pub email : Option String
  pub phone : Option String
  pub address : Option String
  pub credit_limit : Option ℕ
  pub default_salesperson_id : Option ℕ
  pub customer_type_id : Option ℕ
  pub cuit : Option String
  pub tax_status : Option TaxStatus

instance abbrev pub customer_type_row : Row CustomerType
customer_type_row = record {
  id = λ t. t.id;
  created_at = λ t. t.created_at;
  tenant_id = λ t. t.tenant_id;
}

instance abbrev pub customer_row : Row Customer
customer_row = record {
  id = λ c. c.id;
  created_at = λ c. c.created_at;
  tenant_id = λ c. c.tenant_id;
}
