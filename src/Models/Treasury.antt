-- ===== src/Models/Treasury.antt =====
-- backend/app/modules/treasury/models.py.
use aurapro.Prelude.{ℕ, String, Option}
use aurapro.Prelude.Int.{ℤ}
use aurapro.Models.Row.{Row}

pub data AccountMovementType : Type 0 where
  debit credit : AccountMovementType

pub record AccountMovement : Type 0 where
  pub id : ℕ
  pub created_at : ℕ
  pub tenant_id : ℕ
  pub customer_id : ℕ
  pub type : AccountMovementType
  pub amount : ℕ
  pub description : Option String
  pub sale_id : Option ℕ

pub data CashSessionStatus : Type 0 where
  opened closed : CashSessionStatus

pub record CashSession : Type 0 where
  pub id : ℕ
  pub created_at : ℕ
  pub tenant_id : ℕ
  pub opening_amount : ℕ
  pub opened_by_user_id : Option ℕ
  pub status : CashSessionStatus
  pub closed_at : Option ℕ
  pub closed_by_user_id : Option ℕ
  pub closing_amount_declared : Option ℕ
  pub closing_amount_expected : Option ℤ

pub data CashMovementType : Type 0 where
  income expense : CashMovementType

pub record CashMovement : Type 0 where
  pub id : ℕ
  pub created_at : ℕ
  pub tenant_id : ℕ
  pub cash_session_id : ℕ
  pub type : CashMovementType
  pub amount : ℕ
  pub description : Option String
  pub sale_id : Option ℕ

instance abbrev pub account_movement_row : Row AccountMovement
account_movement_row = record {
  id = λ m. m.id;
  created_at = λ m. m.created_at;
  tenant_id = λ m. m.tenant_id;
}

instance abbrev pub cash_session_row : Row CashSession
cash_session_row = record {
  id = λ s. s.id;
  created_at = λ s. s.created_at;
  tenant_id = λ s. s.tenant_id;
}

instance abbrev pub cash_movement_row : Row CashMovement
cash_movement_row = record {
  id = λ m. m.id;
  created_at = λ m. m.created_at;
  tenant_id = λ m. m.tenant_id;
}
