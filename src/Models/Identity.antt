-- ===== src/Models/Identity.antt =====
-- backend/app/modules/identity/models.py and backend/app/shared/tax_status.py.
-- Identifiers (UUIDs) and times are numbers; a password hash is the text that is stored.
use aurapro.Prelude.{ℕ, String, Bool, Option, List}
use aurapro.Models.Row.{Row}

pub data TaxStatus : Type 0 where
  responsable_inscripto monotributo exento : TaxStatus

pub data UserRole : Type 0 where
  admin vendedor viewer : UserRole

pub record Tenant : Type 0 where
  pub id : ℕ
  pub name : String
  pub is_active : Bool
  pub created_at : ℕ
  pub next_sale_number : ℕ
  pub next_quote_number : ℕ
  pub next_order_note_number : ℕ
  pub cuit : Option String
  pub address : Option String
  pub phone : Option String
  pub business_email : Option String
  pub tax_status : Option TaxStatus
  pub logo : Option (List ℕ)
  pub logo_content_type : Option String

pub record User : Type 0 where
  pub id : ℕ
  pub created_at : ℕ
  pub tenant_id : ℕ
  pub email : String
  pub hashed_password : String
  pub first_name : Option String
  pub last_name : Option String
  pub role : UserRole
  pub is_superadmin : Bool

pub record Invitation : Type 0 where
  pub id : ℕ
  pub created_at : ℕ
  pub tenant_id : ℕ
  pub email : String
  pub role : UserRole
  pub token : String
  pub invited_by_user_id : Option ℕ
  pub expires_at : ℕ
  pub accepted_at : Option ℕ

pub record PasswordReset : Type 0 where
  pub id : ℕ
  pub created_at : ℕ
  pub tenant_id : ℕ
  pub user_id : ℕ
  pub token : String
  pub expires_at : ℕ
  pub used_at : Option ℕ

instance abbrev pub user_row : Row User
user_row = record { id = λ u. u.id; created_at = λ u. u.created_at; tenant_id = λ u. u.tenant_id }

instance abbrev pub invitation_row : Row Invitation
invitation_row = record {
  id = λ i. i.id;
  created_at = λ i. i.created_at;
  tenant_id = λ i. i.tenant_id;
}

instance abbrev pub password_reset_row : Row PasswordReset
password_reset_row = record {
  id = λ r. r.id;
  created_at = λ r. r.created_at;
  tenant_id = λ r. r.tenant_id;
}
