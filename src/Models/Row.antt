-- ===== src/Models/Row.antt =====
-- The mixin of backend/app/shared/tenant_model.py: what every table of a tenant's data has.
use aurapro.Prelude.{ℕ}

pub record Row (A : Type 0) : Type 0 where
  pub id : A → ℕ
  pub created_at : A → ℕ
  pub tenant_id : A → ℕ
