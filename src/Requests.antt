-- ===== src/Requests.antt =====
-- The session of a request: `get_tenant_db` of backend/app/db/tenant_session.py. The middleware has
-- taken the tenant and the superadmin's flag from the request's token.
pub mod Scope
use aurapro.Prelude.{ℕ, Bool, true, false, Option, none, some, ◌==◌, if◌then◌else◌, find}
use aurapro.Models.{Database}
use aurapro.Models.Identity.{Tenant}
use aurapro.Session.{Session, opened, Result, ok, err}
use aurapro.Session.Errors.{Error}

-- `if not is_active`, for the column of the tenant's row or `None`
abbrev pub is_active : Option Tenant → Bool
is_active none = false
is_active (some t) = t.is_active

unfoldable pub get_tenant_db : Option ℕ → Bool → ℕ → Database → Result Session
get_tenant_db none is_superadmin now d = err Error.not_authenticated
get_tenant_db (some t) true now d = ok (record (opened t now d) { scope = none })
get_tenant_db (some t) false now d =
    if is_active (find (λ (x : Tenant). x.id == t) d.tenants)
    then ok (opened t now d)
    else err Error.organization_suspended
