-- ===== src/Tests/Accounts.antt =====
-- A new organization, its login, and its suspension.
use aurapro.Prelude.{[], ◌∷◌, none, some, ℕ, ◌≡◌, refl, String, true, false, some, str_eq}
use text.Mathlib.TextEquality.{eq_iff}
use aurapro.Models.{Database}
use aurapro.Models.Identity.{Tenant, User, UserRole}
use aurapro.Session.{Session, Result, ok, err}
use aurapro.Session.Errors.{Error}
use aurapro.PasswordResets.{with_email}
use aurapro.PasswordResets.Once.{opened_unscoped}
use aurapro.Requests.{get_tenant_db}
use aurapro.Accounts.{
  TenantSummary, find_tenant, check_email, insert_user, insert_tenant, register_tenant,
  create_tenant_as_admin, check_active, authenticate_user, set_tenant_active, get_global_stats,
}
use aurapro.Accounts.Profile.{
  TenantProfileUpdate, get_tenant, update_tenant_profile, set_tenant_logo,
}
use aurapro.Accounts.Login.{register_tenant_login}
use aurapro.Accounts.Suspension.{IsLockedOut, set_tenant_active-IsLockedOut}
use aurapro.Tests.Fixtures.{shop}

account_code : ℕ
unfolding with_email check_email insert_user insert_tenant register_tenant create_tenant_as_admin
    check_active authenticate_user set_tenant_active get_global_stats get_tenant_db get_tenant
    update_tenant_profile set_tenant_logo
account_code = 0

abbrev hash : String → String
hash password = password

register_tenant_login_example :
    (t : Tenant) × (u : User) × (d' : Database) × (register_tenant hash "Kiosco" "eva@aurapro"
        "12345678"
        (opened_unscoped 5 shop)
      ≡ (ok (t, u), opened_unscoped 5 d'))
    × (find_tenant t.id d' ≡ some t)
    × (u.tenant_id ≡ t.id)
    × (u.role ≡ UserRole.admin)
    × (authenticate_user str_eq "eva@aurapro" "12345678" (opened_unscoped 6 d')
        ≡ (ok u, opened_unscoped 6 d'))
unfolding account_code
register_tenant_login_example =
    register_tenant_login hash str_eq "Kiosco" "eva@aurapro" "12345678" 5 6 shop
      (λ p. (eq_iff p p).1 refl) refl refl

-- The same address again, for another organization.
twice :
    (register_tenant hash "Otro" "eva@aurapro" "x"
      (register_tenant hash "Kiosco" "eva@aurapro" "12345678" (opened_unscoped 5 shop)).1).0
    ≡ err Error.email_already_registered
unfolding account_code
twice = refl

as_admin :
    (create_tenant_as_admin hash "Kiosco" "eva@aurapro" "12345678" (opened_unscoped 5 shop)).0
    ≡ ok (record { id = 100; name = "Kiosco"; created_at = 5; user_count = 1; is_active = true })
unfolding account_code
as_admin = refl

stats :
    (get_global_stats (opened_unscoped 5 shop)).0
    ≡ ok (record {
      total_tenants = 2;
      total_users = 0;
      total_products = 2;
      total_customers = 2;
      total_sales = 0;
      total_revenue = 0;
    })
unfolding account_code
stats = refl

abbrev suspended : Result TenantSummary × Session
suspended = set_tenant_active 1 false (opened_unscoped 7 shop)

abbrev summary : TenantSummary
summary = record { id = 1; name = "Tienda"; created_at = 0; user_count = 0; is_active = false }

suspending : suspended ≡ (ok summary, suspended.1)
unfolding account_code
suspending = refl

set_tenant_active-IsLockedOut_example : IsLockedOut 1 shop suspended.1.committed
set_tenant_active-IsLockedOut_example =
    set_tenant_active-IsLockedOut 1 7 shop summary suspended.1 suspending

abbrev no_name : TenantProfileUpdate
no_name = record {
  name = some none;
  cuit = none;
  address = none;
  phone = none;
  business_email = none;
  tax_status = none;
}

-- A null for the name ends in an unhandled error.
null_name : (update_tenant_profile 1 no_name (opened_unscoped 5 shop)).0 ≡ err Error.integrity_error
unfolding account_code
null_name = refl

svg :
    (set_tenant_logo 1 (1 ∷ []) "image/svg+xml" (opened_unscoped 5 shop)).0
    ≡ err Error.unsupported_logo_type
unfolding account_code
svg = refl
