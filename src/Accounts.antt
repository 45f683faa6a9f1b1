-- ===== src/Accounts.antt =====
-- Registration, login and the platform's administration: `register_tenant` and `authenticate_user` of
-- backend/app/modules/identity/services.py, and backend/app/modules/admin/services.py. Their
-- sessions see every tenant: `get_async_db` adds no condition, nor does a superadmin's session.
pub mod Profile
pub mod Effects
pub mod Emails
pub mod Login
pub mod Suspension
use aurapro.Prelude.{
  sum_by, ℕ, String, Bool, true, false, not, Option, none, List, [], ◌∷◌, ◌++◌, ◌==◌, if◌then◌else◌,
  map, find, filter, length, sum_by, is_some,
}
use aurapro.Models.{Database}
use aurapro.Models.Identity.{Tenant, User, UserRole, user_row}
use aurapro.Query.{loaded}
use aurapro.Models.Documents.{Sale}
use aurapro.Session.{
  Exec, pure, gets, or_raise, ◌>>=◌, ◌>>◌, raise_if, modify, commit, fresh_id, scalar_one_or_none,
}
use aurapro.Session.Errors.{Error}
use aurapro.PasswordResets.{with_email}

-- `Tenant` has no owner, so that no session adds a condition to its queries.
abbrev pub find_tenant : ℕ → Database → Option Tenant
find_tenant k d = find (λ (t : Tenant). t.id == k) d.tenants

abbrev pub update_tenant : ℕ → (Tenant → Tenant) → Database → Database
update_tenant k f d = record d {
  tenants = map (λ (t : Tenant). if t.id == k then f t else t) d.tenants;
}

-- The check that opens `register_tenant`, and that `create_invitation` and `accept_invitation` have
-- too: the address is no user's of any tenant. `create_invitation`, whose session is a tenant's,
-- marks its query with `skip_tenant_filter`.
unfoldable pub check_email : Bool → String → Exec (Unit {0})
check_email skip_tenant_filter email = do
  found ← gets (λ s. with_email email (loaded skip_tenant_filter s.scope s.pending.users))
  existing ← scalar_one_or_none found
  raise_if (is_some existing) Error.email_already_registered

abbrev pub is_taken : List User → Bool
is_taken [] = false
is_taken (u ∷ rest) = true

-- `db.add(user)`, whose address is unique over all tenants
unfoldable pub insert_user : User → Exec (Unit {0})
insert_user user = do
  same ← gets (λ s. with_email user.email s.pending.users)
  raise_if (is_taken same) Error.integrity_error
  modify (λ d. record d { users = d.users ++ user ∷ [] })

abbrev pub new_tenant : ℕ → ℕ → String → Tenant
new_tenant id now name = record {
  id = id;
  name = name;
  is_active = true;
  created_at = now;
  next_sale_number = 1;
  next_quote_number = 1;
  next_order_note_number = 1;
  cuit = none;
  address = none;
  phone = none;
  business_email = none;
  tax_status = none;
  logo = none;
  logo_content_type = none;
}

abbrev pub new_user : ℕ → ℕ → ℕ → String → String → UserRole → User
new_user id now tenant_id email hashed_password role = record {
  id = id;
  created_at = now;
  tenant_id = tenant_id;
  email = email;
  hashed_password = hashed_password;
  first_name = none;
  last_name = none;
  role = role;
  is_superadmin = false;
}

unfoldable pub insert_tenant : String → Exec Tenant
insert_tenant name = do
  id ← fresh_id
  now ← gets (λ s. s.now)
  modify (λ d. record d { tenants = d.tenants ++ new_tenant id now name ∷ [] })
  pure (new_tenant id now name)

-- A summary of a tenant, as `TenantSummary` of backend/app/modules/admin/schemas.py.
pub record TenantSummary : Type 0 where
  pub id : ℕ
  pub name : String
  pub created_at : ℕ
  pub user_count : ℕ
  pub is_active : Bool

abbrev pub summary_of : Tenant → ℕ → TenantSummary
summary_of tenant count = record {
  id = tenant.id;
  name = tenant.name;
  created_at = tenant.created_at;
  user_count = count;
  is_active = tenant.is_active;
}

-- `hash_password` is bcrypt's, with the salt that it draws in this request.
module _ (hash_password : String → String) where
  unfoldable pub register_tenant : String → String → String → Exec (Tenant × User)
  register_tenant tenant_name admin_email admin_password = do
    check_email false admin_email
    tenant ← insert_tenant tenant_name
    id ← fresh_id
    now ← gets (λ s. s.now)
    let user = new_user id now tenant.id admin_email (hash_password admin_password) UserRole.admin
    insert_user user
    commit
    pure (tenant, user)

  unfoldable pub create_tenant_as_admin : String → String → String → Exec TenantSummary
  create_tenant_as_admin tenant_name admin_email admin_password = do
    registered ← register_tenant tenant_name admin_email admin_password
    pure (summary_of registered.0 1)

-- `if not user.tenant.is_active`
unfoldable pub check_active : User → Exec User
check_active user = do
  found ← gets (λ s. find_tenant user.tenant_id s.pending)
  tenant ← or_raise found Error.attribute_error
  raise_if (not tenant.is_active) Error.tenant_suspended
  pure user

-- `verify_password` is bcrypt's.
module _ (verify_password : String → String → Bool) where
  unfoldable pub authenticate_user : String → String → Exec User
  authenticate_user email password = do
    found ← gets (λ s. with_email email s.pending.users)
    row ← scalar_one_or_none found
    user ← or_raise row Error.invalid_credentials
    raise_if (not (verify_password password user.hashed_password)) Error.invalid_credentials
    check_active user

abbrev pub user_count : ℕ → Database → ℕ
user_count k d = length (filter (λ (u : User). u.tenant_id == k) d.users)

abbrev pub with_active : Bool → Tenant → Tenant
with_active is_active t = record t { is_active = is_active }

unfoldable pub set_tenant_active : ℕ → Bool → Exec TenantSummary
set_tenant_active tenant_id is_active = do
  found ← gets (λ s. find_tenant tenant_id s.pending)
  tenant ← or_raise found Error.tenant_not_found
  modify (update_tenant tenant.id (with_active is_active))
  commit
  count ← gets (λ s. user_count tenant_id s.pending)
  pure (summary_of (with_active is_active tenant) count)

pub record GlobalStats : Type 0 where
  pub total_tenants : ℕ
  pub total_users : ℕ
  pub total_products : ℕ
  pub total_customers : ℕ
  pub total_sales : ℕ
  pub total_revenue : ℕ

unfoldable pub get_global_stats : Exec GlobalStats
get_global_stats = gets λ s. record {
  total_tenants = length s.pending.tenants;
  total_users = length s.pending.users;
  total_products = length s.pending.products;
  total_customers = length s.pending.customers;
  total_sales = length s.pending.sales;
  total_revenue = sum_by (λ (x : Sale). x.total_amount) s.pending.sales;
}
