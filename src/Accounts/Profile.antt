-- ===== src/Accounts/Profile.antt =====
-- The organization's own data: `get_tenant`, `update_tenant_profile` and `set_tenant_logo` of
-- backend/app/modules/identity/services.py, in the session of a member.
use aurapro.Prelude.{ℕ, ◌*◌, String, Bool, not, ◌||◌, Option, some, List, ltb, str_eq, length}
use aurapro.Models.Identity.{Tenant, TaxStatus}
use aurapro.Patch.{set_field, set_value, sets_null}
use aurapro.Session.{Exec, pure, gets, or_raise, ◌>>=◌, ◌>>◌, raise_if, modify, commit}
use aurapro.Session.Errors.{Error}
use aurapro.Accounts.{find_tenant, update_tenant}

-- A field that is not set is `none`; one that is set to null is `some none`.
pub record TenantProfileUpdate : Type 0 where
  pub name : Option (Option String)
  pub cuit : Option (Option String)
  pub address : Option (Option String)
  pub phone : Option (Option String)
  pub business_email : Option (Option String)
  pub tax_status : Option (Option TaxStatus)

-- `scalar_one()`: the row has to be there.
unfoldable pub get_tenant : ℕ → Exec Tenant
get_tenant tenant_id = do
  found ← gets (λ s. find_tenant tenant_id s.pending)
  or_raise found Error.no_result_found

abbrev pub profile_of : TenantProfileUpdate → Tenant → Tenant
profile_of payload t = record t {
  name = set_value payload.name t.name;
  cuit = set_field payload.cuit t.cuit;
  address = set_field payload.address t.address;
  phone = set_field payload.phone t.phone;
  business_email = set_field payload.business_email t.business_email;
  tax_status = set_field payload.tax_status t.tax_status;
}

-- The column `name` takes no null.
unfoldable pub update_tenant_profile : ℕ → TenantProfileUpdate → Exec Tenant
update_tenant_profile tenant_id payload = do
  tenant ← get_tenant tenant_id
  raise_if (sets_null payload.name) Error.integrity_error
  modify (update_tenant tenant.id (profile_of payload))
  commit
  pure (profile_of payload tenant)

abbrev pub max_logo_size_bytes : ℕ
max_logo_size_bytes = 2 * 1024 * 1024

abbrev pub is_allowed_logo : String → Bool
is_allowed_logo content_type =
    str_eq content_type "image/png"
    || str_eq content_type "image/jpeg"
    || str_eq content_type "image/webp"

abbrev pub with_logo : List ℕ → String → Tenant → Tenant
with_logo content content_type t = record t {
  logo = some content;
  logo_content_type = some content_type;
}

unfoldable pub set_tenant_logo : ℕ → List ℕ → String → Exec Tenant
set_tenant_logo tenant_id content content_type = do
  raise_if (not (is_allowed_logo content_type)) Error.unsupported_logo_type
  raise_if (ltb max_logo_size_bytes (length content)) Error.logo_too_large
  tenant ← get_tenant tenant_id
  modify (update_tenant tenant.id (with_logo content content_type))
  commit
  pure (with_logo content content_type tenant)
