-- ===== src/Tests/Requests.antt =====
-- The session of a request to the fixture's shop.
use aurapro.Prelude.{
  Bool, ◌++◌, ◌∷◌, arith, ℕ, ◌≡◌, refl, subst, none, true, false, ltb, some, [], find, ◌==◌,
}
use aurapro.Models.Identity.{Tenant}
use aurapro.Models.Products.{Product, product_row}
use aurapro.Session.{opened, ok, err}
use aurapro.Session.Errors.{Error}
use aurapro.Requests.{is_active, get_tenant_db}
use aurapro.Requests.Scope.{own_rows, AnswersAlike, get_tenant_db_isolates}
use aurapro.Tests.Fixtures.{shop, tenant, product}
use aurapro.Models.{Database}

request_opened : get_tenant_db (some 1) false 5 shop ≡ ok (opened 1 5 shop)
unfolding get_tenant_db
request_opened = refl

suspended :
    get_tenant_db
      (some 1)
      false
      5
      (record shop { tenants = record (tenant 1) { is_active = false } ∷ [] })
    ≡ err Error.organization_suspended
unfolding get_tenant_db
suspended = refl

-- The shop, and the shop beside another's product.
abbrev in_stock : Product → Bool
in_stock q = ltb 0 q.current_stock

abbrev beside : Database
beside = record shop {
  products = shop.products ++ record (product 39 100 none 3) { tenant_id = 2 } ∷ [];
}

rival_request : get_tenant_db (some 1) false 6 beside ≡ ok (opened 1 6 beside)
unfolding get_tenant_db
rival_request = refl

same_rows : (t : ℕ) → 1 ≡ t → own_rows t shop.products ≡ own_rows t beside.products
same_rows t own = subst (λ z. own_rows z shop.products ≡ own_rows z beside.products) own refl

get_tenant_db_isolates_example :
    (t : ℕ) × (some 1 ≡ some t)
    × (is_active (find (λ (x : Tenant). x.id == t) shop.tenants) ≡ true)
    × AnswersAlike (λ d. d.products) in_stock 39 t (opened 1 5 shop) (opened 1 6 beside)
get_tenant_db_isolates_example =
    get_tenant_db_isolates (λ d. d.products) in_stock 39 (some 1) 5 6 shop beside (opened 1 5 shop)
      (opened 1 6 beside) request_opened rival_request (λ t own. same_rows t (ground (arith, own)))
