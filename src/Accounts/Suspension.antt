-- ===== src/Accounts/Suspension.antt =====
-- What the suspension of a tenant does.
use aurapro.Prelude.{
  ℕ, ◌≡◌, sym, ap, String, Bool, false, some, List, [], ◌∷◌, arith, ◌==◌, inl, inr, ◌∙◌, map, subst,
  Option-cases, find, if◌then◌else◌,
}
use aurapro.Models.{Database}
use aurapro.Models.Identity.{Tenant, User, user_row, invitation_row}
use aurapro.Session.{Session, ok, err}
use aurapro.Session.Errors.{Error}
use aurapro.PasswordResets.Once.{opened_unscoped}
use aurapro.Accounts.{find_tenant, set_tenant_active, authenticate_user, with_active, update_tenant}
use mathlib.Core.Option
use aurapro.Accounts.Login.{login, authenticate_user-eq, authenticate_user-eq-ok}
use aurapro.Accounts.{TenantSummary}
use aurapro.Requests.{get_tenant_db}
use aurapro.Prelude.{◌≢◌, false}

find_tenant-update :
    (j k : ℕ) (b : Bool) (tenants : List Tenant)
    → find
        (λ (x : Tenant). x.id == j)
        (map (λ (t : Tenant). if t.id == k then with_active b t else t) tenants)
      ≡ (if k == j
          then Option.map (with_active b) (find (λ (x : Tenant). x.id == j) tenants)
          else find (λ (x : Tenant). x.id == j) tenants)
find_tenant-update j k b [] = ground arith
find_tenant-update j k b (x ∷ tenants) = ground (arith, find_tenant-update j k b tenants)

-- The data with tenant `k` active or not.
abbrev pub set_active : ℕ → Bool → Database → Database
set_active k b d = update_tenant k (with_active b) d

find_tenant_sound :
    (k : ℕ) (tenants : List Tenant) (t : Tenant)
    → find (λ (x : Tenant). x.id == k) tenants ≡ some t
    → t.id ≡ k
find_tenant_sound k [] t h = cc
find_tenant_sound k (x ∷ tenants) t h = ground (arith, find_tenant_sound k tenants t)

set_tenant_active-eq-ok :
    (k : ℕ) (b : Bool) (now : ℕ) (d : Database) (r : TenantSummary) (s : Session)
    → set_tenant_active k b (opened_unscoped now d) ≡ (ok r, s)
    → (t : Tenant) × (find_tenant k d ≡ some t) × (s.committed ≡ set_active k b d)
unfolding set_tenant_active
set_tenant_active-eq-ok k b now d r s h = elim (Option-cases (find_tenant k d)) [
  | inl absent ↦ absurd (ground arith)
  | inr (t, found) ↦
      let key = find_tenant_sound k d.tenants t found in (t, found, ground (arith, key))
]

module _ (k : ℕ) (d : Database) where
  suspended_session :
      (t : Tenant) (now : ℕ)
      → find_tenant k d ≡ some t
      → get_tenant_db (some k) false now (set_active k false d) ≡ err Error.organization_suspended
  unfolding get_tenant_db
  suspended_session t now found =
      let after = find_tenant-update k k false d.tenants in ground (arith, after, found)

  suspended_login :
      (verify : String → String → Bool) (email password : String) (now : ℕ) (u : User) (s : Session)
      → authenticate_user verify email password (opened_unscoped now (set_active k false d))
        ≡ (ok u, s)
      → u.tenant_id ≢ k
  suspended_login verify email password now u s h own =
      let found =
        (authenticate_user-eq-ok verify email password now (set_active k false d) u s h).2 in
      let after = find_tenant-update u.tenant_id k false d.tenants in
      elim (Option-cases (find_tenant u.tenant_id d)) [
        | inl absent ↦ absurd (ground (arith, after, found, own, absent))
        | inr (t, there) ↦ absurd (ground (arith, after, found, own, there))
      ]

  other_login :
      (verify : String → String → Bool) (email password : String) (now : ℕ) (u : User) (s : Session)
      → authenticate_user verify email password (opened_unscoped now d) ≡ (ok u, s)
      → u.tenant_id ≢ k
      → authenticate_user verify email password (opened_unscoped now (set_active k false d))
        ≡ (ok u, opened_unscoped now (set_active k false d))
  other_login verify email password now u s h other =
      let (one, right, answer) = authenticate_user-eq-ok verify email password now d u s h in
      let after = find_tenant-update u.tenant_id k false d.tenants in
      authenticate_user-eq verify email password now (set_active k false d) u one right
      ∙ ap (λ r. (r, opened_unscoped now (set_active k false d)))
          (ap (login u) (ground (arith, after, other)) ∙ answer)

-- What is so once tenant `k` is suspended, of the data `d` before and `d'` after.
pub record IsLockedOut (k : ℕ) (d d' : Database) : Type 0 where
  pub session : (now : ℕ) → get_tenant_db (some k) false now d' ≡ err Error.organization_suspended
  pub login :
      (verify : String → String → Bool) (email password : String) (now : ℕ) (u : User) (s : Session)
      → authenticate_user verify email password (opened_unscoped now d') ≡ (ok u, s)
      → u.tenant_id ≢ k
  pub others :
      (verify : String → String → Bool) (email password : String) (now : ℕ) (u : User) (s : Session)
      → authenticate_user verify email password (opened_unscoped now d) ≡ (ok u, s)
      → u.tenant_id ≢ k
      → authenticate_user verify email password (opened_unscoped now d')
        ≡ (ok u, opened_unscoped now d')

-- A suspension shuts out one tenant: if the superadmin's request to suspend tenant `k` returns, then
-- from then on no request with a token of this tenant (the superadmin's flag aside) is given a
-- session, no login is answered with one of its users, whatever the address, the password and
-- bcrypt's test, and every login of another tenant's user that succeeded before succeeds still.
pub set_tenant_active-IsLockedOut :
    (k now : ℕ) (d : Database) (r : TenantSummary) (s : Session)
    → set_tenant_active k false (opened_unscoped now d) ≡ (ok r, s)
    → IsLockedOut k d s.committed
set_tenant_active-IsLockedOut k now d r s h =
    let (t, found, written) = set_tenant_active-eq-ok k false now d r s h in
    subst (IsLockedOut k d) (sym written) (record {
      session = λ now. suspended_session k d t now found;
      login = suspended_login k d;
      others = other_login k d;
    })
