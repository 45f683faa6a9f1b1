-- ===== src/Accounts/Login.antt =====
-- Who can log in: after a registration, and while a tenant is suspended.
use aurapro.Prelude.{
  ℕ, ◌≡◌, refl, sym, ap, String, Bool, true, none, some, List, [], ◌∷◌, ◌++◌, arith, ◌==◌, inl, inr,
  ◌∙◌, subst, Bool-cases, Option-cases, Option, find, if◌then◌else◌,
}
use aurapro.Models.{Database}
use aurapro.Models.Identity.{Tenant, User, UserRole, user_row, invitation_row}
use aurapro.Session.{Session, Result, ok, err}
use aurapro.Session.Errors.{Error}
use aurapro.Session.Rules.{List-cases}
use aurapro.PasswordResets.{with_email}
use aurapro.PasswordResets.Once.{opened_unscoped}
use aurapro.Accounts.{find_tenant, register_tenant, authenticate_user, check_active}
use aurapro.Accounts.Effects.{registered_user, registered_tenant, registered, register_tenant-free}
use aurapro.Accounts.Emails.{with_email-joined}

-- What the login of user `u` answers, once the password is right.
abbrev pub login : User → Option Tenant → Result User
login u none = err Error.attribute_error
login u (some t) = if t.is_active then ok u else err Error.tenant_suspended

login-ok : (v : User) (o : Option Tenant) (u : User) → login v o ≡ ok u → v ≡ u
login-ok v none u h = absurd (ground arith)
login-ok v (some t) u h = ground arith

module _ (verify : String → String → Bool) (email password : String) (later : ℕ)
    (d : Database) where
  check_active-eq :
      (u : User)
      → check_active u (opened_unscoped later d)
        ≡ (login u (find_tenant u.tenant_id d), opened_unscoped later d)
  unfolding check_active
  check_active-eq u = elim (Option-cases (find_tenant u.tenant_id d)) [
    | inl absent ↦ rw absent refl
    | inr (t, found) ↦ rw found (elim (Bool-cases t.is_active) [
      | inl active ↦ rw active refl
      | inr suspended ↦ rw suspended refl
    ])
  ]

  -- The address is one user's, and the password is right.
  pub authenticate_user-eq :
      (u : User)
      → with_email email d.users ≡ u ∷ []
      → verify password u.hashed_password ≡ true
      → authenticate_user verify email password (opened_unscoped later d)
        ≡ (login u (find_tenant u.tenant_id d), opened_unscoped later d)
  unfolding authenticate_user
  authenticate_user-eq u one right = rw one (rw right (check_active-eq u))

  -- A login that succeeds has found its user alone, with the password right.
  pub authenticate_user-eq-ok :
      (u : User) (s : Session)
      → authenticate_user verify email password (opened_unscoped later d) ≡ (ok u, s)
      → (with_email email d.users ≡ u ∷ [])
        × (verify password u.hashed_password ≡ true)
        × (login u (find_tenant u.tenant_id d) ≡ ok u)
  unfolding authenticate_user
  authenticate_user-eq-ok u s h = elim (List-cases (with_email email d.users)) [
    | inl absent ↦ absurd (ground (arith, h, absent))
    | inr (inr (v, w, rest, many)) ↦ absurd (ground (arith, h, many))
    | inr (inl (v, one)) ↦ elim (Bool-cases (verify password v.hashed_password)) [
      | inr wrong ↦ absurd (ground (arith, h, one, wrong))
      | inl right ↦
          let answer : login v (find_tenant v.tenant_id d) ≡ ok u =
            ap (λ (z : Result User × Session). z.0) (sym (authenticate_user-eq v one right) ∙ h) in
          let same : v ≡ u = login-ok v (find_tenant v.tenant_id d) u answer in
          (
            subst (λ z. with_email email d.users ≡ z ∷ []) same one,
            subst (λ (z : User). verify password z.hashed_password ≡ true) same right,
            subst (λ (z : User). login z (find_tenant z.tenant_id d) ≡ ok z) same
                (answer ∙ ap ok (sym same)),
          )
    ]
  ]

find_tenant-append :
    (k : ℕ) (tenants : List Tenant) (t : Tenant)
    → find (λ (x : Tenant). x.id == k) tenants ≡ none
    → t.id ≡ k
    → find (λ (x : Tenant). x.id == k) (tenants ++ t ∷ []) ≡ some t
find_tenant-append k [] t h e = ground arith
find_tenant-append k (x ∷ tenants) t h e = ground (arith, find_tenant-append k tenants t)

-- A new organization can be used at once: if the address is no user's, and no tenant has the next
-- identifier, then `register_tenant` returns a new tenant and its user, who has the administrator's
-- role in it, and a later login with the same address and password answers with this user. Of
-- bcrypt it is used that a password fits its own hash.
pub register_tenant_login :
    (hash : String → String) (verify : String → String → Bool) (name email password : String)
    (now later : ℕ) (d : Database)
    → ((p : String) → verify p (hash p) ≡ true)
    → with_email email d.users ≡ []
    → find_tenant d.next_id d ≡ none
    → (t : Tenant) × (u : User) × (d' : Database) × (register_tenant hash name email password
          (opened_unscoped now d)
        ≡ (ok (t, u), opened_unscoped now d'))
      × (find_tenant t.id d' ≡ some t)
      × (u.tenant_id ≡ t.id)
      × (u.role ≡ UserRole.admin)
      × (authenticate_user verify email password (opened_unscoped later d')
          ≡ (ok u, opened_unscoped later d'))
register_tenant_login hash verify name email password now later d fits free new =
    let t = registered_tenant hash name email password now d in
    let u = registered_user hash name email password now d in
    let d' = registered hash name email password now d in
    let there : find_tenant d.next_id d' ≡ some t =
      find_tenant-append d.next_id d.tenants t new refl in
    (
      t,
      u,
      d',
      register_tenant-free hash name email password now d free,
      there,
      refl,
      refl,
      authenticate_user-eq verify email password later d' u (with_email-joined u d.users free)
            (fits password)
          ∙ rw there refl,
    )
