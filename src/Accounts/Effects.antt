-- ===== src/Accounts/Effects.antt =====
-- What a registration writes.
use aurapro.Prelude.{ℕ, ◌+◌, ◌≡◌, refl, String, Bool, false, [], ◌∷◌, ◌++◌, inl, inr, ◌⊎◌}
use aurapro.Models.{Database}
use aurapro.Models.Identity.{Tenant, User, UserRole, user_row, invitation_row}
use aurapro.Session.{Session, ok, err}
use aurapro.Session.Errors.{Error}
use aurapro.Session.Rules.{List-cases}
use aurapro.PasswordResets.{with_email}
use aurapro.Query.{loaded}
use aurapro.Query.Laws.{in_scope-none}
use aurapro.PasswordResets.Once.{opened_unscoped}
use aurapro.Accounts.{
  check_email, insert_user, insert_tenant, register_tenant, new_tenant, new_user,
}

-- The address is free, or the request ends with nothing written.
pub check_email-cases :
    (skip : Bool) (email : String) (s : Session)
    → loaded skip s.scope s.pending.users ≡ s.pending.users
    → ((with_email email s.pending.users ≡ []) × (check_email skip email s ≡ (ok tt, s)))
      ⊎ ((e : Error) × (check_email skip email s ≡ (err e, s)))
unfolding check_email
check_email-cases skip email s all_rows = elim (List-cases (with_email email s.pending.users)) [
  | inl free ↦ inl (free, rw all_rows (rw free refl))
  | inr (inl (u, one)) ↦ inr (Error.email_already_registered, rw all_rows (rw one refl))
  | inr (inr (u, v, rest, many)) ↦ inr (Error.multiple_results_found, rw all_rows (rw many refl))
]

pub insert_user-free :
    (u : User) (s : Session)
    → with_email u.email s.pending.users ≡ []
    → insert_user u s
      ≡ (ok tt, record s { pending = record s.pending { users = s.pending.users ++ u ∷ [] } })
unfolding insert_user
insert_user-free u s free = rw free refl

-- What a registration at a free address writes.
module _ (hash : String → String) (name email password : String) (now : ℕ) (d : Database) where
  abbrev pub registered_tenant : Tenant
  registered_tenant = new_tenant d.next_id now name

  abbrev pub registered_user : User
  registered_user = new_user (d.next_id + 1) now d.next_id email (hash password) UserRole.admin

  abbrev pub registered : Database
  registered = record d {
    next_id = d.next_id + 1 + 1;
    tenants = d.tenants ++ registered_tenant ∷ [];
    users = d.users ++ registered_user ∷ [];
  }

  pub register_tenant-free :
      with_email email d.users ≡ []
      → register_tenant hash name email password (opened_unscoped now d)
        ≡ (ok (registered_tenant, registered_user), opened_unscoped now registered)
  unfolding register_tenant insert_tenant insert_user check_email
  register_tenant-free free = rw (in_scope-none d.users) (rw free (rw free refl))

  pub register_tenant-cases :
      ((register_tenant hash name email password (opened_unscoped now d)).1.committed ≡ d)
      ⊎ ((with_email email d.users ≡ [])
          × ((register_tenant hash name email password (opened_unscoped now d)).1.committed
              ≡ registered))
  unfolding register_tenant
  register_tenant-cases =
      elim (check_email-cases false email (opened_unscoped now d) (in_scope-none d.users)) [
        | inl (free, passed) ↦ inr (free, rw (register_tenant-free free) refl)
        | inr (e, refused) ↦ inl (rw refused refl)
      ]
