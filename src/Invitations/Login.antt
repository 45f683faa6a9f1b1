-- ===== src/Invitations/Login.antt =====
-- An invited user can log in.
use aurapro.Prelude.{ℕ, ◌≡◌, sym, ap, String, Bool, true, [], arith, inl, inr, ◌∙◌, subst}
use aurapro.Models.{Database}
use aurapro.Models.Identity.{User, Invitation, user_row, invitation_row}
use aurapro.Session.{Session, Result, ok}
use aurapro.PasswordResets.{with_email}
use aurapro.PasswordResets.Once.{opened_unscoped}
use aurapro.Accounts.{find_tenant, authenticate_user}
use aurapro.Invitations.{accept_invitation}
use aurapro.Invitations.Joining.{IsUsable, member, with_member, accept_invitation-cases}
use aurapro.Accounts.Emails.{with_email-joined}
use aurapro.Accounts.Login.{login, authenticate_user-eq}

-- An invitation makes the member that it promises: if `accept_invitation` returns user `u`, then the
-- token was one invitation's, not accepted and not expired, the user is new at its address, with its
-- tenant and its role, and a later login with this address and password is answered with this user
-- if the tenant is active, and else refused. Of bcrypt it is used that a password fits its own hash.
pub accept_invitation_login :
    (hash : String → String) (verify : String → String → Bool) (token password : String)
    (now later : ℕ) (d : Database) (u : User) (s : Session)
    → ((p : String) → verify p (hash p) ≡ true)
    → accept_invitation hash token password (opened_unscoped now d) ≡ (ok u, s)
    → (i : Invitation) × IsUsable token now d i
      × (with_email i.email d.users ≡ [])
      × (u.email ≡ i.email)
      × (u.tenant_id ≡ i.tenant_id)
      × (u.role ≡ i.role)
      × (authenticate_user verify i.email password (opened_unscoped later s.committed)
          ≡ (login u (find_tenant i.tenant_id d), opened_unscoped later s.committed))
accept_invitation_login hash verify token password now later d u s fits h =
    elim (accept_invitation-cases hash password now d token) [
      | inr (e, refused) ↦ absurd (ground (arith, h, refused))
      | inl (i, usable, free, joined) ↦
          let d' = with_member hash password now d i in
          let new = member hash password now d i in
          let same_user : new ≡ u = ground (arith, h, joined) in
          let same : opened_unscoped now d' ≡ s =
            ap (λ (z : Result User × Session). z.1) (sym joined ∙ h) in
          (
            i,
            usable,
            free,
            ap (λ (z : User). z.email) (sym same_user),
            ap (λ (z : User). z.tenant_id) (sym same_user),
            ap (λ (z : User). z.role) (sym same_user),
            subst
                (λ (z : Session).
                  authenticate_user verify i.email password (opened_unscoped later z.committed)
                  ≡ (login u (find_tenant i.tenant_id d), opened_unscoped later z.committed))
                same
                (authenticate_user-eq verify i.email password later d' new
                    (with_email-joined new d.users free) (fits password)
                  ∙ ap (λ x. (login x (find_tenant i.tenant_id d), opened_unscoped later d'))
                      same_user),
          )
    ]
