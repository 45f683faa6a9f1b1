-- ===== src/Tests/Invitations.antt =====
-- An invitation to the fixture's shop.
use aurapro.Prelude.{ℕ, ◌≡◌, refl, String, none, [], ◌∷◌, str_eq, arith, false}
use text.Mathlib.TextEquality.{eq_iff}
use aurapro.Models.{Database}
use aurapro.Models.Identity.{User, UserRole, Invitation}
use aurapro.Session.{Session, Result, ok, err, opened}
use aurapro.Session.Errors.{Error}
use aurapro.PasswordResets.{with_email}
use aurapro.PasswordResets.Once.{opened_unscoped}
use aurapro.Users.{get_user, delete_user, spare_last_admin, count_admins}
use aurapro.Accounts.{find_tenant, check_email, insert_user, authenticate_user}
use aurapro.Accounts.Login.{login}
use aurapro.Invitations.{
  with_token, insert_invitation, create_invitation, check_invitation_usable, usable_invitation,
  join_tenant, accept_invitation, get_invitation_preview,
}
use aurapro.Invitations.Joining.{IsUsable}
use aurapro.Invitations.Emails.{HasUniqueEmails}
use aurapro.Invitations.Life
use aurapro.Invitations.Life.{emails_stay_unique, invitation_works_once}
use aurapro.Invitations.Login.{accept_invitation_login}
use aurapro.Tests.Fixtures.{shop}

invitation_code : ℕ
unfolding with_email check_email insert_user with_token insert_invitation create_invitation
    check_invitation_usable usable_invitation join_tenant accept_invitation get_invitation_preview
    get_user delete_user spare_last_admin count_admins
invitation_code = 0

abbrev hash : String → String
hash password = password

abbrev boss : User
boss = record {
  id = 80;
  created_at = 0;
  tenant_id = 1;
  email = "ana@aurapro";
  hashed_password = "old";
  first_name = none;
  last_name = none;
  role = UserRole.admin;
  is_superadmin = false;
}

abbrev house : Database
house = record shop { users = boss ∷ [] }

abbrev invited : Database
invited =
    (create_invitation "tok" 1 80 "leo@aurapro" UserRole.vendedor (opened 1 5 house)).1.committed

abbrev joined : Result User × Session
joined = accept_invitation hash "tok" "12345678" (opened_unscoped 6 invited)

abbrev leo : User
leo = record {
  id = 101;
  created_at = 6;
  tenant_id = 1;
  email = "leo@aurapro";
  hashed_password = "12345678";
  first_name = none;
  last_name = none;
  role = UserRole.vendedor;
  is_superadmin = false;
}

joining : joined ≡ (ok leo, joined.1)
unfolding invitation_code
joining = refl

-- A member of another tenant's session cannot invite an address that is registered here.
registered :
    (create_invitation "new" 2 80 "ana@aurapro" UserRole.viewer (opened 2 5 house)).0
    ≡ err Error.email_already_registered
unfolding invitation_code
registered = refl

preview :
    (get_invitation_preview "tok" (opened_unscoped 604800000006 invited)).0
    ≡ err Error.invitation_expired
unfolding invitation_code
preview = refl

one_boss : HasUniqueEmails house.users
unfolding with_email
one_boss email = ground arith

-- The user who was invited is removed, and the invitation is used once more.
abbrev removed : Database
removed = (delete_user 101 80 (opened 1 7 joined.1.committed)).1.committed

emails_stay_unique_example : HasUniqueEmails removed.users
emails_stay_unique_example = emails_stay_unique {d = house} {d' = removed} one_boss (
    Life.step (Life.invitation "tok" 1 80 "leo@aurapro" UserRole.vendedor 5) (
      Life.step (Life.acceptance hash "tok" "12345678" 6)
        (Life.step (Life.user_deletion 1 7 101 80) Life.done)))

invitation_works_once_example :
    accept_invitation hash "tok" "87654321" (opened_unscoped 8 removed)
    ≡ (err Error.invitation_already_accepted, opened_unscoped 8 removed)
invitation_works_once_example =
    invitation_works_once hash "tok" "12345678" 6 invited leo joined.1 {d' = removed} joining
      (Life.step (Life.user_deletion 1 7 101 80) Life.done) hash "87654321" 8

accept_invitation_login_example :
    (i : Invitation) × IsUsable "tok" 6 invited i
    × (with_email i.email invited.users ≡ [])
    × (leo.email ≡ i.email)
    × (leo.tenant_id ≡ i.tenant_id)
    × (leo.role ≡ i.role)
    × (authenticate_user str_eq i.email "12345678" (opened_unscoped 9 joined.1.committed)
        ≡ (login leo (find_tenant i.tenant_id invited), opened_unscoped 9 joined.1.committed))
accept_invitation_login_example =
    accept_invitation_login hash str_eq "tok" "12345678" 6 9 invited leo joined.1
      (λ p. (eq_iff p p).1 refl) joining
