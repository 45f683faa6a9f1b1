-- ===== src/Invitations.antt =====
-- Invitations: `create_invitation`, `get_invitation_preview` and `accept_invitation` of
-- backend/app/modules/identity/services.py. An invitation is accepted in a session without a tenant.
pub mod Changes
pub mod Joining
pub mod Emails
pub mod Life
pub mod Login
use aurapro.Prelude.{
  ℕ, ◌+◌, String, Bool, true, false, Option, none, some, List, [], ◌∷◌, ◌++◌, ltb, str_eq, filter,
  is_some,
}
use aurapro.Models.Identity.{Tenant, User, UserRole, Invitation, invitation_row}
use aurapro.Session.{
  Exec, pure, gets, or_raise, ◌>>=◌, ◌>>◌, raise_if, modify, commit, fresh_id, scalar_one_or_none,
}
use aurapro.Session.Errors.{Error}
use aurapro.Query.{update_by_id}
use aurapro.Accounts.{find_tenant, check_email, insert_user, new_user}

-- Seven days, in microseconds.
abbrev pub invitation_expiry : ℕ
invitation_expiry = 604800000000

-- `select(Invitation).where(Invitation.token == token)`
unfoldable pub with_token : String → List Invitation → List Invitation
with_token token invitations = filter (λ (i : Invitation). str_eq i.token token) invitations

abbrev pub is_drawn : List Invitation → Bool
is_drawn [] = false
is_drawn (i ∷ rest) = true

-- `db.add(invitation)`, whose token is unique
unfoldable pub insert_invitation : Invitation → Exec (Unit {0})
insert_invitation invitation = do
  taken ← gets (λ s. with_token invitation.token s.pending.invitations)
  raise_if (is_drawn taken) Error.integrity_error
  modify (λ d. record d { invitations = d.invitations ++ invitation ∷ [] })

abbrev pub new_invitation : ℕ → ℕ → String → ℕ → ℕ → String → UserRole → Invitation
new_invitation id now token tenant_id invited_by_user_id email role = record {
  id = id;
  created_at = now;
  tenant_id = tenant_id;
  email = email;
  role = role;
  token = token;
  invited_by_user_id = some invited_by_user_id;
  expires_at = now + invitation_expiry;
  accepted_at = none;
}

-- `token` is the one that `secrets.token_urlsafe` draws.
unfoldable pub create_invitation : String → ℕ → ℕ → String → UserRole → Exec Invitation
create_invitation token tenant_id invited_by_user_id email role = do
  check_email true email
  id ← fresh_id
  now ← gets (λ s. s.now)
  let invitation = new_invitation id now token tenant_id invited_by_user_id email role
  insert_invitation invitation
  commit
  pure invitation

-- `_check_invitation_usable`
unfoldable pub check_invitation_usable : Option Invitation → Exec Invitation
check_invitation_usable row = do
  invitation ← or_raise row Error.invitation_not_found
  raise_if (is_some invitation.accepted_at) Error.invitation_already_accepted
  now ← gets (λ s. s.now)
  raise_if (ltb invitation.expires_at now) Error.invitation_expired
  pure invitation

unfoldable pub usable_invitation : String → Exec Invitation
usable_invitation token = do
  found ← gets (λ s. with_token token s.pending.invitations)
  row ← scalar_one_or_none found
  check_invitation_usable row

unfoldable pub get_invitation_preview : String → Exec (Invitation × Tenant)
get_invitation_preview token = do
  invitation ← usable_invitation token
  found ← gets (λ s. find_tenant invitation.tenant_id s.pending)
  tenant ← or_raise found Error.no_result_found
  pure (invitation, tenant)

abbrev pub mark_accepted : ℕ → Invitation → Invitation
mark_accepted now i = record i { accepted_at = some now }

-- `hash_password` is bcrypt's, with the salt that it draws in this request.
module _ (hash_password : String → String) where
  -- What is written for a usable invitation.
  unfoldable pub join_tenant : Invitation → String → Exec User
  join_tenant invitation password = do
    check_email false invitation.email
    id ← fresh_id
    now ← gets (λ s. s.now)
    let user =
        new_user id now invitation.tenant_id invitation.email (hash_password password)
          invitation.role
    insert_user user
    modify
        λ d. record d { invitations = update_by_id invitation.id (mark_accepted now) d.invitations }
    commit
    pure user

  unfoldable pub accept_invitation : String → String → Exec User
  accept_invitation token password = do
    invitation ← usable_invitation token
    join_tenant invitation password
