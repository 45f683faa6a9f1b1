-- ===== src/Invitations/Changes.antt =====
-- What a request that writes accounts does to the users and to the invitations.
use aurapro.Prelude.{
  ltb, length, ℕ, ◌≡◌, refl, sym, String, Bool, true, false, some, List, [], ◌∷◌, ◌++◌, ◌==◌, inl,
  inr, map, subst, Bool-cases, Option-cases,
}
use aurapro.Models.{Database}
use aurapro.Models.Identity.{User, Invitation, UserRole, user_row, invitation_row}
use aurapro.Session.{opened}
use aurapro.Session.Errors.{Error}
use aurapro.Query.{find_by_id, update_by_id, delete_by_id}
use aurapro.Users.{
  UserUpdate, is_admin, demotes, is_null_role, clear_reference, get_user, delete_user, apply_update,
  update_user,
}
use aurapro.Users.Admins.{spared}
use aurapro.PasswordResets.{with_email, reset_password, with_password}
use aurapro.PasswordResets.Once.{opened_unscoped}
use aurapro.PasswordResets.Life.{reset_password-cases}
use aurapro.Patch.{sets_null}
use aurapro.Accounts.Profile.{
  TenantProfileUpdate, get_tenant, update_tenant_profile, max_logo_size_bytes, is_allowed_logo,
  set_tenant_logo,
}
use aurapro.Accounts.Effects.{check_email-cases, registered_user, register_tenant-cases}
use aurapro.Invitations.{
  insert_invitation, new_invitation, create_invitation, with_token, is_drawn, mark_accepted,
}
use aurapro.Accounts.{find_tenant, register_tenant, set_tenant_active}

pub data UsersChange : List User → List User → Type 0 where
  kept : {users : List User} → UsersChange users users
  joined :
      (u : User) {users : List User}
      → with_email u.email users ≡ []
      → UsersChange users (users ++ u ∷ [])
  changed :
      (k : ℕ) (f : User → User) {users : List User}
      → ((u : User) → (f u).email ≡ u.email)
      → UsersChange users (update_by_id k f users)
  removed : (k : ℕ) {users : List User} → UsersChange users (delete_by_id k users)

-- `clear_inviter k` is what the removal of user `k` does to an invitation.
abbrev pub clear_inviter : ℕ → Invitation → Invitation
clear_inviter k i = record i { invited_by_user_id = clear_reference k i.invited_by_user_id }

pub data InvitationsChange : List Invitation → List Invitation → Type 0 where
  kept : {rows : List Invitation} → InvitationsChange rows rows
  created :
      (i : Invitation) {rows : List Invitation}
      → is_drawn (with_token i.token rows) ≡ false
      → InvitationsChange rows (rows ++ i ∷ [])
  accepted :
      (k now : ℕ) {rows : List Invitation}
      → InvitationsChange rows (update_by_id k (mark_accepted now) rows)
  cleared : (k : ℕ) {rows : List Invitation} → InvitationsChange rows (map (clear_inviter k) rows)

-- What a request does to both tables.
abbrev pub Change : Database → Database → Type 0
Change d d' = UsersChange d.users d'.users × InvitationsChange d.invitations d'.invitations

pub same_Change : {d d' : Database} → d' ≡ d → Change d d'
same_Change {d} h = subst (Change d) (sym h) (UsersChange.kept, InvitationsChange.kept)

pub register_tenant-Change :
    (hash : String → String) (name email password : String) (now : ℕ) (d : Database)
    → Change d (register_tenant hash name email password (opened_unscoped now d)).1.committed
register_tenant-Change hash name email password now d =
    elim (register_tenant-cases hash name email password now d) [
      | inl same ↦ same_Change same
      | inr (free, written) ↦ subst (Change d) (sym written) (
        UsersChange.joined (registered_user hash name email password now d) free,
        InvitationsChange.kept,
      )
    ]

pub set_tenant_active-Change :
    (k : ℕ) (b : Bool) (now : ℕ) (d : Database)
    → Change d (set_tenant_active k b (opened_unscoped now d)).1.committed
unfolding set_tenant_active
set_tenant_active-Change k b now d = elim (Option-cases (find_tenant k d)) [
  | inl absent ↦ rw absent (UsersChange.kept, InvitationsChange.kept)
  | inr (t, found) ↦ rw found (UsersChange.kept, InvitationsChange.kept)
]

pub update_user-Change :
    (hash : String → String) (w now k : ℕ) (payload : UserUpdate) (d : Database)
    → Change d (update_user hash k payload (opened w now d)).1.committed
unfolding update_user get_user
update_user-Change hash w now k payload d = elim (Option-cases (find_by_id (some w) k d.users)) [
  | inl absent ↦ rw absent (UsersChange.kept, InvitationsChange.kept)
  | inr (u, found) ↦
      rw found (elim (spared w now d (demotes payload.role u.role) Error.cannot_demote_last_admin) [
        | inr refused ↦ rw refused (UsersChange.kept, InvitationsChange.kept)
        | inl (passed, enough) ↦ rw passed (elim (Bool-cases (is_null_role payload.role)) [
          | inl null ↦ rw null (UsersChange.kept, InvitationsChange.kept)
          | inr valued ↦ rw valued (
            UsersChange.changed u.id (apply_update hash payload) (λ x. refl),
            InvitationsChange.kept,
          )
        ])
      ])
]

pub delete_user-Change :
    (w now k current : ℕ) (d : Database)
    → Change d (delete_user k current (opened w now d)).1.committed
unfolding delete_user get_user
delete_user-Change w now k current d = elim (Bool-cases (k == current)) [
  | inl self ↦ rw self (UsersChange.kept, InvitationsChange.kept)
  | inr other ↦ rw other (elim (Option-cases (find_by_id (some w) k d.users)) [
    | inl absent ↦ rw absent (UsersChange.kept, InvitationsChange.kept)
    | inr (u, found) ↦
        rw found (elim (spared w now d (is_admin u.role) Error.cannot_delete_last_admin) [
          | inr refused ↦ rw refused (UsersChange.kept, InvitationsChange.kept)
          | inl (passed, enough) ↦
              rw passed (UsersChange.removed u.id, InvitationsChange.cleared u.id)
        ])
  ])
]

pub reset_password-Change :
    (hash : String → String) (token password : String) (now : ℕ) (d : Database)
    → Change d (reset_password hash token password (opened_unscoped now d)).1.committed
reset_password-Change hash token password now d =
    elim (reset_password-cases hash token password now d) [
      | inl same ↦ same_Change same
      | inr (r, u, written) ↦ subst (Change d) (sym written.3) (
        UsersChange.changed r.user_id (with_password hash password) (λ x. refl),
        InvitationsChange.kept,
      )
    ]

pub create_invitation-Change :
    (token : String) (t by : ℕ) (email : String) (role : UserRole) (w now : ℕ) (d : Database)
    → Change d (create_invitation token t by email role (opened w now d)).1.committed
unfolding create_invitation insert_invitation
create_invitation-Change token t by email role w now d =
    elim (check_email-cases true email (opened w now d) refl) [
      | inr (e, refused) ↦ rw refused (UsersChange.kept, InvitationsChange.kept)
      | inl (free, passed) ↦
          rw passed (elim (Bool-cases (is_drawn (with_token token d.invitations))) [
            | inl taken ↦ rw taken (UsersChange.kept, InvitationsChange.kept)
            | inr fresh ↦ rw fresh (
              UsersChange.kept,
              InvitationsChange.created (new_invitation d.next_id now token t by email role) fresh,
            )
          ])
    ]

pub update_tenant_profile-Change :
    (t : ℕ) (payload : TenantProfileUpdate) (w now : ℕ) (d : Database)
    → Change d (update_tenant_profile t payload (opened w now d)).1.committed
unfolding update_tenant_profile get_tenant
update_tenant_profile-Change t payload w now d = elim (Option-cases (find_tenant t d)) [
  | inl absent ↦ rw absent (UsersChange.kept, InvitationsChange.kept)
  | inr (tenant, found) ↦ rw found (elim (Bool-cases (sets_null payload.name)) [
    | inl null ↦ rw null (UsersChange.kept, InvitationsChange.kept)
    | inr named ↦ rw named (UsersChange.kept, InvitationsChange.kept)
  ])
]

pub set_tenant_logo-Change :
    (t : ℕ) (content : List ℕ) (content_type : String) (w now : ℕ) (d : Database)
    → Change d (set_tenant_logo t content content_type (opened w now d)).1.committed
unfolding set_tenant_logo get_tenant
set_tenant_logo-Change t content content_type w now d =
    elim (Bool-cases (is_allowed_logo content_type)) [
      | inr unsupported ↦ rw unsupported (UsersChange.kept, InvitationsChange.kept)
      | inl supported ↦ rw supported (elim (Bool-cases (ltb max_logo_size_bytes (length content))) [
        | inl large ↦ rw large (UsersChange.kept, InvitationsChange.kept)
        | inr fits ↦ rw fits (elim (Option-cases (find_tenant t d)) [
          | inl absent ↦ rw absent (UsersChange.kept, InvitationsChange.kept)
          | inr (tenant, found) ↦ rw found (UsersChange.kept, InvitationsChange.kept)
        ])
      ])
    ]
