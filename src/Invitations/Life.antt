-- ===== src/Invitations/Life.antt =====
-- Accounts and invitations over any sequence of requests.
use aurapro.Prelude.{
  ℕ, ◌≡◌, refl, sym, ap, String, Bool, true, false, some, List, [], ◌∷◌, ◌++◌, arith, ◌==◌, inl,
  inr, ◌∙◌, map, subst, Bool-cases, str_eq, filter-append, eq_iff, if◌then◌else◌,
}
use aurapro.Models.{Database}
use aurapro.Models.Identity.{User, Invitation, UserRole, user_row, invitation_row}
use aurapro.Session.{Session, opened, Result, ok, err}
use aurapro.Session.Errors.{Error}
use aurapro.PasswordResets.{reset_password}
use aurapro.PasswordResets.Once.{opened_unscoped}
use aurapro.Users.{UserUpdate, delete_user, update_user}
use aurapro.Accounts.Profile.{TenantProfileUpdate, update_tenant_profile, set_tenant_logo}
use aurapro.Accounts.{register_tenant, set_tenant_active}
use aurapro.Invitations.{with_token, is_drawn, mark_accepted, accept_invitation, create_invitation}
use aurapro.Invitations.Changes.{
  InvitationsChange, Change, clear_inviter, register_tenant-Change, set_tenant_active-Change,
  update_user-Change, delete_user-Change, reset_password-Change, update_tenant_profile-Change,
  set_tenant_logo-Change, create_invitation-Change,
}
use aurapro.Invitations.Joining.{
  IsUsable, with_member, accept_invitation-cases, accept_invitation-Change, IsAccepted,
  accepted_refused,
}
use aurapro.Invitations.Emails.{HasUniqueEmails, UsersChange-HasUniqueEmails}

-- The requests that write accounts, with what each leaves committed, whether it
-- returned or raised. `hash` is bcrypt's with that request's salt, `drawn` the token that a request
-- draws, and `w` the tenant of the session.
pub data Step : Database → Database → Type 0 where
  registration :
      (hash : String → String) (name email password : String) (now : ℕ) {d : Database}
      → Step d (register_tenant hash name email password (opened_unscoped now d)).1.committed
  suspension :
      (k : ℕ) (is_active : Bool) (now : ℕ) {d : Database}
      → Step d (set_tenant_active k is_active (opened_unscoped now d)).1.committed
  invitation :
      (drawn : String) (w by : ℕ) (email : String) (role : UserRole) (now : ℕ) {d : Database}
      → Step d (create_invitation drawn w by email role (opened w now d)).1.committed
  acceptance :
      (hash : String → String) (token password : String) (now : ℕ) {d : Database}
      → Step d (accept_invitation hash token password (opened_unscoped now d)).1.committed
  user_update :
      (hash : String → String) (w now k : ℕ) (payload : UserUpdate) {d : Database}
      → Step d (update_user hash k payload (opened w now d)).1.committed
  user_deletion :
      (w now k current : ℕ) {d : Database}
      → Step d (delete_user k current (opened w now d)).1.committed
  password_reset :
      (hash : String → String) (token password : String) (now : ℕ) {d : Database}
      → Step d (reset_password hash token password (opened_unscoped now d)).1.committed
  profile_update :
      (t : ℕ) (payload : TenantProfileUpdate) (w now : ℕ) {d : Database}
      → Step d (update_tenant_profile t payload (opened w now d)).1.committed
  logo :
      (t : ℕ) (content : List ℕ) (content_type : String) (w now : ℕ) {d : Database}
      → Step d (set_tenant_logo t content content_type (opened w now d)).1.committed

-- Any number of them.
pub data Steps : Database → Database → Type 0 where
  done : {d : Database} → Steps d d
  step : {d d' d'' : Database} → Step d d' → Steps d' d'' → Steps d d''

Step-Change : {d d' : Database} → Step d d' → Change d d'
Step-Change (registration hash name email password now {d}) =
    register_tenant-Change hash name email password now d
Step-Change (suspension k is_active now {d}) = set_tenant_active-Change k is_active now d
Step-Change (invitation drawn w by email role now {d}) =
    create_invitation-Change drawn w by email role w now d
Step-Change (acceptance hash token password now {d}) =
    accept_invitation-Change hash password now d token
Step-Change (user_update hash w now k payload {d}) = update_user-Change hash w now k payload d
Step-Change (user_deletion w now k current {d}) = delete_user-Change w now k current d
Step-Change (password_reset hash token password now {d}) =
    reset_password-Change hash token password now d
Step-Change (profile_update t payload w now {d}) = update_tenant_profile-Change t payload w now d
Step-Change (logo t content content_type w now {d}) =
    set_tenant_logo-Change t content content_type w now d

-- Addresses stay unique over all tenants: if no address is two users', then none is after any number
-- of registrations, suspensions, invitations and their acceptances, updates and deletions of users,
-- password resets and changes of a tenant's profile and logo, in sessions of any tenants, in any
-- order and whether they succeed or not.
pub emails_stay_unique :
    {d d' : Database} → HasUniqueEmails d.users → Steps d d' → HasUniqueEmails d'.users
emails_stay_unique unique done = unique
emails_stay_unique unique (step first rest) =
    emails_stay_unique (UsersChange-HasUniqueEmails (Step-Change first).0 unique) rest

-- A row that is changed but keeps its token.
with_token-map :
    (token : String) (f : Invitation → Invitation) (rows : List Invitation)
    → ((i : Invitation) → (f i).token ≡ i.token)
    → with_token token (map f rows) ≡ map f (with_token token rows)
unfolding with_token
with_token-map token f [] keep = refl
with_token-map token f (x ∷ rows) keep = ground (arith, keep x, with_token-map token f rows keep)

-- One row has the token, and it was accepted.
abbrev AcceptedIn : String → List Invitation → Type 0
AcceptedIn token rows =
    (i : Invitation) × (at : ℕ) × (with_token token rows ≡ i ∷ []) × (i.accepted_at ≡ some at)

AcceptedIn-created :
    (token : String) (new : Invitation) (rows : List Invitation)
    → is_drawn (with_token new.token rows) ≡ false
    → AcceptedIn token rows
    → AcceptedIn token (rows ++ new ∷ [])
unfolding with_token
AcceptedIn-created token new rows fresh (i, at, one, used) = (
  i,
  at,
  filter-append (λ (x : Invitation). str_eq x.token token) rows (new ∷ [])
      ∙ elim (Bool-cases (str_eq new.token token)) [
        | inl same ↦
            let drawn : is_drawn (with_token new.token rows) ≡ true =
              ap (λ k. is_drawn (with_token k rows)) ((eq_iff new.token token).0 same)
              ∙ ap is_drawn one in
            absurd (ground (arith, drawn, fresh))
        | inr other ↦ rw other (rw one refl)
      ],
  used,
)

AcceptedIn-map :
    (token : String) (f : Invitation → Invitation) (rows : List Invitation)
    → ((i : Invitation) → (f i).token ≡ i.token)
    → ((i : Invitation) (at : ℕ)
        → i.accepted_at ≡ some at
        → (later : ℕ) × ((f i).accepted_at ≡ some later))
    → AcceptedIn token rows
    → AcceptedIn token (map f rows)
AcceptedIn-map token f rows keep stays (i, at, one, used) =
    let (later, still) = stays i at used in
    (f i, later, with_token-map token f rows keep ∙ ap (map f) one, still)

mark_accepted-token :
    (k now : ℕ) (i : Invitation) → (if i.id == k then mark_accepted now i else i).token ≡ i.token
mark_accepted-token k now i = ground arith

mark_accepted-stays :
    (k now : ℕ) (i : Invitation) (at : ℕ)
    → i.accepted_at ≡ some at
    → (later : ℕ) × ((if i.id == k then mark_accepted now i else i).accepted_at ≡ some later)
mark_accepted-stays k now i at used = elim (Bool-cases (i.id == k)) [
  | inl same ↦ (now, rw same refl)
  | inr other ↦ (at, rw other used)
]

InvitationsChange-AcceptedIn :
    (token : String) {rows rows' : List Invitation}
    → InvitationsChange rows rows'
    → AcceptedIn token rows
    → AcceptedIn token rows'
InvitationsChange-AcceptedIn token InvitationsChange.kept used = used
InvitationsChange-AcceptedIn token (InvitationsChange.created i {rows} fresh) used =
    AcceptedIn-created token i rows fresh used
InvitationsChange-AcceptedIn token (InvitationsChange.accepted k now {rows}) used =
    AcceptedIn-map token (λ (i : Invitation). if i.id == k then mark_accepted now i else i) rows
      (mark_accepted-token k now) (mark_accepted-stays k now) used
InvitationsChange-AcceptedIn token (InvitationsChange.cleared k {rows}) used =
    AcceptedIn-map token (clear_inviter k) rows (λ i. refl) (λ i at h. (at, h)) used

Steps-IsAccepted :
    (token : String) {d d' : Database} → Steps d d' → IsAccepted token d → IsAccepted token d'
Steps-IsAccepted token done used = used
Steps-IsAccepted token (step first rest) used =
    Steps-IsAccepted token rest (InvitationsChange-AcceptedIn token (Step-Change first).1 used)

-- The invitation that was just accepted.
IsAccepted-joined :
    (hash : String → String) (token password : String) (now : ℕ) (d : Database) (i : Invitation)
    → IsUsable token now d i
    → IsAccepted token (with_member hash password now d i)
IsAccepted-joined hash token password now d i usable = (
  mark_accepted now i,
  now,
  with_token-map token (λ (x : Invitation). if x.id == i.id then mark_accepted now x else x)
        d.invitations (mark_accepted-token i.id now)
      ∙ rw usable.0 (ground arith),
  refl,
)

-- An invitation makes one user: if `accept_invitation` returns, then after any number of further
-- requests that write accounts, every further use of the same token is refused with nothing written.
pub invitation_works_once :
    (hash : String → String) (token password : String) (now : ℕ) (d : Database) (u : User)
    (s : Session) {d' : Database}
    → accept_invitation hash token password (opened_unscoped now d) ≡ (ok u, s)
    → Steps s.committed d'
    → (again : String → String) (other : String) (later : ℕ)
    → accept_invitation again token other (opened_unscoped later d')
      ≡ (err Error.invitation_already_accepted, opened_unscoped later d')
invitation_works_once hash token password now d u s {d' = d'} h steps again other later =
    elim (accept_invitation-cases hash password now d token) [
      | inr (e, refused) ↦ absurd (ground (arith, h, refused))
      | inl (i, usable, free, joined) ↦
          let same : opened_unscoped now (with_member hash password now d i) ≡ s =
            ap (λ (z : Result User × Session). z.1) (sym joined ∙ h) in
          accepted_refused again token other later d' (
            Steps-IsAccepted token steps (
              subst (λ (z : Session). IsAccepted token z.committed) same
                (IsAccepted-joined hash token password now d i usable)))
    ]
