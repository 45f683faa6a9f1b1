-- ===== src/Invitations/Joining.antt =====
-- What accepting an invitation writes.
use aurapro.Prelude.{
  ℕ, ◌+◌, ◌≡◌, refl, String, false, none, some, [], ◌∷◌, ◌++◌, inl, inr, ◌⊎◌, Bool-cases,
  Option-cases, ltb,
}
use aurapro.Models.{Database}
use aurapro.Models.Identity.{User, Invitation, user_row, invitation_row}
use aurapro.Session.{ok, err}
use aurapro.Session.Errors.{Error}
use aurapro.Session.Rules.{List-cases}
use aurapro.Query.{update_by_id}
use aurapro.Query.Laws.{in_scope-none}
use aurapro.PasswordResets.{with_email}
use aurapro.PasswordResets.Once.{opened_unscoped}
use aurapro.Accounts.{insert_user, new_user}
use aurapro.Accounts.Effects.{check_email-cases}
use aurapro.Invitations.{
  with_token, mark_accepted, usable_invitation, check_invitation_usable, join_tenant,
  accept_invitation,
}
use aurapro.Invitations.Changes.{UsersChange, InvitationsChange, Change}

-- An invitation that may be accepted: the only one with its token, not accepted and not expired.
abbrev pub IsUsable : String → ℕ → Database → Invitation → Type 0
IsUsable token now d i =
    (with_token token d.invitations ≡ i ∷ [])
    × (i.accepted_at ≡ none)
    × (ltb i.expires_at now ≡ false)

usable_invitation-cases :
    (token : String) (now : ℕ) (d : Database)
    → ((i : Invitation) × IsUsable token now d i
        × (usable_invitation token (opened_unscoped now d) ≡ (ok i, opened_unscoped now d)))
      ⊎ ((e : Error) × (usable_invitation token (opened_unscoped now d)
            ≡ (err e, opened_unscoped now d)))
unfolding usable_invitation check_invitation_usable
usable_invitation-cases token now d = elim (List-cases (with_token token d.invitations)) [
  | inl absent ↦ inr (Error.invitation_not_found, rw absent refl)
  | inr (inr (i, j, rest, many)) ↦ inr (Error.multiple_results_found, rw many refl)
  | inr (inl (i, one)) ↦ elim (Option-cases i.accepted_at) [
    | inr (at, used) ↦ inr (Error.invitation_already_accepted, rw one (rw used refl))
    | inl unused ↦ elim (Bool-cases (ltb i.expires_at now)) [
      | inl late ↦ inr (Error.invitation_expired, rw one (rw unused (rw late refl)))
      | inr live ↦ inl (i, (one, unused, live), rw one (rw unused (rw live refl)))
    ]
  ]
]

module _ (hash : String → String) (password : String) (now : ℕ) (d : Database) where
  -- The member that an invitation makes.
  abbrev pub member : Invitation → User
  member i = new_user d.next_id now i.tenant_id i.email (hash password) i.role

  abbrev pub with_member : Invitation → Database
  with_member i = record d {
    next_id = d.next_id + 1;
    users = d.users ++ member i ∷ [];
    invitations = update_by_id i.id (mark_accepted now) d.invitations;
  }

  join_tenant-cases :
      (i : Invitation)
      → ((with_email i.email d.users ≡ [])
          × (join_tenant hash i password (opened_unscoped now d)
              ≡ (ok (member i), opened_unscoped now (with_member i))))
        ⊎ ((e : Error) × (join_tenant hash i password (opened_unscoped now d)
              ≡ (err e, opened_unscoped now d)))
  unfolding join_tenant insert_user
  join_tenant-cases i =
      elim (check_email-cases false i.email (opened_unscoped now d) (in_scope-none d.users)) [
        | inr (e, refused) ↦ inr (e, rw refused refl)
        | inl (free, passed) ↦ inl (free, rw passed (rw free refl))
      ]

  -- The invitation is used, or the request ends with nothing written.
  pub accept_invitation-cases :
      (token : String)
      → ((i : Invitation) × IsUsable token now d i
          × (with_email i.email d.users ≡ [])
          × (accept_invitation hash token password (opened_unscoped now d)
              ≡ (ok (member i), opened_unscoped now (with_member i))))
        ⊎ ((e : Error) × (accept_invitation hash token password (opened_unscoped now d)
              ≡ (err e, opened_unscoped now d)))
  unfolding accept_invitation
  accept_invitation-cases token = elim (usable_invitation-cases token now d) [
    | inr (e, refused) ↦ inr (e, rw refused refl)
    | inl (i, usable, passed) ↦ elim (join_tenant-cases i) [
      | inr (e, refused) ↦ inr (e, rw passed refused)
      | inl (free, joined) ↦ inl (i, usable, free, rw passed joined)
    ]
  ]

  pub accept_invitation-Change :
      (token : String)
      → Change d (accept_invitation hash token password (opened_unscoped now d)).1.committed
  accept_invitation-Change token = elim (accept_invitation-cases token) [
    | inr (e, refused) ↦ rw refused (UsersChange.kept, InvitationsChange.kept)
    | inl (i, usable, free, joined) ↦
        rw joined (UsersChange.joined (member i) free, InvitationsChange.accepted i.id now)
  ]

-- One invitation has this token, and it was accepted.
abbrev pub IsAccepted : String → Database → Type 0
IsAccepted token d =
    (i : Invitation) × (at : ℕ) × (with_token token d.invitations ≡ i ∷ [])
    × (i.accepted_at ≡ some at)

-- It is refused from then on.
pub accepted_refused :
    (hash : String → String) (token password : String) (now : ℕ) (d : Database)
    → IsAccepted token d
    → accept_invitation hash token password (opened_unscoped now d)
      ≡ (err Error.invitation_already_accepted, opened_unscoped now d)
unfolding accept_invitation usable_invitation check_invitation_usable
accepted_refused hash token password now d (i, at, one, used) = rw one (rw used refl)
