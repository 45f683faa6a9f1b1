-- ===== src/Invitations/Emails.antt =====
-- Addresses are one user's each, over all tenants.
use aurapro.Prelude.{
  ℕ, ◌≡◌, refl, String, List, [], ◌∷◌, ◌++◌, arith, inl, inr, subst, Bool-cases, str_eq, length,
  filter-append, eq_iff, append-nil, ◌≤◌,
}
use aurapro.Models.Identity.{User, user_row, invitation_row}
use aurapro.Query.{update_by_id, delete_by_id}
use aurapro.PasswordResets.{with_email}
use aurapro.Accounts.Emails.{with_email-joined}
use aurapro.Invitations.Changes.{UsersChange}

-- No address is two users'.
abbrev pub HasUniqueEmails : List User → Type 0
HasUniqueEmails users = (email : String) → length (with_email email users) ≤ 1

length-with_email-update :
    (email : String) (k : ℕ) (f : User → User) (users : List User)
    → ((u : User) → (f u).email ≡ u.email)
    → length (with_email email (update_by_id k f users)) ≡ length (with_email email users)
unfolding with_email
length-with_email-update email k f [] keep = refl
length-with_email-update email k f (x ∷ users) keep =
    ground (arith, keep x, length-with_email-update email k f users keep)

length-with_email-delete :
    (email : String) (k : ℕ) (users : List User)
    → length (with_email email (delete_by_id k users)) ≤ length (with_email email users)
unfolding with_email
length-with_email-delete email k [] = omega arith
length-with_email-delete email k (x ∷ users) =
    ground (arith, length-with_email-delete email k users)

HasUniqueEmails-joined :
    (u : User) (users : List User)
    → with_email u.email users ≡ []
    → HasUniqueEmails users
    → HasUniqueEmails (users ++ u ∷ [])
unfolding with_email
HasUniqueEmails-joined u users free unique email = elim (Bool-cases (str_eq u.email email)) [
  | inl same ↦
      subst (λ e. length (with_email e (users ++ u ∷ [])) ≤ 1) ((eq_iff u.email email).0 same)
        (rw (with_email-joined u users free) (omega arith))
  | inr other ↦
      rw (filter-append (λ (x : User). str_eq x.email email) users (u ∷ []))
        (rw other (rw (append-nil (with_email email users)) (unique email)))
]

pub UsersChange-HasUniqueEmails :
    {users users' : List User}
    → UsersChange users users'
    → HasUniqueEmails users
    → HasUniqueEmails users'
UsersChange-HasUniqueEmails UsersChange.kept unique email = unique email
UsersChange-HasUniqueEmails (UsersChange.joined u {users} free) unique email =
    HasUniqueEmails-joined u users free unique email
UsersChange-HasUniqueEmails (UsersChange.changed k f {users} keep) unique email =
    let same = length-with_email-update email k f users keep in
    let one = unique email in omega (arith, same, one)
UsersChange-HasUniqueEmails (UsersChange.removed k {users}) unique email =
    let fewer = length-with_email-delete email k users in
    let one = unique email in omega (arith, fewer, one)
