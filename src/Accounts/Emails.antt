-- ===== src/Accounts/Emails.antt =====
-- How a new user is found.
use aurapro.Prelude.{◌≡◌, refl, List, [], ◌∷◌, ◌++◌, ◌∙◌, str_eq, filter-append, eq_iff}
use aurapro.Models.Identity.{User, user_row, invitation_row}
use aurapro.PasswordResets.{with_email}

-- A new user at a free address is found alone.
pub with_email-joined :
    (u : User) (users : List User)
    → with_email u.email users ≡ []
    → with_email u.email (users ++ u ∷ []) ≡ u ∷ []
unfolding with_email
with_email-joined u users free =
    let itself = (eq_iff u.email u.email).1 refl in
    filter-append (λ (x : User). str_eq x.email u.email) users (u ∷ []) ∙ rw free (rw itself refl)
