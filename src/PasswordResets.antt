-- ===== src/PasswordResets.antt =====
-- Password resets: `request_password_reset` and `reset_password` of
-- backend/app/modules/identity/services.py. Their sessions (`get_async_db`) have no tenant.
pub mod Once
pub mod Life
use aurapro.Prelude.{
  ℕ, ◌+◌, String, Bool, true, false, Option, none, some, List, [], ◌∷◌, ◌++◌, ltb, str_eq, filter,
  length,
}
use aurapro.Models.{Database}
use aurapro.Models.Identity.{User, PasswordReset, user_row, password_reset_row}
use aurapro.Session.{
  Exec, pure, gets, or_raise, ◌>>=◌, ◌>>◌, raise_if, modify, commit, fresh_id, scalar_one_or_none,
}
use aurapro.Session.Errors.{Error}
use aurapro.Query.{update_by_id}
use aurapro.Users.{get_user}

-- An hour, in microseconds.
abbrev pub password_reset_expiry : ℕ
password_reset_expiry = 3600000000

-- `select(PasswordReset).where(PasswordReset.token == token)`
unfoldable pub with_token : String → List PasswordReset → List PasswordReset
with_token token resets = filter (λ (r : PasswordReset). str_eq r.token token) resets

-- `select(User).where(User.email == email)`
unfoldable pub with_email : String → List User → List User
with_email email users = filter (λ (u : User). str_eq u.email email) users

abbrev pub is_some_time : Option ℕ → Bool
is_some_time none = false
is_some_time (some t) = true

abbrev pub is_nonempty : List PasswordReset → Bool
is_nonempty [] = false
is_nonempty (r ∷ rest) = true

abbrev pub mark_used : ℕ → PasswordReset → PasswordReset
mark_used now r = record r { used_at = some now }

-- `db.add(reset)`, whose token is unique
unfoldable pub insert_reset : PasswordReset → Exec (Unit {0})
insert_reset reset = do
  taken ← gets (λ s. with_token reset.token s.pending.password_resets)
  raise_if (is_nonempty taken) Error.integrity_error
  modify λ d. record d { password_resets = d.password_resets ++ reset ∷ [] }

-- `token` is the one that `secrets.token_urlsafe` draws.
unfoldable pub create_reset : String → User → Exec (Option (User × String))
create_reset token user = do
  id ← fresh_id
  now ← gets (λ s. s.now)
  let reset : PasswordReset = record {
    id = id;
    created_at = now;
    tenant_id = user.tenant_id;
    user_id = user.id;
    token = token;
    expires_at = now + password_reset_expiry;
    used_at = none;
  }
  insert_reset reset
  commit
  pure (some (user, token))

-- Nothing is done for an unknown address, and the request is answered all the same.
unfoldable pub reset_for : String → Option User → Exec (Option (User × String))
reset_for token none = pure none
reset_for token (some user) = create_reset token user

unfoldable pub request_password_reset : String → String → Exec (Option (User × String))
request_password_reset token email = do
  found ← gets (λ s. with_email email s.pending.users)
  user ← scalar_one_or_none found
  reset_for token user

-- The link is there, unused and not expired.
unfoldable pub usable_reset : String → Exec PasswordReset
usable_reset token = do
  found ← gets (λ s. with_token token s.pending.password_resets)
  row ← scalar_one_or_none found
  reset ← or_raise row Error.password_reset_not_found
  raise_if (is_some_time reset.used_at) Error.password_reset_already_used
  now ← gets (λ s. s.now)
  raise_if (ltb reset.expires_at now) Error.password_reset_expired
  pure reset

-- `hash_password` is bcrypt's, with the salt that it draws in this request.
module _ (hash_password : String → String) where
  abbrev pub with_password : String → User → User
  with_password password u = record u { hashed_password = hash_password password }

  -- What is written for a usable link.
  unfoldable pub use_reset : PasswordReset → String → Exec User
  use_reset reset new_password = do
    user ← get_user reset.user_id
    now ← gets (λ s. s.now)
    modify λ d. record d {
      users = update_by_id user.id (with_password new_password) d.users;
      password_resets = update_by_id reset.id (mark_used now) d.password_resets;
    }
    commit
    pure (with_password new_password user)

  unfoldable pub reset_password : String → String → Exec User
  reset_password token new_password = do reset ← usable_reset token; use_reset reset new_password
