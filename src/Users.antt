-- ===== src/Users.antt =====
-- The members of a tenant: `update_user`, `delete_user` and their helpers in
-- backend/app/modules/identity/services.py.
pub mod Admins
pub mod Life
use aurapro.Prelude.{
  ℕ, String, Bool, true, false, not, ◌&&◌, Option, none, some, List, leb, ◌==◌, if◌then◌else◌, map,
  length, filter,
}
use aurapro.Models.{Database}
use aurapro.Models.Identity.{User, UserRole, Invitation, PasswordReset, user_row}
use aurapro.Models.Customers.{Customer}
use aurapro.Models.Treasury.{CashSession}
use aurapro.Session.{Exec, pure, or_raise, ◌>>=◌, ◌>>◌, raise_if, modify, commit}
use aurapro.Session.Errors.{Error}
use aurapro.Query.{select_by_id, select_where, update_by_id, delete_by_id}

-- A field that is not set is `none`; one that is set to null is `some none`.
pub record UserUpdate : Type 0 where
  pub first_name : Option (Option String)
  pub last_name : Option (Option String)
  pub role : Option (Option UserRole)
  pub new_password : Option String

abbrev pub is_admin : UserRole → Bool
is_admin UserRole.admin = true
is_admin UserRole.vendedor = false
is_admin UserRole.viewer = false

unfoldable pub get_user : ℕ → Exec User
get_user user_id = do
  found ← select_by_id (λ d. d.users) user_id
  or_raise found Error.user_not_found

unfoldable pub count_admins : Exec ℕ
count_admins = do
  admins ← select_where (λ d. d.users) (λ (u : User). is_admin u.role)
  pure (length admins)

-- The request takes the role of an administrator away. A role that is set to null does so too.
abbrev pub demotes : Option (Option UserRole) → UserRole → Bool
demotes none role = false
demotes (some none) role = is_admin role
demotes (some (some new)) role = not (is_admin new) && is_admin role

-- The count under the lock of the tenant's row.
unfoldable pub spare_last_admin : Bool → Error → Exec (Unit {0})
spare_last_admin false e = pure tt
spare_last_admin true e = do n ← count_admins; raise_if (leb n 1) e

abbrev pub set_text : Option (Option String) → Option String → Option String
set_text none old = old
set_text (some new) old = new

abbrev pub set_role : Option (Option UserRole) → UserRole → UserRole
set_role none old = old
set_role (some none) old = old
set_role (some (some new)) old = new

-- The column `role` takes no null, so that the commit fails.
abbrev pub is_null_role : Option (Option UserRole) → Bool
is_null_role none = false
is_null_role (some none) = true
is_null_role (some (some new)) = false

-- Removing a user sets the columns that refer to it to null, or removes their rows, as each foreign
-- key's `ondelete` says.
abbrev pub clear_reference : ℕ → Option ℕ → Option ℕ
clear_reference k none = none
clear_reference k (some j) = if j == k then none else some j

abbrev pub remove_user : ℕ → Database → Database
remove_user k d = record d {
  users = delete_by_id k d.users;
  invitations =
      map
        (λ (i : Invitation). record i {
          invited_by_user_id = clear_reference k i.invited_by_user_id;
        })
        d.invitations;
  password_resets = filter (λ (r : PasswordReset). not (r.user_id == k)) d.password_resets;
  customers =
      map
        (λ (c : Customer). record c {
          default_salesperson_id = clear_reference k c.default_salesperson_id;
        })
        d.customers;
  cash_sessions =
      map
        (λ (c : CashSession). record c {
          opened_by_user_id = clear_reference k c.opened_by_user_id;
          closed_by_user_id = clear_reference k c.closed_by_user_id;
        })
        d.cash_sessions;
}

unfoldable pub delete_user : ℕ → ℕ → Exec (Unit {0})
delete_user user_id current_user_id = do
  raise_if (user_id == current_user_id) Error.cannot_delete_self
  user ← get_user user_id
  spare_last_admin (is_admin user.role) Error.cannot_delete_last_admin
  modify (remove_user user.id)
  commit

-- `hash_password` is bcrypt's, with the salt that it draws in this request.
module _ (hash_password : String → String) where
  abbrev pub set_password : Option String → String → String
  set_password none old = old
  set_password (some new) old = hash_password new

  abbrev pub apply_update : UserUpdate → User → User
  apply_update payload u = record u {
    first_name = set_text payload.first_name u.first_name;
    last_name = set_text payload.last_name u.last_name;
    role = set_role payload.role u.role;
    hashed_password = set_password payload.new_password u.hashed_password;
  }

  unfoldable pub update_user : ℕ → UserUpdate → Exec User
  update_user user_id payload = do
    user ← get_user user_id
    spare_last_admin (demotes payload.role user.role) Error.cannot_demote_last_admin
    raise_if (is_null_role payload.role) Error.integrity_error
    modify λ d. record d { users = update_by_id user.id (apply_update payload) d.users }
    commit
    pure (apply_update payload user)
