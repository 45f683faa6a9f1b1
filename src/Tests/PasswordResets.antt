-- ===== src/Tests/PasswordResets.antt =====
-- A reset link of the fixture's shop.
use aurapro.Prelude.{ℕ, ◌≡◌, refl, String, none, some, [], ◌∷◌, false}
use aurapro.Models.{Database}
use aurapro.Models.Identity.{User, UserRole, PasswordReset}
use aurapro.Session.{Session, Result, ok, err}
use aurapro.Session.Errors.{Error}
use aurapro.Users.{get_user}
use aurapro.PasswordResets.{
  with_token, with_email, insert_reset, create_reset, reset_for, request_password_reset,
  usable_reset, use_reset, reset_password,
}
use aurapro.PasswordResets.Once.{opened_unscoped, IsUsed, IsUsable, Resets, reset_password_once}
use aurapro.PasswordResets.Life.{done, step, ask, used_link_refused}
use aurapro.Tests.Fixtures.{shop}

reset_code : ℕ
unfolding with_token with_email insert_reset create_reset reset_for request_password_reset
    usable_reset use_reset reset_password get_user
reset_code = 0

abbrev ana : User
ana = record {
  id = 80;
  created_at = 0;
  tenant_id = 1;
  email = "ana@aurapro";
  hashed_password = "old";
  first_name = none;
  last_name = none;
  role = UserRole.admin;
  is_superadmin = false;
}

abbrev link : PasswordReset
link = record {
  id = 90;
  created_at = 0;
  tenant_id = 1;
  user_id = 80;
  token = "abc";
  expires_at = 10;
  used_at = none;
}

abbrev house : Database
house = record shop { users = ana ∷ []; password_resets = link ∷ [] }

abbrev hash : String → String
hash password = password

abbrev used : Result User × Session
used = reset_password hash "abc" "12345678" (opened_unscoped 10 house)

abbrev renewed : User
renewed = record ana { hashed_password = "12345678" }

using : used ≡ (ok renewed, used.1)
unfolding reset_code
using = refl

-- A microsecond too late.
late :
    (reset_password hash "abc" "12345678" (opened_unscoped 11 house)).0
    ≡ err Error.password_reset_expired
unfolding reset_code
late = refl

reset_password_once_example :
    ((r : PasswordReset) × IsUsable "abc" 10 house r
      × Resets hash "12345678" 10 house r renewed used.1.committed)
    × ((again : String → String) (other : String) (later : ℕ)
        → reset_password again "abc" other (opened_unscoped later used.1.committed)
          ≡ (err Error.password_reset_already_used, opened_unscoped later used.1.committed))
reset_password_once_example =
    reset_password_once hash "abc" "12345678" 10 house renewed used.1 using

abbrev used_link : PasswordReset
used_link = record link { used_at = some 10 }

abbrev used_house : Database
used_house = record house { password_resets = used_link ∷ [] }

used_house-IsUsed : IsUsed "abc" used_house
unfolding reset_code
used_house-IsUsed = (used_link, 10, refl, refl)

abbrev asked_house : Database
asked_house =
    (request_password_reset "def" "ana@aurapro" (opened_unscoped 11 used_house)).1.committed

used_link_refused_example :
    reset_password hash "abc" "87654321" (opened_unscoped 12 asked_house)
    ≡ (err Error.password_reset_already_used, opened_unscoped 12 asked_house)
used_link_refused_example =
    used_link_refused "abc" {d = used_house} {d' = asked_house} used_house-IsUsed
      (step (ask "def" "ana@aurapro" 11) done) hash "87654321" 12
