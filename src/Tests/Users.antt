-- ===== src/Tests/Users.antt =====
-- The members of the fixture's tenant.
use aurapro.Prelude.{ℕ, ◌≡◌, refl, String, false, none, some, [], ◌∷◌, arith}
use aurapro.Models.{Database}
use aurapro.Models.Identity.{User, UserRole}
use aurapro.Session.{Session, opened, Result, err}
use aurapro.Session.Errors.{Error}
use aurapro.Users.{UserUpdate, get_user, count_admins, spare_last_admin, delete_user, update_user}
use aurapro.Users.Life.{
  IsAdministered, done, step, update_request, delete_request, last_admin_stays,
}
use aurapro.Tests.Fixtures.{shop}

user_code : ℕ
unfolding update_user delete_user get_user spare_last_admin count_admins
user_code = 0

abbrev member : ℕ → UserRole → User
member id role = record {
  id = id;
  created_at = 0;
  tenant_id = 1;
  email = "ana@aurapro";
  hashed_password = "";
  first_name = none;
  last_name = none;
  role = role;
  is_superadmin = false;
}

abbrev team : Database
team = record shop { users = member 80 UserRole.admin ∷ member 81 UserRole.admin ∷ [] }

abbrev hash : String → String
hash password = password

abbrev demotion : UserUpdate
demotion = record {
  first_name = none;
  last_name = some (some "Ana");
  role = some (some UserRole.viewer);
  new_password = some "12345678";
}

abbrev demoted : Result User × Session
demoted = update_user hash 80 demotion (opened 1 5 team)

-- One of two administrators may go, and the other may not.
second_stays :
    (delete_user 81 80 (opened 1 6 demoted.1.committed)).0 ≡ err Error.cannot_delete_last_admin
unfolding user_code
second_stays = refl

last_admin_stays_example :
    IsAdministered 1 (delete_user 81 80 (opened 1 6 demoted.1.committed)).1.committed
last_admin_stays_example =
    last_admin_stays 1 {d = team}
      {d' = (delete_user 81 80 (opened 1 6 demoted.1.committed)).1.committed}
      ((refl, (refl, tt)), omega arith)
      (step (update_request hash 1 5 80 demotion) (step (delete_request 1 6 81 80) done))
