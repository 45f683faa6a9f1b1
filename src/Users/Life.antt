-- ===== src/Users/Life.antt =====
-- The administrators of every tenant over any sequence of requests.
use aurapro.Prelude.{
  ℕ, ◌≡◌, ◌≤◌, ◌<◌, refl, sym, String, true, false, some, none, List, [], ◌∷◌, arith, ◌==◌, ==_iff,
  inl, inr, ◌⊎◌, subst, Bool-cases,
}
use aurapro.Models.{Database}
use aurapro.Models.Identity.{User, user_row}
use aurapro.Session.{opened}
use aurapro.Query.{find_by_id, delete_by_id}
use aurapro.Query.Laws.{IsKeyed, IsKeyed-update, find_by_id_sound}
use aurapro.Users.{UserUpdate, demotes, delete_user, apply_update, update_user}
use aurapro.Users.Admins.{
  admins, admin_of, admins-update, admins-delete, update_user-cases, delete_user-cases,
}

-- Primary keys are unique among the users, and the tenant has an administrator.
abbrev pub IsAdministered : ℕ → Database → Type 0
IsAdministered t d = IsKeyed d.users × (0 < admins t d.users)

-- The requests to change or remove a user, in a session of any tenant `w`, with what each leaves
-- committed, whether it returned or raised. `hash` is bcrypt's, with that request's salt.
pub data Step : Database → Database → Type 0 where
  update_request :
      (hash : String → String) (w now k : ℕ) (payload : UserUpdate) {d : Database}
      → Step d (update_user hash k payload (opened w now d)).1.committed
  delete_request :
      (w now k current : ℕ) {d : Database}
      → Step d (delete_user k current (opened w now d)).1.committed

-- Any number of them.
pub data Steps : Database → Database → Type 0 where
  done : {d : Database} → Steps d d
  step : {d d' d'' : Database} → Step d d' → Steps d' d'' → Steps d d''

find_by_id-delete_none :
    (j k : ℕ) (users : List User)
    → find_by_id none j users ≡ none
    → find_by_id none j (delete_by_id k users) ≡ none
find_by_id-delete_none j k [] h = refl
find_by_id-delete_none j k (x ∷ users) h = ground (arith, find_by_id-delete_none j k users)

IsKeyed-delete : (k : ℕ) (users : List User) → IsKeyed users → IsKeyed (delete_by_id k users)
IsKeyed-delete k [] h = tt
IsKeyed-delete k (x ∷ users) h = elim (Bool-cases (x.id == k)) [
  | inl gone ↦ rw gone (IsKeyed-delete k users h.1)
  | inr kept ↦ rw kept (find_by_id-delete_none x.id k users h.0, IsKeyed-delete k users h.1)
]

-- What the guard says of any tenant's count.
spared_one :
    (t w : ℕ) (d : Database) (u : User)
    → (u.tenant_id == w) ≡ true
    → 1 < admins w d.users
    → (1 < admins t d.users) ⊎ (admin_of t u ≡ 0)
spared_one t w d u own many = elim (Bool-cases (w == t)) [
  | inl same ↦ inl (subst (λ v. 1 < admins v d.users) ((==_iff w t).0 same) many)
  | inr other ↦ inr (ground arith)
]

admin_of-apply_update :
    (t : ℕ) (hash : String → String) (payload : UserUpdate) (u : User)
    → demotes payload.role u.role ≡ false
    → admin_of t u ≤ admin_of t (apply_update hash payload u)
admin_of-apply_update t hash payload u h = ground arith

admin_of-le : (t : ℕ) (u : User) → admin_of t u ≤ 1
admin_of-le t u = ground arith

Step-IsAdministered :
    (t : ℕ) {d d' : Database} → Step d d' → IsAdministered t d → IsAdministered t d'
Step-IsAdministered t (update_request hash w now k payload {d}) (keyed, some_admin) =
    elim (update_user-cases hash w now k payload d) [
      | inl same ↦ subst (IsAdministered t) (sym same) (keyed, some_admin)
      | inr (u, found, enough, valued, users) ↦
          let f = apply_update hash payload in
          let own = (find_by_id_sound (some w) k d.users u found).1 in
          let count = admins-update w t k f d.users u keyed (λ r. (refl, refl)) found in
          let few = admin_of-le t u in
          rw users (
            IsKeyed-update k f d.users (λ r. (refl, refl)) keyed,
            elim enough [
              | inl keeps ↦
                  let more = admin_of-apply_update t hash payload u keeps in
                  omega (arith, count, more, some_admin)
              | inr many ↦ elim (spared_one t w d u own many) [
                | inl others ↦ omega (arith, count, few, others)
                | inr no_admin ↦ omega (arith, count, no_admin, some_admin)
              ]
            ],
          )
    ]
Step-IsAdministered t (delete_request w now k current {d}) (keyed, some_admin) =
    elim (delete_user-cases w now k current d) [
      | inl same ↦ subst (IsAdministered t) (sym same) (keyed, some_admin)
      | inr (u, found, enough, users) ↦
          let own = (find_by_id_sound (some w) k d.users u found).1 in
          let count = admins-delete w t k d.users u keyed found in
          let few = admin_of-le t u in
          rw users (
            IsKeyed-delete k d.users keyed,
            elim enough [
              | inl keeps ↦
                  let no_admin : admin_of t u ≡ 0 = ground (arith, keeps) in
                  omega (arith, count, no_admin, some_admin)
              | inr many ↦ elim (spared_one t w d u own many) [
                | inl others ↦ omega (arith, count, few, others)
                | inr no_admin ↦ omega (arith, count, no_admin, some_admin)
              ]
            ],
          )
    ]

-- No tenant loses its last administrator: if primary keys are unique among the users and tenant `t`
-- has an administrator, then both still hold after any number of requests to change or remove
-- users, in sessions of any tenants, in any order and whether they succeed or not.
pub last_admin_stays :
    (t : ℕ) {d d' : Database} → IsAdministered t d → Steps d d' → IsAdministered t d'
last_admin_stays t h done = h
last_admin_stays t h (step first rest) = last_admin_stays t (Step-IsAdministered t first h) rest
