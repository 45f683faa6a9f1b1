-- ===== src/Users/Admins.antt =====
-- No tenant loses its last administrator.
use aurapro.Prelude.{
  ℕ, ◌+◌, ◌≡◌, ◌<◌, refl, String, Bool, true, false, none, some, List, [], ◌∷◌, arith, leb, ◌==◌,
  ==_iff, inl, inr, ◌⊎◌, Option-cases, Bool-cases, subst, if◌then◌else◌, length, filter,
}
use aurapro.Models.{Database}
use aurapro.Models.Identity.{User, user_row}
use aurapro.Session.Errors.{Error}
use aurapro.Session.{opened, ok, err}
use aurapro.Query.{find_by_id, in_scope, update_by_id, delete_by_id}
use aurapro.Query.Laws.{
  IsKeyed, KeepsKey, find_by_id_sound, update_by_id-absent, find_by_id-none_of_none,
}
use aurapro.Users.{
  UserUpdate, is_admin, get_user, count_admins, demotes, spare_last_admin, is_null_role,
  delete_user, apply_update, update_user,
}

-- The number of the tenant's administrators.
abbrev pub admins : ℕ → List User → ℕ
admins t users = length (filter (λ (u : User). is_admin u.role) (in_scope (some t) users))

abbrev pub admin_of : ℕ → User → ℕ
admin_of t u = if u.tenant_id == t then (if is_admin u.role then 1 else 0) else 0

admins-cons :
    (t : ℕ) (u : User) (users : List User) → admins t (u ∷ users) ≡ admin_of t u + admins t users
admins-cons t u users = ground arith

-- The first row has the key, so that it is the one that is found, and no other has it.
keyed_here :
    (scope k : ℕ) (x : User) (users : List User) (u : User)
    → (x.id == k) ≡ true
    → IsKeyed (x ∷ users)
    → find_by_id (some scope) k (x ∷ users) ≡ some u
    → (find_by_id none k users ≡ none) × (u ≡ x)
keyed_here scope k x users u same keyed h =
    let alone : find_by_id none k users ≡ none =
      subst (λ j. find_by_id none j users ≡ none) ((==_iff x.id k).0 same) keyed.0 in
    let unseen = find_by_id-none_of_none (some scope) k users alone in
    (alone, ground (arith, unseen))

pub admins-update :
    (scope : ℕ) (t k : ℕ) (f : User → User) (users : List User) (u : User)
    → IsKeyed users
    → KeepsKey f
    → find_by_id (some scope) k users ≡ some u
    → admins t (update_by_id k f users) + admin_of t u ≡ admins t users + admin_of t (f u)
admins-update scope t k f [] u keyed keep h = cc
admins-update scope t k f (x ∷ users) u keyed keep h = elim (Bool-cases (x.id == k)) [
  | inl same ↦
      let there = keyed_here scope k x users u same keyed h in
      rw same (
        rw (update_by_id-absent k f users there.0)
          (rw (admins-cons t (f x) users) (rw (admins-cons t x users) (rw there.1 (omega arith)))))
  | inr other ↦
      let h' = rw other at h in
      let ih = admins-update scope t k f users u keyed.1 keep h' in
      rw other (
        rw (admins-cons t x (update_by_id k f users))
          (rw (admins-cons t x users) (omega (arith, ih))))
]

delete_by_id-absent :
    (k : ℕ) (users : List User) → find_by_id none k users ≡ none → delete_by_id k users ≡ users
delete_by_id-absent k [] h = refl
delete_by_id-absent k (x ∷ users) h = ground (arith, delete_by_id-absent k users)

pub admins-delete :
    (scope : ℕ) (t k : ℕ) (users : List User) (u : User)
    → IsKeyed users
    → find_by_id (some scope) k users ≡ some u
    → admins t (delete_by_id k users) + admin_of t u ≡ admins t users
admins-delete scope t k [] u keyed h = cc
admins-delete scope t k (x ∷ users) u keyed h = elim (Bool-cases (x.id == k)) [
  | inl same ↦
      let there = keyed_here scope k x users u same keyed h in
      rw same (
        rw (delete_by_id-absent k users there.0)
          (rw (admins-cons t x users) (rw there.1 (omega arith))))
  | inr other ↦
      let h' = rw other at h in
      let ih = admins-delete scope t k users u keyed.1 h' in
      rw other (
        rw (admins-cons t x (delete_by_id k users))
          (rw (admins-cons t x users) (omega (arith, ih))))
]

-- A request either changes nothing or has found its user, and the tenant has another administrator
-- if it takes one away.
abbrev pub Spared : ℕ → Database → Bool → Type 0
Spared w d takes_one = (takes_one ≡ false) ⊎ (1 < admins w d.users)

pub spared :
    (w now : ℕ) (d : Database) (takes_one : Bool) (e : Error)
    → ((spare_last_admin takes_one e (opened w now d) ≡ (ok tt, opened w now d))
        × Spared w d takes_one)
      ⊎ (spare_last_admin takes_one e (opened w now d) ≡ (err e, opened w now d))
unfolding spare_last_admin count_admins
spared w now d false e = inl (refl, inl refl)
spared w now d true e = elim (Bool-cases (leb (admins w d.users) 1)) [
  | inl few ↦ inr (ground arith)
  | inr more ↦ inl (ground arith, inr (ground arith))
]

abbrev updated_users : (String → String) → ℕ → UserUpdate → Database → List User
updated_users hash k payload d = update_by_id k (apply_update hash payload) d.users

pub update_user-cases :
    (hash : String → String) (w now k : ℕ) (payload : UserUpdate) (d : Database)
    → ((update_user hash k payload (opened w now d)).1.committed ≡ d)
      ⊎ ((u : User) × (find_by_id (some w) k d.users ≡ some u)
          × Spared w d (demotes payload.role u.role)
          × (is_null_role payload.role ≡ false)
          × ((update_user hash k payload (opened w now d)).1.committed.users
              ≡ updated_users hash k payload d))
unfolding update_user get_user
update_user-cases hash w now k payload d = elim (Option-cases (find_by_id (some w) k d.users)) [
  | inl absent ↦ inl (ground arith)
  | inr (u, found) ↦
      let key = (find_by_id_sound (some w) k d.users u found).0 in
      elim (spared w now d (demotes payload.role u.role) Error.cannot_demote_last_admin) [
        | inr refused ↦ inl (ground arith)
        | inl (passed, enough) ↦ elim (Bool-cases (is_null_role payload.role)) [
          | inl null ↦ inl (rw found (rw passed (rw null refl)))
          | inr valued ↦ inr (u, found, enough, valued, ground (arith, key))
        ]
      ]
]

pub delete_user-cases :
    (w now k current : ℕ) (d : Database)
    → ((delete_user k current (opened w now d)).1.committed ≡ d)
      ⊎ ((u : User) × (find_by_id (some w) k d.users ≡ some u)
          × Spared w d (is_admin u.role)
          × ((delete_user k current (opened w now d)).1.committed.users ≡ delete_by_id k d.users))
unfolding delete_user get_user
delete_user-cases w now k current d = elim (Bool-cases (k == current)) [
  | inl self ↦ inl (ground arith)
  | inr other ↦ elim (Option-cases (find_by_id (some w) k d.users)) [
    | inl absent ↦ inl (ground arith)
    | inr (u, found) ↦
        let key = (find_by_id_sound (some w) k d.users u found).0 in
        elim (spared w now d (is_admin u.role) Error.cannot_delete_last_admin) [
          | inr refused ↦ inl (ground arith)
          | inl (passed, enough) ↦ inr (u, found, enough, ground (arith, key))
        ]
  ]
]
