-- ===== src/PasswordResets/Once.antt =====
-- The link of a password reset works once.
use aurapro.Prelude.{
  ℕ, ◌≡◌, refl, ◌∙◌, ap, String, false, some, none, List, [], ◌∷◌, arith, ◌==◌, inl, inr, subst,
  Bool-cases, Option-cases, str_eq, ltb,
}
use aurapro.Models.{Database}
use aurapro.Models.Identity.{User, PasswordReset, user_row, password_reset_row}
use aurapro.Session.{Session, ok, err}
use aurapro.Session.Errors.{Error}
use aurapro.Session.Rules.{>>=-eq-ok, List-cases}
use aurapro.Query.{find_by_id, update_by_id}
use aurapro.Query.Laws.{find_by_id_sound}
use aurapro.Users.{get_user}
use aurapro.PasswordResets.{
  with_token, mark_used, usable_reset, with_password, use_reset, reset_password,
}

-- A request without a tenant begins with what is committed.
abbrev pub opened_unscoped : ℕ → Database → Session
opened_unscoped now d = record { scope = none; now = now; committed = d; pending = d }

-- One link has this token, and it was used.
abbrev pub IsUsed : String → Database → Type 0
IsUsed token d =
    (r : PasswordReset) × (at : ℕ) × (with_token token d.password_resets ≡ r ∷ [])
    × (r.used_at ≡ some at)

with_token-update :
    (token : String) (k now : ℕ) (resets : List PasswordReset)
    → with_token token (update_by_id k (mark_used now) resets)
      ≡ update_by_id k (mark_used now) (with_token token resets)
unfolding with_token
with_token-update token k now [] = refl
with_token-update token k now (x ∷ resets) = elim (Bool-cases (x.id == k)) [
  | inl same ↦ elim (Bool-cases (str_eq x.token token)) [
    | inl here ↦ ground (arith, with_token-update token k now resets)
    | inr away ↦ ground (arith, with_token-update token k now resets)
  ]
  | inr other ↦ elim (Bool-cases (str_eq x.token token)) [
    | inl here ↦ ground (arith, with_token-update token k now resets)
    | inr away ↦ ground (arith, with_token-update token k now resets)
  ]
]

pub IsUsed-update :
    (token : String) (k now : ℕ) (d d' : Database)
    → d'.password_resets ≡ update_by_id k (mark_used now) d.password_resets
    → IsUsed token d
    → IsUsed token d'
IsUsed-update token k now d d' h (r, at, alone, used) =
    let rows : with_token token d'.password_resets ≡ update_by_id k (mark_used now) (r ∷ []) =
      ap (with_token token) h
      ∙ with_token-update token k now d.password_resets
      ∙ ap (update_by_id k (mark_used now)) alone in
    elim (Bool-cases (r.id == k)) [
      | inl same ↦ (mark_used now r, now, ground arith, refl)
      | inr other ↦ (r, at, ground arith, used)
    ]

-- The link that was just used.
marked :
    (token : String) (now : ℕ) (d d' : Database) (r : PasswordReset)
    → with_token token d.password_resets ≡ r ∷ []
    → d'.password_resets ≡ update_by_id r.id (mark_used now) d.password_resets
    → IsUsed token d'
marked token now d d' r alone h =
    let rows : with_token token d'.password_resets ≡ update_by_id r.id (mark_used now) (r ∷ []) =
      ap (with_token token) h
      ∙ with_token-update token r.id now d.password_resets
      ∙ ap (update_by_id r.id (mark_used now)) alone in
    (mark_used now r, now, ground arith, refl)

-- A link is refused once it is used.
pub used_refused :
    (hash : String → String) (token password : String) (now : ℕ) (d : Database)
    → IsUsed token d
    → reset_password hash token password (opened_unscoped now d)
      ≡ (err Error.password_reset_already_used, opened_unscoped now d)
unfolding reset_password usable_reset
used_refused hash token password now d (r, at, alone, used) = ground (arith, alone, used)

-- A link that may be used: the only one with its token, unused and not expired.
abbrev pub IsUsable : String → ℕ → Database → PasswordReset → Type 0
IsUsable token now d r =
    (with_token token d.password_resets ≡ r ∷ [])
    × (r.used_at ≡ none)
    × (ltb r.expires_at now ≡ false)

pub usable_reset-eq-ok :
    (token : String) (now : ℕ) (d : Database) (r : PasswordReset) (s' : Session)
    → usable_reset token (opened_unscoped now d) ≡ (ok r, s')
    → IsUsable token now d r × (s' ≡ opened_unscoped now d)
unfolding usable_reset
usable_reset-eq-ok token now d r s' h = elim (List-cases (with_token token d.password_resets)) [
  | inl absent ↦ absurd (ground arith)
  | inr (inr (q, q', rest, many)) ↦ absurd (ground arith)
  | inr (inl (q, one)) ↦ elim (Option-cases q.used_at) [
    | inr (at, used) ↦ absurd (ground arith)
    | inl unused ↦ elim (Bool-cases (ltb q.expires_at now)) [
      | inl expired ↦ absurd (ground arith)
      | inr live ↦
          let same : q ≡ r = ground arith in
          (
            (
              one ∙ ap (λ x. x ∷ []) same,
              subst (λ (x : PasswordReset). x.used_at ≡ none) same unused,
              subst (λ (x : PasswordReset). ltb x.expires_at now ≡ false) same live,
            ),
            ground arith,
          )
    ]
  ]
]

-- What a reset that succeeds writes: its user's password and its link's use.
abbrev pub Resets :
    (String → String) → String → ℕ → Database → PasswordReset → User → Database → Type 0
Resets hash password now d r u d' =
    (old : User) × (find_by_id none r.user_id d.users ≡ some old)
    × (u ≡ with_password hash password old)
    × (d' ≡ record d {
      users = update_by_id r.user_id (with_password hash password) d.users;
      password_resets = update_by_id r.id (mark_used now) d.password_resets;
    })

pub use_reset-eq-ok :
    (hash : String → String) (r : PasswordReset) (password : String) (now : ℕ) (d : Database)
    (u : User) (s' : Session)
    → use_reset hash r password (opened_unscoped now d) ≡ (ok u, s')
    → Resets hash password now d r u s'.committed
unfolding use_reset get_user
use_reset-eq-ok hash r password now d u s' h =
    elim (Option-cases (find_by_id none r.user_id d.users)) [
      | inl absent ↦ absurd (ground arith)
      | inr (old, found) ↦
          let key = (find_by_id_sound none r.user_id d.users old found).0 in
          (old, found, ground arith, ground (arith, key))
    ]

pub use_reset-eq-err :
    (hash : String → String) (r : PasswordReset) (password : String) (now : ℕ) (d : Database)
    (e : Error) (s' : Session)
    → use_reset hash r password (opened_unscoped now d) ≡ (err e, s')
    → s'.committed ≡ d
unfolding use_reset get_user
use_reset-eq-err hash r password now d e s' h =
    elim (Option-cases (find_by_id none r.user_id d.users)) [
      | inl absent ↦ ground arith
      | inr (old, found) ↦ absurd (ground arith)
    ]

-- A reset that succeeds was asked for with a link that is the only one with its token, unused and
-- not expired. It commits the new hash for the link's user and the link's use, and nothing else, and
-- at any later time, with any password, the same link is refused and nothing is changed.
pub reset_password_once :
    (hash : String → String) (token password : String) (now : ℕ) (d : Database) (u : User)
    (s' : Session)
    → reset_password hash token password (opened_unscoped now d) ≡ (ok u, s')
    → ((r : PasswordReset) × IsUsable token now d r × Resets hash password now d r u s'.committed)
      × ((again : String → String) (other : String) (later : ℕ)
          → reset_password again token other (opened_unscoped later s'.committed)
            ≡ (err Error.password_reset_already_used, opened_unscoped later s'.committed))
unfolding reset_password
reset_password_once hash token password now d u s' h =
    let (r, s1, usable, used) =
      >>=-eq-ok (usable_reset token) (λ r. use_reset hash r password) (opened_unscoped now d) h in
    let (here, same) = usable_reset-eq-ok token now d r s1 usable in
    let written =
      use_reset-eq-ok hash r password now d u s'
        (subst (λ z. use_reset hash r password z ≡ (ok u, s')) same used) in
    (
      (r, here, written),
      λ again other later. used_refused again token other later s'.committed (
          marked token now d s'.committed r here.0
            (ap (λ (z : Database). z.password_resets) written.3)),
    )
