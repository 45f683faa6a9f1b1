-- ===== src/PasswordResets/Life.antt =====
-- The life of a reset link over any sequence of requests.
use text.Mathlib.TextEquality.{eq_iff}
use aurapro.Prelude.{
  ◌⊎◌, ℕ, ◌≡◌, refl, ◌∙◌, ap, sym, String, true, false, List, [], ◌∷◌, ◌++◌, arith, inl, inr, subst,
  Bool-cases, str_eq, filter-append,
}
use aurapro.Models.{Database}
use aurapro.Models.Identity.{User, PasswordReset}
use aurapro.Session.{Session, Result, err}
use aurapro.Session.Errors.{Error}
use aurapro.Session.Rules.{Result-cases, List-cases, IsUncommitted, uncommitted_rules}
use aurapro.PasswordResets.{
  with_token, is_nonempty, insert_reset, create_reset, reset_for, request_password_reset,
  usable_reset, use_reset, reset_password, with_email,
}
use aurapro.PasswordResets.Once.{
  opened_unscoped, IsUsed, Resets, IsUsed-update, used_refused, use_reset-eq-ok, use_reset-eq-err,
  usable_reset-eq-ok,
}

-- The requests that write reset links, with what each leaves committed, whether it returned or
-- raised. `drawn` is the new link's token, and `hash` is bcrypt's with that request's salt.
pub data Step : Database → Database → Type 0 where
  ask :
      (drawn email : String) (now : ℕ) {d : Database}
      → Step d (request_password_reset drawn email (opened_unscoped now d)).1.committed
  use_link :
      (hash : String → String) (token password : String) (now : ℕ) {d : Database}
      → Step d (reset_password hash token password (opened_unscoped now d)).1.committed

-- Any number of them.
pub data Steps : Database → Database → Type 0 where
  done : {d : Database} → Steps d d
  step : {d d' d'' : Database} → Step d d' → Steps d' d'' → Steps d d''

-- A new link has a token of its own, so that it joins no other token's.
clash :
    (token : String) (resets : List PasswordReset) (r q : PasswordReset)
    → with_token token resets ≡ q ∷ []
    → is_nonempty (with_token r.token resets) ≡ false
    → r.token ≡ token
    → ⊥
clash token resets r q h fresh same =
    let nonempty : is_nonempty (with_token r.token resets) ≡ true =
      ap (λ k. is_nonempty (with_token k resets)) same ∙ ap is_nonempty h in
    ground (arith, nonempty, fresh)

with_token-append :
    (token : String) (resets : List PasswordReset) (r q : PasswordReset)
    → with_token token resets ≡ q ∷ []
    → is_nonempty (with_token r.token resets) ≡ false
    → with_token token (resets ++ r ∷ []) ≡ q ∷ []
unfolding with_token
with_token-append token resets r q h fresh =
    filter-append (λ (x : PasswordReset). str_eq x.token token) resets (r ∷ [])
    ∙ elim (Bool-cases (str_eq r.token token)) [
      | inl same ↦ absurd (clash token resets r q h fresh ((eq_iff r.token token).0 same))
      | inr other ↦ rw other (rw h refl)
    ]

create_reset_keeps :
    (token drawn : String) (user : User) (now : ℕ) (d : Database)
    → IsUsed token d
    → IsUsed token (create_reset drawn user (opened_unscoped now d)).1.committed
unfolding create_reset insert_reset
create_reset_keeps token drawn user now d (r, at, alone, used) =
    elim (Bool-cases (is_nonempty (with_token drawn d.password_resets))) [
      | inl taken ↦ rw taken (r, at, alone, used)
      | inr fresh ↦
          rw fresh (r, at, with_token-append token d.password_resets _ r alone fresh, used)
    ]

ask_keeps :
    (token drawn email : String) (now : ℕ) (d : Database)
    → IsUsed token d
    → IsUsed token (request_password_reset drawn email (opened_unscoped now d)).1.committed
unfolding request_password_reset reset_for
ask_keeps token drawn email now d used = elim (List-cases (with_email email d.users)) [
  | inl absent ↦ rw absent used
  | inr (inl (u, one)) ↦ rw one (create_reset_keeps token drawn u now d used)
  | inr (inr (u, v, rest, many)) ↦ rw many used
]

usable_reset-IsUncommitted : (token : String) → IsUncommitted (usable_reset token)
unfolding usable_reset
usable_reset-IsUncommitted token = search uncommitted_rules depth 12

-- A use of a link commits nothing, or the new password and the use.
pub reset_password-cases :
    (hash : String → String) (link password : String) (now : ℕ) (d : Database)
    → ((reset_password hash link password (opened_unscoped now d)).1.committed ≡ d)
      ⊎ ((r : PasswordReset) × (u : User) × Resets hash password now d r u
            (reset_password hash link password (opened_unscoped now d)).1.committed)
unfolding reset_password
reset_password-cases hash link password now d =
    let s = opened_unscoped now d in
    elim (Result-cases (usable_reset link s)) [
      | inr (e, s1, refused) ↦ inl (
          rw refused (
            subst (λ (z : Result PasswordReset × Session). z.1.committed ≡ d) refused
              ((usable_reset-IsUncommitted link).committed s)))
      | inl (r, s1, usable) ↦
          let same = (usable_reset-eq-ok link now d r s1 usable).1 in
          elim (Result-cases (use_reset hash r password s)) [
            | inr (e, s2, refused) ↦ inl (
                rw usable
                  (rw same (rw refused (use_reset-eq-err hash r password now d e s2 refused))))
            | inl (u, s2, done_so) ↦ inr (
              r,
              u,
              rw usable (rw same (rw done_so (use_reset-eq-ok hash r password now d u s2 done_so))),
            )
          ]
    ]

use_keeps :
    (hash : String → String) (token link password : String) (now : ℕ) (d : Database)
    → IsUsed token d
    → IsUsed token (reset_password hash link password (opened_unscoped now d)).1.committed
use_keeps hash token link password now d used =
    elim (reset_password-cases hash link password now d) [
      | inl same ↦ subst (IsUsed token) (sym same) used
      | inr (r, u, written) ↦
          IsUsed-update token r.id now d
            (reset_password hash link password (opened_unscoped now d)).1.committed
            (ap (λ (z : Database). z.password_resets) written.3) used
    ]

Steps-IsUsed : (token : String) {d d' : Database} → Steps d d' → IsUsed token d → IsUsed token d'
Steps-IsUsed token done used = used
Steps-IsUsed token (step (ask drawn email now {d}) rest) used =
    Steps-IsUsed token rest (ask_keeps token drawn email now d used)
Steps-IsUsed token (step (use_link hash link password now {d}) rest) used =
    Steps-IsUsed token rest (use_keeps hash token link password now d used)

-- A reset link that was used once is refused for good: if it is the only one with its token and was
-- used, then after any number of requests for new links and uses of links, whether they succeed or
-- not, a use of this link is refused and changes nothing.
pub used_link_refused :
    (token : String) {d d' : Database}
    → IsUsed token d
    → Steps d d'
    → (hash : String → String) (password : String) (now : ℕ)
    → reset_password hash token password (opened_unscoped now d')
      ≡ (err Error.password_reset_already_used, opened_unscoped now d')
used_link_refused token {d' = d'} used steps hash password now =
    used_refused hash token password now d' (Steps-IsUsed token steps used)
