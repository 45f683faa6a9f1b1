-- ===== src/Session/Rules.antt =====
-- How a chain of steps ends well, and which steps leave the committed data alone.
use aurapro.Prelude.{
  ◌≡◌, refl, ◌∙◌, Bool, true, false, Option, none, some, List, [], ◌∷◌, ◌⊎◌, inl, inr,
  if◌then◌else◌,
}
use aurapro.Models.{Database}
use aurapro.Session.Errors.{Error, Result, ok, err}
use aurapro.Session.{
  Session, Exec, pure, raise, gets, or_raise, continue, ◌>>=◌, raise_if, modify, fresh_id,
  scalar_one_or_none,
}

module _ {ℓ κ} {A : Type ℓ} {B : Type κ} where
  continue-eq-ok :
      (r : Result A × Session) (f : A → Exec B) {b : B} {s'' : Session}
      → continue r.0 f r.1 ≡ (ok b, s'')
      → (a : A) × (s' : Session) × (r ≡ (ok a, s')) × (f a s' ≡ (ok b, s''))
  continue-eq-ok (ok a, s') f h = (a, s', refl, h)
  continue-eq-ok (err e, s') f h = cc

  -- A block that returns has gone through its first step, and the rest began where that ended.
  pub >>=-eq-ok :
      (m : Exec A) (f : A → Exec B) (s : Session) {b : B} {s'' : Session}
      → (m >>= f) s ≡ (ok b, s'')
      → (a : A) × (s' : Session) × (m s ≡ (ok a, s')) × (f a s' ≡ (ok b, s''))
  >>=-eq-ok m f s h = continue-eq-ok (m s) f h

-- How a step has ended.
pub Result-cases {ℓ} :
    {A : Type ℓ} (r : Result A × Session)
    → ((a : A) × (s' : Session) × (r ≡ (ok a, s')))
      ⊎ ((e : Error) × (s' : Session) × (r ≡ (err e, s')))
Result-cases (ok a, s') = inl (a, s', refl)
Result-cases (err e, s') = inr (e, s', refl)

-- The three ways in which `scalar_one_or_none` meets the rows of a query.
pub List-cases {ℓ} :
    {A : Type ℓ} (l : List A)
    → (l ≡ []) ⊎ ((a : A) × (l ≡ a ∷ [])) ⊎ ((a b : A) × (rest : List A) × (l ≡ a ∷ b ∷ rest))
List-cases [] = inl refl
List-cases (a ∷ []) = inr (inl (a, refl))
List-cases (a ∷ b ∷ rest) = inr (inr (a, b, rest, refl))

-- Whatever the outcome, only what is pending has changed.
pub record IsUncommitted {ℓ} {A : Type ℓ} (m : Exec A) : Type ℓ where
  pub committed : (s : Session) → (m s).1.committed ≡ s.committed
  pub scope : (s : Session) → (m s).1.scope ≡ s.scope
  pub now : (s : Session) → (m s).1.now ≡ s.now

module _ {ℓ} {A : Type ℓ} where
  pub pure-IsUncommitted : (a : A) → IsUncommitted (pure a)
  pure-IsUncommitted a = record { committed = λ s. refl; scope = λ s. refl; now = λ s. refl }

  pub raise-IsUncommitted : (e : Error) → IsUncommitted (raise {A = A} e)
  raise-IsUncommitted e = record { committed = λ s. refl; scope = λ s. refl; now = λ s. refl }

  pub gets-IsUncommitted : (f : Session → A) → IsUncommitted (gets f)
  gets-IsUncommitted f = record { committed = λ s. refl; scope = λ s. refl; now = λ s. refl }

  pub or_raise-IsUncommitted : (o : Option A) (e : Error) → IsUncommitted (or_raise o e)
  or_raise-IsUncommitted none e = raise-IsUncommitted e
  or_raise-IsUncommitted (some a) e = pure-IsUncommitted a

pub scalar_one_or_none-IsUncommitted {ℓ} :
    {A : Type ℓ} (l : List A) → IsUncommitted (scalar_one_or_none l)
scalar_one_or_none-IsUncommitted [] = pure-IsUncommitted none
scalar_one_or_none-IsUncommitted (a ∷ []) = pure-IsUncommitted (some a)
scalar_one_or_none-IsUncommitted (a ∷ b ∷ l) = raise-IsUncommitted Error.multiple_results_found

pub raise_if-IsUncommitted : (b : Bool) (e : Error) → IsUncommitted (raise_if b e)
raise_if-IsUncommitted true e = raise-IsUncommitted e
raise_if-IsUncommitted false e = pure-IsUncommitted tt

pub modify-IsUncommitted : (f : Database → Database) → IsUncommitted (modify f)
modify-IsUncommitted f = record { committed = λ s. refl; scope = λ s. refl; now = λ s. refl }

pub fresh_id-IsUncommitted : IsUncommitted fresh_id
fresh_id-IsUncommitted = record { committed = λ s. refl; scope = λ s. refl; now = λ s. refl }

module _ {ℓ κ} {A : Type ℓ} {B : Type κ} where
  continue-IsUncommitted :
      (r : Result A) (f : A → Exec B)
      → ((a : A) → IsUncommitted (f a))
      → IsUncommitted (continue r f)
  continue-IsUncommitted (ok a) f q = q a
  continue-IsUncommitted (err e) f q = raise-IsUncommitted e

  pub >>=-IsUncommitted :
      (m : Exec A) (f : A → Exec B)
      → IsUncommitted m
      → ((a : A) → IsUncommitted (f a))
      → IsUncommitted (m >>= f)
  >>=-IsUncommitted m f p q = record {
    committed = λ s. (continue-IsUncommitted (m s).0 f q).committed (m s).1 ∙ p.committed s;
    scope = λ s. (continue-IsUncommitted (m s).0 f q).scope (m s).1 ∙ p.scope s;
    now = λ s. (continue-IsUncommitted (m s).0 f q).now (m s).1 ∙ p.now s;
  }

pub if-IsUncommitted {ℓ} :
    {A : Type ℓ} (b : Bool) (m n : Exec A)
    → IsUncommitted m
    → IsUncommitted n
    → IsUncommitted (if b then m else n)
if-IsUncommitted true m n hm hn = hm
if-IsUncommitted false m n hm hn = hn

pub ruleset uncommitted_rules = (
  pure-IsUncommitted, raise-IsUncommitted, gets-IsUncommitted, or_raise-IsUncommitted,
  scalar_one_or_none-IsUncommitted, raise_if-IsUncommitted, modify-IsUncommitted,
  fresh_id-IsUncommitted, >>=-IsUncommitted, if-IsUncommitted,
)
