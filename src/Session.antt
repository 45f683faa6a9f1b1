-- ===== src/Session.antt =====
-- The SQLAlchemy session that every service function of backend/app takes as `db`.
-- `pending` is what a query of the open transaction sees, and `committed` is what other requests
-- see. An exception leaves both as they are, and the end of the request (`async with` in
-- backend/app/db/tenant_session.py) drops what is pending.
pub mod Errors
pub mod Rules
use aurapro.Prelude.{ℕ, ◌+◌, Bool, true, false, Option, none, some, List, [], ◌∷◌}
use aurapro.Models.{Database}
pub use Errors.{Result, ok, err}
use Errors.{Error}

-- `scope` is the tenant that `get_tenant_db` filters by; a superadmin's session has none. `now` is
-- the clock of the request.
pub record Session : Type 0 where
  pub scope : Option ℕ
  pub now : ℕ
  pub committed : Database
  pub pending : Database

-- A request in a session of tenant `t` at time `now` begins with what is committed.
abbrev pub opened : ℕ → ℕ → Database → Session
opened t now d = record { scope = some t; now = now; committed = d; pending = d }

abbrev pub Exec {ℓ} : Type ℓ → Type ℓ
Exec A = Session → Result A × Session

module _ {ℓ} {A : Type ℓ} where
  abbrev pub pure : A → Exec A
  pure a s = (ok a, s)

  abbrev pub raise : Error → Exec A
  raise e s = (err e, s)

  abbrev pub gets : (Session → A) → Exec A
  gets f s = (ok (f s), s)

  -- A value that has to be there.
  abbrev pub or_raise : Option A → Error → Exec A
  or_raise none e = raise e
  or_raise (some a) e = pure a

module _ {ℓ κ} {A : Type ℓ} {B : Type κ} where
  abbrev pub continue : Result A → (A → Exec B) → Exec B
  continue (ok a) f = f a
  continue (err e) f = raise e

  infixl 5 ◌>>=◌
  abbrev pub ◌>>=◌ : Exec A → (A → Exec B) → Exec B
  ◌>>=◌ m f s = let (r, s') = m s in continue r f s'

module _ {ℓ κ} {A : Type ℓ} {B : Type κ} where
  infixl 5 ◌>>◌
  abbrev pub ◌>>◌ : Exec A → Exec B → Exec B
  m >> k = m >>= λ _. k

-- `if test: raise`
abbrev pub raise_if : Bool → Error → Exec (Unit {0})
raise_if true e = raise e
raise_if false e = pure tt

-- What the transaction writes.
abbrev pub modify : (Database → Database) → Exec (Unit {0})
modify f s = (ok tt, record s { pending = f s.pending })

-- `await db.commit()`
abbrev pub commit : Exec (Unit {0})
commit s = (ok tt, record s { committed = s.pending })

-- `await db.rollback()`
abbrev pub rollback : Exec (Unit {0})
rollback s = (ok tt, record s { pending = s.committed })

-- `try: await db.commit() except IntegrityError: await db.rollback(); raise`, for a write that meets
-- the constraints or does not
abbrev pub commit_or_rescue : Bool → Error → (Database → Database) → Exec (Unit {0})
commit_or_rescue true e write = modify write >> commit
commit_or_rescue false e write = rollback >> raise e

-- The identifier of a new row.
abbrev pub fresh_id : Exec ℕ
fresh_id s = (
  ok s.pending.next_id,
  record s { pending = record s.pending { next_id = s.pending.next_id + 1 } },
)

-- `scalar_one_or_none()` on the rows that a query found
abbrev pub scalar_one_or_none {ℓ} : {A : Type ℓ} → List A → Exec (Option A)
scalar_one_or_none [] = pure none
scalar_one_or_none (a ∷ []) = pure (some a)
scalar_one_or_none (a ∷ b ∷ rest) = raise Error.multiple_results_found
