-- ===== src/Query.antt =====
-- Queries of backend/app/db/tenant_session.py's sessions. The session adds the condition
-- `tenant_id == <the token's>` to every query of a tenant's table that is not marked
-- `skip_tenant_filter`; a superadmin's session adds none. Only `check_email` of Accounts.antt marks
-- its query.
pub mod Laws
use aurapro.Prelude.{
  ℕ, Bool, true, false, not, ◌&&◌, Option, none, some, List, ◌==◌, if◌then◌else◌, map, find, filter,
}
use aurapro.Models.{Database}
use aurapro.Models.Row.{Row}
use aurapro.Session.{Exec, gets}

-- The condition that the session adds to a query without the mark.
abbrev pub visible : Option ℕ → ℕ → Bool
visible none tenant = true
visible (some scope) tenant = tenant == scope

module _ {A : Type 0} ⦃row : Row A⦄ where
  abbrev pub find_by_id : Option ℕ → ℕ → List A → Option A
  find_by_id scope k xs = find (λ r. row.id r == k && visible scope (row.tenant_id r)) xs

  -- The rows that a query of the session without the mark sees.
  abbrev pub in_scope : Option ℕ → List A → List A
  in_scope scope xs = filter (λ r. visible scope (row.tenant_id r)) xs

  -- `_filter_by_tenant`: the rows that a query sees, which has the mark or has it not.
  abbrev pub loaded : Bool → Option ℕ → List A → List A
  loaded true scope xs = xs
  loaded false scope xs = in_scope scope xs

  -- `select(Model).where(Model.id == k)`: a primary key, so that at most one row fits
  abbrev pub select_by_id : (Database → List A) → ℕ → Exec (Option A)
  select_by_id table k = gets (λ s. find_by_id s.scope k (table s.pending))

  -- `select(Model).where(...)`
  abbrev pub select_where : (Database → List A) → (A → Bool) → Exec (List A)
  select_where table p = gets (λ s. filter p (in_scope s.scope (table s.pending)))

  -- The row of a loaded object is written back by its primary key alone.
  abbrev pub update_by_id : ℕ → (A → A) → List A → List A
  update_by_id k f xs = map (λ r. if row.id r == k then f r else r) xs

  abbrev pub delete_by_id : ℕ → List A → List A
  delete_by_id k xs = filter (λ r. not (row.id r == k)) xs
