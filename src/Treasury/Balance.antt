-- ===== src/Treasury/Balance.antt =====
-- Balances and takings under a new movement.
use aurapro.Prelude.{
  String, ◌∙◌, ℕ, ◌+◌, ◌≡◌, refl, Bool, true, false, Option, none, some, List, [], ◌∷◌, ◌++◌,
  append-nil, arith, ◌==◌, filter, filter-append, sum_by, sum_by-append, if◌then◌else◌,
}
use aurapro.Prelude.Int.{ℤ, pos, ◌+ℤ◌, ◌-ℤ◌}
use aurapro.Models.Treasury.{
  AccountMovement, account_movement_row, CashSession, CashMovement, cash_movement_row,
}
use aurapro.Session.{Session}
use aurapro.Query.{visible, in_scope}
use aurapro.Treasury.{balance_of, debit_amount, credit_amount, income_amount, expense_amount}
use aurapro.Treasury.Effects.{with_income, income_row}

abbrev pub account_of : Option ℕ → ℕ → List AccountMovement → List AccountMovement
account_of scope c ms = filter (λ m. m.customer_id == c) (in_scope scope ms)

-- The customer's movements after one more, which the session sees.
account_of-append :
    (scope : Option ℕ) (c : ℕ) (ms : List AccountMovement) (m : AccountMovement)
    → visible scope m.tenant_id ≡ true
    → account_of scope c (ms ++ m ∷ [])
      ≡ account_of scope c ms ++ (if m.customer_id == c then m ∷ [] else [])
account_of-append scope c ms m seen =
    rw (filter-append (λ (m : AccountMovement). visible scope m.tenant_id) ms (m ∷ [])) (
      rw seen
        (filter-append (λ (m : AccountMovement). m.customer_id == c) (in_scope scope ms) (m ∷ [])))

-- A debit raises its customer's balance by its amount, and a credit lowers it by as much. No
-- other customer's balance moves.
abbrev pub moved : AccountMovement → ℕ → ℤ → ℤ
moved m c owed =
    if m.customer_id == c then owed +ℤ pos (debit_amount m) -ℤ pos (credit_amount m) else owed

balance_of-append :
    (ms : List AccountMovement) (m : AccountMovement)
    → balance_of (ms ++ m ∷ []) ≡ balance_of ms +ℤ pos (debit_amount m) -ℤ pos (credit_amount m)
unfolding ◌+ℤ◌ ◌-ℤ◌
balance_of-append ms m =
    rw (sum_by-append debit_amount ms (m ∷ []), sum_by-append credit_amount ms (m ∷ []))
      (ground arith)

pub balance-append :
    (scope : Option ℕ) (c : ℕ) (ms : List AccountMovement) (m : AccountMovement)
    → visible scope m.tenant_id ≡ true
    → balance_of (account_of scope c (ms ++ m ∷ []))
      ≡ moved m c (balance_of (account_of scope c ms))
balance-append scope c ms m seen =
    rw (account_of-append scope c ms m seen) (split (m.customer_id == c))
  where
    split :
        (b : Bool)
        → balance_of (account_of scope c ms ++ (if b then m ∷ [] else [])) ≡ (
            if b
            then balance_of (account_of scope c ms) +ℤ pos (debit_amount m) -ℤ pos (credit_amount m)
            else balance_of (account_of scope c ms))
    split true = balance_of-append (account_of scope c ms) m
    split false = rw append-nil

-- The cash that came into session `k`, and that went out of it.
abbrev pub till : Option ℕ → ℕ → List CashMovement → List CashMovement
till scope k ms = filter (λ m. m.cash_session_id == k) (in_scope scope ms)

pub till-append :
    (scope : Option ℕ) (k : ℕ) (ms : List CashMovement) (m : CashMovement)
    → visible scope m.tenant_id ≡ true
    → till scope k (ms ++ m ∷ [])
      ≡ till scope k ms ++ (if m.cash_session_id == k then m ∷ [] else [])
till-append scope k ms m seen =
    rw (filter-append (λ (m : CashMovement). visible scope m.tenant_id) ms (m ∷ [])) (
      rw seen
        (filter-append (λ (m : CashMovement). m.cash_session_id == k) (in_scope scope ms) (m ∷ [])))

abbrev pub incomes : List CashMovement → ℕ
incomes ms = sum_by income_amount ms

abbrev pub expenses : List CashMovement → ℕ
expenses ms = sum_by expense_amount ms

-- `k` is the session.
abbrev pub is_session : ℕ → Option CashSession → Bool
is_session k none = false
is_session k (some session) = session.id == k

-- What an income for the open session does to the till of session `k`.
pub with_income-till :
    (t : ℕ) (session : Option CashSession) (amount : ℕ) (text : String) (sale_id : Option ℕ)
    (z : Session) (k : ℕ)
    → visible z.scope t ≡ true
    → let after = (with_income t session amount text sale_id z).pending.cash_movements in
      (incomes (till z.scope k after)
        ≡ incomes (till z.scope k z.pending.cash_movements)
          + (if is_session k session then amount else 0))
      × (expenses (till z.scope k after) ≡ expenses (till z.scope k z.pending.cash_movements))
with_income-till t none amount text sale_id z k seen = (omega arith, refl)
with_income-till t (some session) amount text sale_id z k seen =
    let row = income_row t session amount text sale_id z.pending.next_id z.now in
    let before = till z.scope k z.pending.cash_movements in
    let added : List CashMovement = if session.id == k then row ∷ [] else [] in
    let e = till-append z.scope k z.pending.cash_movements row seen in
    (
      rw e (sum_by-append income_amount before added ∙ ground arith),
      rw e (sum_by-append expense_amount before added ∙ ground arith),
    )

pub with_income-account_movements :
    (t : ℕ) (session : Option CashSession) (amount : ℕ) (text : String) (sale_id : Option ℕ)
    (z : Session)
    → (with_income t session amount text sale_id z).pending.account_movements
      ≡ z.pending.account_movements
with_income-account_movements t none amount text sale_id z = refl
with_income-account_movements t (some session) amount text sale_id z = refl
