-- ===== src/Treasury.antt =====
-- backend/app/modules/treasury/services.py: customers' accounts and the cash register.
-- Amounts are whole cents: a balance, which may be negative, is an integer. `record_sale_on_account`
-- and `record_cash_income_from_sale` run inside the transaction of `create_sale`.
pub mod Rules
pub mod Effects
pub mod Balance
pub mod Sessions
pub mod Life
pub mod Finality
pub mod Payments
use aurapro.Prelude.{
  ℕ, ◌+◌, ◌^◌, String, Bool, true, false, not, ◌&&◌, Option, none, some, List, [], ◌∷◌, ◌++◌, ltb,
  str_eq, ◌==◌, if◌then◌else◌, is_some, sum_by, all,
}
use aurapro.Prelude.Int.{pos_part, neg_part, ℤ, pos, ◌+ℤ◌, ◌-ℤ◌, sub_ℕ, ltb_ℤ}
use aurapro.Models.Customers.{Customer, customer_row}
use aurapro.Models.Documents.{Sale}
use aurapro.Models.Treasury.{
  account_movement_row, cash_session_row, cash_movement_row, AccountMovement, debit, credit,
  CashSession, opened, closed, CashMovement, CashMovementType, income, expense,
}
use aurapro.Session.{
  Exec, pure, gets, or_raise, ◌>>=◌, ◌>>◌, raise_if, modify, commit, fresh_id, scalar_one_or_none,
}
use aurapro.Session.Errors.{Error}
use aurapro.Query.{select_by_id, select_where, update_by_id}

abbrev pub cash_payment_method : String
cash_payment_method = "cash"

-- What fits a column of `Numeric(12, 2)`, in cents.
abbrev pub numeric_limit : ℕ
numeric_limit = 10 ^ 12

abbrev pub debit_amount : AccountMovement → ℕ
debit_amount m = elim m.type [ debit ↦ m.amount | credit ↦ 0 ]

abbrev pub credit_amount : AccountMovement → ℕ
credit_amount m = elim m.type [ debit ↦ 0 | credit ↦ m.amount ]

-- The sum of the debits less the sum of the credits.
abbrev pub balance_of : List AccountMovement → ℤ
balance_of ms = sub_ℕ (sum_by debit_amount ms) (sum_by credit_amount ms)

unfoldable pub get_customer_balance : ℕ → Exec ℤ
get_customer_balance customer_id = do
  movements ← select_where (λ d. d.account_movements) (λ m. m.customer_id == customer_id)
  pure (balance_of movements)

-- `_get_customer`; the row lock of `for_update` is what keeps other requests out meanwhile.
unfoldable pub get_customer : ℕ → Exec Customer
get_customer customer_id = do
  customer ← select_by_id (λ d. d.customers) customer_id
  or_raise customer Error.customer_not_found

-- An insert that meets the table's check constraint.
unfoldable pub add_account_movement : AccountMovement → Exec (Unit {0})
add_account_movement m = do
  raise_if (not (ltb 0 m.amount && ltb m.amount numeric_limit)) Error.integrity_error
  modify (λ d. record d { account_movements = d.account_movements ++ m ∷ [] })

unfoldable pub add_cash_movement_row : CashMovement → Exec (Unit {0})
add_cash_movement_row m = do
  raise_if (not (ltb 0 m.amount && ltb m.amount numeric_limit)) Error.integrity_error
  modify (λ d. record d { cash_movements = d.cash_movements ++ m ∷ [] })

-- The customer's credit covers the sale, or there is no limit.
unfoldable pub check_credit : ℕ → Option ℕ → ℕ → Exec (Unit {0})
check_credit customer_id none total = pure tt
check_credit customer_id (some limit) total = do
  balance ← get_customer_balance customer_id
  raise_if (ltb_ℤ (pos limit) (balance +ℤ pos total)) Error.insufficient_credit

unfoldable pub record_sale_on_account : ℕ → Customer → Sale → Exec (Unit {0})
record_sale_on_account tenant_id customer sale = do
  check_credit customer.id customer.credit_limit sale.total_amount
  id ← fresh_id
  now ← gets (λ s. s.now)
  add_account_movement record {
    id = id;
    created_at = now;
    tenant_id = tenant_id;
    customer_id = customer.id;
    type = debit;
    amount = sale.total_amount;
    description = some "Venta";
    sale_id = some sale.id;
  }

abbrev pub is_open : CashSession → Bool
is_open session = elim session.status [ opened ↦ true | closed ↦ false ]

unfoldable pub get_open_cash_session : Exec (Option CashSession)
get_open_cash_session = do
  sessions ← select_where (λ d. d.cash_sessions) is_open
  scalar_one_or_none sessions

-- An income for the open cash session, if there is one.
unfoldable pub add_income : ℕ → Option CashSession → ℕ → String → Option ℕ → Exec (Unit {0})
add_income tenant_id none amount description sale_id = pure tt
add_income tenant_id (some session) amount description sale_id = do
  id ← fresh_id
  now ← gets (λ s. s.now)
  add_cash_movement_row record {
    id = id;
    created_at = now;
    tenant_id = tenant_id;
    cash_session_id = session.id;
    type = income;
    amount = amount;
    description = some description;
    sale_id = sale_id;
  }

unfoldable pub record_cash_income_from_sale : ℕ → Sale → Exec (Unit {0})
record_cash_income_from_sale tenant_id sale = do
  session ← get_open_cash_session
  add_income tenant_id session sale.total_amount "Venta" (some sale.id)

-- `description or "Cobro"`: an empty text counts as none.
unfoldable pub or_default : Option String → String → String
or_default none d = d
or_default (some text) d = if str_eq text "" then d else text

-- A payment in cash is an income of the open session, if there is one.
unfoldable pub record_cash_payment : ℕ → String → ℕ → Exec (Unit {0})
record_cash_payment tenant_id payment_method amount =
    if str_eq payment_method cash_payment_method
    then (get_open_cash_session >>= λ session.
        add_income tenant_id session amount "Cobro de cuenta corriente" none)
    else pure tt

unfoldable pub record_customer_payment : ℕ → ℕ → ℕ → String → Option String → Exec AccountMovement
record_customer_payment tenant_id customer_id amount payment_method description = do
  get_customer customer_id
  id ← fresh_id
  now ← gets (λ s. s.now)
  let movement : AccountMovement = record {
    id = id;
    created_at = now;
    tenant_id = tenant_id;
    customer_id = customer_id;
    type = credit;
    amount = amount;
    description = some (or_default description "Cobro");
    sale_id = none;
  }
  add_account_movement movement
  record_cash_payment tenant_id payment_method amount
  commit
  pure movement

unfoldable pub open_cash_session : ℕ → ℕ → ℕ → Exec CashSession
open_cash_session tenant_id user_id opening_amount = do
  existing ← get_open_cash_session
  raise_if (is_some existing) Error.cash_session_already_open
  id ← fresh_id
  now ← gets (λ s. s.now)
  let session : CashSession = record {
    id = id;
    created_at = now;
    tenant_id = tenant_id;
    opening_amount = opening_amount;
    opened_by_user_id = some user_id;
    status = opened;
    closed_at = none;
    closed_by_user_id = none;
    closing_amount_declared = none;
    closing_amount_expected = none;
  }
  pending ← gets (λ s. s.pending)
  raise_if
      (not (
        ltb opening_amount numeric_limit
        && all (λ c. not (is_open c && c.tenant_id == tenant_id)) pending.cash_sessions))
      Error.integrity_error
  modify (λ d. record d { cash_sessions = d.cash_sessions ++ session ∷ [] })
  commit
  pure session

unfoldable pub get_cash_session : ℕ → Exec CashSession
get_cash_session session_id = do
  session ← select_by_id (λ d. d.cash_sessions) session_id
  or_raise session Error.cash_session_not_found

unfoldable pub add_cash_movement : ℕ → ℕ → CashMovementType → ℕ → Option String → Exec CashMovement
add_cash_movement tenant_id session_id movement_type amount description = do
  session ← get_cash_session session_id
  raise_if (not (is_open session)) Error.cash_session_already_closed
  id ← fresh_id
  now ← gets (λ s. s.now)
  let movement : CashMovement = record {
    id = id;
    created_at = now;
    tenant_id = tenant_id;
    cash_session_id = session_id;
    type = movement_type;
    amount = amount;
    description = description;
    sale_id = none;
  }
  add_cash_movement_row movement
  commit
  pure movement

abbrev pub income_amount : CashMovement → ℕ
income_amount m = elim m.type [ income ↦ m.amount | expense ↦ 0 ]

abbrev pub expense_amount : CashMovement → ℕ
expense_amount m = elim m.type [ income ↦ 0 | expense ↦ m.amount ]

-- opening + incomes - expenses
abbrev pub expected_amount : ℕ → List CashMovement → ℤ
expected_amount opening ms =
    pos (opening + sum_by income_amount ms) -ℤ pos (sum_by expense_amount ms)

abbrev pub fits_numeric : ℤ → Bool
fits_numeric a = ltb (pos_part a) numeric_limit && ltb (neg_part a) numeric_limit

unfoldable pub close_cash_session : ℕ → ℕ → ℕ → Exec CashSession
close_cash_session session_id user_id closing_amount_declared = do
  session ← get_cash_session session_id
  raise_if (not (is_open session)) Error.cash_session_already_closed
  movements ← select_where (λ d. d.cash_movements) (λ m. m.cash_session_id == session_id)
  now ← gets (λ s. s.now)
  let expected = expected_amount session.opening_amount movements
  let close = λ (c : CashSession). record c {
    status = closed;
    closed_by_user_id = some user_id;
    closed_at = some now;
    closing_amount_declared = some closing_amount_declared;
    closing_amount_expected = some expected;
  }
  raise_if (not (ltb closing_amount_declared numeric_limit && fits_numeric expected))
      Error.integrity_error
  modify (λ d. record d { cash_sessions = update_by_id session_id close d.cash_sessions })
  commit
  pure (close session)
