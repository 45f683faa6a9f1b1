-- ===== src/Treasury/Rules.antt =====
-- The steps of the treasury that run inside a sale's transaction commit nothing themselves.
use aurapro.Prelude.{ℕ, String, Option, none, some}
use aurapro.Models.Customers.{Customer}
use aurapro.Models.Documents.{Sale}
use aurapro.Models.Treasury.{AccountMovement, CashMovement, CashSession}
use aurapro.Session.Rules.{IsUncommitted, uncommitted_rules}
use aurapro.Treasury.{
  get_customer_balance, add_account_movement, add_cash_movement_row, check_credit,
  record_sale_on_account, get_open_cash_session, add_income, record_cash_income_from_sale,
}

pub add_account_movement-IsUncommitted :
    (m : AccountMovement) → IsUncommitted (add_account_movement m)
unfolding add_account_movement
add_account_movement-IsUncommitted m = search uncommitted_rules

add_cash_movement_row-IsUncommitted : (m : CashMovement) → IsUncommitted (add_cash_movement_row m)
unfolding add_cash_movement_row
add_cash_movement_row-IsUncommitted m = search uncommitted_rules

check_credit-IsUncommitted :
    (c : ℕ) (limit : Option ℕ) (total : ℕ) → IsUncommitted (check_credit c limit total)
unfolding check_credit get_customer_balance
check_credit-IsUncommitted c none total = search uncommitted_rules
check_credit-IsUncommitted c (some limit) total = search uncommitted_rules depth 9

pub record_sale_on_account-IsUncommitted :
    (t : ℕ) (c : Customer) (sale : Sale) → IsUncommitted (record_sale_on_account t c sale)
unfolding record_sale_on_account
record_sale_on_account-IsUncommitted t c sale =
    search (uncommitted_rules, check_credit-IsUncommitted, add_account_movement-IsUncommitted) depth
      9

pub get_open_cash_session-IsUncommitted : IsUncommitted get_open_cash_session
unfolding get_open_cash_session
get_open_cash_session-IsUncommitted = search uncommitted_rules

add_income-IsUncommitted :
    (t : ℕ) (session : Option CashSession) (amount : ℕ) (text : String) (sale_id : Option ℕ)
    → IsUncommitted (add_income t session amount text sale_id)
unfolding add_income
add_income-IsUncommitted t none amount text sale_id = search uncommitted_rules
add_income-IsUncommitted t (some session) amount text sale_id =
    search (uncommitted_rules, add_cash_movement_row-IsUncommitted) depth 9

pub record_cash_income_from_sale-IsUncommitted :
    (t : ℕ) (sale : Sale) → IsUncommitted (record_cash_income_from_sale t sale)
unfolding record_cash_income_from_sale
record_cash_income_from_sale-IsUncommitted t sale =
    search (uncommitted_rules, get_open_cash_session-IsUncommitted, add_income-IsUncommitted) depth
      9
