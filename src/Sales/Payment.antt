-- ===== src/Sales/Payment.antt =====
-- How a created sale is paid: on the customer's account, or in cash.
use aurapro.Prelude.{
  ℕ, ◌+◌, ◌≡◌, ◌∙◌, ap, sym, subst, true, false, Option, some, [], ◌∷◌, ◌++◌, arith, str_eq, ◌==◌,
  ==_self, if◌then◌else◌, filter,
}
use aurapro.Prelude.Int.{ℤ, pos, ◌+ℤ◌, ◌-ℤ◌, ◌≤ℤ◌, int_laws}
use mathlib.Core.Path.{ap₂, subst₂}
use aurapro.Models.Customers.{Customer, customer_row}
use aurapro.Models.Documents.{Sale}
use aurapro.Models.Treasury.{cash_session_row, CashSession}
use aurapro.Session.{Session, ok}
use aurapro.Query.{in_scope, visible, find_by_id}
use aurapro.Query.Laws.{find_by_id_sound}
use aurapro.Treasury.{is_open, balance_of}
use aurapro.Treasury.Effects.{
  balance, sale_debit, OnAccount, record_sale_on_account-OnAccount, open_sessions, to_list,
  with_income, CashIncome, record_cash_income_from_sale-CashIncome, is_covered,
}
use aurapro.Treasury.Balance.{
  is_session, with_income-till, with_income-account_movements, account_of, balance-append, till,
  incomes, expenses, moved,
}
use aurapro.Sales.{record_payment, create_sale}
use aurapro.Sales.Schemas.{SaleCreate}
use aurapro.Sales.Trail.{Trail, create_sale-Trail, Tables, Trail-Tables}

add_none : (a : ℤ) (n : ℕ) → a +ℤ pos n -ℤ pos 0 ≡ a +ℤ pos n
add_none a n = omega int_laws

moved-sale_debit :
    (t : ℕ) (customer : Customer) (sale : Sale) (id now c : ℕ) (owed : ℤ)
    → moved (sale_debit t customer sale id now) c owed
      ≡ (if customer.id == c then owed +ℤ pos sale.total_amount else owed)
moved-sale_debit t customer sale id now c owed = rw (add_none owed sale.total_amount)

within_limit :
    (limit : ℕ) (owed : ℤ) (amount : ℕ)
    → is_covered (some limit) owed amount ≡ true
    → owed +ℤ pos amount ≤ℤ pos limit
within_limit limit owed amount h = ground arith

-- An amount has come into the till of the open session `k`, if it is open, and nothing else moved.
abbrev pub TakesCash : Session → ℕ → Session → ℕ → Type 0
TakesCash s amount s' k =
    (session : Option CashSession) × (open_sessions s ≡ to_list session)
    × (incomes (till s'.scope k s'.pending.cash_movements)
        ≡ incomes (till s.scope k s.pending.cash_movements)
          + (if is_session k session then amount else 0))
    × (expenses (till s'.scope k s'.pending.cash_movements)
        ≡ expenses (till s.scope k s.pending.cash_movements))
    × (s'.pending.account_movements ≡ s.pending.account_movements)

module _ (t : ℕ) (payload : SaleCreate) (s : Session) (sale : Sale) (s' : Session)
    (created : create_sale t payload s ≡ (ok sale, s')) where
  trail : Trail t payload s sale s'
  trail = create_sale-Trail t payload s sale s' created

  tables : Tables t payload s sale s' trail
  tables = Trail-Tables t payload s sale s' trail

  on_account :
      str_eq payload.payment_method "account" ≡ true
      → OnAccount t trail.steps.customer sale trail.steps.invoiced trail.steps.paid
  unfolding record_payment
  on_account account =
      record_sale_on_account-OnAccount t trail.steps.customer sale trail.steps.invoiced
        trail.steps.paid (rw account at (trail.steps.pays))

  in_cash :
      str_eq payload.payment_method "account" ≡ false
      → str_eq payload.payment_method "cash" ≡ true
      → CashIncome t sale trail.steps.invoiced trail.steps.paid
  unfolding record_payment
  in_cash account cash =
      record_cash_income_from_sale-CashIncome t sale trail.steps.invoiced trail.steps.paid
        (rw (account, cash) at (trail.steps.pays))

  buyer : trail.steps.customer.id ≡ payload.customer_id
  buyer =
      (find_by_id_sound s.scope payload.customer_id s.pending.customers trail.steps.customer
        trail.steps.found).0

  -- A sale on account that succeeds, in a session that sees its tenant's rows, raises the balance of
  -- the sale's customer by its total, leaves every other customer's balance, and moves no cash.
  pub create_sale-balance :
      str_eq payload.payment_method "account" ≡ true
      → visible s.scope t ≡ true
      → (c : ℕ)
      → (balance s' c ≡ (
          if payload.customer_id == c then balance s c +ℤ pos sale.total_amount else balance s c))
        × (s'.pending.cash_movements ≡ s.pending.cash_movements)
  create_sale-balance account seen c =
      let paid = (on_account account).effect in
      let start = tables.start_account_movements in
      let start_cash = tables.start_cash_movements in
      let account_rows = tables.account_movements in
      let cash_rows = tables.cash_movements in
      let row =
        sale_debit t trail.steps.customer sale trail.steps.invoiced.pending.next_id
          trail.steps.invoiced.now in
      let after : s'.pending.account_movements ≡ s.pending.account_movements ++ row ∷ [] = cc in
      (
        ap₂ (λ scope ms. balance_of (account_of scope c ms)) tables.scope after
            ∙ balance-append s.scope c s.pending.account_movements row seen
            ∙ moved-sale_debit t trail.steps.customer sale trail.steps.invoiced.pending.next_id
                trail.steps.invoiced.now c (balance s c)
            ∙ ap (λ k. if k == c then balance s c +ℤ pos sale.total_amount else balance s c) buyer,
        cc,
      )

  -- No sale on account takes a customer beyond the credit limit: if one succeeds for a customer who
  -- has a limit, in a session that sees its tenant's rows, the balance afterwards is within it.
  pub create_sale-credit_limit :
      (customer : Customer) (limit : ℕ)
      → find_by_id s.scope payload.customer_id s.pending.customers ≡ some customer
      → customer.credit_limit ≡ some limit
      → str_eq payload.payment_method "account" ≡ true
      → visible s.scope t ≡ true
      → balance s' payload.customer_id ≤ℤ pos limit
  create_sale-credit_limit customer limit found limited account seen =
      let same : trail.steps.customer ≡ customer = ground (arith, trail.steps.found) in
      let covered = (on_account account).covered in
      let start_balance : balance trail.steps.invoiced payload.customer_id
          ≡ balance s payload.customer_id =
        ap₂ (λ scope ms. balance_of (account_of scope payload.customer_id ms)) tables.start_scope
          tables.start_account_movements in
      let owed = (create_sale-balance account seen payload.customer_id).0 in
      let now_owed : balance s' payload.customer_id
          ≡ balance s payload.customer_id +ℤ pos sale.total_amount =
        owed ∙ rw (==_self payload.customer_id) in
      let same_limit : trail.steps.customer.credit_limit ≡ some limit =
        ap (λ (c : Customer). c.credit_limit) same ∙ limited in
      let same_owed : balance trail.steps.invoiced trail.steps.customer.id
          ≡ balance s payload.customer_id =
        ap (balance trail.steps.invoiced) buyer ∙ start_balance in
      rw now_owed (
        within_limit limit (balance s payload.customer_id) sale.total_amount
          (subst₂ (λ l o. is_covered l o sale.total_amount ≡ true) same_limit same_owed covered))

  -- A sale in cash that succeeds, in a session that sees its tenant's rows, adds its total to the
  -- incomes of the cash session that is open, if one is, and to no other's. It touches neither an
  -- expense nor a customer's account, and it does not need an open session.
  pub create_sale-cash :
      str_eq payload.payment_method "account" ≡ false
      → str_eq payload.payment_method "cash" ≡ true
      → visible s.scope t ≡ true
      → (k : ℕ) → TakesCash s sale.total_amount s' k
  create_sale-cash account cash seen k =
      let r = in_cash account cash in
      let paid = trail.steps.invoiced in
      let after = with_income t r.session sale.total_amount "Venta" (some sale.id) paid in
      let (more, same) =
        with_income-till t r.session sale.total_amount "Venta" (some sale.id) paid k
          (subst (λ scope. visible scope t ≡ true) (sym tables.start_scope) seen) in
      let effect = r.effect in
      let start = tables.start_account_movements in
      let account_rows = tables.account_movements in
      let cash_rows = tables.cash_movements in
      let scope_then = tables.start_scope in
      let scope_after = tables.scope in
      let sessions_then = tables.start_cash_sessions in
      let till_before : till paid.scope k paid.pending.cash_movements
          ≡ till s.scope k s.pending.cash_movements =
        ap₂ (λ scope ms. till scope k ms) tables.start_scope tables.start_cash_movements in
      let scope_eq : s'.scope ≡ paid.scope = cc in
      let cash_eq : s'.pending.cash_movements ≡ after.pending.cash_movements = cc in
      let till_after : till s'.scope k s'.pending.cash_movements
          ≡ till paid.scope k after.pending.cash_movements =
        ap₂ (λ scope ms. till scope k ms) scope_eq cash_eq in
      (
        r.session,
        sym (ap₂ (λ scope rows. filter is_open (in_scope scope rows)) scope_then sessions_then)
            ∙ r.open_session,
        ap incomes till_after
            ∙ more
            ∙ ap (λ ms. incomes ms + (if is_session k r.session then sale.total_amount else 0))
                till_before,
        ap expenses till_after ∙ same ∙ ap expenses till_before,
        account_rows
            ∙ ap (λ (z : Session). z.pending.account_movements) effect
            ∙ with_income-account_movements t r.session sale.total_amount "Venta" (some sale.id)
                paid
            ∙ start,
      )
