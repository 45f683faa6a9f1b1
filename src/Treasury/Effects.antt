-- ===== src/Treasury/Effects.antt =====
-- What the treasury's part of a sale writes.
use aurapro.Prelude.{
  ℕ, ◌+◌, String, ◌≡◌, refl, Bool, true, not, ◌&&◌, Option, none, some, List, [], ◌∷◌, ◌++◌, arith,
  subst, sym, inl, inr, Bool-cases, ◌==◌, ltb, filter,
}
use aurapro.Prelude.Int.{ℤ, pos, ◌+ℤ◌, ltb_ℤ}
use aurapro.Models.Customers.{Customer}
use aurapro.Models.Documents.{Sale}
use aurapro.Models.Treasury.{
  AccountMovement, account_movement_row, debit, CashMovement, income, CashSession, cash_session_row,
}
use aurapro.Session.{Session, ok, scalar_one_or_none}
use aurapro.Session.Rules.{Result-cases}
use aurapro.Query.{in_scope}
use aurapro.Treasury.{
  numeric_limit, balance_of, get_customer_balance, add_account_movement, add_cash_movement_row,
  check_credit, record_sale_on_account, is_open, get_open_cash_session, add_income,
  record_cash_income_from_sale,
}

-- The session after a step that wrote movements and took identifiers, and nothing else.
abbrev pub with_movements : Session → ℕ → List AccountMovement → List CashMovement → Session
with_movements s next_id account_movements cash_movements = record s {
  pending = record s.pending {
    next_id = next_id;
    account_movements = account_movements;
    cash_movements = cash_movements;
  };
}

abbrev pub Posts : Session → Session → Type 0
Posts s s' =
    s' ≡ with_movements s s'.pending.next_id s'.pending.account_movements s'.pending.cash_movements

-- The debit of a sale.
abbrev pub sale_debit : ℕ → Customer → Sale → ℕ → ℕ → AccountMovement
sale_debit t customer sale id now = record {
  id = id;
  created_at = now;
  tenant_id = t;
  customer_id = customer.id;
  type = debit;
  amount = sale.total_amount;
  description = some "Venta";
  sale_id = some sale.id;
}

-- The balance of a customer, as the session's queries show it.
abbrev pub balance : Session → ℕ → ℤ
balance s customer_id =
    balance_of
      (filter (λ m. m.customer_id == customer_id) (in_scope s.scope s.pending.account_movements))

-- The limit, if there is one, is not exceeded by the balance and the amount.
abbrev pub is_covered : Option ℕ → ℤ → ℕ → Bool
is_covered none owed amount = true
is_covered (some limit) owed amount = not (ltb_ℤ (pos limit) (owed +ℤ pos amount))

pub check_credit-eq-ok :
    (customer_id : ℕ) (limit : Option ℕ) (amount : ℕ) (s s' : Session)
    → check_credit customer_id limit amount s ≡ (ok tt, s')
    → (is_covered limit (balance s customer_id) amount ≡ true) × (s' ≡ s)
unfolding check_credit get_customer_balance
check_credit-eq-ok customer_id none amount s s' h = (refl, ground arith)
check_credit-eq-ok customer_id (some limit) amount s s' h =
    elim (Bool-cases (ltb_ℤ (pos limit) (balance s customer_id +ℤ pos amount))) [
      | inl beyond ↦ absurd (ground arith)
      | inr within ↦ (ground arith, ground arith)
    ]

pub record OnAccount (t : ℕ) (customer : Customer) (sale : Sale) (s s' : Session) : Type 0 where
  pub covered : is_covered customer.credit_limit (balance s customer.id) sale.total_amount ≡ true
  pub effect :
      s'
      ≡ with_movements s
          (s.pending.next_id + 1)
          (s.pending.account_movements ++ sale_debit t customer sale s.pending.next_id s.now ∷ [])
          s.pending.cash_movements

pub record_sale_on_account-OnAccount :
    (t : ℕ) (customer : Customer) (sale : Sale) (s s' : Session)
    → record_sale_on_account t customer sale s ≡ (ok tt, s')
    → OnAccount t customer sale s s'
unfolding record_sale_on_account add_account_movement
record_sale_on_account-OnAccount t customer sale s s' h =
    elim (Result-cases (check_credit customer.id customer.credit_limit sale.total_amount s)) [
      | inr (e, s1, failed) ↦ absurd (ground arith)
      | inl (_, s1, passed) ↦
          let (covered, same) =
            check_credit-eq-ok customer.id customer.credit_limit sale.total_amount s s1 passed in
          elim (Bool-cases (ltb 0 sale.total_amount && ltb sale.total_amount numeric_limit)) [
            | inr unfit ↦ absurd (ground arith)
            | inl fits ↦ record { covered = covered; effect = ground arith }
          ]
    ]

pub record_sale_on_account-Posts :
    (t : ℕ) (customer : Customer) (sale : Sale) (s s' : Session)
    → record_sale_on_account t customer sale s ≡ (ok tt, s')
    → Posts s s'
record_sale_on_account-Posts t customer sale s s' h =
    ground (arith, (record_sale_on_account-OnAccount t customer sale s s' h).effect)

abbrev pub income_row : ℕ → CashSession → ℕ → String → Option ℕ → ℕ → ℕ → CashMovement
income_row t session amount text sale_id id now = record {
  id = id;
  created_at = now;
  tenant_id = t;
  cash_session_id = session.id;
  type = income;
  amount = amount;
  description = some text;
  sale_id = sale_id;
}

-- The cash movements after an income for the session that is open, if any is.
abbrev pub with_income : ℕ → Option CashSession → ℕ → String → Option ℕ → Session → Session
with_income t none amount text sale_id s = s
with_income t (some session) amount text sale_id s =
    with_movements s (s.pending.next_id + 1) s.pending.account_movements (
      s.pending.cash_movements
      ++ income_row t session amount text sale_id s.pending.next_id s.now ∷ [])

pub add_income-effect :
    (t : ℕ) (session : Option CashSession) (amount : ℕ) (text : String) (sale_id : Option ℕ)
    (s s' : Session)
    → add_income t session amount text sale_id s ≡ (ok tt, s')
    → s' ≡ with_income t session amount text sale_id s
unfolding add_income add_cash_movement_row
add_income-effect t none amount text sale_id s s' h = ground arith
add_income-effect t (some session) amount text sale_id s s' h =
    elim (Bool-cases (ltb 0 amount && ltb amount numeric_limit)) [
      | inl fits ↦ ground arith
      | inr unfit ↦ absurd (ground arith)
    ]

-- The cash sessions that are open, as the session's queries show them.
abbrev pub open_sessions : Session → List CashSession
open_sessions s = filter is_open (in_scope s.scope s.pending.cash_sessions)

abbrev pub to_list {ℓ} : {A : Type ℓ} → Option A → List A
to_list none = []
to_list (some a) = a ∷ []

one_or_none :
    (l : List CashSession) (s : Session) (o : Option CashSession) (s' : Session)
    → scalar_one_or_none l s ≡ (ok o, s')
    → (l ≡ to_list o) × (s' ≡ s)
one_or_none [] s o s' h = ground arith
one_or_none (a ∷ []) s o s' h = ground arith
one_or_none (a ∷ b ∷ l) s o s' h = absurd (ground arith)

-- What is returned is the only open session there is.
pub get_open_cash_session-eq-ok :
    (s : Session) (o : Option CashSession) (s' : Session)
    → get_open_cash_session s ≡ (ok o, s')
    → (open_sessions s ≡ to_list o) × (s' ≡ s)
unfolding get_open_cash_session
get_open_cash_session-eq-ok s o s' h = one_or_none (open_sessions s) s o s' h

pub record CashIncome (t : ℕ) (sale : Sale) (s s' : Session) : Type 0 where
  pub session : Option CashSession
  pub open_session : open_sessions s ≡ to_list session
  pub effect : s' ≡ with_income t session sale.total_amount "Venta" (some sale.id) s

pub record_cash_income_from_sale-CashIncome :
    (t : ℕ) (sale : Sale) (s s' : Session)
    → record_cash_income_from_sale t sale s ≡ (ok tt, s')
    → CashIncome t sale s s'
unfolding record_cash_income_from_sale
record_cash_income_from_sale-CashIncome t sale s s' h =
    elim (Result-cases (get_open_cash_session s)) [
      | inr (e, s1, failed) ↦ absurd (ground arith)
      | inl (session, s1, got) ↦
          let (open_session, same) = get_open_cash_session-eq-ok s session s1 got in
          record {
            session = session;
            open_session = open_session;
            effect =
                add_income-effect t session sale.total_amount "Venta" (some sale.id) s s'
                  (ground arith);
          }
    ]

with_income-Posts :
    (t : ℕ) (session : Option CashSession) (amount : ℕ) (text : String) (sale_id : Option ℕ)
    (s : Session)
    → Posts s (with_income t session amount text sale_id s)
with_income-Posts t none amount text sale_id s = refl
with_income-Posts t (some session) amount text sale_id s = refl

pub record_cash_income_from_sale-Posts :
    (t : ℕ) (sale : Sale) (s s' : Session)
    → record_cash_income_from_sale t sale s ≡ (ok tt, s')
    → Posts s s'
record_cash_income_from_sale-Posts t sale s s' h =
    let r = record_cash_income_from_sale-CashIncome t sale s s' h in
    subst (Posts s) (sym r.effect)
      (with_income-Posts t r.session sale.total_amount "Venta" (some sale.id) s)
