-- ===== src/Treasury/Payments.antt =====
-- A customer's payment on the account (`record_customer_payment`).
use mathlib.Core.Path.{ap₂}
use aurapro.Prelude.{
  ℕ, ◌+◌, String, ◌≡◌, refl, ◌∙◌, ap, true, ◌&&◌, Option, none, some, [], ◌∷◌, ◌++◌, arith, ltb,
  ◌==◌, if◌then◌else◌, Option-cases, Bool-cases, inl, inr, str_eq,
}
use aurapro.Prelude.Int.{ℤ, pos, ◌+ℤ◌, ◌-ℤ◌, int_laws}
use aurapro.Models.Customers.{customer_row}
use aurapro.Models.Treasury.{AccountMovement, credit, CashSession}
use aurapro.Session.{Session, ok}
use aurapro.Session.Rules.{Result-cases}
use aurapro.Query.{find_by_id, visible}
use aurapro.Treasury.{
  get_customer, get_open_cash_session, add_account_movement, record_cash_payment,
  record_customer_payment, numeric_limit, or_default, balance_of,
}
use aurapro.Treasury.Effects.{
  balance, get_open_cash_session-eq-ok, open_sessions, to_list, with_movements, with_income,
  add_income-effect,
}
use aurapro.Treasury.Balance.{
  is_session, with_income-till, with_income-account_movements, account_of, balance-append, till,
  incomes, expenses,
}

abbrev pub payment_credit : ℕ → ℕ → ℕ → Option String → ℕ → ℕ → AccountMovement
payment_credit t customer_id amount description id now = record {
  id = id;
  created_at = now;
  tenant_id = t;
  customer_id = customer_id;
  type = credit;
  amount = amount;
  description = some (or_default description "Cobro");
  sale_id = none;
}

-- The session after the credit.
credited : ℕ → ℕ → ℕ → Option String → Session → Session
credited t customer_id amount description s =
    with_movements s (s.pending.next_id + 1)
      (s.pending.account_movements
        ++ payment_credit t customer_id amount description s.pending.next_id s.now ∷ [])
      s.pending.cash_movements

-- The cash session that takes the payment, if one does.
record Paid (t customer_id amount : ℕ) (method : String) (description : Option String)
    (s s' : Session) : Type 0 where
  session : Option CashSession
  takes : (if str_eq method "cash" then open_sessions s else []) ≡ to_list session
  account_movements :
      s'.pending.account_movements
      ≡ s.pending.account_movements
        ++ payment_credit t customer_id amount description s.pending.next_id s.now ∷ []
  cash_movements :
      s'.pending.cash_movements
      ≡ (with_income t session amount "Cobro de cuenta corriente" none
          (credited t customer_id amount description s)).pending.cash_movements
  scope : s'.scope ≡ s.scope
  committed : s'.committed ≡ s'.pending

add_none : (a : ℤ) (n : ℕ) → a +ℤ pos 0 -ℤ pos n ≡ a -ℤ pos n
add_none a n = omega int_laws

income-scope :
    (t : ℕ) (o : Option CashSession) (amount : ℕ) (text : String) (sale_id : Option ℕ) (z : Session)
    → (with_income t o amount text sale_id z).scope ≡ z.scope
income-scope t none amount text sale_id z = refl
income-scope t (some c) amount text sale_id z = refl

record_cash_payment-eq-ok :
    (t : ℕ) (method : String) (amount : ℕ) (s s' : Session)
    → record_cash_payment t method amount s ≡ (ok tt, s')
    → (session : Option CashSession) × ((if str_eq method "cash" then open_sessions s else [])
        ≡ to_list session)
      × (s' ≡ with_income t session amount "Cobro de cuenta corriente" none s)
unfolding record_cash_payment
record_cash_payment-eq-ok t method amount s s' h = elim (Bool-cases (str_eq method "cash")) [
  | inr other ↦ (none, rw other, ground arith)
  | inl cash ↦ elim (Result-cases (get_open_cash_session s)) [
    | inr (e, s1, failed) ↦ absurd (ground arith)
    | inl (session, s1, got) ↦
        let (open_session, same) = get_open_cash_session-eq-ok s session s1 got in
        (
          session,
          rw cash open_session,
          add_income-effect t session amount "Cobro de cuenta corriente" none s s' (ground arith),
        )
  ]
]

record_customer_payment-steps :
    (t customer_id amount : ℕ) (method : String) (description : Option String) (s : Session)
    (m : AccountMovement) (s' : Session)
    → record_customer_payment t customer_id amount method description s ≡ (ok m, s')
    → (z : Session) × (record_cash_payment t method amount
          (credited t customer_id amount description s)
        ≡ (ok tt, z))
      × (s' ≡ record z { committed = z.pending })
unfolding record_customer_payment get_customer add_account_movement credited
record_customer_payment-steps t customer_id amount method description s m s' h =
    elim (Option-cases (find_by_id s.scope customer_id s.pending.customers)) [
      | inl absent ↦ absurd (ground arith)
      | inr (customer, e) ↦ elim (Bool-cases (ltb 0 amount && ltb amount numeric_limit)) [
        | inr unfit ↦ absurd (ground arith)
        | inl fits ↦
            elim (Result-cases
              (record_cash_payment t method amount (credited t customer_id amount description s))) [
                | inr (er, z, failed) ↦ absurd (ground arith)
                | inl (_, z, paid) ↦ (z, paid, ground arith)
              ]
      ]
    ]

record_customer_payment-Paid :
    (t customer_id amount : ℕ) (method : String) (description : Option String) (s : Session)
    (m : AccountMovement) (s' : Session)
    → record_customer_payment t customer_id amount method description s ≡ (ok m, s')
    → Paid t customer_id amount method description s s'
unfolding credited
record_customer_payment-Paid t customer_id amount method description s m s' h =
    let start = credited t customer_id amount description s in
    let (z, paid, final) =
      record_customer_payment-steps t customer_id amount method description s m s' h in
    let (session, takes, effect) = record_cash_payment-eq-ok t method amount start z paid in
    record {
      session = session;
      takes = takes;
      account_movements =
          ap (λ (x : Session). x.pending.account_movements) final
          ∙ ap (λ (x : Session). x.pending.account_movements) effect
          ∙ with_income-account_movements t session amount "Cobro de cuenta corriente" none start;
      cash_movements =
          ap (λ (x : Session). x.pending.cash_movements) final
          ∙ ap (λ (x : Session). x.pending.cash_movements) effect;
      scope =
          ap (λ (x : Session). x.scope) final
          ∙ ap (λ (x : Session). x.scope) effect
          ∙ income-scope t session amount "Cobro de cuenta corriente" none start;
      committed = rw final;
    }

-- A payment that is recorded, in a session that sees its tenant's rows, lowers the balance of its
-- customer by its amount and leaves every other customer's balance, and it is committed.
pub record_customer_payment-balance :
    (t customer_id amount : ℕ) (method : String) (description : Option String) (s : Session)
    (m : AccountMovement) (s' : Session)
    → record_customer_payment t customer_id amount method description s ≡ (ok m, s')
    → visible s.scope t ≡ true
    → (c : ℕ)
    → (balance s' c ≡ (if customer_id == c then balance s c -ℤ pos amount else balance s c))
      × (s'.committed ≡ s'.pending)
record_customer_payment-balance t customer_id amount method description s m s' h seen c =
    let p = record_customer_payment-Paid t customer_id amount method description s m s' h in
    let row = payment_credit t customer_id amount description s.pending.next_id s.now in
    (
      ap₂ (λ scope ms. balance_of (account_of scope c ms)) p.scope p.account_movements
          ∙ balance-append s.scope c s.pending.account_movements row seen
          ∙ rw (add_none (balance s c) amount),
      p.committed,
    )

-- If the payment is in cash, the amount has come into the till of the open session `k`, if it is open.
abbrev pub PaysCash : Session → ℕ → String → Session → ℕ → Type 0
PaysCash s amount method s' k =
    (session : Option CashSession) × ((if str_eq method "cash" then open_sessions s else [])
      ≡ to_list session)
    × (incomes (till s'.scope k s'.pending.cash_movements)
        ≡ incomes (till s.scope k s.pending.cash_movements)
          + (if is_session k session then amount else 0))
    × (expenses (till s'.scope k s'.pending.cash_movements)
        ≡ expenses (till s.scope k s.pending.cash_movements))

-- A payment that is recorded in cash, in a session that sees its tenant's rows, is an income of the
-- cash session that is open, if one is, and of no other. A payment by any other means moves no cash.
pub record_customer_payment-cash :
    (t customer_id amount : ℕ) (method : String) (description : Option String) (s : Session)
    (m : AccountMovement) (s' : Session)
    → record_customer_payment t customer_id amount method description s ≡ (ok m, s')
    → visible s.scope t ≡ true
    → (k : ℕ) → PaysCash s amount method s' k
unfolding credited
record_customer_payment-cash t customer_id amount method description s m s' h seen k =
    let p = record_customer_payment-Paid t customer_id amount method description s m s' h in
    let start = credited t customer_id amount description s in
    let (more, same) =
      with_income-till t p.session amount "Cobro de cuenta corriente" none start k seen in
    let rows = ap₂ (λ scope ms. till scope k ms) p.scope p.cash_movements in
    (p.session, p.takes, ap incomes rows ∙ more, ap expenses rows ∙ same)
