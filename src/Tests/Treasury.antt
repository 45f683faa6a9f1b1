-- ===== src/Tests/Treasury.antt =====
-- The cash register and a customer's payment, on the fixture.
use aurapro.Prelude.{ℕ, ◌≡◌, refl, none, some, [], ◌∷◌, arith, if◌then◌else◌, ◌==◌}
use aurapro.Prelude.Int.{pos, ◌-ℤ◌}
use aurapro.Models.Treasury.{AccountMovement, CashSession, income, cash_session_row, credit}
use aurapro.Session.{Session, Result, ok, err}
use aurapro.Treasury.{
  get_customer, add_account_movement, record_cash_payment, record_customer_payment,
  get_open_cash_session, add_income, add_cash_movement_row, or_default, open_cash_session,
  get_cash_session, add_cash_movement, close_cash_session,
}
use aurapro.Treasury.Effects.{balance}
use aurapro.Treasury.Payments.{
  record_customer_payment-balance, PaysCash, record_customer_payment-cash,
}
use aurapro.Models.{Database}
use aurapro.Session
use aurapro.Treasury.Finality
use aurapro.Treasury.Finality.{Holds, closed_session_is_final}
use aurapro.Treasury.Life
use aurapro.Treasury.Life.{no_two_open_sessions}
use aurapro.Treasury.Sessions.{
  IsSingleOpen, open_of, Closing, close_cash_session-Closing, open_cash_session-IsSingleOpen,
  closing,
}
use aurapro.Tests.Fixtures.{session, shop, till_session}

-- To open this is to open all that the treasury's operations run.
treasury_code : ℕ
unfolding get_customer add_account_movement record_cash_payment record_customer_payment
    get_open_cash_session add_income add_cash_movement_row or_default open_cash_session
    get_cash_session add_cash_movement close_cash_session ◌-ℤ◌
treasury_code = 0

abbrev movement : Result AccountMovement → AccountMovement
movement (ok m) = m
movement (err e) = record {
  id = 0;
  created_at = 0;
  tenant_id = 0;
  customer_id = 0;
  type = credit;
  amount = 0;
  description = none;
  sale_id = none;
}

abbrev till_of : Result CashSession → CashSession
till_of (ok c) = c
till_of (err e) = till_session

abbrev paid : Result AccountMovement × Session
paid = record_customer_payment 1 20 700 "cash" none session

payment : record_customer_payment 1 20 700 "cash" none session ≡ (ok (movement paid.0), paid.1)
unfolding treasury_code
payment = refl

record_customer_payment-balance_example :
    (balance paid.1 20 ≡ (if 20 == 20 then balance session 20 -ℤ pos 700 else balance session 20))
    × (paid.1.committed ≡ paid.1.pending)
record_customer_payment-balance_example =
    record_customer_payment-balance 1 20 700 "cash" none session (movement paid.0) paid.1 payment
      refl 20

record_customer_payment-cash_example : PaysCash session 700 "cash" paid.1 50
record_customer_payment-cash_example =
    record_customer_payment-cash 1 20 700 "cash" none session (movement paid.0) paid.1 payment refl
      50

abbrev shut : Result CashSession × Session
shut = close_cash_session 50 7 1700 paid.1

shutting : close_cash_session 50 7 1700 paid.1 ≡ (ok (till_of shut.0), shut.1)
unfolding treasury_code
shutting = refl

-- The till began with 1000 and took 700.
shut_expected : (till_of shut.0).closing_amount_expected ≡ some (pos 1700)
unfolding treasury_code
shut_expected = refl

close_cash_session-Closing_example : Closing 50 7 1700 paid.1 (till_of shut.0) shut.1
close_cash_session-Closing_example =
    close_cash_session-Closing 50 7 1700 paid.1 (till_of shut.0) shut.1 shutting

abbrev after_requests : Database
after_requests =
    (open_cash_session 1 7 500 (
      Session.opened 1 9
        (close_cash_session 50 7 1700 (Session.opened 1 8 shop)).1.committed)).1.committed

no_two_open_sessions_example : IsSingleOpen 1 after_requests.cash_sessions
no_two_open_sessions_example =
    no_two_open_sessions 1 {d = shop} {d' = after_requests} (omega arith)
      (Life.step (Life.closing 1 8 50 7 1700) (Life.step (Life.opening 1 9 7 500) Life.done))

abbrev settled : Session
settled = record session {
  pending = record shop { cash_sessions = closing 7 90 1700 (pos 1700) till_session ∷ [] };
}

abbrev closed_till : CashSession
closed_till = closing 7 90 1700 (pos 1700) till_session

abbrev after_late_requests : Database
after_late_requests =
    (add_cash_movement 1 50 income 5 none (
      Session.opened 1 92
        (close_cash_session 50 7 0 (Session.opened 1 91 settled.pending)).1.committed)).1.committed

closed_session_is_final_example : Holds 1 50 closed_till [] after_late_requests
closed_session_is_final_example =
    closed_session_is_final 1 50 closed_till [] {d = settled.pending} {d' = after_late_requests}
      refl (refl, refl)
      (Finality.step (Finality.closure 91 50 7 0)
        (Finality.step (Finality.movement 92 50 5 income none) Finality.done))

abbrev reopened : Result CashSession × Session
reopened = open_cash_session 1 7 2000 settled

reopening : open_cash_session 1 7 2000 settled ≡ (ok (till_of reopened.0), reopened.1)
unfolding treasury_code
reopening = refl

open_cash_session-IsSingleOpen_example :
    IsSingleOpen 1 reopened.1.committed.cash_sessions
    × (open_of 1 settled.pending.cash_sessions ≡ [])
    × (open_of 1 reopened.1.committed.cash_sessions ≡ till_of reopened.0 ∷ [])
open_cash_session-IsSingleOpen_example =
    open_cash_session-IsSingleOpen 1 7 2000 settled (till_of reopened.0) reopened.1 reopening 1
      (omega arith)
