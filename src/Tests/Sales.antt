-- ===== src/Tests/Sales.antt =====
-- The sale of the fixture, in cash, on account and from an order note.
use aurapro.Prelude.{ℕ, ◌+◌, String, ◌≡◌, refl, Option, none, some, [], ◌∷◌, if◌then◌else◌, ◌==◌}
use aurapro.Prelude.Int.{pos, ◌+ℤ◌, ◌≤ℤ◌}
use aurapro.Models.Customers.{customer_row}
use aurapro.Models.Documents.{Sale, SaleStatus, order_note_row}
use aurapro.Pricing.{resolve_unit_price, is_currency}
use aurapro.Session.{Session, Result, ok, err}
use aurapro.Session.Errors.{Error}
use aurapro.Treasury.{
  add_account_movement, add_cash_movement_row, check_credit, get_customer_balance,
  record_sale_on_account, get_open_cash_session, add_income, record_cash_income_from_sale,
}
use aurapro.Treasury.Effects.{balance}
use aurapro.Sales.{
  load_customer_type, lock_order_note, discount_product, discount_variant, take_units, sell_item,
  sell_items, assign_sale_number, sale_fits, insert_sale, invoice_order_note, record_payment,
  event_is_valid, append_event, prepare_sale, create_sale,
}
use aurapro.Sales.Atomicity.{Atomic, create_sale-Atomic}
use aurapro.Sales.Stock.{product_stock, variant_stock}
use aurapro.Sales.Posting.{
  create_sale-stock, AnswersRequest, create_sale-lines, RecordsEvent, create_sale-event,
}
use aurapro.Sales.Isolation.{LeavesOthers, create_sale-others}
use aurapro.Sales.Payment.{
  TakesCash, create_sale-balance, create_sale-credit_limit, create_sale-cash,
}
use aurapro.Sales.Notes.{TakesUp, create_sale-order_note}
use aurapro.Sales.Numbers.{IsGapless, create_sale-IsGapless}
use aurapro.Tests.Fixtures.{item, session, shop, request, customer, tenant}

-- To open this is to open all that a sale runs.
sale_code : ℕ
unfolding create_sale prepare_sale load_customer_type lock_order_note sell_items sell_item
    take_units discount_product discount_variant assign_sale_number insert_sale sale_fits
    resolve_unit_price invoice_order_note record_payment record_cash_income_from_sale
    get_open_cash_session add_income add_cash_movement_row record_sale_on_account check_credit
    get_customer_balance add_account_movement append_event event_is_valid is_currency ◌+ℤ◌
sale_code = 0

abbrev value : Result Sale → Sale
value (ok sale) = sale
value (err e) = record {
  id = 0;
  created_at = 0;
  tenant_id = 0;
  customer_id = 0;
  total_amount = 0;
  currency = "";
  sale_number = 0;
  status = SaleStatus.cancelled;
  payment_method = "";
  card_coupon_number = none;
  card_authorization_code = none;
  items = [];
}

abbrev sold : String → Option ℕ → Sale
sold method note_id = value (create_sale 1 (request method note_id) session).0

abbrev after : String → Option ℕ → Session
after method note_id = (create_sale 1 (request method note_id) session).1

cash_sale : create_sale 1 (request "cash" none) session ≡ (ok (sold "cash" none), after "cash" none)
unfolding sale_code
cash_sale = refl

account_sale :
    create_sale 1 (request "account" (some 60)) session
    ≡ (ok (sold "account" (some 60)), after "account" (some 60))
unfolding sale_code
account_sale = refl

cash_sale_total : (sold "cash" none).total_amount ≡ 3900
unfolding sale_code
cash_sale_total = refl

create_sale-Atomic_example : Atomic shop (create_sale 1 (request "cash" none) session)
create_sale-Atomic_example = create_sale-Atomic 1 (request "cash" none) session

create_sale-stock_example :
    (product_stock session 30 ≡ product_stock (after "cash" none) 30 + 3)
    × (variant_stock session 30 ≡ variant_stock (after "cash" none) 30 + 0)
create_sale-stock_example =
    create_sale-stock 1 (request "cash" none) session (sold "cash" none) (after "cash" none)
      cash_sale 30

create_sale-lines_example : AnswersRequest 1 (request "cash" none) session (sold "cash" none)
create_sale-lines_example =
    create_sale-lines 1 (request "cash" none) session (sold "cash" none) (after "cash" none)
      cash_sale

create_sale-event_example : RecordsEvent 1 session (sold "cash" none) (after "cash" none)
create_sale-event_example =
    create_sale-event 1 (request "cash" none) session (sold "cash" none) (after "cash" none)
      cash_sale

create_sale-cash_example : TakesCash session (sold "cash" none).total_amount (after "cash" none) 50
create_sale-cash_example =
    create_sale-cash 1 (request "cash" none) session (sold "cash" none) (after "cash" none)
      cash_sale refl refl refl 50

create_sale-balance_example :
    (balance (after "account" (some 60)) 20 ≡ (
      if 20 == 20
      then balance session 20 +ℤ pos (sold "account" (some 60)).total_amount
      else balance session 20))
    × ((after "account" (some 60)).pending.cash_movements ≡ [])
create_sale-balance_example =
    create_sale-balance 1 (request "account" (some 60)) session (sold "account" (some 60))
      (after "account" (some 60)) account_sale refl refl 20

create_sale-credit_limit_example : balance (after "account" (some 60)) 20 ≤ℤ pos 5000
create_sale-credit_limit_example =
    create_sale-credit_limit 1 (request "account" (some 60)) session (sold "account" (some 60))
      (after "account" (some 60)) account_sale (customer 20 (some 10) (some 5000)) 5000 refl refl
      refl refl

create_sale-order_note_example :
    TakesUp 20 (sold "account" (some 60)).id session (after "account" (some 60)) 60 60
create_sale-order_note_example =
    create_sale-order_note 1 (request "account" (some 60)) session (sold "account" (some 60))
      (after "account" (some 60)) account_sale 60 refl 60

create_sale-others_example : LeavesOthers 1 shop (after "cash" none).committed
create_sale-others_example =
    create_sale-others 1 (request "cash" none) session (sold "cash" none) (after "cash" none)
      cash_sale refl (refl, (refl, tt)) (refl, tt) (refl, tt)

shop-IsGapless : IsGapless 1 shop
shop-IsGapless = (tenant 1, refl, refl)

create_sale-IsGapless_example : IsGapless 1 (after "cash" none).committed
create_sale-IsGapless_example =
    create_sale-IsGapless 1 (request "cash" none) session (sold "cash" none) (after "cash" none)
      cash_sale 1 shop-IsGapless

-- A third unit more than there is.
short_sale :
    (create_sale 1
      (record (request "cash" none) { items = item 30 none 8 ∷ item 30 none 3 ∷ [] })
      session).0
    ≡ err Error.insufficient_stock
unfolding sale_code
short_sale = refl
