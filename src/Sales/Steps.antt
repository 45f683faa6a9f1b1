-- ===== src/Sales/Steps.antt =====
-- The run of a `create_sale` that returns, step by step.
use aurapro.Prelude.{ℕ, ◌≡◌, Option, none, some, arith, inl, inr, Option-cases}
use aurapro.Models.Customers.{Customer, CustomerType, customer_row}
use aurapro.Models.Documents.{Sale, OrderNote, order_note_row}
use aurapro.Session.{Session, Result, ok}
use aurapro.Session.Rules.{Result-cases}
use aurapro.Query.{find_by_id}
use aurapro.Sales.{
  Cart, empty_cart, load_customer_type, lock_order_note, sell_items, assign_sale_number,
  insert_sale, invoice_order_note, record_payment, append_event, prepare_sale, create_sale,
}
use aurapro.Sales.Schemas.{SaleCreate}

pub record Steps (t : ℕ) (payload : SaleCreate) (s : Session) (sale : Sale) (s' : Session)
    : Type 0 where
  pub customer : Customer
  pub customer_type : Option CustomerType
  pub order_note : Option OrderNote
  pub cart : Cart
  pub sale_number : ℕ
  pub sold : Session
  pub numbered : Session
  pub inserted : Session
  pub invoiced : Session
  pub paid : Session
  pub found : find_by_id s.scope payload.customer_id s.pending.customers ≡ some customer
  pub typed : load_customer_type customer s ≡ (ok customer_type, s)
  pub locked : lock_order_note customer.id payload.order_note_id s ≡ (ok order_note, s)
  pub sells : sell_items t customer_type payload.items empty_cart s ≡ (ok cart, sold)
  pub numbers : assign_sale_number t sold ≡ (ok sale_number, numbered)
  pub inserts : insert_sale t customer.id payload sale_number cart numbered ≡ (ok sale, inserted)
  pub invoices : invoice_order_note order_note sale.id inserted ≡ (ok tt, invoiced)
  pub pays : record_payment t customer sale payload.payment_method invoiced ≡ (ok tt, paid)
  pub appends : append_event t payload.currency cart paid ≡ (ok tt, s')

-- What follows the sale of the units.
post-eq-ok :
    (t : ℕ) (payload : SaleCreate) (s sold : Session) (sale : Sale) (s' : Session)
    (customer : Customer) (customer_type : Option CustomerType) (order_note : Option OrderNote)
    (cart : Cart)
    → prepare_sale t payload s ≡ (ok sale, s')
    → find_by_id s.scope payload.customer_id s.pending.customers ≡ some customer
    → load_customer_type customer s ≡ (ok customer_type, s)
    → lock_order_note customer.id payload.order_note_id s ≡ (ok order_note, s)
    → sell_items t customer_type payload.items empty_cart s ≡ (ok cart, sold)
    → Steps t payload s sale s'
unfolding prepare_sale
post-eq-ok t payload s sold sale s' customer customer_type order_note cart h found typed locked
      sells =
    elim (Result-cases (assign_sale_number t sold)) [
      | inr (e, s1, failed) ↦ absurd (ground arith)
      | inl (n, numbered, numbers) ↦
          elim (Result-cases (insert_sale t customer.id payload n cart numbered)) [
            | inr (e, s1, failed) ↦ absurd (ground arith)
            | inl (row, inserted, inserts) ↦
                elim (Result-cases (invoice_order_note order_note row.id inserted)) [
                  | inr (e, s1, failed) ↦ absurd (ground arith)
                  | inl (_, invoiced, invoices) ↦
                      elim (Result-cases
                        (record_payment t customer row payload.payment_method invoiced)) [
                          | inr (e, s1, failed) ↦ absurd (ground arith)
                          | inl (_, paid, pays) ↦
                              elim (Result-cases (append_event t payload.currency cart paid)) [
                                | inr (e, s1, failed) ↦ absurd (ground arith)
                                | inl (_, appended, appends) ↦ record {
                                  customer = customer;
                                  customer_type = customer_type;
                                  order_note = order_note;
                                  cart = cart;
                                  sale_number = n;
                                  sold = sold;
                                  numbered = numbered;
                                  inserted = inserted;
                                  invoiced = invoiced;
                                  paid = paid;
                                  found = found;
                                  typed = typed;
                                  locked = locked;
                                  sells = sells;
                                  numbers = numbers;
                                  inserts = ground arith;
                                  invoices = ground arith;
                                  pays = ground arith;
                                  appends = ground arith;
                                }
                              ]
                        ]
                ]
          ]
    ]

-- The queries before the loop write nothing.
pub load_customer_type-same :
    (c : Customer) (s : Session) (r : Result (Option CustomerType)) (s' : Session)
    → load_customer_type c s ≡ (r, s')
    → s' ≡ s
unfolding load_customer_type
load_customer_type-same c s r s' h = ground arith

lock_order_note-same :
    (customer_id : ℕ) (k : Option ℕ) (s : Session) (order_note : Option OrderNote) (s' : Session)
    → lock_order_note customer_id k s ≡ (ok order_note, s')
    → s' ≡ s
unfolding lock_order_note
lock_order_note-same customer_id none s order_note s' h = ground arith
lock_order_note-same customer_id (some k) s order_note s' h =
    elim (Option-cases (find_by_id s.scope k s.pending.order_notes)) [
      | inl absent ↦ absurd (ground arith)
      | inr (found, e) ↦ ground arith
    ]

pub prepare_sale-Steps :
    (t : ℕ) (payload : SaleCreate) (s : Session) (sale : Sale) (s' : Session)
    → prepare_sale t payload s ≡ (ok sale, s')
    → Steps t payload s sale s'
unfolding prepare_sale
prepare_sale-Steps t payload s sale s' h =
    elim (Option-cases (find_by_id s.scope payload.customer_id s.pending.customers)) [
      | inl absent ↦ absurd (ground arith)
      | inr (customer, found) ↦ elim (Result-cases (load_customer_type customer s)) [
        | inr (e, s1, failed) ↦ absurd (ground arith)
        | inl (customer_type, s1, typed) ↦
            let here = load_customer_type-same customer s (ok customer_type) s1 typed in
            elim (Result-cases (lock_order_note customer.id payload.order_note_id s)) [
              | inr (e, s2, failed) ↦ absurd (ground arith)
              | inl (note, s2, locked) ↦
                  let there =
                    lock_order_note-same customer.id payload.order_note_id s note s2 locked in
                  elim (Result-cases (sell_items t customer_type payload.items empty_cart s)) [
                    | inr (e, s3, failed) ↦ absurd (ground arith)
                    | inl (cart, sold, sells) ↦
                        post-eq-ok t payload s sold sale s' customer customer_type note cart h found
                          (ground arith) (ground arith) sells
                  ]
            ]
      ]
    ]

-- A sale that was created was prepared, and then all of it was committed.
pub create_sale-Steps :
    (t : ℕ) (payload : SaleCreate) (s : Session) (sale : Sale) (s' : Session)
    → create_sale t payload s ≡ (ok sale, s')
    → (p : Session) × Steps t payload s sale p × (s' ≡ record p { committed = p.pending })
unfolding create_sale
create_sale-Steps t payload s sale s' h = elim (Result-cases (prepare_sale t payload s)) [
  | inr (e, p, failed) ↦ absurd (ground arith)
  | inl (row, p, prepared) ↦ (p, prepare_sale-Steps t payload s sale p (ground arith), ground arith)
]
