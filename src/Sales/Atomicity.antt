-- ===== src/Sales/Atomicity.antt =====
-- `create_sale` is one transaction: nothing of it is committed before its last step.
use aurapro.Prelude.{ℕ, String, ◌≡◌, refl, Option, none, some, List, [], ◌∷◌}
use aurapro.Models.{Database}
use aurapro.Models.Customers.{Customer, CustomerType}
use aurapro.Models.Products.{Product}
use aurapro.Models.Documents.{Sale, OrderNote}
use aurapro.Session.{Session, Result, ok, err, continue, ◌>>=◌, commit, pure}
use aurapro.Session.Rules.{IsUncommitted, uncommitted_rules}
use aurapro.Treasury.Rules.{
  record_sale_on_account-IsUncommitted, record_cash_income_from_sale-IsUncommitted,
}
use aurapro.Sales.{
  Cart, load_customer_type, lock_order_note, take_units, sell_item, sell_items, assign_sale_number,
  insert_sale, invoice_order_note, record_payment, append_event, prepare_sale, create_sale,
  discount_product, discount_variant,
}
use aurapro.Sales.Schemas.{SaleItemCreate, SaleCreate}

pub load_customer_type-IsUncommitted : (c : Customer) → IsUncommitted (load_customer_type c)
unfolding load_customer_type
load_customer_type-IsUncommitted c =
    elim (c.customer_type_id)
      as (λ k. IsUncommitted (load_customer_type record c { customer_type_id = k })) [
        | none ↦ search uncommitted_rules
        | some k ↦ search uncommitted_rules
      ]

lock_order_note-IsUncommitted :
    (customer_id : ℕ) (k : Option ℕ) → IsUncommitted (lock_order_note customer_id k)
unfolding lock_order_note
lock_order_note-IsUncommitted customer_id none = search uncommitted_rules
lock_order_note-IsUncommitted customer_id (some k) = search uncommitted_rules depth 9

take_units-IsUncommitted :
    (product : Product) (k : Option ℕ) (quantity : ℕ)
    → IsUncommitted (take_units product k quantity)
unfolding take_units discount_product discount_variant
take_units-IsUncommitted product none quantity = search uncommitted_rules
take_units-IsUncommitted product (some k) quantity = search uncommitted_rules depth 9

sell_item-IsUncommitted :
    (t : ℕ) (ct : Option CustomerType) (item : SaleItemCreate) (cart : Cart)
    → IsUncommitted (sell_item t ct item cart)
unfolding sell_item
sell_item-IsUncommitted t ct item cart =
    search (uncommitted_rules, take_units-IsUncommitted) depth 9

sell_items-IsUncommitted :
    (t : ℕ) (ct : Option CustomerType) (items : List SaleItemCreate) (cart : Cart)
    → IsUncommitted (sell_items t ct items cart)
unfolding sell_items
sell_items-IsUncommitted t ct [] cart = search uncommitted_rules
sell_items-IsUncommitted t ct (item ∷ rest) cart =
    search (uncommitted_rules, sell_item-IsUncommitted, sell_items-IsUncommitted t ct rest)

assign_sale_number-IsUncommitted : (t : ℕ) → IsUncommitted (assign_sale_number t)
unfolding assign_sale_number
assign_sale_number-IsUncommitted t = search uncommitted_rules depth 9

insert_sale-IsUncommitted :
    (t c : ℕ) (payload : SaleCreate) (n : ℕ) (cart : Cart)
    → IsUncommitted (insert_sale t c payload n cart)
unfolding insert_sale
insert_sale-IsUncommitted t c payload n cart = search uncommitted_rules depth 9

invoice_order_note-IsUncommitted :
    (note : Option OrderNote) (sale_id : ℕ) → IsUncommitted (invoice_order_note note sale_id)
unfolding invoice_order_note
invoice_order_note-IsUncommitted none sale_id = search uncommitted_rules
invoice_order_note-IsUncommitted (some note) sale_id = search uncommitted_rules

record_payment-IsUncommitted :
    (t : ℕ) (c : Customer) (sale : Sale) (method : String)
    → IsUncommitted (record_payment t c sale method)
unfolding record_payment
record_payment-IsUncommitted t c sale method = search (
  uncommitted_rules, record_sale_on_account-IsUncommitted,
  record_cash_income_from_sale-IsUncommitted,
)

append_event-IsUncommitted :
    (t : ℕ) (currency : String) (cart : Cart) → IsUncommitted (append_event t currency cart)
unfolding append_event
append_event-IsUncommitted t currency cart = search uncommitted_rules depth 9

pub prepare_sale-IsUncommitted :
    (t : ℕ) (payload : SaleCreate) → IsUncommitted (prepare_sale t payload)
unfolding prepare_sale
prepare_sale-IsUncommitted t payload =
    search
      (
        uncommitted_rules, load_customer_type-IsUncommitted, lock_order_note-IsUncommitted,
        sell_items-IsUncommitted, assign_sale_number-IsUncommitted, insert_sale-IsUncommitted,
        invoice_order_note-IsUncommitted, record_payment-IsUncommitted, append_event-IsUncommitted,
      )
      depth 14

-- What the request leaves committed: on an error what was there before, else all of it.
abbrev pub Atomic : Database → Result Sale × Session → Type 0
Atomic before (ok sale, s') = s'.committed ≡ s'.pending
Atomic before (err e, s') = s'.committed ≡ before

commit_last :
    (before : Database) (r : Result Sale) (s : Session)
    → s.committed ≡ before
    → Atomic before (continue r (λ sale. commit >>= λ _. pure sale) s)
commit_last before (ok sale) s h = refl
commit_last before (err e) s h = h

-- A sale is committed whole or not at all: if `create_sale` raises, whatever it had written before
-- that, the committed data is what it was; if it returns, all that it wrote is committed.
pub create_sale-Atomic :
    (tenant_id : ℕ) (payload : SaleCreate) (s : Session)
    → Atomic s.committed (create_sale tenant_id payload s)
unfolding create_sale
create_sale-Atomic tenant_id payload s =
    let (r, s') = prepare_sale tenant_id payload s in
    commit_last s.committed r s' ((prepare_sale-IsUncommitted tenant_id payload).committed s)
