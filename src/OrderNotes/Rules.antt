-- ===== src/OrderNotes/Rules.antt =====
-- What `create_order_note` does before its commit leaves the committed data alone.
use aurapro.Prelude.{ℕ, Option, none, some, List, [], ◌∷◌}
use aurapro.Models.Customers.{CustomerType, customer_row}
use aurapro.Session.Rules.{IsUncommitted, uncommitted_rules}
use aurapro.Sales.Atomicity.{load_customer_type-IsUncommitted}
use aurapro.OrderNotes.{
  OrderNoteItemCreate, OrderNoteCreate, Draft, check_variant, price_item, price_items,
  assign_order_note_number, insert_order_note, prepare_order_note,
}

check_variant-IsUncommitted : (p : ℕ) (k : Option ℕ) → IsUncommitted (check_variant p k)
unfolding check_variant
check_variant-IsUncommitted p none = search uncommitted_rules
check_variant-IsUncommitted p (some k) = search uncommitted_rules depth 9

price_item-IsUncommitted :
    (t : ℕ) (ct : Option CustomerType) (item : OrderNoteItemCreate) (draft : Draft)
    → IsUncommitted (price_item t ct item draft)
unfolding price_item
price_item-IsUncommitted t ct item draft =
    search (uncommitted_rules, check_variant-IsUncommitted) depth 9

pub price_items-IsUncommitted :
    (t : ℕ) (ct : Option CustomerType) (items : List OrderNoteItemCreate) (draft : Draft)
    → IsUncommitted (price_items t ct items draft)
unfolding price_items
price_items-IsUncommitted t ct [] draft = search uncommitted_rules
price_items-IsUncommitted t ct (item ∷ rest) draft =
    search (uncommitted_rules, price_item-IsUncommitted, price_items-IsUncommitted t ct rest)

assign_order_note_number-IsUncommitted : (t : ℕ) → IsUncommitted (assign_order_note_number t)
unfolding assign_order_note_number
assign_order_note_number-IsUncommitted t = search uncommitted_rules depth 9

insert_order_note-IsUncommitted :
    (t c : ℕ) (payload : OrderNoteCreate) (n : ℕ) (draft : Draft)
    → IsUncommitted (insert_order_note t c payload n draft)
unfolding insert_order_note
insert_order_note-IsUncommitted t c payload n draft = search uncommitted_rules depth 9

pub prepare_order_note-IsUncommitted :
    (t : ℕ) (payload : OrderNoteCreate) → IsUncommitted (prepare_order_note t payload)
unfolding prepare_order_note
prepare_order_note-IsUncommitted t payload =
    search
      (
        uncommitted_rules, load_customer_type-IsUncommitted, price_items-IsUncommitted,
        assign_order_note_number-IsUncommitted, insert_order_note-IsUncommitted,
      )
      depth 12
