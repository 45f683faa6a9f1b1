-- ===== src/Tests/OrderNotes.antt =====
-- Order notes of the fixture's shop.
use aurapro.Prelude.{ℕ, ◌≡◌, refl, Option, none, some, [], ◌∷◌}
use aurapro.Models.{Database}
use aurapro.Models.Documents.{OrderNote, OrderNoteStatus, order_note_row}
use aurapro.Session.{Session, opened, Result, ok, err}
use aurapro.Pricing.{resolve_unit_price}
use aurapro.Sales.{load_customer_type, create_sale}
use aurapro.OrderNotes.{
  OrderNoteItemCreate, OrderNoteCreate, check_variant, price_item, price_items,
  assign_order_note_number, note_fits, insert_order_note, prepare_order_note, create_order_note,
  get_order_note, with_status, update_order_note_status,
}
use aurapro.OrderNotes.Settling.{IsSettling, update_order_note_status-IsSettling}
use aurapro.OrderNotes.Creation.{IsInformative, create_order_note-IsInformative}
use aurapro.OrderNotes.Life.{done, step, sell, status_update, note_of, settled_order_note}
use aurapro.Tests.Fixtures.{session, shop, request, pending_note}

-- To open this is to open all that the requests for order notes run.
order_note_code : ℕ
unfolding create_order_note prepare_order_note load_customer_type price_items price_item
    check_variant assign_order_note_number note_fits insert_order_note resolve_unit_price
    get_order_note update_order_note_status
order_note_code = 0

abbrev note_item : ℕ → Option ℕ → ℕ → OrderNoteItemCreate
note_item product_id variant_id quantity = record {
  product_id = product_id;
  variant_id = variant_id;
  quantity = quantity;
}

abbrev note_request : OrderNoteCreate
note_request = record {
  customer_id = 20;
  currency = "ARS";
  items = note_item 30 none 12 ∷ note_item 31 (some 40) 3 ∷ [];
}

abbrev answered : Result OrderNote → OrderNote
answered (ok n) = n
answered (err e) = with_status OrderNoteStatus.cancelled pending_note

abbrev noteless : Session
noteless = record session { pending = record shop { order_notes = [] } }

-- More units than there are, which a note may ask for.
noted_total : (answered (create_order_note 1 note_request noteless).0).total_amount ≡ 7500
unfolding order_note_code
noted_total = refl

create_order_note-IsInformative_example :
    IsInformative 1 note_request noteless (create_order_note 1 note_request noteless)
create_order_note-IsInformative_example = create_order_note-IsInformative 1 note_request noteless

cancelling :
    (update_order_note_status 60 OrderNoteStatus.cancelled session).0
    ≡ ok (with_status OrderNoteStatus.cancelled pending_note)
unfolding order_note_code
cancelling = refl

update_order_note_status-IsSettling_example :
    IsSettling 60 OrderNoteStatus.cancelled session
      (update_order_note_status 60 OrderNoteStatus.cancelled session)
update_order_note_status-IsSettling_example =
    update_order_note_status-IsSettling 60 OrderNoteStatus.cancelled session

abbrev cancelled_note : OrderNote
cancelled_note = with_status OrderNoteStatus.cancelled pending_note

abbrev cancelled_shop : Database
cancelled_shop = record shop { order_notes = cancelled_note ∷ [] }

-- A sale that names the note, and a request that would make it pending again.
abbrev after_sale : Database
after_sale = (create_sale 1 (request "cash" (some 60)) (opened 1 77 cancelled_shop)).1.committed

abbrev after_both : Database
after_both =
    (update_order_note_status 60 OrderNoteStatus.pending (opened 1 78 after_sale)).1.committed

settled_order_note_example : note_of 1 60 after_both ≡ some cancelled_note
settled_order_note_example =
    settled_order_note 1 60 cancelled_note {d = cancelled_shop} {d' = after_both} refl refl (
      step (sell 77 (request "cash" (some 60)))
        (step (status_update 78 60 OrderNoteStatus.pending) done))
