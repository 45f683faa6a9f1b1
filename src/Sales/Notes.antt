-- ===== src/Sales/Notes.antt =====
-- A sale that takes up an order note.
use mathlib.Core.Path.{ap₂}
use aurapro.Prelude.{
  ℕ, ◌≡◌, refl, ◌∙◌, ap, Option, none, some, arith, ◌==◌, if◌then◌else◌, Option-cases, Bool-cases,
  inl, inr, true,
}
use aurapro.Models.Customers.{customer_row}
use aurapro.Models.Documents.{Sale, OrderNote, OrderNoteStatus, order_note_row}
use aurapro.Session.{Session, ok}
use aurapro.Query.{find_by_id, update_by_id}
use aurapro.Query.Laws.{find_by_id_sound, find_by_id-update}
use aurapro.Sales.{is_pending, lock_order_note, create_sale}
use aurapro.Sales.Schemas.{SaleCreate}
use aurapro.Sales.Effects.{invoice, invoice_in}
use aurapro.Sales.Trail.{Trail, create_sale-Trail, Tables, Trail-Tables}

-- The note that was locked is the one asked for, pending and of that customer.
pub record Locked (customer_id k : ℕ) (s : Session) (o : Option OrderNote) : Type 0 where
  pub order_note : OrderNote
  pub same : o ≡ some order_note
  pub found : find_by_id s.scope k s.pending.order_notes ≡ some order_note
  pub status : order_note.status ≡ OrderNoteStatus.pending
  pub owner : order_note.customer_id ≡ customer_id

is_pending-eq : (n : OrderNote) → is_pending n ≡ true → n.status ≡ OrderNoteStatus.pending
is_pending-eq n h = ground arith

pub lock_order_note-Locked :
    (customer_id k : ℕ) (s : Session) (o : Option OrderNote)
    → lock_order_note customer_id (some k) s ≡ (ok o, s)
    → Locked customer_id k s o
unfolding lock_order_note
lock_order_note-Locked customer_id k s o h =
    elim (Option-cases (find_by_id s.scope k s.pending.order_notes)) [
      | inl absent ↦ absurd (ground arith)
      | inr (found, e) ↦ elim (Bool-cases (is_pending found)) [
        | inr settled ↦ absurd (ground arith)
        | inl pending ↦ elim (Bool-cases (found.customer_id == customer_id)) [
          | inr other ↦ absurd (ground arith)
          | inl own ↦ record {
            order_note = found;
            same = ground arith;
            found = e;
            status = is_pending-eq found pending;
            owner = ground arith;
          }
        ]
      ]
    ]

-- The pending note `k` of the customer is invoiced by the sale; `j` is any note.
abbrev pub TakesUp : ℕ → ℕ → Session → Session → ℕ → ℕ → Type 0
TakesUp customer_id sale_id s s' k j =
    (order_note : OrderNote) × (find_by_id s.scope k s.pending.order_notes ≡ some order_note)
    × (order_note.status ≡ OrderNoteStatus.pending)
    × (order_note.customer_id ≡ customer_id)
    × (find_by_id s'.scope j s'.pending.order_notes ≡ (
        if k == j
        then some (invoice sale_id order_note)
        else find_by_id s.scope j s.pending.order_notes))

module _ (t : ℕ) (payload : SaleCreate) (s : Session) (sale : Sale) (s' : Session)
    (created : create_sale t payload s ≡ (ok sale, s')) where
  trail : Trail t payload s sale s'
  trail = create_sale-Trail t payload s sale s' created

  tables : Tables t payload s sale s' trail
  tables = Trail-Tables t payload s sale s' trail

  -- A sale that succeeds and names an order note takes up a note that the session sees, that is
  -- pending and that belongs to the sale's customer. Afterwards this note is invoiced and linked to
  -- the sale, with its other columns as they were, and every other note is as it was.
  pub create_sale-order_note :
      (k : ℕ)
      → payload.order_note_id ≡ some k
      → (j : ℕ) → TakesUp payload.customer_id sale.id s s' k j
  create_sale-order_note k named j =
      let customer = trail.steps.customer in
      let buyer =
        (find_by_id_sound s.scope payload.customer_id s.pending.customers customer
          trail.steps.found).0 in
      let locked =
        lock_order_note-Locked customer.id k s trail.steps.order_note
          (rw named at (trail.steps.locked)) in
      let key =
        (find_by_id_sound s.scope k s.pending.order_notes locked.order_note locked.found).0 in
      let updated =
        find_by_id-update s.scope j k (invoice sale.id) s.pending.order_notes (λ n. (refl, refl)) in
      let rows : s'.pending.order_notes ≡ update_by_id k (invoice sale.id) s.pending.order_notes =
        tables.order_notes
        ∙ ap (λ o. invoice_in o sale.id s.pending.order_notes) locked.same
        ∙ ap (λ i. update_by_id i (invoice sale.id) s.pending.order_notes) key in
      let found = locked.found in
      (
        locked.order_note,
        locked.found,
        locked.status,
        locked.owner ∙ buyer,
        ap₂ (λ scope ns. find_by_id scope j ns) tables.scope rows ∙ updated ∙ ground (arith, found),
      )

  -- A sale that succeeds and names no order note changes none.
  pub create_sale-no_order_note :
      payload.order_note_id ≡ none → s'.pending.order_notes ≡ s.pending.order_notes
  unfolding lock_order_note
  create_sale-no_order_note named =
      let locked = rw named at (trail.steps.locked) in
      let nothing : trail.steps.order_note ≡ none = ground arith in
      tables.order_notes ∙ ap (λ o. invoice_in o sale.id s.pending.order_notes) nothing

  pub create_sale-scope : s'.scope ≡ s.scope
  create_sale-scope = tables.scope
