-- ===== src/OrderNotes/Settling.antt =====
-- A request to change an order note's status, in terms of the table and of the request alone.
use aurapro.Prelude.{
  ℕ, ◌≡◌, ◌≢◌, ◌⊎◌, inl, inr, refl, true, false, none, some, arith, Option-cases, Rowwise,
}
use aurapro.Models.Documents.{OrderNote, OrderNoteStatus, order_note_row}
use aurapro.Session.{Session, Result, ok, err}
use aurapro.Session.Errors.{Error}
use aurapro.Query.{find_by_id}
use aurapro.Query.Laws.{update_by_id-Rowwise, ChangesOnly}
use aurapro.Sales.{is_pending}
use aurapro.OrderNotes.{with_status, is_invoiced, update_order_note_status}
use aurapro.OrderNotes.Status.{update_order_note_status-eq}

-- A note before and after, column by column: only its status is another.
pub record Restates (to : OrderNoteStatus) (old new : OrderNote) : Type 0 where
  pub status : new.status ≡ to
  pub id : new.id ≡ old.id
  pub created_at : new.created_at ≡ old.created_at
  pub tenant_id : new.tenant_id ≡ old.tenant_id
  pub customer_id : new.customer_id ≡ old.customer_id
  pub total_amount : new.total_amount ≡ old.total_amount
  pub currency : new.currency ≡ old.currency
  pub order_note_number : new.order_note_number ≡ old.order_note_number
  pub sale_id : new.sale_id ≡ old.sale_id
  pub items : new.items ≡ old.items

-- Why a request for `status` on note `k` is refused.
abbrev pub IsReason : ℕ → OrderNoteStatus → Session → Error → Type 0
IsReason k status s e =
    ((status ≡ OrderNoteStatus.invoiced) × (e ≡ Error.cannot_set_invoiced_manually))
    ⊎ ((status ≢ OrderNoteStatus.invoiced)
        × (find_by_id s.scope k s.pending.order_notes ≡ none)
        × (e ≡ Error.order_note_not_found))
    ⊎ ((status ≢ OrderNoteStatus.invoiced)
        × (n : OrderNote) × (find_by_id s.scope k s.pending.order_notes ≡ some n)
        × (n.status ≢ OrderNoteStatus.pending)
        × (e ≡ Error.order_note_not_pending))

abbrev pub IsSettling : ℕ → OrderNoteStatus → Session → Result OrderNote × Session → Type 0
IsSettling k status s (err e, s') = (s' ≡ s) × IsReason k status s e
IsSettling k status s (ok n, s') =
    (status ≢ OrderNoteStatus.invoiced)
    × (old : OrderNote) × (find_by_id s.scope k s.pending.order_notes ≡ some old)
    × (old.status ≡ OrderNoteStatus.pending)
    × Restates status old n
    × Rowwise (ChangesOnly k (Restates status)) s.pending.order_notes s'.committed.order_notes
    × (s'.committed ≡ record s.pending { order_notes = s'.committed.order_notes })

is_invoiced_iff :
    (status : OrderNoteStatus)
    → ((is_invoiced status ≡ true) × (status ≡ OrderNoteStatus.invoiced))
      ⊎ ((is_invoiced status ≡ false) × (status ≢ OrderNoteStatus.invoiced))
is_invoiced_iff OrderNoteStatus.invoiced = inl (refl, refl)
is_invoiced_iff OrderNoteStatus.pending = inr (refl, λ e. absurd cc)
is_invoiced_iff OrderNoteStatus.cancelled = inr (refl, λ e. absurd cc)

is_pending_iff :
    (n : OrderNote)
    → ((is_pending n ≡ true) × (n.status ≡ OrderNoteStatus.pending))
      ⊎ ((is_pending n ≡ false) × (n.status ≢ OrderNoteStatus.pending))
is_pending_iff n = ground arith

with_status-Restates :
    (status : OrderNoteStatus) (n : OrderNote) → Restates status n (with_status status n)
with_status-Restates status n = record {
  status = refl;
  id = refl;
  created_at = refl;
  tenant_id = refl;
  customer_id = refl;
  total_amount = refl;
  currency = refl;
  order_note_number = refl;
  sale_id = refl;
  items = refl;
}

-- A request to change an order note's status is refused, with everything as it was, exactly if it
-- asks for `INVOICED`, if the session sees no such note, or if the note is not pending, and the error
-- says which. Otherwise it is answered with the note under its new status and all else in it as it
-- was, and this is what is committed: no other note's row has changed, and no other table.
pub update_order_note_status-IsSettling :
    (k : ℕ) (status : OrderNoteStatus) (s : Session)
    → IsSettling k status s (update_order_note_status k status s)
update_order_note_status-IsSettling k status s =
    rw (update_order_note_status-eq k s status) (elim (is_invoiced_iff status) [
      | inl (test, invoiced) ↦ rw test (refl, inl (invoiced, refl))
      | inr (test, other) ↦ elim (Option-cases (find_by_id s.scope k s.pending.order_notes)) [
        | inl absent ↦ rw test (rw absent (refl, inr (inl (other, absent, refl))))
        | inr (n, found) ↦ elim (is_pending_iff n) [
          | inr (settled, other_status) ↦
              rw test
                (rw found (rw settled (refl, inr (inr (other, n, found, other_status, refl)))))
          | inl (pending, was) ↦ rw test (
              rw found (
                rw pending (
                  other,
                  n,
                  found,
                  was,
                  with_status-Restates status n,
                  update_by_id-Rowwise k (with_status status) (Restates status)
                      s.pending.order_notes (with_status-Restates status),
                  refl,
                )))
        ]
      ]
    ])
