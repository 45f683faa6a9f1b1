-- ===== src/OrderNotes/Status.antt =====
-- What `update_order_note_status` does on each of its branches.
use aurapro.Prelude.{
  ℕ, ◌≡◌, Option, none, some, arith, if◌then◌else◌, Option-cases, Bool-cases, inl, inr,
}
use aurapro.Models.Documents.{OrderNote, OrderNoteStatus, order_note_row}
use aurapro.Session.{Session, Result, ok, err}
use aurapro.Session.Errors.{Error}
use aurapro.Query.{find_by_id, update_by_id}
use aurapro.Query.Laws.{find_by_id_sound}
use aurapro.Sales.{is_pending}
use aurapro.OrderNotes.{with_status, is_invoiced, get_order_note, update_order_note_status}

-- The data with the status of note `k` set.
abbrev pub status_set : ℕ → OrderNoteStatus → Session → Session
status_set k status s =
    let d = record s.pending {
      order_notes = update_by_id k (with_status status) s.pending.order_notes;
    } in
    record s { pending = d; committed = d }

-- What the request for `status` answers, once the note has been looked up.
abbrev pub settle : ℕ → OrderNoteStatus → Option OrderNote → Session → Result OrderNote × Session
settle k status none s = (err Error.order_note_not_found, s)
settle k status (some n) s =
    if is_pending n
    then (ok (with_status status n), status_set k status s)
    else (err Error.order_note_not_pending, s)

module _ (k : ℕ) (s : Session) where
  -- A request to change an order note's status is refused, with everything as it was, if it asks for
  -- `INVOICED`, if the session sees no such note, and if the note is not pending. Otherwise the note
  -- is answered with its new status, and the status of this note is all that is changed and committed.
  pub update_order_note_status-eq :
      (status : OrderNoteStatus)
      → update_order_note_status k status s ≡ (
          if is_invoiced status
          then (err Error.cannot_set_invoiced_manually, s)
          else settle k status (find_by_id s.scope k s.pending.order_notes) s)
  unfolding update_order_note_status get_order_note
  update_order_note_status-eq status = elim (Bool-cases (is_invoiced status)) [
    | inl invoiced ↦ ground arith
    | inr other ↦ elim (Option-cases (find_by_id s.scope k s.pending.order_notes)) [
      | inl absent ↦ ground arith
      | inr (n, e) ↦
          let key = (find_by_id_sound s.scope k s.pending.order_notes n e).0 in
          elim (Bool-cases (is_pending n)) [
            | inl pending ↦ ground (arith, key)
            | inr settled ↦ ground arith
          ]
    ]
  ]
