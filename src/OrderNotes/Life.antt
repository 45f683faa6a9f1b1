-- ===== src/OrderNotes/Life.antt =====
-- The life of an order note over any sequence of requests.
use aurapro.Prelude.{
  ℕ, ◌≡◌, refl, ◌∙◌, ap, sym, false, Option, some, arith, ◌==◌, inl, inr, Option-cases, Bool-cases,
  subst, if◌then◌else◌,
}
use aurapro.Models.{Database}
use aurapro.Models.Documents.{Sale, OrderNote, OrderNoteStatus, order_note_row}
use aurapro.Session.{Session, opened, Result, ok, err}
use aurapro.Session.Rules.{Result-cases}
use aurapro.Query.{find_by_id}
use aurapro.Query.Laws.{find_by_id-update, find_by_id-append}
use aurapro.Sales.{create_sale, is_pending}
use aurapro.Sales.Schemas.{SaleCreate}
use aurapro.Sales.Atomicity.{Atomic, create_sale-Atomic}
use aurapro.Sales.Effects.{invoice}
use aurapro.Sales.Notes.{create_sale-order_note, create_sale-no_order_note, create_sale-scope}
use aurapro.OrderNotes.{
  OrderNoteCreate, create_order_note, update_order_note_status, with_status, is_invoiced,
}
use aurapro.OrderNotes.Creation.{IsInformative, create_order_note-IsInformative}
use aurapro.OrderNotes.Status.{update_order_note_status-eq, settle}

-- The requests of tenant `t` that write order notes, with what each leaves committed, whether it
-- returned or raised.
pub data Step (t : ℕ) : Database → Database → Type 0 where
  sell :
      (now : ℕ) (payload : SaleCreate) {d : Database}
      → Step t d (create_sale t payload (opened t now d)).1.committed
  creation :
      (now : ℕ) (payload : OrderNoteCreate) {d : Database}
      → Step t d (create_order_note t payload (opened t now d)).1.committed
  status_update :
      (now k : ℕ) (status : OrderNoteStatus) {d : Database}
      → Step t d (update_order_note_status k status (opened t now d)).1.committed

-- Any number of them.
pub data Steps (t : ℕ) : Database → Database → Type 0 where
  done : {d : Database} → Steps t d d
  step : {d d' d'' : Database} → Step t d d' → Steps t d' d'' → Steps t d d''

-- The note that tenant `t` sees under identifier `k`.
abbrev pub note_of : ℕ → ℕ → Database → Option OrderNote
note_of t k d = find_by_id (some t) k d.order_notes

module _ (t k : ℕ) (d : Database) (n : OrderNote) (found : note_of t k d ≡ some n)
    (settled : is_pending n ≡ false) where
  created_keeps :
      (now : ℕ) (payload : OrderNoteCreate) (r : Result OrderNote × Session)
      → IsInformative t payload (opened t now d) r
      → note_of t k r.1.committed ≡ some n
  created_keeps now payload (err e, s') h = ap (note_of t k) h ∙ found
  created_keeps now payload (ok note, s') h =
      ap (note_of t k) h.1 ∙ find_by_id-append (some t) k d.order_notes note n found

  settle_keeps :
      (now j : ℕ) (status : OrderNoteStatus)
      → note_of t k (settle j status (note_of t j d) (opened t now d)).1.committed ≡ some n
  settle_keeps now j status =
      let updated =
        find_by_id-update (some t) k j (with_status status) d.order_notes (λ r. (refl, refl)) in
      elim (Option-cases (note_of t j d)) [
        | inl absent ↦ ground (arith, found)
        | inr (m, e) ↦ elim (Bool-cases (j == k)) [
          | inl same ↦ ground (arith, found, settled)
          | inr other ↦ ground (arith, found, updated)
        ]
      ]

  status_keeps :
      (now j : ℕ) (status : OrderNoteStatus)
      → note_of t k (update_order_note_status j status (opened t now d)).1.committed ≡ some n
  status_keeps now j status =
      rw (update_order_note_status-eq j (opened t now d) status)
        (elim (Bool-cases (is_invoiced status)) [
          | inl invoiced ↦ rw invoiced found
          | inr other ↦ rw other (settle_keeps now j status)
        ])

  sold_keeps :
      (now : ℕ) (payload : SaleCreate) (sale : Sale) (s' : Session)
      → create_sale t payload (opened t now d) ≡ (ok sale, s')
      → note_of t k s'.pending ≡ some n
  sold_keeps now payload sale s' h = elim (Option-cases payload.order_note_id) [
    | inl unnamed ↦
        ap (find_by_id (some t) k)
          (create_sale-no_order_note t payload (opened t now d) sale s' h unnamed)
        ∙ found
    | inr (j, named) ↦
        let scope = create_sale-scope t payload (opened t now d) sale s' h in
        let (m, seen, pending, owner, after) =
          create_sale-order_note t payload (opened t now d) sale s' h j named k in
        let after' : note_of t k s'.pending
            ≡ (if j == k then some (invoice sale.id m) else note_of t k d) =
          ap (λ o. find_by_id o k s'.pending.order_notes) (sym scope) ∙ after in
        elim (Bool-cases (j == k)) [
          | inl same ↦ absurd (ground (arith, seen, pending, found, settled))
          | inr other ↦ ground (arith, after', found)
        ]
  ]

  sale_keeps :
      (now : ℕ) (payload : SaleCreate)
      → note_of t k (create_sale t payload (opened t now d)).1.committed ≡ some n
  sale_keeps now payload =
      let s = opened t now d in
      let atomic = create_sale-Atomic t payload s in
      elim (Result-cases (create_sale t payload s)) [
        | inl (sale, s', h) ↦
            let whole = subst (Atomic d) h atomic in
            subst (λ (z : Result Sale × Session). note_of t k z.1.committed ≡ some n) (sym h)
              (ap (note_of t k) whole ∙ sold_keeps now payload sale s' h)
        | inr (e, s', h) ↦
            let nothing = subst (Atomic d) h atomic in
            subst (λ (z : Result Sale × Session). note_of t k z.1.committed ≡ some n) (sym h)
              (ap (note_of t k) nothing ∙ found)
      ]

Step-settled :
    (t k : ℕ) (n : OrderNote)
    → is_pending n ≡ false
    → {d d' : Database} → Step t d d'
    → note_of t k d ≡ some n
    → note_of t k d' ≡ some n
Step-settled t k n settled (sell now payload {d}) h = sale_keeps t k d n h settled now payload
Step-settled t k n settled (creation now payload {d}) h =
    created_keeps t k d n h settled now payload (create_order_note t payload (opened t now d))
      (create_order_note-IsInformative t payload (opened t now d))
Step-settled t k n settled (status_update now j status {d}) h =
    status_keeps t k d n h settled now j status

-- An order note that its tenant sees and that is no longer pending stays as it is for good: after
-- any number of requests of the tenant to create sales, to create order notes and to change their
-- status, in any order and whether they succeed or not, the tenant sees the same note with the same
-- status, sale and lines. So no note is invoiced twice, and none is both cancelled and invoiced.
pub settled_order_note :
    (t k : ℕ) (n : OrderNote) {d d' : Database}
    → note_of t k d ≡ some n
    → is_pending n ≡ false
    → Steps t d d'
    → note_of t k d' ≡ some n
settled_order_note t k n found settled done = found
settled_order_note t k n found settled (step first rest) =
    settled_order_note t k n (Step-settled t k n settled first found) settled rest
