-- ===== src/OrderNotes/Creation.antt =====
-- What `create_order_note` commits, and what it leaves alone.
use aurapro.Prelude.{
  ℕ, ◌+◌, ◌≡◌, refl, ◌∙◌, ap, sym, Option, some, [], ◌∷◌, ◌++◌, arith, sum_by, map, inl, inr,
  Option-cases, Bool-cases, subst,
}
use aurapro.Models.{Database}
use aurapro.Models.Identity.{Tenant}
use aurapro.Models.Customers.{Customer, CustomerType, customer_row}
use aurapro.Models.Documents.{OrderNote, OrderNoteItem}
use aurapro.Session.{Session, Result, ok, err, continue, ◌>>=◌, commit, pure}
use aurapro.Session.Rules.{Result-cases}
use aurapro.Query.{find_by_id}
use aurapro.Query.Laws.{find_by_id_sound}
use aurapro.Sales.{load_customer_type}
use aurapro.Sales.Effects.{tenant_of}
use aurapro.Sales.Steps.{load_customer_type-same}
use aurapro.Sales.Stock.{quoted}
use aurapro.OrderNotes.{
  OrderNoteItemCreate, OrderNoteCreate, Draft, empty_draft, price_items, assign_order_note_number,
  advance_notes, note_fits, new_note, insert_order_note, prepare_order_note, create_order_note,
}
use aurapro.OrderNotes.Lines.{price_items-PricedAll, line_total, requested}
use aurapro.OrderNotes.Rules.{prepare_order_note-IsUncommitted}

-- The data once the note is there and the tenant's counter of notes stands at `n + 1`: all other
-- tables are as they were.
abbrev pub with_note : ℕ → ℕ → OrderNote → Database → Database
with_note t n note d = record d {
  next_id = d.next_id + 1;
  tenants = advance_notes t (n + 1) d.tenants;
  order_notes = d.order_notes ++ note ∷ [];
}

-- A note that answers the request, with the tenant's next number.
abbrev pub Drafted : ℕ → OrderNoteCreate → Session → OrderNote → Type 0
Drafted t payload s note =
    (customer : Customer) × (customer_type : Option CustomerType) × (tenant : Tenant)
    × (draft : Draft) × (find_by_id s.scope payload.customer_id s.pending.customers ≡ some customer)
    × (load_customer_type customer s ≡ (ok customer_type, s))
    × (tenant_of t s.pending.tenants ≡ some tenant)
    × (note
        ≡ new_note s.pending.next_id s.now t payload.customer_id payload
            tenant.next_order_note_number draft)
    × (map requested note.items ≡ payload.items)
    × (map (λ (i : OrderNoteItem). some i.unit_price) note.items
        ≡ map (λ (i : OrderNoteItemCreate). quoted s customer_type i.product_id) payload.items)
    × (note.total_amount ≡ sum_by line_total note.items)

numbered_and_inserted :
    (t c : ℕ) (payload : OrderNoteCreate) (draft : Draft) (s : Session) (note : OrderNote)
    (s' : Session)
    → (assign_order_note_number t >>= λ n. insert_order_note t c payload n draft) s ≡ (ok note, s')
    → (tenant : Tenant) × (tenant_of t s.pending.tenants ≡ some tenant)
      × (note ≡ new_note s.pending.next_id s.now t c payload tenant.next_order_note_number draft)
      × (s'.pending ≡ with_note t tenant.next_order_note_number note s.pending)
unfolding assign_order_note_number insert_order_note
numbered_and_inserted t c payload draft s note s' h =
    elim (Option-cases (tenant_of t s.pending.tenants)) [
      | inl absent ↦ absurd (ground arith)
      | inr (tenant, e) ↦
          let row =
            new_note s.pending.next_id s.now t c payload tenant.next_order_note_number draft in
          elim (Bool-cases (note_fits row s.pending.order_notes)) [
            | inl fits ↦ (tenant, e, ground arith, ground arith)
            | inr not_fits ↦ absurd (ground arith)
          ]
    ]

-- The run of a `prepare_order_note` that returns.
record NoteSteps (t : ℕ) (payload : OrderNoteCreate) (s : Session) (note : OrderNote) (s' : Session)
    : Type 0 where
  pub customer : Customer
  pub customer_type : Option CustomerType
  pub draft : Draft
  pub priced : Session
  pub found : find_by_id s.scope payload.customer_id s.pending.customers ≡ some customer
  pub typed : load_customer_type customer s ≡ (ok customer_type, s)
  pub prices : price_items t customer_type payload.items empty_draft s ≡ (ok draft, priced)
  pub rest :
      (assign_order_note_number t >>= λ n. insert_order_note t customer.id payload n draft) priced
      ≡ (ok note, s')

prepare_order_note-NoteSteps :
    (t : ℕ) (payload : OrderNoteCreate) (s : Session) (note : OrderNote) (s' : Session)
    → prepare_order_note t payload s ≡ (ok note, s')
    → NoteSteps t payload s note s'
unfolding prepare_order_note
prepare_order_note-NoteSteps t payload s note s' h =
    elim (Option-cases (find_by_id s.scope payload.customer_id s.pending.customers)) [
      | inl absent ↦ absurd (ground arith)
      | inr (customer, found) ↦ elim (Result-cases (load_customer_type customer s)) [
        | inr (e, s1, failed) ↦ absurd (ground arith)
        | inl (ct, s1, typed) ↦
            let here = load_customer_type-same customer s (ok ct) s1 typed in
            elim (Result-cases (price_items t ct payload.items empty_draft s)) [
              | inr (e, s2, failed) ↦ absurd (ground arith)
              | inl (draft, s2, priced) ↦ record {
                customer = customer;
                customer_type = ct;
                draft = draft;
                priced = s2;
                found = found;
                typed = ground arith;
                prices = priced;
                rest = ground arith;
              }
            ]
      ]
    ]

prepare_order_note-eq-ok :
    (t : ℕ) (payload : OrderNoteCreate) (s : Session) (note : OrderNote) (s' : Session)
    → prepare_order_note t payload s ≡ (ok note, s')
    → Drafted t payload s note × (s'.pending ≡ with_note t note.order_note_number note s.pending)
prepare_order_note-eq-ok t payload s note s' h =
    let steps = prepare_order_note-NoteSteps t payload s note s' h in
    let all =
      price_items-PricedAll t steps.customer_type payload.items empty_draft s steps.draft
        steps.priced steps.prices in
    let buyer =
      (find_by_id_sound s.scope payload.customer_id s.pending.customers steps.customer
        steps.found).0 in
    let (tenant, counted, row, effect) =
      numbered_and_inserted t payload.customer_id payload steps.draft s note s' (
        subst
          (λ z.
            (assign_order_note_number t >>= λ n.
            insert_order_note t payload.customer_id payload n steps.draft)
              z
            ≡ (ok note, s'))
          all.same
          (subst
            (λ c.
              (assign_order_note_number t >>= λ n. insert_order_note t c payload n steps.draft)
                steps.priced
              ≡ (ok note, s'))
            buyer steps.rest)) in
    let items : note.items ≡ all.lines = ap (λ (n : OrderNote). n.items) row ∙ all.note_items in
    let number : note.order_note_number ≡ tenant.next_order_note_number =
      ap (λ (n : OrderNote). n.order_note_number) row in
    (
      (
        steps.customer,
        steps.customer_type,
        tenant,
        steps.draft,
        steps.found,
        steps.typed,
        counted,
        row,
        rw items all.requests,
        rw items all.prices,
        rw items (ap (λ (n : OrderNote). n.total_amount) row ∙ all.total ∙ omega arith),
      ),
      effect ∙ ap (λ n. with_note t n note s.pending) (sym number),
    )

-- What the request leaves committed: on an error what was there before, else what the transaction
-- saw at its beginning, with one note more.
abbrev pub IsInformative : ℕ → OrderNoteCreate → Session → Result OrderNote × Session → Type 0
IsInformative t payload s (err e, s') = s'.committed ≡ s.committed
IsInformative t payload s (ok note, s') =
    Drafted t payload s note × (s'.committed ≡ with_note t note.order_note_number note s.pending)

informed :
    (t : ℕ) (payload : OrderNoteCreate) (s : Session) (r : Result OrderNote) (s' : Session)
    → prepare_order_note t payload s ≡ (r, s')
    → IsInformative t payload s (continue r (λ note. commit >>= λ _. pure note) s')
informed t payload s (err e) s' h =
    subst (λ (z : Result OrderNote × Session). z.1.committed ≡ s.committed) h
      ((prepare_order_note-IsUncommitted t payload).committed s)
informed t payload s (ok note) s' h = prepare_order_note-eq-ok t payload s note s' h

-- An order note is informative only. If `create_order_note` raises, the committed data is what it
-- was. If it returns, the committed data is what the session saw, with the note appended and the
-- tenant's counter of notes one further, so that stock, accounts, cash, sales and the outbox are as
-- they were. The note is pending and of the request's customer, it has the counter's number, its
-- lines answer the request one for one and in order at the catalogue's prices for the customer's
-- type, and its total is the sum of price times quantity.
pub create_order_note-IsInformative :
    (tenant_id : ℕ) (payload : OrderNoteCreate) (s : Session)
    → IsInformative tenant_id payload s (create_order_note tenant_id payload s)
unfolding create_order_note
create_order_note-IsInformative tenant_id payload s =
    informed tenant_id payload s (prepare_order_note tenant_id payload s).0
      (prepare_order_note tenant_id payload s).1 refl
