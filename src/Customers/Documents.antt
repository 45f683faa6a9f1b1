-- ===== src/Customers/Documents.antt =====
-- Documents and their customers.
use aurapro.Prelude.{
  ℕ, ◌≡◌, refl, sym, ap, subst, Bool, true, not, none, some, List, [], ◌∷◌, ◌++◌, arith, ◌==◌, inl,
  inr, Option-cases, Bool-cases, all, all-both, all-imp, all-append, is_some, map,
}
use aurapro.Models.{Database}
use aurapro.Models.Customers.{Customer, customer_row}
use aurapro.Models.Documents.{Sale, Quote, OrderNote}
use aurapro.Models.Treasury.{AccountMovement}
use aurapro.Session.{Session, Result, ok, err, opened}
use aurapro.Query.{find_by_id, delete_by_id, update_by_id}
use aurapro.Query.Laws.{found_delete, found_append, find_by_id-update}
use aurapro.OrderNotes.{OrderNoteCreate, create_order_note}
use aurapro.OrderNotes.Creation.{IsInformative, create_order_note-IsInformative}
use aurapro.Quotes.{QuoteCreate, create_quote}
use aurapro.Quotes.Creation.{IsProposal, create_quote-IsProposal}
use aurapro.Customers.{CustomerUpdate, is_unused, update_of, clear_type}
use aurapro.Customers.Links.{clear_salesperson}
use aurapro.Customers.Changes.{Change}
use aurapro.Customers.Life

abbrev pub is_there : List Customer → ℕ → Bool
is_there customers k = is_some (find_by_id none k customers)

-- The customers of all documents are there.
abbrev pub HasCustomers : Database → Type 0
HasCustomers d =
    (all (λ (s : Sale). is_there d.customers s.customer_id) d.sales ≡ true)
    × (all (λ (q : Quote). is_there d.customers q.customer_id) d.quotes ≡ true)
    × (all (λ (n : OrderNote). is_there d.customers n.customer_id) d.order_notes ≡ true)
    × (all (λ (m : AccountMovement). is_there d.customers m.customer_id) d.account_movements ≡ true)

unused_parts :
    (k : ℕ) (d : Database)
    → is_unused k d ≡ true
    → (all (λ (s : Sale). not (s.customer_id == k)) d.sales ≡ true)
      × (all (λ (q : Quote). not (q.customer_id == k)) d.quotes ≡ true)
      × (all (λ (n : OrderNote). not (n.customer_id == k)) d.order_notes ≡ true)
      × (all (λ (m : AccountMovement). not (m.customer_id == k)) d.account_movements ≡ true)
unfolding is_unused
unused_parts k d h = (ground arith, ground arith, ground arith, ground arith)

stays :
    (customers : List Customer) (k j : ℕ)
    → is_there customers j ≡ true
    → not (j == k) ≡ true
    → is_there (delete_by_id k customers) j ≡ true
stays customers k j there other = found_delete none j k customers there (ground arith)

-- Customers that all were there before.
abbrev Includes : List Customer → List Customer → Type 0
Includes customers customers' = (k : ℕ) → is_there customers k ≡ true → is_there customers' k ≡ true

HasCustomers-weaken :
    (d : Database) (customers : List Customer)
    → Includes d.customers customers
    → HasCustomers d
    → HasCustomers (record d { customers = customers })
HasCustomers-weaken d customers keep there = (
  all-imp _ _ d.sales (λ s. keep s.customer_id) there.0,
  all-imp _ _ d.quotes (λ q. keep q.customer_id) there.1,
  all-imp _ _ d.order_notes (λ n. keep n.customer_id) there.2,
  all-imp _ _ d.account_movements (λ m. keep m.customer_id) there.3,
)

is_there-update :
    (k : ℕ) (payload : CustomerUpdate) (customers : List Customer)
    → Includes customers (update_by_id k (update_of payload) customers)
is_there-update k payload customers j there =
    let after = find_by_id-update none j k (update_of payload) customers (λ c. (refl, refl)) in
    elim (Option-cases (find_by_id none j customers)) [
      | inl absent ↦ absurd (ground (arith, there, absent))
      | inr (c, found) ↦ elim (Bool-cases (k == j)) [
        | inl here ↦ ground (arith, after, found, here)
        | inr away ↦ ground (arith, after, found, away)
      ]
    ]

is_there-map :
    (f : Customer → Customer) (customers : List Customer)
    → ((c : Customer) → (f c).id ≡ c.id)
    → Includes customers (map f customers)
is_there-map f [] keep j there = there
is_there-map f (c ∷ customers) keep j there =
    ground (arith, keep c, is_there-map f customers keep j)

HasCustomers-removed :
    (k : ℕ) (d : Database)
    → is_unused k d ≡ true
    → HasCustomers d
    → HasCustomers (record d { customers = delete_by_id k d.customers })
HasCustomers-removed k d free there =
    let (sales, quotes, notes, movements) = unused_parts k d free in
    (
      all-both _ _ _ d.sales (λ s. stays d.customers k s.customer_id) there.0 sales,
      all-both _ _ _ d.quotes (λ q. stays d.customers k q.customer_id) there.1 quotes,
      all-both _ _ _ d.order_notes (λ n. stays d.customers k n.customer_id) there.2 notes,
      all-both _ _ _ d.account_movements (λ m. stays d.customers k m.customer_id) there.3 movements,
    )

Change-HasCustomers :
    (t : ℕ) (d : Database) {d' : Database} → Change t d d' → HasCustomers d → HasCustomers d'
Change-HasCustomers t d Change.same there = there
Change-HasCustomers t d (Change.created n c seller kind) there =
    HasCustomers-weaken d (d.customers ++ c ∷ []) (λ k. found_append none k d.customers c) there
Change-HasCustomers t d (Change.changed k payload seller kind) there =
    HasCustomers-weaken d (update_by_id k (update_of payload) d.customers)
      (is_there-update k payload d.customers) there
Change-HasCustomers t d (Change.removed k free) there = HasCustomers-removed k d free there
Change-HasCustomers t d (Change.type_created n new) there = there
Change-HasCustomers t d (Change.type_removed k) there =
    HasCustomers-weaken d (map (clear_type k) d.customers)
      (is_there-map (clear_type k) d.customers (λ c. refl)) there
Change-HasCustomers t d (Change.user_removed k) there =
    HasCustomers-weaken d (map (clear_salesperson k) d.customers)
      (is_there-map (clear_salesperson k) d.customers (λ c. refl)) there

seen_is_there :
    (t k : ℕ) (customers : List Customer) (c : Customer)
    → find_by_id (some t) k customers ≡ some c
    → is_there customers k ≡ true
seen_is_there t k [] c found = cc
seen_is_there t k (x ∷ customers) c found = ground (arith, seen_is_there t k customers c)

-- The requests of tenant `t` on customers, quotes and order notes, with what each leaves committed,
-- whether it returned or raised.
pub data Step (t : ℕ) : Database → Database → Type 0 where
  request : {d d' : Database} → Life.Step t d d' → Step t d d'
  quote :
      (now : ℕ) (payload : QuoteCreate) {d : Database}
      → Step t d (create_quote t payload (opened t now d)).1.committed
  order_note :
      (now : ℕ) (payload : OrderNoteCreate) {d : Database}
      → Step t d (create_order_note t payload (opened t now d)).1.committed

-- Any number of them.
pub data Steps (t : ℕ) : Database → Database → Type 0 where
  done : {d : Database} → Steps t d d
  step : {d d' d'' : Database} → Step t d d' → Steps t d' d'' → Steps t d d''

quote_keeps :
    (t now : ℕ) (payload : QuoteCreate) (d : Database) (r : Result Quote × Session)
    → IsProposal t payload (opened t now d) r
    → HasCustomers d
    → HasCustomers r.1.committed
quote_keeps t now payload d (err e, s') same there = subst HasCustomers (sym same) there
quote_keeps t now payload d (ok q, s') (made, written) there =
    let owner : payload.customer_id ≡ q.customer_id =
      sym (ap (λ (z : Quote). z.customer_id) made.row) in
    let known = seen_is_there t payload.customer_id d.customers made.customer made.found in
    subst HasCustomers (sym written) (
      there.0,
      all-append _ d.quotes q there.1 (subst (λ k. is_there d.customers k ≡ true) owner known),
      there.2,
      there.3,
    )

note_keeps :
    (t now : ℕ) (payload : OrderNoteCreate) (d : Database) (r : Result OrderNote × Session)
    → IsInformative t payload (opened t now d) r
    → HasCustomers d
    → HasCustomers r.1.committed
note_keeps t now payload d (err e, s') same there = subst HasCustomers (sym same) there
note_keeps t now payload d (ok n, s') (made, written) there =
    let (customer, ct, tenant, draft, found, typed, counted, row, requests, prices, total) = made in
    let owner : payload.customer_id ≡ n.customer_id =
      sym (ap (λ (z : OrderNote). z.customer_id) row) in
    let known = seen_is_there t payload.customer_id d.customers customer found in
    subst HasCustomers (sym written) (
      there.0,
      there.1,
      all-append _ d.order_notes n there.2 (subst (λ k. is_there d.customers k ≡ true) owner known),
      there.3,
    )

Step-HasCustomers : (t : ℕ) {d d' : Database} → Step t d d' → HasCustomers d → HasCustomers d'
Step-HasCustomers t (request {d} r) there = Change-HasCustomers t d (Life.Step-Change t r) there
Step-HasCustomers t (quote now payload {d}) there =
    quote_keeps t now payload d (create_quote t payload (opened t now d))
      (create_quote-IsProposal t payload (opened t now d)) there
Step-HasCustomers t (order_note now payload {d}) there =
    note_keeps t now payload d (create_order_note t payload (opened t now d))
      (create_order_note-IsInformative t payload (opened t now d)) there

-- Documents keep their customers: if the customers of all sales, quotes, order notes and movements
-- of accounts are there, then they still are after any number of a tenant's requests to create,
-- change and delete customers, to create and delete their types, to remove users, and to create
-- quotes and order notes, in any order and whether they succeed or not.
pub documents_keep_customers :
    (t : ℕ) {d d' : Database} → HasCustomers d → Steps t d d' → HasCustomers d'
documents_keep_customers t there done = there
documents_keep_customers t there (step first rest) =
    documents_keep_customers t (Step-HasCustomers t first there) rest
