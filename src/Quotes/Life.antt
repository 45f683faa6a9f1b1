-- ===== src/Quotes/Life.antt =====
-- The life of a quote over any sequence of requests.
use aurapro.Prelude.{
  ℕ, ◌≡◌, refl, ◌∙◌, ap, false, Option, some, none, arith, ◌==◌, inl, inr, Option-cases, Bool-cases,
  if◌then◌else◌,
}
use aurapro.Models.{Database}
use aurapro.Models.Documents.{Quote, QuoteStatus, quote_row}
use aurapro.Session.{Session, opened, Result, ok, err}
use aurapro.Session.Errors.{Error}
use aurapro.Query.{find_by_id, update_by_id}
use aurapro.Query.Laws.{find_by_id-update, find_by_id-append, find_by_id_sound}
use aurapro.Quotes.{
  QuoteCreate, create_quote, get_quote, is_pending, with_status, update_quote_status,
}
use aurapro.Quotes.Creation.{IsProposal, create_quote-IsProposal}

-- The requests of tenant `t` that write quotes, with what each leaves committed, whether it returned
-- or raised.
pub data Step (t : ℕ) : Database → Database → Type 0 where
  creation :
      (now : ℕ) (payload : QuoteCreate) {d : Database}
      → Step t d (create_quote t payload (opened t now d)).1.committed
  status_update :
      (now k : ℕ) (status : QuoteStatus) {d : Database}
      → Step t d (update_quote_status k status (opened t now d)).1.committed

-- Any number of them.
pub data Steps (t : ℕ) : Database → Database → Type 0 where
  done : {d : Database} → Steps t d d
  step : {d d' d'' : Database} → Step t d d' → Steps t d' d'' → Steps t d d''

-- The quote that tenant `t` sees under identifier `k`.
abbrev pub quote_of : ℕ → ℕ → Database → Option Quote
quote_of t k d = find_by_id (some t) k d.quotes

-- What the request for `status` answers and commits, once the quote has been looked up.
abbrev pub settle : ℕ → QuoteStatus → Option Quote → Session → Result Quote × Session
settle k status none s = (err Error.quote_not_found, s)
settle k status (some q) s =
    let d = record s.pending { quotes = update_by_id k (with_status status) s.pending.quotes } in
    if is_pending q
    then (ok (with_status status q), record s { pending = d; committed = d })
    else (err Error.quote_not_pending, s)

pub update_quote_status-eq :
    (k : ℕ) (s : Session) (status : QuoteStatus)
    → update_quote_status k status s ≡ settle k status (find_by_id s.scope k s.pending.quotes) s
unfolding update_quote_status get_quote
update_quote_status-eq k s status = elim (Option-cases (find_by_id s.scope k s.pending.quotes)) [
  | inl absent ↦ rw absent refl
  | inr (q, e) ↦
      let key = (find_by_id_sound s.scope k s.pending.quotes q e).0 in
      elim (Bool-cases (is_pending q)) [
        | inl pending ↦ rw e (rw pending (rw key refl))
        | inr settled ↦ rw e (rw settled refl)
      ]
]

module _ (t k : ℕ) (d : Database) (q : Quote) (found : quote_of t k d ≡ some q)
    (settled : is_pending q ≡ false) where
  created_keeps :
      (now : ℕ) (payload : QuoteCreate) (r : Result Quote × Session)
      → IsProposal t payload (opened t now d) r
      → quote_of t k r.1.committed ≡ some q
  created_keeps now payload (err e, s') h = ap (quote_of t k) h ∙ found
  created_keeps now payload (ok new, s') h =
      ap (quote_of t k) h.1 ∙ find_by_id-append (some t) k d.quotes new q found

  settle_keeps :
      (now j : ℕ) (status : QuoteStatus)
      → quote_of t k (settle j status (quote_of t j d) (opened t now d)).1.committed ≡ some q
  settle_keeps now j status =
      let updated =
        find_by_id-update (some t) k j (with_status status) d.quotes (λ r. (refl, refl)) in
      elim (Option-cases (quote_of t j d)) [
        | inl absent ↦ ground (arith, found)
        | inr (m, e) ↦ elim (Bool-cases (j == k)) [
          | inl same ↦ ground (arith, found, settled)
          | inr other ↦ ground (arith, found, updated)
        ]
      ]

Step-settled :
    (t k : ℕ) (q : Quote)
    → is_pending q ≡ false
    → {d d' : Database} → Step t d d'
    → quote_of t k d ≡ some q
    → quote_of t k d' ≡ some q
Step-settled t k q settled (creation now payload {d}) h =
    created_keeps t k d q h settled now payload (create_quote t payload (opened t now d))
      (create_quote-IsProposal t payload (opened t now d))
Step-settled t k q settled (status_update now j status {d}) h =
    rw (update_quote_status-eq j (opened t now d) status)
      (settle_keeps t k d q h settled now j status)

-- A quote is settled once: one that its tenant sees and that is no longer pending stays as it is,
-- after any number of the tenant's requests to create quotes and to change their status, in any
-- order and whether they succeed or not, so that it is not accepted after it was rejected or expired.
pub settled_quote :
    (t k : ℕ) (q : Quote) {d d' : Database}
    → quote_of t k d ≡ some q
    → is_pending q ≡ false
    → Steps t d d'
    → quote_of t k d' ≡ some q
settled_quote t k q found settled done = found
settled_quote t k q found settled (step first rest) =
    settled_quote t k q (Step-settled t k q settled first found) settled rest
