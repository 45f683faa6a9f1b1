-- ===== src/OrderNotes/Lines.antt =====
-- The lines of a new order note: what the loop over the requested items has put into the draft.
use aurapro.Prelude.{
  ℕ, ◌+◌, ◌*◌, ◌≡◌, refl, ◌∙◌, ap, sym, Option, some, List, [], ◌∷◌, ◌++◌, arith, sum_by,
  Option-cases, inl, inr, map, append_assoc, append-nil, none, subst,
}
use mathlib.Core.Path.{subst₂}
use aurapro.Models.Customers.{CustomerType}
use aurapro.Models.Documents.{OrderNoteItem}
use aurapro.Models.Products.{product_row, variant_row}
use aurapro.Session.{Session, ok}
use aurapro.Session.Rules.{>>=-eq-ok}
use aurapro.Query.{find_by_id}
use aurapro.Query.Laws.{find_by_id_sound}
use aurapro.Pricing.{resolve_unit_price}
use aurapro.Sales.Stock.{quoted}
use aurapro.OrderNotes.{
  OrderNoteItemCreate, Draft, check_variant, price_item, price_items, add_line,
}

abbrev pub line_total : OrderNoteItem → ℕ
line_total i = i.unit_price * i.quantity

-- The request that a line answers.
abbrev pub requested : OrderNoteItem → OrderNoteItemCreate
requested i = record { product_id = i.product_id; variant_id = i.variant_id; quantity = i.quantity }

pub record Priced (t : ℕ) (ct : Option CustomerType) (item : OrderNoteItemCreate) (draft : Draft)
    (s : Session) (draft' : Draft) (s' : Session) : Type 0 where
  pub price : ℕ
  pub found : quoted s ct item.product_id ≡ some price
  pub same : s' ≡ s
  pub line : draft' ≡ add_line t item item.product_id price draft

check_variant-same :
    (p : ℕ) (k : Option ℕ) (s s' : Session) → check_variant p k s ≡ (ok tt, s') → s' ≡ s
unfolding check_variant
check_variant-same p none s s' h = ground arith
check_variant-same p (some k) s s' h =
    elim (Option-cases (find_by_id s.scope k s.pending.variants)) [
      | inl absent ↦ absurd (ground arith)
      | inr (v, e) ↦ ground arith
    ]

price_item-Priced :
    (t : ℕ) (ct : Option CustomerType) (item : OrderNoteItemCreate) (draft : Draft) (s : Session)
    (draft' : Draft) (s' : Session)
    → price_item t ct item draft s ≡ (ok draft', s')
    → Priced t ct item draft s draft' s'
unfolding price_item
price_item-Priced t ct item draft s draft' s' h =
    elim (Option-cases (find_by_id s.scope item.product_id s.pending.products)) [
      | inl absent ↦ absurd (ground arith)
      | inr (product, e) ↦
          let key = (find_by_id_sound s.scope item.product_id s.pending.products product e).0 in
          let checked : check_variant product.id item.variant_id s ≡ (ok tt, s') = ground arith in
          record {
            price = resolve_unit_price ct product;
            found = ground arith;
            same = check_variant-same product.id item.variant_id s s' checked;
            line = ground (arith, key);
          }
    ]

pub record PricedAll (t : ℕ) (ct : Option CustomerType) (items : List OrderNoteItemCreate)
    (draft : Draft) (s : Session) (draft' : Draft) (s' : Session) : Type 0 where
  pub lines : List OrderNoteItem
  pub same : s' ≡ s
  pub note_items : draft'.order_note_items ≡ draft.order_note_items ++ lines
  pub total : draft'.total_amount ≡ draft.total_amount + sum_by line_total lines
  pub requests : map requested lines ≡ items
  pub prices :
      map (λ (i : OrderNoteItem). some i.unit_price) lines
      ≡ map (λ (i : OrderNoteItemCreate). quoted s ct i.product_id) items

PricedAll-nil :
    (t : ℕ) (ct : Option CustomerType) (draft : Draft) (s : Session)
    → PricedAll t ct [] draft s draft s
PricedAll-nil t ct draft s = record {
  lines = [];
  same = refl;
  note_items = sym (append-nil draft.order_note_items);
  total = omega arith;
  requests = refl;
  prices = refl;
}

PricedAll-cons :
    (t : ℕ) (ct : Option CustomerType) (item : OrderNoteItemCreate)
    (rest : List OrderNoteItemCreate) (draft draft1 draft' : Draft) (s s1 s' : Session)
    → Priced t ct item draft s draft1 s1
    → PricedAll t ct rest draft1 s1 draft' s'
    → PricedAll t ct (item ∷ rest) draft s draft' s'
PricedAll-cons t ct item rest draft draft1 draft' s s1 s' first ih =
    let new : OrderNoteItem = record {
      tenant_id = t;
      product_id = item.product_id;
      variant_id = item.variant_id;
      quantity = item.quantity;
      unit_price = first.price;
    } in
    record {
      lines = new ∷ ih.lines;
      same = ih.same ∙ first.same;
      note_items = ih.note_items ∙ rw first.line (append_assoc draft.order_note_items _ _);
      total = omega (arith, ih.total, ap (λ (d : Draft). d.total_amount) first.line);
      requests = ground (arith, ih.requests);
      prices =
          subst
            (λ z.
              some first.price ∷ map (λ (i : OrderNoteItem). some i.unit_price) ih.lines
              ≡ quoted s ct item.product_id
                ∷ map (λ (i : OrderNoteItemCreate). quoted z ct i.product_id) rest)
            first.same (ground (arith, ih.prices, first.found));
    }

pub price_items-PricedAll :
    (t : ℕ) (ct : Option CustomerType) (items : List OrderNoteItemCreate) (draft : Draft)
    (s : Session) (draft' : Draft) (s' : Session)
    → price_items t ct items draft s ≡ (ok draft', s')
    → PricedAll t ct items draft s draft' s'
unfolding price_items
price_items-PricedAll t ct [] draft s draft' s' h =
    subst₂ (λ d z. PricedAll t ct [] draft s d z) (ground arith) (ground arith)
      (PricedAll-nil t ct draft s)
price_items-PricedAll t ct (item ∷ rest) draft s draft' s' h =
    let (draft1, s1, first, then_rest) =
      >>=-eq-ok (price_item t ct item draft) (price_items t ct rest) s h in
    PricedAll-cons t ct item rest draft draft1 draft' s s1 s'
      (price_item-Priced t ct item draft s draft1 s1 first)
      (price_items-PricedAll t ct rest draft1 s1 draft' s' then_rest)
