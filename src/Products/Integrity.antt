-- ===== src/Products/Integrity.antt =====
-- No line of a document ever refers to a product or a variant that is gone.
use aurapro.Prelude.{
  ℕ, ◌≡◌, refl, sym, subst, Bool, true, not, ◌&&◌, Option, none, some, List, [], ◌∷◌, arith, ◌==◌,
  inl, inr, Option-cases, filter, all, is_some,
}
use aurapro.Models.{Database}
use aurapro.Models.Products.{Product, ProductVariant, product_row, variant_row}
use aurapro.Models.Documents.{Sale, Quote, OrderNote}
use aurapro.Session.{opened}
use aurapro.Query.{find_by_id, delete_by_id}
use aurapro.Query.Laws.{found_delete}
use aurapro.Products.Removal.{
  Reference, all_lines, all_references, sale_references, quote_references, note_references,
  is_variant, spares_product, is_unreferenced, remove_product, delete_product,
  variant_is_unreferenced, delete_variant,
}
use aurapro.Products.Variants.Effects.{delete_product-cases, delete_variant-cases}

abbrev pub variant_exists : Option ℕ → List ProductVariant → Bool
variant_exists none variants = true
variant_exists (some k) variants = is_some (find_by_id none k variants)

-- The line's product is there, and its variant, if it names one.
abbrev pub refers : List Product → List ProductVariant → Reference → Bool
refers products variants r =
    is_some (find_by_id none r.product_id products) && variant_exists r.variant_id variants

-- Every line of every sale, quote and order note refers to rows that are there.
abbrev pub HasReferences : Database → Type 0
HasReferences d = all_references (refers d.products d.variants) d ≡ true

all_imp {ℓ} :
    {A : Type ℓ} (p q r : A → Bool) (xs : List A)
    → ((x : A) → p x ≡ true → q x ≡ true → r x ≡ true)
    → all p xs ≡ true
    → all q xs ≡ true
    → all r xs ≡ true
all_imp p q r [] h hp hq = refl
all_imp p q r (x ∷ xs) h hp hq = ground (arith, h x, all_imp p q r xs h)

all_lines_imp :
    {D : Type 0} (lines : D → List Reference) (p q r : Reference → Bool) (docs : List D)
    → ((x : Reference) → p x ≡ true → q x ≡ true → r x ≡ true)
    → all_lines lines p docs ≡ true
    → all_lines lines q docs ≡ true
    → all_lines lines r docs ≡ true
all_lines_imp lines p q r docs h =
    all_imp (λ doc. all p (lines doc)) (λ doc. all q (lines doc)) (λ doc. all r (lines doc)) docs
      (λ doc. all_imp p q r (lines doc) h)

and_three :
    (a b c a' b' c' a'' b'' c'' : Bool)
    → (a ≡ true → a' ≡ true → a'' ≡ true)
    → (b ≡ true → b' ≡ true → b'' ≡ true)
    → (c ≡ true → c' ≡ true → c'' ≡ true)
    → (a && b && c) ≡ true
    → (a' && b' && c') ≡ true
    → (a'' && b'' && c'') ≡ true
and_three a b c a' b' c' a'' b'' c'' f g h p q = ground (arith, f, g, h)

-- What two tests say of every line.
all_references_imp :
    (p q r : Reference → Bool) (d : Database)
    → ((x : Reference) → p x ≡ true → q x ≡ true → r x ≡ true)
    → all_references p d ≡ true
    → all_references q d ≡ true
    → all_references r d ≡ true
unfolding all_references
all_references_imp p q r d h hp hq =
    let sales = all_lines_imp (λ (s : Sale). sale_references s.items) p q r d.sales h in
    let quotes = all_lines_imp (λ (s : Quote). quote_references s.items) p q r d.quotes h in
    let notes = all_lines_imp (λ (s : OrderNote). note_references s.items) p q r d.order_notes h in
    and_three _ _ _ _ _ _ _ _ _ sales quotes notes hp hq

variant_after_product :
    (j k : ℕ) (variants : List ProductVariant)
    → is_some (find_by_id none j variants) ≡ true
    → all (λ (v : ProductVariant). not (v.product_id == k && v.id == j)) variants ≡ true
    → is_some
        (find_by_id none j (filter (λ (v : ProductVariant). not (v.product_id == k)) variants))
      ≡ true
variant_after_product j k [] h spared = h
variant_after_product j k (x ∷ variants) h spared =
    ground (arith, variant_after_product j k variants)

refers_after_product :
    (k : ℕ) (d : Database) (r : Reference)
    → refers d.products d.variants r ≡ true
    → spares_product k d.variants r ≡ true
    → refers (remove_product k d).products (remove_product k d).variants r ≡ true
refers_after_product k d r h spared = elim (Option-cases r.variant_id) [
  | inl unnamed ↦ ground (arith, unnamed, found_delete none r.product_id k d.products)
  | inr (j, named) ↦ ground (
    arith,
    named,
    found_delete none r.product_id k d.products,
    variant_after_product j k d.variants,
  )
]

refers_after_variant :
    (k : ℕ) (products : List Product) (variants : List ProductVariant) (r : Reference)
    → refers products variants r ≡ true
    → not (is_variant k r.variant_id) ≡ true
    → refers products (delete_by_id k variants) r ≡ true
refers_after_variant k products variants r h spared = elim (Option-cases r.variant_id) [
  | inl unnamed ↦ ground (arith, unnamed)
  | inr (j, named) ↦ ground (arith, named, found_delete none j k variants)
]

-- A deletion never leaves a line of a sale, a quote or an order note that refers to a product or a
-- variant that is gone: if all lines refer to rows that are there, then they still do after a
-- request to delete a product, whose variants go with it, and after one to delete a variant,
-- whether the request succeeds or not.
pub deletions_keep_references :
    (t now k p j : ℕ) (d : Database)
    → HasReferences d
    → HasReferences (delete_product k (opened t now d)).1.committed
      × HasReferences (delete_variant p j (opened t now d)).1.committed
unfolding is_unreferenced variant_is_unreferenced all_references
deletions_keep_references t now k p j d h = (
  elim (delete_product-cases t now k d) [
    | inl same ↦ subst HasReferences (sym same) h
    | inr (product, found, free, after) ↦ subst HasReferences (sym after) (
        all_references_imp (refers d.products d.variants) (spares_product k d.variants)
          (refers (remove_product k d).products (remove_product k d).variants) d
          (refers_after_product k d) h free)
  ],
  elim (delete_variant-cases t now p j d) [
    | inl same ↦ subst HasReferences (sym same) h
    | inr (v, free, after) ↦ subst HasReferences (sym after) (
        all_references_imp (refers d.products d.variants)
          (λ (r : Reference). not (is_variant v.id r.variant_id))
          (refers d.products (delete_by_id v.id d.variants)) d
          (refers_after_variant v.id d.products d.variants) h free)
  ],
)
