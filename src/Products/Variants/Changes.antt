-- ===== src/Products/Variants/Changes.antt =====
-- What leaving rows out and changing one do to the combinations of a product.
use aurapro.Prelude.{
  ℕ, ◌≡◌, refl, ◌∙◌, ap, subst, String, Bool, false, not, Option, none, some, List, [], ◌∷◌, arith,
  ◌==◌, ==_iff, inl, inr, Bool-cases, filter, map,
}
use aurapro.Models.Products.{ProductVariant, variant_row}
use aurapro.Query.{find_by_id, in_scope, update_by_id}
use aurapro.Query.Laws.{
  IsKeyed, IsKeyed-filter, IsKeyed-update, AreBelow-filter, AreBelow-update, find_by_id-filter-none,
  update_by_id-absent,
}
use aurapro.Products.Keys.{attributes_key}
use aurapro.Products.Removal.{select_variant}
use aurapro.Products.Variants.{ProductVariantUpdate, variants_of, is_taken, combo_of, update_of}
use aurapro.Products.Variants.Effects.{Unclashing}
use aurapro.Products.Variants.Combinations.{
  IsDistinct, IsDistinct-filter, IsDistinct-update, IsDistinct-update_same,
}
use aurapro.Products.Variants.Rows.{HasDistinct}

filter_swap :
    (a b : ProductVariant → Bool) (xs : List ProductVariant)
    → filter a (filter b xs) ≡ filter b (filter a xs)
filter_swap a b [] = refl
filter_swap a b (x ∷ xs) = ground (arith, filter_swap a b xs)

variants_of-filter :
    (q t : ℕ) (a : ProductVariant → Bool) (xs : List ProductVariant)
    → variants_of q (some t) (filter a xs) ≡ filter a (variants_of q (some t) xs)
variants_of-filter q t a xs =
    ap (filter (λ (v : ProductVariant). v.product_id == q))
      (filter_swap (λ (v : ProductVariant). v.tenant_id == t) a xs)
    ∙ filter_swap (λ (v : ProductVariant). v.product_id == q) a (in_scope (some t) xs)

pub HasDistinct-filter :
    (t n : ℕ) (a : ProductVariant → Bool) (xs : List ProductVariant)
    → HasDistinct t n xs
    → HasDistinct t n (filter a xs)
HasDistinct-filter t n a xs h = record {
  keyed = IsKeyed-filter a xs h.keyed;
  below = AreBelow-filter n a xs h.below;
  distinct = λ q.
      rw (variants_of-filter q t a xs)
        (IsDistinct-filter a (variants_of q (some t) xs) (h.distinct q));
}

IsKeyed-variants_of :
    (q t : ℕ) (xs : List ProductVariant) → IsKeyed xs → IsKeyed (variants_of q (some t) xs)
IsKeyed-variants_of q t xs keyed =
    IsKeyed-filter (λ (v : ProductVariant). v.product_id == q) (in_scope (some t) xs)
      (IsKeyed-filter (λ (v : ProductVariant). v.tenant_id == t) xs keyed)

-- A change that leaves the product too.
abbrev KeepsProduct : (ProductVariant → ProductVariant) → Type 0
KeepsProduct f =
    (v : ProductVariant)
    → ((f v).id ≡ v.id) × ((f v).tenant_id ≡ v.tenant_id) × ((f v).product_id ≡ v.product_id)

variants_of-update :
    (q t k : ℕ) (f : ProductVariant → ProductVariant) (xs : List ProductVariant)
    → KeepsProduct f
    → variants_of q (some t) (update_by_id k f xs) ≡ update_by_id k f (variants_of q (some t) xs)
variants_of-update q t k f [] keep = refl
variants_of-update q t k f (x ∷ xs) keep =
    let ih = variants_of-update q t k f xs keep in
    elim (Bool-cases (x.id == k)) [
      | inl here ↦ ground (arith, here, ih, keep x)
      | inr away ↦ ground (arith, away, ih)
    ]

variants_of-none :
    (q t k : ℕ) (xs : List ProductVariant)
    → find_by_id none k xs ≡ none
    → find_by_id none k (variants_of q (some t) xs) ≡ none
variants_of-none q t k xs h =
    find_by_id-filter-none k (λ (v : ProductVariant). v.product_id == q) (in_scope (some t) xs)
      (find_by_id-filter-none k (λ (v : ProductVariant). v.tenant_id == t) xs h)

select_variant-none :
    (t p k : ℕ) (xs : List ProductVariant)
    → find_by_id none k xs ≡ none
    → select_variant p k (some t) xs ≡ none
select_variant-none t p k [] h = refl
select_variant-none t p k (x ∷ xs) h = ground (arith, select_variant-none t p k xs)

-- The variant is in its own product's list only.
elsewhere :
    (q t p k : ℕ) (xs : List ProductVariant) (v : ProductVariant)
    → IsKeyed xs
    → select_variant p k (some t) xs ≡ some v
    → (p == q) ≡ false
    → find_by_id none k (variants_of q (some t) xs) ≡ none
elsewhere q t p k [] v keyed h other = refl
elsewhere q t p k (x ∷ xs) v keyed h other = elim (Bool-cases (x.id == k)) [
  | inl here ↦
      let alone : find_by_id none k xs ≡ none = ground (arith, keyed.0) in
      let gone = select_variant-none t p k xs alone in
      let rest = variants_of-none q t k xs alone in ground (arith, here, gone, rest)
  | inr away ↦ ground (arith, away, elsewhere q t p k xs v keyed.1)
]

update_of-KeepsProduct : (payload : ProductVariantUpdate) → KeepsProduct (update_of payload)
update_of-KeepsProduct payload v = (refl, refl, refl)

IsDistinct-update_of :
    (t p k q : ℕ) (payload : ProductVariantUpdate) (xs : List ProductVariant) (v : ProductVariant)
    (attributes : Option (Option (List (String × String))))
    → payload.attributes ≡ attributes
    → select_variant p k (some t) xs ≡ some v
    → Unclashing t p k xs attributes
    → IsKeyed xs
    → IsDistinct (variants_of q (some t) xs)
    → IsDistinct (update_by_id k (update_of payload) (variants_of q (some t) xs))
IsDistinct-update_of t p k q payload xs v none e found clash keyed d =
    IsDistinct-update_same k (update_of payload) (variants_of q (some t) xs) (λ w. rw e refl) d
IsDistinct-update_of t p k q payload xs v (some none) e found clash keyed d = absurd clash
IsDistinct-update_of t p k q payload xs v (some (some attributes)) e found clash keyed d =
    elim (Bool-cases (p == q)) [
      | inl same ↦
          let clash' =
            subst
              (λ r.
                is_taken (attributes_key attributes) (
                  map combo_of
                    (filter (λ (w : ProductVariant). not (w.id == k)) (variants_of r (some t) xs)))
                ≡ false)
              ((==_iff p q).0 same) clash in
          IsDistinct-update k (update_of payload) (attributes_key attributes)
            (variants_of q (some t) xs) (λ w. rw e refl) (IsKeyed-variants_of q t xs keyed) clash' d
      | inr other ↦
          rw
            (update_by_id-absent k (update_of payload) (variants_of q (some t) xs)
              (elsewhere q t p k xs v keyed found other))
            d
    ]

pub HasDistinct-update_of :
    (t n p k : ℕ) (payload : ProductVariantUpdate) (xs : List ProductVariant) (v : ProductVariant)
    → select_variant p k (some t) xs ≡ some v
    → Unclashing t p k xs payload.attributes
    → HasDistinct t n xs
    → HasDistinct t n (update_by_id k (update_of payload) xs)
HasDistinct-update_of t n p k payload xs v found clash h = record {
  keyed = IsKeyed-update k (update_of payload) xs (λ w. (refl, refl)) h.keyed;
  below = AreBelow-update n k (update_of payload) xs (λ w. (refl, refl)) h.below;
  distinct = λ q.
      rw (variants_of-update q t k (update_of payload) xs (update_of-KeepsProduct payload)) (
        IsDistinct-update_of t p k q payload xs v payload.attributes refl found clash h.keyed
          (h.distinct q));
}
