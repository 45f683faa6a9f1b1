-- ===== src/Products/Variants/Rows.antt =====
-- What keeps the combinations of every product of a tenant distinct, by the rows of the table.
use aurapro.Prelude.{
  ℕ, ◌+◌, ◌≡◌, refl, ◌∙◌, ap, subst, String, false, some, List, [], ◌∷◌, ◌++◌, arith, ◌==◌, ==_iff,
  inl, inr, Bool-cases, filter, filter-append, map, map-append, append_assoc, append-nil, length,
}
use aurapro.Models.Products.{ProductVariant, variant_row}
use aurapro.Query.{in_scope}
use aurapro.Query.Laws.{IsKeyed, IsKeyed-append, AreBelow, find_by_id-AreBelow}
use aurapro.Products.Keys.{attributes_key, keys_equal}
use aurapro.Products.Variants.{
  ProductVariantCreate, variants_of, is_taken, contains_key, combo_of, new_variant, add_combo,
}
use aurapro.Products.Variants.Batch.{batch_rows, IsFreeBatch}
use aurapro.Products.Variants.Combinations.{IsDistinct, IsDistinct-append}

-- Identifiers are unique and below the supply's next one, and no two variants of one product of the
-- tenant have the same combination of attributes, unless they have none.
pub record HasDistinct (t : ℕ) (next_id : ℕ) (variants : List ProductVariant) : Type 0 where
  pub keyed : IsKeyed variants
  pub below : AreBelow next_id variants
  pub distinct : (p : ℕ) → IsDistinct (variants_of p (some t) variants)

variants_of-append :
    (q t : ℕ) (xs ys : List ProductVariant)
    → variants_of q (some t) (xs ++ ys) ≡ variants_of q (some t) xs ++ variants_of q (some t) ys
variants_of-append q t xs ys =
    ap (filter (λ (v : ProductVariant). v.product_id == q))
      (filter-append (λ (v : ProductVariant). v.tenant_id == t) xs ys)
    ∙ filter-append (λ (v : ProductVariant). v.product_id == q) (in_scope (some t) xs)
        (in_scope (some t) ys)

AreBelow-append :
    (n : ℕ) (xs : List ProductVariant) (v : ProductVariant)
    → v.id ≡ n
    → AreBelow n xs
    → AreBelow (n + 1) (xs ++ v ∷ [])
AreBelow-append n [] v id below = (omega (arith, id), tt)
AreBelow-append n (x ∷ xs) v id below =
    let first = below.0 in (omega (arith, first), AreBelow-append n xs v id below.1)

-- One row more, of a product of which it takes no combination.
pub HasDistinct-append :
    (t n p : ℕ) (xs : List ProductVariant) (v : ProductVariant)
    → v.id ≡ n
    → v.tenant_id ≡ t
    → v.product_id ≡ p
    → is_taken (combo_of v) (map combo_of (variants_of p (some t) xs)) ≡ false
    → HasDistinct t n xs
    → HasDistinct t (n + 1) (xs ++ v ∷ [])
HasDistinct-append t n p xs v id tenant product free h = record {
  keyed = IsKeyed-append xs v h.keyed (rw id (find_by_id-AreBelow n n xs h.below (omega arith)));
  below = AreBelow-append n xs v id h.below;
  distinct = λ q. rw (variants_of-append q t xs (v ∷ [])) (elim (Bool-cases (p == q)) [
    | inl same ↦
        let here : variants_of q (some t) (v ∷ []) ≡ v ∷ [] = ground (arith, tenant, product) in
        let free' =
          subst (λ r. is_taken (combo_of v) (map combo_of (variants_of r (some t) xs)) ≡ false)
            ((==_iff p q).0 same) free in
        rw here (IsDistinct-append (variants_of q (some t) xs) v (h.distinct q) free')
    | inr other ↦
        let away : variants_of q (some t) (v ∷ []) ≡ [] = ground (arith, tenant, product) in
        rw away (rw (append-nil (variants_of q (some t) xs)) (h.distinct q))
  ]);
}

-- What the loop over a batch has seen covers the product's variants.
abbrev pub Covers : ℕ → ℕ → List (List (String × String)) → List ProductVariant → Type 0
Covers t p combos xs =
    (x : List (String × String))
    → is_taken x combos ≡ false
    → is_taken x (map combo_of (variants_of p (some t) xs)) ≡ false

is_taken-add_combo :
    (x combo : List (String × String)) (combos : List (List (String × String)))
    → is_taken x (add_combo combo combos) ≡ false
    → (is_taken x combos ≡ false) × (is_taken x (combo ∷ []) ≡ false)
unfolding is_taken contains_key add_combo keys_equal
is_taken-add_combo [] combo combos h = ground arith
is_taken-add_combo (y ∷ ys) [] combos h = ground arith
is_taken-add_combo (y ∷ ys) (z ∷ zs) combos h = ground arith

is_taken-append :
    (x : List (String × String)) (ks ls : List (List (String × String)))
    → is_taken x ks ≡ false
    → is_taken x ls ≡ false
    → is_taken x (ks ++ ls) ≡ false
unfolding is_taken contains_key
is_taken-append x [] ls h k = k
is_taken-append x (y ∷ ks) ls h k = ground (arith, is_taken-append x ks ls)

pub HasDistinct-batch :
    (strip : String → String) (t now p n : ℕ) (items : List ProductVariantCreate)
    (skus : List String) (combos : List (List (String × String))) (xs : List ProductVariant)
    → IsFreeBatch strip items skus combos
    → Covers t p combos xs
    → HasDistinct t n xs
    → HasDistinct t (n + length items) (xs ++ batch_rows n now t p items)
HasDistinct-batch strip t now p n [] skus combos xs free covers h =
    rw (append-nil xs) (subst (λ m. HasDistinct t m xs) (omega arith) h)
HasDistinct-batch strip t now p n (item ∷ rest) skus combos xs free covers h =
    let v = new_variant n now t p item in
    let own : variants_of p (some t) (v ∷ []) ≡ v ∷ [] = ground arith in
    let covers' : (x : List (String × String))
        → is_taken x (add_combo (attributes_key item.attributes) combos) ≡ false
        → is_taken x (map combo_of (variants_of p (some t) (xs ++ v ∷ []))) ≡ false =
      λ x out.
        let (old, new) = is_taken-add_combo x (attributes_key item.attributes) combos out in
        rw (variants_of-append p t xs (v ∷ [])) (
          rw own (
            rw (map-append combo_of (variants_of p (some t) xs) (v ∷ [])) (
              is_taken-append x (map combo_of (variants_of p (some t) xs)) (combo_of v ∷ [])
                (covers x old) new))) in
    let ih = HasDistinct-batch strip t now p (n + 1) rest _ _ (xs ++ v ∷ []) free.2 covers' (
      HasDistinct-append t n p xs v refl refl refl (covers (attributes_key item.attributes) free.1)
        h) in
    subst (λ m. HasDistinct t m (xs ++ v ∷ batch_rows (n + 1) now t p rest)) (omega arith)
      (subst (HasDistinct t (n + 1 + length rest)) (append_assoc xs (v ∷ []) _) ih)
