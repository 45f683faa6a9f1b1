-- ===== src/Products/Variants/Effects.antt =====
-- What each request on variants leaves committed, in a session of tenant `t`.
use aurapro.Prelude.{
  ℕ, ◌+◌, ◌≡◌, refl, ap, String, true, false, not, ◌&&◌, Option, none, some, List, [], ◌∷◌, ◌++◌,
  arith, ◌==◌, inl, inr, ◌⊎◌, Option-cases, Bool-cases, filter, map, all,
}
use aurapro.Models.{Database}
use aurapro.Models.Products.{Product, ProductVariant, product_row, variant_row}
use aurapro.Session.{opened, ok, err}
use aurapro.Session.Errors.{Error}
use aurapro.Query.{find_by_id, update_by_id, delete_by_id}
use aurapro.Query.Laws.{find_by_id_sound}
use aurapro.Products.Keys.{attributes_key}
use aurapro.Products.Catalogue.{get_product}
use aurapro.Products.Removal.{
  select_variant, get_variant, variant_is_unreferenced, delete_variant, is_unreferenced,
  remove_product, delete_product,
}
use aurapro.Products.Variants.{
  ProductVariantCreate, ProductVariantUpdate, variants_of, is_taken, combo_of, new_variant, all_fit,
  variant_in_range, insert_variants, create_variant, update_of, null_column, check_new_attributes,
  variant_fits, write_variant, update_variant,
}

pub create_variant-cases :
    (t now p : ℕ) (payload : ProductVariantCreate) (d : Database)
    → ((create_variant t p payload (opened t now d)).1.committed ≡ d)
      ⊎ ((is_taken
              (attributes_key payload.attributes)
              (map combo_of (variants_of p (some t) d.variants))
            ≡ false)
          × ((create_variant t p payload (opened t now d)).1.committed ≡ record d {
            next_id = d.next_id + 1;
            variants = d.variants ++ new_variant d.next_id now t p payload ∷ [];
          }))
unfolding create_variant get_product insert_variants
create_variant-cases t now p payload d = elim (Option-cases (find_by_id (some t) p d.products)) [
  | inl absent ↦ inl (ground arith)
  | inr (product, found) ↦
      let key = (find_by_id_sound (some t) p d.products product found).0 in
      elim (Bool-cases (
        is_taken (attributes_key payload.attributes)
          (map combo_of (variants_of p (some t) d.variants)))) [
            | inl taken ↦ inl (rw found (rw key (rw taken refl)))
            | inr free ↦
                let new = new_variant d.next_id now t p payload ∷ [] in
                elim (Bool-cases (all variant_in_range new)) [
                  | inr outside ↦ inl (rw found (rw key (rw free (rw outside refl))))
                  | inl inside ↦ elim (Bool-cases (all_fit new d.variants)) [
                    | inl fits ↦ inr (free, rw found (rw key (rw free (rw inside (rw fits refl)))))
                    | inr unfit ↦ inl (rw found (rw key (rw free (rw inside (rw unfit refl)))))
                  ]
                ]
          ]
]

pub delete_variant-cases :
    (t now p k : ℕ) (d : Database)
    → ((delete_variant p k (opened t now d)).1.committed ≡ d)
      ⊎ ((v : ProductVariant) × (variant_is_unreferenced v.id d ≡ true)
          × ((delete_variant p k (opened t now d)).1.committed
              ≡ record d { variants = delete_by_id v.id d.variants }))
unfolding delete_variant get_variant
delete_variant-cases t now p k d = elim (Option-cases (select_variant p k (some t) d.variants)) [
  | inl absent ↦ inl (rw absent refl)
  | inr (v, found) ↦ elim (Bool-cases (variant_is_unreferenced v.id d)) [
    | inl free ↦ inr (v, free, rw found (rw free refl))
    | inr used ↦ inl (rw found (rw used refl))
  ]
]

pub delete_product-cases :
    (t now k : ℕ) (d : Database)
    → ((delete_product k (opened t now d)).1.committed ≡ d)
      ⊎ ((p : Product) × (find_by_id (some t) k d.products ≡ some p)
          × (is_unreferenced k d ≡ true)
          × ((delete_product k (opened t now d)).1.committed ≡ remove_product k d))
unfolding delete_product get_product
delete_product-cases t now k d = elim (Option-cases (find_by_id (some t) k d.products)) [
  | inl absent ↦ inl (rw absent refl)
  | inr (p, found) ↦
      let key = (find_by_id_sound (some t) k d.products p found).0 in
      elim (Bool-cases (is_unreferenced k d)) [
        | inl free ↦ inr (p, found, free, rw found (rw key (rw free refl)))
        | inr used ↦ inl (rw found (rw key (rw used refl)))
      ]
]

-- The variant that is found is the one asked for.
pub select_variant_sound :
    (t p k : ℕ) (variants : List ProductVariant) (v : ProductVariant)
    → select_variant p k (some t) variants ≡ some v
    → (v.id ≡ k) × (v.product_id ≡ p) × (v.tenant_id ≡ t)
select_variant_sound t p k [] v h = cc
select_variant_sound t p k (x ∷ variants) v h =
    ground (arith, select_variant_sound t p k variants v)

-- The new attributes, if any are sent, are no other variant's of the product.
abbrev pub Unclashing :
    ℕ → ℕ → ℕ → List ProductVariant → Option (Option (List (String × String))) → Type 0
Unclashing t p k variants none = Unit
Unclashing t p k variants (some none) = ⊥
Unclashing t p k variants (some (some attributes)) =
    is_taken (attributes_key attributes) (
      map combo_of
        (filter (λ (v : ProductVariant). not (v.id == k)) (variants_of p (some t) variants)))
    ≡ false

check_new_attributes-cases :
    (t now p k : ℕ) (attributes : Option (Option (List (String × String)))) (d : Database)
    → ((check_new_attributes p k attributes (opened t now d) ≡ (ok tt, opened t now d))
        × Unclashing t p k d.variants attributes)
      ⊎ ((e : Error) × (check_new_attributes p k attributes (opened t now d)
            ≡ (err e, opened t now d)))
unfolding check_new_attributes get_product
check_new_attributes-cases t now p k none d = inl (refl, tt)
check_new_attributes-cases t now p k (some none) d =
    elim (Option-cases (find_by_id (some t) p d.products)) [
      | inl absent ↦ inr (Error.product_not_found, rw absent refl)
      | inr (product, found) ↦ inr (Error.attribute_error, rw found refl)
    ]
check_new_attributes-cases t now p k (some (some attributes)) d =
    elim (Option-cases (find_by_id (some t) p d.products)) [
      | inl absent ↦ inr (Error.product_not_found, rw absent refl)
      | inr (product, found) ↦
          let key = (find_by_id_sound (some t) p d.products product found).0 in
          elim (Bool-cases (
            is_taken (attributes_key attributes) (
              map combo_of (
                filter (λ (v : ProductVariant). not (v.id == k))
                  (variants_of p (some t) d.variants))))) [
                    | inl taken ↦ inr (
                      Error.product_variant_attributes_conflict,
                      rw found (rw key (rw taken refl)),
                    )
                    | inr free ↦ inl (rw found (rw key (rw free refl)), free)
                  ]
    ]

write_variant-cases :
    (t now k : ℕ) (payload : ProductVariantUpdate) (v : ProductVariant) (d : Database)
    → v.id ≡ k
    → ((write_variant payload v (opened t now d)).1.committed ≡ d)
      ⊎ ((write_variant payload v (opened t now d)).1.committed
          ≡ record d { variants = update_by_id k (update_of payload) d.variants })
unfolding write_variant
write_variant-cases t now k payload v d key =
    let updated = update_of payload v in
    elim (Bool-cases (variant_in_range updated)) [
      | inr outside ↦ inl (rw outside refl)
      | inl inside ↦
          elim (Bool-cases (not (null_column payload) && variant_fits updated d.variants)) [
            | inl fits ↦ inr (
                rw inside (
                  rw fits (
                    ap (λ i. record d { variants = update_by_id i (update_of payload) d.variants })
                      key)))
            | inr unfit ↦ inl (rw inside (rw unfit refl))
          ]
    ]

pub update_variant-cases :
    (t now p k : ℕ) (payload : ProductVariantUpdate) (d : Database)
    → ((update_variant p k payload (opened t now d)).1.committed ≡ d)
      ⊎ ((v : ProductVariant) × (select_variant p k (some t) d.variants ≡ some v)
          × Unclashing t p k d.variants payload.attributes
          × ((update_variant p k payload (opened t now d)).1.committed
              ≡ record d { variants = update_by_id k (update_of payload) d.variants }))
unfolding update_variant get_variant
update_variant-cases t now p k payload d =
    elim (Option-cases (select_variant p k (some t) d.variants)) [
      | inl absent ↦ inl (rw absent refl)
      | inr (v, found) ↦
          let (key, _, _) = select_variant_sound t p k d.variants v found in
          elim (check_new_attributes-cases t now p k payload.attributes d) [
            | inr (e, refused) ↦ inl (rw found (rw refused refl))
            | inl (passed, unclashing) ↦ elim (write_variant-cases t now k payload v d key) [
              | inl same ↦ inl (rw found (rw passed same))
              | inr written ↦ inr (v, found, unclashing, rw found (rw passed written))
            ]
          ]
    ]
