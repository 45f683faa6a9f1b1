-- ===== src/Products/Categories.antt =====
-- What `create_product` and `update_product` commit, and the categories of products.
use aurapro.Prelude.{
  ℕ, ◌≡◌, refl, ap, Bool, true, false, not, ◌&&◌, Option, none, some, List, arith, inl, inr, ◌⊎◌,
  Option-cases, Bool-cases, is_some,
}
use aurapro.Models.{Database}
use aurapro.Models.Products.{Product, ProductCategory, product_row, category_row}
use aurapro.Patch.{set_field}
use aurapro.Session.{Session, Result, ok, err, opened}
use aurapro.Session.Errors.{Error}
use aurapro.Query.{find_by_id, update_by_id}
use aurapro.Query.Laws.{find_by_id_sound}
use aurapro.Products.Catalogue.{
  ProductUpdate, product_in_range, product_fits, validate_category, get_product, update_of,
  null_column, validate_new_category, write_product, update_product,
}

-- The category, if there is one, is one that tenant `t` sees.
abbrev pub is_own_category : ℕ → List ProductCategory → Option ℕ → Bool
is_own_category t categories none = true
is_own_category t categories (some k) = is_some (find_by_id (some t) k categories)

pub validate_category-cases :
    (t now : ℕ) (category_id : Option ℕ) (d : Database)
    → ((validate_category category_id (opened t now d) ≡ (ok tt, opened t now d))
        × (is_own_category t d.categories category_id ≡ true))
      ⊎ (validate_category category_id (opened t now d)
          ≡ (err Error.invalid_category, opened t now d))
unfolding validate_category
validate_category-cases t now none d = inl (refl, refl)
validate_category-cases t now (some k) d =
    elim (Option-cases (find_by_id (some t) k d.categories)) [
      | inl absent ↦ inr (rw absent refl)
      | inr (c, found) ↦ inl (rw found refl, rw found refl)
    ]

-- What a PATCH request leaves, in the terms of the code's own functions.
abbrev pub IsWritten : ℕ → ℕ → ProductUpdate → Database → Result Product × Session → Type 0
IsWritten t k payload d (err e, s') = s'.committed ≡ d
IsWritten t k payload d (ok p, s') =
    (old : Product) × (find_by_id (some t) k d.products ≡ some old)
    × (p ≡ update_of payload old)
    × (null_column payload ≡ false)
    × (is_own_category t d.categories (set_field payload.category_id none) ≡ true)
    × (product_in_range p ≡ true)
    × (product_fits p d.products ≡ true)
    × (s'.committed ≡ record d { products = update_by_id k (update_of payload) d.products })

and_true : (a b : Bool) → (not a && b) ≡ true → (a ≡ false) × (b ≡ true)
and_true a b h = ground arith

write_product-IsWritten :
    (t now k : ℕ) (payload : ProductUpdate) (old : Product) (d : Database)
    → find_by_id (some t) k d.products ≡ some old
    → is_own_category t d.categories (set_field payload.category_id none) ≡ true
    → IsWritten t k payload d (write_product payload old (opened t now d))
unfolding write_product
write_product-IsWritten t now k payload old d found own =
    let key = (find_by_id_sound (some t) k d.products old found).0 in
    let p = update_of payload old in
    elim (Bool-cases (product_in_range p)) [
      | inr outside ↦ rw outside refl
      | inl inside ↦ elim (Bool-cases (not (null_column payload) && product_fits p d.products)) [
        | inr unfit ↦ rw inside (rw unfit refl)
        | inl fits ↦
            let (valued, fits') = and_true (null_column payload) (product_fits p d.products) fits in
            rw inside (
              rw fits (
                old,
                found,
                refl,
                valued,
                own,
                inside,
                fits',
                ap (λ i. record d { products = update_by_id i (update_of payload) d.products }) key,
              ))
      ]
    ]

update_product-from_category :
    (t now k : ℕ) (payload : ProductUpdate) (old : Product) (d : Database)
    (category_id : Option (Option ℕ))
    → find_by_id (some t) k d.products ≡ some old
    → payload.category_id ≡ category_id
    → ((validate_new_category category_id (opened t now d) ≡ (ok tt, opened t now d))
        × (is_own_category t d.categories (set_field payload.category_id none) ≡ true))
      ⊎ (validate_new_category category_id (opened t now d)
          ≡ (err Error.invalid_category, opened t now d))
unfolding validate_new_category
update_product-from_category t now k payload old d none found e = inl (refl, rw e refl)
update_product-from_category t now k payload old d (some c) found e =
    elim (validate_category-cases t now c d) [
      | inl (passed, own) ↦ inl (passed, rw e own)
      | inr refused ↦ inr refused
    ]

pub update_product-IsWritten :
    (t now k : ℕ) (payload : ProductUpdate) (d : Database)
    → IsWritten t k payload d (update_product k payload (opened t now d))
unfolding update_product get_product
update_product-IsWritten t now k payload d =
    elim (Option-cases (find_by_id (some t) k d.products)) [
      | inl absent ↦ rw absent refl
      | inr (old, found) ↦
          elim (update_product-from_category t now k payload old d payload.category_id found refl) [
            | inr refused ↦ rw found (rw refused refl)
            | inl (passed, own) ↦
                rw found (rw passed (write_product-IsWritten t now k payload old d found own))
          ]
    ]
