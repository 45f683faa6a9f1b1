-- ===== src/Products/Ownership.antt =====
-- The categories of a tenant's products over any sequence of requests on the catalogue.
use aurapro.Prelude.{
  ℕ, ◌+◌, ◌≡◌, refl, sym, subst, String, Bool, true, Option, none, some, List, [], ◌∷◌, ◌++◌, arith,
  ◌==◌, inl, inr, ◌⊎◌, Option-cases, Bool-cases, if◌then◌else◌, map, all, all-append,
}
use aurapro.Models.{Database}
use aurapro.Models.Products.{Product, ProductCategory, product_row, category_row}
use aurapro.Patch.{set_field}
use aurapro.Session.{Session, Result, ok, err, opened}
use aurapro.Query.{find_by_id, update_by_id, delete_by_id}
use aurapro.Query.Laws.{found_append, found_delete}
use aurapro.Products.Attributes.{category_fits, create_category}
use aurapro.Products.Catalogue.{
  ProductCreate, ProductUpdate, product_in_range, product_fits, new_product, insert_product,
  create_product, update_of, update_product,
}
use aurapro.Products.Categories.{
  is_own_category, validate_category-cases, IsWritten, update_product-IsWritten,
}
use aurapro.Products.Removal.{clear_category, delete_category}

-- A product of tenant `t` has no category, or one that the tenant sees.
abbrev pub has_own : ℕ → List ProductCategory → Product → Bool
has_own t categories p =
    if p.tenant_id == t then is_own_category t categories p.category_id else true

abbrev pub HasOwnCategories : ℕ → Database → Type 0
HasOwnCategories t d = all (has_own t d.categories) d.products ≡ true

-- The requests of tenant `t` on products and categories, with what each leaves committed, whether it
-- returned or raised.
pub data Step (t : ℕ) : Database → Database → Type 0 where
  creation :
      (now : ℕ) (payload : ProductCreate) {d : Database}
      → Step t d (create_product t payload (opened t now d)).1.committed
  change :
      (now k : ℕ) (payload : ProductUpdate) {d : Database}
      → Step t d (update_product k payload (opened t now d)).1.committed
  category_creation :
      (now : ℕ) (name : String) {d : Database}
      → Step t d (create_category t name (opened t now d)).1.committed
  category_removal :
      (now k : ℕ) {d : Database} → Step t d (delete_category k (opened t now d)).1.committed

-- Any number of them.
pub data Steps (t : ℕ) : Database → Database → Type 0 where
  done : {d : Database} → Steps t d d
  step : {d d' d'' : Database} → Step t d d' → Steps t d' d'' → Steps t d d''

has_own-update_of :
    (t : ℕ) (payload : ProductUpdate) (categories : List ProductCategory) (p : Product)
    → is_own_category t categories (set_field payload.category_id none) ≡ true
    → has_own t categories p ≡ true
    → has_own t categories (update_of payload p) ≡ true
has_own-update_of t payload categories p own h = ground arith

has_own-update :
    (t k : ℕ) (payload : ProductUpdate) (categories : List ProductCategory)
    (products : List Product)
    → is_own_category t categories (set_field payload.category_id none) ≡ true
    → all (has_own t categories) products ≡ true
    → all (has_own t categories) (update_by_id k (update_of payload) products) ≡ true
has_own-update t k payload categories [] own h = refl
has_own-update t k payload categories (p ∷ products) own h =
    let ih = has_own-update t k payload categories products own in
    let one = has_own-update_of t payload categories p own in
    elim (Bool-cases (p.id == k)) [
      | inl here ↦ rw here (ground (arith, ih, one))
      | inr away ↦ rw away (ground (arith, ih))
    ]

is_own_category-append :
    (t : ℕ) (categories : List ProductCategory) (c : ProductCategory) (category_id : Option ℕ)
    → is_own_category t categories category_id ≡ true
    → is_own_category t (categories ++ c ∷ []) category_id ≡ true
is_own_category-append t categories c none h = refl
is_own_category-append t categories c (some k) h = found_append (some t) k categories c h

has_own-append :
    (t : ℕ) (categories : List ProductCategory) (c : ProductCategory) (products : List Product)
    → all (has_own t categories) products ≡ true
    → all (has_own t (categories ++ c ∷ [])) products ≡ true
has_own-append t categories c [] h = refl
has_own-append t categories c (p ∷ products) h = ground (
  arith,
  is_own_category-append t categories c p.category_id,
  has_own-append t categories c products,
)

clear_category-own :
    (t k : ℕ) (categories : List ProductCategory) (p : Product)
    → has_own t categories p ≡ true
    → has_own t (delete_by_id k categories) (clear_category k p) ≡ true
clear_category-own t k categories p h = elim (Option-cases p.category_id) [
  | inl uncategorised ↦ ground (arith, uncategorised)
  | inr (j, e) ↦ elim (Bool-cases (j == k)) [
    | inl gone ↦ ground (arith, e, gone)
    | inr other ↦ ground (arith, e, other, found_delete (some t) j k categories)
  ]
]

has_own-delete :
    (t k : ℕ) (categories : List ProductCategory) (products : List Product)
    → all (has_own t categories) products ≡ true
    → all (has_own t (delete_by_id k categories)) (map (clear_category k) products) ≡ true
has_own-delete t k categories [] h = refl
has_own-delete t k categories (p ∷ products) h =
    ground (arith, clear_category-own t k categories p, has_own-delete t k categories products)

create_product-cases :
    (t now : ℕ) (payload : ProductCreate) (d : Database)
    → ((create_product t payload (opened t now d)).1.committed ≡ d)
      ⊎ ((is_own_category t d.categories payload.category_id ≡ true)
          × ((create_product t payload (opened t now d)).1.committed ≡ record d {
            next_id = d.next_id + 1;
            products = d.products ++ new_product d.next_id now t payload ∷ [];
          }))
unfolding create_product insert_product
create_product-cases t now payload d = elim (validate_category-cases t now payload.category_id d) [
  | inr refused ↦ inl (rw refused refl)
  | inl (passed, own) ↦
      let p = new_product d.next_id now t payload in
      elim (Bool-cases (product_in_range p)) [
        | inr outside ↦ inl (rw passed (rw outside refl))
        | inl inside ↦ elim (Bool-cases (product_fits p d.products)) [
          | inl fits ↦ inr (own, rw passed (rw inside (rw fits refl)))
          | inr unfit ↦ inl (rw passed (rw inside (rw unfit refl)))
        ]
      ]
]

patch_keeps :
    (t k : ℕ) (payload : ProductUpdate) (d : Database) (r : Result Product × Session)
    → IsWritten t k payload d r
    → HasOwnCategories t d
    → HasOwnCategories t r.1.committed
patch_keeps t k payload d (err e, s') same h = subst (HasOwnCategories t) (sym same) h
patch_keeps t k payload d (ok p, s') patched h =
    subst (HasOwnCategories t) (sym patched.7)
      (has_own-update t k payload d.categories d.products patched.4 h)

Step-HasOwnCategories :
    (t : ℕ) {d d' : Database} → Step t d d' → HasOwnCategories t d → HasOwnCategories t d'
unfolding create_category delete_category
Step-HasOwnCategories t (creation now payload {d}) h = elim (create_product-cases t now payload d) [
  | inl same ↦ subst (HasOwnCategories t) (sym same) h
  | inr (own, after) ↦
      let p = new_product d.next_id now t payload in
      subst (HasOwnCategories t) (sym after)
        (all-append (has_own t d.categories) d.products p h (ground (arith, own)))
]
Step-HasOwnCategories t (change now k payload {d}) h =
    patch_keeps t k payload d (update_product k payload (opened t now d))
      (update_product-IsWritten t now k payload d) h
Step-HasOwnCategories t (category_creation now name {d}) h =
    let c : ProductCategory = record {
      id = d.next_id;
      created_at = now;
      tenant_id = t;
      name = name;
    } in
    elim (Bool-cases (category_fits c d.categories)) [
      | inl fits ↦ rw fits (has_own-append t d.categories c d.products h)
      | inr unfit ↦ rw unfit h
    ]
Step-HasOwnCategories t (category_removal now k {d}) h =
    elim (Option-cases (find_by_id (some t) k d.categories)) [
      | inl absent ↦ rw absent h
      | inr (c, found) ↦ rw found (has_own-delete t c.id d.categories d.products h)
    ]

-- A tenant's products never have another tenant's category, nor one that is gone: if every product
-- of tenant `t` has no category or one that the tenant sees, then this still holds after any number
-- of its requests to create and change products and to create and delete categories, whether they
-- succeed or not.
pub own_categories_stay :
    (t : ℕ) {d d' : Database} → HasOwnCategories t d → Steps t d d' → HasOwnCategories t d'
own_categories_stay t h done = h
own_categories_stay t h (step first rest) =
    own_categories_stay t (Step-HasOwnCategories t first h) rest
