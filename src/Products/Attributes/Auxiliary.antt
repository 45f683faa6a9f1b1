-- ===== src/Products/Attributes/Auxiliary.antt =====
-- The catalogue of attributes is auxiliary: `create_attribute` and its companions.
use aurapro.Prelude.{
  ℕ, ◌≡◌, refl, ◌∙◌, ap, sym, subst, String, Bool, true, not, none, some, List, [], ◌∷◌, ◌++◌,
  arith, ◌==◌, inl, inr, Option-cases, Bool-cases, filter, all, is_some, all-append, all-filter,
}
use aurapro.Models.{Database}
use aurapro.Models.Products.{
  ProductAttribute, ProductAttributeValue, attribute_row, attribute_value_row,
}
use aurapro.Session.{opened}
use aurapro.Query.{find_by_id, delete_by_id}
use aurapro.Query.Laws.{found_append, found_delete}
use aurapro.Products.Attributes.{
  attribute_fits, attribute_value_fits, create_attribute, get_attribute, delete_attribute,
  create_attribute_value, select_attribute_value, delete_attribute_value,
}

-- Every value belongs to an attribute that is there.
abbrev pub value_is_owned : List ProductAttribute → ProductAttributeValue → Bool
value_is_owned attributes v = is_some (find_by_id none v.attribute_id attributes)

abbrev pub HasOwners : Database → Type 0
HasOwners d = all (value_is_owned d.attributes) d.attribute_values ≡ true

-- The data but for the catalogue of attributes and the supply of identifiers.
abbrev pub without_attributes : Database → Database
without_attributes d = record d { next_id = 0; attributes = []; attribute_values = [] }

-- What a request may do: it leaves everything else as it is, and the values owned.
abbrev pub IsAuxiliary : Database → Database → Type 0
IsAuxiliary d d' = (without_attributes d' ≡ without_attributes d) × (HasOwners d → HasOwners d')

owned_append :
    (attributes : List ProductAttribute) (a : ProductAttribute)
    (values : List ProductAttributeValue)
    → all (value_is_owned attributes) values ≡ true
    → all (value_is_owned (attributes ++ a ∷ [])) values ≡ true
owned_append attributes a [] h = refl
owned_append attributes a (v ∷ values) h =
    ground (arith, found_append none v.attribute_id attributes a, owned_append attributes a values)

found_visible :
    (t k : ℕ) (attributes : List ProductAttribute) (a : ProductAttribute)
    → find_by_id (some t) k attributes ≡ some a
    → is_some (find_by_id none k attributes) ≡ true
found_visible t k [] a h = cc
found_visible t k (x ∷ attributes) a h = ground (arith, found_visible t k attributes a)

owned_after_delete :
    (k : ℕ) (attributes : List ProductAttribute) (values : List ProductAttributeValue)
    → all (value_is_owned attributes) values ≡ true
    → all
        (value_is_owned (delete_by_id k attributes))
        (filter (λ (v : ProductAttributeValue). not (v.attribute_id == k)) values)
      ≡ true
owned_after_delete k attributes [] h = refl
owned_after_delete k attributes (v ∷ values) h =
    ground
      (arith, found_delete none v.attribute_id k attributes, owned_after_delete k attributes values)

-- The requests of tenant `t` on the catalogue of attributes, with what each leaves committed, whether
-- it returned or raised.
pub data Step (t : ℕ) : Database → Database → Type 0 where
  attribute_creation :
      (now : ℕ) (name : String) {d : Database}
      → Step t d (create_attribute t name (opened t now d)).1.committed
  attribute_removal :
      (now k : ℕ) {d : Database} → Step t d (delete_attribute k (opened t now d)).1.committed
  value_creation :
      (now k : ℕ) (text : String) {d : Database}
      → Step t d (create_attribute_value t k text (opened t now d)).1.committed
  value_removal :
      (now k j : ℕ) {d : Database}
      → Step t d (delete_attribute_value k j (opened t now d)).1.committed

-- Any number of them.
pub data Steps (t : ℕ) : Database → Database → Type 0 where
  done : {d : Database} → Steps t d d
  step : {d d' d'' : Database} → Step t d d' → Steps t d' d'' → Steps t d d''

unchanged : (d d' : Database) → d' ≡ d → IsAuxiliary d d'
unchanged d d' same = (ap without_attributes same, λ h. subst HasOwners (sym same) h)

Step-IsAuxiliary : (t : ℕ) {d d' : Database} → Step t d d' → IsAuxiliary d d'
unfolding create_attribute get_attribute delete_attribute create_attribute_value
    delete_attribute_value
Step-IsAuxiliary t (attribute_creation now name {d}) =
    let a : ProductAttribute = record {
      id = d.next_id;
      created_at = now;
      tenant_id = t;
      name = name;
    } in
    elim (Bool-cases (attribute_fits a d.attributes)) [
      | inl fits ↦ rw fits (refl, owned_append d.attributes a d.attribute_values)
      | inr unfit ↦ rw unfit (refl, λ h. h)
    ]
Step-IsAuxiliary t (attribute_removal now k {d}) =
    elim (Option-cases (find_by_id (some t) k d.attributes)) [
      | inl absent ↦ rw absent (refl, λ h. h)
      | inr (a, found) ↦ rw found (refl, owned_after_delete a.id d.attributes d.attribute_values)
    ]
Step-IsAuxiliary t (value_creation now k text {d}) =
    elim (Option-cases (find_by_id (some t) k d.attributes)) [
      | inl absent ↦ rw absent (refl, λ h. h)
      | inr (a, found) ↦
          let v : ProductAttributeValue = record {
            id = d.next_id;
            created_at = now;
            tenant_id = t;
            attribute_id = k;
            value = text;
          } in
          elim (Bool-cases (attribute_value_fits v d.attribute_values)) [
            | inl fits ↦ rw found (
                rw fits (
                  refl,
                  λ h.
                      all-append (value_is_owned d.attributes) d.attribute_values v h
                        (found_visible t k d.attributes a found),
                ))
            | inr unfit ↦ rw found (rw unfit (refl, λ h. h))
          ]
    ]
Step-IsAuxiliary t (value_removal now k j {d}) =
    elim (Option-cases (select_attribute_value k j (some t) d.attribute_values)) [
      | inl absent ↦ rw absent (refl, λ h. h)
      | inr (v, found) ↦ rw found (
        refl,
        all-filter (value_is_owned d.attributes) (λ (w : ProductAttributeValue). not (w.id == v.id))
            d.attribute_values,
      )
    ]

-- The catalogue of attributes is auxiliary: after any number of a tenant's requests to create and
-- delete attributes and their values, whether they succeed or not, every other table is as it was,
-- the variants among them; and if every value belonged to an attribute that is there, it still does.
pub attributes_stay_apart : (t : ℕ) {d d' : Database} → Steps t d d' → IsAuxiliary d d'
attributes_stay_apart t {d = d} done = (refl, λ h. h)
attributes_stay_apart t (step first rest) =
    let here = Step-IsAuxiliary t first in
    let there = attributes_stay_apart t rest in (there.0 ∙ here.0, λ h. there.1 (here.1 h))
