-- ===== src/Products/Keys.antt =====
-- `_attributes_key` of backend/app/modules/products/services.py: the items of a variant's
-- attributes in the order of their keys.
pub mod Sorted
pub mod Canonical
use Prim.Native.Nat.{Ordering}
use aurapro.Prelude.{String, Bool, true, false, ◌&&◌, List, [], ◌∷◌, str_eq}
use aurapro.Prelude.Text.{text_order}

-- Python's order of pairs.
unfoldable pub item_order : String × String → String × String → Ordering
item_order (k, v) (j, w) = elim (text_order k j) [
  | Ordering.lt ↦ Ordering.lt
  | Ordering.gt ↦ Ordering.gt
  | Ordering.eq ↦ text_order v w
]

unfoldable pub insert_item : String × String → List (String × String) → List (String × String)
insert_item x [] = x ∷ []
insert_item x (y ∷ rest) =
    let later = y ∷ insert_item x rest in
    elim (item_order x y) [
      | Ordering.gt ↦ later
      | Ordering.lt ↦ x ∷ y ∷ rest
      | Ordering.eq ↦ x ∷ y ∷ rest
    ]

-- `tuple(sorted(attributes.items()))`
unfoldable pub attributes_key : List (String × String) → List (String × String)
attributes_key [] = []
attributes_key (x ∷ rest) = insert_item x (attributes_key rest)

-- The test of two such keys for equality.
unfoldable pub keys_equal : List (String × String) → List (String × String) → Bool
keys_equal [] [] = true
keys_equal [] (y ∷ ys) = false
keys_equal (x ∷ xs) [] = false
keys_equal ((k, v) ∷ xs) ((j, w) ∷ ys) = str_eq k j && str_eq v w && keys_equal xs ys
