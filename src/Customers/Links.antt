-- ===== src/Customers/Links.antt =====
-- The salesperson and the type of a tenant's customers.
use aurapro.Prelude.{
  ℕ, ◌≡◌, refl, Bool, true, ◌&&◌, Option, none, some, List, [], ◌∷◌, ◌++◌, arith, ◌==◌, inl, inr,
  Bool-cases, if◌then◌else◌, all, is_some,
}
use aurapro.Models.{Database}
use aurapro.Models.Row.{Row}
use aurapro.Models.Identity.{User, user_row}
use aurapro.Models.Customers.{Customer, CustomerType, customer_row, customer_type_row}
use aurapro.Patch.{set_field}
use aurapro.Query.{find_by_id, delete_by_id}
use aurapro.Query.Laws.{found_append, found_delete}
use aurapro.Users.{clear_reference}
use aurapro.Customers.{CustomerUpdate, update_of, clear_type}

module _ {A : Type 0} ⦃row : Row A⦄ where
  -- No reference, or one to a row that the tenant sees.
  abbrev pub is_linked : ℕ → List A → Option ℕ → Bool
  is_linked t xs none = true
  is_linked t xs (some k) = is_some (find_by_id (some t) k xs)

  is_linked-append :
      (t : ℕ) (xs : List A) (r : A) (o : Option ℕ)
      → is_linked t xs o ≡ true
      → is_linked t (xs ++ r ∷ []) o ≡ true
  is_linked-append t xs r none h = refl
  is_linked-append t xs r (some k) h = found_append (some t) k xs r h

  is_linked-delete :
      (t k : ℕ) (xs : List A) (o : Option ℕ)
      → is_linked t xs o ≡ true
      → is_linked t (delete_by_id k xs) (clear_reference k o) ≡ true
  is_linked-delete t k xs none h = refl
  is_linked-delete t k xs (some j) h = elim (Bool-cases (j == k)) [
    | inl gone ↦ rw gone refl
    | inr other ↦ rw other (found_delete (some t) j k xs h other)
  ]

-- A customer of tenant `t` has no salesperson or one of the tenant's users, and no type or one of the
-- tenant's.
abbrev pub is_own : ℕ → List User → List CustomerType → Customer → Bool
is_own t users types c =
    if c.tenant_id == t
    then is_linked t users c.default_salesperson_id && is_linked t types c.customer_type_id
    else true

abbrev pub HasOwnLinks : ℕ → Database → Type 0
HasOwnLinks t d = all (is_own t d.users d.customer_types) d.customers ≡ true

pub update_of-own :
    (t : ℕ) (payload : CustomerUpdate) (users : List User) (types : List CustomerType)
    → is_linked t users (set_field payload.default_salesperson_id none) ≡ true
    → is_linked t types (set_field payload.customer_type_id none) ≡ true
    → (k : ℕ) (c : Customer) → is_own t users types c ≡ true
    → is_own t users types (if c.id == k then update_of payload c else c) ≡ true
update_of-own t payload users types seller kind k c own = ground (arith, seller, kind, own)

pub is_own-append :
    (t : ℕ) (users : List User) (types : List CustomerType) (new : CustomerType) (c : Customer)
    → is_own t users types c ≡ true
    → is_own t users (types ++ new ∷ []) c ≡ true
is_own-append t users types new c own =
    ground (arith, own, is_linked-append t types new c.customer_type_id)

pub clear_type-own :
    (t k : ℕ) (users : List User) (types : List CustomerType) (c : Customer)
    → is_own t users types c ≡ true
    → is_own t users (delete_by_id k types) (clear_type k c) ≡ true
clear_type-own t k users types c own =
    ground (arith, own, is_linked-delete t k types c.customer_type_id)

abbrev pub clear_salesperson : ℕ → Customer → Customer
clear_salesperson k c = record c {
  default_salesperson_id = clear_reference k c.default_salesperson_id;
}

pub clear_salesperson-own :
    (t k : ℕ) (users : List User) (types : List CustomerType) (c : Customer)
    → is_own t users types c ≡ true
    → is_own t (delete_by_id k users) types (clear_salesperson k c) ≡ true
clear_salesperson-own t k users types c own =
    ground (arith, own, is_linked-delete t k users c.default_salesperson_id)
