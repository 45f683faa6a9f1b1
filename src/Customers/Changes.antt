-- ===== src/Customers/Changes.antt =====
-- What each request on customers writes.
use aurapro.Prelude.{
  ◌+◌, map, ℕ, ◌≡◌, refl, true, Option, none, some, [], ◌∷◌, ◌++◌, ◌==◌, inl, inr, ◌⊎◌,
  Option-cases, Bool-cases, is_some,
}
use aurapro.Models.{Database}
use aurapro.Models.Identity.{user_row}
use aurapro.Models.Customers.{Customer, CustomerType, customer_row, customer_type_row}
use aurapro.Patch.{set_field, sets_null}
use aurapro.Session.{ok, err, opened}
use aurapro.Session.Errors.{Error}
use aurapro.Query.{update_by_id, delete_by_id, find_by_id, delete_by_id}
use aurapro.Users.{remove_user, is_admin, get_user, delete_user}
use aurapro.Users.Admins.{spared}
use aurapro.Customers.{
  clear_type, CustomerCreate, CustomerUpdate, CustomerTypeCreate, validate_salesperson,
  validate_customer_type, limit_fits, new_customer, insert_customer, create_customer, get_customer,
  update_of, validate_links, write_customer, update_customer, is_unused, delete_customer, type_fits,
  new_customer_type, create_customer_type, clear_type, delete_customer_type,
}
use aurapro.Customers.Links.{is_linked}

-- What a request of tenant `t` on data `d` leaves committed: the data as it was, or one change.
pub data Change (t : ℕ) (d : Database) : Database → Type 0 where
  same : Change t d d
  created :
      (n : ℕ) (c : Customer)
      → is_linked t d.users c.default_salesperson_id ≡ true
      → is_linked t d.customer_types c.customer_type_id ≡ true
      → Change t d (record d { next_id = n; customers = d.customers ++ c ∷ [] })
  changed :
      (k : ℕ) (payload : CustomerUpdate)
      → is_linked t d.users (set_field payload.default_salesperson_id none) ≡ true
      → is_linked t d.customer_types (set_field payload.customer_type_id none) ≡ true
      → Change t d (record d { customers = update_by_id k (update_of payload) d.customers })
  removed :
      (k : ℕ)
      → is_unused k d ≡ true
      → Change t d (record d { customers = delete_by_id k d.customers })
  type_created :
      (n : ℕ) (new : CustomerType)
      → Change t d (record d { next_id = n; customer_types = d.customer_types ++ new ∷ [] })
  type_removed :
      (k : ℕ)
      → Change t d (record d {
        customer_types = delete_by_id k d.customer_types;
        customers = map (clear_type k) d.customers;
      })
  user_removed : (k : ℕ) → Change t d (remove_user k d)

validate_salesperson-cases :
    (t now : ℕ) (d : Database) (o : Option ℕ)
    → ((is_linked t d.users o ≡ true)
        × (validate_salesperson o (opened t now d) ≡ (ok tt, opened t now d)))
      ⊎ (validate_salesperson o (opened t now d) ≡ (err Error.invalid_salesperson, opened t now d))
unfolding validate_salesperson
validate_salesperson-cases t now d none = inl (refl, refl)
validate_salesperson-cases t now d (some k) =
    elim (Bool-cases (is_some (find_by_id (some t) k d.users))) [
      | inl there ↦ inl (there, rw there refl)
      | inr absent ↦ inr (rw absent refl)
    ]

validate_customer_type-cases :
    (t now : ℕ) (d : Database) (o : Option ℕ)
    → ((is_linked t d.customer_types o ≡ true)
        × (validate_customer_type o (opened t now d) ≡ (ok tt, opened t now d)))
      ⊎ (validate_customer_type o (opened t now d)
          ≡ (err Error.invalid_customer_type, opened t now d))
unfolding validate_customer_type
validate_customer_type-cases t now d none = inl (refl, refl)
validate_customer_type-cases t now d (some k) =
    elim (Bool-cases (is_some (find_by_id (some t) k d.customer_types))) [
      | inl there ↦ inl (there, rw there refl)
      | inr absent ↦ inr (rw absent refl)
    ]

pub create_customer-Change :
    (t now : ℕ) (payload : CustomerCreate) (d : Database)
    → Change t d (create_customer t payload (opened t now d)).1.committed
unfolding create_customer insert_customer
create_customer-Change t now payload d =
    elim (validate_salesperson-cases t now d payload.default_salesperson_id) [
      | inr refused ↦ rw refused Change.same
      | inl (seller, passed) ↦
          elim (validate_customer_type-cases t now d payload.customer_type_id) [
            | inr refused ↦ rw passed (rw refused Change.same)
            | inl (kind, passed') ↦ elim (Bool-cases (limit_fits payload.credit_limit)) [
              | inr too_high ↦ rw passed (rw passed' (rw too_high Change.same))
              | inl fits ↦ rw passed (
                  rw passed' (
                    rw fits (
                      Change.created (d.next_id + 1) (new_customer d.next_id now t payload) seller
                        kind)))
            ]
          ]
    ]

validate_links-cases :
    (t now : ℕ) (d : Database) (payload : CustomerUpdate)
    → ((is_linked t d.users (set_field payload.default_salesperson_id none) ≡ true)
        × (is_linked t d.customer_types (set_field payload.customer_type_id none) ≡ true)
        × (validate_links payload (opened t now d) ≡ (ok tt, opened t now d)))
      ⊎ ((e : Error) × (validate_links payload (opened t now d) ≡ (err e, opened t now d)))
unfolding validate_links
validate_links-cases t now d payload =
    elim (validate_salesperson-cases t now d (set_field payload.default_salesperson_id none)) [
      | inr refused ↦ inr (Error.invalid_salesperson, rw refused refl)
      | inl (seller, passed) ↦
          elim (validate_customer_type-cases t now d (set_field payload.customer_type_id none)) [
            | inr refused ↦ inr (Error.invalid_customer_type, rw passed refused)
            | inl (kind, passed') ↦ inl (seller, kind, rw passed passed')
          ]
    ]

write_customer-Change :
    (t now : ℕ) (payload : CustomerUpdate) (d : Database) (c : Customer)
    → is_linked t d.users (set_field payload.default_salesperson_id none) ≡ true
    → is_linked t d.customer_types (set_field payload.customer_type_id none) ≡ true
    → Change t d (write_customer payload c (opened t now d)).1.committed
unfolding write_customer
write_customer-Change t now payload d c seller kind = elim (Bool-cases (sets_null payload.name)) [
  | inl null ↦ rw null Change.same
  | inr named ↦ rw named (elim (Bool-cases (limit_fits (update_of payload c).credit_limit)) [
    | inr too_high ↦ rw too_high Change.same
    | inl fits ↦ rw fits (Change.changed c.id payload seller kind)
  ])
]

pub update_customer-Change :
    (t now k : ℕ) (payload : CustomerUpdate) (d : Database)
    → Change t d (update_customer k payload (opened t now d)).1.committed
unfolding update_customer get_customer
update_customer-Change t now k payload d = elim (Option-cases (find_by_id (some t) k d.customers)) [
  | inl absent ↦ rw absent Change.same
  | inr (c, found) ↦ rw found (elim (validate_links-cases t now d payload) [
    | inr (e, refused) ↦ rw refused Change.same
    | inl (seller, kind, passed) ↦ rw passed (write_customer-Change t now payload d c seller kind)
  ])
]

pub delete_customer-Change :
    (t now k : ℕ) (d : Database) → Change t d (delete_customer k (opened t now d)).1.committed
unfolding delete_customer get_customer
delete_customer-Change t now k d = elim (Option-cases (find_by_id (some t) k d.customers)) [
  | inl absent ↦ rw absent Change.same
  | inr (c, found) ↦ rw found (elim (Bool-cases (is_unused c.id d)) [
    | inr used ↦ rw used Change.same
    | inl free ↦ rw free (Change.removed c.id free)
  ])
]

pub create_customer_type-Change :
    (t now : ℕ) (payload : CustomerTypeCreate) (d : Database)
    → Change t d (create_customer_type t payload (opened t now d)).1.committed
unfolding create_customer_type
create_customer_type-Change t now payload d =
    let new = new_customer_type d.next_id now t payload in
    elim (Bool-cases (type_fits new d.customer_types)) [
      | inr taken ↦ rw taken Change.same
      | inl fits ↦ rw fits (Change.type_created (d.next_id + 1) new)
    ]

pub delete_customer_type-Change :
    (t now k : ℕ) (d : Database) → Change t d (delete_customer_type k (opened t now d)).1.committed
unfolding delete_customer_type
delete_customer_type-Change t now k d =
    elim (Option-cases (find_by_id (some t) k d.customer_types)) [
      | inl absent ↦ rw absent Change.same
      | inr (c, found) ↦ rw found (Change.type_removed c.id)
    ]

pub delete_user-Change :
    (t now k current : ℕ) (d : Database)
    → Change t d (delete_user k current (opened t now d)).1.committed
unfolding delete_user get_user
delete_user-Change t now k current d = elim (Bool-cases (k == current)) [
  | inl self ↦ rw self Change.same
  | inr other ↦ rw other (elim (Option-cases (find_by_id (some t) k d.users)) [
    | inl absent ↦ rw absent Change.same
    | inr (u, found) ↦
        rw found (elim (spared t now d (is_admin u.role) Error.cannot_delete_last_admin) [
          | inr refused ↦ rw refused Change.same
          | inl (passed, enough) ↦ rw passed (Change.user_removed u.id)
        ])
  ])
]
