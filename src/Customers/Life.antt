-- ===== src/Customers/Life.antt =====
-- The links of a tenant's customers over any sequence of requests.
use aurapro.Prelude.{
  not, ◌∷◌, [], ◌++◌, ◌==◌, arith, all-append, all-map, all-filter, all-imp, if◌then◌else◌, ℕ,
}
use aurapro.Models.{Database}
use aurapro.Models.Identity.{user_row}
use aurapro.Models.Customers.{Customer, customer_row, customer_type_row}
use aurapro.Session.{opened}
use aurapro.Users.{delete_user}
use aurapro.Customers.{
  update_of, clear_type, CustomerCreate, CustomerUpdate, CustomerTypeCreate, create_customer,
  update_customer, delete_customer, create_customer_type, delete_customer_type,
}
use aurapro.Query.{delete_by_id}
use aurapro.Customers.Links.{
  is_own, update_of-own, is_own-append, clear_type-own, clear_salesperson, clear_salesperson-own,
  HasOwnLinks,
}
use aurapro.Customers.Changes.{
  Change, create_customer-Change, update_customer-Change, delete_customer-Change,
  create_customer_type-Change, delete_customer_type-Change, delete_user-Change,
}

-- The requests of tenant `t` that write customers, their types or remove users, with what each leaves
-- committed, whether it returned or raised.
pub data Step (t : ℕ) : Database → Database → Type 0 where
  creation :
      (now : ℕ) (payload : CustomerCreate) {d : Database}
      → Step t d (create_customer t payload (opened t now d)).1.committed
  change :
      (now k : ℕ) (payload : CustomerUpdate) {d : Database}
      → Step t d (update_customer k payload (opened t now d)).1.committed
  removal : (now k : ℕ) {d : Database} → Step t d (delete_customer k (opened t now d)).1.committed
  type_creation :
      (now : ℕ) (payload : CustomerTypeCreate) {d : Database}
      → Step t d (create_customer_type t payload (opened t now d)).1.committed
  type_removal :
      (now k : ℕ) {d : Database} → Step t d (delete_customer_type k (opened t now d)).1.committed
  user_removal :
      (now k current : ℕ) {d : Database}
      → Step t d (delete_user k current (opened t now d)).1.committed

-- Any number of them.
pub data Steps (t : ℕ) : Database → Database → Type 0 where
  done : {d : Database} → Steps t d d
  step : {d d' d'' : Database} → Step t d d' → Steps t d' d'' → Steps t d d''

pub Step-Change : (t : ℕ) {d d' : Database} → Step t d d' → Change t d d'
Step-Change t (creation now payload {d}) = create_customer-Change t now payload d
Step-Change t (change now k payload {d}) = update_customer-Change t now k payload d
Step-Change t (removal now k {d}) = delete_customer-Change t now k d
Step-Change t (type_creation now payload {d}) = create_customer_type-Change t now payload d
Step-Change t (type_removal now k {d}) = delete_customer_type-Change t now k d
Step-Change t (user_removal now k current {d}) = delete_user-Change t now k current d

Change-HasOwnLinks :
    (t : ℕ) (d : Database) {d' : Database} → Change t d d' → HasOwnLinks t d → HasOwnLinks t d'
Change-HasOwnLinks t d Change.same own = own
Change-HasOwnLinks t d (Change.created n c seller kind) own =
    all-append (is_own t d.users d.customer_types) d.customers c own (ground (arith, seller, kind))
Change-HasOwnLinks t d (Change.changed k payload seller kind) own =
    all-map (is_own t d.users d.customer_types) (is_own t d.users d.customer_types)
      (λ (x : Customer). if x.id == k then update_of payload x else x) d.customers
      (update_of-own t payload d.users d.customer_types seller kind k) own
Change-HasOwnLinks t d (Change.removed k free) own =
    all-filter (is_own t d.users d.customer_types) (λ (x : Customer). not (x.id == k)) d.customers
      own
Change-HasOwnLinks t d (Change.type_created n new) own =
    all-imp (is_own t d.users d.customer_types) (is_own t d.users (d.customer_types ++ new ∷ []))
      d.customers (is_own-append t d.users d.customer_types new) own
Change-HasOwnLinks t d (Change.type_removed k) own =
    all-map (is_own t d.users d.customer_types) (is_own t d.users (delete_by_id k d.customer_types))
      (clear_type k) d.customers (clear_type-own t k d.users d.customer_types) own
Change-HasOwnLinks t d (Change.user_removed k) own =
    all-map (is_own t d.users d.customer_types) (is_own t (delete_by_id k d.users) d.customer_types)
      (clear_salesperson k) d.customers (clear_salesperson-own t k d.users d.customer_types) own

-- A tenant's customers refer to its own rows: if each of them has no salesperson or a user that the
-- tenant sees, and no type or one that the tenant sees, then this still holds after any number of
-- the tenant's requests to create, change and delete customers, to create and delete their types and
-- to remove users, in any order and whether they succeed or not.
pub own_links_stay : (t : ℕ) {d d' : Database} → HasOwnLinks t d → Steps t d d' → HasOwnLinks t d'
own_links_stay t {d} own done = own
own_links_stay t {d} own (step first rest) =
    own_links_stay t (Change-HasOwnLinks t d (Step-Change t first) own) rest
