-- ===== src/Models.antt =====
-- The tables of the backend (the `models.py` files under backend/app), and one value with the rows
-- of all of them, in the order in which they were inserted.
pub mod Row
pub mod Identity
pub mod Customers
pub mod Products
pub mod Treasury
pub mod Documents
use aurapro.Prelude.{ℕ, List, []}
use Identity.{Tenant, User, Invitation, PasswordReset}
use Customers.{CustomerType, Customer}
use Products.{ProductCategory, Product, ProductVariant, ProductAttribute, ProductAttributeValue}
use Treasury.{AccountMovement, CashSession, CashMovement}
use Documents.{Sale, Quote, OrderNote, OutboxEvent}

-- `next_id` is the supply of identifiers, which no row has yet (`uuid4` in the source).
pub record Database : Type 0 where
  pub next_id : ℕ
  pub tenants : List Tenant
  pub users : List User
  pub invitations : List Invitation
  pub password_resets : List PasswordReset
  pub customer_types : List CustomerType
  pub customers : List Customer
  pub categories : List ProductCategory
  pub products : List Product
  pub variants : List ProductVariant
  pub attributes : List ProductAttribute
  pub attribute_values : List ProductAttributeValue
  pub account_movements : List AccountMovement
  pub cash_sessions : List CashSession
  pub cash_movements : List CashMovement
  pub sales : List Sale
  pub quotes : List Quote
  pub order_notes : List OrderNote
  pub outbox : List OutboxEvent

abbrev pub empty : Database
empty = record {
  next_id = 1;
  tenants = [];
  users = [];
  invitations = [];
  password_resets = [];
  customer_types = [];
  customers = [];
  categories = [];
  products = [];
  variants = [];
  attributes = [];
  attribute_values = [];
  account_movements = [];
  cash_sessions = [];
  cash_movements = [];
  sales = [];
  quotes = [];
  order_notes = [];
  outbox = [];
}
