-- ===== src/Lib.antt =====
-- Aurapro: a multi-tenant shop backend (backend/app, Python).
--
-- Every service function takes a database session. Session.antt models it: the data that is
-- committed, the data that the open transaction sees, and the tenant that every query is filtered
-- by unless the query is marked `skip_tenant_filter` (Query.antt). A service function is an action
-- on such a session that returns a value or raises; what it wrote before it raised stays pending and is lost with the request, unless it
-- was committed. Actions run one after another. Where the source takes row locks
-- (`with_for_update`: the stock and number of a sale, an account, the numbers of documents) this is
-- what they are for; where it takes none, as in changing the status of an order note or a quote,
-- resetting a password, accepting an invitation, and opening and closing a cash session, runs that
-- overlap are not modelled.
--
-- Requests.antt: `get_tenant_db`, which gives a request its session; Requests/Scope says what it
--   sees.
--
-- Models.antt and its children hold the tables (`models.py` of each module, but for
-- `IntegrationSetting`, which no modelled function uses) as records and one
-- value with the rows of all of them. Identifiers (UUIDs) and times are numbers; a new identifier
-- is the next one of a supply. A request sees one time. Money is whole cents: the columns are
-- `Numeric(12, 2)`, and the source's floats hold such amounts, so that the sums in the source are
-- those of the model once they are stored. At the exact boundary of a comparison the floats of
-- the source may decide otherwise. Constraints and column ranges are checked when a row is added,
-- at the latest where the source flushes or commits: in the products, where the source catches the
-- constraint's error alone, a value out of its column's range is a `data_error`. Elsewhere no
-- row with a column that has such a range is written under that handler, and both errors are the
-- model's `integrity_error`.
--
-- Pricing.antt: backend/app/shared/pricing.py and payment_methods.py.
-- Sales.antt: `create_sale` of backend/app/modules/sales/services.py, one definition for each of
--   its steps: the order note, the loop over the items with its stock, the sale's number, the
--   rows, the payment and the event. Sales/Atomicity, Stock, Lines, Posting, Payment, Notes,
--   Numbers and Isolation prove what their names say; Sales/Steps, Effects and Trail take a
--   successful run apart, and OwnStock its loop.
-- Treasury.antt: accounts and cash sessions of backend/app/modules/treasury/services.py, which a
--   sale calls inside its own transaction. Treasury/Sessions, Life, Finality, Payments, Balance,
--   Effects and Rules.
-- OrderNotes.antt: backend/app/modules/order_notes/services.py, which shares a customer's type
--   and the catalogue's prices with the sales. OrderNotes/Settling and Creation take its two
--   operations, Lines their loop over the items, and Life every sequence of requests, sales
--   included.
-- Quotes.antt: backend/app/modules/quotes/services.py, with the loop of the order notes, which the
--   source repeats. Quotes/Creation and Life.
-- Customers.antt: backend/app/modules/customers/services.py, with what the foreign keys of the
--   documents and of the customers do. Customers/Changes says what each request writes,
--   Customers/Life and Documents take any requests, the latter with those that write documents.
-- Users.antt: `update_user` and `delete_user` of backend/app/modules/identity/services.py. The
--   hash of a password is a parameter. Users/Admins counts administrators, Users/Life takes any
--   requests.
-- PasswordResets.antt: `request_password_reset` and `reset_password` of the same file. The token
--   that is drawn is a parameter too. PasswordResets/Once takes one reset, PasswordResets/Life
--   any requests.
-- Accounts.antt: `register_tenant` and `authenticate_user` of backend/app/modules/identity/services.py
--   and backend/app/modules/admin/services.py. bcrypt's test of a password is a parameter too.
--   Accounts/Profile has the organization's own data. Accounts/Login and Suspension prove;
--   Accounts/Effects and Emails carry them.
-- Invitations.antt: `create_invitation`, `get_invitation_preview` and `accept_invitation` of the same
--   identity/services.py. Invitations/Life takes any requests that write accounts, each through what
--   Invitations/Changes and Joining say of it; Invitations/Login ends at the login.
-- Products.antt: backend/app/modules/products/services.py, through its children: Catalogue (products),
--   Attributes (the catalogues of categories and attributes), Removal (deletions), Variants, and Keys
--   (`_attributes_key`). Keys/Canonical, Patching, Ownership, Integrity, Attributes/Auxiliary and
--   Variants/Wholeness and Life prove; Keys/Sorted, Categories and Variants/Effects, Batch, Seen,
--   Combinations, Rows and Changes carry them. A dictionary is the list of its items; Python's
--   `sorted` is an insertion sort, `str.strip` a parameter.
-- Analytics.antt: the consumer of the sale events of analytics-engine/app (consumer.py) and its
--   windows in Redis (metrics/rolling_window.py, metrics/redis_keys.py). The record `Redis` holds the
--   commands that the source sends and `IsLawful` what they do; Analytics/Keys tells the keys, which
--   are texts, apart, Effects and Windows prove from those laws alone, and the tests have a store
--   that obeys them. What becomes of a message's bytes is a parameter with three outcomes
--   (`Decoded`). Quantities are whole numbers.
-- Patch.antt: the fields of a PATCH request (`exclude_unset`), shared by the services.
-- Tests.antt: runs on a small shop, and each theorem at concrete data.
--
-- Every loop is a recursion on a list or on a count; no definition takes fuel.
-- Not modelled: HTTP routes, PDF documents, migrations, the frontend, the Rust workers, and the
-- services that are not named above.
pub mod Prelude
pub mod Models
pub mod Session
pub mod Patch
pub mod Query
pub mod Requests
pub mod Pricing
pub mod Treasury
pub mod Sales
pub mod OrderNotes
pub mod Quotes
pub mod Analytics
pub mod Customers
pub mod Users
pub mod PasswordResets
pub mod Accounts
pub mod Invitations
pub mod Products
mod Tests
