-- ===== src/Tests.antt =====
-- Runs at concrete inputs.
mod Fixtures
mod Requests
mod Sales
mod OrderNotes
mod Quotes
mod Customers
mod Analytics
mod Users
mod Products
mod PasswordResets
mod Accounts
mod Invitations
mod Treasury
