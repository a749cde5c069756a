-- ===== src/Billing.antt =====
-- src/repositories/billing.ts: the billing accounts of the tenants and their credit ledger.
mod Accounts
mod Ledger
pub mod Laws
unfoldable pub use Accounts.*
unfoldable pub use Ledger.*
pub mod References
pub mod Append
