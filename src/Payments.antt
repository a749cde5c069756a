-- ===== src/Payments.antt =====
-- Payments: receipts and what they record (src/lib/payments, src/repositories/billing.ts), and
-- their confirmation and settlement (src/routes/api.ts).
mod Metadata
mod Stored
mod Exchange
mod Answers
mod Receipts
mod Create
mod Confirm
mod Settle
mod Finalize
mod Retry
unfoldable pub use Metadata.*
unfoldable pub use Stored.*
unfoldable pub use Exchange.*
unfoldable pub use Answers.*
unfoldable pub use Receipts.*
unfoldable pub use Create.*
unfoldable pub use Confirm.*
unfoldable pub use Settle.*
unfoldable pub use Finalize.*
unfoldable pub use Retry.*
pub mod Frame
pub mod Rules
pub mod Confirmed
pub mod Finalized
pub mod Retried
pub mod Updated
pub mod Current
pub mod Entries
pub mod Steps
pub mod Credited
pub mod Linked
pub mod Settled
pub mod Refused
pub mod Unpaid
pub mod Replay
pub mod Adds
pub mod Merged
pub mod Reread
pub mod Storable
