-- ===== src/Credits.antt =====
-- What an outbound message costs and how it is paid: src/lib/outbound-credits.ts and
-- src/lib/outbound-billing.ts. Credits are reserved when a draft is queued, and settled or released
-- by the outbound queue.
mod Requirement
mod Settle
unfoldable pub use Requirement.*
unfoldable pub use Settle.*
pub mod Laws
