-- ===== src/Guards.antt =====
-- Whether a draft may be sent: src/lib/draft-send-guards.ts, with the look-ups it makes in
-- src/repositories/agents.ts and src/repositories/mail.ts.
mod Payload
mod Lookup
mod Check
pub mod Ensures
pub mod Facts
mod Stored
pub mod Sound
pub mod Complete
pub mod Reserve
unfoldable pub use Payload.*
unfoldable pub use Lookup.*
unfoldable pub use Check.*
