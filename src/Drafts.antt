-- ===== src/Drafts.antt =====
-- Enqueueing a draft for its send: `enqueueDraftSend` of src/repositories/mail.ts, with the
-- statements that it makes.
mod Statements
mod Threads
mod Enqueue
mod Body
mod Quiet
mod Before
mod Priced
mod Released
pub mod Undo
pub mod Restores
unfoldable pub use Statements.*
unfoldable pub use Threads.*
unfoldable pub use Enqueue.*
unfoldable pub use Body.*
