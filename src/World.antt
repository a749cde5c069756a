-- ===== src/World.antt =====
-- The state that the runtime keeps in D1, R2 and its queues, and the effects of the code on it.
-- types.ts, migrations/ and the row interfaces of repositories/billing.ts, repositories/mail.ts.
-- Row keys and storage keys are numbers: the code only compares them.
pub mod Receipts
mod Rows
mod Monad
pub mod Tables
unfoldable pub use Rows.*
unfoldable pub use Monad.*
