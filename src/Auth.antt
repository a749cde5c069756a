-- ===== src/Auth.antt =====
-- Access tokens, and the guards of a request that read them: src/lib/auth.ts.
pub mod Base64
mod Token
mod Access
pub mod Laws
pub mod Mint
unfoldable pub use Base64.*
unfoldable pub use Token.*
unfoldable pub use Access.*
