-- ===== src/Credits/Laws.antt =====
-- What a settlement does to the ledger and to the account.
mod Frame
pub mod Once
pub mod Repeat
pub mod Calm
