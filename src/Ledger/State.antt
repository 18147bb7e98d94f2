-- ===== src/Ledger/State.antt =====
-- The ledger over its block store (ledger/Ledger.cpp).
mod Defs
pub mod Text
pub mod Blocks
mod Tests
pub use Defs.*
