-- ===== src/Ledger.antt =====
-- The ledger (ledger/): its data, and what the chain reads of it.
mod Types
mod View
pub mod Packing
pub mod FileStore
pub mod Store
pub mod State
pub mod Search
pub mod Checkpoints
mod Tests
pub use Types.*
pub use View.*
