-- ===== src/Chain.antt =====
-- The chain layer (chain/): accounts, fees, duplicate transactions, transaction handlers and the
-- validation of blocks.
pub mod Types
pub mod Packing
pub mod AccountBuffer
pub mod TxFees
pub mod TxIdempotency
pub mod TxSignatures
pub mod RecordHandler
pub mod BlockValidation
pub mod LedgerMeta
pub mod Handlers
pub mod Renewals
pub mod TxSearch
mod Tests
