-- ===== src/Chain/Tests.antt =====
-- The chain's rules on a small ledger, of twenty blocks with one payment each. A record is unpacked by
-- a table here.
mod Common
mod Rules
mod Blocks
mod Transactions
mod Packing
mod Handlers
mod TxSearch
