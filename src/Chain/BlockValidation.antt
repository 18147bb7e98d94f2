-- ===== src/Chain/BlockValidation.antt =====
-- chain/BlockValidation.cpp: what a block must satisfy before it is applied. The unpacking of a record
-- (Ledger::Record::decode) is a parameter, as are the serialisation of a block and the hash of bytes
-- (utl::sha256, which calls libsodium); `local` is the system clock.
mod Defs
pub mod Sequence
pub mod Renewals
pub mod Duplicates
pub mod Normal
pub mod Genesis
unfoldable pub use Defs.*
