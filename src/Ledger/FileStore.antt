-- ===== src/Ledger/FileStore.antt =====
-- FileStore of ledger/FileStore.cpp: blocks one after another in one file, each behind its size.
mod Bytes
mod Defs
mod Blocks
pub mod Scan
mod Loop
pub mod Writing
pub mod Reading
mod Mount
mod Rewind
mod Tests
unfoldable pub use Bytes.*
unfoldable pub use Defs.*
pub use Blocks.*
