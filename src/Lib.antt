-- ===== src/Lib.antt =====
-- pp-ledger, a proof-of-stake ledger in C++: blocks of transactions, an account buffer that they are
-- applied to, and a consensus that names the leader of each time slot. A block is validated
-- (chain/BlockValidation.cpp), which asks the consensus for the slot's leader, the ledger for the block
-- before, and the accounts for what is due; its records are then applied by a handler for each type,
-- which checks the fee and the duplicates and moves funds in the account buffer.
--
-- The files and what they model:
--   Base, Map      the C++ integers, ResultOrError (lib/common/ResultOrError.hpp), std::map
--   Pack           the archives of lib/common/Serialize.hpp and lib/common/BinaryPack.hpp: a type is a
--                  value that writes and reads, as a `serialize` method lists its fields once for both
--   Ledger.FileStore       the class of ledger/FileStore.cpp, its file a list of bytes
--   Ledger.Store, Ledger.State     the ledger (ledger/Ledger.cpp) over an interface of a block store, which
--                  a FileStore fills
--   Ledger.Packing, Chain.Packing  the `serialize` methods and text forms of the records
--   Ledger         ledger/Ledger.h (Types), Ledger::findBlockByTimestamp (Search) and
--                  Ledger::updateCheckpoints (Checkpoints) of ledger/Ledger.cpp; View is what the chain
--                  reads of a ledger
--   Consensus.Ouroboros    the class of consensus/Ouroboros.cpp
--   Chain.AccountBuffer    the class of chain/AccountBuffer.cpp
--   Chain.TxFees, Chain.TxIdempotency    the functions of chain/TxFees.cpp and chain/TxIdempotency.cpp
--   Chain.RecordHandler    the dispatch of chain/RecordHandler.cpp, with the keys, the renewed accounts
--                  and the signers of the seven handlers (chain/*TxHandler.cpp)
--   Chain.LedgerMeta, Chain.TxSignatures    chain/TxLedgerMeta.cpp and chain/TxSignatures.cpp
--   Chain.Handlers chain/*TxHandler.cpp and chain/UserAccountUpsertBase.cpp, a file for each handler, and
--                  the dispatch of a record to them (Dispatch); Replace has what replacing an account
--                  does to the sums
--   Chain.Renewals the renewals that a block producer collects (chain/Chain.cpp)
--   Chain.TxSearch the search of a transaction by its index (chain/Chain.cpp)
--   Chain.BlockValidation  chain/BlockValidation.cpp
-- A function keeps its name in snake case; a method takes the object last and, where it writes, returns
-- the result with the object after it, since what is written before an error stays written.
--
-- Numbers: a uint64_t is a native number, sums and products written out modulo 2 ^ 64; an int64_t is
-- an integer, and sums that leave its range wrap around, as the compilers in use do it. Of an error the
-- code is kept, not the text. The code 1000 stands for an exception. Strings are lists of bytes.
--
-- Loops are recursion on lists. The scan for duplicates has a round for each block from the first one
-- in the window, and the search by time one for each block, where halving the range needs no more.
--
-- The scan of a file has a round for each byte: its offsets differ, or it repeats itself for ever.
--
-- Parameters: SHA-256 and the verification of signatures (libsodium), the supported key types, the clock,
-- whether a file could be saved, and the ledger's block store. The validation of blocks and the search
-- for duplicates take the unpacking of a record as an argument; what is proved of a normal block as a
-- whole and of its duplicates is for Ledger::Record::decode, as Ledger.Packing has it.
--
-- A FileStore's stream that holds a file fails when it is opened again, as std::fstream does.
--
-- Not modelled: the stores of directories, failures of the device, the rest of the class Chain, the
-- network, the servers, the programs, and the vendored libraries.
pub mod Base
pub mod Map
pub mod Pack
pub mod Ledger
pub mod Consensus
pub mod Chain
