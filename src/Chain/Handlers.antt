-- ===== src/Chain/Handlers.antt =====
-- The handlers of transactions (chain/*TxHandler.cpp, chain/UserAccountUpsertBase.cpp), with what they are
-- given of the chain (chain/TxContext.h).
pub mod Context
pub mod Default
pub mod NewUser
pub mod Upsert
pub mod Replace
pub mod Renewal
pub mod EndUser
pub mod Config
pub mod Genesis
pub mod Dispatch
