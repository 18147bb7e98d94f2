-- ===== src/Ledger/Types.antt =====
-- The data of the ledger: transactions, records, blocks (ledger/Ledger.h). Strings are lists of bytes.
use pp_ledger.Base.{ℕ, List, ℤ}

abbrev pub Bytes : Type 0
Bytes = List ℕ

-- TxIdempotencyWindow, which four kinds of transaction inherit
pub record Window : Type 0 where
  pub idempotent_id : ℕ
  pub validation_ts_min : ℤ
  pub validation_ts_max : ℤ

pub record TxDefault : Type 0 where
  pub token_id : ℕ
  pub from_wallet_id : ℕ
  pub to_wallet_id : ℕ
  pub amount : ℕ
  pub fee : ℕ
  pub meta : Bytes
  pub window : Window
  pub open window use *

pub record TxGenesis : Type 0 where
  pub fee : ℕ
  pub meta : Bytes

pub record TxNewUser : Type 0 where
  pub from_wallet_id : ℕ
  pub to_wallet_id : ℕ
  pub amount : ℕ
  pub fee : ℕ
  pub meta : Bytes
  pub window : Window
  pub open window use *

pub record TxConfig : Type 0 where
  pub fee : ℕ
  pub meta : Bytes
  pub window : Window
  pub open window use *

pub record TxUserUpdate : Type 0 where
  pub wallet_id : ℕ
  pub fee : ℕ
  pub meta : Bytes
  pub window : Window
  pub open window use *

pub record TxRenewal : Type 0 where
  pub wallet_id : ℕ
  pub fee : ℕ
  pub meta : Bytes

pub record TxEndUser : Type 0 where
  pub wallet_id : ℕ
  pub fee : ℕ
  pub meta : Bytes

pub data TypedTx : Type 0 where
  tx_default : TxDefault → TypedTx
  tx_genesis : TxGenesis → TypedTx
  tx_new_user : TxNewUser → TypedTx
  tx_config : TxConfig → TypedTx
  tx_user_update : TxUserUpdate → TypedTx
  tx_renewal : TxRenewal → TypedTx
  tx_end_user : TxEndUser → TypedTx

-- Ledger::Record; `type` is the T_… constant
pub record Record : Type 0 where
  pub type : ℕ
  pub payload : Bytes
  pub signatures : List Bytes

pub record Block : Type 0 where
  pub index : ℕ
  pub timestamp : ℤ
  pub records : List Record
  pub previous_hash : Bytes
  pub nonce : ℕ
  pub slot : ℕ
  pub slot_leader : ℕ
  pub tx_index : ℕ

pub record ChainNode : Type 0 where
  pub block : Block
  pub hash : Bytes
