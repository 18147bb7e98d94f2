-- ===== src/Chain/Types.antt =====
-- Records shared by the chain's files (chain/Types.h, client/Client.h), and the error codes of
-- chain/ErrorCodes.h.
use pp_ledger.Base.{ℕ, List, ℤ}
use pp_ledger.Map.{Map}

-- A std::string, as its bytes.
abbrev pub Bytes : Type 0
Bytes = List ℕ

pub record Wallet : Type 0 where
  pub balances : Map ℤ
  pub public_keys : List Bytes
  pub min_signatures : ℕ
  pub key_type : ℕ

pub record UserAccount : Type 0 where
  pub wallet : Wallet
  pub meta : Bytes

pub record CheckpointConfig : Type 0 where
  pub min_blocks : ℕ
  pub min_age_seconds : ℕ

pub record BlockChainConfig : Type 0 where
  pub genesis_time : ℤ
  pub slot_duration : ℕ
  pub slots_per_epoch : ℕ
  pub max_custom_meta_size : ℕ
  pub max_transactions_per_block : ℕ
  pub min_fee_coefficients : List ℕ
  pub free_custom_meta_size : ℕ
  pub checkpoint : CheckpointConfig
  pub max_validation_timespan_seconds : ℕ

pub record GenesisAccountMeta : Type 0 where
  pub config : BlockChainConfig
  pub genesis : UserAccount

pub record Checkpoint : Type 0 where
  pub last_id : ℕ
  pub current_id : ℕ

abbrev pub e_state_init : ℕ
e_state_init = 1

abbrev pub e_invalid_argument : ℕ
e_invalid_argument = 3

abbrev pub e_block_not_found : ℕ
e_block_not_found = 10

abbrev pub e_ledger_read : ℕ
e_ledger_read = 81

abbrev pub e_block_hash : ℕ
e_block_hash = 12

abbrev pub e_block_index : ℕ
e_block_index = 13

abbrev pub e_block_validation : ℕ
e_block_validation = 15

abbrev pub e_block_genesis : ℕ
e_block_genesis = 16

abbrev pub e_consensus_slot_leader : ℕ
e_consensus_slot_leader = 30

abbrev pub e_consensus_timing : ℕ
e_consensus_timing = 31

abbrev pub e_account_not_found : ℕ
e_account_not_found = 40

abbrev pub e_account_exists : ℕ
e_account_exists = 41

abbrev pub e_account_balance : ℕ
e_account_balance = 42

abbrev pub e_account_renewal : ℕ
e_account_renewal = 44

abbrev pub e_tx_validation : ℕ
e_tx_validation = 60

abbrev pub e_tx_signature : ℕ
e_tx_signature = 61

abbrev pub e_tx_fee : ℕ
e_tx_fee = 62

abbrev pub e_tx_type : ℕ
e_tx_type = 64

abbrev pub e_tx_transfer : ℕ
e_tx_transfer = 65

abbrev pub e_tx_idempotency : ℕ
e_tx_idempotency = 66

abbrev pub e_tx_validation_timespan : ℕ
e_tx_validation_timespan = 67

abbrev pub e_tx_time_outside_window : ℕ
e_tx_time_outside_window = 68

abbrev pub e_internal_deserialize : ℕ
e_internal_deserialize = 90

abbrev pub e_internal_buffer : ℕ
e_internal_buffer = 91

abbrev pub e_internal : ℕ
e_internal = 99
