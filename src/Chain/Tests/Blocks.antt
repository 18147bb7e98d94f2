-- ===== src/Chain/Tests/Blocks.antt =====
-- The validation of a block, and of the genesis block, at concrete inputs.

use pp_ledger.Base.{
  ℕ, ◌+◌, ◌≤◌, ◌≡◌, ◌⊎◌, ◌↔◌, ◌≤ℤ◌, ◌<ℤ◌, refl, arith, All, Distinct, if◌then◌else◌, Option, some,
  none, pos, [], ◌∷◌, true, ◌==◌,
}
use pp_ledger.Base.Roe.{Roe, ok, err, done}
use pp_ledger.Base.Word.{add_i64, to_i64, mul_u64, add_u64}
use pp_ledger.Map.{insert, lookup}
use pp_ledger.Consensus.Ouroboros.{
  get_slot_leader, validate_block_timing, get_slot_start_time, get_slot_end_time, init,
  set_stakeholders, is_slot_leader, validate_slot_leader, select_slot_leader,
  get_eligible_leader_pool, hash_slot_and_epoch, hex_encode, decimal, get_epoch_from_slot, nth,
  hash_value, parse_hex, fill, with_stake, goes_before, insert_by_stake, sort_by_stake,
}
use pp_ledger.Ledger.{
  Bytes, TypedTx, tx_renewal, tx_default, Record, Block, ChainNode, TxGenesis, TxNewUser, Window,
}
use pp_ledger.Ledger.Packing.{decode, pack_tx, type_of}
use pp_ledger.Ledger.Search.{reader}
use pp_ledger.Pack.Bytes.{read_bytes, be_bytes}
use pp_ledger.Pack.Archive.{
  read_word, read_i64, write_string, read_string, read_both, read_struct, binary_unpack,
  binary_pack,
}
use pp_ledger.Chain.Types.{BlockChainConfig, e_tx_idempotency}
use pp_ledger.Chain.AccountBuffer.{account_ids_before_block_id, get_account}
use pp_ledger.Chain.TxFees.{
  get_fee_coefficient, non_free_kib, quadratic_u128, minimum_fee_from_non_free_meta_size,
  to_non_free, calculate_minimum_fee,
}
use pp_ledger.Chain.RecordHandler.{handler_of, get_idempotency_key, get_renewal_account_id_if_any}
use pp_ledger.Chain.BlockValidation.{
  validate_link, validate_block_sequence, calculate_max_block_id_for_renewal,
  max_block_id_from_time, renewal_account, all_renewed, record_key, scan_keys,
  validate_intra_block_idempotency, record_renewal, scan_renewals, validate_account_renewals,
  only_renewals, validate_block_size, is_valid_timestamp, calculate_block_hash, validate_consensus,
  validate_normal_block,
}
use pp_ledger.Chain.BlockValidation.Sequence.{IsLinked, validate_block_sequence_iff}
use pp_ledger.Chain.BlockValidation.Renewals.{IsRenewedBy, validate_account_renewals_complete}
use pp_ledger.Chain.BlockValidation.Duplicates.{carried_keys, validate_intra_block_idempotency_iff}
use pp_ledger.Chain.BlockValidation.Normal.{IsRenewal, MakesRenewals, validate_normal_block_strict}
use pp_ledger.Chain.BlockValidation.Genesis.{
  IsGenesis, zero_string, validate_genesis_header, genesis_total, validate_genesis_fee,
  validate_fee_account, validate_reserve_account, validate_recycle_account, unpack_as,
  validate_genesis_records, validate_genesis_block, validate_genesis_block_sound,
}
use pp_ledger.Chain.Tests.Common.{
  alice, bank, account, payment, renewal, node_of, ledger, network, config, checkpoint,
}

abbrev packed : TypedTx → Record
packed tx = record { type = type_of tx; payload = pack_tx tx; signatures = [] }

-- Block 20, which renews alice and holds a payment
abbrev next_node : ChainNode
next_node = node_of 20 (packed (tx_renewal renewal) ∷ packed (tx_default payment) ∷ [])

abbrev digest : Bytes → Bytes
digest x = 1 ∷ 1 ∷ 1 ∷ 1 ∷ 1 ∷ 1 ∷ 1 ∷ 1 ∷ []

abbrev sha256 : Bytes → Bytes
sha256 x = x

abbrev serialize : Block → Bytes
serialize b = (b.index + 48) ∷ []

validate_block_sequence_iff_example : (validate_block_sequence ledger next_node ≡ done) ↔ (
    (20 ≤ ledger.next_block_id)
    × ((prev : ChainNode) × (ledger.read_block 19 ≡ ok prev) × IsLinked prev next_node))
unfolding reader
validate_block_sequence_iff_example = validate_block_sequence_iff ledger next_node (ground arith)

renewed :
    validate_account_renewals decode
      (pos 1100)
      next_node
      bank
      ledger
      network
      (some config)
      checkpoint
    ≡ done
unfolding reader validate_account_renewals calculate_max_block_id_for_renewal max_block_id_from_time
    scan_renewals record_renewal renewal_account get_account lookup all_renewed
    account_ids_before_block_id handler_of get_renewal_account_id_if_any decode binary_unpack
    read_bytes be_bytes read_word read_i64 write_string read_string read_both read_struct pack_tx
    type_of binary_pack add_u64
renewed = refl

validate_account_renewals_complete_example : IsRenewedBy decode next_node.block.records alice
unfolding lookup calculate_max_block_id_for_renewal add_u64
validate_account_renewals_complete_example =
    validate_account_renewals_complete decode (pos 1100) next_node bank ledger network (some config)
      checkpoint 11 alice (account alice 1 (pos 100)) renewed refl refl (ground arith)

validate_intra_block_idempotency_iff_example :
    (validate_intra_block_idempotency decode next_node ≡ done)
    ↔ Distinct (carried_keys next_node.block.records)
validate_intra_block_idempotency_iff_example = validate_intra_block_idempotency_iff next_node

-- Two payments with the same idempotent id do not pass.
repeated :
    validate_intra_block_idempotency decode
      (node_of 20 (packed (tx_default payment) ∷ packed (tx_default payment) ∷ []))
    ≡ err e_tx_idempotency
unfolding validate_intra_block_idempotency scan_keys record_key handler_of get_idempotency_key
    decode binary_unpack read_bytes be_bytes read_word read_i64 write_string read_string read_both
    read_struct pack_tx type_of binary_pack
repeated = refl

accepted :
    validate_normal_block digest sha256 serialize decode
      (pos 1100)
      next_node
      true
      ledger
      network
      bank
      (some config)
      checkpoint
    ≡ done
unfolding reader init set_stakeholders fill insert lookup validate_normal_block calculate_block_hash
    validate_block_sequence validate_link validate_consensus validate_slot_leader is_slot_leader
    get_slot_leader select_slot_leader get_eligible_leader_pool with_stake goes_before
    insert_by_stake sort_by_stake hash_slot_and_epoch hash_value hex_encode decimal parse_hex nth
    get_epoch_from_slot validate_block_timing is_valid_timestamp get_slot_start_time
    get_slot_end_time validate_account_renewals calculate_max_block_id_for_renewal
    max_block_id_from_time scan_renewals record_renewal renewal_account get_account all_renewed
    account_ids_before_block_id handler_of get_renewal_account_id_if_any validate_block_size
    only_renewals validate_intra_block_idempotency scan_keys record_key get_idempotency_key decode
    binary_unpack read_bytes be_bytes read_word read_i64 write_string read_string read_both
    read_struct pack_tx type_of binary_pack add_u64 add_i64 to_i64 mul_u64
accepted = refl

validate_normal_block_strict_example :
    (next_node.hash ≡ calculate_block_hash sha256 serialize next_node.block)
    × ((20 ≤ ledger.next_block_id)
        × ((prev : ChainNode) × (ledger.read_block 19 ≡ ok prev) × IsLinked prev next_node))
    × (get_slot_leader digest 20 network ≡ ok 9)
    × ((get_slot_start_time 20 network ≤ℤ pos 1100) × (pos 1100 <ℤ get_slot_end_time 20 network))
    × MakesRenewals (pos 1100) next_node bank ledger network (some config) checkpoint
    × ((c : BlockChainConfig) × (some config ≡ some c)
        × ((c.max_transactions_per_block ≡ 0)
            ⊎ ((2 ≤ c.max_transactions_per_block) ⊎ All IsRenewal next_node.block.records)))
    × Distinct (carried_keys next_node.block.records)
unfolding reader
validate_normal_block_strict_example =
    validate_normal_block_strict digest sha256 serialize (pos 1100) next_node ledger network bank
      (some config) checkpoint (ground arith) accepted

abbrev no_window : Window
no_window = record { idempotent_id = 0; validation_ts_min = pos 0; validation_ts_max = pos 0 }

abbrev genesis_user : ℕ → ℕ → TxNewUser
genesis_user to amount = record {
  from_wallet_id = 0;
  to_wallet_id = to;
  amount = amount;
  fee = 1;
  meta = 1 ∷ [];
  window = no_window;
}

abbrev unpack_genesis : Bytes → Option TxGenesis
unpack_genesis x = some (record { fee = 0; meta = [] })

-- A payload names the receiver; the reserve gets what the fees leave.
abbrev unpack_new_user : Bytes → Option TxNewUser
unpack_new_user [] = none
unpack_new_user (to ∷ _) = some (genesis_user to (if to == 2 then 1073741821 else 0))

abbrev config_of_meta : Bytes → Option BlockChainConfig
config_of_meta x = some config

abbrev no_meta : BlockChainConfig → TypedTx → Roe ℕ
no_meta c t = ok 0

abbrev genesis_record : ℕ → ℕ → Record
genesis_record type to = record { type = type; payload = to ∷ []; signatures = [] }

abbrev genesis_node : ChainNode
genesis_node = record {
  block = record {
    index = 0;
    timestamp = pos 1000;
    records =
        genesis_record 1 0 ∷ genesis_record 2 1 ∷ genesis_record 2 2 ∷ genesis_record 2 3 ∷ [];
    previous_hash = zero_string;
    nonce = 0;
    slot = 0;
    slot_leader = 0;
    tx_index = 0;
  };
  hash = 48 ∷ [];
}

genesis_accepted :
    validate_genesis_block no_meta unpack_genesis unpack_new_user config_of_meta serialize
      genesis_node
    ≡ done
unfolding validate_genesis_header genesis_total validate_genesis_fee validate_fee_account
    validate_reserve_account validate_recycle_account unpack_as validate_genesis_records
    validate_genesis_block get_fee_coefficient non_free_kib quadratic_u128
    minimum_fee_from_non_free_meta_size to_non_free calculate_minimum_fee add_u64 mul_u64
genesis_accepted = refl

validate_genesis_block_sound_example :
    IsGenesis no_meta unpack_genesis unpack_new_user config_of_meta genesis_node.block.records
    × (genesis_node.block.index ≡ 0)
    × (genesis_node.block.previous_hash ≡ zero_string)
    × (serialize genesis_node.block ≡ genesis_node.hash)
validate_genesis_block_sound_example =
    validate_genesis_block_sound no_meta unpack_genesis unpack_new_user config_of_meta serialize
      genesis_node genesis_accepted
