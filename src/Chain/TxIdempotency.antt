-- ===== src/Chain/TxIdempotency.antt =====
-- Duplicate transactions (chain/TxIdempotency.cpp). `thrown` stands for an exception that leaves the
-- call (Ouroboros::assertConfigIsSet); it is no code of a TxError.
pub mod Duplicates
use Prim.Native.Nat.{◌^◌}
use pp_ledger.Base.{
  ℕ, zero, suc, ◌+◌, ◌-◌, Bool, true, false, ◌&&◌, ◌||◌, not, List, [], ◌∷◌, Option, none, some,
  ltb, leb, ◌==◌, if◌then◌else◌, ℤ, ltb_ℤ,
}
use pp_ledger.Base.Word.{to_u64, sub_i64}
use pp_ledger.Base.Roe.{Roe, ok, err, Done, done}
use pp_ledger.Consensus.Ouroboros.{Ouroboros, get_slot_start_time, get_slot_from_timestamp}
use pp_ledger.Ledger.{Record, Block, ChainNode, Reader}
use pp_ledger.Chain.Types.{
  BlockChainConfig, e_tx_validation, e_tx_idempotency, e_tx_validation_timespan,
  e_tx_time_outside_window,
}

abbrev pub thrown : ℕ
thrown = 1000

-- FnIdempotencyKeyForRecord: a record's wallet and idempotent id, if it has one
abbrev pub KeyOf : Type 0
KeyOf = Record → Roe (Option (ℕ × ℕ))

-- The scan of a block's records, with what follows it.
unfoldable pub scan_records : KeyOf → ℕ → ℕ → List Record → Done → Done
scan_records key_of id wallet [] next = next
scan_records key_of id wallet (rec ∷ rest) next =
    let more = scan_records key_of id wallet rest next in
    elim (key_of rec) [
      | err e ↦ err e
      | ok none ↦ more
      | ok (some (w, i)) ↦ if i == id && w == wallet then err e_tx_idempotency else more
    ]

-- The loop over the blocks from `block_id`, which has `fuel` rounds left.
unfoldable pub scan_blocks : Reader → KeyOf → ℕ → ℕ → ℕ → ℕ → ℕ → ℕ → Done
scan_blocks l key_of id wallet slot_min slot_max zero block_id = done
scan_blocks l key_of id wallet slot_min slot_max (suc fuel) block_id =
    let next = scan_blocks l key_of id wallet slot_min slot_max fuel (suc block_id) in
    elim (l.read_block block_id) [
      | err _ ↦ done
      | ok node ↦
          if ltb slot_max node.block.slot
          then done
          else (if ltb node.block.slot slot_min
              then next
              else scan_records key_of id wallet node.block.records next)
    ]

unfoldable pub check_idempotency : Reader → Ouroboros → KeyOf → ℕ → ℕ → ℕ → ℕ → Done
check_idempotency l consensus key_of id wallet slot_min slot_max =
    if id == 0
    then done
    else elim (l.find_block_by_timestamp (get_slot_start_time slot_min consensus)) [
      | err _ ↦ done
      | ok node ↦
          scan_blocks l key_of id wallet slot_min slot_max (l.next_block_id - node.block.index)
            node.block.index
    ]

unfoldable pub check_window : Reader → Ouroboros → KeyOf → ℕ → ℕ → ℕ → ℕ → ℕ → Done
check_window l consensus key_of id wallet slot_min slot_max slot =
    if ltb slot slot_min || ltb slot_max slot
    then err e_tx_time_outside_window
    else (if slot == 0 || leb slot slot_min
        then done
        else check_idempotency l consensus key_of id wallet slot_min (slot - 1))

unfoldable pub validate_idempotency_rules :
    Reader → Ouroboros → KeyOf → Option BlockChainConfig → ℕ → ℕ → ℤ → ℤ → ℕ → Bool → Done
validate_idempotency_rules l consensus key_of config id wallet ts_min ts_max slot is_strict =
    if not is_strict
    then done
    else (if id == 0
        then done
        else (if ltb_ℤ ts_max ts_min then err e_tx_validation else elim config [
          | none ↦ err e_tx_validation
          | some c ↦
              if ltb c.max_validation_timespan_seconds (to_u64 (sub_i64 ts_max ts_min))
              then err e_tx_validation_timespan
              else elim (get_slot_from_timestamp ts_min consensus) [
                | none ↦ err thrown
                | some slot_min ↦ elim (get_slot_from_timestamp ts_max consensus) [
                  | none ↦ err thrown
                  | some slot_max ↦ check_window l consensus key_of id wallet slot_min slot_max slot
                ]
              ]
        ]))
