-- ===== src/Chain/TxIdempotency/Duplicates.antt =====
-- The scan for duplicates and the window of a transaction (chain/TxIdempotency.cpp).

use pp_ledger.Base.{
  ℕ, zero, suc, ◌+◌, ◌-◌, ◌≤◌, ◌<◌, ◌≡◌, ◌≢◌, refl, true, false, List, [], ◌∷◌, Option, none, some,
  arith, All, ltb, ℤ, ◌≤ℤ◌, Option-cases, ℕ_discrete, inl, inr,
}
use pp_ledger.Base.Roe.{ok, Done, done}
use pp_ledger.Base.Word.{to_u64, sub_i64}
use pp_ledger.Consensus.Ouroboros.{Ouroboros, get_slot_start_time, get_slot_from_timestamp}
use pp_ledger.Ledger.{Record, ChainNode, Reader}
use pp_ledger.Chain.Types.{BlockChainConfig}
use pp_ledger.Chain.TxIdempotency.{
  KeyOf, scan_records, scan_blocks, check_idempotency, check_window, validate_idempotency_rules,
}

-- A record does not carry the key of the wallet and the id.
abbrev pub IsOther : KeyOf → ℕ → ℕ → Record → Type 0
IsOther key_of id wallet rec = key_of rec ≢ ok (some (wallet, id))

scan_records_sound :
    (key_of : KeyOf) (id wallet : ℕ) (recs : List Record) (next : Done)
    → scan_records key_of id wallet recs next ≡ done
    → All (IsOther key_of id wallet) recs × (next ≡ done)
unfolding scan_records
scan_records_sound key_of id wallet [] next h = (tt, h)
scan_records_sound key_of id wallet (rec ∷ rest) next h =
    let (more, after) = scan_records_sound key_of id wallet rest next (ground (arith, h)) in
    (((λ e. ground (arith, e, h)), more), after)

-- The scan reaches a block when every block up to it is readable and not after the window.
scan_blocks_sound :
    (l : Reader) (key_of : KeyOf) (id wallet slot_min slot_max fuel block_id n : ℕ)
    (node : ChainNode)
    → scan_blocks l key_of id wallet slot_min slot_max fuel block_id ≡ done
    → block_id ≤ n
    → n < block_id + fuel
    → ((m : ℕ)
        → block_id ≤ m
        → m ≤ n
        → (x : ChainNode) × (l.read_block m ≡ ok x) × (x.block.slot ≤ slot_max))
    → l.read_block n ≡ ok node
    → slot_min ≤ node.block.slot
    → All (IsOther key_of id wallet) node.block.records
unfolding scan_blocks
scan_blocks_sound l key_of id wallet slot_min slot_max zero block_id n node h lo hi path e s =
    absurd (omega arith)
scan_blocks_sound l key_of id wallet slot_min slot_max (suc fuel) block_id n node h lo hi path e s =
    let next = scan_blocks l key_of id wallet slot_min slot_max fuel (suc block_id) in
    let (x, re, in_window) = path block_id (omega arith) lo in
    elim (ℕ_discrete block_id n) [
      | yes here ↦
          let same : x ≡ node = ground (arith, re, e, here) in
          let low : ltb node.block.slot slot_min ≡ false = ground (arith, s) in
          (scan_records_sound key_of id wallet node.block.records next
            (ground (arith, h, re, in_window, same, low))).0
      | no later ↦
          scan_blocks_sound l key_of id wallet slot_min slot_max fuel (suc block_id) n node
            (ground (
              arith,
              h,
              re,
              in_window,
              λ (p : scan_records key_of id wallet x.block.records next ≡ done).
                  (scan_records_sound key_of id wallet x.block.records next p).1,
            ))
            (omega arith) (omega arith) (λ m a c. path m (omega arith) c) e s
    ]

-- When `checkIdempotency` accepts an idempotent id, no record of a block in the slots that it checks
-- carries that id for that wallet. The blocks from the first one in the window to that block can be
-- read and do not lie after the window.
pub check_idempotency_sound :
    (l : Reader) (consensus : Ouroboros) (key_of : KeyOf) (id wallet slot_min slot_max n : ℕ)
    (first node : ChainNode)
    → id ≢ 0
    → check_idempotency l consensus key_of id wallet slot_min slot_max ≡ done
    → l.find_block_by_timestamp (get_slot_start_time slot_min consensus) ≡ ok first
    → first.block.index ≤ n
    → n < l.next_block_id
    → ((m : ℕ)
        → first.block.index ≤ m
        → m ≤ n
        → (x : ChainNode) × (l.read_block m ≡ ok x) × (x.block.slot ≤ slot_max))
    → l.read_block n ≡ ok node
    → slot_min ≤ node.block.slot
    → All (IsOther key_of id wallet) node.block.records
unfolding check_idempotency
check_idempotency_sound l consensus key_of id wallet slot_min slot_max n first node ne h found lo hi
      path e s =
    scan_blocks_sound l key_of id wallet slot_min slot_max (l.next_block_id - first.block.index)
      first.block.index n node (ground (arith, h, found, ne)) lo (omega arith) path e s

-- In strict mode a transaction with an idempotent id passes only if a chain configuration is set,
-- its window is not empty and not longer than the configuration allows, and the slot at which it is
-- applied lies between the slots of the window's ends.
pub validate_idempotency_rules_window :
    (l : Reader) (consensus : Ouroboros) (key_of : KeyOf) (config : Option BlockChainConfig)
    (id wallet : ℕ) (ts_min ts_max : ℤ) (slot : ℕ)
    → id ≢ 0
    → validate_idempotency_rules l consensus key_of config id wallet ts_min ts_max slot true ≡ done
    → (c : BlockChainConfig) × (slot_min : ℕ) × (slot_max : ℕ) × (config ≡ some c)
      × (ts_min ≤ℤ ts_max)
      × (to_u64 (sub_i64 ts_max ts_min) ≤ c.max_validation_timespan_seconds)
      × (get_slot_from_timestamp ts_min consensus ≡ some slot_min)
      × (get_slot_from_timestamp ts_max consensus ≡ some slot_max)
      × (slot_min ≤ slot)
      × (slot ≤ slot_max)
unfolding validate_idempotency_rules check_window
validate_idempotency_rules_window l consensus key_of none id wallet ts_min ts_max slot ne h =
    absurd (ground (arith, h, ne))
validate_idempotency_rules_window l consensus key_of (some c) id wallet ts_min ts_max slot ne h =
    elim (Option-cases (get_slot_from_timestamp ts_min consensus)) [
      | inl e ↦ absurd (ground (arith, h, ne, e))
      | inr (slot_min, e) ↦ elim (Option-cases (get_slot_from_timestamp ts_max consensus)) [
        | inl e' ↦ absurd (ground (arith, h, ne, e, e'))
        | inr (slot_max, e') ↦ (
          c,
          slot_min,
          slot_max,
          refl,
          ground (arith, h, ne),
          ground (arith, h, ne),
          e,
          e',
          ground (arith, h, ne, e, e'),
          ground (arith, h, ne, e, e'),
        )
      ]
    ]
