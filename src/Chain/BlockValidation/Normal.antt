-- ===== src/Chain/BlockValidation/Normal.antt =====
-- validateNormalBlock of chain/BlockValidation.cpp, in strict mode.
use pp_ledger.Base.{
  ℕ, ◌-◌, ◌≤◌, ◌<◌, ◌≡◌, ◌⊎◌, refl, sym, true, List, [], ◌∷◌, Option, none, some, arith, All,
  Distinct, ltb, length, eqb_list_sound, ℤ, ◌≤ℤ◌, ◌<ℤ◌, Bool-cases, inl, inr,
}
use pp_ledger.Base.Roe.{ok, done, Roe-cases}
use pp_ledger.Consensus.Ouroboros.{
  Ouroboros, get_slot_leader, is_slot_leader, validate_block_timing, get_slot_start_time,
  get_slot_end_time,
}
use pp_ledger.Ledger.{Bytes, Record, Block, ChainNode, Reader}
use pp_ledger.Ledger.Packing.{decode}
use pp_ledger.Chain.Types.{BlockChainConfig, Checkpoint}
use pp_ledger.Chain.AccountBuffer.{Buffer}
use pp_ledger.Chain.RecordHandler.{handler_of, is_renewal_tx}
use pp_ledger.Chain.BlockValidation.Defs.{
  validate_account_renewals, accounts_needing_renewal, calculate_max_block_id_for_renewal,
  validate_block_size, only_renewals, calculate_block_hash, validate_consensus,
  validate_normal_block,
}
use pp_ledger.Chain.BlockValidation.Sequence.{IsLinked, validate_block_sequence_iff}
use pp_ledger.Chain.BlockValidation.Renewals.{IsRenewedBy, scan_renewals_complete}
use pp_ledger.Chain.BlockValidation.Duplicates.{carried_keys, validate_intra_block_idempotency_iff}

-- A record of a renewal (T_RENEWAL)
abbrev pub IsRenewal : Record → Type 0
IsRenewal rec = rec.type ≡ 5

only_renewals_sound : (recs : List Record) → only_renewals recs ≡ done → All IsRenewal recs
unfolding only_renewals is_renewal_tx handler_of
only_renewals_sound [] h = tt
only_renewals_sound (rec ∷ rest) h =
    (ground (arith, h), only_renewals_sound rest (ground (arith, h)))

-- A block that passes the check on its size has at most `max_tx` records, or only renewals, unless
-- `max_tx` is 0, which stands for no limit.
pub validate_block_size_sound :
    (max_tx : ℕ) (node : ChainNode)
    → validate_block_size max_tx node ≡ done
    → (max_tx ≡ 0) ⊎ ((length node.block.records ≤ max_tx) ⊎ All IsRenewal node.block.records)
unfolding validate_block_size
validate_block_size_sound max_tx node h = elim (Bool-cases (ltb 0 max_tx)) [
  | inl e ↦ elim (Bool-cases (ltb max_tx (length node.block.records))) [
    | inl e' ↦ inr (inr (only_renewals_sound node.block.records (ground (arith, h, e, e'))))
    | inr e' ↦ inr (inl (ground (arith, e')))
  ]
  | inr e ↦ inl (ground (arith, e))
]

in_slot :
    (node : ChainNode) (o : Ouroboros)
    → validate_block_timing node.block.timestamp node.block.slot o ≡ true
    → (get_slot_start_time node.block.slot o ≤ℤ node.block.timestamp)
      × (node.block.timestamp <ℤ get_slot_end_time node.block.slot o)
unfolding validate_block_timing get_slot_end_time
in_slot node o h = (ground (arith, h), ground (arith, h))

get_slot_leader_of_check :
    (digest : Bytes → Bytes) (node : ChainNode) (o : Ouroboros)
    → is_slot_leader digest node.block.slot node.block.slot_leader o ≡ true
    → get_slot_leader digest node.block.slot o ≡ ok node.block.slot_leader
unfolding is_slot_leader
get_slot_leader_of_check digest node o h =
    elim (Roe-cases (get_slot_leader digest node.block.slot o)) [
      | inl (leader, e) ↦ let same : leader ≡ node.block.slot_leader = ground (arith, h, e) in cc
      | inr (c, e) ↦ absurd (ground (arith, h, e))
    ]

-- The deadline for renewals, and the accounts from before it, which records of the block renew.
abbrev pub MakesRenewals :
    ℤ → ChainNode → Buffer → Reader → Ouroboros → Option BlockChainConfig → Checkpoint → Type 0
MakesRenewals local node bank l o config checkpoint =
    (bound : ℕ) × (calculate_max_block_id_for_renewal local l o config checkpoint node.block.index
      ≡ ok bound)
    × All (IsRenewedBy decode node.block.records) (accounts_needing_renewal decode bound bank)

renewals_made :
    (local : ℤ) (node : ChainNode) (l : Reader) (o : Ouroboros) (bank : Buffer)
    (config : Option BlockChainConfig) (checkpoint : Checkpoint)
    → validate_account_renewals decode local node bank l o config checkpoint ≡ done
    → MakesRenewals local node bank l o config checkpoint
unfolding validate_account_renewals
renewals_made local node l o bank config checkpoint h =
    elim (Roe-cases
      (calculate_max_block_id_for_renewal local l o config checkpoint node.block.index)) [
        | inl (bound, e) ↦ (
          bound,
          e,
          scan_renewals_complete decode bound bank node.block.records
              (accounts_needing_renewal decode bound bank) (ground (arith, h, e)),
        )
        | inr (c, e) ↦ absurd (ground (arith, h, e))
      ]

module _ (digest sha256 : Bytes → Bytes) (serialize : Block → Bytes) where
  -- A block after the ledger's first one passes `validateNormalBlock` in strict mode only if its hash is
  -- that of its content; its index is not beyond the next one, and index, first transaction's number
  -- and previous hash continue the block before it; its slot leader is the one that the consensus
  -- selects; its time lies in its slot, the end not included; every account from before the deadline
  -- for renewals is renewed or ended by a record of the block; a chain configuration is set, and the
  -- block has at most its number of records, or only renewals, or that number is 0, for no limit; and
  -- no two of its records carry the same wallet and idempotent id.
  pub validate_normal_block_strict :
      (local : ℤ) (node : ChainNode) (l : Reader) (o : Ouroboros) (bank : Buffer)
      (config : Option BlockChainConfig) (checkpoint : Checkpoint)
      → l.starting_block_id < node.block.index
      → validate_normal_block digest sha256 serialize decode local node true l o bank config
          checkpoint
        ≡ done
      → (node.hash ≡ calculate_block_hash sha256 serialize node.block)
        × ((node.block.index ≤ l.next_block_id)
            × ((prev : ChainNode) × (l.read_block (node.block.index - 1) ≡ ok prev)
                × IsLinked prev node))
        × (get_slot_leader digest node.block.slot o ≡ ok node.block.slot_leader)
        × ((get_slot_start_time node.block.slot o ≤ℤ node.block.timestamp)
            × (node.block.timestamp <ℤ get_slot_end_time node.block.slot o))
        × MakesRenewals local node bank l o config checkpoint
        × ((c : BlockChainConfig) × (config ≡ some c)
            × ((c.max_transactions_per_block ≡ 0)
                ⊎ ((length node.block.records ≤ c.max_transactions_per_block)
                    ⊎ All IsRenewal node.block.records)))
        × Distinct (carried_keys node.block.records)
  unfolding validate_normal_block validate_consensus
  validate_normal_block_strict local node l o bank none checkpoint after h =
      absurd (ground (arith, h))
  validate_normal_block_strict local node l o bank (some c) checkpoint after h =
      let leader : is_slot_leader digest node.block.slot node.block.slot_leader o ≡ true =
        ground (arith, h) in
      (
        sym (
            eqb_list_sound (calculate_block_hash sha256 serialize node.block) node.hash
              (ground (arith, h))),
        (validate_block_sequence_iff l node after).0 (ground (arith, h)),
        get_slot_leader_of_check digest node o leader,
        in_slot node o (ground (arith, h)),
        renewals_made local node l o bank (some c) checkpoint (ground (arith, h)),
        (c, refl, validate_block_size_sound c.max_transactions_per_block node (ground (arith, h))),
        (validate_intra_block_idempotency_iff node).0 (ground (arith, h)),
      )
