-- ===== src/Chain/BlockValidation/Defs.antt =====
-- The functions of chain/BlockValidation.cpp for blocks after the first.
use Prim.Native.Nat.{min}
use pp_ledger.Base.{
  ℕ, ◌-◌, Bool, false, ◌&&◌, ◌||◌, not, List, [], ◌∷◌, Option, none, some, ltb, leb, ◌==◌,
  if◌then◌else◌, length, member, eqb_list, ℤ, ltb_ℤ,
}
use pp_ledger.Base.Word.{to_u64, to_i64, add_u64, sub_i64}
use pp_ledger.Base.Roe.{Roe, ok, err, Done, done, require, ◌then_check◌}
use pp_ledger.Consensus.Ouroboros.{
  Ouroboros, get_timestamp, get_slot_start_time, get_slot_end_time, is_slot_leader,
  validate_slot_leader, validate_block_timing,
}
use pp_ledger.Ledger.{Bytes, TypedTx, Record, Block, ChainNode, Reader}
use pp_ledger.Chain.Types.{
  BlockChainConfig, Checkpoint, e_block_not_found, e_block_hash, e_block_index, e_block_validation,
  e_consensus_slot_leader, e_consensus_timing, e_account_renewal, e_tx_idempotency, e_internal,
}
use pp_ledger.Chain.AccountBuffer.{Buffer, get_account, account_ids_before_block_id}
use pp_ledger.Chain.RecordHandler.{
  Key, num_tx_types, handler_of, get_idempotency_key, get_renewal_account_id_if_any,
  participates_in_account_renewal_validation, is_renewal_tx,
}

-- What follows the bounds on the index, when the block is not the ledger's first one.
unfoldable pub validate_link : ChainNode → ChainNode → Done
validate_link prev node =
    if not (node.block.index == add_u64 prev.block.index 1)
    then err e_block_index
    else (if not (eqb_list node.block.previous_hash prev.hash)
        then err e_block_hash
        else (if not
              (node.block.tx_index == add_u64 prev.block.tx_index (length prev.block.records))
            then err e_block_index
            else done))

unfoldable pub validate_block_sequence : Reader → ChainNode → Done
validate_block_sequence l node =
    if ltb node.block.index l.starting_block_id
    then err e_block_index
    else (if ltb l.next_block_id node.block.index
        then err e_block_index
        else (if ltb l.starting_block_id node.block.index
            then elim (l.read_block (node.block.index - 1)) [
              | err _ ↦ err e_block_not_found
              | ok prev ↦ validate_link prev node
            ]
            else done))

unfoldable pub get_block_age_seconds : ℤ → ℕ → Reader → Ouroboros → ℕ
get_block_age_seconds local id l consensus = elim (l.read_block id) [
  | err _ ↦ 0
  | ok node ↦
      let now = get_timestamp local consensus in
      if ltb_ℤ node.block.timestamp now then to_u64 (sub_i64 now node.block.timestamp) else 0
]

unfoldable pub needs_checkpoint : BlockChainConfig → Checkpoint → ℕ → ℕ → Bool
needs_checkpoint config checkpoint next_block_id age =
    let required =
      add_u64 (add_u64 checkpoint.current_id config.checkpoint.min_blocks) config.slots_per_epoch in
    not (ltb next_block_id required) && not (ltb age config.checkpoint.min_age_seconds)

-- The last block that is old enough, as the clock sees it.
unfoldable pub max_block_id_from_time : ℤ → Reader → Ouroboros → ℕ → ℕ → ℕ
max_block_id_from_time local l consensus min_age at_block =
    if ltb 0 min_age && ltb 0 at_block
    then elim (l.find_block_by_timestamp
        (sub_i64 (get_timestamp local consensus) (to_i64 min_age))) [
          | ok node ↦ node.block.index
          | err _ ↦ at_block
        ]
    else at_block

unfoldable pub calculate_max_block_id_for_renewal :
    ℤ → Reader → Ouroboros → Option BlockChainConfig → Checkpoint → ℕ → Roe ℕ
unfolding max_block_id_from_time
calculate_max_block_id_for_renewal local l consensus config checkpoint at_block = elim config [
  | none ↦ if ltb checkpoint.last_id checkpoint.current_id then err e_internal else ok 0
  | some c ↦
      if ltb at_block c.checkpoint.min_blocks
      then ok 0
      else (let from_blocks = add_u64 (at_block - c.checkpoint.min_blocks) 1 in
          let from_time =
            max_block_id_from_time local l consensus c.checkpoint.min_age_seconds at_block in
          let bound = min from_blocks from_time in
          if bound == 0 || leb at_block bound then ok 0 else ok bound)
]

abbrev pub member_key : Key → List Key → Bool
member_key k [] = false
member_key k (x ∷ xs) = (x.0 == k.0 && x.1 == k.1) || member_key k xs

-- The account that a record renews, with the checks on it: the last block for a renewal is `bound`.
unfoldable pub renewal_account : ℕ → Buffer → ℕ → Roe (Option ℕ)
renewal_account bound bank id = elim (get_account id bank) [
  | err _ ↦ err e_account_renewal
  | ok a ↦ if ltb 0 bound && ltb bound a.block_id then err e_account_renewal else ok (some id)
]

unfoldable pub all_renewed : List ℕ → List ℕ → Done
all_renewed renewed [] = done
all_renewed renewed (id ∷ rest) =
    let more = all_renewed renewed rest in if member id renewed then more else err e_account_renewal

module _ (decode : Record → Roe TypedTx) where
  -- none for a record that takes no part in the rule
  unfoldable pub record_key : Record → Roe (Option Key)
  record_key rec = elim (decode rec) [
    | err _ ↦ ok none
    | ok tx ↦
        if leb num_tx_types rec.type
        then ok none
        else elim (handler_of rec.type) [ none ↦ ok none | some h ↦ get_idempotency_key h tx ]
  ]

  -- `seen` stands for the set of the keys of the records before.
  unfoldable pub scan_keys : List Key → List Record → Done
  scan_keys seen [] = done
  scan_keys seen (rec ∷ rest) = elim (record_key rec) [
    | err e ↦ err e
    | ok none ↦ scan_keys seen rest
    | ok (some k) ↦ if member_key k seen then err e_tx_idempotency else scan_keys (k ∷ seen) rest
  ]

  unfoldable pub validate_intra_block_idempotency : ChainNode → Done
  validate_intra_block_idempotency node = scan_keys [] node.block.records

  unfoldable pub record_renewal : ℕ → Buffer → Record → Roe (Option ℕ)
  record_renewal bound bank rec =
      if leb num_tx_types rec.type then ok none else elim (handler_of rec.type) [
        | none ↦ ok none
        | some h ↦ elim (decode rec) [
          | err _ ↦
              if participates_in_account_renewal_validation h
              then err e_account_renewal
              else ok none
          | ok tx ↦ elim (get_renewal_account_id_if_any h tx) [
            | err e ↦ err e
            | ok none ↦ ok none
            | ok (some id) ↦ renewal_account bound bank id
          ]
        ]
      ]

  -- The accounts that the records renew, `renewed` those of the records before.
  unfoldable pub scan_renewals : ℕ → Buffer → List ℕ → List Record → Roe (List ℕ)
  scan_renewals bound bank renewed [] = ok renewed
  scan_renewals bound bank renewed (rec ∷ rest) = elim (record_renewal bound bank rec) [
    | err e ↦ err e
    | ok none ↦ scan_renewals bound bank renewed rest
    | ok (some id) ↦ scan_renewals bound bank (id ∷ renewed) rest
  ]

  abbrev pub accounts_needing_renewal : ℕ → Buffer → List ℕ
  accounts_needing_renewal bound bank =
      if ltb 0 bound then account_ids_before_block_id bound bank else []

  unfoldable pub validate_account_renewals :
      ℤ → ChainNode → Buffer → Reader → Ouroboros → Option BlockChainConfig → Checkpoint → Done
  validate_account_renewals local node bank l consensus config checkpoint =
      elim (calculate_max_block_id_for_renewal local l consensus config checkpoint
        node.block.index) [
          | err e ↦ err e
          | ok bound ↦ elim (scan_renewals bound bank [] node.block.records) [
            | err e ↦ err e
            | ok renewed ↦ all_renewed renewed (accounts_needing_renewal bound bank)
          ]
        ]

-- Above the limit on its size a block holds renewals only.
unfoldable pub only_renewals : List Record → Done
only_renewals [] = done
only_renewals (rec ∷ rest) =
    let more = only_renewals rest in
    elim (if ltb rec.type num_tx_types then handler_of rec.type else none) [
      | none ↦ err e_block_validation
      | some h ↦ if is_renewal_tx h then more else err e_block_validation
    ]

unfoldable pub validate_block_size : ℕ → ChainNode → Done
validate_block_size max_tx node =
    if ltb 0 max_tx && ltb max_tx (length node.block.records)
    then only_renewals node.block.records
    else done

unfoldable pub is_valid_timestamp : Ouroboros → ChainNode → Bool
is_valid_timestamp consensus node = not (
    ltb_ℤ node.block.timestamp (get_slot_start_time node.block.slot consensus)
    || ltb_ℤ (get_slot_end_time node.block.slot consensus) node.block.timestamp)

unfoldable pub calculate_block_hash : (Bytes → Bytes) → (Block → Bytes) → Block → Bytes
calculate_block_hash sha256 serialize b = sha256 (serialize b)

unfoldable pub validate_consensus : (Bytes → Bytes) → ChainNode → Ouroboros → Done
validate_consensus digest node consensus =
    require (validate_slot_leader digest node.block.slot_leader node.block.slot consensus)
      e_consensus_slot_leader
    then_check require (validate_block_timing node.block.timestamp node.block.slot consensus)
        e_consensus_timing
    then_check require (is_slot_leader digest node.block.slot node.block.slot_leader consensus)
        e_consensus_slot_leader
    then_check require (is_valid_timestamp consensus node) e_consensus_timing

module _ (digest : Bytes → Bytes) (sha256 : Bytes → Bytes) (serialize : Block → Bytes)
    (decode : Record → Roe TypedTx) where
  unfoldable pub validate_normal_block :
      ℤ
      → ChainNode
      → Bool
      → Reader
      → Ouroboros
      → Buffer
      → Option BlockChainConfig
      → Checkpoint
      → Done
  validate_normal_block local node is_strict l consensus bank config checkpoint =
      require (eqb_list (calculate_block_hash sha256 serialize node.block) node.hash) e_block_hash
      then_check validate_block_sequence l node
      then_check (if is_strict
          then (validate_consensus digest node consensus
              then_check validate_account_renewals decode local node bank l consensus config
                  checkpoint
              then_check elim config [
                | none ↦ err e_internal
                | some c ↦ validate_block_size c.max_transactions_per_block node
              ]
              then_check validate_intra_block_idempotency decode node)
          else done)
