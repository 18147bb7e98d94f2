-- ===== src/Chain/BlockValidation/Genesis.antt =====
-- validateGenesisBlock of chain/BlockValidation.cpp. The unpacking of the transactions and of the
-- genesis metadata is a parameter, as is the size that a fee is charged for.
use Prim.Native.Nat.{◌^◌}
use pp_ledger.Base.{
  ℕ, ◌-◌, ◌≡◌, refl, Bool, ◌&&◌, ◌||◌, not, List, [], ◌∷◌, Option, none, some, arith, ltb, ◌==◌,
  if◌then◌else◌, length, eqb_list, eqb_list_sound, Option-cases, Bool-cases, inl, inr,
}
use pp_ledger.Base.Word.{add_u64}
use pp_ledger.Base.Roe.{Roe, ok, err, Done, done, Roe-cases, require, ◌then_check◌}
use pp_ledger.Ledger.{Bytes, TypedTx, tx_new_user, TxGenesis, TxNewUser, Record, Block, ChainNode}
use pp_ledger.Chain.Types.{BlockChainConfig, e_block_genesis, e_block_hash}
use pp_ledger.Chain.AccountBuffer.{id_genesis, id_fee, id_reserve, id_recycle, initial_token_supply}
use pp_ledger.Chain.TxFees.{calculate_minimum_fee}

abbrev pub Unpack : Type 0 → Type 0
Unpack A = Bytes → Option A

-- std::string("0")
abbrev pub zero_string : Bytes
zero_string = 48 ∷ []

abbrev pub exceeds_i64 : ℕ → Bool
exceeds_i64 n = ltb (2 ^ 63 - 1) n

-- The checks on the fields of the block itself.
unfoldable pub validate_genesis_header : Block → Done
validate_genesis_header b =
    require (b.index == 0) e_block_genesis
    then_check require (eqb_list b.previous_hash zero_string) e_block_genesis
    then_check require (b.nonce == 0) e_block_genesis
    then_check require (b.slot == 0) e_block_genesis
    then_check require (b.slot_leader == 0) e_block_genesis
    then_check require (b.tx_index == 0) e_block_genesis
    then_check require (length b.records == 4) e_block_genesis

-- minerTx.amount + feeWalletFeeSigned + minerFeeSigned + recycleFeeSigned, in uint64_t
unfoldable pub genesis_total : TxNewUser → TxNewUser → TxNewUser → ℕ
genesis_total fee_tx miner recycle =
    add_u64 (add_u64 (add_u64 miner.amount fee_tx.fee) miner.fee) recycle.fee

module _ (billable : BlockChainConfig → TypedTx → Roe ℕ) where
  -- What a transaction of the genesis block must pay, to be compared with what it pays.
  abbrev pub expected_fee : BlockChainConfig → TxNewUser → Roe ℕ
  expected_fee config t = calculate_minimum_fee config (tx_new_user t) billable

  unfoldable pub validate_genesis_fee : BlockChainConfig → TxNewUser → Done
  validate_genesis_fee config t = elim (expected_fee config t) [
    | err e ↦ err e
    | ok fee ↦ require (t.fee == fee) e_block_genesis
  ]

  unfoldable pub validate_fee_account : BlockChainConfig → TxNewUser → Done
  unfolding validate_genesis_fee
  validate_fee_account config t =
      require (t.from_wallet_id == id_genesis && t.to_wallet_id == id_fee) e_block_genesis
      then_check require (t.amount == 0) e_block_genesis
      then_check validate_genesis_fee config t
      then_check require (not (length t.meta == 0)) e_block_genesis

  unfoldable pub validate_reserve_account : BlockChainConfig → TxNewUser → Done
  unfolding validate_genesis_fee
  validate_reserve_account config t =
      require (t.from_wallet_id == id_genesis && t.to_wallet_id == id_reserve) e_block_genesis
      then_check validate_genesis_fee config t

  -- The last transaction, with the sum over all of them, which comes before its own checks.
  unfoldable pub validate_recycle_account :
      BlockChainConfig → TxNewUser → TxNewUser → TxNewUser → Done
  unfolding genesis_total
  validate_recycle_account config fee_tx miner t = elim (expected_fee config t) [
    | err e ↦ err e
    | ok fee ↦
        require (not (exceeds_i64 miner.fee || exceeds_i64 t.fee)) e_block_genesis
        then_check require (not (exceeds_i64 fee_tx.fee)) e_block_genesis
        then_check require (genesis_total fee_tx miner t == initial_token_supply) e_block_genesis
        then_check require (t.from_wallet_id == id_genesis && t.to_wallet_id == id_recycle)
            e_block_genesis
        then_check require (t.amount == 0) e_block_genesis
        then_check require (t.fee == fee) e_block_genesis
        then_check require (not (length t.meta == 0)) e_block_genesis
  ]

  module _ (unpack_genesis : Unpack TxGenesis) (unpack_new_user : Unpack TxNewUser)
      (config_of_meta : Unpack BlockChainConfig) where
    -- A record of the given type that can be unpacked.
    unfoldable pub unpack_as : {A : Type 0} → ℕ → Unpack A → Record → Option A
    unpack_as type unpack rec = if rec.type == type then unpack rec.payload else none

    unfoldable pub validate_genesis_records : List Record → Done
    unfolding unpack_as validate_fee_account validate_reserve_account validate_recycle_account
    validate_genesis_records (r0 ∷ r1 ∷ r2 ∷ r3 ∷ []) = elim (unpack_as 1 unpack_genesis r0) [
      | none ↦ err e_block_genesis
      | some checkpoint_tx ↦ elim (config_of_meta checkpoint_tx.meta) [
        | none ↦ err e_block_genesis
        | some config ↦ elim (unpack_as 2 unpack_new_user r1) [
          | none ↦ err e_block_genesis
          | some fee_tx ↦
              validate_fee_account config fee_tx then_check elim (unpack_as 2 unpack_new_user r2) [
                | none ↦ err e_block_genesis
                | some miner ↦
                    validate_reserve_account config miner
                    then_check elim (unpack_as 2 unpack_new_user r3) [
                      | none ↦ err e_block_genesis
                      | some recycle ↦ validate_recycle_account config fee_tx miner recycle
                    ]
              ]
        ]
      ]
    ]
    validate_genesis_records _ = err e_block_genesis

    unfoldable pub validate_genesis_block : (Block → Bytes) → ChainNode → Done
    unfolding validate_genesis_header validate_genesis_records
    validate_genesis_block hash_of node =
        validate_genesis_header node.block
        then_check validate_genesis_records node.block.records
        then_check require (eqb_list (hash_of node.block) node.hash) e_block_hash

    -- The records by their types, the transactions that they hold, and what these move and pay.
    abbrev pub IsGenesis : List Record → Type 0
    IsGenesis recs =
        (r0 : Record) × (r1 : Record) × (r2 : Record) × (r3 : Record) × (first : TxGenesis)
        × (config : BlockChainConfig) × (fee_tx : TxNewUser) × (miner : TxNewUser)
        × (recycle : TxNewUser) × (recs ≡ r0 ∷ r1 ∷ r2 ∷ r3 ∷ [])
        × ((r0.type ≡ 1) × (r1.type ≡ 2) × (r2.type ≡ 2) × (r3.type ≡ 2))
        × ((unpack_genesis r0.payload ≡ some first) × (config_of_meta first.meta ≡ some config))
        × (unpack_new_user r1.payload ≡ some fee_tx)
        × (unpack_new_user r2.payload ≡ some miner)
        × (unpack_new_user r3.payload ≡ some recycle)
        × ((fee_tx.from_wallet_id ≡ id_genesis)
            × (fee_tx.to_wallet_id ≡ id_fee)
            × (fee_tx.amount ≡ 0))
        × ((miner.from_wallet_id ≡ id_genesis) × (miner.to_wallet_id ≡ id_reserve))
        × ((recycle.from_wallet_id ≡ id_genesis)
            × (recycle.to_wallet_id ≡ id_recycle)
            × (recycle.amount ≡ 0))
        × ((expected_fee config fee_tx ≡ ok fee_tx.fee)
            × (expected_fee config miner ≡ ok miner.fee)
            × (expected_fee config recycle ≡ ok recycle.fee))
        × (genesis_total fee_tx miner recycle ≡ initial_token_supply)

    unpack_as_sound :
        {A : Type 0} (type : ℕ) (unpack : Unpack A) (rec : Record) (t : A)
        → unpack_as type unpack rec ≡ some t
        → (rec.type ≡ type) × (unpack rec.payload ≡ some t)
    unfolding unpack_as
    unpack_as_sound type unpack rec t h = elim (Bool-cases (rec.type == type)) [
      | inl e ↦ (ground (arith, e), ground (arith, h, e))
      | inr e ↦ absurd (ground (arith, h, e))
    ]

    validate_genesis_fee_sound :
        (config : BlockChainConfig) (t : TxNewUser)
        → validate_genesis_fee config t ≡ done
        → expected_fee config t ≡ ok t.fee
    unfolding validate_genesis_fee
    validate_genesis_fee_sound config t h = elim (Roe-cases (expected_fee config t)) [
      | inl (fee, e) ↦ let same : t.fee ≡ fee = ground (arith, h, e) in cc
      | inr (c, e) ↦ absurd (ground (arith, h, e))
    ]

    recycle_fee_sound :
        (config : BlockChainConfig) (fee_tx miner t : TxNewUser)
        → validate_recycle_account config fee_tx miner t ≡ done
        → expected_fee config t ≡ ok t.fee
    unfolding validate_recycle_account
    recycle_fee_sound config fee_tx miner t h = elim (Roe-cases (expected_fee config t)) [
      | inl (fee, e) ↦ let same : t.fee ≡ fee = ground (arith, h, e) in cc
      | inr (c, e) ↦ absurd (ground (arith, h, e))
    ]

    validate_genesis_records_sound :
        (recs : List Record) → validate_genesis_records recs ≡ done → IsGenesis recs
    unfolding validate_genesis_records validate_fee_account validate_reserve_account
        validate_recycle_account
    validate_genesis_records_sound [] h = absurd (ground (arith, h))
    validate_genesis_records_sound (r0 ∷ []) h = absurd (ground (arith, h))
    validate_genesis_records_sound (r0 ∷ r1 ∷ []) h = absurd (ground (arith, h))
    validate_genesis_records_sound (r0 ∷ r1 ∷ r2 ∷ []) h = absurd (ground (arith, h))
    validate_genesis_records_sound (r0 ∷ r1 ∷ r2 ∷ r3 ∷ r4 ∷ rest) h = absurd (ground (arith, h))
    validate_genesis_records_sound (r0 ∷ r1 ∷ r2 ∷ r3 ∷ []) h =
        elim (Option-cases (unpack_as 1 unpack_genesis r0)) [
          | inl e ↦ absurd (ground (arith, h, e))
          | inr (ct, e0) ↦ elim (Option-cases (config_of_meta ct.meta)) [
            | inl e ↦ absurd (ground (arith, h, e0, e))
            | inr (config, ec) ↦ elim (Option-cases (unpack_as 2 unpack_new_user r1)) [
              | inl e ↦ absurd (ground (arith, h, e0, ec, e))
              | inr (fee_tx, e1) ↦ elim (Option-cases (unpack_as 2 unpack_new_user r2)) [
                | inl e ↦ absurd (ground (arith, h, e0, ec, e1, e))
                | inr (miner, e2) ↦ elim (Option-cases (unpack_as 2 unpack_new_user r3)) [
                  | inl e ↦ absurd (ground (arith, h, e0, ec, e1, e2, e))
                  | inr (recycle, e3) ↦
                      let u0 = unpack_as_sound 1 unpack_genesis r0 ct e0 in
                      let u1 = unpack_as_sound 2 unpack_new_user r1 fee_tx e1 in
                      let u2 = unpack_as_sound 2 unpack_new_user r2 miner e2 in
                      let u3 = unpack_as_sound 2 unpack_new_user r3 recycle e3 in
                      let fee_ok : validate_fee_account config fee_tx ≡ done =
                        ground (arith, h, e0, ec, e1, e2, e3) in
                      let miner_ok : validate_reserve_account config miner ≡ done =
                        ground (arith, h, e0, ec, e1, e2, e3) in
                      let recycle_ok : validate_recycle_account config fee_tx miner recycle ≡ done =
                        ground (arith, h, e0, ec, e1, e2, e3) in
                      (
                        r0,
                        r1,
                        r2,
                        r3,
                        ct,
                        config,
                        fee_tx,
                        miner,
                        recycle,
                        refl,
                        (u0.0, u1.0, u2.0, u3.0),
                        (u0.1, ec),
                        u1.1,
                        u2.1,
                        u3.1,
                        (ground (arith, fee_ok), ground (arith, fee_ok), ground (arith, fee_ok)),
                        (ground (arith, miner_ok), ground (arith, miner_ok)),
                        (
                          ground (arith, recycle_ok),
                          ground (arith, recycle_ok),
                          ground (arith, recycle_ok),
                        ),
                        (
                          validate_genesis_fee_sound config fee_tx (ground (arith, fee_ok)),
                          validate_genesis_fee_sound config miner (ground (arith, miner_ok)),
                          recycle_fee_sound config fee_tx miner recycle recycle_ok,
                        ),
                        ground (arith, recycle_ok),
                      )
                ]
              ]
            ]
          ]
        ]

    -- An accepted genesis block has four records: one of type T_GENESIS, with the chain's
    -- configuration, and three of type T_NEW_USER, which move the initial supply out of the genesis
    -- account. The fee and the recycling account get the amount 0, the reserve the rest, and each pays
    -- the minimum fee of that configuration. The amount and the three fees add up to the supply, as a
    -- uint64_t sum. The block is the first, continues no other, and has the hash of its content.
    pub validate_genesis_block_sound :
        (hash_of : Block → Bytes) (node : ChainNode)
        → validate_genesis_block hash_of node ≡ done
        → IsGenesis node.block.records
          × (node.block.index ≡ 0)
          × (node.block.previous_hash ≡ zero_string)
          × (hash_of node.block ≡ node.hash)
    unfolding validate_genesis_block validate_genesis_header
    validate_genesis_block_sound hash_of node h = (
      validate_genesis_records_sound node.block.records (ground (arith, h)),
      ground (arith, h),
      eqb_list_sound node.block.previous_hash zero_string (ground (arith, h)),
      eqb_list_sound (hash_of node.block) node.hash (ground (arith, h)),
    )
