-- ===== src/Chain/Handlers/Renewal.antt =====
-- chain/RenewalTxHandler.cpp: the renewal of a user account is an update of it, the renewal of the genesis
-- account replaces its wallet.
use pp_ledger.Base.{ℕ, Bool, true, not, none, some, ltb, leb, ◌==◌, if◌then◌else◌, length, pos}
use pp_ledger.Base.Roe.{Roe, ok, err, Done, done, Action, require, ◌then_check◌}
use pp_ledger.Ledger.{TypedTx, tx_renewal, TxRenewal, TxUserUpdate}
use pp_ledger.Chain.Types.{
  GenesisAccountMeta, BlockChainConfig, e_internal, e_tx_validation, e_account_not_found,
  e_internal_deserialize,
}
use pp_ledger.Chain.Packing.{user_account_from_string, genesis_meta_from_string}
use pp_ledger.Chain.AccountBuffer.{
  Buffer, id_genesis, id_fee, seed_from_committed_if_missing, get_account, verify_balance,
}
use pp_ledger.Chain.Handlers.Context.{TxContext, validate_fee}
use pp_ledger.Chain.Handlers.Default.{◌then_on◌}
use pp_ledger.Chain.Handlers.Upsert.{
  replace_account, apply_user_update_block_common, apply_user_update_buffer_common,
}

-- renewalToUserUpsert
unfoldable pub renewal_to_user_upsert : TxRenewal → TxUserUpdate
renewal_to_user_upsert t = record {
  wallet_id = t.wallet_id;
  fee = t.fee;
  meta = t.meta;
  window = record { idempotent_id = 0; validation_ts_min = pos 0; validation_ts_max = pos 0 };
}

-- getBillableCustomMetaSizeForFee
unfoldable pub renewal_billable_size : BlockChainConfig → TypedTx → Roe ℕ
renewal_billable_size config tx = elim tx [
  | tx_renewal t ↦
      if leb (length t.meta) config.free_custom_meta_size
      then ok 0
      else if t.wallet_id == id_genesis
      then elim (genesis_meta_from_string t.meta) [
        | none ↦ err e_internal_deserialize
        | some gm ↦ ok (length gm.genesis.meta)
      ]
      else elim (user_account_from_string t.meta) [
        | none ↦ err e_internal_deserialize
        | some user ↦ ok (length user.meta)
      ]
  | _ ↦ err e_internal
]

unfoldable pub validate_genesis_keys : GenesisAccountMeta → Done
validate_genesis_keys gm =
    require (not (ltb (length gm.genesis.wallet.public_keys) 3)) e_tx_validation
    then_check require (not (ltb gm.genesis.wallet.min_signatures 2)) e_tx_validation

unfoldable pub apply_renewal : TxRenewal → TxContext → ℕ → Bool → Action Buffer (Unit {0})
unfolding validate_genesis_keys
apply_renewal t ctx block_id is_strict b =
    if not (t.wallet_id == id_genesis)
    then (err e_tx_validation, b)
    else elim (genesis_meta_from_string t.meta) [
      | none ↦ (err e_internal_deserialize, b)
      | some gm ↦
          elim (validate_genesis_keys gm
            then_check (if is_strict then validate_fee ctx (tx_renewal t) t.fee else done)) [
              | err e ↦ (err e, b)
              | ok _ ↦ elim (get_account id_genesis b) [
                | err _ ↦ if is_strict then (err e_account_not_found, b) else (done, b)
                | ok _ ↦ elim (verify_balance id_genesis 0 t.fee gm.genesis.wallet.balances b) [
                  | err _ ↦ (err e_tx_validation, b)
                  | ok _ ↦
                      replace_account
                        (record {
                          id = id_genesis;
                          wallet = gm.genesis.wallet;
                          block_id = block_id;
                        })
                        t.fee b
                ]
              ]
            ]
    ]

module _ (is_supported : ℕ → Bool) where
  unfoldable pub apply_block_renewal : TypedTx → TxContext → ℕ → ℕ → Bool → Action Buffer (Unit {0})
  unfolding apply_renewal renewal_to_user_upsert
  apply_block_renewal tx ctx block_id slot is_strict b = elim tx [
    | tx_renewal t ↦
        if t.wallet_id == id_genesis
        then apply_renewal t ctx block_id is_strict b
        else apply_user_update_block_common is_supported (renewal_to_user_upsert t) ctx block_id
            slot is_strict b
    | _ ↦ (err e_internal, b)
  ]

  unfoldable pub apply_buffer_renewal :
      TypedTx → TxContext → ℕ → ℕ → Bool → Action Buffer (Unit {0})
  unfolding apply_renewal renewal_to_user_upsert
  apply_buffer_renewal tx ctx block_id slot is_strict b = elim tx [
    | tx_renewal t ↦
        if t.wallet_id == id_genesis
        then (seed_from_committed_if_missing ctx.bank id_genesis b
            then_on (λ b'.
                if ltb 0 t.fee
                then seed_from_committed_if_missing ctx.bank id_fee b'
                else (done, b'))
            then_on apply_renewal t ctx block_id true)
        else apply_user_update_buffer_common is_supported (renewal_to_user_upsert t) ctx block_id
            slot is_strict b
    | _ ↦ (err e_internal, b)
  ]
