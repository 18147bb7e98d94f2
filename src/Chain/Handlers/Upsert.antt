-- ===== src/Chain/Handlers/Upsert.antt =====
-- chain/UserAccountUpsertBase.cpp and chain/UserUpdateTxHandler.cpp: the account of a user is replaced by
-- the one that the metadata of a transaction describes. The test for a key type (Crypto::isSupported)
-- is a parameter.
use pp_ledger.Base.{ℕ, Bool, true, ◌&&◌, not, none, some, ltb, ◌==◌, if◌then◌else◌, length}
use pp_ledger.Base.Word.{to_i64}
use pp_ledger.Base.Roe.{ok, err, Done, done, Action, require, ◌then_check◌}
use pp_ledger.Ledger.{TypedTx, tx_user_update, TxUserUpdate}
use pp_ledger.Chain.Types.{
  UserAccount, e_internal, e_tx_transfer, e_tx_validation, e_account_not_found,
  e_internal_deserialize, e_internal_buffer,
}
use pp_ledger.Chain.Packing.{user_account_from_string}
use pp_ledger.Chain.AccountBuffer.{
  Account, Buffer, id_genesis, id_fee, has_account, seed_from_committed_if_missing, get_account,
  add, remove, verify_balance, deposit_balance,
}
use pp_ledger.Chain.Handlers.Context.{TxContext, validate_idempotency_using_context, validate_fee}
use pp_ledger.Chain.Handlers.Default.{recode, ◌then_on◌}

-- The fee goes to the fee account, where there is one.
unfoldable pub deposit_fee : ℕ → Action Buffer (Unit {0})
deposit_fee fee b =
    if ltb 0 fee && has_account id_fee b
    then recode e_tx_transfer (deposit_balance id_fee id_genesis (to_i64 fee) b)
    else (done, b)

-- `remove`, `add` and the fee, which the genesis renewal does alike
unfoldable pub replace_account : Account → ℕ → Action Buffer (Unit {0})
unfolding deposit_fee
replace_account a fee b = recode e_internal_buffer (add a (remove a.id b)) then_on deposit_fee fee

unfoldable pub validate_upsert_wallet : (ℕ → Bool) → UserAccount → Done
validate_upsert_wallet is_supported user =
    require (is_supported user.wallet.key_type) e_tx_validation
    then_check require (not (length user.wallet.public_keys == 0)) e_tx_validation
    then_check require (not (ltb user.wallet.min_signatures 1)) e_tx_validation

-- An account that is missing is an error in strict mode alone; one that is there must have the
-- balances of the metadata, but for the fee.
unfoldable pub validate_upsert_balance : TxUserUpdate → UserAccount → Bool → Buffer → Done
validate_upsert_balance tx user is_strict b = elim (get_account tx.wallet_id b) [
  | err _ ↦ if is_strict then err e_account_not_found else done
  | ok _ ↦ elim (verify_balance tx.wallet_id 0 tx.fee user.wallet.balances b) [
    | err _ ↦ err e_tx_validation
    | ok _ ↦ done
  ]
]

module _ (is_supported : ℕ → Bool) where
  unfoldable pub apply_user_account_upsert :
      TxUserUpdate → TxContext → ℕ → Bool → Action Buffer (Unit {0})
  unfolding replace_account validate_upsert_wallet validate_upsert_balance
  apply_user_account_upsert tx ctx block_id is_strict b =
      elim (if is_strict then validate_fee ctx (tx_user_update tx) tx.fee else done) [
        | err e ↦ (err e, b)
        | ok _ ↦ elim (user_account_from_string tx.meta) [
          | none ↦ (err e_internal_deserialize, b)
          | some user ↦
              elim (validate_upsert_wallet is_supported user
                then_check validate_upsert_balance tx user is_strict b) [
                  | err e ↦ (err e, b)
                  | ok _ ↦
                      replace_account
                        (record { id = tx.wallet_id; wallet = user.wallet; block_id = block_id })
                        tx.fee b
                ]
        ]
      ]

  unfoldable pub apply_user_update_block_common :
      TxUserUpdate → TxContext → ℕ → ℕ → Bool → Action Buffer (Unit {0})
  unfolding apply_user_account_upsert
  apply_user_update_block_common tx ctx block_id slot is_strict b =
      (
        validate_idempotency_using_context ctx tx.idempotent_id tx.wallet_id tx.validation_ts_min
            tx.validation_ts_max slot is_strict,
        b,
      )
      then_on apply_user_account_upsert tx ctx block_id is_strict

  -- The buffer path checks the fee in every mode.
  unfoldable pub apply_user_update_buffer_common :
      TxUserUpdate → TxContext → ℕ → ℕ → Bool → Action Buffer (Unit {0})
  unfolding apply_user_account_upsert
  apply_user_update_buffer_common tx ctx block_id slot is_strict b =
      (
        validate_idempotency_using_context ctx tx.idempotent_id tx.wallet_id tx.validation_ts_min
            tx.validation_ts_max slot is_strict,
        b,
      )
      then_on seed_from_committed_if_missing ctx.bank tx.wallet_id
      then_on (λ b'.
          if ltb 0 tx.fee && not (tx.wallet_id == id_fee)
          then seed_from_committed_if_missing ctx.bank id_fee b'
          else (done, b'))
      then_on apply_user_account_upsert tx ctx block_id true

  -- UserUpdateTxHandler::applyBlock and applyBuffer
  unfoldable pub apply_block_user_update :
      TypedTx → TxContext → ℕ → ℕ → Bool → Action Buffer (Unit {0})
  unfolding apply_user_update_block_common
  apply_block_user_update tx ctx block_id slot is_strict b = elim tx [
    | tx_user_update t ↦ apply_user_update_block_common t ctx block_id slot is_strict b
    | _ ↦ (err e_internal, b)
  ]

  unfoldable pub apply_buffer_user_update :
      TypedTx → TxContext → ℕ → ℕ → Bool → Action Buffer (Unit {0})
  unfolding apply_user_update_buffer_common
  apply_buffer_user_update tx ctx block_id slot is_strict b = elim tx [
    | tx_user_update t ↦ apply_user_update_buffer_common t ctx block_id slot is_strict b
    | _ ↦ (err e_internal, b)
  ]
