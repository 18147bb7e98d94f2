-- ===== src/Chain/LedgerMeta.antt =====
-- The metadata of an account in a block of the ledger (chain/TxLedgerMeta.cpp), and the minimum fee that
-- it sets (calculateMinimumFeeForAccountMeta of chain/TxFees.cpp).
use pp_ledger.Base.{
  ℕ, ◌-◌, List, [], ◌∷◌, Option, none, some, length, ltb, ◌==◌, if◌then◌else◌, ltb_ℤ,
}
use pp_ledger.Base.Word.{to_i64, add_i64, sub_i64, i64_min}
use pp_ledger.Base.Roe.{Roe, ok, err}
use pp_ledger.Map.{lookup, insert}
use pp_ledger.Ledger.{Bytes, Record, Block, Reader}
use pp_ledger.Chain.Types.{
  Wallet, UserAccount, GenesisAccountMeta, BlockChainConfig, e_internal, e_internal_deserialize,
  e_tx_validation, e_account_balance, e_account_not_found, e_block_not_found,
}
use pp_ledger.Chain.Packing.{
  user_account_to_string, user_account_from_string, genesis_meta_to_string,
  genesis_meta_from_string,
}
use pp_ledger.Chain.AccountBuffer.{Account, Buffer, id_genesis, id_fee, get_account}
use pp_ledger.Chain.TxFees.{minimum_fee_from_non_free_meta_size}

-- The first answer from the last record back
unfoldable pub last_meta : (Record → Option Bytes) → List Record → Option Bytes
last_meta meta_of [] = none
last_meta meta_of (rec ∷ records) = elim (last_meta meta_of records) [
  | some meta ↦ some meta
  | none ↦ meta_of rec
]

unfoldable pub get_user_account_meta_from_block :
    Block → ℕ → (Record → ℕ → Option Bytes) → Roe UserAccount
unfolding last_meta
get_user_account_meta_from_block block id fn_user =
    elim (last_meta (λ rec. fn_user rec id) block.records) [
      | none ↦ err e_internal
      | some meta ↦ elim (user_account_from_string meta) [
        | none ↦ err e_internal_deserialize
        | some user ↦ ok user
      ]
    ]

unfoldable pub get_genesis_account_meta_from_block :
    Block → (Record → Block → Option Bytes) → Roe GenesisAccountMeta
unfolding last_meta
get_genesis_account_meta_from_block block fn_genesis =
    elim (last_meta (λ rec. fn_genesis rec block) block.records) [
      | none ↦ err e_internal
      | some meta ↦ elim (genesis_meta_from_string meta) [
        | none ↦ err e_internal_deserialize
        | some gm ↦ ok gm
      ]
    ]

-- The wallet of the genesis account after a fee, where it has a native balance
unfoldable pub genesis_wallet_after_fee : ℕ → Wallet → Roe Wallet
genesis_wallet_after_fee min_fee w = elim (lookup id_genesis w.balances) [
  | none ↦ ok w
  | some v ↦
      let fee = to_i64 min_fee in
      if ltb_ℤ v (add_i64 i64_min fee)
      then err e_tx_validation
      else ok (record w { balances = insert id_genesis (sub_i64 v fee) w.balances })
]

-- The wallet of another account after a fee, which the fee account pays to itself
unfoldable pub user_wallet_after_fee : ℕ → ℕ → Wallet → Roe Wallet
user_wallet_after_fee id min_fee w = elim (lookup id_genesis w.balances) [
  | none ↦ ok w
  | some v ↦
      let fee = to_i64 min_fee in
      if id == id_fee
      then (if ltb_ℤ v (add_i64 i64_min fee) then err e_tx_validation else ok w)
      else if ltb_ℤ v fee
      then err e_account_balance
      else ok (record w { balances = insert id_genesis (sub_i64 v fee) w.balances })
]

unfoldable pub get_updated_account_metadata_for_renewal :
    Block → Account → ℕ → (Record → ℕ → Option Bytes) → (Record → Block → Option Bytes) → Roe Bytes
unfolding genesis_wallet_after_fee user_wallet_after_fee get_user_account_meta_from_block
    get_genesis_account_meta_from_block
get_updated_account_metadata_for_renewal block account min_fee fn_user fn_genesis =
    if account.id == id_genesis
    then elim (get_genesis_account_meta_from_block block fn_genesis) [
      | err e ↦ err e
      | ok gm ↦ elim (genesis_wallet_after_fee min_fee account.wallet) [
        | err e ↦ err e
        | ok w ↦
            ok (genesis_meta_to_string (record gm { genesis = record gm.genesis { wallet = w } }))
      ]
    ]
    else elim (get_user_account_meta_from_block block account.id fn_user) [
      | err e ↦ err e
      | ok user ↦ elim (user_wallet_after_fee account.id min_fee account.wallet) [
        | err e ↦ err e
        | ok w ↦ ok (user_account_to_string (record user { wallet = w }))
      ]
    ]

-- The size of the metadata of an account in its block
unfoldable pub account_meta_size :
    Block → ℕ → (Record → ℕ → Option Bytes) → (Record → Block → Option Bytes) → Roe ℕ
unfolding get_user_account_meta_from_block get_genesis_account_meta_from_block
account_meta_size block id fn_user fn_genesis =
    if id == id_genesis
    then elim (get_genesis_account_meta_from_block block fn_genesis) [
      | err e ↦ err e
      | ok gm ↦ ok (length gm.genesis.meta)
    ]
    else elim (get_user_account_meta_from_block block id fn_user) [
      | err e ↦ err e
      | ok user ↦ ok (length user.meta)
    ]

unfoldable pub calculate_minimum_fee_for_account_meta :
    Reader
    → BlockChainConfig
    → Buffer
    → ℕ
    → (Record → ℕ → Option Bytes)
    → (Record → Block → Option Bytes)
    → Roe ℕ
unfolding account_meta_size
calculate_minimum_fee_for_account_meta ledger config bank id fn_user fn_genesis =
    elim (get_account id bank) [
      | err _ ↦ err e_account_not_found
      | ok a ↦ elim (ledger.read_block a.block_id) [
        | err _ ↦ err e_block_not_found
        | ok node ↦ elim (account_meta_size node.block id fn_user fn_genesis) [
          | err e ↦ err e
          | ok size ↦
              if ltb config.max_custom_meta_size size
              then err e_tx_validation
              else minimum_fee_from_non_free_meta_size config (
                  if ltb config.free_custom_meta_size size
                  then size - config.free_custom_meta_size
                  else 0)
        ]
      ]
    ]
