-- ===== src/Chain/RecordHandler.antt =====
-- chain/RecordHandler.cpp and the handlers that it dispatches to (chain/*TxHandler.cpp): of a
-- transaction its idempotency key, the account that it renews and the one that signs it. `decode` (Ledger::Record::decode)
-- is a parameter.
use pp_ledger.Base.{
  ℕ, ◌≡◌, ◌≢◌, ap, arith, Bool-cases, inl, inr, Bool, true, false, Option, none, some, ◌==◌,
  if◌then◌else◌,
}
use pp_ledger.Base.Roe.{Roe, ok, err}
use pp_ledger.Ledger.{
  Record, TypedTx, tx_default, tx_genesis, tx_new_user, tx_config, tx_user_update, tx_renewal,
  tx_end_user,
}
use pp_ledger.Chain.Types.{e_internal, e_invalid_argument, e_tx_signature}
use pp_ledger.Chain.AccountBuffer.{id_genesis}

-- The derived classes of ITxHandler, in the order of the T_… constants.
pub data TxHandler : Type 0 where
  default_handler : TxHandler
  genesis_handler : TxHandler
  new_user_handler : TxHandler
  config_handler : TxHandler
  user_update_handler : TxHandler
  renewal_handler : TxHandler
  end_user_handler : TxHandler

abbrev pub num_tx_types : ℕ
num_tx_types = 7

unfoldable pub handler_of : ℕ → Option TxHandler
handler_of type =
    if type == 0
    then some default_handler
    else (if type == 1
        then some genesis_handler
        else (if type == 2
            then some new_user_handler
            else (if type == 3
                then some config_handler
                else (if type == 4
                    then some user_update_handler
                    else (if type == 5
                        then some renewal_handler
                        else (if type == 6 then some end_user_handler else none))))))

abbrev pub Key : Type 0
Key = ℕ × ℕ

abbrev pub key_unless_zero : ℕ → ℕ → Roe (Option Key)
key_unless_zero wallet id = if id == 0 then ok none else ok (some (wallet, id))

unfoldable pub default_key : TypedTx → Roe (Option Key)
default_key tx = elim tx [
  | tx_default t ↦ key_unless_zero t.from_wallet_id t.idempotent_id
  | _ ↦ err e_internal
]

unfoldable pub new_user_key : TypedTx → Roe (Option Key)
new_user_key tx = elim tx [
  | tx_new_user t ↦ key_unless_zero t.from_wallet_id t.idempotent_id
  | _ ↦ err e_internal
]

unfoldable pub config_key : TypedTx → Roe (Option Key)
config_key tx = elim tx [
  | tx_config t ↦ key_unless_zero id_genesis t.idempotent_id
  | _ ↦ err e_internal
]

unfoldable pub user_update_key : TypedTx → Roe (Option Key)
user_update_key tx = elim tx [
  | tx_user_update t ↦ key_unless_zero t.wallet_id t.idempotent_id
  | _ ↦ err e_internal
]

-- Of the handlers that do not override it, the key is none.
unfoldable pub get_idempotency_key : TxHandler → TypedTx → Roe (Option Key)
unfolding default_key new_user_key config_key user_update_key
get_idempotency_key h tx = elim h [
  | default_handler ↦ default_key tx
  | new_user_handler ↦ new_user_key tx
  | config_handler ↦ config_key tx
  | user_update_handler ↦ user_update_key tx
  | _ ↦ ok none
]

unfoldable pub renewal_account_id : TypedTx → Roe (Option ℕ)
renewal_account_id tx = elim tx [ tx_renewal t ↦ ok (some t.wallet_id) | _ ↦ err e_internal ]

unfoldable pub end_user_account_id : TypedTx → Roe (Option ℕ)
end_user_account_id tx = elim tx [ tx_end_user t ↦ ok (some t.wallet_id) | _ ↦ err e_internal ]

unfoldable pub get_renewal_account_id_if_any : TxHandler → TypedTx → Roe (Option ℕ)
unfolding renewal_account_id end_user_account_id
get_renewal_account_id_if_any h tx = elim h [
  | renewal_handler ↦ renewal_account_id tx
  | end_user_handler ↦ end_user_account_id tx
  | _ ↦ ok none
]

unfoldable pub participates_in_account_renewal_validation : TxHandler → Bool
participates_in_account_renewal_validation h = elim h [
  | renewal_handler ↦ true
  | end_user_handler ↦ true
  | _ ↦ false
]

unfoldable pub is_renewal_tx : TxHandler → Bool
is_renewal_tx h = elim h [ renewal_handler ↦ true | _ ↦ false ]

unfoldable pub default_signer : TypedTx → Roe ℕ
default_signer tx = elim tx [ tx_default t ↦ ok t.from_wallet_id | _ ↦ err e_internal ]

unfoldable pub genesis_signer : TypedTx → Roe ℕ
genesis_signer tx = elim tx [ tx_genesis t ↦ ok id_genesis | _ ↦ err e_internal ]

unfoldable pub new_user_signer : TypedTx → Roe ℕ
new_user_signer tx = elim tx [ tx_new_user t ↦ ok t.from_wallet_id | _ ↦ err e_internal ]

unfoldable pub config_signer : TypedTx → Roe ℕ
config_signer tx = elim tx [ tx_config t ↦ ok id_genesis | _ ↦ err e_internal ]

unfoldable pub user_update_signer : TypedTx → Roe ℕ
user_update_signer tx = elim tx [ tx_user_update t ↦ ok t.wallet_id | _ ↦ err e_internal ]

unfoldable pub renewal_signer : TypedTx → ℕ → Roe ℕ
renewal_signer tx slot_leader = elim tx [
  | tx_renewal t ↦ if slot_leader == 0 then ok t.wallet_id else ok slot_leader
  | _ ↦ err e_internal
]

unfoldable pub end_user_signer : TypedTx → ℕ → Roe ℕ
end_user_signer tx slot_leader = elim tx [
  | tx_end_user t ↦ if slot_leader == 0 then ok t.wallet_id else ok slot_leader
  | _ ↦ err e_internal
]

-- The account whose wallet must have signed.
unfoldable pub signer_of : TxHandler → TypedTx → ℕ → Roe ℕ
unfolding default_signer genesis_signer new_user_signer config_signer user_update_signer
    renewal_signer end_user_signer
signer_of h tx slot_leader = elim h [
  | default_handler ↦ default_signer tx
  | genesis_handler ↦ genesis_signer tx
  | new_user_handler ↦ new_user_signer tx
  | config_handler ↦ config_signer tx
  | user_update_handler ↦ user_update_signer tx
  | renewal_handler ↦ renewal_signer tx slot_leader
  | end_user_handler ↦ end_user_signer tx slot_leader
]

unfoldable pub get_signer_account_id : (Record → Roe TypedTx) → Record → ℕ → Roe ℕ
unfolding signer_of
get_signer_account_id decode rec slot_leader = elim (decode rec) [
  | err _ ↦ err e_invalid_argument
  | ok tx ↦ elim (handler_of rec.type) [
    | none ↦ err e_internal
    | some h ↦ elim (signer_of h tx slot_leader) [ err _ ↦ err e_tx_signature | ok id ↦ ok id ]
  ]
]

key_unless_zero_lem :
    (w i wallet id : ℕ)
    → key_unless_zero w i ≡ ok (some (wallet, id))
    → (ok w ≡ ok wallet) × (id ≢ 0)
key_unless_zero_lem w i wallet id e = elim (Bool-cases (i == 0)) [
  | inl none_set ↦ absurd (ground (arith, e, none_set))
  | inr set ↦
      let same : w ≡ wallet = ground (arith, e, set) in
      let same_id : i ≡ id = ground (arith, e, set) in (ap ok same, ground (arith, set, same_id))
]

-- The wallet of a transaction's idempotency key is the one that must have signed it, whatever the slot
-- leader: nobody else can use up the idempotent ids of a wallet.
pub get_idempotency_key-signer :
    (h : TxHandler) (tx : TypedTx) (slot_leader wallet id : ℕ)
    → get_idempotency_key h tx ≡ ok (some (wallet, id))
    → (signer_of h tx slot_leader ≡ ok wallet) × (id ≢ 0)
unfolding get_idempotency_key signer_of default_key new_user_key config_key user_update_key
    default_signer new_user_signer config_signer user_update_signer
get_idempotency_key-signer default_handler (tx_default t) slot_leader wallet id e =
    key_unless_zero_lem t.from_wallet_id t.idempotent_id wallet id e
get_idempotency_key-signer new_user_handler (tx_new_user t) slot_leader wallet id e =
    key_unless_zero_lem t.from_wallet_id t.idempotent_id wallet id e
get_idempotency_key-signer config_handler (tx_config t) slot_leader wallet id e =
    key_unless_zero_lem id_genesis t.idempotent_id wallet id e
get_idempotency_key-signer user_update_handler (tx_user_update t) slot_leader wallet id e =
    key_unless_zero_lem t.wallet_id t.idempotent_id wallet id e
get_idempotency_key-signer _ _ slot_leader wallet id e = absurd (ground (arith, e))
