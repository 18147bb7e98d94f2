-- ===== src/Chain/Handlers/Context.antt =====
-- TxContext, and the checks that the handlers share (chain/TxContext.h, chain/ITxHandler.h).
use pp_ledger.Base.{
  ℕ, ◌≤◌, ◌≡◌, arith, Bool, Option, none, some, Option-cases, inl, inr, ltb, if◌then◌else◌, ℤ,
}
use pp_ledger.Base.Roe.{Roe, ok, err, Done, done, Roe-cases}
use pp_ledger.Consensus.Ouroboros.{Ouroboros}
use pp_ledger.Ledger.{Bytes, Record, Block, TypedTx, Reader}
use pp_ledger.Chain.Types.{BlockChainConfig, e_internal, e_tx_fee}
use pp_ledger.Chain.AccountBuffer.{Buffer}
use pp_ledger.Chain.TxFees.{calculate_minimum_fee}
use pp_ledger.Chain.TxIdempotency.{KeyOf, validate_idempotency_rules}

-- What a record says of the metadata of a user account and of the genesis account
pub record FnAccountMetaForRecord : Type 0 where
  pub fn_user : Record → ℕ → Option Bytes
  pub fn_genesis : Record → Block → Option Bytes

-- The fields that the handlers read: the ledger through its interface, and the callables.
pub record TxContext : Type 0 where
  pub consensus : Ouroboros
  pub ledger : Reader
  pub bank : Buffer
  pub opt_chain_config : Option BlockChainConfig
  pub fn_idempotency_key_for_record : Option KeyOf
  pub fn_billable_custom_meta_size_for_fee : Option (BlockChainConfig → TypedTx → Roe ℕ)
  pub fn_account_meta_for_record : Option FnAccountMetaForRecord

unfoldable pub validate_idempotency_using_context : TxContext → ℕ → ℕ → ℤ → ℤ → ℕ → Bool → Done
validate_idempotency_using_context ctx id wallet ts_min ts_max slot is_strict =
    elim ctx.fn_idempotency_key_for_record [
      | none ↦ err e_internal
      | some key_of ↦
          validate_idempotency_rules ctx.ledger ctx.consensus key_of ctx.opt_chain_config id wallet
            ts_min ts_max slot is_strict
    ]

-- The configuration and the size function must be there, and the fee at least the minimum.
unfoldable pub validate_fee : TxContext → TypedTx → ℕ → Done
validate_fee ctx tx fee = elim ctx.opt_chain_config [
  | none ↦ err e_internal
  | some config ↦ elim ctx.fn_billable_custom_meta_size_for_fee [
    | none ↦ err e_internal
    | some billable ↦ elim (calculate_minimum_fee config tx billable) [
      | err e ↦ err e
      | ok min_fee ↦ if ltb fee min_fee then err e_tx_fee else done
    ]
  ]
]

-- The fee is at least the minimum that the configuration sets for the transaction.
abbrev pub PaysMinimum : TxContext → TypedTx → ℕ → Type 0
PaysMinimum ctx tx fee =
    (config : BlockChainConfig) × (billable : (BlockChainConfig → TypedTx → Roe ℕ)) × (min_fee : ℕ)
    × (ctx.opt_chain_config ≡ some config)
    × (ctx.fn_billable_custom_meta_size_for_fee ≡ some billable)
    × (calculate_minimum_fee config tx billable ≡ ok min_fee)
    × (min_fee ≤ fee)

pub validate_fee_sound :
    (ctx : TxContext) (tx : TypedTx) (fee : ℕ)
    → validate_fee ctx tx fee ≡ done
    → PaysMinimum ctx tx fee
unfolding validate_fee
validate_fee_sound ctx tx fee h = elim (Option-cases ctx.opt_chain_config) [
  | inl e ↦ absurd (ground (arith, h, e))
  | inr (config, e) ↦ elim (Option-cases ctx.fn_billable_custom_meta_size_for_fee) [
    | inl e' ↦ absurd (ground (arith, h, e, e'))
    | inr (billable, e') ↦ elim (Roe-cases (calculate_minimum_fee config tx billable)) [
      | inl (m, e'') ↦ (config, billable, m, e, e', e'', ground (arith, h, e, e', e''))
      | inr (c, e'') ↦ absurd (ground (arith, h, e, e', e''))
    ]
  ]
]
