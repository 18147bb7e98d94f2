-- ===== src/Chain/Handlers/Dispatch.antt =====
-- RecordHandler::applyBuffer and applyBlock of chain/RecordHandler.cpp: a record is unpacked and goes to the
-- handler of its type. A block is applied to the bank of its context, as the chain does it.
use pp_ledger.Base.{ℕ, Bool, none, some}
use pp_ledger.Base.Roe.{ok, err, Action}
use pp_ledger.Ledger.{Record, TypedTx}
use pp_ledger.Ledger.Packing.{decode}
use pp_ledger.Chain.Types.{e_internal, e_invalid_argument, e_tx_type}
use pp_ledger.Chain.Packing.{user_account_from_string}
use pp_ledger.Chain.AccountBuffer.{Buffer}
use pp_ledger.Chain.RecordHandler.{
  TxHandler, handler_of, default_handler, genesis_handler, new_user_handler, config_handler,
  user_update_handler, renewal_handler, end_user_handler,
}
use pp_ledger.Chain.Handlers.Context.{TxContext}
use pp_ledger.Chain.Handlers.Default.{apply_block, apply_buffer}
use pp_ledger.Chain.Handlers.NewUser.{apply_block_new_user, apply_buffer_new_user}
use pp_ledger.Chain.Handlers.Upsert.{apply_block_user_update, apply_buffer_user_update}
use pp_ledger.Chain.Handlers.Renewal.{apply_block_renewal, apply_buffer_renewal}
use pp_ledger.Chain.Handlers.EndUser.{apply_block_end_user, apply_buffer_end_user}
use pp_ledger.Chain.Handlers.Config.{apply_block_config, apply_buffer_config}
use pp_ledger.Chain.Handlers.Genesis.{apply_block_genesis}

-- An action on the bank, as one on the context
abbrev pub on_bank : (TxContext → Action Buffer (Unit {0})) → Action TxContext (Unit {0})
on_bank action ctx = let (r, b) = action ctx ctx.bank in (r, record ctx { bank = b })

module _ (is_supported : ℕ → Bool) where
  unfoldable pub handle_buffer :
      TxHandler → TypedTx → TxContext → ℕ → ℕ → Bool → Action Buffer (Unit {0})
  unfolding apply_buffer apply_buffer_new_user apply_buffer_config apply_buffer_user_update
      apply_buffer_renewal apply_buffer_end_user
  handle_buffer h tx ctx block_id slot is_strict b = elim h [
    | default_handler ↦ apply_buffer tx ctx slot is_strict b
    | genesis_handler ↦ (err e_tx_type, b)
    | new_user_handler ↦
        apply_buffer_new_user user_account_from_string is_supported tx ctx block_id slot is_strict b
    | config_handler ↦ apply_buffer_config tx ctx block_id slot is_strict b
    | user_update_handler ↦ apply_buffer_user_update is_supported tx ctx block_id slot is_strict b
    | renewal_handler ↦ apply_buffer_renewal is_supported tx ctx block_id slot is_strict b
    | end_user_handler ↦ apply_buffer_end_user tx ctx b
  ]

  unfoldable pub handle_block : TxHandler → TypedTx → ℕ → ℕ → ℕ → Bool → Action TxContext (Unit {0})
  unfolding apply_block apply_block_new_user apply_block_config apply_block_user_update
      apply_block_renewal apply_block_end_user apply_block_genesis
  handle_block h tx block_id slot slot_leader is_strict ctx = elim h [
    | default_handler ↦ on_bank (λ c. apply_block tx c slot is_strict) ctx
    | genesis_handler ↦ apply_block_genesis tx block_id slot_leader ctx
    | new_user_handler ↦
        on_bank
          (λ c.
            apply_block_new_user user_account_from_string is_supported tx c block_id slot is_strict)
          ctx
    | config_handler ↦ apply_block_config tx block_id slot is_strict ctx
    | user_update_handler ↦
        on_bank (λ c. apply_block_user_update is_supported tx c block_id slot is_strict) ctx
    | renewal_handler ↦
        on_bank (λ c. apply_block_renewal is_supported tx c block_id slot is_strict) ctx
    | end_user_handler ↦ on_bank (λ c. apply_block_end_user tx c) ctx
  ]

  unfoldable pub apply_buffer_record : Record → TxContext → ℕ → ℕ → Bool → Action Buffer (Unit {0})
  unfolding decode handler_of handle_buffer
  apply_buffer_record rec ctx block_id slot is_strict b = elim (decode rec) [
    | err _ ↦ (err e_invalid_argument, b)
    | ok tx ↦ elim (handler_of rec.type) [
      | none ↦ (err e_internal, b)
      | some h ↦ handle_buffer h tx ctx block_id slot is_strict b
    ]
  ]

  unfoldable pub apply_block_record : Record → ℕ → ℕ → ℕ → Bool → Action TxContext (Unit {0})
  unfolding decode handler_of handle_block
  apply_block_record rec block_id slot slot_leader is_strict ctx = elim (decode rec) [
    | err _ ↦ (err e_invalid_argument, ctx)
    | ok tx ↦ elim (handler_of rec.type) [
      | none ↦ (err e_internal, ctx)
      | some h ↦ handle_block h tx block_id slot slot_leader is_strict ctx
    ]
  ]
