-- ===== src/Chain/Handlers/Genesis.antt =====
-- chain/GenesisTxHandler.cpp: the transaction of the genesis block sets up the chain. A buffer takes none.
use pp_ledger.Base.{ℕ, not, ◌&&◌, ◌||◌, none, some, ◌==◌, if◌then◌else◌, pos, eqb_ℤ}
use pp_ledger.Base.Roe.{err, Action}
use pp_ledger.Ledger.{TypedTx, tx_genesis, TxGenesis}
use pp_ledger.Consensus.Ouroboros.{init}
use pp_ledger.Chain.Types.{
  e_internal, e_tx_type, e_tx_validation, e_internal_deserialize, e_internal_buffer,
}
use pp_ledger.Chain.Packing.{genesis_meta_from_string}
use pp_ledger.Chain.AccountBuffer.{id_genesis, add}
use pp_ledger.Chain.Handlers.Context.{TxContext}
use pp_ledger.Chain.Handlers.Default.{recode}

unfoldable pub apply_genesis_init : TxGenesis → Action TxContext (Unit {0})
apply_genesis_init t ctx =
    if not (t.fee == 0)
    then (err e_tx_validation, ctx)
    else elim (genesis_meta_from_string t.meta) [
      | none ↦ (err e_internal_deserialize, ctx)
      | some gm ↦
          let configured = record ctx { opt_chain_config = some gm.config } in
          let old = ctx.consensus.config in
          if not (eqb_ℤ old.genesis_time (pos 0))
            && not (eqb_ℤ gm.config.genesis_time old.genesis_time)
          then (err e_tx_validation, configured)
          else let config = record old {
            genesis_time = gm.config.genesis_time;
            slot_duration = gm.config.slot_duration;
            slots_per_epoch = gm.config.slots_per_epoch;
          } in
            let (r, b) = recode e_internal_buffer (
              add (record { id = id_genesis; wallet = gm.genesis.wallet; block_id = 0 })
                ctx.bank) in
            (r, record configured { consensus = init config; bank = b })
    ]

unfoldable pub apply_block_genesis : TypedTx → ℕ → ℕ → Action TxContext (Unit {0})
unfolding apply_genesis_init
apply_block_genesis tx block_id slot_leader ctx = elim tx [
  | tx_genesis t ↦
      if not (block_id == 0) || not (slot_leader == 0)
      then (err e_tx_type, ctx)
      else apply_genesis_init t ctx
  | _ ↦ (err e_internal, ctx)
]
