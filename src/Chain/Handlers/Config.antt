-- ===== src/Chain/Handlers/Config.antt =====
-- chain/ConfigTxHandler.cpp: a new configuration of the chain, with the genesis account that comes with it.
use pp_ledger.Base.{
  ℕ, ◌≤◌, ◌≡◌, refl, sym, ap, subst, eq_of_parts, ◌∙◌, Bool, true, false, not, Option, none, some,
  arith, ltb, ◌==◌, if◌then◌else◌, eqb_ℤ, length, inl, inr, Option-cases, Bool-cases,
}
use pp_ledger.Base.Roe.{Roe, ok, err, Done, done, Action, require, ◌then_check◌, Roe-cases}
use pp_ledger.Ledger.{TypedTx, tx_config, TxConfig}
use pp_ledger.Chain.Types.{
  GenesisAccountMeta, BlockChainConfig, e_internal, e_state_init, e_tx_validation,
  e_internal_deserialize, e_internal_buffer,
}
use pp_ledger.Chain.Packing.{genesis_meta_from_string}
use pp_ledger.Chain.AccountBuffer.{
  Account, Buffer, id_genesis, seed_from_committed_if_missing, add, remove, verify_balance,
}
use pp_ledger.Chain.Handlers.Context.{TxContext, validate_idempotency_using_context}
use pp_ledger.Chain.Handlers.Default.{recode, ◌then_on◌}
use pp_ledger.Chain.Handlers.Renewal.{validate_genesis_keys}

-- In strict mode the genesis time is kept, slots get no longer and epochs no shorter.
unfoldable pub validate_config_change : Option BlockChainConfig → BlockChainConfig → Done
validate_config_change baseline config = elim baseline [
  | none ↦ err e_state_init
  | some old ↦
      require (eqb_ℤ config.genesis_time old.genesis_time) e_tx_validation
      then_check require (not (ltb old.slot_duration config.slot_duration)) e_tx_validation
      then_check require (not (ltb config.slots_per_epoch old.slots_per_epoch)) e_tx_validation
]

-- The metadata of the transaction, when it passes the checks
unfoldable pub accept_config :
    TxConfig → Option BlockChainConfig → Bool → Buffer → Roe GenesisAccountMeta
unfolding validate_config_change validate_genesis_keys
accept_config t baseline is_strict b =
    if not (t.fee == 0) then err e_tx_validation else elim (genesis_meta_from_string t.meta) [
      | none ↦ err e_internal_deserialize
      | some gm ↦
          elim (validate_genesis_keys gm
            then_check (if is_strict then validate_config_change baseline gm.config else done)) [
              | err e ↦ err e
              | ok _ ↦ elim (verify_balance id_genesis 0 0 gm.genesis.wallet.balances b) [
                | err _ ↦ err e_tx_validation
                | ok _ ↦ ok gm
              ]
            ]
    ]

-- applyConfigUpdateCore: the buffer, and the configuration that is committed
unfoldable pub apply_config_update_core :
    TxConfig
    → Option BlockChainConfig
    → ℕ
    → Bool
    → Bool
    → Buffer
    → Done × Buffer × Option BlockChainConfig
unfolding accept_config
apply_config_update_core t baseline block_id is_strict commits b =
    elim (accept_config t baseline is_strict b) [
      | err e ↦ (err e, b, baseline)
      | ok gm ↦
          let (r, b') = recode e_internal_buffer (
            add (record { id = id_genesis; wallet = gm.genesis.wallet; block_id = block_id })
              (remove id_genesis b)) in
          elim r [
            | err e ↦ (err e, b', baseline)
            | ok _ ↦ (done, b', if commits then some gm.config else baseline)
          ]
    ]

-- applyBuffer: nothing is committed.
unfoldable pub apply_buffer_config : TypedTx → TxContext → ℕ → ℕ → Bool → Action Buffer (Unit {0})
unfolding apply_config_update_core
apply_buffer_config tx ctx block_id slot is_strict b = elim tx [
  | tx_config t ↦
      (
        validate_idempotency_using_context ctx t.idempotent_id id_genesis t.validation_ts_min
            t.validation_ts_max slot is_strict,
        b,
      )
      then_on seed_from_committed_if_missing ctx.bank id_genesis
      then_on (λ b'.
          let (r, b'', config) =
            apply_config_update_core t ctx.opt_chain_config block_id true false b' in
          (r, b''))
  | _ ↦ (err e_internal, b)
]

-- applyBlock, on the context whose bank the block is applied to
unfoldable pub apply_block_config : TypedTx → ℕ → ℕ → Bool → Action TxContext (Unit {0})
unfolding apply_config_update_core
apply_block_config tx block_id slot is_strict ctx = elim tx [
  | tx_config t ↦
      elim (validate_idempotency_using_context ctx t.idempotent_id id_genesis t.validation_ts_min
        t.validation_ts_max slot is_strict) [
          | err e ↦ (err e, ctx)
          | ok _ ↦
              let (r, b, config) =
                apply_config_update_core t ctx.opt_chain_config block_id is_strict true ctx.bank in
              (r, record ctx { bank = b; opt_chain_config = config })
        ]
  | _ ↦ (err e_internal, ctx)
]

-- What a change of the configuration in strict mode leaves alone.
abbrev pub Permits : BlockChainConfig → BlockChainConfig → Type 0
Permits old config =
    (config.genesis_time ≡ old.genesis_time)
    × (config.slot_duration ≤ old.slot_duration)
    × (old.slots_per_epoch ≤ config.slots_per_epoch)

then_check-done : (p q : Done) → p then_check q ≡ done → (p ≡ done) × (q ≡ done)
then_check-done (ok tt) q h = (refl, h)
then_check-done (err e) q h = absurd (ground (arith, h))

config_change-Permits :
    (baseline : Option BlockChainConfig) (config : BlockChainConfig)
    → validate_config_change baseline config ≡ done
    → (old : BlockChainConfig) × (baseline ≡ some old) × Permits old config
unfolding validate_config_change
config_change-Permits none config h = absurd (ground (arith, h))
config_change-Permits (some old) config h =
    let same_time : Done = require (eqb_ℤ config.genesis_time old.genesis_time) e_tx_validation in
    let short_slots : Done =
      require (not (ltb old.slot_duration config.slot_duration)) e_tx_validation in
    let long_epochs : Done =
      require (not (ltb config.slots_per_epoch old.slots_per_epoch)) e_tx_validation in
    let (first, third) = then_check-done (same_time then_check short_slots) long_epochs h in
    let (time, slots) = then_check-done same_time short_slots first in
    (
      old,
      refl,
      (
        eq_of_parts config.genesis_time old.genesis_time (ground (arith, time)),
        ground (arith, slots),
        ground (arith, third),
      ),
    )

accept_config_steps :
    (t : TxConfig) (baseline : Option BlockChainConfig) (gm : GenesisAccountMeta) (b : Buffer)
    → accept_config t baseline true b ≡ ok gm
    → (t.fee ≡ 0)
      × (genesis_meta_from_string t.meta ≡ some gm)
      × (validate_genesis_keys gm ≡ done)
      × (validate_config_change baseline gm.config ≡ done)
unfolding accept_config
accept_config_steps t baseline gm b h = elim (Bool-cases (t.fee == 0)) [
  | inr some_fee ↦ absurd (ground (arith, some_fee, h))
  | inl no_fee ↦ elim (Option-cases (genesis_meta_from_string t.meta)) [
    | inl missing ↦ absurd (ground (arith, no_fee, missing, h))
    | inr (found, e) ↦
        elim (Roe-cases
          (validate_genesis_keys found then_check validate_config_change baseline found.config)) [
            | inr (x, bad) ↦ absurd (ground (arith, no_fee, e, bad, h))
            | inl (tt, good) ↦
                elim (Roe-cases (verify_balance id_genesis 0 0 found.genesis.wallet.balances b)) [
                  | inr (x, bad) ↦ absurd (ground (arith, no_fee, e, good, bad, h))
                  | inl (y, balance) ↦
                      let same : found ≡ gm = ground (arith, no_fee, e, good, balance, h) in
                      let (keys, change) = then_check-done _ _ good in
                      (
                        ground (arith, no_fee),
                        e ∙ ap (λ g. some g) same,
                        subst (λ g. validate_genesis_keys g ≡ done) same keys,
                        subst
                            (λ (g : GenesisAccountMeta).
                              validate_config_change baseline g.config ≡ done)
                            same change,
                      )
                ]
          ]
  ]
]

genesis_keys_valid :
    (gm : GenesisAccountMeta)
    → validate_genesis_keys gm ≡ done
    → (3 ≤ length gm.genesis.wallet.public_keys) × (2 ≤ gm.genesis.wallet.min_signatures)
unfolding validate_genesis_keys
genesis_keys_valid gm h =
    let (keys, signatures) =
      then_check-done (require (not (ltb (length gm.genesis.wallet.public_keys) 3)) e_tx_validation)
        (require (not (ltb gm.genesis.wallet.min_signatures 2)) e_tx_validation) h in
    (ground (arith, keys), ground (arith, signatures))

config_run :
    (t : TxConfig) (block_id slot : ℕ) (ctx : TxContext)
    → validate_idempotency_using_context ctx t.idempotent_id id_genesis t.validation_ts_min
        t.validation_ts_max slot true
      ≡ done
    → apply_block_config (tx_config t) block_id slot true ctx ≡ (
        let (r, b, config) =
          apply_config_update_core t ctx.opt_chain_config block_id true true ctx.bank in
        (r, record ctx { bank = b; opt_chain_config = config }))
unfolding apply_block_config
config_run t block_id slot ctx fresh = rw (fresh, apply_block_config) refl

config_commits :
    (t : TxConfig) (baseline : Option BlockChainConfig) (gm : GenesisAccountMeta) (block_id : ℕ)
    (b : Buffer)
    → accept_config t baseline true b ≡ ok gm
    → (apply_config_update_core t baseline block_id true true b).0 ≡ done
    → (apply_config_update_core t baseline block_id true true b).2 ≡ some gm.config
unfolding apply_config_update_core
config_commits t baseline gm block_id b accepted h =
    let new : Account = record {
      id = id_genesis;
      wallet = gm.genesis.wallet;
      block_id = block_id;
    } in
    elim (Roe-cases ((recode e_internal_buffer (add new (remove id_genesis b))).0)) [
      | inl (x, added) ↦ rw (accepted, apply_config_update_core) (rw added refl)
      | inr (e, failed) ↦ absurd (ground (arith, accepted, failed, h))
    ]

-- When a block's change of the configuration succeeds in strict mode, there was a configuration and the
-- transaction has no fee. The new one is that of its metadata: it keeps the genesis time, its slots
-- are no longer and its epochs no shorter, and its genesis account has three keys and asks for two
-- signatures.
pub apply_block_config_sound :
    (t : TxConfig) (block_id slot : ℕ) (ctx ctx' : TxContext)
    → apply_block_config (tx_config t) block_id slot true ctx ≡ (done, ctx')
    → (old : BlockChainConfig) × (gm : GenesisAccountMeta) × (ctx.opt_chain_config ≡ some old)
      × (t.fee ≡ 0)
      × (genesis_meta_from_string t.meta ≡ some gm)
      × (ctx'.opt_chain_config ≡ some gm.config)
      × Permits old gm.config
      × (3 ≤ length gm.genesis.wallet.public_keys)
      × (2 ≤ gm.genesis.wallet.min_signatures)
unfolding apply_block_config apply_config_update_core
apply_block_config_sound t block_id slot ctx ctx' h =
    elim (Roe-cases (
      validate_idempotency_using_context ctx t.idempotent_id id_genesis t.validation_ts_min
        t.validation_ts_max slot true)) [
          | inr (e, bad) ↦ absurd (ground (arith, bad, h))
          | inl (x, fresh) ↦ elim (Roe-cases (accept_config t ctx.opt_chain_config true ctx.bank)) [
            | inr (e, bad) ↦ absurd (ground (arith, fresh, bad, h))
            | inl (gm, accepted) ↦
                let (fee, meta, keys, change) =
                  accept_config_steps t ctx.opt_chain_config gm ctx.bank accepted in
                let (old, there, permits) =
                  config_change-Permits ctx.opt_chain_config gm.config change in
                let (three, two) = genesis_keys_valid gm keys in
                let run = sym (config_run t block_id slot ctx fresh) ∙ h in
                let committed =
                  config_commits t ctx.opt_chain_config gm block_id ctx.bank accepted
                    (ap (λ (p : Done × TxContext). p.0) run) in
                (
                  old,
                  gm,
                  there,
                  fee,
                  meta,
                  sym (ap (λ (p : Done × TxContext). p.1.opt_chain_config) run) ∙ committed,
                  permits,
                  three,
                  two,
                )
          ]
        ]
