-- ===== src/Chain/Handlers/Default.antt =====
-- chain/DefaultTxHandler.cpp: a transfer, on a scratch buffer, on the chain, and on a partial copy of
-- the chain (loose mode).
use Prim.Native.Nat.{◌^◌}
use pp_ledger.Base.{ℕ, ◌+◌, ◌<◌, ◌≡◌, ◌≢◌, Bool, true, ◌&&◌, arith, ltb, ◌==◌, if◌then◌else◌}
use pp_ledger.Base.Word.{to_i64, add_i64}
use pp_ledger.Base.Roe.{ok, err, Done, done, Action}
use pp_ledger.Ledger.{TypedTx, tx_default, TxDefault}
use pp_ledger.Chain.Types.{e_internal, e_tx_transfer}
use pp_ledger.Chain.AccountBuffer.{
  Buffer, id_genesis, id_fee, has_account, seed_from_committed_if_missing, deposit_balance,
  withdraw_balance, transfer_balance,
}
use pp_ledger.Chain.AccountBuffer.Balances.{IsValid, total}
use pp_ledger.Chain.AccountBuffer.Transfers.Conservation.{transfer_balance_conserves}
use pp_ledger.Chain.Handlers.Context.{
  TxContext, validate_idempotency_using_context, validate_fee, PaysMinimum, validate_fee_sound,
}

-- The result of an operation on the buffer, its error under the code of the handler.
abbrev pub recode : ℕ → Done × Buffer → Done × Buffer
recode code (r, b) = (elim r [ ok _ ↦ done | err _ ↦ err code ], b)

-- `if (auto r = …; !r) return r;`, the operations being on the same buffer
infixl 5 ◌then_on◌
abbrev pub ◌then_on◌ : Done × Buffer → Action Buffer (Unit {0}) → Done × Buffer
p then_on next = let (r, b) = p in elim r [ ok _ ↦ next b | err e ↦ (err e, b) ]

unfoldable pub apply_default_transfer_strict : TxDefault → TxContext → Action Buffer (Unit {0})
apply_default_transfer_strict tx ctx b = elim (validate_fee ctx (tx_default tx) tx.fee) [
  | err e ↦ (err e, b)
  | ok _ ↦
      recode e_tx_transfer
        (transfer_balance tx.from_wallet_id tx.to_wallet_id tx.token_id tx.amount tx.fee b)
]

-- What the sender pays when the receiver is not in the buffer.
unfoldable pub withdraw_payment : TxDefault → Action Buffer (Unit {0})
withdraw_payment tx b =
    if tx.token_id == id_genesis
    then recode e_tx_transfer (
        withdraw_balance tx.from_wallet_id tx.token_id (add_i64 (to_i64 tx.amount) (to_i64 tx.fee))
          b)
    else (recode e_tx_transfer (withdraw_balance tx.from_wallet_id tx.token_id (to_i64 tx.amount) b)
        then_on λ b'.
            (if ltb 0 tx.fee
              then recode e_tx_transfer
                  (withdraw_balance tx.from_wallet_id id_genesis (to_i64 tx.fee) b')
              else (done, b')))

unfoldable pub credit_fee : TxDefault → Action Buffer (Unit {0})
credit_fee tx b =
    if ltb 0 tx.fee && has_account id_fee b
    then recode e_tx_transfer (deposit_balance id_fee id_genesis (to_i64 tx.fee) b)
    else (done, b)

unfoldable pub apply_default_transfer_loose : TxDefault → Action Buffer (Unit {0})
unfolding withdraw_payment credit_fee
apply_default_transfer_loose tx b =
    if has_account tx.from_wallet_id b
    then (if has_account tx.to_wallet_id b
        then recode e_tx_transfer
            (transfer_balance tx.from_wallet_id tx.to_wallet_id tx.token_id tx.amount tx.fee b)
        else (withdraw_payment tx b then_on credit_fee tx))
    else (if has_account tx.to_wallet_id b
        then recode e_tx_transfer (deposit_balance tx.to_wallet_id tx.token_id (to_i64 tx.amount) b)
        else (done, b))

-- applyBuffer: the accounts are first copied from the chain's buffer.
unfoldable pub apply_buffer : TypedTx → TxContext → ℕ → Bool → Action Buffer (Unit {0})
unfolding apply_default_transfer_strict
apply_buffer tx ctx slot is_strict b = elim tx [
  | tx_default t ↦
      (
        validate_idempotency_using_context ctx t.idempotent_id t.from_wallet_id t.validation_ts_min
            t.validation_ts_max slot is_strict,
        b,
      )
      then_on seed_from_committed_if_missing ctx.bank t.from_wallet_id
      then_on seed_from_committed_if_missing ctx.bank t.to_wallet_id
      then_on (λ b'.
          if ltb 0 t.fee then seed_from_committed_if_missing ctx.bank id_fee b' else (done, b'))
      then_on apply_default_transfer_strict t ctx
  | _ ↦ (err e_internal, b)
]

unfoldable pub apply_block : TypedTx → TxContext → ℕ → Bool → Action Buffer (Unit {0})
unfolding apply_default_transfer_strict apply_default_transfer_loose
apply_block tx ctx slot is_strict b = elim tx [
  | tx_default t ↦
      (
        validate_idempotency_using_context ctx t.idempotent_id t.from_wallet_id t.validation_ts_min
            t.validation_ts_max slot is_strict,
        b,
      )
      then_on (if is_strict
          then apply_default_transfer_strict t ctx
          else apply_default_transfer_loose t)
  | _ ↦ (err e_internal, b)
]

pub recode-done :
    (code : ℕ) (p : Done × Buffer) {b : Buffer} → recode code p ≡ (done, b) → p ≡ (done, b)
recode-done code (ok tt, x) h = h
recode-done code (err e, x) h = absurd (ground (arith, h))

-- A transfer of a block that is applied in strict mode to a valid buffer, between different
-- accounts and with amount and fee together an int64_t: it passed the check on duplicates, it pays
-- at least the minimum fee, the buffer stays valid and the sum of every token over all accounts is
-- as before.
pub apply_block_strict :
    (t : TxDefault) (ctx : TxContext) (slot : ℕ) (b b' : Buffer)
    → IsValid b
    → t.from_wallet_id ≢ t.to_wallet_id
    → t.amount + t.fee < 2 ^ 63
    → apply_block (tx_default t) ctx slot true b ≡ (done, b')
    → (validate_idempotency_using_context ctx t.idempotent_id t.from_wallet_id t.validation_ts_min
          t.validation_ts_max slot true
        ≡ done)
      × PaysMinimum ctx (tx_default t) t.fee
      × IsValid b'
      × ((s : ℕ) → total s b' ≡ total s b)
unfolding apply_block
apply_block_strict t ctx slot b b' v ne small h =
    let idem : validate_idempotency_using_context ctx t.idempotent_id t.from_wallet_id
          t.validation_ts_min t.validation_ts_max slot true
        ≡ done =
      ground (arith, h) in
    let fee : validate_fee ctx (tx_default t) t.fee ≡ done = ground (arith, h) in
    let moved = recode-done e_tx_transfer _ (ground (arith, h, fee, idem)) in
    let (valid, sums) =
      transfer_balance_conserves t.from_wallet_id t.to_wallet_id t.token_id t.amount t.fee b b' v ne
        small moved in
    (idem, validate_fee_sound ctx (tx_default t) t.fee fee, valid, sums)
