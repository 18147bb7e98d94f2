-- ===== src/Chain/Handlers/EndUser.antt =====
-- chain/EndUserTxHandler.cpp: an account that cannot pay the fee of its metadata is written off.
use pp_ledger.Base.{
  ℕ, ◌≡◌, ◌≢◌, refl, sym, ap, subst, ◌∙◌, inl, inr, Bool-cases, pos_part, ◌+ℤ◌, ◌<ℤ◌, true, false,
  not, none, some, arith, leb_ℤ, ◌==◌, if◌then◌else◌, pos,
}
use pp_ledger.Base.Word.{IsI64, to_i64}
use pp_ledger.Base.Roe.{Roe, ok, err, Done, done, Action, Roe-cases}
use pp_ledger.Map.{lookup, contains, IsSorted}
use pp_ledger.Ledger.{TypedTx, tx_end_user, TxEndUser}
use pp_ledger.Chain.Types.{e_internal, e_tx_validation, e_account_not_found, e_internal_buffer}
use pp_ledger.Chain.AccountBuffer.{
  Account, Buffer, id_genesis, id_recycle, has_account, seed_from_committed_if_missing, get_balance,
  write_off,
}
use pp_ledger.Chain.AccountBuffer.Balances.{IsValid}
use pp_ledger.Chain.AccountBuffer.WriteOff.{write_off_lem}
use pp_ledger.Chain.LedgerMeta.{calculate_minimum_fee_for_account_meta}
use pp_ledger.Chain.Handlers.Context.{TxContext}
use pp_ledger.Chain.Handlers.Default.{recode, recode-done, ◌then_on◌}

-- The minimum fee for the account of the transaction, after the checks before it
unfoldable pub end_user_fee : TxEndUser → TxContext → Buffer → Roe ℕ
end_user_fee t ctx b = if not (t.fee == 0) then err e_tx_validation else elim ctx.opt_chain_config [
  | none ↦ err e_internal
  | some config ↦
      if not (has_account t.wallet_id b)
      then err e_account_not_found
      else elim ctx.fn_account_meta_for_record [
        | none ↦ err e_internal
        | some fns ↦
            calculate_minimum_fee_for_account_meta ctx.ledger config b t.wallet_id fns.fn_user
              fns.fn_genesis
      ]
]

unfoldable pub apply_end_user : TxEndUser → TxContext → Action Buffer (Unit {0})
unfolding end_user_fee
apply_end_user t ctx b = elim (end_user_fee t ctx b) [
  | err e ↦ (err e, b)
  | ok min_fee ↦
      if leb_ℤ (to_i64 min_fee) (get_balance t.wallet_id id_genesis b)
      then (err e_tx_validation, b)
      else recode e_internal_buffer (write_off t.wallet_id b)
]

unfoldable pub apply_block_end_user : TypedTx → TxContext → Action Buffer (Unit {0})
unfolding apply_end_user
apply_block_end_user tx ctx b = elim tx [
  | tx_end_user t ↦ apply_end_user t ctx b
  | _ ↦ (err e_internal, b)
]

unfoldable pub apply_buffer_end_user : TypedTx → TxContext → Action Buffer (Unit {0})
unfolding apply_end_user
apply_buffer_end_user tx ctx b = elim tx [
  | tx_end_user t ↦
      seed_from_committed_if_missing ctx.bank t.wallet_id b
      then_on seed_from_committed_if_missing ctx.bank id_recycle
      then_on apply_end_user t ctx
  | _ ↦ (err e_internal, b)
]

end_user_runs :
    (t : TxEndUser) (ctx : TxContext) (b b' : Buffer) (min_fee : ℕ)
    → end_user_fee t ctx b ≡ ok min_fee
    → leb_ℤ (to_i64 min_fee) (get_balance t.wallet_id id_genesis b) ≡ false
    → apply_end_user t ctx b ≡ (done, b')
    → recode e_internal_buffer (write_off t.wallet_id b) ≡ (done, b')
unfolding apply_end_user
end_user_runs t ctx b b' min_fee fee poor h = sym (rw (fee, apply_end_user) (rw poor refl)) ∙ h

no_fee :
    (t : TxEndUser) (ctx : TxContext) (b : Buffer) (min_fee : ℕ)
    → end_user_fee t ctx b ≡ ok min_fee
    → t.fee ≡ 0
unfolding end_user_fee
no_fee t ctx b min_fee fee = elim (Bool-cases (t.fee == 0)) [
  | inl zero_fee ↦ ground (arith, zero_fee)
  | inr some_fee ↦ absurd (ground (arith, some_fee, fee))
]

-- An account other than the recycle account, of a valid buffer in which that one exists and has room,
-- with its balances in ascending order of the tokens: when it is ended, its native balance lay below
-- the minimum fee of its metadata and the transaction had no fee, it is gone, what it held above 0 is
-- added to the recycle account, every other balance is kept, and the buffer stays valid.
pub apply_end_user_sound :
    (t : TxEndUser) (ctx : TxContext) (b b' : Buffer) {a : Account}
    → IsValid b
    → lookup t.wallet_id b ≡ some a
    → IsSorted a.wallet.balances
    → t.wallet_id ≢ id_recycle
    → contains id_recycle b ≡ true
    → ((s : ℕ) → IsI64 (get_balance id_recycle s b +ℤ pos (pos_part (get_balance t.wallet_id s b))))
    → apply_end_user t ctx b ≡ (done, b')
    → (min_fee : ℕ) × (end_user_fee t ctx b ≡ ok min_fee)
      × (t.fee ≡ 0)
      × (get_balance t.wallet_id id_genesis b <ℤ to_i64 min_fee)
      × (contains t.wallet_id b' ≡ false)
      × IsValid b'
      × ((j s : ℕ)
          → get_balance j s b' ≡ (
              if t.wallet_id == j
              then pos 0
              else get_balance j s b
                +ℤ pos (if id_recycle == j then pos_part (get_balance t.wallet_id s b) else 0)))
unfolding apply_end_user
apply_end_user_sound t ctx b b' {a} v found own ne there fits h =
    elim (Roe-cases (end_user_fee t ctx b)) [
      | inr (e, failed) ↦ absurd (ground (arith, failed, h))
      | inl (min_fee, fee) ↦
          elim (Bool-cases (leb_ℤ (to_i64 min_fee) (get_balance t.wallet_id id_genesis b))) [
            | inl rich ↦ absurd (ground (arith, fee, rich, h))
            | inr poor ↦
                let run : recode e_internal_buffer (write_off t.wallet_id b) ≡ (done, b') =
                  end_user_runs t ctx b b' min_fee fee poor h in
                let off = recode-done e_internal_buffer (write_off t.wallet_id b) run in
                let (r, gone, valid, balances) =
                  write_off_lem t.wallet_id b v found own ne there fits in
                let same : (write_off t.wallet_id b).1 ≡ b' = ap (λ (p : Done × Buffer). p.1) off in
                (
                  min_fee,
                  fee,
                  no_fee t ctx b min_fee fee,
                  ground (arith, poor),
                  subst (λ x. contains t.wallet_id x ≡ false) same gone,
                  subst IsValid same valid,
                  λ j s. sym (ap (get_balance j s) same) ∙ balances j s,
                )
          ]
    ]
