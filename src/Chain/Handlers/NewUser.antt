-- ===== src/Chain/Handlers/NewUser.antt =====
-- chain/NewUserTxHandler.cpp: a new account, paid by an account that exists. The unpacking of the
-- account's metadata (Client::UserAccount) and the test for a key type (Crypto::isSupported) are
-- parameters.
use Prim.Native.Nat.{◌^◌}
use pp_ledger.Base.{
  ℕ, ◌+◌, ◌≤◌, ◌<◌, ◌≡◌, ◌≢◌, ◌⊎◌, ap, ◌∙◌, Bool, true, false, ◌&&◌, ◌||◌, not, [], Option, none,
  some, arith, ltb, ◌==◌, if◌then◌else◌, length, ℤ, pos, ◌+ℤ◌, ◌-ℤ◌, int_laws, parts_of_eq,
  Option-cases, Bool-cases, inl, inr,
}
use pp_ledger.Base.Word.{to_u64}
use pp_ledger.Base.Roe.{ok, err, Done, done, Action, require, ◌then_check◌}
use pp_ledger.Map.{lookup, insert, lookup-insert, insert-IsAbove, sum_by-insert_new}
use pp_ledger.Ledger.{Bytes, TypedTx, tx_new_user, TxNewUser}
use pp_ledger.Chain.Types.{
  UserAccount, e_internal, e_tx_transfer, e_tx_validation, e_account_exists, e_account_balance,
  e_internal_deserialize, e_internal_buffer,
}
use pp_ledger.Chain.AccountBuffer.{
  Account, Buffer, id_genesis, id_fee, id_first_user, balance_of, has_account,
  seed_from_committed_if_missing, get_balance, add, verify_spending_power, transfer_balance,
}
use pp_ledger.Chain.AccountBuffer.Balances.{IsValid, total}
use pp_ledger.Chain.AccountBuffer.Transfers.Conservation.{transfer_balance_conserves}
use pp_ledger.Chain.AccountBuffer.Transfers.Exact.{transfer_balance_exact, debit, credit}
use pp_ledger.Chain.Handlers.Context.{TxContext, validate_idempotency_using_context, validate_fee}
use pp_ledger.Chain.Handlers.Default.{recode, ◌then_on◌, recode-done}

-- The account of a new user: the wallet of the metadata, without its balances.
unfoldable pub new_account : ℕ → ℕ → UserAccount → Account
new_account id block_id user = record {
  id = id;
  wallet = record (user.wallet) { balances = [] };
  block_id = block_id;
}

-- The checks before the buffer is written, with the account that they read.
unfoldable pub validate_new_user : TxNewUser → TxContext → Bool → Bool → Buffer → Done
validate_new_user t ctx is_buffer_mode is_strict b =
    (if is_strict then validate_fee ctx (tx_new_user t) t.fee else done)
    then_check require
        (not
          (has_account t.to_wallet_id b || (is_buffer_mode && has_account t.to_wallet_id ctx.bank)))
        e_account_exists
    then_check elim (verify_spending_power t.from_wallet_id id_genesis t.amount t.fee b) [
      | ok _ ↦ done
      | err _ ↦ err e_account_balance
    ]
    then_check require (t.from_wallet_id == id_genesis || not (ltb t.to_wallet_id id_first_user))
        e_tx_validation

unfoldable pub validate_user_account : (ℕ → Bool) → UserAccount → ℕ → Done
validate_user_account is_supported user amount =
    require (is_supported user.wallet.key_type) e_tx_validation
    then_check require (not (length user.wallet.public_keys == 0)) e_tx_validation
    then_check require (not (ltb user.wallet.min_signatures 1)) e_tx_validation
    then_check require (length user.wallet.balances == 1) e_tx_validation
    then_check elim (lookup id_genesis user.wallet.balances) [
      | none ↦ err e_tx_validation
      | some v ↦ require (to_u64 v == amount) e_tx_validation
    ]

module _ (unpack_user_account : Bytes → Option UserAccount) (is_supported : ℕ → Bool) where
  unfoldable pub apply_new_user : TxNewUser → TxContext → ℕ → Bool → Bool → Action Buffer (Unit {0})
  unfolding validate_new_user validate_user_account new_account
  apply_new_user t ctx block_id is_buffer_mode is_strict b =
      elim (validate_new_user t ctx is_buffer_mode is_strict b) [
        | err e ↦ (err e, b)
        | ok _ ↦ elim (unpack_user_account t.meta) [
          | none ↦ (err e_internal_deserialize, b)
          | some user ↦ elim (validate_user_account is_supported user t.amount) [
            | err e ↦ (err e, b)
            | ok _ ↦
                recode e_internal_buffer (add (new_account t.to_wallet_id block_id user) b)
                then_on λ b'.
                    recode e_tx_transfer (
                      transfer_balance t.from_wallet_id t.to_wallet_id id_genesis t.amount t.fee b')
          ]
        ]
      ]

  -- applyBlock
  unfoldable pub apply_block_new_user :
      TypedTx → TxContext → ℕ → ℕ → Bool → Action Buffer (Unit {0})
  unfolding apply_new_user
  apply_block_new_user tx ctx block_id slot is_strict b = elim tx [
    | tx_new_user t ↦
        (
          validate_idempotency_using_context ctx t.idempotent_id t.from_wallet_id
              t.validation_ts_min t.validation_ts_max slot is_strict,
          b,
        )
        then_on apply_new_user t ctx block_id false is_strict
    | _ ↦ (err e_internal, b)
  ]

  -- applyBuffer
  unfoldable pub apply_buffer_new_user :
      TypedTx → TxContext → ℕ → ℕ → Bool → Action Buffer (Unit {0})
  unfolding apply_new_user
  apply_buffer_new_user tx ctx block_id slot is_strict b = elim tx [
    | tx_new_user t ↦
        (
          validate_idempotency_using_context ctx t.idempotent_id t.from_wallet_id
              t.validation_ts_min t.validation_ts_max slot is_strict,
          b,
        )
        then_on (λ b'.
            if ltb 0 t.fee then seed_from_committed_if_missing ctx.bank id_fee b' else (done, b'))
        then_on seed_from_committed_if_missing ctx.bank t.from_wallet_id
        then_on apply_new_user t ctx block_id true true
    | _ ↦ (err e_internal, b)
  ]

-- An account without balances changes no balance and no sum.
add_new :
    (id block_id : ℕ) (user : UserAccount) (b : Buffer)
    → lookup id b ≡ none
    → IsValid b
    → (b' : Buffer) × (add (new_account id block_id user) b ≡ (done, b'))
      × IsValid b'
      × ((s : ℕ) → total s b' ≡ total s b)
      × ((s : ℕ) → get_balance id s b' ≡ pos 0)
unfolding add has_account new_account total get_balance lookup
add_new id block_id user b e v =
    let a = new_account id block_id user in
    (
      insert id a b,
      ground (arith, e),
      record {
        sorted = insert-IsAbove 0 id a b (omega arith) v.sorted;
        named = λ k x p. ground (arith, lookup-insert id k a b, v.named k x);
        ranged = λ k s. ground (arith, lookup-insert id k a b, v.ranged k s);
      },
      (λ s. omega (int_laws, parts_of_eq _ _ (sum_by-insert_new (balance_of s) id a b e))),
      (λ s. ground (arith, lookup-insert id id a b)),
    )

-- The payer exists and the new account does not, so they differ.
new_is_absent :
    (t : TxNewUser) (ctx : TxContext) (is_buffer_mode is_strict : Bool) (b : Buffer)
    → validate_new_user t ctx is_buffer_mode is_strict b ≡ done
    → (lookup t.to_wallet_id b ≡ none)
      × ((t.from_wallet_id ≡ id_genesis) ⊎ (id_first_user ≤ t.to_wallet_id))
      × (t.from_wallet_id ≢ t.to_wallet_id)
unfolding validate_new_user has_account verify_spending_power
new_is_absent t ctx is_buffer_mode is_strict b h =
    let absent : has_account t.to_wallet_id b ≡ false = ground (arith, h) in
    let gone : lookup t.to_wallet_id b ≡ none = ground (arith, absent) in
    (
      gone,
      elim (Bool-cases (t.from_wallet_id == id_genesis)) [
        | inl e ↦ inl (ground (arith, e))
        | inr e ↦ inr (ground (arith, e, h))
      ],
      λ (e : t.from_wallet_id ≡ t.to_wallet_id).
          let no_payer : lookup t.from_wallet_id b ≡ none = ap (λ id. lookup id b) e ∙ gone in
          ground (arith, h, no_payer),
    )

no_debit : (from to amount fee : ℕ) → from ≢ to → debit from id_genesis amount fee to id_genesis ≡ 0
no_debit from to amount fee ne = ground (arith, ne)

only_credit :
    (from to amount fee : ℕ) (x : ℤ) (c : ℕ)
    → x ≡ pos 0
    → from ≢ to
    → x -ℤ pos (debit from id_genesis amount fee to id_genesis) +ℤ pos c ≡ pos c
only_credit from to amount fee x c e ne = rw (e, no_debit from to amount fee ne) (omega int_laws)

-- A new user is accepted into a valid buffer, of a block or a scratch one, with amount and fee
-- together an int64_t: the account did not exist, its id is ID_FIRST_USER or above unless the
-- genesis account pays, it holds the amount (and the fee, if it is the fee account), the buffer
-- stays valid and the sum of every token over all accounts is as before.
pub apply_new_user_sound :
    (unpack_user_account : Bytes → Option UserAccount) (is_supported : ℕ → Bool) (t : TxNewUser)
    (ctx : TxContext) (block_id : ℕ) (is_buffer_mode is_strict : Bool) (b b' : Buffer)
    → IsValid b
    → t.amount + t.fee < 2 ^ 63
    → apply_new_user unpack_user_account is_supported t ctx block_id is_buffer_mode is_strict b
      ≡ (done, b')
    → (lookup t.to_wallet_id b ≡ none)
      × ((t.from_wallet_id ≡ id_genesis) ⊎ (id_first_user ≤ t.to_wallet_id))
      × IsValid b'
      × ((s : ℕ) → total s b' ≡ total s b)
      × (get_balance t.to_wallet_id id_genesis b'
          ≡ pos (credit t.to_wallet_id id_genesis t.amount t.fee t.to_wallet_id id_genesis))
unfolding apply_new_user
apply_new_user_sound unpack_user_account is_supported t ctx block_id is_buffer_mode is_strict b b' v
      small h =
    let checks : validate_new_user t ctx is_buffer_mode is_strict b ≡ done = ground (arith, h) in
    elim (Option-cases (unpack_user_account t.meta)) [
      | inl e ↦ absurd (ground (arith, h, e, checks))
      | inr (user, e) ↦
          let new = new_is_absent t ctx is_buffer_mode is_strict b checks in
          let (b1, added, v1, totals, empty) = add_new t.to_wallet_id block_id user b new.0 v in
          let wallet : validate_user_account is_supported user t.amount ≡ done =
            ground (arith, h, e, checks) in
          let moved =
            recode-done e_tx_transfer
              (transfer_balance t.from_wallet_id t.to_wallet_id id_genesis t.amount t.fee b1)
              (ground (arith, h, e, checks, wallet, added)) in
          let (v', sums) =
            transfer_balance_conserves t.from_wallet_id t.to_wallet_id id_genesis t.amount t.fee b1
              b' v1 new.2 small moved in
          (
            new.0,
            new.1,
            v',
            (λ s. sums s ∙ totals s),
            transfer_balance_exact t.from_wallet_id t.to_wallet_id id_genesis t.amount t.fee b1 b'
                  v1 new.2 small moved t.to_wallet_id id_genesis
                ∙ only_credit t.from_wallet_id t.to_wallet_id t.amount t.fee
                    (get_balance t.to_wallet_id id_genesis b1) _ (empty id_genesis) new.2,
          )
    ]
