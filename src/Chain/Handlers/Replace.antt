-- ===== src/Chain/Handlers/Replace.antt =====
-- What replacing an account does to the sum of each token (chain/UserAccountUpsertBase.cpp).
use Prim.Native.Nat.{◌^◌}
use Prim.{yes, no}
use pp_ledger.Base.{
  ℕ, ◌+◌, ◌<◌, ◌≤◌, ◌≡◌, ◌≢◌, refl, sym, ap, subst, ◌∙◌, Bool, true, false, none, some, arith, ltb,
  pos, ◌+ℤ◌, ◌-ℤ◌, int_laws, parts_of_eq, eq_of_parts, inl, inr, Bool-cases, ℕ_discrete,
}
use pp_ledger.Base.Word.{IsI64, to_i64_small}
use pp_ledger.Base.Roe.{err, Done, done, Roe-cases}
use pp_ledger.Map.{
  lookup, contains, insert, erase, lookup-insert, lookup-erase, insert-IsAbove, sum_by-erase,
  sum_by-insert_new, IsSorted,
}
use pp_ledger.Ledger.{tx_user_update, TxUserUpdate}
use pp_ledger.Chain.Types.{UserAccount, e_internal_buffer, e_tx_transfer}
use pp_ledger.Chain.Packing.{user_account_from_string}
use pp_ledger.Chain.AccountBuffer.{
  Account, Buffer, id_genesis, id_fee, has_account, get_account, add, remove, or_zero, balance_of,
  get_balance, verify_balance, deposit_balance, write,
}
use pp_ledger.Chain.AccountBuffer.Balances.{
  IsValid, total, erase-IsValid, get_balance_found, total-write_self, total-write_ne, write-IsValid,
}
use pp_ledger.Chain.AccountBuffer.Deposits.{deposit-Change, changed, unchanged}
use pp_ledger.Chain.AccountBuffer.Expected.{verify_balance_iff}
use pp_ledger.Chain.Handlers.Context.{TxContext, validate_fee, PaysMinimum, validate_fee_sound}
use pp_ledger.Chain.Handlers.Default.{recode, ◌then_on◌}
use pp_ledger.Chain.Handlers.Upsert.{
  deposit_fee, replace_account, validate_upsert_wallet, validate_upsert_balance,
  apply_user_account_upsert,
}

-- The buffer with the new account, before the fee is credited
abbrev swapped : Account → Buffer → Buffer
swapped a b = insert a.id a (erase a.id b)

fee_IsI64 : (fee : ℕ) → fee < 2 ^ 63 → IsI64 (pos fee)
fee_IsI64 fee small = (small, omega arith)

no_fee : (fee : ℕ) (b : Buffer) → ltb 0 fee ≡ false → deposit_fee fee b ≡ (done, b)
unfolding deposit_fee
no_fee fee b none_due = rw (none_due, deposit_fee) refl

fee_due :
    (fee : ℕ) (b : Buffer)
    → ltb 0 fee ≡ true
    → fee < 2 ^ 63
    → contains id_fee b ≡ true
    → deposit_fee fee b ≡ recode e_tx_transfer (deposit_balance id_fee id_genesis (pos fee) b)
unfolding deposit_fee has_account
fee_due fee b due small there = rw (due, deposit_fee) (rw there (rw (to_i64_small fee small) refl))

-- The native sum is higher by the fee, the other sums are the same.
abbrev Credits : ℕ → Buffer → Buffer → Type 0
Credits fee b b' =
    IsValid b'
    × (total id_genesis b' ≡ total id_genesis b +ℤ pos fee)
    × ((s : ℕ) → s ≢ id_genesis → total s b' ≡ total s b)

deposit_fee-Credits :
    (fee : ℕ) (b b' : Buffer)
    → IsValid b
    → fee < 2 ^ 63
    → contains id_fee b ≡ true
    → deposit_fee fee b ≡ (done, b')
    → Credits fee b b'
deposit_fee-Credits fee b b' v small there h = elim (Bool-cases (ltb 0 fee)) [
  | inr none_due ↦
      let same : b ≡ b' = ap (λ (p : Done × Buffer). p.1) (sym (no_fee fee b none_due) ∙ h) in
      let zero_fee : fee ≡ 0 = ground (arith, none_due) in
      subst (Credits fee b) same (v, omega (int_laws, zero_fee, eq_of_parts), λ s ne. refl)
  | inl due ↦ elim (deposit-Change id_fee id_genesis (pos fee) b v (fee_IsI64 fee small)) [
    | unchanged e p ↦
        let failed : (err e_tx_transfer, b) ≡ (done, b') =
          sym (fee_due fee b due small there ∙ ap (recode e_tx_transfer) p) ∙ h in
        absurd (ground (arith, failed))
    | changed a found range p ↦
        let x = get_balance id_fee id_genesis b +ℤ pos fee in
        let after = write id_fee id_genesis x b in
        let same : after ≡ b' =
          ap (λ (q : Done × Buffer). q.1)
            (sym (fee_due fee b due small there ∙ ap (recode e_tx_transfer) p) ∙ h) in
        subst (Credits fee b) same (
          write-IsValid id_fee id_genesis x b found range v,
          omega (int_laws, parts_of_eq _ _ (total-write_self id_fee id_genesis x b found v)),
          λ s ne. total-write_ne id_fee id_genesis s x b found v (λ e. ne (sym e)),
        )
  ]
]

module _ (a old : Account) (b : Buffer) (v : IsValid b) (found : lookup a.id b ≡ some old)
    (ranged : (s : ℕ) → IsI64 (balance_of s a)) where
  gone : lookup a.id (erase a.id b) ≡ none
  gone = ground (arith, lookup-erase a.id a.id b)

  swapped_eq : add a (remove a.id b) ≡ (done, swapped a b)
  unfolding add remove has_account
  swapped_eq = ground (arith, gone)

  swapped-IsValid : IsValid (swapped a b)
  unfolding get_balance
  swapped-IsValid =
      let e = erase-IsValid a.id b v in
      record {
        sorted = insert-IsAbove 0 a.id a (erase a.id b) (omega arith) e.sorted;
        named = λ k x p. ground (arith, lookup-insert a.id k a (erase a.id b), e.named k x);
        ranged =
            λ k s. ground (arith, lookup-insert a.id k a (erase a.id b), e.ranged k s, ranged s);
      }

  total-swapped :
      (s : ℕ) → total s (swapped a b) ≡ (total s b -ℤ balance_of s old) +ℤ balance_of s a
  unfolding total
  total-swapped s = omega (
    int_laws,
    parts_of_eq _ _ (sum_by-insert_new (balance_of s) a.id a (erase a.id b) gone),
    parts_of_eq _ _ (sum_by-erase (balance_of s) 0 a.id old b v.sorted found),
  )

  contains-swapped : (k : ℕ) → contains k b ≡ true → contains k (swapped a b) ≡ true
  contains-swapped k h =
      ground (arith, h, lookup-insert a.id k a (erase a.id b), lookup-erase a.id k b)

  replace_eq : (fee : ℕ) → replace_account a fee b ≡ deposit_fee fee (swapped a b)
  unfolding replace_account
  replace_eq fee =
      ap (λ (p : Done × Buffer). recode e_internal_buffer p then_on deposit_fee fee) swapped_eq

  -- The fee account is there, and what the account loses to its new version is the fee: the sums are
  -- kept.
  pub replace_account_conserves :
      (fee : ℕ) (b' : Buffer)
      → fee < 2 ^ 63
      → contains id_fee b ≡ true
      → ((s : ℕ) → s ≢ id_genesis → balance_of s old ≡ balance_of s a)
      → (balance_of id_genesis old ≡ balance_of id_genesis a +ℤ pos fee)
      → replace_account a fee b ≡ (done, b')
      → IsValid b' × ((s : ℕ) → total s b' ≡ total s b)
  replace_account_conserves fee b' small there same paid h =
      let run : deposit_fee fee (swapped a b) ≡ (done, b') = sym (replace_eq fee) ∙ h in
      let kept : contains id_fee (swapped a b) ≡ true = contains-swapped id_fee there in
      let (valid, native, others) =
        deposit_fee-Credits fee (swapped a b) b' swapped-IsValid small kept run in
      (
        valid,
        λ s. elim (ℕ_discrete s id_genesis) [
          | yes e ↦
              subst (λ (t : ℕ). total t b' ≡ total t b) (sym e)
                (omega (
                  int_laws,
                  parts_of_eq _ _ native,
                  parts_of_eq _ _ (total-swapped id_genesis),
                  parts_of_eq _ _ paid,
                ))
          | no ne ↦
              others s ne
              ∙ omega (int_laws, parts_of_eq _ _ (total-swapped s), parts_of_eq _ _ (same s ne))
        ],
      )

-- What a strict update that succeeds has passed.
upsert_steps :
    (is_supported : ℕ → Bool) (tx : TxUserUpdate) (user : UserAccount) (ctx : TxContext)
    (block_id : ℕ) (b b' : Buffer) {a : Account}
    → lookup tx.wallet_id b ≡ some a
    → user_account_from_string tx.meta ≡ some user
    → apply_user_account_upsert is_supported tx ctx block_id true b ≡ (done, b')
    → (validate_fee ctx (tx_user_update tx) tx.fee ≡ done)
      × (validate_upsert_wallet is_supported user ≡ done)
      × (verify_balance tx.wallet_id 0 tx.fee user.wallet.balances b ≡ done)
      × (replace_account
            (record { id = tx.wallet_id; wallet = user.wallet; block_id = block_id })
            tx.fee
            b
          ≡ (done, b'))
unfolding apply_user_account_upsert validate_upsert_balance get_account
upsert_steps is_supported tx user ctx block_id b b' {a} found decoded h =
    elim (Roe-cases (validate_fee ctx (tx_user_update tx) tx.fee)) [
      | inr (e, fee) ↦ absurd (ground (arith, fee, h))
      | inl (x, fee) ↦ elim (Roe-cases (validate_upsert_wallet is_supported user)) [
        | inr (e, wallet) ↦ absurd (ground (arith, fee, decoded, wallet, h))
        | inl (y, wallet) ↦
            elim (Roe-cases (verify_balance tx.wallet_id 0 tx.fee user.wallet.balances b)) [
              | inr (e, balance) ↦ absurd (ground (arith, fee, decoded, wallet, found, balance, h))
              | inl (z, balance) ↦
                  (fee, wallet, balance, ground (arith, fee, decoded, wallet, found, balance, h))
            ]
      ]
    ]

upsert_wallet_valid :
    (is_supported : ℕ → Bool) (user : UserAccount)
    → validate_upsert_wallet is_supported user ≡ done
    → (is_supported user.wallet.key_type ≡ true) × (1 ≤ user.wallet.min_signatures)
unfolding validate_upsert_wallet
upsert_wallet_valid is_supported user h = (ground (arith, h), ground (arith, h))

-- A strict update of an account of a valid buffer succeeds; the wallet that its metadata describes and
-- the old one are in ascending order of the tokens, the new balances are int64_t, the fee is one, and
-- the fee account exists. Then the fee is at least the minimum, the new wallet's key type is supported
-- and it asks for a signature, the buffer stays valid, and the sum of every token is as before.
pub apply_user_account_upsert_conserves :
    (is_supported : ℕ → Bool) (tx : TxUserUpdate) (user : UserAccount) (ctx : TxContext)
    (block_id : ℕ) (b b' : Buffer) {a : Account}
    → IsValid b
    → lookup tx.wallet_id b ≡ some a
    → IsSorted a.wallet.balances
    → user_account_from_string tx.meta ≡ some user
    → IsSorted user.wallet.balances
    → ((s : ℕ) → IsI64 (or_zero (lookup s user.wallet.balances)))
    → tx.fee < 2 ^ 63
    → contains id_fee b ≡ true
    → apply_user_account_upsert is_supported tx ctx block_id true b ≡ (done, b')
    → PaysMinimum ctx (tx_user_update tx) tx.fee
      × (is_supported user.wallet.key_type ≡ true)
      × (1 ≤ user.wallet.min_signatures)
      × IsValid b'
      × ((s : ℕ) → total s b' ≡ total s b)
apply_user_account_upsert_conserves is_supported tx user ctx block_id b b' {a} v found own decoded
      other range small there h =
    let (fee, wallet, balance, run) =
      upsert_steps is_supported tx user ctx block_id b b' found decoded h in
    let expects =
      (verify_balance_iff tx.wallet_id 0 tx.fee user.wallet.balances b v found own other
          (range id_genesis) (omega (arith, small))).0
        balance in
    let old = λ (s : ℕ). get_balance_found tx.wallet_id s b found in
    let (key, signatures) = upsert_wallet_valid is_supported user wallet in
    let none_sent : 0 + tx.fee ≡ tx.fee = omega arith in
    let (valid, sums) =
      replace_account_conserves
        (record { id = tx.wallet_id; wallet = user.wallet; block_id = block_id }) a b v found range
        tx.fee b' small there (λ s ne. sym (old s) ∙ expects.0 s ne)
        (sym (old id_genesis)
          ∙ expects.1
          ∙ ap (λ n. or_zero (lookup id_genesis user.wallet.balances) +ℤ pos n) none_sent)
        run in
    (validate_fee_sound ctx (tx_user_update tx) tx.fee fee, key, signatures, valid, sums)
