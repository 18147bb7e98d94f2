-- ===== src/Chain/AccountBuffer/Tests.antt =====
-- Runs of the operations on a small bank, and the theorems at concrete inputs.
use Prim.Native.Nat.{◌^◌}
use pp_ledger.Base.{ℕ, ◌≡◌, ◌↔◌, refl, arith, [], ◌∷◌, inl, inr, ℤ, pos, ◌+ℤ◌, ◌-ℤ◌}
use pp_ledger.Base.Word.{add_i64, sub_i64}
use pp_ledger.Base.Roe.{err, done}
use pp_ledger.Map.{lookup, insert}
use pp_ledger.Chain.AccountBuffer.Defs.{
  Account, Buffer, e_account, get_balance, verify_spending_power, transfer_balance,
  verify_spending_of, move_funds, pay_fee, write,
}
use pp_ledger.Chain.AccountBuffer.Balances.{IsValid, total}
use pp_ledger.Chain.AccountBuffer.Spending.{
  CanSpend, verify_spending_power_iff, verify_spending_power_overflow,
}
use pp_ledger.Chain.AccountBuffer.Transfers.Conservation.{transfer_balance_conserves}
use pp_ledger.Chain.AccountBuffer.Transfers.Exact.{debit, credit, transfer_balance_exact}
use pp_ledger.Chain.AccountBuffer.Transfers.Failure.{
  transfer_balance_to_self, transfer_balance_atomic, transfer_balance_no_fee_account,
}

abbrev account : ℕ → ℤ → Account
account n v = record {
  id = n;
  wallet = record { balances = (0, v) ∷ []; public_keys = []; min_signatures = 1; key_type = 1 };
  block_id = 7;
}

abbrev alice : ℕ
alice = 1073741824

abbrev bob : ℕ
bob = 1073741825

-- The fee account, the recycling account, and two users
abbrev bank : Buffer
bank =
    (1, account 1 (pos 0))
    ∷ (3, account 3 (pos 0))
    ∷ (alice, account alice (pos 100))
    ∷ (bob, account bob (pos 5))
    ∷ []

paid : get_balance bob 0 ((transfer_balance alice bob 0 30 2 bank).1) ≡ pos 35
unfolding lookup get_balance transfer_balance verify_spending_power verify_spending_of add_i64
    sub_i64 move_funds pay_fee write insert
paid = refl

bank-IsValid : IsValid bank
unfolding lookup get_balance transfer_balance verify_spending_power verify_spending_of add_i64
    sub_i64 move_funds pay_fee write insert
bank-IsValid = record {
  sorted = ground arith;
  named = λ k a e. ground (arith, e);
  ranged = λ k token. ground arith;
}

verify_spending_power_iff_example :
    (verify_spending_power alice 0 30 2 bank ≡ done) ↔ CanSpend alice 0 30 2 bank
unfolding lookup get_balance transfer_balance verify_spending_power verify_spending_of add_i64
    sub_i64 move_funds pay_fee write insert
verify_spending_power_iff_example =
    verify_spending_power_iff alice 0 30 2 bank bank-IsValid refl (ground arith)

verify_spending_power_overflow_example : verify_spending_power alice 0 (2 ^ 62) (2 ^ 62) bank ≡ done
unfolding lookup get_balance transfer_balance verify_spending_power verify_spending_of add_i64
    sub_i64 move_funds pay_fee write insert
verify_spending_power_overflow_example =
    verify_spending_power_overflow alice (2 ^ 62) (2 ^ 62) bank bank-IsValid refl (ground arith)
      (ground arith) (ground arith) (ground arith) (ground arith)

abbrev after_payment : Buffer
after_payment = (transfer_balance alice bob 0 30 2 bank).1

payment : transfer_balance alice bob 0 30 2 bank ≡ (done, after_payment)
unfolding lookup get_balance transfer_balance verify_spending_power verify_spending_of add_i64
    sub_i64 move_funds pay_fee write insert
payment = refl

transfer_balance_conserves_example :
    IsValid after_payment × ((s : ℕ) → total s after_payment ≡ total s bank)
unfolding lookup get_balance transfer_balance verify_spending_power verify_spending_of add_i64
    sub_i64 move_funds pay_fee write insert
transfer_balance_conserves_example =
    transfer_balance_conserves alice bob 0 30 2 bank after_payment bank-IsValid (ground arith)
      (ground arith) payment

transfer_balance_exact_example :
    get_balance bob 0 after_payment
    ≡ get_balance bob 0 bank -ℤ pos (debit alice 0 30 2 bob 0) +ℤ pos (credit bob 0 30 2 bob 0)
unfolding lookup get_balance transfer_balance verify_spending_power verify_spending_of add_i64
    sub_i64 move_funds pay_fee write insert
transfer_balance_exact_example =
    transfer_balance_exact alice bob 0 30 2 bank after_payment bank-IsValid (ground arith)
      (ground arith) payment bob 0

abbrev after_self : Buffer
after_self = (transfer_balance alice alice 0 30 0 bank).1

self_payment : transfer_balance alice alice 0 30 0 bank ≡ (done, after_self)
unfolding lookup get_balance transfer_balance verify_spending_power verify_spending_of add_i64
    sub_i64 move_funds pay_fee write insert
self_payment = refl

-- 100 tokens become 130.
transfer_balance_to_self_example :
    get_balance alice 0 after_self ≡ get_balance alice 0 bank +ℤ pos 30
unfolding lookup get_balance transfer_balance verify_spending_power verify_spending_of add_i64
    sub_i64 move_funds pay_fee write insert
transfer_balance_to_self_example =
    transfer_balance_to_self alice 0 30 bank after_self bank-IsValid (ground arith) self_payment

abbrev after_refusal : Buffer
after_refusal = (transfer_balance bob alice 0 30 2 bank).1

refusal : transfer_balance bob alice 0 30 2 bank ≡ (err 2, after_refusal)
unfolding lookup get_balance transfer_balance verify_spending_power verify_spending_of add_i64
    sub_i64 move_funds pay_fee write insert
refusal = refl

transfer_balance_atomic_example : after_refusal ≡ bank
unfolding lookup get_balance transfer_balance verify_spending_power verify_spending_of add_i64
    sub_i64 move_funds pay_fee write insert
transfer_balance_atomic_example =
    transfer_balance_atomic bob alice 0 30 2 bank after_refusal bank-IsValid (ground arith)
      (ground arith) (inr (ground arith, ground arith)) refusal

abbrev users : Buffer
users = (alice, account alice (pos 100)) ∷ (bob, account bob (pos 5)) ∷ []

users-IsValid : IsValid users
unfolding lookup get_balance transfer_balance verify_spending_power verify_spending_of add_i64
    sub_i64 move_funds pay_fee write insert
users-IsValid = record {
  sorted = ground arith;
  named = λ k a e. ground (arith, e);
  ranged = λ k token. ground arith;
}

transfer_balance_no_fee_account_example :
    let (r, b') = transfer_balance alice bob 0 30 2 users in
    (r ≡ err e_account) × (get_balance bob 0 b' ≡ get_balance bob 0 users +ℤ pos 30)
unfolding lookup get_balance transfer_balance verify_spending_power verify_spending_of add_i64
    sub_i64 move_funds pay_fee write insert
transfer_balance_no_fee_account_example =
    transfer_balance_no_fee_account alice bob 0 30 2 users users-IsValid (ground arith)
      (ground arith) (ground arith) refl (inl (refl, inl (ground arith))) refl refl (ground arith)
