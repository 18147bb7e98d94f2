-- ===== src/Chain/AccountBuffer/Spending.antt =====
-- `verifySpendingPower` against what it is meant to decide.
use Prim.Native.Nat.{◌^◌}
use pp_ledger.Base.{ℕ, ◌+◌, ◌≤◌, ◌<◌, ◌≡◌, ◌≢◌, ◌⊎◌, ◌↔◌, some, arith, ℤ, pos, ◌+ℤ◌, +ℤ_parts, ◌≤ℤ◌}
use pp_ledger.Base.Word.{i64_min, add_i64, to_i64_small}
use pp_ledger.Base.Roe.{done}
use pp_ledger.Map.{lookup}
use pp_ledger.Chain.AccountBuffer.Defs.{
  Account, Buffer, id_genesis, id_first_user, get_balance, verify_spending_of,
  verify_spending_power,
}
use pp_ledger.Chain.AccountBuffer.Balances.{IsValid}

-- An account pays `need` from what it has; the account that issues a token may go down to INT64_MIN.
abbrev pub Covers : ℕ → ℕ → ℕ → ℤ → Type 0
Covers id token need balance =
    (pos need ≤ℤ balance) ⊎ ((id < id_first_user) × (id ≡ token) × (i64_min +ℤ pos need ≤ℤ balance))

-- The native token pays amount and fee from one balance, any other the fee from the native one.
abbrev pub CanSpend : ℕ → ℕ → ℕ → ℕ → Buffer → Type 0
CanSpend id token amount fee b =
    ((token ≡ id_genesis) × Covers id token (amount + fee) (get_balance id token b))
    ⊎ ((token ≢ id_genesis)
        × Covers id token amount (get_balance id token b)
        × (pos fee ≤ℤ get_balance id id_genesis b))

-- The signed sums of the code are exact where amount and fee together are an int64_t.
sums :
    (amount fee : ℕ)
    → amount + fee < 2 ^ 63
    → (add_i64 (pos amount) (pos fee) ≡ pos (amount + fee))
      × (add_i64 (pos (amount + fee)) i64_min ≡ i64_min +ℤ pos (amount + fee))
      × (add_i64 (pos amount) i64_min ≡ i64_min +ℤ pos amount)
unfolding add_i64
sums amount fee h = (ground arith, ground arith, ground arith)

verify_spending_of-ok :
    (a : Account) (id token amount fee : ℕ) (b : Buffer)
    → amount + fee < 2 ^ 63
    → a.id ≡ id
    → lookup id b ≡ some a
    → (verify_spending_of a token (pos amount) (pos fee) ≡ done) ↔ CanSpend id token amount fee b
unfolding verify_spending_of get_balance
verify_spending_of-ok a id token amount fee b h n e =
    let whole = +ℤ_parts i64_min (pos (amount + fee)) in
    let part = +ℤ_parts i64_min (pos amount) in
    (ground (arith, sums amount fee h, whole, part), ground (arith, sums amount fee h, whole, part))

-- For an account of a valid buffer, and an amount and a fee whose sum is an int64_t,
-- `verifySpendingPower` accepts exactly the transfers that the account can pay for.
pub verify_spending_power_iff :
    (id token amount fee : ℕ) (b : Buffer) {a : Account}
    → IsValid b
    → lookup id b ≡ some a
    → amount + fee < 2 ^ 63
    → (verify_spending_power id token amount fee b ≡ done) ↔ CanSpend id token amount fee b
unfolding verify_spending_power
verify_spending_power_iff id token amount fee b {a} v e h =
    let core = verify_spending_of-ok a id token amount fee b h (v.named id a e) e in
    rw (e, to_i64_small amount (omega arith), to_i64_small fee (omega arith)) (ground (arith, core))

-- In native tokens the sum of amount and fee wraps: an account of a valid buffer that is not the genesis
-- account and owes no native tokens passes for every native amount and fee that are each an int64_t and
-- whose sum is not, whatever its balance.
pub verify_spending_power_overflow :
    (id amount fee : ℕ) (b : Buffer) {a : Account}
    → IsValid b
    → lookup id b ≡ some a
    → id ≢ id_genesis
    → pos 0 ≤ℤ get_balance id id_genesis b
    → amount < 2 ^ 63
    → fee < 2 ^ 63
    → 2 ^ 63 ≤ amount + fee
    → verify_spending_power id id_genesis amount fee b ≡ done
unfolding verify_spending_power verify_spending_of get_balance add_i64
verify_spending_power_overflow id amount fee b {a} v e ne p ha hf over =
    ground (arith, v.named id a e, to_i64_small amount, to_i64_small fee)
