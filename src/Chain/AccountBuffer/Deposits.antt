-- ===== src/Chain/AccountBuffer/Deposits.antt =====
-- `depositBalance` and `withdrawBalance`: when they succeed, and what they change.
use Prim.Native.Nat.{◌^◌}
use pp_ledger.Base.{
  ℕ, ◌<◌, ◌≡◌, refl, ◌↔◌, inl, inr, ◌&&◌, not, some, arith, ◌==◌, Bool-cases, Option-cases,
  if◌then◌else◌, ℤ, pos, ◌+ℤ◌, ◌-ℤ◌, +ℤ_parts, -ℤ_parts, ltb_ℤ,
}
use pp_ledger.Base.Word.{IsI64, i64_min, i64_max, add_i64, sub_i64, add_i64_exact, sub_i64_exact}
use pp_ledger.Base.Roe.{ok, err, Done, done}
use pp_ledger.Map.{lookup}
use pp_ledger.Chain.AccountBuffer.Defs.{
  Account, Buffer, balance_of, get_balance, write, deposit_balance, withdraw_balance,
  is_negative_balance_allowed, e_account, e_input, e_balance,
}
use pp_ledger.Chain.AccountBuffer.Balances.{
  IsValid, get_balance-write, write-IsValid, get_balance_found,
}
use pp_ledger.Chain.AccountBuffer.Spending.{Covers}

-- A call that succeeds sets one balance and keeps the others; one that fails changes nothing.
abbrev pub Sets : Buffer → ℕ → ℕ → ℤ → Done × Buffer → Type 0
Sets b id token x (ok _, b') =
    IsValid b'
    × ((j s : ℕ) → get_balance j s b' ≡ (if id == j && token == s then x else get_balance j s b))
Sets b id token x (err _, b') = b' ≡ b

pub data Change (b : Buffer) (id token : ℕ) (x : ℤ) (r : Done × Buffer) : Type 0 where
  unchanged : (e : ℕ) → r ≡ (err e, b) → Change b id token x r
  changed :
      (a : Account)
      → lookup id b ≡ some a
      → IsI64 x
      → r ≡ (done, write id token x b)
      → Change b id token x r

Change-Sets :
    {b : Buffer} {id token : ℕ} {x : ℤ} {r : Done × Buffer}
    → IsValid b
    → Change b id token x r
    → Sets b id token x r
Change-Sets v (unchanged e p) = rw p refl
Change-Sets {b} {id} {token} {x} v (changed a found range p) =
    rw p (write-IsValid id token x b found range v, λ j s. get_balance-write id j token s x b found)

pub deposit-Change :
    (id token : ℕ) (amount : ℤ) (b : Buffer)
    → IsValid b
    → IsI64 amount
    → Change b id token (get_balance id token b +ℤ amount) (deposit_balance id token amount b)
unfolding deposit_balance
deposit-Change id token amount b v r = elim (Bool-cases (ltb_ℤ amount (pos 0))) [
  | inl negative ↦ unchanged e_input (rw negative)
  | inr positive ↦ elim (Option-cases (lookup id b)) [
    | inl missing ↦ unchanged e_account (rw (missing, deposit_balance) (rw positive))
    | inr (a, found) ↦
        let old = get_balance_found id token b found in
        elim (Bool-cases (ltb_ℤ (sub_i64 i64_max amount) (balance_of token a))) [
          | inl full ↦ unchanged e_balance (rw (found, deposit_balance) (rw (positive, full)))
          | inr room ↦
              let fits : IsI64 (get_balance id token b +ℤ amount) = ground (
                arith,
                v.ranged id token,
                old,
                positive,
                room,
                r,
                sub_i64_exact i64_max amount,
                -ℤ_parts i64_max amount,
                +ℤ_parts (get_balance id token b) amount,
              ) in
              changed a found fits (
                rw (found, deposit_balance)
                  (rw (positive, room, ← old, add_i64_exact (get_balance id token b) amount fits)))
        ]
  ]
]

withdraw-Change :
    (id token : ℕ) (amount : ℤ) (b : Buffer)
    → IsValid b
    → IsI64 amount
    → Change b id token (get_balance id token b -ℤ amount) (withdraw_balance id token amount b)
unfolding withdraw_balance
withdraw-Change id token amount b v r = elim (Bool-cases (ltb_ℤ amount (pos 0))) [
  | inl negative ↦ unchanged e_input (rw negative)
  | inr positive ↦ elim (Option-cases (lookup id b)) [
    | inl missing ↦ unchanged e_account (rw (missing, withdraw_balance) (rw positive))
    | inr (a, found) ↦
        let old = get_balance_found id token b found in
        elim (Bool-cases
          (not (is_negative_balance_allowed a token) && ltb_ℤ (balance_of token a) amount)) [
            | inl short ↦ unchanged e_balance (rw (found, withdraw_balance) (rw (positive, short)))
            | inr enough ↦ elim (Bool-cases (ltb_ℤ (balance_of token a) (add_i64 i64_min amount))) [
              | inl low ↦
                  unchanged e_balance (rw (found, withdraw_balance) (rw (positive, enough, low)))
              | inr high ↦
                  let fits : IsI64 (get_balance id token b -ℤ amount) = ground (
                    arith,
                    v.ranged id token,
                    old,
                    positive,
                    high,
                    r,
                    add_i64_exact i64_min amount,
                    +ℤ_parts i64_min amount,
                    -ℤ_parts (get_balance id token b) amount,
                  ) in
                  changed a found fits (
                    rw (found, withdraw_balance)
                      (rw (
                        positive,
                        enough,
                        high,
                        ← old,
                        sub_i64_exact (get_balance id token b) amount fits,
                      )))
            ]
          ]
  ]
]

-- A deposit of an int64_t to a valid buffer adds its amount to one balance, exactly, or fails and
-- changes nothing.
pub deposit_balance-Sets :
    (id token : ℕ) (amount : ℤ) (b : Buffer)
    → IsValid b
    → IsI64 amount
    → Sets b id token (get_balance id token b +ℤ amount) (deposit_balance id token amount b)
deposit_balance-Sets id token amount b v r = Change-Sets v (deposit-Change id token amount b v r)

-- A withdrawal of an int64_t from a valid buffer takes its amount from one balance, exactly, or fails
-- and changes nothing.
pub withdraw_balance-Sets :
    (id token : ℕ) (amount : ℤ) (b : Buffer)
    → IsValid b
    → IsI64 amount
    → Sets b id token (get_balance id token b -ℤ amount) (withdraw_balance id token amount b)
withdraw_balance-Sets id token amount b v r = Change-Sets v (withdraw-Change id token amount b v r)

-- From an account of a valid buffer, a withdrawal of an amount between 0 and INT64_MAX succeeds exactly
-- when the account covers it.
pub withdraw_balance_iff :
    (id token amount : ℕ) (b : Buffer) {a : Account}
    → IsValid b
    → lookup id b ≡ some a
    → amount < 2 ^ 63
    → ((withdraw_balance id token (pos amount) b).0 ≡ done)
      ↔ Covers id token amount (get_balance id token b)
unfolding withdraw_balance is_negative_balance_allowed
withdraw_balance_iff id token amount b {a} v found small =
    let exact = add_i64_exact i64_min (pos amount) in
    let parts = +ℤ_parts i64_min (pos amount) in
    let old = get_balance_found id token b found in
    let range = v.ranged id token in
    (
      ground (arith, found, exact, parts, old, range, v.named id a found),
      ground (arith, found, exact, parts, old, range, v.named id a found),
    )
