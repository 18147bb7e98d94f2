-- ===== src/Chain/AccountBuffer/Defs.antt =====
-- The state and the operations of the class AccountBuffer.
use Prim.Native.Nat.{◌^◌}
use pp_ledger.Base.{
  ℕ, ◌-◌, Bool, true, false, ◌&&◌, ◌||◌, not, Option, none, some, List, [], ◌∷◌, ltb, ◌==◌,
  if◌then◌else◌, ℤ, pos, ltb_ℤ, eqb_ℤ, pos_part,
}
use pp_ledger.Base.Word.{i64_max, i64_min, to_i64, add_i64, sub_i64}
use pp_ledger.Base.Roe.{Roe, ok, err, Done, done, Action}
use pp_ledger.Map.{Map, lookup, contains, insert, erase}
use pp_ledger.Chain.Types.{Wallet}

abbrev pub id_genesis : ℕ
id_genesis = 0

abbrev pub id_fee : ℕ
id_fee = 1

abbrev pub id_reserve : ℕ
id_reserve = 2

abbrev pub id_recycle : ℕ
id_recycle = 3

abbrev pub id_first_user : ℕ
id_first_user = 2 ^ 30

abbrev pub initial_token_supply : ℕ
initial_token_supply = 2 ^ 30

abbrev pub e_account : ℕ
e_account = 1

abbrev pub e_balance : ℕ
e_balance = 2

abbrev pub e_input : ℕ
e_input = 3

pub record Account : Type 0 where
  pub id : ℕ
  pub wallet : Wallet
  pub block_id : ℕ

-- mAccounts_
abbrev pub Buffer : Type 0
Buffer = Map Account

unfoldable pub has_account : ℕ → Buffer → Bool
has_account id b = contains id b

unfoldable pub is_negative_balance_allowed : Account → ℕ → Bool
is_negative_balance_allowed a token = ltb a.id id_first_user && a.id == token

unfoldable pub account_ids_before_block_id : ℕ → Buffer → List ℕ
account_ids_before_block_id limit [] = []
account_ids_before_block_id limit ((id, a) ∷ b) =
    let rest = account_ids_before_block_id limit b in
    if ltb a.block_id limit then id ∷ rest else rest

unfoldable pub get_account : ℕ → Buffer → Roe Account
get_account id b = elim (lookup id b) [ none ↦ err e_account | some a ↦ ok a ]

-- A balance that a wallet lacks reads as 0.
abbrev pub or_zero : Option ℤ → ℤ
or_zero none = pos 0
or_zero (some v) = v

abbrev pub balance_of : ℕ → Account → ℤ
balance_of token a = or_zero (lookup token a.wallet.balances)

unfoldable pub get_balance : ℕ → ℕ → Buffer → ℤ
get_balance id token b = elim (lookup id b) [ none ↦ pos 0 | some a ↦ balance_of token a ]

-- Of each account with a positive native balance its id and that balance.
unfoldable pub get_stakeholders : Buffer → List (ℕ × ℕ)
get_stakeholders [] = []
get_stakeholders ((id, a) ∷ b) =
    let rest = get_stakeholders b in
    let native = balance_of id_genesis a in
    if ltb_ℤ (pos 0) native then (id, pos_part native) ∷ rest else rest

-- `it->second.wallet.mBalances[token] = v`, at the account that the iterator stands on
unfoldable pub write : ℕ → ℕ → ℤ → Buffer → Buffer
write id token v b = elim (lookup id b) [
  | none ↦ b
  | some a ↦
      insert id
        (record a { wallet = record (a.wallet) { balances = insert token v a.wallet.balances } }) b
]

unfoldable pub add : Account → Action Buffer (Unit {0})
unfolding has_account
add a b = if has_account a.id b then (err e_account, b) else (done, insert a.id a b)

-- What was copied before a missing account stays copied.
unfoldable pub update : Buffer → Action Buffer (Unit {0})
unfolding has_account
update [] b = (done, b)
update ((id, a) ∷ other) b =
    let rest = update other (insert id a b) in
    if not (has_account id b) then (err e_account, b) else rest

unfoldable pub seed_from_committed_if_missing : Buffer → ℕ → Action Buffer (Unit {0})
unfolding has_account get_account add
seed_from_committed_if_missing committed id b =
    if has_account id b
    then (done, b)
    else (if not (has_account id committed)
        then (err e_account, b)
        else elim (get_account id committed) [ ok a ↦ add a b | err e ↦ (err e, b) ])

-- What is left to check once the account is found: `amount` and `fee` are signed here.
unfoldable pub verify_spending_of : Account → ℕ → ℤ → ℤ → Done
unfolding is_negative_balance_allowed
verify_spending_of a token amount fee =
    let token_balance = balance_of token a in
    let fee_balance = if token == id_genesis then token_balance else balance_of id_genesis a in
    let allowed = is_negative_balance_allowed a token in
    if token == id_genesis
    then (if allowed
        then (if ltb_ℤ token_balance (add_i64 (add_i64 amount fee) i64_min)
            then err e_balance
            else done)
        else (if ltb_ℤ token_balance (add_i64 amount fee) then err e_balance else done))
    else (if allowed && ltb_ℤ token_balance (add_i64 amount i64_min)
        then err e_balance
        else (if not allowed && ltb_ℤ token_balance amount
            then err e_balance
            else (if ltb_ℤ fee_balance fee then err e_balance else done)))

unfoldable pub verify_spending_power : ℕ → ℕ → ℕ → ℕ → Buffer → Done
verify_spending_power id token amount fee b =
    if ltb (2 ^ 63 - 1) amount
    then err e_input
    else (if ltb (2 ^ 63 - 1) fee then err e_input else elim (lookup id b) [
      | none ↦ err e_account
      | some a ↦ verify_spending_of a token (to_i64 amount) (to_i64 fee)
    ])

-- Every balance of the first map but the native one equals the second map's.
unfoldable pub balances_match : Map ℤ → Map ℤ → Bool
balances_match [] other = true
balances_match ((token, v) ∷ m) other =
    let rest = balances_match m other in
    if token == id_genesis
    then rest
    else (if eqb_ℤ v (or_zero (lookup token other)) then rest else false)

-- safeAdd: none where the sum would overflow
unfoldable pub safe_add : ℤ → ℤ → Option ℤ
safe_add a b =
    if (ltb_ℤ (pos 0) b && ltb_ℤ (sub_i64 i64_max b) a)
      || (ltb_ℤ b (pos 0) && ltb_ℤ a (sub_i64 i64_min b))
    then none
    else some (add_i64 a b)

unfoldable pub verify_balance_of : Account → ℤ → ℤ → Map ℤ → Done
verify_balance_of a amount fee expected =
    if not (balances_match a.wallet.balances expected)
    then err e_balance
    else (if not (balances_match expected a.wallet.balances)
        then err e_balance
        else elim (safe_add amount fee) [
          | none ↦ err e_balance
          | some delta ↦ elim (safe_add (or_zero (lookup id_genesis expected)) delta) [
            | none ↦ err e_balance
            | some native ↦ if eqb_ℤ (balance_of id_genesis a) native then done else err e_balance
          ]
        ])

unfoldable pub verify_balance : ℕ → ℕ → ℕ → Map ℤ → Buffer → Done
verify_balance id amount fee expected b =
    if ltb (2 ^ 63 - 1) amount
    then err e_input
    else (if ltb (2 ^ 63 - 1) fee then err e_input else elim (lookup id b) [
      | none ↦ err e_account
      | some a ↦ verify_balance_of a (to_i64 amount) (to_i64 fee) expected
    ])

unfoldable pub deposit_balance : ℕ → ℕ → ℤ → Action Buffer (Unit {0})
deposit_balance id token amount b =
    if ltb_ℤ amount (pos 0) then (err e_input, b) else elim (lookup id b) [
      | none ↦ (err e_account, b)
      | some a ↦
          if ltb_ℤ (sub_i64 i64_max amount) (balance_of token a)
          then (err e_balance, b)
          else (done, write id token (add_i64 (balance_of token a) amount) b)
    ]

unfoldable pub withdraw_balance : ℕ → ℕ → ℤ → Action Buffer (Unit {0})
unfolding is_negative_balance_allowed
withdraw_balance id token amount b =
    if ltb_ℤ amount (pos 0) then (err e_input, b) else elim (lookup id b) [
      | none ↦ (err e_account, b)
      | some a ↦
          if not (is_negative_balance_allowed a token) && ltb_ℤ (balance_of token a) amount
          then (err e_balance, b)
          else (if ltb_ℤ (balance_of token a) (add_i64 i64_min amount)
              then (err e_balance, b)
              else (done, write id token (sub_i64 (balance_of token a) amount) b))
    ]

-- The fee: the sender's native balance becomes `native`, and the fee goes to the fee account. Both
-- failures come after the sender has been charged.
unfoldable pub pay_fee : ℕ → ℤ → ℤ → Action Buffer (Unit {0})
pay_fee from native fee b =
    let charged = write from id_genesis native b in
    elim (lookup id_fee charged) [
      | none ↦ (err e_account, charged)
      | some a ↦
          let current = balance_of id_genesis a in
          if ltb_ℤ (sub_i64 i64_max fee) current
          then (err e_input, charged)
          else (done, write id_fee id_genesis (add_i64 current fee) charged)
    ]

-- The writes of a transfer, from the balances that were read before the first of them.
unfoldable pub move_funds : ℕ → ℕ → ℕ → ℤ → ℤ → Account → Account → Action Buffer (Unit {0})
move_funds from to token amount fee sender receiver b =
    let taken = sub_i64 (balance_of token sender) amount in
    let given = add_i64 (balance_of token receiver) amount in
    let moved = write to token given (write from token taken b) in
    let native = if token == id_genesis then taken else balance_of id_genesis sender in
    if ltb_ℤ (pos 0) fee then pay_fee from (sub_i64 native fee) fee moved else (done, moved)

unfoldable pub transfer_balance : ℕ → ℕ → ℕ → ℕ → ℕ → Action Buffer (Unit {0})
transfer_balance from to token amount fee b = elim (verify_spending_power from token amount fee b) [
  | err e ↦ (err e, b)
  | ok _ ↦ elim (lookup from b) [
    | none ↦ (err e_account, b)
    | some sender ↦ elim (lookup to b) [
      | none ↦ (err e_account, b)
      | some receiver ↦
          if ltb_ℤ (sub_i64 i64_max (to_i64 amount)) (balance_of token receiver)
          then (err e_input, b)
          else move_funds from to token (to_i64 amount) (to_i64 fee) sender receiver b
    ]
  ]
]

-- The positive balances go to the recycle account, each by `+=`.
unfoldable pub recycle : Map ℤ → Buffer → Buffer
recycle [] b = b
recycle ((token, v) ∷ m) b = recycle m (
    if ltb_ℤ (pos 0) v
    then write id_recycle token (add_i64 (get_balance id_recycle token b) v) b
    else b)

unfoldable pub write_off : ℕ → Action Buffer (Unit {0})
write_off id b = elim (lookup id b) [
  | none ↦ (err e_account, b)
  | some a ↦ elim (lookup id_recycle b) [
    | none ↦ (err e_account, b)
    | some _ ↦ (done, erase id (recycle a.wallet.balances b))
  ]
]

unfoldable pub remove : ℕ → Buffer → Buffer
remove id b = erase id b

unfoldable pub clear : Buffer → Buffer
clear b = []
