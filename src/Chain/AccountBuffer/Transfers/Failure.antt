-- ===== src/Chain/AccountBuffer/Transfers/Failure.antt =====
-- What a transfer that fails leaves behind, and a transfer from an account to itself.
use Prim.Native.Nat.{◌^◌}
use pp_ledger.Base.{
  ℕ, ◌+◌, ◌<◌, ◌≡◌, refl, sym, ◌∙◌, ◌≢◌, ◌⊎◌, true, false, ◌&&◌, none, some, arith, ◌==◌, lt→ltb,
  if◌then◌else◌, pos, ◌+ℤ◌, ◌-ℤ◌, +ℤ_parts, -ℤ_parts, ◌≤ℤ◌, ltb_ℤ,
}
use pp_ledger.Base.Word.{
  IsI64, i64_max, to_i64, add_i64, sub_i64, add_i64_exact, sub_i64_exact, to_i64_small,
}
use pp_ledger.Base.Roe.{err, done}
use pp_ledger.Map.{lookup, contains, lookup_of_contains, contains_found}
use pp_ledger.Chain.AccountBuffer.Defs.{
  Account, Buffer, balance_of, id_genesis, id_fee, get_balance, write, pay_fee, move_funds,
  transfer_balance, e_account,
}
use pp_ledger.Chain.AccountBuffer.Balances.{
  IsValid, get_balance-write, contains-write, get_balance_found,
}
use pp_ledger.Chain.AccountBuffer.Spending.{CanSpend, verify_spending_power_iff}
use pp_ledger.Chain.AccountBuffer.Transfers.Steps.{
  transfer_moves, outcome, refused, moved, payment, no_fee_account, full, paid, moved_buffer,
}
use pp_ledger.Chain.AccountBuffer.Transfers.Conservation.{
  after_move, new_native, move_funds_steps, sender_after, has_room,
}
use pp_ledger.Chain.AccountBuffer.Transfers.Exact.{after_move_balance}

fits :
    (id token amount : ℕ) (b : Buffer)
    → IsValid b
    → amount < 2 ^ 63
    → get_balance id token b +ℤ pos amount ≤ℤ i64_max
    → IsI64 (get_balance id token b +ℤ pos amount)
fits id token amount b v small room =
    ground (arith, room, v.ranged id token, +ℤ_parts (get_balance id token b) (pos amount))

-- A transfer without a fee from an account of a valid buffer to itself adds the amount, an int64_t, to
-- its balance when it succeeds: the second write is computed from the balance before the first.
pub transfer_balance_to_self :
    (id token amount : ℕ) (b b' : Buffer)
    → IsValid b
    → amount < 2 ^ 63
    → transfer_balance id id token amount 0 b ≡ (done, b')
    → get_balance id token b' ≡ get_balance id token b +ℤ pos amount
unfolding move_funds
transfer_balance_to_self id token amount b b' v small e = elim (outcome id id token amount 0 b) [
  | refused _ q ↦ cc
  | moved sender receiver hs hr spend room q ↦
      let taken = sub_i64 (balance_of token sender) (to_i64 amount) in
      let (a, found) =
        lookup_of_contains id (write id token taken b)
          (contains-write id id token taken b ∙ contains_found id b hs) in
      let given =
        add_i64_exact (get_balance id token b) (pos amount)
          (fits id token amount b v small (has_room id token amount b receiver hr room small)) in
      ground (
        arith,
        e,
        q,
        given,
        to_i64_small amount small,
        to_i64_small 0,
        get_balance_found id token b hr,
        get_balance-write id id token token (add_i64 (get_balance id token b) (pos amount))
            (write id token taken b) found,
      )
]

module _ (from to token amount fee : ℕ) (b : Buffer) {sender receiver : Account}
    (hs : lookup from b ≡ some sender) (hr : lookup to b ≡ some receiver) (ne : from ≢ to)
    (v : IsValid b) (small : amount + fee < 2 ^ 63) (spend : CanSpend from token amount fee b)
    (room : get_balance to token b +ℤ pos amount ≤ℤ i64_max) where
  charged : Buffer
  charged =
      write from id_genesis (new_native from to token amount fee b hs hr ne v small spend room)
        (after_move from to token amount fee b hs hr ne v small spend room)

  charged-contains : (j : ℕ) → contains j charged ≡ contains j b
  unfolding charged after_move moved_buffer
  charged-contains j =
      contains-write from j id_genesis
        (new_native from to token amount fee b hs hr ne v small spend room)
        (after_move from to token amount fee b hs hr ne v small spend room)
      ∙ contains-write to j token _ (write from token _ b)
      ∙ contains-write from j token _ b

  charged_balance :
      (j s : ℕ)
      → get_balance j s charged ≡ (
          if from == j && id_genesis == s
          then new_native from to token amount fee b hs hr ne v small spend room
          else get_balance j s (after_move from to token amount fee b hs hr ne v small spend room))
  unfolding charged
  charged_balance j s =
      get_balance-write from j id_genesis s _ _
        (sender_after from to token amount fee b hs hr ne v small spend room).1

  -- The fee account has grown by the amount at most.
  fee_account_bound :
      get_balance id_fee id_genesis charged ≤ℤ get_balance id_fee id_genesis b +ℤ pos amount
  unfolding new_native
  fee_account_bound = ground (
    arith,
    ne,
    charged_balance id_fee id_genesis,
    after_move_balance from to token amount fee b hs hr ne v small spend room id_fee id_genesis,
    +ℤ_parts (get_balance id_fee id_genesis b) (pos amount),
    -ℤ_parts (get_balance from token b) (pos amount),
    -ℤ_parts (get_balance from token b -ℤ pos amount) (pos fee),
    -ℤ_parts (get_balance from id_genesis b) (pos fee),
  )

  charged_lookup :
      lookup id_fee (
          write from id_genesis
            (new_native from to token amount fee b hs hr ne v small spend room)
            (after_move from to token amount fee b hs hr ne v small spend room))
        ≡ none
      → contains id_fee b ≡ false
  unfolding charged
  charged_lookup h = ground (arith, h, charged-contains id_fee)

  charged_full :
      ltb_ℤ (sub_i64 i64_max (pos fee)) (
          get_balance id_fee id_genesis (
            write from id_genesis
              (new_native from to token amount fee b hs hr ne v small spend room)
              (after_move from to token amount fee b hs hr ne v small spend room)))
        ≡ true
      → ¬ (get_balance id_fee id_genesis b +ℤ pos (amount + fee) ≤ℤ i64_max)
  unfolding charged
  charged_full h space = ground (
    arith,
    h,
    space,
    fee_account_bound,
    sub_i64_exact i64_max (pos fee),
    -ℤ_parts i64_max (pos fee),
    +ℤ_parts (get_balance id_fee id_genesis b) (pos amount),
    +ℤ_parts (get_balance id_fee id_genesis b) (pos (amount + fee)),
  )

  move_funds_atomic :
      (e : ℕ) (b' : Buffer)
      → (fee ≡ 0)
        ⊎ ((contains id_fee b ≡ true)
            × (get_balance id_fee id_genesis b +ℤ pos (amount + fee) ≤ℤ i64_max))
      → move_funds from to token (pos amount) (pos fee) sender receiver b ≡ (err e, b')
      → b' ≡ b
  move_funds_atomic e b' safe p =
      let native = new_native from to token amount fee b hs hr ne v small spend room in
      let moved_b = after_move from to token amount fee b hs hr ne v small spend room in
      let steps = move_funds_steps from to token amount fee b hs hr ne v small spend room in
      let bound = fee_account_bound in
      elim (payment from native (pos fee) moved_b) [
        | no_fee_account h q ↦ absurd (ground (arith, p, steps, safe, charged_lookup h))
        | full h q ↦ absurd (ground (arith, p, steps, safe, q, charged_full h))
        | paid f h r q ↦ absurd (ground (arith, p, steps, q))
      ]

  move_funds_no_fee_account :
      0 < fee
      → lookup id_fee b ≡ none
      → let (r, b') = move_funds from to token (pos amount) (pos fee) sender receiver b in
        (r ≡ err e_account) × (get_balance to token b' ≡ get_balance to token b +ℤ pos amount)
  unfolding pay_fee charged
  move_funds_no_fee_account some_fee lost =
      let gone : lookup id_fee charged ≡ none = ground (arith, lost, charged-contains id_fee) in
      rw
        (
          move_funds_steps from to token amount fee b hs hr ne v small spend room,
          lt→ltb 0 fee some_fee,
        )
        (rw (gone, pay_fee)
          (
            refl,
            ground (
              arith,
              ne,
              charged_balance to token,
              after_move_balance from to token amount fee b hs hr ne v small spend room to token,
            ),
          ))

tight :
    (to token amount : ℕ) (b : Buffer) (receiver : Account)
    → lookup to b ≡ some receiver
    → get_balance to token b +ℤ pos amount ≤ℤ i64_max
    → amount < 2 ^ 63
    → ltb_ℤ (sub_i64 i64_max (to_i64 amount)) (balance_of token receiver) ≡ false
tight to token amount b receiver hr room small = ground (
  arith,
  room,
  get_balance_found to token b hr,
  to_i64_small amount small,
  sub_i64_exact i64_max (pos amount),
  -ℤ_parts i64_max (pos amount),
  +ℤ_parts (get_balance to token b) (pos amount),
)

-- A failing transfer between different accounts of a valid buffer, with amount and fee together an
-- int64_t, leaves the buffer as it was if there is no fee, or if the fee account exists and has room
-- for the amount and the fee.
pub transfer_balance_atomic :
    (from to token amount fee : ℕ) (b b' : Buffer) {e : ℕ}
    → IsValid b
    → from ≢ to
    → amount + fee < 2 ^ 63
    → (fee ≡ 0)
      ⊎ ((contains id_fee b ≡ true)
          × (get_balance id_fee id_genesis b +ℤ pos (amount + fee) ≤ℤ i64_max))
    → transfer_balance from to token amount fee b ≡ (err e, b')
    → b' ≡ b
transfer_balance_atomic from to token amount fee b b' {e} v ne small safe p =
    elim (outcome from to token amount fee b) [
      | refused _ q ↦ cc
      | moved sender receiver hs hr spend room q ↦
          let can = (verify_spending_power_iff from token amount fee b v hs small).0 spend in
          let space = has_room to token amount b receiver hr room (omega arith) in
          move_funds_atomic from to token amount fee b hs hr ne v small can space e b' safe
            (rw (← to_i64_small amount (omega arith), ← to_i64_small fee (omega arith)) (sym q ∙ p))
    ]

-- In a valid buffer without a fee account, a transfer with a fee between different accounts fails
-- after the receiver has been paid, and the buffer keeps the payment. The sender can pay, the
-- receiver has room, and amount and fee together are an int64_t.
pub transfer_balance_no_fee_account :
    (from to token amount fee : ℕ) (b : Buffer)
    → IsValid b
    → from ≢ to
    → amount + fee < 2 ^ 63
    → 0 < fee
    → lookup id_fee b ≡ none
    → CanSpend from token amount fee b
    → contains from b ≡ true
    → contains to b ≡ true
    → get_balance to token b +ℤ pos amount ≤ℤ i64_max
    → let (r, b') = transfer_balance from to token amount fee b in
      (r ≡ err e_account) × (get_balance to token b' ≡ get_balance to token b +ℤ pos amount)
transfer_balance_no_fee_account from to token amount fee b v ne small charged lost spend cf ct
      room =
    let (sender, hs) = lookup_of_contains from b cf in
    let (receiver, hr) = lookup_of_contains to b ct in
    let ok_spend = (verify_spending_power_iff from token amount fee b v hs small).1 spend in
    let sa = to_i64_small amount (omega arith) in
    let start =
      transfer_moves from to token amount fee b sender receiver hs hr ok_spend
        (tight to token amount b receiver hr room (omega arith)) in
    rw (start, sa, to_i64_small fee (omega arith))
      (move_funds_no_fee_account from to token amount fee b hs hr ne v small spend room charged
        lost)
