-- ===== src/Chain/AccountBuffer/Transfers/Conservation.antt =====
-- A transfer between different accounts neither makes nor loses tokens.
use Prim.Native.Nat.{◌^◌}
use pp_ledger.Base.{
  ℕ, ◌+◌, ◌<◌, ◌≡◌, refl, sym, ◌∙◌, ◌≢◌, inl, inr, false, some, arith, ltb, ◌==◌, Bool-cases,
  if◌then◌else◌, ℤ, pos, ◌+ℤ◌, ◌-ℤ◌, +ℤ_parts, -ℤ_parts, ◌≤ℤ◌, ltb_ℤ,
}
use pp_ledger.Base.Word.{
  IsI64, i64_min, i64_max, to_i64, sub_i64, add_i64_exact, sub_i64_exact, to_i64_small,
}
use pp_ledger.Base.Roe.{done}
use pp_ledger.Map.{lookup}
use pp_ledger.Chain.AccountBuffer.Defs.{
  Account, Buffer, balance_of, id_genesis, get_balance, pay_fee, move_funds, transfer_balance,
}
use pp_ledger.Chain.AccountBuffer.Balances.{IsValid, total, get_balance_found}
use pp_ledger.Chain.AccountBuffer.Spending.{CanSpend, verify_spending_power_iff}
use pp_ledger.Chain.AccountBuffer.Transfers.Steps.{
  outcome, refused, moved, pay_fee_ok, moved_buffer, moved-IsValid, moved_total, moved_sender,
  moved_balance,
}

-- What a passed check gives: the sender's new balances fit an int64_t.
module _ (from token amount fee : ℕ) (b : Buffer) (v : IsValid b) (small : amount + fee < 2 ^ 63)
    (spend : CanSpend from token amount fee b) where
  pub taken_fits : IsI64 (get_balance from token b -ℤ pos amount)
  taken_fits = ground (
    arith,
    v.ranged from token,
    spend,
    -ℤ_parts (get_balance from token b) (pos amount),
    +ℤ_parts i64_min (pos amount),
    +ℤ_parts i64_min (pos (amount + fee)),
  )

  pub native_fits : IsI64 (
      (if token == id_genesis
        then get_balance from token b -ℤ pos amount
        else get_balance from id_genesis b)
      -ℤ pos fee)
  native_fits = ground (
    arith,
    v.ranged from token,
    v.ranged from id_genesis,
    spend,
    -ℤ_parts (get_balance from token b) (pos amount),
    -ℤ_parts (get_balance from token b -ℤ pos amount) (pos fee),
    -ℤ_parts (get_balance from id_genesis b) (pos fee),
    +ℤ_parts i64_min (pos amount),
    +ℤ_parts i64_min (pos (amount + fee)),
  )

pub has_room :
    (to token amount : ℕ) (b : Buffer) (receiver : Account)
    → lookup to b ≡ some receiver
    → ltb_ℤ (sub_i64 i64_max (to_i64 amount)) (balance_of token receiver) ≡ false
    → amount < 2 ^ 63
    → get_balance to token b +ℤ pos amount ≤ℤ i64_max
has_room to token amount b receiver hr room small = ground (
  arith,
  room,
  get_balance_found to token b hr,
  to_i64_small amount small,
  sub_i64_exact i64_max (pos amount),
  -ℤ_parts i64_max (pos amount),
  +ℤ_parts (get_balance to token b) (pos amount),
)

-- With the sums exact, `move_funds` is the two writes and then the fee.
module _ (from to token amount fee : ℕ) (b : Buffer) {sender receiver : Account}
    (hs : lookup from b ≡ some sender) (hr : lookup to b ≡ some receiver) (ne : from ≢ to)
    (v : IsValid b) (small : amount + fee < 2 ^ 63) (spend : CanSpend from token amount fee b)
    (room : get_balance to token b +ℤ pos amount ≤ℤ i64_max) where
  pub given_fits : IsI64 (get_balance to token b +ℤ pos amount)
  given_fits =
      ground (arith, room, v.ranged to token, +ℤ_parts (get_balance to token b) (pos amount))

  unfoldable pub after_move : Buffer
  after_move =
      moved_buffer from to token amount b hs hr ne v (get_balance from token b -ℤ pos amount)
        (get_balance to token b +ℤ pos amount) refl
        (taken_fits from token amount fee b v small spend) refl given_fits

  unfoldable pub new_native : ℤ
  new_native =
      (if token == id_genesis
        then get_balance from token b -ℤ pos amount
        else get_balance from id_genesis b)
      -ℤ pos fee

  pub move_funds_steps :
      move_funds from to token (pos amount) (pos fee) sender receiver b
      ≡ (if ltb 0 fee then pay_fee from new_native (pos fee) after_move else (done, after_move))
  unfolding move_funds moved_buffer after_move new_native
  move_funds_steps =
      let taken =
        sub_i64_exact (get_balance from token b) (pos amount)
          (taken_fits from token amount fee b v small spend) in
      let given = add_i64_exact (get_balance to token b) (pos amount) given_fits in
      let native = sub_i64_exact _ (pos fee) (native_fits from token amount fee b v small spend) in
      ground (
        arith,
        taken,
        given,
        native,
        get_balance_found from token b hs,
        get_balance_found to token b hr,
        get_balance_found from id_genesis b hs,
      )

  pub after_move-IsValid : IsValid after_move
  unfolding after_move
  after_move-IsValid = moved-IsValid from to token amount b hs hr ne v _ _ refl _ refl _

  pub after_move-total : (s : ℕ) → total s after_move ≡ total s b
  unfolding after_move
  after_move-total s = moved_total from to token amount b hs hr ne v _ _ refl _ refl _ s

  pub sender_after : (a : Account) × (lookup from after_move ≡ some a)
  unfolding after_move
  sender_after = moved_sender from to token amount b hs hr ne v _ _ refl _ refl _

  pub native_in_range : IsI64 new_native
  unfolding new_native
  native_in_range = native_fits from token amount fee b v small spend

  pub after_move_native : new_native ≡ get_balance from id_genesis after_move -ℤ pos fee
  unfolding after_move new_native
  after_move_native = ground (
    arith,
    ne,
    moved_balance from to token amount b hs hr ne v _ _ refl
        (taken_fits from token amount fee b v small spend) refl given_fits from id_genesis,
  )

  move_funds_conserves :
      (b' : Buffer)
      → move_funds from to token (pos amount) (pos fee) sender receiver b ≡ (done, b')
      → IsValid b' × ((s : ℕ) → total s b' ≡ total s b)
  move_funds_conserves b' e = elim (Bool-cases (ltb 0 fee)) [
    | inl charged ↦
        let (a, found) = sender_after in
        let (valid, same) =
          pay_fee_ok from fee after_move a found after_move-IsValid new_native b' (omega arith)
            after_move_native native_in_range (ground (arith, e, charged, move_funds_steps)) in
        (valid, λ s. same s ∙ after_move-total s)
    | inr free ↦
        let p : b' ≡ after_move = ground (arith, e, free, move_funds_steps) in
        rw p (after_move-IsValid, after_move-total)
  ]

-- A transfer that succeeds between different accounts of a valid buffer keeps the buffer valid and
-- the sum of every token over all accounts, where amount and fee together are an int64_t.
pub transfer_balance_conserves :
    (from to token amount fee : ℕ) (b b' : Buffer)
    → IsValid b
    → from ≢ to
    → amount + fee < 2 ^ 63
    → transfer_balance from to token amount fee b ≡ (done, b')
    → IsValid b' × ((s : ℕ) → total s b' ≡ total s b)
transfer_balance_conserves from to token amount fee b b' v ne small e =
    elim (outcome from to token amount fee b) [
      | refused _ q ↦ cc
      | moved sender receiver hs hr spend room q ↦
          move_funds_conserves from to token amount fee b hs hr ne v small
            ((verify_spending_power_iff from token amount fee b v hs small).0 spend)
            (has_room to token amount b receiver hr room (omega arith)) b'
            (rw (← to_i64_small amount (omega arith), ← to_i64_small fee (omega arith)) (sym q ∙ e))
    ]
