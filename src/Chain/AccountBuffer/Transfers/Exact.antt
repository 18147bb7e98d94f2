-- ===== src/Chain/AccountBuffer/Transfers/Exact.antt =====
-- Every balance after a transfer that succeeds.
use Prim.Native.Nat.{◌^◌}
use pp_ledger.Base.{
  ℕ, ◌+◌, ◌<◌, ◌≡◌, refl, sym, ◌∙◌, ap, ◌≢◌, inl, inr, Bool, true, false, ◌&&◌, some, arith, ltb,
  ◌==◌, Bool-cases, if◌then◌else◌, ℤ, pos, ◌+ℤ◌, ◌-ℤ◌, ◌≤ℤ◌, int_laws,
}
use pp_ledger.Base.Word.{IsI64, i64_max, to_i64_small}
use pp_ledger.Base.Roe.{done}
use pp_ledger.Map.{lookup}
use pp_ledger.Chain.AccountBuffer.Defs.{
  Account, Buffer, id_genesis, id_fee, id_first_user, get_balance, write, pay_fee, move_funds,
  transfer_balance,
}
use pp_ledger.Chain.AccountBuffer.Balances.{IsValid, get_balance-write, shift_up, same_place}
use pp_ledger.Chain.AccountBuffer.Spending.{CanSpend, verify_spending_power_iff}
use pp_ledger.Chain.AccountBuffer.Transfers.Steps.{
  outcome, refused, moved, pay_fee_exact, moved_balance,
}
use pp_ledger.Chain.AccountBuffer.Transfers.Conservation.{
  after_move, new_native, given_fits, taken_fits, move_funds_steps, after_move-IsValid,
  sender_after, native_in_range, after_move_native, has_room,
}

-- What an account pays out of a token's balance, and what it is paid.
abbrev pub debit : ℕ → ℕ → ℕ → ℕ → ℕ → ℕ → ℕ
debit from token amount fee j s =
    (if from == j && token == s then amount else 0)
    + (if from == j && id_genesis == s then fee else 0)

abbrev pub credit : ℕ → ℕ → ℕ → ℕ → ℕ → ℕ → ℕ
credit to token amount fee j s =
    (if to == j && token == s then amount else 0)
    + (if id_fee == j && id_genesis == s then fee else 0)

-- A pair of assignments to different places, as a change of one place.
shift :
    (c d : Bool) (amount : ℕ) (x y z : ℤ)
    → (c ≡ true → z ≡ x)
    → (d ≡ true → z ≡ y)
    → ¬ ((c ≡ true) × (d ≡ true))
    → (if d then y +ℤ pos amount else (if c then x -ℤ pos amount else z))
      ≡ z -ℤ pos (if c then amount else 0) +ℤ pos (if d then amount else 0)
shift true true amount x y z hc hd ne = absurd (ne (refl, refl))
shift true false amount x y z hc hd ne = rw (hc refl) (omega int_laws)
shift false true amount x y z hc hd ne = rw (hd refl) (omega int_laws)
shift false false amount x y z hc hd ne = omega int_laws

shift_down :
    (c : Bool) (amount : ℕ) (x z : ℤ)
    → (c ≡ true → z ≡ x)
    → (if c then x -ℤ pos amount else z) ≡ z -ℤ pos (if c then amount else 0)
shift_down true amount x z h = rw (h refl)
shift_down false amount x z h = omega int_laws

pay_fee_shift :
    (from fee : ℕ) (b : Buffer) {a : Account} (native : ℤ) (b' : Buffer)
    → lookup from b ≡ some a
    → IsValid b
    → fee < 2 ^ 63
    → IsI64 native
    → native ≡ get_balance from id_genesis b -ℤ pos fee
    → pay_fee from native (pos fee) b ≡ (done, b')
    → (j s : ℕ)
    → get_balance j s b'
      ≡ get_balance j s b
        -ℤ pos (if from == j && id_genesis == s then fee else 0)
        +ℤ pos (if id_fee == j && id_genesis == s then fee else 0)
pay_fee_shift from fee b native b' found valid small range e p j s =
    let charged = write from id_genesis native b in
    let written : get_balance j s charged
        ≡ get_balance j s b -ℤ pos (if from == j && id_genesis == s then fee else 0) =
      rw (get_balance-write from j id_genesis s native b found, e)
        (shift_down (from == j && id_genesis == s) fee (get_balance from id_genesis b)
          (get_balance j s b) (same_place from id_genesis j s b)) in
    rw (pay_fee_exact from fee b native b' found valid small range p j s) (
      shift_up (id_fee == j && id_genesis == s) fee (get_balance id_fee id_genesis charged)
        (get_balance j s charged) (same_place id_fee id_genesis j s charged)
      ∙ ap (λ x. x +ℤ pos (if id_fee == j && id_genesis == s then fee else 0)) written)

module _ (from to token amount fee : ℕ) (b : Buffer) {sender receiver : Account}
    (hs : lookup from b ≡ some sender) (hr : lookup to b ≡ some receiver) (ne : from ≢ to)
    (v : IsValid b) (small : amount + fee < 2 ^ 63) (spend : CanSpend from token amount fee b)
    (room : get_balance to token b +ℤ pos amount ≤ℤ i64_max) where
  pub after_move_balance :
      (j s : ℕ)
      → get_balance j s (after_move from to token amount fee b hs hr ne v small spend room) ≡ (
          if to == j && token == s
          then get_balance to token b +ℤ pos amount
          else (if from == j && token == s
              then get_balance from token b -ℤ pos amount
              else get_balance j s b))
  unfolding after_move
  after_move_balance j s =
      moved_balance from to token amount b hs hr ne v _ _ refl
        (taken_fits from token amount fee b v small spend) refl
        (given_fits from to token amount fee b hs hr ne v small spend room) j s

  after_move_shift :
      (j s : ℕ)
      → get_balance j s (after_move from to token amount fee b hs hr ne v small spend room)
        ≡ get_balance j s b
          -ℤ pos (if from == j && token == s then amount else 0)
          +ℤ pos (if to == j && token == s then amount else 0)
  after_move_shift j s = rw (after_move_balance j s) (
      shift (from == j && token == s) (to == j && token == s) amount (get_balance from token b)
        (get_balance to token b) (get_balance j s b) (same_place from token j s b)
        (same_place to token j s b) (λ h. ground arith))

  move_funds_exact :
      (b' : Buffer)
      → move_funds from to token (pos amount) (pos fee) sender receiver b ≡ (done, b')
      → (j s : ℕ)
      → get_balance j s b'
        ≡ get_balance j s b
          -ℤ pos (debit from token amount fee j s)
          +ℤ pos (credit to token amount fee j s)
  move_funds_exact b' e j s = elim (Bool-cases (ltb 0 fee)) [
    | inl charged ↦
        let moved_b = after_move from to token amount fee b hs hr ne v small spend room in
        let native = new_native from to token amount fee b hs hr ne v small spend room in
        let (a, found) = sender_after from to token amount fee b hs hr ne v small spend room in
        let valid = after_move-IsValid from to token amount fee b hs hr ne v small spend room in
        let range = native_in_range from to token amount fee b hs hr ne v small spend room in
        rw
          (
            pay_fee_shift from fee moved_b native b' found valid (omega arith) range
                (after_move_native from to token amount fee b hs hr ne v small spend room)
                (ground (
                  arith,
                  e,
                  charged,
                  move_funds_steps from to token amount fee b hs hr ne v small spend room,
                ))
                j s,
            after_move_shift j s,
          )
          (omega int_laws)
    | inr free ↦
        let p : b' ≡ after_move from to token amount fee b hs hr ne v small spend room = ground (
          arith,
          e,
          free,
          move_funds_steps from to token amount fee b hs hr ne v small spend room,
        ) in
        let no_fee : fee ≡ 0 = ground (arith, free) in
        rw (p, after_move_shift j s, no_fee) (ground (arith))
  ]

-- After a transfer that succeeds between different accounts of a valid buffer, with amount and fee
-- together an int64_t, every balance of every account is what it was, less what the account pays (the amount, and the fee in native tokens) and more what it is
-- paid (the amount, and the fee if it is the fee account).
pub transfer_balance_exact :
    (from to token amount fee : ℕ) (b b' : Buffer)
    → IsValid b
    → from ≢ to
    → amount + fee < 2 ^ 63
    → transfer_balance from to token amount fee b ≡ (done, b')
    → (j s : ℕ)
    → get_balance j s b'
      ≡ get_balance j s b
        -ℤ pos (debit from token amount fee j s)
        +ℤ pos (credit to token amount fee j s)
transfer_balance_exact from to token amount fee b b' v ne small e =
    elim (outcome from to token amount fee b) [
      | refused _ q ↦ cc
      | moved sender receiver hs hr spend room q ↦
          move_funds_exact from to token amount fee b hs hr ne v small
            ((verify_spending_power_iff from token amount fee b v hs small).0 spend)
            (has_room to token amount b receiver hr room (omega arith)) b'
            (rw (← to_i64_small amount (omega arith), ← to_i64_small fee (omega arith)) (sym q ∙ e))
    ]

-- What a transfer debits is covered.
debit_covered :
    (from to token amount fee : ℕ) (b : Buffer) (j s : ℕ)
    → CanSpend from token amount fee b
    → pos 0 ≤ℤ get_balance j s b
    → ¬ ((j < id_first_user) × (j ≡ s))
    → pos (debit from token amount fee j s) ≤ℤ get_balance j s b
debit_covered from to token amount fee b j s spend n u = ground arith

-- A transfer that succeeds between different accounts of a valid buffer, with amount and fee together
-- an int64_t, makes no balance negative but that of an account below ID_FIRST_USER in the token of its
-- own id.
pub transfer_balance_nonneg :
    (from to token amount fee : ℕ) (b b' : Buffer)
    → IsValid b
    → from ≢ to
    → amount + fee < 2 ^ 63
    → transfer_balance from to token amount fee b ≡ (done, b')
    → (j s : ℕ) → ¬ ((j < id_first_user) × (j ≡ s))
    → pos 0 ≤ℤ get_balance j s b
    → pos 0 ≤ℤ get_balance j s b'
transfer_balance_nonneg from to token amount fee b b' v ne small e j s user n =
    elim (outcome from to token amount fee b) [
      | refused _ q ↦ cc
      | moved sender receiver hs hr spend room q ↦
          let covered =
            debit_covered from to token amount fee b j s
              ((verify_spending_power_iff from token amount fee b v hs small).0 spend) n user in
          rw (transfer_balance_exact from to token amount fee b b' v ne small e j s)
            (omega (int_laws, covered))
    ]
