-- ===== src/Chain/AccountBuffer/Transfers/Steps.antt =====
-- `transferBalance` step by step: the checks, the two writes and the fee.
use Prim.Native.Nat.{◌^◌}
use pp_ledger.Base.{
  ℕ, ◌<◌, ◌≡◌, ◌∙◌, ℕ_discrete, ◌≢◌, inl, inr, true, false, ◌&&◌, none, some, arith, ◌==◌,
  Bool-cases, Option-cases, if◌then◌else◌, ℤ, pos, ◌+ℤ◌, ◌-ℤ◌, +ℤ_parts, -ℤ_parts, int_laws, ltb_ℤ,
}
use pp_ledger.Base.Word.{IsI64, i64_max, to_i64, add_i64, sub_i64, add_i64_exact, sub_i64_exact}
use pp_ledger.Base.Roe.{err, done, Roe-cases}
use pp_ledger.Map.{lookup, lookup_of_contains, contains_found}
use pp_ledger.Chain.AccountBuffer.Defs.{
  Account, Buffer, balance_of, id_genesis, id_fee, get_balance, write, pay_fee, move_funds,
  transfer_balance, verify_spending_power, e_account, e_input,
}
use pp_ledger.Chain.AccountBuffer.Balances.{
  IsValid, total, get_balance-write, contains-write, lookup-write, write-IsValid, total-write_self,
  total-write_ne, get_balance_found,
}

-- Either nothing is written, or every check before the writes has passed.
pub data Outcome (from to token amount fee : ℕ) (b : Buffer) : Type 0 where
  refused :
      (e : ℕ)
      → transfer_balance from to token amount fee b ≡ (err e, b)
      → Outcome from to token amount fee b
  moved :
      (sender receiver : Account)
      → lookup from b ≡ some sender
      → lookup to b ≡ some receiver
      → verify_spending_power from token amount fee b ≡ done
      → ltb_ℤ (sub_i64 i64_max (to_i64 amount)) (balance_of token receiver) ≡ false
      → transfer_balance from to token amount fee b
        ≡ move_funds from to token (to_i64 amount) (to_i64 fee) sender receiver b
      → Outcome from to token amount fee b

pub outcome : (from to token amount fee : ℕ) (b : Buffer) → Outcome from to token amount fee b
unfolding transfer_balance
outcome from to token amount fee b =
    elim (Roe-cases (verify_spending_power from token amount fee b)) [
      | inr (e, spend) ↦ refused e (rw (spend, transfer_balance))
      | inl (tt, spend) ↦ elim (Option-cases (lookup from b)) [
        | inl hs ↦ refused e_account (rw (spend, hs, transfer_balance))
        | inr (sender, hs) ↦ elim (Option-cases (lookup to b)) [
          | inl hr ↦ refused e_account (rw (spend, hs, hr, transfer_balance))
          | inr (receiver, hr) ↦
              elim (Bool-cases
                (ltb_ℤ (sub_i64 i64_max (to_i64 amount)) (balance_of token receiver))) [
                  | inl full ↦ refused e_input (rw (spend, hs, hr, transfer_balance) (rw full))
                  | inr room ↦
                      moved sender receiver hs hr spend room
                        (rw (spend, hs, hr, transfer_balance) (rw room))
                ]
        ]
      ]
    ]

pub transfer_moves :
    (from to token amount fee : ℕ) (b : Buffer) (sender receiver : Account)
    → lookup from b ≡ some sender
    → lookup to b ≡ some receiver
    → verify_spending_power from token amount fee b ≡ done
    → ltb_ℤ (sub_i64 i64_max (to_i64 amount)) (balance_of token receiver) ≡ false
    → transfer_balance from to token amount fee b
      ≡ move_funds from to token (to_i64 amount) (to_i64 fee) sender receiver b
unfolding transfer_balance
transfer_moves from to token amount fee b sender receiver hs hr spend room =
    rw (spend, hs, hr, transfer_balance) (rw room)

-- How `pay_fee` ends, where `charged` is the buffer in which the sender has paid.
pub data Payment (from : ℕ) (native fee : ℤ) (b : Buffer) : Type 0 where
  no_fee_account :
      lookup id_fee (write from id_genesis native b) ≡ none
      → pay_fee from native fee b ≡ (err e_account, write from id_genesis native b)
      → Payment from native fee b
  full :
      ltb_ℤ (sub_i64 i64_max fee) (get_balance id_fee id_genesis (write from id_genesis native b))
        ≡ true
      → pay_fee from native fee b ≡ (err e_input, write from id_genesis native b)
      → Payment from native fee b
  paid :
      (f : Account)
      → lookup id_fee (write from id_genesis native b) ≡ some f
      → ltb_ℤ (sub_i64 i64_max fee) (get_balance id_fee id_genesis (write from id_genesis native b))
        ≡ false
      → pay_fee from native fee b ≡ (
        done,
        write id_fee id_genesis
            (add_i64 (get_balance id_fee id_genesis (write from id_genesis native b)) fee)
            (write from id_genesis native b),
      )
      → Payment from native fee b

pub payment : (from : ℕ) (native fee : ℤ) (b : Buffer) → Payment from native fee b
unfolding pay_fee
payment from native fee b =
    let charged = write from id_genesis native b in
    elim (Option-cases (lookup id_fee charged)) [
      | inl e ↦ no_fee_account e (rw (e, pay_fee))
      | inr (f, e) ↦
          elim (Bool-cases (ltb_ℤ (sub_i64 i64_max fee) (get_balance id_fee id_genesis charged))) [
            | inl no_room ↦
                full no_room
                  (ground (arith, e, no_room, get_balance_found id_fee id_genesis charged e))
            | inr room ↦
                paid f e room
                  (ground (arith, e, room, get_balance_found id_fee id_genesis charged e))
          ]
    ]

-- The sum in the fee account is exact where the code's test lets it through.
fee_fits :
    (fee : ℕ) (charged : Buffer)
    → IsValid charged
    → fee < 2 ^ 63
    → ltb_ℤ (sub_i64 i64_max (pos fee)) (get_balance id_fee id_genesis charged) ≡ false
    → IsI64 (get_balance id_fee id_genesis charged +ℤ pos fee)
      × (add_i64 (get_balance id_fee id_genesis charged) (pos fee)
          ≡ get_balance id_fee id_genesis charged +ℤ pos fee)
fee_fits fee charged valid small room =
    let current = get_balance id_fee id_genesis charged in
    let top : sub_i64 i64_max (pos fee) ≡ i64_max -ℤ pos fee =
      sub_i64_exact i64_max (pos fee) (ground (arith, -ℤ_parts i64_max (pos fee))) in
    let fits : IsI64 (current +ℤ pos fee) = ground (
      arith,
      room,
      top,
      valid.ranged id_fee id_genesis,
      +ℤ_parts current (pos fee),
      -ℤ_parts i64_max (pos fee),
    ) in
    (fits, add_i64_exact current (pos fee) fits)

-- Paying a fee that the account's native balance covers keeps the invariant and every total.
module _ (from fee : ℕ) (b : Buffer) (a : Account) (h : lookup from b ≡ some a)
    (v : IsValid b) where
  pub pay_fee_ok :
      (native : ℤ) (b' : Buffer)
      → fee < 2 ^ 63
      → native ≡ get_balance from id_genesis b -ℤ pos fee
      → IsI64 native
      → pay_fee from native (pos fee) b ≡ (done, b')
      → IsValid b' × ((s : ℕ) → total s b' ≡ total s b)
  pay_fee_ok native b' small e r p = elim (payment from native (pos fee) b) [
    | no_fee_account _ q ↦ cc
    | full _ q ↦ cc
    | paid f hf room q ↦
        let charged = write from id_genesis native b in
        let charged_valid = write-IsValid from id_genesis native b h r v in
        let current = get_balance id_fee id_genesis charged in
        let (fits, sum) = fee_fits fee charged charged_valid small room in
        let same : b' ≡ write id_fee id_genesis (current +ℤ pos fee) charged =
          ground (arith, p, q, sum) in
        rw same (
          write-IsValid id_fee id_genesis (current +ℤ pos fee) charged hf fits charged_valid,
          λ s. elim (ℕ_discrete id_genesis s) [
            | yes z ↦
                rw
                  (
                    ← z,
                    total-write_self id_fee id_genesis (current +ℤ pos fee) charged hf
                        charged_valid,
                    total-write_self from id_genesis native b h v,
                    e,
                  )
                  (omega int_laws)
            | no z ↦
                total-write_ne id_fee id_genesis s (current +ℤ pos fee) charged hf charged_valid z
                ∙ total-write_ne from id_genesis s native b h v z
          ],
        )
  ]

-- Every balance after a fee is paid.
pub pay_fee_exact :
    (from fee : ℕ) (b : Buffer) {a : Account} (native : ℤ) (b' : Buffer)
    → lookup from b ≡ some a
    → IsValid b
    → fee < 2 ^ 63
    → IsI64 native
    → pay_fee from native (pos fee) b ≡ (done, b')
    → (j s : ℕ)
    → get_balance j s b' ≡ (
        if id_fee == j && id_genesis == s
        then get_balance id_fee id_genesis (write from id_genesis native b) +ℤ pos fee
        else get_balance j s (write from id_genesis native b))
pay_fee_exact from fee b native b' h v small r p j s = elim (payment from native (pos fee) b) [
  | no_fee_account _ q ↦ cc
  | full _ q ↦ cc
  | paid f hf room q ↦
      let charged = write from id_genesis native b in
      let valid = write-IsValid from id_genesis native b h r v in
      ground (
        arith,
        p,
        q,
        fee_fits fee charged valid small room,
        get_balance-write id_fee j id_genesis s
            (add_i64 (get_balance id_fee id_genesis charged) (pos fee)) charged hf,
      )
]

-- The two writes of a transfer between different accounts, where both new balances are exact.
module _ (from to token amount : ℕ) (b : Buffer) {sender receiver : Account}
    (hs : lookup from b ≡ some sender) (hr : lookup to b ≡ some receiver) (ne : from ≢ to)
    (v : IsValid b) (taken given : ℤ) (ht : taken ≡ get_balance from token b -ℤ pos amount)
    (rt : IsI64 taken) (hg : given ≡ get_balance to token b +ℤ pos amount) (rg : IsI64 given) where
  unfoldable pub moved_buffer : Buffer
  moved_buffer = write to token given (write from token taken b)

  pub receiver_stays : lookup to (write from token taken b) ≡ some receiver
  receiver_stays = ground (arith, lookup-write from to token taken b sender hs)

  pub moved-IsValid : IsValid moved_buffer
  unfolding moved_buffer
  moved-IsValid =
      write-IsValid to token given (write from token taken b) receiver_stays rg
        (write-IsValid from token taken b hs rt v)

  pub moved_total : (s : ℕ) → total s moved_buffer ≡ total s b
  unfolding moved_buffer
  moved_total s =
      let one = write-IsValid from token taken b hs rt v in
      let same : get_balance to token (write from token taken b) ≡ get_balance to token b =
        ground (arith, get_balance-write from to token token taken b hs) in
      elim (ℕ_discrete token s) [
        | yes z ↦
            rw
              (
                ← z,
                total-write_self to token given (write from token taken b) receiver_stays one,
                total-write_self from token taken b hs v,
                same,
                ht,
                hg,
              )
              (omega int_laws)
        | no z ↦
            total-write_ne to token s given (write from token taken b) receiver_stays one z
            ∙ total-write_ne from token s taken b hs v z
      ]

  pub moved_sender : (a : Account) × (lookup from moved_buffer ≡ some a)
  unfolding moved_buffer
  moved_sender = lookup_of_contains from moved_buffer (
      contains-write to from token given (write from token taken b)
      ∙ contains-write from from token taken b
      ∙ contains_found from b hs)

  pub moved_balance :
      (j s : ℕ)
      → get_balance j s moved_buffer ≡ (
          if to == j && token == s
          then given
          else (if from == j && token == s then taken else get_balance j s b))
  unfolding moved_buffer
  moved_balance j s = ground (
    arith,
    get_balance-write to j token s given (write from token taken b) receiver_stays,
    get_balance-write from j token s taken b hs,
  )
