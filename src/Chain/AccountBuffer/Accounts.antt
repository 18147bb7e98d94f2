-- ===== src/Chain/AccountBuffer/Accounts.antt =====
-- Whole accounts: seeding a scratch buffer, writing an account off, and the stakeholders.

use pp_ledger.Base.{
  ℕ, suc, [], ◌∷◌, ◌≡◌, refl, ◌⊎◌, inl, inr, true, false, ◌&&◌, not, none, some, arith, ◌==◌,
  Option-cases, if◌then◌else◌, pos, ltb_ℤ, pos_part,
}
use pp_ledger.Base.Roe.{err, done}
use pp_ledger.Map.{lookup-insert, IsAbove, IsSorted, lookup_below, lookup, contains}
use pp_ledger.Chain.AccountBuffer.Defs.{
  Buffer, id_genesis, get_balance, seed_from_committed_if_missing, get_stakeholders, e_account,
}
use pp_ledger.Chain.AccountBuffer.Balances.{IsValid}

-- Seeding from a valid buffer fails, changing nothing, where neither buffer has the account.
-- Otherwise the account is in the buffer afterwards, as it was there or as the committed buffer
-- has it, and every other account is left alone.
pub seed_from_committed_if_missing_lem :
    (committed : Buffer) (id : ℕ) (b : Buffer)
    → IsValid committed
    → let (r, b') = seed_from_committed_if_missing committed id b in
      ((r ≡ done)
        × (contains id b' ≡ true)
        × ((j : ℕ)
            → lookup j b'
              ≡ (if id == j && not (contains id b) then lookup id committed else lookup j b)))
      ⊎ ((r ≡ err e_account) × (b' ≡ b) × (contains id b ≡ false) × (contains id committed ≡ false))
unfolding seed_from_committed_if_missing
seed_from_committed_if_missing_lem committed id b v = elim (Option-cases (lookup id b)) [
  | inr (a, e) ↦ inl (ground (arith, e), ground (arith, e), λ j. ground (arith, e))
  | inl e ↦ elim (Option-cases (lookup id committed)) [
    | inr (a, e') ↦
        let name = v.named id a e' in
        inl (
          ground (arith, e, e', name),
          ground (arith, e, e', name, lookup-insert a.id id a b),
          λ j. ground (arith, e, e', name, lookup-insert a.id j a b),
        )
    | inl e' ↦
        inr (ground (arith, e, e'), ground (arith, e, e'), ground (arith, e), ground (arith, e'))
  ]
]

stakeholders_from :
    (n : ℕ) (b : Buffer) (id : ℕ)
    → IsAbove n b
    → lookup id (get_stakeholders b) ≡ (
        if ltb_ℤ (pos 0) (get_balance id id_genesis b)
        then some (pos_part (get_balance id id_genesis b))
        else none)
unfolding get_stakeholders get_balance lookup
stakeholders_from n [] id h = refl
stakeholders_from n ((k, a) ∷ b) id h =
    ground (arith, stakeholders_from (suc k) b id h.1, lookup_below (suc k) id b h.1)

-- Of a buffer in ascending order of the ids, the stakeholders are exactly the accounts with a
-- positive native balance, each once, with that balance as its stake.
pub get_stakeholders_lem :
    (b : Buffer) (id : ℕ)
    → IsSorted b
    → lookup id (get_stakeholders b) ≡ (
        if ltb_ℤ (pos 0) (get_balance id id_genesis b)
        then some (pos_part (get_balance id id_genesis b))
        else none)
get_stakeholders_lem b id h = stakeholders_from 0 b id h
