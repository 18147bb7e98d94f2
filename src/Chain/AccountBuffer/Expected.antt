-- ===== src/Chain/AccountBuffer/Expected.antt =====
-- `verifyBalance` against what it is meant to decide.
use Prim.Native.Nat.{◌^◌}
use pp_ledger.Base.{
  ℕ, suc, [], ◌∷◌, ◌+◌, ◌<◌, ◌≡◌, refl, sym, ◌∙◌, ap, dec_lt, ◌≢◌, ◌↔◌, inl, inr, true, none, some,
  arith, Option-cases, ℤ, pos, ◌+ℤ◌, +ℤ_parts, -ℤ_parts, eq_of_parts, pos_part,
}
use pp_ledger.Base.Word.{IsI64, i64_min, i64_max, add_i64_exact, sub_i64_exact, to_i64_small}
use pp_ledger.Base.Roe.{done}
use pp_ledger.Map.{Map, IsAbove, IsSorted, lookup_below, lookup}
use pp_ledger.Chain.AccountBuffer.Defs.{
  Account, Buffer, balance_of, id_genesis, get_balance, verify_balance, verify_balance_of,
  balances_match, safe_add, or_zero,
}
use pp_ledger.Chain.AccountBuffer.Balances.{IsValid, get_balance_found}

-- Every balance of the first map but the native one is the second map's.
Agrees : Map ℤ → Map ℤ → Type 0
Agrees m other =
    (t : ℕ) (x : ℤ) → t ≢ id_genesis → lookup t m ≡ some x → x ≡ or_zero (lookup t other)

match_sound : (m other : Map ℤ) → balances_match m other ≡ true → Agrees m other
unfolding Agrees balances_match lookup
match_sound [] other h t x ne e = cc
match_sound ((j, w) ∷ m) other h t x ne e = ground (
  arith,
  eq_of_parts w (or_zero (lookup t other)),
  λ (p : balances_match m other ≡ true) (q : lookup t m ≡ some x). match_sound m other p t x ne q,
)

match_complete :
    (n : ℕ) (m other : Map ℤ) → IsAbove n m → Agrees m other → balances_match m other ≡ true
unfolding Agrees balances_match lookup
match_complete n [] other above h = refl
match_complete n ((j, w) ∷ m) other above h =
    ground (arith, match_complete (suc j) m other above.1 tail, head)
  where
    tail : (t : ℕ) (x : ℤ) → t ≢ id_genesis → lookup t m ≡ some x → x ≡ or_zero (lookup t other)
    tail t x ne e = h t x ne (ground (arith, e, lookup_below (suc j) t m above.1))

    head : j ≢ id_genesis → w ≡ or_zero (lookup j other)
    head ne = h j w ne (ground arith)

-- The overflow tests of `safeAdd` are exact.
safe_add_fits : (a b : ℤ) → IsI64 a → IsI64 b → IsI64 (a +ℤ b) → safe_add a b ≡ some (a +ℤ b)
unfolding safe_add
safe_add_fits a b ha hb h = ground (
  arith,
  add_i64_exact a b h,
  sub_i64_exact i64_max b,
  sub_i64_exact i64_min b,
  -ℤ_parts i64_max b,
  -ℤ_parts i64_min b,
  +ℤ_parts a b,
)

pos_sum : (a b : ℕ) → pos a +ℤ pos b ≡ pos (a + b)
unfolding ◌+ℤ◌
pos_sum a b = ground arith

small_sum : (a b : ℕ) → a + b < 2 ^ 63 → IsI64 (pos a +ℤ pos b)
small_sum a b h = rw (pos_sum a b) (omega arith)

safe_add_overflow : (a b : ℤ) → IsI64 a → IsI64 b → ¬ (IsI64 (a +ℤ b)) → safe_add a b ≡ none
unfolding safe_add
safe_add_overflow a b ha hb h = ground (
  arith,
  h,
  sub_i64_exact i64_max b,
  sub_i64_exact i64_min b,
  -ℤ_parts i64_max b,
  -ℤ_parts i64_min b,
  +ℤ_parts a b,
)

agree_both :
    (m other : Map ℤ)
    → Agrees m other
    → Agrees other m
    → (t : ℕ) → t ≢ id_genesis
    → or_zero (lookup t m) ≡ or_zero (lookup t other)
unfolding Agrees
agree_both m other there back t ne = elim (Option-cases (lookup t m)) [
  | inr (x, e) ↦ ground (arith, e, there t x ne e)
  | inl e ↦ elim (Option-cases (lookup t other)) [
    | inr (y, e') ↦ ground (arith, e, e', back t y ne e')
    | inl e' ↦ ground (arith, e, e')
  ]
]

agree_of_eq :
    (m other : Map ℤ)
    → ((t : ℕ) → t ≢ id_genesis → or_zero (lookup t m) ≡ or_zero (lookup t other))
    → Agrees m other
unfolding Agrees
agree_of_eq m other h t x ne e = ground (arith, h t ne, e)

-- The native balance, once the others match.
native_iff :
    (a : Account) (amount fee : ℕ) (expected : Map ℤ)
    → IsI64 (balance_of id_genesis a)
    → IsI64 (or_zero (lookup id_genesis expected))
    → amount + fee < 2 ^ 63
    → (verify_balance_of a (pos amount) (pos fee) expected ≡ done) ↔ (
        (balances_match a.wallet.balances expected ≡ true)
        × (balances_match expected a.wallet.balances ≡ true)
        × (balance_of id_genesis a ≡ or_zero (lookup id_genesis expected) +ℤ pos (amount + fee)))
unfolding verify_balance_of
native_iff a amount fee expected ra re small =
    let native = or_zero (lookup id_genesis expected) in
    let sum = +ℤ_parts native (pos (amount + fee)) in
    let delta : safe_add (pos amount) (pos fee) ≡ some (pos (amount + fee)) =
      safe_add_fits (pos amount) (pos fee) (omega arith) (omega arith) (small_sum amount fee small)
      ∙ ap some (pos_sum amount fee) in
    elim (dec_lt (pos_part (native +ℤ pos (amount + fee))) (2 ^ 63)) [
      | yes h ↦
          let whole =
            safe_add_fits native (pos (amount + fee)) re (omega arith)
              (ground (arith, h, re, sum)) in
          (
            ground (
              arith,
              delta,
              whole,
              eq_of_parts (balance_of id_genesis a) (native +ℤ pos (amount + fee)),
            ),
            ground (arith, delta, whole),
          )
      | no h ↦
          let over = safe_add_overflow native (pos (amount + fee)) re (omega arith) (λ k. h k.0) in
          (ground (arith, delta, over), ground (arith, delta, over, h, ra))
    ]

-- What `verifyBalance` is documented to check.
abbrev pub Expects : ℕ → ℕ → ℕ → Map ℤ → Buffer → Type 0
Expects id amount fee expected b =
    ((t : ℕ) → t ≢ id_genesis → get_balance id t b ≡ or_zero (lookup t expected))
    × (get_balance id id_genesis b ≡ or_zero (lookup id_genesis expected) +ℤ pos (amount + fee))

-- For an account of a valid buffer, with its balances and the expected ones in ascending order of
-- the tokens, the expected native balance an int64_t, and an amount and a fee whose sum is one,
-- `verifyBalance` accepts exactly where every balance but the native one is the expected one and
-- the native balance is the expected one plus amount and fee, a balance that is missing on either
-- side read as 0.
pub verify_balance_iff :
    (id amount fee : ℕ) (expected : Map ℤ) (b : Buffer) {a : Account}
    → IsValid b
    → lookup id b ≡ some a
    → IsSorted a.wallet.balances
    → IsSorted expected
    → IsI64 (or_zero (lookup id_genesis expected))
    → amount + fee < 2 ^ 63
    → (verify_balance id amount fee expected b ≡ done) ↔ Expects id amount fee expected b
unfolding verify_balance
verify_balance_iff id amount fee expected b {a} v found own other range small =
    let old = λ (t : ℕ). get_balance_found id t b found in
    let core =
      native_iff a amount fee expected (rw (← old id_genesis) (v.ranged id id_genesis)) range
        small in
    let ours = a.wallet.balances in
    rw (found, to_i64_small amount (omega arith), to_i64_small fee (omega arith))
      (
        λ h.
            let (m, m', native) = core.0 (ground (arith, h)) in
            (
              λ t ne.
                  old t
                  ∙ agree_both ours expected (match_sound ours expected m)
                      (match_sound expected ours m') t ne,
              old id_genesis ∙ native,
            ),
        λ h.
            let same = λ (t : ℕ) (ne : t ≢ id_genesis). sym (old t) ∙ h.0 t ne in
            let back = λ (t : ℕ) (ne : t ≢ id_genesis). sym (same t ne) in
            let accepted = core.1 (
              match_complete 0 ours expected own (agree_of_eq ours expected same),
              match_complete 0 expected ours other (agree_of_eq expected ours back),
              sym (old id_genesis) ∙ h.1,
            ) in
            ground (arith, accepted),
      )
