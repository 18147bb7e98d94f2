-- ===== src/Chain/AccountBuffer/WriteOff.antt =====
-- `writeOff`: the positive balances of an account go to the recycle account, and the account goes.

use pp_ledger.Base.{
  ℕ, suc, [], ◌∷◌, ◌+◌, ◌≡◌, refl, sym, ◌∙◌, ap, ◌≢◌, ℕ_discrete, inl, inr, Bool, true, false, ◌&&◌,
  some, arith, ◌==◌, Bool-cases, if◌then◌else◌, ℤ, pos, ◌+ℤ◌, int_laws, ltb_ℤ, pos_part,
}
use pp_ledger.Base.Word.{IsI64, add_i64, add_i64_exact}
use pp_ledger.Base.Roe.{done}
use pp_ledger.Map.{
  erase, Map, lookup-erase, IsAbove, IsSorted, lookup_below, lookup, contains, lookup_of_contains,
  contains_found,
}
use pp_ledger.Chain.AccountBuffer.Defs.{
  Account, Buffer, get_balance, write, write_off, recycle, id_recycle, or_zero,
}
use pp_ledger.Chain.AccountBuffer.Balances.{
  IsValid, get_balance-write, contains-write, write-IsValid, get_balance_found, erase-IsValid,
  get_balance-erase, shift_up, same_place,
}

abbrev share : ℕ → Map ℤ → ℕ
share s m = pos_part (or_zero (lookup s m))

no_shift : (c : Bool) (n : ℕ) (z : ℤ) → n ≡ 0 → z ≡ z +ℤ pos (if c then n else 0)
no_shift true n z h = omega int_laws
no_shift false n z h = omega int_laws

-- Each entry adds its positive part to the recycle account, where the sums are int64_t.
recycle_step :
    (t : ℕ) (x : ℤ) (b : Buffer) (r : Account)
    → lookup id_recycle b ≡ some r
    → IsValid b
    → IsI64 (get_balance id_recycle t b +ℤ pos (pos_part x))
    → let b' =
        (if ltb_ℤ (pos 0) x
          then write id_recycle t (add_i64 (get_balance id_recycle t b) x) b
          else b) in
      IsValid b'
      × (contains id_recycle b' ≡ true)
      × ((j s : ℕ)
          → get_balance j s b'
            ≡ get_balance j s b +ℤ pos (if id_recycle == j && t == s then pos_part x else 0))
recycle_step t x b r found v fits = elim (Bool-cases (ltb_ℤ (pos 0) x)) [
  | inl grows ↦
      let whole : x ≡ pos (pos_part x) = ground (arith, grows) in
      let sum : add_i64 (get_balance id_recycle t b) x
          ≡ get_balance id_recycle t b +ℤ pos (pos_part x) =
        ap (add_i64 (get_balance id_recycle t b)) whole
        ∙ add_i64_exact (get_balance id_recycle t b) (pos (pos_part x)) fits in
      rw (grows, sum)
        (
          write-IsValid id_recycle t _ b found fits v,
          contains-write id_recycle id_recycle t _ b ∙ contains_found id_recycle b found,
          λ j s.
              rw
                (get_balance-write id_recycle j t s (get_balance id_recycle t b +ℤ pos (pos_part x))
                  b found)
                (shift_up (id_recycle == j && t == s) (pos_part x) (get_balance id_recycle t b)
                  (get_balance j s b) (same_place id_recycle t j s b)),
        )
  | inr stays ↦ rw stays (
    v,
    contains_found id_recycle b found,
    λ j s.
        no_shift (id_recycle == j && t == s) (pos_part x) (get_balance j s b)
          (ground (arith, stays)),
  )
]

share_cons :
    (s t : ℕ) (x : ℤ) (m : Map ℤ)
    → IsAbove (suc t) m
    → share s ((t, x) ∷ m) ≡ (if t == s then pos_part x else 0) + share s m
unfolding lookup
share_cons s t x m above = ground (arith, lookup_below (suc t) s m above)

two_shifts : (z : ℤ) (a c n : ℕ) → n ≡ a + c → z +ℤ pos a +ℤ pos c ≡ z +ℤ pos n
two_shifts z a c n h = omega int_laws

recycle_lem :
    (n : ℕ) (m : Map ℤ) (b : Buffer)
    → IsAbove n m
    → IsValid b
    → contains id_recycle b ≡ true
    → ((s : ℕ) → IsI64 (get_balance id_recycle s b +ℤ pos (share s m)))
    → IsValid (recycle m b)
      × ((j s : ℕ)
          → get_balance j s (recycle m b)
            ≡ get_balance j s b +ℤ pos (if id_recycle == j then share s m else 0))
unfolding recycle lookup
recycle_lem n [] b above v found fits =
    (v, λ j s. no_shift (id_recycle == j) (share s []) (get_balance j s b) refl)
recycle_lem n ((t, x) ∷ m) b above v found fits =
    let (r, e) = lookup_of_contains id_recycle b found in
    let b' =
      (if ltb_ℤ (pos 0) x
        then write id_recycle t (add_i64 (get_balance id_recycle t b) x) b
        else b) in
    let head : share t ((t, x) ∷ m) ≡ pos_part x =
      ground (arith, share_cons t t x m above.1, lookup_below (suc t) t m above.1) in
    let (v', found', step) = recycle_step t x b r e v (rw (← head) (fits t)) in
    let both = λ (s : ℕ).
      two_shifts (get_balance id_recycle s b) (if t == s then pos_part x else 0) (share s m)
        (share s ((t, x) ∷ m)) (share_cons s t x m above.1) in
    let (v'', rest) =
      recycle_lem (suc t) m b' above.1 v' found' (λ s. rw (step id_recycle s, both s) (fits s)) in
    (
      v'',
      λ j s.
          rest j s
          ∙ ap (λ y. y +ℤ pos (if id_recycle == j then share s m else 0)) (step j s)
          ∙ two_shifts (get_balance j s b) (if id_recycle == j && t == s then pos_part x else 0)
              (if id_recycle == j then share s m else 0)
              (if id_recycle == j then share s ((t, x) ∷ m) else 0)
              (ground (arith, share_cons s t x m above.1)),
    )

gone : (id j s : ℕ) (b : Buffer) → j ≡ id → get_balance j s (erase id b) ≡ pos 0
unfolding get_balance
gone id j s b same = ground (arith, same, lookup-erase id j b)

-- Writing off an account of a valid buffer, other than the recycle account, whose balances are in
-- ascending order of the tokens, where the recycle account exists and has room: the account is
-- gone, what it held above 0 of each token is added to the recycle account, every other balance is
-- kept, and the buffer stays valid.
pub write_off_lem :
    (id : ℕ) (b : Buffer) {a : Account}
    → IsValid b
    → lookup id b ≡ some a
    → IsSorted a.wallet.balances
    → id ≢ id_recycle
    → contains id_recycle b ≡ true
    → ((s : ℕ) → IsI64 (get_balance id_recycle s b +ℤ pos (pos_part (get_balance id s b))))
    → let (r, b') = write_off id b in
      (r ≡ done)
      × (contains id b' ≡ false)
      × IsValid b'
      × ((j s : ℕ)
          → get_balance j s b' ≡ (
              if id == j
              then pos 0
              else get_balance j s b
                +ℤ pos (if id_recycle == j then pos_part (get_balance id s b) else 0)))
unfolding write_off
write_off_lem id b {a} v found own ne there fits =
    let (r, e) = lookup_of_contains id_recycle b there in
    let old = λ (s : ℕ). get_balance_found id s b found in
    let (valid, moved) =
      recycle_lem 0 a.wallet.balances b own v there (λ s. rw (← old s) (fits s)) in
    let rest = recycle a.wallet.balances b in
    rw (found, e, write_off)
      (
        refl,
        ground (arith, lookup-erase id id rest),
        erase-IsValid id rest valid,
        λ j s. elim (ℕ_discrete j id) [
          | yes same ↦ ground (arith, same, gone id j s rest)
          | no k ↦
              let kept =
                get_balance-erase id j s rest k
                ∙ moved j s
                ∙ ap
                    (λ (y : ℤ).
                      get_balance j s b +ℤ pos (if id_recycle == j then pos_part y else 0))
                    (sym (old s)) in
              ground (arith, k, kept)
        ],
      )
