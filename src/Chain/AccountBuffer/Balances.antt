-- ===== src/Chain/AccountBuffer/Balances.antt =====
-- What a write of one balance does to every balance, to the invariant and to the totals.
use pp_ledger.Base.{
  ℕ, ◌≡◌, refl, ◌≢◌, Bool, true, false, ◌&&◌, some, arith, ◌==◌, if◌then◌else◌, inl, inr,
  Option-cases, ℤ, pos, ◌+ℤ◌, ◌-ℤ◌, int_laws, parts_of_eq, ap, ◌∙◌,
}
use pp_ledger.Base.Word.{IsI64}
use pp_ledger.Map.{
  lookup, contains, insert, lookup-insert, lookup-erase, erase, erase-IsAbove, IsSorted,
  insert-IsAbove, sum_by, sum_by-insert,
}
use pp_ledger.Chain.AccountBuffer.Defs.{Account, Buffer, balance_of, get_balance, write}

-- The sum of the balances of one token over all accounts.
unfoldable pub total : ℕ → Buffer → ℤ
total token b = sum_by (balance_of token) b

-- The accounts stand under their own ids, in ascending order, and each balance is an int64_t.
pub record IsValid (b : Buffer) : Type 0 where
  pub sorted : IsSorted b
  pub named : (k : ℕ) (a : Account) → lookup k b ≡ some a → a.id ≡ k
  pub ranged : (k token : ℕ) → IsI64 (get_balance k token b)

abbrev with_balance : ℕ → ℤ → Account → Account
with_balance token v a = record a {
  wallet = record (a.wallet) { balances = insert token v a.wallet.balances };
}

pub balance_of-with_balance :
    (token s : ℕ) (v : ℤ) (a : Account)
    → balance_of s (with_balance token v a) ≡ (if token == s then v else balance_of s a)
balance_of-with_balance token s v a = ground (arith, lookup-insert token s v a.wallet.balances)

pub lookup-write :
    (id j token : ℕ) (v : ℤ) (b : Buffer) (a : Account)
    → lookup id b ≡ some a
    → lookup j (write id token v b)
      ≡ (if id == j then some (with_balance token v a) else lookup j b)
unfolding write
lookup-write id j token v b a e = ground (arith, lookup-insert id j (with_balance token v a) b)

pub get_balance-write :
    (id j token s : ℕ) (v : ℤ) (b : Buffer) {a : Account}
    → lookup id b ≡ some a
    → get_balance j s (write id token v b)
      ≡ (if id == j && token == s then v else get_balance j s b)
unfolding get_balance
get_balance-write id j token s v b {a} e =
    ground (arith, lookup-write id j token v b a e, balance_of-with_balance token s v a)

-- No account appears or goes.
pub contains-write :
    (id j token : ℕ) (v : ℤ) (b : Buffer) → contains j (write id token v b) ≡ contains j b
contains-write id j token v b = elim (Option-cases (lookup id b)) [
  | inl e ↦ unfold write in (rw (e, write))
  | inr (a, e) ↦ ground (arith, lookup-write id j token v b a e)
]

pub write-IsValid :
    (id token : ℕ) (v : ℤ) (b : Buffer) {a : Account}
    → lookup id b ≡ some a
    → IsI64 v
    → IsValid b
    → IsValid (write id token v b)
write-IsValid id token v b {a} e r h = record {
  sorted =
      unfold write in
      (rw (e, write) (insert-IsAbove 0 id (with_balance token v a) b (omega arith) h.sorted));
  named = λ k x p. ground (arith, lookup-write id k token v b a e, h.named k x, h.named id a e);
  ranged = λ k s. ground (arith, get_balance-write id k token s v b e, h.ranged k s);
}

total-write :
    (id token s : ℕ) (v : ℤ) (b : Buffer) {a : Account}
    → lookup id b ≡ some a
    → IsValid b
    → total s (write id token v b) +ℤ balance_of s a
      ≡ total s b +ℤ (if token == s then v else balance_of s a)
unfolding total write
total-write id token s v b {a} e h = grind (
  arith,
  sum_by-insert (balance_of s) 0 id (with_balance token v a) a b h.sorted e,
  balance_of-with_balance token s v a,
)

pub get_balance_found :
    (id token : ℕ) (b : Buffer) {a : Account}
    → lookup id b ≡ some a
    → get_balance id token b ≡ balance_of token a
unfolding get_balance
get_balance_found id token b e = rw (e, get_balance)

-- A write changes the total of its token by the change of the balance, and no other total.
pub total-write_self :
    (id token : ℕ) (v : ℤ) (b : Buffer) {a : Account}
    → lookup id b ≡ some a
    → IsValid b
    → total token (write id token v b) ≡ total token b -ℤ get_balance id token b +ℤ v
total-write_self id token v b {a} e h = rw (get_balance_found id token b e) (
    omega (
      int_laws,
      parts_of_eq _ _ (total-write id token token v b e h ∙ ap (◌+ℤ◌ (total token b)) same),
    ))
  where
    same : (if token == token then v else balance_of token a) ≡ v
    same = ground arith

pub total-write_ne :
    (id token s : ℕ) (v : ℤ) (b : Buffer) {a : Account}
    → lookup id b ≡ some a
    → IsValid b
    → token ≢ s
    → total s (write id token v b) ≡ total s b
total-write_ne id token s v b {a} e h ne =
    omega (int_laws, parts_of_eq _ _ (total-write id token s v b e h ∙ ap (◌+ℤ◌ (total s b)) same))
  where
    same : (if token == s then v else balance_of s a) ≡ balance_of s a
    same = ground arith

-- A conditional assignment, as a change of one place.
pub shift_up :
    (c : Bool) (amount : ℕ) (x z : ℤ)
    → (c ≡ true → z ≡ x)
    → (if c then x +ℤ pos amount else z) ≡ z +ℤ pos (if c then amount else 0)
shift_up true amount x z h = rw (h refl)
shift_up false amount x z h = omega int_laws

pub same_place :
    (k t j s : ℕ) (b : Buffer) → (k == j && t == s) ≡ true → get_balance j s b ≡ get_balance k t b
same_place k t j s b h = ground arith

pub erase-IsValid : (id : ℕ) (b : Buffer) → IsValid b → IsValid (erase id b)
unfolding get_balance
erase-IsValid id b v = record {
  sorted = erase-IsAbove 0 id b v.sorted;
  named = λ k a e. ground (arith, lookup-erase id k b, v.named k a);
  ranged = λ k s. ground (arith, lookup-erase id k b, v.ranged k s);
}

pub get_balance-erase :
    (id j s : ℕ) (b : Buffer) → j ≢ id → get_balance j s (erase id b) ≡ get_balance j s b
unfolding get_balance
get_balance-erase id j s b ne = ground (arith, lookup-erase id j b)
