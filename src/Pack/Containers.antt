-- ===== src/Pack/Containers.antt =====
-- Vectors and maps of lib/common/Serialize.hpp: the number of elements, then the elements. What
-- std::vector::reserve throws for a number that no memory holds is not modelled.
use pp_ledger.Base.{
  ℕ, zero, suc, ◌≤◌, ◌<◌, ◌≡◌, refl, sym, ◌∙◌, List, [], ◌∷◌, ◌++◌, none, some, arith, length, ◌^◌,
  ℤ, All,
}
use pp_ledger.Map.{Map, insert, IsAbove, IsSorted}
use pp_ledger.Pack.Bytes.{Bytes}
use pp_ledger.Pack.Archive.{
  Reading, Archive, IsExact, u64, i64, ◌&◌, &-IsExact, word-IsExact, i64-IsExact,
}
use mathlib.Core.List.{append_assoc, append-nil}

module _ {A : Type 0} (c : Archive A) where
  unfoldable pub write_all : List A → Bytes
  write_all [] = []
  write_all (a ∷ items) = c.write a ++ write_all items

  -- `n` elements, one after another
  unfoldable pub read_all : ℕ → Bytes → Reading (List A)
  read_all zero src = some ([], src)
  read_all (suc n) src = elim (c.read src) [
    | none ↦ none
    | some (a, rest) ↦ elim (read_all n rest) [
      | none ↦ none
      | some (items, more) ↦ some (a ∷ items, more)
    ]
  ]

  read_all-write_all :
      (items : List A) (rest : Bytes)
      → IsExact c
      → All c.fits items
      → read_all (length items) (write_all items ++ rest) ≡ some (items, rest)
  unfolding read_all write_all
  read_all-write_all [] rest h f = refl
  read_all-write_all (a ∷ items) rest h (fa, f) =
      rw (append_assoc (c.write a) (write_all items) rest)
        (rw (h a (write_all items ++ rest) fa, read_all) (rw (read_all-write_all items rest h f)))

  unfoldable pub read_vector : Bytes → Reading (List A)
  read_vector src = elim (u64.read src) [ none ↦ none | some (size, rest) ↦ read_all size rest ]

  abbrev pub vector : Archive (List A)
  vector = record {
    write = λ items. u64.write (length items) ++ write_all items;
    read = read_vector;
    fits = λ items. (length items < 256 ^ 8) × All c.fits items;
  }

  pub vector-IsExact : IsExact c → IsExact vector
  unfolding read_vector
  vector-IsExact h items rest (small, f) =
      let size = word-IsExact 8 (length items) (write_all items ++ rest) small in
      rw (append_assoc (u64.write (length items)) (write_all items) rest)
        (rw (size, read_vector) (read_all-write_all items rest h f))

-- std::map<uint64_t, int64_t>: each pair that is read is assigned.
unfoldable pub assign_all : List (ℕ × ℤ) → Map ℤ → Map ℤ
assign_all [] m = m
assign_all ((k, v) ∷ rest) m = assign_all rest (insert k v m)

unfoldable pub read_balances : Bytes → Reading (Map ℤ)
unfolding assign_all
read_balances src = elim ((vector (u64 & i64)).read src) [
  | none ↦ none
  | some (pairs, rest) ↦ some (assign_all pairs [], rest)
]

abbrev pub balances_map : Archive (Map ℤ)
balances_map = record {
  write = (vector (u64 & i64)).write;
  read = read_balances;
  fits = λ m. IsSorted m × (vector (u64 & i64)).fits m;
}

-- Every key of the map lies below `k`.
abbrev IsBelow : ℕ → Map ℤ → Type 0
IsBelow k m = All (λ p. p.0 < k) m

insert_last : (k : ℕ) (v : ℤ) (m : Map ℤ) → IsBelow k m → insert k v m ≡ m ++ ((k, v) ∷ [])
unfolding insert
insert_last k v [] h = refl
insert_last k v ((j, w) ∷ m) (lt, h) = let rest = insert_last k v m h in ground (arith, lt, rest)

IsBelow-last : (k j : ℕ) (v : ℤ) (m : Map ℤ) → IsBelow k m → k < j → IsBelow j (m ++ ((k, v) ∷ []))
IsBelow-last k j v [] h lt = (lt, tt)
IsBelow-last k j v ((i, w) ∷ m) (p, h) lt = (omega arith, IsBelow-last k j v m h lt)

IsBelow-suc : (k j : ℕ) (m : Map ℤ) → IsBelow k m → k ≤ j → IsBelow j m
IsBelow-suc k j [] h le = tt
IsBelow-suc k j ((i, w) ∷ m) (p, h) le = (omega arith, IsBelow-suc k j m h le)

assign_all_sorted :
    (n : ℕ) (m front : Map ℤ) → IsAbove n m → IsBelow n front → assign_all m front ≡ front ++ m
unfolding assign_all
assign_all_sorted n [] front a b = sym (append-nil front)
assign_all_sorted n ((k, v) ∷ m) front (le, a) b =
    let below = IsBelow-suc n k front b le in
    rw (insert_last k v front below) (
      assign_all_sorted (suc k) m (front ++ ((k, v) ∷ [])) a
        (IsBelow-last k (suc k) v front below (omega arith))
      ∙ append_assoc front ((k, v) ∷ []) m)

pub balances_map-IsExact : IsExact balances_map
unfolding read_balances
balances_map-IsExact m rest (sorted, f) =
    let got =
      vector-IsExact (u64 & i64) (&-IsExact u64 i64 (word-IsExact 8) i64-IsExact) m rest f in
    rw (got, read_balances) (rw (assign_all_sorted 0 m [] sorted tt))
