-- ===== src/Map.antt =====
-- std::map with integer keys, as an association list in ascending order of the keys. Iterating over
-- the map is a recursion over the list.
use pp_ledger.Base.{
  ℕ, suc, ◌≤◌, ◌<◌, ◌≡◌, refl, Bool, true, false, Option, none, some, List, [], ◌∷◌, arith, ltb,
  ◌==◌, if◌then◌else◌, Option-cases, inl, inr, ℤ, pos, ◌+ℤ◌, int_laws,
}

abbrev pub Map {ℓ} : Type ℓ → Type ℓ
Map V = List (ℕ × V)

module _ {ℓ} {V : Type ℓ} where
  -- m.find(k)
  unfoldable pub lookup : ℕ → Map V → Option V
  lookup key [] = none
  lookup key ((first, value) ∷ others) = if first == key then some value else lookup key others

  -- m.find(k) != m.end()
  abbrev pub contains : ℕ → Map V → Bool
  contains k m = elim (lookup k m) [ none ↦ false | some _ ↦ true ]

  -- m[k] = v
  unfoldable pub insert : ℕ → V → Map V → Map V
  insert key value [] = (key, value) ∷ []
  insert key value ((first, old) ∷ others) =
      if ltb key first
      then (key, value) ∷ (first, old) ∷ others
      else (if first == key then (key, value) ∷ others else (first, old) ∷ insert key value others)

  -- m.erase(k)
  unfoldable pub erase : ℕ → Map V → Map V
  erase k [] = []
  erase k ((j, v) ∷ m) = let rest = erase k m in if j == k then rest else (j, v) ∷ rest

  pub contains_found : (k : ℕ) (m : Map V) {v : V} → lookup k m ≡ some v → contains k m ≡ true
  contains_found k m e = rw (e, contains)

  pub lookup_of_contains :
      (k : ℕ) (m : Map V) → contains k m ≡ true → (v : V) × (lookup k m ≡ some v)
  lookup_of_contains k m h = elim (Option-cases (lookup k m)) [
    | inl e ↦ ground (arith, h, e)
    | inr found ↦ found
  ]

  pub lookup-insert :
      (key other : ℕ) (value : V) (m : Map V)
      → lookup other (insert key value m) ≡ (if key == other then some value else lookup other m)
  unfolding lookup insert
  lookup-insert key other value [] = ground arith
  lookup-insert key other value (entry ∷ others) =
      let rest = lookup-insert key other value others in ground (arith, rest)

  pub lookup-erase :
      (k j : ℕ) (m : Map V) → lookup j (erase k m) ≡ (if k == j then none else lookup j m)
  unfolding lookup erase
  lookup-erase k j [] = ground arith
  lookup-erase k j ((i, w) ∷ m) = ground (arith, lookup-erase k j m)

  -- The keys ascend, from `n` at least.
  abbrev pub IsAbove : ℕ → Map V → Type 0
  IsAbove n [] = Unit
  IsAbove n ((k, _) ∷ m) = (n ≤ k) × IsAbove (suc k) m

  abbrev pub IsSorted : Map V → Type 0
  IsSorted m = IsAbove 0 m

  pub lookup_below : (n k : ℕ) (m : Map V) → IsAbove n m → k < n → lookup k m ≡ none
  unfolding lookup
  lookup_below n k [] h lt = refl
  lookup_below n k ((j, v) ∷ m) h lt = ground (arith, lookup_below (suc j) k m h.1)

  IsAbove-mono : (n n' : ℕ) (m : Map V) → n' ≤ n → IsAbove n m → IsAbove n' m
  IsAbove-mono n n' [] le h = tt
  IsAbove-mono n n' ((j, v) ∷ m) le h = (omega arith, h.1)

  pub insert-IsAbove :
      (n k : ℕ) (v : V) (m : Map V) → n ≤ k → IsAbove n m → IsAbove n (insert k v m)
  unfolding insert
  insert-IsAbove n k v [] le h = (le, tt)
  insert-IsAbove n k v ((j, w) ∷ m) le h = ground (arith, insert-IsAbove (suc j) k v m)

  pub erase-IsAbove : (n k : ℕ) (m : Map V) → IsAbove n m → IsAbove n (erase k m)
  unfolding erase
  erase-IsAbove n k [] h = tt
  erase-IsAbove n k ((j, v) ∷ m) h =
      ground (arith, erase-IsAbove (suc j) k m h.1, IsAbove-mono (suc j) n (erase k m))

  pub erase_below : (n k : ℕ) (m : Map V) → IsAbove n m → k < n → erase k m ≡ m
  unfolding erase
  erase_below n k [] h lt = refl
  erase_below n k ((j, v) ∷ m) h lt = ground (arith, erase_below (suc j) k m h.1)

  -- The sum of an amount over the entries.
  unfoldable pub sum_by : (V → ℤ) → Map V → ℤ
  sum_by f [] = pos 0
  sum_by f ((_, v) ∷ m) = f v +ℤ sum_by f m

  pub sum_by-insert :
      (f : V → ℤ) (n k : ℕ) (v old : V) (m : Map V)
      → IsAbove n m
      → lookup k m ≡ some old
      → sum_by f (insert k v m) +ℤ f old ≡ sum_by f m +ℤ f v
  unfolding lookup insert sum_by
  sum_by-insert f n k v old [] h e = cc
  sum_by-insert f n k v old ((j, w) ∷ m) h e =
      grind (int_laws, sum_by-insert f (suc j) k v old m h.1, lookup_below (suc j) k m h.1)

  pub sum_by-insert_new :
      (f : V → ℤ) (k : ℕ) (v : V) (m : Map V)
      → lookup k m ≡ none
      → sum_by f (insert k v m) ≡ sum_by f m +ℤ f v
  unfolding lookup insert sum_by
  sum_by-insert_new f k v [] e = omega int_laws
  sum_by-insert_new f k v ((j, w) ∷ m) e = grind (int_laws, sum_by-insert_new f k v m)

  pub sum_by-erase :
      (f : V → ℤ) (n k : ℕ) (old : V) (m : Map V)
      → IsAbove n m
      → lookup k m ≡ some old
      → sum_by f (erase k m) +ℤ f old ≡ sum_by f m
  unfolding lookup erase sum_by
  sum_by-erase f n k old [] h e = cc
  sum_by-erase f n k old ((j, w) ∷ m) h e =
      grind (int_laws, sum_by-erase f (suc j) k old m h.1, erase_below (suc j) k m h.1)
