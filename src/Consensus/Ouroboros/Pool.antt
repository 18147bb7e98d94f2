-- ===== src/Consensus/Ouroboros/Pool.antt =====
-- The pool of eligible leaders.

use pp_ledger.Base.{
  ℕ, suc, ◌≤◌, ◌<◌, ◌≡◌, ◌≢◌, refl, ap, ◌∙◌, ◌⊎◌, inl, inr, List, [], ◌∷◌, arith, ◌==◌, Bool-cases,
  length, take, length-take, All, some,
}
use pp_ledger.Map.{Map, lookup, IsAbove, IsSorted}
use pp_ledger.Consensus.Ouroboros.Defs.{
  Ouroboros, sort_by_stake, with_stake, ids, get_stake, max_leader_pool_size,
  get_eligible_leader_pool,
}
use pp_ledger.Consensus.Ouroboros.Ranking.{
  Occurs, Beats, Ranked, DistinctIds, All-imp, sort-Ranked, All-sort, All-take, take-Ranked,
  Occurs-sort, Occurs-take,
}

with_stake-keeps :
    (n id s : ℕ) (m : Map ℕ)
    → IsAbove n m
    → lookup id m ≡ some s
    → 0 < s
    → Occurs (id, s) (with_stake m)
unfolding with_stake lookup
with_stake-keeps n id s [] h e p = cc
with_stake-keeps n id s ((k, v) ∷ m) h e p = elim (Bool-cases (v == 0)) [
  | inl z ↦ rw z (with_stake-keeps (suc k) id s m h.1 (ground (arith, e, z)) p)
  | inr z ↦ rw z (elim (Bool-cases (k == id)) [
    | inl same ↦ inl (ground (arith, e, same))
    | inr other ↦ inr (with_stake-keeps (suc k) id s m h.1 (ground (arith, e, other)) p)
  ])
]

-- An entry of the map, with its stake.
abbrev Backed : ℕ → Map ℕ → ℕ × ℕ → Type 0
Backed n m y = (n ≤ y.0) × (0 < y.1) × (lookup y.0 m ≡ some y.1)

All-with_stake : (n : ℕ) (m : Map ℕ) → IsAbove n m → All (Backed n m) (with_stake m)
unfolding with_stake lookup
All-with_stake n [] h = tt
All-with_stake n ((k, v) ∷ m) h =
    let rest =
      All-imp (Backed (suc k) m) (Backed n ((k, v) ∷ m))
        (λ y b. (omega arith, b.1, ground (arith, b.2, b.0))) (with_stake m)
        (All-with_stake (suc k) m h.1) in
    elim (Bool-cases (v == 0)) [
      | inl z ↦ rw z rest
      | inr z ↦ rw z ((h.0, ground (arith, z), ground arith), rest)
    ]

with_stake-DistinctIds : (n : ℕ) (m : Map ℕ) → IsAbove n m → DistinctIds (with_stake m)
unfolding with_stake
with_stake-DistinctIds n [] h = tt
with_stake-DistinctIds n ((k, v) ∷ m) h =
    let rest = with_stake-DistinctIds (suc k) m h.1 in
    let above =
      All-imp (Backed (suc k) m) (λ y. y.0 ≢ k) (λ y b e. omega (arith, b.0, e)) (with_stake m)
        (All-with_stake (suc k) m h.1) in
    elim (Bool-cases (v == 0)) [ inl z ↦ rw z rest | inr z ↦ rw z (above, rest) ]

sorted-Ranked :
    (o : Ouroboros) → IsSorted o.stakeholders → Ranked (sort_by_stake (with_stake o.stakeholders))
sorted-Ranked o h =
    sort-Ranked (with_stake o.stakeholders) (with_stake-DistinctIds 0 o.stakeholders h)

-- The entries that the pool is made of.
entries : Ouroboros → List (ℕ × ℕ)
entries o = take max_leader_pool_size (sort_by_stake (with_stake o.stakeholders))

entries-Backed :
    (o : Ouroboros) → IsSorted o.stakeholders → All (Backed 0 o.stakeholders) (entries o)
unfolding entries
entries-Backed o h =
    All-take (Backed 0 o.stakeholders) max_leader_pool_size
      (sort_by_stake (with_stake o.stakeholders))
      (All-sort (Backed 0 o.stakeholders) (with_stake o.stakeholders)
        (All-with_stake 0 o.stakeholders h))

ids-All :
    (o : Ouroboros) (xs : List (ℕ × ℕ))
    → All (Backed 0 o.stakeholders) xs
    → All (λ id. 0 < get_stake id o) (ids xs)
unfolding get_stake
ids-All o [] h = tt
ids-All o (x ∷ xs) h = (ground (arith, h.0.2, h.0.1), ids-All o xs h.1)

-- With the stakeholders in ascending order of their ids, every id in the pool belongs to a
-- stakeholder with a positive stake.
pub pool-staked :
    (o : Ouroboros)
    → IsSorted o.stakeholders
    → All (λ id. 0 < get_stake id o) (get_eligible_leader_pool o)
unfolding get_eligible_leader_pool entries
pool-staked o h = ids-All o (entries o) (entries-Backed o h)

-- An id occurs in a list of ids.
abbrev pub OccursId : ℕ → List ℕ → Type 0
OccursId a [] = ⊥
OccursId a (x ∷ xs) = (a ≡ x) ⊎ OccursId a xs

Occurs-ids : (c : ℕ × ℕ) (xs : List (ℕ × ℕ)) → Occurs c xs → OccursId c.0 (ids xs)
Occurs-ids c [] o = elim o [ ]
Occurs-ids c (x ∷ xs) (inl e) = inl (ap (λ y. y.0) e)
Occurs-ids c (x ∷ xs) (inr o) = inr (Occurs-ids c xs o)

-- The same for ids, by their stakes
abbrev pub Outranks : Ouroboros → ℕ → ℕ → Type 0
Outranks o a b = (get_stake b o < get_stake a o) ⊎ ((get_stake a o ≡ get_stake b o) × (a < b))

abbrev pub IsRanked : Ouroboros → List ℕ → Type 0
IsRanked o [] = Unit
IsRanked o (x ∷ xs) = All (Outranks o x) xs × IsRanked o xs

stake-Backed : (o : Ouroboros) (y : ℕ × ℕ) → Backed 0 o.stakeholders y → get_stake y.0 o ≡ y.1
unfolding get_stake
stake-Backed o y b = ground (arith, b.2)

Beats-Outranks :
    (o : Ouroboros) (a b : ℕ × ℕ)
    → get_stake a.0 o ≡ a.1
    → get_stake b.0 o ≡ b.1
    → Beats a b
    → Outranks o a.0 b.0
Beats-Outranks o a b ea eb (inl p) = inl (omega (arith, ea, eb, p))
Beats-Outranks o a b ea eb (inr p) = inr (omega (arith, ea, eb, p))

ids-outranked :
    (o : Ouroboros) (x : ℕ × ℕ) (xs : List (ℕ × ℕ))
    → get_stake x.0 o ≡ x.1
    → All (Backed 0 o.stakeholders) xs
    → All (Beats x) xs
    → All (Outranks o x.0) (ids xs)
ids-outranked o x [] e b h = tt
ids-outranked o x (y ∷ xs) e b h =
    (Beats-Outranks o x y e (stake-Backed o y b.0) h.0, ids-outranked o x xs e b.1 h.1)

ids-IsRanked :
    (o : Ouroboros) (xs : List (ℕ × ℕ))
    → All (Backed 0 o.stakeholders) xs
    → Ranked xs
    → IsRanked o (ids xs)
ids-IsRanked o [] b h = tt
ids-IsRanked o (x ∷ xs) b h =
    (ids-outranked o x xs (stake-Backed o x b.0) b.1 h.0, ids-IsRanked o xs b.1 h.1)

-- With the stakeholders in ascending order of their ids, each member of the pool ranks above those
-- behind it: by stake, and by the smaller id where the stakes are the same.
pub pool-IsRanked :
    (o : Ouroboros) → IsSorted o.stakeholders → IsRanked o (get_eligible_leader_pool o)
unfolding get_eligible_leader_pool entries
pool-IsRanked o h = ids-IsRanked o (entries o) (entries-Backed o h) (
    take-Ranked max_leader_pool_size (sort_by_stake (with_stake o.stakeholders))
      (sorted-Ranked o h))

ids-outrank :
    (o : Ouroboros) (c : ℕ × ℕ) (xs : List (ℕ × ℕ))
    → get_stake c.0 o ≡ c.1
    → All (Backed 0 o.stakeholders) xs
    → All (λ y. Beats y c) xs
    → All (λ m. Outranks o m c.0) (ids xs)
ids-outrank o c [] e b h = tt
ids-outrank o c (x ∷ xs) e b h =
    (Beats-Outranks o x c (stake-Backed o x b.0) e h.0, ids-outrank o c xs e b.1 h.1)

length-ids : (xs : List (ℕ × ℕ)) → length (ids xs) ≡ length xs
length-ids [] = refl
length-ids (x ∷ xs) = ap suc (length-ids xs)

-- With the stakeholders in ascending order of their ids, the pool leaves out a stakeholder with a
-- positive stake only when it is full, with 100 members that all rank above it.
pub pool_complete :
    (o : Ouroboros) (id : ℕ)
    → IsSorted o.stakeholders
    → 0 < get_stake id o
    → OccursId id (get_eligible_leader_pool o)
      ⊎ (All (λ m. Outranks o m id) (get_eligible_leader_pool o)
          × (length (get_eligible_leader_pool o) ≡ max_leader_pool_size))
unfolding get_eligible_leader_pool entries
pool_complete o id h p =
    let sorted = sort_by_stake (with_stake o.stakeholders) in
    let known = with_stake-keeps 0 id (get_stake id o) o.stakeholders h (stake_found o id p) p in
    elim (Occurs-take max_leader_pool_size (id, get_stake id o) sorted (sorted-Ranked o h)
      (Occurs-sort (id, get_stake id o) (with_stake o.stakeholders) known)) [
        | inl found ↦ inl (Occurs-ids (id, get_stake id o) (entries o) found)
        | inr (least, full) ↦ inr (
          ids-outrank o (id, get_stake id o) (entries o) refl (entries-Backed o h) least,
          length-ids (entries o) ∙ full,
        )
      ]
  where
    stake_found :
        (o : Ouroboros) (id : ℕ)
        → 0 < get_stake id o
        → lookup id o.stakeholders ≡ some (get_stake id o)
    stake_found o id p = unfold get_stake in ground arith

-- The pool has 100 members at most.
pub pool_bound : (o : Ouroboros) → length (get_eligible_leader_pool o) ≤ max_leader_pool_size
unfolding get_eligible_leader_pool
pool_bound o =
    let sorted = sort_by_stake (with_stake o.stakeholders) in
    rw (length-ids (take max_leader_pool_size sorted), length-take max_leader_pool_size sorted)
      (omega arith)
