-- ===== src/Consensus/Ouroboros/Ranking.antt =====
-- The order of the pool of eligible leaders: sorting by stake ranks the entries, and keeps them.
use pp_ledger.Base.{
  ℕ, zero, suc, ◌<◌, ◌≡◌, ◌≢◌, refl, ◌⊎◌, inl, inr, true, false, List, [], ◌∷◌, arith, ◌==◌,
  Bool-cases, length, take, All,
}
use pp_ledger.Consensus.Ouroboros.Defs.{goes_before, insert_by_stake, sort_by_stake}

-- An entry occurs in a list.
abbrev pub Occurs : ℕ × ℕ → List (ℕ × ℕ) → Type 0
Occurs a [] = ⊥
Occurs a (x ∷ xs) = (a ≡ x) ⊎ Occurs a xs

-- The one with more stake ranks higher, of two with the same stake the one with the smaller id.
abbrev pub Beats : ℕ × ℕ → ℕ × ℕ → Type 0
Beats a b = (b.1 < a.1) ⊎ ((a.1 ≡ b.1) × (a.0 < b.0))

-- Each entry ranks above those behind it.
abbrev pub Ranked : List (ℕ × ℕ) → Type 0
Ranked [] = Unit
Ranked (x ∷ xs) = All (Beats x) xs × Ranked xs

abbrev pub DistinctIds : List (ℕ × ℕ) → Type 0
DistinctIds [] = Unit
DistinctIds (x ∷ xs) = All (λ y. y.0 ≢ x.0) xs × DistinctIds xs

All-insert :
    (P : ℕ × ℕ → Type 0) (a : ℕ × ℕ) (xs : List (ℕ × ℕ))
    → P a
    → All P xs
    → All P (insert_by_stake a xs)
unfolding insert_by_stake
All-insert P a [] pa h = (pa, tt)
All-insert P a (x ∷ xs) pa h = elim (Bool-cases (goes_before a x)) [
  | inl e ↦ rw e (pa, h)
  | inr e ↦ rw e (h.0, All-insert P a xs pa h.1)
]

pub All-imp :
    (P Q : ℕ × ℕ → Type 0) → ((y : ℕ × ℕ) → P y → Q y) → (xs : List (ℕ × ℕ)) → All P xs → All Q xs
All-imp P Q f [] h = tt
All-imp P Q f (x ∷ xs) h = (f x h.0, All-imp P Q f xs h.1)

Beats-trans : (a b c : ℕ × ℕ) → Beats a b → Beats b c → Beats a c
Beats-trans a b c (inl p) (inl q) = inl (omega (arith, p, q))
Beats-trans a b c (inl p) (inr q) = inl (omega (arith, p, q))
Beats-trans a b c (inr p) (inl q) = inl (omega (arith, p, q))
Beats-trans a b c (inr p) (inr q) = inr (omega (arith, p, q))

goes_before-Beats : (a x : ℕ × ℕ) → goes_before a x ≡ true → Beats a x
unfolding goes_before
goes_before-Beats a x e = elim (Bool-cases (a.1 == x.1)) [
  | inl same ↦ inr (ground (arith, same), ground (arith, e, same))
  | inr other ↦ inl (ground (arith, e, other))
]

goes_after-Beats : (a x : ℕ × ℕ) → goes_before a x ≡ false → x.0 ≢ a.0 → Beats x a
unfolding goes_before
goes_after-Beats a x e ne = elim (Bool-cases (a.1 == x.1)) [
  | inl same ↦ inr (ground (arith, same), ground (arith, e, same, ne))
  | inr other ↦ inl (ground (arith, e, other))
]

insert-Ranked :
    (a : ℕ × ℕ) (xs : List (ℕ × ℕ))
    → All (λ y. y.0 ≢ a.0) xs
    → Ranked xs
    → Ranked (insert_by_stake a xs)
unfolding insert_by_stake
insert-Ranked a [] ne h = (tt, tt)
insert-Ranked a (x ∷ xs) ne h = elim (Bool-cases (goes_before a x)) [
  | inl e ↦
      let first = goes_before-Beats a x e in
      rw e ((first, All-imp (Beats x) (Beats a) (λ y b. Beats-trans a x y first b) xs h.0), h)
  | inr e ↦
      rw e
        (All-insert (Beats x) a xs (goes_after-Beats a x e ne.0) h.0, insert-Ranked a xs ne.1 h.1)
]

pub All-sort : (P : ℕ × ℕ → Type 0) (xs : List (ℕ × ℕ)) → All P xs → All P (sort_by_stake xs)
unfolding sort_by_stake
All-sort P [] h = tt
All-sort P (x ∷ xs) h = All-insert P x (sort_by_stake xs) h.0 (All-sort P xs h.1)

pub sort-Ranked : (xs : List (ℕ × ℕ)) → DistinctIds xs → Ranked (sort_by_stake xs)
unfolding sort_by_stake
sort-Ranked [] h = tt
sort-Ranked (x ∷ xs) h =
    insert-Ranked x (sort_by_stake xs) (All-sort (λ y. y.0 ≢ x.0) xs h.0) (sort-Ranked xs h.1)

pub All-take : (P : ℕ × ℕ → Type 0) (n : ℕ) (xs : List (ℕ × ℕ)) → All P xs → All P (take n xs)
All-take P zero xs h = tt
All-take P (suc n) [] h = tt
All-take P (suc n) (x ∷ xs) h = (h.0, All-take P n xs h.1)

pub take-Ranked : (n : ℕ) (xs : List (ℕ × ℕ)) → Ranked xs → Ranked (take n xs)
take-Ranked zero xs h = tt
take-Ranked (suc n) [] h = tt
take-Ranked (suc n) (x ∷ xs) h = (All-take (Beats x) n xs h.0, take-Ranked n xs h.1)

Occurs-insert :
    (c a : ℕ × ℕ) (xs : List (ℕ × ℕ)) → (c ≡ a) ⊎ Occurs c xs → Occurs c (insert_by_stake a xs)
unfolding insert_by_stake
Occurs-insert c a [] h = h
Occurs-insert c a (x ∷ xs) h = elim (Bool-cases (goes_before a x)) [
  | inl e ↦ rw e h
  | inr e ↦ rw e (elim h [
    | inl same ↦ inr (Occurs-insert c a xs (inl same))
    | inr (inl first) ↦ inl first
    | inr (inr later) ↦ inr (Occurs-insert c a xs (inr later))
  ])
]

pub Occurs-sort : (c : ℕ × ℕ) (xs : List (ℕ × ℕ)) → Occurs c xs → Occurs c (sort_by_stake xs)
unfolding sort_by_stake
Occurs-sort c [] h = h
Occurs-sort c (x ∷ xs) (inl e) = Occurs-insert c x (sort_by_stake xs) (inl e)
Occurs-sort c (x ∷ xs) (inr h) = Occurs-insert c x (sort_by_stake xs) (inr (Occurs-sort c xs h))

All-occurs : (P : ℕ × ℕ → Type 0) (c : ℕ × ℕ) (xs : List (ℕ × ℕ)) → All P xs → Occurs c xs → P c
All-occurs P c [] h o = elim o [ ]
All-occurs P c (x ∷ xs) h (inl e) = rw e h.0
All-occurs P c (x ∷ xs) h (inr o) = All-occurs P c xs h.1 o

-- An entry of a ranked list is among the first `n`, or they are `n` and all rank above it.
pub Occurs-take :
    (n : ℕ) (c : ℕ × ℕ) (xs : List (ℕ × ℕ))
    → Ranked xs
    → Occurs c xs
    → Occurs c (take n xs) ⊎ (All (λ y. Beats y c) (take n xs) × (length (take n xs) ≡ n))
Occurs-take zero c xs f o = inr (tt, refl)
Occurs-take (suc n) c [] f o = elim o [ ]
Occurs-take (suc n) c (x ∷ xs) f (inl e) = inl (inl e)
Occurs-take (suc n) c (x ∷ xs) f (inr o) = elim (Occurs-take n c xs f.1 o) [
  | inl found ↦ inl (inr found)
  | inr (h, len) ↦ inr ((All-occurs (Beats x) c xs f.0 o, h), omega arith)
]
