-- ===== src/Ledger/Checkpoints.antt =====
-- Ledger::updateCheckpoints of ledger/Ledger.cpp, which replaces the list of checkpoint ids. Whether
-- the index file can be saved is the parameter `saved`.
use pp_ledger.Base.{
  ℕ, ◌<◌, ◌≡◌, refl, Bool, true, ◌&&◌, not, List, [], ◌∷◌, ◌++◌, arith, All, ltb, leb, ◌==◌, inl,
  inr, ◌⊎◌,
}
use pp_ledger.Base.Roe.{ok, err, Done, done, require, ◌then_check◌}

-- std::is_sorted
unfoldable pub is_sorted : List ℕ → Bool
is_sorted [] = true
is_sorted (x ∷ []) = true
is_sorted (x ∷ y ∷ rest) = not (ltb y x) && is_sorted (y ∷ rest)

unfoldable pub has_no_repeat : List ℕ → Bool
has_no_repeat [] = true
has_no_repeat (x ∷ []) = true
has_no_repeat (x ∷ y ∷ rest) = not (y == x) && has_no_repeat (y ∷ rest)

-- The two lists agree as far as both go.
unfoldable pub matches : List ℕ → List ℕ → Bool
matches [] ys = true
matches (x ∷ xs) [] = true
matches (x ∷ xs) (y ∷ ys) = x == y && matches xs ys

unfoldable pub all_below : ℕ → List ℕ → Bool
all_below next [] = true
all_below next (x ∷ xs) = not (leb next x) && all_below next xs

-- The result, and the list of checkpoint ids afterwards.
unfoldable pub update_checkpoints : Bool → ℕ → List ℕ → List ℕ → Done × List ℕ
unfolding is_sorted has_no_repeat matches all_below
update_checkpoints saved next ids existing =
    elim (require (is_sorted ids) 1
      then_check require (has_no_repeat ids) 1
      then_check require (matches existing ids) 1
      then_check require (all_below next ids) 1) [
        | err e ↦ (err e, existing)
        | ok _ ↦ (require saved 1, ids)
      ]

-- Strictly ascending.
abbrev pub IsAscending : List ℕ → Type 0
IsAscending [] = Unit
IsAscending (x ∷ xs) = All (λ y. x < y) xs × IsAscending xs

is_sorted-IsAscending :
    (x : ℕ) (xs : List ℕ)
    → is_sorted (x ∷ xs) ≡ true
    → has_no_repeat (x ∷ xs) ≡ true
    → IsAscending (x ∷ xs)
unfolding is_sorted has_no_repeat
is_sorted-IsAscending x [] s d = (tt, tt)
is_sorted-IsAscending x (y ∷ ys) s d =
    let rest = is_sorted-IsAscending y ys (ground (arith, s)) (ground (arith, d)) in
    let lt : x < y = ground (arith, s, d) in ((lt, All-above x y ys lt rest.0), rest)
  where
    All-above : (x y : ℕ) (ys : List ℕ) → x < y → All (λ z. y < z) ys → All (λ z. x < z) ys
    All-above x y [] lt h = tt
    All-above x y (z ∷ zs) lt (a, h) = (omega (arith, lt, a), All-above x y zs lt h)

all_below-All : (next : ℕ) (xs : List ℕ) → all_below next xs ≡ true → All (λ x. x < next) xs
unfolding all_below
all_below-All next [] h = tt
all_below-All next (x ∷ xs) h = (ground (arith, h), all_below-All next xs (ground (arith, h)))

matches-prefix :
    (xs ys : List ℕ)
    → matches xs ys ≡ true
    → ((zs : List ℕ) × (ys ≡ xs ++ zs)) ⊎ ((zs : List ℕ) × (xs ≡ ys ++ zs))
unfolding matches
matches-prefix [] ys h = inl (ys, refl)
matches-prefix (x ∷ xs) [] h = inr (x ∷ xs, refl)
matches-prefix (x ∷ xs) (y ∷ ys) h =
    let e : x ≡ y = ground (arith, h) in
    elim (matches-prefix xs ys (ground (arith, h))) [
      | inl (zs, p) ↦ inl (zs, cc)
      | inr (zs, p) ↦ inr (zs, cc)
    ]

-- When `updateCheckpoints` succeeds, the list is the new one, its ids ascend strictly and lie below
-- the next block, and it extends the old list or is the first part of it.
pub update_checkpoints_sound :
    (saved : Bool) (next : ℕ) (ids existing after : List ℕ)
    → update_checkpoints saved next ids existing ≡ (done, after)
    → (after ≡ ids)
      × IsAscending ids
      × All (λ id. id < next) ids
      × (((more : List ℕ) × (ids ≡ existing ++ more))
          ⊎ ((more : List ℕ) × (existing ≡ ids ++ more)))
unfolding update_checkpoints
update_checkpoints_sound saved next [] existing after h =
    (ground (arith, h), tt, tt, matches-prefix existing [] (ground (arith, h)))
update_checkpoints_sound saved next (x ∷ xs) existing after h = (
  ground (arith, h),
  is_sorted-IsAscending x xs (ground (arith, h)) (ground (arith, h)),
  all_below-All next (x ∷ xs) (ground (arith, h)),
  matches-prefix existing (x ∷ xs) (ground (arith, h)),
)
