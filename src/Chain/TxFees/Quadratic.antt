-- ===== src/Chain/TxFees/Quadratic.antt =====
-- The minimum fee is the exact quadratic: nothing wraps in 128 bits.
use Prim.Native.Nat.{◌^◌}
use pp_ledger.Base.{
  ℕ, zero, suc, get_elem?, Option-cases, inl, inr, ◌+◌, ◌-◌, ◌*◌, ◌/◌, ◌%◌, ◌≤◌, ◌<◌, ◌≡◌, ◌≢◌,
  List, [], ◌∷◌, some, arith, All, ltb, if◌then◌else◌,
}
use pp_ledger.Base.Word.{add_u64}
use pp_ledger.Base.Roe.{ok, err}
use pp_ledger.Chain.Types.{BlockChainConfig, e_tx_validation}
use pp_ledger.Chain.TxFees.{
  get_fee_coefficient, non_free_kib, quadratic_u128, minimum_fee_from_non_free_meta_size,
}

-- Kibibytes, rounded up.
abbrev pub kib_up : ℕ → ℕ
kib_up size = (size + 1023) / 1024

-- The quadratic in the coefficients that the configuration has, a missing one being 0.
abbrev pub quadratic : List ℕ → ℕ → ℕ
quadratic cs x =
    get_fee_coefficient cs 0 + get_fee_coefficient cs 1 * x + get_fee_coefficient cs 2 * x * x

non_free_kib_lem : (size : ℕ) → size + 1024 < 2 ^ 64 → non_free_kib size ≡ kib_up size
unfolding non_free_kib add_u64
non_free_kib_lem size h = ground arith

product_bound : (c x n m : ℕ) → c ≤ n → x ≤ m → c * x ≤ n * m
product_bound c x n m h k = grind arith

exact :
    (a b c x : ℕ)
    → a < 2 ^ 16
    → b < 2 ^ 16
    → c < 2 ^ 16
    → x ≤ 2 ^ 54
    → quadratic_u128 a b c x ≡ a + b * x + c * x * x
unfolding quadratic_u128
exact a b c x ha hb hc hx =
    let bx = product_bound b x (2 ^ 16) (2 ^ 54) (omega arith) hx in
    let cx = product_bound c x (2 ^ 16) (2 ^ 54) (omega arith) hx in
    let cxx = product_bound (c * x) x (2 ^ 70) (2 ^ 54) cx hx in
    let inner : c * x % 2 ^ 128 ≡ c * x = omega arith in rw inner (omega arith)

elem_bound :
    (cs : List ℕ) (i c : ℕ) → All (λ c. c < 2 ^ 16) cs → get_elem? cs i ≡ some c → c < 2 ^ 16
elem_bound [] i c h e = cc
elem_bound (x ∷ xs) zero c h e = ground (arith, h.0)
elem_bound (x ∷ xs) (suc i) c h e = elem_bound xs i c h.1 e

-- The coefficients are uint16_t.
coefficient_bound :
    (cs : List ℕ) (i : ℕ) → All (λ c. c < 2 ^ 16) cs → get_fee_coefficient cs i < 2 ^ 16
unfolding get_fee_coefficient
coefficient_bound cs i h = elim (Option-cases (get_elem? cs i)) [
  | inl e ↦ rw (e, get_fee_coefficient) (omega arith)
  | inr (c, e) ↦ rw (e, get_fee_coefficient) (elem_bound cs i c h e)
]

has_coefficients :
    (config : BlockChainConfig) (size : ℕ) {fee : ℕ}
    → minimum_fee_from_non_free_meta_size config size ≡ ok fee
    → config.min_fee_coefficients ≢ []
unfolding minimum_fee_from_non_free_meta_size
has_coefficients config size e none_there = ground (arith, e, none_there)

-- With some coefficients, all of 16 bits, and a size at least 1024 below 2 ^ 64, the minimum fee
-- is the quadratic in the kibibytes rounded up, computed without wrapping; it is refused exactly
-- when it exceeds INT64_MAX.
pub minimum_fee_exact :
    (config : BlockChainConfig) (size : ℕ)
    → config.min_fee_coefficients ≢ []
    → All (λ c. c < 2 ^ 16) config.min_fee_coefficients
    → size + 1024 < 2 ^ 64
    → minimum_fee_from_non_free_meta_size config size ≡ (
        if ltb (2 ^ 63 - 1) (quadratic config.min_fee_coefficients (kib_up size))
        then err e_tx_validation
        else ok (quadratic config.min_fee_coefficients (kib_up size)))
unfolding minimum_fee_from_non_free_meta_size
minimum_fee_exact config size some_coefficient small h =
    let cs = config.min_fee_coefficients in
    let q =
      exact (get_fee_coefficient cs 0) (get_fee_coefficient cs 1) (get_fee_coefficient cs 2)
        (kib_up size) (coefficient_bound cs 0 small) (coefficient_bound cs 1 small)
        (coefficient_bound cs 2 small) (omega arith) in
    ground (arith, some_coefficient, non_free_kib_lem size h, q)

quadratic_mono : (cs : List ℕ) (x y : ℕ) → x ≤ y → quadratic cs x ≤ quadratic cs y
quadratic_mono cs x y h =
    let b =
      product_bound (get_fee_coefficient cs 1) x (get_fee_coefficient cs 1) y (omega arith) h in
    let c =
      product_bound (get_fee_coefficient cs 2) x (get_fee_coefficient cs 2) y (omega arith) h in
    let cc' = product_bound (get_fee_coefficient cs 2 * x) x (get_fee_coefficient cs 2 * y) y c h in
    omega arith

-- More metadata never costs less, with coefficients of 16 bits and sizes at least 1024 below 2 ^
-- 64: where the larger size has a fee, so has the smaller, and it is at most that.
pub minimum_fee_mono :
    (config : BlockChainConfig) (size size' fee' : ℕ)
    → All (λ c. c < 2 ^ 16) config.min_fee_coefficients
    → size ≤ size'
    → size' + 1024 < 2 ^ 64
    → minimum_fee_from_non_free_meta_size config size' ≡ ok fee'
    → (fee : ℕ) × (minimum_fee_from_non_free_meta_size config size ≡ ok fee) × (fee ≤ fee')
minimum_fee_mono config size size' fee' small le h e =
    let cs = config.min_fee_coefficients in
    let there = minimum_fee_exact config size' (has_coefficients config size' e) small h in
    let here =
      minimum_fee_exact config size (has_coefficients config size' e) small (omega arith) in
    let mono = quadratic_mono cs (kib_up size) (kib_up size') (omega arith) in
    (quadratic cs (kib_up size), ground (arith, here, there, mono), ground (arith, there, mono))
