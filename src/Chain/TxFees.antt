-- ===== src/Chain/TxFees.antt =====
-- Minimum fees (chain/TxFees.cpp): a quadratic in the kibibytes of metadata above the free tier.
pub mod Quadratic
use Prim.Native.Nat.{◌^◌}
use pp_ledger.Base.{
  ℕ, ◌+◌, ◌-◌, ◌*◌, ◌/◌, ◌%◌, List, [], ◌∷◌, Option, none, some, ltb, leb, ◌==◌, if◌then◌else◌,
  get_elem?,
}
use pp_ledger.Base.Word.{add_u64}
use pp_ledger.Base.Roe.{Roe, ok, err}
use pp_ledger.Ledger.{TypedTx}
use pp_ledger.Chain.Types.{BlockChainConfig, e_tx_validation}

abbrev pub bytes_per_kib : ℕ
bytes_per_kib = 1024

unfoldable pub get_fee_coefficient : List ℕ → ℕ → ℕ
get_fee_coefficient cs i = elim (get_elem? cs i) [ none ↦ 0 | some c ↦ c ]

unfoldable pub to_non_free : BlockChainConfig → ℕ → Roe ℕ
to_non_free config size =
    if ltb config.max_custom_meta_size size
    then err e_tx_validation
    else (if leb size config.free_custom_meta_size
        then ok 0
        else ok (size - config.free_custom_meta_size))

unfoldable pub non_free_kib : ℕ → ℕ
non_free_kib size =
    if size == 0 then 0 else (add_u64 size bytes_per_kib + 2 ^ 64 - 1) % 2 ^ 64 / bytes_per_kib

-- a + b * x + c * x * x in unsigned __int128
unfoldable pub quadratic_u128 : ℕ → ℕ → ℕ → ℕ → ℕ
quadratic_u128 a b c x = ((a + b * x % 2 ^ 128) % 2 ^ 128 + c * x % 2 ^ 128 * x % 2 ^ 128) % 2 ^ 128

unfoldable pub minimum_fee_from_non_free_meta_size : BlockChainConfig → ℕ → Roe ℕ
minimum_fee_from_non_free_meta_size config size = elim config.min_fee_coefficients [
  | [] ↦ err e_tx_validation
  | c ∷ cs ↦
      let coefficient = get_fee_coefficient (c ∷ cs) in
      let fee =
        quadratic_u128 (coefficient 0) (coefficient 1) (coefficient 2) (non_free_kib size) in
      if ltb (2 ^ 63 - 1) fee then err e_tx_validation else ok fee
]

unfoldable pub calculate_minimum_fee :
    BlockChainConfig → TypedTx → (BlockChainConfig → TypedTx → Roe ℕ) → Roe ℕ
calculate_minimum_fee config tx billable = elim (billable config tx) [
  | err e ↦ err e
  | ok size ↦ elim (to_non_free config size) [
    | err e ↦ err e
    | ok above ↦ minimum_fee_from_non_free_meta_size config above
  ]
]
