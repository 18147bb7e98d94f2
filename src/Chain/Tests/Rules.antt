-- ===== src/Chain/Tests/Rules.antt =====
-- Fees and duplicates, at concrete inputs.
use Prim.Native.Nat.{◌^◌}
use pp_ledger.Base.{◌-◌, ◌≡◌, refl, arith, All, ltb, if◌then◌else◌, some, pos, List, [], ◌∷◌, true}
use pp_ledger.Base.Roe.{ok, err, done}
use pp_ledger.Base.Word.{sub_i64, add_i64, to_i64, mul_u64, add_u64}
use pp_ledger.Map.{insert}
use pp_ledger.Consensus.Ouroboros.{
  get_slot_from_timestamp, get_slot_start_time, init, set_stakeholders,
}
use pp_ledger.Ledger.{tx_default, Record}
use pp_ledger.Ledger.Search.{search, find_block_by_timestamp, reader}
use pp_ledger.Chain.Types.{e_tx_validation}
use pp_ledger.Chain.TxFees.{
  get_fee_coefficient, non_free_kib, quadratic_u128, minimum_fee_from_non_free_meta_size,
}
use pp_ledger.Chain.TxFees.Quadratic.{quadratic, kib_up, minimum_fee_exact}
use pp_ledger.Chain.TxIdempotency.{
  KeyOf, scan_records, scan_blocks, check_idempotency, check_window, validate_idempotency_rules,
}
use pp_ledger.Chain.TxIdempotency.Duplicates.{IsOther, check_idempotency_sound}
use pp_ledger.Chain.RecordHandler.{default_handler, default_key, get_idempotency_key}
use pp_ledger.Chain.Tests.Common.{payment, alice, bob, record_of, node_of, ledger, network, config}

fee_of_three_kib : minimum_fee_from_non_free_meta_size config 2049 ≡ ok 4
unfolding default_key get_idempotency_key get_fee_coefficient non_free_kib quadratic_u128
    minimum_fee_from_non_free_meta_size scan_records scan_blocks check_idempotency check_window
    validate_idempotency_rules reader search find_block_by_timestamp get_slot_from_timestamp
    get_slot_start_time init set_stakeholders sub_i64 add_i64 to_i64 mul_u64 insert add_u64
fee_of_three_kib = refl

minimum_fee_exact_example : minimum_fee_from_non_free_meta_size config 2049 ≡ (
    if ltb (2 ^ 63 - 1) (quadratic config.min_fee_coefficients (kib_up 2049))
    then err e_tx_validation
    else ok (quadratic config.min_fee_coefficients (kib_up 2049)))
unfolding default_key get_idempotency_key get_fee_coefficient non_free_kib quadratic_u128
    minimum_fee_from_non_free_meta_size scan_records scan_blocks check_idempotency check_window
    validate_idempotency_rules reader search find_block_by_timestamp get_slot_from_timestamp
    get_slot_start_time init set_stakeholders sub_i64 add_i64 to_i64 mul_u64 insert add_u64
minimum_fee_exact_example =
    minimum_fee_exact config 2049 (ground arith) (ground arith) (ground arith)

abbrev one : List Record
one = record_of 0 ∷ []

-- Every record counts as the transaction 78 of bob.
abbrev key_of_bob : KeyOf
key_of_bob rec = ok (some (bob, 78))

no_duplicate : check_idempotency ledger network key_of_bob 77 alice 2 8 ≡ done
unfolding default_key get_idempotency_key get_fee_coefficient non_free_kib quadratic_u128
    minimum_fee_from_non_free_meta_size scan_records scan_blocks check_idempotency check_window
    validate_idempotency_rules reader search find_block_by_timestamp get_slot_from_timestamp
    get_slot_start_time init set_stakeholders sub_i64 add_i64 to_i64 mul_u64 insert add_u64
no_duplicate = refl

check_idempotency_sound_example : All (IsOther key_of_bob 77 alice) ((node_of 4 one).block.records)
unfolding default_key get_idempotency_key get_fee_coefficient non_free_kib quadratic_u128
    minimum_fee_from_non_free_meta_size scan_records scan_blocks check_idempotency check_window
    validate_idempotency_rules reader search find_block_by_timestamp get_slot_from_timestamp
    get_slot_start_time init set_stakeholders sub_i64 add_i64 to_i64 mul_u64 insert add_u64
check_idempotency_sound_example =
    check_idempotency_sound ledger network key_of_bob 77 alice 2 8 4 (node_of 2 one) (node_of 4 one)
      (ground arith) no_duplicate refl (ground arith) (ground arith)
      (λ m lo hi. (node_of m one, ground arith, ground arith)) refl (ground arith)

in_window :
    validate_idempotency_rules ledger network key_of_bob
      (some config)
      77
      alice
      (pos 1000)
      (pos 1100)
      8
      true
    ≡ done
unfolding default_key get_idempotency_key get_fee_coefficient non_free_kib quadratic_u128
    minimum_fee_from_non_free_meta_size scan_records scan_blocks check_idempotency check_window
    validate_idempotency_rules reader search find_block_by_timestamp get_slot_from_timestamp
    get_slot_start_time init set_stakeholders sub_i64 add_i64 to_i64 mul_u64 insert add_u64
in_window = refl

key_of_payment : get_idempotency_key default_handler (tx_default payment) ≡ ok (some (alice, 77))
unfolding default_key get_idempotency_key get_fee_coefficient non_free_kib quadratic_u128
    minimum_fee_from_non_free_meta_size scan_records scan_blocks check_idempotency check_window
    validate_idempotency_rules reader search find_block_by_timestamp get_slot_from_timestamp
    get_slot_start_time init set_stakeholders sub_i64 add_i64 to_i64 mul_u64 insert add_u64
key_of_payment = refl
