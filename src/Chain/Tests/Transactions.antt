-- ===== src/Chain/Tests/Transactions.antt =====
-- A payment and a new user, applied in a block.
use pp_ledger.Base.{
  ℕ, ◌≤◌, ◌≡◌, ◌⊎◌, refl, arith, Option, some, none, pos, [], true, false, Bool, ◌==◌,
}
use pp_ledger.Base.Roe.{ok, done}
use pp_ledger.Base.Word.{sub_i64, add_i64, to_i64, mul_u64, add_u64}
use pp_ledger.Map.{insert, lookup}
use pp_ledger.Consensus.Ouroboros.{
  get_slot_from_timestamp, get_slot_start_time, init, set_stakeholders, fill,
}
use pp_ledger.Ledger.{Bytes, tx_default}
use pp_ledger.Ledger.Search.{reader, search, find_block_by_timestamp}
use pp_ledger.Chain.Types.{UserAccount}
use pp_ledger.Chain.AccountBuffer.{
  Buffer, id_genesis, id_first_user, get_balance, has_account, add, verify_spending_power,
  verify_spending_of, transfer_balance, move_funds, pay_fee, write,
}
use pp_ledger.Chain.AccountBuffer.Balances.{IsValid, total}
use pp_ledger.Chain.AccountBuffer.Transfers.Exact.{credit}
use pp_ledger.Chain.TxFees.{
  get_fee_coefficient, non_free_kib, quadratic_u128, minimum_fee_from_non_free_meta_size,
  to_non_free, calculate_minimum_fee,
}
use pp_ledger.Chain.TxIdempotency.{
  KeyOf, scan_records, scan_blocks, check_idempotency, check_window, validate_idempotency_rules,
}
use pp_ledger.Chain.Handlers.Context.{
  TxContext, validate_idempotency_using_context, validate_fee, PaysMinimum,
}
use pp_ledger.Chain.Handlers.Default.{
  apply_default_transfer_strict, apply_block, apply_block_strict,
}
use pp_ledger.Chain.Handlers.NewUser.{
  new_account, validate_new_user, validate_user_account, apply_new_user, apply_new_user_sound,
}
use pp_ledger.Chain.Tests.Common.{
  alice, bob, carol, bank, bank-IsValid, wallet, payment, new_user, ledger, network, config,
}

abbrev key_of_bob : KeyOf
key_of_bob rec = ok (some (bob, 78))

abbrev context : TxContext
context = record {
  consensus = network;
  ledger = ledger;
  bank = bank;
  opt_chain_config = some config;
  fn_idempotency_key_for_record = some key_of_bob;
  fn_billable_custom_meta_size_for_fee = some (λ c t. ok 0);
  fn_account_meta_for_record = none;
}

abbrev after_payment : Buffer
after_payment = (apply_block (tx_default payment) context 8 true bank).1

paid : apply_block (tx_default payment) context 8 true bank ≡ (done, after_payment)
unfolding get_slot_from_timestamp get_slot_start_time init set_stakeholders fill reader search
    find_block_by_timestamp get_balance has_account add verify_spending_power verify_spending_of
    transfer_balance move_funds pay_fee write get_fee_coefficient non_free_kib quadratic_u128
    minimum_fee_from_non_free_meta_size to_non_free calculate_minimum_fee scan_records scan_blocks
    check_idempotency check_window validate_idempotency_rules validate_idempotency_using_context
    validate_fee apply_default_transfer_strict apply_block new_account validate_new_user
    validate_user_account apply_new_user sub_i64 add_i64 to_i64 mul_u64 add_u64 insert lookup
paid = refl

apply_block_strict_example :
    (validate_idempotency_using_context context 77 alice (pos 1000) (pos 1100) 8 true ≡ done)
    × PaysMinimum context (tx_default payment) 2
    × IsValid after_payment
    × ((s : ℕ) → total s after_payment ≡ total s bank)
unfolding get_slot_from_timestamp get_slot_start_time init set_stakeholders fill reader search
    find_block_by_timestamp get_balance has_account add verify_spending_power verify_spending_of
    transfer_balance move_funds pay_fee write get_fee_coefficient non_free_kib quadratic_u128
    minimum_fee_from_non_free_meta_size to_non_free calculate_minimum_fee scan_records scan_blocks
    check_idempotency check_window validate_idempotency_rules validate_idempotency_using_context
    validate_fee apply_default_transfer_strict apply_block new_account validate_new_user
    validate_user_account apply_new_user sub_i64 add_i64 to_i64 mul_u64 add_u64 insert lookup
apply_block_strict_example =
    apply_block_strict payment context 8 bank after_payment bank-IsValid (ground arith)
      (ground arith) paid

-- The new user's metadata holds the amount that it is paid.
abbrev unpack_user_account : Bytes → Option UserAccount
unpack_user_account x = some (record { wallet = wallet (pos 40); meta = [] })

abbrev is_supported : ℕ → Bool
is_supported n = n == 1

abbrev after_new_user : Buffer
after_new_user =
    (apply_new_user unpack_user_account is_supported new_user context 20 false true bank).1

added :
    apply_new_user unpack_user_account is_supported new_user context 20 false true bank
    ≡ (done, after_new_user)
unfolding get_slot_from_timestamp get_slot_start_time init set_stakeholders fill reader search
    find_block_by_timestamp get_balance has_account add verify_spending_power verify_spending_of
    transfer_balance move_funds pay_fee write get_fee_coefficient non_free_kib quadratic_u128
    minimum_fee_from_non_free_meta_size to_non_free calculate_minimum_fee scan_records scan_blocks
    check_idempotency check_window validate_idempotency_rules validate_idempotency_using_context
    validate_fee apply_default_transfer_strict apply_block new_account validate_new_user
    validate_user_account apply_new_user sub_i64 add_i64 to_i64 mul_u64 add_u64 insert lookup
added = refl

apply_new_user_sound_example :
    (lookup carol bank ≡ none)
    × ((alice ≡ id_genesis) ⊎ (id_first_user ≤ carol))
    × IsValid after_new_user
    × ((s : ℕ) → total s after_new_user ≡ total s bank)
    × (get_balance carol id_genesis after_new_user
        ≡ pos (credit carol id_genesis 40 2 carol id_genesis))
unfolding get_slot_from_timestamp get_slot_start_time init set_stakeholders fill reader search
    find_block_by_timestamp get_balance has_account add verify_spending_power verify_spending_of
    transfer_balance move_funds pay_fee write get_fee_coefficient non_free_kib quadratic_u128
    minimum_fee_from_non_free_meta_size to_non_free calculate_minimum_fee scan_records scan_blocks
    check_idempotency check_window validate_idempotency_rules validate_idempotency_using_context
    validate_fee apply_default_transfer_strict apply_block new_account validate_new_user
    validate_user_account apply_new_user sub_i64 add_i64 to_i64 mul_u64 add_u64 insert lookup
apply_new_user_sound_example =
    apply_new_user_sound unpack_user_account is_supported new_user context 20 false true bank
      after_new_user bank-IsValid (ground arith) added
