-- ===== src/Chain/Tests/Handlers.antt =====
-- Updates of accounts and of the configuration, and signatures, at concrete inputs.
use pp_ledger.Base.{
  ℕ, ◌≢◌, ◌≤◌, ◌≡◌, refl, Bool, true, false, ◌==◌, List, [], ◌∷◌, none, some, arith, length, pos,
  ◌+ℤ◌, ◌<ℤ◌, pos_part, if◌then◌else◌, eqb_list, Distinct, negsuc,
}
use pp_ledger.Base.Word.{to_i64, add_i64, sub_i64, add_u64, mul_u64, wrap_i64}
use pp_ledger.Base.Roe.{ok, done}
use pp_ledger.Map.{lookup, insert, erase, contains}
use pp_ledger.Pack.Bytes.{Bytes, read_bytes, be_bytes}
use pp_ledger.Pack.Archive.{read_word, read_i64, write_string, read_string, read_both, read_struct}
use pp_ledger.Pack.Containers.{write_all, read_all, read_vector, assign_all, read_balances}
use pp_ledger.Ledger.{TxUserUpdate, tx_user_update, TxEndUser, TxConfig, tx_config}
use pp_ledger.Ledger.Search.{reader, search, find_block_by_timestamp}
use pp_ledger.Consensus.Ouroboros.{
  init, set_stakeholders, fill, get_slot_from_timestamp, get_slot_start_time,
}
use pp_ledger.Chain.Types.{Wallet, UserAccount, GenesisAccountMeta, BlockChainConfig}
use pp_ledger.Chain.Packing.{
  user_account_to_string, user_account_from_string, genesis_meta_to_string,
  genesis_meta_from_string, meta_to_string, meta_from_string,
}
use pp_ledger.Chain.AccountBuffer.{
  Account, Buffer, id_genesis, id_recycle, id_fee, get_balance, get_account, has_account, add,
  remove, write, deposit_balance, verify_balance, verify_balance_of, balances_match, safe_add,
  write_off, recycle,
}
use pp_ledger.Chain.AccountBuffer.Balances.{IsValid, total}
use pp_ledger.Chain.TxFees.{
  get_fee_coefficient, to_non_free, non_free_kib, quadratic_u128,
  minimum_fee_from_non_free_meta_size, calculate_minimum_fee,
}
use pp_ledger.Chain.TxIdempotency.{
  scan_records, scan_blocks, check_idempotency, check_window, validate_idempotency_rules,
}
use pp_ledger.Chain.TxSignatures.{
  use_key, use_keys, Signs, verify_signatures_against_account,
  verify_signatures_against_account_sound,
}
use pp_ledger.Chain.LedgerMeta.{
  last_meta, get_user_account_meta_from_block, account_meta_size,
  calculate_minimum_fee_for_account_meta, user_wallet_after_fee, genesis_wallet_after_fee,
}
use pp_ledger.Chain.Handlers.Context.{
  TxContext, PaysMinimum, validate_fee, validate_idempotency_using_context,
}
use pp_ledger.Chain.Handlers.Upsert.{
  apply_user_account_upsert, replace_account, deposit_fee, validate_upsert_wallet,
  validate_upsert_balance,
}
use pp_ledger.Chain.Handlers.Replace.{apply_user_account_upsert_conserves}
use pp_ledger.Chain.Handlers.EndUser.{apply_end_user, end_user_fee, apply_end_user_sound}
use pp_ledger.Chain.Handlers.Renewal.{validate_genesis_keys}
use pp_ledger.Chain.Handlers.Config.{
  apply_block_config, apply_config_update_core, accept_config, validate_config_change, Permits,
  apply_block_config_sound,
}
use pp_ledger.Chain.Renewals.{fee_account_not_renewable, renewal_passes}
use pp_ledger.Chain.Tests.Common.{
  alice, bank, bank-IsValid, account, wallet, window, config, ledger, network,
}

abbrev new_alice : UserAccount
new_alice = record { wallet = wallet (pos 98); meta = [] }

abbrev context : TxContext
context = record {
  consensus = network;
  ledger = ledger;
  bank = bank;
  opt_chain_config = some config;
  fn_idempotency_key_for_record = some (λ rec. ok none);
  fn_billable_custom_meta_size_for_fee = some (λ c t. ok 0);
  fn_account_meta_for_record = some (record {
    fn_user = λ rec id. some (user_account_to_string new_alice);
    fn_genesis = λ rec block. none;
  });
}

abbrev is_supported : ℕ → Bool
is_supported n = n == 1

-- Alice pays a fee of 2 and keeps the rest of her 100.
abbrev update : TxUserUpdate
update = record {
  wallet_id = alice;
  fee = 2;
  meta = user_account_to_string new_alice;
  window = window;
}

abbrev after_update : Buffer
after_update = (apply_user_account_upsert is_supported update context 20 true bank).1

updated : apply_user_account_upsert is_supported update context 20 true bank ≡ (done, after_update)
unfolding read_bytes be_bytes read_word read_i64 write_string read_string read_both read_struct
    write_all read_all read_vector assign_all read_balances reader search find_block_by_timestamp
    init set_stakeholders fill get_slot_from_timestamp get_slot_start_time user_account_to_string
    user_account_from_string genesis_meta_to_string genesis_meta_from_string meta_to_string
    meta_from_string get_balance get_account has_account add remove write deposit_balance
    verify_balance verify_balance_of balances_match safe_add write_off recycle get_fee_coefficient
    to_non_free non_free_kib quadratic_u128 minimum_fee_from_non_free_meta_size
    calculate_minimum_fee scan_records scan_blocks check_idempotency check_window
    validate_idempotency_rules use_key use_keys verify_signatures_against_account last_meta
    get_user_account_meta_from_block account_meta_size calculate_minimum_fee_for_account_meta
    validate_fee validate_idempotency_using_context apply_user_account_upsert replace_account
    deposit_fee validate_upsert_wallet validate_upsert_balance apply_end_user end_user_fee
    validate_genesis_keys apply_block_config apply_config_update_core accept_config
    validate_config_change to_i64 add_i64 sub_i64 wrap_i64 add_u64 mul_u64 insert lookup erase
updated = refl

apply_user_account_upsert_conserves_example :
    PaysMinimum context (tx_user_update update) 2
    × (is_supported 1 ≡ true)
    × (1 ≤ 1)
    × IsValid after_update
    × ((s : ℕ) → total s after_update ≡ total s bank)
unfolding read_bytes be_bytes read_word read_i64 write_string read_string read_both read_struct
    write_all read_all read_vector assign_all read_balances reader search find_block_by_timestamp
    init set_stakeholders fill get_slot_from_timestamp get_slot_start_time user_account_to_string
    user_account_from_string genesis_meta_to_string genesis_meta_from_string meta_to_string
    meta_from_string get_balance get_account has_account add remove write deposit_balance
    verify_balance verify_balance_of balances_match safe_add write_off recycle get_fee_coefficient
    to_non_free non_free_kib quadratic_u128 minimum_fee_from_non_free_meta_size
    calculate_minimum_fee scan_records scan_blocks check_idempotency check_window
    validate_idempotency_rules use_key use_keys verify_signatures_against_account last_meta
    get_user_account_meta_from_block account_meta_size calculate_minimum_fee_for_account_meta
    validate_fee validate_idempotency_using_context apply_user_account_upsert replace_account
    deposit_fee validate_upsert_wallet validate_upsert_balance apply_end_user end_user_fee
    validate_genesis_keys apply_block_config apply_config_update_core accept_config
    validate_config_change to_i64 add_i64 sub_i64 wrap_i64 add_u64 mul_u64 insert lookup erase
apply_user_account_upsert_conserves_example =
    apply_user_account_upsert_conserves is_supported update new_alice context 20 bank after_update
      bank-IsValid refl (ground arith) refl (ground arith) (λ s. ground arith) (ground arith) refl
      updated

-- Alice has nothing left.
abbrev poor_bank : Buffer
poor_bank =
    (1, account 1 15 (pos 7)) ∷ (3, account 3 0 (pos 4)) ∷ (alice, account alice 1 (pos 0)) ∷ []

poor_bank-IsValid : IsValid poor_bank
unfolding read_bytes be_bytes read_word read_i64 write_string read_string read_both read_struct
    write_all read_all read_vector assign_all read_balances reader search find_block_by_timestamp
    init set_stakeholders fill get_slot_from_timestamp get_slot_start_time user_account_to_string
    user_account_from_string genesis_meta_to_string genesis_meta_from_string meta_to_string
    meta_from_string get_balance get_account has_account add remove write deposit_balance
    verify_balance verify_balance_of balances_match safe_add write_off recycle get_fee_coefficient
    to_non_free non_free_kib quadratic_u128 minimum_fee_from_non_free_meta_size
    calculate_minimum_fee scan_records scan_blocks check_idempotency check_window
    validate_idempotency_rules use_key use_keys verify_signatures_against_account last_meta
    get_user_account_meta_from_block account_meta_size calculate_minimum_fee_for_account_meta
    validate_fee validate_idempotency_using_context apply_user_account_upsert replace_account
    deposit_fee validate_upsert_wallet validate_upsert_balance apply_end_user end_user_fee
    validate_genesis_keys apply_block_config apply_config_update_core accept_config
    validate_config_change to_i64 add_i64 sub_i64 wrap_i64 add_u64 mul_u64 insert lookup erase
poor_bank-IsValid = record {
  sorted = ground arith;
  named = λ k a e. ground (arith, e);
  ranged = λ k token. ground arith;
}

abbrev ending : TxEndUser
ending = record { wallet_id = alice; fee = 0; meta = [] }

abbrev after_ending : Buffer
after_ending = (apply_end_user ending context poor_bank).1

ended : apply_end_user ending context poor_bank ≡ (done, after_ending)
unfolding read_bytes be_bytes read_word read_i64 write_string read_string read_both read_struct
    write_all read_all read_vector assign_all read_balances reader search find_block_by_timestamp
    init set_stakeholders fill get_slot_from_timestamp get_slot_start_time user_account_to_string
    user_account_from_string genesis_meta_to_string genesis_meta_from_string meta_to_string
    meta_from_string get_balance get_account has_account add remove write deposit_balance
    verify_balance verify_balance_of balances_match safe_add write_off recycle get_fee_coefficient
    to_non_free non_free_kib quadratic_u128 minimum_fee_from_non_free_meta_size
    calculate_minimum_fee scan_records scan_blocks check_idempotency check_window
    validate_idempotency_rules use_key use_keys verify_signatures_against_account last_meta
    get_user_account_meta_from_block account_meta_size calculate_minimum_fee_for_account_meta
    validate_fee validate_idempotency_using_context apply_user_account_upsert replace_account
    deposit_fee validate_upsert_wallet validate_upsert_balance apply_end_user end_user_fee
    validate_genesis_keys apply_block_config apply_config_update_core accept_config
    validate_config_change to_i64 add_i64 sub_i64 wrap_i64 add_u64 mul_u64 insert lookup erase
ended = refl

apply_end_user_sound_example :
    (min_fee : ℕ) × (end_user_fee ending context poor_bank ≡ ok min_fee)
    × (ending.fee ≡ 0)
    × (get_balance alice id_genesis poor_bank <ℤ to_i64 min_fee)
    × (contains alice after_ending ≡ false)
    × IsValid after_ending
    × ((j s : ℕ)
        → get_balance j s after_ending ≡ (
            if alice == j
            then pos 0
            else get_balance j s poor_bank
              +ℤ pos (if id_recycle == j then pos_part (get_balance alice s poor_bank) else 0)))
unfolding read_bytes be_bytes read_word read_i64 write_string read_string read_both read_struct
    write_all read_all read_vector assign_all read_balances reader search find_block_by_timestamp
    init set_stakeholders fill get_slot_from_timestamp get_slot_start_time user_account_to_string
    user_account_from_string genesis_meta_to_string genesis_meta_from_string meta_to_string
    meta_from_string get_balance get_account has_account add remove write deposit_balance
    verify_balance verify_balance_of balances_match safe_add write_off recycle get_fee_coefficient
    to_non_free non_free_kib quadratic_u128 minimum_fee_from_non_free_meta_size
    calculate_minimum_fee scan_records scan_blocks check_idempotency check_window
    validate_idempotency_rules use_key use_keys verify_signatures_against_account last_meta
    get_user_account_meta_from_block account_meta_size calculate_minimum_fee_for_account_meta
    validate_fee validate_idempotency_using_context apply_user_account_upsert replace_account
    deposit_fee validate_upsert_wallet validate_upsert_balance apply_end_user end_user_fee
    validate_genesis_keys apply_block_config apply_config_update_core accept_config
    validate_config_change to_i64 add_i64 sub_i64 wrap_i64 add_u64 mul_u64 insert lookup erase
apply_end_user_sound_example =
    apply_end_user_sound ending context poor_bank after_ending poor_bank-IsValid refl (ground arith)
      (ground arith) refl (λ s. ground arith) ended

abbrev genesis_wallet : Wallet
genesis_wallet = record {
  balances = (0, pos 7) ∷ [];
  public_keys = (1 ∷ []) ∷ (2 ∷ []) ∷ (3 ∷ []) ∷ [];
  min_signatures = 2;
  key_type = 1;
}

abbrev faster : GenesisAccountMeta
faster = record {
  config = record config { slot_duration = 4 };
  genesis = record { wallet = genesis_wallet; meta = [] };
}

abbrev config_context : TxContext
config_context = record context {
  bank = (0, record { id = 0; wallet = genesis_wallet; block_id = 0 }) ∷ bank;
}

abbrev change : TxConfig
change = record { fee = 0; meta = genesis_meta_to_string faster; window = window }

abbrev after_change : TxContext
after_change = (apply_block_config (tx_config change) 20 8 true config_context).1

changed : apply_block_config (tx_config change) 20 8 true config_context ≡ (done, after_change)
unfolding read_bytes be_bytes read_word read_i64 write_string read_string read_both read_struct
    write_all read_all read_vector assign_all read_balances reader search find_block_by_timestamp
    init set_stakeholders fill get_slot_from_timestamp get_slot_start_time user_account_to_string
    user_account_from_string genesis_meta_to_string genesis_meta_from_string meta_to_string
    meta_from_string get_balance get_account has_account add remove write deposit_balance
    verify_balance verify_balance_of balances_match safe_add write_off recycle get_fee_coefficient
    to_non_free non_free_kib quadratic_u128 minimum_fee_from_non_free_meta_size
    calculate_minimum_fee scan_records scan_blocks check_idempotency check_window
    validate_idempotency_rules use_key use_keys verify_signatures_against_account last_meta
    get_user_account_meta_from_block account_meta_size calculate_minimum_fee_for_account_meta
    validate_fee validate_idempotency_using_context apply_user_account_upsert replace_account
    deposit_fee validate_upsert_wallet validate_upsert_balance apply_end_user end_user_fee
    validate_genesis_keys apply_block_config apply_config_update_core accept_config
    validate_config_change to_i64 add_i64 sub_i64 wrap_i64 add_u64 mul_u64 insert lookup erase
changed = refl

apply_block_config_sound_example :
    (old : BlockChainConfig) × (gm : GenesisAccountMeta) × (some config ≡ some old)
    × (change.fee ≡ 0)
    × (genesis_meta_from_string change.meta ≡ some gm)
    × (after_change.opt_chain_config ≡ some gm.config)
    × Permits old gm.config
    × (3 ≤ length gm.genesis.wallet.public_keys)
    × (2 ≤ gm.genesis.wallet.min_signatures)
unfolding read_bytes be_bytes read_word read_i64 write_string read_string read_both read_struct
    write_all read_all read_vector assign_all read_balances reader search find_block_by_timestamp
    init set_stakeholders fill get_slot_from_timestamp get_slot_start_time user_account_to_string
    user_account_from_string genesis_meta_to_string genesis_meta_from_string meta_to_string
    meta_from_string get_balance get_account has_account add remove write deposit_balance
    verify_balance verify_balance_of balances_match safe_add write_off recycle get_fee_coefficient
    to_non_free non_free_kib quadratic_u128 minimum_fee_from_non_free_meta_size
    calculate_minimum_fee scan_records scan_blocks check_idempotency check_window
    validate_idempotency_rules use_key use_keys verify_signatures_against_account last_meta
    get_user_account_meta_from_block account_meta_size calculate_minimum_fee_for_account_meta
    validate_fee validate_idempotency_using_context apply_user_account_upsert replace_account
    deposit_fee validate_upsert_wallet validate_upsert_balance apply_end_user end_user_fee
    validate_genesis_keys apply_block_config apply_config_update_core accept_config
    validate_config_change to_i64 add_i64 sub_i64 wrap_i64 add_u64 mul_u64 insert lookup erase
apply_block_config_sound_example =
    apply_block_config_sound change 20 8 config_context after_change changed

-- A signature is the key with 9 in front.
abbrev verify : ℕ → Bytes → Bytes → Bytes → Bool
verify key_type key message signature = eqb_list signature (9 ∷ key)

abbrev signer : Account
signer = record { id = alice; wallet = genesis_wallet; block_id = 1 }

abbrev two_signatures : List Bytes
two_signatures = (9 ∷ 3 ∷ []) ∷ (9 ∷ 1 ∷ []) ∷ []

verify_signatures_against_account_sound_example :
    (2 ≤ 2)
    × ((places : List ℕ) × Signs verify 1 [] genesis_wallet.public_keys two_signatures places
        × Distinct places)
unfolding read_bytes be_bytes read_word read_i64 write_string read_string read_both read_struct
    write_all read_all read_vector assign_all read_balances reader search find_block_by_timestamp
    init set_stakeholders fill get_slot_from_timestamp get_slot_start_time user_account_to_string
    user_account_from_string genesis_meta_to_string genesis_meta_from_string meta_to_string
    meta_from_string get_balance get_account has_account add remove write deposit_balance
    verify_balance verify_balance_of balances_match safe_add write_off recycle get_fee_coefficient
    to_non_free non_free_kib quadratic_u128 minimum_fee_from_non_free_meta_size
    calculate_minimum_fee scan_records scan_blocks check_idempotency check_window
    validate_idempotency_rules use_key use_keys verify_signatures_against_account last_meta
    get_user_account_meta_from_block account_meta_size calculate_minimum_fee_for_account_meta
    validate_fee validate_idempotency_using_context apply_user_account_upsert replace_account
    deposit_fee validate_upsert_wallet validate_upsert_balance apply_end_user end_user_fee
    validate_genesis_keys apply_block_config apply_config_update_core accept_config
    validate_config_change to_i64 add_i64 sub_i64 wrap_i64 add_u64 mul_u64 insert lookup erase
verify_signatures_against_account_sound_example =
    verify_signatures_against_account_sound verify [] two_signatures signer refl

fee_account_not_renewable_example :
    verify_balance id_fee 0 1 (wallet (pos 7)).balances poor_bank ≢ done
unfolding read_bytes be_bytes read_word read_i64 write_string read_string read_both read_struct
    write_all read_all read_vector assign_all read_balances reader search find_block_by_timestamp
    init set_stakeholders fill get_slot_from_timestamp get_slot_start_time user_account_to_string
    user_account_from_string genesis_meta_to_string genesis_meta_from_string meta_to_string
    meta_from_string get_balance get_account has_account add remove write deposit_balance
    verify_balance verify_balance_of balances_match safe_add write_off recycle get_fee_coefficient
    to_non_free non_free_kib quadratic_u128 minimum_fee_from_non_free_meta_size
    calculate_minimum_fee scan_records scan_blocks check_idempotency check_window
    validate_idempotency_rules use_key use_keys verify_signatures_against_account last_meta
    get_user_account_meta_from_block account_meta_size calculate_minimum_fee_for_account_meta
    validate_fee validate_idempotency_using_context apply_user_account_upsert replace_account
    deposit_fee validate_upsert_wallet validate_upsert_balance apply_end_user end_user_fee
    validate_genesis_keys apply_block_config apply_config_update_core accept_config
    validate_config_change to_i64 add_i64 sub_i64 wrap_i64 add_u64 mul_u64 insert lookup erase
    user_wallet_after_fee
fee_account_not_renewable_example =
    fee_account_not_renewable 1 poor_bank (wallet (pos 7)) poor_bank-IsValid refl (ground arith)
      (ground arith) (ground arith) refl

-- The genesis account owes 100, which a fee of 1 makes 101.
abbrev issuing_bank : Buffer
issuing_bank = (0, account 0 1 (negsuc 99)) ∷ (1, account 1 15 (pos 100)) ∷ []

issuing_bank-IsValid : IsValid issuing_bank
unfolding get_balance lookup
issuing_bank-IsValid = record {
  sorted = ground arith;
  named = λ k a e. ground (arith, e);
  ranged = λ k token. ground arith;
}

renewal_passes_example : verify_balance 0 0 1 (wallet (negsuc 100)).balances issuing_bank ≡ done
unfolding lookup insert genesis_wallet_after_fee to_i64 add_i64 sub_i64
renewal_passes_example =
    renewal_passes 0 1 issuing_bank (wallet (negsuc 100)) (negsuc 99) issuing_bank-IsValid refl
      (ground arith) refl (ground arith) (ground arith) refl
