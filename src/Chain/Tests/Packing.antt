-- ===== src/Chain/Tests/Packing.antt =====
-- The metadata of an account, packed and read back.
use pp_ledger.Base.{◌≡◌, [], ◌∷◌, ◌++◌, some, arith, pos, negsuc}
use pp_ledger.Chain.Types.{UserAccount, GenesisAccountMeta}
use pp_ledger.Chain.Packing.{
  user_account_to_string, user_account_from_string, genesis_meta_to_string,
  genesis_meta_from_string, meta_from_string-meta_to_string,
}

abbrev user : UserAccount
user = record {
  wallet = record {
    balances = (0, pos 100) ∷ (7, negsuc 4) ∷ [];
    public_keys = (1 ∷ 2 ∷ []) ∷ [];
    min_signatures = 1;
    key_type = 0;
  };
  meta = 104 ∷ 105 ∷ [];
}

abbrev genesis_meta : GenesisAccountMeta
genesis_meta = record {
  config = record {
    genesis_time = pos 1700000000;
    slot_duration = 5;
    slots_per_epoch = 432;
    max_custom_meta_size = 1000;
    max_transactions_per_block = 100;
    min_fee_coefficients = 10 ∷ 2 ∷ [];
    free_custom_meta_size = 64;
    checkpoint = record { min_blocks = 20; min_age_seconds = 3600 };
    max_validation_timespan_seconds = 600;
  };
  genesis = user;
}

meta_from_string-meta_to_string_example :
    (user_account_from_string (user_account_to_string user ++ (0 ∷ [])) ≡ some user)
    × (genesis_meta_from_string (genesis_meta_to_string genesis_meta ++ (0 ∷ []))
        ≡ some genesis_meta)
meta_from_string-meta_to_string_example =
    meta_from_string-meta_to_string user genesis_meta (0 ∷ []) (ground arith) (ground arith)
