-- ===== src/Chain/Packing.antt =====
-- The `serialize` methods of chain/Types.h and client/Client.h, and the text forms of an account's
-- metadata (UserAccount, GenesisAccountMeta), which begin with a version.
use pp_ledger.Base.{◌≡◌, refl, ◌++◌, Option, none, some, ◌==◌, if◌then◌else◌, arith}
use mathlib.Core.List.{append_assoc}
use pp_ledger.Pack.Bytes.{Bytes}
use pp_ledger.Pack.Archive.{
  Archive, IsExact, u8, u16, u32, u64, i64, string, ◌&◌, struct, word-IsExact, i64-IsExact,
  string-IsExact, &-IsExact, struct-IsExact,
}
use pp_ledger.Pack.Containers.{vector, vector-IsExact, balances_map, balances_map-IsExact}
use pp_ledger.Chain.Types.{
  Wallet, UserAccount, CheckpointConfig, BlockChainConfig, GenesisAccountMeta,
}

abbrev pub pack_checkpoint_config : Archive CheckpointConfig
pack_checkpoint_config =
    struct (λ (x0, x1). record { min_blocks = x0; min_age_seconds = x1 })
      (λ t. (t.min_blocks, t.min_age_seconds)) (u64 & u64)

pub pack_checkpoint_config-IsExact : IsExact pack_checkpoint_config
pack_checkpoint_config-IsExact =
    struct-IsExact _ _ _ (λ t. refl) (&-IsExact _ _ (word-IsExact 8) (word-IsExact 8))

abbrev pub pack_chain_config : Archive BlockChainConfig
pack_chain_config =
    struct
      (λ (x0, (x1, (x2, (x3, (x4, (x5, (x6, (x7, x8)))))))). record {
        genesis_time = x0;
        slot_duration = x1;
        slots_per_epoch = x2;
        max_custom_meta_size = x3;
        max_transactions_per_block = x4;
        min_fee_coefficients = x5;
        free_custom_meta_size = x6;
        checkpoint = x7;
        max_validation_timespan_seconds = x8;
      })
      (λ t. (
        t.genesis_time,
        (
          t.slot_duration,
          (
            t.slots_per_epoch,
            (
              t.max_custom_meta_size,
              (
                t.max_transactions_per_block,
                (
                  t.min_fee_coefficients,
                  (t.free_custom_meta_size, (t.checkpoint, t.max_validation_timespan_seconds)),
                ),
              ),
            ),
          ),
        ),
      ))
      (i64 & u64 & u64 & u64 & u64 & (vector u16) & u32 & pack_checkpoint_config & u64)

pub pack_chain_config-IsExact : IsExact pack_chain_config
pack_chain_config-IsExact =
    struct-IsExact _ _ _ (λ t. refl)
      (&-IsExact _ _ i64-IsExact (
        &-IsExact _ _ (word-IsExact 8) (
          &-IsExact _ _ (word-IsExact 8) (
            &-IsExact _ _ (word-IsExact 8) (
              &-IsExact _ _ (word-IsExact 8) (
                &-IsExact _ _ (vector-IsExact u16 (word-IsExact 2)) (
                  &-IsExact _ _ (word-IsExact 4)
                    (&-IsExact _ _ pack_checkpoint_config-IsExact (word-IsExact 8)))))))))

abbrev pub pack_wallet : Archive Wallet
pack_wallet =
    struct
      (λ (x0, (x1, (x2, x3))). record {
        balances = x0;
        public_keys = x1;
        min_signatures = x2;
        key_type = x3;
      })
      (λ t. (t.balances, (t.public_keys, (t.min_signatures, t.key_type))))
      (balances_map & (vector string) & u8 & u8)

pub pack_wallet-IsExact : IsExact pack_wallet
pack_wallet-IsExact =
    struct-IsExact _ _ _ (λ t. refl)
      (&-IsExact _ _ balances_map-IsExact (
        &-IsExact _ _ (vector-IsExact string string-IsExact)
          (&-IsExact _ _ (word-IsExact 1) (word-IsExact 1))))

abbrev pub pack_user_account : Archive UserAccount
pack_user_account =
    struct (λ (x0, x1). record { wallet = x0; meta = x1 }) (λ t. (t.wallet, t.meta))
      (pack_wallet & string)

pub pack_user_account-IsExact : IsExact pack_user_account
pack_user_account-IsExact =
    struct-IsExact _ _ _ (λ t. refl) (&-IsExact _ _ pack_wallet-IsExact string-IsExact)

abbrev pub pack_genesis_meta : Archive GenesisAccountMeta
pack_genesis_meta =
    struct (λ (x0, x1). record { config = x0; genesis = x1 }) (λ t. (t.config, t.genesis))
      (pack_chain_config & pack_user_account)

pub pack_genesis_meta-IsExact : IsExact pack_genesis_meta
pack_genesis_meta-IsExact =
    struct-IsExact _ _ _ (λ t. refl)
      (&-IsExact _ _ pack_chain_config-IsExact pack_user_account-IsExact)

-- ltsToString and ltsFromString of both, which write and want the version 1
unfoldable pub meta_to_string : {A : Type 0} → Archive A → A → Bytes
meta_to_string c a = u32.write 1 ++ c.write a

unfoldable pub meta_from_string : {A : Type 0} → Archive A → Bytes → Option A
meta_from_string c src = elim (u32.read src) [
  | none ↦ none
  | some (version, rest) ↦
      if version == 1 then elim (c.read rest) [ none ↦ none | some (a, _) ↦ some a ] else none
]

unfoldable pub user_account_to_string : UserAccount → Bytes
unfolding meta_to_string
user_account_to_string a = meta_to_string pack_user_account a

unfoldable pub user_account_from_string : Bytes → Option UserAccount
unfolding meta_from_string
user_account_from_string src = meta_from_string pack_user_account src

unfoldable pub genesis_meta_to_string : GenesisAccountMeta → Bytes
unfolding meta_to_string
genesis_meta_to_string a = meta_to_string pack_genesis_meta a

unfoldable pub genesis_meta_from_string : Bytes → Option GenesisAccountMeta
unfolding meta_from_string
genesis_meta_from_string src = meta_from_string pack_genesis_meta src

meta_lem :
    {A : Type 0} (c : Archive A) (a : A) (rest : Bytes)
    → IsExact c
    → c.fits a
    → meta_from_string c (meta_to_string c a ++ rest) ≡ some a
unfolding meta_to_string meta_from_string
meta_lem c a rest h f =
    let version = word-IsExact 4 1 (c.write a ++ rest) (omega arith) in
    rw (append_assoc (u32.write 1) (c.write a) rest)
      (rw (version, meta_from_string) (rw (h a rest f)))

-- The metadata of a user account, and that of the genesis account with the chain's configuration, are
-- read back from their texts, whatever follows. The numbers fit their widths, each string is at most
-- 64 MB long, and the balances are in ascending order of their tokens.
pub meta_from_string-meta_to_string :
    (user : UserAccount) (genesis : GenesisAccountMeta) (rest : Bytes)
    → pack_user_account.fits user
    → pack_genesis_meta.fits genesis
    → (user_account_from_string (user_account_to_string user ++ rest) ≡ some user)
      × (genesis_meta_from_string (genesis_meta_to_string genesis ++ rest) ≡ some genesis)
unfolding user_account_from_string user_account_to_string genesis_meta_from_string
    genesis_meta_to_string
meta_from_string-meta_to_string user genesis rest fu fg = (
  meta_lem pack_user_account user rest pack_user_account-IsExact fu,
  meta_lem pack_genesis_meta genesis rest pack_genesis_meta-IsExact fg,
)
