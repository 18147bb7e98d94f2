-- ===== src/Ledger/Packing.antt =====
-- The `serialize` methods of ledger/Ledger.h, the decoding of a record, and the text form of a block
-- (Block::ltsToString, Block::ltsFromString of ledger/Ledger.cpp).
use pp_ledger.Base.{
  ℕ, ◌≡◌, refl, ap, ◌∙◌, inl, inr, Bool-cases, ◌++◌, List, Option, none, some, ltb, ◌==◌,
  if◌then◌else◌, arith,
}
use pp_ledger.Base.Roe.{Roe, ok, err}
use mathlib.Core.List.{append_assoc}
use pp_ledger.Pack.Bytes.{Bytes}
use pp_ledger.Pack.Archive.{
  Archive, IsExact, u16, u64, i64, string, ◌&◌, struct, word-IsExact, i64-IsExact, string-IsExact,
  &-IsExact, struct-IsExact, binary_pack, binary_unpack, binary_unpack-binary_pack,
}
use pp_ledger.Pack.Containers.{vector, vector-IsExact}
use pp_ledger.Ledger.Types.{
  Window, TxDefault, TxGenesis, TxNewUser, TxConfig, TxUserUpdate, TxRenewal, TxEndUser, TypedTx,
  tx_default, tx_genesis, tx_new_user, tx_config, tx_user_update, tx_renewal, tx_end_user, Record,
  Block,
}

abbrev pub pack_window : Archive Window
pack_window =
    struct
      (λ (x0, (x1, x2)). record {
        idempotent_id = x0;
        validation_ts_min = x1;
        validation_ts_max = x2;
      })
      (λ t. (t.idempotent_id, (t.validation_ts_min, t.validation_ts_max))) (u64 & i64 & i64)

pub pack_window-IsExact : IsExact pack_window
pack_window-IsExact =
    struct-IsExact _ _ _ (λ t. refl)
      (&-IsExact _ _ (word-IsExact 8) (&-IsExact _ _ i64-IsExact i64-IsExact))

abbrev pub pack_default : Archive TxDefault
pack_default =
    struct
      (λ (x0, (x1, (x2, (x3, (x4, (x5, x6)))))). record {
        token_id = x0;
        from_wallet_id = x1;
        to_wallet_id = x2;
        amount = x3;
        fee = x4;
        meta = x5;
        window = x6;
      })
      (λ t.
        (t.token_id, (t.from_wallet_id, (t.to_wallet_id, (t.amount, (t.fee, (t.meta, t.window)))))))
      (u64 & u64 & u64 & u64 & u64 & string & pack_window)

pub pack_default-IsExact : IsExact pack_default
pack_default-IsExact =
    struct-IsExact _ _ _ (λ t. refl)
      (&-IsExact _ _ (word-IsExact 8) (
        &-IsExact _ _ (word-IsExact 8) (
          &-IsExact _ _ (word-IsExact 8) (
            &-IsExact _ _ (word-IsExact 8) (
              &-IsExact _ _ (word-IsExact 8) (&-IsExact _ _ string-IsExact pack_window-IsExact))))))

abbrev pub pack_genesis : Archive TxGenesis
pack_genesis =
    struct (λ (x0, x1). record { fee = x0; meta = x1 }) (λ t. (t.fee, t.meta)) (u64 & string)

pub pack_genesis-IsExact : IsExact pack_genesis
pack_genesis-IsExact =
    struct-IsExact _ _ _ (λ t. refl) (&-IsExact _ _ (word-IsExact 8) string-IsExact)

abbrev pub pack_new_user : Archive TxNewUser
pack_new_user =
    struct
      (λ (x0, (x1, (x2, (x3, (x4, x5))))). record {
        from_wallet_id = x0;
        to_wallet_id = x1;
        amount = x2;
        fee = x3;
        meta = x4;
        window = x5;
      })
      (λ t. (t.from_wallet_id, (t.to_wallet_id, (t.amount, (t.fee, (t.meta, t.window))))))
      (u64 & u64 & u64 & u64 & string & pack_window)

pub pack_new_user-IsExact : IsExact pack_new_user
pack_new_user-IsExact =
    struct-IsExact _ _ _ (λ t. refl)
      (&-IsExact _ _ (word-IsExact 8) (
        &-IsExact _ _ (word-IsExact 8) (
          &-IsExact _ _ (word-IsExact 8)
            (&-IsExact _ _ (word-IsExact 8) (&-IsExact _ _ string-IsExact pack_window-IsExact)))))

abbrev pub pack_config : Archive TxConfig
pack_config =
    struct (λ (x0, (x1, x2)). record { fee = x0; meta = x1; window = x2 })
      (λ t. (t.fee, (t.meta, t.window))) (u64 & string & pack_window)

pub pack_config-IsExact : IsExact pack_config
pack_config-IsExact =
    struct-IsExact _ _ _ (λ t. refl)
      (&-IsExact _ _ (word-IsExact 8) (&-IsExact _ _ string-IsExact pack_window-IsExact))

abbrev pub pack_user_update : Archive TxUserUpdate
pack_user_update =
    struct (λ (x0, (x1, (x2, x3))). record { wallet_id = x0; fee = x1; meta = x2; window = x3 })
      (λ t. (t.wallet_id, (t.fee, (t.meta, t.window)))) (u64 & u64 & string & pack_window)

pub pack_user_update-IsExact : IsExact pack_user_update
pack_user_update-IsExact =
    struct-IsExact _ _ _ (λ t. refl)
      (&-IsExact _ _ (word-IsExact 8)
        (&-IsExact _ _ (word-IsExact 8) (&-IsExact _ _ string-IsExact pack_window-IsExact)))

abbrev pub pack_renewal : Archive TxRenewal
pack_renewal =
    struct (λ (x0, (x1, x2)). record { wallet_id = x0; fee = x1; meta = x2 })
      (λ t. (t.wallet_id, (t.fee, t.meta))) (u64 & u64 & string)

pub pack_renewal-IsExact : IsExact pack_renewal
pack_renewal-IsExact =
    struct-IsExact _ _ _ (λ t. refl)
      (&-IsExact _ _ (word-IsExact 8) (&-IsExact _ _ (word-IsExact 8) string-IsExact))

abbrev pub pack_end_user : Archive TxEndUser
pack_end_user =
    struct (λ (x0, (x1, x2)). record { wallet_id = x0; fee = x1; meta = x2 })
      (λ t. (t.wallet_id, (t.fee, t.meta))) (u64 & u64 & string)

pub pack_end_user-IsExact : IsExact pack_end_user
pack_end_user-IsExact =
    struct-IsExact _ _ _ (λ t. refl)
      (&-IsExact _ _ (word-IsExact 8) (&-IsExact _ _ (word-IsExact 8) string-IsExact))

abbrev pub pack_record : Archive Record
pack_record =
    struct (λ (x0, (x1, x2)). record { type = x0; payload = x1; signatures = x2 })
      (λ t. (t.type, (t.payload, t.signatures))) (u16 & string & (vector string))

pub pack_record-IsExact : IsExact pack_record
pack_record-IsExact =
    struct-IsExact _ _ _ (λ t. refl)
      (&-IsExact _ _ (word-IsExact 2)
        (&-IsExact _ _ string-IsExact (vector-IsExact string string-IsExact)))

abbrev pub pack_block : Archive Block
pack_block =
    struct
      (λ (x0, (x1, (x2, (x3, (x4, (x5, (x6, x7))))))). record {
        index = x0;
        timestamp = x1;
        records = x2;
        previous_hash = x3;
        nonce = x4;
        slot = x5;
        slot_leader = x6;
        tx_index = x7;
      })
      (λ t. (
        t.index,
        (
          t.timestamp,
          (t.records, (t.previous_hash, (t.nonce, (t.slot, (t.slot_leader, t.tx_index))))),
        ),
      ))
      (u64 & i64 & (vector pack_record) & string & u64 & u64 & u64 & u64)

pub pack_block-IsExact : IsExact pack_block
pack_block-IsExact =
    struct-IsExact _ _ _ (λ t. refl)
      (&-IsExact _ _ (word-IsExact 8) (
        &-IsExact _ _ i64-IsExact (
          &-IsExact _ _ (vector-IsExact pack_record pack_record-IsExact) (
            &-IsExact _ _ string-IsExact (
              &-IsExact _ _ (word-IsExact 8) (
                &-IsExact _ _ (word-IsExact 8)
                  (&-IsExact _ _ (word-IsExact 8) (word-IsExact 8))))))))

-- binaryPack of a transaction, by its type
unfoldable pub pack_tx : TypedTx → Bytes
unfolding binary_pack
pack_tx (tx_default t) = binary_pack pack_default t
pack_tx (tx_genesis t) = binary_pack pack_genesis t
pack_tx (tx_new_user t) = binary_pack pack_new_user t
pack_tx (tx_config t) = binary_pack pack_config t
pack_tx (tx_user_update t) = binary_pack pack_user_update t
pack_tx (tx_renewal t) = binary_pack pack_renewal t
pack_tx (tx_end_user t) = binary_pack pack_end_user t

-- The T_… constants
unfoldable pub type_of : TypedTx → ℕ
type_of (tx_default _) = 0
type_of (tx_genesis _) = 1
type_of (tx_new_user _) = 2
type_of (tx_config _) = 3
type_of (tx_user_update _) = 4
type_of (tx_renewal _) = 5
type_of (tx_end_user _) = 6

abbrev pub FitsTx : TypedTx → Type 0
FitsTx (tx_default t) = pack_default.fits t
FitsTx (tx_genesis t) = pack_genesis.fits t
FitsTx (tx_new_user t) = pack_new_user.fits t
FitsTx (tx_config t) = pack_config.fits t
FitsTx (tx_user_update t) = pack_user_update.fits t
FitsTx (tx_renewal t) = pack_renewal.fits t
FitsTx (tx_end_user t) = pack_end_user.fits t

-- Of what was unpacked the transaction, of a failure the code 1
abbrev typed : {A : Type 0} → (A → TypedTx) → Roe A → Roe TypedTx
typed make (ok t) = ok (make t)
typed make (err _) = err 1

unfoldable pub decode : Record → Roe TypedTx
unfolding binary_unpack
decode rec =
    if rec.type == 0
    then typed tx_default (binary_unpack pack_default rec.payload)
    else (if rec.type == 1
        then typed tx_genesis (binary_unpack pack_genesis rec.payload)
        else (if rec.type == 2
            then typed tx_new_user (binary_unpack pack_new_user rec.payload)
            else (if rec.type == 3
                then typed tx_config (binary_unpack pack_config rec.payload)
                else (if rec.type == 4
                    then typed tx_user_update (binary_unpack pack_user_update rec.payload)
                    else (if rec.type == 5
                        then typed tx_renewal (binary_unpack pack_renewal rec.payload)
                        else (if rec.type == 6
                            then typed tx_end_user (binary_unpack pack_end_user rec.payload)
                            else err 1))))))

typed_inv :
    {A : Type 0} (make : A → TypedTx) (r : Roe A) (tx : TypedTx)
    → typed make r ≡ ok tx
    → (a : A) × (tx ≡ make a)
typed_inv make (ok a) tx h = (a, cc)
typed_inv make (err e) tx h = absurd (ground (arith, h))

type_of-typed :
    {A : Type 0} (make : A → TypedTx) (n : ℕ) (r : Roe A) (tx : TypedTx)
    → ((a : A) → type_of (make a) ≡ n)
    → typed make r ≡ ok tx
    → type_of tx ≡ n
type_of-typed make n r tx same h = let (a, e) = typed_inv make r tx h in ap type_of e ∙ same a

-- A branch of `decode`, with the branches behind it
branch-type_of :
    {A : Type 0} (make : A → TypedTx) (n : ℕ) (rec : Record) (r next : Roe TypedTx) (tx : TypedTx)
    → (r ≡ ok tx → type_of tx ≡ n)
    → (next ≡ ok tx → type_of tx ≡ rec.type)
    → (if rec.type == n then r else next) ≡ ok tx
    → type_of tx ≡ rec.type
branch-type_of make n rec r next tx here later h = elim (Bool-cases (rec.type == n)) [
  | inl e ↦ here (ground (arith, h, e)) ∙ ground (arith, e)
  | inr e ↦ later (ground (arith, h, e))
]

-- What a record decodes to is of the record's type.
pub decode-type_of : (rec : Record) (tx : TypedTx) → decode rec ≡ ok tx → type_of tx ≡ rec.type
unfolding decode type_of
decode-type_of rec tx =
    branch-type_of tx_default 0 rec _ _ tx (type_of-typed tx_default 0 _ tx (λ a. refl)) (
      branch-type_of tx_genesis 1 rec _ _ tx (type_of-typed tx_genesis 1 _ tx (λ a. refl)) (
        branch-type_of tx_new_user 2 rec _ _ tx (type_of-typed tx_new_user 2 _ tx (λ a. refl)) (
          branch-type_of tx_config 3 rec _ _ tx (type_of-typed tx_config 3 _ tx (λ a. refl)) (
            branch-type_of tx_user_update 4 rec _ _ tx
              (type_of-typed tx_user_update 4 _ tx (λ a. refl))
              (branch-type_of tx_renewal 5 rec _ _ tx (type_of-typed tx_renewal 5 _ tx (λ a. refl))
                (branch-type_of tx_end_user 6 rec _ _ tx
                  (type_of-typed tx_end_user 6 _ tx (λ a. refl))
                  (λ h. absurd (ground (arith, h)))))))))

decode_lem :
    {A : Type 0} (c : Archive A) (make : A → TypedTx) (a : A) (rest : Bytes)
    → IsExact c
    → c.fits a
    → typed make (binary_unpack c (binary_pack c a ++ rest)) ≡ ok (make a)
decode_lem c make a rest h f = rw (binary_unpack-binary_pack c h a rest f)

-- A record whose payload begins with a packed transaction of its type decodes to that transaction. The
-- numbers fit their widths, and each string is at most 64 MB long.
pub decode-pack_tx :
    (tx : TypedTx) (rest : Bytes) (signatures : List Bytes)
    → FitsTx tx
    → decode (record { type = type_of tx; payload = pack_tx tx ++ rest; signatures = signatures })
      ≡ ok tx
unfolding decode pack_tx type_of
decode-pack_tx (tx_default t) rest signatures f =
    decode_lem pack_default tx_default t rest pack_default-IsExact f
decode-pack_tx (tx_genesis t) rest signatures f =
    decode_lem pack_genesis tx_genesis t rest pack_genesis-IsExact f
decode-pack_tx (tx_new_user t) rest signatures f =
    decode_lem pack_new_user tx_new_user t rest pack_new_user-IsExact f
decode-pack_tx (tx_config t) rest signatures f =
    decode_lem pack_config tx_config t rest pack_config-IsExact f
decode-pack_tx (tx_user_update t) rest signatures f =
    decode_lem pack_user_update tx_user_update t rest pack_user_update-IsExact f
decode-pack_tx (tx_renewal t) rest signatures f =
    decode_lem pack_renewal tx_renewal t rest pack_renewal-IsExact f
decode-pack_tx (tx_end_user t) rest signatures f =
    decode_lem pack_end_user tx_end_user t rest pack_end_user-IsExact f

abbrev pub current_version : ℕ
current_version = 1

unfoldable pub block_to_string : Block → Bytes
block_to_string b = u16.write current_version ++ pack_block.write b

-- Versions up to the current one are read alike.
unfoldable pub block_from_string : Bytes → Option Block
block_from_string src = elim (u16.read src) [
  | none ↦ none
  | some (version, rest) ↦
      if ltb current_version version
      then none
      else elim (pack_block.read rest) [ none ↦ none | some (b, _) ↦ some b ]
]

-- A block is read back from its text, whatever follows it, where its numbers fit their widths and each
-- string is at most 64 MB long.
pub block_from_string-block_to_string :
    (b : Block) (rest : Bytes)
    → pack_block.fits b
    → block_from_string (block_to_string b ++ rest) ≡ some b
unfolding block_from_string block_to_string
block_from_string-block_to_string b rest f =
    let version = word-IsExact 2 1 (pack_block.write b ++ rest) (omega arith) in
    rw (append_assoc (u16.write 1) (pack_block.write b) rest)
      (rw (version, block_from_string) (rw (pack_block-IsExact b rest f)))
