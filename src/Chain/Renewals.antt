-- ===== src/Chain/Renewals.antt =====
-- The renewals that a block producer collects (Chain::createRenewalTx and Chain::collectRenewals of
-- chain/Chain.cpp), and how they meet the check of the balance when they are applied.
use Prim.Native.Nat.{◌^◌}
use pp_ledger.Base.{
  ℕ, ◌<◌, ◌≡◌, ◌≢◌, sym, ap, subst, ◌∙◌, false, not, ◌&&◌, List, [], ◌∷◌, none, some, arith, ltb,
  ◌==◌, if◌then◌else◌, ℤ, pos, ◌+ℤ◌, ◌-ℤ◌, +ℤ_parts, -ℤ_parts, ◌≤ℤ◌, ltb_ℤ, inl, inr, Option-cases,
  Bool-cases, int_laws, parts_of_eq,
}
use pp_ledger.Base.Word.{
  IsI64, to_i64, to_u64, to_i64_small, i64_min, add_i64, sub_i64, sub_i64_exact,
}
use pp_ledger.Base.Roe.{Roe, ok, err, done}
use pp_ledger.Map.{Map, lookup, insert, lookup-insert, insert-IsAbove, IsSorted}
use pp_ledger.Pack.Archive.{binary_pack}
use pp_ledger.Ledger.{Record}
use pp_ledger.Ledger.Packing.{pack_renewal, pack_end_user}
use pp_ledger.Chain.Types.{Wallet, e_internal, e_account_not_found, e_block_not_found}
use pp_ledger.Chain.AccountBuffer.{
  Account, Buffer, id_genesis, id_fee, get_account, get_balance, or_zero, verify_balance,
  account_ids_before_block_id,
}
use pp_ledger.Chain.AccountBuffer.Balances.{IsValid, get_balance_found}
use pp_ledger.Chain.AccountBuffer.Expected.{Expects, verify_balance_iff}
use pp_ledger.Chain.LedgerMeta.{
  genesis_wallet_after_fee, user_wallet_after_fee, get_updated_account_metadata_for_renewal,
  calculate_minimum_fee_for_account_meta,
}
use pp_ledger.Chain.Handlers.Context.{TxContext}

-- Chain::calculateMinimumFeeForAccountMeta
unfoldable pub minimum_fee_of : TxContext → ℕ → Roe ℕ
minimum_fee_of ctx id = elim ctx.opt_chain_config [
  | none ↦ err e_internal
  | some config ↦ elim ctx.fn_account_meta_for_record [
    | none ↦ err e_internal
    | some fns ↦
        calculate_minimum_fee_for_account_meta ctx.ledger config ctx.bank id fns.fn_user
          fns.fn_genesis
  ]
]

-- The record of a renewal with its metadata
unfoldable pub renewal_record : TxContext → ℕ → Account → ℕ → Roe Record
unfolding binary_pack
renewal_record ctx id a min_fee = elim (ctx.ledger.read_block a.block_id) [
  | err _ ↦ err e_block_not_found
  | ok node ↦ elim ctx.fn_account_meta_for_record [
    | none ↦ err e_internal
    | some fns ↦
        elim (get_updated_account_metadata_for_renewal node.block a min_fee fns.fn_user
          fns.fn_genesis) [
            | err e ↦ err e
            | ok meta ↦ ok (record {
              type = 5;
              payload =
                  binary_pack pack_renewal (record { wallet_id = id; fee = min_fee; meta = meta });
              signatures = [];
            })
          ]
  ]
]

-- The balance is compared as a uint64_t.
unfoldable pub create_renewal_tx : TxContext → ℕ → Roe Record
unfolding minimum_fee_of renewal_record binary_pack
create_renewal_tx ctx id = elim (get_account id ctx.bank) [
  | err _ ↦ err e_account_not_found
  | ok a ↦ elim (minimum_fee_of ctx id) [
    | err e ↦ err e
    | ok min_fee ↦
        let ended : Record = record {
          type = 6;
          payload = binary_pack pack_end_user (record { wallet_id = id; fee = 0; meta = [] });
          signatures = [];
        } in
        if not (id == id_genesis)
          && (not (id == id_fee) && ltb (to_u64 (get_balance id id_genesis ctx.bank)) min_fee)
        then ok ended
        else renewal_record ctx id a min_fee
  ]
]

unfoldable pub renewals_of : TxContext → List ℕ → Roe (List Record)
unfolding create_renewal_tx
renewals_of ctx [] = ok []
renewals_of ctx (id ∷ ids) = elim (create_renewal_tx ctx id) [
  | err e ↦ err e
  | ok rec ↦ elim (renewals_of ctx ids) [ err e ↦ err e | ok recs ↦ ok (rec ∷ recs) ]
]

-- `max_block_id` is the result of calculateMaxBlockIdForRenewal at the next block.
unfoldable pub collect_renewals : TxContext → Roe ℕ → Roe (List Record)
unfolding renewals_of account_ids_before_block_id
collect_renewals ctx max_block_id = elim max_block_id [
  | err e ↦ err e
  | ok id ↦ if id == 0 then ok [] else renewals_of ctx (account_ids_before_block_id id ctx.bank)
]

fee_wallet_same :
    (min_fee : ℕ) (w w' : Wallet) → user_wallet_after_fee id_fee min_fee w ≡ ok w' → w ≡ w'
unfolding user_wallet_after_fee
fee_wallet_same min_fee w w' h = elim (Option-cases (lookup id_genesis w.balances)) [
  | inl missing ↦ ground (arith, missing, h)
  | inr (v, found) ↦ elim (Bool-cases (ltb_ℤ v (add_i64 i64_min (to_i64 min_fee)))) [
    | inl low ↦ absurd (ground (arith, found, low, h))
    | inr fine ↦ ground (arith, found, fine, h)
  ]
]

left_IsI64 : (v : ℤ) (fee : ℕ) → IsI64 v → pos fee ≤ℤ v → fee < 2 ^ 63 → IsI64 (v -ℤ pos fee)
unfolding ◌-ℤ◌
left_IsI64 v fee range covers small = ground (arith, range, covers, small)

-- What an account other than the fee account pays: its native balance covers the fee.
user_wallet_paid :
    (id min_fee : ℕ) (v : ℤ) (w w' : Wallet)
    → id ≢ id_fee
    → min_fee < 2 ^ 63
    → lookup id_genesis w.balances ≡ some v
    → user_wallet_after_fee id min_fee w ≡ ok w'
    → (pos min_fee ≤ℤ v) × (insert id_genesis (sub_i64 v (pos min_fee)) w.balances ≡ w'.balances)
unfolding user_wallet_after_fee
user_wallet_paid id min_fee v w w' ne small found h =
    let other : (id == id_fee) ≡ false = ground (arith, ne) in
    let fee = to_i64_small min_fee small in
    elim (Bool-cases (ltb_ℤ v (pos min_fee))) [
      | inl low ↦ absurd (ground (arith, found, other, fee, low, h))
      | inr covered ↦
          let run : ok
                (record w { balances = insert id_genesis (sub_i64 v (pos min_fee)) w.balances })
              ≡ ok w' =
            ground (arith, found, other, fee, covered, h) in
          (ground (arith, covered), ground (arith, run))
    ]

-- The wallet that getUpdatedAccountMetadataForRenewal describes
abbrev pub wallet_after_fee : ℕ → ℕ → Wallet → Roe Wallet
wallet_after_fee id min_fee w =
    if id == id_genesis
    then genesis_wallet_after_fee min_fee w
    else user_wallet_after_fee id min_fee w

lowest_after : (fee : ℕ) → fee < 2 ^ 63 → add_i64 i64_min (pos fee) ≡ i64_min +ℤ pos fee
unfolding add_i64
lowest_after fee small = ground arith

-- The balance of the genesis account may go down to INT64_MIN.
genesis_wallet_paid :
    (min_fee : ℕ) (v : ℤ) (w w' : Wallet)
    → min_fee < 2 ^ 63
    → lookup id_genesis w.balances ≡ some v
    → genesis_wallet_after_fee min_fee w ≡ ok w'
    → (i64_min +ℤ pos min_fee ≤ℤ v)
      × (insert id_genesis (sub_i64 v (pos min_fee)) w.balances ≡ w'.balances)
unfolding genesis_wallet_after_fee
genesis_wallet_paid min_fee v w w' small found h =
    let fee = to_i64_small min_fee small in
    let lowest : add_i64 i64_min (pos min_fee) ≡ i64_min +ℤ pos min_fee =
      lowest_after min_fee small in
    elim (Bool-cases (ltb_ℤ v (i64_min +ℤ pos min_fee))) [
      | inl low ↦ absurd (ground (arith, found, fee, lowest, low, h))
      | inr covered ↦
          let run : ok
                (record w { balances = insert id_genesis (sub_i64 v (pos min_fee)) w.balances })
              ≡ ok w' =
            ground (arith, found, fee, lowest, covered, h) in
          (ground (arith, covered), ground (arith, run))
    ]

genesis_left_IsI64 :
    (v : ℤ) (fee : ℕ) → IsI64 v → i64_min +ℤ pos fee ≤ℤ v → fee < 2 ^ 63 → IsI64 (v -ℤ pos fee)
genesis_left_IsI64 v fee range covers small =
    ground (arith, range, covers, small, -ℤ_parts v (pos fee), +ℤ_parts i64_min (pos fee))

-- What an account other than the fee account has left, as the renewal describes it.
wallet_paid :
    (id min_fee : ℕ) (v : ℤ) (w w' : Wallet)
    → id ≢ id_fee
    → min_fee < 2 ^ 63
    → IsI64 v
    → lookup id_genesis w.balances ≡ some v
    → wallet_after_fee id min_fee w ≡ ok w'
    → IsI64 (v -ℤ pos min_fee)
      × (insert id_genesis (sub_i64 v (pos min_fee)) w.balances ≡ w'.balances)
wallet_paid id min_fee v w w' ne small range native h = elim (Bool-cases (id == id_genesis)) [
  | inl genesis ↦
      let (covers, paid) =
        genesis_wallet_paid min_fee v w w' small native (ground (arith, h, genesis)) in
      (genesis_left_IsI64 v min_fee range covers small, paid)
  | inr user ↦
      let (covers, paid) =
        user_wallet_paid id min_fee v w w' ne small native (ground (arith, h, user)) in
      (left_IsI64 v min_fee range covers small, paid)
]

-- Another account of a valid buffer than the fee account, the genesis account included, with its
-- balances in ascending order of the tokens and a native one among them, and a minimum fee that is an
-- int64_t: the wallet that its renewal describes passes the check of the balance when the renewal is
-- applied with that fee.
pub renewal_passes :
    (id min_fee : ℕ) (b : Buffer) (w : Wallet) (v : ℤ) {a : Account}
    → IsValid b
    → lookup id b ≡ some a
    → IsSorted a.wallet.balances
    → lookup id_genesis a.wallet.balances ≡ some v
    → id ≢ id_fee
    → min_fee < 2 ^ 63
    → wallet_after_fee id min_fee a.wallet ≡ ok w
    → verify_balance id 0 min_fee w.balances b ≡ done
renewal_passes id min_fee b w v {a} valid found own native ne small h =
    let old = λ (s : ℕ). get_balance_found id s b found in
    let held : get_balance id id_genesis b ≡ v = old id_genesis ∙ ap or_zero native in
    let in_range : IsI64 v = subst IsI64 held (valid.ranged id id_genesis) in
    let (left, paid) = wallet_paid id min_fee v a.wallet w ne small in_range native h in
    let rest = sub_i64_exact v (pos min_fee) left in
    let new = insert id_genesis (sub_i64 v (pos min_fee)) a.wallet.balances in
    let native_after : or_zero (lookup id_genesis new) ≡ v -ℤ pos min_fee =
      ground
        (arith, lookup-insert id_genesis id_genesis (sub_i64 v (pos min_fee)) a.wallet.balances)
      ∙ rest in
    let expects : Expects id 0 min_fee new b = (
      (λ t other.
          old t
          ∙ ground (
            arith,
            other,
            lookup-insert id_genesis t (sub_i64 v (pos min_fee)) a.wallet.balances,
          )),
      held ∙ omega (int_laws, parts_of_eq _ _ native_after),
    ) in
    subst (λ (m : Map ℤ). verify_balance id 0 min_fee m b ≡ done) paid
      ((verify_balance_iff id 0 min_fee new b valid found own
          (insert-IsAbove 0 id_genesis (sub_i64 v (pos min_fee)) a.wallet.balances (omega arith)
            own)
          (subst IsI64 (sym native_after) left) (omega (arith, small))).1
        expects)

-- The fee account of a valid buffer with its balances in ascending order of the tokens, and a minimum fee
-- that is a positive int64_t: the wallet that its renewal describes does not pass the check of the
-- balance when the renewal is applied with that fee.
pub fee_account_not_renewable :
    (min_fee : ℕ) (b : Buffer) (w : Wallet) {a : Account}
    → IsValid b
    → lookup id_fee b ≡ some a
    → IsSorted a.wallet.balances
    → 0 < min_fee
    → min_fee < 2 ^ 63
    → user_wallet_after_fee id_fee min_fee a.wallet ≡ ok w
    → verify_balance id_fee 0 min_fee w.balances b ≢ done
fee_account_not_renewable min_fee b w {a} v found own positive small h passes =
    let same = fee_wallet_same min_fee a.wallet w h in
    let old = λ (s : ℕ). get_balance_found id_fee s b found in
    let passed : verify_balance id_fee 0 min_fee a.wallet.balances b ≡ done =
      subst (λ (x : Wallet). verify_balance id_fee 0 min_fee x.balances b ≡ done) (sym same)
        passes in
    let range : IsI64 (or_zero (lookup id_genesis a.wallet.balances)) =
      subst IsI64 (old id_genesis) (v.ranged id_fee id_genesis) in
    let expects =
      (verify_balance_iff id_fee 0 min_fee a.wallet.balances b v found own own range
          (omega (arith, small))).0
        passed in
    absurd (omega (int_laws, positive, parts_of_eq _ _ (sym (old id_genesis) ∙ expects.1)))
