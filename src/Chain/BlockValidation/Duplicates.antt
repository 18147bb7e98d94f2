-- ===== src/Chain/BlockValidation/Duplicates.antt =====
-- validateIntraBlockIdempotency of chain/BlockValidation.cpp.
use mathlib.Core.Path.{ap₂}
use pp_ledger.Base.{
  ℕ, ◌≡◌, ◌≢◌, ◌↔◌, ◌∙◌, refl, ap, sym, subst, true, false, ◌&&◌, List, [], ◌∷◌, Option, none, some,
  arith, All, Distinct, leb, ◌==◌, if◌then◌else◌, inl, inr, Option-cases, Bool-cases,
}
use pp_ledger.Base.Roe.{Roe, ok, err, done, Roe-cases}
use pp_ledger.Chain.Types.{e_tx_idempotency}
use pp_ledger.Ledger.{
  TypedTx, tx_default, tx_genesis, tx_new_user, tx_config, tx_user_update, tx_renewal, tx_end_user,
  Record, ChainNode,
}
use pp_ledger.Ledger.Packing.{decode, type_of, decode-type_of}
use pp_ledger.Chain.AccountBuffer.{id_genesis}
use pp_ledger.Chain.RecordHandler.{
  Key, num_tx_types, handler_of, get_idempotency_key, default_key, new_user_key, config_key,
  user_update_key,
}
use pp_ledger.Chain.BlockValidation.Defs.{
  member_key, record_key, scan_keys, validate_intra_block_idempotency,
}

member_key_found : (k x : Key) (xs : List Key) → x ≡ k → member_key k (x ∷ xs) ≡ true
member_key_found k x xs e =
    let e0 : x.0 ≡ k.0 = ap (λ (p : Key). p.0) e in
    let e1 : x.1 ≡ k.1 = ap (λ (p : Key). p.1) e in ground (arith, e0, e1)

member_key-All : (k : Key) (xs : List Key) → member_key k xs ≡ false → All (λ x. k ≢ x) xs
member_key-All k [] h = tt
member_key-All k (x ∷ xs) h = (
  (λ e. ground (arith, h, member_key_found k x xs (sym e))),
  member_key-All k xs (ground (arith, h)),
)

member_key-none : (k : Key) (xs : List Key) → All (λ x. k ≢ x) xs → member_key k xs ≡ false
member_key-none k [] h = refl
member_key-none k (x ∷ xs) h = elim (Bool-cases (x.0 == k.0 && x.1 == k.1)) [
  | inl same ↦
      let e0 : k.0 ≡ x.0 = ground (arith, same) in
      let e1 : k.1 ≡ x.1 = ground (arith, same) in absurd (h.0 (ap₂ (λ (a b : ℕ). (a, b)) e0 e1))
  | inr other ↦ ground (arith, other, member_key-none k xs h.1)
]

-- Each key of the list differs from all of `seen`.
abbrev IsNew : List Key → List Key → Type 0
IsNew seen ks = All (λ k. All (λ x. k ≢ x) seen) ks

IsNew-tail : (k : Key) (seen ks : List Key) → IsNew (k ∷ seen) ks → IsNew seen ks
IsNew-tail k seen [] h = tt
IsNew-tail k seen (x ∷ ks) ((a, b), h) = (b, IsNew-tail k seen ks h)

IsNew-cons :
    (k : Key) (seen ks : List Key) → All (λ y. y ≢ k) ks → IsNew seen ks → IsNew (k ∷ seen) ks
IsNew-cons k seen [] a h = tt
IsNew-cons k seen (x ∷ ks) (a, r) (b, h) = ((a, b), IsNew-cons k seen ks r h)

IsNew-head : (k : Key) (seen ks : List Key) → IsNew (k ∷ seen) ks → All (λ y. y ≢ k) ks
IsNew-head k seen [] h = tt
IsNew-head k seen (x ∷ ks) ((a, b), h) = (a, IsNew-head k seen ks h)

-- The wallet and the idempotent id of a transaction: an id of 0 stands for none, and the other kinds of
-- transaction have none.
abbrev unless_zero : ℕ → ℕ → Option Key
unless_zero wallet id = if id == 0 then none else some (wallet, id)

key_of : TypedTx → Option Key
key_of (tx_default t) = unless_zero t.from_wallet_id t.idempotent_id
key_of (tx_genesis t) = none
key_of (tx_new_user t) = unless_zero t.from_wallet_id t.idempotent_id
key_of (tx_config t) = unless_zero id_genesis t.idempotent_id
key_of (tx_user_update t) = unless_zero t.wallet_id t.idempotent_id
key_of (tx_renewal t) = none
key_of (tx_end_user t) = none

carried_key : Record → Option Key
unfolding key_of
carried_key rec = elim (decode rec) [ err _ ↦ none | ok tx ↦ key_of tx ]

-- The wallets and idempotent ids that the records carry, in order.
pub carried_keys : List Record → List Key
unfolding carried_key
carried_keys [] = []
carried_keys (rec ∷ rest) = elim (carried_key rec) [
  | none ↦ carried_keys rest
  | some k ↦ k ∷ carried_keys rest
]

-- The key that the handler of a type finds
abbrev key_by_type : ℕ → TypedTx → Roe (Option Key)
key_by_type type tx =
    if leb num_tx_types type
    then ok none
    else elim (handler_of type) [ none ↦ ok none | some h ↦ get_idempotency_key h tx ]

key_by_type_of : (tx : TypedTx) → key_by_type (type_of tx) tx ≡ ok (key_of tx)
unfolding type_of key_of handler_of get_idempotency_key default_key new_user_key config_key
    user_update_key
key_by_type_of (tx_default t) = ground arith
key_by_type_of (tx_genesis t) = refl
key_by_type_of (tx_new_user t) = ground arith
key_by_type_of (tx_config t) = ground arith
key_by_type_of (tx_user_update t) = ground arith
key_by_type_of (tx_renewal t) = refl
key_by_type_of (tx_end_user t) = refl

record_key-carried_key : (rec : Record) → record_key decode rec ≡ ok (carried_key rec)
unfolding record_key carried_key
record_key-carried_key rec = elim (Roe-cases (decode rec)) [
  | inl (tx, e) ↦
      let same : key_by_type rec.type tx ≡ ok (key_of tx) =
        subst (λ type. key_by_type type tx ≡ ok (key_of tx)) (decode-type_of rec tx e)
          (key_by_type_of tx) in
      rw (e, record_key, carried_key) same
  | inr (c, e) ↦ rw (e, record_key, carried_key) refl
]

-- `scan_keys` and the keys of a list, by what the first record has.
scan_none :
    (seen : List Key) (rec : Record) (rest : List Record)
    → carried_key rec ≡ none
    → (scan_keys decode seen (rec ∷ rest) ≡ scan_keys decode seen rest)
      × (carried_keys (rec ∷ rest) ≡ carried_keys rest)
unfolding scan_keys carried_keys
scan_none seen rec rest e =
    let found : record_key decode rec ≡ ok none = record_key-carried_key rec ∙ ap ok e in
    (rw (found, scan_keys), rw (e, carried_keys))

scan_some :
    (seen : List Key) (rec : Record) (rest : List Record) (k : Key)
    → carried_key rec ≡ some k
    → (scan_keys decode seen (rec ∷ rest)
        ≡ (if member_key k seen then err e_tx_idempotency else scan_keys decode (k ∷ seen) rest))
      × (carried_keys (rec ∷ rest) ≡ k ∷ carried_keys rest)
unfolding scan_keys carried_keys
scan_some seen rec rest k e =
    let found : record_key decode rec ≡ ok (some k) = record_key-carried_key rec ∙ ap ok e in
    (rw (found, scan_keys), rw (e, carried_keys))

-- What the scan asks of the keys that are left.
abbrev AreNew : List Key → List Key → Type 0
AreNew seen ks = IsNew seen ks × Distinct ks

scan_keys_sound :
    (seen : List Key) (recs : List Record)
    → scan_keys decode seen recs ≡ done
    → AreNew seen (carried_keys recs)
unfolding carried_keys
scan_keys_sound seen [] h = (tt, tt)
scan_keys_sound seen (rec ∷ rest) h = elim (Option-cases (carried_key rec)) [
  | inl e ↦
      let (a, b) = scan_none seen rec rest e in
      subst (AreNew seen) (sym b) (scan_keys_sound seen rest (cc))
  | inr (k, e) ↦
      let (a, b) = scan_some seen rec rest k e in
      let fresh : member_key k seen ≡ false = ground (arith, h, a) in
      let (new, distinct) = scan_keys_sound (k ∷ seen) rest (ground (arith, h, a, fresh)) in
      subst (AreNew seen) (sym b) (
        (member_key-All k seen fresh, IsNew-tail k seen (carried_keys rest) new),
        (IsNew-head k seen (carried_keys rest) new, distinct),
      )
]

scan_keys_complete :
    (seen : List Key) (recs : List Record)
    → AreNew seen (carried_keys recs)
    → scan_keys decode seen recs ≡ done
unfolding scan_keys
scan_keys_complete seen [] h = refl
scan_keys_complete seen (rec ∷ rest) h = elim (Option-cases (carried_key rec)) [
  | inl e ↦
      let (a, b) = scan_none seen rec rest e in
      a ∙ scan_keys_complete seen rest (subst (AreNew seen) b h)
  | inr (k, e) ↦
      let (a, b) = scan_some seen rec rest k e in
      let ((new, later), (differ, distinct)) = subst (AreNew seen) b h in
      let fresh : member_key k seen ≡ false = member_key-none k seen new in
      let rest_done =
        scan_keys_complete (k ∷ seen) rest
          (IsNew-cons k seen (carried_keys rest) differ later, distinct) in
      a ∙ ground (arith, fresh, rest_done)
]

IsNew-nil : (ks : List Key) → IsNew [] ks
IsNew-nil [] = tt
IsNew-nil (k ∷ ks) = (tt, IsNew-nil ks)

-- A block passes `validateIntraBlockIdempotency` exactly when no two of its records carry the same
-- wallet and idempotent id: those of a transfer, a new user, a configuration (of the genesis account)
-- or an update, where the id is not 0.
pub validate_intra_block_idempotency_iff :
    (node : ChainNode)
    → (validate_intra_block_idempotency decode node ≡ done)
      ↔ Distinct (carried_keys node.block.records)
unfolding validate_intra_block_idempotency
validate_intra_block_idempotency_iff node = (
  λ h. (scan_keys_sound [] node.block.records h).1,
  λ h. scan_keys_complete [] node.block.records (IsNew-nil (carried_keys node.block.records), h),
)
