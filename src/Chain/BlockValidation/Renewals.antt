-- ===== src/Chain/BlockValidation/Renewals.antt =====
-- The renewal of accounts: the deadline, and what a block that meets it renews.
use Prim.Native.Nat.{◌^◌, min}
use pp_ledger.Base.{
  ℕ, ◌+◌, ◌-◌, ◌≤◌, ◌<◌, ◌≡◌, ◌⊎◌, refl, sym, subst, true, ◌||◌, List, [], ◌∷◌, Option, none, some,
  arith, All, ltb, leb, ◌==◌, ◌&&◌, member, ℤ, Bool-cases, Option-cases, inl, inr,
}
use pp_ledger.Base.Word.{add_u64, add_u64_exact}
use pp_ledger.Base.Roe.{Roe, ok, err, done, Roe-cases}
use pp_ledger.Consensus.Ouroboros.{Ouroboros}
use pp_ledger.Ledger.{
  TypedTx, tx_renewal, tx_end_user, TxRenewal, TxEndUser, Record, ChainNode, Reader,
}
use pp_ledger.Chain.Types.{BlockChainConfig, Checkpoint}
use pp_ledger.Chain.AccountBuffer.{Account, Buffer, get_account, account_ids_before_block_id}
use pp_ledger.Chain.RecordHandler.{
  TxHandler, renewal_handler, end_user_handler, num_tx_types, handler_of,
  get_renewal_account_id_if_any, renewal_account_id, end_user_account_id,
}
use pp_ledger.Map.{lookup}
use pp_ledger.Chain.BlockValidation.Defs.{
  max_block_id_from_time, calculate_max_block_id_for_renewal, all_renewed, renewal_account,
  record_renewal, scan_renewals, validate_account_renewals,
}

-- With a chain configuration, and a block number below 2 ^ 64 - 1, the last block whose accounts
-- are due for renewal at block `at_block` is 0 (none is due), or lies before `at_block` with at
-- least `minBlocks` - 1 blocks from it on.
pub calculate_max_block_id_for_renewal_bound :
    (local : ℤ) (l : Reader) (consensus : Ouroboros) (c : BlockChainConfig)
    (checkpoint : Checkpoint) (at_block : ℕ)
    → at_block + 1 < 2 ^ 64
    → (bound : ℕ) × (calculate_max_block_id_for_renewal local l consensus
          (some c)
          checkpoint
          at_block
        ≡ ok bound)
      × ((bound ≡ 0) ⊎ ((bound < at_block) × (bound + c.checkpoint.min_blocks ≤ at_block + 1)))
unfolding calculate_max_block_id_for_renewal
calculate_max_block_id_for_renewal_bound local l consensus c checkpoint at_block w =
    let from_time =
      max_block_id_from_time local l consensus c.checkpoint.min_age_seconds at_block in
    elim (Bool-cases (ltb at_block c.checkpoint.min_blocks)) [
      | inl e ↦ (0, ground (arith, e), inl refl)
      | inr e ↦
          let bound = min (add_u64 (at_block - c.checkpoint.min_blocks) 1) from_time in
          let exact = add_u64_exact (at_block - c.checkpoint.min_blocks) 1 (omega (arith, w)) in
          elim (Bool-cases (bound == 0 || leb at_block bound)) [
            | inl e' ↦ (0, ground (arith, e, e'), inl refl)
            | inr e' ↦
                (bound, ground (arith, e, e'), inr (ground (arith, e'), ground (arith, e, exact)))
          ]
    ]

module _ (decode : Record → Roe TypedTx) where
  -- The record holds a renewal of the account (T_RENEWAL), or its end (T_END_USER).
  abbrev pub Renews : Record → ℕ → Type 0
  Renews rec id =
      ((rec.type ≡ 5) × ((t : TxRenewal) × (decode rec ≡ ok (tx_renewal t)) × (t.wallet_id ≡ id)))
      ⊎ ((rec.type ≡ 6)
          × ((t : TxEndUser) × (decode rec ≡ ok (tx_end_user t)) × (t.wallet_id ≡ id)))

  abbrev pub IsRenewedBy : List Record → ℕ → Type 0
  IsRenewedBy [] id = ⊥
  IsRenewedBy (rec ∷ rest) id = Renews rec id ⊎ IsRenewedBy rest id

  renewal_account_same :
      (bound : ℕ) (bank : Buffer) (x id : ℕ) → renewal_account bound bank x ≡ ok (some id) → x ≡ id
  unfolding renewal_account
  renewal_account_same bound bank x id h = elim (Roe-cases (get_account x bank)) [
    | inl (a, e) ↦ elim (Bool-cases (ltb 0 bound && ltb bound a.block_id)) [
      | inl late ↦ absurd (ground (arith, h, e, late))
      | inr fine ↦ ground (arith, h, e, fine)
    ]
    | inr (c, e) ↦ absurd (ground (arith, h, e))
  ]

  -- Which handlers name an account, and of which transactions.
  handler_Renews :
      (h : TxHandler) (rec : Record) (tx : TypedTx) (x : ℕ)
      → handler_of rec.type ≡ some h
      → decode rec ≡ ok tx
      → get_renewal_account_id_if_any h tx ≡ ok (some x)
      → Renews rec x
  unfolding handler_of get_renewal_account_id_if_any renewal_account_id end_user_account_id
  handler_Renews renewal_handler rec (tx_renewal t) x e d g =
      inl (ground (arith, e), (t, d, ground (arith, g)))
  handler_Renews end_user_handler rec (tx_end_user t) x e d g =
      inr (ground (arith, e), (t, d, ground (arith, g)))
  handler_Renews _ rec _ x e d g = absurd (ground (arith, g))

  record_renewal-Renews :
      (bound : ℕ) (bank : Buffer) (rec : Record) (id : ℕ)
      → record_renewal decode bound bank rec ≡ ok (some id)
      → Renews rec id
  unfolding record_renewal
  record_renewal-Renews bound bank rec id h = elim (Bool-cases (leb num_tx_types rec.type)) [
    | inl past ↦ absurd (ground (arith, h, past))
    | inr known ↦ elim (Option-cases (handler_of rec.type)) [
      | inl e ↦ absurd (ground (arith, h, known, e))
      | inr (handler, e) ↦ elim (Roe-cases (decode rec)) [
        | inr (c, d) ↦ absurd (ground (arith, h, known, e, d))
        | inl (tx, d) ↦ elim (Roe-cases (get_renewal_account_id_if_any handler tx)) [
          | inr (c, g) ↦ absurd (ground (arith, h, known, e, d, g))
          | inl (none, g) ↦ absurd (ground (arith, h, known, e, d, g))
          | inl (some x, g) ↦
              let same = renewal_account_same bound bank x id (ground (arith, h, known, e, d, g)) in
              subst (Renews rec) same (handler_Renews handler rec tx x e d g)
        ]
      ]
    ]
  ]

  scan_renewals_sound :
      (bound : ℕ) (bank : Buffer) (before after : List ℕ) (recs : List Record) (id : ℕ)
      → scan_renewals decode bound bank before recs ≡ ok after
      → member id after ≡ true
      → (member id before ≡ true) ⊎ IsRenewedBy recs id
  unfolding scan_renewals
  scan_renewals_sound bound bank before after [] id h m = inl (ground (arith, h, m))
  scan_renewals_sound bound bank before after (rec ∷ rest) id h m =
      elim (Roe-cases (record_renewal decode bound bank rec)) [
        | inl (none, e) ↦
            elim (scan_renewals_sound bound bank before after rest id (ground (arith, h, e)) m) [
              | inl a ↦ inl a
              | inr b ↦ inr (inr b)
            ]
        | inl (some x, e) ↦
            elim (scan_renewals_sound bound bank (x ∷ before) after rest id (ground (arith, h, e))
              m) [
                | inl a ↦ elim (Bool-cases (x == id)) [
                  | inl same ↦
                      let here : x ≡ id = ground (arith, same) in
                      inr (inl (subst (Renews rec) here (record_renewal-Renews bound bank rec x e)))
                  | inr other ↦ inl (ground (arith, a, other))
                ]
                | inr b ↦ inr (inr b)
              ]
        | inr (c, e) ↦ absurd (ground (arith, h, e))
      ]

all_renewed_sound :
    (renewed ids : List ℕ)
    → all_renewed renewed ids ≡ done
    → All (λ id. member id renewed ≡ true) ids
unfolding all_renewed
all_renewed_sound renewed [] h = tt
all_renewed_sound renewed (id ∷ rest) h =
    (ground (arith, h), all_renewed_sound renewed rest (ground (arith, h)))

All-member : (P : ℕ → Type 0) (ids : List ℕ) (id : ℕ) → All P ids → member id ids ≡ true → P id
All-member P [] id all m = absurd (ground (arith, m))
All-member P (x ∷ rest) id (p, all) m = elim (Bool-cases (x == id)) [
  | inl same ↦ let here : x ≡ id = ground (arith, same) in subst P here p
  | inr other ↦ All-member P rest id all (ground (arith, m, other))
]

All-imp : (P Q : ℕ → Type 0) → ((id : ℕ) → P id → Q id) → (ids : List ℕ) → All P ids → All Q ids
All-imp P Q f [] h = tt
All-imp P Q f (x ∷ rest) h = (f x h.0, All-imp P Q f rest h.1)

-- What follows the deadline in `validateAccountRenewals`: every account of the list is renewed.
pub scan_renewals_complete :
    (decode : Record → Roe TypedTx) (bound : ℕ) (bank : Buffer) (recs : List Record) (ids : List ℕ)
    → (elim (scan_renewals decode bound bank [] recs) [
      | err e ↦ err e
      | ok renewed ↦ all_renewed renewed ids
    ])
      ≡ done
    → All (IsRenewedBy decode recs) ids
scan_renewals_complete decode bound bank recs ids h =
    elim (Roe-cases (scan_renewals decode bound bank [] recs)) [
      | inl (renewed, e) ↦
          let all = all_renewed_sound renewed ids (ground (arith, h, e)) in
          All-imp (λ id. member id renewed ≡ true) (IsRenewedBy decode recs)
            (λ id m. elim (scan_renewals_sound decode bound bank [] renewed recs id e m) [
              | inl a ↦ absurd (ground (arith, a))
              | inr b ↦ b
            ])
            ids all
      | inr (c, e) ↦ absurd (ground (arith, h, e))
    ]

-- An account from before the deadline is among those that need a renewal.
account_ids_member :
    (bound : ℕ) (bank : Buffer) (id : ℕ) (a : Account)
    → lookup id bank ≡ some a
    → a.block_id < bound
    → member id (account_ids_before_block_id bound bank) ≡ true
unfolding account_ids_before_block_id lookup
account_ids_member bound [] id a e lt = absurd (ground (arith, e))
account_ids_member bound ((x, b) ∷ bank) id a e lt = elim (Bool-cases (x == id)) [
  | inl same ↦
      let here : b ≡ a = ground (arith, e, same) in
      let early : b.block_id < bound = subst (λ (y : Account). y.block_id < bound) (sym here) lt in
      ground (arith, early, same)
  | inr other ↦
      let rest = account_ids_member bound bank id a (ground (arith, e, other)) lt in
      ground (arith, rest, other)
]

-- When a block passes `validateAccountRenewals`, every account of the buffer that was last written in
-- a block before the deadline is named by a record of the block that decodes to a renewal, of type
-- T_RENEWAL, or to an end of the account, of type T_END_USER.
pub validate_account_renewals_complete :
    (decode : Record → Roe TypedTx) (local : ℤ) (node : ChainNode) (bank : Buffer) (l : Reader)
    (consensus : Ouroboros) (config : Option BlockChainConfig) (checkpoint : Checkpoint)
    (bound id : ℕ) (a : Account)
    → validate_account_renewals decode local node bank l consensus config checkpoint ≡ done
    → calculate_max_block_id_for_renewal local l consensus config checkpoint node.block.index
      ≡ ok bound
    → lookup id bank ≡ some a
    → a.block_id < bound
    → IsRenewedBy decode node.block.records id
unfolding validate_account_renewals
validate_account_renewals_complete decode local node bank l consensus config checkpoint bound id a h
      deadline found early =
    let due = account_ids_member bound bank id a found early in
    All-member (IsRenewedBy decode node.block.records) (account_ids_before_block_id bound bank) id
      (scan_renewals_complete decode bound bank node.block.records
        (account_ids_before_block_id bound bank) (ground (arith, h, deadline, early)))
      due
