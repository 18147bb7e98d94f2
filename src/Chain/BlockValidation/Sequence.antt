-- ===== src/Chain/BlockValidation/Sequence.antt =====
-- The place of a block in the ledger: its index, the link to the block before it, and its first
-- transaction's number.
use pp_ledger.Base.{
  ◌-◌, ◌≤◌, ◌<◌, ◌≡◌, ◌↔◌, ap, ◌∙◌, sym, subst, true, arith, length, eqb_list, eqb_list_sound,
  eqb_list_refl, Bool-cases, inl, inr,
}
use pp_ledger.Base.Word.{add_u64}
use pp_ledger.Base.Roe.{ok, done, Roe-cases}
use pp_ledger.Ledger.{ChainNode, Reader}
use pp_ledger.Chain.BlockValidation.Defs.{validate_link, validate_block_sequence}

abbrev pub IsLinked : ChainNode → ChainNode → Type 0
IsLinked prev node =
    (node.block.index ≡ add_u64 prev.block.index 1)
    × (node.block.previous_hash ≡ prev.hash)
    × (node.block.tx_index ≡ add_u64 prev.block.tx_index (length prev.block.records))

validate_link_iff : (prev node : ChainNode) → (validate_link prev node ≡ done) ↔ IsLinked prev node
unfolding validate_link
validate_link_iff prev node = elim (Bool-cases (eqb_list node.block.previous_hash prev.hash)) [
  | inl e ↦ (
    λ h. (
      ground (arith, h, e),
      eqb_list_sound node.block.previous_hash prev.hash e,
      ground (arith, h, e),
    ),
    λ (a, _, c). ground (arith, a, c, e),
  )
  | inr e ↦ (
    λ h. absurd (ground (arith, h, e)),
    λ (a, b, c).
        let same : eqb_list node.block.previous_hash prev.hash ≡ true =
          ap (λ x. eqb_list x prev.hash) b ∙ eqb_list_refl prev.hash in
        ground (arith, same, e),
  )
]

-- A block after the ledger's first one passes `validateBlockSequence` exactly when its index is not
-- beyond the next one, the block before it can be read, and it continues that block: the index and
-- the number of its first transaction (both uint64_t sums), and the hash.
pub validate_block_sequence_iff :
    (l : Reader) (node : ChainNode)
    → l.starting_block_id < node.block.index
    → (validate_block_sequence l node ≡ done) ↔ (
        (node.block.index ≤ l.next_block_id)
        × ((prev : ChainNode) × (l.read_block (node.block.index - 1) ≡ ok prev)
            × IsLinked prev node))
unfolding validate_block_sequence
validate_block_sequence_iff l node lo = elim (Roe-cases (l.read_block (node.block.index - 1))) [
  | inl (prev, e) ↦
      let link = validate_link_iff prev node in
      (
        λ h. (ground (arith, h, lo), (prev, e, link.0 (ground (arith, h, lo, e)))),
        λ (hi, (p, e', linked)).
            let same : prev ≡ p = ground (arith, e, e') in
            let at : validate_link prev node ≡ done =
              link.1 (subst (λ x. IsLinked x node) (sym same) linked) in
            ground (arith, lo, hi, e, at),
      )
  | inr (c, e) ↦ (
    λ h. absurd (ground (arith, h, lo, e)),
    λ (hi, (p, e', linked)). absurd (ground (arith, e, e')),
  )
]
