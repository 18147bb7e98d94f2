-- ===== src/Ledger/Search.antt =====
-- Ledger::findBlockByTimestamp of ledger/Ledger.cpp: a binary search. What the ledger's store returns
-- for a block is the parameter `read`, and the loop has one round for each block.
use pp_ledger.Base.{
  ℕ, zero, suc, ◌+◌, ◌-◌, ◌/◌, ◌≤◌, ◌<◌, ◌≡◌, refl, arith, ltb, leb, if◌then◌else◌, ℤ, ◌≤ℤ◌, ◌<ℤ◌,
  leb_ℤ, Bool-cases, inl, inr, dec_lt,
}
use pp_ledger.Base.Roe.{Roe, ok, err}
use pp_ledger.Ledger.Types.{ChainNode}
use pp_ledger.Ledger.View.{Reader}

module _ (read : ℕ → Roe ChainNode) (timestamp : ℤ) where
  -- The place where the loop ends; with blocks that cannot be read, the error.
  unfoldable pub search : ℕ → ℕ → ℕ → Roe ℕ
  search zero low high = ok low
  search (suc fuel) low high =
      let mid = low + (high - low) / 2 in
      let left = search fuel low mid in
      let right = search fuel (suc mid) high in
      if ltb low high
      then elim (read mid) [
        | err _ ↦ err 1
        | ok node ↦ if leb_ℤ timestamp node.block.timestamp then left else right
      ]
      else ok low

  unfoldable pub find_block_by_timestamp : ℕ → ℕ → Roe ChainNode
  unfolding search
  find_block_by_timestamp start next =
      if leb next start then err 1 else elim (search (next - start) start next) [
        | err e ↦ err e
        | ok low ↦ if leb next low then err 1 else read low
      ]

-- The ledger as the chain sees it.
unfoldable pub reader : (ℕ → Roe ChainNode) → ℕ → ℕ → Reader
unfolding find_block_by_timestamp
reader read start next = record {
  starting_block_id = start;
  next_block_id = next;
  read_block = read;
  find_block_by_timestamp = λ timestamp. find_block_by_timestamp read timestamp start next;
}

-- The blocks from `start` up to `next` can be read, and stand under their indices, and their times do not decrease.
pub record IsOrdered (read : ℕ → Roe ChainNode) (start next : ℕ) : Type 0 where
  pub block : ℕ → ChainNode
  pub readable : (id : ℕ) → start ≤ id → id < next → read id ≡ ok (block id)
  pub named : (id : ℕ) → start ≤ id → id < next → (block id).block.index ≡ id
  pub ordered :
      (i j : ℕ)
      → start ≤ i
      → i ≤ j
      → j < next
      → (block i).block.timestamp ≤ℤ (block j).block.timestamp

module _ (read : ℕ → Roe ChainNode) (timestamp : ℤ) (start next : ℕ)
    (o : IsOrdered read start next) where
  -- `at` is the first block that is not before the time, or `next`.
  record IsFirst (at : ℕ) : Type 0 where
    after_start : start ≤ at
    before_next : at ≤ next
    earlier : (i : ℕ) → start ≤ i → i < at → (o.block i).block.timestamp <ℤ timestamp
    not_earlier : (i : ℕ) → at ≤ i → i < next → timestamp ≤ℤ (o.block i).block.timestamp

  -- The search ends at the first block that is not before the time.
  search_finds :
      (fuel low high : ℕ)
      → start ≤ low
      → low ≤ high
      → high ≤ next
      → high - low ≤ fuel
      → ((i : ℕ) → start ≤ i → i < low → (o.block i).block.timestamp <ℤ timestamp)
      → ((i : ℕ) → high ≤ i → i < next → timestamp ≤ℤ (o.block i).block.timestamp)
      → (at : ℕ) × (search read timestamp fuel low high ≡ ok at) × IsFirst at
  unfolding search
  search_finds zero low high a b c d before after = (
    low,
    refl,
    record {
      after_start = a;
      before_next = omega arith;
      earlier = before;
      not_earlier = λ i p q. after i (omega arith) q;
    },
  )
  search_finds (suc fuel) low high a b c d before after = elim (Bool-cases (ltb low high)) [
    | inr e ↦ (
      low,
      ground (arith, e),
      record {
        after_start = a;
        before_next = omega arith;
        earlier = before;
        not_earlier = λ i p q. after i (ground (arith, e, p, b)) q;
      },
    )
    | inl e ↦
        let mid = low + (high - low) / 2 in
        let lt : low < high = ground (arith, e) in
        let here : mid < high = omega (arith, lt) in
        let r = o.readable mid (omega arith) (omega (arith, here)) in
        elim (Bool-cases (leb_ℤ timestamp (o.block mid).block.timestamp)) [
          | inl late ↦
              let (at, found, x) =
                (search_finds fuel low mid a (omega arith) (omega (arith, here))
                  (omega (arith, here)) before
                  (λ i p q.
                    let up = o.ordered mid i (omega arith) p q in ground (arith, up, late))) in
              (at, ground (arith, e, r, late, found), x)
          | inr early ↦
              let (at, found, x) =
                (search_finds fuel (suc mid) high (omega arith) (omega (arith, here)) c
                  (omega (arith, here))
                  (λ i p q.
                    let up = o.ordered i mid p (omega arith) (omega (arith, here)) in
                    ground (arith, up, early))
                  after) in
              (at, ground (arith, e, r, early, found), x)
        ]
  ]

  -- With a block that is not before the time, `findBlockByTimestamp` returns the first such block. The
  -- blocks can be read, stand under their indices, and their times do not decrease.
  pub find_block_by_timestamp_first :
      (i : ℕ)
      → start ≤ i
      → i < next
      → timestamp ≤ℤ (o.block i).block.timestamp
      → (node : ChainNode) × (find_block_by_timestamp read timestamp start next ≡ ok node)
        × (timestamp ≤ℤ node.block.timestamp)
        × (node.block.index ≤ i)
  unfolding find_block_by_timestamp
  find_block_by_timestamp_first i lo hi late =
      let (at, found, first) =
        search_finds (next - start) start next (omega arith) (omega arith) (omega arith)
          (omega arith) (λ j p q. absurd (omega arith)) (λ j p q. absurd (omega arith)) in
      let low : at ≤ i = elim (dec_lt i at) [
        | yes after ↦ let early = first.earlier i lo after in absurd (omega arith)
        | no p ↦ omega arith
      ] in
      let r = o.readable at first.after_start (omega arith) in
      let n = o.named at first.after_start (omega arith) in
      (
        o.block at,
        ground (arith, found, r, lo, hi, low),
        first.not_earlier at (omega arith) (omega arith),
        omega arith,
      )
