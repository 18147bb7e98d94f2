-- ===== src/Chain/TxSearch.antt =====
-- Chain::findTransactionByIndex of chain/Chain.cpp: a binary search over the blocks for the record with a
-- number. What the ledger returns for a block is the parameter `read`, and the loop has a round for
-- each block.
use Prim.Native.Nat.{◌^◌}
use pp_ledger.Base.{
  ℕ, zero, suc, ◌+◌, ◌-◌, ◌/◌, ◌≤◌, ◌<◌, ◌≡◌, ◌≢◌, sym, ap, subst, ◌∙◌, true, false, List, [], ◌∷◌,
  Option, none, some, arith, length, get_elem?, ltb, leb, le→leb, lt→ltb, ◌==◌, if◌then◌else◌, inl,
  inr, Bool-cases, dec_lt, ℕ_discrete,
}
use Prim.{yes, no}
use pp_ledger.Base.Word.{add_u64, add_u64_exact}
use pp_ledger.Base.Roe.{Roe, ok, err}
use pp_ledger.Ledger.{Record, ChainNode}
use pp_ledger.Chain.Types.{e_invalid_argument, e_ledger_read}

abbrev pub tx_count : ChainNode → ℕ
tx_count node = length node.block.records

abbrev pub or_unread : Option Record → Roe Record
or_unread none = err e_ledger_read
or_unread (some rec) = ok rec

-- What the loop does with the block `mid`: `left` and `right` are its next rounds.
unfoldable pub visit : (tx_index mid first : ℕ) → ChainNode → (left right : Roe Record) → Roe Record
visit tx_index mid first node left right =
    if ltb tx_index node.block.tx_index
    then (if mid == first then err e_ledger_read else left)
    else if tx_count node == 0
    then right
    else if leb (add_u64 node.block.tx_index (tx_count node)) tx_index
    then right
    else or_unread (get_elem? node.block.records (tx_index - node.block.tx_index))

le→not_ltb : (a b : ℕ) → b ≤ a → ltb a b ≡ false
le→not_ltb a b h = ground arith

lt→not_leb : (a b : ℕ) → b < a → leb a b ≡ false
lt→not_leb a b h = ground arith

ne→not_eq : (a b : ℕ) → a ≢ b → (a == b) ≡ false
ne→not_eq a b h = ground arith

visit_here :
    (t mid first : ℕ) (node : ChainNode) (left right : Roe Record)
    → ltb t node.block.tx_index ≡ false
    → (tx_count node == 0) ≡ false
    → leb (add_u64 node.block.tx_index (tx_count node)) t ≡ false
    → visit t mid first node left right
      ≡ or_unread (get_elem? node.block.records (t - node.block.tx_index))
unfolding visit
visit_here t mid first node left right a b c = simp (a, b, c)

visit_left :
    (t mid first : ℕ) (node : ChainNode) (left right : Roe Record)
    → ltb t node.block.tx_index ≡ true
    → (mid == first) ≡ false
    → visit t mid first node left right ≡ left
unfolding visit
visit_left t mid first node left right a b = simp (a, b)

visit_right :
    (t mid first : ℕ) (node : ChainNode) (left right : Roe Record)
    → ltb t node.block.tx_index ≡ false
    → leb (add_u64 node.block.tx_index (tx_count node)) t ≡ true
    → visit t mid first node left right ≡ right
unfolding visit
visit_right t mid first node left right a b = elim (Bool-cases (tx_count node == 0)) [
  | inl e ↦ simp (a, e)
  | inr e ↦ simp (a, e, b)
]

module _ (read : ℕ → Roe ChainNode) (tx_index first : ℕ) where
  unfoldable pub search_tx : ℕ → ℕ → ℕ → Roe Record
  search_tx zero low high = err e_ledger_read
  search_tx (suc rounds) low high =
      let mid = low + (high - low) / 2 in
      let left = search_tx rounds low (mid - 1) in
      let right = search_tx rounds (suc mid) high in
      if leb low high
      then elim (read mid) [
        | err _ ↦ err e_ledger_read
        | ok node ↦ visit tx_index mid first node left right
      ]
      else err e_ledger_read

  search_tx_round :
      (rounds low high : ℕ) (node : ChainNode)
      → leb low high ≡ true
      → read (low + (high - low) / 2) ≡ ok node
      → search_tx (suc rounds) low high
        ≡ visit tx_index
            (low + (high - low) / 2)
            first
            node
            (search_tx rounds low (low + (high - low) / 2 - 1))
            (search_tx rounds (suc (low + (high - low) / 2)) high)
  unfolding search_tx
  search_tx_round rounds low high node a b = simp (a, b)

-- `last` is what readLastBlock returns.
unfoldable pub find_transaction_by_index :
    (ℕ → Roe ChainNode) → Roe ChainNode → ℕ → ℕ → ℕ → Roe Record
unfolding search_tx
find_transaction_by_index read last first next tx_index =
    if leb next first then err e_ledger_read else elim last [
      | err _ ↦ err e_ledger_read
      | ok node ↦
          if leb (add_u64 node.block.tx_index (tx_count node)) tx_index
          then err e_invalid_argument
          else search_tx read tx_index first (next - first) first (next - 1)
    ]

-- The blocks can be read, and number their records one after another.
pub record IsNumbered (read : ℕ → Roe ChainNode) (first next : ℕ) : Type 0 where
  pub block : ℕ → ChainNode
  pub readable : (id : ℕ) → first ≤ id → id < next → read id ≡ ok (block id)
  pub numbered :
      (id : ℕ)
      → first ≤ id
      → suc id < next
      → (block (suc id)).block.tx_index ≡ (block id).block.tx_index + tx_count (block id)
  pub small :
      (id : ℕ) → first ≤ id → id < next → (block id).block.tx_index + tx_count (block id) < 2 ^ 64

module _ (read : ℕ → Roe ChainNode) (first next : ℕ) (n : IsNumbered read first next) where
  abbrev start : ℕ → ℕ
  start id = (n.block id).block.tx_index

  abbrev size : ℕ → ℕ
  size id = tx_count (n.block id)

  -- A block ends where a later one starts, or before.
  ends_before : (i d : ℕ) → first ≤ i → suc (i + d) < next → start i + size i ≤ start (suc (i + d))
  ends_before i zero lo hi =
      let same : i + 0 ≡ i = omega arith in
      let at = n.numbered i lo (omega (arith, hi)) in
      subst (λ (k : ℕ). start i + size i ≤ start (suc k)) (sym same) (omega (arith, at))
  ends_before i (suc d) lo hi =
      let same : suc (i + d) ≡ i + suc d = omega arith in
      let rest = ends_before i d lo (omega (arith, hi)) in
      let at = n.numbered (suc (i + d)) (omega (arith, lo)) (omega (arith, hi)) in
      subst (λ (k : ℕ). start i + size i ≤ start (suc k)) same (omega (arith, rest, at))

  ordered : (i k : ℕ) → first ≤ i → i < k → k < next → start i + size i ≤ start k
  ordered i k lo lt hi =
      let same : suc (i + (k - suc i)) ≡ k = omega (arith, lt) in
      subst (λ (m : ℕ). start i + size i ≤ start m) same
        (ends_before i (k - suc i) lo (omega (arith, lt, hi)))

  get_elem?_bound :
      (recs : List Record) (j : ℕ) (rec : Record) → get_elem? recs j ≡ some rec → j < length recs
  get_elem?_bound [] j rec e = absurd (ground (arith, e))
  get_elem?_bound (r ∷ recs) zero rec e = omega arith
  get_elem?_bound (r ∷ recs) (suc j) rec e = omega (arith, get_elem?_bound recs j rec e)

  visit_at :
      (i j mid : ℕ) {rec : Record} (left right : Roe Record)
      → i ≡ mid
      → first ≤ i
      → i < next
      → get_elem? (n.block i).block.records j ≡ some rec
      → visit (start i + j) mid first (n.block mid) left right ≡ ok rec
  visit_at i j mid {rec} left right same lo hi e =
      let t = start i + j in
      let bound : j < size i = get_elem?_bound (n.block i).block.records j rec e in
      let exact = add_u64_exact (start i) (size i) (n.small i lo hi) in
      let there : t - start i ≡ j = omega arith in
      subst (λ (m : ℕ). visit t m first (n.block m) left right ≡ ok rec) same
        (visit_here t i first (n.block i) left right (le→not_ltb t (start i) (omega arith))
            (ne→not_eq (size i) 0 (omega (arith, bound)))
            (ap (λ (x : ℕ). leb x t) exact ∙ lt→not_leb (start i + size i) t (omega (arith, bound)))
          ∙ ap (λ (k : ℕ). or_unread (get_elem? (n.block i).block.records k)) there
          ∙ ap or_unread e)

  search_tx_lem :
      (i j rounds low high : ℕ) (rec : Record)
      → first ≤ low
      → low ≤ i
      → i ≤ high
      → high < next
      → high < low + rounds
      → get_elem? (n.block i).block.records j ≡ some rec
      → search_tx read (start i + j) first rounds low high ≡ ok rec
  unfolding search_tx
  search_tx_lem i j zero low high rec lo li ih hi enough e = absurd (omega (arith, li, ih, enough))
  search_tx_lem i j (suc rounds) low high rec lo li ih hi enough e =
      let t = start i + j in
      let mid = low + (high - low) / 2 in
      let bound : j < size i = get_elem?_bound (n.block i).block.records j rec e in
      let above : low ≤ mid = omega arith in
      let below : mid ≤ high = omega (arith, li, ih) in
      let got = n.readable mid (omega (arith, lo, above)) (omega (arith, hi, below)) in
      let exact =
        add_u64_exact (start mid) (size mid)
          (n.small mid (omega (arith, lo, above)) (omega (arith, hi, below))) in
      search_tx_round read t first rounds low high (n.block mid)
        (le→leb low high (omega (arith, li, ih))) got
      ∙ elim (ℕ_discrete mid i) [
        | yes same ↦
            visit_at i j mid _ _ (sym same) (omega (arith, lo, li)) (omega (arith, ih, hi)) e
        | no ne ↦ elim (dec_lt mid i) [
          | yes before ↦
              let past = ordered mid i (omega (arith, lo, above)) before (omega (arith, ih, hi)) in
              visit_right t mid first (n.block mid) _ _
                (le→not_ltb t (start mid) (omega (arith, past)))
                (ap (λ (x : ℕ). leb x t) exact
                  ∙ le→leb (start mid + size mid) t (omega (arith, past)))
              ∙ search_tx_lem i j rounds (suc mid) high rec (omega (arith, lo, above))
                  (omega (arith, before)) ih hi (omega (arith, enough, above)) e
          | no after ↦
              let past =
                ordered i mid (omega (arith, lo, li)) (omega (arith, ne, after))
                  (omega (arith, below, hi)) in
              visit_left t mid first (n.block mid) _ _
                (lt→ltb t (start mid) (omega (arith, past, bound)))
                (ne→not_eq mid first (omega (arith, lo, li, ne, after)))
              ∙ search_tx_lem i j rounds low (mid - 1) rec lo li (omega (arith, ne, after))
                  (omega (arith, below, hi)) (omega (arith, below, li, enough, ne, after)) e
        ]
      ]

  before_end :
      (i j : ℕ)
      → first ≤ i
      → i < next
      → j < size i
      → start i + j < start (next - 1) + size (next - 1)
  before_end i j lo hi bound = elim (ℕ_discrete i (next - 1)) [
    | yes same ↦ subst (λ (k : ℕ). start i + j < start k + size k) same (omega (arith, bound))
    | no ne ↦
        let past = ordered i (next - 1) lo (omega (arith, ne, hi)) (omega (arith, hi)) in
        omega (arith, past, bound)
  ]

  -- For blocks that can be read and that number their records one after another, the search by index
  -- ends with the record that has the number: the one at place `j` of block `i` for the start of the
  -- block and `j` together. `last` is what the ledger returns as its last block.
  pub find_transaction_by_index_lem :
      (i j : ℕ) (rec : Record) (last : Roe ChainNode)
      → last ≡ ok (n.block (next - 1))
      → first ≤ i
      → i < next
      → get_elem? (n.block i).block.records j ≡ some rec
      → find_transaction_by_index read last first next ((n.block i).block.tx_index + j) ≡ ok rec
  unfolding find_transaction_by_index
  find_transaction_by_index_lem i j rec last end lo hi e =
      let t = start i + j in
      let z = next - 1 in
      let bound : j < size i = get_elem?_bound (n.block i).block.records j rec e in
      let exact =
        add_u64_exact (start z) (size z) (n.small z (omega (arith, lo, hi)) (omega (arith, hi))) in
      let before : t < start z + size z = before_end i j lo hi bound in
      let some_blocks = lt→not_leb next first (omega (arith, lo, hi)) in
      let in_range = ap (λ (x : ℕ). leb x t) exact ∙ lt→not_leb (start z + size z) t before in
      let found =
        search_tx_lem i j (next - first) first z rec (omega arith) lo (omega (arith, hi))
          (omega (arith, hi)) (omega (arith, lo, hi)) e in
      simp (end, some_blocks, in_range, found)
