-- ===== src/Ledger/State/Blocks.antt =====
-- What the ledger does, as a list of nodes of the chain.
use pp_ledger.Base.{
  ℕ, zero, suc, ◌+◌, ◌-◌, ◌≤◌, ◌<◌, ◌^◌, ◌≡◌, refl, sym, ap, ◌∙◌, Bool, true, false, List, [], ◌∷◌,
  ◌++◌, Option, none, some, length, arith, All, map, get_elem?, inl, inr, ◌⊎◌, ltb, leb, ◌==◌,
  length-append, Bool-cases, if◌then◌else◌, subst, ==_refl, lt→ltb, le→leb,
}
use pp_ledger.Base.Word.{add_u64, sub_u64, add_u64_exact}
use pp_ledger.Base.Roe.{Roe, ok, err, Done, done}
use pp_ledger.Ledger.Types.{ChainNode}
use pp_ledger.Ledger.Store.{BlockStore}
use pp_ledger.Ledger.State.Defs.{
  LedgerState, add_block, read_block, fetch_block, read_last_block, get_next_block_id,
  node_to_string, node_from_string, index_to_string, save_index,
}
use pp_ledger.Ledger.State.Text.{FitsNode, node_from_string-node_to_string}
use mathlib.Core.List.{append-nil}

abbrev pub last? : List ChainNode → Option ChainNode
last? nodes = get_elem? nodes (length nodes - 1)

not_leb : (a b : ℕ) → b < a → leb a b ≡ false
not_leb a b lt = ground (arith, lt)

not_equal : (a b : ℕ) → a < b → (a == b) ≡ false
not_equal a b lt = ground (arith, lt)

map-append :
    (nodes : List ChainNode) (node : ChainNode)
    → map node_to_string (nodes ++ (node ∷ []))
      ≡ map node_to_string nodes ++ (node_to_string node ∷ [])
map-append [] node = refl
map-append (n ∷ ns) node = ap (λ xs. node_to_string n ∷ xs) (map-append ns node)

All-append :
    (nodes : List ChainNode) (node : ChainNode)
    → All FitsNode nodes
    → FitsNode node
    → All FitsNode (nodes ++ (node ∷ []))
All-append [] node a f = (f, tt)
All-append (n ∷ ns) node (g, a) f = (g, All-append ns node a f)

get_elem?-last :
    (nodes : List ChainNode) (node : ChainNode)
    → get_elem? (nodes ++ (node ∷ [])) (length nodes) ≡ some node
get_elem?-last [] node = refl
get_elem?-last (n ∷ ns) node = get_elem?-last ns node

last-append : (nodes : List ChainNode) (node : ChainNode) → last? (nodes ++ (node ∷ [])) ≡ some node
last-append nodes node =
    let place : length (nodes ++ (node ∷ [])) - 1 ≡ length nodes =
      omega (arith, length-append nodes (node ∷ [])) in
    ap (get_elem? (nodes ++ (node ∷ []))) place ∙ get_elem?-last nodes node

module _ {S : Type 0} (blocks : BlockStore S) where
  -- The ledger has these nodes: its store has their texts, and its cache, if it is filled, the last.
  pub record HoldsNodes (nodes : List ChainNode) (l : LedgerState S) : Type 0 where
    pub stored : blocks.Holds (map node_to_string nodes) l.store
    pub fitting : All FitsNode nodes
    pub cached :
        (l.cache ≡ none) ⊎ ((node : ChainNode) × (l.cache ≡ some node) × (last? nodes ≡ some node))
    pub in_range : l.meta.starting_block_id + length nodes < 2 ^ 64

  length-map : (nodes : List ChainNode) → length (map node_to_string nodes) ≡ length nodes
  length-map [] = refl
  length-map (n ∷ ns) = ap suc (length-map ns)

  get_elem?-map :
      (nodes : List ChainNode) (node : ChainNode) (i : ℕ)
      → get_elem? nodes i ≡ some node
      → get_elem? (map node_to_string nodes) i ≡ some (node_to_string node)
  get_elem?-map [] node i e = absurd (ground (arith, e))
  get_elem?-map (n ∷ ns) node zero e = ground (arith, e)
  get_elem?-map (n ∷ ns) node (suc i) e = get_elem?-map ns node i e

  get_elem?_bound :
      (nodes : List ChainNode) (node : ChainNode) (i : ℕ)
      → get_elem? nodes i ≡ some node
      → i < length nodes
  get_elem?_bound [] node i e = absurd (ground (arith, e))
  get_elem?_bound (n ∷ ns) node zero e = omega arith
  get_elem?_bound (n ∷ ns) node (suc i) e = omega (arith, get_elem?_bound ns node i e)

  All-get_elem? :
      (nodes : List ChainNode) (node : ChainNode) (i : ℕ)
      → All FitsNode nodes
      → get_elem? nodes i ≡ some node
      → FitsNode node
  All-get_elem? [] node i a e = absurd (ground (arith, e))
  All-get_elem? (n ∷ ns) node zero (f, a) e =
      let same : n ≡ node = ground (arith, e) in subst FitsNode same f
  All-get_elem? (n ∷ ns) node (suc i) (f, a) e = All-get_elem? ns node i a e

  count_nodes :
      (nodes : List ChainNode) (l : LedgerState S)
      → HoldsNodes nodes l
      → blocks.count l.store ≡ length nodes
  count_nodes nodes l h =
      blocks.count_lem (map node_to_string nodes) l.store h.stored ∙ length-map nodes

  pub next_block_id_lem :
      (nodes : List ChainNode) (l : LedgerState S)
      → HoldsNodes nodes l
      → get_next_block_id blocks l ≡ l.meta.starting_block_id + length nodes
  next_block_id_lem nodes l h =
      let c = count_nodes nodes l h in
      ap (add_u64 l.meta.starting_block_id) c
      ∙ add_u64_exact l.meta.starting_block_id (length nodes) h.in_range

  last_id :
      (nodes : List ChainNode) (l : LedgerState S)
      → HoldsNodes nodes l
      → 0 < length nodes
      → sub_u64 (get_next_block_id blocks l) 1 ≡ l.meta.starting_block_id + (length nodes - 1)
  unfolding sub_u64
  last_id nodes l h some_node =
      rw (next_block_id_lem nodes l h) (omega (arith, h.in_range, some_node))

  -- The text is read and becomes the node; the cache takes the last.
  fetch_block_lem :
      (nodes : List ChainNode) (node : ChainNode) (i : ℕ) (l : LedgerState S)
      → HoldsNodes nodes l
      → get_elem? nodes i ≡ some node
      → (t : LedgerState S) × (fetch_block blocks (l.meta.starting_block_id + i) l ≡ (ok node, t))
        × HoldsNodes nodes t
  unfolding fetch_block
  fetch_block_lem nodes node i l h e =
      let start = l.meta.starting_block_id in
      let bound = get_elem?_bound nodes node i e in
      let above : ltb (start + i) start ≡ false = ground arith in
      let index : (start + i) - start ≡ i = omega arith in
      let read =
        blocks.read_lem (map node_to_string nodes) (node_to_string node) i l.store h.stored
          (get_elem?-map nodes node i e) in
      let text : node_from_string (node_to_string node) ≡ some node =
        ap node_from_string (sym (append-nil (node_to_string node)))
        ∙ node_from_string-node_to_string node [] (All-get_elem? nodes node i h.fitting e) in
      let last = last_id nodes l h (omega (arith, bound)) in
      let tested : LedgerState S =
        if start + i == sub_u64 (get_next_block_id blocks l) 1
        then record l { cache = some node }
        else l in
      let run : fetch_block blocks (start + i) l ≡ (ok node, tested) =
        simp (above, index, read, text) in
      elim (Bool-cases (start + i == sub_u64 (get_next_block_id blocks l) 1)) [
        | inr other ↦ (l, run ∙ simp other, h)
        | inl same ↦
            let place : i ≡ length nodes - 1 = ground (arith, same, last, bound) in
            (
              record l { cache = some node },
              run ∙ simp same,
              record {
                stored = h.stored;
                fitting = h.fitting;
                cached = inr (node, refl, ap (get_elem? nodes) (sym place) ∙ e);
                in_range = h.in_range;
              },
            )
      ]

  -- A ledger that holds these nodes: each is read under its number, from the cache or from the store, and
  -- the ledger holds them afterwards.
  pub read_block-HoldsNodes :
      (nodes : List ChainNode) (node : ChainNode) (i : ℕ) (l : LedgerState S)
      → HoldsNodes nodes l
      → get_elem? nodes i ≡ some node
      → (t : LedgerState S) × (read_block blocks (l.meta.starting_block_id + i) l ≡ (ok node, t))
        × HoldsNodes nodes t
  unfolding read_block
  read_block-HoldsNodes nodes node i l h e =
      let id = l.meta.starting_block_id + i in
      let bound = get_elem?_bound nodes node i e in
      let count = count_nodes nodes l h in
      let next = next_block_id_lem nodes l h in
      let last = last_id nodes l h (omega (arith, bound)) in
      let full : (blocks.count l.store == 0) ≡ false = ground (arith, count, bound) in
      let inside : leb (get_next_block_id blocks l) id ≡ false = ground (arith, next, bound) in
      let (t, fetched, k) = fetch_block_lem nodes node i l h e in
      elim (Bool-cases (id == sub_u64 (get_next_block_id blocks l) 1)) [
        | inr other ↦ (t, rw (full, read_block) (rw inside (rw other fetched)), k)
        | inl same ↦ elim h.cached [
          | inl empty ↦ (t, rw (full, read_block) (rw inside (rw same (rw empty fetched))), k)
          | inr (kept, cache, top) ↦
              let place : i ≡ length nodes - 1 = ground (arith, same, last, bound) in
              let one : some kept ≡ some node = sym top ∙ ap (get_elem? nodes) (sym place) ∙ e in
              let held : l.cache ≡ some node = cache ∙ one in
              (l, simp (full, inside, same, held), h)
        ]
      ]

  -- No other number is read, and the ledger stays as it is.
  pub read_block_out :
      (nodes : List ChainNode) (id : ℕ) (l : LedgerState S)
      → HoldsNodes nodes l
      → (id < l.meta.starting_block_id) ⊎ (l.meta.starting_block_id + length nodes ≤ id)
      → (e : ℕ) × (read_block blocks id l ≡ (err e, l))
  unfolding read_block fetch_block
  read_block_out nodes id l h out =
      let count = count_nodes nodes l h in
      let next = next_block_id_lem nodes l h in
      elim (Bool-cases (blocks.count l.store == 0)) [
        | inl empty ↦ (6, simp empty)
        | inr full ↦ elim out [
          | inr past ↦
              let beyond : leb (get_next_block_id blocks l) id ≡ true =
                le→leb _ _ (omega (arith, next, past)) in
              (7, simp (full, beyond))
          | inl before ↦
              let inside : leb (get_next_block_id blocks l) id ≡ false =
                not_leb _ _ (omega (arith, next, before)) in
              let some_node : 0 < length nodes = ground (arith, full, count) in
              let last = last_id nodes l h some_node in
              let other : (id == sub_u64 (get_next_block_id blocks l) 1) ≡ false =
                not_equal _ _ (omega (arith, last, before)) in
              let early : ltb id l.meta.starting_block_id ≡ true = lt→ltb _ _ before in
              (3, simp (full, inside, other, early))
        ]
      ]

  -- The last node, or the error of a ledger without any
  pub read_last_block-HoldsNodes :
      (nodes : List ChainNode) (node : ChainNode) (l : LedgerState S)
      → HoldsNodes nodes l
      → last? nodes ≡ some node
      → (t : LedgerState S) × (read_last_block blocks l ≡ (ok node, t)) × HoldsNodes nodes t
  unfolding read_last_block
  read_last_block-HoldsNodes nodes node l h e =
      let bound = get_elem?_bound nodes node (length nodes - 1) e in
      let next = next_block_id_lem nodes l h in
      let last = last_id nodes l h (omega (arith, bound)) in
      let some_node : leb (get_next_block_id blocks l) l.meta.starting_block_id ≡ false =
        not_leb _ _ (omega (arith, next, bound)) in
      let (t, got, k) = read_block-HoldsNodes nodes node (length nodes - 1) l h e in
      elim h.cached [
        | inl empty ↦ (t, simp (some_node, empty, last, got), k)
        | inr (kept, cache, top) ↦
            let held : l.cache ≡ some node = cache ∙ sym top ∙ e in (l, simp (some_node, held), h)
      ]

  -- What is left of addBlock when the store has taken the text
  abbrev after_store : Bool → ChainNode → S → LedgerState S → Done × LedgerState S
  after_store true node s l =
      (done, record l { store = s; index_file = index_to_string l.meta; cache = some node })
  after_store false node s l = (err 2, record l { store = s })

  after_append : Bool → ChainNode → LedgerState S → Roe ℕ × S → Done × LedgerState S
  after_append saved node l p = elim p.0 [
    | err _ ↦ (err 1, record l { store = p.1 })
    | ok _ ↦
        let (good, t) = save_index blocks saved (record l { store = p.1 }) in
        if good then (done, record t { cache = some node }) else (err 2, t)
  ]

  add_block_stored :
      (saved : Bool) (node : ChainNode) (l : LedgerState S) (n : ℕ) (s : S)
      → blocks.append (node_to_string node) l.store ≡ (ok n, s)
      → add_block blocks saved node l ≡ after_store saved node s l
  unfolding add_block save_index after_append
  add_block_stored true node l n s e = ap (after_append true node l) e
  add_block_stored false node l n s e = ap (after_append false node l) e

  -- A ledger that holds these nodes, and one that fits its text, for which the store has room and the
  -- numbers suffice: with the index file saved it is added behind them, and the ledger holds it too.
  pub add_block-HoldsNodes :
      (nodes : List ChainNode) (node : ChainNode) (l : LedgerState S)
      → HoldsNodes nodes l
      → FitsNode node
      → blocks.Fits (node_to_string node) l.store
      → l.meta.starting_block_id + length nodes + 1 < 2 ^ 64
      → (t : LedgerState S) × (add_block blocks true node l ≡ (done, t))
        × HoldsNodes (nodes ++ (node ∷ [])) t
  add_block-HoldsNodes nodes node l h f fits room =
      let (s, added, holds) =
        blocks.append-Holds (map node_to_string nodes) (node_to_string node) l.store h.stored
          fits in
      let t = record l { store = s; index_file = index_to_string l.meta; cache = some node } in
      (
        t,
        add_block_stored true node l _ s added,
        record {
          stored = subst (λ texts. blocks.Holds texts s) (sym (map-append nodes node)) holds;
          fitting = All-append nodes node h.fitting f;
          cached = inr (node, refl, last-append nodes node);
          in_range = omega (arith, room, length-append nodes (node ∷ []));
        },
      )

  -- A ledger that holds these nodes with its cache filled, and a node for which the store has room and
  -- the numbers suffice: when the index file cannot be saved, the error comes back, the store has the
  -- node, and what the cache held is read as the last node and under the new node's number.
  pub add_block_unsaved :
      (nodes : List ChainNode) (node old : ChainNode) (l : LedgerState S)
      → HoldsNodes nodes l
      → l.cache ≡ some old
      → blocks.Fits (node_to_string node) l.store
      → l.meta.starting_block_id + length nodes + 1 < 2 ^ 64
      → (t : LedgerState S) × (add_block blocks false node l ≡ (err 2, t))
        × blocks.Holds (map node_to_string (nodes ++ (node ∷ []))) t.store
        × (read_last_block blocks t ≡ (ok old, t))
        × (read_block blocks (l.meta.starting_block_id + length nodes) t ≡ (ok old, t))
  unfolding read_last_block read_block sub_u64
  add_block_unsaved nodes node old l h held fits room =
      let (s, added, holds) =
        blocks.append-Holds (map node_to_string nodes) (node_to_string node) l.store h.stored
          fits in
      let t = record l { store = s } in
      let stored = subst (λ texts. blocks.Holds texts s) (sym (map-append nodes node)) holds in
      let start = l.meta.starting_block_id in
      let more = nodes ++ (node ∷ []) in
      let count : blocks.count s ≡ length nodes + 1 =
        omega
          (arith, blocks.count_lem _ s stored, length-map more, length-append nodes (node ∷ [])) in
      let next : get_next_block_id blocks t ≡ start + (length nodes + 1) =
        ap (add_u64 start) count ∙ add_u64_exact start (length nodes + 1) (omega (arith, room)) in
      let last : sub_u64 (get_next_block_id blocks t) 1 ≡ start + length nodes =
        ap (λ n. sub_u64 n 1) next ∙ omega (arith, room) in
      let full : (blocks.count s == 0) ≡ false = ground (arith, count) in
      let inside : leb (get_next_block_id blocks t) (start + length nodes) ≡ false =
        not_leb _ _ (omega (arith, next)) in
      let not_empty : leb (get_next_block_id blocks t) start ≡ false =
        not_leb _ _ (omega (arith, next)) in
      (
        t,
        add_block_stored false node l _ s added,
        stored,
        simp (not_empty, held),
        simp (full, inside, last, ==_refl (start + length nodes), held),
      )
