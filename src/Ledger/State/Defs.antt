-- ===== src/Ledger/State/Defs.antt =====
-- The state of the ledger and its operations. The block store is a parameter; whether the index file can
-- be replaced is the argument `saved`.
use pp_ledger.Base.{
  ℕ, ◌-◌, Bool, true, false, List, ◌++◌, Option, none, some, ltb, leb, ◌==◌, if◌then◌else◌, not,
}
use pp_ledger.Base.Word.{add_u64, sub_u64}
use pp_ledger.Base.Roe.{Roe, ok, err, done, Action}
use pp_ledger.Pack.Bytes.{Bytes}
use pp_ledger.Pack.Archive.{Archive, u16, u32, u64, string, ◌&◌, struct, binary_pack, binary_unpack}
use pp_ledger.Pack.Containers.{vector}
use pp_ledger.Ledger.Types.{ChainNode}
use pp_ledger.Ledger.Packing.{block_to_string, block_from_string}
use pp_ledger.Ledger.Store.{BlockStore}

-- RawBlock: the text of the block, and its hash
abbrev pub pack_raw_block : Archive (Bytes × Bytes)
pack_raw_block = string & string

unfoldable pub node_to_string : ChainNode → Bytes
unfolding block_to_string binary_pack
node_to_string node = binary_pack pack_raw_block (block_to_string node.block, node.hash)

unfoldable pub node_from_string : Bytes → Option ChainNode
unfolding block_from_string binary_unpack
node_from_string src = elim (binary_unpack pack_raw_block src) [
  | err _ ↦ none
  | ok (text, hash) ↦ elim (block_from_string text) [
    | none ↦ none
    | some b ↦ some (record { block = b; hash = hash })
  ]
]

pub record Meta : Type 0 where
  pub starting_block_id : ℕ
  pub checkpoint_ids : List ℕ

abbrev pub pack_meta : Archive Meta
pack_meta =
    struct (λ (a, b). record { starting_block_id = a; checkpoint_ids = b })
      (λ m. (m.starting_block_id, m.checkpoint_ids)) (u64 & vector u64)

abbrev pub index_magic : ℕ
index_magic = 0x504C4C44

abbrev pub index_version : ℕ
index_version = 1

-- IndexFileHeader
abbrev pub pack_index_header : Archive (ℕ × ℕ)
pack_index_header = u32 & u16

-- The bytes of the index file
unfoldable pub index_to_string : Meta → Bytes
index_to_string m = pack_index_header.write (index_magic, index_version) ++ pack_meta.write m

unfoldable pub load_index : Bytes → Option Meta
load_index src = elim (pack_index_header.read src) [
  | none ↦ none
  | some ((magic, version), rest) ↦
      if not (magic == index_magic)
      then none
      else if not (version == index_version)
      then none
      else elim (pack_meta.read rest) [ none ↦ none | some (m, _) ↦ some m ]
]

pub record LedgerState (S : Type 0) : Type 0 where
  pub meta : Meta
  pub store : S
  pub cache : Option ChainNode
  pub index_file : Bytes

module _ {S : Type 0} (blocks : BlockStore S) where
  abbrev pub get_next_block_id : LedgerState S → ℕ
  get_next_block_id l = add_u64 l.meta.starting_block_id (blocks.count l.store)

  unfoldable pub save_index : Bool → LedgerState S → Bool × LedgerState S
  unfolding index_to_string
  save_index saved l =
      if saved then (true, record l { index_file = index_to_string l.meta }) else (false, l)

  unfoldable pub add_block : Bool → ChainNode → Action (LedgerState S) Unit
  add_block saved node l =
      let (r, s) = blocks.append (node_to_string node) l.store in
      let stored = record l { store = s } in
      elim r [
        | err _ ↦ (err 1, stored)
        | ok _ ↦
            let (good, t) = save_index saved stored in
            if good then (done, record t { cache = some node }) else (err 2, t)
      ]

  -- The part of readBlock that goes to the store
  unfoldable pub fetch_block : ℕ → Action (LedgerState S) ChainNode
  unfolding node_from_string sub_u64 add_u64
  fetch_block id l =
      if ltb id l.meta.starting_block_id
      then (err 3, l)
      else elim (blocks.read (id - l.meta.starting_block_id) l.store) [
        | err _ ↦ (err 4, l)
        | ok src ↦ elim (node_from_string src) [
          | none ↦ (err 5, l)
          | some node ↦ (
            ok node,
            if id == sub_u64 (get_next_block_id l) 1 then record l { cache = some node } else l,
          )
        ]
      ]

  unfoldable pub read_block : ℕ → Action (LedgerState S) ChainNode
  unfolding fetch_block sub_u64 add_u64
  read_block id l =
      if blocks.count l.store == 0
      then (err 6, l)
      else if leb (get_next_block_id l) id
      then (err 7, l)
      else if id == sub_u64 (get_next_block_id l) 1
      then elim l.cache [ some node ↦ (ok node, l) | none ↦ fetch_block id l ]
      else fetch_block id l

  unfoldable pub read_last_block : Action (LedgerState S) ChainNode
  read_last_block l =
      if leb (get_next_block_id l) l.meta.starting_block_id then (err 8, l) else elim l.cache [
        | some node ↦ (ok node, l)
        | none ↦ read_block (sub_u64 (get_next_block_id l) 1) l
      ]

  -- `mount` behind the checks on the directories, with the index file and the store as it is mounted.
  unfoldable pub mount : Bytes → Roe S → Action (LedgerState S) Unit
  unfolding load_index read_block sub_u64 add_u64
  mount index_file mounted l = elim (load_index index_file) [
    | none ↦ (err 9, l)
    | some m ↦
        let loaded = record l { meta = m; index_file = index_file } in
        elim mounted [
          | err _ ↦ (err 10, loaded)
          | ok s ↦
              let t = record loaded { store = s } in
              if ltb 0 (blocks.count s)
              then (let (r, u) = read_block (sub_u64 (get_next_block_id t) 1) t in
                  elim r [ err _ ↦ (done, u) | ok node ↦ (done, record u { cache = some node }) ])
              else (done, t)
        ]
  ]
