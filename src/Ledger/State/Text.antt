-- ===== src/Ledger/State/Text.antt =====
-- The text of a node of the chain and of the index file.
use pp_ledger.Base.{◌≤◌, ◌≡◌, refl, sym, ap, ◌∙◌, [], ◌++◌, some, length, arith}
use pp_ledger.Pack.Bytes.{Bytes}
use pp_ledger.Pack.Archive.{
  IsExact, u16, u32, max_string_size, binary_unpack-binary_pack, string-IsExact, word-IsExact,
  &-IsExact, struct-IsExact,
}
use pp_ledger.Pack.Containers.{vector-IsExact}
use pp_ledger.Ledger.Types.{ChainNode}
use pp_ledger.Ledger.Packing.{
  block_to_string, block_from_string, block_from_string-block_to_string, pack_block,
}
use pp_ledger.Ledger.State.Defs.{
  Meta, pack_meta, pack_index_header, pack_raw_block, index_to_string, load_index, node_to_string,
  node_from_string, index_magic, index_version,
}
use mathlib.Core.List.{append_assoc, append-nil}

-- The numbers of a node fit their widths, and its strings, packed ones included, are at most 64 MB long.
abbrev pub FitsNode : ChainNode → Type 0
FitsNode node =
    pack_block.fits node.block
    × (length (block_to_string node.block) ≤ max_string_size)
    × (length node.hash ≤ max_string_size)

pub node_from_string-node_to_string :
    (node : ChainNode) (rest : Bytes)
    → FitsNode node
    → node_from_string (node_to_string node ++ rest) ≡ some node
unfolding node_from_string node_to_string
node_from_string-node_to_string node rest (f, small, short) =
    let text = block_to_string node.block in
    let raw =
      binary_unpack-binary_pack pack_raw_block (&-IsExact _ _ string-IsExact string-IsExact)
        (text, node.hash) rest (small, short) in
    let block : block_from_string text ≡ some node.block =
      ap block_from_string (sym (append-nil text))
      ∙ block_from_string-block_to_string node.block [] f in
    rw (raw, node_from_string) (rw block refl)

pub pack_meta-IsExact : IsExact pack_meta
pack_meta-IsExact =
    struct-IsExact _ _ _ (λ m. refl)
      (&-IsExact _ _ (word-IsExact 8) (vector-IsExact _ (word-IsExact 8)))

-- What saveIndex writes, loadIndex reads, whatever follows it; the numbers fit 64 bits.
pub load_index-index_to_string :
    (m : Meta) (rest : Bytes) → pack_meta.fits m → load_index (index_to_string m ++ rest) ≡ some m
unfolding load_index index_to_string
load_index-index_to_string m rest f =
    let header =
      &-IsExact u32 u16 (word-IsExact 4) (word-IsExact 2) (index_magic, index_version)
        (pack_meta.write m ++ rest) (omega arith, omega arith) in
    rw
      (append_assoc (pack_index_header.write (index_magic, index_version)) (pack_meta.write m) rest)
      (rw (header, load_index) (rw (pack_meta-IsExact m rest f) refl))
