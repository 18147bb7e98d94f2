-- ===== src/Ledger/FileStore/Tests.antt =====
-- A small store, and the theorems at concrete inputs.
use pp_ledger.Base.{
  ◌-◌, ◌^◌, ◌≡◌, refl, Bool, true, false, List, [], ◌∷◌, ◌++◌, none, some, arith, pos, inl,
  if◌then◌else◌,
}
use pp_ledger.Base.Roe.{ok, done}
use pp_ledger.Pack.Bytes.{Bytes, read_bytes}
use pp_ledger.Ledger.FileStore.Bytes.{le_bytes, le_value, read_at}
use pp_ledger.Ledger.FileStore.Defs.{
  FileStore, new_header, encode_header, append_block, read_block, rewind_to, mount, close, write,
  scan, build_block_index, has_valid_header, min_max_size,
}
use pp_ledger.Ledger.FileStore.Blocks.{frames, index_of, IsStore, IsIndexed, IsReadable, short}
use pp_ledger.Ledger.FileStore.Scan.{with_index_of, build_block_index_torn}
use pp_ledger.Ledger.FileStore.Loop.{scan_stuck}
use pp_ledger.Ledger.FileStore.Writing.{append_block_lem}
use pp_ledger.Ledger.FileStore.Reading.{or_range, read_block_lem, write_forgets}
use pp_ledger.Ledger.FileStore.Mount.{mount-close}
use pp_ledger.Ledger.FileStore.Rewind.{rewind_to_lem}

abbrev first_block : Bytes
first_block = 1 ∷ 2 ∷ 3 ∷ []

abbrev second_block : Bytes
second_block = 9 ∷ []

abbrev two_blocks : List Bytes
two_blocks = first_block ∷ second_block ∷ []

abbrev path : Bytes
path = 47 ∷ []

-- Two blocks, with the index or without
abbrev store_with : Bool → FileStore
store_with built = record {
  file = encode_header (new_header 2) ++ frames two_blocks;
  is_open = true;
  is_failed = false;
  max_size = min_max_size;
  current_size = 44;
  header = new_header 2;
  header_valid = true;
  block_count = 2;
  block_index = if built then index_of 24 two_blocks else [];
  index_built = built;
}

store_with-IsStore : (built : Bool) → IsStore two_blocks (store_with built)
unfolding le_bytes le_value read_at encode_header has_valid_header read_block read_bytes
store_with-IsStore = λ built. record {
  opened = refl;
  valid = refl;
  known = refl;
  written = refl;
  sized = refl;
  bounded = ground arith;
  small = ground arith;
}

store_with-IsIndexed : IsIndexed two_blocks (store_with true)
unfolding le_bytes le_value read_at encode_header has_valid_header read_block read_bytes
store_with-IsIndexed = record { indexed = refl; counted = refl }

second_read :
    read_block 1 (store_with false)
    ≡ some (ok second_block, record (store_with true) { index_built = true })
unfolding le_bytes le_value read_at encode_header has_valid_header read_block read_bytes
second_read = refl

append_block_lem_example :
    (t : FileStore) × (append_block first_block (store_with true) ≡ (ok 2, t))
    × IsStore (two_blocks ++ (first_block ∷ [])) t
    × IsIndexed (two_blocks ++ (first_block ∷ [])) t
unfolding le_bytes le_value read_at encode_header has_valid_header read_block read_bytes
append_block_lem_example =
    append_block_lem two_blocks first_block (store_with true) (store_with-IsStore true)
      store_with-IsIndexed (ground arith)

read_block_lem_example :
    (t : FileStore) × (read_block 1 (store_with false) ≡ some (or_range (some second_block), t))
    × IsStore two_blocks t
    × IsIndexed two_blocks t
unfolding le_bytes le_value read_at encode_header has_valid_header read_block read_bytes
read_block_lem_example =
    read_block_lem two_blocks 1 (store_with false) (store_with-IsStore false) (inl refl)

rewind_to_lem_example :
    (t : FileStore) × (rewind_to 1 (store_with false) ≡ some (done, t))
    × IsStore (first_block ∷ []) t
    × IsIndexed (first_block ∷ []) t
unfolding le_bytes le_value read_at encode_header has_valid_header read_block read_bytes
rewind_to_lem_example =
    rewind_to_lem two_blocks 1 (store_with false) (store_with-IsStore false) (inl refl)

mount-close_example :
    (t : FileStore) × (mount path min_max_size
        (some (close (store_with true)).file)
        (close (store_with false))
      ≡ (done, t))
    × IsStore two_blocks t
    × IsReadable two_blocks t
unfolding close le_bytes le_value read_at encode_header has_valid_header read_block read_bytes
mount-close_example =
    mount-close path min_max_size two_blocks (store_with true) (close (store_with false))
      (ground arith) (ground arith) (λ e. ground (arith, e)) refl refl (store_with-IsStore true)
      refl (ground arith)

-- Half a size prefix stands behind the blocks.
abbrev torn_store : FileStore
torn_store = record (store_with false) {
  file = encode_header (new_header 2) ++ (frames two_blocks ++ (7 ∷ 0 ∷ 0 ∷ []));
  current_size = 47;
}

build_block_index_torn_example :
    build_block_index torn_store ≡ some (done, with_index_of two_blocks torn_store)
unfolding le_bytes le_value read_at encode_header has_valid_header read_block read_bytes
build_block_index_torn_example =
    build_block_index_torn two_blocks (7 ∷ 0 ∷ 0 ∷ []) (new_header 2) torn_store refl refl refl refl
      (ground arith) (short (ground arith))

abbrev stuck_file : Bytes
stuck_file = encode_header (new_header 1) ++ le_bytes 8 (2 ^ 64 - 8)

scan_stuck_example : scan 1000 (pos 24) (pos 32) stuck_file ≡ none
unfolding le_bytes le_value read_at encode_header has_valid_header read_block read_bytes
scan_stuck_example =
    scan_stuck 1000 24 32 stuck_file (le_bytes 8 (2 ^ 64 - 8)) (ground arith) (ground arith) refl
      refl

write_forgets_example :
    read_block 0 (write (5 ∷ []) (store_with false)).1
    ≡ some (ok (5 ∷ []), (write (5 ∷ []) (store_with false)).1)
unfolding le_bytes le_value read_at encode_header has_valid_header read_block read_bytes
write_forgets_example =
    write_forgets two_blocks (5 ∷ []) (store_with false) (store_with-IsStore false) refl refl
      (ground arith)
