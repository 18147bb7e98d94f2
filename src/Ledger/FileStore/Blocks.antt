-- ===== src/Ledger/FileStore/Blocks.antt =====
-- What a FileStore stands for: the list of its blocks.
use pp_ledger.Base.{
  ℕ, ◌+◌, ◌^◌, ◌≤◌, ◌<◌, ◌≡◌, refl, sym, true, false, List, [], ◌∷◌, ◌++◌, length, length-append,
  arith, pos, ◌⊎◌,
}
use pp_ledger.Pack.Bytes.{Bytes}
use pp_ledger.Ledger.FileStore.Bytes.{le_bytes, length-le_bytes}
use pp_ledger.Ledger.FileStore.Defs.{
  FileHeader, BlockEntry, FileStore, new_header, encode_header, file_magic, has_valid_header,
}
use mathlib.Core.List.{append_assoc, append-nil}

abbrev pub frame : Bytes → Bytes
frame block = le_bytes 8 (length block) ++ block

abbrev pub frames : List Bytes → Bytes
frames [] = []
frames (block ∷ blocks) = frame block ++ frames blocks

-- The entries of blocks that stand from an offset on
abbrev pub index_of : ℕ → List Bytes → List BlockEntry
index_of offset [] = []
index_of offset (block ∷ blocks) =
    record { offset = pos offset; size = length block }
    ∷ index_of (offset + (8 + length block)) blocks

-- An open store whose file has a header and these blocks
pub record IsStore (blocks : List Bytes) (s : FileStore) : Type 0 where
  pub opened : s.is_open ≡ true
  pub valid : s.header_valid ≡ true
  pub known : s.header.magic ≡ file_magic
  pub written : s.file ≡ encode_header (new_header (length blocks)) ++ frames blocks
  pub sized : s.current_size ≡ length s.file
  pub bounded : s.current_size ≤ s.max_size
  pub small : s.max_size < 2 ^ 62

-- Its index names the blocks, and it counts them.
pub record IsIndexed (blocks : List Bytes) (s : FileStore) : Type 0 where
  pub indexed : s.block_index ≡ index_of 24 blocks
  pub counted : s.block_count ≡ length blocks

-- The index is there or will be built before it is used.
abbrev pub IsReadable : List Bytes → FileStore → Type 0
IsReadable blocks s = (s.index_built ≡ false) ⊎ IsIndexed blocks s

-- What a write that was broken off leaves behind the last block
pub data IsTorn (tail : Bytes) : Type 0 where
  short : length tail < 8 → IsTorn tail
  cut :
      (block part : Bytes)
      → tail ≡ le_bytes 8 (length block) ++ part
      → length part < length block
      → length block < 2 ^ 61
      → IsTorn tail

pub length-frame : (block : Bytes) → length (frame block) ≡ 8 + length block
length-frame block =
    omega (arith, length-append (le_bytes 8 (length block)) block, length-le_bytes 8 (length block))

pub length-header : (h : FileHeader) → length (encode_header h) ≡ 24
unfolding encode_header
length-header h = refl

pub frames-append :
    (xs : List Bytes) (block : Bytes) → frames (xs ++ (block ∷ [])) ≡ frames xs ++ frame block
frames-append [] block = append-nil (frame block)
frames-append (x ∷ xs) block =
    rw (frames-append xs block) (sym (append_assoc (frame x) (frames xs) (frame block)))

pub index_of-append :
    (offset : ℕ) (xs : List Bytes) (block : Bytes)
    → index_of offset (xs ++ (block ∷ []))
      ≡ index_of offset xs
        ++ (record { offset = pos (offset + length (frames xs)); size = length block } ∷ [])
index_of-append offset [] block = let e : offset + 0 ≡ offset = omega arith in cc
index_of-append offset (x ∷ xs) block =
    let e : (offset + (8 + length x)) + length (frames xs)
        ≡ offset + length (frame x ++ frames xs) =
      omega (arith, length-append (frame x) (frames xs), length-frame x) in
    rw (index_of-append (offset + (8 + length x)) xs block) (rw e refl)

-- A block takes at least eight bytes.
pub frames_bound : (blocks : List Bytes) → length blocks ≤ length (frames blocks)
frames_bound [] = omega arith
frames_bound (b ∷ bs) =
    omega (arith, frames_bound bs, length-append (frame b) (frames bs), length-frame b)

pub IsStore-has_valid_header :
    (blocks : List Bytes) (s : FileStore) → IsStore blocks s → has_valid_header s ≡ true
unfolding has_valid_header
IsStore-has_valid_header blocks s v = ground (arith, v.valid, v.known)
