-- ===== src/Ledger/FileStore/Reading.antt =====
-- Reading a block.
use pp_ledger.Base.{
  ℕ, zero, suc, ◌+◌, ◌^◌, ◌≤◌, ◌<◌, ◌≡◌, refl, sym, ap, ◌∙◌, true, false, List, [], ◌∷◌, ◌++◌,
  Option, none, some, length, length-append, arith, pos, inl, inr, get_elem?, Option-cases,
}
use pp_ledger.Base.Roe.{Roe, ok, err, done}
use pp_ledger.Pack.Bytes.{Bytes}
use pp_ledger.Ledger.FileStore.Bytes.{le_bytes, read_at, read_at-append, write_at, length-le_bytes}
use pp_ledger.Ledger.FileStore.Defs.{
  BlockEntry, FileStore, new_header, encode_header, read_block, read_entry, with_index,
  ensure_block_index, e_range, write,
}
use pp_ledger.Ledger.FileStore.Blocks.{
  frame, frames, index_of, IsStore, IsIndexed, IsReadable, length-frame, length-header,
}
use pp_ledger.Ledger.FileStore.Scan.{ensure_block_index_lem, add_i64_pos}
use pp_ledger.Ledger.FileStore.Writing.{after_write, write_eq, write_at-header}
use mathlib.Core.List.{append_assoc, append-nil}

-- An entry that is there, or the error of an index out of range
abbrev pub or_range : {A : Type 0} → Option A → Roe A
or_range none = err e_range
or_range (some a) = ok a

abbrev read_place : Option BlockEntry → FileStore → Roe Bytes
read_place none s = err e_range
read_place (some entry) s = read_entry entry s

read_entry_lem :
    (front block rest : Bytes) (offset : ℕ) (s : FileStore)
    → s.is_open ≡ true
    → s.file ≡ front ++ (frame block ++ rest)
    → offset ≡ length front
    → offset + 8 < 2 ^ 63
    → read_entry (record { offset = pos offset; size = length block }) s ≡ ok block
read_entry_lem front block rest offset s opened e at small =
    let size = le_bytes 8 (length block) in
    let behind : offset + 8 ≡ length (front ++ size) =
      omega (arith, at, length-append front size, length-le_bytes 8 (length block)) in
    let split : s.file ≡ (front ++ size) ++ (block ++ rest) =
      e
      ∙ ap (λ x. front ++ x) (append_assoc size block rest)
      ∙ sym (append_assoc front size (block ++ rest)) in
    let got : read_at (pos (offset + 8)) (length block) s.file ≡ some block =
      ap (read_at (pos (offset + 8)) (length block)) split
      ∙ read_at-append (front ++ size) block rest (offset + 8) behind in
    simp (opened, add_i64_pos offset 8 small, got)

-- Through the index every block is found.
read_place_lem :
    (blocks : List Bytes) (front : Bytes) (offset i : ℕ) (s : FileStore)
    → s.is_open ≡ true
    → s.file ≡ front ++ frames blocks
    → offset ≡ length front
    → length s.file < 2 ^ 62
    → read_place (get_elem? (index_of offset blocks) i) s ≡ or_range (get_elem? blocks i)
read_place_lem [] front offset i s opened e at small = refl
read_place_lem (b ∷ bs) front offset zero s opened e at small =
    read_entry_lem front b (frames bs) offset s opened e at (
      omega (
        arith,
        small,
        at,
        ap length e,
        length-append front (frame b ++ frames bs),
        length-append (frame b) (frames bs),
        length-frame b,
      ))
read_place_lem (b ∷ bs) front offset (suc i) s opened e at small =
    read_place_lem bs (front ++ frame b) (offset + (8 + length b)) i s opened
      (e ∙ sym (append_assoc front (frame b) (frames bs)))
      (omega (arith, at, length-append front (frame b), length-frame b)) small

pub read_place_all :
    (blocks : List Bytes) (i : ℕ) (s : FileStore)
    → IsStore blocks s
    → IsIndexed blocks s
    → read_place (get_elem? s.block_index i) s ≡ or_range (get_elem? blocks i)
read_place_all blocks i s v x =
    ap (λ index. read_place (get_elem? index i) s) x.indexed
    ∙ read_place_lem blocks (encode_header (new_header (length blocks))) 24 i s v.opened v.written
        (sym (length-header (new_header (length blocks))))
        (omega (arith, v.sized, v.bounded, v.small))

pub with_index_built :
    {A : Type 0} (next : FileStore → Option (Roe A × FileStore)) (s t : FileStore)
    → ensure_block_index s ≡ some (done, t)
    → with_index next s ≡ next t
with_index_built next s t e = rw (e, with_index) refl

-- The place is read behind the index.
read_block_found :
    (i : ℕ) (s t : FileStore)
    → ensure_block_index s ≡ some (done, t)
    → read_block i s ≡ some (read_place (get_elem? t.block_index i) t, t)
unfolding read_block
read_block_found i s t e =
    with_index_built _ s t e
    ∙ elim (Option-cases (get_elem? t.block_index i)) [ inl n ↦ simp n | inr (entry, n) ↦ simp n ]

-- A store with these blocks, its index there or not: the block with this number is read, or the error
-- says that there is none. The call returns, and leaves a store with the blocks and their index.
pub read_block_lem :
    (blocks : List Bytes) (i : ℕ) (s : FileStore)
    → IsStore blocks s
    → IsReadable blocks s
    → (t : FileStore) × (read_block i s ≡ some (or_range (get_elem? blocks i), t))
      × IsStore blocks t
      × IsIndexed blocks t
read_block_lem blocks i s v r =
    let (t, e, w, x) = ensure_block_index_lem blocks s v r in
    (t, read_block_found i s t e ∙ ap (λ r. some (r, t)) (read_place_all blocks i t w x), w, x)

ready :
    (block : Bytes) (s : FileStore)
    → ensure_block_index (after_write block s) ≡ some (done, after_write block s)
unfolding ensure_block_index
ready block s = refl

-- A store that has mounted a file with blocks and has not built its index, and a block that fits: after
-- the block is written, block 0 is the one that was written, whatever the first block of the file is.
pub write_forgets :
    (blocks : List Bytes) (block : Bytes) (s : FileStore)
    → IsStore blocks s
    → s.index_built ≡ false
    → s.block_index ≡ []
    → s.current_size + (8 + length block) ≤ s.max_size
    → read_block 0 (write block s).1 ≡ some (ok block, (write block s).1)
write_forgets blocks block s v unbuilt empty fits =
    let t = after_write block s in
    let head : ℕ → Bytes = λ n. encode_header (new_header n) in
    let front = head (suc s.block_count) ++ frames blocks in
    let last = frame block ++ [] in
    let written : t.file ≡ front ++ last =
      ap (λ x. write_at 8 (le_bytes 8 (suc s.block_count)) (x ++ frame block)) v.written
      ∙ ap (write_at 8 (le_bytes 8 (suc s.block_count)))
          (append_assoc (head (length blocks)) (frames blocks) (frame block))
      ∙ write_at-header (length blocks) (suc s.block_count) (frames blocks ++ frame block)
      ∙ sym (append_assoc (head (suc s.block_count)) (frames blocks) (frame block))
      ∙ ap (λ x. front ++ x) (sym (append-nil (frame block))) in
    let here : length s.file ≡ length front = omega (
      arith,
      ap length v.written,
      length-append (head (length blocks)) (frames blocks),
      length-append (head (suc s.block_count)) (frames blocks),
      length-header (new_header (length blocks)),
      length-header (new_header (suc s.block_count)),
    ) in
    let one : t.block_index ≡ index_of (length s.file) (block ∷ []) =
      ap (λ index. index ++ (record { offset = pos (length s.file); size = length block } ∷ []))
        empty in
    let found : read_place (get_elem? t.block_index 0) t ≡ ok block =
      ap (λ index. read_place (get_elem? index 0) t) one
      ∙ read_entry_lem front block [] (length s.file) t v.opened written here
          (omega (arith, v.sized, v.bounded, v.small, fits)) in
    ap (λ (p : Roe ℕ × FileStore). read_block 0 p.1) (write_eq blocks block s v fits)
    ∙ read_block_found 0 t t (ready block s)
    ∙ ap (λ r. some (r, t)) found
    ∙ ap (λ (p : Roe ℕ × FileStore). some (ok block, p.1)) (sym (write_eq blocks block s v fits))
