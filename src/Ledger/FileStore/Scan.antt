-- ===== src/Ledger/FileStore/Scan.antt =====
-- The loop of buildBlockIndex.
use pp_ledger.Base.{
  ℕ, zero, suc, ◌+◌, ◌^◌, ◌≤◌, ◌<◌, ◌≡◌, refl, sym, ap, subst, ◌∙◌, true, false, List, [], ◌∷◌,
  ◌++◌, none, some, length, length-append, arith, Bool-cases, pos, ltb_ℤ, leb_ℤ, ◌+ℤ◌, inl, inr,
}
use pp_ledger.Base.Word.{to_i64, add_u64, add_i64, add_i64_exact, add_u64_exact, to_i64_small}
use pp_ledger.Base.Roe.{done}
use pp_ledger.Pack.Bytes.{Bytes}
use pp_ledger.Ledger.FileStore.Bytes.{
  le_bytes, le_value, read_at, length-le_bytes, le_value-le_bytes, read_at-append,
}
use pp_ledger.Ledger.FileStore.Defs.{
  FileStore, FileHeader, scan, build_block_index, ensure_block_index, has_valid_header,
  encode_header, new_header,
}
use pp_ledger.Ledger.FileStore.Blocks.{
  frame, frames, index_of, IsStore, IsIndexed, IsReadable, IsTorn, short, cut, length-frame,
  length-header, frames_bound, IsStore-has_valid_header,
}
use mathlib.Core.List.{append_assoc, append-nil}

pub add_i64_pos : (a b : ℕ) → a + b < 2 ^ 63 → add_i64 (pos a) (pos b) ≡ pos (a + b)
unfolding ◌+ℤ◌
add_i64_pos a b h = ground (arith, add_i64_exact (pos a) (pos b))

step_over :
    (offset size : ℕ)
    → offset + (8 + size) < 2 ^ 63
    → add_i64 (pos offset) (to_i64 (add_u64 8 size)) ≡ pos (offset + (8 + size))
step_over offset size h =
    rw (add_u64_exact 8 size (omega (arith, h)))
      (rw (to_i64_small (8 + size) (omega (arith, h))) (add_i64_pos offset (8 + size) h))

-- What a round that finds a block of `size` bytes leaves to the next.
abbrev Continues : ℕ → ℕ → ℕ → Bytes → ℕ → Type 0
Continues rounds offset file_end file size =
    scan (suc rounds) (pos offset) (pos file_end) file
    ≡ elim (scan rounds (pos (offset + (8 + size))) (pos file_end) file) [
      | none ↦ none
      | some entries ↦ some (record { offset = pos offset; size = size } ∷ entries)
    ]

scan-Continues :
    (rounds offset file_end : ℕ) (file bs : Bytes)
    → offset + (8 + le_value bs) ≤ file_end
    → file_end < 2 ^ 63
    → read_at (pos offset) 8 file ≡ some bs
    → Continues rounds offset file_end file (le_value bs)
unfolding scan
scan-Continues rounds offset file_end file bs le small got =
    let at : add_i64 (pos offset) (pos 8) ≡ pos (offset + 8) =
      add_i64_pos offset 8 (omega (arith, le, small)) in
    let over = step_over offset (le_value bs) (omega (arith, le, small)) in
    let inside : leb_ℤ (pos (offset + 8)) (pos file_end) ≡ true = ground (arith, le) in
    let not_past : ltb_ℤ (pos file_end) (pos (offset + (8 + le_value bs))) ≡ false =
      ground (arith, le) in
    rw (at, scan) (rw inside (rw got (rw over (rw not_past refl))))

scan-next :
    (rounds offset size file_end : ℕ) (file : Bytes)
    → offset + (8 + size) ≤ file_end
    → file_end < 2 ^ 63
    → read_at (pos offset) 8 file ≡ some (le_bytes 8 size)
    → Continues rounds offset file_end file size
scan-next rounds offset size file_end file le small got =
    let value = le_value-le_bytes 8 size (omega (arith, le, small)) in
    subst (λ (z : ℕ). Continues rounds offset file_end file z) value
      (scan-Continues rounds offset file_end file (le_bytes 8 size) (omega (arith, le, value)) small
        got)

scan-short :
    (rounds offset file_end : ℕ) (file : Bytes)
    → file_end < offset + 8
    → offset + 8 < 2 ^ 63
    → scan (suc rounds) (pos offset) (pos file_end) file ≡ some []
unfolding scan
scan-short rounds offset file_end file lt small =
    let at : add_i64 (pos offset) (pos 8) ≡ pos (offset + 8) = add_i64_pos offset 8 small in
    let past : leb_ℤ (pos (offset + 8)) (pos file_end) ≡ false = ground (arith, lt) in
    rw (at, scan) (rw past refl)

scan-cut :
    (rounds offset size file_end : ℕ) (file : Bytes)
    → file_end < offset + (8 + size)
    → offset + (8 + size) < 2 ^ 63
    → read_at (pos offset) 8 file ≡ some (le_bytes 8 size)
    → scan (suc rounds) (pos offset) (pos file_end) file ≡ some []
unfolding scan
scan-cut rounds offset size file_end file lt small got =
    let at : add_i64 (pos offset) (pos 8) ≡ pos (offset + 8) =
      add_i64_pos offset 8 (omega (arith, small)) in
    let over = step_over offset size small in
    let value = le_value-le_bytes 8 size (omega (arith, small)) in
    let past : ltb_ℤ (pos file_end) (pos (offset + (8 + size))) ≡ true = ground (arith, lt) in
    elim (Bool-cases (leb_ℤ (pos (offset + 8)) (pos file_end))) [
      | inl inside ↦ rw (at, scan) (rw inside (rw got (rw value (rw over (rw past refl)))))
      | inr outside ↦ rw (at, scan) (rw outside refl)
    ]

-- The size in front of what is there of a block
read_cut :
    (front block part file : Bytes) (offset : ℕ)
    → file ≡ front ++ (le_bytes 8 (length block) ++ part)
    → offset ≡ length front
    → read_at (pos offset) 8 file ≡ some (le_bytes 8 (length block))
read_cut front block part file offset e at =
    let size = le_bytes 8 (length block) in
    rw e (
      ap (λ n. read_at (pos offset) n (front ++ (size ++ part)))
        (sym (length-le_bytes 8 (length block)))
      ∙ read_at-append front size part offset at)

read_size :
    (front block rest file : Bytes) (offset : ℕ)
    → file ≡ front ++ (frame block ++ rest)
    → offset ≡ length front
    → read_at (pos offset) 8 file ≡ some (le_bytes 8 (length block))
read_size front block rest file offset e at =
    read_cut front block (block ++ rest) file offset
      (e ∙ ap (λ x. front ++ x) (append_assoc (le_bytes 8 (length block)) block rest)) at

-- The file from an offset on holds whole blocks and then at most a torn one.
pub scan_lem :
    (blocks : List Bytes) (front tail file : Bytes) (rounds offset : ℕ)
    → file ≡ front ++ (frames blocks ++ tail)
    → offset ≡ length front
    → IsTorn tail
    → length file < 2 ^ 62
    → length blocks < rounds
    → scan rounds (pos offset) (pos (length file)) file ≡ some (index_of offset blocks)
scan_lem [] front tail file zero offset e at torn small lt = elim lt [ ]
scan_lem [] front tail file (suc rounds) offset e at torn small lt =
    let long : length file ≡ offset + length tail =
      omega (arith, ap length e, length-append front tail, at) in
    elim torn [
      | short p ↦
          scan-short rounds offset (length file) file (omega (arith, p)) (omega (arith, small))
      | cut block part split p bound ↦
          let whole = length-le_bytes 8 (length block) in
          let cut_length = length-append (le_bytes 8 (length block)) part in
          scan-cut rounds offset (length block) (length file) file (omega (arith, ap length split))
            (omega (arith, small))
            (read_cut front block part file offset (e ∙ ap (λ x. front ++ x) split) at)
    ]
scan_lem (b ∷ bs) front tail file zero offset e at torn small lt = elim lt [ ]
scan_lem (b ∷ bs) front tail file (suc rounds) offset e at torn small lt =
    let next = offset + (8 + length b) in
    let whole = length-le_bytes 8 (length b) in
    let split : file ≡ (front ++ frame b) ++ (frames bs ++ tail) =
      e
      ∙ ap (λ x. front ++ x) (append_assoc (frame b) (frames bs) tail)
      ∙ sym (append_assoc front (frame b) (frames bs ++ tail)) in
    let front_length : next ≡ length (front ++ frame b) =
      omega (arith, at, length-append front (frame b), length-frame b) in
    let long : length file ≡ next + length (frames bs ++ tail) =
      omega (arith, ap length split, length-append (front ++ frame b) (frames bs ++ tail)) in
    rw
      (scan-next rounds offset (length b) (length file) file (omega arith) (omega (arith, small)) (
        read_size front b (frames bs ++ tail) file offset
          (e ∙ ap (λ x. front ++ x) (append_assoc (frame b) (frames bs) tail)) at))
      (rw
        (scan_lem bs (front ++ frame b) tail file rounds next split front_length torn small
          (omega (arith, lt)))
        refl)

-- A store with the index of these blocks
abbrev pub with_index_of : List Bytes → FileStore → FileStore
with_index_of blocks s = record s {
  block_index = index_of 24 blocks;
  index_built = true;
  block_count = length (index_of 24 blocks);
}

-- An open store whose file, below 2 ^ 62 bytes and measured rightly, has a valid header, whole blocks, and
-- what a broken-off write left: the scan ends, the index names and counts the whole blocks, and the
-- rest is not seen.
pub build_block_index_torn :
    (blocks : List Bytes) (tail : Bytes) (h : FileHeader) (s : FileStore)
    → s.is_open ≡ true
    → has_valid_header s ≡ true
    → s.file ≡ encode_header h ++ (frames blocks ++ tail)
    → s.current_size ≡ length s.file
    → length s.file < 2 ^ 62
    → IsTorn tail
    → build_block_index s ≡ some (done, with_index_of blocks s)
unfolding build_block_index
build_block_index_torn blocks tail h s opened valid written sized small torn =
    let l1 = length-append (encode_header h) (frames blocks ++ tail) in
    let l2 = length-append (frames blocks) tail in
    let enough : length blocks < suc s.current_size =
      omega (arith, sized, ap length written, l1, l2, frames_bound blocks, length-header h) in
    let found =
      subst
        (λ (z : ℕ). scan (suc s.current_size) (pos 24) (pos z) s.file ≡ some (index_of 24 blocks))
        (sym sized)
        (scan_lem blocks (encode_header h) tail s.file (suc s.current_size) 24 written
          (sym (length-header h)) torn small enough) in
    simp (opened, valid, found)

pub length-index_of :
    (offset : ℕ) (blocks : List Bytes) → length (index_of offset blocks) ≡ length blocks
length-index_of offset [] = refl
length-index_of offset (b ∷ bs) = omega (arith, length-index_of (offset + (8 + length b)) bs)

-- An open store with its blocks, whose index is there or not: the index is built, and names and
-- counts the blocks. The scan ends.
pub ensure_block_index_lem :
    (blocks : List Bytes) (s : FileStore)
    → IsStore blocks s
    → IsReadable blocks s
    → (t : FileStore) × (ensure_block_index s ≡ some (done, t))
      × IsStore blocks t
      × IsIndexed blocks t
unfolding ensure_block_index
ensure_block_index_lem blocks s v r =
    let t = with_index_of blocks s in
    let stands : IsStore blocks t = record {
      opened = v.opened;
      valid = v.valid;
      known = v.known;
      written = v.written;
      sized = v.sized;
      bounded = v.bounded;
      small = v.small;
    } in
    let indexed : IsIndexed blocks t = record {
      indexed = refl;
      counted = length-index_of 24 blocks;
    } in
    let scanned =
      build_block_index_torn blocks [] (new_header (length blocks)) s v.opened
        (IsStore-has_valid_header blocks s v)
        (v.written
          ∙ ap (λ x. encode_header (new_header (length blocks)) ++ x)
              (sym (append-nil (frames blocks))))
        v.sized (omega (arith, v.sized, v.bounded, v.small)) (short (omega arith)) in
    elim r [
      | inl unbuilt ↦ (t, simp (unbuilt, scanned), stands, indexed)
      | inr i ↦ elim (Bool-cases s.index_built) [
        | inl built ↦ (s, simp built, v, i)
        | inr unbuilt ↦ (t, simp (unbuilt, scanned), stands, indexed)
      ]
    ]
