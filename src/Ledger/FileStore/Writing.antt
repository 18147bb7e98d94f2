-- ===== src/Ledger/FileStore/Writing.antt =====
-- Writing a block, and what closing the store and mounting its file again keep.
use pp_ledger.Base.{
  ℕ, suc, ◌+◌, ◌^◌, ◌≤◌, ◌<◌, ◌≡◌, refl, sym, ap, ◌∙◌, true, false, List, [], ◌∷◌, ◌++◌, length,
  length-append, arith, pos,
}
use pp_ledger.Base.Word.{add_u64}
use pp_ledger.Base.Roe.{ok, err}
use pp_ledger.Pack.Bytes.{Bytes}
use pp_ledger.Ledger.FileStore.Bytes.{le_bytes, write_at}
use pp_ledger.Ledger.FileStore.Defs.{
  FileStore, new_header, encode_header, write, append_block, update_header_block_count, can_fit,
  e_fit,
}
use pp_ledger.Ledger.FileStore.Blocks.{
  frame, frames, index_of, IsStore, IsIndexed, length-frame, length-header, frames-append,
  index_of-append, IsStore-has_valid_header,
}
use mathlib.Core.List.{append_assoc}

-- The number of blocks in the header is replaced.
pub write_at-header :
    (m n : ℕ) (rest : Bytes)
    → write_at 8 (le_bytes 8 n) (encode_header (new_header m) ++ rest)
      ≡ encode_header (new_header n) ++ rest
unfolding write_at encode_header le_bytes
write_at-header m n rest = refl

-- The store after a write that goes through
abbrev pub after_write : Bytes → FileStore → FileStore
after_write block s = record s {
  file = write_at 8 (le_bytes 8 (suc s.block_count)) (s.file ++ frame block);
  block_index =
      s.block_index ++ (record { offset = pos (length s.file); size = length block } ∷ []);
  index_built = true;
  block_count = suc s.block_count;
  current_size = s.current_size + (8 + length block);
  header = record s.header { count = suc s.block_count };
}

pub write_eq :
    (blocks : List Bytes) (block : Bytes) (s : FileStore)
    → IsStore blocks s
    → s.current_size + (8 + length block) ≤ s.max_size
    → write block s ≡ (ok s.block_count, after_write block s)
unfolding write update_header_block_count
write_eq blocks block s v fits =
    let opened = v.opened in
    let valid = IsStore-has_valid_header blocks s v in
    let fit : can_fit (length block) s ≡ true =
      unfold can_fit add_u64 in ground (arith, fits, v.small) in
    simp (opened, valid, fit)

-- It holds the block behind the others when it counted them.
pub after_write-IsStore :
    (blocks : List Bytes) (block : Bytes) (s : FileStore)
    → IsStore blocks s
    → s.current_size + (8 + length block) ≤ s.max_size
    → s.block_count ≡ length blocks
    → IsStore (blocks ++ (block ∷ [])) (after_write block s)
after_write-IsStore blocks block s v fits counted =
    let more = blocks ++ (block ∷ []) in
    let one : suc s.block_count ≡ length more =
      omega (arith, counted, length-append blocks (block ∷ [])) in
    let head = encode_header (new_header (length blocks)) in
    let joined : s.file ++ frame block ≡ head ++ frames more =
      ap (λ x. x ++ frame block) v.written
      ∙ append_assoc head (frames blocks) (frame block)
      ∙ ap (λ x. head ++ x) (sym (frames-append blocks block)) in
    let written : (after_write block s).file
        ≡ encode_header (new_header (length more)) ++ frames more =
      ap (λ x. write_at 8 (le_bytes 8 (suc s.block_count)) x) joined
      ∙ write_at-header (length blocks) (suc s.block_count) (frames more)
      ∙ ap (λ n. encode_header (new_header n) ++ frames more) one in
    let long : (after_write block s).current_size ≡ length (after_write block s).file = omega (
      arith,
      v.sized,
      ap length v.written,
      ap length written,
      length-append head (frames blocks),
      length-header (new_header (length blocks)),
      length-append (encode_header (new_header (length more))) (frames more),
      length-header (new_header (length more)),
      ap length (frames-append blocks block),
      length-append (frames blocks) (frame block),
      length-frame block,
    ) in
    record {
      opened = v.opened;
      valid = v.valid;
      known = v.known;
      written = written;
      sized = long;
      bounded = fits;
      small = v.small;
    }

-- A store with these blocks and their index, and a block that fits: the block gets the next number,
-- and the store has it behind the others, the index included.
pub append_block_lem :
    (blocks : List Bytes) (block : Bytes) (s : FileStore)
    → IsStore blocks s
    → IsIndexed blocks s
    → s.current_size + (8 + length block) ≤ s.max_size
    → (t : FileStore) × (append_block block s ≡ (ok (length blocks), t))
      × IsStore (blocks ++ (block ∷ [])) t
      × IsIndexed (blocks ++ (block ∷ [])) t
append_block_lem blocks block s v i fits =
    let head = encode_header (new_header (length blocks)) in
    let here : length s.file ≡ 24 + length (frames blocks) = omega (
      arith,
      ap length v.written,
      length-append head (frames blocks),
      length-header (new_header (length blocks)),
    ) in
    (
      after_write block s,
      write_eq blocks block s v fits ∙ ap (λ n. (ok n, after_write block s)) i.counted,
      after_write-IsStore blocks block s v fits i.counted,
      record {
        indexed =
            ap (λ x. x ++ (record { offset = pos (length s.file); size = length block } ∷ []))
              i.indexed
            ∙ ap (λ n. index_of 24 blocks ++ (record { offset = pos n; size = length block } ∷ []))
                here
            ∙ sym (index_of-append 24 blocks block);
        counted = omega (arith, i.counted, length-append blocks (block ∷ []));
      },
    )

-- A block that does not fit changes nothing.
pub append_block_full :
    (blocks : List Bytes) (block : Bytes) (s : FileStore)
    → IsStore blocks s
    → length block < 2 ^ 63
    → s.max_size < s.current_size + (8 + length block)
    → append_block block s ≡ (err e_fit, s)
unfolding write
append_block_full blocks block s v small full =
    let opened = v.opened in
    let valid = IsStore-has_valid_header blocks s v in
    let fit : can_fit (length block) s ≡ false =
      unfold can_fit add_u64 in ground (arith, full, v.small, v.bounded) in
    simp (opened, valid, fit)
