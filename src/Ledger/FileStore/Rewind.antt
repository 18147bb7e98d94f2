-- ===== src/Ledger/FileStore/Rewind.antt =====
-- Cutting blocks off.
use pp_ledger.Base.{
  ℕ, zero, suc, ◌+◌, ◌≤◌, ◌<◌, ◌≡◌, refl, sym, ap, subst, ◌∙◌, true, false, List, [], ◌∷◌, ◌++◌,
  some, length, length-append, length-take, arith, pos, pos_part, inl, inr, get_elem?, take,
  if◌then◌else◌, Bool-cases, dec_lt, lt→ltb, ltb,
}
use pp_ledger.Base.Roe.{err, done}
use pp_ledger.Pack.Bytes.{Bytes}
use pp_ledger.Ledger.FileStore.Bytes.{le_bytes, write_at, take-past}
use pp_ledger.Ledger.FileStore.Defs.{
  BlockEntry, FileStore, new_header, encode_header, write_header, update_header_block_count,
  rewind_to, cut_at, e_range,
}
use pp_ledger.Ledger.FileStore.Blocks.{
  frame, frames, index_of, IsStore, IsIndexed, IsReadable, length-frame, length-header,
}
use pp_ledger.Ledger.FileStore.Scan.{ensure_block_index_lem}
use pp_ledger.Ledger.FileStore.Writing.{write_at-header}
use pp_ledger.Ledger.FileStore.Reading.{with_index_built}
use Prim.{yes, no}

take_header :
    (n : ℕ) (rest : Bytes)
    → take 24 (encode_header (new_header n) ++ rest) ≡ encode_header (new_header n)
unfolding encode_header
take_header n rest = refl

frames-take :
    (blocks : List Bytes) (i : ℕ) → length (frames (take i blocks)) ≤ length (frames blocks)
frames-take blocks zero = omega arith
frames-take [] (suc i) = omega arith
frames-take (b ∷ bs) (suc i) = omega (
  arith,
  frames-take bs i,
  length-append (frame b) (frames bs),
  length-append (frame b) (frames (take i bs)),
)

-- The entry of a block says where the blocks before it end.
index_of-get_elem? :
    (blocks : List Bytes) (offset i : ℕ)
    → i < length blocks
    → (size : ℕ) × (get_elem? (index_of offset blocks) i
        ≡ some (record { offset = pos (offset + length (frames (take i blocks))); size = size }))
index_of-get_elem? [] offset i lt = elim lt [ ]
index_of-get_elem? (b ∷ bs) offset zero lt =
    (length b, ap (λ n. some (record { offset = pos n; size = length b })) (omega arith))
index_of-get_elem? (b ∷ bs) offset (suc i) lt =
    let (size, e) = index_of-get_elem? bs (offset + (8 + length b)) i (omega (arith, lt)) in
    let same : (offset + (8 + length b)) + length (frames (take i bs))
        ≡ offset + length (frame b ++ frames (take i bs)) =
      omega (arith, length-append (frame b) (frames (take i bs)), length-frame b) in
    (size, e ∙ ap (λ n. some (record { offset = pos n; size = size })) same)

index_of-take :
    (blocks : List Bytes) (offset i : ℕ)
    → take i (index_of offset blocks) ≡ index_of offset (take i blocks)
index_of-take blocks offset zero = refl
index_of-take [] offset (suc i) = refl
index_of-take (b ∷ bs) offset (suc i) =
    ap (λ xs. record { offset = pos offset; size = length b } ∷ xs)
      (index_of-take bs (offset + (8 + length b)) i)

take-frames :
    (blocks : List Bytes) (i : ℕ)
    → take (length (frames (take i blocks))) (frames blocks) ≡ frames (take i blocks)
take-frames blocks zero = refl
take-frames [] (suc i) = refl
take-frames (b ∷ bs) (suc i) =
    ap (λ n. take n (frame b ++ frames bs)) (length-append (frame b) (frames (take i bs)))
    ∙ take-past (frame b) (frames bs) (length (frames (take i bs)))
    ∙ ap (λ x. frame b ++ x) (take-frames bs i)

abbrev cut_store : ℕ → BlockEntry → FileStore → FileStore
cut_store n entry s = record s {
  block_count = n;
  current_size = pos_part entry.offset;
  block_index = take n s.block_index;
  file = write_at 8 (le_bytes 8 n) (take (pos_part entry.offset) s.file);
  is_open = true;
  is_failed = false;
  header = record s.header { count = n };
}

cut_at_found :
    (i : ℕ) (s : FileStore) (entry : BlockEntry)
    → get_elem? s.block_index (suc i) ≡ some entry
    → cut_at (suc i) s ≡ some (done, cut_store (suc i) entry s)
unfolding cut_at update_header_block_count
cut_at_found i s entry found = rw (found, cut_at) refl

-- A store whose blocks are cut off behind the first `i`
rewind_after :
    (blocks : List Bytes) (i : ℕ) (s : FileStore)
    → IsStore blocks s
    → IsIndexed blocks s
    → i < length blocks
    → (t : FileStore) × (cut_at i s ≡ some (done, t))
      × IsStore (take i blocks) t
      × IsIndexed (take i blocks) t
unfolding cut_at write_header update_header_block_count
rewind_after blocks zero s v x lt =
    let head = encode_header (new_header (length blocks)) in
    let t = record s {
      current_size = 24;
      block_count = 0;
      block_index = [];
      file = encode_header (new_header 0);
      is_open = true;
      is_failed = false;
      header = new_header 0;
      header_valid = true;
    } in
    let kept : take 24 s.file ≡ head =
      ap (take 24) v.written ∙ take_header (length blocks) (frames blocks) in
    let long : 24 ≤ length s.file = omega (
      arith,
      ap length v.written,
      length-append head (frames blocks),
      length-header (new_header (length blocks)),
    ) in
    (
      t,
      rw kept refl,
      record {
        opened = refl;
        valid = refl;
        known = refl;
        written = refl;
        sized = refl;
        bounded = omega (arith, v.sized, v.bounded, long);
        small = v.small;
      },
      record { indexed = refl; counted = refl },
    )
rewind_after blocks (suc i) s v x lt =
    let (size, e) = index_of-get_elem? blocks 24 (suc i) lt in
    let n = suc i in
    let left = take n blocks in
    let at = 24 + length (frames left) in
    let found : get_elem? s.block_index n ≡ some (record { offset = pos at; size = size }) =
      ap (λ index. get_elem? index n) x.indexed ∙ e in
    let head = encode_header (new_header (length blocks)) in
    let kept : take at s.file ≡ head ++ frames left =
      ap (take at) v.written
      ∙ take-past head (frames blocks) (length (frames left))
      ∙ ap (λ x. head ++ x) (take-frames blocks n) in
    let t = record s {
      block_count = n;
      current_size = at;
      block_index = take n s.block_index;
      file = write_at 8 (le_bytes 8 n) (take at s.file);
      is_open = true;
      is_failed = false;
      header = record s.header { count = n };
    } in
    let count : n ≡ length left = omega (arith, lt, length-take n blocks) in
    let written : t.file ≡ encode_header (new_header (length left)) ++ frames left =
      ap (write_at 8 (le_bytes 8 n)) kept
      ∙ write_at-header (length blocks) n (frames left)
      ∙ ap (λ m. encode_header (new_header m) ++ frames left) count in
    let sized : at ≡ length t.file = omega (
      arith,
      ap length written,
      length-append (encode_header (new_header (length left))) (frames left),
      length-header (new_header (length left)),
    ) in
    let bounded : at ≤ s.max_size = omega (
      arith,
      v.sized,
      v.bounded,
      ap length v.written,
      length-append head (frames blocks),
      length-header (new_header (length blocks)),
      frames-take blocks n,
    ) in
    (
      t,
      cut_at_found i s _ found,
      record {
        opened = refl;
        valid = v.valid;
        known = v.known;
        written = written;
        sized = sized;
        bounded = bounded;
        small = v.small;
      },
      record { indexed = ap (take n) x.indexed ∙ index_of-take blocks 24 n; counted = count },
    )

not_ltb : (a b : ℕ) → b ≤ a → ltb a b ≡ false
not_ltb a b le = ground (arith, le)

take_all : (blocks : List Bytes) (n : ℕ) → length blocks ≤ n → take n blocks ≡ blocks
take_all [] zero le = refl
take_all [] (suc n) le = refl
take_all (b ∷ bs) zero le = elim le [ ]
take_all (b ∷ bs) (suc n) le = ap (λ xs. b ∷ xs) (take_all bs n (omega (arith, le)))

-- A store with these blocks, its index there or not: the first `index` blocks are left, or, with fewer
-- than that, the error says so and all are left. The call returns.
pub rewind_to_lem :
    (blocks : List Bytes) (index : ℕ) (s : FileStore)
    → IsStore blocks s
    → IsReadable blocks s
    → (t : FileStore) × (rewind_to index s
        ≡ some (if ltb (length blocks) index then err e_range else done, t))
      × IsStore (take index blocks) t
      × IsIndexed (take index blocks) t
unfolding rewind_to
rewind_to_lem blocks index s v r =
    let (t, e, w, x) = ensure_block_index_lem blocks s v r in
    let count = x.counted in
    elim (dec_lt index (length blocks)) [
      | yes lt ↦
          let (u, cut, w', x') = rewind_after blocks index t w x lt in
          let inside : ltb (length blocks) index ≡ false = not_ltb _ _ (omega (arith, lt)) in
          let less : ltb index (length blocks) ≡ true = lt→ltb _ _ lt in
          (u, with_index_built _ s t e ∙ simp (count, inside, less, cut), w', x')
      | no ge ↦
          let all = take_all blocks index (omega (arith, ge)) in
          let not_less : ltb index (length blocks) ≡ false = not_ltb _ _ (omega (arith, ge)) in
          (
            t,
            with_index_built _ s t e ∙ elim (Bool-cases (ltb (length blocks) index)) [
              | inl past ↦ simp (count, past)
              | inr in_range ↦ simp (count, in_range, not_less)
            ],
            subst (λ bs. IsStore bs t) (sym all) w,
            subst (λ bs. IsIndexed bs t) (sym all) x,
          )
    ]
