-- ===== src/Ledger/FileStore/Mount.antt =====
-- Making a file, and closing it and mounting it again.
use pp_ledger.Base.{
  ℕ, suc, ◌^◌, ◌≤◌, ◌<◌, ◌≡◌, refl, ap, ◌∙◌, ◌≢◌, true, false, List, [], ◌∷◌, ◌++◌, none, some,
  length, length-append, arith, pos, inl, ltb, ◌==◌,
}
use pp_ledger.Base.Roe.{Done, ok, err, done}
use pp_ledger.Pack.Bytes.{Bytes}
use pp_ledger.Ledger.FileStore.Bytes.{
  le_bytes, read_at, write_at, read_at-append, le_value-le_bytes,
}
use pp_ledger.Ledger.FileStore.Defs.{
  FileStore, new_header, encode_header, decode_header, init, mount, close, blank, accept_header,
  read_header, write_header, e_open, open_existing, create_file, fail_stream, write_new,
  read_mounted, min_max_size,
}
use pp_ledger.Ledger.FileStore.Blocks.{frames, IsStore, IsIndexed, IsReadable, frames_bound}
use pp_ledger.Ledger.FileStore.Writing.{write_at-header}

decode_header-encode_header :
    (n : ℕ) → n < 2 ^ 64 → decode_header (encode_header (new_header n)) ≡ new_header n
unfolding decode_header encode_header
decode_header-encode_header n h = ap new_header (le_value-le_bytes 8 n (omega (arith, h)))

read_header_bytes :
    (n : ℕ) (rest : Bytes)
    → read_at (pos 0) 24 (encode_header (new_header n) ++ rest)
      ≡ some (encode_header (new_header n))
unfolding encode_header
read_header_bytes n rest = read_at-append [] (encode_header (new_header n)) rest 0 refl

read_header_accepts :
    (s : FileStore) (bs : Bytes)
    → s.is_open ≡ true
    → read_at (pos 0) 24 s.file ≡ some bs
    → read_header s ≡ accept_header (decode_header bs) s
unfolding read_header
read_header_accepts s bs opened got = simp (opened, got)

read_header_lem :
    (n : ℕ) (rest : Bytes) (s : FileStore)
    → n < 2 ^ 64
    → s.is_open ≡ true
    → s.file ≡ encode_header (new_header n) ++ rest
    → read_header s ≡ (done, record s { header = new_header n; header_valid = true })
read_header_lem n rest s few opened e =
    let got : read_at (pos 0) 24 s.file ≡ some (encode_header (new_header n)) =
      ap (read_at (pos 0) 24) e ∙ read_header_bytes n rest in
    read_header_accepts s _ opened got
    ∙ ap (λ h. accept_header h s) (decode_header-encode_header n few)

closed_file :
    (blocks : List Bytes) (s : FileStore)
    → IsStore blocks s
    → s.block_count ≡ length blocks
    → (close s).file ≡ encode_header (new_header (length blocks)) ++ frames blocks
unfolding close
closed_file blocks s v counted =
    let opened = v.opened in
    let file : write_at 8 (le_bytes 8 s.block_count) s.file
        ≡ encode_header (new_header (length blocks)) ++ frames blocks =
      ap (λ x. write_at 8 (le_bytes 8 s.block_count) x) v.written
      ∙ write_at-header (length blocks) s.block_count (frames blocks)
      ∙ ap (λ n. encode_header (new_header n) ++ frames blocks) counted in
    simp (opened, file)

-- With no file in the stream, open() gets the file.
open_existing_closed :
    (file : Bytes) (s : FileStore)
    → s.is_open ≡ false
    → s.is_failed ≡ false
    → open_existing file s ≡ record s { file = file; is_open = true }
unfolding open_existing
open_existing_closed file s closed sound = simp (closed, sound)

create_file_closed :
    (s : FileStore)
    → s.is_open ≡ false
    → s.is_failed ≡ false
    → create_file s ≡ (done, record s { file = []; is_open = true })
unfolding create_file
create_file_closed s closed sound = simp (closed, sound)

read_mounted_lem :
    (s u : FileStore)
    → read_header s ≡ (done, u)
    → read_mounted s
      ≡ (done, record u { current_size = length u.file; block_count = u.header.count })
unfolding read_mounted
read_mounted_lem s u e =
    ap
      (λ (p : Done × FileStore). elim p.0 [
        | err e ↦ (err e, p.1)
        | ok _ ↦
            (done, record p.1 { current_size = length p.1.file; block_count = p.1.header.count })
      ])
      e

-- A store that holds a file and mounts another one fails, and can then neither read nor write.
mount_held :
    (path : Bytes) (max_size : ℕ) (file : Bytes) (s : FileStore)
    → min_max_size ≤ max_size
    → path ≢ []
    → s.is_open ≡ true
    → mount path max_size (some file) s ≡ (err e_open, fail_stream (blank max_size s))
unfolding mount open_existing read_mounted read_header
mount_held [] max_size file s big named opened = elim (named refl) [ ]
mount_held (c ∷ path) max_size file s big named opened =
    let big_enough : ltb max_size min_max_size ≡ false = ground (arith, big) in
    let there : (suc (length path) == 0) ≡ false = ground arith in simp (big_enough, there, opened)

-- A path and a size that are valid, and a path that names no file: the new store has no blocks.
init_lem :
    (path : Bytes) (max_size : ℕ) (s : FileStore)
    → min_max_size ≤ max_size
    → max_size < 2 ^ 62
    → path ≢ []
    → s.is_open ≡ false
    → s.is_failed ≡ false
    → (t : FileStore) × (init path max_size none s ≡ (done, t)) × IsStore [] t × IsIndexed [] t
unfolding init write_new write_header
init_lem [] max_size s big small named closed sound = elim (named refl) [ ]
init_lem (c ∷ path) max_size s big small named closed sound =
    let big_enough : ltb max_size min_max_size ≡ false = ground (arith, big) in
    let there : (suc (length path) == 0) ≡ false = ground arith in
    let t = record s {
      file = encode_header (new_header 0);
      is_open = true;
      max_size = max_size;
      current_size = 24;
      header = new_header 0;
      header_valid = true;
      block_count = 0;
      block_index = [];
      index_built = false;
    } in
    (
      t,
      simp (big_enough, there) (ap write_new (create_file_closed (blank max_size s) closed sound)),
      record {
        opened = refl;
        valid = refl;
        known = refl;
        written = refl;
        sized = refl;
        bounded = omega (arith, big);
        small = small;
      },
      record { indexed = refl; counted = refl },
    )

-- A file with blocks that is within the limit: the store that mounts it has the blocks, and no index yet.
mount_lem :
    (path : Bytes) (max_size : ℕ) (blocks : List Bytes) (file : Bytes) (s : FileStore)
    → min_max_size ≤ max_size
    → max_size < 2 ^ 62
    → path ≢ []
    → s.is_open ≡ false
    → s.is_failed ≡ false
    → file ≡ encode_header (new_header (length blocks)) ++ frames blocks
    → length file ≤ max_size
    → (t : FileStore) × (mount path max_size (some file) s ≡ (done, t))
      × IsStore blocks t
      × (t.block_count ≡ length blocks)
      × (t.index_built ≡ false)
      × (t.block_index ≡ [])
unfolding mount
mount_lem [] max_size blocks file s big small named closed sound e fits = elim (named refl) [ ]
mount_lem (c ∷ path) max_size blocks file s big small named closed sound e fits =
    let big_enough : ltb max_size min_max_size ≡ false = ground (arith, big) in
    let there : (suc (length path) == 0) ≡ false = ground arith in
    let n = length blocks in
    let few : n < 2 ^ 64 = omega (
      arith,
      small,
      fits,
      ap length e,
      length-append (encode_header (new_header n)) (frames blocks),
      frames_bound blocks,
    ) in
    let u = record (blank max_size s) { file = file; is_open = true } in
    let header = read_header_lem n (frames blocks) u few refl e in
    let t = record s {
      file = file;
      is_open = true;
      max_size = max_size;
      current_size = length file;
      header = new_header n;
      header_valid = true;
      block_count = n;
      block_index = [];
      index_built = false;
    } in
    (
      t,
      simp (big_enough, there)
          (ap read_mounted (open_existing_closed file (blank max_size s) closed sound)
            ∙ read_mounted_lem u _ header),
      record {
        opened = refl;
        valid = refl;
        known = refl;
        written = e;
        sized = refl;
        bounded = fits;
        small = small;
      },
      refl,
      refl,
      refl,
    )

-- A store that has these blocks and counts them, closed, and its file mounted again under a path that is
-- not empty, by a store whose stream holds no file, with a limit from 1 MB to 2 ^ 62 that is not below the
-- old one: the mount succeeds, and the blocks are there.
pub mount-close :
    (path : Bytes) (max_size : ℕ) (blocks : List Bytes) (s fresh : FileStore)
    → min_max_size ≤ max_size
    → max_size < 2 ^ 62
    → path ≢ []
    → fresh.is_open ≡ false
    → fresh.is_failed ≡ false
    → IsStore blocks s
    → s.block_count ≡ length blocks
    → s.max_size ≤ max_size
    → (t : FileStore) × (mount path max_size (some (close s).file) fresh ≡ (done, t))
      × IsStore blocks t
      × IsReadable blocks t
unfolding close
mount-close path max_size blocks s fresh big small named closed sound v counted le =
    let file : (close s).file ≡ encode_header (new_header (length blocks)) ++ frames blocks =
      closed_file blocks s v counted in
    let long : length (close s).file ≤ max_size =
      omega (arith, le, v.bounded, v.sized, ap length file, ap length v.written) in
    let (t, e, w, n, unbuilt, empty) =
      mount_lem path max_size blocks (close s).file fresh big small named closed sound file long in
    (t, e, w, inl unbuilt)
