-- ===== src/Ledger/FileStore/Defs.antt =====
-- The state of a FileStore and its operations. The file that the stream holds is part of the state, and
-- a file that is open takes every write: the disk is not full and no device fails. `none` is a call
-- that does not return, or whose behaviour the language leaves undefined.
use pp_ledger.Base.{
  ℕ, zero, suc, ◌+◌, ◌*◌, Bool, true, false, not, ◌&&◌, ◌||◌, List, [], ◌∷◌, ◌++◌, Option, none,
  some, length, take, get_elem?, ltb, leb, ◌==◌, if◌then◌else◌, ℤ, pos, ltb_ℤ, leb_ℤ, pos_part,
}
use pp_ledger.Base.Word.{to_i64, add_u64, add_i64}
use pp_ledger.Base.Roe.{Roe, ok, err, Done, done}
use pp_ledger.Pack.Bytes.{Bytes}
use pp_ledger.Ledger.FileStore.Bytes.{le_bytes, le_value, drop, read_at, write_at}

abbrev pub file_magic : ℕ
file_magic = 0x504C4642

abbrev pub current_version : ℕ
current_version = 1

abbrev pub header_bytes : ℕ
header_bytes = 24

abbrev pub size_prefix_bytes : ℕ
size_prefix_bytes = 8

abbrev pub min_max_size : ℕ
min_max_size = 1024 * 1024

abbrev pub e_max_size : ℕ
e_max_size = 1

abbrev pub e_path : ℕ
e_path = 2

abbrev pub e_exists : ℕ
e_exists = 3

abbrev pub e_missing : ℕ
e_missing = 4

abbrev pub e_header : ℕ
e_header = 5

abbrev pub e_open : ℕ
e_open = 6

abbrev pub e_fit : ℕ
e_fit = 7

abbrev pub e_range : ℕ
e_range = 8

abbrev pub e_read : ℕ
e_read = 9

abbrev pub e_buffer : ℕ
e_buffer = 10

pub record FileHeader : Type 0 where
  pub magic : ℕ
  pub version : ℕ
  pub reserved : ℕ
  pub count : ℕ
  pub header_size : ℕ

pub record BlockEntry : Type 0 where
  pub offset : ℤ
  pub size : ℕ

-- `is_open` is isOpen(): the stream holds a file and is good. A stream that `is_failed` holds a file and
-- its failbit is set.
pub record FileStore : Type 0 where
  pub file : Bytes
  pub is_open : Bool
  pub is_failed : Bool
  pub max_size : ℕ
  pub current_size : ℕ
  pub header : FileHeader
  pub header_valid : Bool
  pub block_count : ℕ
  pub block_index : List BlockEntry
  pub index_built : Bool

-- The header of a new file, with its number of blocks
abbrev pub new_header : ℕ → FileHeader
new_header n = record {
  magic = file_magic;
  version = current_version;
  reserved = 0;
  count = n;
  header_size = header_bytes;
}

-- The bytes of a FileHeader, which has no padding
unfoldable pub encode_header : FileHeader → Bytes
unfolding le_bytes
encode_header h =
    le_bytes 4 h.magic
    ++ (le_bytes 2 h.version
        ++ (le_bytes 2 h.reserved ++ (le_bytes 8 h.count ++ le_bytes 8 h.header_size)))

unfoldable pub decode_header : Bytes → FileHeader
unfolding le_value
decode_header bs = record {
  magic = le_value (take 4 bs);
  version = le_value (take 2 (drop 4 bs));
  reserved = le_value (take 2 (drop 6 bs));
  count = le_value (take 8 (drop 8 bs));
  header_size = le_value (take 8 (drop 16 bs));
}

unfoldable pub has_valid_header : FileStore → Bool
has_valid_header s = s.header_valid && (s.header.magic == file_magic)

-- The sum wraps as a uint64_t.
unfoldable pub can_fit : ℕ → FileStore → Bool
can_fit size s = leb (add_u64 (add_u64 s.current_size size_prefix_bytes) size) s.max_size

unfoldable pub write_header : FileStore → Done × FileStore
unfolding encode_header write_at
write_header s =
    let h = new_header s.block_count in
    if s.is_open
    then (
      done,
      record s { header = h; file = write_at 0 (encode_header h) s.file; header_valid = true },
    )
    else (err e_open, s)

abbrev pub fail_stream : FileStore → FileStore
fail_stream s = record s { is_open = false; is_failed = true }

-- The checks of readHeader
abbrev pub accept_header : FileHeader → FileStore → Done × FileStore
accept_header h s =
    let t = record s { header = h } in
    if not (h.magic == file_magic)
    then (err e_header, t)
    else if ltb current_version h.version
    then (err e_header, t)
    else (done, record t { header_valid = true })

unfoldable pub read_header : FileStore → Done × FileStore
unfolding read_at decode_header
read_header s =
    if s.is_open
    then elim (read_at (pos 0) header_bytes s.file) [
      | none ↦ (err e_header, fail_stream s)
      | some bs ↦ accept_header (decode_header bs) s
    ]
    else (err e_open, s)

unfoldable pub update_header_block_count : FileStore → Done × FileStore
unfolding write_at
update_header_block_count s =
    if s.is_open
    then (
      done,
      record s {
        file = write_at 8 (le_bytes 8 s.block_count) s.file;
        header = record s.header { count = s.block_count };
      },
    )
    else (err e_open, s)

-- What init and mount set first
abbrev pub blank : ℕ → FileStore → FileStore
blank max_size s = record s {
  max_size = max_size;
  current_size = 0;
  header_valid = false;
  block_count = 0;
  block_index = [];
  index_built = false;
}

-- open() of a file that exists. A stream that holds a file keeps it and fails, without an error here.
unfoldable pub open_existing : Bytes → FileStore → FileStore
open_existing file s =
    if s.is_open || s.is_failed then fail_stream s else record s { file = file; is_open = true }

-- open() of a file that does not exist. A stream that holds a file does not create the new one: it closes
-- the old one, and then there is none to open.
unfoldable pub create_file : FileStore → Done × FileStore
create_file s =
    if s.is_open || s.is_failed
    then (err e_open, record s { is_open = false; is_failed = false })
    else (done, record s { file = []; is_open = true })

-- What init does with what open() leaves
unfoldable pub write_new : Done × FileStore → Done × FileStore
unfolding write_header
write_new (err e, s) = (err e, s)
write_new (ok _, s) =
    let (r, u) = write_header s in
    elim r [ err e ↦ (err e, u) | ok _ ↦ (done, record u { current_size = header_bytes }) ]

-- What mount does with the opened file
unfoldable pub read_mounted : FileStore → Done × FileStore
unfolding read_header
read_mounted s =
    let (r, u) = read_header s in
    elim r [
      | err e ↦ (err e, u)
      | ok _ ↦ (done, record u { current_size = length u.file; block_count = u.header.count })
    ]

-- `disk` is the file that the path names, where there is one.
unfoldable pub init : Bytes → ℕ → Option Bytes → FileStore → Done × FileStore
unfolding create_file write_new
init path max_size disk s =
    let t = blank max_size s in
    if ltb max_size min_max_size
    then (err e_max_size, t)
    else if length path == 0
    then (err e_path, t)
    else elim disk [ some _ ↦ (err e_exists, t) | none ↦ write_new (create_file t) ]

unfoldable pub mount : Bytes → ℕ → Option Bytes → FileStore → Done × FileStore
unfolding open_existing read_mounted
mount path max_size disk s =
    let t = blank max_size s in
    if ltb max_size min_max_size
    then (err e_max_size, t)
    else if length path == 0
    then (err e_path, t)
    else elim disk [ none ↦ (err e_missing, t) | some file ↦ read_mounted (open_existing file t) ]

unfoldable pub close : FileStore → FileStore
unfolding update_header_block_count
close s =
    if s.is_open
    then record (update_header_block_count s).1 { is_open = false }
    else record s { is_failed = false }

unfoldable pub write : Bytes → FileStore → Roe ℕ × FileStore
unfolding update_header_block_count has_valid_header can_fit
write block s =
    let size = length block in
    if not s.is_open
    then (err e_open, s)
    else if not (has_valid_header s)
    then (err e_header, s)
    else if not (can_fit size s)
    then (err e_fit, s)
    else let t = record s {
      file = s.file ++ (le_bytes 8 size ++ block);
      block_index = s.block_index ++ (record { offset = pos (length s.file); size = size } ∷ []);
      index_built = true;
      block_count = suc s.block_count;
      current_size = s.current_size + (size_prefix_bytes + size);
    } in
      (ok s.block_count, (update_header_block_count t).1)

abbrev pub append_block : Bytes → FileStore → Roe ℕ × FileStore
append_block = write

-- The loop of buildBlockIndex from an offset on, with a bound on its rounds.
unfoldable pub scan : ℕ → ℤ → ℤ → Bytes → Option (List BlockEntry)
unfolding add_i64 read_at le_value to_i64 add_u64
scan zero offset file_end file = none
scan (suc rounds) offset file_end file =
    if leb_ℤ (add_i64 offset (pos size_prefix_bytes)) file_end
    then elim (read_at offset size_prefix_bytes file) [
      | none ↦ some []
      | some bs ↦
          let size = le_value bs in
          let next = add_i64 offset (to_i64 (add_u64 size_prefix_bytes size)) in
          let rest = scan rounds next file_end file in
          if ltb_ℤ file_end next then some [] else elim rest [
            | none ↦ none
            | some entries ↦ some (record { offset = offset; size = size } ∷ entries)
          ]
    ]
    else some []

-- The rounds have different offsets inside the file, or the loop repeats itself for ever.
unfoldable pub build_block_index : FileStore → Option (Done × FileStore)
unfolding scan has_valid_header
build_block_index s =
    if not s.is_open
    then some (err e_open, s)
    else if not (has_valid_header s)
    then some (err e_header, s)
    else elim (scan (suc s.current_size) (pos header_bytes) (pos s.current_size) s.file) [
      | none ↦ none
      | some entries ↦ some (
        done,
        record s { block_index = entries; index_built = true; block_count = length entries },
      )
    ]

unfoldable pub ensure_block_index : FileStore → Option (Done × FileStore)
unfolding build_block_index
ensure_block_index s = if s.index_built then some (done, s) else build_block_index s

-- What follows the index in an operation
abbrev pub with_index :
    {A : Type 0} → (FileStore → Option (Roe A × FileStore)) → FileStore → Option (Roe A × FileStore)
with_index next s = elim (ensure_block_index s) [
  | none ↦ none
  | some (err e, t) ↦ some (err e, t)
  | some (ok _, t) ↦ next t
]

abbrev pub read_entry : BlockEntry → FileStore → Roe Bytes
read_entry entry s =
    if s.is_open
    then elim (read_at (add_i64 entry.offset (pos size_prefix_bytes)) entry.size s.file) [
      | none ↦ err e_read
      | some block ↦ ok block
    ]
    else err e_read

-- readBlock of the block store interface
unfoldable pub read_block : ℕ → FileStore → Option (Roe Bytes × FileStore)
unfolding ensure_block_index read_at add_i64
read_block index = with_index (λ s. elim (get_elem? s.block_index index) [
  | none ↦ some (err e_range, s)
  | some entry ↦ some (read_entry entry s, s)
])

-- readBlock into a buffer of `max_size` bytes
unfoldable pub read_block_into : ℕ → ℕ → FileStore → Option (Roe Bytes × FileStore)
unfolding ensure_block_index read_at add_i64 has_valid_header
read_block_into index max_size s =
    if not s.is_open
    then some (err e_open, s)
    else if not (has_valid_header s)
    then some (err e_header, s)
    else with_index
        (λ t. elim (get_elem? t.block_index index) [
          | none ↦ some (err e_range, t)
          | some entry ↦
              if ltb max_size entry.size
              then some (err e_buffer, t)
              else some (read_entry entry t, t)
        ])
        s

unfoldable pub get_block_size : ℕ → FileStore → Option (Roe ℕ × FileStore)
unfolding ensure_block_index
get_block_size index = with_index (λ s. elim (get_elem? s.block_index index) [
  | none ↦ some (err e_range, s)
  | some entry ↦ some (ok entry.size, s)
])

-- rewindTo behind the index. std::filesystem::resize_file cuts the file off, and the file is then
-- opened again.
unfoldable pub cut_at : ℕ → FileStore → Option (Done × FileStore)
unfolding write_header update_header_block_count
cut_at zero s = some (
    write_header (record s {
      current_size = header_bytes;
      block_count = 0;
      block_index = [];
      file = take header_bytes s.file;
      is_open = true;
      is_failed = false;
    }))
cut_at (suc n) s = elim (get_elem? s.block_index (suc n)) [
  | none ↦ none
  | some entry ↦
      let at = pos_part entry.offset in
      some (
        update_header_block_count (record s {
          block_count = suc n;
          current_size = at;
          block_index = take (suc n) s.block_index;
          file = take at s.file;
          is_open = true;
          is_failed = false;
          header = record s.header { count = suc n };
        }))
]

unfoldable pub rewind_to : ℕ → FileStore → Option (Done × FileStore)
unfolding ensure_block_index cut_at
rewind_to index = with_index (λ s.
    if ltb s.block_count index
    then some (err e_range, s)
    else if ltb index s.block_count
    then cut_at index s
    else some (done, s))
