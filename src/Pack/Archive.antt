-- ===== src/Pack/Archive.antt =====
-- The two archives of lib/common/Serialize.hpp. A `serialize` method lists the fields once for both, so
-- a type is given as one value that writes and reads.
use pp_ledger.Base.{
  ℕ, ◌≤◌, ◌<◌, ◌≡◌, sym, ap, ◌∙◌, false, ◌++◌, Option, none, some, arith, ltb, length, ◌*◌, ◌^◌,
  if◌then◌else◌, ℤ,
}
use pp_ledger.Base.Word.{IsI64, to_u64, to_i64}
use pp_ledger.Base.Roe.{Roe, ok, err}
use pp_ledger.Pack.Bytes.{
  Bytes, read_bytes, read_bytes-append, be_bytes, be_value, length-be_bytes, be_value-be_bytes,
}
use mathlib.Core.List.{append_assoc}

-- What is read, with what is left of the input; none once the archive has failed.
abbrev pub Reading : Type 0 → Type 0
Reading A = Option (A × Bytes)

pub record Archive (A : Type 0) : Type 1 where
  pub write : A → Bytes
  pub read : Bytes → Reading A
  pub fits : A → Type 0

-- What was written is read back, whatever follows it.
abbrev pub IsExact : {A : Type 0} → Archive A → Type 0
IsExact {A} c = (a : A) (rest : Bytes) → c.fits a → c.read (c.write a ++ rest) ≡ some (a, rest)

-- An unsigned word of `k` bytes
unfoldable pub read_word : ℕ → Bytes → Reading ℕ
read_word k src = elim (read_bytes k src) [
  | none ↦ none
  | some (bs, rest) ↦ some (be_value 0 bs, rest)
]

abbrev pub word : ℕ → Archive ℕ
word k = record { write = be_bytes k; read = read_word k; fits = λ n. n < 256 ^ k }

abbrev pub u8 : Archive ℕ
u8 = word 1

abbrev pub u16 : Archive ℕ
u16 = word 2

abbrev pub u32 : Archive ℕ
u32 = word 4

abbrev pub u64 : Archive ℕ
u64 = word 8

unfoldable pub read_i64 : Bytes → Reading ℤ
read_i64 src = elim (read_word 8 src) [ none ↦ none | some (w, rest) ↦ some (to_i64 w, rest) ]

abbrev pub i64 : Archive ℤ
i64 = record { write = λ z. be_bytes 8 (to_u64 z); read = read_i64; fits = IsI64 }

abbrev pub max_string_size : ℕ
max_string_size = 64 * 1024 * 1024

unfoldable pub write_string : Bytes → Bytes
write_string s = be_bytes 8 (length s) ++ s

unfoldable pub read_string : Bytes → Reading Bytes
read_string src = elim (read_word 8 src) [
  | none ↦ none
  | some (size, rest) ↦ if ltb max_string_size size then none else read_bytes size rest
]

abbrev pub string : Archive Bytes
string = record { write = write_string; read = read_string; fits = λ s. length s ≤ max_string_size }

-- ar & a & b
infixr 5 ◌&◌
unfoldable pub read_both : {A B : Type 0} → Archive A → Archive B → Bytes → Reading (A × B)
read_both c d src = elim (c.read src) [
  | none ↦ none
  | some (a, rest) ↦ elim (d.read rest) [ none ↦ none | some (b, more) ↦ some ((a, b), more) ]
]

abbrev pub ◌&◌ : {A B : Type 0} → Archive A → Archive B → Archive (A × B)
c & d = record {
  write = λ p. c.write p.0 ++ d.write p.1;
  read = read_both c d;
  fits = λ p. c.fits p.0 × d.fits p.1;
}

-- A struct, by its fields in the order of its `serialize`
unfoldable pub read_struct : {A B : Type 0} → (A → B) → Archive A → Bytes → Reading B
read_struct make c src = elim (c.read src) [ none ↦ none | some (a, rest) ↦ some (make a, rest) ]

abbrev pub struct : {A B : Type 0} → (A → B) → (B → A) → Archive A → Archive B
struct make fields c = record {
  write = λ b. c.write (fields b);
  read = read_struct make c;
  fits = λ b. c.fits (fields b);
}

pub word-IsExact : (k : ℕ) → IsExact (word k)
unfolding read_word
word-IsExact k n rest h =
    let bytes = be_bytes k n in
    let got : read_bytes k (bytes ++ rest) ≡ some (bytes, rest) =
      ap (λ (m : ℕ). read_bytes m (bytes ++ rest)) (sym (length-be_bytes k n))
      ∙ read_bytes-append bytes rest in
    rw (got, read_word) (rw (be_value-be_bytes k n h))

to_i64-to_u64 : (z : ℤ) → IsI64 z → to_i64 (to_u64 z) ≡ z
unfolding to_i64
to_i64-to_u64 z h = ground arith

to_u64_bound : (z : ℤ) → to_u64 z < 256 ^ 8
to_u64_bound z = ground arith

pub i64-IsExact : IsExact i64
unfolding read_i64
i64-IsExact z rest h =
    rw (word-IsExact 8 (to_u64 z) rest (to_u64_bound z), read_i64) (rw (to_i64-to_u64 z h))

pub string-IsExact : IsExact string
unfolding write_string read_string
string-IsExact s rest h =
    let size = word-IsExact 8 (length s) (s ++ rest) (omega (arith, h)) in
    let small : ltb max_string_size (length s) ≡ false = ground (arith, h) in
    rw (append_assoc (be_bytes 8 (length s)) s rest)
      (rw (size, read_string) (rw (small, read_bytes-append s rest)))

pub &-IsExact :
    {A B : Type 0} (c : Archive A) (d : Archive B) → IsExact c → IsExact d → IsExact (c & d)
unfolding read_both
&-IsExact c d hc hd (a, b) rest (fa, fb) =
    rw (append_assoc (c.write a) (d.write b) rest)
      (rw (hc a (d.write b ++ rest) fa, read_both) (rw (hd b rest fb)))

pub struct-IsExact :
    {A B : Type 0} (make : A → B) (fields : B → A) (c : Archive A)
    → ((b : B) → make (fields b) ≡ b)
    → IsExact c
    → IsExact (struct make fields c)
unfolding read_struct
struct-IsExact make fields c inverse h b rest f =
    rw (h (fields b) rest f, read_struct) (rw (inverse b))

-- binaryPack and binaryUnpack: what follows the value is not looked at.
unfoldable pub binary_pack : {A : Type 0} → Archive A → A → Bytes
binary_pack c a = c.write a

unfoldable pub binary_unpack : {A : Type 0} → Archive A → Bytes → Roe A
binary_unpack c src = elim (c.read src) [ none ↦ err 1 | some (a, rest) ↦ ok a ]

pub binary_unpack-binary_pack :
    {A : Type 0} (c : Archive A)
    → IsExact c
    → (a : A) (rest : Bytes) → c.fits a
    → binary_unpack c (binary_pack c a ++ rest) ≡ ok a
unfolding binary_unpack binary_pack
binary_unpack-binary_pack c h a rest f = rw (h a rest f, binary_unpack)
