-- ===== src/Ledger/FileStore/Bytes.antt =====
-- The bytes of a file: words in the order of the machine, which is taken to be little-endian, and
-- what a read at a place, a write at a place and a new length do.
use pp_ledger.Base.{
  ℕ, zero, suc, ◌+◌, ◌*◌, ◌/◌, ◌%◌, ◌^◌, ◌<◌, ◌≡◌, refl, ap, ◌∙◌, [], ◌∷◌, ◌++◌, Option, none, some,
  arith, length, take, ℤ, pos, negsuc,
}
use pp_ledger.Pack.Bytes.{Bytes, read_bytes, read_bytes-append}

-- reinterpret_cast of a word of `k` bytes
unfoldable pub le_bytes : ℕ → ℕ → Bytes
le_bytes zero n = []
le_bytes (suc k) n = (n % 256) ∷ le_bytes k (n / 256)

unfoldable pub le_value : Bytes → ℕ
le_value [] = 0
le_value (b ∷ bs) = b + 256 * le_value bs

pub length-le_bytes : (k n : ℕ) → length (le_bytes k n) ≡ k
unfolding le_bytes
length-le_bytes zero n = refl
length-le_bytes (suc k) n = omega (arith, length-le_bytes k (n / 256))

pub le_value-le_bytes : (k n : ℕ) → n < 256 ^ k → le_value (le_bytes k n) ≡ n
unfolding le_bytes le_value
le_value-le_bytes zero n h = omega arith
le_value-le_bytes (suc k) n h = omega (arith, le_value-le_bytes k (n / 256) (omega arith))

abbrev pub drop : ℕ → Bytes → Bytes
drop zero bs = bs
drop (suc n) [] = []
drop (suc n) (b ∷ bs) = drop n bs

pub drop-append : (front rest : Bytes) → drop (length front) (front ++ rest) ≡ rest
drop-append [] rest = refl
drop-append (b ∷ front) rest = drop-append front rest

pub take-append : (front rest : Bytes) → take (length front) (front ++ rest) ≡ front
take-append [] rest = refl
take-append (b ∷ front) rest = ap (λ bs. b ∷ bs) (take-append front rest)

pub take-past :
    (front rest : Bytes) (n : ℕ) → take (length front + n) (front ++ rest) ≡ front ++ take n rest
take-past [] rest n = let none_more : 0 + n ≡ n = omega arith in ap (λ m. take m rest) none_more
take-past (b ∷ front) rest n =
    let one : suc (length front) + n ≡ suc (length front + n) = omega arith in
    ap (λ m. take m (b ∷ (front ++ rest))) one ∙ ap (λ bs. b ∷ bs) (take-past front rest n)

-- seekg and read: none where the place lies before the file or fewer bytes are left.
unfoldable pub read_at : ℤ → ℕ → Bytes → Option Bytes
read_at (negsuc _) size file = none
read_at (pos offset) size file = elim (read_bytes size (drop offset file)) [
  | none ↦ none
  | some (bs, rest) ↦ some bs
]

-- seekp and write inside the file
unfoldable pub write_at : ℕ → Bytes → Bytes → Bytes
write_at offset bs file = take offset file ++ bs ++ drop (offset + length bs) file

pub read_at-append :
    (front bs rest : Bytes) (offset : ℕ)
    → offset ≡ length front
    → read_at (pos offset) (length bs) (front ++ (bs ++ rest)) ≡ some bs
unfolding read_at
read_at-append front bs rest offset e =
    rw e (rw (drop-append front (bs ++ rest), read_at) (rw (read_bytes-append bs rest)))
