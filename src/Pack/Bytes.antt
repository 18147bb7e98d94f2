-- ===== src/Pack/Bytes.antt =====
-- Runs of bytes, and words in big-endian order (toBigEndian, fromBigEndian).
use pp_ledger.Base.{
  ℕ, zero, suc, ◌+◌, ◌*◌, ◌/◌, ◌%◌, ◌^◌, ◌<◌, ◌≡◌, refl, ◌∙◌, List, [], ◌∷◌, ◌++◌, Option, none,
  some, arith, length, length-append,
}

abbrev pub Bytes : Type 0
Bytes = List ℕ

-- is_.read(p, n): none sets the failure bit of the stream.
unfoldable pub read_bytes : ℕ → Bytes → Option (Bytes × Bytes)
read_bytes zero src = some ([], src)
read_bytes (suc n) [] = none
read_bytes (suc n) (b ∷ src) = elim (read_bytes n src) [
  | none ↦ none
  | some (bs, rest) ↦ some (b ∷ bs, rest)
]

pub read_bytes-append : (bs rest : Bytes) → read_bytes (length bs) (bs ++ rest) ≡ some (bs, rest)
unfolding read_bytes
read_bytes-append [] rest = refl
read_bytes-append (b ∷ bs) rest = rw (read_bytes-append bs rest, read_bytes)

-- The number that bytes spell, the first the highest.
abbrev pub be_value : ℕ → List ℕ → ℕ
be_value acc [] = acc
be_value acc (x ∷ xs) = be_value (acc * 256 + x) xs

-- The `k` bytes of a number, the highest first.
unfoldable pub be_bytes : ℕ → ℕ → Bytes
be_bytes zero n = []
be_bytes (suc k) n = be_bytes k (n / 256) ++ ((n % 256) ∷ [])

pub length-be_bytes : (k n : ℕ) → length (be_bytes k n) ≡ k
unfolding be_bytes
length-be_bytes zero n = refl
length-be_bytes (suc k) n =
    let rest = length-be_bytes k (n / 256) in
    omega (arith, rest, length-append (be_bytes k (n / 256)) ((n % 256) ∷ []))

be_value-append :
    (acc b : ℕ) (xs : Bytes) → be_value acc (xs ++ (b ∷ [])) ≡ be_value acc xs * 256 + b
be_value-append acc b [] = refl
be_value-append acc b (x ∷ xs) = be_value-append (acc * 256 + x) b xs

pub be_value-be_bytes : (k n : ℕ) → n < 256 ^ k → be_value 0 (be_bytes k n) ≡ n
unfolding be_bytes
be_value-be_bytes zero n h = omega arith
be_value-be_bytes (suc k) n h =
    be_value-append 0 (n % 256) (be_bytes k (n / 256))
    ∙ omega (arith, be_value-be_bytes k (n / 256) (omega arith))
