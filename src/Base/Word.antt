-- ===== src/Base/Word.antt =====
-- The machine integers of the C++ code. A `uint64_t` is a number below 2 ^ 64 and an `int64_t` an
-- integer between -2 ^ 63 and 2 ^ 63 - 1. Arithmetic wraps: for signed integers that is what the
-- usual compilers' code does where the language leaves overflow undefined.
use Prim.Native.Nat.{ℕ, ◌+◌, ◌-◌, ◌*◌, ◌%◌, ◌^◌, ◌≤◌, ◌<◌}
use mathlib.Core.Path.{◌≡◌}
use native.Mathlib.Omega.{arith}
use pp_ledger.Base.Tests.{ltb, if◌then◌else◌}
use pp_ledger.Base.Int.{ℤ, pos, negsuc, pos_part, neg_part, ◌+ℤ◌, ◌-ℤ◌}

abbrev pub u64_mod : ℕ
u64_mod = 2 ^ 64

-- INT64_MAX and INT64_MIN
abbrev pub i64_max : ℤ
i64_max = pos (2 ^ 63 - 1)

abbrev pub i64_min : ℤ
i64_min = negsuc (2 ^ 63 - 1)

-- The values that an int64_t has.
abbrev pub IsI64 : ℤ → Type 0
IsI64 z = (pos_part z < 2 ^ 63) × (neg_part z ≤ 2 ^ 63)

-- The bit pattern of an integer, and the signed reading of a bit pattern.
abbrev pub to_u64 : ℤ → ℕ
to_u64 (pos n) = n % 2 ^ 64
to_u64 (negsuc n) = 2 ^ 64 - 1 - n % 2 ^ 64

-- static_cast<int64_t> of a uint64_t
unfoldable pub to_i64 : ℕ → ℤ
to_i64 w = if ltb w (2 ^ 63) then pos w else negsuc (2 ^ 64 - 1 - w)

unfoldable pub wrap_i64 : ℤ → ℤ
unfolding to_i64
wrap_i64 z = to_i64 (to_u64 z)

unfoldable pub add_i64 : ℤ → ℤ → ℤ
unfolding wrap_i64 ◌+ℤ◌
add_i64 a b = wrap_i64 (a +ℤ b)

unfoldable pub sub_i64 : ℤ → ℤ → ℤ
unfolding wrap_i64 ◌-ℤ◌
sub_i64 a b = wrap_i64 (a -ℤ b)

unfoldable pub add_u64 : ℕ → ℕ → ℕ
add_u64 a b = (a + b) % 2 ^ 64

unfoldable pub mul_u64 : ℕ → ℕ → ℕ
mul_u64 a b = (a * b) % 2 ^ 64

unfoldable pub sub_u64 : ℕ → ℕ → ℕ
sub_u64 a b = (a + 2 ^ 64 - b) % 2 ^ 64

pub to_i64_small : (w : ℕ) → w < 2 ^ 63 → to_i64 w ≡ pos w
unfolding to_i64
to_i64_small w h = ground arith

-- A value in range is left alone.
pub wrap_i64_id : (z : ℤ) → IsI64 z → wrap_i64 z ≡ z
unfolding wrap_i64
wrap_i64_id z h = ground arith

pub wrap_i64-IsI64 : (z : ℤ) → IsI64 (wrap_i64 z)
unfolding wrap_i64
wrap_i64-IsI64 (pos n) = ground arith
wrap_i64-IsI64 (negsuc n) = ground arith

-- Where the true sum fits, the machine's sum is it.
pub add_i64_exact : (a b : ℤ) → IsI64 (a +ℤ b) → add_i64 a b ≡ a +ℤ b
add_i64_exact a b h = unfold add_i64 in wrap_i64_id (a +ℤ b) h

pub sub_i64_exact : (a b : ℤ) → IsI64 (a -ℤ b) → sub_i64 a b ≡ a -ℤ b
sub_i64_exact a b h = unfold sub_i64 in wrap_i64_id (a -ℤ b) h

pub add_i64-IsI64 : (a b : ℤ) → IsI64 (add_i64 a b)
add_i64-IsI64 a b = unfold add_i64 in wrap_i64-IsI64 (a +ℤ b)

pub sub_i64-IsI64 : (a b : ℤ) → IsI64 (sub_i64 a b)
sub_i64-IsI64 a b = unfold sub_i64 in wrap_i64-IsI64 (a -ℤ b)

pub add_u64_exact : (a b : ℕ) → a + b < 2 ^ 64 → add_u64 a b ≡ a + b
unfolding add_u64
add_u64_exact a b h = omega arith
