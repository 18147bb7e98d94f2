-- ===== src/Base/Roe.antt =====
-- ResultOrError (lib/common/ResultOrError.hpp) and the methods of an object that return one: the
-- object comes back with an error too, since what was written before it stays written. Of an
-- error the code is kept and the message text is not.
use Prim.Native.Nat.{ℕ}
use mathlib.Core.Bool.{Bool}
use mathlib.Core.Path.{◌≡◌, refl}
use mathlib.Core.Logic.{◌⊎◌, inl, inr}
use pp_ledger.Base.Tests.{if◌then◌else◌}

pub data Roe {ℓ} (A : Type ℓ) : Type ℓ where
  ok : A → Roe A
  err : ℕ → Roe A

-- Roe<void>
abbrev pub Done : Type 0
Done = Roe (Unit {0})

abbrev pub done : Done
done = ok tt

abbrev pub Action : Type 0 → Type 0 → Type 0
Action S A = S → Roe A × S

-- `if (!c) return Error(e);`
abbrev pub require : Bool → ℕ → Done
require c e = if c then done else err e

-- Of two checks the second follows when the first passes.
infixl 5 ◌then_check◌
abbrev pub ◌then_check◌ : Done → Done → Done
r then_check next = elim r [ ok _ ↦ next | err e ↦ err e ]

pub Roe-cases {ℓ} : {A : Type ℓ} (r : Roe A) → ((a : A) × (r ≡ ok a)) ⊎ ((e : ℕ) × (r ≡ err e))
Roe-cases (ok a) = inl (a, refl)
Roe-cases (err e) = inr (e, refl)
