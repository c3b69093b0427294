-- ===== src/Prelude/Word.antt =====
-- A Go int64 as its bit pattern: a number below 2 ^ 64. Addition wraps as the machine's does.
use Prim.Native.Nat.{ℕ, ◌+◌, ◌%◌, ◌^◌, ◌<◌}
use mathlib.Core.Path.{◌≡◌}
use mathlib.Core.Bool.{Bool, ◌&&◌}
use native.Mathlib.Omega.{arith}
use live_polling.Prelude.Tests.{ltb}

abbrev pub Int64 : Type 0
Int64 = ℕ

abbrev pub int64 : ℕ → Int64
int64 n = n % 2 ^ 64

abbrev pub add64 : Int64 → Int64 → Int64
add64 a b = (a + b) % 2 ^ 64

-- `x > 0` of a signed 64-bit integer.
abbrev pub is_positive : Int64 → Bool
is_positive x = ltb 0 x && ltb x (2 ^ 63)

pub add64_exact : (a b : ℕ) → a + b < 2 ^ 64 → add64 a b ≡ a + b
add64_exact a b h = omega arith
