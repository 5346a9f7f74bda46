-- ===== src/Common/Word.antt =====
-- Machine integers of 64 bits as their bit patterns, numbers below 2 ^ 64: a `uint64` is its
-- pattern, and an `int64` (an `int`, on the platforms that SporeDB is built for) is read in two's
-- complement.
use Prim.Native.Nat.{ℕ, ◌+◌, ◌-◌, ◌%◌, ◌^◌, ◌<◌}
use mathlib.Core.Bool.{Bool}
use sporedb.Common.Tests.{ltb}

abbrev pub add64 : ℕ → ℕ → ℕ
add64 a b = (a + b) % 2 ^ 64

abbrev pub sub64 : ℕ → ℕ → ℕ
sub64 a b = (a + 2 ^ 64 - b) % 2 ^ 64

-- `a < b` on `int64`: adding 2 ^ 63 turns the signed order into that of the patterns.
abbrev pub int_ltb : ℕ → ℕ → Bool
int_ltb a b = ltb ((a + 2 ^ 63) % 2 ^ 64) ((b + 2 ^ 63) % 2 ^ 64)

-- The patterns of the integers from 0 on.
abbrev pub IsNonneg : ℕ → Type 0
IsNonneg a = a < 2 ^ 63
