-- ===== src/Prelude/Word.antt =====
-- The machine words of the code as bit patterns: an `i64` counter is the number below 2^64 that
-- its bits spell, and each update writes its wrap-around out.
use Prim.Native.Nat.{ℕ, suc, ◌+◌, ◌-◌, ◌%◌, ◌^◌}
use mathlib.Core.Path.{◌≡◌}
use mathlib.Core.Bool.{Bool, ◌&&◌}
use native.Mathlib.Omega.{arith}
use kiln_cli.Prelude.Tests.{ltb}

abbrev pub i64 : ℕ → ℕ
i64 n = n % 2 ^ 64

abbrev pub u32 : ℕ → ℕ
u32 n = n % 2 ^ 32

-- `x += 1` and `x -= 1`
abbrev pub incr : ℕ → ℕ
incr x = i64 (x + 1)

abbrev pub decr : ℕ → ℕ
decr x = i64 (x + 2 ^ 64 - 1)

abbrev pub sub_i64 : ℕ → ℕ → ℕ
sub_i64 a b = i64 (a + 2 ^ 64 - b)

-- `x > 0`: not zero, and the sign bit is clear.
abbrev pub is_pos : ℕ → Bool
is_pos x = ltb 0 x && ltb x (2 ^ 63)

-- A counter that follows a size goes on following it.
pub incr-i64 : (n : ℕ) → incr (i64 n) ≡ i64 (n + 1)
incr-i64 n = omega arith

pub decr-i64 : (n : ℕ) → decr (i64 (suc n)) ≡ i64 n
decr-i64 n = omega arith
