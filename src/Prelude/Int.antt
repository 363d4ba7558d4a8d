-- ===== src/Prelude/Int.antt =====
-- Signed integers over the native numbers, under the library's names.
use mathlib.Core.Bool.{Bool, false}
use Prim.Native.Nat.{ℕ, ◌-◌}
use uestc_shixvn_mini_web_se.Prelude.Tests.{leb, ◌==◌, if◌then◌else◌}

-- `negsuc n` is -(n + 1).
pub data ℤ : Type 0 where
  pos : ℕ → ℤ
  negsuc : ℕ → ℤ

-- a - b, as an integer.
abbrev pub sub_ℕ : ℕ → ℕ → ℤ
sub_ℕ a b = if leb b a then pos (a - b) else negsuc (b - a - 1)

-- `a < 0 ? 0 : a`, and the number that it is.
abbrev pub to_nat : ℤ → ℕ
to_nat (pos n) = n
to_nat (negsuc n) = 0

-- `a == n`.
abbrev pub is_int : ℕ → ℤ → Bool
is_int n (pos m) = m == n
is_int n (negsuc m) = false
