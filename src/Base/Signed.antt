-- ===== src/Base/Signed.antt =====
-- Arithmetic on integers of both signs as C has it, and the operations on `double`, which are those
-- of the machine.
use Prim.Native.Nat.{ℕ, ◌+◌, ◌-◌, ◌%◌, ◌^◌}
use vmp_rl.Base.Tests.{leb, if◌then◌else◌}
use vmp_rl.Base.Words.{ℤ, pos, negsuc, signed32}

abbrev pub pos_part : ℤ → ℕ
pos_part (pos n) = n
pos_part (negsuc n) = 0

abbrev pub neg_part : ℤ → ℕ
neg_part (pos n) = 0
neg_part (negsuc n) = n + 1

-- a - b, as an integer.
abbrev pub sub_ℕ : ℕ → ℕ → ℤ
sub_ℕ a b = if leb b a then pos (a - b) else negsuc (b - a - 1)

infixl 65 ◌+ℤ◌ ◌-ℤ◌
unfoldable pub ◌+ℤ◌ : ℤ → ℤ → ℤ
a +ℤ b = sub_ℕ (pos_part a + pos_part b) (neg_part a + neg_part b)

unfoldable pub ◌-ℤ◌ : ℤ → ℤ → ℤ
a -ℤ b = sub_ℕ (pos_part a + neg_part b) (neg_part a + pos_part b)

-- The bits of a conversion to a width of `m` values.
abbrev pub wrap_bits : ℕ → ℤ → ℕ
wrap_bits m (pos n) = n % m
wrap_bits m (negsuc n) = m - 1 - n % m

-- The conversions to `int` and to `unsigned long`.
unfoldable pub to_int : ℤ → ℤ
to_int a = signed32 (wrap_bits (2 ^ 32) a)

unfoldable pub to_ulong : ℤ → ℕ
to_ulong a = wrap_bits (2 ^ 64) a

-- `double`, its conversions from an integer and to `float` and `unsigned long`, and its operations.
pub record Doubles : Type 1 where
  pub D : Type 0
  pub of_ℤ : ℤ → D
  pub to_float : D → D
  pub floor_ulong : D → ℕ
  pub sub : D → D → D
  pub mul : D → D → D
  pub div : D → D → D
