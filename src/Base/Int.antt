-- ===== src/Base/Int.antt =====
-- Go's signed integers over the native numbers, and the wrap of a conversion to 32 bits.
use Prim.Native.Nat.{ℕ, suc, ◌+◌, ◌-◌, ◌%◌, ◌^◌, ◌<◌}
use mathlib.Core.Path.{◌≡◌}
use mathlib.Core.Bool.{Bool, true, false}
use native.Mathlib.Omega.{arith}
use libfabric_go.Base.Tests.{ltb, leb, ◌==◌, if◌then◌else◌}

-- `negsuc n` is -(n + 1).
pub data ℤ : Type 0 where
  pos : ℕ → ℤ
  negsuc : ℕ → ℤ

abbrev pub pos_part : ℤ → ℕ
pos_part (pos n) = n
pos_part (negsuc n) = 0

abbrev pub neg_part : ℤ → ℕ
neg_part (pos n) = 0
neg_part (negsuc n) = suc n

-- a - b, as an integer.
abbrev pub sub_ℕ : ℕ → ℕ → ℤ
sub_ℕ a b = if leb b a then pos (a - b) else negsuc (b - a - 1)

abbrev pub neg : ℤ → ℤ
neg a = sub_ℕ (neg_part a) (pos_part a)

abbrev pub ltb_ℤ : ℤ → ℤ → Bool
ltb_ℤ a b = ltb (pos_part a + neg_part b) (pos_part b + neg_part a)

abbrev pub eqb_ℤ : ℤ → ℤ → Bool
eqb_ℤ (pos a) (pos b) = a == b
eqb_ℤ (negsuc a) (negsuc b) = a == b
eqb_ℤ _ _ = false

pub eqb_ℤ_refl : (a : ℤ) → eqb_ℤ a a ≡ true
eqb_ℤ_refl (pos a) = ground arith
eqb_ℤ_refl (negsuc a) = ground arith

-- A pattern of 32 bits, read as a signed integer.
abbrev pub signed32 : ℕ → ℤ
signed32 n = if ltb n (2 ^ 31) then pos n else sub_ℕ n (2 ^ 32)

-- Go's conversion `int32(a)`: the lowest 32 bits of the two's complement.
abbrev pub int32 : ℤ → ℤ
int32 (pos n) = signed32 (n % 2 ^ 32)
int32 (negsuc n) = signed32 ((2 ^ 32 - 1) - n % 2 ^ 32)

pub int32-pos : (n : ℕ) → n < 2 ^ 31 → int32 (pos n) ≡ pos n
int32-pos n h = let e : n % 2 ^ 32 ≡ n = omega arith in rw e (ground arith)
