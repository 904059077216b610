-- ===== src/Base/Int.antt =====
-- Signed integers over the native numbers, under the library's names, and C's `int` and `long`.
use Prim.Native.Nat.{ℕ, suc, ◌+◌, ◌-◌, ◌≤◌}
use mathlib.Core.Path.{◌≡◌}
use mathlib.Core.Bool.{Bool, true, ◌&&◌}
use native.Mathlib.Omega.{arith}
use krproject.Base.Faults.{Run, ok, fault, signed_overflow}
use krproject.Base.Tests.{ltb, leb, ◌==◌, if◌then◌else◌}

-- `negsuc n` is -(n + 1).
pub data ℤ : Type 0 where
  pos : ℕ → ℤ
  negsuc : ℕ → ℤ

abbrev pub pos_part : ℤ → ℕ
pos_part (pos n) = n
pos_part (negsuc n) = 0

abbrev pub neg_part : ℤ → ℕ
neg_part (pos n) = 0
neg_part (negsuc n) = suc n

-- a - b, as an integer.
abbrev pub sub_ℕ : ℕ → ℕ → ℤ
sub_ℕ a b = if leb b a then pos (a - b) else negsuc (b - a - 1)

infixl 65 ◌+ℤ◌ ◌-ℤ◌
infix 50 ◌≤ℤ◌
unfoldable pub ◌+ℤ◌ : ℤ → ℤ → ℤ
a +ℤ b = sub_ℕ (pos_part a + pos_part b) (neg_part a + neg_part b)

unfoldable pub ◌-ℤ◌ : ℤ → ℤ → ℤ
a -ℤ b = sub_ℕ (pos_part a + neg_part b) (neg_part a + pos_part b)

abbrev pub ◌≤ℤ◌ : ℤ → ℤ → Type 0
a ≤ℤ b = pos_part a + neg_part b ≤ pos_part b + neg_part a

abbrev pub ltb_ℤ : ℤ → ℤ → Bool
ltb_ℤ a b = ltb (pos_part a + neg_part b) (pos_part b + neg_part a)

abbrev pub eqb_ℤ : ℤ → ℤ → Bool
eqb_ℤ a b = pos_part a == pos_part b && neg_part a == neg_part b

pub eqb_ℤ→eq : (a b : ℤ) → eqb_ℤ a b ≡ true → a ≡ b
eqb_ℤ→eq a b h = ground arith

pub eqb_ℤ_refl : (a : ℤ) → eqb_ℤ a a ≡ true
eqb_ℤ_refl a = ground arith

-- the ranges of `int` and `long`
abbrev pub fits_int : ℤ → Bool
fits_int a = leb (pos_part a) 0x7fff_ffff && leb (neg_part a) 0x8000_0000

-- `a - b` and `a + b` of two `long`s
abbrev pub fits_long : ℤ → Bool
fits_long a = leb (pos_part a) 0x7fff_ffff_ffff_ffff && leb (neg_part a) 0x8000_0000_0000_0000

unfoldable pub sub_long : ℤ → ℤ → Run ℤ
sub_long a b = if fits_long (a -ℤ b) then ok (a -ℤ b) else fault signed_overflow

unfoldable pub add_long : ℤ → ℤ → Run ℤ
add_long a b = if fits_long (a +ℤ b) then ok (a +ℤ b) else fault signed_overflow
