-- ===== src/Prelude/Int.antt =====
-- C's signed integers. `negsuc n` is -(n + 1).
use Prim.Native.Nat.{ℕ, ◌+◌, ◌-◌, ◌/◌}
use mathlib.Core.Bool.{Bool, true, false}
use finit.Prelude.Tests.{ltb, leb, ◌==◌, if◌then◌else◌}

pub data ℤ : Type 0 where
  pos : ℕ → ℤ
  negsuc : ℕ → ℤ

-- `!a`
abbrev pub is_zero : ℤ → Bool
is_zero (pos n) = n == 0
is_zero (negsuc n) = false

-- `a < 0`
abbrev pub is_negative : ℤ → Bool
is_negative (pos n) = false
is_negative (negsuc n) = true

-- `a <= b`
abbrev pub leb_ℤ : ℤ → ℤ → Bool
leb_ℤ (pos a) (pos b) = leb a b
leb_ℤ (pos a) (negsuc b) = false
leb_ℤ (negsuc a) (pos b) = true
leb_ℤ (negsuc a) (negsuc b) = leb b a

-- `a == b`
abbrev pub eq_ℤ : ℤ → ℤ → Bool
eq_ℤ (pos a) (pos b) = a == b
eq_ℤ (pos a) (negsuc b) = false
eq_ℤ (negsuc a) (pos b) = false
eq_ℤ (negsuc a) (negsuc b) = a == b

-- `a / 2`, which C rounds towards zero.
abbrev pub half : ℤ → ℤ
half (pos n) = pos (n / 2)
half (negsuc n) = if ltb n 1 then pos 0 else negsuc ((n + 1) / 2 - 1)

-- `a++` on a signed `char`: 127 wraps to -128.
abbrev pub char_inc : ℤ → ℤ
char_inc (pos n) = if n == 127 then negsuc 127 else pos (n + 1)
char_inc (negsuc n) = if n == 0 then pos 0 else negsuc (n - 1)

-- `a--` on a signed `char` above zero.
abbrev pub char_dec : ℤ → ℤ
char_dec (pos n) = pos (n - 1)
char_dec (negsuc n) = negsuc (n + 1)

-- `a + b`, where the sum is in range.
infixl 65 ◌+ℤ◌
abbrev pub ◌+ℤ◌ : ℤ → ℤ → ℤ
pos a +ℤ pos b = pos (a + b)
pos a +ℤ negsuc b = if ltb b a then pos (a - b - 1) else negsuc (b - a)
negsuc a +ℤ pos b = if ltb a b then pos (b - a - 1) else negsuc (a - b)
negsuc a +ℤ negsuc b = negsuc (a + b + 1)
