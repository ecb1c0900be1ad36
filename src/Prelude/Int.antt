-- ===== src/Prelude/Int.antt =====
-- Signed integers over the native numbers (the library's ℤ stands on the unary ℕ), and Go's int64:
-- an integer whose sums and differences wrap around in two's complement.
use Prim.Native.Nat.{ℕ, suc, ◌+◌, ◌-◌, ◌%◌, ◌≤◌, ◌<◌}
use mathlib.Core.Path.{◌≡◌, refl}
use mathlib.Core.Bool.{Bool}
use mathlib.Core.Logic.{◌⊎◌, inl, inr}
use native.Mathlib.Omega.{arith}
use eventledger.Prelude.Tests.{ltb, leb, if◌then◌else◌}

-- `negsuc n` is -(n + 1).
pub data ℤ : Type 0 where
  pos : ℕ → ℤ
  negsuc : ℕ → ℤ

abbrev pub pos_part : ℤ → ℕ
pos_part (pos n) = n
pos_part (negsuc n) = 0

abbrev pub neg_part : ℤ → ℕ
neg_part (pos n) = 0
neg_part (negsuc n) = suc n

abbrev pub sub_ℕ : ℕ → ℕ → ℤ
sub_ℕ a b = if leb b a then pos (a - b) else negsuc (b - a - 1)

infixl 65 ◌+ℤ◌ ◌-ℤ◌
infix 50 ◌≤ℤ◌
unfoldable pub ◌+ℤ◌ : ℤ → ℤ → ℤ
a +ℤ b = sub_ℕ (pos_part a + pos_part b) (neg_part a + neg_part b)

unfoldable pub ◌-ℤ◌ : ℤ → ℤ → ℤ
a -ℤ b = sub_ℕ (pos_part a + neg_part b) (neg_part a + pos_part b)

abbrev pub ◌≤ℤ◌ : ℤ → ℤ → Type 0
a ≤ℤ b = pos_part a + neg_part b ≤ pos_part b + neg_part a

abbrev pub ltb_ℤ : ℤ → ℤ → Bool
ltb_ℤ a b = ltb (pos_part a + neg_part b) (pos_part b + neg_part a)

abbrev pub leb_ℤ : ℤ → ℤ → Bool
leb_ℤ a b = leb (pos_part a + neg_part b) (pos_part b + neg_part a)

-- The operations stay shut under these.
pub +ℤ_parts :
    (a b : ℤ)
    → pos_part (a +ℤ b) + neg_part a + neg_part b ≡ neg_part (a +ℤ b) + pos_part a + pos_part b
unfolding ◌+ℤ◌
+ℤ_parts a b = ground arith

pub -ℤ_parts :
    (a b : ℤ)
    → pos_part (a -ℤ b) + neg_part a + pos_part b ≡ neg_part (a -ℤ b) + pos_part a + neg_part b
unfolding ◌-ℤ◌
-ℤ_parts a b = ground arith

pub eq_of_parts : (a b : ℤ) → pos_part a + neg_part b ≡ pos_part b + neg_part a → a ≡ b
eq_of_parts a b h = ground arith

pub ruleset int_laws = (arith, +ℤ_parts, -ℤ_parts, eq_of_parts)

-- 2 ^ 63 and 2 ^ 64.
abbrev pub half_range : ℕ
half_range = 9_223_372_036_854_775_808

abbrev pub full_range : ℕ
full_range = 18_446_744_073_709_551_616

-- The integers that an int64 holds.
pub record IsInt64 (a : ℤ) : Type 0 where
  pub above : pos_part a < half_range
  pub below : neg_part a ≤ half_range

-- The integer that a pattern of 64 bits stands for, and the pattern that an integer leaves.
abbrev of_bits : ℕ → ℤ
of_bits u = if ltb u half_range then pos u else negsuc (full_range - 1 - u)

abbrev to_bits : ℤ → ℕ
to_bits (pos n) = n % full_range
to_bits (negsuc n) = full_range - 1 - n % full_range

unfoldable pub wrap64 : ℤ → ℤ
wrap64 a = of_bits (to_bits a)

-- `+`, `-` and unary `-` on int64.
unfoldable pub add64 : ℤ → ℤ → ℤ
add64 a b = wrap64 (a +ℤ b)

unfoldable pub sub64 : ℤ → ℤ → ℤ
sub64 a b = wrap64 (a -ℤ b)

unfoldable pub neg64 : ℤ → ℤ
neg64 a = wrap64 (pos 0 -ℤ a)

wrap64_exact : (a : ℤ) → pos_part a < half_range → neg_part a ≤ half_range → wrap64 a ≡ a
unfolding wrap64
wrap64_exact (pos n) h k = ground arith
wrap64_exact (negsuc n) h k = ground arith

-- Every result of an int64 operation is an int64.
pub wrap64-IsInt64 : (a : ℤ) → IsInt64 (wrap64 a)
unfolding wrap64
wrap64-IsInt64 (pos n) = ground arith
wrap64-IsInt64 (negsuc n) = ground arith

pub add64-IsInt64 : (a b : ℤ) → IsInt64 (add64 a b)
unfolding add64
add64-IsInt64 a b = wrap64-IsInt64 (a +ℤ b)

pub sub64-IsInt64 : (a b : ℤ) → IsInt64 (sub64 a b)
unfolding sub64
sub64-IsInt64 a b = wrap64-IsInt64 (a -ℤ b)

-- Where the exact result fits, no wrap takes place.
pub add64_exact : (a b : ℤ) → IsInt64 (a +ℤ b) → add64 a b ≡ a +ℤ b
unfolding add64
add64_exact a b h = wrap64_exact _ h.above h.below

pub sub64_exact : (a b : ℤ) → IsInt64 (a -ℤ b) → sub64 a b ≡ a -ℤ b
unfolding sub64
sub64_exact a b h = wrap64_exact _ h.above h.below

-- One more than the greatest int64 is the least.
add64_wraps : add64 (pos (half_range - 1)) (pos 1) ≡ negsuc (half_range - 1)
unfolding add64 wrap64 ◌+ℤ◌
add64_wraps = refl

pub one_part : (a : ℤ) → (pos_part a ≡ 0) ⊎ (neg_part a ≡ 0)
one_part (pos n) = inr refl
one_part (negsuc n) = inl refl

-- Subtraction is the addition of the opposite, wrap-around included.
pub add64-neg64 : (a b : ℤ) → add64 a (neg64 b) ≡ sub64 a b
unfolding add64 sub64 neg64 wrap64 ◌+ℤ◌ ◌-ℤ◌
add64-neg64 a b = ground arith
