-- ===== src/Common/Int.antt =====
-- Signed integers over the native numbers, with the division of C.
use Prim.Native.Nat.{ℕ, suc, ◌+◌, ◌-◌, ◌*◌, ◌/◌, ◌%◌, ◌≤◌, ◌<◌}
use mathlib.Core.Path.{◌≡◌, refl}
use mathlib.Core.Bool.{Bool, true, false, ◌&&◌}
use mathlib.Core.Option.{Option, none, some}
use native.Mathlib.Omega.{arith}
use rfcs.Common.Tests.{ltb, leb, if◌then◌else◌}

-- `negsuc n` is -(n + 1).
pub data ℤ : Type 0 where
  pos : ℕ → ℤ
  negsuc : ℕ → ℤ

abbrev pub pos_part : ℤ → ℕ
pos_part (pos n) = n
pos_part (negsuc n) = 0

abbrev pub neg_part : ℤ → ℕ
neg_part (pos n) = 0
neg_part (negsuc n) = suc n

-- a - b, as an integer.
abbrev pub sub_ℕ : ℕ → ℕ → ℤ
sub_ℕ a b = if leb b a then pos (a - b) else negsuc (b - a - 1)

infixl 65 ◌+ℤ◌ ◌-ℤ◌
infixl 70 ◌*ℤ◌
infix 50 ◌≤ℤ◌ ◌<ℤ◌
unfoldable pub ◌+ℤ◌ : ℤ → ℤ → ℤ
a +ℤ b = sub_ℕ (pos_part a + pos_part b) (neg_part a + neg_part b)

unfoldable pub ◌-ℤ◌ : ℤ → ℤ → ℤ
a -ℤ b = sub_ℕ (pos_part a + neg_part b) (neg_part a + pos_part b)

unfoldable pub ◌*ℤ◌ : ℤ → ℤ → ℤ
a *ℤ b =
    sub_ℕ (pos_part a * pos_part b + neg_part a * neg_part b)
      (pos_part a * neg_part b + neg_part a * pos_part b)

-- `/` and `%` by a positive number: C rounds towards zero.
unfoldable pub quot : ℤ → ℕ → ℤ
quot (pos n) k = pos (n / k)
quot (negsuc n) k = sub_ℕ 0 (suc n / k)

unfoldable pub rem : ℤ → ℕ → ℤ
rem (pos n) k = pos (n % k)
rem (negsuc n) k = sub_ℕ 0 (suc n % k)

abbrev pub ◌≤ℤ◌ : ℤ → ℤ → Type 0
a ≤ℤ b = pos_part a + neg_part b ≤ pos_part b + neg_part a

abbrev pub ◌<ℤ◌ : ℤ → ℤ → Type 0
a <ℤ b = pos_part a + neg_part b < pos_part b + neg_part a

abbrev pub ltb_ℤ : ℤ → ℤ → Bool
ltb_ℤ a b = ltb (pos_part a + neg_part b) (pos_part b + neg_part a)

-- On numbers the operations are those of ℕ.
pub +ℤ-pos : (a b : ℕ) → pos a +ℤ pos b ≡ pos (a + b)
unfolding ◌+ℤ◌
+ℤ-pos a b = ground arith

pub -ℤ-pos : (a b : ℕ) → b ≤ a → pos a -ℤ pos b ≡ pos (a - b)
unfolding ◌-ℤ◌
-ℤ-pos a b h = ground arith

pub *ℤ-pos : (a b : ℕ) → pos a *ℤ pos b ≡ pos (a * b)
unfolding ◌*ℤ◌
*ℤ-pos a b = ground arith

pub quot-pos : (a k : ℕ) → quot (pos a) k ≡ pos (a / k)
unfolding quot
quot-pos a k = refl

-- `int` and `int64_t`: an operation whose result the type does not hold is not defined.
abbrev pub in_word : ℕ → ℤ → Bool
in_word half v = ltb (pos_part v) half && leb (neg_part v) half

abbrev pub int : ℤ → Option ℤ
int v = if in_word 2147483648 v then some v else none

abbrev pub int64 : ℤ → Option ℤ
int64 v = if in_word 9223372036854775808 v then some v else none

unfoldable pub add_int : ℤ → ℤ → Option ℤ
add_int a b = int (a +ℤ b)

unfoldable pub sub_int : ℤ → ℤ → Option ℤ
sub_int a b = int (a -ℤ b)

unfoldable pub mul_int : ℤ → ℤ → Option ℤ
mul_int a b = int (a *ℤ b)

unfoldable pub add_int64 : ℤ → ℤ → Option ℤ
add_int64 a b = int64 (a +ℤ b)

unfoldable pub sub_int64 : ℤ → ℤ → Option ℤ
sub_int64 a b = int64 (a -ℤ b)

unfoldable pub mul_int64 : ℤ → ℤ → Option ℤ
mul_int64 a b = int64 (a *ℤ b)

pub add_int-pos : (a b : ℕ) → a + b < 2147483648 → add_int (pos a) (pos b) ≡ some (pos (a + b))
unfolding add_int ◌+ℤ◌
add_int-pos a b h = ground arith

pub sub_int-pos : (a b : ℕ) → b ≤ a → a < 2147483648 → sub_int (pos a) (pos b) ≡ some (pos (a - b))
unfolding sub_int ◌-ℤ◌
sub_int-pos a b h k = ground arith

pub mul_int-pos : (a b : ℕ) → a * b < 2147483648 → mul_int (pos a) (pos b) ≡ some (pos (a * b))
unfolding mul_int ◌*ℤ◌
mul_int-pos a b h = ground arith

-- A difference that may be negative.
pub sub_int-diff :
    (a b : ℕ) → a < 2147483648 → b < 2147483648 → sub_int (pos a) (pos b) ≡ some (pos a -ℤ pos b)
unfolding sub_int ◌-ℤ◌
sub_int-diff a b h k = ground arith

pub add_int-diff :
    (a b s : ℕ)
    → a + s < 2147483648
    → b < 2147483648
    → add_int (pos a -ℤ pos b) (pos s) ≡ some (pos a -ℤ pos b +ℤ pos s)
unfolding add_int ◌-ℤ◌ ◌+ℤ◌
add_int-diff a b s h k = ground arith

value_of : (t : Bool) (w v : ℤ) → (if t then some w else none) ≡ some v → v ≡ w
value_of true w v h = cc
value_of false w v h = cc

pub add_int64-value : (a b v : ℤ) → add_int64 a b ≡ some v → v ≡ a +ℤ b
unfolding add_int64
add_int64-value a b v h = value_of (in_word 9223372036854775808 (a +ℤ b)) (a +ℤ b) v h
