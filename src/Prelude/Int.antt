-- ===== src/Prelude/Int.antt =====
-- Signed integers over the native numbers, and Go's int64 with its wrap-around.
use Prim.Native.Nat.{ℕ, suc, ◌+◌, ◌-◌, ◌%◌, ◌^◌, ◌≤◌, ◌<◌}
use mathlib.Core.Path.{◌≡◌, refl}
use mathlib.Core.Logic.{◌↔◌}
use mathlib.Core.Bool.{Bool, true, false}
use native.Mathlib.Omega.{arith}
use adtp.Prelude.Tests.{ltb, leb, nat_eq, if◌then◌else◌}
use adtp.Prelude.Strings.{Eq}

-- `negsuc n` is -(n + 1).
pub data ℤ : Type 0 where
  pos : ℕ → ℤ
  negsuc : ℕ → ℤ

abbrev pub pos_part : ℤ → ℕ
pos_part (pos n) = n
pos_part (negsuc n) = 0

abbrev pub neg_part : ℤ → ℕ
neg_part (pos n) = 0
neg_part (negsuc n) = suc n

-- a - b, as an integer.
abbrev pub sub_ℕ : ℕ → ℕ → ℤ
sub_ℕ a b = if leb b a then pos (a - b) else negsuc (b - a - 1)

infixl 65 ◌+ℤ◌ ◌-ℤ◌
infix 50 ◌≤ℤ◌ ◌<ℤ◌
unfoldable pub ◌+ℤ◌ : ℤ → ℤ → ℤ
a +ℤ b = sub_ℕ (pos_part a + pos_part b) (neg_part a + neg_part b)

unfoldable pub ◌-ℤ◌ : ℤ → ℤ → ℤ
a -ℤ b = sub_ℕ (pos_part a + neg_part b) (neg_part a + pos_part b)

abbrev pub ◌≤ℤ◌ : ℤ → ℤ → Type 0
a ≤ℤ b = pos_part a + neg_part b ≤ pos_part b + neg_part a

abbrev pub ◌<ℤ◌ : ℤ → ℤ → Type 0
a <ℤ b = pos_part a + neg_part b < pos_part b + neg_part a

abbrev pub ltb_ℤ : ℤ → ℤ → Bool
ltb_ℤ a b = ltb (pos_part a + neg_part b) (pos_part b + neg_part a)

abbrev pub leb_ℤ : ℤ → ℤ → Bool
leb_ℤ a b = leb (pos_part a + neg_part b) (pos_part b + neg_part a)

abbrev pub int_eq : ℤ → ℤ → Bool
int_eq (pos a) (pos b) = nat_eq a b
int_eq (negsuc a) (negsuc b) = nat_eq a b
int_eq _ _ = false

pub int_eq_iff : (a b : ℤ) → (int_eq a b ≡ true) ↔ (a ≡ b)
int_eq_iff a b = ground arith

instance abbrev pub ℤ-eq : Eq ℤ
ℤ-eq = record { beq = int_eq; beq_iff = int_eq_iff }

-- The value that a 64-bit register keeps of an integer, in two's complement.
unfoldable pub to_int64 : ℤ → ℤ
to_int64 (pos n) = let m = n % 2 ^ 64 in if ltb m (2 ^ 63) then pos m else negsuc (2 ^ 64 - 1 - m)
to_int64 (negsuc n) =
    let m = n % 2 ^ 64 in if ltb m (2 ^ 63) then negsuc m else pos (2 ^ 64 - 1 - m)

-- a + b and a - b on int64.
unfoldable pub add64 : ℤ → ℤ → ℤ
unfolding to_int64 ◌+ℤ◌
add64 a b = to_int64 (a +ℤ b)

unfoldable pub sub64 : ℤ → ℤ → ℤ
unfolding to_int64 ◌-ℤ◌
sub64 a b = to_int64 (a -ℤ b)

-- The range of int64.
abbrev pub IsInt64 : ℤ → Type 0
IsInt64 a = (pos_part a < 2 ^ 63) × (neg_part a ≤ 2 ^ 63)

to_int64_exact : (a : ℤ) → IsInt64 a → to_int64 a ≡ a
unfolding to_int64
to_int64_exact (pos n) h = ground arith
to_int64_exact (negsuc n) h = ground arith

add64_wraps : add64 (pos 9223372036854775807) (pos 60) ≡ negsuc 9223372036854775748
unfolding add64
add64_wraps = refl

pub +ℤ_parts :
    (a b : ℤ)
    → pos_part (a +ℤ b) + neg_part a + neg_part b ≡ neg_part (a +ℤ b) + pos_part a + pos_part b
unfolding ◌+ℤ◌
+ℤ_parts a b = ground arith

pub -ℤ_parts :
    (a b : ℤ)
    → pos_part (a -ℤ b) + neg_part a + pos_part b ≡ neg_part (a -ℤ b) + pos_part a + neg_part b
unfolding ◌-ℤ◌
-ℤ_parts a b = ground arith

-- Without overflow the machine sum is the sum.
pub add64_exact : (a b : ℤ) → IsInt64 (a +ℤ b) → add64 a b ≡ a +ℤ b
unfolding add64
add64_exact a b h = to_int64_exact (a +ℤ b) h

pub sub64_exact : (a b : ℤ) → IsInt64 (a -ℤ b) → sub64 a b ≡ a -ℤ b
unfolding sub64
sub64_exact a b h = to_int64_exact (a -ℤ b) h
