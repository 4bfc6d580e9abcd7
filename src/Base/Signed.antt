-- ===== src/Base/Signed.antt =====
-- Signed integers over the native numbers, and the two's complement reading of a word: `suc n` bits
-- with the sign in bit n.
use Prim.Native.Nat.{ℕ, suc, ◌+◌, ◌-◌, ◌*◌, ◌^◌, ◌<◌}
use mathlib.Core.Path.{◌≡◌, refl}
use mathlib.Core.Bool.{Bool, true, false}
use native.Mathlib.Nat.{pow-suc}
use native.Mathlib.Omega.{arith}
use homemade_risc_v_64_vecto.Base.Tests.{leb, if◌then◌else◌}

-- `negsuc n` is -(n + 1).
pub data ℤ : Type 0 where
  pos : ℕ → ℤ
  negsuc : ℕ → ℤ

abbrev pub pos_part : ℤ → ℕ
pos_part (pos n) = n
pos_part (negsuc n) = 0

abbrev pub neg_part : ℤ → ℕ
neg_part (pos n) = 0
neg_part (negsuc n) = suc n

-- `a - b` as an integer.
abbrev pub sub_ℕ : ℕ → ℕ → ℤ
sub_ℕ a b = if leb b a then pos (a - b) else negsuc (b - a - 1)

infixl 65 ◌+ℤ◌
infixl 70 ◌*ℤ◌
infix 50 ◌<ℤ◌
unfoldable pub ◌+ℤ◌ : ℤ → ℤ → ℤ
a +ℤ b = sub_ℕ (pos_part a + pos_part b) (neg_part a + neg_part b)

unfoldable pub ◌*ℤ◌ : ℤ → ℤ → ℤ
a *ℤ b =
    sub_ℕ (pos_part a * pos_part b + neg_part a * neg_part b)
      (pos_part a * neg_part b + neg_part a * pos_part b)

abbrev pub ◌<ℤ◌ : ℤ → ℤ → Type 0
a <ℤ b = pos_part a + neg_part b < pos_part b + neg_part a

-- The absolute value.
abbrev pub magnitude : ℤ → ℕ
magnitude a = pos_part a + neg_part a

abbrev pub is_negative : ℕ → ℕ → Bool
is_negative n x = leb (2 ^ n) x

unfoldable pub to_signed : ℕ → ℕ → ℤ
to_signed n x = if is_negative n x then negsuc (2 ^ suc n - 1 - x) else pos x

-- An integer by its sign and its absolute value.
unfoldable pub of_sign : Bool → ℕ → ℤ
of_sign true m = sub_ℕ 0 m
of_sign false m = pos m

pub pos_part-of_sign : (s : Bool) (m : ℕ) → pos_part (of_sign s m) ≡ (if s then 0 else m)
unfolding of_sign
pos_part-of_sign true m = ground arith
pos_part-of_sign false m = refl

pub neg_part-of_sign : (s : Bool) (m : ℕ) → neg_part (of_sign s m) ≡ (if s then m else 0)
unfolding of_sign
neg_part-of_sign true m = ground arith
neg_part-of_sign false m = refl

pub eq_of_parts : (a b : ℤ) → pos_part a + neg_part b ≡ pos_part b + neg_part a → a ≡ b
eq_of_parts a b h = ground arith

pub +ℤ_parts :
    (a b : ℤ)
    → pos_part (a +ℤ b) + neg_part a + neg_part b ≡ neg_part (a +ℤ b) + pos_part a + pos_part b
unfolding ◌+ℤ◌
+ℤ_parts a b = ground arith

pub *ℤ_parts :
    (a b : ℤ)
    → pos_part (a *ℤ b) + (pos_part a * neg_part b + neg_part a * pos_part b)
      ≡ neg_part (a *ℤ b) + (pos_part a * pos_part b + neg_part a * neg_part b)
unfolding ◌*ℤ◌
*ℤ_parts a b = ground arith

-- A word below 2 ^ suc n stands for x, or for x - 2 ^ suc n.
pub to_signed_parts :
    (n x : ℕ)
    → x < 2 ^ suc n
    → (pos_part (to_signed n x) ≡ (if is_negative n x then 0 else x))
      × (neg_part (to_signed n x) ≡ (if is_negative n x then 2 ^ suc n - x else 0))
unfolding to_signed
to_signed_parts n x h = ground arith

-- Words that read as the same integer are equal.
pub to_signed_injective :
    (n x y : ℕ) → x < 2 ^ suc n → y < 2 ^ suc n → to_signed n x ≡ to_signed n y → x ≡ y
unfolding to_signed
to_signed_injective n x y h k e = ground (arith, pow-suc 2 n)
