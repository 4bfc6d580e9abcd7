-- ===== src/Base/Bits.antt =====
-- Bit laws at every width, for `&`, `|` and `^`, for single bits and for fields.
mod Step
pub mod Fields
pub mod Sign
use Step.{bit_and_step, bit_or_step, bit_xor_step}
use Prim.Native.Nat.{
  ℕ, zero, suc, ◌+◌, ◌-◌, ◌*◌, ◌/◌, ◌%◌, ◌^◌, ◌≤◌, ◌<◌, min, max, bit_and, bit_or, bit_xor,
  bit_and-bitwise,
}
use mathlib.Core.Path.{◌≡◌, refl, sym}
use native.Mathlib.Nat.{pow-suc, pow-succ', one-le-pow, div-add-mod, div-div-eq-div-mul}
use native.Mathlib.Omega.{arith}
use homemade_risc_v_64_vecto.Base.Tests.{◌==◌, ltb, if◌then◌else◌}

-- Bit `k` of `x`, as 0 or 1.
unfoldable pub bit_at : ℕ → ℕ → ℕ
bit_at x zero = x % 2
bit_at x (suc k) = bit_at (x / 2) k

pub bit_at-lt : (x k : ℕ) → bit_at x k < 2
unfolding bit_at
bit_at-lt x zero = omega arith
bit_at-lt x (suc k) = bit_at-lt (x / 2) k

zero-bit_and : (b : ℕ) → bit_and 0 b ≡ 0
zero-bit_and b = bit_and-bitwise 0 b

bit_and-half : (a b : ℕ) → bit_and a b / 2 ≡ bit_and (a / 2) (b / 2)
bit_and-half a b = omega (arith, bit_and_step a b)

bit_or-half : (a b : ℕ) → bit_or a b / 2 ≡ bit_or (a / 2) (b / 2)
bit_or-half a b = omega (arith, bit_or_step a b)

bit_xor-half : (a b : ℕ) → bit_xor a b / 2 ≡ bit_xor (a / 2) (b / 2)
bit_xor-half a b = omega (arith, bit_xor_step a b)

pub bit_at-bit_and : (a b k : ℕ) → bit_at (bit_and a b) k ≡ min (bit_at a k) (bit_at b k)
unfolding bit_at
bit_at-bit_and a b zero = omega (arith, bit_and_step a b)
bit_at-bit_and a b (suc k) = rw (bit_and-half a b) (bit_at-bit_and (a / 2) (b / 2) k)

pub bit_at-bit_or : (a b k : ℕ) → bit_at (bit_or a b) k ≡ max (bit_at a k) (bit_at b k)
unfolding bit_at
bit_at-bit_or a b zero = omega (arith, bit_or_step a b)
bit_at-bit_or a b (suc k) = rw (bit_or-half a b) (bit_at-bit_or (a / 2) (b / 2) k)

pub bit_at-bit_xor : (a b k : ℕ) → bit_at (bit_xor a b) k ≡ (bit_at a k + bit_at b k) % 2
unfolding bit_at
bit_at-bit_xor a b zero = omega (arith, bit_xor_step a b)
bit_at-bit_xor a b (suc k) = rw (bit_xor-half a b) (bit_at-bit_xor (a / 2) (b / 2) k)

pub bit_at-zero : (k : ℕ) → bit_at 0 k ≡ 0
unfolding bit_at
bit_at-zero zero = refl
bit_at-zero (suc k) = bit_at-zero k

pub bit_at-pow : (i k : ℕ) → bit_at (2 ^ i) k ≡ (if k == i then 1 else 0)
unfolding bit_at
bit_at-pow zero zero = refl
bit_at-pow zero (suc k) = ground (arith, bit_at-zero k)
bit_at-pow (suc i) zero = ground (arith, pow-suc 2 i)
bit_at-pow (suc i) (suc k) =
    let e : 2 ^ suc i / 2 ≡ 2 ^ i = omega (arith, pow-suc 2 i) in
    rw e (ground (arith, bit_at-pow i k))

half_mod_twice : (p x : ℕ) → x % (2 * p) / 2 ≡ x / 2 % p
half_mod_twice p x =
    let down : p * (x / (2 * p)) + x / 2 % p ≡ x / 2 =
      rw (← div-div-eq-div-mul x 2 p) (div-add-mod (x / 2) p) in
    omega (arith, div-add-mod x (2 * p), down)

pub half-mod : (n x : ℕ) → x % 2 ^ suc n / 2 ≡ x / 2 % 2 ^ n
half-mod n x = rw (pow-succ' 2 n) (half_mod_twice (2 ^ n) x)

odd-mod : (n x : ℕ) → x % 2 ^ suc n % 2 ≡ x % 2
odd-mod n x = rw (pow-succ' 2 n) (omega (arith, div-add-mod x (2 * 2 ^ n)))

pub bit_at-mod : (n x k : ℕ) → bit_at (x % 2 ^ n) k ≡ (if ltb k n then bit_at x k else 0)
unfolding bit_at
bit_at-mod zero x k = ground (arith, bit_at-zero k)
bit_at-mod (suc n) x zero = ground (arith, odd-mod n x)
bit_at-mod (suc n) x (suc k) = rw (half-mod n x) (ground (arith, bit_at-mod n (x / 2) k))

-- The complement within `n` bits.
pub bit_at-complement :
    (n x k : ℕ) → x < 2 ^ n → bit_at (2 ^ n - 1 - x) k ≡ (if ltb k n then 1 - bit_at x k else 0)
unfolding bit_at
bit_at-complement zero x k h = ground (arith, bit_at-zero k)
bit_at-complement (suc n) x zero h = ground (arith, pow-suc 2 n)
bit_at-complement (suc n) x (suc k) h =
    let e : (2 ^ suc n - 1 - x) / 2 ≡ 2 ^ n - 1 - x / 2 = omega (arith, pow-suc 2 n) in
    rw e (ground (arith, pow-suc 2 n, bit_at-complement n (x / 2) k))

-- Words with the same bits are equal.
bits_ext_fuel : (n x y : ℕ) → x ≤ n → y ≤ n → ((k : ℕ) → bit_at x k ≡ bit_at y k) → x ≡ y
unfolding bit_at
bits_ext_fuel zero x y p q h = omega arith
bits_ext_fuel (suc n) x y p q h =
    omega (arith, h 0, bits_ext_fuel n (x / 2) (y / 2) (omega arith) (omega arith) (λ k. h (suc k)))

pub bits_ext : (x y : ℕ) → ((k : ℕ) → bit_at x k ≡ bit_at y k) → x ≡ y
bits_ext x y h = bits_ext_fuel (x + y) x y (omega arith) (omega arith) h

pub bit_at-shr : (x j k : ℕ) → bit_at (x / 2 ^ j) k ≡ bit_at x (j + k)
unfolding bit_at
bit_at-shr x zero k = ground arith
bit_at-shr x (suc j) k =
    let e : suc j + k ≡ suc (j + k) = omega arith in
    let d : x / 2 ^ suc j ≡ x / 2 / 2 ^ j =
      rw (pow-succ' 2 j) (sym (div-div-eq-div-mul x 2 (2 ^ j))) in
    rw (d, e) (bit_at-shr (x / 2) j k)

bit_and-le_fuel : (n a b : ℕ) → a ≤ n → bit_and a b ≤ a
bit_and-le_fuel zero a b h = let e : a ≡ 0 = omega arith in rw e (omega (arith, zero-bit_and b))
bit_and-le_fuel (suc n) zero b h = omega (arith, zero-bit_and b)
bit_and-le_fuel (suc n) (suc a) b h =
    omega (arith, bit_and_step (suc a) b, bit_and-le_fuel n (suc a / 2) (b / 2) (omega arith))

pub bit_and-le : (a b : ℕ) → bit_and a b ≤ a
bit_and-le a b = bit_and-le_fuel a a b (omega arith)

pub bit_and-zero : (a : ℕ) → bit_and a 0 ≡ 0
bit_and-zero a = bits_ext _ 0 (λ k. omega (arith, bit_at-bit_and a 0 k, bit_at-zero k))

pub zero-bit_or : (b : ℕ) → bit_or 0 b ≡ b
zero-bit_or b = bits_ext _ b (λ k. omega (arith, bit_at-bit_or 0 b k, bit_at-zero k))

pub bit_or-zero : (a : ℕ) → bit_or a 0 ≡ a
bit_or-zero a = bits_ext _ a (λ k. omega (arith, bit_at-bit_or a 0 k, bit_at-zero k))

pub bit_or_comm : (a b : ℕ) → bit_or a b ≡ bit_or b a
bit_or_comm a b = bits_ext _ _ (λ k. omega (arith, bit_at-bit_or a b k, bit_at-bit_or b a k))

pub bit_and_comm : (a b : ℕ) → bit_and a b ≡ bit_and b a
bit_and_comm a b = bits_ext _ _ (λ k. omega (arith, bit_at-bit_and a b k, bit_at-bit_and b a k))

-- `x & (2 ^ n - 1)` is the remainder by `2 ^ n`.
pub bit_and_mask : (n x : ℕ) → bit_and x (2 ^ n - 1) ≡ x % 2 ^ n
bit_and_mask zero x = rw bit_and-zero (omega arith)
bit_and_mask (suc n) x =
    let e : (2 ^ suc n - 1) / 2 ≡ 2 ^ n - 1 = omega (arith, pow-suc 2 n) in
    let step : bit_and x (2 ^ suc n - 1)
        ≡ min (x % 2) ((2 ^ suc n - 1) % 2) + 2 * bit_and (x / 2) (2 ^ n - 1) =
      rw (bit_and_step x (2 ^ suc n - 1), e) in
    omega
      (arith, step, pow-suc 2 n, one-le-pow n 2, bit_and_mask n (x / 2), half-mod n x, odd-mod n x)

-- `|` of fields that do not overlap is a sum.
pub bit_or_fields : (n q r : ℕ) → r < 2 ^ n → bit_or (q * 2 ^ n) r ≡ q * 2 ^ n + r
bit_or_fields zero q r h = let e : r ≡ 0 = omega arith in rw (e, bit_or-zero) (omega arith)
bit_or_fields (suc n) q r h =
    let d : q * 2 ^ suc n ≡ 2 * (q * 2 ^ n) = rw (pow-succ' 2 n) (omega arith) in
    let half : q * 2 ^ suc n / 2 ≡ q * 2 ^ n = omega (arith, d) in
    let step : bit_or (q * 2 ^ suc n) r
        ≡ max (q * 2 ^ suc n % 2) (r % 2) + 2 * bit_or (q * 2 ^ n) (r / 2) =
      rw (bit_or_step (q * 2 ^ suc n) r, half) in
    omega (arith, step, d, pow-suc 2 n, bit_or_fields n q (r / 2) (omega (arith, pow-suc 2 n)))

pub bit_or-lt : (n a b : ℕ) → a < 2 ^ n → b < 2 ^ n → bit_or a b < 2 ^ n
bit_or-lt zero a b h k = let e : b ≡ 0 = omega arith in rw (e, bit_or-zero) h
bit_or-lt (suc n) a b h k = omega (arith, bit_or_step a b, pow-suc 2 n, bit_or-lt n (a / 2) (b / 2))

-- Clearing the lowest bits rounds down: to even numbers, and to multiples of 4, 8 and 4096.
pub clear_bit0 : (x : ℕ) → x < 2 ^ 64 → bit_and x (2 ^ 64 - 1 - 1) ≡ x / 2 * 2
clear_bit0 x h = omega (arith, bit_and_step x (2 ^ 64 - 1 - 1), bit_and_mask 63 (x / 2))

pub clear_bits1 : (x : ℕ) → x < 2 ^ 64 → bit_and x (2 ^ 64 - 1 - 3) ≡ x / 4 * 4
clear_bits1 x h = omega (
  arith,
  bit_and_step x (2 ^ 64 - 1 - 3),
  bit_and_step (x / 2) (2 ^ 63 - 2),
  bit_and_mask 62 (x / 2 / 2),
)

pub clear_bits2 : (x : ℕ) → x < 2 ^ 64 → bit_and x (2 ^ 64 - 1 - 7) ≡ x / 8 * 8
clear_bits2 x h = omega (
  arith,
  bit_and_step x (2 ^ 64 - 1 - 7),
  bit_and_step (x / 2) (2 ^ 63 - 4),
  bit_and_step (x / 2 / 2) (2 ^ 62 - 2),
  bit_and_mask 61 (x / 2 / 2 / 2),
)

-- A mask of `w` ones above `n` zeros.
pub high_mask : (n w x : ℕ) → bit_and x ((2 ^ w - 1) * 2 ^ n) ≡ x / 2 ^ n % 2 ^ w * 2 ^ n
high_mask zero w x =
    let e : (2 ^ w - 1) * 2 ^ zero ≡ 2 ^ w - 1 = omega arith in
    let f : x / 2 ^ zero ≡ x = omega arith in rw (e, f, bit_and_mask w x) (omega arith)
high_mask (suc n) w x =
    let m : ℕ = (2 ^ w - 1) * 2 ^ n in
    let doubled : (2 ^ w - 1) * 2 ^ suc n ≡ 2 * m = rw (pow-succ' 2 n) (omega arith) in
    let half : 2 * m / 2 ≡ m = omega arith in
    let shifted : x / 2 ^ suc n ≡ x / 2 / 2 ^ n =
      rw (pow-succ' 2 n) (sym (div-div-eq-div-mul x 2 (2 ^ n))) in
    let step : bit_and x (2 * m) ≡ bit_and (x / 2) m * 2 =
      rw (bit_and_step x (2 * m), half) (omega arith) in
    rw (doubled, step, high_mask n w (x / 2), shifted, pow-succ' 2 n) (omega arith)
