-- ===== src/Base/Bits/Fields.antt =====
-- Single bits and two-bit fields of a 64-bit word: how the masks of the source read and change them.
use Prim.Native.Nat.{ℕ, zero, suc, ◌+◌, ◌-◌, ◌*◌, ◌/◌, ◌%◌, ◌^◌, ◌<◌, bit_and, bit_or}
use mathlib.Core.Path.{◌≡◌, refl, ap, ◌∙◌}
use mathlib.Core.Bool.{◌||◌}
use native.Mathlib.Nat.{pow-succ'}
use native.Mathlib.Omega.{arith}
use homemade_risc_v_64_vecto.Base.Tests.{◌==◌, ltb, if◌then◌else◌}
use homemade_risc_v_64_vecto.Base.Bits.{
  bit_at, bit_at-lt, bit_at-zero, bit_at-pow, bit_at-bit_and, bit_at-bit_or, bit_at-complement,
  bit_at-shr, bit_and_mask, bits_ext,
}

pub bit_at-shl : (x i k : ℕ) → bit_at (x * 2 ^ i) k ≡ (if ltb k i then 0 else bit_at x (k - i))
unfolding bit_at
bit_at-shl x zero k =
    let e : x * 2 ^ zero ≡ x = omega arith in
    let f : k - 0 ≡ k = omega arith in rw (e, f) (ground arith)
bit_at-shl x (suc i) zero =
    let even : x * 2 ^ suc i % 2 ≡ 0 = omega (arith, ap (λ (t : ℕ). x * t) (pow-succ' 2 i)) in
    ground (arith, even)
bit_at-shl x (suc i) (suc k) =
    let e : x * 2 ^ suc i / 2 ≡ x * 2 ^ i = rw (pow-succ' 2 i) (omega arith) in
    let f : suc k - suc i ≡ k - i = omega arith in rw (e, f) (ground (arith, bit_at-shl x i k))

-- `m | bit(i)` and `m & ~bit(i)`.
pub bit_at-set : (m i k : ℕ) → bit_at (bit_or m (2 ^ i)) k ≡ (if k == i then 1 else bit_at m k)
bit_at-set m i k = ground (arith, bit_at-bit_or m (2 ^ i) k, bit_at-pow i k, bit_at-lt m k)

-- `m & ~mask` at one bit.
pub bit_at-clear_mask :
    (m mask k : ℕ)
    → mask < 2 ^ 64
    → k < 64
    → bit_at (bit_and m (2 ^ 64 - 1 - mask)) k ≡ (if bit_at mask k == 1 then 0 else bit_at m k)
bit_at-clear_mask m mask k h p = ground (
  arith,
  bit_at-bit_and m (2 ^ 64 - 1 - mask) k,
  bit_at-complement 64 mask k h,
  bit_at-lt m k,
  bit_at-lt mask k,
)

-- `(old & ~mask) | (value & mask)` at one bit.
pub bit_at-masked_update :
    (old mask v k : ℕ)
    → mask < 2 ^ 64
    → k < 64
    → bit_at (bit_or (bit_and old (2 ^ 64 - 1 - mask)) (bit_and v mask)) k
      ≡ (if bit_at mask k == 1 then bit_at v k else bit_at old k)
bit_at-masked_update old mask v k h p = ground (
  arith,
  bit_at-bit_or (bit_and old (2 ^ 64 - 1 - mask)) (bit_and v mask) k,
  bit_at-clear_mask old mask k h p,
  bit_at-bit_and v mask k,
  bit_at-lt mask k,
  bit_at-lt v k,
  bit_at-lt old k,
)

-- A mask of two neighbouring bits.
pub bit_at-pair : (i k : ℕ) → bit_at (3 * 2 ^ i) k ≡ (if k == i || k == i + 1 then 1 else 0)
bit_at-pair i k = ground (arith, bit_at-shl 3 i k, three (k - i))
  where
    three : (j : ℕ) → bit_at 3 j ≡ (if ltb j 2 then 1 else 0)
    three zero = unfold bit_at in refl
    three (suc zero) = unfold bit_at in refl
    three (suc (suc j)) = unfold bit_at in ground (arith, bit_at-zero j)

bit_at-small : (b j : ℕ) → b < 2 → bit_at b j ≡ (if j == 0 then b else 0)
unfolding bit_at
bit_at-small b zero h = ground arith
bit_at-small b (suc j) h = let e : b / 2 ≡ 0 = omega arith in rw e (ground (arith, bit_at-zero j))

-- `(m & bit(i)) != 0` tests bit `i`.
pub bit_and-pow : (m i : ℕ) → bit_and m (2 ^ i) ≡ bit_at m i * 2 ^ i
bit_and-pow m i = bits_ext (bit_and m (2 ^ i)) (bit_at m i * 2 ^ i) λ k. ground (
  arith,
  bit_at-bit_and m (2 ^ i) k,
  bit_at-pow i k,
  bit_at-shl (bit_at m i) i k,
  bit_at-lt m k,
  bit_at-small (bit_at m i) (k - i) (bit_at-lt m i),
)

-- `(m >> i) & 3` is the field of two bits.
pub pair_value : (m i : ℕ) → bit_and (m / 2 ^ i) 3 ≡ bit_at m i + 2 * bit_at m (i + 1)
unfolding bit_at
pair_value m i =
    let e : i + 0 ≡ i = omega arith in
    let lo : m / 2 ^ i % 2 ≡ bit_at m i = bit_at-shr m i 0 ∙ ap (bit_at m) e in
    let hi : m / 2 ^ i / 2 % 2 ≡ bit_at m (i + 1) = bit_at-shr m i 1 in
    omega (arith, bit_and_mask 2 (m / 2 ^ i), lo, hi)

-- The bit by a shift.
pub bit_at_lem : (x k : ℕ) → bit_at x k ≡ x / 2 ^ k % 2
unfolding bit_at
bit_at_lem x k =
    let e : k + 0 ≡ k = omega arith in
    let shifted : x / 2 ^ k % 2 ≡ bit_at x k = bit_at-shr x k 0 ∙ ap (bit_at x) e in
    omega (arith, shifted)
