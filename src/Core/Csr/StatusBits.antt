-- ===== src/Core/Csr/StatusBits.antt =====
-- src/core/csr.cpp: the masks that test, set and clear single status bits, bit by bit.
use native.Mathlib.Nat.{pow-le-pow_right, pow-suc, one-le-pow}
use homemade_risc_v_64_vecto.Base.{
  ℕ, zero, suc, ◌+◌, ◌*◌, ◌^◌, ◌<◌, ◌≤◌, ◌≡◌, bit_or, bit_and, not64, Bool, true, false, not, ◌||◌,
  ◌==◌, if◌then◌else◌, arith,
}
use homemade_risc_v_64_vecto.Base.Bits.{bit_at, bit_at-lt, bit_at-bit_or, bit_at-pow}
use homemade_risc_v_64_vecto.Base.Bits.Fields.{
  bit_at-set, bit_at-clear_mask, bit_at-pair, bit_and-pow,
}
use homemade_risc_v_64_vecto.Core.Csr.State.{bit}
use homemade_risc_v_64_vecto.Core.Csr.Traps.{has_bit, put_bit}

bit-lt : (i : ℕ) → i < 64 → bit i < 2 ^ 64
bit-lt i h =
    let within : 2 ^ (i + 1) ≤ 2 ^ 64 = pow-le-pow_right (omega arith) {j = 64} (omega arith) in
    let e : i + 1 ≡ suc i = omega arith in
    let twice : 2 ^ (i + 1) ≡ 2 ^ i * 2 = rw e (pow-suc 2 i) in
    omega (arith, within, twice, one-le-pow i 2)

pub has_bit-bit_at : (m i : ℕ) → has_bit m i ≡ (bit_at m i == 1)
has_bit-bit_at m i =
    rw (bit_and-pow m i)
      (bit_nonzero (bit_at m i) (2 ^ i) (bit_at-lt m i) (one-le-pow i 2 (omega arith)))
  where
    bit_nonzero : (b p : ℕ) → b < 2 → 1 ≤ p → not (b * p == 0) ≡ (b == 1)
    bit_nonzero zero p h k = ground arith
    bit_nonzero (suc zero) p h k = ground arith
    bit_nonzero (suc (suc b)) p h k = absurd (omega arith)

pub bit_at-clear :
    (m i k : ℕ)
    → i < 64
    → k < 64
    → bit_at (bit_and m (not64 (bit i))) k ≡ (if k == i then 0 else bit_at m k)
bit_at-clear m i k h p =
    ground (arith, bit_at-clear_mask m (bit i) k (bit-lt i h) p, bit_at-pow i k)

pub bit_at-put :
    (m i k : ℕ) (b : Bool)
    → i < 64
    → k < 64
    → bit_at (put_bit m i b) k ≡ (if k == i then (if b then 1 else 0) else bit_at m k)
bit_at-put m i k true h p = ground (arith, bit_at-set m i k)
bit_at-put m i k false h p = ground (arith, bit_at-clear m i k h p)

-- Clearing a field of two bits, and putting a two-bit value there.
pub bit_at-clear_pair :
    (m i k : ℕ)
    → 3 * 2 ^ i < 2 ^ 64
    → k < 64
    → bit_at (bit_and m (not64 (3 * 2 ^ i))) k ≡ (if k == i || k == i + 1 then 0 else bit_at m k)
bit_at-clear_pair m i k h p = ground (arith, bit_at-clear_mask m (3 * 2 ^ i) k h p, bit_at-pair i k)

-- Setting both bits of a field.
pub bit_at-fill_pair :
    (m i k : ℕ)
    → 3 * 2 ^ i < 2 ^ 64
    → k < 64
    → bit_at (bit_or (bit_and m (not64 (3 * 2 ^ i))) (3 * 2 ^ i)) k
      ≡ (if k == i || k == i + 1 then 1 else bit_at m k)
bit_at-fill_pair m i k h p = ground (
  arith,
  bit_at-bit_or (bit_and m (not64 (3 * 2 ^ i))) (3 * 2 ^ i) k,
  bit_at-clear_pair m i k h p,
  bit_at-pair i k,
  bit_at-lt m k,
)
