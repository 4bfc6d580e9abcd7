-- ===== src/Core/IntegerALaws.antt =====
-- src/core/integer_a.cpp: the signed comparison, and what the atomic operations compute.
use homemade_risc_v_64_vecto.Base.{
  ℕ, suc, ◌^◌, ◌<◌, ◌≡◌, ◌↔◌, ◌⊎◌, arith, Bool, true, false, if◌then◌else◌,
}
use native.Mathlib.Nat.{pow-suc}
use homemade_risc_v_64_vecto.Base.Bits.Sign.{bit_xor_sign}
use homemade_risc_v_64_vecto.Base.Signed.{◌<ℤ◌, to_signed}
use homemade_risc_v_64_vecto.Core.IntegerA.{
  AtomicOperation, minimum_signed, maximum_signed, minimum_unsigned, maximum_unsigned, signed_less,
  calculate,
}

-- The comparison of the words with flipped sign bits is the order of the signed integers that they
-- stand for.
pub signed_less_iff :
    (n lhs rhs : ℕ)
    → lhs < 2 ^ suc n
    → rhs < 2 ^ suc n
    → (signed_less n lhs rhs ≡ true) ↔ (to_signed n lhs <ℤ to_signed n rhs)
unfolding signed_less to_signed
signed_less_iff n lhs rhs h k =
    rw (bit_xor_sign n lhs h, bit_xor_sign n rhs k) (ground (arith, pow-suc 2 n))

-- Order by the signed or by the unsigned reading of a word.
abbrev pub Below : Bool → ℕ → ℕ → ℕ → Type 0
Below true n a b = to_signed n a <ℤ to_signed n b
Below false n a b = a < b

abbrev minimum : Bool → AtomicOperation
minimum signed = if signed then minimum_signed else minimum_unsigned

abbrev maximum : Bool → AtomicOperation
maximum signed = if signed then maximum_signed else maximum_unsigned

-- In either order, signed or unsigned, the minimum and the maximum are the two words in some order,
-- and the maximum is not below the minimum.
pub minimum_and_maximum :
    (signed : Bool) (n observed operand : ℕ)
    → observed < 2 ^ suc n
    → operand < 2 ^ suc n
    → (((calculate n (minimum signed) observed operand ≡ observed)
          × (calculate n (maximum signed) observed operand ≡ operand))
        ⊎ ((calculate n (minimum signed) observed operand ≡ operand)
            × (calculate n (maximum signed) observed operand ≡ observed)))
      × ¬ (
          Below signed n
            (calculate n (maximum signed) observed operand)
            (calculate n (minimum signed) observed operand))
unfolding calculate to_signed
minimum_and_maximum true n a b h k = ground (arith, signed_less_iff n a b h k)
minimum_and_maximum false n a b h k = ground arith
