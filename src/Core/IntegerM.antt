-- ===== src/Core/IntegerM.antt =====
-- src/core/integer_m.cpp: multiplication, division and remainder of RV64M on unsigned words.
use homemade_risc_v_64_vecto.Base.{
  ℕ, suc, ◌+◌, ◌-◌, ◌*◌, ◌/◌, ◌%◌, ◌^◌, bit_and, bit_or, u32, u64, shl64, shr, sub64, Bool, not,
  ◌==◌, if◌then◌else◌, Option, none, some,
}
use homemade_risc_v_64_vecto.Core.Decoder.{sign_extend}

pub record UnsignedProduct128 : Type 0 where
  pub low : ℕ
  pub high : ℕ

unfoldable pub multiply_unsigned_64 : ℕ → ℕ → UnsignedProduct128
multiply_unsigned_64 lhs rhs =
    let limb_mask : ℕ = 0xFFFFFFFF in
    let lhs_low = bit_and lhs limb_mask in
    let lhs_high = shr lhs 32 in
    let rhs_low = bit_and rhs limb_mask in
    let rhs_high = shr rhs 32 in
    let low_low = u64 (lhs_low * rhs_low) in
    let low_high = u64 (lhs_low * rhs_high) in
    let high_low = u64 (lhs_high * rhs_low) in
    let high_high = u64 (lhs_high * rhs_high) in
    let middle = u64 (shr low_low 32 + bit_and low_high limb_mask + bit_and high_low limb_mask) in
    record {
      low = bit_or (bit_and low_low limb_mask) (shl64 middle 32);
      high = u64 (high_high + shr low_high 32 + shr high_low 32 + shr middle 32);
    }

-- `~value + 1` in an unsigned type of `n + 1` bits.
abbrev pub twos_complement_negate : ℕ → ℕ → ℕ
twos_complement_negate n value = (2 ^ suc n - 1 - value + 1) % 2 ^ suc n

-- `!=` on two Booleans.
abbrev pub differs : Bool → Bool → Bool
differs a b = if a then not b else b

pub record SignedDivisionResult : Type 0 where
  pub quotient : ℕ
  pub remainder : ℕ

-- `divide_signed<UInt>` for a type of `n + 1` bits, whose sign bit is bit n.
unfoldable pub divide_signed : ℕ → ℕ → ℕ → SignedDivisionResult
divide_signed n dividend divisor =
    if divisor == 0
    then record { quotient = 2 ^ suc n - 1; remainder = dividend }
    else let dividend_negative = not (bit_and dividend (2 ^ n) == 0) in
      let divisor_negative = not (bit_and divisor (2 ^ n) == 0) in
      let dividend_magnitude =
        if dividend_negative then twos_complement_negate n dividend else dividend in
      let divisor_magnitude =
        if divisor_negative then twos_complement_negate n divisor else divisor in
      let quotient = dividend_magnitude / divisor_magnitude in
      let remainder = dividend_magnitude % divisor_magnitude in
      record {
        quotient =
            if differs dividend_negative divisor_negative
            then twos_complement_negate n quotient
            else quotient;
        remainder = if dividend_negative then twos_complement_negate n remainder else remainder;
      }

abbrev pub extend_word : ℕ → ℕ
extend_word value = sign_extend value 32

unfoldable pub execute_doubleword : ℕ → ℕ → ℕ → Option ℕ
execute_doubleword function3 lhs rhs =
    let product = multiply_unsigned_64 lhs rhs in
    let after_lhs = if not (shr lhs 63 == 0) then sub64 product.high rhs else product.high in
    if function3 == 0
    then some product.low
    else if function3 == 1
    then some (if not (shr rhs 63 == 0) then sub64 after_lhs lhs else after_lhs)
    else if function3 == 2
    then some after_lhs
    else if function3 == 3
    then some product.high
    else if function3 == 4
    then some (divide_signed 63 lhs rhs).quotient
    else if function3 == 5
    then some (if rhs == 0 then 2 ^ 64 - 1 else lhs / rhs)
    else if function3 == 6
    then some (divide_signed 63 lhs rhs).remainder
    else if function3 == 7
    then some (if rhs == 0 then lhs else lhs % rhs)
    else none

-- The switch of `execute_word`, on the low words of the operands.
unfoldable pub word_result : ℕ → ℕ → ℕ → Option ℕ
word_result function3 lhs_word rhs_word =
    if function3 == 0
    then some (extend_word (u32 (u64 (lhs_word * rhs_word))))
    else if function3 == 4
    then some (extend_word (divide_signed 31 lhs_word rhs_word).quotient)
    else if function3 == 5
    then some (extend_word (if rhs_word == 0 then 2 ^ 32 - 1 else lhs_word / rhs_word))
    else if function3 == 6
    then some (extend_word (divide_signed 31 lhs_word rhs_word).remainder)
    else if function3 == 7
    then some (extend_word (if rhs_word == 0 then lhs_word else lhs_word % rhs_word))
    else none

unfoldable pub execute_word : ℕ → ℕ → ℕ → Option ℕ
execute_word function3 lhs rhs =
    word_result function3 (bit_and lhs 0xFFFFFFFF) (bit_and rhs 0xFFFFFFFF)

unfoldable pub execute_integer_m : ℕ → ℕ → ℕ → Bool → Option ℕ
execute_integer_m function3 lhs rhs word_operation =
    if word_operation then execute_word function3 lhs rhs else execute_doubleword function3 lhs rhs
