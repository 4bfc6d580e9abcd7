-- ===== src/Core/MultiplyLaws.antt =====
-- src/core/integer_m.cpp: the product of two 64-bit words is exact, and so are its signed halves.
use homemade_risc_v_64_vecto.Base.{
  ℕ, suc, ◌+◌, ◌-◌, ◌*◌, ◌/◌, ◌%◌, ◌^◌, ◌≤◌, ◌<◌, ◌≡◌, ap, ◌∙◌, leb, sub64, bit_and, bit_or, u64,
  shl64, shr, arith, if◌then◌else◌, some, not, ◌==◌, refl,
}
use native.Mathlib.Nat.{mul-le-mul}
use homemade_risc_v_64_vecto.Base.Bits.{bit_and_mask, bit_or_fields, bit_or_comm}
use homemade_risc_v_64_vecto.Base.Signed.{pos, ◌+ℤ◌, ◌*ℤ◌, to_signed}
use homemade_risc_v_64_vecto.Core.IntegerM.{
  UnsignedProduct128, multiply_unsigned_64, execute_doubleword,
}

-- How the code joins four products of limbs.
abbrev joined_middle : ℕ → ℕ → ℕ → ℕ
joined_middle p q r = u64 (shr p 32 + bit_and q 0xFFFFFFFF + bit_and r 0xFFFFFFFF)

abbrev joined : ℕ → ℕ → ℕ → ℕ → UnsignedProduct128
joined p q r s = record {
  low = bit_or (bit_and p 0xFFFFFFFF) (shl64 (joined_middle p q r) 32);
  high = u64 (s + shr q 32 + shr r 32 + shr (joined_middle p q r) 32);
}

joined-low :
    (p m : ℕ) → bit_or (p % 2 ^ 32) (m * 2 ^ 32 % 2 ^ 64) ≡ m % 2 ^ 32 * 2 ^ 32 + p % 2 ^ 32
joined-low p m =
    let e : m * 2 ^ 32 % 2 ^ 64 ≡ m % 2 ^ 32 * 2 ^ 32 = omega arith in
    rw (e, bit_or_comm (p % 2 ^ 32) (m % 2 ^ 32 * 2 ^ 32))
      (bit_or_fields 32 (m % 2 ^ 32) (p % 2 ^ 32) (omega arith))

-- A product of two limbs.
abbrev top : ℕ
top = 18446744065119617025

-- The carries lose nothing.
joined_exact :
    (p q r s : ℕ)
    → p ≤ top
    → q ≤ top
    → r ≤ top
    → s ≤ top
    → ((joined p q r s).low + 2 ^ 64 * (joined p q r s).high
        ≡ p + 2 ^ 32 * q + 2 ^ 32 * r + 2 ^ 64 * s)
      × ((joined p q r s).low < 2 ^ 64)
      × ((joined p q r s).high < 2 ^ 64)
joined_exact p q r s hp hq hr hs =
    rw (bit_and_mask 32 p, bit_and_mask 32 q, bit_and_mask 32 r)
      (omega (arith, joined-low p ((p / 2 ^ 32 + q % 2 ^ 32 + r % 2 ^ 32) % 2 ^ 64)))

limb_product : (a b : ℕ) → a ≤ 0xFFFFFFFF → b ≤ 0xFFFFFFFF → a * b ≤ top
limb_product a b h k = mul-le-mul h k

schoolbook :
    (a b c d : ℕ)
    → (2 ^ 32 * a + b) * (2 ^ 32 * c + d)
      ≡ b * d + 2 ^ 32 * (b * c) + 2 ^ 32 * (a * d) + 2 ^ 64 * (a * c)
schoolbook a b c d = omega arith

-- The 128-bit product of two 64-bit words, in two halves that each fit a word.
pub multiply_unsigned_64_exact :
    (lhs rhs : ℕ)
    → lhs < 2 ^ 64
    → rhs < 2 ^ 64
    → ((multiply_unsigned_64 lhs rhs).low + 2 ^ 64 * (multiply_unsigned_64 lhs rhs).high
        ≡ lhs * rhs)
      × ((multiply_unsigned_64 lhs rhs).low < 2 ^ 64)
      × ((multiply_unsigned_64 lhs rhs).high < 2 ^ 64)
unfolding multiply_unsigned_64
multiply_unsigned_64_exact lhs rhs h k =
    let a : ℕ = lhs / 2 ^ 32 in
    let b : ℕ = lhs % 2 ^ 32 in
    let c : ℕ = rhs / 2 ^ 32 in
    let d : ℕ = rhs % 2 ^ 32 in
    let ha : a ≤ 0xFFFFFFFF = omega arith in
    let hb : b ≤ 0xFFFFFFFF = omega arith in
    let hc : c ≤ 0xFFFFFFFF = omega arith in
    let hd : d ≤ 0xFFFFFFFF = omega arith in
    let bd : u64 (b * d) ≡ b * d = omega (arith, limb_product b d hb hd) in
    let bc : u64 (b * c) ≡ b * c = omega (arith, limb_product b c hb hc) in
    let ad : u64 (a * d) ≡ a * d = omega (arith, limb_product a d ha hd) in
    let ac : u64 (a * c) ≡ a * c = omega (arith, limb_product a c ha hc) in
    let el : lhs ≡ 2 ^ 32 * a + b = omega arith in
    let er : rhs ≡ 2 ^ 32 * c + d = omega arith in
    let whole : lhs * rhs ≡ b * d + 2 ^ 32 * (b * c) + 2 ^ 32 * (a * d) + 2 ^ 64 * (a * c) =
      ap (λ (t : ℕ). t * rhs) el ∙ ap (λ (t : ℕ). (2 ^ 32 * a + b) * t) er ∙ schoolbook a b c d in
    rw (whole, bit_and_mask 32 lhs, bit_and_mask 32 rhs, bd, bc, ad, ac)
      (joined_exact (b * d) (b * c) (a * d) (a * c) (limb_product b d hb hd)
        (limb_product b c hb hc) (limb_product a d ha hd) (limb_product a c ha hc))

-- With a + a' = b + b' = 2 ^ 64, products of complements by products.
complements :
    (a a' b b' : ℕ)
    → a + a' ≡ 2 ^ 64
    → b + b' ≡ 2 ^ 64
    → (a' * b + a * b ≡ 2 ^ 64 * b)
      × (a * b' + a * b ≡ 2 ^ 64 * a)
      × (a' * b' + 2 ^ 64 * a + 2 ^ 64 * b ≡ a * b + 2 ^ 128)
complements a a' b b' h k =
    let e : (a + a') * b ≡ 2 ^ 64 * b = ap (λ (t : ℕ). t * b) h in
    let f : (a + a') * b' ≡ 2 ^ 64 * b' = ap (λ (t : ℕ). t * b') h in
    let g : a * (b + b') ≡ a * 2 ^ 64 = ap (λ (t : ℕ). a * t) k in omega arith

half_bound : (x y : ℕ) → x ≤ 2 ^ 63 → y ≤ 2 ^ 63 → x * y ≤ 2 ^ 126
half_bound x y h k = mul-le-mul h k

-- The high half as MULH corrects it.
abbrev corrected : ℕ → ℕ → ℕ → ℕ
corrected lhs rhs high =
    let high' = if leb (2 ^ 63) lhs then sub64 high rhs else high in
    if leb (2 ^ 63) rhs then sub64 high' lhs else high'

corrected_parts :
    (lhs rhs high low : ℕ)
    → lhs < 2 ^ 64
    → rhs < 2 ^ 64
    → low < 2 ^ 64
    → low + 2 ^ 64 * high ≡ lhs * rhs
    → to_signed 63 lhs *ℤ to_signed 63 rhs
      ≡ to_signed 63 (corrected lhs rhs high) *ℤ pos (2 ^ 64) +ℤ pos low
unfolding to_signed ◌*ℤ◌ ◌+ℤ◌
corrected_parts lhs rhs high low hl hr hw e =
    let a : ℕ = suc (2 ^ 64 - 1 - lhs) in
    let b : ℕ = suc (2 ^ 64 - 1 - rhs) in
    let c : (a * rhs + lhs * rhs ≡ 2 ^ 64 * rhs)
        × (lhs * b + lhs * rhs ≡ 2 ^ 64 * lhs)
        × (a * b + 2 ^ 64 * lhs + 2 ^ 64 * rhs ≡ lhs * rhs + 2 ^ 128) =
      complements lhs a rhs b (omega arith) (omega arith) in
    ground (arith, c, half_bound lhs rhs, half_bound a rhs, half_bound lhs b, half_bound a b)

-- MUL and MULH give the two halves of the signed product: the high half as a signed integer times
-- 2 ^ 64, plus the low half, is the product of the operands read as signed integers.
pub signed_multiplication :
    (lhs rhs : ℕ)
    → lhs < 2 ^ 64
    → rhs < 2 ^ 64
    → (low : ℕ) × (high : ℕ) × (execute_doubleword 0 lhs rhs ≡ some low)
      × (execute_doubleword 1 lhs rhs ≡ some high)
      × (to_signed 63 lhs *ℤ to_signed 63 rhs ≡ to_signed 63 high *ℤ pos (2 ^ 64) +ℤ pos low)
unfolding execute_doubleword
signed_multiplication lhs rhs h k =
    let product = multiply_unsigned_64 lhs rhs in
    let exact = multiply_unsigned_64_exact lhs rhs h k in
    let high : ℕ = corrected lhs rhs product.high in
    let e : (if not (shr lhs 63 == 0) then sub64 product.high rhs else product.high)
        ≡ (if leb (2 ^ 63) lhs then sub64 product.high rhs else product.high) =
      ground arith in
    (
      product.low,
      high,
      refl,
      ap some (rw e (ground arith)),
      corrected_parts lhs rhs product.high product.low h k exact.1 exact.0,
    )
