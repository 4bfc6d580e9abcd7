-- ===== src/Core/Cpu/AluLaws.antt =====
-- src/core/cpu.cpp: the integer operations as arithmetic on signed integers.
use homemade_risc_v_64_vecto.Base.{
  ℕ, zero, suc, sym, ap, ◌∙◌, ◌+◌, ◌-◌, ◌*◌, ◌/◌, ◌%◌, ◌^◌, ◌≤◌, ◌<◌, ◌≡◌, ◌↔◌, bit_and, bit_or,
  u64, arith, true, not, leb, ◌==◌, if◌then◌else◌,
}
use homemade_risc_v_64_vecto.Base.Bits.Sign.{bit_xor_sign}
use homemade_risc_v_64_vecto.Base.Bits.Fields.{bit_and-pow, bit_at_lem}
use homemade_risc_v_64_vecto.Base.Bits.{bit_or_fields, bit_or_comm}
use native.Mathlib.Nat.{
  one-le-pow, pow-le-pow_right, pow-suc, mul-add-mod_self_left, div-add-mod, mod-lt,
  div-lt_iff_lt-mul, mul_comm, mul-add, mul-suc, suc-mul, div-eq_of_lt, mul-add-div,
}
use homemade_risc_v_64_vecto.Base.Signed.{◌<ℤ◌, to_signed}
use homemade_risc_v_64_vecto.Core.Cpu.Alu.{signed_less, arithmetic_shift_right64}

pub signed_less_iff_lt :
    (lhs rhs : ℕ)
    → lhs < 2 ^ 64
    → rhs < 2 ^ 64
    → (signed_less lhs rhs ≡ true) ↔ (to_signed 63 lhs <ℤ to_signed 63 rhs)
unfolding signed_less to_signed
signed_less_iff_lt lhs rhs h k = rw (bit_xor_sign 63 lhs h, bit_xor_sign 63 rhs k) (ground arith)

-- The sign bit's test.
sign_bit_test : (x : ℕ) → x < 2 ^ 64 → not (bit_and x (2 ^ 63) == 0) ≡ leb (2 ^ 63) x
sign_bit_test x h = ground (arith, bit_and-pow x 63, bit_at_lem x 63)

-- The ones that a shift by k puts above the shifted word.
shifted_ones : (n : ℕ) → n ≤ 64 → u64 ((2 ^ 64 - 1) * 2 ^ n) ≡ (2 ^ 64 - 2 ^ n) % 2 ^ 64
shifted_ones n h =
    let positive : 1 ≤ 2 ^ n = one-le-pow n 2 (omega arith) in
    let fits : 2 ^ n ≤ 2 ^ 64 = pow-le-pow_right (omega arith) h in
    let e : (2 ^ 64 - 1) * 2 ^ n ≡ 2 ^ 64 * (2 ^ n - 1) + (2 ^ 64 - 2 ^ n) = omega arith in
    rw e (mul-add-mod_self_left (2 ^ 64) (2 ^ n - 1) (2 ^ 64 - 2 ^ n))

-- Dividing the distance to the top is taking the distance of the quotient.
complement_quotient :
    (p q value : ℕ)
    → 0 < p
    → p * q ≡ 2 ^ 64
    → value < 2 ^ 64
    → (2 ^ 64 - 1 - value) / p ≡ q - 1 - value / p
complement_quotient p q value positive e h =
    let whole : p * (value / p) + value % p ≡ value = div-add-mod value p in
    let below : value % p < p = mod-lt value positive in
    let quotient : value / p < q = (div-lt_iff_lt-mul positive).1 (omega (arith, mul_comm p q)) in
    let split : q ≡ suc (value / p) + (q - 1 - value / p) = omega arith in
    let expand : p * q ≡ p * suc (value / p) + p * (q - 1 - value / p) =
      ap (λ (t : ℕ). p * t) split ∙ mul-add p (suc (value / p)) (q - 1 - value / p) in
    let once : p * suc (value / p) ≡ p * (value / p) + p = mul-suc p (value / p) in
    let f : 2 ^ 64 - 1 - value ≡ p * (q - 1 - value / p) + (p - 1 - value % p) = omega arith in
    let small : (p - 1 - value % p) / p ≡ 0 = div-eq_of_lt (omega arith) in
    rw (f, mul-add-div positive (q - 1 - value / p) (p - 1 - value % p), small) (omega arith)

pow_sum : (m n : ℕ) → 2 ^ m * 2 ^ n ≡ 2 ^ (m + n)
pow_sum zero n = let e : zero + n ≡ n = omega arith in rw e (omega arith)
pow_sum (suc m) n =
    let e : suc m + n ≡ suc (m + n) = omega arith in
    let twice : 2 ^ m * 2 * 2 ^ n ≡ 2 * (2 ^ m * 2 ^ n) = omega arith in
    rw (e, pow-suc 2 m, twice, pow_sum m n, pow-suc 2 (m + n)) (omega arith)

-- An arithmetic shift divides the signed integer by a power of two, rounding down: a non-negative
-- word by itself, a negative one through its distance to the top word.
pub arithmetic_shift_value :
    (value amount : ℕ)
    → value < 2 ^ 64
    → amount < 64
    → arithmetic_shift_right64 value amount ≡ (
        if leb (2 ^ 63) value
        then 2 ^ 64 - 1 - (2 ^ 64 - 1 - value) / 2 ^ amount
        else value / 2 ^ amount)
unfolding arithmetic_shift_right64
arithmetic_shift_value value zero h k = ground arith
arithmetic_shift_value value (suc a) h k =
    let n : ℕ = 64 - suc a in
    let positive : 0 < 2 ^ suc a = one-le-pow (suc a) 2 (omega arith) in
    let some_weight : 1 ≤ 2 ^ n = one-le-pow n 2 (omega arith) in
    let product : 2 ^ suc a * 2 ^ n ≡ 2 ^ 64 =
      let total : suc a + n ≡ 64 = omega arith in pow_sum (suc a) n ∙ ap (λ (t : ℕ). 2 ^ t) total in
    let quotient : value / 2 ^ suc a < 2 ^ n =
      (div-lt_iff_lt-mul positive).1 (omega (arith, product, mul_comm (2 ^ suc a) (2 ^ n))) in
    let two : 2 ≤ 2 ^ suc a = omega (arith, pow-suc 2 a, one-le-pow a 2) in
    let less : 2 ^ suc a ≡ suc (2 ^ suc a - 1) = omega arith in
    let spread : (2 ^ suc a - 1) * 2 ^ n + 2 ^ n ≡ 2 ^ 64 =
      sym (suc-mul (2 ^ suc a - 1) (2 ^ n)) ∙ ap (λ (t : ℕ). t * 2 ^ n) (sym less) ∙ product in
    let ones : u64 ((2 ^ 64 - 1) * 2 ^ n) ≡ (2 ^ suc a - 1) * 2 ^ n =
      shifted_ones n (omega arith) ∙ omega (arith, spread) in
    let joined : bit_or (value / 2 ^ suc a) ((2 ^ suc a - 1) * 2 ^ n)
        ≡ (2 ^ suc a - 1) * 2 ^ n + value / 2 ^ suc a =
      bit_or_comm (value / 2 ^ suc a) ((2 ^ suc a - 1) * 2 ^ n)
      ∙ bit_or_fields n (2 ^ suc a - 1) (value / 2 ^ suc a) quotient in
    let distance = complement_quotient (2 ^ suc a) (2 ^ n) value positive product h in
    rw (sign_bit_test value h, ones, joined, distance) (ground (arith, spread, quotient))
