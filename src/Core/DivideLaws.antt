-- ===== src/Core/DivideLaws.antt =====
-- src/core/integer_m.cpp, `divide_signed`: division towards zero on two's complement words.
use homemade_risc_v_64_vecto.Base.{
  ℕ, suc, ◌+◌, ◌-◌, ◌*◌, ◌/◌, ◌%◌, ◌^◌, ◌≤◌, ◌<◌, ◌≡◌, ◌≢◌, ◌↔◌, refl, ap, ◌∙◌, bit_and, arith,
  ◌==◌, if◌then◌else◌, Bool, true, false, ◌&&◌, not, Bool-cases, ==_ne, ◌⊎◌, inl, inr,
}
use native.Mathlib.Nat.{
  pow-suc, div-add-mod, mod-lt, mod-eq_of_lt, mod_self, div-eq_of_lt, div-eq-sub-div, one-le-pow,
  div-lt_self, div-one, zero-div, mul_comm,
}
use homemade_risc_v_64_vecto.Base.Bits.Fields.{bit_and-pow, bit_at_lem}
use homemade_risc_v_64_vecto.Base.Signed.{
  ℤ, ◌+ℤ◌, ◌*ℤ◌, magnitude, is_negative, to_signed, of_sign, pos_part-of_sign, neg_part-of_sign,
}
use homemade_risc_v_64_vecto.Core.IntegerM.{divide_signed, twos_complement_negate, differs}

-- The quotient by the weight of the sign bit is that bit.
sign_quotient : (n x : ℕ) → x < 2 ^ suc n → x / 2 ^ n ≡ (if is_negative n x then 1 else 0)
sign_quotient n x h = elim (Bool-cases (is_negative n x)) [
  | inl e ↦
      let some_weight : 2 ^ n ≤ x = ground arith in
      let positive : 1 ≤ 2 ^ n = one-le-pow n 2 (omega arith) in
      let rest : x - 2 ^ n < 2 ^ n = omega (arith, pow-suc 2 n) in
      rw e (omega (arith, div-eq-sub-div positive some_weight, div-eq_of_lt rest))
  | inr e ↦ rw e (div-eq_of_lt (ground arith))
]

-- The test of the sign bit.
sign_test : (n x : ℕ) → x < 2 ^ suc n → not (bit_and x (2 ^ n) == 0) ≡ is_negative n x
sign_test n x h =
    let e : bit_and x (2 ^ n) ≡ (if is_negative n x then 2 ^ n else 0) =
      bit_and-pow x n ∙ rw (bit_at_lem x n, sign_quotient n x h) (ground arith) in
    rw e (ground (arith, one-le-pow n 2))

negate_value :
    (n m : ℕ) → m < 2 ^ suc n → twos_complement_negate n m ≡ (if m == 0 then 0 else 2 ^ suc n - m)
negate_value n m h = elim (Bool-cases (m == 0)) [
  | inl e ↦
      let f : 2 ^ suc n - 1 - m + 1 ≡ 2 ^ suc n = ground arith in rw (e, f) (mod_self (2 ^ suc n))
  | inr e ↦
      let f : 2 ^ suc n - 1 - m + 1 ≡ 2 ^ suc n - m = ground arith in
      rw (e, f) (mod-eq_of_lt (ground arith))
]

-- The absolute value as the code computes it, and a magnitude with its sign.
abbrev code_magnitude : ℕ → ℕ → ℕ
code_magnitude n x = if is_negative n x then twos_complement_negate n x else x

abbrev with_sign : ℕ → Bool → ℕ → ℕ
with_sign n s m = if s then twos_complement_negate n m else m

code_magnitude_value :
    (n x : ℕ) → x < 2 ^ suc n → code_magnitude n x ≡ (if is_negative n x then 2 ^ suc n - x else x)
code_magnitude_value n x h = ground (arith, negate_value n x, one-le-pow n 2)

to_signed-magnitude :
    (n x : ℕ) → x < 2 ^ suc n → to_signed n x ≡ of_sign (is_negative n x) (code_magnitude n x)
unfolding to_signed of_sign
to_signed-magnitude n x h = rw (code_magnitude_value n x h) (ground (arith, one-le-pow n 2))

-- The largest magnitude belongs to the least integer.
to_signed-least : (n : ℕ) → to_signed n (with_sign n true (2 ^ n)) ≡ of_sign true (2 ^ n)
unfolding to_signed of_sign
to_signed-least n =
    let small : 2 ^ n < 2 ^ suc n = omega (arith, pow-suc 2 n, one-le-pow n 2) in
    rw (negate_value n (2 ^ n) small) (ground (arith, pow-suc 2 n, one-le-pow n 2))

-- A magnitude that fits, with its sign.
to_signed-with_sign :
    (n : ℕ) (s : Bool) (m : ℕ) → m < 2 ^ n → to_signed n (with_sign n s m) ≡ of_sign s m
unfolding to_signed of_sign
to_signed-with_sign n true m h =
    let small : m < 2 ^ suc n = omega (arith, pow-suc 2 n) in
    rw (negate_value n m small) (ground (arith, pow-suc 2 n))
to_signed-with_sign n false m h = ground arith

mul_of_sign : (s t : Bool) (q d : ℕ) → of_sign (differs s t) q *ℤ of_sign t d ≡ of_sign s (d * q)
unfolding ◌*ℤ◌
mul_of_sign true true q d =
    rw (pos_part-of_sign, neg_part-of_sign) (unfold of_sign in ground (arith, mul_comm q d))
mul_of_sign true false q d =
    rw (pos_part-of_sign, neg_part-of_sign) (unfold of_sign in ground (arith, mul_comm q d))
mul_of_sign false true q d =
    rw (pos_part-of_sign, neg_part-of_sign) (unfold of_sign in ground (arith, mul_comm q d))
mul_of_sign false false q d =
    rw (pos_part-of_sign, neg_part-of_sign) (unfold of_sign in ground (arith, mul_comm q d))

add_of_sign : (s : Bool) (a b : ℕ) → of_sign s a +ℤ of_sign s b ≡ of_sign s (a + b)
unfolding ◌+ℤ◌
add_of_sign true a b = rw (pos_part-of_sign, neg_part-of_sign) (unfold of_sign in ground arith)
add_of_sign false a b = rw (pos_part-of_sign, neg_part-of_sign) (unfold of_sign in ground arith)

magnitude-of_sign : (s : Bool) (m : ℕ) → magnitude (of_sign s m) ≡ m
magnitude-of_sign s m = rw (pos_part-of_sign, neg_part-of_sign) (ground arith)

-- What division towards zero means: the division identity, a remainder that is smaller than the
-- divisor, and that is zero or has the dividend's sign.
pub record Divides (negative : Bool) (dividend divisor quotient remainder : ℤ) : Type 0 where
  pub recomposes : quotient *ℤ divisor +ℤ remainder ≡ dividend
  pub smaller : magnitude remainder < magnitude divisor
  pub sign_follows : remainder ≡ of_sign negative (magnitude remainder)

divide_signed_form :
    (n x d : ℕ)
    → x < 2 ^ suc n
    → d < 2 ^ suc n
    → d ≢ 0
    → divide_signed n x d ≡ record {
      quotient =
          with_sign n
            (differs (is_negative n x) (is_negative n d))
            (code_magnitude n x / code_magnitude n d);
      remainder = with_sign n (is_negative n x) (code_magnitude n x % code_magnitude n d);
    }
unfolding divide_signed
divide_signed_form n x d hx hd nonzero =
    rw (==_ne d 0 nonzero, sign_test n x hx, sign_test n d hd) refl

magnitude_bounds :
    (n x : ℕ)
    → x < 2 ^ suc n
    → (code_magnitude n x ≤ 2 ^ n)
      × ((code_magnitude n x ≡ 0) ↔ (x ≡ 0))
      × ((code_magnitude n x ≡ 2 ^ n) ↔ (x ≡ 2 ^ n))
      × ((code_magnitude n x ≡ 1) ↔ ((x ≡ 2 ^ suc n - 1) ⊎ (is_negative n x ≡ false) × (x ≡ 1)))
magnitude_bounds n x h =
    rw (code_magnitude_value n x h) (ground (arith, pow-suc 2 n, one-le-pow n 2))

quotient_smaller : (a b : ℕ) → 0 < a → 1 < b → a / b < a
quotient_smaller a b h k = div-lt_self h k

quotient_cases : (a b w : ℕ) → a ≤ w → 0 < b → 1 ≤ w → (a / b < w) ⊎ ((a ≡ w) × (b ≡ 1))
quotient_cases a b w h k p = ground (arith, div-one a, zero-div b, quotient_smaller a b)

signed_quotient :
    (n x d : ℕ)
    → x < 2 ^ suc n
    → d < 2 ^ suc n
    → d ≢ 0
    → (x == 2 ^ n && d == 2 ^ suc n - 1) ≡ false
    → to_signed n (
        with_sign n
          (differs (is_negative n x) (is_negative n d))
          (code_magnitude n x / code_magnitude n d))
      ≡ of_sign
          (differs (is_negative n x) (is_negative n d))
          (code_magnitude n x / code_magnitude n d)
signed_quotient n x d hx hd nonzero no_overflow =
    let a : ℕ = code_magnitude n x in
    let b : ℕ = code_magnitude n d in
    let below : (a ≤ 2 ^ n)
        × ((a ≡ 0) ↔ (x ≡ 0))
        × ((a ≡ 2 ^ n) ↔ (x ≡ 2 ^ n))
        × ((a ≡ 1) ↔ ((x ≡ 2 ^ suc n - 1) ⊎ (is_negative n x ≡ false) × (x ≡ 1))) =
      magnitude_bounds n x hx in
    let within : (b ≤ 2 ^ n)
        × ((b ≡ 0) ↔ (d ≡ 0))
        × ((b ≡ 2 ^ n) ↔ (d ≡ 2 ^ n))
        × ((b ≡ 1) ↔ ((d ≡ 2 ^ suc n - 1) ⊎ (is_negative n d ≡ false) × (d ≡ 1))) =
      magnitude_bounds n d hd in
    let positive : 0 < b = ground arith in
    elim (quotient_cases a b (2 ^ n) below.0 positive (one-le-pow n 2 (omega arith))) [
      | inl fits ↦ to_signed-with_sign n (differs (is_negative n x) (is_negative n d)) (a / b) fits
      | inr ends ↦
          let least : x ≡ 2 ^ n = ground arith in
          let opposite : differs (is_negative n x) (is_negative n d) ≡ true = ground arith in
          let quotient : a / b ≡ 2 ^ n = ap (λ (t : ℕ). a / t) ends.1 ∙ div-one a ∙ ends.0 in
          rw (opposite, quotient) (to_signed-least n)
    ]

-- Signed division of words of n + 1 bits, but for a divisor of zero and for the least integer by -1:
-- the quotient and the remainder, read as signed integers, satisfy the division identity, the
-- remainder is smaller in absolute value than the divisor, and it is zero or has the dividend's sign.
pub divide_signed-Divides :
    (n x d : ℕ)
    → x < 2 ^ suc n
    → d < 2 ^ suc n
    → d ≢ 0
    → (x == 2 ^ n && d == 2 ^ suc n - 1) ≡ false
    → Divides
        (is_negative n x)
        (to_signed n x)
        (to_signed n d)
        (to_signed n (divide_signed n x d).quotient)
        (to_signed n (divide_signed n x d).remainder)
divide_signed-Divides n x d hx hd nonzero no_overflow =
    let form = divide_signed_form n x d hx hd nonzero in
    let s : Bool = is_negative n x in
    let t : Bool = is_negative n d in
    let a : ℕ = code_magnitude n x in
    let b : ℕ = code_magnitude n d in
    let below : (a ≤ 2 ^ n)
        × ((a ≡ 0) ↔ (x ≡ 0))
        × ((a ≡ 2 ^ n) ↔ (x ≡ 2 ^ n))
        × ((a ≡ 1) ↔ ((x ≡ 2 ^ suc n - 1) ⊎ (s ≡ false) × (x ≡ 1))) =
      magnitude_bounds n x hx in
    let within : (b ≤ 2 ^ n)
        × ((b ≡ 0) ↔ (d ≡ 0))
        × ((b ≡ 2 ^ n) ↔ (d ≡ 2 ^ n))
        × ((b ≡ 1) ↔ ((d ≡ 2 ^ suc n - 1) ⊎ (t ≡ false) × (d ≡ 1))) =
      magnitude_bounds n d hd in
    let positive : 0 < b = ground arith in
    let quotient_value : to_signed n (with_sign n (differs s t) (a / b))
        ≡ of_sign (differs s t) (a / b) =
      signed_quotient n x d hx hd nonzero no_overflow in
    let remainder_value : to_signed n (with_sign n s (a % b)) ≡ of_sign s (a % b) =
      to_signed-with_sign n s (a % b) (omega (arith, mod-lt a positive)) in
    let whole : b * (a / b) + a % b ≡ a = div-add-mod a b in
    rw
      (
        form,
        quotient_value,
        remainder_value,
        to_signed-magnitude n x hx,
        to_signed-magnitude n d hd,
      )
      (record {
        recomposes =
            rw (mul_of_sign s t (a / b) b, add_of_sign s (b * (a / b)) (a % b), whole) refl;
        smaller = rw (magnitude-of_sign s (a % b), magnitude-of_sign t b) (mod-lt a positive);
        sign_follows = rw (magnitude-of_sign s (a % b)) refl;
      })
