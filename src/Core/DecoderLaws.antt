-- ===== src/Core/DecoderLaws.antt =====
-- src/core/decoder.cpp: sign extension and immediates as signed integers.
use homemade_risc_v_64_vecto.Base.{
  ℕ, suc, ◌+◌, ◌-◌, ◌*◌, ◌/◌, ◌%◌, ◌^◌, ◌≤◌, ◌<◌, ◌≡◌, refl, sym, ap, ◌∙◌, bit_or, arith, ltb,
  if◌then◌else◌,
}
use homemade_risc_v_64_vecto.Base.Bits.{bit_and_mask, bit_or_fields, high_mask}
use homemade_risc_v_64_vecto.Base.Bits.Sign.{bit_xor_sign}
use homemade_risc_v_64_vecto.Core.Decoder.{
  sign_extend, immediate_i, immediate_s, immediate_b, immediate_u, immediate_j,
}
use native.Mathlib.Nat.{pow-suc, one-le-pow, mod-lt, div-add-mod, mul_comm, pow-le-pow_right}

-- The low bits below the sign bit n, and the sign bit in all bits from n on.
pub sign_extend_value :
    (n value : ℕ)
    → n < 63
    → sign_extend value (suc n) ≡ (
        if ltb (value % 2 ^ suc n) (2 ^ n)
        then value % 2 ^ suc n
        else 2 ^ 64 - 2 ^ suc n + value % 2 ^ suc n)
unfolding sign_extend
sign_extend_value n value h =
    let fits : 2 ^ suc n ≤ 2 ^ 63 =
      let f : suc n ≤ 63 = omega arith in pow-le-pow_right (omega arith) f in
    let positive : 1 ≤ 2 ^ n = one-le-pow n 2 (omega arith) in
    let small : value % 2 ^ suc n < 2 ^ suc n = mod-lt value (omega (arith, pow-suc 2 n)) in
    let e : suc n - 1 ≡ n = omega arith in
    ground (arith, bit_and_mask (suc n) value, bit_xor_sign n (value % 2 ^ suc n), pow-suc 2 n)

-- The formats of an encoding that carry an immediate.
pub data Format : Type 0 where
  format_i format_s format_b format_u format_j : Format

abbrev pub immediate_of : Format → ℕ → ℕ
immediate_of format_i bits = immediate_i bits
immediate_of format_s bits = immediate_s bits
immediate_of format_b bits = immediate_b bits
immediate_of format_u bits = immediate_u bits
immediate_of format_j bits = immediate_j bits

-- What an assembler does: the encoding with the value's bits in the immediate's places.
abbrev pub place : Format → ℕ → ℕ → ℕ
place format_i bits v = v % 2 ^ 12 * 2 ^ 20 + bits % 2 ^ 20
place format_s bits v =
    v / 2 ^ 5 % 2 ^ 7 * 2 ^ 25 + bits / 2 ^ 12 % 2 ^ 13 * 2 ^ 12 + v % 2 ^ 5 * 2 ^ 7 + bits % 2 ^ 7
place format_b bits v =
    v / 2 ^ 12 % 2 * 2 ^ 31
    + v / 2 ^ 5 % 2 ^ 6 * 2 ^ 25
    + bits / 2 ^ 12 % 2 ^ 13 * 2 ^ 12
    + v / 2 % 2 ^ 4 * 2 ^ 8
    + v / 2 ^ 11 % 2 * 2 ^ 7
    + bits % 2 ^ 7
place format_u bits v = v / 2 ^ 12 % 2 ^ 20 * 2 ^ 12 + bits % 2 ^ 12
place format_j bits v =
    v / 2 ^ 20 % 2 * 2 ^ 31
    + v / 2 % 2 ^ 10 * 2 ^ 21
    + v / 2 ^ 11 % 2 * 2 ^ 20
    + v / 2 ^ 12 % 2 ^ 8 * 2 ^ 12
    + bits % 2 ^ 12

-- The position of the sign bit, and the number of low bits that the format leaves out.
abbrev pub sign_position : Format → ℕ
sign_position format_i = 11
sign_position format_s = 11
sign_position format_b = 12
sign_position format_u = 31
sign_position format_j = 20

abbrev pub granularity : Format → ℕ
granularity format_i = 1
granularity format_s = 1
granularity format_b = 2
granularity format_u = 4096
granularity format_j = 2

-- `|` of a word with zeros in its low bits and of a word of those bits is a sum.
pub bit_or-sum : (n x r : ℕ) → x % 2 ^ n ≡ 0 → r < 2 ^ n → bit_or x r ≡ x + r
bit_or-sum n x r h k =
    let e : x ≡ x / 2 ^ n * 2 ^ n =
      omega (arith, div-add-mod x (2 ^ n), mul_comm (2 ^ n) (x / 2 ^ n)) in
    let f : bit_or (x / 2 ^ n * 2 ^ n) r ≡ x / 2 ^ n * 2 ^ n + r =
      bit_or_fields n (x / 2 ^ n) r k in
    ap (λ (t : ℕ). bit_or t r) e ∙ f ∙ ap (λ (t : ℕ). t + r) (sym e)

gather_s :
    (bits : ℕ)
    → immediate_s bits ≡ sign_extend (bits / 2 ^ 25 % 2 ^ 7 * 2 ^ 5 + bits / 2 ^ 7 % 2 ^ 5) 12
unfolding immediate_s
gather_s bits =
    rw
      (
        bit_and_mask 7 (bits / 2 ^ 25),
        bit_and_mask 5 (bits / 2 ^ 7),
        bit_or_fields 5 (bits / 2 ^ 25 % 2 ^ 7) (bits / 2 ^ 7 % 2 ^ 5) (omega arith),
      )
      refl

or_four :
    (m n k a b c d : ℕ)
    → a % 2 ^ m ≡ 0
    → b < 2 ^ m
    → (a + b) % 2 ^ n ≡ 0
    → c < 2 ^ n
    → (a + b + c) % 2 ^ k ≡ 0
    → d < 2 ^ k
    → bit_or (bit_or (bit_or a b) c) d ≡ a + b + c + d
or_four m n k a b c d h1 h2 h3 h4 h5 h6 =
    rw (bit_or-sum m a b h1 h2, bit_or-sum n (a + b) c h3 h4, bit_or-sum k (a + b + c) d h5 h6) refl

gather_b :
    (bits : ℕ)
    → immediate_b bits
      ≡ sign_extend
          (bits / 2 ^ 31 % 2 * 2 ^ 12
            + bits / 2 ^ 7 % 2 * 2 ^ 11
            + bits / 2 ^ 25 % 2 ^ 6 * 2 ^ 5
            + bits / 2 ^ 8 % 2 ^ 4 * 2)
          13
unfolding immediate_b
gather_b bits =
    rw
      (
        bit_and_mask 1 (bits / 2 ^ 31),
        bit_and_mask 1 (bits / 2 ^ 7),
        bit_and_mask 6 (bits / 2 ^ 25),
        bit_and_mask 4 (bits / 2 ^ 8),
        or_four 12 11 5 (bits / 2 ^ 31 % 2 * 2 ^ 12) (bits / 2 ^ 7 % 2 * 2 ^ 11)
            (bits / 2 ^ 25 % 2 ^ 6 * 2 ^ 5) (bits / 2 ^ 8 % 2 ^ 4 * 2) (omega arith) (omega arith)
            (omega arith) (omega arith) (omega arith) (omega arith),
      )
      refl

gather_j :
    (bits : ℕ)
    → immediate_j bits
      ≡ sign_extend
          (bits / 2 ^ 31 % 2 * 2 ^ 20
            + bits / 2 ^ 12 % 2 ^ 8 * 2 ^ 12
            + bits / 2 ^ 20 % 2 * 2 ^ 11
            + bits / 2 ^ 21 % 2 ^ 10 * 2)
          21
unfolding immediate_j
gather_j bits =
    rw
      (
        bit_and_mask 1 (bits / 2 ^ 31),
        bit_and_mask 8 (bits / 2 ^ 12),
        bit_and_mask 1 (bits / 2 ^ 20),
        bit_and_mask 10 (bits / 2 ^ 21),
        or_four 20 12 11 (bits / 2 ^ 31 % 2 * 2 ^ 20) (bits / 2 ^ 12 % 2 ^ 8 * 2 ^ 12)
            (bits / 2 ^ 20 % 2 * 2 ^ 11) (bits / 2 ^ 21 % 2 ^ 10 * 2) (omega arith) (omega arith)
            (omega arith) (omega arith) (omega arith) (omega arith),
      )
      refl

gather_u : (bits : ℕ) → immediate_u bits ≡ sign_extend (bits / 2 ^ 12 % 2 ^ 20 * 2 ^ 12) 32
unfolding immediate_u
gather_u bits = rw (high_mask 12 20 bits) refl

-- An immediate that an assembler puts into an encoding comes out as its value, sign-extended to 64
-- bits: for each format, a value that fits and is a multiple of the format's granularity.
pub place_then_decode :
    (f : Format) (bits v : ℕ)
    → v < 2 ^ suc (sign_position f)
    → v % granularity f ≡ 0
    → immediate_of f (place f bits v)
      ≡ (if ltb v (2 ^ sign_position f) then v else 2 ^ 64 - 2 ^ suc (sign_position f) + v)
unfolding immediate_i
place_then_decode format_i bits v h k = ground (arith, sign_extend_value 11 v)
place_then_decode format_s bits v h k =
    ground (arith, gather_s (place format_s bits v), sign_extend_value 11 v)
place_then_decode format_b bits v h k =
    ground (arith, gather_b (place format_b bits v), sign_extend_value 12 v)
place_then_decode format_u bits v h k =
    ground (arith, gather_u (place format_u bits v), sign_extend_value 31 v)
place_then_decode format_j bits v h k =
    ground (arith, gather_j (place format_j bits v), sign_extend_value 20 v)
