-- ===== src/Vector/Configuration.antt =====
-- src/vector/vector_configuration.cpp: vtype, the vector length and the configuration of a memory
-- access of another element width.
use homemade_risc_v_64_vecto.Base.{
  ℕ, zero, suc, ◌-◌, ◌*◌, ◌/◌, ◌^◌, bit_and, not64, shr, Bool, true, false, not, ◌||◌, ◌&&◌, ltb,
  ◌==◌, if◌then◌else◌, Option, none, some, List, [], ◌∷◌,
}

abbrev pub vector_length_bits : ℕ
vector_length_bits = 256

abbrev pub vtype_vill : ℕ
vtype_vill = 2 ^ 63

abbrev pub vtype_implemented_mask : ℕ
vtype_implemented_mask = 0xFF

abbrev pub maximum_element_length_bits : ℕ
maximum_element_length_bits = 64

pub record VectorConfiguration : Type 0 where
  pub valid : Bool
  pub vtype : ℕ
  pub sew_bits : ℕ
  pub lmul_numerator : ℕ
  pub lmul_denominator : ℕ
  pub vlmax : ℕ

abbrev pub illegal_configuration : VectorConfiguration
illegal_configuration = record {
  valid = false;
  vtype = vtype_vill;
  sew_bits = 0;
  lmul_numerator = 0;
  lmul_denominator = 1;
  vlmax = 0;
}

-- The rational LMUL of an encoding.
unfoldable pub decode_lmul : ℕ → Option (ℕ × ℕ)
decode_lmul encoding =
    if encoding == 0
    then some (1, 1)
    else if encoding == 1
    then some (2, 1)
    else if encoding == 2
    then some (4, 1)
    else if encoding == 3
    then some (8, 1)
    else if encoding == 5
    then some (1, 8)
    else if encoding == 6
    then some (1, 4)
    else if encoding == 7
    then some (1, 2)
    else none

-- The checks from the element width on.
unfoldable pub configuration_of : ℕ → ℕ → Option (ℕ × ℕ) → VectorConfiguration
configuration_of vtype sew_bits none = illegal_configuration
configuration_of vtype sew_bits (some (numerator, denominator)) =
    let vlmax = vector_length_bits / sew_bits * numerator / denominator in
    if ltb (maximum_element_length_bits * numerator / denominator) sew_bits
    then illegal_configuration
    else if vlmax == 0
    then illegal_configuration
    else record {
      valid = true;
      vtype = vtype;
      sew_bits = sew_bits;
      lmul_numerator = numerator;
      lmul_denominator = denominator;
      vlmax = vlmax;
    }

unfoldable pub decode_vector_configuration : ℕ → VectorConfiguration
decode_vector_configuration vtype =
    let vsew = bit_and (shr vtype 3) 7 in
    if not (bit_and vtype vtype_vill == 0)
      || not (bit_and vtype (not64 vtype_implemented_mask) == 0)
    then illegal_configuration
    else if ltb 3 vsew
    then illegal_configuration
    else configuration_of vtype (8 * 2 ^ vsew) (decode_lmul (bit_and vtype 7))

unfoldable pub select_vector_length : ℕ → ℕ → ℕ
select_vector_length application_vector_length vlmax =
    if vlmax == 0
    then 0
    else if ltb application_vector_length vlmax
    then application_vector_length
    else vlmax

unfoldable pub can_preserve_vector_length : ℕ → ℕ → Bool
can_preserve_vector_length previous_vtype requested_vtype =
    let previous = decode_vector_configuration previous_vtype in
    let requested = decode_vector_configuration requested_vtype in
    previous.valid && requested.valid && previous.vlmax == requested.vlmax

-- The loop that cancels common factors of two, for at most as many rounds as `fuel`. Both numbers
-- are positive and below 2 ^ 10, so ten rounds are enough.
unfoldable pub cancel_twos : ℕ → ℕ → ℕ → ℕ × ℕ
cancel_twos zero numerator denominator = (numerator, denominator)
cancel_twos (suc fuel) numerator denominator =
    let rest = cancel_twos fuel (numerator / 2) (denominator / 2) in
    if bit_and numerator 1 == 0 && bit_and denominator 1 == 0
    then rest
    else (numerator, denominator)

abbrev pub lmul_equals : Option (ℕ × ℕ) → ℕ → ℕ → Bool
lmul_equals none numerator denominator = false
lmul_equals (some (n, d)) numerator denominator = n == numerator && d == denominator

-- The search through the encodings.
unfoldable pub lmul_supported : List ℕ → ℕ → ℕ → Bool
lmul_supported [] numerator denominator = false
lmul_supported (encoding ∷ rest) numerator denominator =
    lmul_equals (decode_lmul encoding) numerator denominator
    || lmul_supported rest numerator denominator

unfoldable pub derive_memory_configuration : VectorConfiguration → ℕ → Option VectorConfiguration
derive_memory_configuration current element_width_bits =
    let (numerator, denominator) =
      cancel_twos 10 (current.lmul_numerator * element_width_bits)
        (current.lmul_denominator * current.sew_bits) in
    if not current.valid
      || ltb element_width_bits 8
      || ltb 64 element_width_bits
      || not (bit_and element_width_bits (element_width_bits - 1) == 0)
    then none
    else if not (lmul_supported (0 ∷ 1 ∷ 2 ∷ 3 ∷ 4 ∷ 5 ∷ 6 ∷ 7 ∷ []) numerator denominator)
    then none
    else some (record {
      valid = true;
      vtype = current.vtype;
      sew_bits = element_width_bits;
      lmul_numerator = numerator;
      lmul_denominator = denominator;
      vlmax = current.vlmax;
    })
