-- ===== src/Core/Compressed/Encode.antt =====
-- src/core/compressed_decoder.cpp: the encoders of the base formats, and the immediates of the
-- compressed ones. A shifted field is below 2 ^ 32, so no shift loses a bit.
use homemade_risc_v_64_vecto.Base.{ℕ, ◌+◌, ◌*◌, ◌^◌, bit_and, bit_or, shr}
use homemade_risc_v_64_vecto.Core.Decoder.{sign_extend}

abbrev pub nop : ℕ
nop = 0x00000013

abbrev pub ebreak : ℕ
ebreak = 0x00100073

-- `((bits >> shift) & mask) << place`.
abbrev pub field : ℕ → ℕ → ℕ → ℕ → ℕ
field bits shift mask place = bit_and (shr bits shift) mask * 2 ^ place

abbrev pub compact_register : ℕ → ℕ
compact_register f = 8 + bit_and f 7

abbrev pub full_register : ℕ → ℕ → ℕ
full_register bits shift = bit_and (shr bits shift) 0x1F

unfoldable pub encode_i : ℕ → ℕ → ℕ → ℕ → ℕ → ℕ
encode_i opcode destination function3 source immediate =
    bit_or
      (bit_or
        (bit_or (bit_or (bit_and immediate 0xFFF * 2 ^ 20) (source * 2 ^ 15)) (function3 * 2 ^ 12))
        (destination * 2 ^ 7))
      opcode

unfoldable pub encode_r : ℕ → ℕ → ℕ → ℕ → ℕ → ℕ → ℕ
encode_r opcode destination function3 source1 source2 function7 =
    bit_or
      (bit_or
        (bit_or (bit_or (bit_or (function7 * 2 ^ 25) (source2 * 2 ^ 20)) (source1 * 2 ^ 15))
          (function3 * 2 ^ 12))
        (destination * 2 ^ 7))
      opcode

unfoldable pub encode_s : ℕ → ℕ → ℕ → ℕ → ℕ → ℕ
encode_s opcode function3 source1 source2 immediate =
    let encoded = bit_and immediate 0xFFF in
    bit_or
      (bit_or
        (bit_or (bit_or (bit_or (shr encoded 5 * 2 ^ 25) (source2 * 2 ^ 20)) (source1 * 2 ^ 15))
          (function3 * 2 ^ 12))
        (bit_and encoded 0x1F * 2 ^ 7))
      opcode

unfoldable pub encode_b : ℕ → ℕ → ℕ → ℕ → ℕ
encode_b function3 source1 source2 immediate =
    let encoded = bit_and immediate 0x1FFF in
    bit_or
      (bit_or
        (bit_or
          (bit_or
            (bit_or
              (bit_or (bit_or (field encoded 12 1 31) (field encoded 5 0x3F 25)) (source2 * 2 ^ 20))
              (source1 * 2 ^ 15))
            (function3 * 2 ^ 12))
          (field encoded 1 0x0F 8))
        (field encoded 11 1 7))
      0x63

unfoldable pub encode_j : ℕ → ℕ
encode_j immediate =
    let encoded = bit_and immediate 0x1FFFFF in
    bit_or
      (bit_or
        (bit_or (bit_or (field encoded 20 1 31) (field encoded 1 0x3FF 21)) (field encoded 11 1 20))
        (field encoded 12 0xFF 12))
      0x6F

-- Six bits of the encoding, as the CI format and the shift amounts hold them.
abbrev pub six_bits : ℕ → ℕ
six_bits bits = bit_or (bit_and (shr bits 7) 0x20) (bit_and (shr bits 2) 0x1F)

unfoldable pub ci_immediate : ℕ → ℕ
ci_immediate bits = sign_extend (six_bits bits) 6

unfoldable pub jump_immediate : ℕ → ℕ
jump_immediate bits =
    sign_extend
      (bit_or
        (bit_or
          (bit_or
            (bit_or
              (bit_or (bit_or (bit_or (field bits 12 1 11) (field bits 11 1 4)) (field bits 9 3 8))
                (field bits 8 1 10))
              (field bits 7 1 6))
            (field bits 6 1 7))
          (field bits 3 7 1))
        (field bits 2 1 5))
      12

unfoldable pub branch_immediate : ℕ → ℕ
branch_immediate bits =
    sign_extend
      (bit_or
        (bit_or (bit_or (bit_or (field bits 12 1 8) (field bits 10 3 3)) (field bits 5 3 6))
          (field bits 3 3 1))
        (field bits 2 1 5))
      9
