-- ===== src/Core/Decoder.antt =====
-- src/core/decoder.cpp and include/rvemu/core/instruction.hpp: the fields and immediates of a 32-bit
-- encoding, and sign extension.
use homemade_risc_v_64_vecto.Base.{
  ℕ, ◌-◌, ◌*◌, ◌^◌, bit_and, bit_or, bit_xor, shr, sub64, ◌||◌, Bool, leb, ◌==◌, if◌then◌else◌,
}

pub record InstructionPacket : Type 0 where
  pub program_counter : ℕ
  pub bits : ℕ
  pub length : ℕ

abbrev pub compressed : InstructionPacket → Bool
compressed packet = packet.length == 2

pub record DecodedInstruction : Type 0 where
  pub bits : ℕ
  pub opcode : ℕ
  pub destination : ℕ
  pub function3 : ℕ
  pub source1 : ℕ
  pub source2 : ℕ
  pub function7 : ℕ

unfoldable pub decode : ℕ → DecodedInstruction
decode bits = record {
  bits = bits;
  opcode = bit_and bits 0x7F;
  destination = bit_and (shr bits 7) 0x1F;
  function3 = bit_and (shr bits 12) 0x07;
  source1 = bit_and (shr bits 15) 0x1F;
  source2 = bit_and (shr bits 20) 0x1F;
  function7 = bit_and (shr bits 25) 0x7F;
}

unfoldable pub sign_extend : ℕ → ℕ → ℕ
sign_extend value width =
    if width == 0 || leb 64 width
    then value
    else let mask = 2 ^ width - 1 in
      let sign = 2 ^ (width - 1) in
      let narrowed = bit_and value mask in sub64 (bit_xor narrowed sign) sign

unfoldable pub immediate_i : ℕ → ℕ
immediate_i bits = sign_extend (shr bits 20) 12

unfoldable pub immediate_s : ℕ → ℕ
immediate_s bits =
    let upper = bit_and (shr bits 25) 0x7F * 2 ^ 5 in
    let lower = bit_and (shr bits 7) 0x1F in sign_extend (bit_or upper lower) 12

unfoldable pub immediate_b : ℕ → ℕ
immediate_b bits =
    let bit12 = bit_and (shr bits 31) 0x01 * 2 ^ 12 in
    let bit11 = bit_and (shr bits 7) 0x01 * 2 ^ 11 in
    let bits10_5 = bit_and (shr bits 25) 0x3F * 2 ^ 5 in
    let bits4_1 = bit_and (shr bits 8) 0x0F * 2 ^ 1 in
    sign_extend (bit_or (bit_or (bit_or bit12 bit11) bits10_5) bits4_1) 13

unfoldable pub immediate_u : ℕ → ℕ
immediate_u bits = sign_extend (bit_and bits 0xFFFFF000) 32

unfoldable pub immediate_j : ℕ → ℕ
immediate_j bits =
    let bit20 = bit_and (shr bits 31) 0x01 * 2 ^ 20 in
    let bits19_12 = bit_and (shr bits 12) 0xFF * 2 ^ 12 in
    let bit11 = bit_and (shr bits 20) 0x01 * 2 ^ 11 in
    let bits10_1 = bit_and (shr bits 21) 0x3FF * 2 ^ 1 in
    sign_extend (bit_or (bit_or (bit_or bit20 bits19_12) bit11) bits10_1) 21
