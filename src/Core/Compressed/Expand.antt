-- ===== src/Core/Compressed/Expand.antt =====
-- src/core/compressed_decoder.cpp: the three quadrants of compressed encodings. `none` is a reserved
-- encoding.
use homemade_risc_v_64_vecto.Base.{
  ℕ, ◌*◌, ◌^◌, bit_and, bit_or, u64, shr, not, ◌||◌, ◌&&◌, ltb, ◌==◌, if◌then◌else◌, Option, none,
  some,
}
use homemade_risc_v_64_vecto.Core.Decoder.{sign_extend}
use homemade_risc_v_64_vecto.Core.Compressed.Encode.{
  nop, ebreak, field, compact_register, full_register, encode_i, encode_r, encode_s, encode_b,
  encode_j, six_bits, ci_immediate, jump_immediate, branch_immediate,
}

unfoldable pub decompress_quadrant0 : ℕ → ℕ → Option ℕ
decompress_quadrant0 bits function3 =
    let destination = compact_register (shr bits 2) in
    let source1 = compact_register (shr bits 7) in
    let source2 = compact_register (shr bits 2) in
    let stack =
      bit_or (bit_or (bit_or (field bits 7 0xF 6) (field bits 11 3 4)) (field bits 5 1 3))
        (field bits 6 1 2) in
    let double = bit_or (field bits 5 3 6) (field bits 10 7 3) in
    let single = bit_or (bit_or (field bits 5 1 6) (field bits 10 7 3)) (field bits 6 1 2) in
    if function3 == 0
    then if stack == 0 then none else some (encode_i 0x13 destination 0 2 stack)
    else if function3 == 1 || function3 == 3
    then some (encode_i (if function3 == 1 then 0x07 else 0x03) destination 3 source1 double)
    else if function3 == 2
    then some (encode_i 0x03 destination 2 source1 single)
    else if function3 == 5 || function3 == 7
    then some (encode_s (if function3 == 5 then 0x27 else 0x23) 3 source1 source2 double)
    else if function3 == 6
    then some (encode_s 0x23 2 source1 source2 single)
    else none

-- The table `functions` of `decompress_misc_alu`.
abbrev pub misc_function : ℕ → ℕ
misc_function function2 =
    if function2 == 0 then 0 else if function2 == 1 then 4 else if function2 == 2 then 6 else 7

unfoldable pub decompress_misc_alu : ℕ → Option ℕ
decompress_misc_alu bits =
    let destination = compact_register (shr bits 7) in
    let selector = bit_and (shr bits 10) 3 in
    let shift = six_bits bits in
    let source2 = compact_register (shr bits 2) in
    let function2 = bit_and (shr bits 5) 3 in
    if ltb selector 2
    then if shift == 0
      then some nop
      else some (
          encode_i 0x13 destination 5 destination
            (if selector == 0 then shift else bit_or 0x400 shift))
    else if selector == 2
    then some (encode_i 0x13 destination 7 destination (ci_immediate bits))
    else if bit_and (shr bits 12) 1 == 0
    then some (
        encode_r 0x33 destination (misc_function function2) destination source2
          (if function2 == 0 then 0x20 else 0))
    else if ltb 1 function2
    then none
    else some (encode_r 0x3B destination 0 destination source2 (if function2 == 0 then 0x20 else 0))

-- C.ADDI16SP and C.LUI.
unfoldable pub decompress_lui : ℕ → ℕ → ℕ → Option ℕ
decompress_lui bits destination immediate =
    let encoded =
      bit_or
        (bit_or (bit_or (bit_or (field bits 12 1 9) (field bits 6 1 4)) (field bits 5 1 6))
          (field bits 3 3 7))
        (field bits 2 1 5) in
    let stack_immediate = sign_extend encoded 10 in
    if destination == 2
    then if stack_immediate == 0 then none else some (encode_i 0x13 2 0 2 stack_immediate)
    else if immediate == 0
    then none
    else if destination == 0
    then some nop
    else some
        (bit_or (bit_or (bit_and (u64 (immediate * 2 ^ 12)) 0xFFFFF000) (destination * 2 ^ 7)) 0x37)

unfoldable pub decompress_quadrant1 : ℕ → ℕ → Option ℕ
decompress_quadrant1 bits function3 =
    let destination = full_register bits 7 in
    let immediate = ci_immediate bits in
    if function3 == 0
    then if destination == 0 || immediate == 0
      then some nop
      else some (encode_i 0x13 destination 0 destination immediate)
    else if function3 == 1
    then if destination == 0 then none else some (encode_i 0x1B destination 0 destination immediate)
    else if function3 == 2
    then if destination == 0 then some nop else some (encode_i 0x13 destination 0 0 immediate)
    else if function3 == 3
    then decompress_lui bits destination immediate
    else if function3 == 4
    then decompress_misc_alu bits
    else if function3 == 5
    then some (encode_j (jump_immediate bits))
    else if function3 == 6 || function3 == 7
    then some (
        encode_b (if function3 == 6 then 0 else 1) (compact_register (shr bits 7)) 0
          (branch_immediate bits))
    else none

unfoldable pub decompress_cr : ℕ → Option ℕ
decompress_cr bits =
    let destination = full_register bits 7 in
    let source2 = full_register bits 2 in
    let high_bit = not (bit_and (shr bits 12) 1 == 0) in
    if not high_bit && source2 == 0
    then if destination == 0 then none else some (encode_i 0x67 0 0 destination 0)
    else if not high_bit
    then if destination == 0 then some nop else some (encode_r 0x33 destination 0 0 source2 0)
    else if source2 == 0
    then if destination == 0 then some ebreak else some (encode_i 0x67 1 0 destination 0)
    else if destination == 0
    then some nop
    else some (encode_r 0x33 destination 0 destination source2 0)

unfoldable pub decompress_quadrant2 : ℕ → ℕ → Option ℕ
decompress_quadrant2 bits function3 =
    let destination = full_register bits 7 in
    let source2 = full_register bits 2 in
    let shift = six_bits bits in
    let load_double = bit_or (bit_or (field bits 2 7 6) (field bits 12 1 5)) (field bits 5 3 3) in
    let load_word = bit_or (bit_or (field bits 2 3 6) (field bits 12 1 5)) (field bits 4 7 2) in
    if function3 == 0
    then if destination == 0 || shift == 0
      then some nop
      else some (encode_i 0x13 destination 1 destination shift)
    else if function3 == 1 || function3 == 3
    then if function3 == 3 && destination == 0
      then none
      else some (encode_i (if function3 == 1 then 0x07 else 0x03) destination 3 2 load_double)
    else if function3 == 2
    then if destination == 0 then none else some (encode_i 0x03 destination 2 2 load_word)
    else if function3 == 4
    then decompress_cr bits
    else if function3 == 5 || function3 == 7
    then some (
        encode_s (if function3 == 5 then 0x27 else 0x23) 3 2 source2
          (bit_or (field bits 7 7 6) (field bits 10 7 3)))
    else if function3 == 6
    then some (encode_s 0x23 2 2 source2 (bit_or (field bits 7 3 6) (field bits 9 0xF 2)))
    else none

unfoldable pub decompress_rv64c : ℕ → Option ℕ
decompress_rv64c bits =
    let quadrant = bit_and bits 3 in
    let function3 = bit_and (shr bits 13) 7 in
    if quadrant == 0
    then decompress_quadrant0 bits function3
    else if quadrant == 1
    then decompress_quadrant1 bits function3
    else if quadrant == 2
    then decompress_quadrant2 bits function3
    else none
