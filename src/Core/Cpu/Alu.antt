-- ===== src/Core/Cpu/Alu.antt =====
-- src/core/cpu.cpp: the integer operations of `execute_standard`. `none` is an illegal instruction.
use homemade_risc_v_64_vecto.Base.{
  ℕ, ◌+◌, ◌-◌, ◌*◌, ◌^◌, bit_and, bit_or, bit_xor, u32, shl64, shr, add64, sub64, Bool, true, false,
  not, ◌&&◌, ltb, ◌==◌, if◌then◌else◌, Option, none, some,
}
use homemade_risc_v_64_vecto.Core.Decoder.{DecodedInstruction, sign_extend, immediate_i}
use homemade_risc_v_64_vecto.Core.IntegerM.{execute_integer_m}

unfoldable pub signed_less : ℕ → ℕ → Bool
signed_less lhs rhs = ltb (bit_xor lhs (2 ^ 63)) (bit_xor rhs (2 ^ 63))

unfoldable pub arithmetic_shift_right64 : ℕ → ℕ → ℕ
arithmetic_shift_right64 value amount =
    if amount == 0
    then value
    else let result = shr value amount in
      if not (bit_and value (2 ^ 63) == 0)
      then bit_or result (shl64 (2 ^ 64 - 1) (64 - amount))
      else result

unfoldable pub arithmetic_shift_right32 : ℕ → ℕ → ℕ
arithmetic_shift_right32 value amount =
    if amount == 0
    then value
    else let result = shr value amount in
      if not (bit_and value (2 ^ 31) == 0)
      then bit_or result (u32 ((2 ^ 32 - 1) * 2 ^ (32 - amount)))
      else result

unfoldable pub sign_extend_word : ℕ → ℕ
sign_extend_word value = sign_extend (bit_and value 0xFFFFFFFF) 32

abbrev pub truth : Bool → ℕ
truth b = if b then 1 else 0

-- Whether a conditional branch is taken.
unfoldable pub branch_taken : ℕ → ℕ → ℕ → Option Bool
branch_taken function3 source1 source2 =
    if function3 == 0
    then some (source1 == source2)
    else if function3 == 1
    then some (not (source1 == source2))
    else if function3 == 4
    then some (signed_less source1 source2)
    else if function3 == 5
    then some (not (signed_less source1 source2))
    else if function3 == 6
    then some (ltb source1 source2)
    else if function3 == 7
    then some (not (ltb source1 source2))
    else none

-- OP-IMM: the instruction's bits give the immediate, and the shift with its selector.
unfoldable pub op_imm : ℕ → ℕ → ℕ → Option ℕ
op_imm bits function3 source1 =
    let immediate = immediate_i bits in
    let function6 = bit_and (shr bits 26) 0x3F in
    let amount = bit_and (shr bits 20) 0x3F in
    if function3 == 0
    then some (add64 source1 immediate)
    else if function3 == 2
    then some (truth (signed_less source1 immediate))
    else if function3 == 3
    then some (truth (ltb source1 immediate))
    else if function3 == 4
    then some (bit_xor source1 immediate)
    else if function3 == 6
    then some (bit_or source1 immediate)
    else if function3 == 7
    then some (bit_and source1 immediate)
    else if function3 == 1
    then if not (function6 == 0) then none else some (shl64 source1 amount)
    else if function3 == 5
    then if function6 == 0
      then some (shr source1 amount)
      else if function6 == 0x10
      then some (arithmetic_shift_right64 source1 amount)
      else none
    else none

-- OP-IMM-32, before the sign extension of its result.
unfoldable pub op_imm_32 : ℕ → DecodedInstruction → ℕ → Option ℕ
op_imm_32 bits instruction source1 =
    let source_word = bit_and source1 0xFFFFFFFF in
    let amount = bit_and (shr bits 20) 0x1F in
    if instruction.function3 == 0
    then some (u32 (source_word + u32 (immediate_i bits)))
    else if instruction.function3 == 1
    then if not (instruction.function7 == 0) then none else some (u32 (source_word * 2 ^ amount))
    else if instruction.function3 == 5
    then if instruction.function7 == 0
      then some (shr source_word amount)
      else if instruction.function7 == 0x20
      then some (arithmetic_shift_right32 source_word amount)
      else none
    else none

-- The operations of OP with `funct7` zero.
unfoldable pub op_base : ℕ → ℕ → ℕ → Option ℕ
op_base function3 source1 source2 =
    if function3 == 0
    then some (add64 source1 source2)
    else if function3 == 1
    then some (shl64 source1 (bit_and source2 0x3F))
    else if function3 == 2
    then some (truth (signed_less source1 source2))
    else if function3 == 3
    then some (truth (ltb source1 source2))
    else if function3 == 4
    then some (bit_xor source1 source2)
    else if function3 == 5
    then some (shr source1 (bit_and source2 0x3F))
    else if function3 == 6
    then some (bit_or source1 source2)
    else if function3 == 7
    then some (bit_and source1 source2)
    else none

unfoldable pub op : DecodedInstruction → ℕ → ℕ → Option ℕ
op instruction source1 source2 =
    if instruction.function7 == 0x01
    then execute_integer_m instruction.function3 source1 source2 false
    else if instruction.function7 == 0
    then op_base instruction.function3 source1 source2
    else if instruction.function7 == 0x20 && instruction.function3 == 0x0
    then some (sub64 source1 source2)
    else if instruction.function7 == 0x20 && instruction.function3 == 0x5
    then some (arithmetic_shift_right64 source1 (bit_and source2 0x3F))
    else none

-- The operations of OP-32 outside the M extension, before the sign extension of their result.
unfoldable pub op_word : DecodedInstruction → ℕ → ℕ → Option ℕ
op_word instruction source1 source2 =
    let lhs = bit_and source1 0xFFFFFFFF in
    let rhs = bit_and source2 0xFFFFFFFF in
    if instruction.function7 == 0 && instruction.function3 == 0x0
    then some (u32 (lhs + rhs))
    else if instruction.function7 == 0x20 && instruction.function3 == 0x0
    then some (u32 (lhs + 2 ^ 32 - rhs))
    else if instruction.function7 == 0 && instruction.function3 == 0x1
    then some (u32 (lhs * 2 ^ bit_and rhs 0x1F))
    else if instruction.function7 == 0 && instruction.function3 == 0x5
    then some (shr lhs (bit_and rhs 0x1F))
    else if instruction.function7 == 0x20 && instruction.function3 == 0x5
    then some (arithmetic_shift_right32 lhs (bit_and rhs 0x1F))
    else none

abbrev pub extended : Option ℕ → Option ℕ
extended none = none
extended (some word) = some (sign_extend_word word)

unfoldable pub op_32 : DecodedInstruction → ℕ → ℕ → Option ℕ
op_32 instruction source1 source2 =
    if instruction.function7 == 0x01
    then execute_integer_m instruction.function3 source1 source2 true
    else extended (op_word instruction source1 source2)
