-- ===== src/Core/Cpu/Dispatch.antt =====
-- src/core/cpu.cpp: `execute_standard`, the switch on the opcode, and `execute`. The floating-point
-- instructions, which core/cpu_floating.cpp and vector/vector_floating.cpp hold, are a parameter.
use homemade_risc_v_64_vecto.Base.{
  ℕ, add64, u16, Bool, ◌||◌, ◌==◌, if◌then◌else◌, Option, none, some,
}
use homemade_risc_v_64_vecto.Bus.Region.{RegionOps}
use homemade_risc_v_64_vecto.Core.Trap.{Trap, illegal_instruction, exception_code}
use homemade_risc_v_64_vecto.Core.Decoder.{
  InstructionPacket, DecodedInstruction, compressed, decode, immediate_u,
}
use homemade_risc_v_64_vecto.Core.Compressed.Expand.{decompress_rv64c}
use homemade_risc_v_64_vecto.Core.Cpu.State.{integer}
use homemade_risc_v_64_vecto.Core.Cpu.Alu.{op_imm, op_imm_32, op, op_32, extended}
use homemade_risc_v_64_vecto.Core.Cpu.Guest.{Cpu, StepResult}
use homemade_risc_v_64_vecto.Core.Cpu.Execute.{
  Outcome, illegal, write_and_retire, write_result, jal, jalr, branch, fence, scalar_load,
  scalar_store,
}
use homemade_risc_v_64_vecto.Core.Cpu.Atomic.{atomic_instruction}
use homemade_risc_v_64_vecto.Core.Cpu.System.{execute_system}
use homemade_risc_v_64_vecto.Core.Cpu.VectorConfig.{execute_vector_configuration}
use homemade_risc_v_64_vecto.Core.Cpu.VectorMemory.{execute_vector_memory}
use homemade_risc_v_64_vecto.Core.Cpu.VectorInteger.{execute_vector_integer}
use homemade_risc_v_64_vecto.Vector.Integer.{
  VectorIntegerInstruction, decode_vector_integer_instruction,
}
use homemade_risc_v_64_vecto.Vector.Memory.{VectorMemoryOperation, decode_vector_memory_operation}

-- The floating-point side of the hart: `vector_floating` is `none` for an encoding that is not one
-- of its vector instructions.
pub record FloatingUnit (D : Type 0) : Type 0 where
  pub execute_floating : Cpu D → InstructionPacket → DecodedInstruction → ℕ → Outcome D
  pub vector_floating : InstructionPacket → Option (Cpu D → ℕ → Outcome D)

abbrev pub is_floating_opcode : ℕ → Bool
is_floating_opcode opcode =
    opcode == 0x43 || opcode == 0x47 || opcode == 0x4B || opcode == 0x4F || opcode == 0x53

abbrev pub sequential : InstructionPacket → ℕ
sequential packet = add64 packet.program_counter packet.length

-- The trap of an expanded instruction names the encoding that the guest holds.
abbrev pub original_trap : ℕ → Trap → Trap
original_trap bits trap = record trap {
  instruction = bits;
  value =
      if exception_code trap.cause == exception_code illegal_instruction then bits else trap.value;
}

abbrev pub original_result : ℕ → StepResult → StepResult
original_result bits result = elim result.trap [
  | none ↦ result
  | some trap ↦ record result { trap = some (original_trap bits trap) }
]

module _ {D : Type 0} where
  unfoldable pub restore_encoding : ℕ → Outcome D → Outcome D
  restore_encoding bits none = none
  restore_encoding bits (some (result, c)) = some (original_result bits result, c)

module _ {D : Type 0} (ops : RegionOps D) (unit : FloatingUnit D) (fuel : ℕ) where
  unfoldable pub vector_or_configuration :
      Cpu D → InstructionPacket → DecodedInstruction → Option VectorIntegerInstruction → Outcome D
  vector_or_configuration c packet instruction none =
      execute_vector_configuration c packet instruction (sequential packet)
  vector_or_configuration c packet instruction (some vector) =
      execute_vector_integer c packet vector (sequential packet)

  -- OP-V.
  unfoldable pub vector_instruction :
      Cpu D → InstructionPacket → DecodedInstruction → Option (Cpu D → ℕ → Outcome D) → Outcome D
  vector_instruction c packet instruction (some floating) = floating c (sequential packet)
  vector_instruction c packet instruction none =
      vector_or_configuration c packet instruction (decode_vector_integer_instruction packet.bits)

  -- LOAD-FP and STORE-FP.
  unfoldable pub floating_memory :
      Cpu D → InstructionPacket → DecodedInstruction → Option VectorMemoryOperation → Outcome D
  floating_memory c packet instruction (some operation) =
      execute_vector_memory ops fuel c packet operation (sequential packet)
  floating_memory c packet instruction none =
      unit.execute_floating c packet instruction (sequential packet)

  -- The switch, with the two source registers read.
  unfoldable pub execute_opcode : Cpu D → InstructionPacket → DecodedInstruction → ℕ → ℕ → Outcome D
  execute_opcode c packet instruction source1 source2 =
      let next = sequential packet in
      let opcode = instruction.opcode in
      if opcode == 0x57
      then vector_instruction c packet instruction (unit.vector_floating packet)
      else if opcode == 0x37
      then write_and_retire c packet instruction.destination (immediate_u packet.bits) next
      else if opcode == 0x17
      then write_and_retire c packet instruction.destination
          (add64 packet.program_counter (immediate_u packet.bits)) next
      else if opcode == 0x6F
      then jal c packet instruction next
      else if opcode == 0x67
      then jalr c packet instruction source1 next
      else if opcode == 0x63
      then branch c packet instruction source1 source2 next
      else if opcode == 0x03
      then scalar_load ops fuel c packet instruction source1 next
      else if opcode == 0x23
      then scalar_store ops fuel c packet instruction source1 source2 next
      else if opcode == 0x13
      then write_result c packet instruction next (op_imm packet.bits instruction.function3 source1)
      else if opcode == 0x1B
      then write_result c packet instruction next
          (extended (op_imm_32 packet.bits instruction source1))
      else if opcode == 0x33
      then write_result c packet instruction next (op instruction source1 source2)
      else if opcode == 0x3B
      then write_result c packet instruction next (op_32 instruction source1 source2)
      else if opcode == 0x2F
      then atomic_instruction ops fuel c packet instruction source1 source2 next
      else if opcode == 0x07 || opcode == 0x27
      then floating_memory c packet instruction
          (decode_vector_memory_operation packet.bits (opcode == 0x07))
      else if is_floating_opcode opcode
      then unit.execute_floating c packet instruction next
      else if opcode == 0x0F
      then fence c packet instruction next
      else if opcode == 0x73
      then execute_system c packet instruction source1 next
      else illegal c packet

  unfoldable pub execute_decoded :
      Cpu D → InstructionPacket → DecodedInstruction → Option ℕ → Option ℕ → Outcome D
  execute_decoded c packet instruction none source2 = none
  execute_decoded c packet instruction (some source1) none = none
  execute_decoded c packet instruction (some source1) (some source2) =
      execute_opcode c packet instruction source1 source2

  unfoldable pub execute_standard : Cpu D → InstructionPacket → Outcome D
  execute_standard c packet =
      let instruction = decode packet.bits in
      execute_decoded c packet instruction (integer c.state instruction.source1)
        (integer c.state instruction.source2)

  unfoldable pub execute_expanded : Cpu D → InstructionPacket → Option ℕ → Outcome D
  execute_expanded c packet none = illegal c packet
  execute_expanded c packet (some expanded) =
      restore_encoding packet.bits (execute_standard c (record packet { bits = expanded }))

  unfoldable pub execute : Cpu D → InstructionPacket → Outcome D
  execute c packet =
      if compressed packet
      then execute_expanded c packet (decompress_rv64c (u16 packet.bits))
      else execute_standard c packet
