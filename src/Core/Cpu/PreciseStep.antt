-- ===== src/Core/Cpu/PreciseStep.antt =====
-- src/core/cpu.cpp: every instruction that `execute` runs retires or traps precisely, if those of the
-- floating-point unit do.
use homemade_risc_v_64_vecto.Base.{ℕ, if◌then◌else◌, ◌||◌, ◌==◌, Bool, Option, none, some}
use homemade_risc_v_64_vecto.Bus.Region.{RegionOps}
use homemade_risc_v_64_vecto.Core.Trap.{Trap}
use homemade_risc_v_64_vecto.Core.Decoder.{
  InstructionPacket, DecodedInstruction, compressed, decode,
}
use homemade_risc_v_64_vecto.Core.Cpu.State.{CpuState}
use homemade_risc_v_64_vecto.Core.Cpu.Alu.{branch_taken, op_imm, op_imm_32, op, op_32, extended}
use homemade_risc_v_64_vecto.Core.Cpu.Guest.{Cpu}
use homemade_risc_v_64_vecto.Core.Cpu.Execute.{Outcome, branch}
use homemade_risc_v_64_vecto.Core.Cpu.Dispatch.{
  FloatingUnit, is_floating_opcode, vector_or_configuration, vector_instruction, floating_memory,
  execute_opcode, execute_decoded, execute_standard, restore_encoding, execute_expanded, execute,
  original_result,
}
use homemade_risc_v_64_vecto.Core.Cpu.Precise.{
  IsPrecise, Ends, pick, write-IsPrecise, own_illegal, jal-IsPrecise, jalr-IsPrecise,
  write_result-IsPrecise, finish_branch-IsPrecise, fence-IsPrecise,
}
use homemade_risc_v_64_vecto.Core.Cpu.PreciseAccess.{
  scalar_load-IsPrecise, scalar_store-IsPrecise, atomic_instruction-IsPrecise,
}
use homemade_risc_v_64_vecto.Core.Cpu.PreciseSystem.{
  execute_system-IsPrecise, execute_vector_configuration-IsPrecise,
}
use homemade_risc_v_64_vecto.Core.Cpu.PreciseVector.{
  execute_vector_memory-IsPrecise, execute_vector_integer-IsPrecise,
}
use homemade_risc_v_64_vecto.Vector.Integer.{VectorIntegerInstruction}
use homemade_risc_v_64_vecto.Vector.Memory.{VectorMemoryOperation, decode_vector_memory_operation}

-- A handler of a vector floating-point instruction, if the encoding has one, retires or traps
-- precisely.
abbrev pub IsPreciseHandler :
    (D : Type 0) → InstructionPacket → Option (Cpu D → ℕ → Outcome D) → Type 0
IsPreciseHandler D packet none = Unit
IsPreciseHandler D packet (some handler) =
    (c : Cpu D) (next : ℕ) → IsPrecise D c.state packet.program_counter (handler c next)

-- What is asked of a floating-point unit: its instructions retire or trap precisely.
pub record IsPreciseUnit (D : Type 0) (unit : FloatingUnit D) : Type 0 where
  pub scalar :
      (c : Cpu D) (packet : InstructionPacket) (i : DecodedInstruction) (next : ℕ)
      → IsPrecise D c.state packet.program_counter (unit.execute_floating c packet i next)
  pub vector :
      (packet : InstructionPacket) → IsPreciseHandler D packet (unit.vector_floating packet)

module _ {D : Type 0} (ops : RegionOps D) (unit : FloatingUnit D) (fuel : ℕ)
    (precise : IsPreciseUnit D unit) where
  module _ (c : Cpu D) (packet : InstructionPacket) (i : DecodedInstruction) where
    vector_or_configuration-IsPrecise :
        (o : Option VectorIntegerInstruction)
        → IsPrecise D c.state packet.program_counter
            (vector_or_configuration ops unit fuel c packet i o)
    unfolding vector_or_configuration
    vector_or_configuration-IsPrecise none = execute_vector_configuration-IsPrecise c packet i _
    vector_or_configuration-IsPrecise (some vector) =
        execute_vector_integer-IsPrecise c packet vector _

    vector_instruction-IsPrecise :
        (o : Option (Cpu D → ℕ → Outcome D))
        → IsPreciseHandler D packet o
        → IsPrecise D c.state packet.program_counter (vector_instruction ops unit fuel c packet i o)
    unfolding vector_instruction
    vector_instruction-IsPrecise none e = vector_or_configuration-IsPrecise _
    vector_instruction-IsPrecise (some handler) e = e c _

    floating_memory-IsPrecise :
        (o : Option VectorMemoryOperation)
        → IsPrecise D c.state packet.program_counter (floating_memory ops unit fuel c packet i o)
    unfolding floating_memory
    floating_memory-IsPrecise none = precise.scalar c packet i _
    floating_memory-IsPrecise (some operation) =
        execute_vector_memory-IsPrecise ops fuel c packet _ operation

    arm :
        (b : Bool) {x y : Outcome D}
        → IsPrecise D c.state packet.program_counter x
        → IsPrecise D c.state packet.program_counter y
        → IsPrecise D c.state packet.program_counter (if b then x else y)
    arm b h k = pick c.state packet b h k

    execute_opcode-IsPrecise :
        (source1 source2 : ℕ)
        → IsPrecise D c.state packet.program_counter
            (execute_opcode ops unit fuel c packet i source1 source2)
    unfolding execute_opcode branch
    execute_opcode-IsPrecise source1 source2 =
        arm (i.opcode == 0x57)
          (vector_instruction-IsPrecise (unit.vector_floating packet) (precise.vector packet))
          (arm (i.opcode == 0x37) (write-IsPrecise c.state packet c _ _ _) (
            arm (i.opcode == 0x17) (write-IsPrecise c.state packet c _ _ _) (
              arm (i.opcode == 0x6F) (jal-IsPrecise c packet i _) (
                arm (i.opcode == 0x67) (jalr-IsPrecise c packet i _ source1) (
                  arm (i.opcode == 0x63)
                    (finish_branch-IsPrecise c packet i _
                      (branch_taken i.function3 source1 source2))
                    (arm (i.opcode == 0x03) (scalar_load-IsPrecise ops fuel c packet i _ source1) (
                      arm (i.opcode == 0x23)
                        (scalar_store-IsPrecise ops fuel c packet i _ source1 source2)
                        (arm (i.opcode == 0x13)
                          (write_result-IsPrecise c packet i _
                            (op_imm packet.bits i.function3 source1))
                          (arm (i.opcode == 0x1B)
                            (write_result-IsPrecise c packet i _
                              (extended (op_imm_32 packet.bits i source1)))
                            (arm (i.opcode == 0x33)
                              (write_result-IsPrecise c packet i _ (op i source1 source2))
                              (arm (i.opcode == 0x3B)
                                (write_result-IsPrecise c packet i _ (op_32 i source1 source2))
                                (arm (i.opcode == 0x2F)
                                  (atomic_instruction-IsPrecise ops fuel c packet i source1 source2
                                    _)
                                  (arm (i.opcode == 0x07 || i.opcode == 0x27)
                                    (floating_memory-IsPrecise (
                                      decode_vector_memory_operation packet.bits
                                        (i.opcode == 0x07)))
                                    (arm (is_floating_opcode i.opcode) (precise.scalar c packet i _)
                                      (arm (i.opcode == 0x0F) (fence-IsPrecise c packet i _) (
                                        arm (i.opcode == 0x73)
                                          (execute_system-IsPrecise c packet i _ source1)
                                          (own_illegal c packet i 0)))))))))))))))))

    execute_decoded-IsPrecise :
        (source1 source2 : Option ℕ)
        → IsPrecise D c.state packet.program_counter
            (execute_decoded ops unit fuel c packet i source1 source2)
    unfolding execute_decoded
    execute_decoded-IsPrecise none source2 = record { ends = tt }
    execute_decoded-IsPrecise (some source1) none = record { ends = tt }
    execute_decoded-IsPrecise (some source1) (some source2) =
        execute_opcode-IsPrecise source1 source2

  execute_standard-IsPrecise :
      (c : Cpu D) (packet : InstructionPacket)
      → IsPrecise D c.state packet.program_counter (execute_standard ops unit fuel c packet)
  unfolding execute_standard
  execute_standard-IsPrecise c packet = execute_decoded-IsPrecise c packet (decode packet.bits) _ _

  module _ (c : Cpu D) (packet : InstructionPacket) where
    original-Ends :
        (retired stalled : Bool) (length : ℕ) (trap : Option Trap) (t : CpuState)
        → Ends c.state packet.program_counter
            (record {
              retired = retired;
              stalled = stalled;
              instruction_length = length;
              trap = trap;
            })
            t
        → Ends c.state packet.program_counter
            (original_result packet.bits (record {
              retired = retired;
              stalled = stalled;
              instruction_length = length;
              trap = trap;
            }))
            t
    original-Ends retired stalled length none t h = h
    original-Ends retired stalled length (some trap) t h = h

    restore_encoding-IsPrecise :
        (o : Outcome D)
        → IsPrecise D c.state packet.program_counter o
        → IsPrecise D c.state packet.program_counter (restore_encoding packet.bits o)
    unfolding restore_encoding
    restore_encoding-IsPrecise none h = h
    restore_encoding-IsPrecise (some (result, d)) h = record {
      ends =
          original-Ends result.retired result.stalled result.instruction_length result.trap d.state
            h.ends;
    }

    execute_expanded-IsPrecise :
        (o : Option ℕ)
        → IsPrecise D c.state packet.program_counter (execute_expanded ops unit fuel c packet o)
    unfolding execute_expanded
    execute_expanded-IsPrecise none = own_illegal c packet (decode packet.bits) 0
    execute_expanded-IsPrecise (some expanded) =
        restore_encoding-IsPrecise _
          (execute_standard-IsPrecise c (record packet { bits = expanded }))

    -- Every instruction, compressed or not, either retires without a trap, or does not retire and
    -- traps at its own address, with the integer and floating-point registers, the program counter,
    -- the privilege mode and the waiting flag as they were before it, if the floating-point unit
    -- keeps to this too. Stated for runs that end with the fuel given.
    pub execute-IsPrecise :
        IsPrecise D c.state packet.program_counter (execute ops unit fuel c packet)
    unfolding execute
    execute-IsPrecise =
        pick c.state packet (compressed packet) (execute_expanded-IsPrecise _)
          (execute_standard-IsPrecise c packet)
