-- ===== src/Core/Cpu/System.antt =====
-- src/core/cpu.cpp, `execute_system`: environment calls, trap returns, WFI, SFENCE.VMA and the CSR
-- instructions.
use homemade_risc_v_64_vecto.Base.{
  ℕ, ◌^◌, bit_and, shr, Bool, true, false, not, ◌||◌, ◌&&◌, ◌==◌, if◌then◌else◌, Option, none, some,
}
use homemade_risc_v_64_vecto.Core.Trap.{
  PrivilegeMode, user, supervisor, machine, is_user, is_supervisor, is_machine, ExceptionCause,
  environment_call_from_user, environment_call_from_supervisor, environment_call_from_machine,
  breakpoint,
}
use homemade_risc_v_64_vecto.Core.Csr.State.{CsrFile}
use homemade_risc_v_64_vecto.Core.Csr.Names.{code_of, mstatus, mcycle, minstret}
use homemade_risc_v_64_vecto.Core.Csr.Access.{
  CsrModifyOperation, replace, set_bits, clear_bits, CsrAccessRequest, CsrAccessResult, access,
  peek, needs_old_value,
}
use homemade_risc_v_64_vecto.Core.Csr.Traps.{
  TrapReturnState, return_from_machine, return_from_supervisor, supervisor_return_allowed,
  wait_for_interrupt_allowed,
}
use homemade_risc_v_64_vecto.Core.Decoder.{InstructionPacket, DecodedInstruction}
use homemade_risc_v_64_vecto.Core.Cpu.State.{CpuState, integer, set_program_counter}
use homemade_risc_v_64_vecto.Core.Cpu.Guest.{Cpu, make_trap}
use homemade_risc_v_64_vecto.Core.Cpu.Execute.{
  Outcome, step_success, with_state, fail, illegal, write_and_retire,
}
use homemade_risc_v_64_vecto.Memory.Tlb.{sfence_vma}

abbrev pub environment_call_cause : PrivilegeMode → ExceptionCause
environment_call_cause user = environment_call_from_user
environment_call_cause supervisor = environment_call_from_supervisor
environment_call_cause machine = environment_call_from_machine

-- The operation of a CSR instruction, and whether its operand is the immediate.
unfoldable pub csr_form : ℕ → Option (CsrModifyOperation × Bool)
csr_form function3 =
    if function3 == 1
    then some (replace, false)
    else if function3 == 2
    then some (set_bits, false)
    else if function3 == 3
    then some (clear_bits, false)
    else if function3 == 5
    then some (replace, true)
    else if function3 == 6
    then some (set_bits, true)
    else if function3 == 7
    then some (clear_bits, true)
    else none

-- Whether the instruction reads and writes, from the fields of the encoding alone.
abbrev pub csr_reads : CsrModifyOperation → DecodedInstruction → Bool
csr_reads operation instruction = needs_old_value operation || not (instruction.destination == 0)

abbrev pub csr_writes : CsrModifyOperation → DecodedInstruction → Bool
csr_writes operation instruction = not (needs_old_value operation) || not (instruction.source1 == 0)

abbrev pub csr_address : InstructionPacket → ℕ
csr_address packet = bit_and (shr packet.bits 20) 0xFFF

module _ {D : Type 0} where
  -- `(rs2 == 0) ? nullopt : state.integer(rs2) & 0xFFFF` of a fence, then the fence.
  unfoldable pub fence_translations :
      Cpu D → InstructionPacket → Option ℕ → ℕ → Bool → Option ℕ → Outcome D
  fence_translations c packet virtual_address sequential_pc any none = none
  fence_translations c packet virtual_address sequential_pc any (some asid) = some (
    step_success packet.length,
    record c {
      mmu = sfence_vma c.mmu virtual_address (if any then none else some (bit_and asid 0xFFFF));
      state = set_program_counter c.state sequential_pc;
    },
  )

  unfoldable pub fence_vma : Cpu D → InstructionPacket → DecodedInstruction → ℕ → ℕ → Outcome D
  fence_vma c packet instruction source1 sequential_pc =
      let tvm = not (bit_and (peek c.state.csrs (code_of mstatus)) (2 ^ 20) == 0) in
      if is_user c.state.privilege || is_supervisor c.state.privilege && tvm
      then illegal c packet
      else fence_translations c packet (if instruction.source1 == 0 then none else some source1)
          sequential_pc (instruction.source2 == 0) (integer c.state instruction.source2)

  abbrev pub returned_to : Cpu D → TrapReturnState × CsrFile → CpuState
  returned_to c (target, csrs) = record c.state {
    csrs = csrs;
    privilege = target.privilege;
    program_counter = target.program_counter;
    waiting_for_interrupt = false;
  }

  -- MRET and SRET.
  unfoldable pub return_from_trap :
      Cpu D → InstructionPacket → Bool → TrapReturnState × CsrFile → Outcome D
  return_from_trap c packet allowed returned =
      if not allowed
      then illegal c packet
      else some (step_success packet.length, with_state c (returned_to c returned))

  unfoldable pub wait_for_interrupt : Cpu D → InstructionPacket → ℕ → Outcome D
  wait_for_interrupt c packet sequential_pc =
      if not (wait_for_interrupt_allowed c.state.csrs c.state.privilege)
      then illegal c packet
      else some (
        step_success packet.length,
        with_state c
            (record c.state { program_counter = sequential_pc; waiting_for_interrupt = true }),
      )

  -- The instructions with `funct3` zero, told apart by their whole encoding.
  unfoldable pub privileged : Cpu D → InstructionPacket → DecodedInstruction → ℕ → ℕ → Outcome D
  privileged c packet instruction source1 sequential_pc =
      if bit_and packet.bits 0xFE00707F == 0x12000073
      then fence_vma c packet instruction source1 sequential_pc
      else if packet.bits == 0x00000073
      then fail c packet (make_trap packet (environment_call_cause c.state.privilege) 0)
      else if packet.bits == 0x00100073
      then fail c packet (make_trap packet breakpoint 0)
      else if packet.bits == 0x30200073
      then return_from_trap c packet (is_machine c.state.privilege)
          (return_from_machine c.state.csrs)
      else if packet.bits == 0x10200073
      then return_from_trap c packet (supervisor_return_allowed c.state.csrs c.state.privilege)
          (return_from_supervisor c.state.csrs)
      else if packet.bits == 0x10500073
      then wait_for_interrupt c packet sequential_pc
      else illegal c packet

  -- A CSR instruction after the access: a refusal is an illegal instruction; an explicit write of a
  -- counter takes the place of its implicit increment.
  unfoldable pub finish_csr :
      Cpu D
      → InstructionPacket
      → DecodedInstruction
      → Bool
      → ℕ
      → CsrAccessResult × CsrFile
      → Outcome D
  finish_csr c packet instruction writes sequential_pc (accessed, csrs) =
      if not accessed.succeeded
      then illegal c packet
      else write_and_retire
          (record c {
            state = record c.state { csrs = csrs };
            suppress_cycle_increment =
                writes && csr_address packet == code_of mcycle || c.suppress_cycle_increment;
            suppress_instret_increment =
                writes && csr_address packet == code_of minstret || c.suppress_instret_increment;
          })
          packet instruction.destination accessed.value sequential_pc

  abbrev pub csr_request :
      Cpu D
      → InstructionPacket
      → DecodedInstruction
      → CsrModifyOperation
      → Bool
      → ℕ
      → CsrAccessRequest
  csr_request c packet instruction operation immediate source1 = record {
    address = csr_address packet;
    privilege = c.state.privilege;
    reads = csr_reads operation instruction;
    writes = csr_writes operation instruction;
    operation = operation;
    operand = if immediate then instruction.source1 else source1;
  }

  unfoldable pub csr_instruction :
      Cpu D
      → InstructionPacket
      → DecodedInstruction
      → ℕ
      → ℕ
      → Option (CsrModifyOperation × Bool)
      → Outcome D
  csr_instruction c packet instruction source1 sequential_pc none = illegal c packet
  csr_instruction c packet instruction source1 sequential_pc (some (operation, immediate)) =
      finish_csr c packet instruction (csr_writes operation instruction) sequential_pc
        (access c.state.csrs (csr_request c packet instruction operation immediate source1))

  unfoldable pub execute_system : Cpu D → InstructionPacket → DecodedInstruction → ℕ → ℕ → Outcome D
  execute_system c packet instruction source1 sequential_pc =
      if instruction.function3 == 0
      then privileged c packet instruction source1 sequential_pc
      else csr_instruction c packet instruction source1 sequential_pc
          (csr_form instruction.function3)
