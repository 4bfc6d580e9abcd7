-- ===== src/Core/Cpu/TrapFlow.antt =====
-- src/core/cpu.cpp: a trap that is taken in M-mode and the MRET that ends its handler; what CSR
-- instructions of the lower modes leave alone.
use homemade_risc_v_64_vecto.Base.{ℕ, ◌*◌, ◌/◌, ◌^◌, ◌<◌, ◌≡◌, refl, true, false, arith, some}
use homemade_risc_v_64_vecto.Bus.Region.{RegionOps}
use homemade_risc_v_64_vecto.Core.Trap.{Trap, exception_code}
use homemade_risc_v_64_vecto.Core.Csr.Traps.{exception_delegated}
use homemade_risc_v_64_vecto.Core.Csr.TrapLaws.{machine_trap_round_trip}
use homemade_risc_v_64_vecto.Core.Decoder.{InstructionPacket, decode}
use homemade_risc_v_64_vecto.Core.Cpu.State.{CpuState, integer}
use homemade_risc_v_64_vecto.Core.Cpu.Guest.{Cpu, StepResult}
use homemade_risc_v_64_vecto.Core.Cpu.Execute.{Outcome, with_state}
use homemade_risc_v_64_vecto.Core.Cpu.System.{return_from_trap, privileged, execute_system}
use homemade_risc_v_64_vecto.Core.Cpu.Dispatch.{
  FloatingUnit, execute_opcode, execute_decoded, execute_standard,
}
use homemade_risc_v_64_vecto.Core.Cpu.Step.{take_trap}

-- An MRET at an address.
abbrev pub mret_at : ℕ → InstructionPacket
mret_at pc = record { program_counter = pc; bits = 0x30200073; length = 4 }

-- The instruction retires with the mode, the address and the registers from before the trap.
pub record Resumes (D : Type 0) (s : CpuState) (pc : ℕ) (outcome : Outcome D) : Type 0 where
  pub result : StepResult × Cpu D
  pub returned : outcome ≡ some result
  pub retired : result.0.retired ≡ true
  pub mode : result.1.state.privilege ≡ s.privilege
  pub address : result.1.state.program_counter ≡ pc / 2 * 2
  pub integers : result.1.state.integer_registers ≡ s.integer_registers
  pub floats : result.1.state.floating_registers ≡ s.floating_registers

module _ {D : Type 0} (ops : RegionOps D) (unit : FloatingUnit D) (fuel : ℕ) where
  -- A trap that is not delegated is followed by a handler that only executes MRET: the hart is back in
  -- the mode and at the address of the trap, rounded down to even, with its registers.
  pub trap_then_mret :
      (c : Cpu D) (trap : Trap) (pc : ℕ)
      → exception_delegated c.state.csrs c.state.privilege trap.cause ≡ false
      → trap.program_counter < 2 ^ 64
      → Resumes D c.state trap.program_counter
          (execute_standard ops unit fuel (with_state c (take_trap c.state trap).1) (mret_at pc))
  unfolding take_trap execute_standard decode execute_decoded execute_opcode execute_system
      privileged return_from_trap integer
  trap_then_mret c trap pc direct h =
      let round =
        machine_trap_round_trip c.state.csrs c.state.privilege trap.program_counter
          (exception_code trap.cause) trap.value 0 h (omega arith) in
      rw direct (record {
        result = _;
        returned = refl;
        retired = refl;
        mode = round.0;
        address = round.1;
        integers = refl;
        floats = refl;
      })
