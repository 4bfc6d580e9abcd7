-- ===== src/Core/Cpu/Execute.antt =====
-- src/core/cpu.cpp: `execute_standard` for the integer instructions: arithmetic, jumps, branches,
-- loads, stores and fences. A result is `none` where a register index is out of range or a
-- translation runs out of fuel.
use homemade_risc_v_64_vecto.Base.{
  ℕ, bit_and, add64, not64, Bool, true, false, not, ◌==◌, if◌then◌else◌, Option, none, some,
}
use homemade_risc_v_64_vecto.Bus.Access.{
  AccessWidth, byte, half_word, word, double_word, AccessType,
}
use homemade_risc_v_64_vecto.Bus.Access
use homemade_risc_v_64_vecto.Bus.Region.{RegionOps}
use homemade_risc_v_64_vecto.Core.Trap.{Trap, illegal_instruction, instruction_address_misaligned}
use homemade_risc_v_64_vecto.Core.Decoder.{
  InstructionPacket, DecodedInstruction, sign_extend, immediate_i, immediate_s, immediate_b,
  immediate_j,
}
use homemade_risc_v_64_vecto.Core.Cpu.State.{CpuState, set_integer, set_program_counter}
use homemade_risc_v_64_vecto.Core.Cpu.Alu.{branch_taken}
use homemade_risc_v_64_vecto.Core.Cpu.Guest.{
  Cpu, StepResult, GuestAccessResult, make_trap, guest_read, guest_write,
}
use homemade_risc_v_64_vecto.Memory.Sv39.{MmuAccessKind}
use homemade_risc_v_64_vecto.Memory.Sv39

abbrev pub step_success : ℕ → StepResult
step_success length = record {
  retired = true;
  stalled = false;
  instruction_length = length;
  trap = none;
}

abbrev pub step_failure : Trap → ℕ → StepResult
step_failure trap length = record {
  retired = false;
  stalled = false;
  instruction_length = length;
  trap = some trap;
}

abbrev pub step_wait : StepResult
step_wait = record { retired = false; stalled = true; instruction_length = 0; trap = none }

-- How wide a load is, and whether and from which width its value is sign-extended.
pub record LoadForm : Type 0 where
  pub width : AccessWidth
  pub sign_result : Bool
  pub sign_width : ℕ

abbrev pub load_form_of : AccessWidth → Bool → ℕ → LoadForm
load_form_of width sign_result sign_width = record {
  width = width;
  sign_result = sign_result;
  sign_width = sign_width;
}

unfoldable pub load_form : ℕ → Option LoadForm
load_form function3 =
    if function3 == 0
    then some (load_form_of byte true 8)
    else if function3 == 1
    then some (load_form_of half_word true 16)
    else if function3 == 2
    then some (load_form_of word true 32)
    else if function3 == 3
    then some (load_form_of double_word true 64)
    else if function3 == 4
    then some (load_form_of byte false 8)
    else if function3 == 5
    then some (load_form_of half_word false 8)
    else if function3 == 6
    then some (load_form_of word false 8)
    else none

unfoldable pub store_width : ℕ → Option AccessWidth
store_width function3 =
    if function3 == 0
    then some byte
    else if function3 == 1
    then some half_word
    else if function3 == 2
    then some word
    else if function3 == 3
    then some double_word
    else none

abbrev pub Outcome : Type 0 → Type 0
Outcome D = Option (StepResult × Cpu D)

module _ {D : Type 0} where
  abbrev pub with_state : Cpu D → CpuState → Cpu D
  with_state c s = record c { state = s }

  -- `StepResult::failure` at the state as it is.
  unfoldable pub fail : Cpu D → InstructionPacket → Trap → Outcome D
  fail c packet trap = some (step_failure trap packet.length, c)

  unfoldable pub illegal : Cpu D → InstructionPacket → Outcome D
  illegal c packet = fail c packet (make_trap packet illegal_instruction packet.bits)

  unfoldable pub retire : Cpu D → InstructionPacket → ℕ → Outcome D
  retire c packet next_pc =
      some (step_success packet.length, with_state c (set_program_counter c.state next_pc))

  -- The result register, then the program counter.
  unfoldable pub finish_write : Cpu D → InstructionPacket → ℕ → Option CpuState → Outcome D
  finish_write c packet next_pc none = none
  finish_write c packet next_pc (some s) =
      some (step_success packet.length, with_state c (set_program_counter s next_pc))

  unfoldable pub write_and_retire : Cpu D → InstructionPacket → ℕ → ℕ → ℕ → Outcome D
  write_and_retire c packet destination value next_pc =
      finish_write c packet next_pc (set_integer c.state destination value)

  -- The end of an arithmetic instruction: its result, or no such instruction.
  unfoldable pub write_result :
      Cpu D → InstructionPacket → DecodedInstruction → ℕ → Option ℕ → Outcome D
  write_result c packet instruction sequential_pc none = illegal c packet
  write_result c packet instruction sequential_pc (some value) =
      write_and_retire c packet instruction.destination value sequential_pc

  abbrev pub misaligned_target : Cpu D → InstructionPacket → ℕ → Outcome D
  misaligned_target c packet target =
      fail c packet (make_trap packet instruction_address_misaligned target)

  unfoldable pub jal : Cpu D → InstructionPacket → DecodedInstruction → ℕ → Outcome D
  jal c packet instruction sequential_pc =
      let target = add64 packet.program_counter (immediate_j packet.bits) in
      if not (bit_and target 1 == 0)
      then misaligned_target c packet target
      else write_and_retire c packet instruction.destination sequential_pc target

  unfoldable pub jalr : Cpu D → InstructionPacket → DecodedInstruction → ℕ → ℕ → Outcome D
  jalr c packet instruction source1 sequential_pc =
      let target = bit_and (add64 source1 (immediate_i packet.bits)) (not64 1) in
      if not (instruction.function3 == 0)
      then illegal c packet
      else if not (bit_and target 1 == 0)
      then misaligned_target c packet target
      else write_and_retire c packet instruction.destination sequential_pc target

  -- The end of a conditional branch, on its decision.
  unfoldable pub finish_branch : Cpu D → InstructionPacket → ℕ → Option Bool → Outcome D
  finish_branch c packet sequential_pc none = illegal c packet
  finish_branch c packet sequential_pc (some taken) =
      let target = add64 packet.program_counter (immediate_b packet.bits) in
      if not taken
      then retire c packet sequential_pc
      else if not (bit_and target 1 == 0)
      then misaligned_target c packet target
      else retire c packet target

  unfoldable pub branch : Cpu D → InstructionPacket → DecodedInstruction → ℕ → ℕ → ℕ → Outcome D
  branch c packet instruction source1 source2 sequential_pc =
      finish_branch c packet sequential_pc (branch_taken instruction.function3 source1 source2)

  -- FENCE and FENCE.I: every transaction is committed at once, so nothing is left to do.
  unfoldable pub fence : Cpu D → InstructionPacket → DecodedInstruction → ℕ → Outcome D
  fence c packet instruction sequential_pc =
      if instruction.function3 == 0
      then retire c packet sequential_pc
      else if instruction.function3 == 1
      then retire c packet sequential_pc
      else illegal c packet

  -- The end of a load and of a store, on what the guest access returned.
  unfoldable pub finish_load :
      InstructionPacket
      → DecodedInstruction
      → LoadForm
      → ℕ
      → Option (GuestAccessResult × Cpu D)
      → Outcome D
  finish_load packet instruction form sequential_pc none = none
  finish_load packet instruction form sequential_pc (some (loaded, c)) = elim loaded.trap [
    | some trap ↦ fail c packet trap
    | none ↦
        write_and_retire c packet instruction.destination
          (if form.sign_result
            then sign_extend loaded.access.value form.sign_width
            else loaded.access.value)
          sequential_pc
  ]

  unfoldable pub finish_store :
      InstructionPacket → ℕ → Option (GuestAccessResult × Cpu D) → Outcome D
  finish_store packet sequential_pc none = none
  finish_store packet sequential_pc (some (stored, c)) = elim stored.trap [
    | some trap ↦ fail c packet trap
    | none ↦ retire c packet sequential_pc
  ]

module _ {D : Type 0} (ops : RegionOps D) (fuel : ℕ) where
  unfoldable pub scalar_load : Cpu D → InstructionPacket → DecodedInstruction → ℕ → ℕ → Outcome D
  scalar_load c packet instruction source1 sequential_pc = elim (load_form instruction.function3) [
    | none ↦ illegal c packet
    | some form ↦ finish_load packet instruction form sequential_pc (
        guest_read ops fuel c packet (add64 source1 (immediate_i packet.bits)) form.width
          Sv39.MmuAccessKind.load Access.AccessType.load)
  ]

  unfoldable pub scalar_store :
      Cpu D → InstructionPacket → DecodedInstruction → ℕ → ℕ → ℕ → Outcome D
  scalar_store c packet instruction source1 source2 sequential_pc =
      elim (store_width instruction.function3) [
        | none ↦ illegal c packet
        | some w ↦ finish_store packet sequential_pc (
            guest_write ops fuel c packet (add64 source1 (immediate_s packet.bits)) w source2
              Access.AccessType.store)
      ]
