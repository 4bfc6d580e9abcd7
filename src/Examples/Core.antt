-- ===== src/Examples/Core.antt =====
-- src/core and src/vector on concrete instructions, operands and configurations.
use homemade_risc_v_64_vecto.Base.{
  ℕ, ◌+◌, ◌-◌, ◌/◌, ◌^◌, ◌≡◌, refl, ◌⊎◌, true, false, leb, ltb, if◌then◌else◌, none, some, arith,
  [], ◌∷◌, replicate,
}
use homemade_risc_v_64_vecto.Base.Signed.{pos, is_negative, ◌+ℤ◌, ◌*ℤ◌, ◌<ℤ◌, to_signed}
use homemade_risc_v_64_vecto.Bus.Routing
use homemade_risc_v_64_vecto.Bus.Routing.{Bus, locate_in}
use homemade_risc_v_64_vecto.Bus.Layout.{IsWellFormed}
use homemade_risc_v_64_vecto.Memory.Bytes.{read_bytes}
use homemade_risc_v_64_vecto.Memory.Walk.{translate}
use homemade_risc_v_64_vecto.Memory.Ram
use homemade_risc_v_64_vecto.Memory.Ram.{PhysicalMemory, validate}
use homemade_risc_v_64_vecto.Memory.RamSteady.{memory_ops, memory_ops-Steady}
use homemade_risc_v_64_vecto.Memory.Tlb.{new_mmu}
use homemade_risc_v_64_vecto.Core.Csr.Traps.{exception_delegated}
use homemade_risc_v_64_vecto.Core.Trap.{Trap, illegal_instruction}
use homemade_risc_v_64_vecto.Core.Decoder.{InstructionPacket}
use homemade_risc_v_64_vecto.Core.DecoderLaws.{format_b, immediate_of, place, place_then_decode}
use homemade_risc_v_64_vecto.Core.Compressed.Expand.{decompress_rv64c}
use homemade_risc_v_64_vecto.Core.Compressed.RoundTrip.{
  compressed_jump, compressed_branch, JumpExpands, BranchExpands, jump_and_branch_expand,
}
use homemade_risc_v_64_vecto.Core.IntegerM.{divide_signed, execute_doubleword}
use homemade_risc_v_64_vecto.Core.MultiplyLaws.{signed_multiplication}
use homemade_risc_v_64_vecto.Core.DivideLaws.{Divides, divide_signed-Divides}
use homemade_risc_v_64_vecto.Core.IntegerA.{calculate, minimum_signed, maximum_signed}
use homemade_risc_v_64_vecto.Core.IntegerALaws.{minimum_and_maximum}
use homemade_risc_v_64_vecto.Core.Cpu.Alu.{arithmetic_shift_right64}
use homemade_risc_v_64_vecto.Core.Cpu.AluLaws.{arithmetic_shift_value}
use homemade_risc_v_64_vecto.Core.Cpu.State.{reset_state}
use homemade_risc_v_64_vecto.Core.Cpu.Guest.{Cpu, guest_read, finish_access, fetch_context}
use homemade_risc_v_64_vecto.Core.Cpu.Fetch.{fetch, fetch_lower, fetch_upper}
use homemade_risc_v_64_vecto.Core.Cpu.Execute.{illegal, with_state}
use homemade_risc_v_64_vecto.Core.Cpu.Dispatch.{FloatingUnit, execute_standard}
use homemade_risc_v_64_vecto.Core.Cpu.Step.{awake, step, take_trap}
use homemade_risc_v_64_vecto.Core.Cpu.UnitFree.{fetches_integer}
use homemade_risc_v_64_vecto.Core.Cpu.Endings.{EndsStep, step-EndsStep}
use homemade_risc_v_64_vecto.Core.Cpu.TrapFlow.{Resumes, mret_at, trap_then_mret}
use homemade_risc_v_64_vecto.Vector.Configuration.{
  VectorConfiguration, derive_memory_configuration, cancel_twos, lmul_supported,
  decode_vector_configuration, configuration_of, decode_lmul,
}
use homemade_risc_v_64_vecto.Vector.Group.{
  VectorRegisterGroup, create, locate, physical_register_count,
}
use homemade_risc_v_64_vecto.Vector.Bounds.{
  IsCapacity, IsPlaced, valid_configuration, locate-IsPlaced,
  derive_memory_configuration-IsCapacity,
}
use homemade_risc_v_64_vecto.Examples.Bus.{
  small_bus, small_region, small_memory, small_range-IsRange,
}

-- A hart after reset on the bus with sixteen bytes of RAM, without a floating-point unit.
abbrev small_cpu : Cpu PhysicalMemory
small_cpu = record {
  bus = small_bus;
  mmu = new_mmu;
  state = reset_state 0x80000000;
  suppress_cycle_increment = false;
  suppress_instret_increment = false;
}

abbrev no_unit : FloatingUnit PhysicalMemory
no_unit = record {
  execute_floating = λ c packet i next. illegal c packet;
  vector_floating = λ packet. none;
}

-- ADDI x1, x0, 5.
abbrev addi : InstructionPacket
addi = record { program_counter = 0x80000000; bits = 0x500093; length = 4 }

abbrev small_trap : Trap
small_trap = record {
  cause = illegal_instruction;
  value = 0;
  program_counter = 0x80000000;
  instruction = 0;
}

trap_then_mret_example : Resumes PhysicalMemory small_cpu.state 0x80000000 (
    execute_standard memory_ops no_unit 1
      (with_state small_cpu (take_trap small_cpu.state small_trap).1)
      (mret_at 0x100))
unfolding exception_delegated
trap_then_mret_example =
    trap_then_mret memory_ops no_unit 1 small_cpu small_trap 0x100 refl (omega arith)

-- -7 divided by 2.
divide_signed-Divides_example :
    Divides
      (is_negative 63 (2 ^ 64 - 7))
      (to_signed 63 (2 ^ 64 - 7))
      (to_signed 63 2)
      (to_signed 63 (divide_signed 63 (2 ^ 64 - 7) 2).quotient)
      (to_signed 63 (divide_signed 63 (2 ^ 64 - 7) 2).remainder)
divide_signed-Divides_example =
    divide_signed-Divides 63 (2 ^ 64 - 7) 2 (omega arith) (omega arith) (λ e. omega arith) refl

signed_multiplication_example :
    (low : ℕ) × (high : ℕ) × (execute_doubleword 0 3 (2 ^ 64 - 5) ≡ some low)
    × (execute_doubleword 1 3 (2 ^ 64 - 5) ≡ some high)
    × (to_signed 63 3 *ℤ to_signed 63 (2 ^ 64 - 5) ≡ to_signed 63 high *ℤ pos (2 ^ 64) +ℤ pos low)
signed_multiplication_example = signed_multiplication 3 (2 ^ 64 - 5) (omega arith) (omega arith)

-- A branch back by eight bytes.
place_then_decode_example :
    immediate_of format_b (place format_b 0x63 (2 ^ 13 - 8))
    ≡ (if ltb (2 ^ 13 - 8) (2 ^ 12) then 2 ^ 13 - 8 else 2 ^ 64 - 2 ^ 13 + (2 ^ 13 - 8))
place_then_decode_example = place_then_decode format_b 0x63 (2 ^ 13 - 8) (omega arith) refl

-- A jump ahead by 4 bytes, and C.BNEZ on x9 back by 2.
jump_and_branch_expand_example :
    JumpExpands 4 (decompress_rv64c (compressed_jump 4))
    × BranchExpands 1 1 510 (decompress_rv64c (compressed_branch 1 1 510))
jump_and_branch_expand_example =
    jump_and_branch_expand 2 1 1 255 (omega arith) (omega arith) (omega arith) (omega arith)

arithmetic_shift_value_example : arithmetic_shift_right64 (2 ^ 64 - 9) 2 ≡ (
    if leb (2 ^ 63) (2 ^ 64 - 9)
    then 2 ^ 64 - 1 - (2 ^ 64 - 1 - (2 ^ 64 - 9)) / 2 ^ 2
    else (2 ^ 64 - 9) / 2 ^ 2)
arithmetic_shift_value_example = arithmetic_shift_value (2 ^ 64 - 9) 2 (omega arith) (omega arith)

minimum_and_maximum_example :
    (((calculate 31 minimum_signed (2 ^ 32 - 1) 1 ≡ 2 ^ 32 - 1)
        × (calculate 31 maximum_signed (2 ^ 32 - 1) 1 ≡ 1))
      ⊎ ((calculate 31 minimum_signed (2 ^ 32 - 1) 1 ≡ 1)
          × (calculate 31 maximum_signed (2 ^ 32 - 1) 1 ≡ 2 ^ 32 - 1)))
    × ¬ (
        to_signed 31 (calculate 31 maximum_signed (2 ^ 32 - 1) 1)
        <ℤ to_signed 31 (calculate 31 minimum_signed (2 ^ 32 - 1) 1))
minimum_and_maximum_example = minimum_and_maximum true 31 (2 ^ 32 - 1) 1 (omega arith) (omega arith)

-- SEW = 64 and LMUL = 1.
small_vtype_valid : (decode_vector_configuration 0x18).valid ≡ true
unfolding decode_vector_configuration configuration_of decode_lmul
small_vtype_valid = refl

valid_configuration_example : IsCapacity (decode_vector_configuration 0x18)
valid_configuration_example = valid_configuration 0x18 small_vtype_valid

abbrev small_group : VectorRegisterGroup
small_group = record { configuration = decode_vector_configuration 0x18; base_register = 8 }

small_group_made : create (decode_vector_configuration 0x18) 8 ≡ some small_group
unfolding create decode_vector_configuration configuration_of decode_lmul physical_register_count
small_group_made = refl

locate-IsPlaced_example : IsPlaced (decode_vector_configuration 0x18) 8 2 (locate small_group 2)
unfolding decode_vector_configuration configuration_of decode_lmul
locate-IsPlaced_example =
    locate-IsPlaced (decode_vector_configuration 0x18) 8 2 small_group
      (valid_configuration 0x18 small_vtype_valid) small_group_made (omega arith)

-- Bytes under that configuration: LMUL is an eighth.
abbrev small_derived : VectorConfiguration
small_derived = record {
  valid = true;
  vtype = 0x18;
  sew_bits = 8;
  lmul_numerator = 1;
  lmul_denominator = 8;
  vlmax = 4;
}

derive_memory_configuration-IsCapacity_example :
    IsCapacity small_derived
    × (small_derived.sew_bits ≡ 8)
    × (small_derived.vlmax ≡ (decode_vector_configuration 0x18).vlmax)
unfolding decode_vector_configuration configuration_of decode_lmul derive_memory_configuration
    cancel_twos lmul_supported
derive_memory_configuration-IsCapacity_example =
    derive_memory_configuration-IsCapacity 0x18 8 small_derived refl

-- The hart with ADDI x1, x0, 5 in memory.
abbrev code_bus : Bus PhysicalMemory
code_bus = record small_bus {
  regions =
      record small_region {
        device = record small_memory { bytes = 0x93 ∷ 0 ∷ 0x50 ∷ 0 ∷ replicate 12 0 };
      }
      ∷ [];
}

code_bus-IsWellFormed : IsWellFormed code_bus
code_bus-IsWellFormed = (small_range-IsRange, omega arith, tt)

abbrev code_cpu : Cpu PhysicalMemory
code_cpu = record small_cpu { bus = code_bus }

addi_fetched : fetches_integer (fetch memory_ops 1 (awake code_cpu)) ≡ true
unfolding fetch fetch_lower fetch_upper guest_read finish_access translate fetch_context
    Routing.read Routing.locate locate_in Ram.read validate read_bytes
addi_fetched = refl

step-EndsStep_example : EndsStep PhysicalMemory false code_cpu (step memory_ops no_unit 1 code_cpu)
step-EndsStep_example =
    step-EndsStep memory_ops 0 no_unit memory_ops-Steady code_cpu code_bus-IsWellFormed addi_fetched
