-- ===== src/Core/Cpu/VectorMemory.antt =====
-- src/core/cpu.cpp, `execute_vector_memory`: unit-stride and strided loads and stores, byte by byte
-- through the MMU.
use homemade_risc_v_64_vecto.Base.{
  ℕ, zero, suc, ◌*◌, ◌/◌, ◌^◌, bit_and, bit_or, u64, add64, shr, not, ◌||◌, ◌&&◌, ltb, ◌==◌,
  if◌then◌else◌, Option, none, some,
}
use homemade_risc_v_64_vecto.Bus.Access.{byte, AccessType}
use homemade_risc_v_64_vecto.Bus.Access
use homemade_risc_v_64_vecto.Bus.Region.{RegionOps}
use homemade_risc_v_64_vecto.Core.Csr.Names.{code_of, vtype, vl}
use homemade_risc_v_64_vecto.Core.Csr.Access.{peek}
use homemade_risc_v_64_vecto.Core.Csr.Context.{vector_state_enabled}
use homemade_risc_v_64_vecto.Core.Decoder.{InstructionPacket}
use homemade_risc_v_64_vecto.Core.Cpu.State.{CpuState, integer, vector_element}
use homemade_risc_v_64_vecto.Core.Cpu.Guest.{Cpu, GuestAccessResult, guest_read, guest_write}
use homemade_risc_v_64_vecto.Core.Cpu.Execute.{Outcome, illegal}
use homemade_risc_v_64_vecto.Core.Cpu.Elements.{
  Progress, continuing, stop, write_vector, inactive_element, element_body, elementwise,
  finish_elements, trap_at, has_vtype_bit, agnostic_value,
}
use homemade_risc_v_64_vecto.Memory.Sv39.{MmuAccessKind}
use homemade_risc_v_64_vecto.Memory.Sv39
use homemade_risc_v_64_vecto.Vector.Configuration.{
  VectorConfiguration, decode_vector_configuration, derive_memory_configuration,
}
use homemade_risc_v_64_vecto.Vector.Group.{VectorRegisterGroup, create}
use homemade_risc_v_64_vecto.Vector.Memory.{VectorMemoryOperation, unit_stride, strided}

module _ {D : Type 0} (ops : RegionOps D) (fuel : ℕ) where
  -- One byte of a load; `next` is the rest of the loop with the value so far.
  unfoldable pub after_byte_read :
      InstructionPacket
      → ℕ
      → ℕ
      → ℕ
      → (Cpu D → ℕ → Option (Progress D))
      → Option (GuestAccessResult × Cpu D)
      → Option (Progress D)
  after_byte_read packet element index value next none = none
  after_byte_read packet element index value next (some (loaded, c)) = elim loaded.trap [
    | some trap ↦ trap_at packet trap c element
    | none ↦ next c (bit_or value (u64 (bit_and loaded.access.value 0xFF * 2 ^ (index * 8))))
  ]

  unfoldable pub load_element :
      InstructionPacket → VectorRegisterGroup → ℕ → ℕ → ℕ → ℕ → ℕ → Cpu D → Option (Progress D)
  load_element packet group element address zero index value c =
      write_vector packet group value c element
  load_element packet group element address (suc rounds) index value c =
      after_byte_read packet element index value
        (λ c' value'. load_element packet group element address rounds (suc index) value' c')
        (guest_read ops fuel c packet (add64 address index) byte Sv39.MmuAccessKind.load
          Access.AccessType.load)

  unfoldable pub after_byte_write :
      InstructionPacket
      → ℕ
      → (Cpu D → Option (Progress D))
      → Option (GuestAccessResult × Cpu D)
      → Option (Progress D)
  after_byte_write packet element next none = none
  after_byte_write packet element next (some (stored, c)) = elim stored.trap [
    | some trap ↦ trap_at packet trap c element
    | none ↦ next c
  ]

  unfoldable pub store_element : InstructionPacket → ℕ → ℕ → ℕ → ℕ → ℕ → Cpu D → Option (Progress D)
  store_element packet element address zero index value c = some (continuing c)
  store_element packet element address (suc rounds) index value c =
      after_byte_write packet element
        (λ c'. store_element packet element address rounds (suc index) value c')
        (guest_write ops fuel c packet (add64 address index) byte (shr value (index * 8))
          Access.AccessType.store)

  -- The value of a store: the outer `none` is an exception, an element without a place is illegal.
  unfoldable pub store_value :
      InstructionPacket → ℕ → ℕ → ℕ → Cpu D → Option (Option ℕ) → Option (Progress D)
  store_value packet element address bytes c none = none
  store_value packet element address bytes c (some none) = stop (illegal c packet)
  store_value packet element address bytes c (some (some value)) =
      store_element packet element address bytes 0 value c

  unfoldable pub transfer_element :
      InstructionPacket
      → VectorMemoryOperation
      → VectorRegisterGroup
      → ℕ
      → ℕ
      → Cpu D
      → ℕ
      → Option (Progress D)
  transfer_element packet operation group base stride c element =
      let address = add64 base (u64 (element * stride)) in
      let bytes = operation.element_width_bits / 8 in
      if operation.load
      then load_element packet group element address bytes 0 0 c
      else store_value packet element address bytes c (vector_element c.state group element)

  -- With the base and the stride read from their registers.
  unfoldable pub transfer_elements :
      Cpu D
      → InstructionPacket
      → VectorMemoryOperation
      → VectorConfiguration
      → VectorRegisterGroup
      → ℕ
      → Option ℕ
      → Option ℕ
      → Outcome D
  transfer_elements c packet operation current group sequential_pc none stride = none
  transfer_elements c packet operation current group sequential_pc (some base) none = none
  transfer_elements c packet operation current group sequential_pc (some base) (some stride) =
      let type = peek c.state.csrs (code_of vtype) in
      let ones = agnostic_value operation.element_width_bits in
      let body =
        element_body operation.masked (transfer_element packet operation group base stride)
          (inactive_element packet group (operation.load && has_vtype_bit type 7) ones) in
      finish_elements packet sequential_pc (
        elementwise body (write_vector packet group ones) (operation.load && has_vtype_bit type 6)
          c.state.csrs.vstart (peek c.state.csrs (code_of vl)) current.vlmax c)

  abbrev pub stride_of : CpuState → VectorMemoryOperation → Option ℕ
  stride_of s operation = elim operation.addressing_mode [
    | unit_stride ↦ some (operation.element_width_bits / 8)
    | strided ↦ integer s operation.stride_register
  ]

  unfoldable pub with_memory_group :
      Cpu D
      → InstructionPacket
      → VectorMemoryOperation
      → VectorConfiguration
      → ℕ
      → Option VectorRegisterGroup
      → Outcome D
  with_memory_group c packet operation current sequential_pc none = illegal c packet
  with_memory_group c packet operation current sequential_pc (some group) =
      if ltb current.vlmax (peek c.state.csrs (code_of vl))
        || operation.load && operation.masked && operation.vector_register == 0
      then illegal c packet
      else transfer_elements c packet operation current group sequential_pc
          (integer c.state operation.base_register) (stride_of c.state operation)

  unfoldable pub with_memory_configuration :
      Cpu D
      → InstructionPacket
      → VectorMemoryOperation
      → VectorConfiguration
      → ℕ
      → Option VectorConfiguration
      → Outcome D
  with_memory_configuration c packet operation current sequential_pc none = illegal c packet
  with_memory_configuration c packet operation current sequential_pc (some memory_configuration) =
      with_memory_group c packet operation current sequential_pc
        (create memory_configuration operation.vector_register)

  unfoldable pub execute_vector_memory :
      Cpu D → InstructionPacket → VectorMemoryOperation → ℕ → Outcome D
  execute_vector_memory c packet operation sequential_pc =
      let current = decode_vector_configuration (peek c.state.csrs (code_of vtype)) in
      if not (vector_state_enabled c.state.csrs)
      then illegal c packet
      else with_memory_configuration c packet operation current sequential_pc
          (derive_memory_configuration current operation.element_width_bits)
