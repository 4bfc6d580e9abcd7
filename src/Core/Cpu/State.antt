-- ===== src/Core/Cpu/State.antt =====
-- src/core/cpu_state.cpp and include/rvemu/core/cpu_state.hpp: the registers of the hart. `none` is the
-- exception of a register index out of range. src/core/floating_state.hpp: boxed single precision.
use homemade_risc_v_64_vecto.Base.{
  ℕ, bit_or, u32, shr, Bool, true, false, not, leb, ◌==◌, if◌then◌else◌, Option, none, some, List,
  get_or, set, replicate,
}
use homemade_risc_v_64_vecto.Core.Trap.{PrivilegeMode, machine}
use homemade_risc_v_64_vecto.Core.Csr.State.{CsrFile, reset_csrs}
use homemade_risc_v_64_vecto.Core.Csr.Context.{mark_floating_state_dirty, mark_vector_state_dirty}
use homemade_risc_v_64_vecto.Vector.State.{
  VectorState, reset_vectors, register_value, set_register_value,
}
use homemade_risc_v_64_vecto.Vector.Group.{
  VectorRegisterGroup, read_element, write_element, mask_bit,
}

abbrev pub register_count : ℕ
register_count = 32

pub record CpuState : Type 0 where
  pub integer_registers : List ℕ
  pub floating_registers : List ℕ
  pub vector_state : VectorState
  pub csrs : CsrFile
  pub program_counter : ℕ
  pub privilege : PrivilegeMode
  pub waiting_for_interrupt : Bool
  pub reservation_token : ℕ

abbrev pub reset_state : ℕ → CpuState
reset_state reset_pc = record {
  integer_registers = replicate register_count 0;
  floating_registers = replicate register_count 0;
  vector_state = reset_vectors;
  csrs = reset_csrs;
  program_counter = reset_pc;
  privilege = machine;
  waiting_for_interrupt = false;
  reservation_token = 0;
}

unfoldable pub integer : CpuState → ℕ → Option ℕ
integer s index =
    if leb register_count index
    then none
    else some (if index == 0 then 0 else get_or s.integer_registers index 0)

unfoldable pub set_integer : CpuState → ℕ → ℕ → Option CpuState
set_integer s index value =
    if leb register_count index
    then none
    else if index == 0
    then some s
    else some (record s { integer_registers = set s.integer_registers index value })

unfoldable pub floating : CpuState → ℕ → Option ℕ
floating s index =
    if leb register_count index then none else some (get_or s.floating_registers index 0)

unfoldable pub set_floating : CpuState → ℕ → ℕ → Option CpuState
set_floating s index value =
    if leb register_count index
    then none
    else some (record s {
      floating_registers = set s.floating_registers index value;
      csrs = mark_floating_state_dirty s.csrs;
    })

-- include/rvemu/core/floating_state.hpp
abbrev pub canonical_single_nan : ℕ
canonical_single_nan = 0x7FC00000

unfoldable pub box_single_precision : ℕ → ℕ
box_single_precision bits = bit_or 0xFFFFFFFF00000000 bits

unfoldable pub unbox_single_precision : ℕ → ℕ
unbox_single_precision bits = if shr bits 32 == 0xFFFFFFFF then u32 bits else canonical_single_nan

unfoldable pub floating_single : CpuState → ℕ → Option ℕ
floating_single s index = elim (floating s index) [
  | none ↦ none
  | some bits ↦ some (unbox_single_precision bits)
]

unfoldable pub set_floating_single : CpuState → ℕ → ℕ → Option CpuState
set_floating_single s index value = set_floating s index (box_single_precision value)

unfoldable pub vector : CpuState → ℕ → Option (List ℕ)
vector s index = register_value s.vector_state index

unfoldable pub set_vector : CpuState → ℕ → List ℕ → Option CpuState
set_vector s index value = elim (set_register_value s.vector_state index value) [
  | none ↦ none
  | some v ↦ some (record s { vector_state = v; csrs = mark_vector_state_dirty s.csrs })
]

abbrev pub set_program_counter : CpuState → ℕ → CpuState
set_program_counter s value = record s { program_counter = value }

-- An element and a mask bit: the inner `none` is an element without a place.
unfoldable pub vector_element : CpuState → VectorRegisterGroup → ℕ → Option (Option ℕ)
vector_element s group element_index = read_element group s.vector_state element_index

unfoldable pub set_vector_element :
    CpuState → VectorRegisterGroup → ℕ → ℕ → Option (Bool × CpuState)
set_vector_element s group element_index value =
    elim (write_element group s.vector_state element_index value) [
      | none ↦ none
      | some written ↦
          if not written.0
          then some (false, s)
          else some
              (true, record s { vector_state = written.1; csrs = mark_vector_state_dirty s.csrs })
    ]

unfoldable pub vector_mask_bit : CpuState → ℕ → Option (Option Bool)
vector_mask_bit s element_index = mask_bit s.vector_state element_index
