-- ===== src/Core/Cpu/VectorInteger.antt =====
-- src/core/cpu.cpp, `execute_vector_integer`: vector integer arithmetic, element by element.
use homemade_risc_v_64_vecto.Base.{ℕ, not, ◌||◌, ◌&&◌, ltb, ◌==◌, if◌then◌else◌, Option, none, some}
use homemade_risc_v_64_vecto.Core.Csr.Names.{code_of, vtype, vl}
use homemade_risc_v_64_vecto.Core.Csr.Access.{peek}
use homemade_risc_v_64_vecto.Core.Csr.Context.{vector_state_enabled}
use homemade_risc_v_64_vecto.Core.Decoder.{InstructionPacket}
use homemade_risc_v_64_vecto.Core.Cpu.State.{CpuState, integer, vector_element}
use homemade_risc_v_64_vecto.Core.Cpu.Guest.{Cpu}
use homemade_risc_v_64_vecto.Core.Cpu.Execute.{Outcome, illegal}
use homemade_risc_v_64_vecto.Core.Cpu.Elements.{
  Progress, stop, write_vector, inactive_element, element_body, elementwise, finish_elements,
  has_vtype_bit, agnostic_value,
}
use homemade_risc_v_64_vecto.Vector.Configuration.{VectorConfiguration, decode_vector_configuration}
use homemade_risc_v_64_vecto.Vector.Group.{VectorRegisterGroup, create}
use homemade_risc_v_64_vecto.Vector.Integer.{
  VectorIntegerInstruction, VectorIntegerOperandForm, vector_vector, vector_scalar,
  vector_immediate, execute_vector_integer_operation, sign_extend_vector_immediate,
}

-- The groups of the operands; `first` only where the instruction has a vector there.
pub record OperandGroups : Type 0 where
  pub destination : VectorRegisterGroup
  pub second : VectorRegisterGroup
  pub first : Option VectorRegisterGroup

abbrev pub operand_groups :
    VectorIntegerOperandForm
    → Option VectorRegisterGroup
    → Option VectorRegisterGroup
    → Option VectorRegisterGroup
    → Option OperandGroups
operand_groups vector_vector (some d) (some s) (some f) =
    some (record { destination = d; second = s; first = some f })
operand_groups vector_scalar (some d) (some s) f =
    some (record { destination = d; second = s; first = none })
operand_groups vector_immediate (some d) (some s) f =
    some (record { destination = d; second = s; first = none })
operand_groups form d s f = none

-- The scalar in place of the first vector: the register, or the immediate.
abbrev pub scalar_operand :
    CpuState → VectorIntegerInstruction → ℕ → VectorIntegerOperandForm → Option (Option ℕ)
scalar_operand s instruction sew_bits vector_immediate =
    some (some (sign_extend_vector_immediate instruction.source1 sew_bits))
scalar_operand s instruction sew_bits _ = elim (integer s instruction.source1) [
  | none ↦ none
  | some value ↦ some (some value)
]

abbrev pub first_operand :
    CpuState → VectorIntegerInstruction → ℕ → Option VectorRegisterGroup → ℕ → Option (Option ℕ)
first_operand s instruction sew_bits (some group) element = vector_element s group element
first_operand s instruction sew_bits none element =
    scalar_operand s instruction sew_bits instruction.form

module _ {D : Type 0} where
  -- An operand is `some none` without a place, and `none` for an exception. Without a place for one
  -- operand or for both the instruction is illegal.
  unfoldable pub combine_elements :
      InstructionPacket
      → VectorIntegerInstruction
      → ℕ
      → VectorRegisterGroup
      → Cpu D
      → ℕ
      → Option (Option ℕ)
      → Option (Option ℕ)
      → Option (Progress D)
  combine_elements packet instruction sew_bits group c element (some (some lhs)) (some (some rhs)) =
      write_vector packet group
        (execute_vector_integer_operation instruction.operation lhs rhs sew_bits) c element
  combine_elements packet instruction sew_bits group c element (some none) (some either) =
      stop (illegal c packet)
  combine_elements packet instruction sew_bits group c element (some (some lhs)) (some none) =
      stop (illegal c packet)
  combine_elements packet instruction sew_bits group c element lhs rhs = none

  unfoldable pub active_element :
      InstructionPacket
      → VectorIntegerInstruction
      → ℕ
      → OperandGroups
      → Cpu D
      → ℕ
      → Option (Progress D)
  active_element packet instruction sew_bits groups c element =
      combine_elements packet instruction sew_bits groups.destination c element
        (vector_element c.state groups.second element)
        (first_operand c.state instruction sew_bits groups.first element)

  unfoldable pub with_operands :
      Cpu D
      → InstructionPacket
      → VectorIntegerInstruction
      → VectorConfiguration
      → ℕ
      → Option OperandGroups
      → Outcome D
  with_operands c packet instruction configuration sequential_pc none = illegal c packet
  with_operands c packet instruction configuration sequential_pc (some groups) =
      let type = peek c.state.csrs (code_of vtype) in
      let length = peek c.state.csrs (code_of vl) in
      let ones = agnostic_value configuration.sew_bits in
      let body =
        element_body instruction.masked
          (active_element packet instruction configuration.sew_bits groups)
          (inactive_element packet groups.destination (has_vtype_bit type 7) ones) in
      if instruction.masked && instruction.destination == 0 || ltb configuration.vlmax length
      then illegal c packet
      else finish_elements packet sequential_pc (
          elementwise body (write_vector packet groups.destination ones) (has_vtype_bit type 6)
            c.state.csrs.vstart length configuration.vlmax c)

  unfoldable pub execute_vector_integer :
      Cpu D → InstructionPacket → VectorIntegerInstruction → ℕ → Outcome D
  execute_vector_integer c packet instruction sequential_pc =
      let configuration = decode_vector_configuration (peek c.state.csrs (code_of vtype)) in
      if not (vector_state_enabled c.state.csrs)
      then illegal c packet
      else with_operands c packet instruction configuration sequential_pc (
          operand_groups instruction.form (create configuration instruction.destination)
            (create configuration instruction.source2) (create configuration instruction.source1))
