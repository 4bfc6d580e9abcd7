-- ===== src/Core/Cpu/Elements.antt =====
-- src/core/cpu.cpp: the loop over the elements of a vector instruction, which the vector loads, stores
-- and arithmetic share: masked elements, the body, the tail, and the end of the instruction.
use homemade_risc_v_64_vecto.Base.{
  ℕ, zero, suc, ◌-◌, ◌^◌, bit_and, Bool, not, ltb, ◌==◌, if◌then◌else◌, Option, none, some,
}
use homemade_risc_v_64_vecto.Core.Trap.{Trap}
use homemade_risc_v_64_vecto.Core.Csr.Context.{
  clear_vector_start_after_instruction, set_vector_start_for_trap,
}
use homemade_risc_v_64_vecto.Core.Decoder.{InstructionPacket}
use homemade_risc_v_64_vecto.Core.Cpu.State.{CpuState, set_vector_element, vector_mask_bit}
use homemade_risc_v_64_vecto.Core.Cpu.Guest.{Cpu, StepResult}
use homemade_risc_v_64_vecto.Core.Cpu.Execute.{Outcome, with_state, fail, illegal, retire}
use homemade_risc_v_64_vecto.Vector.Group.{VectorRegisterGroup}

-- The loop goes on, or the instruction has returned.
pub data Progress (D : Type 0) : Type 0 where
  continuing : Cpu D → Progress D
  stopped : StepResult → Cpu D → Progress D

abbrev pub has_vtype_bit : ℕ → ℕ → Bool
has_vtype_bit vtype i = not (bit_and vtype (2 ^ i) == 0)

-- All ones in an element.
abbrev pub agnostic_value : ℕ → ℕ
agnostic_value width = if width == 64 then 2 ^ 64 - 1 else 2 ^ width - 1

module _ {D : Type 0} where
  abbrev pub stop : Outcome D → Option (Progress D)
  stop none = none
  stop (some (result, c)) = some (stopped result c)

  unfoldable pub then_continue :
      Option (Progress D) → (Cpu D → Option (Progress D)) → Option (Progress D)
  then_continue none next = none
  then_continue (some (continuing c)) next = next c
  then_continue (some (stopped result c)) next = some (stopped result c)

  unfoldable pub after_write :
      Cpu D → InstructionPacket → Option (Bool × CpuState) → Option (Progress D)
  after_write c packet none = none
  after_write c packet (some (written, s)) =
      if written then some (continuing (with_state c s)) else stop (illegal c packet)

  unfoldable pub write_vector :
      InstructionPacket → VectorRegisterGroup → ℕ → Cpu D → ℕ → Option (Progress D)
  write_vector packet group value c element =
      after_write c packet (set_vector_element c.state group element value)

  -- The body at the elements from `element` on, while `rounds` are left.
  unfoldable pub for_elements :
      (Cpu D → ℕ → Option (Progress D)) → ℕ → ℕ → Cpu D → Option (Progress D)
  for_elements body zero element c = some (continuing c)
  for_elements body (suc rounds) element c =
      then_continue (body c element) (λ c'. for_elements body rounds (suc element) c')

  -- An element that the mask excludes: all ones if the configuration says so.
  unfoldable pub inactive_element :
      InstructionPacket → VectorRegisterGroup → Bool → ℕ → Cpu D → ℕ → Option (Progress D)
  inactive_element packet group fill value c element =
      if fill then write_vector packet group value c element else some (continuing c)

  -- The body, or what the mask leaves of it. The outer `none` of a mask bit is an exception, and a
  -- bit beyond the register counts as zero.
  unfoldable pub masked_element :
      Option (Option Bool)
      → (Cpu D → ℕ → Option (Progress D))
      → (Cpu D → ℕ → Option (Progress D))
      → Cpu D
      → ℕ
      → Option (Progress D)
  masked_element none active inactive c element = none
  masked_element (some none) active inactive c element = inactive c element
  masked_element (some (some bit)) active inactive c element =
      if bit then active c element else inactive c element

  unfoldable pub element_body :
      Bool
      → (Cpu D → ℕ → Option (Progress D))
      → (Cpu D → ℕ → Option (Progress D))
      → Cpu D
      → ℕ
      → Option (Progress D)
  element_body masked active inactive c element =
      if masked
      then masked_element (vector_mask_bit c.state element) active inactive c element
      else active c element

  unfoldable pub finish_elements : InstructionPacket → ℕ → Option (Progress D) → Outcome D
  finish_elements packet sequential_pc none = none
  finish_elements packet sequential_pc (some (stopped result c)) = some (result, c)
  finish_elements packet sequential_pc (some (continuing c)) =
      retire
        (with_state c (record c.state { csrs = clear_vector_start_after_instruction c.state.csrs }))
        packet sequential_pc

  -- From `vstart` to `vl` the body, then the tail up to `vlmax` where it is filled with ones;
  -- nothing at all without a body element.
  unfoldable pub elementwise :
      (Cpu D → ℕ → Option (Progress D))
      → (Cpu D → ℕ → Option (Progress D))
      → Bool
      → ℕ
      → ℕ
      → ℕ
      → Cpu D
      → Option (Progress D)
  elementwise body fill tail start length vlmax c =
      let filled = λ (c' : Cpu D).
        if tail then for_elements fill (vlmax - length) length c' else some (continuing c') in
      if ltb start length
      then then_continue (for_elements body (length - start) start c) filled
      else some (continuing c)

  -- A trap at an element leaves its number in vstart.
  unfoldable pub trap_at : InstructionPacket → Trap → Cpu D → ℕ → Option (Progress D)
  trap_at packet trap c element = stop (
      fail (with_state c (record c.state { csrs = set_vector_start_for_trap c.state.csrs element }))
        packet trap)
