-- ===== src/Core/Cpu/PreciseVector.antt =====
-- src/core/cpu.cpp: the vector loads, stores and arithmetic retire or trap precisely.
use homemade_risc_v_64_vecto.Base.{ℕ, zero, suc, not, ◌||◌, ◌&&◌, ltb, ◌==◌, Option, none, some}
use homemade_risc_v_64_vecto.Bus.Region.{RegionOps}
use homemade_risc_v_64_vecto.Core.Csr.Names.{code_of, vl}
use homemade_risc_v_64_vecto.Core.Csr.Access.{peek}
use homemade_risc_v_64_vecto.Core.Csr.Context.{vector_state_enabled}
use homemade_risc_v_64_vecto.Core.Decoder.{InstructionPacket}
use homemade_risc_v_64_vecto.Core.Cpu.State.{CpuState, vector_element}
use homemade_risc_v_64_vecto.Core.Cpu.Guest.{Cpu, GuestAccessResult}
use homemade_risc_v_64_vecto.Core.Cpu.Execute.{illegal}
use homemade_risc_v_64_vecto.Core.Cpu.Elements.{Progress}
use homemade_risc_v_64_vecto.Core.Cpu.VectorMemory.{
  after_byte_read, load_element, after_byte_write, store_element, store_value, transfer_element,
  transfer_elements, with_memory_group, with_memory_configuration, execute_vector_memory,
}
use homemade_risc_v_64_vecto.Core.Cpu.VectorInteger.{
  OperandGroups, combine_elements, active_element, with_operands, execute_vector_integer,
}
use homemade_risc_v_64_vecto.Core.Cpu.Precise.{
  Unmoved, IsPrecise, Accesses, unmoved, illegal-IsPrecise, pick,
}
use homemade_risc_v_64_vecto.Core.Cpu.PreciseAccess.{guest_read-Accesses, guest_write-Accesses}
use homemade_risc_v_64_vecto.Vector.Group.{VectorRegisterGroup, create}
use homemade_risc_v_64_vecto.Vector.Configuration.{VectorConfiguration}
use homemade_risc_v_64_vecto.Vector.Integer.{VectorIntegerInstruction}
use homemade_risc_v_64_vecto.Vector.Memory.{VectorMemoryOperation}
use homemade_risc_v_64_vecto.Core.Cpu.Proceeds.{
  IsProceeding, Body, choose, go_on, refuse, element_body-IsProceeding, elementwise-IsProceeding,
  finish_elements-IsPrecise, write_vector-IsProceeding, inactive_element-IsProceeding,
  after_guest_access,
}

module _ {D : Type 0} (s : CpuState) (packet : InstructionPacket) where
  after_byte_read-IsProceeding :
      (ops : RegionOps D) (fuel : ℕ) (t : CpuState) (element index value : ℕ)
      (next : Cpu D → ℕ → Option (Progress D)) (o : Option (GuestAccessResult × Cpu D))
      → Body D s packet.program_counter next
      → Unmoved s t
      → Accesses D t packet.program_counter o
      → IsProceeding D s packet.program_counter
          (after_byte_read ops fuel packet element index value next o)
  unfolding after_byte_read
  after_byte_read-IsProceeding ops fuel t element index value next none h u a = record {
    proceeds = tt;
  }
  after_byte_read-IsProceeding ops fuel t element index value next (some (loaded, c)) h u a =
      let v : Unmoved s c.state = rw a.0 u in
      after_guest_access s packet loaded.trap c element _ a.1 v (h c _ v)

  after_byte_write-IsProceeding :
      (ops : RegionOps D) (fuel : ℕ) (t : CpuState) (element : ℕ)
      (next : Cpu D → Option (Progress D)) (o : Option (GuestAccessResult × Cpu D))
      → ((c : Cpu D) → Unmoved s c.state → IsProceeding D s packet.program_counter (next c))
      → Unmoved s t
      → Accesses D t packet.program_counter o
      → IsProceeding D s packet.program_counter (after_byte_write ops fuel packet element next o)
  unfolding after_byte_write
  after_byte_write-IsProceeding ops fuel t element next none h u a = record { proceeds = tt }
  after_byte_write-IsProceeding ops fuel t element next (some (stored, c)) h u a =
      let v : Unmoved s c.state = rw a.0 u in
      after_guest_access s packet stored.trap c element _ a.1 v (h c v)

module _ {D : Type 0} (ops : RegionOps D) (fuel : ℕ) (s : CpuState)
    (packet : InstructionPacket) where
  load_element-IsProceeding :
      (group : VectorRegisterGroup) (element address rounds index value : ℕ) (c : Cpu D)
      → Unmoved s c.state
      → IsProceeding D s packet.program_counter
          (load_element ops fuel packet group element address rounds index value c)
  unfolding load_element
  load_element-IsProceeding group element address zero index value c u =
      write_vector-IsProceeding s packet group value c element u
  load_element-IsProceeding group element address (suc rounds) index value c u =
      after_byte_read-IsProceeding s packet ops fuel c.state element index value _ _
        (λ c' value' u'.
          load_element-IsProceeding group element address rounds (suc index) value' c' u')
        u (guest_read-Accesses ops fuel c packet _ _ _ _)

  store_element-IsProceeding :
      (element address rounds index value : ℕ) (c : Cpu D)
      → Unmoved s c.state
      → IsProceeding D s packet.program_counter
          (store_element ops fuel packet element address rounds index value c)
  unfolding store_element
  store_element-IsProceeding element address zero index value c u = go_on s packet c u
  store_element-IsProceeding element address (suc rounds) index value c u =
      after_byte_write-IsProceeding s packet ops fuel c.state element _ _
        (λ c' u'. store_element-IsProceeding element address rounds (suc index) value c' u') u
        (guest_write-Accesses ops fuel c packet _ _ _ _)

  store_value-IsProceeding :
      (element address bytes : ℕ) (c : Cpu D) (o : Option (Option ℕ))
      → Unmoved s c.state
      → IsProceeding D s packet.program_counter
          (store_value ops fuel packet element address bytes c o)
  unfolding store_value
  store_value-IsProceeding element address bytes c none u = record { proceeds = tt }
  store_value-IsProceeding element address bytes c (some none) u = refuse s packet c u
  store_value-IsProceeding element address bytes c (some (some value)) u =
      store_element-IsProceeding element address bytes 0 value c u

  transfer_element-IsProceeding :
      (operation : VectorMemoryOperation) (group : VectorRegisterGroup) (base stride : ℕ)
      → Body D s packet.program_counter
          (transfer_element ops fuel packet operation group base stride)
  unfolding transfer_element
  transfer_element-IsProceeding operation group base stride c element u =
      choose s packet operation.load (load_element-IsProceeding group element _ _ 0 0 c u)
        (store_value-IsProceeding element _ _ c (vector_element c.state group element) u)

module _ {D : Type 0} (ops : RegionOps D) (fuel : ℕ) (c : Cpu D) (packet : InstructionPacket)
    (next : ℕ) where
  not_allowed : IsPrecise D c.state packet.program_counter (illegal c packet)
  not_allowed = illegal-IsPrecise c.state packet c (unmoved c.state)

  transfer_elements-IsPrecise :
      (operation : VectorMemoryOperation) (current : VectorConfiguration)
      (group : VectorRegisterGroup) (base stride : Option ℕ)
      → IsPrecise D c.state packet.program_counter
          (transfer_elements ops fuel c packet operation current group next base stride)
  unfolding transfer_elements
  transfer_elements-IsPrecise operation current group none stride = record { ends = tt }
  transfer_elements-IsPrecise operation current group (some base) none = record { ends = tt }
  transfer_elements-IsPrecise operation current group (some base) (some stride) =
      finish_elements-IsPrecise c.state packet next _ (
        elementwise-IsProceeding c.state packet _ _ _ _ _ _ c
          (element_body-IsProceeding c.state packet _ _ _
            (transfer_element-IsProceeding ops fuel c.state packet operation group base stride)
            (inactive_element-IsProceeding c.state packet group _ _))
          (write_vector-IsProceeding c.state packet group _) (unmoved c.state))

  with_memory_group-IsPrecise :
      (operation : VectorMemoryOperation) (current : VectorConfiguration)
      (o : Option VectorRegisterGroup)
      → IsPrecise D c.state packet.program_counter
          (with_memory_group ops fuel c packet operation current next o)
  unfolding with_memory_group
  with_memory_group-IsPrecise operation current none = not_allowed
  with_memory_group-IsPrecise operation current (some group) =
      pick c.state packet
        (ltb current.vlmax (peek c.state.csrs (code_of vl))
          || operation.load && operation.masked && operation.vector_register == 0)
        not_allowed (transfer_elements-IsPrecise operation current group _ _)

  with_memory_configuration-IsPrecise :
      (operation : VectorMemoryOperation) (current : VectorConfiguration)
      (o : Option VectorConfiguration)
      → IsPrecise D c.state packet.program_counter
          (with_memory_configuration ops fuel c packet operation current next o)
  unfolding with_memory_configuration
  with_memory_configuration-IsPrecise operation current none = not_allowed
  with_memory_configuration-IsPrecise operation current (some configuration) =
      with_memory_group-IsPrecise operation current (create configuration operation.vector_register)

  pub execute_vector_memory-IsPrecise :
      (operation : VectorMemoryOperation)
      → IsPrecise D c.state packet.program_counter
          (execute_vector_memory ops fuel c packet operation next)
  unfolding execute_vector_memory
  execute_vector_memory-IsPrecise operation =
      pick c.state packet (not (vector_state_enabled c.state.csrs)) not_allowed
        (with_memory_configuration-IsPrecise operation _ _)

module _ {D : Type 0} (s : CpuState) (packet : InstructionPacket)
    (instruction : VectorIntegerInstruction) where
  combine_elements-IsProceeding :
      (width : ℕ) (group : VectorRegisterGroup) (c : Cpu D) (element : ℕ)
      (lhs rhs : Option (Option ℕ))
      → Unmoved s c.state
      → IsProceeding D s packet.program_counter
          (combine_elements packet instruction width group c element lhs rhs)
  unfolding combine_elements
  combine_elements-IsProceeding width group c element none rhs u = record { proceeds = tt }
  combine_elements-IsProceeding width group c element (some none) none u = record { proceeds = tt }
  combine_elements-IsProceeding width group c element (some none) (some rhs) u = refuse s packet c u
  combine_elements-IsProceeding width group c element (some (some lhs)) none u = record {
    proceeds = tt;
  }
  combine_elements-IsProceeding width group c element (some (some lhs)) (some none) u =
      refuse s packet c u
  combine_elements-IsProceeding width group c element (some (some lhs)) (some (some rhs)) u =
      write_vector-IsProceeding s packet group _ c element u

  active_element-IsProceeding :
      (width : ℕ) (groups : OperandGroups)
      → Body D s packet.program_counter (active_element packet instruction width groups)
  unfolding active_element
  active_element-IsProceeding width groups c element u =
      combine_elements-IsProceeding width groups.destination c element _ _ u

module _ {D : Type 0} (c : Cpu D) (packet : InstructionPacket)
    (instruction : VectorIntegerInstruction) (next : ℕ) where
  denied : IsPrecise D c.state packet.program_counter (illegal c packet)
  denied = illegal-IsPrecise c.state packet c (unmoved c.state)

  with_operands-IsPrecise :
      (configuration : VectorConfiguration) (o : Option OperandGroups)
      → IsPrecise D c.state packet.program_counter
          (with_operands c packet instruction configuration next o)
  unfolding with_operands
  with_operands-IsPrecise configuration none = denied
  with_operands-IsPrecise configuration (some groups) =
      pick c.state packet
        (instruction.masked && instruction.destination == 0
          || ltb configuration.vlmax (peek c.state.csrs (code_of vl)))
        denied
        (finish_elements-IsPrecise c.state packet next _ (
          elementwise-IsProceeding c.state packet _ _ _ _ _ _ c
            (element_body-IsProceeding c.state packet _ _ _
              (active_element-IsProceeding c.state packet instruction _ groups)
              (inactive_element-IsProceeding c.state packet groups.destination _ _))
            (write_vector-IsProceeding c.state packet groups.destination _) (unmoved c.state)))

  pub execute_vector_integer-IsPrecise :
      IsPrecise D c.state packet.program_counter (execute_vector_integer c packet instruction next)
  unfolding execute_vector_integer
  execute_vector_integer-IsPrecise =
      pick c.state packet (not (vector_state_enabled c.state.csrs)) denied
        (with_operands-IsPrecise _ _)
