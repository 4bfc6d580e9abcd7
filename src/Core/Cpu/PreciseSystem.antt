-- ===== src/Core/Cpu/PreciseSystem.antt =====
-- src/core/cpu.cpp: system instructions and vector configuration retire or trap precisely.
use homemade_risc_v_64_vecto.Base.{
  ℕ, ◌^◌, refl, inl, bit_and, Bool, not, ◌||◌, ◌&&◌, ◌==◌, Option, none, some,
}
use homemade_risc_v_64_vecto.Core.Trap.{is_user, is_supervisor, is_machine}
use homemade_risc_v_64_vecto.Core.Csr.State.{CsrFile}
use homemade_risc_v_64_vecto.Core.Csr.Names.{code_of, mstatus, vtype}
use homemade_risc_v_64_vecto.Core.Csr.Access.{CsrModifyOperation, CsrAccessResult, peek}
use homemade_risc_v_64_vecto.Core.Csr.Context.{vector_state_enabled}
use homemade_risc_v_64_vecto.Core.Csr.Traps.{
  TrapReturnState, return_from_machine, return_from_supervisor, supervisor_return_allowed,
  wait_for_interrupt_allowed,
}
use homemade_risc_v_64_vecto.Core.Decoder.{InstructionPacket, DecodedInstruction}
use homemade_risc_v_64_vecto.Core.Cpu.State.{integer}
use homemade_risc_v_64_vecto.Core.Cpu.Guest.{Cpu}
use homemade_risc_v_64_vecto.Core.Cpu.Execute.{step_success, illegal}
use homemade_risc_v_64_vecto.Core.Cpu.System.{
  fence_translations, fence_vma, return_from_trap, wait_for_interrupt, privileged, finish_csr,
  csr_instruction, csr_form, execute_system,
}
use homemade_risc_v_64_vecto.Core.Cpu.VectorConfig.{
  VectorRequest, configure, configure_with, execute_vector_configuration,
}
use homemade_risc_v_64_vecto.Core.Cpu.Precise.{
  IsPrecise, retire-IsPrecise, write-IsPrecise, pick, own_illegal, own_fail,
}
use homemade_risc_v_64_vecto.Vector.Configuration.{
  decode_vector_configuration, can_preserve_vector_length,
}

module _ {D : Type 0} (c : Cpu D) (packet : InstructionPacket) (i : DecodedInstruction)
    (next : ℕ) where
  refuse : IsPrecise D c.state packet.program_counter (illegal c packet)
  refuse = own_illegal c packet i next

  done :
      (d : Cpu D)
      → IsPrecise D c.state packet.program_counter (some (step_success packet.length, d))
  done d = record { ends = inl (refl, refl) }

  fence_translations-IsPrecise :
      (va : Option ℕ) (any : Bool) (o : Option ℕ)
      → IsPrecise D c.state packet.program_counter (fence_translations c packet va next any o)
  unfolding fence_translations
  fence_translations-IsPrecise va any none = record { ends = tt }
  fence_translations-IsPrecise va any (some asid) = done _

  fence_vma-IsPrecise :
      (source1 : ℕ) → IsPrecise D c.state packet.program_counter (fence_vma c packet i source1 next)
  unfolding fence_vma
  fence_vma-IsPrecise source1 =
      pick c.state packet
        (is_user c.state.privilege
          || is_supervisor c.state.privilege
            && not (bit_and (peek c.state.csrs (code_of mstatus)) (2 ^ 20) == 0))
        refuse (fence_translations-IsPrecise _ _ (integer c.state i.source2))

  return_from_trap-IsPrecise :
      (allowed : Bool) (returned : TrapReturnState × CsrFile)
      → IsPrecise D c.state packet.program_counter (return_from_trap c packet allowed returned)
  unfolding return_from_trap
  return_from_trap-IsPrecise allowed returned = pick c.state packet (not allowed) refuse (done _)

  privileged-IsPrecise :
      (source1 : ℕ)
      → IsPrecise D c.state packet.program_counter (privileged c packet i source1 next)
  unfolding privileged wait_for_interrupt
  privileged-IsPrecise source1 =
      pick c.state packet (bit_and packet.bits 0xFE00707F == 0x12000073)
        (fence_vma-IsPrecise source1)
        (pick c.state packet (packet.bits == 0x00000073) (own_fail c packet i next _ _) (
          pick c.state packet (packet.bits == 0x00100073) (own_fail c packet i next _ _) (
            pick c.state packet (packet.bits == 0x30200073)
              (return_from_trap-IsPrecise (is_machine c.state.privilege)
                (return_from_machine c.state.csrs))
              (pick c.state packet (packet.bits == 0x10200073)
                (return_from_trap-IsPrecise
                  (supervisor_return_allowed c.state.csrs c.state.privilege)
                  (return_from_supervisor c.state.csrs))
                (pick c.state packet (packet.bits == 0x10500073)
                  (pick c.state packet
                    (not (wait_for_interrupt_allowed c.state.csrs c.state.privilege)) refuse
                    (done _))
                  refuse)))))

  finish_csr-IsPrecise :
      (writes : Bool) (accessed : CsrAccessResult × CsrFile)
      → IsPrecise D c.state packet.program_counter (finish_csr c packet i writes next accessed)
  unfolding finish_csr
  finish_csr-IsPrecise writes (accessed, csrs) =
      pick c.state packet (not accessed.succeeded) refuse (write-IsPrecise c.state packet _ _ _ _)

  csr_instruction-IsPrecise :
      (source1 : ℕ) (form : Option (CsrModifyOperation × Bool))
      → IsPrecise D c.state packet.program_counter (csr_instruction c packet i source1 next form)
  unfolding csr_instruction
  csr_instruction-IsPrecise source1 none = refuse
  csr_instruction-IsPrecise source1 (some (operation, immediate)) = finish_csr-IsPrecise _ _

  pub execute_system-IsPrecise :
      (source1 : ℕ)
      → IsPrecise D c.state packet.program_counter (execute_system c packet i source1 next)
  unfolding execute_system
  execute_system-IsPrecise source1 =
      pick c.state packet (i.function3 == 0) (privileged-IsPrecise source1)
        (csr_instruction-IsPrecise source1 (csr_form i.function3))

  configure-IsPrecise :
      (o : Option VectorRequest)
      → IsPrecise D c.state packet.program_counter (configure c packet i next o)
  unfolding configure
  configure-IsPrecise none = refuse
  configure-IsPrecise (some request) =
      pick c.state packet request.preserve_vector_length
        (pick c.state packet
          (not (
            can_preserve_vector_length (peek c.state.csrs (code_of vtype)) request.requested_vtype))
          refuse (retire-IsPrecise c.state packet _ _))
        (pick c.state packet (decode_vector_configuration request.requested_vtype).valid
          (write-IsPrecise c.state packet _ _ _ _) (write-IsPrecise c.state packet _ _ _ _))

  configure_with-IsPrecise :
      (source1 source2 : Option ℕ)
      → IsPrecise D c.state packet.program_counter (configure_with c packet i next source1 source2)
  unfolding configure_with
  configure_with-IsPrecise none source2 = record { ends = tt }
  configure_with-IsPrecise (some source1) none = record { ends = tt }
  configure_with-IsPrecise (some source1) (some source2) = configure-IsPrecise _

  pub execute_vector_configuration-IsPrecise :
      IsPrecise D c.state packet.program_counter (execute_vector_configuration c packet i next)
  unfolding execute_vector_configuration
  execute_vector_configuration-IsPrecise =
      pick c.state packet (not (i.function3 == 7) || not (vector_state_enabled c.state.csrs)) refuse
        (configure_with-IsPrecise (integer c.state i.source1) (integer c.state i.source2))
