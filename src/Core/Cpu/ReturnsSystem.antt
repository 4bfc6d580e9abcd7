-- ===== src/Core/Cpu/ReturnsSystem.antt =====
-- src/core/cpu.cpp, `execute_system`: the SYSTEM instructions always come to an end.
use homemade_risc_v_64_vecto.Base.{ℕ, ◌<◌, Bool, ◌==◌, Option, none, some}
use homemade_risc_v_64_vecto.Core.Decoder.{InstructionPacket, DecodedInstruction}
use homemade_risc_v_64_vecto.Core.Cpu.Guest.{Cpu}
use homemade_risc_v_64_vecto.Core.Csr.State.{CsrFile}
use homemade_risc_v_64_vecto.Core.Csr.Access.{CsrModifyOperation}
use homemade_risc_v_64_vecto.Core.Csr.Traps.{TrapReturnState}
use homemade_risc_v_64_vecto.Core.Cpu.System.{
  fence_vma, fence_translations, return_from_trap, wait_for_interrupt, privileged, finish_csr,
  csr_instruction, execute_system,
}
use homemade_risc_v_64_vecto.Core.Cpu.Returns.{
  Returns, ok, gives, pick, integer-Returns, fail-Returns, illegal-Returns, write-Returns,
}

module _ {D : Type 0} where
  fence_translations-Returns :
      (c : Cpu D) (packet : InstructionPacket) (va : Option ℕ) (next : ℕ) (any : Bool)
      (asid : Option ℕ)
      → Returns asid
      → Returns (fence_translations c packet va next any asid)
  unfolding fence_translations
  fence_translations-Returns c packet va next any none k = ok k.returned
  fence_translations-Returns c packet va next any (some asid) k = gives _

  fence_vma-Returns :
      (c : Cpu D) (packet : InstructionPacket) (i : DecodedInstruction) (source1 next : ℕ)
      → i.source2 < 32
      → Returns (fence_vma c packet i source1 next)
  unfolding fence_vma
  fence_vma-Returns c packet i source1 next h =
      pick _ (illegal-Returns c packet)
        (fence_translations-Returns c packet _ next _ _ (integer-Returns c.state i.source2 h))

  return_from_trap-Returns :
      (c : Cpu D) (packet : InstructionPacket) (allowed : Bool)
      (returned : TrapReturnState × CsrFile)
      → Returns (return_from_trap c packet allowed returned)
  unfolding return_from_trap
  return_from_trap-Returns c packet allowed returned = pick _ (illegal-Returns c packet) (gives _)

  wait_for_interrupt-Returns :
      (c : Cpu D) (packet : InstructionPacket) (next : ℕ)
      → Returns (wait_for_interrupt c packet next)
  unfolding wait_for_interrupt
  wait_for_interrupt-Returns c packet next = pick _ (illegal-Returns c packet) (gives _)

  privileged-Returns :
      (c : Cpu D) (packet : InstructionPacket) (i : DecodedInstruction) (source1 next : ℕ)
      → i.source2 < 32
      → Returns (privileged c packet i source1 next)
  unfolding privileged
  privileged-Returns c packet i source1 next h =
      pick _ (fence_vma-Returns c packet i source1 next h) (
        pick (packet.bits == 0x00000073) (fail-Returns c packet _) (
          pick (packet.bits == 0x00100073) (fail-Returns c packet _) (
            pick (packet.bits == 0x30200073) (return_from_trap-Returns c packet _ _) (
              pick (packet.bits == 0x10200073) (return_from_trap-Returns c packet _ _) (
                pick (packet.bits == 0x10500073) (wait_for_interrupt-Returns c packet next)
                  (illegal-Returns c packet))))))

  csr_instruction-Returns :
      (c : Cpu D) (packet : InstructionPacket) (i : DecodedInstruction) (source1 next : ℕ)
      (form : Option (CsrModifyOperation × Bool))
      → i.destination < 32
      → Returns (csr_instruction c packet i source1 next form)
  unfolding csr_instruction finish_csr
  csr_instruction-Returns c packet i source1 next none h = illegal-Returns c packet
  csr_instruction-Returns c packet i source1 next (some (operation, immediate)) h =
      pick _ (illegal-Returns c packet) (write-Returns _ packet i.destination _ next h)

  pub execute_system-Returns :
      (c : Cpu D) (packet : InstructionPacket) (i : DecodedInstruction) (source1 next : ℕ)
      → i.source2 < 32
      → i.destination < 32
      → Returns (execute_system c packet i source1 next)
  unfolding execute_system
  execute_system-Returns c packet i source1 next h k =
      pick (i.function3 == 0) (privileged-Returns c packet i source1 next h)
        (csr_instruction-Returns c packet i source1 next _ k)
