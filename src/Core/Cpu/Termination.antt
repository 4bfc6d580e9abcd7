-- ===== src/Core/Cpu/Termination.antt =====
-- src/core/cpu.cpp, `execute_standard`: scalar instructions always come to an end.
use homemade_risc_v_64_vecto.Base.{
  ℕ, suc, ◌≡◌, ◌≢◌, ◌<◌, refl, Bool, true, false, not, ◌&&◌, ◌||◌, ◌==◌, arith, if◌then◌else◌,
  Option, none, some, bit_and, shr,
}
use homemade_risc_v_64_vecto.Base.Bits.{bit_and_mask}
use homemade_risc_v_64_vecto.Bus.Access.{AccessWidth, AccessType}
use homemade_risc_v_64_vecto.Bus.Region.{RegionOps}
use homemade_risc_v_64_vecto.Bus.Layout.{IsWellFormed}
use homemade_risc_v_64_vecto.Memory.Sv39.{MmuAccessKind}
use homemade_risc_v_64_vecto.Memory.WalkLaws.{Steady, translate-Completes}
use homemade_risc_v_64_vecto.Core.Decoder.{InstructionPacket, DecodedInstruction, decode}
use homemade_risc_v_64_vecto.Core.Cpu.Alu.{branch_taken, op_imm, op_imm_32, op, op_32, extended}
use homemade_risc_v_64_vecto.Core.Cpu.Guest.{
  Cpu, guest_read, guest_write, guest_load_reserved, guest_store_conditional,
}
use homemade_risc_v_64_vecto.Core.Cpu.Execute.{
  Outcome, scalar_load, scalar_store, load_form, store_width, branch,
}
use homemade_risc_v_64_vecto.Core.Cpu.Atomic.{
  AtomicForm, with_reservation, load_reserved, store_conditional, atomic_form, is_misaligned,
  atomic_instruction,
}
use homemade_risc_v_64_vecto.Core.Cpu.Dispatch.{
  FloatingUnit, is_floating_opcode, sequential, execute_opcode, execute_decoded, execute_standard,
}
use homemade_risc_v_64_vecto.Core.Cpu.Returns.{
  Returns, ok, pick, fail-Returns, illegal-Returns, integer-Returns, write-Returns,
  write_result-Returns, jal-Returns, jalr-Returns, finish_branch-Returns, fence-Returns,
  finish_load-Returns, finish_store-Returns, finish_access-Returns, finish_load_reserved-Returns,
  finish_store_conditional-Returns,
}
use homemade_risc_v_64_vecto.Core.Cpu.ReturnsSystem.{execute_system-Returns}
use homemade_risc_v_64_vecto.Core.Cpu.UnitFree.{is_beyond_integer}

module _ {D : Type 0} (ops : RegionOps D) (fuel : ℕ) (steady : Steady ops) where
  module _ (c : Cpu D) (valid : IsWellFormed c.bus) (packet : InstructionPacket) where
    guest_read-Returns :
        (va : ℕ) (w : AccessWidth) (kind : MmuAccessKind) (t : AccessType)
        → Returns (guest_read ops (suc fuel) c packet va w kind t)
    unfolding guest_read
    guest_read-Returns va w kind t =
        finish_access-Returns c packet va _ _ kind _
          (translate-Completes ops fuel c.bus c.mmu va w kind _ steady valid)

    guest_write-Returns :
        (va : ℕ) (w : AccessWidth) (value : ℕ) (t : AccessType)
        → Returns (guest_write ops (suc fuel) c packet va w value t)
    unfolding guest_write
    guest_write-Returns va w value t =
        finish_access-Returns c packet va _ _ MmuAccessKind.atomic _
          (translate-Completes ops fuel c.bus c.mmu va w MmuAccessKind.atomic _ steady valid)

    guest_load_reserved-Returns :
        (va : ℕ) (w : AccessWidth) → Returns (guest_load_reserved ops (suc fuel) c packet va w)
    unfolding guest_load_reserved
    guest_load_reserved-Returns va w =
        finish_access-Returns c packet va _ _ MmuAccessKind.load _
          (translate-Completes ops fuel c.bus c.mmu va w MmuAccessKind.load _ steady valid)

    guest_store_conditional-Returns :
        (token va : ℕ) (w : AccessWidth) (value : ℕ)
        → Returns (guest_store_conditional ops (suc fuel) c packet token va w value)
    unfolding guest_store_conditional
    guest_store_conditional-Returns token va w value =
        finish_access-Returns c packet va _ _ MmuAccessKind.store _
          (translate-Completes ops fuel c.bus c.mmu va w MmuAccessKind.store _ steady valid)

    module _ (i : DecodedInstruction) (destination : i.destination < 32) (next : ℕ) where
      on_option :
          {A : Type 0} (o : Option A) {x : Outcome D} {f : A → Outcome D}
          → Returns x
          → ((a : A) → Returns (f a))
          → Returns (elim o [ none ↦ x | some a ↦ f a ])
      on_option none h k = h
      on_option (some a) h k = k a

      scalar_load-Returns :
          (source1 : ℕ) → Returns (scalar_load ops (suc fuel) c packet i source1 next)
      unfolding scalar_load
      scalar_load-Returns source1 =
          on_option (load_form i.function3) (illegal-Returns c packet) λ form.
            finish_load-Returns packet i form next _ destination (guest_read-Returns _ _ _ _)

      scalar_store-Returns :
          (source1 source2 : ℕ)
          → Returns (scalar_store ops (suc fuel) c packet i source1 source2 next)
      unfolding scalar_store
      scalar_store-Returns source1 source2 =
          on_option (store_width i.function3) (illegal-Returns c packet)
            λ w. finish_store-Returns packet next _ (guest_write-Returns _ _ _ _)

      load_reserved-Returns :
          (form : AtomicForm) → Returns (load_reserved ops (suc fuel) c packet i form next)
      unfolding load_reserved
      load_reserved-Returns form = pick (not (i.source2 == 0)) (illegal-Returns c packet) (
          pick (is_misaligned form) (fail-Returns c packet _) (
            finish_load_reserved-Returns packet i form next _ destination
              (guest_load_reserved-Returns _ _)))

  store_conditional-Returns :
      (c : Cpu D) (packet : InstructionPacket) (i : DecodedInstruction) (form : AtomicForm)
      (source2 next : ℕ)
      → IsWellFormed c.bus
      → i.destination < 32
      → Returns (store_conditional ops (suc fuel) c packet i form source2 next)
  unfolding store_conditional
  store_conditional-Returns c packet i form source2 next valid h =
      pick (is_misaligned form) (fail-Returns _ packet _) (
        finish_store_conditional-Returns packet i next _ h
          (guest_store_conditional-Returns (with_reservation c 0) valid packet _ _ _ _))

  -- One arm of the switch, with what its test says.
  arm :
      (b : Bool) {x y : Outcome D}
      → (b ≡ true → Returns x)
      → (b ≡ false → Returns y)
      → Returns (if b then x else y)
  arm true h k = h refl
  arm false h k = k refl

  atomic_instruction-Returns :
      (c : Cpu D) (packet : InstructionPacket) (i : DecodedInstruction) (source1 source2 next : ℕ)
      → IsWellFormed c.bus
      → i.destination < 32
      → (bit_and (shr packet.bits 27) 0x1F == 2 || bit_and (shr packet.bits 27) 0x1F == 3) ≡ true
      → Returns (atomic_instruction ops (suc fuel) c packet i source1 source2 next)
  unfolding atomic_instruction
  atomic_instruction-Returns c packet i source1 source2 next valid h reservation =
      let form = atomic_form packet i source1 in
      pick (not (form.word_operation) && not (i.function3 == 3)) (illegal-Returns c packet) (
        arm (form.function5 == 2) (λ e. load_reserved-Returns c valid packet i h next form)
          (λ e.
            arm (form.function5 == 3)
              (λ e'. store_conditional-Returns c packet i form source2 next valid h)
              (λ e'. absurd (neither e e' reservation))))
    where
      neither : {a b : Bool} → a ≡ false → b ≡ false → (a || b) ≢ true
      neither e e' = ground arith

  module _ (unit : FloatingUnit D) where
    execute_opcode-Returns :
        (c : Cpu D) (packet : InstructionPacket) (i : DecodedInstruction) (source1 source2 : ℕ)
        → IsWellFormed c.bus
        → i.opcode ≡ bit_and packet.bits 0x7F
        → i.source2 < 32
        → i.destination < 32
        → is_beyond_integer packet ≡ false
        → Returns (execute_opcode ops unit (suc fuel) c packet i source1 source2)
    unfolding execute_opcode branch
    execute_opcode-Returns c packet i source1 source2 valid same s d single =
        let next : ℕ = sequential packet in
        arm (i.opcode == 0x57) (λ e. excluded (ground arith))
          λ e. pick (i.opcode == 0x37) (write-Returns c packet _ _ _ d) (
            pick (i.opcode == 0x17) (write-Returns c packet _ _ _ d) (
              pick (i.opcode == 0x6F) (jal-Returns c packet i _ d) (
                pick (i.opcode == 0x67) (jalr-Returns c packet i source1 _ d) (
                  pick (i.opcode == 0x63)
                    (finish_branch-Returns c packet _ (branch_taken i.function3 source1 source2))
                    (pick (i.opcode == 0x03) (scalar_load-Returns c valid packet i d _ source1) (
                      pick (i.opcode == 0x23)
                        (scalar_store-Returns c valid packet i d _ source1 source2)
                        (pick (i.opcode == 0x13)
                          (write_result-Returns c packet i _
                            (op_imm packet.bits i.function3 source1) d)
                          (pick (i.opcode == 0x1B)
                            (write_result-Returns c packet i _
                              (extended (op_imm_32 packet.bits i source1)) d)
                            (pick (i.opcode == 0x33)
                              (write_result-Returns c packet i _ (op i source1 source2) d)
                              (pick (i.opcode == 0x3B)
                                (write_result-Returns c packet i _ (op_32 i source1 source2) d)
                                (arm (i.opcode == 0x2F)
                                  (λ e.
                                    atomic_instruction-Returns c packet i source1 source2 _ valid d
                                      (ground arith))
                                  λ e.
                                    arm (i.opcode == 0x07 || i.opcode == 0x27)
                                      (λ e. excluded (ground arith))
                                      λ e.
                                        arm (is_floating_opcode i.opcode)
                                          (λ e. excluded (ground arith))
                                          λ e.
                                            pick (i.opcode == 0x0F) (fence-Returns c packet i _) (
                                              pick (i.opcode == 0x73)
                                                (execute_system-Returns c packet i source1 _ s d)
                                                (illegal-Returns c packet)))))))))))))
      where
        excluded : {o : Outcome D} → false ≡ true → Returns o
        excluded h = absurd (no_truth h)
          where
            no_truth : false ≢ true
            no_truth = cc

    execute_decoded-Returns :
        (c : Cpu D) (packet : InstructionPacket) (i : DecodedInstruction)
        (source1 source2 : Option ℕ)
        → IsWellFormed c.bus
        → i.opcode ≡ bit_and packet.bits 0x7F
        → i.source2 < 32
        → i.destination < 32
        → is_beyond_integer packet ≡ false
        → Returns source1
        → Returns source2
        → Returns (execute_decoded ops unit (suc fuel) c packet i source1 source2)
    unfolding execute_decoded
    execute_decoded-Returns c packet i none source2 valid same s d single h k = ok h.returned
    execute_decoded-Returns c packet i (some source1) none valid same s d single h k = ok k.returned
    execute_decoded-Returns c packet i (some source1) (some source2) valid same s d single h k =
        execute_opcode-Returns c packet i source1 source2 valid same s d single

    five_bits : (x : ℕ) → bit_and x 0x1F < 32
    five_bits x = omega (arith, bit_and_mask 5 x)

    pub execute_standard-Returns :
        (c : Cpu D) (packet : InstructionPacket)
        → IsWellFormed c.bus
        → is_beyond_integer packet ≡ false
        → Returns (execute_standard ops unit (suc fuel) c packet)
    unfolding execute_standard decode
    execute_standard-Returns c packet valid single =
        execute_decoded-Returns c packet (decode packet.bits) _ _ valid refl (five_bits _)
          (five_bits _) single (integer-Returns c.state _ (five_bits _))
          (integer-Returns c.state _ (five_bits _))
