-- ===== src/Core/Cpu/Atomic.antt =====
-- src/core/cpu.cpp: LR, SC and the atomic memory operations. The host's fences for `aq` and `rl`
-- change no state of the model.
use homemade_risc_v_64_vecto.Base.{
  ℕ, zero, suc, ◌-◌, bit_and, shr, Bool, not, ◌&&◌, ◌==◌, if◌then◌else◌, Option, none, some,
}
use homemade_risc_v_64_vecto.Bus.Access.{AccessWidth, word, double_word, AccessType, width_in_bytes}
use homemade_risc_v_64_vecto.Bus.Access
use homemade_risc_v_64_vecto.Bus.Region.{RegionOps}
use homemade_risc_v_64_vecto.Core.Trap.{load_address_misaligned, store_address_misaligned}
use homemade_risc_v_64_vecto.Core.Decoder.{InstructionPacket, DecodedInstruction}
use homemade_risc_v_64_vecto.Core.IntegerA.{
  AtomicOperation, decode_atomic_operation, execute_atomic_operation,
}
use homemade_risc_v_64_vecto.Core.Cpu.Alu.{sign_extend_word}
use homemade_risc_v_64_vecto.Core.Cpu.Guest.{
  Cpu, GuestAccessResult, make_trap, guest_read, guest_load_reserved, guest_store_conditional,
  guest_compare_exchange,
}
use homemade_risc_v_64_vecto.Core.Cpu.Execute.{Outcome, fail, illegal, write_and_retire}
use homemade_risc_v_64_vecto.Memory.Sv39.{MmuAccessKind}
use homemade_risc_v_64_vecto.Memory.Sv39

-- The fields of the encoding that all the atomic instructions share.
pub record AtomicForm : Type 0 where
  pub word_operation : Bool
  pub width : AccessWidth
  pub address : ℕ
  pub function5 : ℕ

abbrev pub atomic_form : InstructionPacket → DecodedInstruction → ℕ → AtomicForm
atomic_form packet instruction source1 = record {
  word_operation = instruction.function3 == 2;
  width = if instruction.function3 == 2 then word else double_word;
  address = source1;
  function5 = bit_and (shr packet.bits 27) 0x1F;
}

-- `(address & (width_bytes - 1)) != 0`.
abbrev pub is_misaligned : AtomicForm → Bool
is_misaligned form = not (bit_and form.address (width_in_bytes form.width - 1) == 0)

-- What the destination register gets of a word read from memory.
abbrev pub read_value : AtomicForm → ℕ → ℕ
read_value form value = if form.word_operation then sign_extend_word value else value

module _ {D : Type 0} where
  abbrev pub with_reservation : Cpu D → ℕ → Cpu D
  with_reservation c token = record c { state = record c.state { reservation_token = token } }

  unfoldable pub finish_load_reserved :
      InstructionPacket
      → DecodedInstruction
      → AtomicForm
      → ℕ
      → Option (GuestAccessResult × Cpu D)
      → Outcome D
  finish_load_reserved packet instruction form sequential_pc none = none
  finish_load_reserved packet instruction form sequential_pc (some (loaded, c)) = elim loaded.trap [
    | some trap ↦ fail c packet trap
    | none ↦
        write_and_retire (with_reservation c loaded.token) packet instruction.destination
          (read_value form loaded.access.value) sequential_pc
  ]

  unfoldable pub finish_store_conditional :
      InstructionPacket → DecodedInstruction → ℕ → Option (GuestAccessResult × Cpu D) → Outcome D
  finish_store_conditional packet instruction sequential_pc none = none
  finish_store_conditional packet instruction sequential_pc (some (stored, c)) = elim stored.trap [
    | some trap ↦ fail c packet trap
    | none ↦
        write_and_retire c packet instruction.destination (if stored.access.exchanged then 0 else 1)
          sequential_pc
  ]

  -- A round of the exchange loop on what the exchange returned; `again` is the rest of the loop at
  -- the value that the exchange found.
  unfoldable pub after_exchange :
      (Cpu D → ℕ → Outcome D)
      → InstructionPacket
      → DecodedInstruction
      → AtomicForm
      → ℕ
      → ℕ
      → Option (GuestAccessResult × Cpu D)
      → Outcome D
  after_exchange again packet instruction form sequential_pc original none = none
  after_exchange again packet instruction form sequential_pc original (some (exchanged, c)) =
      let rest = again c exchanged.access.value in
      elim exchanged.trap [
        | some trap ↦ fail c packet trap
        | none ↦
            if exchanged.access.exchanged
            then write_and_retire c packet instruction.destination (read_value form original)
                sequential_pc
            else rest
      ]

module _ {D : Type 0} (ops : RegionOps D) (fuel : ℕ) where
  -- The `for (;;)` of an atomic operation, for at most `rounds` exchanges.
  unfoldable pub exchange_loop :
      ℕ
      → Cpu D
      → InstructionPacket
      → DecodedInstruction
      → AtomicForm
      → AtomicOperation
      → ℕ
      → ℕ
      → ℕ
      → Outcome D
  exchange_loop zero c packet instruction form operation source2 sequential_pc original = none
  exchange_loop (suc rounds) c packet instruction form operation source2 sequential_pc original =
      after_exchange
        (λ c' value.
          exchange_loop rounds c' packet instruction form operation source2 sequential_pc value)
        packet instruction form sequential_pc original
        (guest_compare_exchange ops fuel c packet form.address form.width original
          (execute_atomic_operation operation original source2 form.word_operation))

  unfoldable pub finish_observation :
      InstructionPacket
      → DecodedInstruction
      → AtomicForm
      → AtomicOperation
      → ℕ
      → ℕ
      → Option (GuestAccessResult × Cpu D)
      → Outcome D
  finish_observation packet instruction form operation source2 sequential_pc none = none
  finish_observation packet instruction form operation source2 sequential_pc (some (observed, c)) =
      elim observed.trap [
        | some trap ↦ fail c packet trap
        | none ↦
            exchange_loop fuel c packet instruction form operation source2 sequential_pc
              observed.access.value
      ]

  unfoldable pub load_reserved :
      Cpu D → InstructionPacket → DecodedInstruction → AtomicForm → ℕ → Outcome D
  load_reserved c packet instruction form sequential_pc =
      if not (instruction.source2 == 0)
      then illegal c packet
      else if is_misaligned form
      then fail c packet (make_trap packet load_address_misaligned form.address)
      else finish_load_reserved packet instruction form sequential_pc
          (guest_load_reserved ops fuel c packet form.address form.width)

  unfoldable pub store_conditional :
      Cpu D → InstructionPacket → DecodedInstruction → AtomicForm → ℕ → ℕ → Outcome D
  store_conditional c packet instruction form source2 sequential_pc =
      if is_misaligned form
      then fail (with_reservation c 0) packet
          (make_trap packet store_address_misaligned form.address)
      else finish_store_conditional packet instruction sequential_pc (
          guest_store_conditional ops fuel (with_reservation c 0) packet c.state.reservation_token
            form.address form.width source2)

  unfoldable pub memory_operation :
      Cpu D → InstructionPacket → DecodedInstruction → AtomicForm → ℕ → ℕ → Outcome D
  memory_operation c packet instruction form source2 sequential_pc =
      elim (decode_atomic_operation form.function5) [
        | none ↦ illegal c packet
        | some operation ↦
            if is_misaligned form
            then fail c packet (make_trap packet store_address_misaligned form.address)
            else finish_observation packet instruction form operation source2 sequential_pc (
                guest_read ops fuel c packet form.address form.width Sv39.MmuAccessKind.atomic
                  Access.AccessType.atomic)
      ]

  unfoldable pub atomic_instruction :
      Cpu D → InstructionPacket → DecodedInstruction → ℕ → ℕ → ℕ → Outcome D
  atomic_instruction c packet instruction source1 source2 sequential_pc =
      let form = atomic_form packet instruction source1 in
      if not (form.word_operation) && not (instruction.function3 == 3)
      then illegal c packet
      else if form.function5 == 2
      then load_reserved c packet instruction form sequential_pc
      else if form.function5 == 3
      then store_conditional c packet instruction form source2 sequential_pc
      else memory_operation c packet instruction form source2 sequential_pc
