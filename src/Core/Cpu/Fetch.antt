-- ===== src/Core/Cpu/Fetch.antt =====
-- src/core/cpu.cpp, `fetch`: the instruction at the program counter, by halfwords.
use homemade_risc_v_64_vecto.Base.{
  ℕ, ◌+◌, ◌-◌, ◌*◌, ◌^◌, bit_and, bit_or, not, ltb, ◌==◌, if◌then◌else◌, Option, none, some,
}
use homemade_risc_v_64_vecto.Bus.Access.{
  AccessWidth, half_word, AccessType, AccessResult, is_ok, success,
}
use homemade_risc_v_64_vecto.Bus.Access
use homemade_risc_v_64_vecto.Bus.Range.{max_u64}
use homemade_risc_v_64_vecto.Bus.Region.{RegionOps}
use homemade_risc_v_64_vecto.Core.Trap.{
  Trap, instruction_access_fault, instruction_address_misaligned,
}
use homemade_risc_v_64_vecto.Core.Decoder.{InstructionPacket}
use homemade_risc_v_64_vecto.Memory.Sv39.{MmuAccessKind, MmuContext, TranslationResult}
use homemade_risc_v_64_vecto.Memory.Sv39
use homemade_risc_v_64_vecto.Core.Cpu.Guest.{Cpu, GuestAccessResult, guest_read}

pub record FetchResult : Type 0 where
  pub instruction : Option InstructionPacket
  pub trap : Option Trap

module _ {D : Type 0} (ops : RegionOps D) (fuel : ℕ) where
  abbrev pub fetched : InstructionPacket → FetchResult
  fetched packet = record { instruction = some packet; trap = none }

  abbrev pub fetch_failed : Trap → FetchResult
  fetch_failed trap = record { instruction = none; trap = some trap }

  abbrev pub with_instruction : Trap → ℕ → Trap
  with_instruction trap instruction = record trap { instruction = instruction }

  -- The second half of a 32-bit encoding.
  unfoldable pub fetch_upper :
      ℕ → ℕ → Option (GuestAccessResult × Cpu D) → Option (FetchResult × Cpu D)
  fetch_upper pc lower none = none
  fetch_upper pc lower (some (result, c)) = elim result.trap [
    | some trap ↦ some (fetch_failed (with_instruction trap lower), c)
    | none ↦
        let upper = bit_and result.access.value 0xFFFF in
        some (
          fetched
              (record { program_counter = pc; bits = bit_or lower (upper * 2 ^ 16); length = 4 }),
          c,
        )
  ]

  -- The halves are read where the instruction stands; the first tells the length.
  unfoldable pub fetch_lower :
      ℕ → InstructionPacket → Option (GuestAccessResult × Cpu D) → Option (FetchResult × Cpu D)
  fetch_lower pc packet none = none
  fetch_lower pc packet (some (result, c)) = elim result.trap [
    | some trap ↦ some (fetch_failed trap, c)
    | none ↦
        let lower = bit_and result.access.value 0xFFFF in
        let rest = fetch_upper pc lower (
          guest_read ops fuel c packet (pc + 2) half_word Sv39.MmuAccessKind.instruction_fetch
            Access.AccessType.instruction_fetch) in
        if not (bit_and lower 3 == 3)
        then some (fetched (record { program_counter = pc; bits = lower; length = 2 }), c)
        else if ltb (max_u64 - 2) pc
        then some (
          fetch_failed (record {
            cause = instruction_access_fault;
            value = pc;
            program_counter = pc;
            instruction = lower;
          }),
          c,
        )
        else rest
  ]

  unfoldable pub fetch : Cpu D → Option (FetchResult × Cpu D)
  fetch c =
      let pc = c.state.program_counter in
      let packet : InstructionPacket = record { program_counter = pc; bits = 0; length = 0 } in
      let rest = fetch_lower pc packet (
        guest_read ops fuel c packet pc half_word Sv39.MmuAccessKind.instruction_fetch
          Access.AccessType.instruction_fetch) in
      if not (bit_and pc 1 == 0)
      then some (
        fetch_failed (record {
          cause = instruction_address_misaligned;
          value = pc;
          program_counter = pc;
          instruction = 0;
        }),
        c,
      )
      else rest
