-- ===== src/Core/Cpu/UnitFree.antt =====
-- src/core/cpu.cpp: the scalar integer instructions do not reach the floating-point handlers.
use homemade_risc_v_64_vecto.Base.{
  ℕ, ◌≡◌, refl, Bool, true, false, not, ◌&&◌, ◌||◌, ◌==◌, if◌then◌else◌, Option, none, some,
  bit_and, shr, u16, arith,
}
use homemade_risc_v_64_vecto.Bus.Region.{RegionOps}
use homemade_risc_v_64_vecto.Core.Trap.{Trap}
use homemade_risc_v_64_vecto.Core.Compressed.Expand.{decompress_rv64c}
use homemade_risc_v_64_vecto.Core.Decoder.{
  InstructionPacket, DecodedInstruction, compressed, decode,
}
use homemade_risc_v_64_vecto.Core.Cpu.Guest.{Cpu}
use homemade_risc_v_64_vecto.Core.Cpu.Fetch.{FetchResult}
use homemade_risc_v_64_vecto.Core.Cpu.Execute.{illegal}
use homemade_risc_v_64_vecto.Core.Cpu.Dispatch.{
  FloatingUnit, is_floating_opcode, execute_opcode, execute_decoded, execute_standard,
  execute_expanded, execute,
}
use homemade_risc_v_64_vecto.Core.Cpu.Step.{execute_fetched}

-- The encodings that are not scalar integer instructions: OP-V, the floating-point and vector loads
-- and stores, the floating-point arithmetic, and the atomic memory operations but LR and SC.
abbrev pub is_beyond_integer : InstructionPacket → Bool
is_beyond_integer packet =
    let opcode : ℕ = bit_and packet.bits 0x7F in
    let function5 : ℕ = bit_and (shr packet.bits 27) 0x1F in
    opcode == 0x57
    || opcode == 0x07
    || opcode == 0x27
    || is_floating_opcode opcode
    || opcode == 0x2F && not (function5 == 2) && not (function5 == 3)

-- A scalar integer instruction, expanded if it is compressed, or no instruction.
abbrev pub is_integer : InstructionPacket → Bool
is_integer packet =
    if compressed packet
    then elim (decompress_rv64c (u16 packet.bits)) [
      | none ↦ true
      | some expanded ↦ not (is_beyond_integer (record packet { bits = expanded }))
    ]
    else not (is_beyond_integer packet)

-- The same for what a fetch returned, if it is an instruction.
abbrev pub fetches_integer : {D : Type 0} → Option (FetchResult × Cpu D) → Bool
fetches_integer none = true
fetches_integer (some (result, c)) = elim result.instruction [
  | none ↦ true
  | some packet ↦ is_integer packet
]

-- A unit that refuses every instruction.
abbrev pub refusing : (D : Type 0) → FloatingUnit D
refusing D = record {
  execute_floating = λ c packet i next. illegal c packet;
  vector_floating = λ packet. none;
}

module _ {D : Type 0} (ops : RegionOps D) (unit other : FloatingUnit D) (fuel : ℕ) where
  execute_opcode_same :
      (c : Cpu D) (packet : InstructionPacket) (i : DecodedInstruction) (source1 source2 : ℕ)
      → i.opcode ≡ bit_and packet.bits 0x7F
      → is_beyond_integer packet ≡ false
      → execute_opcode ops unit fuel c packet i source1 source2
        ≡ execute_opcode ops other fuel c packet i source1 source2
  unfolding execute_opcode
  execute_opcode_same c packet i source1 source2 same plain = ground arith

  execute_decoded_same :
      (c : Cpu D) (packet : InstructionPacket) (i : DecodedInstruction) (source1 source2 : Option ℕ)
      → i.opcode ≡ bit_and packet.bits 0x7F
      → is_beyond_integer packet ≡ false
      → execute_decoded ops unit fuel c packet i source1 source2
        ≡ execute_decoded ops other fuel c packet i source1 source2
  unfolding execute_decoded
  execute_decoded_same c packet i none source2 same plain = refl
  execute_decoded_same c packet i (some source1) none same plain = refl
  execute_decoded_same c packet i (some source1) (some source2) same plain =
      execute_opcode_same c packet i source1 source2 same plain

  execute_standard_same :
      (c : Cpu D) (packet : InstructionPacket)
      → is_beyond_integer packet ≡ false
      → execute_standard ops unit fuel c packet ≡ execute_standard ops other fuel c packet
  unfolding execute_standard decode
  execute_standard_same c packet plain =
      execute_decoded_same c packet (decode packet.bits) _ _ refl plain

  execute_expanded_same :
      (c : Cpu D) (packet : InstructionPacket) (o : Option ℕ)
      → elim o [
        | none ↦ true
        | some expanded ↦ not (is_beyond_integer (record packet { bits = expanded }))
      ]
        ≡ true
      → execute_expanded ops unit fuel c packet o ≡ execute_expanded ops other fuel c packet o
  unfolding execute_expanded
  execute_expanded_same c packet none plain = refl
  execute_expanded_same c packet (some expanded) plain =
      rw (execute_standard_same c (record packet { bits = expanded }) (ground arith)) refl

  -- A scalar integer instruction does the same whatever the floating-point handlers are.
  pub execute_same :
      (c : Cpu D) (packet : InstructionPacket)
      → is_integer packet ≡ true
      → execute ops unit fuel c packet ≡ execute ops other fuel c packet
  unfolding execute
  execute_same c packet plain = encoded (compressed packet) plain
    where
      encoded :
          (short : Bool)
          → (if short
              then elim (decompress_rv64c (u16 packet.bits)) [
                | none ↦ true
                | some expanded ↦ not (is_beyond_integer (record packet { bits = expanded }))
              ]
              else not (is_beyond_integer packet))
            ≡ true
          → (if short
              then execute_expanded ops unit fuel c packet (decompress_rv64c (u16 packet.bits))
              else execute_standard ops unit fuel c packet)
            ≡ (if short
                then execute_expanded ops other fuel c packet (decompress_rv64c (u16 packet.bits))
                else execute_standard ops other fuel c packet)
      encoded true k = execute_expanded_same c packet _ k
      encoded false k = execute_standard_same c packet (ground arith)

  pub execute_fetched_same :
      (o : Option (FetchResult × Cpu D))
      → fetches_integer o ≡ true
      → execute_fetched ops unit fuel o ≡ execute_fetched ops other fuel o
  unfolding execute_fetched
  execute_fetched_same none plain = refl
  execute_fetched_same (some (result, d)) plain = decided result.instruction result.trap plain
    where
      decided :
          (instruction : Option InstructionPacket) (trap : Option Trap)
          → elim instruction [ none ↦ true | some packet ↦ is_integer packet ] ≡ true
          → execute_fetched ops unit fuel
              (some (record { instruction = instruction; trap = trap }, d))
            ≡ execute_fetched ops other fuel
                (some (record { instruction = instruction; trap = trap }, d))
      decided instruction (some t) k = refl
      decided none none k = refl
      decided (some packet) none k = rw (execute_same d packet k) refl
