-- ===== src/Core/Cpu/VectorConfig.antt =====
-- src/core/cpu.cpp, `execute_vector_configuration`: vsetvli, vsetivli and vsetvl.
use homemade_risc_v_64_vecto.Base.{
  ℕ, ◌-◌, ◌*◌, ◌^◌, bit_and, shr, Bool, true, false, not, ◌||◌, ◌&&◌, ◌==◌, if◌then◌else◌, Option,
  none, some,
}
use homemade_risc_v_64_vecto.Core.Csr.Names.{code_of, vtype, vl}
use homemade_risc_v_64_vecto.Core.Csr.Access.{peek}
use homemade_risc_v_64_vecto.Core.Csr.Context.{vector_state_enabled, commit_vector_configuration}
use homemade_risc_v_64_vecto.Core.Decoder.{InstructionPacket, DecodedInstruction}
use homemade_risc_v_64_vecto.Core.Cpu.State.{integer}
use homemade_risc_v_64_vecto.Core.Cpu.Guest.{Cpu}
use homemade_risc_v_64_vecto.Core.Cpu.Execute.{
  Outcome, with_state, illegal, retire, write_and_retire,
}
use homemade_risc_v_64_vecto.Vector.Configuration.{
  decode_vector_configuration, select_vector_length, can_preserve_vector_length, vtype_vill,
}

-- What a vset* instruction asks for.
pub record VectorRequest : Type 0 where
  pub requested_vtype : ℕ
  pub application_vector_length : ℕ
  pub preserve_vector_length : Bool

-- With both registers x0 the length is kept; with rs1 alone x0 it is the largest.
abbrev pub register_request : DecodedInstruction → ℕ → ℕ → VectorRequest
register_request instruction requested_vtype source1 =
    if instruction.source1 == 0 && instruction.destination == 0
    then record {
      requested_vtype = requested_vtype;
      application_vector_length = 0;
      preserve_vector_length = true;
    }
    else record {
      requested_vtype = requested_vtype;
      application_vector_length = if instruction.source1 == 0 then 2 ^ 64 - 1 else source1;
      preserve_vector_length = false;
    }

unfoldable pub vector_request :
    InstructionPacket → DecodedInstruction → ℕ → ℕ → Option VectorRequest
vector_request packet instruction source1 source2 =
    if bit_and (shr packet.bits 25) 0x7F == 0x40
    then some (register_request instruction source2 source1)
    else if bit_and packet.bits (2 ^ 31) == 0
    then some (register_request instruction (bit_and (shr packet.bits 20) 0x7FF) source1)
    else if bit_and packet.bits (3 * 2 ^ 30) == 3 * 2 ^ 30
    then some (record {
      requested_vtype = bit_and (shr packet.bits 20) 0x3FF;
      application_vector_length = instruction.source1;
      preserve_vector_length = false;
    })
    else none

module _ {D : Type 0} where
  abbrev pub committed : Cpu D → ℕ → ℕ → Cpu D
  committed c type length =
      with_state c (record c.state { csrs = commit_vector_configuration c.state.csrs type length })

  unfoldable pub configure :
      Cpu D → InstructionPacket → DecodedInstruction → ℕ → Option VectorRequest → Outcome D
  configure c packet instruction sequential_pc none = illegal c packet
  configure c packet instruction sequential_pc (some request) =
      let configuration = decode_vector_configuration request.requested_vtype in
      let vector_length =
        select_vector_length request.application_vector_length configuration.vlmax in
      let preserved =
        can_preserve_vector_length (peek c.state.csrs (code_of vtype)) request.requested_vtype in
      if request.preserve_vector_length
      then if not preserved
        then illegal c packet
        else retire (committed c configuration.vtype (peek c.state.csrs (code_of vl))) packet
            sequential_pc
      else if configuration.valid
      then write_and_retire (committed c configuration.vtype vector_length) packet
          instruction.destination vector_length sequential_pc
      else write_and_retire (committed c vtype_vill 0) packet instruction.destination 0
          sequential_pc

  -- The source registers by their numbers in the encoding.
  unfoldable pub configure_with :
      Cpu D → InstructionPacket → DecodedInstruction → ℕ → Option ℕ → Option ℕ → Outcome D
  configure_with c packet instruction sequential_pc none source2 = none
  configure_with c packet instruction sequential_pc (some source1) none = none
  configure_with c packet instruction sequential_pc (some source1) (some source2) =
      configure c packet instruction sequential_pc
        (vector_request packet instruction source1 source2)

  unfoldable pub execute_vector_configuration :
      Cpu D → InstructionPacket → DecodedInstruction → ℕ → Outcome D
  execute_vector_configuration c packet instruction sequential_pc =
      if not (instruction.function3 == 7) || not (vector_state_enabled c.state.csrs)
      then illegal c packet
      else configure_with c packet instruction sequential_pc (integer c.state instruction.source1)
          (integer c.state instruction.source2)
