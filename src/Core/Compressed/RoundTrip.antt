-- ===== src/Core/Compressed/RoundTrip.antt =====
-- src/core/compressed_decoder.cpp: the offsets of compressed jumps and branches, from the encoder of
-- an assembler to the decoder of the expansion.
use homemade_risc_v_64_vecto.Base.{
  ℕ, suc, ◌+◌, ◌-◌, ◌*◌, ◌/◌, ◌%◌, ◌^◌, ◌<◌, ◌≡◌, refl, Bool, true, false, ltb, ◌==◌, ◌&&◌,
  if◌then◌else◌, Option, none, some, bit_and, shr, arith,
}
use homemade_risc_v_64_vecto.Base.Finite.{all_below, all_below_sound}
use homemade_risc_v_64_vecto.Core.Decoder.{decode, sign_extend, immediate_b, immediate_j}
use homemade_risc_v_64_vecto.Core.Compressed.Encode.{
  encode_b, encode_j, jump_immediate, branch_immediate, ci_immediate,
}
use homemade_risc_v_64_vecto.Core.Compressed.Expand.{decompress_rv64c, decompress_quadrant1}

-- C.J with the offset v: offset bits 11, 4, 9:8, 10, 6, 7, 3:1 and 5 from bit 12 down.
abbrev pub compressed_jump : ℕ → ℕ
compressed_jump v =
    0xA001
    + v / 2 ^ 11 % 2 * 2 ^ 12
    + v / 2 ^ 4 % 2 * 2 ^ 11
    + v / 2 ^ 8 % 4 * 2 ^ 9
    + v / 2 ^ 10 % 2 * 2 ^ 8
    + v / 2 ^ 6 % 2 * 2 ^ 7
    + v / 2 ^ 7 % 2 * 2 ^ 6
    + v / 2 % 8 * 2 ^ 3
    + v / 2 ^ 5 % 2 * 2 ^ 2

-- C.BEQZ (f = 0) and C.BNEZ (f = 1) on register 8 + r with the offset v: offset bits 8 and 4:3, the
-- register, then offset bits 7:6, 2:1 and 5.
abbrev pub compressed_branch : ℕ → ℕ → ℕ → ℕ
compressed_branch f r v =
    0xC001
    + f * 2 ^ 13
    + v / 2 ^ 8 % 2 * 2 ^ 12
    + v / 2 ^ 3 % 4 * 2 ^ 10
    + r * 2 ^ 7
    + v / 2 ^ 6 % 4 * 2 ^ 5
    + v / 2 % 4 * 2 ^ 3
    + v / 2 ^ 5 % 2 * 2 ^ 2

-- An offset of w + 1 bits, sign-extended.
abbrev pub extended_offset : ℕ → ℕ → ℕ
extended_offset w v = if ltb v (2 ^ w) then v else 2 ^ 64 - 2 ^ suc w + v

abbrev is_jump : ℕ → Option ℕ → Bool
is_jump v none = false
is_jump v (some e) =
    bit_and e 0x7F == 0x6F && bit_and (shr e 7) 0x1F == 0 && immediate_j e == extended_offset 11 v

abbrev passes_jump : ℕ → Bool
passes_jump half = is_jump (half * 2) (decompress_rv64c (compressed_jump (half * 2)))

every_jump : all_below 2048 passes_jump ≡ true
unfolding decompress_rv64c decompress_quadrant1 encode_j jump_immediate sign_extend immediate_j
    ci_immediate
every_jump = refl

-- A branch to the comparison `f` of register 8 + r with x0, with the offset v.
abbrev is_branch : ℕ → ℕ → ℕ → Option ℕ → Bool
is_branch f r v none = false
is_branch f r v (some e) =
    bit_and e 0x7F == 0x63
    && bit_and (shr e 12) 0x07 == f
    && bit_and (shr e 15) 0x1F == 8 + r
    && bit_and (shr e 20) 0x1F == 0
    && immediate_b e == extended_offset 8 v

abbrev passes_branch : ℕ → ℕ → ℕ → Bool
passes_branch f r half =
    is_branch f r (half * 2) (decompress_rv64c (compressed_branch f r (half * 2)))

every_branch : all_below 2 (λ f. all_below 8 (λ r. all_below 256 (λ h. passes_branch f r h))) ≡ true
unfolding decompress_rv64c decompress_quadrant1 encode_b branch_immediate sign_extend immediate_b
every_branch = refl

-- An expansion with this offset, read by the decoder of the base instructions.
pub record JumpExpands (v : ℕ) (expanded : Option ℕ) : Type 0 where
  pub encoding : ℕ
  pub expands : expanded ≡ some encoding
  pub opcode : (decode encoding).opcode ≡ 0x6F
  pub destination : (decode encoding).destination ≡ 0
  pub offset : immediate_j encoding ≡ extended_offset 11 v

pub record BranchExpands (f r v : ℕ) (expanded : Option ℕ) : Type 0 where
  pub encoding : ℕ
  pub expands : expanded ≡ some encoding
  pub opcode : (decode encoding).opcode ≡ 0x63
  pub function3 : (decode encoding).function3 ≡ f
  pub source1 : (decode encoding).source1 ≡ 8 + r
  pub source2 : (decode encoding).source2 ≡ 0
  pub offset : immediate_b encoding ≡ extended_offset 8 v

to_jump : (v : ℕ) (o : Option ℕ) → is_jump v o ≡ true → JumpExpands v o
unfolding decode
to_jump v none h = cc
to_jump v (some e) h = record {
  encoding = e;
  expands = refl;
  opcode = ground arith;
  destination = ground arith;
  offset = ground arith;
}

to_branch : (f r v : ℕ) (o : Option ℕ) → is_branch f r v o ≡ true → BranchExpands f r v o
unfolding decode
to_branch f r v none h = cc
to_branch f r v (some e) h = record {
  encoding = e;
  expands = refl;
  opcode = ground arith;
  function3 = ground arith;
  source1 = ground arith;
  source2 = ground arith;
  offset = ground arith;
}

-- C.J, C.BEQZ and C.BNEZ as an assembler encodes them, with any even offset that fits and any of the
-- eight registers, are expanded into the jump that keeps no link and the branch on equality or
-- inequality of that register with x0, and the base decoder reads that offset back, sign-extended.
pub jump_and_branch_expand :
    (jump f r branch : ℕ)
    → jump < 2 ^ 11
    → f < 2
    → r < 8
    → branch < 2 ^ 8
    → JumpExpands (jump * 2) (decompress_rv64c (compressed_jump (jump * 2)))
      × BranchExpands f r (branch * 2) (decompress_rv64c (compressed_branch f r (branch * 2)))
jump_and_branch_expand jump f r branch hj hf hr hb = (
  to_jump (jump * 2) _ (all_below_sound 2048 passes_jump jump every_jump (omega arith)),
  to_branch f r (branch * 2) _ (
      all_below_sound 256 (passes_branch f r) branch
        (all_below_sound 8 (λ i. all_below 256 (passes_branch f i)) r
          (all_below_sound 2 (λ i. all_below 8 (λ j. all_below 256 (passes_branch i j))) f
            every_branch hf)
          hr)
        (omega arith)),
)
