-- ===== src/Vector/Memory.antt =====
-- src/vector/vector_memory.cpp: decoding of unit-stride and strided vector loads and stores.
use homemade_risc_v_64_vecto.Base.{
  ℕ, ◌^◌, bit_and, shr, Bool, not, ◌||◌, ◌==◌, if◌then◌else◌, Option, none, some,
}

pub data VectorMemoryAddressingMode : Type 0 where
  unit_stride strided : VectorMemoryAddressingMode

pub record VectorMemoryOperation : Type 0 where
  pub load : Bool
  pub masked : Bool
  pub element_width_bits : ℕ
  pub addressing_mode : VectorMemoryAddressingMode
  pub vector_register : ℕ
  pub base_register : ℕ
  pub stride_register : ℕ

unfoldable pub decode_element_width : ℕ → Option ℕ
decode_element_width encoding =
    if encoding == 0
    then some 8
    else if encoding == 5
    then some 16
    else if encoding == 6
    then some 32
    else if encoding == 7
    then some 64
    else none

unfoldable pub decode_addressing_mode : ℕ → ℕ → Option VectorMemoryAddressingMode
decode_addressing_mode mop fields =
    if mop == 0
    then if not (fields == 0) then none else some unit_stride
    else if mop == 2
    then some strided
    else none

unfoldable pub vector_memory_fields :
    ℕ → Bool → Option ℕ → Option VectorMemoryAddressingMode → Option VectorMemoryOperation
vector_memory_fields instruction load none mode = none
vector_memory_fields instruction load (some width) none = none
vector_memory_fields instruction load (some width) (some mode) = some (record {
  load = load;
  masked = bit_and instruction (2 ^ 25) == 0;
  element_width_bits = width;
  addressing_mode = mode;
  vector_register = bit_and (shr instruction 7) 0x1F;
  base_register = bit_and (shr instruction 15) 0x1F;
  stride_register = bit_and (shr instruction 20) 0x1F;
})

unfoldable pub decode_vector_memory_operation : ℕ → Bool → Option VectorMemoryOperation
decode_vector_memory_operation instruction load =
    if not (bit_and (shr instruction 29) 7 == 0) || not (bit_and instruction (2 ^ 28) == 0)
    then none
    else vector_memory_fields instruction load
        (decode_element_width (bit_and (shr instruction 12) 7))
        (decode_addressing_mode (bit_and (shr instruction 26) 3)
          (bit_and (shr instruction 20) 0x1F))
