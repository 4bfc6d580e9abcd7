-- ===== src/Vector/Group.antt =====
-- src/vector/vector_register_group.cpp: register groups, the place of an element, and reads and writes
-- of elements in little-endian order. A result is `none` for an element that has no place; the outer
-- `none` of an access is the exception of a byte that has none.
use homemade_risc_v_64_vecto.Base.{
  ℕ, zero, suc, ◌+◌, ◌-◌, ◌*◌, ◌/◌, ◌%◌, ◌^◌, bit_and, bit_or, u8, u64, shr, Bool, true, false, not,
  ◌||◌, leb, ltb, ◌==◌, if◌then◌else◌, Option, none, some,
}
use homemade_risc_v_64_vecto.Vector.State.{
  VectorState, register_count, register_bytes, byte_value, set_byte_value,
}
use homemade_risc_v_64_vecto.Vector.Configuration.{VectorConfiguration}

pub record VectorElementLocation : Type 0 where
  pub register_index : ℕ
  pub byte_offset : ℕ
  pub width_bytes : ℕ

pub record VectorRegisterGroup : Type 0 where
  pub configuration : VectorConfiguration
  pub base_register : ℕ

abbrev pub bits_per_byte : ℕ
bits_per_byte = 8

unfoldable pub physical_register_count : VectorConfiguration → ℕ
physical_register_count configuration =
    if leb configuration.lmul_denominator configuration.lmul_numerator
    then configuration.lmul_numerator / configuration.lmul_denominator
    else 1

unfoldable pub create : VectorConfiguration → ℕ → Option VectorRegisterGroup
create configuration base_register =
    let count = physical_register_count configuration in
    if not configuration.valid || leb register_count base_register
    then none
    else if not (base_register % count == 0) || ltb (register_count - base_register) count
    then none
    else some (record { configuration = configuration; base_register = base_register })

unfoldable pub locate : VectorRegisterGroup → ℕ → Option VectorElementLocation
locate group element_index =
    let width_bytes = group.configuration.sew_bits / bits_per_byte in
    let byte_index = u64 (element_index * width_bytes) in
    let register_offset = byte_index / register_bytes in
    let byte_offset = byte_index % register_bytes in
    if leb group.configuration.vlmax element_index
    then none
    else if leb (physical_register_count group.configuration) register_offset
        || ltb register_bytes (byte_offset + width_bytes)
    then none
    else some (record {
      register_index = u8 (group.base_register + register_offset);
      byte_offset = u8 byte_offset;
      width_bytes = u8 width_bytes;
    })

-- The loop over the bytes of an element, with `rounds` bytes left from byte `byte` on.
unfoldable pub read_bytes : VectorState → VectorElementLocation → ℕ → ℕ → ℕ → Option ℕ
read_bytes s location zero byte value = some value
read_bytes s location (suc rounds) byte value =
    elim (byte_value s location.register_index (location.byte_offset + byte)) [
      | none ↦ none
      | some b ↦
          read_bytes s location rounds (suc byte)
            (bit_or value (u64 (b * 2 ^ (byte * bits_per_byte))))
    ]

unfoldable pub read_element : VectorRegisterGroup → VectorState → ℕ → Option (Option ℕ)
read_element group s element_index = elim (locate group element_index) [
  | none ↦ some none
  | some location ↦ elim (read_bytes s location location.width_bytes 0 0) [
    | none ↦ none
    | some value ↦ some (some value)
  ]
]

unfoldable pub write_bytes : VectorState → VectorElementLocation → ℕ → ℕ → ℕ → Option VectorState
write_bytes s location zero byte value = some s
write_bytes s location (suc rounds) byte value =
    elim (set_byte_value s location.register_index (location.byte_offset + byte)
      (u8 (shr value (byte * bits_per_byte)))) [
        | none ↦ none
        | some s' ↦ write_bytes s' location rounds (suc byte) value
      ]

-- Whether the element was written, and the registers after.
unfoldable pub write_element :
    VectorRegisterGroup → VectorState → ℕ → ℕ → Option (Bool × VectorState)
write_element group s element_index value = elim (locate group element_index) [
  | none ↦ some (false, s)
  | some location ↦ elim (write_bytes s location location.width_bytes 0 value) [
    | none ↦ none
    | some s' ↦ some (true, s')
  ]
]

unfoldable pub mask_bit : VectorState → ℕ → Option (Option Bool)
mask_bit s element_index =
    let byte_index = u8 (element_index / bits_per_byte) in
    let bit_index = u8 (element_index % bits_per_byte) in
    if leb (register_bytes * bits_per_byte) element_index
    then some none
    else elim (byte_value s 0 byte_index) [
      | none ↦ none
      | some b ↦ some (some (not (bit_and (shr b bit_index) 1 == 0)))
    ]
