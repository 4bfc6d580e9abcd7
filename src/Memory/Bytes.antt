-- ===== src/Memory/Bytes.antt =====
-- The byte loops of src/memory/physical_memory.cpp and src/memory/boot_rom.cpp.
use homemade_risc_v_64_vecto.Base.{
  ℕ, zero, suc, ◌+◌, ◌*◌, List, [], ◌∷◌, get_or, set, bit_and, bit_or, shl64, shr, u8,
}

-- `value |= uint64_t(bytes[offset + index]) << (index * 8)`, for the rounds that are left.
unfoldable pub read_bytes : ℕ → ℕ → ℕ → ℕ → List ℕ → ℕ
read_bytes zero offset index value bytes = value
read_bytes (suc left) offset index value bytes =
    read_bytes left offset (index + 1)
      (bit_or value (shl64 (get_or bytes (offset + index) 0) (index * 8))) bytes

-- `bytes[offset + index] = (value >> (index * 8)) & 0xFF`, for the rounds that are left.
unfoldable pub write_bytes : ℕ → ℕ → ℕ → ℕ → List ℕ → List ℕ
write_bytes zero offset index value bytes = bytes
write_bytes (suc left) offset index value bytes =
    write_bytes left offset (index + 1) value
      (set bytes (offset + index) (u8 (bit_and (shr value (index * 8)) 0xFF)))

-- `std::copy` of the initial contents to an offset.
unfoldable pub copy_bytes : List ℕ → ℕ → List ℕ → List ℕ
copy_bytes [] offset bytes = bytes
copy_bytes (x ∷ xs) offset bytes = copy_bytes xs (offset + 1) (set bytes offset x)
