-- ===== src/Examples/Memory.antt =====
-- src/memory/physical_memory.cpp and boot_rom.cpp on sixteen bytes.
use homemade_risc_v_64_vecto.Base.{
  ◌%◌, ◌^◌, ◌≡◌, refl, inr, ◌==◌, if◌then◌else◌, true, false, List, [], ◌∷◌, replicate, arith,
}
use homemade_risc_v_64_vecto.Bus.Access.{
  byte, word, AccessType, BusErrorCode, is_ok, success_value, success_with,
}
use homemade_risc_v_64_vecto.Memory.Ram.{validate, read, write, compare_exchange}
use homemade_risc_v_64_vecto.Memory.RamLaws.{IsMemory, write_then_read, compare_exchange_atomic}
use homemade_risc_v_64_vecto.Memory.Rom.{BootRom, load, seal}
use homemade_risc_v_64_vecto.Memory.Rom
use homemade_risc_v_64_vecto.Memory.RomLaws.{RomCall, run, sealed_forever}
use homemade_risc_v_64_vecto.Examples.Bus.{small_range, small_range-IsRange, small_memory}

small_memory-IsMemory : IsMemory small_memory
small_memory-IsMemory = record {
  range_valid = small_range-IsRange;
  filled = refl;
  bytes_valid = ground arith;
}

write_then_read_example :
    let (result, after) = write small_memory 4 word 0x12345678 AccessType.store in
    ((read after 4 word AccessType.load).0 ≡ (
      if is_ok result
      then success_value (0x12345678 % 2 ^ 32)
      else (read small_memory 4 word AccessType.load).0))
    × (after ≡ (if is_ok result then after else small_memory))
    × ((read after 8 byte AccessType.load).0 ≡ (read small_memory 8 byte AccessType.load).0)
write_then_read_example =
    write_then_read small_memory 4 word 0x12345678 8 byte AccessType.store AccessType.load
      small_memory-IsMemory (inr (omega arith))

compare_exchange_atomic_example : compare_exchange small_memory 4 word 0 9 AccessType.atomic ≡ (
    if (read small_memory 4 word AccessType.atomic).0.value == 0
    then (
      success_with (read small_memory 4 word AccessType.atomic).0.value true,
      (write small_memory 4 word 9 AccessType.atomic).1,
    )
    else (success_with (read small_memory 4 word AccessType.atomic).0.value false, small_memory))
unfolding validate
compare_exchange_atomic_example =
    compare_exchange_atomic small_memory 4 word 0 9 AccessType.atomic refl

abbrev small_rom : BootRom
small_rom = record { name = "rom"; range = small_range; bytes = replicate 16 0; is_sealed = false }

abbrev tampering : List RomCall
tampering = RomCall.loads 0 (9 ∷ []) ∷ RomCall.writes 0 byte 9 AccessType.store ∷ []

sealed_forever_example :
    let final = run (seal small_rom) tampering in
    (final ≡ seal small_rom)
    × ((Rom.write final 0 byte 1 AccessType.store).0.error.code ≡ BusErrorCode.read_only)
    × ((Rom.compare_exchange final 0 byte 1 2 AccessType.store).0.error.code
        ≡ BusErrorCode.read_only)
sealed_forever_example = sealed_forever small_rom tampering 0 byte 1 2 AccessType.store
