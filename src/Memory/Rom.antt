-- ===== src/Memory/Rom.antt =====
-- src/memory/boot_rom.cpp: the boot ROM, filled before it is sealed and read-only on the bus.
use Prim.Native.String.{String}
use homemade_risc_v_64_vecto.Base.{
  ℕ, ◌+◌, ◌-◌, Bool, true, false, not, Option, none, some, List, length, replicate, ltb, leb, ◌==◌,
  ◌||◌, if◌then◌else◌,
}
use homemade_risc_v_64_vecto.Bus.Access.{
  AccessWidth, AccessType, AccessResult, BusError, BusErrorCode, width_in_bytes, is_ok, success,
  success_value, failure,
}
use homemade_risc_v_64_vecto.Bus.Range.{AddressRange, create}
use homemade_risc_v_64_vecto.Memory.Bytes.{read_bytes, copy_bytes}

pub record BootRom : Type 0 where
  pub name : String
  pub range : AddressRange
  pub bytes : List ℕ
  pub is_sealed : Bool

unfoldable pub new_rom : ℕ → ℕ → String → Option BootRom
new_rom base size name = elim (create base size) [
  | none ↦ none
  | some r ↦ some (record { name = name; range = r; bytes = replicate size 0; is_sealed = false })
]

abbrev pub rom_error : BusErrorCode → BootRom → ℕ → ℕ → BusError
rom_error c m a n = record { code = c; address = a; size = n; region = m.name }

unfoldable pub read_only_failure : BootRom → ℕ → ℕ → AccessResult
read_only_failure m offset n = failure (
    rom_error BusErrorCode.read_only m
      (if leb offset m.range.size then m.range.base + offset else m.range.base) n)

unfoldable pub load : BootRom → ℕ → List ℕ → AccessResult × BootRom
load m offset contents =
    if m.is_sealed
    then (read_only_failure m offset (length contents), m)
    else if ltb (length m.bytes) offset || ltb (length m.bytes - offset) (length contents)
    then (failure (rom_error BusErrorCode.out_of_bounds m m.range.base (length contents)), m)
    else (success, record m { bytes = copy_bytes contents offset m.bytes })

unfoldable pub seal : BootRom → BootRom
seal m = record m { is_sealed = true }

unfoldable pub validate : BootRom → ℕ → AccessWidth → AccessResult
validate m offset w =
    let n = width_in_bytes w in
    let size = length m.bytes in
    if n == 0
    then failure (rom_error BusErrorCode.invalid_width m m.range.base 0)
    else if ltb size offset || ltb (size - offset) n
    then failure (rom_error BusErrorCode.out_of_bounds m m.range.base n)
    else success

unfoldable pub read : BootRom → ℕ → AccessWidth → AccessType → AccessResult × BootRom
read m offset w t =
    let v = validate m offset w in
    if not (is_ok v)
    then (v, m)
    else (success_value (read_bytes (width_in_bytes w) offset 0 0 m.bytes), m)

unfoldable pub write : BootRom → ℕ → AccessWidth → ℕ → AccessType → AccessResult × BootRom
write m offset w x t = (read_only_failure m offset (width_in_bytes w), m)

unfoldable pub compare_exchange :
    BootRom → ℕ → AccessWidth → ℕ → ℕ → AccessType → AccessResult × BootRom
compare_exchange m offset w expected desired t = (read_only_failure m offset (width_in_bytes w), m)
