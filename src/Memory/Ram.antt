-- ===== src/Memory/Ram.antt =====
-- src/memory/physical_memory.cpp: RAM as a byte store with whole-access validation.
use Prim.Native.String.{String}
use homemade_risc_v_64_vecto.Base.{
  ℕ, ◌-◌, ◌*◌, ◌^◌, true, false, not, Option, none, some, List, length, replicate, bit_and, ltb,
  ◌==◌, ◌||◌, if◌then◌else◌,
}
use homemade_risc_v_64_vecto.Bus.Access.{
  AccessWidth, AccessType, AccessResult, BusError, BusErrorCode, width_in_bytes, is_ok, success,
  success_value, success_with, failure,
}
use homemade_risc_v_64_vecto.Bus.Range.{AddressRange, create, max_u64}
use homemade_risc_v_64_vecto.Memory.Bytes.{read_bytes, write_bytes}

pub record PhysicalMemory : Type 0 where
  pub name : String
  pub range : AddressRange
  pub bytes : List ℕ

-- The constructor; `none` is the exception for an empty or overflowing range.
unfoldable pub new_memory : ℕ → ℕ → String → Option PhysicalMemory
new_memory base size name = elim (create base size) [
  | none ↦ none
  | some r ↦ some (record { name = name; range = r; bytes = replicate size 0 })
]

abbrev pub memory_error : BusErrorCode → PhysicalMemory → ℕ → BusError
memory_error c m n = record { code = c; address = m.range.base; size = n; region = m.name }

abbrev pub value_mask : AccessWidth → ℕ
value_mask w =
    if width_in_bytes w == 8
    then max_u64
    else if width_in_bytes w == 0
    then 0
    else 2 ^ (width_in_bytes w * 8) - 1

unfoldable pub validate : PhysicalMemory → ℕ → AccessWidth → AccessResult
validate m offset w =
    let n = width_in_bytes w in
    let size = length m.bytes in
    if n == 0
    then failure (memory_error BusErrorCode.invalid_width m 0)
    else if ltb size offset || ltb (size - offset) n
    then failure (memory_error BusErrorCode.out_of_bounds m n)
    else success

abbrev pub read_unlocked : PhysicalMemory → ℕ → AccessWidth → ℕ
read_unlocked m offset w = read_bytes (width_in_bytes w) offset 0 0 m.bytes

abbrev pub write_unlocked : PhysicalMemory → ℕ → AccessWidth → ℕ → PhysicalMemory
write_unlocked m offset w v = record m { bytes = write_bytes (width_in_bytes w) offset 0 v m.bytes }

unfoldable pub read : PhysicalMemory → ℕ → AccessWidth → AccessType → AccessResult × PhysicalMemory
read m offset w t =
    let v = validate m offset w in
    if not (is_ok v) then (v, m) else (success_value (read_unlocked m offset w), m)

unfoldable pub write :
    PhysicalMemory → ℕ → AccessWidth → ℕ → AccessType → AccessResult × PhysicalMemory
write m offset w x t =
    let v = validate m offset w in
    if not (is_ok v) then (v, m) else (success, write_unlocked m offset w x)

unfoldable pub compare_exchange :
    PhysicalMemory → ℕ → AccessWidth → ℕ → ℕ → AccessType → AccessResult × PhysicalMemory
compare_exchange m offset w expected desired t =
    let v = validate m offset w in
    if not (is_ok v)
    then (v, m)
    else let observed = read_unlocked m offset w in
      if observed == bit_and expected (value_mask w)
      then (success_with observed true, write_unlocked m offset w (bit_and desired (value_mask w)))
      else (success_with observed false, m)
