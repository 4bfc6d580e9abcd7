-- ===== src/Devices/Clint.antt =====
-- src/devices/clint.cpp: the core-local interruptor, a 64-bit timer with its compare register and
-- the software interrupt bit. The device's lock makes each call one step.
use homemade_risc_v_64_vecto.Base.{
  ℕ, ◌+◌, ◌-◌, ◌%◌, ◌^◌, bit_or, bit_and, shl64, shr, add64, Bool, true, false, not, ◌||◌, ◌&&◌,
  leb, ◌==◌, if◌then◌else◌,
}
use homemade_risc_v_64_vecto.Bus.Access.{
  AccessWidth, word, double_word, AccessType, AccessResult, BusErrorCode, width_in_bytes, is_ok,
  success, success_value, failure,
}
use homemade_risc_v_64_vecto.Core.Trap.{machine_software, machine_timer}
use homemade_risc_v_64_vecto.Core.Csr.State.{CsrFile}
use homemade_risc_v_64_vecto.Core.Csr.Context.{set_time, set_interrupt_pending}
use homemade_risc_v_64_vecto.Devices.Map.{clint}

abbrev pub msip_offset : ℕ
msip_offset = 0

abbrev pub mtimecmp_offset : ℕ
mtimecmp_offset = 0x4000

abbrev pub mtime_offset : ℕ
mtime_offset = 0xBFF8

pub record Clint : Type 0 where
  pub mtime : ℕ
  pub mtimecmp : ℕ
  pub msip : Bool

abbrev pub new_clint : Clint
new_clint = record { mtime = 0; mtimecmp = 2 ^ 64 - 1; msip = false }

abbrev pub is_word : AccessWidth → Bool
is_word word = true
is_word _ = false

abbrev pub is_double_word : AccessWidth → Bool
is_double_word double_word = true
is_double_word _ = false

abbrev pub invalid_access : ℕ → AccessWidth → AccessResult
invalid_access offset w = failure (record {
  code = BusErrorCode.invalid_width;
  address = add64 clint.base offset;
  size = width_in_bytes w;
  region = clint.name;
})

unfoldable pub advance : Clint → ℕ → Clint
advance c ticks = record c { mtime = add64 c.mtime ticks }

unfoldable pub synchronize : Clint → CsrFile → CsrFile
synchronize c csrs =
    let timed = set_time csrs c.mtime in
    let software = set_interrupt_pending timed machine_software c.msip in
    set_interrupt_pending software machine_timer (leb c.mtimecmp c.mtime)

-- The access is to the whole register, or to one of its halves.
abbrev pub is_timer_register_access : ℕ → AccessWidth → ℕ → Bool
is_timer_register_access offset w register =
    if is_double_word w
    then offset == register
    else is_word w && (offset == register || offset == register + 4)

unfoldable pub validate_access : ℕ → AccessWidth → AccessResult
validate_access offset w =
    if not (is_word w) && not (is_double_word w)
    then invalid_access offset w
    else if not (offset % width_in_bytes w == 0)
    then invalid_access offset w
    else if offset == msip_offset && is_word w
    then success
    else if is_timer_register_access offset w mtimecmp_offset
        || is_timer_register_access offset w mtime_offset
    then success
    else invalid_access offset w

unfoldable pub write_timer_register : ℕ → ℕ → ℕ → AccessWidth → ℕ → ℕ
write_timer_register destination offset register w value =
    if is_double_word w
    then value
    else let half = bit_and value 0xFFFFFFFF in
      if offset == register
      then bit_or (bit_and destination 0xFFFFFFFF00000000) half
      else bit_or (bit_and destination 0xFFFFFFFF) (shl64 half 32)

unfoldable pub read_timer_register : ℕ → ℕ → ℕ → AccessWidth → ℕ
read_timer_register source offset register w =
    if is_double_word w
    then source
    else if offset == register
    then bit_and source 0xFFFFFFFF
    else shr source 32

unfoldable pub read : Clint → ℕ → AccessWidth → AccessType → AccessResult × Clint
read c offset w t =
    let v = validate_access offset w in
    if not (is_ok v)
    then (v, c)
    else if offset == msip_offset
    then (success_value (if c.msip then 1 else 0), c)
    else if is_timer_register_access offset w mtimecmp_offset
    then (success_value (read_timer_register c.mtimecmp offset mtimecmp_offset w), c)
    else (success_value (read_timer_register c.mtime offset mtime_offset w), c)

unfoldable pub write : Clint → ℕ → AccessWidth → ℕ → AccessType → AccessResult × Clint
write c offset w value t =
    let v = validate_access offset w in
    if not (is_ok v)
    then (v, c)
    else if offset == msip_offset
    then (success, record c { msip = not (bit_and value 1 == 0) })
    else if is_timer_register_access offset w mtimecmp_offset
    then (
      success,
      record c { mtimecmp = write_timer_register c.mtimecmp offset mtimecmp_offset w value },
    )
    else (success, record c { mtime = write_timer_register c.mtime offset mtime_offset w value })

unfoldable pub compare_exchange :
    Clint → ℕ → AccessWidth → ℕ → ℕ → AccessType → AccessResult × Clint
compare_exchange c offset w expected desired t = (invalid_access offset w, c)
