-- ===== src/Devices/ClintLaws.antt =====
-- src/devices/clint.cpp: registers keep what is written, halves compose, and the interrupt levels
-- follow the registers.
use homemade_risc_v_64_vecto.Base.{
  ℕ, ◌+◌, ◌*◌, ◌/◌, ◌%◌, ◌^◌, ◌<◌, ◌≡◌, refl, ◌⊎◌, bit_or, bit_and, true, false, leb, ◌==◌,
  if◌then◌else◌, arith, shl64,
}
use homemade_risc_v_64_vecto.Base.Bits.{bit_at, bit_and_mask, high_mask, bit_or_fields, bit_or_comm}
use homemade_risc_v_64_vecto.Bus.Access.{
  AccessWidth, byte, half_word, word, double_word, unnamed, AccessType, width_in_bytes, is_ok,
  success_value,
}
use homemade_risc_v_64_vecto.Core.Csr.State.{CsrFile}
use homemade_risc_v_64_vecto.Core.Csr.Context.{set_time, set_interrupt_pending}
use homemade_risc_v_64_vecto.Core.Trap.{machine_software, machine_timer}
use homemade_risc_v_64_vecto.Core.Csr.InterruptLaws.{set_interrupt_pending_bits}
use homemade_risc_v_64_vecto.Devices.Clint.{
  Clint, msip_offset, validate_access, write_timer_register, read_timer_register, synchronize,
  advance, read, write, compare_exchange,
}

pub record IsClint (c : Clint) : Type 0 where
  pub time_word : c.mtime < 2 ^ 64
  pub compare_word : c.mtimecmp < 2 ^ 64

low_half :
    (d v : ℕ)
    → d < 2 ^ 64
    → bit_or (bit_and d 0xFFFFFFFF00000000) (bit_and v 0xFFFFFFFF)
      ≡ d / 2 ^ 32 * 2 ^ 32 + v % 2 ^ 32
low_half d v h =
    let kept : d / 2 ^ 32 % 2 ^ 32 ≡ d / 2 ^ 32 = omega arith in
    rw (high_mask 32 32 d, bit_and_mask 32 v, kept)
      (bit_or_fields 32 (d / 2 ^ 32) (v % 2 ^ 32) (omega arith))

high_half :
    (d v : ℕ)
    → bit_or (bit_and d 0xFFFFFFFF) (shl64 (bit_and v 0xFFFFFFFF) 32)
      ≡ v % 2 ^ 32 * 2 ^ 32 + d % 2 ^ 32
high_half d v =
    let shifted : shl64 (v % 2 ^ 32) 32 ≡ v % 2 ^ 32 * 2 ^ 32 = omega arith in
    rw (bit_and_mask 32 d, bit_and_mask 32 v, shifted, bit_or_comm)
      (bit_or_fields 32 (v % 2 ^ 32) (d % 2 ^ 32) (omega arith))

-- A 32-bit write replaces one half of a timer register and keeps the other.
write_half :
    (d offset register v : ℕ)
    → d < 2 ^ 64
    → write_timer_register d offset register word v ≡ (
        if offset == register
        then d / 2 ^ 32 * 2 ^ 32 + v % 2 ^ 32
        else v % 2 ^ 32 * 2 ^ 32 + d % 2 ^ 32)
unfolding write_timer_register
write_half d offset register v h = ground (arith, low_half d v h, high_half d v)

write_whole : (d offset register v : ℕ) → write_timer_register d offset register double_word v ≡ v
unfolding write_timer_register
write_whole d offset register v = refl

read_half :
    (d offset register : ℕ)
    → read_timer_register d offset register word
      ≡ (if offset == register then d % 2 ^ 32 else d / 2 ^ 32)
unfolding read_timer_register
read_half d offset register = ground (arith, bit_and_mask 32 d)

read_whole : (d offset register : ℕ) → read_timer_register d offset register double_word ≡ d
unfolding read_timer_register
read_whole d offset register = refl

-- The accesses that the device accepts.
abbrev pub Accepted : ℕ → AccessWidth → Type 0
Accepted o w =
    ((w ≡ word) × ((o ≡ 0) ⊎ (o ≡ 0x4000) ⊎ (o ≡ 0x4004) ⊎ (o ≡ 0xBFF8) ⊎ (o ≡ 0xBFFC)))
    ⊎ ((w ≡ double_word) × ((o ≡ 0x4000) ⊎ (o ≡ 0xBFF8)))

validate-Accepted : (o : ℕ) (w : AccessWidth) → is_ok (validate_access o w) ≡ true → Accepted o w
unfolding validate_access
validate-Accepted o byte e = cc
validate-Accepted o half_word e = cc
validate-Accepted o word e = ground arith
validate-Accepted o double_word e = ground arith
validate-Accepted o (unnamed n) e = cc

-- An access that is refused, and any exchange, leaves the device as it is.
pub refused_unchanged :
    (c : Clint) (o : ℕ) (w : AccessWidth) (v d : ℕ) (t : AccessType)
    → (is_ok (write c o w v t).0 ≡ false → (write c o w v t).1 ≡ c)
      × ((read c o w t).1 ≡ c)
      × (is_ok (compare_exchange c o w v d t).0 ≡ false)
      × ((compare_exchange c o w v d t).1 ≡ c)
unfolding write read compare_exchange
refused_unchanged c o w v d t = (ground arith, ground arith, refl, refl)

-- A write that the device accepts is read back at the same place: a timer register or half cut to
-- its width, the software interrupt register cut to its one bit.
pub written_register :
    (c : Clint) (o : ℕ) (w : AccessWidth) (v : ℕ) (t t' : AccessType)
    → IsClint c
    → v < 2 ^ 64
    → is_ok (write c o w v t).0 ≡ true
    → (read (write c o w v t).1 o w t').0
      ≡ success_value (if o == msip_offset then v % 2 else v % 2 ^ (width_in_bytes w * 8))
unfolding write read validate_access
written_register c o byte v t t' i h e = cc
written_register c o half_word v t t' i h e = cc
written_register c o word v t t' i h e =
    let compare = write_timer_register c.mtimecmp o 0x4000 word v in
    let time = write_timer_register c.mtime o 0xBFF8 word v in
    ground (
      arith,
      write_half c.mtimecmp o 0x4000 v i.compare_word,
      write_half c.mtime o 0xBFF8 v i.time_word,
      read_half compare o 0x4000,
      read_half time o 0xBFF8,
      bit_and_mask 1 v,
    )
written_register c o double_word v t t' i h e = ground (
  arith,
  write_whole c.mtimecmp o 0x4000 v,
  write_whole c.mtime o 0xBFF8 v,
  read_whole v o 0x4000,
  read_whole v o 0xBFF8,
)
written_register c o (unnamed n) v t t' i h e = cc

kept_time : (d : Clint) (c : CsrFile) → (synchronize d c).time ≡ d.mtime
unfolding synchronize set_interrupt_pending set_time
kept_time d c = ground arith

-- After the device is synchronized, the machine software and machine timer interrupts are pending as
-- the software bit and the comparison of the two timer registers say, every other interrupt is as
-- pending as before, and the time counter shows the timer.
pub synchronized_levels :
    (d : Clint) (c : CsrFile) (k : ℕ)
    → k < 64
    → ((synchronize d c).time ≡ d.mtime)
      × (bit_at (synchronize d c).mip k ≡ (
          if k == 3
          then (if d.msip then 1 else 0)
          else if k == 7
          then (if leb d.mtimecmp d.mtime then 1 else 0)
          else bit_at c.mip k))
unfolding synchronize set_time
synchronized_levels d c k h =
    let timed = set_time c d.mtime in
    let software = set_interrupt_pending timed machine_software d.msip in
    let expired = leb d.mtimecmp d.mtime in
    (
      kept_time d c,
      ground (
        arith,
        set_interrupt_pending_bits timed machine_software d.msip k h,
        set_interrupt_pending_bits software machine_timer expired k h,
      ),
    )

write_timer_register-lt :
    (d offset register : ℕ) (w : AccessWidth) (v : ℕ)
    → d < 2 ^ 64
    → v < 2 ^ 64
    → write_timer_register d offset register w v < 2 ^ 64
unfolding write_timer_register
write_timer_register-lt d offset register w v h k = ground (arith, low_half d v h, high_half d v)

-- The passing of time, and a write of any offset and width, accepted or refused, keep both timer
-- registers in 64 bits.
pub operations-IsClint :
    (c : Clint) (ticks o : ℕ) (w : AccessWidth) (v : ℕ) (t : AccessType)
    → IsClint c
    → v < 2 ^ 64
    → IsClint (advance c ticks) × IsClint (write c o w v t).1
unfolding advance write
operations-IsClint c ticks o w v t i h =
    let time = write_timer_register-lt c.mtime o 0xBFF8 w v i.time_word h in
    let compare = write_timer_register-lt c.mtimecmp o 0x4000 w v i.compare_word h in
    (
      record { time_word = omega arith; compare_word = i.compare_word },
      record {
        time_word = ground (arith, i.time_word, time);
        compare_word = ground (arith, i.compare_word, compare);
      },
    )
