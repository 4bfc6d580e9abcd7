-- ===== src/Memory/RamLaws.antt =====
-- src/memory/physical_memory.cpp: what RAM promises of reads, writes and atomic exchanges.
use Prim.Native.String.{String}
use homemade_risc_v_64_vecto.Base.{
  ℕ, ◌+◌, ◌*◌, ◌%◌, ◌^◌, ◌≤◌, ◌<◌, ◌≡◌, ◌↔◌, ◌⊎◌, inl, inr, ◌∙◌, sym, Option-cases, replicate, true,
  false, some, length, length-replicate, All, All-replicate, bit_and, arith, ◌==◌, if◌then◌else◌,
}
use homemade_risc_v_64_vecto.Base.Bits.{bit_and_mask}
use homemade_risc_v_64_vecto.Bus.Access.{
  AccessWidth, AccessType, width_in_bytes, is_ok, success_value, success_with, byte, half_word,
  word, double_word, unnamed,
}
use homemade_risc_v_64_vecto.Bus.Range.{IsRange, create, create-IsRange, max_u64}
use homemade_risc_v_64_vecto.Memory.ByteLaws.{
  IsByte, length-write, write_bytes-IsByte, read_written, read_elsewhere, write_bytes-mod,
}
use homemade_risc_v_64_vecto.Memory.Ram.{
  PhysicalMemory, new_memory, value_mask, validate, read, write, compare_exchange,
}

pub record IsMemory (m : PhysicalMemory) : Type 0 where
  pub range_valid : IsRange m.range
  pub filled : length m.bytes ≡ m.range.size
  pub bytes_valid : All IsByte m.bytes

width-le : (w : AccessWidth) → width_in_bytes w ≤ 8
width-le byte = omega arith
width-le half_word = omega arith
width-le word = omega arith
width-le double_word = omega arith
width-le (unnamed n) = omega arith

masked :
    (w : AccessWidth) (x : ℕ)
    → 0 < width_in_bytes w
    → bit_and x (value_mask w) ≡ x % 2 ^ (width_in_bytes w * 8)
masked byte x h = bit_and_mask 8 x
masked half_word x h = bit_and_mask 16 x
masked word x h = bit_and_mask 32 x
masked double_word x h = bit_and_mask 64 x
masked (unnamed n) x h = absurd (omega arith)

-- An access is valid exactly when it has a width and lies whole in the memory; nothing overflows.
pub validate_iff :
    (m : PhysicalMemory) (o : ℕ) (w : AccessWidth)
    → (is_ok (validate m o w) ≡ true)
      ↔ ((0 < width_in_bytes w) × (o + width_in_bytes w ≤ length m.bytes))
unfolding validate
validate_iff m o w = ground arith

-- A memory of at most 2 ^ 64 - 1 bytes that the constructor makes is valid: its range has the base and
-- the size asked for, does not wrap, and is filled with that many bytes.
pub new_memory-IsMemory :
    (base size : ℕ) (name : String) {m : PhysicalMemory}
    → size ≤ max_u64
    → new_memory base size name ≡ some m
    → IsMemory m × (m.range.base ≡ base) × (m.range.size ≡ size)
unfolding new_memory
new_memory-IsMemory base size name {m} h e = elim (Option-cases (create base size)) [
  | inl refused ↦ absurd (ground arith)
  | inr (r, made) ↦
      let built : m ≡ record { name = name; range = r; bytes = replicate size 0 } = ground arith in
      let (valid, at_base, of_size) = create-IsRange base size h made in
      rw built (
        record {
          range_valid = valid;
          filled = length-replicate size 0 ∙ sym of_size;
          bytes_valid = All-replicate IsByte size 0 (omega arith);
        },
        at_base,
        of_size,
      )
]

pub write-IsMemory :
    (m : PhysicalMemory) (o : ℕ) (w : AccessWidth) (x : ℕ) (t : AccessType)
    → IsMemory m
    → IsMemory (write m o w x t).1
unfolding write
write-IsMemory m o w x t v = ground (
  arith,
  length-write (width_in_bytes w) o 0 x m.bytes,
  write_bytes-IsByte (width_in_bytes w) o 0 x m.bytes v.bytes_valid,
)

-- A write that is accepted is read back at the same place, cut to its width; one that is refused
-- leaves the memory as it is. Either way every read that does not meet the write, at any width,
-- gives the same result as before.
pub write_then_read :
    (m : PhysicalMemory) (o : ℕ) (w : AccessWidth) (x p : ℕ) (w' : AccessWidth) (t t' : AccessType)
    → IsMemory m
    → (p + width_in_bytes w' ≤ o) ⊎ (o + width_in_bytes w ≤ p)
    → let (result, after) = write m o w x t in
      let kept = success_value (x % 2 ^ (width_in_bytes w * 8)) in
      ((read after o w t').0 ≡ (if is_ok result then kept else (read m o w t').0))
      × (after ≡ (if is_ok result then after else m))
      × ((read after p w' t').0 ≡ (read m p w' t').0)
unfolding write read validate
write_then_read m o w x p w' t t' v apart = (
  ground (
    arith,
    length-write (width_in_bytes w) o 0 x m.bytes,
    read_written (width_in_bytes w) o x m.bytes (width-le w),
    v.bytes_valid,
  ),
  ground arith,
  ground (
    arith,
    length-write (width_in_bytes w) o 0 x m.bytes,
    read_elsewhere (width_in_bytes w') o (width_in_bytes w) p x m.bytes (width-le w') apart
        v.bytes_valid,
  ),
)

-- A valid compare-exchange is one step: it returns the value that a read finds, and exactly if that
-- is the expected value, cut to the width, the memory becomes what a plain write makes of it.
pub compare_exchange_atomic :
    (m : PhysicalMemory) (o : ℕ) (w : AccessWidth) (expected desired : ℕ) (t : AccessType)
    → is_ok (validate m o w) ≡ true
    → let old = (read m o w t).0.value in
      compare_exchange m o w expected desired t ≡ (
        if old == expected % 2 ^ (width_in_bytes w * 8)
        then (success_with old true, (write m o w desired t).1)
        else (success_with old false, m))
unfolding compare_exchange read write
compare_exchange_atomic m o w e d t ok =
    let pos = ((validate_iff m o w).0 ok).0 in
    let z : (0 + width_in_bytes w) * 8 ≡ width_in_bytes w * 8 = omega arith in
    let same = write_bytes-mod (width_in_bytes w) o 0 d m.bytes in
    let stored = rw z at same in ground (arith, ok, masked w e pos, masked w d pos, stored)
