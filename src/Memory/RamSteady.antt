-- ===== src/Memory/RamSteady.antt =====
-- src/memory/physical_memory.cpp behind the region interface: RAM as a device of the bus.
use homemade_risc_v_64_vecto.Base.{
  ℕ, zero, suc, ◌+◌, ◌*◌, ◌%◌, ◌^◌, ◌<◌, ◌≡◌, bit_or, shl64, arith, List, ==_refl, get_or,
}
use homemade_risc_v_64_vecto.Base.Bits.{bit_or-lt, bit_and_mask}
use homemade_risc_v_64_vecto.Bus.Region.{RegionOps}
use homemade_risc_v_64_vecto.Memory.Bytes.{read_bytes}
use homemade_risc_v_64_vecto.Memory.Ram.{PhysicalMemory}
use homemade_risc_v_64_vecto.Memory.Ram
use homemade_risc_v_64_vecto.Memory.WalkLaws.{Steady}

abbrev pub memory_ops : RegionOps PhysicalMemory
memory_ops = record { read = Ram.read; write = Ram.write; compare_exchange = Ram.compare_exchange }

read_bytes-lt :
    (n offset i acc : ℕ) (bytes : List ℕ) → acc < 2 ^ 64 → read_bytes n offset i acc bytes < 2 ^ 64
unfolding read_bytes
read_bytes-lt zero offset i acc bytes h = h
read_bytes-lt (suc n) offset i acc bytes h =
    let byte = shl64 (get_or bytes (offset + i) 0) (i * 8) in
    read_bytes-lt n offset (i + 1) (bit_or acc byte) bytes (bit_or-lt 64 acc byte h (omega arith))

-- RAM is steady: an exchange that expects what was just read takes place.
pub memory_ops-Steady : Steady memory_ops
unfolding Ram.read Ram.compare_exchange
memory_ops-Steady m o desired ok accepted =
    let observed = read_bytes 8 o 0 0 m.bytes in
    let small : observed % 2 ^ 64 ≡ observed =
      omega (arith, read_bytes-lt 8 o 0 0 m.bytes (omega arith)) in
    ground (arith, bit_and_mask 64 observed, small, ==_refl observed)
