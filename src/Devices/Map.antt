-- ===== src/Devices/Map.antt =====
-- include/rvemu/bus/address_map.hpp: the fixed physical address map.
use Prim.Native.String.{String}
use homemade_risc_v_64_vecto.Base.{ℕ, ◌+◌, List, [], ◌∷◌}

pub record Entry : Type 0 where
  pub name : String
  pub base : ℕ
  pub size : ℕ

abbrev pub boot_rom : Entry
boot_rom = record { name = "boot-rom"; base = 0x1000; size = 0xB000 }

abbrev pub clint : Entry
clint = record { name = "clint"; base = 0x2000000; size = 0xC000 }

abbrev pub plic : Entry
plic = record { name = "plic"; base = 0xC000000; size = 0x4000000 }

abbrev pub uart : Entry
uart = record { name = "uart16550"; base = 0x10000000; size = 0x100 }

abbrev pub virtio_block : Entry
virtio_block = record { name = "virtio-block"; base = 0x10001000; size = 0x1000 }

abbrev pub virtio_network : Entry
virtio_network = record { name = "virtio-network"; base = 0x10002000; size = 0x1000 }

abbrev pub default_ram : Entry
default_ram = record { name = "ram"; base = 0x80000000; size = 0x40000000 }

abbrev pub entries : List Entry
entries = boot_rom ∷ clint ∷ plic ∷ uart ∷ virtio_block ∷ virtio_network ∷ default_ram ∷ []

abbrev pub end_exclusive : Entry → ℕ
end_exclusive e = e.base + e.size
