-- ===== src/Bus/Region.antt =====
-- include/rvemu/bus/address_region.hpp: the interface of RAM, ROM and the memory-mapped devices.
-- A region is its name, its range and the state of the device behind it; the three virtual
-- functions take that state and return it.
use Prim.Native.String.{String}
use homemade_risc_v_64_vecto.Base.{ℕ}
use homemade_risc_v_64_vecto.Bus.Access.{AccessWidth, AccessType, AccessResult}
use homemade_risc_v_64_vecto.Bus.Range.{AddressRange}

pub record RegionOps (D : Type 0) : Type 0 where
  pub read : D → ℕ → AccessWidth → AccessType → AccessResult × D
  pub write : D → ℕ → AccessWidth → ℕ → AccessType → AccessResult × D
  pub compare_exchange : D → ℕ → AccessWidth → ℕ → ℕ → AccessType → AccessResult × D

pub record Region (D : Type 0) : Type 0 where
  pub name : String
  pub range : AddressRange
  pub device : D
