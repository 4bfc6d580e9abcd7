-- ===== src/Memory.antt =====
-- RAM and boot ROM: little-endian byte stores behind the region interface of the bus.
pub mod Bytes
pub mod ByteLaws
pub mod Ram
pub mod Rom
pub mod RamLaws
pub mod RomLaws
pub mod Sv39
pub mod Sv39Laws
pub mod Tlb
pub mod TlbLaws
pub mod Walk
pub mod WalkLaws
pub mod WalkUpkeep
pub mod RamSteady
