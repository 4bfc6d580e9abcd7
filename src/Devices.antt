-- ===== src/Devices.antt =====
-- The memory-mapped devices.
pub mod Map
pub mod Clint
pub mod ClintLaws
pub mod Plic
pub mod PlicSelect
pub mod PlicLaws
pub mod PlicClaims
pub mod PlicInvariant
