-- ===== src/Vector.antt =====
-- The vector extension: registers, configuration, register groups, instructions.
pub mod State
pub mod Configuration
pub mod Group
pub mod Bounds
pub mod Integer
pub mod Memory
