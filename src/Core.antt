-- ===== src/Core.antt =====
-- The hart: traps and privilege modes, control and status registers, instruction fields and
-- arithmetic.
pub mod Trap
pub mod Csr
pub mod Decoder
pub mod DecoderLaws
pub mod Compressed
pub mod IntegerM
pub mod MultiplyLaws
pub mod DivideLaws
pub mod IntegerA
pub mod IntegerALaws
pub mod Cpu
