-- ===== src/Core/Compressed.antt =====
-- src/core/compressed_decoder.cpp: the expansion of 16-bit instructions into 32-bit ones.
pub mod Encode
pub mod Expand
pub mod RoundTrip
