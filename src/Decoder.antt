-- ===== src/Decoder.antt =====
-- The decoder, src/decompressor.
pub mod Errors
pub mod Bits
pub mod Header
pub mod Memory
pub mod History
