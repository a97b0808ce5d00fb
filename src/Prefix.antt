-- ===== src/Prefix.antt =====
-- Prefix codes: the decoder's tables of src/decompressor/core/huffman.rs, and the encoder's codes
-- of src/shared/huffman.rs.
pub mod Table
pub mod Codes
pub mod Decode
pub mod Lists
pub mod Keys
pub mod LengthCode
mod Tests
pub mod Lengths
pub mod Runs
pub mod CodeLengths
