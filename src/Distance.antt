-- ===== src/Distance.antt =====
-- Distances on both sides: the encoder's alphabet and codes (src/shared/distance.rs and
-- src/shared/command.rs) and the decoder's (src/decompressor/core/distance.rs).
pub mod Params
pub mod Codes
pub mod Layout
pub mod Cache
pub mod Split
pub mod RoundTrip
pub mod Entries
pub mod Recent
pub mod Alphabets
mod Tests
