-- ===== src/Encoder.antt =====
-- The encoder's bit stream, src/shared and src/compressor/core.
pub mod Writer
pub mod Log2
pub mod Header
mod Tests
