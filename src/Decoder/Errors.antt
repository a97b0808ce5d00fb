-- ===== src/Decoder/Errors.antt =====
-- src/decompressor/error.rs, and the results of the decoder's parsing steps.
use mbrotli.Common.{ℕ}

pub data InvalidDataKind : Type 0 where
  header meta_block huffman context_map distance dictionary_reference padding : InvalidDataKind

pub data DecodeError : Type 0 where
  invalid_data : InvalidDataKind → DecodeError
  unexpected_end_of_input : DecodeError
  trailing_data : ℕ → DecodeError
  output_too_small : ℕ → DecodeError
  output_size_mismatch : ℕ → ℕ → DecodeError
  input_limit_exceeded : ℕ → DecodeError
  output_limit_exceeded : ℕ → DecodeError
  window_limit_exceeded : ℕ → ℕ → DecodeError
  large_window_disabled : DecodeError
  memory_limit_exceeded : ℕ → DecodeError
  allocation_failed size_overflow abandoned_session invalid_state internal_invariant : DecodeError

-- `Result<Option<A>, DecodeError>`: `Ok(Some(a))`, `Ok(None)` (more input is wanted), `Err(e)`.
pub data Poll {ℓ} (A : Type ℓ) : Type ℓ where
  ready : A → Poll A
  pending : Poll A
  failed : DecodeError → Poll A
