-- ===== src/Decoder/Header.antt =====
-- src/decompressor/core/header.rs with src/window.rs and the window limit of
-- src/decompressor/config.rs: the stream header and the meta-block headers.
pub mod Lengths
use mbrotli.Common.{ℕ, ◌+◌, ◌-◌, ◌*◌, ◌/◌, ◌%◌, ◌^◌, bit_and, Bool, true, false, not, ◌&&◌, ◌||◌}
use mbrotli.Common.{Option, none, some, ltb, leb, ◌==◌, if◌then◌else◌}
use mbrotli.Decoder.Errors.{DecodeError, InvalidDataKind, Poll, ready, pending, failed}
use mbrotli.Decoder.Bits.{Cursor, M, ◌>>=◌, ◌>>◌, pure, fail, peek, drop_bits, align}

pub data WindowEncoding : Type 0 where
  standard large : WindowEncoding

pub record Window : Type 0 where
  pub bits : ℕ
  pub encoding : WindowEncoding

-- `ConfigError::StandardWindow` and `ConfigError::LargeWindow`, the two of these constructors.
pub data ConfigError : Type 0 where
  standard_window large_window : ℕ → ConfigError

pub data WindowResult (A : Type 0) : Type 0 where
  ok : A → WindowResult A
  err : ConfigError → WindowResult A

-- `Window::standard`
unfoldable pub window_standard : ℕ → WindowResult Window
window_standard bits =
    if ltb bits 10 || ltb 24 bits
    then err (ConfigError.standard_window bits)
    else ok (record { bits = bits; encoding = WindowEncoding.standard })

-- `Window::large`
unfoldable pub window_large : ℕ → WindowResult Window
window_large bits =
    if ltb bits 10 || ltb 62 bits
    then err (ConfigError.large_window bits)
    else ok (record { bits = bits; encoding = WindowEncoding.large })

pub record WindowLimit : Type 0 where
  pub max_bits : ℕ
  pub allows_large : Bool

-- A declaration: its bits, its width in the stream, and whether it is a large window's.
pub record Declared : Type 0 where
  pub bits : ℕ
  pub width : ℕ
  pub large : Bool

-- The large-window form: the marker 0x11, and six bits of size.
unfoldable pub large_declaration : M Declared
large_declaration = do
  marker ← peek 8
  if not (marker == 0x11) then fail (DecodeError.invalid_data InvalidDataKind.header) else (do
    header ← peek 14
    let declared = header / 2 ^ 8
    if ltb declared 10 || ltb 62 declared
        then fail (DecodeError.invalid_data InvalidDataKind.header)
        else pure (record { bits = declared; width = 14; large = true }))

-- The seven-bit form, by its three upper bits.
unfoldable pub long_declaration : ℕ → M Declared
long_declaration long =
    let n = long / 2 ^ 4 in
    if n == 0
    then pure (record { bits = 17; width = 7; large = false })
    else if n == 1
    then large_declaration
    else pure (record { bits = 8 + n; width = 7; large = false })

unfoldable pub declaration : M Declared
declaration = do
  first ← peek 1
  if first == 0 then pure (record { bits = 16; width = 1; large = false }) else (do
    short ← peek 4
    if not (short / 2 == 0)
        then pure (record { bits = 17 + short / 2; width = 4; large = false })
        else (peek 7 >>= long_declaration))

-- The window of a declaration, once the limits are checked.
unfoldable pub checked_window : WindowLimit → Declared → M Window
checked_window limit d =
    if d.large && not limit.allows_large
    then fail DecodeError.large_window_disabled
    else if ltb limit.max_bits d.bits
    then fail (DecodeError.window_limit_exceeded d.bits limit.max_bits)
    else elim (if d.large then window_large d.bits else window_standard d.bits) [
      | ok w ↦ (drop_bits d.width >>= λ _. pure w)
      | err e ↦ fail (DecodeError.invalid_data InvalidDataKind.header)
    ]

unfoldable pub window : WindowLimit → M Window
window limit = declaration >>= checked_window limit

pub data MetaBlock : Type 0 where
  end : MetaBlock
  compressed : ℕ → Bool → MetaBlock
  uncompressed : ℕ → MetaBlock
  metadata : ℕ → Bool → MetaBlock

abbrev invalid_meta_block : {A : Type 0} → M A
invalid_meta_block = fail (DecodeError.invalid_data InvalidDataKind.meta_block)

-- `u32::from(bool)`
abbrev pub bit_of : Bool → ℕ
bit_of true = 1
bit_of false = 0

-- A metadata block's header. A u8 of `bytes` is two bits.
unfoldable pub metadata_header : ℕ → Bool → M MetaBlock
metadata_header prefix last = do
  head ← peek (prefix + 3)
  if not (head / 2 ^ prefix % 2 == 0) then invalid_meta_block else (do
    let bytes = head / 2 ^ (prefix + 1) % 256
    let width = prefix + 3 + bytes * 8
    header ← peek width
    let encoded_length = header / 2 ^ (prefix + 3)
    if ltb 1 bytes && (encoded_length / 2 ^ ((bytes - 1) * 8) == 0) then invalid_meta_block else (do
      let length = if bytes == 0 then 0 else encoded_length + 1
      drop_bits width
      align
      pure (MetaBlock.metadata length last)))

-- The length and kind of a data block, with `nibbles` nibbles of length.
unfoldable pub data_header : ℕ → Bool → ℕ → M MetaBlock
data_header prefix last nibbles = do
  let width = prefix + 2 + nibbles * 4
  header ← peek (width + bit_of (not last))
  let encoded_length = header / 2 ^ (prefix + 2) % 2 ^ (nibbles * 4)
  if ltb 4 nibbles && (encoded_length / 2 ^ ((nibbles - 1) * 4) == 0)
      then invalid_meta_block
      else (do
        let length = encoded_length + 1
        let raw = not last && not (header / 2 ^ width == 0)
        drop_bits (width + bit_of (not last))
        if raw
            then (align >>= λ _. pure (MetaBlock.uncompressed length))
            else pure (MetaBlock.compressed length last))

-- What follows the ISLAST and ISEMPTY flags, of `prefix` bits together.
unfoldable pub sized : ℕ → Bool → M MetaBlock
sized prefix last = do
  header ← peek (prefix + 2)
  let nibbles = header / 2 ^ prefix % 256 + 4
  if nibbles == 7 then metadata_header (prefix + 2) last else data_header prefix last nibbles

unfoldable pub metablock : M MetaBlock
metablock = do
  first ← peek 1
  if not (first == 0)
      then (do
        flags ← peek 2
        if not (flags / 2 % 2 == 0)
            then (drop_bits 2 >>= λ _. pure MetaBlock.end)
            else sized 2 true)
      else sized 1 false
