-- ===== src/Encoder/Header.antt =====
-- The encoder's headers: src/shared/bitstream.rs (the variable-length number, the meta-block
-- headers) and src/compressor/core/rfc9841/window.rs.
pub mod Fields
pub mod RoundTrip
pub mod Blocks
pub mod Windows
use mbrotli.Common.{ℕ, zero, suc, ◌+◌, ◌-◌, ◌*◌, ◌/◌, ◌%◌, ◌^◌, bit_or}
use mbrotli.Common.{Bool, true, false, List, [], ◌∷◌, ltb, leb, ◌==◌, if◌then◌else◌}
use mbrotli.Encoder.Log2.{log2_floor_non_zero}
use mbrotli.Encoder.Writer.{BitWriter, write}

unfoldable pub store_var_len_uint8 : ℕ → BitWriter → BitWriter
store_var_len_uint8 n w =
    if n == 0
    then write 1 0 w
    else let nbits = log2_floor_non_zero n in
      write nbits (n - 2 ^ nbits) (write 3 nbits (write 1 1 w))

-- The nibble count less four, the width and the value of a meta-block length.
unfoldable pub encode_mlen : ℕ → ℕ × ℕ × ℕ
encode_mlen length =
    let lg = if length == 1 then 1 else log2_floor_non_zero (length - 1) + 1 in
    let mnibbles = (if ltb lg 16 then 16 else lg + 3) / 4 in
    (mnibbles - 4, mnibbles * 4, length - 1)

abbrev pub bit_of : Bool → ℕ
bit_of true = 1
bit_of false = 0

unfoldable pub store_compressed_meta_block_header : Bool → ℕ → BitWriter → BitWriter
store_compressed_meta_block_header is_final_block length w =
    let (nibblesbits, nlenbits, lenbits) = encode_mlen length in
    let flag = write 1 (bit_of is_final_block) w in
    let opened = if is_final_block then write 1 0 flag else flag in
    let sized = write nlenbits lenbits (write 2 nibblesbits opened) in
    if is_final_block then sized else write 1 0 sized

unfoldable pub store_uncompressed_meta_block_header : ℕ → BitWriter → BitWriter
store_uncompressed_meta_block_header length w =
    let (nibblesbits, nlenbits, lenbits) = encode_mlen length in
    write 1 1 (write nlenbits lenbits (write 2 nibblesbits (write 1 0 w)))

-- `ResolvedWindow`
pub record ResolvedWindow : Type 0 where
  pub declared_bits : ℕ
  pub large : Bool

unfoldable pub at_least : ℕ → ResolvedWindow → ResolvedWindow
at_least bits r = if leb bits r.declared_bits then r else record r { declared_bits = bits }

unfoldable pub encoder_bits : ResolvedWindow → ℕ
encoder_bits r = if ltb 30 r.declared_bits then 30 else r.declared_bits

-- The bits of the stream header and their number.
unfoldable pub window_header : ResolvedWindow → ℕ × ℕ
window_header r =
    let bits = r.declared_bits in
    if r.large
    then (bit_or (bits % 64 * 2 ^ 8) 0x11, 14)
    else if bits == 16
    then (0, 1)
    else if bits == 17
    then (1, 7)
    else if ltb 17 bits
    then (bit_or ((bits - 17) * 2) 1, 4)
    else (bit_or ((bits - 8) * 16) 1, 7)
