-- ===== src/Encoder/Tests.antt =====
-- The bit writer and the headers at concrete inputs.
use mbrotli.Common.{
  ℕ, ◌+◌, ◌*◌, ◌/◌, ◌^◌, ◌≤◌, arith, ◌≡◌, refl, List, true, length, All, replicate,
}
use mbrotli.Common.Bytes.{IsByte, number, to_le_bytes}
use mbrotli.Encoder.Log2.{log2_floor_non_zero}
use mbrotli.Encoder.Writer.{BitWriter, new_writer, write, overwrite}
use mbrotli.Encoder.Writer.Fields.{IsWritten, write-IsWritten}
use mbrotli.Encoder.Writer.Sequences.{over}
use mbrotli.Encoder.Header.{store_var_len_uint8, encode_mlen, store_compressed_meta_block_header}
use mbrotli.Encoder.Header.RoundTrip.{uint8-store_var_len_uint8}
use mbrotli.Encoder.Header.Blocks.{metablock-store_compressed}
use mbrotli.Decoder.Bits.{uint8}
use mbrotli.Decoder.Bits.Calls.{Runs}
use mbrotli.Decoder.Header.{MetaBlock, metablock}
use mbrotli.Encoder.Header.{ResolvedWindow, window_header}
use mbrotli.Encoder.Header.Windows.{window-window_header}
use mbrotli.Decoder.Bits.Position.{from, size}
use mbrotli.Decoder.Header.{WindowLimit, WindowEncoding, window}
use mbrotli.Common.{[], ◌∷◌, false}

abbrev buffer : List ℕ
buffer = replicate 16 0

abbrev w : BitWriter
w = new_writer buffer 0

w-IsWritten : IsWritten w 0
unfolding new_writer number
w-IsWritten = record {
  fits = omega arith;
  holds = refl;
  room = omega arith;
  all_bytes = omega arith;
  sound = refl;
}

w_room : (w.position + 28) / 8 + 8 ≤ length w.storage
unfolding new_writer
w_room = omega arith

w_little : (w.position + 11) / 8 + 8 ≤ length w.storage
unfolding new_writer
w_little = omega arith

w_word : w.position / 8 + 8 ≤ length w.storage
unfolding new_writer
w_word = omega arith

write-IsWritten_example :
    IsWritten (write 5 19 w) (0 + 2 ^ w.position * 19)
    × ((write 5 19 w).position ≡ w.position + 5)
    × (length (write 5 19 w).storage ≡ length w.storage)
write-IsWritten_example = write-IsWritten 5 19 w-IsWritten (omega arith) (omega arith) w_word

number_bytes : All IsByte (store_var_len_uint8 200 w).storage
unfolding store_var_len_uint8 new_writer write overwrite to_le_bytes log2_floor_non_zero
number_bytes = omega arith

uint8-store_var_len_uint8_example :
    Runs
      (over (store_var_len_uint8 200 w).storage number_bytes)
      w.position
      0
      uint8
      200
      (store_var_len_uint8 200 w).position
      0
uint8-store_var_len_uint8_example =
    uint8-store_var_len_uint8 200 w-IsWritten (omega arith) w_little number_bytes

header_bytes : All IsByte (store_compressed_meta_block_header true 70000 w).storage
unfolding store_compressed_meta_block_header encode_mlen new_writer write overwrite to_le_bytes
    log2_floor_non_zero
header_bytes = omega arith

metablock-store_compressed_example :
    Runs
      (over (store_compressed_meta_block_header true 70000 w).storage header_bytes)
      w.position
      0
      metablock
      (MetaBlock.compressed 70000 true)
      (store_compressed_meta_block_header true 70000 w).position
      0
metablock-store_compressed_example =
    metablock-store_compressed true 70000 w-IsWritten (omega arith) (omega arith) w_room
      header_bytes

-- The four bits of a 22-bit window, then other bits: the byte 11 and the byte 2.
abbrev opening : List ℕ
opening = 11 ∷ 2 ∷ []

opening_bytes : All IsByte opening
opening_bytes = omega arith

abbrev limit : WindowLimit
limit = record { max_bits = 24; allows_large = false }

abbrev resolved : ResolvedWindow
resolved = record { declared_bits = 22; large = false }

opening_seen :
    from (over opening opening_bytes) 0
    ≡ (window_header resolved).0 + 2 ^ (window_header resolved).1 * 32
unfolding window_header number
opening_seen = refl

opening_room : 0 + (window_header resolved).1 ≤ size (over opening opening_bytes)
unfolding window_header
opening_room = omega arith

window-window_header_example :
    Runs
      (over opening opening_bytes)
      0
      0
      (window limit)
      (record { bits = 22; encoding = WindowEncoding.standard })
      (0 + (window_header resolved).1)
      0
window-window_header_example =
    window-window_header (over opening opening_bytes) limit 0 22 32 (omega arith) (omega arith)
      (omega arith) opening_seen opening_room
