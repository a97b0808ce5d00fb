-- ===== src/Lib.antt =====
-- Verification of mbrotli, a Brotli encoder and decoder with the RFC 9841 extensions.
--
-- The program has a compressor (src/compressor), a decompressor (src/decompressor) and formats
-- that both share (src/shared). The compressor searches the input for copies, turns them into
-- commands, and writes meta-blocks through a bit writer; the decompressor reads the same
-- meta-blocks through a 64-bit reservoir that can be suspended at the end of any input. The two
-- sides meet only in the bit string. This development follows that line: it models the layer
-- where bits, codes and headers are written and the layer where they are read, and states that
-- they agree.
--
-- Parts and files:
--   Common: numbers, lists and bit operations that the parts share. A word of w bits is a number
--   with its wrap-around written out, as `% 2 ^ w`; `|` and `&` are the native bit operations.
--   Decoder/Bits: src/decompressor/core/bits.rs. `Cursor` is the pair of `Bits` and `Input` that
--   every reader is handed; `M` is a reader, which returns a value, waits, or fails, and the
--   changes that it made stay. `Position` says what a cursor stands for: a position in one string
--   of bits. `Loads`, `Refills` and `Calls` prove the operations and suspension.
--   Decoder/Header: src/decompressor/core/header.rs, with src/window.rs and the window limit of
--   src/decompressor/config.rs. Each peek of the source is a peek of the model, and bits are
--   dropped at the end of a header as the source does.
--   Decoder/Errors: src/decompressor/error.rs.
--   Decoder/Memory: src/decompressor/core/memory.rs. The allocator is a parameter, with what the
--   documentation of `Vec::try_reserve_exact` says as the hypothesis `Reserves`. `Accounts` is one
--   reservation, `Limit` any number.
--   Decoder/History: src/decompressor/core/stream.rs, the ring of decoded bytes with its copies,
--   writes, growth and delivery. A `History` is what `copy_ring` is handed; a slice or an index out
--   of range, where the source panics, is no result. `Spans` says what the ring holds, `Delivery`
--   what the output has, `Tracking` keeps both through the loops, `Operations` joins them in
--   sequences. `Fast` is the copy of the command loop.
--   Prefix: src/decompressor/core/huffman.rs and src/shared/huffman.rs. `Table` is the lookup in a
--   two-level table and `Decode` what it reads, for tables that hold prefix codes (`IsPrefix`).
--   `Lists` are the linked lists of a `Builder`; `Lengths` is the stage of `Builder::read` that
--   reads the symbols of a complex description, given those symbols with their extra fields;
--   `Keys` are the two reversals of a code's bits; `LengthCode` is the decoder's `LengthCode`
--   and the encoder's `convert_bit_depths_to_symbols`, joined by the canonical codes. `Codes` is
--   what all readers of codes share.
--   `CodeLengths` are the first stages of `Builder::read`, for input that does not end in them, and
--   `store_code_length_code`.
--   `Runs` is the encoder's `CodeLengthRuns`, whose arrays of 704 with a length are one list here.
--   Encoder/Writer: the bit writer of src/shared/bits.rs over a slice; the growing buffer is the
--   same writer with more room and is not modelled. `Sequences` writes several fields.
--   Encoder/Header: the headers of src/shared/bitstream.rs and the window header of
--   src/compressor/core/rfc9841/window.rs. `Blocks`, `RoundTrip` and
--   `Windows` join writer and reader.
--   Encoder/Log2: src/shared/fast_log.rs, the integer logarithm.
--   Format: the tables of src/shared/format.rs, and the literal contexts.
--   Distance: src/shared/distance.rs and the distance codes of src/shared/command.rs on the
--   encoder's side; src/decompressor/core/distance.rs on the decoder's.
--   Command: src/shared/command.rs without the `experimental` feature; Command/Slots is the table
--   of src/decompressor/core/stream.rs that splits a command symbol.
--   Blocks: block lengths and types, of src/shared/bitstream.rs and
--   src/decompressor/core/block.rs.
--   ContextMaps: the move-to-front transform and the runs of zeros of src/shared/bitstream.rs,
--   and the decoder's inverse in src/decompressor/core/context_map.rs.
--   `RunFields` is the fit of the packed extra bits, `ZeroRuns` the round trip.
--   Varint: src/compressor/core/rfc9841/varint.rs, and `number` of
--   src/decompressor/framing/core/wire.rs, which reads the same integers.
--
-- Fuel: `peek_loop` has one round for each bit asked for, and a round loads a byte, so a field
-- is there or the input has ended before it runs out; `search_code` has 26 rounds for 26 codes;
-- `count_bits` has 32 for a `u32`; `run_words` and `code_loop` have as many rounds as there are
-- values left, and a round takes one at least; `update_loop` has one round for each bit; the
-- loops over 63-bit integers have nine rounds, and that of `encoded_len` ten.
--
-- `lengths_loop` has one round for each of 18 lengths.
--
-- `copy_loop` and `write_loop` have one round for each byte, and a round copies one at least;
-- `copy_doubling` has one for each byte of the run; `next_power` has one for each of 64 powers.
--
-- `decode_loop` and `length_loop` have one round for each unread byte and one for none;
-- `repeat_loop` has as many rounds as the count, which each round makes smaller; `decide_loop`
-- and `tree_loop` have as many as there are lengths, and a round takes one at least;
-- `replicate_loop` has one for each entry of the table, and `reverse_loop` one for each bit,
-- each of which takes four.
--
-- Not modelled: how the encoder chooses code lengths and how the decoder fills a two-level table
-- from them (src/shared/huffman.rs, src/decompressor/core/huffman.rs), the decoder's state
-- machine (src/decompressor/core/stream.rs; a ring that grows and then wraps is modelled, and a
-- vector load and store is a copy of that many bytes), the match searches of the compressor,
-- the framing format but for its integers, parallel compression, input and output, and the
-- vector code. Logarithms in floating point are not modelled.
pub mod Common
pub mod Format
pub mod Decoder
pub mod Encoder
pub mod Distance
pub mod Command
pub mod Blocks
pub mod ContextMaps
pub mod Varint
pub mod Prefix
