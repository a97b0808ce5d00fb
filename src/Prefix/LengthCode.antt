-- ===== src/Prefix/LengthCode.antt =====
-- src/decompressor/core/huffman.rs: `LengthCode`, the code of the code lengths, and
-- src/shared/huffman.rs: `convert_bit_depths_to_symbols`.
pub mod Writes
pub mod Rows
pub mod Canonical
pub mod Shares
pub mod Patterns
pub mod Complete
pub mod Reading
use mbrotli.Common.{
  ℕ, zero, suc, ◌+◌, ◌-◌, ◌*◌, ◌/◌, ◌%◌, ◌^◌, ltb, leb, bit_and, ◌==◌, if◌then◌else◌, List, [], ◌∷◌,
  get_or, set, length, replicate,
}
use mbrotli.Prefix.Keys.{key_of, reverse_bits}
use mbrotli.Prefix.Table.{Code, new_code, bits_of, value_of}
use mbrotli.Decoder.Errors.{Poll, ready, pending, failed}
use mbrotli.Decoder.Bits.{Cursor, M, ◌>>=◌, ◌>>◌, pure, continue, load_byte, refill, drop_bits}

-- `LENGTH_SIZE`
abbrev pub length_size : ℕ
length_size = 32

-- `replicate`, from `index` on; a round for each entry of the table is enough.
unfoldable pub replicate_loop : ℕ → ℕ → ℕ → Code → List Code → List Code
replicate_loop zero index step code table = table
replicate_loop (suc fuel) index step code table =
    let rest = replicate_loop fuel (index + step) step code (set table index code) in
    if ltb index (length table) then rest else table

unfoldable pub replicate_code : List Code → ℕ → ℕ → Code → List Code
unfolding replicate_loop
replicate_code table start step code = replicate_loop (length table) start step code table

-- The symbols of one length, in order; `symbol` is the number of the first of `widths`.
unfoldable pub build_row : ℕ → ℕ → List ℕ → ℕ → List Code → ℕ × List Code
unfolding replicate_code key_of new_code
build_row length symbol [] code table = (code, table)
build_row length symbol (width ∷ widths) code table =
    let hit =
      build_row length (suc symbol) widths (code + 1)
        (replicate_code table (key_of code length) (2 ^ length) (new_code length symbol)) in
    let miss = build_row length (suc symbol) widths code table in
    if width == length then hit else miss

-- `n` lengths from `length` on.
unfoldable pub build_rows : ℕ → ℕ → List ℕ → ℕ → List Code → List Code
unfolding build_row
build_rows zero length lengths code table = table
build_rows (suc n) length lengths code table =
    let (code', table') = build_row length 0 lengths code table in
    build_rows n (suc length) lengths (code' * 2) table'

-- `position(|&length| length != 0).unwrap_or(0)`
unfoldable pub first_coded : ℕ → List ℕ → ℕ
first_coded symbol [] = 0
first_coded symbol (x ∷ xs) = if x == 0 then first_coded (suc symbol) xs else symbol

unfoldable pub build : List ℕ → ℕ → List Code
unfolding build_rows first_coded new_code
build lengths count =
    if count == 1
    then replicate length_size (new_code 0 (first_coded 0 lengths))
    else build_rows 5 1 lengths 0 (replicate length_size 0)

-- The encoder's counts of the depths, of which that of zero is cleared afterwards.
unfoldable pub count_depths : List ℕ → List ℕ → List ℕ
count_depths [] bl_count = bl_count
count_depths (d ∷ ds) bl_count = count_depths ds (set bl_count d (get_or bl_count d 0 + 1))

-- `for i in 1..MAX_HUFFMAN_BITS`: `n` of the first codes, from `i` on.
unfoldable pub first_codes : ℕ → ℕ → ℕ → List ℕ → List ℕ
first_codes zero i code bl_count = []
first_codes (suc n) i code bl_count =
    let code' = (code + get_or bl_count (i - 1) 0) * 2 % 2 ^ 16 in
    code' ∷ first_codes n (suc i) code' bl_count

-- The last loop; a depth of zero leaves the bits as they are.
unfoldable pub symbols_of : List ℕ → List ℕ → List ℕ → List ℕ
unfolding reverse_bits
symbols_of [] next_code bits = bits
symbols_of (d ∷ ds) next_code [] = []
symbols_of (d ∷ ds) next_code (b ∷ bits) =
    if d == 0
    then (b ∷ symbols_of ds next_code bits)
    else (reverse_bits d (get_or next_code d 0)
        ∷ symbols_of ds (set next_code d (get_or next_code d 0 + 1)) bits)

unfoldable pub convert_bit_depths_to_symbols : List ℕ → List ℕ → List ℕ
unfolding count_depths first_codes symbols_of
convert_bit_depths_to_symbols depth bits =
    let bl_count = set (count_depths depth (replicate 16 0)) 0 0 in
    symbols_of depth (0 ∷ first_codes 15 1 0 bl_count) bits

-- `self.0[bits.value() & (LENGTH_SIZE - 1)]`
abbrev pub length_entry : List Code → ℕ → Code
length_entry table value = get_or table (bit_and value (length_size - 1)) 0

-- The entry under the bits, taken off them.
unfoldable pub take_entry : List Code → M ℕ
take_entry table c =
    let entry = length_entry table c.bits.value in
    (drop_bits (bits_of entry) >> pure (value_of entry)) c

-- The loop of `LengthCode::decode`, and what follows it where it ends with an entry.
unfoldable pub length_loop : ℕ → List Code → M ℕ
unfolding take_entry
length_loop zero table c = (pending, c)
length_loop (suc fuel) table c =
    let more =
      (load_byte >>= λ more. if more then length_loop fuel table else λ c'. (pending, c')) c in
    if leb (bits_of (length_entry table c.bits.value)) c.bits.count
    then take_entry table c
    else more

-- One round for each unread byte, and one for none.
unfoldable pub length_rounds : List Code → M ℕ
unfolding length_loop
length_rounds table c = length_loop (suc (length c.input.bytes - c.input.consumed)) table c

unfoldable pub decode_length : List Code → M ℕ
unfolding length_rounds take_entry
decode_length table c =
    if ltb c.bits.count 5
    then (refill >>= λ filled. if filled then take_entry table else length_rounds table) c
    else take_entry table c
