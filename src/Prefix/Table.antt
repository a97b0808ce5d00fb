-- ===== src/Prefix/Table.antt =====
-- src/decompressor/core/huffman.rs: the entries of a two-level table, and decoding with them.
use mbrotli.Common.{ℕ, zero, suc, ◌+◌, ◌-◌, ◌*◌, ◌/◌, ◌%◌, ◌^◌, bit_and, Option, none, some, List}
use mbrotli.Common.{ltb, leb, if◌then◌else◌, get_or, length}
use mbrotli.Decoder.Errors.{pending}
use mbrotli.Decoder.Bits.{Bits, M, ◌>>=◌, ◌>>◌, pure, load_byte, refill, drop_bits, mask}

abbrev pub max_length : ℕ
max_length = 15

abbrev pub root_bits : ℕ
root_bits = 8

-- `Code` packs a width in its low byte and a value above it, in 32 bits.
abbrev pub Code : Type 0
Code = ℕ

unfoldable pub new_code : ℕ → ℕ → Code
new_code bits value = value * 2 ^ 8 % 2 ^ 32 + bits

unfoldable pub bits_of : Code → ℕ
bits_of c = bit_and c 0xFF

unfoldable pub value_of : Code → ℕ
value_of c = c / 2 ^ 8

-- The root of one code, and the storage that its entries point into.
pub record Table : Type 0 where
  pub root : List Code
  pub second : List Code

abbrev pub root_entry : Table → ℕ → Code
root_entry t peek = get_or t.root (bit_and peek (2 ^ root_bits - 1)) 0

-- The entry behind a root entry that is wider than the root.
abbrev pub second_entry : Table → Code → ℕ → Code
second_entry t entry peek =
    get_or t.second
      (value_of entry + bit_and (peek / 2 ^ root_bits) (mask (bits_of entry - root_bits))) 0

-- `decode_fast`: with fifteen bits buffered
unfoldable pub decode_fast : Table → M ℕ
decode_fast t c =
    let peek = c.bits.value in
    let entry = root_entry t peek in
    if ltb root_bits (bits_of entry)
    then (let entry' = second_entry t entry peek in
        (drop_bits root_bits >> (drop_bits (bits_of entry') >> pure (value_of entry'))) c)
    else (drop_bits (bits_of entry) >> pure (value_of entry)) c

-- `try_decode`: the width and the symbol, where that many bits are buffered
unfoldable pub try_decode : Table → Bits → Option (ℕ × ℕ)
try_decode t b =
    let entry = root_entry t b.value in
    let entry' = second_entry t entry b.value in
    if ltb root_bits (bits_of entry)
    then (if ltb b.count root_bits
        then none
        else if ltb b.count (root_bits + bits_of entry')
        then none
        else some (root_bits + bits_of entry', value_of entry'))
    else if ltb b.count (bits_of entry)
    then none
    else some (bits_of entry, value_of entry)

-- The loop of `decode`: a round decodes, or takes a byte from the input.
unfoldable pub decode_loop : ℕ → Table → M ℕ
decode_loop zero t c = (pending, c)
decode_loop (suc fuel) t c = elim (try_decode t c.bits) [
  | some (width, symbol) ↦ (drop_bits width >> pure symbol) c
  | none ↦ (load_byte >>= λ more. if more then decode_loop fuel t else λ c'. (pending, c')) c
]

-- One round for each unread byte, and one for none.
unfoldable pub decode : Table → M ℕ
unfolding decode_loop
decode t c = decode_loop (suc (length c.input.bytes - c.input.consumed)) t c

unfoldable pub decode_refilling : Table → M ℕ
decode_refilling t c =
    if leb max_length c.bits.count
    then decode_fast t c
    else (refill >>= λ filled. if filled then decode_fast t else decode t) c
