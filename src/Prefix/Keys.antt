-- ===== src/Prefix/Keys.antt =====
-- The bits of a canonical code in the order of the stream: `reverse_bits` of src/shared/huffman.rs
-- and `key_of` of src/decompressor/core/huffman.rs.
pub mod Reversed
use mbrotli.Common.{
  ℕ, zero, suc, ◌+◌, ◌-◌, ◌*◌, ◌/◌, ◌%◌, ◌^◌, bit_and, bit_or, ltb, if◌then◌else◌, List, [], ◌∷◌,
  get_or,
}

-- The low `n` bits of a number, reversed.
unfoldable pub reversed_bits : ℕ → ℕ → ℕ
reversed_bits zero value = 0
reversed_bits (suc n) value = value % 2 * 2 ^ n + reversed_bits n (value / 2)

-- `REVERSE_LUT`
unfoldable pub reverse_lut : List ℕ
reverse_lut =
    0x00 ∷ 0x08 ∷ 0x04 ∷ 0x0C ∷ 0x02 ∷ 0x0A ∷ 0x06 ∷ 0x0E ∷ 0x01 ∷ 0x09 ∷ 0x05 ∷ 0x0D ∷ 0x03 ∷ 0x0B
    ∷ 0x07 ∷ 0x0F ∷ []

-- `while i < num_bits`; each round adds four to `i`.
unfoldable pub reverse_loop : ℕ → ℕ → ℕ → ℕ → ℕ → ℕ
unfolding reverse_lut
reverse_loop zero num_bits i bits retval = retval
reverse_loop (suc fuel) num_bits i bits retval =
    let bits' = bits / 2 ^ 4 in
    let rest =
      reverse_loop fuel num_bits (i + 4) bits'
        (bit_or (retval * 2 ^ 4) (get_or reverse_lut (bit_and bits' 0x0F) 0)) in
    if ltb i num_bits then rest else retval

-- `retval` is a `usize` that never grows past sixteen bits and three more.
unfoldable pub reverse_bits : ℕ → ℕ → ℕ
unfolding reverse_loop reverse_lut
reverse_bits num_bits bits =
    reverse_loop num_bits num_bits 4 bits (get_or reverse_lut (bit_and bits 0x0F) 0)
    / 2 ^ bit_and (2 ^ 64 - num_bits) 0x03
    % 2 ^ 16

-- `reverse_table`, whose entries are `u8::reverse_bits` of their numbers: `n` of them from `value`.
unfoldable pub reverse_table : ℕ → ℕ → List ℕ
unfolding reversed_bits
reverse_table zero value = []
reverse_table (suc n) value = reversed_bits 8 value ∷ reverse_table n (suc value)

unfoldable pub key_of : ℕ → ℕ → ℕ
unfolding reverse_table
key_of code length =
    let reverse = reverse_table 256 0 in
    bit_or (get_or reverse (bit_and code 0xFF) 0 * 2 ^ 8)
      (get_or reverse (bit_and (code / 2 ^ 8) 0xFF) 0)
    / 2 ^ (16 - length)
