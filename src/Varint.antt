-- ===== src/Varint.antt =====
-- src/compressor/core/rfc9841/varint.rs: the base-128 integers of the RFC 9841 containers, and the
-- framing decoder's reader of the same, `number` of src/decompressor/framing/core/wire.rs.
pub mod RoundTrip
mod Tests
use mbrotli.Common.{
  ℕ, zero, suc, ◌+◌, ◌-◌, ◌*◌, ◌/◌, ◌%◌, ◌^◌, bit_and, bit_or, List, [], ◌∷◌, ◌++◌,
}
use mbrotli.Common.{ltb, leb, ◌==◌, if◌then◌else◌, length}

abbrev pub max_varint_bytes : ℕ
max_varint_bytes = 9

abbrev pub max_varint : ℕ
max_varint = 2 ^ 63 - 1

pub data VarintError : Type 0 where
  truncated : ℕ → VarintError
  overlong : VarintError
  out_of_range : ℕ → VarintError

pub data VarintResult (A : Type 0) : Type 0 where
  ok : A → VarintResult A
  err : VarintError → VarintResult A

-- The loop of `encoded_len`, on what is left of a `u64`, of ten bytes at most.
unfoldable pub length_loop : ℕ → ℕ → ℕ → ℕ
length_loop zero rest len = len
length_loop (suc fuel) rest len =
    if rest == 0 then len else length_loop fuel (rest / 2 ^ 7) (len + 1)

unfoldable pub encoded_len : ℕ → ℕ
unfolding length_loop
encoded_len value = length_loop 10 (value / 2 ^ 7) 1

-- The loop of `read` over the bytes from `index` on, of `available` bytes in all.
unfoldable pub read_loop : ℕ → ℕ → ℕ → List ℕ → VarintResult (ℕ × ℕ)
read_loop available index value [] = err (VarintError.truncated available)
read_loop available index value (byte ∷ bytes) =
    let value' = bit_or value (bit_and byte 0x7F * 2 ^ (7 * index) % 2 ^ 64) in
    if bit_and byte 0x80 == 0
    then ok (value', index + 1)
    else if index + 1 == max_varint_bytes
    then err VarintError.overlong
    else read_loop available (index + 1) value' bytes

unfoldable pub read : List ℕ → VarintResult (ℕ × ℕ)
unfolding read_loop
read bytes = read_loop (length bytes) 0 0 bytes

-- The loop of `write`; 63 bits take nine rounds at most.
unfoldable pub write_loop : ℕ → ℕ → List ℕ
write_loop zero rest = []
write_loop (suc fuel) rest =
    let byte = bit_and rest 0x7F % 2 ^ 8 in
    let more = write_loop fuel (rest / 2 ^ 7) in
    if rest / 2 ^ 7 == 0 then byte ∷ [] else (bit_or byte 0x80 ∷ more)

unfoldable pub write : ℕ → List ℕ → VarintResult (List ℕ)
unfolding write_loop
write value out =
    if ltb max_varint value
    then err (VarintError.out_of_range value)
    else ok (out ++ write_loop 9 value)

-- `number`: the value and the cursor, more input wanted, or an invalid chunk.
pub data Number : Type 0 where
  number : ℕ → ℕ → Number
  more_input : Number
  invalid_chunk : Number

-- `for shift in (0..63).step_by(7)`, with `rounds` rounds left.
unfoldable pub number_loop : ℕ → ℕ → ℕ → ℕ → List ℕ → Number
number_loop zero shift value cursor bytes = invalid_chunk
number_loop (suc rounds) shift value cursor [] = more_input
number_loop (suc rounds) shift value cursor (byte ∷ bytes) =
    let value' = bit_or value (bit_and byte 127 * 2 ^ shift % 2 ^ 64) in
    if ltb byte 128
    then number value' (cursor + 1)
    else number_loop rounds (shift + 7) value' (cursor + 1) bytes

-- On the bytes from the cursor on.
unfoldable pub read_number : List ℕ → ℕ → Number
unfolding number_loop
read_number bytes cursor = number_loop 9 0 0 cursor bytes
