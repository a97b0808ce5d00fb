-- ===== src/Blocks.antt =====
-- Block switching on both sides: the codes of src/shared/bitstream.rs (block lengths, block
-- types) and the switch state of src/decompressor/core/block.rs.
pub mod Lengths
pub mod Types
mod Tests
use mbrotli.Common.{
  ℕ, zero, suc, ◌+◌, ◌-◌, ◌*◌, ◌/◌, ◌%◌, ◌^◌, Bool, true, false, ◌&&◌, List, [], ◌∷◌,
}
use mbrotli.Common.{ltb, leb, ◌==◌, if◌then◌else◌, get_or}
use mbrotli.Format.{prefix_code_ranges}

abbrev pub range : ℕ → ℕ × ℕ
range code = get_or prefix_code_ranges code (0, 0)

-- The loop that searches upwards; there are 26 codes.
unfoldable pub search_code : ℕ → ℕ → ℕ → ℕ
search_code zero code len = code
search_code (suc fuel) code len =
    let rest = search_code fuel (code + 1) len in
    if ltb code 25 && leb (range (code + 1)).0 len then rest else code

unfoldable pub block_length_prefix_code : ℕ → ℕ
unfolding search_code
block_length_prefix_code len =
    let code =
      if leb 177 len then (if leb 753 len then 20 else 14) else (if leb 41 len then 7 else 0) in
    search_code 26 code len

unfoldable pub block_length_code : ℕ → ℕ × ℕ × ℕ
block_length_code len =
    let code = block_length_prefix_code len in
    let (offset, nbits) = range code in (code, nbits, len - offset)

-- `BlockTypeCodeCalculator`
pub record BlockTypeCodeCalculator : Type 0 where
  pub last_type : ℕ
  pub second_last_type : ℕ

abbrev pub new : BlockTypeCodeCalculator
new = record { last_type = 1; second_last_type = 0 }

unfoldable pub next : ℕ → BlockTypeCodeCalculator → ℕ × BlockTypeCodeCalculator
next block_type c =
    let type_code =
      if block_type == c.last_type + 1
      then 1
      else if block_type == c.second_last_type
      then 0
      else block_type + 2 in
    (type_code, record { last_type = block_type; second_last_type = c.last_type })

-- The fields of the decoder's `Block` that a switch reads and writes.
pub record Block : Type 0 where
  pub count : ℕ
  pub current : ℕ
  pub remaining : ℕ
  pub previous : ℕ

abbrev pub reset : Block
reset = record { count = 1; current = 0; remaining = 2 ^ 64 - 1; previous = 1 }

unfoldable pub switch_to : ℕ → Block → Block
switch_to symbol b =
    let next =
      if symbol == 0 then b.previous else if symbol == 1 then b.current + 1 else symbol - 2 in
    record b { previous = b.current; current = next % b.count }

-- The length that a symbol and its extra bits give.
unfoldable pub start_length : ℕ → ℕ → Block → Block
start_length symbol extra b = record b { remaining = (range symbol).0 + extra }

unfoldable pub advance : Block → Block
advance b = record b { remaining = b.remaining - 1 }
