-- ===== src/Encoder/Writer.antt =====
-- src/shared/bits.rs: the bit writer over a slice, a fixed buffer of bytes.
pub mod Fields
pub mod Sequences
use mbrotli.Common.{ℕ, zero, suc, ◌+◌, ◌-◌, ◌*◌, ◌/◌, ◌%◌, ◌^◌, min, bit_and, bit_or}
use mbrotli.Common.{Bool, true, false, Option, none, some, List, [], ◌∷◌, ◌++◌}
use mbrotli.Common.Bytes.{to_le_bytes}
use mbrotli.Common.{ltb, leb, ◌==◌, if◌then◌else◌, get_or, set, take, drop, length}

abbrev pub write_slack : ℕ
write_slack = 8

pub record BitWriter : Type 0 where
  pub storage : List ℕ
  pub position : ℕ
  pub overflowed : Bool

unfoldable pub new_writer : List ℕ → ℕ → BitWriter
new_writer storage position = record { storage = storage; position = position; overflowed = false }

-- `byte(index)`: zero past the buffer
unfoldable pub byte : BitWriter → ℕ → ℕ
byte w index = get_or w.storage index 0

-- `storage[start..start + data.len()].copy_from_slice(data)`
unfoldable pub overwrite : List ℕ → ℕ → List ℕ → List ℕ
overwrite storage start bytes = take start storage ++ (bytes ++ drop (start + length bytes) storage)

-- `window` of a slice is there when its range lies in the slice. The whole word is written, so
-- the bytes behind the field are cleared.
unfoldable pub write : ℕ → ℕ → BitWriter → BitWriter
write n_bits bits w =
    let start = w.position / 8 in
    let value = bit_or (get_or w.storage start 0) (bits * 2 ^ (w.position % 8) % 2 ^ 64) in
    if ltb (length w.storage) (start + write_slack)
    then record w { position = w.position + n_bits; overflowed = true }
    else record w {
      storage = overwrite w.storage start (to_le_bytes 8 value);
      position = w.position + n_bits;
    }

-- `set_byte`; an index of `usize::MAX` overflows, and no slice has such a byte either.
unfoldable pub set_byte : ℕ → ℕ → BitWriter → BitWriter
set_byte index value w =
    if ltb index (length w.storage)
    then record w { storage = set w.storage index value }
    else record w { overflowed = true }

-- One round of `update`: the byte that the field reaches, with its other bits kept.
abbrev updated_byte : ℕ → ℕ → ℕ → ℕ → ℕ
updated_byte old unchanged changed bits =
    let total = unchanged + changed in
    let kept = bit_and old (bit_or (2 ^ 32 - 2 ^ total) (2 ^ unchanged - 1)) in
    bit_or (bit_and bits (2 ^ changed - 1) * 2 ^ unchanged) kept % 256

-- `while n_bits > 0`, a byte at a time; each round takes one bit at least.
update_loop : ℕ → ℕ → ℕ → ℕ → BitWriter → BitWriter
update_loop zero n_bits bits position w = w
update_loop (suc fuel) n_bits bits position w =
    let byte_position = position / 8 in
    let unchanged = position % 8 in
    let changed = min n_bits (8 - unchanged) in
    let old = get_or w.storage byte_position 0 in
    let next =
      update_loop fuel (n_bits - changed) (bits / 2 ^ changed) (position + changed) (record w {
        storage = set w.storage byte_position (updated_byte old unchanged changed bits);
      }) in
    if n_bits == 0
    then w
    else if ltb byte_position (length w.storage)
    then next
    else record w { overflowed = true }

unfoldable pub update : ℕ → ℕ → ℕ → BitWriter → BitWriter
unfolding update_loop
update n_bits bits position w = update_loop n_bits n_bits bits position w

-- Drops what was written after bit `position`.
unfoldable pub rewind : ℕ → BitWriter → BitWriter
rewind position w =
    let index = position / 8 in
    if ltb index (length w.storage)
    then record w {
      storage = set w.storage index (bit_and (get_or w.storage index 0) (2 ^ (position % 8) - 1));
      position = position;
    }
    else record w { position = position; overflowed = true }

-- `(position + 7) & !7`
unfoldable pub align : BitWriter → BitWriter
align w = record w { position = (w.position + 7) / 8 * 8 }

-- Clears the byte at an aligned position.
unfoldable pub prepare_storage : BitWriter → BitWriter
prepare_storage w =
    if ltb (w.position / 8) (length w.storage)
    then record w { storage = set w.storage (w.position / 8) 0 }
    else record w { overflowed = true }

unfoldable pub jump_to_byte_boundary : BitWriter → BitWriter
jump_to_byte_boundary w = prepare_storage (align w)

-- Copies whole bytes at an aligned position, and clears the byte behind them.
unfoldable pub write_bytes : List ℕ → BitWriter → BitWriter
unfolding overwrite prepare_storage
write_bytes bytes w =
    let start = w.position / 8 in
    let position = w.position + length bytes * 8 in
    if ltb (length w.storage) (start + length bytes)
    then record w { position = position; overflowed = true }
    else prepare_storage
        (record w { storage = overwrite w.storage start bytes; position = position })

-- `inject_byte_padding`: an empty metadata block that ends on a byte boundary. Returns the carry,
-- its width, the buffer and how many bytes were written.
unfoldable pub inject_byte_padding : ℕ → ℕ → List ℕ → ℕ × ℕ × List ℕ × ℕ
inject_byte_padding last_bytes last_bytes_bits dst =
    if last_bytes_bits == 0
    then (last_bytes, last_bytes_bits, dst, 0)
    else if ltb (length dst) 3
    then (last_bytes, last_bytes_bits, dst, 0)
    else let seal = bit_or last_bytes (6 * 2 ^ last_bytes_bits % 2 ^ 32) in
      (0, 0, overwrite dst 0 (to_le_bytes 3 seal), (last_bytes_bits + 6 + 7) / 8)
