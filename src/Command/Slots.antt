-- ===== src/Command/Slots.antt =====
-- src/decompressor/core/stream.rs: the decoder's split of a command symbol (`CELLS`, `commands`).
use mbrotli.Common.{ℕ, ◌+◌, ◌-◌, ◌*◌, ◌/◌, ◌%◌, ◌^◌, bit_and, Bool, List, [], ◌∷◌}
use mbrotli.Common.{ltb, if◌then◌else◌, get_or}
use mbrotli.Format.{ins_base, ins_extra, copy_base, copy_extra}

abbrev pub cells : List ℕ
cells = 0 ∷ 1 ∷ 0 ∷ 1 ∷ 8 ∷ 9 ∷ 2 ∷ 16 ∷ 10 ∷ 17 ∷ 18 ∷ []

-- `Command` of the decoder.
pub record Slot : Type 0 where
  pub insert_extra : ℕ
  pub copy_extra_bits : ℕ
  pub copy_code : ℕ
  pub context : ℕ
  pub implicit : Bool
  pub insert_start : ℕ
  pub copy_start : ℕ

unfoldable pub insert_of : ℕ → ℕ
insert_of symbol = bit_and (get_or cells (symbol / 2 ^ 6) 0) 24 + bit_and (symbol / 2 ^ 3) 7

unfoldable pub copy_of : ℕ → ℕ
copy_of symbol = bit_and (get_or cells (symbol / 2 ^ 6) 0 * 2 ^ 3) 24 + bit_and symbol 7

-- The entry of a symbol below 704 in the table that `commands` builds.
unfoldable pub slot : ℕ → Slot
unfolding insert_of copy_of
slot symbol =
    let insert = insert_of symbol in
    let copy = copy_of symbol in
    let start = get_or copy_base copy 0 in
    record {
      insert_extra = get_or ins_extra insert 0 % 2 ^ 8;
      copy_extra_bits = get_or copy_extra copy 0 % 2 ^ 8;
      copy_code = copy % 2 ^ 8;
      context = if ltb 4 start then 3 else (start - 2) % 2 ^ 8;
      implicit = ltb symbol 128;
      insert_start = get_or ins_base insert 0 % 2 ^ 16;
      copy_start = start % 2 ^ 16;
    }
