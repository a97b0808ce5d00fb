-- ===== src/Command.antt =====
-- src/shared/command.rs: insert-and-copy commands with their prefix codes. Distance codes are in
-- Distance/Codes.antt. Without the `experimental` feature.
pub mod Slots
pub mod Lengths
pub mod Symbols
pub mod RoundTrip
mod Tests
use mbrotli.Common.{
  ℕ, zero, suc, ◌+◌, ◌-◌, ◌*◌, ◌/◌, ◌%◌, ◌^◌, bit_and, bit_or, Bool, true, false, ◌&&◌, ◌||◌, not,
}
use mbrotli.Common.{ltb, leb, ◌==◌, if◌then◌else◌, get_or}
use mbrotli.Format.{ins_base, ins_extra, copy_base, copy_extra}
use mbrotli.Encoder.Log2.{log2_floor_non_zero}
use mbrotli.Distance.Params.{DistanceParams, num_distance_short_codes}
use mbrotli.Distance.Codes.{prefix_encode_copy_distance, dist_code_mask}

unfoldable pub insert_length_code : ℕ → ℕ
insert_length_code insertlen =
    if ltb insertlen 6
    then insertlen
    else if ltb insertlen 130
    then (let nbits = log2_floor_non_zero (insertlen - 2) - 1 in
        nbits * 2 + (insertlen - 2) / 2 ^ nbits + 2)
    else if ltb insertlen 2114
    then log2_floor_non_zero (insertlen - 66) + 10
    else if ltb insertlen 6210
    then 21
    else if ltb insertlen 22594
    then 22
    else 23

-- The loop that fills `COPY_LENGTH_CODES`: one step at `length`, and the entry of length `n + 2`.
unfoldable pub copy_step : ℕ → ℕ → ℕ
copy_step length code = if leb (get_or copy_base (code + 1) 0) length then code + 1 else code

unfoldable pub copy_length_codes : ℕ → ℕ
unfolding copy_step
copy_length_codes zero = copy_step 2 0
copy_length_codes (suc n) = copy_step (suc n + 2) (copy_length_codes n)

-- No command has a length below 2, where the source underflows and this stops at 0.
unfoldable pub copy_length_code : ℕ → ℕ
copy_length_code copylen =
    if ltb copylen 10
    then copylen - 2
    else if ltb copylen 2118
    then copy_length_codes (copylen - 2)
    else 23

unfoldable pub combine_length_codes : ℕ → ℕ → Bool → ℕ
combine_length_codes inscode copycode use_last_distance =
    let bits64 = bit_or (bit_and copycode 7) (bit_and inscode 7 * 2 ^ 3) in
    if use_last_distance && (ltb inscode 8 && ltb copycode 16)
    then (if ltb copycode 8 then bits64 else bit_or bits64 64)
    else let first = 2 * (copycode / 2 ^ 3 + 3 * (inscode / 2 ^ 3)) in
      let offset = first * 2 ^ 5 + 0x40 + bit_and (0x520D40 / 2 ^ first) 0xC0 in
      bit_or (offset % 2 ^ 16) bits64

unfoldable pub length_code : ℕ → ℕ → Bool → ℕ
length_code insertlen copylen use_last_distance =
    combine_length_codes (insert_length_code insertlen) (copy_length_code copylen) use_last_distance

-- Signed numbers, and their two's complement at a width.
pub data ℤ : Type 0 where
  pos negsuc : ℕ → ℤ

unfoldable pub wrap : ℕ → ℤ → ℕ
wrap w (pos n) = n % 2 ^ w
wrap w (negsuc n) = 2 ^ w - 1 - n % 2 ^ w

pub record Command : Type 0 where
  pub insert_len : ℕ
  pub copy_field : ℕ
  pub dist_extra : ℕ
  pub cmd_prefix : ℕ
  pub dist_prefix : ℕ

abbrev pub copy_len_code_shift : ℕ
copy_len_code_shift = 25

-- `Command::new`; the delta is an `i32`.
unfoldable pub new : DistanceParams → ℕ → ℕ → ℤ → ℕ → Command
new dist insertlen copylen copylen_code_delta distance_code =
    let delta = wrap 8 copylen_code_delta in
    let (dist_prefix, dist_extra) =
      prefix_encode_copy_distance distance_code dist.num_direct dist.postfix_bits in
    record {
      insert_len = insertlen % 2 ^ 32;
      copy_field = bit_or (copylen % 2 ^ 32) (delta * 2 ^ copy_len_code_shift % 2 ^ 32);
      dist_extra = dist_extra;
      cmd_prefix =
          length_code insertlen ((copylen + wrap 64 copylen_code_delta) % 2 ^ 64)
            (bit_and dist_prefix dist_code_mask == 0);
      dist_prefix = dist_prefix;
    }

unfoldable pub insert_only : ℕ → Command
insert_only insertlen = record {
  insert_len = insertlen % 2 ^ 32;
  copy_field = 4 * 2 ^ copy_len_code_shift;
  dist_extra = 0;
  cmd_prefix = length_code insertlen 4 false;
  dist_prefix = num_distance_short_codes;
}

unfoldable pub copy_len : Command → ℕ
copy_len c = bit_and c.copy_field (2 ^ 25 - 1)

-- An `i8` as a `u32`.
unfoldable pub sign_extend : ℕ → ℕ
sign_extend v = if ltb v 128 then v else v + (2 ^ 32 - 256)

unfoldable pub copy_len_code : Command → ℕ
copy_len_code c =
    let modifier = c.copy_field / 2 ^ copy_len_code_shift in
    let delta = bit_or modifier (bit_and modifier 0x40 * 2) % 256 in
    (bit_and c.copy_field (2 ^ 25 - 1) + sign_extend delta) % 2 ^ 32

unfoldable pub distance_code : Command → ℕ
distance_code c = bit_and c.dist_prefix dist_code_mask

unfoldable pub distance_extra_bits : Command → ℕ
distance_extra_bits c = c.dist_prefix / 2 ^ 10

unfoldable pub has_distance : Command → Bool
unfolding copy_len
has_distance c = not (copy_len c == 0) && leb 128 c.cmd_prefix

-- `distance_context`, on the command symbol that it reads.
unfoldable pub distance_context : ℕ → ℕ
distance_context cmd_prefix =
    let r = cmd_prefix / 2 ^ 6 in
    let c = bit_and cmd_prefix 7 in
    if ((r == 0) || ((r == 2) || ((r == 4) || (r == 7)))) && leb c 2 then c else 3

-- The number of extra bits and their value: the insert length's lowest.
unfoldable pub extra_bits : Command → ℕ × ℕ
extra_bits c =
    let copylen_code = copy_len_code c in
    let inscode = insert_length_code c.insert_len in
    let copycode = copy_length_code copylen_code in
    let insnumextra = get_or ins_extra inscode 0 in
    let insextraval = c.insert_len - get_or ins_base inscode 0 in
    let copyextraval = copylen_code - get_or copy_base copycode 0 in
    (
      insnumextra + get_or copy_extra copycode 0,
      bit_or (copyextraval * 2 ^ insnumextra) insextraval,
    )
