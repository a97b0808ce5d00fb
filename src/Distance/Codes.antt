-- ===== src/Distance/Codes.antt =====
-- src/shared/command.rs: a distance as a prefix code and extra bits, and back.
use mbrotli.Common.{ℕ, ◌+◌, ◌-◌, ◌*◌, ◌/◌, ◌%◌, ◌^◌, bit_and, bit_or, ltb, if◌then◌else◌}
use mbrotli.Encoder.Log2.{log2_floor_non_zero}
use mbrotli.Distance.Params.{num_distance_short_codes}

abbrev pub dist_code_mask : ℕ
dist_code_mask = 0x3FF

-- The packed code, of 16 bits, and the extra bits, of 32.
unfoldable pub prefix_encode_copy_distance : ℕ → ℕ → ℕ → ℕ × ℕ
prefix_encode_copy_distance distance_code num_direct_codes postfix_bits =
    if ltb distance_code (num_distance_short_codes + num_direct_codes)
    then (distance_code % 2 ^ 16, 0)
    else let dist =
        2 ^ (postfix_bits + 2) + (distance_code - num_distance_short_codes - num_direct_codes) in
      let bucket = log2_floor_non_zero dist - 1 in
      let postfix = bit_and dist (2 ^ postfix_bits - 1) in
      let prefix = bit_and (dist / 2 ^ bucket) 1 in
      let offset = (2 + prefix) * 2 ^ bucket in
      let nbits = bucket - postfix_bits in
      let symbol =
        num_distance_short_codes
        + num_direct_codes
        + (2 * (nbits - 1) + prefix) * 2 ^ postfix_bits
        + postfix in
      (bit_or (nbits * 2 ^ 10) symbol % 2 ^ 16, (dist - offset) / 2 ^ postfix_bits % 2 ^ 32)

-- `Command::restore_distance_code` on the fields it reads: the packed code and the extra bits.
unfoldable pub restore_distance_code : ℕ → ℕ → ℕ → ℕ → ℕ
restore_distance_code postfix_bits num_direct dist_prefix dist_extra =
    let dcode = bit_and dist_prefix dist_code_mask in
    if ltb dcode (num_distance_short_codes + num_direct)
    then dcode
    else let nbits = dist_prefix / 2 ^ 10 in
      let base = dcode - num_direct - num_distance_short_codes in
      let hcode = base / 2 ^ postfix_bits in
      let lcode = bit_and base (2 ^ postfix_bits - 1) in
      let offset = (2 + bit_and hcode 1) * 2 ^ nbits % 2 ^ 32 - 4 in
      (offset + dist_extra) * 2 ^ postfix_bits % 2 ^ 32
      + lcode
      + num_direct
      + num_distance_short_codes
