-- ===== src/Command/Tests.antt =====
-- Commands at concrete inputs.
use mbrotli.Common.{◌+◌, ◌-◌, ◌/◌, ◌%◌, ◌^◌, ◌<◌, arith, ◌≡◌, refl, true, false, ◌&&◌, ltb}
use mbrotli.Distance.Params.{DistanceParams}
use mbrotli.Command.{
  Command, negsuc, wrap, new, copy_len, copy_len_code, sign_extend, extra_bits,
  combine_length_codes, length_code,
}
use mbrotli.Command.Slots.{slot, insert_of, copy_of}
use mbrotli.Command.Symbols.{slot-combine_length_codes}
use mbrotli.Command.RoundTrip.{IsCommand, slot-extra_bits, IsDelta, copy_len_code-new}

slot-combine_length_codes_example :
    (combine_length_codes 5 11 true < 704)
    × (insert_of (combine_length_codes 5 11 true) ≡ 5)
    × (copy_of (combine_length_codes 5 11 true) ≡ 11)
    × ((slot (combine_length_codes 5 11 true)).implicit ≡ (true && (ltb 5 8 && ltb 11 16)))
slot-combine_length_codes_example = slot-combine_length_codes true 5 11 (omega arith) (omega arith)

abbrev dist : DistanceParams
dist = record {
  postfix_bits = 0;
  num_direct = 0;
  alphabet_size_max = 64;
  alphabet_size_limit = 64;
  max_distance = 2 ^ 26 - 4;
}

delta : IsDelta (negsuc 1) 20
unfolding IsDelta
delta = (omega arith, omega arith)

copy_len_code-new_example :
    (copy_len (new dist 3 20 (negsuc 1) 500) ≡ 20)
    × (copy_len_code (new dist 3 20 (negsuc 1) 500) ≡ (20 + wrap 64 (negsuc 1)) % 2 ^ 64)
copy_len_code-new_example = copy_len_code-new dist 3 20 (negsuc 1) 500 (omega arith) delta

abbrev command : Command
command = record {
  insert_len = 200;
  copy_field = 20;
  dist_extra = 0;
  cmd_prefix = length_code 200 20 false;
  dist_prefix = 20;
}

command-IsCommand : IsCommand false command
unfolding copy_len_code sign_extend
command-IsCommand = record {
  insert_fits = omega arith;
  copy_some = omega arith;
  copy_fits = omega arith;
  symbol = refl;
}

slot-extra_bits_example :
    ((extra_bits command).0
      ≡ (slot command.cmd_prefix).insert_extra + (slot command.cmd_prefix).copy_extra_bits)
    × ((slot command.cmd_prefix).insert_start
          + (extra_bits command).1 % 2 ^ (slot command.cmd_prefix).insert_extra
        ≡ command.insert_len)
    × ((slot command.cmd_prefix).copy_start
          + (extra_bits command).1 / 2 ^ (slot command.cmd_prefix).insert_extra
        ≡ copy_len_code command)
slot-extra_bits_example = slot-extra_bits false command command-IsCommand
