-- ===== src/Distance/Params.antt =====
-- src/shared/distance.rs: the distance alphabet's parameters. A `u32` stays below 2^32 for the
-- `postfix_bits` and `num_direct` the format admits, so its sums and shifts do not wrap.
use mbrotli.Common.{ℕ, zero, suc, ◌+◌, ◌-◌, ◌*◌, ◌/◌, ◌^◌, bit_and, bit_or, Bool}
use mbrotli.Common.{leb, ◌==◌, if◌then◌else◌}

abbrev pub num_distance_short_codes : ℕ
num_distance_short_codes = 16

abbrev pub max_distance_bits : ℕ
max_distance_bits = 24

abbrev pub large_max_distance_bits : ℕ
large_max_distance_bits = 62

abbrev pub max_allowed_distance : ℕ
max_allowed_distance = 0x7FFFFFFC

pub record DistanceParams : Type 0 where
  pub postfix_bits : ℕ
  pub num_direct : ℕ
  pub alphabet_size_max : ℕ
  pub alphabet_size_limit : ℕ
  pub max_distance : ℕ

-- `DistanceParams::new`
unfoldable pub new : ℕ → ℕ → DistanceParams
new postfix_bits num_direct =
    let alphabet_size_max =
      num_distance_short_codes + num_direct + max_distance_bits * 2 ^ (postfix_bits + 1) in
    record {
      postfix_bits = postfix_bits;
      num_direct = num_direct;
      alphabet_size_max = alphabet_size_max;
      alphabet_size_limit = alphabet_size_max;
      max_distance =
          num_direct + 2 ^ (max_distance_bits + postfix_bits + 2) - 2 ^ (postfix_bits + 2);
    }

pub record DistanceCodeLimit : Type 0 where
  pub max_alphabet_size : ℕ
  pub limit_distance : ℕ

-- The loop that counts the bits of `rest`; a `u32` has at most 32.
unfoldable pub count_bits : ℕ → ℕ → ℕ
count_bits zero rest = 0
count_bits (suc fuel) rest = if rest == 0 then 0 else suc (count_bits fuel (rest / 2))

unfoldable pub distance_code_limit : ℕ → ℕ → ℕ → DistanceCodeLimit
unfolding count_bits
distance_code_limit max_distance postfix_bits num_direct =
    if leb max_distance num_direct
    then record {
      max_alphabet_size = max_distance + num_distance_short_codes;
      limit_distance = max_distance;
    }
    else let forbidden = max_distance + 1 in
      let postfix = 2 ^ postfix_bits - 1 in
      let offset = (forbidden - num_direct - 1) / 2 ^ postfix_bits + 4 in
      let bits = count_bits 32 (offset / 2) - 1 in
      let half = bit_and (offset / 2 ^ bits) 1 in
      let first = bit_or ((bits - 1) * 2) half in
      if first == 0
      then record {
        max_alphabet_size = num_direct + num_distance_short_codes;
        limit_distance = num_direct;
      }
      else let group = first - 1 in
        let distance_bits = group / 2 + 1 in
        let extra = 2 ^ distance_bits - 1 in
        let start = 2 ^ (distance_bits + 1) - 4 + bit_and group 1 * 2 ^ distance_bits in
        record {
          max_alphabet_size =
              bit_or (group * 2 ^ postfix_bits) postfix + num_direct + num_distance_short_codes + 1;
          limit_distance = (start + extra) * 2 ^ postfix_bits + postfix + num_direct + 1;
        }

unfoldable pub new_large : ℕ → ℕ → DistanceParams
unfolding distance_code_limit
new_large postfix_bits num_direct =
    let limit = distance_code_limit max_allowed_distance postfix_bits num_direct in
    record {
      postfix_bits = postfix_bits;
      num_direct = num_direct;
      alphabet_size_max =
          num_distance_short_codes + num_direct + large_max_distance_bits * 2 ^ (postfix_bits + 1);
      alphabet_size_limit = limit.max_alphabet_size;
      max_distance = limit.limit_distance;
    }

unfoldable pub for_window : Bool → ℕ → ℕ → DistanceParams
for_window large_window postfix_bits num_direct =
    if large_window then new_large postfix_bits num_direct else new postfix_bits num_direct
