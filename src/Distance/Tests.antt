-- ===== src/Distance/Tests.antt =====
-- Distances at concrete inputs.
use mbrotli.Common.{
  ◌+◌, ◌-◌, ◌*◌, ◌/◌, ◌^◌, ◌≤◌, ◌<◌, arith, ◌≡◌, refl, true, false, ◌∷◌, take, bit_and,
}
use mbrotli.Distance.Params.{max_allowed_distance}
use mbrotli.Distance.Codes.{prefix_encode_copy_distance, restore_distance_code, dist_code_mask}
use mbrotli.Distance.Cache.{default, push, ok}
use mbrotli.Distance.Layout.{
  DistanceLayout, from_header, alphabet, extra_bits, long_distance, short_window_distance, resolve,
  entry, validate_symbol,
}
use mbrotli.Distance.RoundTrip.{restore-prefix_encode, long_distance-prefix_encode}
use mbrotli.Distance.Entries.{entry-agrees, resolve-entry}
use mbrotli.Distance.Recent.{IsCache, recents, recents-push, resolve-bound}
use mbrotli.Distance.Alphabets.{params, reach, for_window-alphabet}

restore-prefix_encode_example :
    restore_distance_code 2 12
      (prefix_encode_copy_distance 5000 12 2).0
      (prefix_encode_copy_distance 5000 12 2).1
    ≡ 5000
restore-prefix_encode_example =
    restore-prefix_encode 2 12 5000 (omega arith) (omega arith) (omega arith)

abbrev layout : DistanceLayout
layout = record { postfix = 2; direct = 12; large = false }

long_distance-prefix_encode_example :
    (extra_bits layout (bit_and (prefix_encode_copy_distance 5000 12 2).0 dist_code_mask)
      ≡ (prefix_encode_copy_distance 5000 12 2).0 / 2 ^ 10)
    × ((prefix_encode_copy_distance 5000 12 2).1
        < 2 ^ ((prefix_encode_copy_distance 5000 12 2).0 / 2 ^ 10))
    × (long_distance layout
          (bit_and (prefix_encode_copy_distance 5000 12 2).0 dist_code_mask)
          (prefix_encode_copy_distance 5000 12 2).1
        ≡ 4985)
long_distance-prefix_encode_example =
    long_distance-prefix_encode false 2 12 5000 (omega arith) (omega arith) (omega arith)
      (omega arith)

valid_40 : validate_symbol layout 40 ≡ true
unfolding validate_symbol
valid_40 = refl

extra_40 : 3 < 2 ^ extra_bits layout 40
unfolding extra_bits
extra_40 = omega arith

resolved_40 : resolve layout 40 3 default ≡ ok 57
unfolding resolve short_window_distance
resolved_40 = refl

entry-agrees_example :
    ((entry layout 40).width ≡ extra_bits layout 40)
    × (long_distance layout 40 3 ≡ (entry layout 40).base + 3 * 2 ^ 2)
    × (short_window_distance layout 40 3 ≡ (entry layout 40).base + 3 * 2 ^ 2)
    × (0 < long_distance layout 40 3)
    × (long_distance layout 40 3 ≤ 2 ^ 63 - 4)
entry-agrees_example = entry-agrees layout 40 3 (omega arith) valid_40 extra_40

resolve-entry_example : resolve layout 40 3 default ≡ ok ((entry layout 40).base + 3 * 2 ^ 2)
resolve-entry_example = resolve-entry layout 40 3 default (omega arith) valid_40 extra_40

resolve-bound_example : (0 < 57) × (57 ≤ 2 ^ 63 - 4)
resolve-bound_example = resolve-bound layout 40 3 default 57 valid_40 extra_40 resolved_40

default-IsCache : IsCache default
default-IsCache = record { four = refl; counter = omega arith }

recents-push_example :
    IsCache (push 100 default) × (recents (push 100 default) ≡ 100 ∷ take 3 (recents default))
recents-push_example = recents-push 100 default-IsCache

for_window-alphabet_example :
    ((params 13 true).alphabet_size_max ≡ alphabet (from_header 13 true))
    × (reach (from_header 13 true) ((params 13 true).alphabet_size_limit - 1)
        ≡ (params 13 true).max_distance)
    × ((params 13 true).alphabet_size_limit ≤ (params 13 true).alphabet_size_max)
    × ((params 13 true).max_distance ≤ max_allowed_distance)
for_window-alphabet_example = for_window-alphabet true 13 (omega arith)
