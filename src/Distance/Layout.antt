-- ===== src/Distance/Layout.antt =====
-- src/decompressor/core/distance.rs: the decoder's split of a distance symbol.
use mbrotli.Common.{
  ℕ, zero, suc, ◌+◌, ◌-◌, ◌*◌, ◌/◌, ◌%◌, ◌^◌, bit_and, Bool, true, false, ◌&&◌, not,
}
use mbrotli.Common.{List, [], ◌∷◌, ◌++◌, ltb, leb, ◌==◌, if◌then◌else◌}
use mbrotli.Decoder.Errors.{DecodeError, InvalidDataKind}
use mbrotli.Distance.Cache.{
  Cache, Resolved, ok, err, short, max_distance, wrapping_sub, wrapping_add,
}

abbrev pub short_codes : ℕ
short_codes = 16

pub record DistanceLayout : Type 0 where
  pub postfix : ℕ
  pub direct : ℕ
  pub large : Bool

pub record Partial : Type 0 where
  pub width : ℕ
  pub base : ℕ

unfoldable pub from_header : ℕ → Bool → DistanceLayout
from_header header large =
    let postfix = bit_and header 3 in
    record { postfix = postfix; direct = header / 4 * 2 ^ postfix; large = large }

unfoldable pub alphabet : DistanceLayout → ℕ
alphabet l = short_codes + l.direct + (if l.large then 124 else 48) * 2 ^ l.postfix

unfoldable pub extra_bits : DistanceLayout → ℕ → ℕ
extra_bits l symbol =
    if ltb symbol (short_codes + l.direct)
    then 0
    else 1 + (symbol - short_codes - l.direct) / 2 ^ (l.postfix + 1)

-- In `u128`: the largest field is 62 bits wide, so nothing wraps.
unfoldable pub long_distance : DistanceLayout → ℕ → ℕ → ℕ
unfolding extra_bits
long_distance l symbol extra =
    if ltb symbol (short_codes + l.direct)
    then symbol - short_codes + 1
    else let code = symbol - short_codes - l.direct in
      let high = code / 2 ^ l.postfix in
      let low = bit_and code (2 ^ l.postfix - 1) in
      let offset = (2 + bit_and high 1) * 2 ^ extra_bits l symbol - 4 in
      (offset + extra) * 2 ^ l.postfix + low + l.direct + 1

unfoldable pub validate_symbol : DistanceLayout → ℕ → Bool
unfolding alphabet long_distance
validate_symbol l symbol =
    if leb (alphabet l) symbol
    then false
    else if leb short_codes symbol
        && ltb max_distance (long_distance l symbol (2 ^ extra_bits l symbol - 1))
    then false
    else true

-- The same in `u64`, whose shifts drop the upper bits.
unfoldable pub short_window_distance : DistanceLayout → ℕ → ℕ → ℕ
unfolding extra_bits
short_window_distance l symbol extra =
    if ltb symbol (short_codes + l.direct)
    then symbol - short_codes + 1
    else let code = symbol - short_codes - l.direct in
      let high = code / 2 ^ l.postfix in
      let low = bit_and code (2 ^ l.postfix - 1) in
      let offset = (2 + bit_and high 1) * 2 ^ extra_bits l symbol % 2 ^ 64 - 4 in
      (offset + extra) * 2 ^ l.postfix % 2 ^ 64 + (low + l.direct + 1)

unfoldable pub resolve_large : DistanceLayout → ℕ → ℕ → Resolved
unfolding long_distance
resolve_large l symbol extra =
    let distance = long_distance l symbol extra in
    if ltb distance (2 ^ 64)
    then ok distance
    else err (DecodeError.invalid_data InvalidDataKind.distance)

unfoldable pub resolve : DistanceLayout → ℕ → ℕ → Cache → Resolved
resolve l symbol extra cache =
    if leb short_codes symbol
    then (if l.large
        then resolve_large l symbol extra
        else ok (short_window_distance l symbol extra))
    else short symbol cache

unfoldable pub entry : DistanceLayout → ℕ → Partial
entry l symbol =
    if ltb symbol short_codes
    then record { width = 0; base = 0 }
    else if ltb symbol (short_codes + l.direct)
    then record { width = 0; base = symbol - short_codes + 1 }
    else let code = symbol - short_codes - l.direct in
      let width = 1 + code / 2 ^ (l.postfix + 1) in
      let high = code / 2 ^ l.postfix in
      let low = bit_and code (2 ^ l.postfix - 1) in
      let offset = wrapping_sub ((2 + bit_and high 1) * 2 ^ width % 2 ^ 64) 4 in
      record {
        width = width;
        base = wrapping_add (offset * 2 ^ l.postfix % 2 ^ 64) (low + l.direct + 1);
      }

unfoldable pub is_standard : DistanceLayout → Bool
is_standard l = (l.postfix == 0) && (l.direct == 0) && not l.large

-- The first `n` entries; `fill_table` and `standard_table` compute all of them.
unfoldable pub entries : ℕ → DistanceLayout → List Partial
entries zero l = []
entries (suc n) l = entries n l ++ (entry l n ∷ [])

unfoldable pub fill_table : DistanceLayout → List Partial
unfolding entries alphabet
fill_table l = entries (alphabet l) l

abbrev pub standard_layout : DistanceLayout
standard_layout = record { postfix = 0; direct = 0; large = false }

unfoldable pub standard_table : List Partial
unfolding entries
standard_table = entries (short_codes + 48) standard_layout

unfoldable pub table : DistanceLayout → List Partial → List Partial
table l filled = if is_standard l then standard_table else filled
