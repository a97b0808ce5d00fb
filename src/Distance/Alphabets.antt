-- ===== src/Distance/Alphabets.antt =====
-- The encoder's alphabet against the decoder's, for every header that the format can carry.
use mbrotli.Common.{ℕ, ◌-◌, ◌*◌, ◌/◌, ◌%◌, ◌^◌, ◌≤◌, ◌<◌, arith, ◌≡◌, refl, Bool, true, false, ◌&&◌}
use mbrotli.Common.{leb, ◌==◌, all_below, all_below_sound, eq_of_test}
use mbrotli.Distance.Params.{DistanceParams, new, new_large, for_window, max_allowed_distance}
use mbrotli.Distance.Layout.{DistanceLayout, from_header, alphabet, extra_bits, long_distance}

-- The largest distance of a symbol.
abbrev pub reach : DistanceLayout → ℕ → ℕ
reach l symbol = long_distance l symbol (2 ^ extra_bits l symbol - 1)

abbrev pub params : ℕ → Bool → DistanceParams
params header large = for_window large (header % 4) (header / 4 * 2 ^ (header % 4))

agrees : Bool → ℕ → Bool
agrees large header =
    let l = from_header header large in
    let d = params header large in
    (d.alphabet_size_max == alphabet l)
    && ((reach l (d.alphabet_size_limit - 1) == d.max_distance)
        && (leb d.alphabet_size_limit d.alphabet_size_max
            && leb d.max_distance max_allowed_distance))

agrees_all : (large : Bool) → all_below 64 (agrees large) ≡ true
unfolding agrees for_window new new_large from_header alphabet extra_bits long_distance
agrees_all true = refl
agrees_all false = refl

and→ : (a b : Bool) → (a && b) ≡ true → (a ≡ true) × (b ≡ true)
and→ true b h = (refl, h)
and→ false b h = ground arith

leb→le : (a b : ℕ) → leb a b ≡ true → a ≤ b
leb→le a b h = ground arith

-- For each of the 64 headers and either kind of window, the encoder sizes its alphabet as the
-- decoder does; its largest distance is that of the last symbol that it may use, read by the
-- decoder; and neither passes its bound.
pub for_window-alphabet :
    (large : Bool) (header : ℕ)
    → header < 64
    → ((params header large).alphabet_size_max ≡ alphabet (from_header header large))
      × (reach (from_header header large) ((params header large).alphabet_size_limit - 1)
          ≡ (params header large).max_distance)
      × ((params header large).alphabet_size_limit ≤ (params header large).alphabet_size_max)
      × ((params header large).max_distance ≤ max_allowed_distance)
unfolding agrees
for_window-alphabet large header h =
    let (a, rest) = and→ _ _ (all_below_sound 64 (agrees large) header (agrees_all large) h) in
    let (b, rest') = and→ _ _ rest in
    let (c, d) = and→ _ _ rest' in (eq_of_test _ _ a, eq_of_test _ _ b, leb→le _ _ c, leb→le _ _ d)
