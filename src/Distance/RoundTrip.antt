-- ===== src/Distance/RoundTrip.antt =====
-- The encoder's distance codes, taken back by the encoder and resolved by the decoder.
use mbrotli.Common.{ℕ, ◌+◌, ◌-◌, ◌*◌, ◌/◌, ◌%◌, ◌^◌, ◌≤◌, ◌<◌, arith, bit_and}
use mbrotli.Common.{◌≡◌, refl, sym, ap, ◌∙◌, Bool, ge→ltb, lt→ltb}
use mbrotli.Common.Pow.{pow-pos, pow-le, pow-add, pow-join, mod-pow-eq_of_lt, div-div-pow}
use mbrotli.Common.BitOps.{bit_and_mask, bit_or_add}
use native.Mathlib.Nat.{mul-le-mul_left, mul-le-mul}
use native.Mathlib.Decide.{dec_lt}
use mbrotli.Encoder.Log2.{log2_floor_non_zero, log2-bounds}
use mbrotli.Distance.Split.{Split, split}
use mbrotli.Distance.Codes.{prefix_encode_copy_distance, restore_distance_code, dist_code_mask}
use mbrotli.Distance.Layout.{extra_bits, long_distance}

-- The parts of a symbol's offset past the short and the direct codes.
abbrev base : (p n half low : ℕ) → ℕ
base p n half low = (2 * (n - 1) + half) * 2 ^ p + low

module _ (p n half low : ℕ) (some : 0 < n) (bit : half ≤ 1) (fits : low < 2 ^ p) where
  swapped : base p n half low ≡ low + 2 ^ p * (2 * (n - 1) + half)
  swapped = omega arith

  base_high : base p n half low / 2 ^ p ≡ 2 * (n - 1) + half
  base_high = ap (λ (t : ℕ). t / 2 ^ p) swapped ∙ (pow-join p (2 * (n - 1) + half) low fits).0

  base_low : bit_and (base p n half low) (2 ^ p - 1) ≡ low
  base_low =
      bit_and_mask p (base p n half low)
      ∙ ap (λ (t : ℕ). t % 2 ^ p) swapped
      ∙ (pow-join p (2 * (n - 1) + half) low fits).1

  high_bit : bit_and (2 * (n - 1) + half) 1 ≡ half
  high_bit = bit_and_mask 1 (2 * (n - 1) + half) ∙ omega (arith, bit)

  base_width : 1 + base p n half low / 2 ^ (p + 1) ≡ n
  base_width = omega (arith, sym (div-div-pow (base p n half low) p 1), base_high, some, bit)

-- A distance code past the direct ones, of a layout the format admits.
pub record IsFar (p nd d : ℕ) : Type 0 where
  pub postfix : p ≤ 3
  pub direct : nd ≤ 120
  pub far : 16 + nd ≤ d
  pub bounded : d < 2 ^ 31

module _ {p nd d : ℕ} (h : IsFar p nd d) where
  abbrev dist : ℕ
  dist = 2 ^ (p + 2) + (d - 16 - nd)

  small_power : 2 ^ p ≤ 8
  small_power = pow-le {b = 3} h.postfix

  cut : Split p dist
  cut =
      split p dist (omega arith)
        (omega (arith, h.bounded, pow-le {a = p + 2} {b = 5} (omega (arith, h.postfix))))

  abbrev symbol : ℕ
  symbol = 16 + nd + (2 * (cut.nbits - 1) + cut.half) * 2 ^ p + cut.low

  dist-lt : dist < 2 ^ 32
  dist-lt = omega (arith, h.bounded, pow-le {a = p + 2} {b = 5} (omega (arith, h.postfix)))

  nbits-le : cut.nbits + p ≤ 30
  nbits-le = elim (dec_lt (cut.nbits + p) 31) [
    | yes less ↦ omega arith
    | no more ↦ absurd (
        omega (
          arith,
          dist-lt,
          cut.bucket,
          log2-bounds dist (omega (arith, pow-pos (p + 2))) (omega (arith, dist-lt)),
          pow-le {a = 32} {b = log2_floor_non_zero dist} (omega (arith, cut.bucket)),
        ))
  ]

  extra-lt : cut.extra < 2 ^ 32
  extra-lt =
      omega (arith, cut.extra_fits, pow-le {a = cut.nbits} {b = 32} (omega (arith, nbits-le)))

  symbol-lt : symbol < 2 ^ 10
  symbol-lt = omega (
    arith,
    h.direct,
    cut.low_fits,
    small_power,
    cut.one_bit,
    nbits-le,
    mul-le-mul {n₁ = 2 * (cut.nbits - 1) + cut.half} {m₁ = 2 ^ p} {n₂ = 59} {m₂ = 8}
        (omega (arith, cut.one_bit, nbits-le)) small_power,
  )

  -- The code's fields.
  encode_far : prefix_encode_copy_distance d nd p ≡ (2 ^ 10 * cut.nbits + symbol, cut.extra)
  unfolding prefix_encode_copy_distance
  encode_far =
      rw
        (
          ge→ltb d (16 + nd) h.far,
          width,
          cut.masked,
          cut.second_bit,
          cut.remains,
          mod-pow-eq_of_lt cut.extra 32 extra-lt,
          (let e : cut.nbits + p - p ≡ cut.nbits = omega arith in e),
          (let e : cut.nbits * 2 ^ 10 ≡ 2 ^ 10 * cut.nbits = omega arith in e),
          bit_or_add 10 symbol cut.nbits symbol-lt,
          mod-pow-eq_of_lt (2 ^ 10 * cut.nbits + symbol) 16 (omega (arith, symbol-lt, nbits-le)),
        )
        refl
    where
      width : log2_floor_non_zero dist - 1 ≡ cut.nbits + p
      width = omega (arith, cut.bucket)

  -- What the packed code says.
  code_symbol : bit_and (2 ^ 10 * cut.nbits + symbol) dist_code_mask ≡ symbol
  code_symbol = bit_and_mask 10 (2 ^ 10 * cut.nbits + symbol) ∙ omega (arith, symbol-lt)

  code_width : (2 ^ 10 * cut.nbits + symbol) / 2 ^ 10 ≡ cut.nbits
  code_width = omega (arith, symbol-lt)

  abbrev lead : ℕ
  lead = (2 + cut.half) * 2 ^ cut.nbits

  lead-ge : 4 ≤ lead
  lead-ge = omega (
    arith,
    mul-le-mul {n₁ = 2} {m₁ = 2} {n₂ = 2 + cut.half} {m₂ = 2 ^ cut.nbits} (omega arith)
        (omega (arith, cut.some_bits, pow-le {a = 1} {b = cut.nbits} cut.some_bits)),
  )

  lead-le : (lead + cut.extra) * 2 ^ p < 2 ^ 32
  lead-le = omega (arith, dist-lt, cut.shape)

  lead-lt : lead < 2 ^ 32
  lead-lt = omega (arith, lead-le, mul-le-mul_left (lead + cut.extra) (pow-pos p))

  -- The distance's value, whatever the lead's 4 is taken from.
  regroup : (lead - 4 + cut.extra) * 2 ^ p + cut.low + 16 + nd ≡ d
  regroup = omega (
    arith,
    cut.shape,
    h.far,
    pow-add p 2,
    lead-ge,
    ap (λ (t : ℕ). (t + cut.extra) * 2 ^ p)
        (let e : lead ≡ lead - 4 + 4 = omega (arith, lead-ge) in e),
  )

  offset : symbol - nd - 16 ≡ base p cut.nbits cut.half cut.low
  offset = omega arith

  restore_far : restore_distance_code p nd (2 ^ 10 * cut.nbits + symbol) cut.extra ≡ d
  unfolding restore_distance_code
  restore_far =
      rw
        (
          code_symbol,
          ge→ltb symbol (16 + nd) (omega arith),
          code_width,
          offset,
          base_high p cut.nbits cut.half cut.low cut.some_bits cut.one_bit cut.low_fits,
          base_low p cut.nbits cut.half cut.low cut.some_bits cut.one_bit cut.low_fits,
          high_bit p cut.nbits cut.half cut.low cut.some_bits cut.one_bit cut.low_fits,
          mod-pow-eq_of_lt lead 32 lead-lt,
          mod-pow-eq_of_lt ((lead - 4 + cut.extra) * 2 ^ p) 32 (omega (arith, regroup, h.bounded)),
        )
        (omega (arith, regroup))

  width_far :
      (large : Bool)
      → extra_bits (record { postfix = p; direct = nd; large = large }) symbol ≡ cut.nbits
  unfolding extra_bits
  width_far large =
      rw
        (
          ge→ltb symbol (16 + nd) (omega arith),
          (let e : symbol - 16 - nd ≡ base p cut.nbits cut.half cut.low = omega arith in e),
        )
        (base_width p cut.nbits cut.half cut.low cut.some_bits cut.one_bit cut.low_fits)

  resolve_far :
      (large : Bool)
      → long_distance (record { postfix = p; direct = nd; large = large }) symbol cut.extra ≡ d - 15
  unfolding long_distance extra_bits
  resolve_far large =
      rw
        (
          ge→ltb symbol (16 + nd) (omega arith),
          offset',
          base_high p cut.nbits cut.half cut.low cut.some_bits cut.one_bit cut.low_fits,
          base_low p cut.nbits cut.half cut.low cut.some_bits cut.one_bit cut.low_fits,
          high_bit p cut.nbits cut.half cut.low cut.some_bits cut.one_bit cut.low_fits,
          base_width p cut.nbits cut.half cut.low cut.some_bits cut.one_bit cut.low_fits,
        )
        (omega (arith, regroup, h.far))
    where
      offset' : symbol - 16 - nd ≡ base p cut.nbits cut.half cut.low
      offset' = omega arith

-- A code below the short and direct ones is itself.
module _ (p : ℕ) {nd d : ℕ} (direct : nd ≤ 120) (near : d < 16 + nd) where
  encode_near : prefix_encode_copy_distance d nd p ≡ (d, 0)
  unfolding prefix_encode_copy_distance
  encode_near =
      rw (lt→ltb d (16 + nd) near, mod-pow-eq_of_lt d 16 (omega (arith, near, direct))) refl

  near_symbol : bit_and d dist_code_mask ≡ d
  near_symbol = bit_and_mask 10 d ∙ mod-pow-eq_of_lt d 10 (omega (arith, near, direct))

  restore_near : restore_distance_code p nd d 0 ≡ d
  unfolding restore_distance_code
  restore_near = rw (near_symbol, lt→ltb d (16 + nd) near) refl

  near_case :
      16 ≤ d
      → (large : Bool)
      → (extra_bits (record { postfix = p; direct = nd; large = large }) d ≡ d / 2 ^ 10)
        × (0 < 2 ^ (d / 2 ^ 10))
        × (long_distance (record { postfix = p; direct = nd; large = large }) d 0 ≡ d - 15)
  unfolding extra_bits long_distance
  near_case short large =
      rw (lt→ltb d (16 + nd) near)
        (omega (arith, near, direct), pow-pos (d / 2 ^ 10), omega (arith, short))

-- For the layouts the format admits and every intermediate distance code below 2^31,
-- `restore_distance_code` gives back the code that `prefix_encode_copy_distance` packed.
pub restore-prefix_encode :
    (p nd d : ℕ)
    → p ≤ 3
    → nd ≤ 120
    → d < 2 ^ 31
    → restore_distance_code p nd
        (prefix_encode_copy_distance d nd p).0
        (prefix_encode_copy_distance d nd p).1
      ≡ d
restore-prefix_encode p nd d hp hd top = elim (dec_lt d (16 + nd)) [
  | yes near ↦ rw (encode_near p hd near) (restore_near p hd near)
  | no far ↦
      let h : IsFar p nd d = record {
        postfix = hp;
        direct = hd;
        far = omega arith;
        bounded = top;
      } in
      rw (encode_far h) (restore_far h)
]

-- For the layouts that the format admits, either kind of window, and every intermediate code
-- from 16 to 2^31: the decoder gives the packed symbol the width of extra bits that the encoder
-- packed, the extra bits fit it, and `long_distance` resolves the symbol to the distance that
-- the code stands for, the code less 15.
pub long_distance-prefix_encode :
    (large : Bool) (p nd d : ℕ)
    → p ≤ 3
    → nd ≤ 120
    → 16 ≤ d
    → d < 2 ^ 31
    → (extra_bits
          (record { postfix = p; direct = nd; large = large })
          (bit_and (prefix_encode_copy_distance d nd p).0 dist_code_mask)
        ≡ (prefix_encode_copy_distance d nd p).0 / 2 ^ 10)
      × ((prefix_encode_copy_distance d nd p).1
          < 2 ^ ((prefix_encode_copy_distance d nd p).0 / 2 ^ 10))
      × (long_distance
            (record { postfix = p; direct = nd; large = large })
            (bit_and (prefix_encode_copy_distance d nd p).0 dist_code_mask)
            (prefix_encode_copy_distance d nd p).1
          ≡ d - 15)
long_distance-prefix_encode large p nd d hp hd short top = elim (dec_lt d (16 + nd)) [
  | yes near ↦ rw (encode_near p hd near, near_symbol p hd near) (near_case p hd near short large)
  | no far ↦
      let h : IsFar p nd d = record {
        postfix = hp;
        direct = hd;
        far = omega arith;
        bounded = top;
      } in
      rw (encode_far h, code_symbol h, code_width h)
        (width_far h large, (cut h).extra_fits, resolve_far h large)
]
