-- ===== src/Distance/Entries.antt =====
-- The decoder's ways of computing a distance agree on every symbol that the header validates.
use mbrotli.Common.{ℕ, ◌+◌, ◌-◌, ◌*◌, ◌/◌, ◌%◌, ◌^◌, ◌≤◌, ◌<◌, arith, bit_and}
use mbrotli.Common.{◌≡◌, refl, sym, ap, ◌∙◌, Bool, true, false, leb, if◌then◌else◌, ge→ltb, lt→ltb}
use mbrotli.Common.Pow.{pow-pos, pow-le, mod-pow-eq_of_lt}
use native.Mathlib.Nat.{mul-le-mul_left, mul-le-mul, mul-le-mul_right}
use native.Mathlib.Decide.{dec_lt}
use mbrotli.Distance.Cache.{Cache, Resolved, ok}
use mbrotli.Distance.Layout.{
  DistanceLayout, extra_bits, long_distance, short_window_distance, resolve, resolve_large, entry,
  validate_symbol,
}

-- What validation says of a symbol past the short codes.
validate-bound :
    (l : DistanceLayout) (symbol : ℕ)
    → 16 ≤ symbol
    → validate_symbol l symbol ≡ true
    → long_distance l symbol (2 ^ extra_bits l symbol - 1) ≤ 2 ^ 63 - 4
unfolding validate_symbol
validate-bound l symbol h valid = ground arith

-- The lead, the offset and the sum of a far symbol stay below 2^63.
far_bounds :
    (x w p low direct : ℕ)
    → (x - 4 + (2 ^ w - 1)) * 2 ^ p + low + direct + 1 ≤ 2 ^ 63 - 4
    → (x < 2 ^ 64)
      × ((extra : ℕ) → extra < 2 ^ w → (x - 4 + extra) * 2 ^ p + low + direct + 1 ≤ 2 ^ 63 - 4)
far_bounds x w p low direct h = (
  omega (arith, h, mul-le-mul_left (x - 4 + (2 ^ w - 1)) (pow-pos p)),
  λ extra le. omega (
    arith,
    h,
    mul-le-mul_right {m = x - 4 + extra} {n = x - 4 + (2 ^ w - 1)} (2 ^ p) (omega (arith, le)),
  ),
)

module _ (l : DistanceLayout) (symbol : ℕ) (long : 16 ≤ symbol)
    (valid : validate_symbol l symbol ≡ true) where
  abbrev code : ℕ
  code = symbol - 16 - l.direct

  abbrev width : ℕ
  width = 1 + code / 2 ^ (l.postfix + 1)

  abbrev low : ℕ
  low = bit_and code (2 ^ l.postfix - 1)

  abbrev lead : ℕ
  lead = (2 + bit_and (code / 2 ^ l.postfix) 1) * 2 ^ width

  module _ (far : 16 + l.direct ≤ symbol) where
    bound : (lead - 4 + (2 ^ width - 1)) * 2 ^ l.postfix + low + l.direct + 1 ≤ 2 ^ 63 - 4
    unfolding long_distance extra_bits
    bound = rw (ge→ltb symbol (16 + l.direct) far) at (validate-bound l symbol long valid)

    bounds :
        (lead < 2 ^ 64)
        × ((extra : ℕ)
            → extra < 2 ^ width
            → (lead - 4 + extra) * 2 ^ l.postfix + low + l.direct + 1 ≤ 2 ^ 63 - 4)
    bounds = far_bounds lead width l.postfix low l.direct bound

    lead-ge : 4 ≤ lead
    lead-ge = omega (
      arith,
      mul-le-mul {n₁ = 2} {m₁ = 2} {n₂ = 2 + bit_and (code / 2 ^ l.postfix) 1} {m₂ = 2 ^ width}
          (omega arith) (pow-le {a = 1} {b = width} (omega arith)),
    )

    far_width : (extra_bits l symbol ≡ width) × ((entry l symbol).width ≡ width)
    unfolding extra_bits entry
    far_width = (
      rw (ge→ltb symbol (16 + l.direct) far) refl,
      rw (ge→ltb symbol (16 + l.direct) far, ge→ltb symbol 16 long) refl,
    )

    far_long :
        (extra : ℕ)
        → long_distance l symbol extra ≡ (lead - 4 + extra) * 2 ^ l.postfix + low + l.direct + 1
    unfolding long_distance extra_bits
    far_long extra = rw (ge→ltb symbol (16 + l.direct) far) refl

    far_short :
        (extra : ℕ)
        → extra < 2 ^ width
        → short_window_distance l symbol extra
          ≡ (lead - 4 + extra) * 2 ^ l.postfix + low + l.direct + 1
    unfolding short_window_distance extra_bits
    far_short extra le =
        rw
          (
            ge→ltb symbol (16 + l.direct) far,
            mod-pow-eq_of_lt lead 64 bounds.0,
            mod-pow-eq_of_lt ((lead - 4 + extra) * 2 ^ l.postfix) 64
                (omega (arith, bounds.1 extra le)),
          )
          (omega arith)

    far_base :
        (extra : ℕ)
        → extra < 2 ^ width
        → (entry l symbol).base + extra * 2 ^ l.postfix
          ≡ (lead - 4 + extra) * 2 ^ l.postfix + low + l.direct + 1
    unfolding entry
    far_base extra le =
        let zero_extra = bounds.1 0 (pow-pos width) in
        rw
          (
            ge→ltb symbol 16 long,
            ge→ltb symbol (16 + l.direct) far,
            mod-pow-eq_of_lt lead 64 bounds.0,
            (let e : (lead + (2 ^ 64 - 4)) % 2 ^ 64 ≡ lead - 4 = omega (arith, lead-ge, bounds.0) in
                e),
            mod-pow-eq_of_lt ((lead - 4) * 2 ^ l.postfix) 64 (omega (arith, zero_extra)),
            mod-pow-eq_of_lt ((lead - 4) * 2 ^ l.postfix + (low + l.direct + 1)) 64
                (omega (arith, zero_extra)),
          )
          (omega arith)

  near_all :
      symbol < 16 + l.direct
      → (extra_bits l symbol ≡ 0)
        × ((entry l symbol).width ≡ 0)
        × ((entry l symbol).base ≡ symbol - 16 + 1)
        × (long_distance l symbol 0 ≡ symbol - 16 + 1)
        × (short_window_distance l symbol 0 ≡ symbol - 16 + 1)
  unfolding extra_bits entry long_distance short_window_distance
  near_all near =
      rw (lt→ltb symbol (16 + l.direct) near, ge→ltb symbol 16 long) (refl, refl, refl, refl, refl)

-- For every symbol past the short codes that the header validates, and every value of its extra
-- bits: the table entry has the width of `extra_bits`, and the 64-bit path, the 128-bit path and
-- the table entry give the same distance, from 1 to 2^63 - 4.
pub entry-agrees :
    (l : DistanceLayout) (symbol extra : ℕ)
    → 16 ≤ symbol
    → validate_symbol l symbol ≡ true
    → extra < 2 ^ extra_bits l symbol
    → ((entry l symbol).width ≡ extra_bits l symbol)
      × (long_distance l symbol extra ≡ (entry l symbol).base + extra * 2 ^ l.postfix)
      × (short_window_distance l symbol extra ≡ (entry l symbol).base + extra * 2 ^ l.postfix)
      × (0 < long_distance l symbol extra)
      × (long_distance l symbol extra ≤ 2 ^ 63 - 4)
entry-agrees l symbol extra long valid le = elim (dec_lt symbol (16 + l.direct)) [
  | yes near ↦
      let (w, ew, b, d, s) = near_all l symbol long valid near in
      let none : extra ≡ 0 = omega (arith, le, ap (λ (t : ℕ). 2 ^ t) w) in
      let top = validate-bound l symbol long valid in
      let zero_width : 2 ^ extra_bits l symbol - 1 ≡ 0 = omega (arith, ap (λ (t : ℕ). 2 ^ t) w) in
      let bound : long_distance l symbol 0 ≤ 2 ^ 63 - 4 = rw zero_width at top in
      rw none (ew ∙ sym w, omega (arith, b, d), omega (arith, b, s), omega (arith, d), bound)
  | no more ↦
      let far : 16 + l.direct ≤ symbol = omega arith in
      let (w, ew) = far_width l symbol long valid far in
      let fits : extra < 2 ^ width l symbol long valid =
        omega (arith, le, ap (λ (t : ℕ). 2 ^ t) w) in
      let d = far_long l symbol long valid far extra in
      (
        ew ∙ sym w,
        d ∙ sym (far_base l symbol long valid far extra fits),
        far_short l symbol long valid far extra fits
            ∙ sym (far_base l symbol long valid far extra fits),
        omega (arith, d),
        omega (arith, d, (bounds l symbol long valid far).1 extra fits),
      )
]

either : (b : Bool) {x y z : Resolved} → x ≡ z → y ≡ z → (if b then x else y) ≡ z
either true e f = e
either false e f = f

-- On every symbol past the short codes that the header validates, with extra bits that fit it,
-- `resolve` gives, in either kind of window, what one lookup in the table gives.
pub resolve-entry :
    (l : DistanceLayout) (symbol extra : ℕ) (cache : Cache)
    → 16 ≤ symbol
    → validate_symbol l symbol ≡ true
    → extra < 2 ^ extra_bits l symbol
    → resolve l symbol extra cache ≡ ok ((entry l symbol).base + extra * 2 ^ l.postfix)
unfolding resolve resolve_large
resolve-entry l symbol extra cache long valid le =
    let (w, d, s, pos, top) = entry-agrees l symbol extra long valid le in
    let test : leb 16 symbol ≡ true = ground arith in
    rw (test, lt→ltb (long_distance l symbol extra) (2 ^ 64) (omega (arith, top)))
      (either l.large (ap ok d) (ap ok s))
