-- ===== src/Varint/RoundTrip.antt =====
-- Both readers give back the integer that was written.
use mbrotli.Common.{ℕ, zero, suc, ◌+◌, ◌*◌, ◌/◌, ◌%◌, ◌^◌, ◌≤◌, ◌<◌, arith, bit_and, bit_or}
use mbrotli.Common.{◌≡◌, refl, ap, ap₂, ◌∙◌, List, [], ◌++◌, Bool, true, ◌&&◌}
use mbrotli.Common.{◌==◌, length, eq→test, ne→test, ge→ltb, lt→ltb, all_below, all_below_sound}
use mbrotli.Common.Pow.{pow-add, pow-le, mod-pow-eq_of_lt}
use mbrotli.Common.BitOps.{bit_and_mask, bit_or_low}
use native.Mathlib.Nat.{mul-le-mul, mul-le-mul_left}
use native.Mathlib.Decide.{ℕ_discrete}
use mbrotli.Varint.{
  ok, encoded_len, length_loop, read, read_loop, write, write_loop, max_varint, number, number_loop,
  read_number,
}

-- The bits of a byte with seven value bits, with the high bit clear and set.
value_byte : ℕ → Bool
value_byte b =
    (bit_and b 0x7F == b)
    && ((bit_and b 0x80 == 0)
        && ((bit_and (bit_or b 0x80) 0x7F == b)
            && ((bit_and (bit_or b 0x80) 0x80 == 128) && (bit_or b 0x80 == b + 128))))

value_bytes : all_below 128 value_byte ≡ true
unfolding value_byte
value_bytes = refl

byte_bits :
    (b : ℕ)
    → b < 128
    → (bit_and b 0x7F ≡ b)
      × (bit_and b 0x80 ≡ 0)
      × (bit_and (bit_or b 0x80) 0x7F ≡ b)
      × (bit_and (bit_or b 0x80) 0x80 ≡ 128)
      × (bit_or b 0x80 ≡ b + 128)
unfolding value_byte
byte_bits b h = let e = all_below_sound 128 value_byte b value_bytes h in ground arith

-- A value's next seven bits, put above those that are read.
next_digit :
    (index value d : ℕ)
    → value < 2 ^ (7 * index)
    → d < 128
    → index ≤ 8
    → bit_or value (d * 2 ^ (7 * index) % 2 ^ 64) ≡ value + 2 ^ (7 * index) * d
next_digit index value d fits small top =
    ap (bit_or value) (
      let e : d * 2 ^ (7 * index) % 2 ^ 64 ≡ 2 ^ (7 * index) * d =
        mod-pow-eq_of_lt (d * 2 ^ (7 * index)) 64 low ∙ omega arith in
      e)
    ∙ bit_or_low (7 * index) value d fits
  where
    low : d * 2 ^ (7 * index) < 2 ^ 64
    low = omega (
      arith,
      small,
      mul-le-mul {n₁ = d} {m₁ = 2 ^ (7 * index)} {n₂ = 127} {m₂ = 2 ^ 56} (omega arith)
          (pow-le {a = 7 * index} {b = 56} (omega arith)),
    )

-- What the first byte of a number and the rest of it give.
seven : (rest : ℕ) → bit_and rest 0x7F % 2 ^ 8 ≡ rest % 128
seven rest = ap (λ (t : ℕ). t % 2 ^ 8) (bit_and_mask 7 rest) ∙ omega arith

module _ (index value rest : ℕ) (fits : value < 2 ^ (7 * index)) where
  value_fits : value + 2 ^ (7 * index) * (rest % 128) < 2 ^ (7 * (index + 1))
  value_fits = omega (
    arith,
    fits,
    ap (λ (t : ℕ). 2 ^ t) (let e : 7 * (index + 1) ≡ 7 * index + 7 = omega arith in e),
    pow-add (7 * index) 7,
    mul-le-mul_left {m = rest % 128} {n = 127} (2 ^ (7 * index)) (omega arith),
  )

  value_whole :
      value + 2 ^ (7 * index) * (rest % 128) + 2 ^ (7 * (index + 1)) * (rest / 2 ^ 7)
      ≡ value + 2 ^ (7 * index) * rest
  value_whole = omega (
    arith,
    ap (λ (t : ℕ). 2 ^ t * (rest / 2 ^ 7))
        (let e : 7 * (index + 1) ≡ 7 * index + 7 = omega arith in e),
    ap (λ (t : ℕ). t * (rest / 2 ^ 7)) (pow-add (7 * index) 7),
    ap (λ (t : ℕ). 2 ^ (7 * index) * t)
        (let e : rest ≡ rest % 128 + 128 * (rest / 2 ^ 7) = omega arith in e),
  )

rest_fits : (fuel rest : ℕ) → rest < 2 ^ (7 * suc fuel) → rest / 2 ^ 7 < 2 ^ (7 * fuel)
rest_fits fuel rest h = omega (
  arith,
  h,
  ap (λ (t : ℕ). 2 ^ t) (let e : 7 * suc fuel ≡ 7 * fuel + 7 = omega arith in e),
  pow-add (7 * fuel) 7,
)

-- A value that is left fits some rounds that are left.
positive : (fuel : ℕ) → 1 < 2 ^ (7 * fuel) → 0 < fuel
positive zero h = absurd (omega arith)
positive (suc fuel) h = omega arith

read_loop-write_loop :
    (fuel index available value rest : ℕ) (tail : List ℕ)
    → index + fuel ≡ 9
    → 0 < fuel
    → value < 2 ^ (7 * index)
    → rest < 2 ^ (7 * fuel)
    → read_loop available index value (write_loop fuel rest ++ tail)
      ≡ ok (value + 2 ^ (7 * index) * rest, index + length (write_loop fuel rest))
unfolding read_loop write_loop
read_loop-write_loop zero index available value rest tail nine some fits small =
    absurd (omega arith)
read_loop-write_loop (suc fuel) index available value rest tail nine some fits small =
    let (a, b, c, d, e) = byte_bits (rest % 128) (omega arith) in
    elim (ℕ_discrete (rest / 2 ^ 7) 0) [
      | yes z ↦
          let short : rest % 128 ≡ rest = omega (arith, z) in
          rw
            (
              seven rest,
              eq→test (rest / 2 ^ 7) 0 z,
              a,
              b,
              next_digit index value (rest % 128) fits (omega arith) (omega arith),
              short,
            )
            refl
      | no nz ↦
          let more : 0 < fuel = positive fuel (omega (arith, rest_fits fuel rest small, nz)) in
          rw
            (
              seven rest,
              ne→test (rest / 2 ^ 7) 0 nz,
              c,
              d,
              ne→test (index + 1) 9 (omega arith),
              next_digit index value (rest % 128) fits (omega arith) (omega arith),
            )
            (read_loop-write_loop fuel (index + 1) available
                (value + 2 ^ (7 * index) * (rest % 128)) (rest / 2 ^ 7) tail (omega arith) more
                (value_fits index value rest fits) (rest_fits fuel rest small)
              ∙ ap₂ (λ (x y : ℕ). ok (x, y)) (value_whole index value rest fits) (omega arith))
    ]

number_loop-write_loop :
    (fuel index value rest cursor : ℕ) (tail : List ℕ)
    → index + fuel ≡ 9
    → 0 < fuel
    → value < 2 ^ (7 * index)
    → rest < 2 ^ (7 * fuel)
    → number_loop fuel (7 * index) value cursor (write_loop fuel rest ++ tail)
      ≡ number (value + 2 ^ (7 * index) * rest) (cursor + length (write_loop fuel rest))
unfolding number_loop write_loop
number_loop-write_loop zero index value rest cursor tail nine some fits small = absurd (omega arith)
number_loop-write_loop (suc fuel) index value rest cursor tail nine some fits small =
    let (a, b, c, d, e) = byte_bits (rest % 128) (omega arith) in
    elim (ℕ_discrete (rest / 2 ^ 7) 0) [
      | yes z ↦
          let short : rest % 128 ≡ rest = omega (arith, z) in
          rw
            (
              seven rest,
              eq→test (rest / 2 ^ 7) 0 z,
              a,
              lt→ltb (rest % 128) 128 (omega arith),
              next_digit index value (rest % 128) fits (omega arith) (omega arith),
              short,
            )
            refl
      | no nz ↦
          let more : 0 < fuel = positive fuel (omega (arith, rest_fits fuel rest small, nz)) in
          rw
            (
              seven rest,
              ne→test (rest / 2 ^ 7) 0 nz,
              c,
              ge→ltb (bit_or (rest % 128) 0x80) 128 (omega (arith, e)),
              next_digit index value (rest % 128) fits (omega arith) (omega arith),
              let e : 7 * index + 7 ≡ 7 * (index + 1) = omega arith in e,
            )
            (number_loop-write_loop fuel (index + 1) (value + 2 ^ (7 * index) * (rest % 128))
                (rest / 2 ^ 7) (cursor + 1) tail (omega arith) more
                (value_fits index value rest fits) (rest_fits fuel rest small)
              ∙ ap₂ number (value_whole index value rest fits) (omega arith))
    ]

length_loop-write_loop :
    (fuel more rest len : ℕ)
    → fuel ≤ more
    → 0 < fuel
    → rest < 2 ^ (7 * fuel)
    → length_loop more (rest / 2 ^ 7) (suc len) ≡ len + length (write_loop fuel rest)
unfolding length_loop write_loop
length_loop-write_loop zero more rest len le some small = absurd (omega arith)
length_loop-write_loop (suc fuel) zero rest len le some small = absurd (omega arith)
length_loop-write_loop (suc fuel) (suc more) rest len le some small =
    elim (ℕ_discrete (rest / 2 ^ 7) 0) [
      | yes z ↦ rw (eq→test (rest / 2 ^ 7) 0 z) (omega arith)
      | no nz ↦
          let some' : 0 < fuel = positive fuel (omega (arith, rest_fits fuel rest small, nz)) in
          rw (ne→test (rest / 2 ^ 7) 0 nz, let e : suc len + 1 ≡ suc (suc len) = omega arith in e)
            (length_loop-write_loop fuel more (rest / 2 ^ 7) (suc len) (omega arith) some'
                (rest_fits fuel rest small)
              ∙ omega arith)
    ]

-- Every value of 63 bits is written in nine bytes at most, as many as `encoded_len` says; from the
-- front of them, whatever follows, `read` gives back the value and that length, and so does the
-- framing decoder's `number` from its cursor.
pub read-write :
    (value : ℕ) (tail : List ℕ) (cursor : ℕ)
    → value ≤ max_varint
    → (write value [] ≡ ok (write_loop 9 value))
      × (encoded_len value ≡ length (write_loop 9 value))
      × (read (write_loop 9 value ++ tail) ≡ ok (value, encoded_len value))
      × (read_number (write_loop 9 value ++ tail) cursor
          ≡ number value (cursor + encoded_len value))
unfolding read read_number write encoded_len
read-write value tail cursor h =
    let len : length_loop 10 (value / 2 ^ 7) 1 ≡ length (write_loop 9 value) =
      length_loop-write_loop 9 10 value 0 (omega arith) (omega arith) (omega arith) ∙ omega arith in
    (
      rw (ge→ltb max_varint value h) refl,
      len,
      read_loop-write_loop 9 0 (length (write_loop 9 value ++ tail)) 0 value tail (omega arith)
            (omega arith) (omega arith) (omega arith)
          ∙ ap₂ (λ (x y : ℕ). ok (x, y)) (omega arith) (omega (arith, len)),
      number_loop-write_loop 9 0 0 value cursor tail (omega arith) (omega arith) (omega arith)
            (omega arith)
          ∙ ap₂ number (omega arith) (omega (arith, len)),
    )
