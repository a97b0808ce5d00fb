-- ===== src/Distance/Split.antt =====
-- A number cut by its logarithm: two leading bits, the extra bits, and the postfix.
use mbrotli.Common.{ℕ, suc, ◌+◌, ◌-◌, ◌*◌, ◌/◌, ◌%◌, ◌^◌, ◌≤◌, ◌<◌, arith, bit_and}
use mbrotli.Common.{◌≡◌, ap, ap₂, ◌∙◌}
use mbrotli.Common.Pow.{
  pow-pos, pow-le, pow-step, pow-add, pow-split, mod-div-pow, mod-mod-pow, mod-pow-lt,
}
use mbrotli.Common.BitOps.{bit_and_mask}
use native.Mathlib.Nat.{le-div_iff_mul-le, div-lt_iff_lt-mul}
use native.Mathlib.Decide.{dec_lt}
use mbrotli.Encoder.Log2.{log2_floor_non_zero, log2-bounds}

-- `dist` is `2 + half` at the width `nbits`, then `extra`, then `low` of `p` bits.
pub record Split (p dist : ℕ) : Type 0 where
  pub nbits : ℕ
  pub half : ℕ
  pub low : ℕ
  pub extra : ℕ
  pub some_bits : 0 < nbits
  pub one_bit : half ≤ 1
  pub low_fits : low < 2 ^ p
  pub extra_fits : extra < 2 ^ nbits
  pub shape : dist ≡ ((2 + half) * 2 ^ nbits + extra) * 2 ^ p + low
  pub bucket : log2_floor_non_zero dist ≡ nbits + p + 1
  pub masked : bit_and dist (2 ^ p - 1) ≡ low
  pub second_bit : bit_and (dist / 2 ^ (nbits + p)) 1 ≡ half
  pub remains : (dist - (2 + half) * 2 ^ (nbits + p)) / 2 ^ p ≡ extra

pub split : (p dist : ℕ) → 2 ^ (p + 2) ≤ dist → dist < 2 ^ 64 → Split p dist
split p dist lo hi = record {
  nbits = n;
  half = t - 2;
  low = dist % 2 ^ p;
  extra = dist / 2 ^ p % 2 ^ n;
  some_bits = omega (arith, wide);
  one_bit = omega (arith, top);
  low_fits = mod-pow-lt dist p;
  extra_fits = mod-pow-lt (dist / 2 ^ p) n;
  shape = omega (
    arith,
    top,
    whole,
    parts,
    ap (λ (u : ℕ). u * t) power,
    ap (λ (u : ℕ). u * 2 ^ n * 2 ^ p) (let e : 2 + (t - 2) ≡ t = omega (arith, top) in e),
  );
  bucket = omega (arith, wide);
  masked = bit_and_mask p dist;
  second_bit = bit_and_mask 1 t ∙ omega (arith, top);
  remains =
      ap (λ (u : ℕ). u / 2 ^ p)
        (let e : dist - (2 + (t - 2)) * 2 ^ (n + p) ≡ dist % 2 ^ (n + p) = omega (
          arith,
          top,
          whole,
          ap (λ (u : ℕ). u * 2 ^ (n + p)) (let e : 2 + (t - 2) ≡ t = omega (arith, top) in e),
        ) in
          e)
      ∙ cut;
}
  where
    l : ℕ
    l = log2_floor_non_zero dist

    bounds : (2 ^ l ≤ dist) × (dist < 2 ^ suc l)
    bounds = log2-bounds dist (omega (arith, lo, pow-pos (p + 2))) hi

    wide : p + 2 ≤ l
    wide = elim (dec_lt l (p + 2)) [
      | yes less ↦ absurd (omega (arith, bounds, lo, pow-le {a = suc l} {b = p + 2} less))
      | no more ↦ omega arith
    ]

    n : ℕ
    n = l - 1 - p

    t : ℕ
    t = dist / 2 ^ (n + p)

    top : (2 ≤ t) × (t < 4)
    top = (
      (le-div_iff_mul-le (pow-pos (n + p))).1 (
          omega (
            arith,
            bounds,
            pow-step (n + p),
            ap (λ (u : ℕ). 2 ^ u) (let e : l ≡ suc (n + p) = omega (arith, wide) in e),
          )),
      (div-lt_iff_lt-mul (pow-pos (n + p))).1 (
          omega (
            arith,
            bounds,
            pow-step (n + p),
            pow-step (suc (n + p)),
            ap (λ (u : ℕ). 2 ^ u) (let e : suc l ≡ suc (suc (n + p)) = omega (arith, wide) in e),
          )),
    )

    power : 2 ^ (n + p) ≡ 2 ^ n * 2 ^ p
    power = pow-add n p

    whole : dist ≡ dist % 2 ^ (n + p) + 2 ^ (n + p) * t
    whole = pow-split dist (n + p)

    cut : dist % 2 ^ (n + p) / 2 ^ p ≡ dist / 2 ^ p % 2 ^ n
    cut =
        mod-div-pow dist p (n + p) (omega arith)
        ∙ ap (λ (u : ℕ). dist / 2 ^ p % 2 ^ u) (let e : n + p - p ≡ n = omega arith in e)

    parts : dist % 2 ^ (n + p) ≡ dist % 2 ^ p + 2 ^ p * (dist / 2 ^ p % 2 ^ n)
    parts =
        pow-split (dist % 2 ^ (n + p)) p
        ∙ ap₂ (λ (a b : ℕ). a + 2 ^ p * b) (mod-mod-pow dist p (n + p) (omega arith)) cut
