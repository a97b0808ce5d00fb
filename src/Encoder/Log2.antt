-- ===== src/Encoder/Log2.antt =====
-- src/shared/fast_log.rs: the integer logarithm. The floating-point ones are not modelled.
use mbrotli.Common.{ℕ, zero, suc, ◌-◌, ◌^◌, ◌≤◌, ◌<◌, arith, ltb, if◌then◌else◌}
use mbrotli.Common.{◌≡◌, ap, Bool-cases, inl, inr, ltb→lt, ltb→ge}
use mbrotli.Common.Pow.{pow-pos, pow-le}
use native.Mathlib.Decide.{dec_lt}

-- `leading_zeros` of a number of `bits` bits
unfoldable pub leading_zeros : ℕ → ℕ → ℕ
leading_zeros zero value = 0
leading_zeros (suc bits) value = if ltb value (2 ^ bits) then suc (leading_zeros bits value) else 0

unfoldable pub log2_floor_non_zero : ℕ → ℕ
unfolding leading_zeros
log2_floor_non_zero value = 63 - leading_zeros 64 value

leading_zeros_bounds :
    (bits v : ℕ)
    → 0 < v
    → v < 2 ^ bits
    → (leading_zeros bits v < bits)
      × (2 ^ (bits - 1 - leading_zeros bits v) ≤ v)
      × (v < 2 ^ (bits - leading_zeros bits v))
unfolding leading_zeros
leading_zeros_bounds zero v pos h = absurd (omega arith)
leading_zeros_bounds (suc bits) v pos h = elim (Bool-cases (ltb v (2 ^ bits))) [
  | inl small ↦
      let (a, b, c) = leading_zeros_bounds bits v pos (ltb→lt _ _ small) in
      let e : suc bits - 1 - suc (leading_zeros bits v) ≡ bits - 1 - leading_zeros bits v =
        omega arith in
      let e' : suc bits - suc (leading_zeros bits v) ≡ bits - leading_zeros bits v = omega arith in
      rw small (
        omega arith,
        omega (arith, b, ap (λ (t : ℕ). 2 ^ t) e),
        omega (arith, c, ap (λ (t : ℕ). 2 ^ t) e'),
      )
  | inr big ↦
      let e : suc bits - 1 - 0 ≡ bits = omega arith in
      let e' : suc bits - 0 ≡ suc bits = omega arith in
      rw big (
        omega arith,
        omega (arith, ltb→ge v (2 ^ bits) big, ap (λ (t : ℕ). 2 ^ t) e),
        omega (arith, h, ap (λ (t : ℕ). 2 ^ t) e'),
      )
]

-- For every number above zero that fits 64 bits, `log2_floor_non_zero` is the exponent of the
-- greatest power of two that does not pass it.
pub log2-bounds :
    (v : ℕ)
    → 0 < v
    → v < 2 ^ 64
    → (2 ^ log2_floor_non_zero v ≤ v) × (v < 2 ^ suc (log2_floor_non_zero v))
unfolding log2_floor_non_zero
log2-bounds v pos h =
    let (a, b, c) = leading_zeros_bounds 64 v pos h in
    (
      b,
      omega (
        arith,
        c,
        ap (λ (t : ℕ). 2 ^ t)
            (let e : 64 - leading_zeros 64 v ≡ suc (63 - leading_zeros 64 v) = omega arith in e),
      ),
    )

-- It is the only one.
pub log2_unique : (v e : ℕ) → 2 ^ e ≤ v → v < 2 ^ suc e → v < 2 ^ 64 → log2_floor_non_zero v ≡ e
log2_unique v e lo hi h = elim (dec_lt l e) [
  | yes less ↦ absurd (omega (arith, b, pow-le {a = suc l} {b = e} less))
  | no more ↦ elim (dec_lt e l) [
    | yes less ↦ absurd (omega (arith, b, pow-le {a = suc e} {b = l} less))
    | no same ↦ omega arith
  ]
]
  where
    l : ℕ
    l = log2_floor_non_zero v

    b : (2 ^ l ≤ v) × (v < 2 ^ suc l)
    b = log2-bounds v (omega (arith, pow-pos e)) h
