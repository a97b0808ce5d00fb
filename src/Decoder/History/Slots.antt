-- ===== src/Decoder/History/Slots.antt =====
-- Where a position stands in the ring: its remainder by the ring's size.
use native.Mathlib.Omega.{div_any}
use native.Mathlib.Nat.{mod-eq_of_lt, mod-lt, mul-le-mul_left}
use mbrotli.Common.{
  ℕ, zero, suc, ◌+◌, ◌-◌, ◌*◌, ◌/◌, ◌%◌, ◌^◌, ◌≤◌, ◌<◌, arith, ltb, ◌==◌, ◌≡◌, ◌∙◌, ◌⊎◌, inl, inr,
  refl, sym, ap, true, Bool-cases, ltb→lt, ltb→ge, eq_of_test, eq→test,
}
use mbrotli.Common.Pow.{div-mod_unique}
use mbrotli.Common.BitOps.{bit_and_mask}
use mbrotli.Decoder.History.{is_power_below, is_power_of_two, history_mask, back, slot}

-- A position that is a few after another, in the same lap.
pub mod-shift : (m p i : ℕ) → p % m + i < m → (p + i) % m ≡ p % m + i
mod-shift m p i h =
    ap (λ (k : ℕ). k % m)
      (let e : p + i ≡ m * (p / m) + (p % m + i) = omega (arith, div_any p m) in e)
    ∙ (div-mod_unique m (p / m) (p % m + i) h).1

-- Two positions in one slot are a lap apart.
pub lap_apart : (m p q : ℕ) → p < q → p % m ≡ q % m → p + m ≤ q
lap_apart m p q lt e = elim (Bool-cases (ltb (p / m) (q / m))) [
  | inl f ↦
      let step : suc (p / m) ≤ q / m = ltb→lt (p / m) (q / m) f in
      omega (arith, div_any p m, div_any q m, e, mul-le-mul_left m step)
  | inr f ↦
      let grown = mul-le-mul_left m (ltb→ge (p / m) (q / m) f) in
      absurd (omega (arith, div_any p m, div_any q m, e, lt, grown))
]

-- The source of a copy, by whether it lies in the lap of the destination.
pub source-cases :
    (m p d : ℕ)
    → d < m
    → d ≤ p
    → ((d ≤ p % m) × ((p - d) % m ≡ p % m - d)) ⊎ ((p % m < d) × ((p - d) % m ≡ p % m + m - d))
source-cases m p d lt le = elim (Bool-cases (ltb (p % m) d)) [
  | inr f ↦
      let in_lap : d ≤ p % m = ltb→ge (p % m) d f in
      let bound : p % m < m = mod-lt p (omega (arith, lt)) in
      inl (
        in_lap,
        ap (λ (k : ℕ). k % m)
              (let e : p - d ≡ m * (p / m) + (p % m - d) = omega (arith, div_any p m, in_lap) in e)
            ∙ (div-mod_unique m (p / m) (p % m - d) (omega (arith, bound))).1,
      )
  | inl f ↦
      let ahead : p % m < d = ltb→lt (p % m) d f in
      elim (Bool-cases (ltb 0 (p / m))) [
        | inr g ↦
            let none_before : p / m ≡ 0 = omega (arith, ltb→ge 0 (p / m) g) in
            let all : m * (p / m) ≡ m * 0 = ap (λ (k : ℕ). m * k) none_before in
            absurd (omega (arith, div_any p m, all, ahead, le))
        | inl g ↦
            let lap : m * 1 ≤ m * (p / m) = mul-le-mul_left m (ltb→lt 0 (p / m) g) in
            let shorter : m * (p / m - 1) + m ≡ m * (p / m) = omega (
              arith,
              ap (λ (k : ℕ). m * k)
                  (let e : p / m ≡ suc (p / m - 1) = omega (arith, ltb→lt 0 (p / m) g) in e),
            ) in
            inr (
              ahead,
              ap (λ (k : ℕ). k % m)
                    (let e : p - d ≡ m * (p / m - 1) + (p % m + m - d) =
                        omega (arith, div_any p m, shorter, lt, ahead, lap) in
                      e)
                  ∙ (div-mod_unique m (p / m - 1) (p % m + m - d) (omega (arith, ahead, lt))).1,
            )
      ]
]

is_power_below-pow : (n k : ℕ) → k < n → is_power_below n (2 ^ k) ≡ true
unfolding is_power_below
is_power_below-pow zero k h = elim h [ ]
is_power_below-pow (suc n) k h = elim (Bool-cases (2 ^ k == 2 ^ n)) [
  | inl e ↦ rw e refl
  | inr e ↦ elim (Bool-cases (ltb k n)) [
    | inl f ↦ rw (e, is_power_below-pow n k (ltb→lt k n f)) refl
    | inr f ↦
        let same : k ≡ n = omega (arith, h, ltb→ge k n f) in
        cc (eq→test (2 ^ k) (2 ^ n) (ap (λ (m : ℕ). 2 ^ m) same))
  ]
]

pub slot-pow : (k p : ℕ) → k < 64 → slot (2 ^ k) p ≡ p % 2 ^ k
unfolding slot history_mask is_power_of_two
slot-pow k p h = rw (is_power_below-pow 64 k h) (bit_and_mask k p)

-- A power of two is found.
is_power_below-found : (n len : ℕ) → is_power_below n len ≡ true → (k : ℕ) × (k < n) × (len ≡ 2 ^ k)
unfolding is_power_below
is_power_below-found zero len h = cc
is_power_below-found (suc n) len h = elim (Bool-cases (len == 2 ^ n)) [
  | inl e ↦ (n, omega arith, eq_of_test len (2 ^ n) e)
  | inr e ↦
      let (k, lt, same) = is_power_below-found n len (rw e at h) in (k, omega (arith, lt), same)
]

-- A ring that is not full yet, of any size.
pub slot-below : (len p : ℕ) → p < len → len < 2 ^ 64 → slot len p ≡ p % len
unfolding slot history_mask is_power_of_two
slot-below len p h small = elim (Bool-cases (is_power_below 64 len)) [
  | inl e ↦ let (k, lt, same) = is_power_below-found 64 len e in rw (e, same) (bit_and_mask k p)
  | inr e ↦ rw e (
      bit_and_mask 64 p
      ∙ mod-eq_of_lt {n = p} {m = 2 ^ 64} (omega (arith, h, small))
      ∙ sym (mod-eq_of_lt h))
]

pub back_lem : (p d : ℕ) → d ≤ p → p < 2 ^ 64 → back p d ≡ p - d
unfolding back
back_lem p d h small = omega (arith, h, small)
