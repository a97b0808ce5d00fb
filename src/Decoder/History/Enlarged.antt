-- ===== src/Decoder/History/Enlarged.antt =====
-- A ring that grows keeps what is decoded, and its size stays a power of two up to the window's.
use mbrotli.Common.{
  ℕ, zero, suc, ◌-◌, ◌*◌, ◌^◌, ◌≤◌, ◌<◌, arith, max, min, ltb, leb, ◌≡◌, ◌⊎◌, inl, inr, refl,
  Bool-cases, none, some, List, length, get_or, leb→le, ltb→lt, ltb→ge,
}
use mbrotli.Common.Pow.{pow-le, pow-step, pow-pos}
use mbrotli.Common.Slices.{}
use mbrotli.Decoder.History.Growth.{next_power, or_max, ring_size}

-- A ring that is not allocated, or of a power of two up to `2 ^ bits`.
pub data IsRing (bits len : ℕ) : Type 0 where
  empty : len ≡ 0 → IsRing bits len
  power : (k : ℕ) → k ≤ bits → len ≡ 2 ^ k → IsRing bits len

-- All that is decoded stands at its position.
pub record Unwrapped (decoded items : List ℕ) : Type 0 where
  pub fits : length decoded ≤ length items
  pub bytes : (p : ℕ) → p < length decoded → get_or items p 0 ≡ get_or decoded p 0

pub record Enlarged (bits end : ℕ) (decoded items : List ℕ) : Type 0 where
  pub kept : Unwrapped decoded items
  pub ring : IsRing bits (length items)
  pub addressable : (end ≤ length items) ⊎ (length items ≡ 2 ^ bits)

next_power-cases :
    (n k end : ℕ)
    → (next_power n k end ≡ none) ⊎ ((j : ℕ) × (next_power n k end ≡ some (2 ^ j)) × (end ≤ 2 ^ j))
unfolding next_power
next_power-cases zero k end = inl refl
next_power-cases (suc n) k end = elim (Bool-cases (leb end (2 ^ k))) [
  | inl e ↦ inr (k, rw (next_power, e) refl, leb→le end (2 ^ k) e)
  | inr e ↦ elim (next_power-cases n (suc k) end) [
    | inl f ↦ inl (rw (next_power, e) f)
    | inr (j, f, le) ↦ inr (j, rw (next_power, e) f, le)
  ]
]

pow-bound : (k bits : ℕ) → 2 ^ k ≤ 2 ^ bits → k ≤ bits
pow-bound k bits h = elim (Bool-cases (ltb bits k)) [
  | inr e ↦ ltb→ge bits k e
  | inl e ↦
      let more : 2 ^ suc bits ≤ 2 ^ k = pow-le (ltb→lt bits k e) in
      absurd (omega (arith, more, pow-step bits, pow-pos bits, h))
]

-- The size that a growth aims at.
pub record Aimed (bits len end size : ℕ) : Type 0 where
  pub exponent : ℕ
  pub small : exponent ≤ bits
  pub is_power : size ≡ 2 ^ exponent
  pub grows : len ≤ size
  pub enough : (end ≤ size) ⊎ (size ≡ 2 ^ bits)

module _ (bits : ℕ) (low : 6 ≤ bits) (high : bits < 63) where
  window-bounds : (64 ≤ 2 ^ bits) × (2 * 2 ^ bits < 2 ^ 64)
  window-bounds =
      let least : 2 ^ 6 ≤ 2 ^ bits = pow-le low in
      let most : 2 ^ suc bits ≤ 2 ^ 63 = pow-le {b = 63} (omega (arith, high)) in
      (omega (arith, least), omega (arith, most, pow-step bits))

  window_full :
      (x len end : ℕ) → 2 ^ bits ≤ x → len < 2 ^ bits → Aimed bits len end (min x (2 ^ bits))
  window_full x len end le short = record {
    exponent = bits;
    small = omega arith;
    is_power = omega (arith, le);
    grows = omega (arith, le, short);
    enough = inr (omega (arith, le));
  }

  capped :
      (x len end j : ℕ)
      → x ≡ 2 ^ j
      → len < 2 ^ bits
      → len ≤ x
      → end ≤ x
      → Aimed bits len end (min x (2 ^ bits))
  capped x len end j e short grows enough = elim (Bool-cases (ltb x (2 ^ bits))) [
    | inl f ↦
        let le : x < 2 ^ bits = ltb→lt x (2 ^ bits) f in
        record {
          exponent = j;
          small = pow-bound j bits (omega (arith, le, e));
          is_power = omega (arith, le, e);
          grows = omega (arith, le, grows);
          enough = inl (omega (arith, le, enough));
        }
    | inr f ↦ window_full x len end (ltb→ge x (2 ^ bits) f) short
  ]

  -- The largest of three sizes is one of them.
  largest : (a b c : ℕ) → (max (max a b) c ≡ a) ⊎ ((max (max a b) c ≡ b) ⊎ (max (max a b) c ≡ c))
  largest a b c = ground arith

  pub ring_size-Aimed :
      (len end : ℕ)
      → IsRing bits len
      → len < 2 ^ bits
      → Aimed bits len end (ring_size len (2 ^ bits) end)
  unfolding ring_size or_max
  ring_size-Aimed len end r short = elim (next_power-cases 64 0 end) [
    | inl e ↦ rw (ring_size, e) (window_full x_none len end (omega (arith, window-bounds)) short)
    | inr (j, e, le) ↦
        rw (ring_size, e)
          (elim (largest (2 ^ j) (min (len * 2) (2 ^ 64 - 1)) 64) [
            | inl same ↦ capped (x j) len end j same short (bigger j) (omega (arith, le))
            | inr (inr same) ↦
                capped (x j) len end 6 (omega (arith, same)) short (bigger j) (omega (arith, le))
            | inr (inl same) ↦ twice j r same (omega (arith, le))
          ])
  ]
    where
      x : ℕ → ℕ
      x j = max (max (2 ^ j) (min (len * 2) (2 ^ 64 - 1))) 64

      x_none : ℕ
      x_none = max (max (2 ^ 64 - 1) (min (len * 2) (2 ^ 64 - 1))) 64

      bigger : (j : ℕ) → len ≤ x j
      bigger j = omega (arith, window-bounds, short)

      twice :
          (j : ℕ)
          → IsRing bits len
          → x j ≡ min (len * 2) (2 ^ 64 - 1)
          → end ≤ x j
          → Aimed bits len end (min (x j) (2 ^ bits))
      twice j (IsRing.empty no_bytes) same le = absurd (omega (arith, no_bytes, same))
      twice j (IsRing.power k fits e) same le =
          capped (x j) len end (suc k) (omega (arith, same, e, window-bounds, short, pow-step k))
            short (bigger j) le
