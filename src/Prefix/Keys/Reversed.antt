-- ===== src/Prefix/Keys/Reversed.antt =====
-- Both sides reverse the bits of a code.
use mbrotli.Common.{
  ℕ, zero, suc, ◌+◌, ◌-◌, ◌*◌, ◌/◌, ◌%◌, ◌^◌, ◌≤◌, ◌<◌, arith, bit_and, bit_or, ltb, get_or,
}
use mbrotli.Common.{
  ◌≡◌, ◌≢◌, refl, sym, ap, ap₂, ◌∙◌, true, Bool-cases, inl, inr, ltb→lt, ltb→ge, ◌==◌, all_below,
  all_below_sound, eq_of_test,
}
use native.Mathlib.Nat.{div-eq_of_lt}
use mbrotli.Common.Pow.{
  pow-pos, pow-add, pow-step, div-div-pow, div-mod_unique, mod-pow-eq_of_lt, mod-pow-lt, pow-le,
  pow-join, pow-split, mod-div-pow, mod-mod-pow,
}
use mbrotli.Common.BitOps.{bit_and_mask, bit_or_add}
use mbrotli.Prefix.Keys.{
  reversed_bits, reverse_lut, reverse_loop, reverse_bits, reverse_table, key_of,
}

pub reversed_bits-lt : (n v : ℕ) → reversed_bits n v < 2 ^ n
unfolding reversed_bits
reversed_bits-lt zero v = omega arith
reversed_bits-lt (suc n) v =
    omega (arith, reversed_bits-lt n (v / 2), pow-step n, half (v % 2) (omega arith))
  where
    half : (b : ℕ) → b < 2 → b * 2 ^ n ≤ 2 ^ n
    half zero h = omega arith
    half (suc zero) h = omega arith
    half (suc (suc b)) h = absurd (omega (arith, h))

pub reversed_bits-add :
    (a b v : ℕ) → reversed_bits (a + b) v ≡ reversed_bits a v * 2 ^ b + reversed_bits b (v / 2 ^ a)
unfolding reversed_bits
reversed_bits-add zero b v =
    ap₂ reversed_bits (let e : 0 + b ≡ b = omega arith in e)
      (let e : v ≡ v / 2 ^ 0 = omega arith in e)
    ∙ omega arith
reversed_bits-add (suc a) b v =
    ap (λ (n : ℕ). reversed_bits n v) (let e : suc a + b ≡ suc (a + b) = omega arith in e)
    ∙ omega (
      arith,
      reversed_bits-add a b (v / 2),
      ap (λ (t : ℕ). v % 2 * t) (pow-add a b),
      ap (reversed_bits b) (
          div-div-pow v 1 a ∙ ap (λ (n : ℕ). v / 2 ^ n) (let e : 1 + a ≡ suc a = omega arith in e)),
    )

reversed_bits-zero : (n : ℕ) → reversed_bits n 0 ≡ 0
unfolding reversed_bits
reversed_bits-zero zero = refl
reversed_bits-zero (suc n) = omega (arith, reversed_bits-zero n)

-- A short code reversed in a longer word is shifted up.
reversed_bits-short : (l k c : ℕ) → c < 2 ^ l → reversed_bits (l + k) c / 2 ^ k ≡ reversed_bits l c
reversed_bits-short l k c h =
    ap (λ (t : ℕ). t / 2 ^ k)
      (reversed_bits-add l k c
        ∙ omega (
          arith,
          ap (reversed_bits k) (div-eq_of_lt {n = c} {m = 2 ^ l} h),
          reversed_bits-zero k,
        ))
    ∙ (div-mod_unique (2 ^ k) (reversed_bits l c) 0 (pow-pos k)).0

nibbles : all_below 16 (λ k. get_or reverse_lut k 0 == reversed_bits 4 k) ≡ true
unfolding reverse_lut reversed_bits
nibbles = refl

reversed_nibble : (v : ℕ) → get_or reverse_lut (bit_and v 0x0F) 0 ≡ reversed_bits 4 v
unfolding reversed_bits
reversed_nibble v =
    ap (λ (t : ℕ). get_or reverse_lut t 0) (bit_and_mask 4 v)
    ∙ entry (v % 2 ^ 4) (omega arith)
    ∙ omega arith
  where
    entry : (k : ℕ) → k < 16 → get_or reverse_lut k 0 ≡ reversed_bits 4 k
    entry k h =
        eq_of_test (get_or reverse_lut k 0) (reversed_bits 4 k)
          (all_below_sound 16 (λ k. get_or reverse_lut k 0 == reversed_bits 4 k) k nibbles h)

table-entry : (n s k : ℕ) → k < n → get_or (reverse_table n s) k 0 ≡ reversed_bits 8 (s + k)
unfolding reverse_table
table-entry zero s k h = elim h [ ]
table-entry (suc n) s zero h = ap (reversed_bits 8) (omega arith)
table-entry (suc n) s (suc k) h =
    table-entry n (suc s) k (omega (arith, h)) ∙ ap (reversed_bits 8) (omega arith)

reversed_byte : (v : ℕ) → get_or (reverse_table 256 0) (bit_and v 0xFF) 0 ≡ reversed_bits 8 v
unfolding reversed_bits
reversed_byte v =
    ap (λ (t : ℕ). get_or (reverse_table 256 0) t 0) (bit_and_mask 8 v)
    ∙ table-entry 256 0 (v % 2 ^ 8) (omega arith)
    ∙ omega arith

pub key_of_lem : (l c : ℕ) → l ≤ 16 → c < 2 ^ l → key_of c l ≡ reversed_bits l c
unfolding key_of
key_of_lem l c h small =
    ap (λ (t : ℕ). t / 2 ^ (16 - l)) word ∙ reversed_bits-short l (16 - l) c small
  where
    word :
        bit_or
          (get_or (reverse_table 256 0) (bit_and c 0xFF) 0 * 2 ^ 8)
          (get_or (reverse_table 256 0) (bit_and (c / 2 ^ 8) 0xFF) 0)
        ≡ reversed_bits (l + (16 - l)) c
    word =
        ap₂ (λ (a b : ℕ). bit_or (a * 2 ^ 8) b) (reversed_byte c) (reversed_byte (c / 2 ^ 8))
        ∙ ap (λ (t : ℕ). bit_or t (reversed_bits 8 (c / 2 ^ 8))) (omega arith)
        ∙ bit_or_add 8 (reversed_bits 8 (c / 2 ^ 8)) (reversed_bits 8 c)
            (reversed_bits-lt 8 (c / 2 ^ 8))
        ∙ omega (arith, reversed_bits-add 8 8 c)
        ∙ ap (λ (n : ℕ). reversed_bits n c) (let e : 16 ≡ l + (16 - l) = omega (arith, h) in e)

-- The loop has reversed `i` bits, and goes on to the next multiple of four.
reverse_loop_lem :
    (fuel l i c : ℕ)
    → l ≤ 16
    → 4 ≤ i
    → i ≤ l + 3
    → i % 4 ≡ 0
    → l ≤ i + 4 * fuel
    → reverse_loop fuel l i (c / 2 ^ (i - 4)) (reversed_bits i c)
      ≡ reversed_bits (l + (2 ^ 64 - l) % 4) c
unfolding reverse_loop
reverse_loop_lem zero l i c h four near whole enough =
    ap (λ (n : ℕ). reversed_bits n c) (omega (arith, h, four, near, whole, enough))
reverse_loop_lem (suc fuel) l i c h four near whole enough = elim (Bool-cases (ltb i l)) [
  | inl less ↦
      let lt = ltb→lt i l less in
      rw less (
        ap₂ (λ (b r : ℕ). reverse_loop fuel l (i + 4) b r)
          (bits ∙ ap (λ (n : ℕ). c / 2 ^ n) (omega (arith, four))) next
        ∙ reverse_loop_lem fuel l (i + 4) c h (omega arith) (omega (arith, lt, whole))
            (omega (arith, whole)) (omega (arith, enough)))
  | inr over ↦
      rw over
        (ap (λ (n : ℕ). reversed_bits n c) (omega (arith, h, four, near, whole, ltb→ge i l over)))
]
  where
    bits : c / 2 ^ (i - 4) / 2 ^ 4 ≡ c / 2 ^ i
    bits = div-div-pow c (i - 4) 4 ∙ ap (λ (n : ℕ). c / 2 ^ n) (omega (arith, four))

    next :
        bit_or
          (reversed_bits i c * 2 ^ 4)
          (get_or reverse_lut (bit_and (c / 2 ^ (i - 4) / 2 ^ 4) 0x0F) 0)
        ≡ reversed_bits (i + 4) c
    next =
        ap₂ bit_or (omega arith)
          (reversed_nibble (c / 2 ^ (i - 4) / 2 ^ 4) ∙ ap (reversed_bits 4) bits)
        ∙ bit_or_add 4 (reversed_bits 4 (c / 2 ^ i)) (reversed_bits i c)
            (reversed_bits-lt 4 (c / 2 ^ i))
        ∙ omega (arith, reversed_bits-add i 4 c)

pub reverse_bits_lem : (l c : ℕ) → 0 < l → l ≤ 16 → c < 2 ^ l → reverse_bits l c ≡ reversed_bits l c
unfolding reverse_bits
reverse_bits_lem l c some h small =
    ap (λ (t : ℕ). t % 2 ^ 16)
      (ap₂ (λ (x p : ℕ). x / 2 ^ p)
          (ap₂ (λ (b r : ℕ). reverse_loop l l 4 b r) (omega arith) (reversed_nibble c)
            ∙ reverse_loop_lem l l 4 c h (omega arith) (omega (arith, some)) refl
                (omega (arith, some)))
          (bit_and_mask 2 (2 ^ 64 - l))
        ∙ reversed_bits-short l ((2 ^ 64 - l) % 4) c small)
    ∙ mod-pow-eq_of_lt (reversed_bits l c) 16
        (omega (arith, reversed_bits-lt l c, pow-le {a = l} {b = 16} h))

-- For lengths from 1 to 16 and codes of so many bits, the pattern that the encoder writes for a
-- code is the key under which the decoder enters it in its tables: four bits at a time on one
-- side and a byte at a time on the other, both give the bits of the code from the last to the first.
pub reverse_bits-key_of :
    (length code : ℕ)
    → 0 < length
    → length ≤ 16
    → code < 2 ^ length
    → reverse_bits length code ≡ key_of code length
reverse_bits-key_of l c some h small =
    reverse_bits_lem l c some h small ∙ sym (key_of_lem l c h small)

pub reversed_bits-injective :
    (n a b : ℕ) → a < 2 ^ n → b < 2 ^ n → reversed_bits n a ≡ reversed_bits n b → a ≡ b
unfolding reversed_bits
reversed_bits-injective zero a b ha hb e = omega (arith, ha, hb)
reversed_bits-injective (suc n) a b ha hb e = omega (
  arith,
  low,
  reversed_bits-injective n (a / 2) (b / 2) (omega (arith, ha, pow-step n))
      (omega (arith, hb, pow-step n)) (omega (arith, e, ap (λ (t : ℕ). t * 2 ^ n) low)),
)
  where
    low : a % 2 ≡ b % 2
    low =
        sym (pow-join n (a % 2) (reversed_bits n (a / 2)) (reversed_bits-lt n (a / 2))).0
        ∙ ap (λ (t : ℕ). t / 2 ^ n) (omega (arith, e))
        ∙ (pow-join n (b % 2) (reversed_bits n (b / 2)) (reversed_bits-lt n (b / 2))).0

-- A code that starts after the end of a shorter one has another key in the shorter length.
pub reversed_bits-apart :
    (l w c c' k : ℕ)
    → w ≤ l
    → c < 2 ^ w
    → k % 2 ^ w ≡ reversed_bits w c
    → c' < 2 ^ l
    → (c + 1) * 2 ^ (l - w) ≤ c'
    → k % 2 ^ l ≢ reversed_bits l c'
reversed_bits-apart l w c c' k h small e small' above e' = omega (
  arith,
  above,
  pow-split c' (l - w),
  mod-pow-lt c' (l - w),
  ap (λ (t : ℕ). 2 ^ (l - w) * t)
      (reversed_bits-injective w c (c' / 2 ^ (l - w)) small below (sym e ∙ cut)),
)
  where
    below : c' / 2 ^ (l - w) < 2 ^ w
    below = omega (
      arith,
      ap (λ (t : ℕ). t / 2 ^ (l - w)) (mod-pow-eq_of_lt c' l small'),
      mod-div-pow c' (l - w) l (omega arith),
      mod-pow-lt (c' / 2 ^ (l - w)) (l - (l - w)),
      ap (λ (n : ℕ). 2 ^ n) (let e : l - (l - w) ≡ w = omega (arith, h) in e),
    )

    cut : k % 2 ^ w ≡ reversed_bits w (c' / 2 ^ (l - w))
    cut =
        sym (mod-mod-pow k w l h)
        ∙ ap (λ (t : ℕ). t % 2 ^ w)
            (e'
              ∙ ap (λ (n : ℕ). reversed_bits n c') (let e : l ≡ l - w + w = omega (arith, h) in e)
              ∙ reversed_bits-add (l - w) w c'
              ∙ omega arith)
        ∙ (pow-join w (reversed_bits (l - w) c') (reversed_bits w (c' / 2 ^ (l - w)))
            (reversed_bits-lt w (c' / 2 ^ (l - w)))).1
