-- ===== src/Blocks/Lengths.antt =====
-- Block lengths: every length lies in its code's range, and the decoder reads it back.
use mbrotli.Common.{ℕ, zero, suc, ◌+◌, ◌-◌, ◌^◌, ◌≤◌, ◌<◌, arith}
use mbrotli.Common.{◌≡◌, refl, true, leb, ◌==◌, Bool-cases, inl, inr}
use mbrotli.Common.{all_below, all_below_sound, eq_of_test, lt→ltb, ge→ltb, ◌⊎◌}
use native.Mathlib.Decide.{dec_lt}
use mbrotli.Blocks.{
  range, search_code, block_length_prefix_code, block_length_code, Block, start_length,
}

-- What the search keeps, and what holds where it stops.
search_code-bounds :
    (fuel code len : ℕ)
    → code ≤ 25
    → 25 ≤ code + fuel
    → (range code).0 ≤ len
    → (search_code fuel code len ≤ 25)
      × ((range (search_code fuel code len)).0 ≤ len)
      × ((search_code fuel code len ≡ 25) ⊎ (len < (range (search_code fuel code len + 1)).0))
unfolding search_code
search_code-bounds zero code len c f h = (c, h, inl (omega arith))
search_code-bounds (suc fuel) code len c f h = elim (dec_lt code 25) [
  | yes more ↦ elim (Bool-cases (leb (range (code + 1)).0 len)) [
    | inl e ↦
        let reached : (range (code + 1)).0 ≤ len = ground arith in
        rw (lt→ltb code 25 more, e)
          (search_code-bounds fuel (code + 1) len (omega arith) (omega arith) reached)
    | inr e ↦
        let short : len < (range (code + 1)).0 = ground arith in
        rw (lt→ltb code 25 more, e) (c, h, inr short)
  ]
  | no last ↦ rw (ge→ltb code 25 (omega arith)) (c, h, inl (omega arith))
]

contiguous : all_below 25 (λ k. (range (k + 1)).0 == (range k).0 + 2 ^ (range k).1) ≡ true
contiguous = refl

start-bounds :
    (len : ℕ)
    → 0 < len
    → (block_length_prefix_code len ≤ 25)
      × ((range (block_length_prefix_code len)).0 ≤ len)
      × ((block_length_prefix_code len ≡ 25) ⊎ (len < (range (block_length_prefix_code len + 1)).0))
unfolding block_length_prefix_code
start-bounds len pos = elim (Bool-cases (leb 177 len)) [
  | inl a ↦ elim (Bool-cases (leb 753 len)) [
    | inl b ↦ rw (a, b) (search_code-bounds 26 20 len (omega arith) (omega arith) (ground arith))
    | inr b ↦ rw (a, b) (search_code-bounds 26 14 len (omega arith) (omega arith) (ground arith))
  ]
  | inr a ↦ elim (Bool-cases (leb 41 len)) [
    | inl b ↦ rw (a, b) (search_code-bounds 26 7 len (omega arith) (omega arith) (ground arith))
    | inr b ↦ rw (a, b) (search_code-bounds 26 0 len (omega arith) (omega arith) pos)
  ]
]

-- Every block length from 1 to 16624 + 2^24 gets one of the 26 codes, with extra bits that fit
-- the code's width, and the decoder's block starts with that length again.
pub start_length-block_length_code :
    (len : ℕ) (b : Block)
    → 0 < len
    → len < 16625 + 2 ^ 24
    → ((block_length_code len).0 < 26)
      × ((block_length_code len).1 ≡ (range (block_length_code len).0).1)
      × ((block_length_code len).2 < 2 ^ (block_length_code len).1)
      × ((start_length (block_length_code len).0 (block_length_code len).2 b).remaining ≡ len)
unfolding block_length_code start_length
start_length-block_length_code len b pos top =
    let (small, lo, hi) = start-bounds len pos in
    (omega (arith, small), refl, fits small lo hi, omega (arith, lo))
  where
    code : ℕ
    code = block_length_prefix_code len

    fits :
        code ≤ 25
        → (range code).0 ≤ len
        → (code ≡ 25) ⊎ (len < (range (code + 1)).0)
        → len - (range code).0 < 2 ^ (range code).1
    fits small lo (inl last) = rw last (omega (arith, top))
    fits small lo (inr hi) = elim (dec_lt code 25) [
      | yes less ↦ omega (
        arith,
        hi,
        lo,
        eq_of_test _ _ (
            all_below_sound 25 (λ k. (range (k + 1)).0 == (range k).0 + 2 ^ (range k).1) code
              contiguous less),
      )
      | no more ↦ rw (let e : code ≡ 25 = omega (arith, small) in e) (omega (arith, top))
    ]
