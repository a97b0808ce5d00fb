-- ===== src/Encoder/Header/Fields.antt =====
-- The headers as the fields that they write.
use mbrotli.Common.{ℕ, suc, ◌+◌, ◌-◌, ◌*◌, ◌^◌, ◌≤◌, ◌<◌, arith}
use mbrotli.Common.{◌≡◌, ◌≢◌, refl, List, [], ◌∷◌, ◌++◌, Bool, true, false, All, ◌⊎◌, inl, inr}
use mbrotli.Common.{◌==◌, if◌then◌else◌, ne→test, eq→test}
use mbrotli.Common.Pow.{pow-le, pow-step}
use native.Mathlib.Decide.{dec_lt, ℕ_discrete}
use mbrotli.Encoder.Log2.{log2_floor_non_zero, log2-bounds}
use mbrotli.Encoder.Writer.{BitWriter}
use mbrotli.Encoder.Writer.Sequences.{Field, IsField, write_all}
use mbrotli.Encoder.Header.{store_var_len_uint8, encode_mlen, store_compressed_meta_block_header}
use mbrotli.Encoder.Header.{store_uncompressed_meta_block_header}

-- The fields of a variable-length number.
unfoldable pub uint8_fields : ℕ → List Field
uint8_fields n =
    if n == 0
    then (1, 0) ∷ []
    else (1, 1)
      ∷ (3, log2_floor_non_zero n)
      ∷ (log2_floor_non_zero n, n - 2 ^ log2_floor_non_zero n)
      ∷ []

pub store_var_len_uint8-fields :
    (n : ℕ) (w : BitWriter) → store_var_len_uint8 n w ≡ write_all (uint8_fields n) w
unfolding store_var_len_uint8 uint8_fields write_all
store_var_len_uint8-fields n w = ground arith

-- A number below 256 has a logarithm of three bits, and a remainder that fits it.
pub uint8_parts :
    (n : ℕ)
    → n < 256
    → n ≢ 0
    → (log2_floor_non_zero n < 8)
      × (2 ^ log2_floor_non_zero n ≤ n)
      × (n - 2 ^ log2_floor_non_zero n < 2 ^ log2_floor_non_zero n)
uint8_parts n h ne =
    let (lo, hi) = log2-bounds n (omega arith) (omega arith) in
    let small : log2_floor_non_zero n < 8 = elim (dec_lt (log2_floor_non_zero n) 8) [
      | yes p ↦ p
      | no p ↦ absurd (omega (arith, lo, pow-le {a = 8} {b = log2_floor_non_zero n} (omega arith)))
    ] in
    (small, lo, omega (arith, hi, pow-step (log2_floor_non_zero n)))

pub uint8_fields-IsField : (n : ℕ) → n < 256 → All IsField (uint8_fields n)
unfolding uint8_fields
uint8_fields-IsField n h = elim (ℕ_discrete n 0) [
  | yes e ↦ rw (eq→test n 0 e) (omega arith)
  | no ne ↦ let (a, b, c) = uint8_parts n h ne in rw (ne→test n 0 ne) (omega (arith, a, c))
]

-- For every length from 1 to 2^24, `encode_mlen` gives four, five or six nibbles, the length
-- less one fits them, and it does not fit one nibble less unless there are four.
pub encode_mlen-cases :
    (length : ℕ)
    → 0 < length
    → length ≤ 2 ^ 24
    → (nb : ℕ) × (nb ≤ 2)
      × (encode_mlen length ≡ (nb, (nb + 4) * 4, length - 1))
      × (length - 1 < 2 ^ ((nb + 4) * 4))
      × ((nb ≡ 0) ⊎ (2 ^ ((nb + 3) * 4) ≤ length - 1))
unfolding encode_mlen
encode_mlen-cases length pos h = elim (dec_lt (length - 1) (2 ^ 16)) [
  | yes short ↦ (0, omega arith, ground (arith, below 16 short), short, inl refl)
  | no over ↦ elim (dec_lt (length - 1) (2 ^ 20)) [
    | yes middle ↦ (
      1,
      omega arith,
      ground (arith, below 20 middle, above 16 (omega arith)),
      middle,
      inr (omega arith),
    )
    | no more ↦ (
      2,
      omega arith,
      ground (arith, below 24 (omega arith), above 20 (omega arith)),
      omega arith,
      inr (omega arith),
    )
  ]
]
  where
    below : (k : ℕ) → length - 1 < 2 ^ k → length ≢ 1 → log2_floor_non_zero (length - 1) < k
    below k lt ne = elim (dec_lt (log2_floor_non_zero (length - 1)) k) [
      | yes p ↦ p
      | no p ↦ absurd (
          omega (
            arith,
            log2-bounds (length - 1) (omega arith) (omega arith),
            pow-le {a = k} {b = log2_floor_non_zero (length - 1)} (omega arith),
          ))
    ]

    above : (k : ℕ) → 2 ^ k ≤ length - 1 → length ≢ 1 → k ≤ log2_floor_non_zero (length - 1)
    above k le ne = elim (dec_lt (log2_floor_non_zero (length - 1)) k) [
      | yes p ↦ absurd (
          omega (
            arith,
            log2-bounds (length - 1) (omega arith) (omega arith),
            pow-le {a = suc (log2_floor_non_zero (length - 1))} {b = k} p,
          ))
      | no p ↦ omega arith
    ]

-- The fields of the meta-block headers.
unfoldable pub mlen_fields : ℕ → List Field
mlen_fields length = let (nb, nl, lb) = encode_mlen length in (2, nb) ∷ (nl, lb) ∷ []

unfoldable pub compressed_fields : Bool → ℕ → List Field
compressed_fields true length = (1, 1) ∷ (1, 0) ∷ mlen_fields length
compressed_fields false length = (1, 0) ∷ (mlen_fields length ++ ((1, 0) ∷ []))

unfoldable pub uncompressed_fields : ℕ → List Field
uncompressed_fields length = (1, 0) ∷ (mlen_fields length ++ ((1, 1) ∷ []))

pub compressed-fields :
    (last : Bool) (length : ℕ) (w : BitWriter)
    → store_compressed_meta_block_header last length w ≡ write_all (compressed_fields last length) w
unfolding store_compressed_meta_block_header compressed_fields mlen_fields write_all
compressed-fields true length w = refl
compressed-fields false length w = refl

pub uncompressed-fields :
    (length : ℕ) (w : BitWriter)
    → store_uncompressed_meta_block_header length w ≡ write_all (uncompressed_fields length) w
unfolding store_uncompressed_meta_block_header uncompressed_fields mlen_fields write_all
uncompressed-fields length w = refl
