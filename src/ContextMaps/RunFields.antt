-- ===== src/ContextMaps/RunFields.antt =====
-- The packed words of src/shared/bitstream.rs: each has its extra bits within the
-- field that its symbol has.
use mbrotli.Common.{
  ℕ, zero, suc, ◌+◌, ◌-◌, ◌*◌, ◌/◌, ◌%◌, ◌^◌, ◌≤◌, ◌<◌, arith, ◌≡◌, ap, leb, ne→test, eq→test,
  lt→ltb, ge→ltb, true, false, List, [], ◌∷◌, ◌++◌, All, drop,
}
use mbrotli.Common.Pow.{pow-pos, pow-le, pow-step}
use native.Mathlib.Decide.{ℕ_discrete, dec_lt}
use mbrotli.Encoder.Log2.{log2_floor_non_zero, log2-bounds}
use mbrotli.ContextMaps.{run_words, zeros_ahead, code_loop, extra_width}

-- The extra bits of a packed word fit the bits that are written of them.
unfoldable pub IsField : ℕ → ℕ → Type 0
IsField p word = word / 2 ^ 9 < 2 ^ extra_width p (word % 2 ^ 9)

append-All : (P : ℕ → Type 0) (xs ys : List ℕ) → All P xs → All P ys → All P (xs ++ ys)
append-All P [] ys h k = k
append-All P (x ∷ xs) ys (h, hs) k = (h, append-All P xs ys hs k)

pub drop-All : (P : ℕ → Type 0) (n : ℕ) (v : List ℕ) → All P v → All P (drop n v)
drop-All P zero [] h = h
drop-All P zero (x ∷ xs) h = h
drop-All P (suc n) [] h = h
drop-All P (suc n) (x ∷ xs) (h, hs) = drop-All P n xs hs

module _ (p : ℕ) (narrow : p ≤ 16) where
  run-IsField :
      (symbol extra : ℕ) → symbol ≤ p → extra < 2 ^ symbol → IsField p (symbol + extra * 2 ^ 9)
  unfolding IsField extra_width
  run-IsField symbol extra le fit =
      let low : (symbol + extra * 2 ^ 9) % 2 ^ 9 ≡ symbol = omega (arith, narrow, le) in
      let high : (symbol + extra * 2 ^ 9) / 2 ^ 9 ≡ extra = omega (arith, narrow, le) in
      let t : leb symbol p ≡ true = ground arith in
      elim (ℕ_discrete symbol 0) [
        | yes e ↦ rw (low, high, eq→test symbol 0 e) (omega (arith, fit, ap (λ (k : ℕ). 2 ^ k) e))
        | no ne ↦ rw (low, high, ne→test symbol 0 ne, t) fit
      ]

  value-IsField : (x : ℕ) → 0 < x → x < 256 → IsField p (x + p)
  unfolding IsField extra_width
  value-IsField x some top =
      let low : (x + p) % 2 ^ 9 ≡ x + p = omega (arith, narrow, top) in
      let high : (x + p) / 2 ^ 9 ≡ 0 = omega (arith, narrow, top) in
      let t : leb (x + p) p ≡ false = ground arith in
      rw (low, high, ne→test (x + p) 0 (omega (arith, some)), t) (omega arith)

  pub log2-le : (reps : ℕ) → 0 < reps → reps < 2 * 2 ^ p → log2_floor_non_zero reps ≤ p
  log2-le reps some less = elim (dec_lt p (log2_floor_non_zero reps)) [
    | yes over ↦ absurd (
        omega (
          arith,
          less,
          log2-bounds reps some (omega (arith, less, pow-le {a = p} {b = 16} narrow)),
          pow-step p,
          pow-le {a = suc p} {b = log2_floor_non_zero reps} over,
        ))
    | no fine ↦ omega arith
  ]

  run_words-IsField : (fuel reps : ℕ) → All (IsField p) (run_words fuel p reps)
  unfolding run_words
  run_words-IsField zero reps = tt
  run_words-IsField (suc fuel) reps = elim (ℕ_discrete reps 0) [
    | yes e ↦ rw (eq→test reps 0 e) tt
    | no ne ↦ elim (dec_lt reps (2 * 2 ^ p)) [
      | yes less ↦
          let b =
            log2-bounds reps (omega arith) (omega (arith, less, pow-le {a = p} {b = 16} narrow)) in
          rw (ne→test reps 0 ne, lt→ltb reps (2 * 2 ^ p) less)
            (
              run-IsField (log2_floor_non_zero reps) (reps - 2 ^ log2_floor_non_zero reps)
                  (log2-le reps (omega arith) less)
                  (omega (arith, b, pow-step (log2_floor_non_zero reps))),
              tt,
            )
      | no more ↦
          rw (ne→test reps 0 ne, ge→ltb reps (2 * 2 ^ p) (omega arith))
            (
              run-IsField p (2 ^ p - 1) (omega arith) (omega (arith, pow-pos p)),
              run_words-IsField fuel (reps - (2 * 2 ^ p - 1)),
            )
    ]
  ]

  pub code_loop-IsField :
      (fuel : ℕ) (v : List ℕ) → All (λ x. x < 256) v → All (IsField p) (code_loop fuel p v)
  unfolding code_loop
  code_loop-IsField zero v h = tt
  code_loop-IsField (suc fuel) [] h = tt
  code_loop-IsField (suc fuel) (x ∷ xs) (h, hs) = elim (ℕ_discrete x 0) [
    | yes e ↦ rw (eq→test x 0 e) (
        append-All (IsField p) (run_words (1 + zeros_ahead xs) p (1 + zeros_ahead xs))
          (code_loop fuel p (drop (zeros_ahead xs) xs))
          (run_words-IsField (1 + zeros_ahead xs) (1 + zeros_ahead xs))
          (code_loop-IsField fuel (drop (zeros_ahead xs) xs)
            (drop-All (λ x. x < 256) (zeros_ahead xs) xs hs)))
    | no ne ↦ rw (ne→test x 0 ne) (value-IsField x (omega arith) h, code_loop-IsField fuel xs hs)
  ]
