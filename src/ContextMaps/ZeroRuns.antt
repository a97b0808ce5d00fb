-- ===== src/ContextMaps/ZeroRuns.antt =====
-- The decoder's entries give back the values whose runs of zeros the encoder coded.
use mbrotli.Common.{ℕ, zero, suc, ◌+◌, ◌-◌, ◌*◌, ◌/◌, ◌%◌, ◌^◌, ◌≤◌, ◌<◌, arith}
use mbrotli.Common.{
  ◌≡◌, ◌≢◌, refl, sym, ap, ap₂, ◌∙◌, true, false, leb, eq→test, ne→test, lt→ltb, ge→ltb,
}
use mbrotli.Common.{
  List, [], ◌∷◌, ◌++◌, All, drop, length, replicate, length-append, append_assoc, append-nil,
}
use mbrotli.Common.Pow.{pow-pos, pow-le}
use native.Mathlib.Decide.{ℕ_discrete, dec_lt}
use mbrotli.Encoder.Log2.{log2_floor_non_zero, log2-bounds}
use mbrotli.ContextMaps.RunFields.{IsField, drop-All, log2-le, code_loop-IsField}
use mbrotli.ContextMaps.{
  run_words, zeros_ahead, code_loop, run_length_code_zeros, max_prefix, Entries, values, failed,
  entry, entries,
}

abbrev zeros : ℕ → List ℕ
zeros n = replicate n 0

zeros-add : (a b : ℕ) → zeros a ++ zeros b ≡ zeros (a + b)
zeros-add zero b = ap zeros (omega arith)
zeros-add (suc a) b =
    ap (λ (t : List ℕ). 0 ∷ t) (zeros-add a b)
    ∙ ap zeros (let e : suc (a + b) ≡ suc a + b = omega arith in e)

length-zeros : (n : ℕ) → length (zeros n) ≡ n
length-zeros zero = refl
length-zeros (suc n) = ap suc (length-zeros n)

module _ (p trees size : ℕ) (narrow : p ≤ 16) (some : 0 < trees) where
  -- A word of zeros.
  entry-zeros :
      (v : List ℕ) (symbol extra reps : ℕ)
      → symbol ≤ p
      → (symbol ≡ 0 → extra ≡ 0)
      → 2 ^ symbol + extra ≡ reps
      → length v + reps ≤ size
      → entry p trees size v symbol extra ≡ values (v ++ zeros reps)
  unfolding entry
  entry-zeros v symbol extra reps le plain total room = elim (ℕ_discrete symbol 0) [
    | yes e ↦
        let one : reps ≡ 1 = omega (arith, total, plain e, ap (λ (t : ℕ). 2 ^ t) e) in
        let t : leb trees 0 ≡ false = ground arith in rw (eq→test symbol 0 e, t, one) refl
    | no ne ↦
        let t : leb symbol p ≡ true = ground arith in
        rw
          (
            ne→test symbol 0 ne,
            t,
            ge→ltb size (length v + 2 ^ symbol + extra) (omega (arith, total, room)),
          )
          (ap (λ (n : ℕ). values (v ++ zeros n)) (omega (arith, total)))
  ]

  entries-zeros :
      (v rest : List ℕ) (symbol extra reps : ℕ)
      → symbol ≤ p
      → (symbol ≡ 0 → extra ≡ 0)
      → 2 ^ symbol + extra ≡ reps
      → length v + reps ≤ size
      → entries p trees size v ((symbol + extra * 2 ^ 9) ∷ rest)
        ≡ entries p trees size (v ++ zeros reps) rest
  unfolding entries
  entries-zeros v rest symbol extra reps le plain total room =
      ap
        (λ (r : Entries). elim r [ values v' ↦ entries p trees size v' rest | failed e ↦ failed e ])
        (ap₂ (entry p trees size v)
            (let e : (symbol + extra * 2 ^ 9) % 2 ^ 9 ≡ symbol = omega (arith, narrow, le) in e)
            (let e : (symbol + extra * 2 ^ 9) / 2 ^ 9 ≡ extra = omega (arith, narrow, le) in e)
          ∙ entry-zeros v symbol extra reps le plain total room)

  entries-run_words :
      (fuel reps : ℕ) (v rest : List ℕ)
      → reps ≤ fuel
      → length v + reps ≤ size
      → entries p trees size v (run_words fuel p reps ++ rest)
        ≡ entries p trees size (v ++ zeros reps) rest
  unfolding run_words
  entries-run_words zero reps v rest h room =
      let e : reps ≡ 0 = omega arith in
      rw e (ap (λ (t : List ℕ). entries p trees size t rest) (sym (append-nil v)))
  entries-run_words (suc fuel) reps v rest h room = elim (ℕ_discrete reps 0) [
    | yes e ↦ rw e (ap (λ (t : List ℕ). entries p trees size t rest) (sym (append-nil v)))
    | no ne ↦ elim (dec_lt reps (2 * 2 ^ p)) [
      | yes less ↦
          let b =
            log2-bounds reps (omega arith) (omega (arith, less, pow-le {a = p} {b = 16} narrow)) in
          rw (ne→test reps 0 ne, lt→ltb reps (2 * 2 ^ p) less)
            (entries-zeros v rest (log2_floor_non_zero reps) (reps - 2 ^ log2_floor_non_zero reps)
              reps (log2-le p narrow reps (omega arith) less) (alone b) (omega (arith, b)) room)
      | no more ↦
          let cut : ℕ = 2 * 2 ^ p - 1 in
          rw (ne→test reps 0 ne, ge→ltb reps (2 * 2 ^ p) (omega arith))
            (entries-zeros v (run_words fuel p (reps - cut) ++ rest) p (2 ^ p - 1) cut (omega arith)
                (λ z. omega (arith, ap (λ (t : ℕ). 2 ^ t) z)) (omega (arith, pow-pos p))
                (omega arith)
              ∙ entries-run_words fuel (reps - cut) (v ++ zeros cut) rest (omega (arith, pow-pos p))
                  (omega (arith, length-append v (zeros cut), length-zeros cut, pow-pos p))
              ∙ ap (λ (t : List ℕ). entries p trees size t rest)
                  (append_assoc v (zeros cut) (zeros (reps - cut))
                    ∙ ap (λ (t : List ℕ). v ++ t) (zeros-add cut (reps - cut))
                    ∙ ap (λ (n : ℕ). v ++ zeros n) (omega arith)))
    ]
  ]
    where
      alone :
          (2 ^ log2_floor_non_zero reps ≤ reps) × (reps < 2 ^ suc (log2_floor_non_zero reps))
          → log2_floor_non_zero reps ≡ 0
          → reps - 2 ^ log2_floor_non_zero reps ≡ 0
      alone b z = omega (arith, b, ap (λ (t : ℕ). 2 ^ suc t) z, ap (λ (t : ℕ). 2 ^ t) z)

  -- A word of a value other than zero.
  entry_value :
      (v : List ℕ) (x : ℕ)
      → x ≢ 0
      → x < trees
      → trees ≤ 256
      → entry p trees size v (x + p) 0 ≡ values (v ++ (x ∷ []))
  unfolding entry
  entry_value v x ne low top =
      let a : leb (x + p) p ≡ false = ground arith in
      let b : leb trees (x + p - p) ≡ false = ground arith in
      rw (ne→test (x + p) 0 (omega arith), a, b)
        (ap (λ (t : ℕ). values (v ++ (t ∷ []))) (omega arith))

  entries_value :
      (v rest : List ℕ) (x : ℕ)
      → x ≢ 0
      → x < trees
      → trees ≤ 256
      → entries p trees size v ((x + p) ∷ rest) ≡ entries p trees size (v ++ (x ∷ [])) rest
  unfolding entries
  entries_value v rest x ne low top =
      ap
        (λ (r : Entries). elim r [ values v' ↦ entries p trees size v' rest | failed e ↦ failed e ])
        (ap₂ (entry p trees size v)
            (let e : (x + p) % 2 ^ 9 ≡ x + p = omega (arith, narrow, low, top) in e)
            (let e : (x + p) / 2 ^ 9 ≡ 0 = omega (arith, narrow, low, top) in e)
          ∙ entry_value v x ne low top)

zeros-drop : (v : List ℕ) → zeros (zeros_ahead v) ++ drop (zeros_ahead v) v ≡ v
unfolding zeros_ahead
zeros-drop [] = refl
zeros-drop (x ∷ xs) = elim (ℕ_discrete x 0) [
  | yes e ↦ rw e (ap (λ (t : List ℕ). 0 ∷ t) (zeros-drop xs))
  | no ne ↦ rw (ne→test x 0 ne) refl
]

module _ (p trees size : ℕ) (narrow : p ≤ 16) (some : 0 < trees) (top : trees ≤ 256) where
  entries-code_loop :
      (fuel : ℕ) (v acc : List ℕ)
      → length v ≤ fuel
      → length acc + length v ≤ size
      → All (λ x. x < trees) v
      → entries p trees size acc (code_loop fuel p v) ≡ values (acc ++ v)
  unfolding code_loop entries
  entries-code_loop zero [] acc h room all = ap values (sym (append-nil acc))
  entries-code_loop zero (x ∷ xs) acc h room all = elim h [ ]
  entries-code_loop (suc fuel) [] acc h room all = ap values (sym (append-nil acc))
  entries-code_loop (suc fuel) (x ∷ xs) acc h room (ok, all) = elim (ℕ_discrete x 0) [
    | yes e ↦
        let z : ℕ = zeros_ahead xs in
        let parts = zeros-drop xs in
        let sizes : length xs ≡ z + length (drop z xs) =
          omega (arith, ap length parts, length-append (zeros z) (drop z xs), length-zeros z) in
        rw (eq→test x 0 e) (
          entries-run_words p trees size narrow some (1 + z) (1 + z) acc
            (code_loop fuel p (drop z xs)) (omega arith) (omega (arith, room, sizes))
          ∙ entries-code_loop fuel (drop z xs) (acc ++ zeros (1 + z)) (omega (arith, h, sizes))
              (omega (arith, room, sizes, length-append acc (zeros (1 + z)), length-zeros (1 + z)))
              (drop-All (λ x. x < trees) z xs all)
          ∙ ap values (
              append_assoc acc (zeros (1 + z)) (drop z xs)
              ∙ ap (λ (t : List ℕ). acc ++ t)
                  (sym (ap (λ (t : List ℕ). t ++ drop z xs) (zeros-add 1 z))
                    ∙ ap₂ (λ (t : ℕ) (ts : List ℕ). t ∷ ts) (sym e) parts)))
    | no ne ↦ rw (ne→test x 0 ne) (
        entries_value p trees size narrow some acc (code_loop fuel p xs) x ne ok top
        ∙ entries-code_loop fuel xs (acc ++ (x ∷ [])) (omega (arith, h))
            (omega (arith, room, length-append acc (x ∷ []))) all
        ∙ ap values (append_assoc acc (x ∷ []) xs))
  ]

below_256 : (trees : ℕ) (v : List ℕ) → trees ≤ 256 → All (λ x. x < trees) v → All (λ x. x < 256) v
below_256 trees [] top h = tt
below_256 trees (x ∷ xs) top (h, hs) = (omega (arith, h, top), below_256 trees xs top hs)

-- For a map of values below the number of trees, of 256 trees at most, and a limit of 16 at most:
-- the decoder's entries, on the words that the encoder packed and with the prefix that it chose,
-- give back the values and no error. The extra bits of every word fit the width that its symbol
-- has: as many bits as its number up to the prefix, and none above it.
pub entries-run_length_code_zeros :
    (v : List ℕ) (limit trees : ℕ)
    → limit ≤ 16
    → 0 < trees
    → trees ≤ 256
    → All (λ x. x < trees) v
    → (entries
          (run_length_code_zeros v limit).1
          trees
          (length v)
          []
          (run_length_code_zeros v limit).0
        ≡ values v)
      × All (IsField (run_length_code_zeros v limit).1) (run_length_code_zeros v limit).0
unfolding run_length_code_zeros max_prefix
entries-run_length_code_zeros v limit trees h some top all = (
  entries-code_loop (max_prefix v limit) trees (length v) (omega arith) some top (length v) v []
      (omega arith) (omega arith) all,
  code_loop-IsField (max_prefix v limit) (omega arith) (length v) v (below_256 trees v top all),
)
