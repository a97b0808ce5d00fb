-- ===== src/Prefix/CodeLengths/Values.antt =====
-- One length of the code-length code, written and read, and a row of them.
use mbrotli.Common.{
  ℕ, zero, suc, ◌+◌, ◌*◌, ◌%◌, ◌^◌, ◌≤◌, arith, ◌==◌, ◌≡◌, refl, ap, Bool, true, false, List, [],
  ◌∷◌, get_or, if◌then◌else◌, eq→test, ne→test,
}
use mbrotli.Decoder.Bits.Position.{Origin, from, size}
use mbrotli.Decoder.Bits.{◌>>=◌, pure, peek}
use mbrotli.Decoder.Bits.Calls.{
  Runs, Runs-bind, Runs-peek, Runs-pure, Runs-true, Runs-false, Runs-eq,
}
use mbrotli.Encoder.Writer.{BitWriter, write}
use mbrotli.Encoder.Writer.Sequences.{Field, IsField, write_all}
use mbrotli.Prefix.CodeLengths.{
  value_code, order, code_length_huffman_symbols, code_length_huffman_depths, store_lengths,
}

-- The length of the symbol at a place in the order.
abbrev pub placed : List ℕ → ℕ → ℕ
placed depths i = get_or depths (get_or order i 0) 0

abbrev pub value_field : ℕ → Field
value_field l = (get_or code_length_huffman_depths l 0, get_or code_length_huffman_symbols l 0)

abbrev pub value_fields : List ℕ → ℕ → ℕ → List Field
value_fields depths zero i = []
value_fields depths (suc n) i = value_field (placed depths i) ∷ value_fields depths n (suc i)

pub store_lengths-fields :
    (n i : ℕ) (depths : List ℕ) (w : BitWriter)
    → store_lengths n i depths w ≡ write_all (value_fields depths n i) w
unfolding store_lengths write_all
store_lengths-fields zero i depths w = refl
store_lengths-fields (suc n) i depths w =
    store_lengths-fields n (suc i) depths
      (write (value_field (placed depths i)).0 (value_field (placed depths i)).1 w)

-- The field of a length up to 5.
pub value_field-IsField : (l : ℕ) → l ≤ 5 → IsField (value_field l) × ((value_field l).0 ≤ 4)
value_field-IsField zero h = omega arith
value_field-IsField (suc zero) h = omega arith
value_field-IsField (suc (suc zero)) h = omega arith
value_field-IsField (suc (suc (suc zero))) h = omega arith
value_field-IsField (suc (suc (suc (suc zero)))) h = omega arith
value_field-IsField (suc (suc (suc (suc (suc zero))))) h = omega arith
value_field-IsField (suc (suc (suc (suc (suc (suc l)))))) h = absurd (omega (arith, h))

module _ (o : Origin) (d b rest : ℕ) where
  test : (k : ℕ) → (from o d % 2 ^ 2 ≡ k → ⊥) → (from o d % 2 ^ 2 == k) ≡ false
  test k ne = ne→test (from o d % 2 ^ 2) k ne

  -- A code that starts with two bits that are set.
  long :
      {k : ℕ} {l : ℕ × ℕ}
      → d + 2 ≤ size o
      → from o d % 2 ^ 2 ≡ 3
      → Runs o d 2
          (peek 3 >>= λ next.
            if next == 3
            then pure (3, 2)
            else (peek 4 >>= λ last. pure (4, if last == 7 then 1 else 5)))
          l
          d
          k
      → Runs o d b value_code l d k
  unfolding value_code
  long room e r = Runs-bind _ (Runs-peek o d b 2 (omega arith) room) (
      Runs-false o _ (test 0 (λ z. omega (arith, e, z))) (
        Runs-false o _ (test 1 (λ z. omega (arith, e, z)))
          (Runs-false o _ (test 2 (λ z. omega (arith, e, z))) r)))

  -- The reader finds the width and the value of the field.
  pub value_code-Runs :
      (l : ℕ)
      → l ≤ 5
      → from o d ≡ (value_field l).1 + 2 ^ (value_field l).0 * rest
      → d + (value_field l).0 ≤ size o
      → Runs o d b value_code ((value_field l).0, l) d (value_field l).0
  unfolding value_code
  value_code-Runs zero h e room = Runs-bind _ (Runs-peek o d b 2 (omega arith) room) (
      Runs-true o _ (let t : (from o d % 2 ^ 2 == 0) ≡ true = eq→test _ 0 (omega (arith, e)) in t)
        (Runs-pure o d 2 (2, 0)))
  value_code-Runs (suc (suc (suc (suc zero)))) h e room =
      Runs-bind _ (Runs-peek o d b 2 (omega arith) room) (
        Runs-false o _ (test 0 (λ z. omega (arith, e, z))) (
          Runs-true o _
            (let t : (from o d % 2 ^ 2 == 1) ≡ true = eq→test _ 1 (omega (arith, e)) in t)
            (Runs-pure o d 2 (2, 4))))
  value_code-Runs (suc (suc (suc zero))) h e room =
      Runs-bind _ (Runs-peek o d b 2 (omega arith) room) (
        Runs-false o _ (test 0 (λ z. omega (arith, e, z))) (
          Runs-false o _ (test 1 (λ z. omega (arith, e, z))) (
            Runs-true o _
              (let t : (from o d % 2 ^ 2 == 2) ≡ true = eq→test _ 2 (omega (arith, e)) in t)
              (Runs-pure o d 2 (2, 3)))))
  value_code-Runs (suc (suc zero)) h e room = long (omega (arith, room)) (omega (arith, e)) (
      Runs-bind _ (Runs-peek o d 2 3 (omega arith) room) (
        Runs-true o _ (let t : (from o d % 2 ^ 3 == 3) ≡ true = eq→test _ 3 (omega (arith, e)) in t)
          (Runs-pure o d 3 (3, 2))))
  value_code-Runs (suc zero) h e room = long (omega (arith, room)) (omega (arith, e)) (
      Runs-bind _ (Runs-peek o d 2 3 (omega arith) (omega (arith, room))) (
        Runs-false o _
          (let t : (from o d % 2 ^ 3 == 3) ≡ false = ne→test _ 3 (λ z. omega (arith, e, z)) in t)
          (Runs-bind _ (Runs-peek o d 3 4 (omega arith) room) (
            Runs-eq o
              (ap (λ (t : Bool). (4, if t then 1 else 5))
                (let t : (from o d % 2 ^ 4 == 7) ≡ true = eq→test _ 7 (omega (arith, e)) in t))
              (Runs-pure o d 4 (4, if from o d % 2 ^ 4 == 7 then 1 else 5))))))
  value_code-Runs (suc (suc (suc (suc (suc zero))))) h e room =
      long (omega (arith, room)) (omega (arith, e)) (
        Runs-bind _ (Runs-peek o d 2 3 (omega arith) (omega (arith, room))) (
          Runs-false o _
            (let t : (from o d % 2 ^ 3 == 3) ≡ false = ne→test _ 3 (λ z. omega (arith, e, z)) in t)
            (Runs-bind _ (Runs-peek o d 3 4 (omega arith) room) (
              Runs-eq o
                (ap (λ (t : Bool). (4, if t then 1 else 5))
                  (let t : (from o d % 2 ^ 4 == 7) ≡ false =
                      ne→test _ 7 (λ z. omega (arith, e, z)) in
                    t))
                (Runs-pure o d 4 (4, if from o d % 2 ^ 4 == 7 then 1 else 5))))))
  value_code-Runs (suc (suc (suc (suc (suc (suc l)))))) h e room = absurd (omega (arith, h))
