-- ===== src/Prefix/CodeLengths/Rows.antt =====
-- The loop over the lengths reads a row of them.
use mbrotli.Common.{
  ℕ, zero, suc, ◌+◌, ◌-◌, ◌*◌, ◌/◌, ◌^◌, ◌≤◌, ◌<◌, arith, ltb, ◌&&◌, ◌≡◌, ◌∙◌, sym, ap, Bool, true,
  false, List,
}
use mbrotli.Common.Pow.{pow-add, pow-join, div-div-pow}
use mbrotli.Decoder.Bits.Position.{Origin, from, size, text}
use mbrotli.Decoder.Bits.Calls.{
  Runs, Runs-bind, Runs-drop, Runs-pure, Runs-true, Runs-false, Runs-weaken, Runs-at,
}
use mbrotli.Encoder.Writer.Sequences.{Field, width, pack}
use mbrotli.Prefix.CodeLengths.{Small, take_value, lengths_loop, is_positive}
use mbrotli.Prefix.CodeLengths.Values.{
  placed, value_field, value_fields, value_field-IsField, value_code-Runs,
}

abbrev pub goes : Small → Bool
goes s = ltb s.index 18 && is_positive s.space

-- The stage after `n` of the lengths, from a place in the order on.
abbrev pub advance : ℕ → ℕ → List ℕ → Small → Small
advance zero i depths s = s
advance (suc n) i depths s = advance n (suc i) depths (take_value (placed depths i) s)

module _ (o : Origin) (depths : List ℕ) (fine : (i : ℕ) → placed depths i ≤ 5) where
  pub lengths_loop-Runs :
      (n fuel d b i rest : ℕ) (s : Small)
      → n ≤ fuel
      → ((m : ℕ) → m < n → goes (advance m i depths s) ≡ true)
      → goes (advance n i depths s) ≡ false
      → from o d ≡ pack (value_fields depths n i) + 2 ^ width (value_fields depths n i) * rest
      → d + width (value_fields depths n i) ≤ size o
      → Runs o d b
          (lengths_loop fuel s)
          (advance n i depths s)
          (d + width (value_fields depths n i))
          0
  unfolding lengths_loop width pack
  lengths_loop-Runs zero zero d b i rest s le runs stops e room =
      Runs-at o (omega arith) (Runs-weaken o b (Runs-pure o d b s))
  lengths_loop-Runs zero (suc fuel) d b i rest s le runs stops e room =
      Runs-at o (omega arith) (Runs-false o _ stops (Runs-weaken o b (Runs-pure o d b s)))
  lengths_loop-Runs (suc n) zero d b i rest s le runs stops e room = absurd (omega (arith, le))
  lengths_loop-Runs (suc n) (suc fuel) d b i rest s le runs stops e room =
      Runs-true o _ (runs 0 (omega arith)) (
        Runs-bind _
          (value_code-Runs o d b (pack fs + 2 ^ width fs * rest) l (fine i) here
            (omega (arith, room)))
          (Runs-bind _ (Runs-drop o d k k (omega arith)) (
            Runs-at o (omega arith) (
              lengths_loop-Runs n fuel (d + k) (k - k) (suc i) rest (take_value l s)
                (omega (arith, le)) (λ m lt. runs (suc m) (omega (arith, lt))) stops after
                (omega (arith, room))))))
    where
      l : ℕ
      l = placed depths i

      k : ℕ
      k = (value_field l).0

      v : ℕ
      v = (value_field l).1

      fs : List Field
      fs = value_fields depths n (suc i)

      here : from o d ≡ v + 2 ^ k * (pack fs + 2 ^ width fs * rest)
      here = omega (arith, e, ap (λ (t : ℕ). t * rest) (pow-add k (width fs)))

      after : from o (d + k) ≡ pack fs + 2 ^ width fs * rest
      after =
          sym (div-div-pow (text o) d k)
          ∙ ap (λ (t : ℕ). t / 2 ^ k) here
          ∙ (pow-join k (pack fs + 2 ^ width fs * rest) v (value_field-IsField l (fine i)).0.1).0
