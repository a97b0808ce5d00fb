-- ===== src/Encoder/Header/RoundTrip.antt =====
-- The decoder reads the headers that the encoder writes.
use mbrotli.Common.{ℕ, ◌+◌, ◌-◌, ◌*◌, ◌/◌, ◌%◌, ◌^◌, ◌≤◌, ◌<◌, arith}
use mbrotli.Common.{◌≡◌, sym, ap, ap₂, ◌∙◌, List, All, inl, inr, length}
use mbrotli.Common.{eq→test, ne→test}
use mbrotli.Common.Pow.{pow-join, mod-div-pow, pow-add}
use mbrotli.Common.Bytes.{IsByte}
use native.Mathlib.Decide.{ℕ_discrete}
use mbrotli.Encoder.Log2.{log2_floor_non_zero}
use mbrotli.Encoder.Writer.{BitWriter}
use mbrotli.Encoder.Writer.Fields.{IsWritten}
use mbrotli.Encoder.Writer.Sequences.{
  Field, width, pack, write_all, over, from-written, write_all-IsWritten,
}
use mbrotli.Encoder.Header.{store_var_len_uint8}
use mbrotli.Encoder.Header.Fields.{
  uint8_fields, store_var_len_uint8-fields, uint8_parts, uint8_fields-IsField,
}
use mbrotli.Decoder.Bits.{uint8}
use mbrotli.Decoder.Bits.Calls.{Runs, Runs-uint8, uint8_code, uint8_code-cases, Runs-eq, Runs-at}

even_code : (x : ℕ) → x % 2 ≡ 0 → uint8_code x ≡ (0, 1)
even_code x h = elim (uint8_code-cases x) [
  | inl (short, e) ↦ e
  | inr (inl (long, one, e)) ↦ absurd (ground arith)
  | inr (inr (long, more, e)) ↦ absurd (ground arith)
]

odd_code :
    (x l v rest : ℕ)
    → l < 8
    → v < 2 ^ l
    → x ≡ 1 + 2 * l + 16 * (v + 2 ^ l * rest)
    → uint8_code x ≡ (2 ^ l + v, 4 + l)
odd_code x l v rest hl hv hx = elim (uint8_code-cases x) [
  | inl (short, e) ↦ absurd (ground arith)
  | inr (inl (long, one, e)) ↦
      let none : l ≡ 0 = ground arith in
      e ∙ ap₂ (λ (a b : ℕ). (a, b)) (omega (arith, hv, ap (λ (t : ℕ). 2 ^ t) none)) (omega arith)
  | inr (inr (long, more, e)) ↦
      let same : x % 16 / 2 ≡ l = omega arith in
      e
      ∙ ap₂ (λ (a b : ℕ). (a, b))
          (ap (λ (t : ℕ). 2 ^ t + x % 2 ^ (4 + t) / 16) same ∙ ap (λ (t : ℕ). 2 ^ l + t) field)
          (ap (λ (t : ℕ). 4 + t) same)
]
  where
    field : x % 2 ^ (4 + l) / 16 ≡ v
    field =
        mod-div-pow x 4 (4 + l) (omega arith)
        ∙ ap₂ (λ (a b : ℕ). a % 2 ^ b) (let e : x / 16 ≡ v + 2 ^ l * rest = omega arith in e)
            (omega arith)
        ∙ (pow-join l rest v hv).1

-- The code's low bits say which number was written.
uint8_code-fields :
    (n rest : ℕ)
    → n < 256
    → uint8_code (pack (uint8_fields n) + 2 ^ width (uint8_fields n) * rest)
      ≡ (n, width (uint8_fields n))
unfolding uint8_fields pack width
uint8_code-fields n rest h = elim (ℕ_discrete n 0) [
  | yes e ↦ rw (eq→test n 0 e) (even_code _ (omega arith) ∙ ap (λ (t : ℕ). (t, 1)) (sym e))
  | no ne ↦
      let l : ℕ = log2_floor_non_zero n in
      let (a, b, c) = uint8_parts n h ne in
      rw (ne→test n 0 ne) (
        odd_code _ l (n - 2 ^ l) rest a c (
          omega (
            arith,
            ap (λ (t : ℕ). t * rest) (pow-add 4 l),
            ap (λ (t : ℕ). 2 ^ t * rest) (let e : 1 + (3 + (l + 0)) ≡ 4 + l = omega arith in e),
          ))
        ∙ ap₂ (λ (a b : ℕ). (a, b)) (omega (arith, b)) (omega arith))
]

width-uint8_fields : (n : ℕ) → n < 256 → width (uint8_fields n) ≤ 11
unfolding uint8_fields width
width-uint8_fields n h = elim (ℕ_discrete n 0) [
  | yes e ↦ rw (eq→test n 0 e) (omega arith)
  | no ne ↦ rw (ne→test n 0 ne) (omega (arith, (uint8_parts n h ne).0))
]

-- For a writer with eight bytes of room past the number, the decoder's `uint8` reads a number
-- from 0 to 255 back from where `store_var_len_uint8` wrote it, and stops where the writer did.
pub uint8-store_var_len_uint8 :
    (n : ℕ) {w : BitWriter} {x : ℕ}
    → IsWritten w x
    → n < 256
    → (w.position + 11) / 8 + 8 ≤ length w.storage
    → (h : All IsByte (store_var_len_uint8 n w).storage)
    → Runs
        (over (store_var_len_uint8 n w).storage h)
        w.position
        0
        uint8
        n
        (store_var_len_uint8 n w).position
        0
uint8-store_var_len_uint8 n {w} {x} is hn room = rw (store_var_len_uint8-fields n w) read_back
  where
    fs : List Field
    fs = uint8_fields n

    space : (w.position + width fs) / 8 + 8 ≤ length w.storage
    space = omega (arith, width-uint8_fields n hn)

    read_back :
        (h : All IsByte (write_all fs w).storage)
        → Runs (over (write_all fs w).storage h) w.position 0 uint8 n (write_all fs w).position 0
    read_back h =
        let (rest, seen, inside) = from-written fs is (uint8_fields-IsField n hn) space h in
        let code = ap uint8_code seen ∙ uint8_code-fields n rest hn in
        Runs-eq _ (ap (λ (p : ℕ × ℕ). p.0) code) (
          Runs-at _
            (omega (
              arith,
              ap (λ (p : ℕ × ℕ). p.1) code,
              write_all-IsWritten fs is (uint8_fields-IsField n hn) space,
            ))
            (Runs-uint8 _ w.position 0 (omega (arith, ap (λ (p : ℕ × ℕ). p.1) code))))
