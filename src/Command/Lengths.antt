-- ===== src/Command/Lengths.antt =====
-- Every length lies in the range of its code.
use mbrotli.Common.{ℕ, zero, suc, ◌+◌, ◌-◌, ◌^◌, ◌≤◌, ◌<◌, arith}
use mbrotli.Common.{◌≡◌, refl, ap, Bool, true, ◌&&◌, ltb, leb, ◌==◌, Bool-cases, inl, inr}
use mbrotli.Common.{
  List, get_or, all_below, all_below_sound, eq_of_test, ltb→lt, ltb→ge, lt→ltb, ge→ltb,
}
use native.Mathlib.Decide.{dec_lt}
use mbrotli.Format.{ins_base, ins_extra, copy_base, copy_extra}
use mbrotli.Command.{insert_length_code, copy_length_code, copy_length_codes, copy_step}
use mbrotli.Encoder.Log2.{log2_floor_non_zero, log2_unique}

-- `len` is in the range of `code`: from its base on, as far as its extra bits reach.
abbrev pub InRange : List ℕ → List ℕ → ℕ → ℕ → Type 0
InRange base extra code len =
    (code < 24) × (get_or base code 0 ≤ len) × (len - get_or base code 0 < 2 ^ get_or extra code 0)

in_range : List ℕ → List ℕ → ℕ → ℕ → Bool
in_range base extra code len =
    ltb code 24
    && (leb (get_or base code 0) len && ltb (len - get_or base code 0) (2 ^ get_or extra code 0))

small_inserts : all_below 2114 (λ n. in_range ins_base ins_extra (insert_length_code n) n) ≡ true
unfolding in_range insert_length_code log2_floor_non_zero mbrotli.Encoder.Log2.leading_zeros
small_inserts = refl

-- Lengths below 6 are whole; the codes past 2114 have two or three ranges.
insert_large :
    (n : ℕ) → 2114 ≤ n → n < 22594 + 2 ^ 24 → InRange ins_base ins_extra (insert_length_code n) n
unfolding insert_length_code
insert_large n h top =
    let a = ge→ltb n 6 (omega arith) in
    let b = ge→ltb n 130 (omega arith) in
    let c = ge→ltb n 2114 h in
    elim (Bool-cases (ltb n 6210)) [
      | inl e ↦ rw (a, b, c, e) (omega (arith, ltb→lt n 6210 e))
      | inr e ↦ elim (Bool-cases (ltb n 22594)) [
        | inl f ↦ rw (a, b, c, e, f) (omega (arith, ltb→ge n 6210 e, ltb→lt n 22594 f))
        | inr f ↦ rw (a, b, c, e, f) (omega (arith, ltb→ge n 22594 f))
      ]
    ]

in_range→ :
    (base extra : List ℕ) (code len : ℕ)
    → in_range base extra code len ≡ true
    → InRange base extra code len
unfolding in_range
in_range→ base extra code len h = ground arith

-- Every insert length below 22594 + 2^24 lies in its code's range: at the base or above, and the
-- rest fits the code's extra bits.
pub insert_length_code-InRange :
    (n : ℕ) → n < 22594 + 2 ^ 24 → InRange ins_base ins_extra (insert_length_code n) n
insert_length_code-InRange n top = elim (dec_lt n 2114) [
  | yes small ↦ in_range→ ins_base ins_extra (insert_length_code n) n (
      all_below_sound 2114 (λ x. in_range ins_base ins_extra (insert_length_code x) x) n
        small_inserts small)
  | no more ↦ insert_large n (omega arith) top
]

-- What the loop that fills the table keeps: the code's base is reached, the next one's is not.
InClass : ℕ → ℕ → Type 0
InClass code len =
    (code ≤ 22) × (get_or copy_base code 0 ≤ len) × (len < get_or copy_base (code + 1) 0)

rising : all_below 23 (λ k. ltb (get_or copy_base k 0) (get_or copy_base (k + 1) 0)) ≡ true
rising = refl

copy_step-InClass :
    (code len : ℕ) → len < 2117 → InClass code len → InClass (copy_step (suc len) code) (suc len)
unfolding InClass copy_step
copy_step-InClass code len top (c, lo, hi) =
    elim (Bool-cases (leb (get_or copy_base (code + 1) 0) (suc len))) [
      | inl e ↦
          let reached : get_or copy_base (code + 1) 0 ≤ suc len = ground arith in
          let below_last : code ≤ 21 = elim (dec_lt code 22) [
            | yes p ↦ omega arith
            | no p ↦ absurd (
                omega (
                  arith,
                  reached,
                  ap (λ (t : ℕ). get_or copy_base (t + 1) 0)
                      (let e : code ≡ 22 = omega (arith, c) in e),
                ))
          ] in
          let next = ltb→lt _ _ (
            all_below_sound 23 (λ k. ltb (get_or copy_base k 0) (get_or copy_base (k + 1) 0))
              (code + 1) rising (omega arith)) in
          rw e (omega arith, reached, omega (arith, next, hi))
      | inr e ↦
          let short : suc len < get_or copy_base (code + 1) 0 = ground arith in
          rw e (c, omega (arith, lo), short)
    ]

first : InClass (copy_step 2 0) 2
unfolding InClass copy_step
first = omega arith

copy_length_codes-InClass : (n : ℕ) → n < 2116 → InClass (copy_length_codes n) (n + 2)
unfolding copy_length_codes
copy_length_codes-InClass zero h = first
copy_length_codes-InClass (suc n) h = rw (let e : suc n + 2 ≡ suc (n + 2) = omega arith in e) (
    copy_step-InClass (copy_length_codes n) (n + 2) (omega arith)
      (copy_length_codes-InClass n (omega arith)))

-- A class is as wide as its extra bits reach.
class_width :
    all_below 23
      (λ k. get_or copy_base (k + 1) 0 == get_or copy_base k 0 + 2 ^ get_or copy_extra k 0)
    ≡ true
class_width = refl

tiny_copies :
    all_below 8 (λ k. (get_or copy_base k 0 == k + 2) && (get_or copy_extra k 0 == 0)) ≡ true
tiny_copies = refl

from_tiny : (n : ℕ) → 2 ≤ n → n < 10 → InRange copy_base copy_extra (n - 2) n
from_tiny n h top =
    let e =
      all_below_sound 8 (λ k. (get_or copy_base k 0 == k + 2) && (get_or copy_extra k 0 == 0))
        (n - 2) tiny_copies (omega arith) in
    let (b, x) : (get_or copy_base (n - 2) 0 ≡ n - 2 + 2) × (get_or copy_extra (n - 2) 0 ≡ 0) =
      ground arith in
    (omega arith, omega (arith, b), rw x (omega (arith, b)))

from_class : (n : ℕ) → 2 ≤ n → n < 2118 → InRange copy_base copy_extra (copy_length_codes (n - 2)) n
unfolding InClass
from_class n h top =
    let (c, lo, hi) = copy_length_codes-InClass (n - 2) (omega arith) in
    let width = eq_of_test _ _ (
      all_below_sound 23
        (λ k. get_or copy_base (k + 1) 0 == get_or copy_base k 0 + 2 ^ get_or copy_extra k 0)
        (copy_length_codes (n - 2)) class_width (omega (arith, c))) in
    (omega (arith, c), omega (arith, lo), omega (arith, hi, width))

-- Every copy length from 2 to 2117 + 2^24 lies in its code's range: at the base or above, and
-- the rest fits the code's extra bits.
pub copy_length_code-InRange :
    (n : ℕ) → 2 ≤ n → n < 2118 + 2 ^ 24 → InRange copy_base copy_extra (copy_length_code n) n
unfolding copy_length_code
copy_length_code-InRange n h top = elim (dec_lt n 10) [
  | yes tiny ↦ rw (lt→ltb n 10 tiny) (from_tiny n h tiny)
  | no more ↦ elim (dec_lt n 2118) [
    | yes middle ↦ rw (ge→ltb n 10 (omega arith), lt→ltb n 2118 middle) (from_class n h middle)
    | no far ↦ rw (ge→ltb n 10 (omega arith), ge→ltb n 2118 (omega arith)) (omega arith)
  ]
]
