-- ===== src/Prefix/LengthCode/Rows.antt =====
-- The table of a complete code: every key of a canonical code leads to its symbol.
use mbrotli.Common.{
  ℕ, zero, suc, ◌+◌, ◌-◌, ◌*◌, ◌%◌, ◌^◌, ◌≤◌, ◌<◌, arith, ◌==◌, if◌then◌else◌, List, [], ◌∷◌,
  Option, none, some, get_or, get_elem?, take, length,
}
use mbrotli.Common.{◌≡◌, ◌≢◌, refl, sym, ap, ◌∙◌, eq→test, ne→test, Bool}
use native.Mathlib.Decide.{ℕ_discrete}
use native.Mathlib.Nat.{le_refl}
use mbrotli.Prefix.Table.{new_code}
use mbrotli.Prefix.Keys.{reversed_bits, key_of}
use mbrotli.Prefix.Keys.Reversed.{key_of_lem, reversed_bits-lt, reversed_bits-apart}
use mbrotli.Prefix.LengthCode.{replicate_code, build_row}
use mbrotli.Prefix.LengthCode.Writes.{
  length-replicate_code, replicate_code-hit, replicate_code-miss,
}

-- How many lengths are `l`.
unfoldable pub count : ℕ → List ℕ → ℕ
count l [] = 0
count l (x ∷ xs) = if x == l then suc (count l xs) else count l xs

pub count-same : (l x : ℕ) (xs : List ℕ) → x ≡ l → count l (x ∷ xs) ≡ suc (count l xs)
unfolding count
count-same l x xs e = ap (λ (t : Bool). if t then suc (count l xs) else count l xs) (eq→test x l e)

pub count-other : (l x : ℕ) (xs : List ℕ) → x ≢ l → count l (x ∷ xs) ≡ count l xs
unfolding count
count-other l x xs ne =
    ap (λ (t : Bool). if t then suc (count l xs) else count l xs) (ne→test x l ne)

pub build_row-code :
    (l s : ℕ) (widths : List ℕ) (code : ℕ) (table : List ℕ)
    → (build_row l s widths code table).0 ≡ code + count l widths
unfolding build_row count
build_row-code l s [] code table = omega arith
build_row-code l s (x ∷ widths) code table = elim (ℕ_discrete x l) [
  | yes e ↦ rw (eq→test x l e) (
      build_row-code l (suc s) widths (code + 1)
        (replicate_code table (key_of code l) (2 ^ l) (new_code l s))
      ∙ omega arith)
  | no ne ↦ rw (ne→test x l ne) (build_row-code l (suc s) widths code table)
]

pub build_row-length :
    (l s : ℕ) (widths : List ℕ) (code : ℕ) (table : List ℕ)
    → length (build_row l s widths code table).1 ≡ length table
unfolding build_row
build_row-length l s [] code table = refl
build_row-length l s (x ∷ widths) code table = elim (ℕ_discrete x l) [
  | yes e ↦ rw (eq→test x l e) (
      build_row-length l (suc s) widths (code + 1)
        (replicate_code table (key_of code l) (2 ^ l) (new_code l s))
      ∙ length-replicate_code table (key_of code l) (2 ^ l) (new_code l s))
  | no ne ↦ rw (ne→test x l ne) (build_row-length l (suc s) widths code table)
]

-- A row leaves an entry alone whose number is no key of a code of the row.
pub build_row-keeps :
    (l s : ℕ) (widths : List ℕ) (code k : ℕ) (table : List ℕ)
    → l ≤ 16
    → code + count l widths ≤ 2 ^ l
    → ((c : ℕ) → code ≤ c → c < 2 ^ l → k % 2 ^ l ≢ reversed_bits l c)
    → get_or (build_row l s widths code table).1 k 0 ≡ get_or table k 0
unfolding build_row count
build_row-keeps l s [] code k table h room apart = refl
build_row-keeps l s (x ∷ widths) code k table h room apart = elim (ℕ_discrete x l) [
  | yes e ↦
      let fits : code + suc (count l widths) ≤ 2 ^ l =
        omega (arith, room, count-same l x widths e) in
      let key = key_of_lem l code h (omega (arith, fits)) in
      rw (eq→test x l e) (
        build_row-keeps l (suc s) widths (code + 1) k
          (replicate_code table (key_of code l) (2 ^ l) (new_code l s)) h (omega (arith, fits))
          (λ c le. apart c (omega (arith, le)))
        ∙ replicate_code-miss table (key_of code l) l (new_code l s) k
            (omega (arith, key, reversed_bits-lt l code))
            (λ z. apart code (omega arith) (omega (arith, fits)) (z ∙ key)))
  | no ne ↦ rw (ne→test x l ne) (
      build_row-keeps l (suc s) widths code k table h
        (omega (arith, room, count-other l x widths ne)) apart)
]

-- A row enters each of its symbols under every number that ends in the symbol's key.
pub build_row-enters :
    (w s j : ℕ) (widths : List ℕ) (code k : ℕ) (table : List ℕ)
    → w ≤ 16
    → code + count w widths ≤ 2 ^ w
    → get_elem? widths j ≡ some w
    → k < length table
    → k % 2 ^ w ≡ reversed_bits w (code + count w (take j widths))
    → get_or (build_row w s widths code table).1 k 0 ≡ new_code w (s + j)
unfolding build_row
build_row-enters w s j [] code k table h room at small e = cc
build_row-enters w s zero (x ∷ widths) code k table h room at small e =
    let same : x ≡ w = ap {B = ℕ} (λ (o : Option ℕ). elim o [ none ↦ x | some y ↦ y ]) at in
    let fits : code + suc (count w widths) ≤ 2 ^ w =
      omega (arith, room, count-same w x widths same) in
    let here : k % 2 ^ w ≡ reversed_bits w code =
      e ∙ ap (reversed_bits w) (unfold count in omega arith) in
    let key = key_of_lem w code h (omega (arith, fits)) in
    rw (eq→test x w same) (
      build_row-keeps w (suc s) widths (code + 1) k
        (replicate_code table (key_of code w) (2 ^ w) (new_code w s)) h (omega (arith, fits))
        (λ c le lt.
          reversed_bits-apart w w code c k (le_refl w) (omega (arith, fits)) here lt
            (omega (arith, le, nothing)))
      ∙ replicate_code-hit table (key_of code w) w (new_code w s) k (here ∙ sym key) small
      ∙ ap (new_code w) (omega arith))
  where
    nothing : (code + 1) * 2 ^ (w - w) ≡ code + 1
    nothing =
        ap (λ (n : ℕ). (code + 1) * 2 ^ n) (let e : w - w ≡ 0 = omega arith in e) ∙ omega arith
build_row-enters w s (suc j) (x ∷ widths) code k table h room at small e = elim (ℕ_discrete x w) [
  | yes same ↦ rw (eq→test x w same) (
      build_row-enters w (suc s) j widths (code + 1) k
        (replicate_code table (key_of code w) (2 ^ w) (new_code w s)) h
        (omega (arith, room, count-same w x widths same)) at
        (omega (arith, small, length-replicate_code table (key_of code w) (2 ^ w) (new_code w s)))
        (e ∙ ap (reversed_bits w) (omega (arith, count-same w x (take j widths) same)))
      ∙ ap (new_code w) (omega arith))
  | no ne ↦ rw (ne→test x w ne) (
      build_row-enters w (suc s) j widths code k table h
        (omega (arith, room, count-other w x widths ne)) at small
        (e ∙ ap (reversed_bits w) (omega (arith, count-other w x (take j widths) ne)))
      ∙ ap (new_code w) (omega arith))
]
