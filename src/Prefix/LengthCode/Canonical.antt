-- ===== src/Prefix/LengthCode/Canonical.antt =====
-- All rows of the table, and the encoder's patterns for the same canonical codes.
use mbrotli.Common.{
  ℕ, zero, suc, ◌+◌, ◌-◌, ◌*◌, ◌%◌, ◌^◌, ◌≤◌, ◌<◌, arith, List, [], ◌∷◌, Option, none, some, get_or,
  get_elem?, take, length,
}
use mbrotli.Common.{◌≡◌, refl, sym, ap, ◌∙◌}
use mbrotli.Common.Pow.{pow-step}
use native.Mathlib.Decide.{ℕ_discrete}
use mathlib.Core.Path.{subst}
use mbrotli.Prefix.Table.{new_code}
use mbrotli.Prefix.Keys.{reversed_bits}
use mbrotli.Prefix.Keys.Reversed.{reversed_bits-apart}
use mbrotli.Prefix.LengthCode.{build_row, build_rows}
use mbrotli.Prefix.LengthCode.Rows.{
  count, count-same, count-other, build_row-code, build_row-length, build_row-keeps,
  build_row-enters,
}

-- The rows from `l` on have room for their codes.
unfoldable pub Fits : ℕ → ℕ → ℕ → List ℕ → Type 0
Fits zero l code lengths = Unit {0}
Fits (suc n) l code lengths =
    (l ≤ 16)
    × (code + count l lengths ≤ 2 ^ l)
    × Fits n (suc l) ((code + count l lengths) * 2) lengths

-- The first code of the row `m` rows after that of `l`.
unfoldable pub first_code : ℕ → ℕ → ℕ → List ℕ → ℕ
first_code zero l code lengths = code
first_code (suc m) l code lengths = first_code m (suc l) ((code + count l lengths) * 2) lengths

build_rows-keeps :
    (n l w c code k : ℕ) (lengths table : List ℕ)
    → w ≤ l
    → c < 2 ^ w
    → k % 2 ^ w ≡ reversed_bits w c
    → (c + 1) * 2 ^ (l - w) ≤ code
    → Fits n l code lengths
    → get_or (build_rows n l lengths code table) k 0 ≡ get_or table k 0
unfolding build_rows Fits
build_rows-keeps zero l w c code k lengths table h small e above fits = refl
build_rows-keeps (suc n) l w c code k lengths table h small e above (narrow, room, fits) =
    build_rows-keeps n (suc l) w c ((build_row l 0 lengths code table).0 * 2) k lengths
      (build_row l 0 lengths code table).1 (omega (arith, h)) small e
      (omega (arith, above, build_row-code l 0 lengths code table, twice))
      (subst (λ (t : ℕ). Fits n (suc l) (t * 2) lengths)
        (sym (build_row-code l 0 lengths code table)) fits)
    ∙ build_row-keeps l 0 lengths code k table narrow room
        (λ c' le lt. reversed_bits-apart l w c c' k h small e lt (omega (arith, above, le)))
  where
    twice : (c + 1) * 2 ^ (suc l - w) ≡ (c + 1) * 2 ^ (l - w) * 2
    twice = omega (
      arith,
      ap (λ (t : ℕ). (c + 1) * t)
          (ap (λ (t : ℕ). 2 ^ t) (let e : suc l - w ≡ suc (l - w) = omega (arith, h) in e)
            ∙ pow-step (l - w)),
    )

-- A symbol is one of those of its length.
pub count-take :
    (l j : ℕ) (xs : List ℕ) → get_elem? xs j ≡ some l → suc (count l (take j xs)) ≤ count l xs
count-take l j [] at = cc
count-take l zero (x ∷ xs) at = omega (
  arith,
  count-same l x xs (ap {B = ℕ} (λ (o : Option ℕ). elim o [ none ↦ x | some y ↦ y ]) at),
  nothing,
)
  where
    nothing : count l (take 0 (x ∷ xs)) ≡ 0
    nothing = unfold count in refl
count-take l (suc j) (x ∷ xs) at = elim (ℕ_discrete x l) [
  | yes e ↦ omega (arith, count-take l j xs at, count-same l x xs e, count-same l x (take j xs) e)
  | no ne ↦
      omega (arith, count-take l j xs at, count-other l x xs ne, count-other l x (take j xs) ne)
]

first_row-enters :
    (n l j code k : ℕ) (lengths table : List ℕ)
    → get_elem? lengths j ≡ some l
    → k < length table
    → k % 2 ^ l ≡ reversed_bits l (code + count l (take j lengths))
    → Fits (suc n) l code lengths
    → get_or (build_rows (suc n) l lengths code table) k 0 ≡ new_code l j
unfolding build_rows Fits
first_row-enters n l j code k lengths table at small e (narrow, room, fits) =
    let c : ℕ = code + count l (take j lengths) in
    build_rows-keeps n (suc l) l c ((build_row l 0 lengths code table).0 * 2) k lengths
      (build_row l 0 lengths code table).1 (omega arith)
      (omega (arith, room, count-take l j lengths at)) e
      (omega (arith, two, build_row-code l 0 lengths code table, count-take l j lengths at))
      (subst (λ (t : ℕ). Fits n (suc l) (t * 2) lengths)
        (sym (build_row-code l 0 lengths code table)) fits)
    ∙ build_row-enters l 0 j lengths code k table narrow room at small e
    ∙ ap (new_code l) (omega arith)
  where
    two :
        (code + count l (take j lengths) + 1) * 2 ^ (suc l - l)
        ≡ (code + count l (take j lengths) + 1) * 2
    two =
        ap (λ (n : ℕ). (code + count l (take j lengths) + 1) * 2 ^ n)
          (let e : suc l - l ≡ 1 = omega arith in e)

pub build_rows-enters :
    (n m l w j code k : ℕ) (lengths table : List ℕ)
    → m < n
    → w ≡ l + m
    → get_elem? lengths j ≡ some w
    → k < length table
    → k % 2 ^ w ≡ reversed_bits w (first_code m l code lengths + count w (take j lengths))
    → Fits n l code lengths
    → get_or (build_rows n l lengths code table) k 0 ≡ new_code w j
unfolding first_code build_rows Fits
build_rows-enters zero m l w j code k lengths table h same at small e fits = elim h [ ]
build_rows-enters (suc n) zero l w j code k lengths table h same at small e fits =
    let here : w ≡ l = omega (arith, same) in
    first_row-enters n l j code k lengths table (at ∙ ap some here) small
      (subst (λ (v : ℕ). k % 2 ^ v ≡ reversed_bits v (code + count v (take j lengths))) here e) fits
    ∙ ap (λ (v : ℕ). new_code v j) (sym here)
build_rows-enters (suc n) (suc m) l w j code k lengths table h same at small e
      (narrow, room, fits) =
    build_rows-enters n m (suc l) w j ((build_row l 0 lengths code table).0 * 2) k lengths
      (build_row l 0 lengths code table).1 (omega (arith, h)) (omega (arith, same)) at
      (omega (arith, small, build_row-length l 0 lengths code table))
      (e
        ∙ ap
            (λ (t : ℕ).
              reversed_bits w (first_code m (suc l) (t * 2) lengths + count w (take j lengths)))
            (sym (build_row-code l 0 lengths code table)))
      (subst (λ (t : ℕ). Fits n (suc l) (t * 2) lengths)
        (sym (build_row-code l 0 lengths code table)) fits)

-- A code of a length has no more bits than the length.
pub code-bound :
    (n m l w j code : ℕ) (lengths : List ℕ)
    → m < n
    → w ≡ l + m
    → get_elem? lengths j ≡ some w
    → Fits n l code lengths
    → first_code m l code lengths + count w (take j lengths) < 2 ^ w
unfolding first_code Fits
code-bound zero m l w j code lengths h same at fits = elim h [ ]
code-bound (suc n) zero l w j code lengths h same at (narrow, room, fits) =
    let here : l ≡ w = omega (arith, same) in
    omega (
      arith,
      count-take w j lengths at,
      room,
      ap (λ (v : ℕ). 2 ^ v) here,
      ap (λ (v : ℕ). count v lengths) here,
    )
code-bound (suc n) (suc m) l w j code lengths h same at (narrow, room, fits) =
    code-bound n m (suc l) w j ((code + count l lengths) * 2) lengths (omega (arith, h))
      (omega (arith, same)) at fits
