-- ===== src/Prefix/LengthCode/Complete.antt =====
-- A code that fills the code space has a symbol under every number of five bits.
use mbrotli.Common.{
  ℕ, zero, suc, ◌+◌, ◌-◌, ◌*◌, ◌/◌, ◌%◌, ◌^◌, ◌≤◌, ◌<◌, arith, leb, ◌==◌, List, [], ◌∷◌, some,
  get_elem?, take, All, true, false,
}
use mbrotli.Common.{◌≡◌, refl, sym, ap, ◌∙◌, all_below, all_below_sound, eq_of_test}
use mbrotli.Common.Pow.{pow-step, div-div-pow, pow-join}
use native.Mathlib.Decide.{ℕ_discrete, dec_lt}
use native.Mathlib.Nat.{div-le_self}
use mbrotli.Prefix.Keys.{reversed_bits}
use mbrotli.Prefix.Keys.Reversed.{reversed_bits-lt, reversed_bits-add}
use mbrotli.Prefix.Lengths.Holds.{kraft}
use mbrotli.Prefix.LengthCode.Rows.{count, count-same, count-other}
use mbrotli.Prefix.LengthCode.Canonical.{first_code}
use mbrotli.Prefix.LengthCode.Shares.{tail, tail-step, tail-kraft}

tail-move :
    (l code : ℕ) (lengths : List ℕ)
    → suc l ≤ 15
    → (code + count l lengths) * 2 * 2 ^ (15 - suc l) + tail (suc l) lengths
      ≡ code * 2 ^ (15 - l) + tail l lengths
tail-move l code lengths le = omega (
  arith,
  tail-step l lengths,
  ap (λ (t : ℕ). (code + count l lengths) * t)
      (ap (λ (t : ℕ). 2 ^ t) (let z : 15 - l ≡ suc (15 - suc l) = omega (arith, le) in z)
        ∙ pow-step (15 - suc l)),
)

first_code-tail :
    (m l code : ℕ) (lengths : List ℕ)
    → l + m ≤ 15
    → first_code m l code lengths * 2 ^ (15 - (l + m)) + tail (l + m) lengths
      ≡ code * 2 ^ (15 - l) + tail l lengths
unfolding first_code
first_code-tail zero l code lengths h =
    ap (λ (t : ℕ). code * 2 ^ (15 - t) + tail t lengths) (let e : l + 0 ≡ l = omega arith in e)
first_code-tail (suc m) l code lengths h =
    ap
      (λ (t : ℕ).
        first_code m (suc l) ((code + count l lengths) * 2) lengths * 2 ^ (15 - t) + tail t lengths)
      (let e : l + suc m ≡ suc l + m = omega arith in e)
    ∙ first_code-tail m (suc l) ((code + count l lengths) * 2) lengths (omega (arith, h))
    ∙ tail-move l code lengths (omega (arith, h))

no_tail : (lengths : List ℕ) → All (λ x. x ≤ 5) lengths → tail 6 lengths ≡ 0
unfolding tail
no_tail [] h = refl
no_tail (x ∷ xs) (h, hs) =
    let e : leb 6 x ≡ false = ground arith in rw e (omega (arith, no_tail xs hs))

full-code :
    (lengths : List ℕ)
    → All (λ x. x ≤ 5) lengths
    → kraft lengths ≡ 32768
    → first_code 5 1 0 lengths ≡ 64
full-code lengths h full = omega (
  arith,
  first_code-tail 5 1 0 lengths (omega arith),
  no_tail lengths h,
  tail-kraft lengths,
  full,
)

-- The row of a number, and the code that it starts with there.
record Located (n l code x : ℕ) (lengths : List ℕ) : Type 0 where
  rows : ℕ
  inside : rows < n
  width : ℕ
  reached : width ≡ l + rows
  low : first_code rows l code lengths ≤ x / 2 ^ (5 - width)
  high : x / 2 ^ (5 - width) < first_code rows l code lengths + count width lengths

here :
    (n l code x : ℕ) (lengths : List ℕ)
    → code ≤ x / 2 ^ (5 - l)
    → x / 2 ^ (5 - l) < code + count l lengths
    → Located (suc n) l code x lengths
unfolding first_code
here n l code x lengths low high = record {
  rows = 0;
  inside = omega arith;
  width = l;
  reached = omega arith;
  low = low;
  high = high;
}

locate :
    (n l code x : ℕ) (lengths : List ℕ)
    → l + suc n ≡ 6
    → first_code (suc n) l code lengths ≡ 64
    → x < 32
    → code ≤ x / 2 ^ (5 - l)
    → Located (suc n) l code x lengths
unfolding first_code
locate zero l code x lengths e full h above =
    here zero l code x lengths above (omega (arith, full, h, div-le_self x (2 ^ (5 - l))))
locate (suc n) l code x lengths e full h above =
    elim (dec_lt (x / 2 ^ (5 - l)) (code + count l lengths)) [
      | yes inside ↦ here (suc n) l code x lengths above inside
      | no over ↦
          let r =
            locate n (suc l) ((code + count l lengths) * 2) x lengths (omega (arith, e)) full h
              (omega (arith, over, div-div-pow x (5 - suc l) 1, half)) in
          record {
            rows = suc r.rows;
            inside = omega (arith, r.inside);
            width = r.width;
            reached = omega (arith, r.reached);
            low = r.low;
            high = r.high;
          }
    ]
  where
    half : x / 2 ^ (5 - suc l + 1) ≡ x / 2 ^ (5 - l)
    half = ap (λ (t : ℕ). x / 2 ^ t) (omega (arith, e))

count-nil : (l : ℕ) → count l [] ≡ 0
unfolding count
count-nil l = refl

nth :
    (l r : ℕ) (xs : List ℕ)
    → r < count l xs
    → (j : ℕ) × (get_elem? xs j ≡ some l) × (count l (take j xs) ≡ r)
nth l r [] h = absurd (omega (arith, h, count-nil l))
nth l r (x ∷ xs) h = elim (ℕ_discrete x l) [
  | yes e ↦ elim (ℕ_discrete r 0) [
    | yes z ↦ (0, ap some e, count-nil l ∙ sym z)
    | no nz ↦
        let (j, at, rank) = nth l (r - 1) xs (omega (arith, h, nz, count-same l x xs e)) in
        (suc j, at, omega (arith, rank, nz, count-same l x (take j xs) e))
  ]
  | no ne ↦
      let (j, at, rank) = nth l r xs (omega (arith, h, count-other l x xs ne)) in
      (suc j, at, omega (arith, rank, count-other l x (take j xs) ne))
]

-- Every number of five bits ends in the key of a symbol.
pub record Keyed (lengths : List ℕ) (k : ℕ) : Type 0 where
  pub symbol : ℕ
  pub rows : ℕ
  pub width : ℕ
  pub few : rows < 5
  pub wide : width ≡ 1 + rows
  pub at : get_elem? lengths symbol ≡ some width
  pub key :
      k % 2 ^ width
      ≡ reversed_bits width (first_code rows 1 0 lengths + count width (take symbol lengths))

-- Reversing five bits twice changes nothing.
twice : all_below 32 (λ k. reversed_bits 5 (reversed_bits 5 k) == k) ≡ true
unfolding reversed_bits
twice = refl

pub complete-Keyed :
    (lengths : List ℕ) (k : ℕ)
    → All (λ x. x ≤ 5) lengths
    → kraft lengths ≡ 32768
    → k < 32
    → Keyed lengths k
complete-Keyed lengths k h full small =
    let (j, at, rank) =
      nth r.width (x / 2 ^ (5 - r.width) - first_code r.rows 1 0 lengths) lengths
        (omega (arith, r.low, r.high)) in
    record {
      symbol = j;
      rows = r.rows;
      width = r.width;
      few = r.inside;
      wide = r.reached;
      at = at;
      key = ends ∙ ap (reversed_bits r.width) (omega (arith, r.low, rank));
    }
  where
    x : ℕ
    x = reversed_bits 5 k

    r : Located 5 1 0 x lengths
    r = locate 4 1 0 x lengths refl (full-code lengths h full) (reversed_bits-lt 5 k) (omega arith)

    back : reversed_bits 5 x ≡ k
    back =
        eq_of_test (reversed_bits 5 x) k
          (all_below_sound 32 (λ k. reversed_bits 5 (reversed_bits 5 k) == k) k twice small)

    ends : k % 2 ^ r.width ≡ reversed_bits r.width (x / 2 ^ (5 - r.width))
    ends =
        ap (λ (t : ℕ). t % 2 ^ r.width)
          (sym back
            ∙ ap (λ (n : ℕ). reversed_bits n x)
                (let e : 5 ≡ 5 - r.width + r.width = omega (arith, r.reached, r.inside) in e)
            ∙ reversed_bits-add (5 - r.width) r.width x
            ∙ omega arith)
        ∙ (pow-join r.width (reversed_bits (5 - r.width) x)
            (reversed_bits r.width (x / 2 ^ (5 - r.width)))
            (reversed_bits-lt r.width (x / 2 ^ (5 - r.width)))).1
