-- ===== src/Prefix/LengthCode/Shares.antt =====
-- Lengths whose shares of the code space fit leave room in every row.
use mbrotli.Common.{
  ℕ, zero, suc, ◌+◌, ◌-◌, ◌*◌, ◌^◌, ◌≤◌, arith, leb, if◌then◌else◌, List, [], ◌∷◌, true, false,
}
use mbrotli.Common.{◌≡◌, refl, ap, ◌∙◌, eq→test, ne→test}
use mbrotli.Common.Pow.{pow-pos, pow-step, pow-add}
use native.Mathlib.Decide.{ℕ_discrete, dec_lt}
use native.Mathlib.Nat.{le_of_mul-le-mul_right}
use mbrotli.Prefix.Lengths.Holds.{kraft}
use mbrotli.Prefix.LengthCode.Rows.{count, count-same, count-other}
use mbrotli.Prefix.LengthCode.Canonical.{Fits}

-- The share of the lengths from `l` on.
unfoldable pub tail : ℕ → List ℕ → ℕ
tail l [] = 0
tail l (x ∷ xs) = (if leb l x then 2 ^ (15 - x) else 0) + tail l xs

pub tail-step : (l : ℕ) (xs : List ℕ) → tail l xs ≡ count l xs * 2 ^ (15 - l) + tail (suc l) xs
unfolding tail
tail-step l [] = unfold count in omega arith
tail-step l (x ∷ xs) = elim (ℕ_discrete x l) [
  | yes e ↦
      let a : leb l x ≡ true = ground arith in
      let b : leb (suc l) x ≡ false = ground arith in
      rw (a, b, count-same l x xs e) (omega (arith, tail-step l xs, ap (λ (t : ℕ). 2 ^ (15 - t)) e))
  | no ne ↦ elim (dec_lt l x) [
    | yes more ↦
        let a : leb l x ≡ true = ground arith in
        let b : leb (suc l) x ≡ true = ground arith in
        rw (a, b, count-other l x xs ne) (omega (arith, tail-step l xs))
    | no less ↦
        let a : leb l x ≡ false = ground arith in
        let b : leb (suc l) x ≡ false = ground arith in
        rw (a, b, count-other l x xs ne) (omega (arith, tail-step l xs))
  ]
]

pub tail-kraft : (xs : List ℕ) → tail 1 xs ≡ kraft xs
unfolding tail kraft
tail-kraft [] = refl
tail-kraft (x ∷ xs) = elim (ℕ_discrete x 0) [
  | yes e ↦
      let a : leb 1 x ≡ false = ground arith in rw (a, eq→test x 0 e) (omega (arith, tail-kraft xs))
  | no ne ↦
      let a : leb 1 x ≡ true = ground arith in rw (a, ne→test x 0 ne) (omega (arith, tail-kraft xs))
]

tail-room :
    (l code : ℕ) (lengths : List ℕ)
    → l ≤ 15
    → code * 2 ^ (15 - l) + tail l lengths ≤ 2 ^ 15
    → code + count l lengths ≤ 2 ^ l
tail-room l code lengths le h =
    le_of_mul-le-mul_right {k = 2 ^ (15 - l)}
      (omega (
        arith,
        h,
        tail-step l lengths,
        pow-add l (15 - l),
        ap (λ (t : ℕ). 2 ^ t) (let z : l + (15 - l) ≡ 15 = omega (arith, le) in z),
      ))
      (pow-pos (15 - l))

tail-next :
    (l code : ℕ) (lengths : List ℕ)
    → suc l ≤ 15
    → code * 2 ^ (15 - l) + tail l lengths ≤ 2 ^ 15
    → (code + count l lengths) * 2 * 2 ^ (15 - suc l) + tail (suc l) lengths ≤ 2 ^ 15
tail-next l code lengths le h = omega (
  arith,
  h,
  tail-step l lengths,
  ap (λ (t : ℕ). (code + count l lengths) * t)
      (ap (λ (t : ℕ). 2 ^ t) (let z : 15 - l ≡ suc (15 - suc l) = omega (arith, le) in z)
        ∙ pow-step (15 - suc l)),
)

tail-Fits :
    (n l code : ℕ) (lengths : List ℕ)
    → l + n ≡ 16
    → code * 2 ^ (15 - l) + tail l lengths ≤ 2 ^ 15
    → Fits n l code lengths
unfolding Fits
tail-Fits zero l code lengths e h = tt
tail-Fits (suc zero) l code lengths e h =
    (omega (arith, e), tail-room l code lengths (omega (arith, e)) h, tt)
tail-Fits (suc (suc n)) l code lengths e h = (
  omega (arith, e),
  tail-room l code lengths (omega (arith, e)) h,
  tail-Fits (suc n) (suc l) ((code + count l lengths) * 2) lengths (omega (arith, e))
      (tail-next l code lengths (omega (arith, e)) h),
)

-- Lengths that do not pass the code space have room in every row up to the fifteenth.
pub kraft-Fits : (lengths : List ℕ) → kraft lengths ≤ 32768 → Fits 15 1 0 lengths
kraft-Fits lengths h = tail-Fits 15 1 0 lengths refl (omega (arith, h, tail-kraft lengths))

pub Fits-fewer :
    (n m l code : ℕ) (lengths : List ℕ) → m ≤ n → Fits n l code lengths → Fits m l code lengths
unfolding Fits
Fits-fewer n zero l code lengths h f = tt
Fits-fewer zero (suc m) l code lengths h f = elim h [ ]
Fits-fewer (suc n) (suc m) l code lengths h (narrow, room, f) = (
  narrow,
  room,
  Fits-fewer n m (suc l) ((code + count l lengths) * 2) lengths (omega (arith, h)) f,
)
