-- ===== src/Prefix/Runs/Trimmed.antt =====
-- A sequence of code lengths cut into runs, and without the zeros at its end.
use mbrotli.Common.{ℕ, zero, suc, ◌+◌, ◌-◌, ◌≤◌, ◌<◌, arith, List, [], ◌∷◌, ◌++◌}
use mbrotli.Common.{
  ◌≡◌, ◌≢◌, refl, sym, ap, ap₂, ◌∙◌, eq→test, ne→test, length, replicate, take, drop, get_or, All,
  append_assoc, append-nil, length-take,
}
use mbrotli.Common.Pow.{pow-pos}
use native.Mathlib.Decide.{ℕ_discrete}
use mbrotli.Prefix.Lengths.Holds.{weight, kraft, replicate-add}
use mbrotli.Prefix.Runs.{same_ahead, trimmed_length}

pub same_ahead-split :
    (v : ℕ) (xs : List ℕ) → replicate (same_ahead v xs) v ++ drop (same_ahead v xs) xs ≡ xs
unfolding same_ahead
same_ahead-split v [] = refl
same_ahead-split v (x ∷ xs) = elim (ℕ_discrete x v) [
  | yes e ↦ rw (eq→test x v e) (ap₂ (λ (y : ℕ) (t : List ℕ). y ∷ t) (sym e) (same_ahead-split v xs))
  | no ne ↦ rw (ne→test x v ne) refl
]

-- The first element is not `v`.
unfoldable pub Other : ℕ → List ℕ → Type 0
Other v [] = Unit {0}
Other v (x ∷ xs) = x ≢ v

pub same_ahead-Other : (v : ℕ) (xs : List ℕ) → Other v (drop (same_ahead v xs) xs)
unfolding same_ahead Other
same_ahead-Other v [] = tt
same_ahead-Other v (x ∷ xs) = elim (ℕ_discrete x v) [
  | yes e ↦ rw (eq→test x v e) (same_ahead-Other v xs)
  | no ne ↦ rw (ne→test x v ne) ne
]

pub All-drop : (P : ℕ → Type 0) (n : ℕ) (xs : List ℕ) → All P xs → All P (drop n xs)
All-drop P zero [] h = h
All-drop P zero (x ∷ xs) h = h
All-drop P (suc n) [] h = h
All-drop P (suc n) (x ∷ xs) (h, hs) = All-drop P n xs hs

pub All-take : (P : ℕ → Type 0) (n : ℕ) (xs : List ℕ) → All P xs → All P (take n xs)
All-take P zero xs h = tt
All-take P (suc n) [] h = h
All-take P (suc n) (x ∷ xs) (h, hs) = (h, All-take P n xs hs)

-- Every part at the end that is not empty has a code.
unfoldable pub Closed : List ℕ → Type 0
Closed xs = (k : ℕ) → k < length xs → 0 < kraft (drop k xs)

weight-pos : (x : ℕ) → x ≢ 0 → 0 < weight x
weight-pos x ne = rw (ne→test x 0 ne) (pow-pos (15 - x))

closing :
    (xs : List ℕ) (m k : ℕ)
    → m < length xs
    → get_or xs m 0 ≢ 0
    → k ≤ m
    → 0 < kraft (drop k (take (suc m) xs))
unfolding kraft
closing [] m k h ne le = elim h [ ]
closing (x ∷ xs) zero zero h ne le = omega (arith, weight-pos x ne)
closing (x ∷ xs) zero (suc k) h ne le = elim le [ ]
closing (x ∷ xs) (suc m) zero h ne le =
    omega (arith, closing xs m 0 (omega (arith, h)) ne (omega arith))
closing (x ∷ xs) (suc m) (suc k) h ne le = closing xs m k (omega (arith, h)) ne (omega (arith, le))

take-suc :
    (n : ℕ) (xs : List ℕ) → n < length xs → take (suc n) xs ≡ take n xs ++ (get_or xs n 0 ∷ [])
take-suc n [] h = elim h [ ]
take-suc zero (x ∷ xs) h = refl
take-suc (suc n) (x ∷ xs) h = ap (λ (t : List ℕ). x ∷ t) (take-suc n xs (omega (arith, h)))

-- What `trimmed_length` finds: it cuts zeros only, and it leaves no zero at the end.
pub record Trimmed (depth : List ℕ) (n m : ℕ) : Type 0 where
  pub shorter : m ≤ n
  pub zeros : take n depth ≡ take m depth ++ replicate (n - m) 0
  pub closed : Closed (take m depth)

pub trimmed_length-Trimmed :
    (depth : List ℕ) (n : ℕ) → n ≤ length depth → Trimmed depth n (trimmed_length depth n)
unfolding trimmed_length Closed
trimmed_length-Trimmed depth zero h = record {
  shorter = omega arith;
  zeros = refl;
  closed = λ k lt. elim lt [ ];
}
trimmed_length-Trimmed depth (suc n) h = elim (ℕ_discrete (get_or depth n 0) 0) [
  | yes e ↦
      let t = trimmed_length-Trimmed depth n (omega (arith, h)) in
      let one : n - trimmed_length depth n + 1 ≡ suc n - trimmed_length depth n =
        omega (arith, t.shorter) in
      rw (eq→test (get_or depth n 0) 0 e) (record {
        shorter = omega (arith, t.shorter);
        zeros =
            take-suc n depth (omega (arith, h))
            ∙ ap₂ (λ (xs : List ℕ) (x : ℕ). xs ++ (x ∷ [])) t.zeros e
            ∙ append_assoc (take (trimmed_length depth n) depth)
                (replicate (n - trimmed_length depth n) 0) (0 ∷ [])
            ∙ ap (λ (xs : List ℕ). take (trimmed_length depth n) depth ++ xs)
                (replicate-add (n - trimmed_length depth n) 1 0
                  ∙ ap (λ (k : ℕ). replicate k 0) one);
        closed = t.closed;
      })
  | no ne ↦ rw (ne→test (get_or depth n 0) 0 ne) (record {
    shorter = omega arith;
    zeros = sym (
        ap (λ (k : ℕ). take (suc n) depth ++ replicate k 0)
          (let e : suc n - suc n ≡ 0 = omega arith in e)
        ∙ append-nil (take (suc n) depth));
    closed = λ k lt. closing depth n k (omega (arith, h)) ne (omega (arith, lt, sizes));
  })
]
  where
    sizes : length (take (suc n) depth) ≤ suc n
    sizes = omega (arith, length-take (suc n) depth)

pub take-whole : (xs : List ℕ) → take (length xs) xs ≡ xs
take-whole [] = refl
take-whole (x ∷ xs) = ap (λ (t : List ℕ). x ∷ t) (take-whole xs)
