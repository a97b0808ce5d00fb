-- ===== src/Common/Lists.antt =====
-- Lists measured and indexed by native numbers, under the library's names.
use Prim.Native.Nat.{ℕ, zero, suc, ◌+◌, ◌-◌, ◌≤◌, min}
use mathlib.Core.Path.{◌≡◌, refl, ap}
use mathlib.Core.List.{List, [], ◌∷◌, ◌++◌}
use mathlib.Core.Option.{Option, none, some}
use native.Mathlib.Omega.{arith}

module _ {ℓ} {A : Type ℓ} where
  abbrev pub length : List A → ℕ
  length [] = 0
  length (x ∷ xs) = suc (length xs)

  abbrev pub get_elem? : List A → ℕ → Option A
  get_elem? [] i = none
  get_elem? (x ∷ xs) zero = some x
  get_elem? (x ∷ xs) (suc i) = get_elem? xs i

  abbrev pub get_or : List A → ℕ → A → A
  get_or [] i d = d
  get_or (x ∷ xs) zero d = x
  get_or (x ∷ xs) (suc i) d = get_or xs i d

  -- A write out of bounds changes nothing.
  abbrev pub set : List A → ℕ → A → List A
  set [] i v = []
  set (x ∷ xs) zero v = v ∷ xs
  set (x ∷ xs) (suc i) v = x ∷ set xs i v

  abbrev pub take : ℕ → List A → List A
  take zero xs = []
  take (suc n) [] = []
  take (suc n) (x ∷ xs) = x ∷ take n xs

  abbrev pub drop : ℕ → List A → List A
  drop zero xs = xs
  drop (suc n) [] = []
  drop (suc n) (x ∷ xs) = drop n xs

  abbrev pub replicate : ℕ → A → List A
  replicate zero a = []
  replicate (suc n) a = a ∷ replicate n a

  abbrev pub All {κ} : (A → Type κ) → List A → Type κ
  All P [] = Unit {κ}
  All P (x ∷ xs) = P x × All P xs

module _ {ℓ} {A : Type ℓ} where
  pub length-append : (xs ys : List A) → length (xs ++ ys) ≡ length xs + length ys
  length-append [] ys = omega arith
  length-append (x ∷ xs) ys = omega (arith, length-append xs ys)

  pub length-take : (n : ℕ) (xs : List A) → length (take n xs) ≡ min n (length xs)
  length-take zero xs = omega arith
  length-take (suc n) [] = omega arith
  length-take (suc n) (x ∷ xs) = omega (arith, length-take n xs)

  pub length-drop : (n : ℕ) (xs : List A) → length (drop n xs) ≡ length xs - n
  length-drop zero xs = omega arith
  length-drop (suc n) [] = omega arith
  length-drop (suc n) (x ∷ xs) = omega (arith, length-drop n xs)

  pub take-append-drop : (n : ℕ) (xs : List A) → take n xs ++ drop n xs ≡ xs
  take-append-drop zero xs = refl
  take-append-drop (suc n) [] = refl
  take-append-drop (suc n) (x ∷ xs) = ap (λ ys. x ∷ ys) (take-append-drop n xs)

  drop-nil : (n : ℕ) → [] ≡ drop {A = A} n []
  drop-nil zero = refl
  drop-nil (suc n) = refl

  pub drop-drop : (n m : ℕ) (xs : List A) → drop n (drop m xs) ≡ drop (m + n) xs
  drop-drop n zero xs = ap (λ k. drop k xs) (omega arith)
  drop-drop n (suc m) [] = cc (drop-nil n, drop-nil (suc m + n))
  drop-drop n (suc m) (x ∷ xs) = cc (
    drop-drop n m xs,
    ap (λ k. drop k (x ∷ xs)) (let e : suc m + n ≡ suc (m + n) = omega arith in e),
  )

  pub take-append : (k : ℕ) (xs ys : List A) → take (length xs + k) (xs ++ ys) ≡ xs ++ take k ys
  take-append k [] ys = ap (λ (n : ℕ). take n ys) (omega arith)
  take-append k (x ∷ xs) ys = cc (
    take-append k xs ys,
    ap (λ (n : ℕ). take n (x ∷ (xs ++ ys)))
        (let e : suc (length xs) + k ≡ suc (length xs + k) = omega arith in e),
  )

  pub take-append_le : (k : ℕ) (xs ys : List A) → k ≤ length xs → take k (xs ++ ys) ≡ take k xs
  take-append_le zero xs ys h = refl
  take-append_le (suc k) [] ys h = elim h [ ]
  take-append_le (suc k) (x ∷ xs) ys h = ap (λ zs. x ∷ zs) (take-append_le k xs ys (omega arith))

module _ {ℓ} {A : Type ℓ} where
  pub get_or-set_same :
      (xs : List A) (i : ℕ) (v d : A) → suc i ≤ length xs → get_or (set xs i v) i d ≡ v
  get_or-set_same [] i v d h = elim h [ ]
  get_or-set_same (x ∷ xs) zero v d h = refl
  get_or-set_same (x ∷ xs) (suc i) v d h = get_or-set_same xs i v d (omega arith)

  pub get_or-set_other :
      (xs : List A) (i j : ℕ) (v d : A) → (i ≡ j → ⊥) → get_or (set xs i v) j d ≡ get_or xs j d
  get_or-set_other [] i j v d h = refl
  get_or-set_other (x ∷ xs) zero zero v d h = absurd (h refl)
  get_or-set_other (x ∷ xs) zero (suc j) v d h = refl
  get_or-set_other (x ∷ xs) (suc i) zero v d h = refl
  get_or-set_other (x ∷ xs) (suc i) (suc j) v d h = get_or-set_other xs i j v d (λ e. h (ap suc e))

  pub set-get_or : (xs : List A) (i : ℕ) (d : A) → set xs i (get_or xs i d) ≡ xs
  set-get_or [] i d = refl
  set-get_or (x ∷ xs) zero d = refl
  set-get_or (x ∷ xs) (suc i) d = ap (λ (t : List A). x ∷ t) (set-get_or xs i d)

  pub length-set : (xs : List A) (i : ℕ) (v : A) → length (set xs i v) ≡ length xs
  length-set [] i v = refl
  length-set (x ∷ xs) zero v = refl
  length-set (x ∷ xs) (suc i) v = ap suc (length-set xs i v)
