-- ===== src/Common/Slices.antt =====
-- Slices of arrays: reads and writes that fail out of range, and results that are sure to succeed.
use Prim.Native.Nat.{ℕ, zero, suc, ◌+◌, ◌≤◌, ◌<◌}
use mathlib.Core.Path.{◌≡◌, refl, ap, ◌∙◌}
use mathlib.Core.List.{List, [], ◌∷◌, ◌++◌}
use mathlib.Core.Option.{Option, none, some}
use mathlib.Core.Logic.{◌⊎◌, inl}
use native.Mathlib.Omega.{arith}
use mbrotli.Common.Tests.{leb, ltb, if◌then◌else◌}
use mbrotli.Common.Lists.{
  length, get_or, get_elem?, set, take, drop, replicate, length-set, length-take, length-drop,
  get_or-set_same, get_or-set_other,
}

infixl 1 ◌>>=◌
abbrev pub ◌>>=◌ {ℓ κ} : {A : Type ℓ} {B : Type κ} → Option A → (A → Option B) → Option B
none >>= f = none
some a >>= f = f a

-- The result is there, and has the property.
pub data Gives {ℓ κ} {A : Type ℓ} (P : A → Type κ) : Option A → Type (ℓ ⊔ κ) where
  gives : {a : A} → P a → Gives P (some a)

pub Gives-bind {ℓ κ ℓ' κ'} :
    {A : Type ℓ} {P : A → Type κ} {B : Type ℓ'} {Q : B → Type κ'} {r : Option A} {f : A → Option B}
    → Gives P r
    → ((a : A) → P a → Gives Q (f a))
    → Gives Q (r >>= f)
Gives-bind (gives p) k = k _ p

pub Gives-map {ℓ κ κ'} :
    {A : Type ℓ} {P : A → Type κ} {Q : A → Type κ'} {r : Option A}
    → Gives P r
    → ((a : A) → P a → Q a)
    → Gives Q r
Gives-map (gives p) k = gives (k _ p)

-- The elements of a list, put over the array's from an index on.
abbrev pub overlay {ℓ} : {A : Type ℓ} → List A → ℕ → List A → List A
overlay xs i [] = xs
overlay xs i (y ∷ ys) = overlay (set xs i y) (suc i) ys

-- `xs[i] = v`
unfoldable pub store {ℓ} : {A : Type ℓ} → List A → ℕ → A → Option (List A)
store xs i v = if ltb i (length xs) then some (set xs i v) else none

-- `&xs[start..start + n]`
unfoldable pub slice {ℓ} : {A : Type ℓ} → List A → ℕ → ℕ → Option (List A)
slice xs start n = if leb (start + n) (length xs) then some (take n (drop start xs)) else none

-- `xs[start..start + ys.len()].copy_from_slice(ys)`
unfoldable pub write_slice {ℓ} : {A : Type ℓ} → List A → ℕ → List A → Option (List A)
write_slice xs start ys =
    if leb (start + length ys) (length xs) then some (overlay xs start ys) else none

module _ {ℓ} {A : Type ℓ} where
  pub length-overlay : (xs : List A) (i : ℕ) (ys : List A) → length (overlay xs i ys) ≡ length xs
  length-overlay xs i [] = refl
  length-overlay xs i (y ∷ ys) = length-overlay (set xs i y) (suc i) ys ∙ length-set xs i y

  pub get_or-overlay_outside :
      (xs : List A) (i : ℕ) (ys : List A) (j : ℕ) (d : A)
      → (j < i) ⊎ (i + length ys ≤ j)
      → get_or (overlay xs i ys) j d ≡ get_or xs j d
  get_or-overlay_outside xs i [] j d h = refl
  get_or-overlay_outside xs i (y ∷ ys) j d h =
      get_or-overlay_outside (set xs i y) (suc i) ys j d (omega (arith, h))
      ∙ get_or-set_other xs i j y d (λ e. omega (arith, h, e))

  pub get_or-overlay_inside :
      (xs : List A) (i : ℕ) (ys : List A) (k : ℕ) (d : A)
      → k < length ys
      → i + length ys ≤ length xs
      → get_or (overlay xs i ys) (i + k) d ≡ get_or ys k d
  get_or-overlay_inside xs i [] k d h le = elim h [ ]
  get_or-overlay_inside xs i (y ∷ ys) zero d h le =
      get_or-overlay_outside (set xs i y) (suc i) ys (i + 0) d (inl (omega arith))
      ∙ ap (λ (n : ℕ). get_or (set xs i y) n d) (let e : i + 0 ≡ i = omega arith in e)
      ∙ get_or-set_same xs i y d (omega (arith, le))
  get_or-overlay_inside xs i (y ∷ ys) (suc k) d h le =
      ap (λ (n : ℕ). get_or (overlay (set xs i y) (suc i) ys) n d)
        (let e : i + suc k ≡ suc i + k = omega arith in e)
      ∙ get_or-overlay_inside (set xs i y) (suc i) ys k d (omega arith)
          (omega (arith, le, length-set xs i y))

  pub get_or-drop :
      (n : ℕ) (xs : List A) (i : ℕ) (d : A) → get_or (drop n xs) i d ≡ get_or xs (n + i) d
  get_or-drop zero xs i d = ap (λ (k : ℕ). get_or xs k d) (omega arith)
  get_or-drop (suc n) [] i d = refl
  get_or-drop (suc n) (x ∷ xs) i d =
      get_or-drop n xs i d
      ∙ ap (λ (k : ℕ). get_or (x ∷ xs) k d) (let e : suc (n + i) ≡ suc n + i = omega arith in e)

  pub get_or-take :
      (n : ℕ) (xs : List A) (i : ℕ) (d : A) → i < n → get_or (take n xs) i d ≡ get_or xs i d
  get_or-take zero xs i d h = elim h [ ]
  get_or-take (suc n) [] i d h = refl
  get_or-take (suc n) (x ∷ xs) zero d h = refl
  get_or-take (suc n) (x ∷ xs) (suc i) d h = get_or-take n xs i d (omega arith)

  pub get_or-append_left :
      (xs ys : List A) (i : ℕ) (d : A) → i < length xs → get_or (xs ++ ys) i d ≡ get_or xs i d
  get_or-append_left [] ys i d h = elim h [ ]
  get_or-append_left (x ∷ xs) ys zero d h = refl
  get_or-append_left (x ∷ xs) ys (suc i) d h = get_or-append_left xs ys i d (omega arith)

  pub get_or-append_right :
      (xs ys : List A) (i : ℕ) (d : A) → get_or (xs ++ ys) (length xs + i) d ≡ get_or ys i d
  get_or-append_right [] ys i d = ap (λ (k : ℕ). get_or ys k d) (omega arith)
  get_or-append_right (x ∷ xs) ys i d =
      ap (λ (k : ℕ). get_or (x ∷ (xs ++ ys)) k d)
        (let e : suc (length xs) + i ≡ suc (length xs + i) = omega arith in e)
      ∙ get_or-append_right xs ys i d

  pub get_or-replicate : (n : ℕ) (a : A) (i : ℕ) (d : A) → i < n → get_or (replicate n a) i d ≡ a
  get_or-replicate zero a i d h = elim h [ ]
  get_or-replicate (suc n) a zero d h = refl
  get_or-replicate (suc n) a (suc i) d h = get_or-replicate n a i d (omega arith)

  pub length-replicate : (n : ℕ) (a : A) → length (replicate n a) ≡ n
  length-replicate zero a = refl
  length-replicate (suc n) a = ap suc (length-replicate n a)

  pub get_elem?-get_or :
      (xs : List A) (i : ℕ) (d : A) → i < length xs → get_elem? xs i ≡ some (get_or xs i d)
  get_elem?-get_or [] i d h = elim h [ ]
  get_elem?-get_or (x ∷ xs) zero d h = refl
  get_elem?-get_or (x ∷ xs) (suc i) d h = get_elem?-get_or xs i d (omega arith)

  -- Arrays of one length that agree at every index are equal.
  pub array_ext :
      (xs ys : List A) (d : A)
      → length xs ≡ length ys
      → ((i : ℕ) → i < length xs → get_or xs i d ≡ get_or ys i d)
      → xs ≡ ys
  array_ext [] [] d e h = refl
  array_ext [] (y ∷ ys) d e h = absurd (omega (arith, e))
  array_ext (x ∷ xs) [] d e h = absurd (omega (arith, e))
  array_ext (x ∷ xs) (y ∷ ys) d e h =
      ap (λ (z : A). z ∷ xs) (h 0 (omega arith))
      ∙ ap (λ (t : List A). y ∷ t)
          (array_ext xs ys d (omega (arith, e)) (λ i lt. h (suc i) (omega (arith, lt))))

  pub store_of_lt : (xs : List A) (i : ℕ) (v : A) → i < length xs → store xs i v ≡ some (set xs i v)
  unfolding store
  store_of_lt xs i v h = ground arith

  pub slice_of_le :
      (xs : List A) (start n : ℕ)
      → start + n ≤ length xs
      → slice xs start n ≡ some (take n (drop start xs))
  unfolding slice
  slice_of_le xs start n h = ground arith

  pub write_slice_of_le :
      (xs : List A) (start : ℕ) (ys : List A)
      → start + length ys ≤ length xs
      → write_slice xs start ys ≡ some (overlay xs start ys)
  unfolding write_slice
  write_slice_of_le xs start ys h = ground arith

  pub get_or-slice :
      (xs : List A) (start n i : ℕ) (d : A)
      → i < n
      → get_or (take n (drop start xs)) i d ≡ get_or xs (start + i) d
  get_or-slice xs start n i d h = get_or-take n (drop start xs) i d h ∙ get_or-drop start xs i d

  pub length-slice :
      (xs : List A) (start n : ℕ) → start + n ≤ length xs → length (take n (drop start xs)) ≡ n
  length-slice xs start n h = omega (arith, length-take n (drop start xs), length-drop start xs, h)

  pub slice-cases :
      (xs : List A) (start n : ℕ) → (slice xs start n ≡ none) ⊎ (start + n ≤ length xs)
  unfolding slice
  slice-cases xs start n = ground arith

  pub write_slice-cases :
      (xs : List A) (start : ℕ) (ys : List A)
      → (write_slice xs start ys ≡ none) ⊎ (start + length ys ≤ length xs)
  unfolding write_slice
  write_slice-cases xs start ys = ground arith
