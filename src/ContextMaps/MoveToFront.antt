-- ===== src/ContextMaps/MoveToFront.antt =====
-- The decoder's inverse transform undoes the encoder's.
use mbrotli.Common.{ℕ, zero, suc, ◌+◌, ◌%◌, ◌≤◌, ◌<◌, arith}
use mbrotli.Common.{◌≡◌, refl, sym, ap, ap₂, ◌∙◌, inl, inr, ◌⊎◌, eq→test, ne→test, lt→ltb}
use mbrotli.Common.{List, [], ◌∷◌, ◌++◌, All, get_or, take, drop, length, take-append-drop}
use mathlib.Core.Path.{subst}
use native.Mathlib.Decide.{ℕ_discrete}
use mbrotli.ContextMaps.{
  index_of, move_to_front, count_up, max_value, transform_loop, move_to_front_transform,
  inverse_loop, inverse_transform,
}

-- `value` occurs in the list.
abbrev Has : List ℕ → ℕ → Type 0
Has v value = index_of v value < length v

Has-cases : (x : ℕ) (xs : List ℕ) (u : ℕ) → Has (x ∷ xs) u → (x ≡ u) ⊎ Has xs u
unfolding index_of
Has-cases x xs u h = elim (ℕ_discrete x u) [
  | yes e ↦ inl e
  | no ne ↦ inr (omega (arith, rw (ne→test x u ne) at h))
]

Has-here : (x : ℕ) (xs : List ℕ) → Has (x ∷ xs) x
unfolding index_of
Has-here x xs = rw (eq→test x x refl) (omega arith)

Has-there : (x : ℕ) (xs : List ℕ) (u : ℕ) → Has xs u → Has (x ∷ xs) u
unfolding index_of
Has-there x xs u h = elim (ℕ_discrete x u) [
  | yes e ↦ rw (eq→test x u e) (omega arith)
  | no ne ↦ rw (ne→test x u ne) (omega (arith, h))
]

-- Where a value is found, it stands.
get_or-index_of : (v : List ℕ) (u : ℕ) → Has v u → get_or v (index_of v u) 0 ≡ u
unfolding index_of
get_or-index_of [] u h = elim h [ ]
get_or-index_of (x ∷ xs) u h = elim (ℕ_discrete x u) [
  | yes e ↦ rw (eq→test x u e) e
  | no ne ↦ rw (ne→test x u ne) (get_or-index_of xs u (omega (arith, rw (ne→test x u ne) at h)))
]

-- Taking a position out loses only the value that stands there.
Has-removed :
    (v : List ℕ) (i u : ℕ) → Has v u → (get_or v i 0 ≡ u) ⊎ Has (take i v ++ drop (suc i) v) u
Has-removed [] i u h = elim h [ ]
Has-removed (x ∷ xs) zero u h = Has-cases x xs u h
Has-removed (x ∷ xs) (suc i) u h = elim (Has-cases x xs u h) [
  | inl e ↦ inr (rw e (Has-here u (take i xs ++ drop (suc i) xs)))
  | inr h' ↦ elim (Has-removed xs i u h') [
    | inl e ↦ inl e
    | inr k ↦ inr (Has-there x (take i xs ++ drop (suc i) xs) u k)
  ]
]

-- A longer list reads and rotates the same below the shorter one's length.
get_or-extended : (v rest : List ℕ) (i : ℕ) → i < length v → get_or (v ++ rest) i 0 ≡ get_or v i 0
get_or-extended [] rest i h = elim h [ ]
get_or-extended (x ∷ xs) rest zero h = refl
get_or-extended (x ∷ xs) rest (suc i) h = get_or-extended xs rest i (omega arith)

removed-extended :
    (v rest : List ℕ) (i : ℕ)
    → i < length v
    → take i (v ++ rest) ++ drop (suc i) (v ++ rest) ≡ (take i v ++ drop (suc i) v) ++ rest
removed-extended [] rest i h = elim h [ ]
removed-extended (x ∷ xs) rest zero h = refl
removed-extended (x ∷ xs) rest (suc i) h =
    ap (λ (t : List ℕ). x ∷ t) (removed-extended xs rest i (omega arith))

-- With every value in the encoder's list, and the decoder's list an extension of it.
inverse_loop-transform_loop :
    (input mtf rest : List ℕ)
    → All (λ u. (u < 256) × Has mtf u) input
    → inverse_loop (mtf ++ rest) (transform_loop mtf input) ≡ input
unfolding inverse_loop transform_loop move_to_front
inverse_loop-transform_loop [] mtf rest all = refl
inverse_loop-transform_loop (u ∷ us) mtf rest ((byte, has), all) =
    rw
      (
        let e : u % 256 ≡ u = omega arith in e,
        lt→ltb (index_of mtf u) (length mtf) has,
        get_or-extended mtf rest (index_of mtf u) has,
        get_or-index_of mtf u has,
        removed-extended mtf rest (index_of mtf u) has,
      )
      (ap (λ (t : List ℕ). u ∷ t) (inverse_loop-transform_loop us moved_list rest (moved us all)))
  where
    moved_list : List ℕ
    moved_list = u ∷ (take (index_of mtf u) mtf ++ drop (suc (index_of mtf u)) mtf)

    keeps : (w : ℕ) → Has mtf w → Has moved_list w
    keeps w h = elim (Has-removed mtf (index_of mtf u) w h) [
      | inl e ↦
          subst (λ (t : ℕ). Has moved_list t) (sym (get_or-index_of mtf u has) ∙ e)
            (Has-here u (take (index_of mtf u) mtf ++ drop (suc (index_of mtf u)) mtf))
      | inr k ↦ Has-there u (take (index_of mtf u) mtf ++ drop (suc (index_of mtf u)) mtf) w k
    ]

    moved :
        (xs : List ℕ)
        → All (λ w. (w < 256) × Has mtf w) xs
        → All (λ w. (w < 256) × Has moved_list w) xs
    moved [] h = h
    moved (x ∷ xs) ((b, h), hs) = ((b, keeps x h), moved xs hs)

take-count_up : (n k s : ℕ) → n ≤ k → take n (count_up k s) ≡ count_up n s
unfolding count_up
take-count_up zero zero s h = refl
take-count_up zero (suc k) s h = refl
take-count_up (suc n) zero s h = elim h [ ]
take-count_up (suc n) (suc k) s h =
    ap (λ (t : List ℕ). s ∷ t) (take-count_up n k (suc s) (omega arith))

Has-count_up : (n s u : ℕ) → s ≤ u → u < s + n → Has (count_up n s) u
unfolding count_up
Has-count_up zero s u lo hi = absurd (omega arith)
Has-count_up (suc n) s u lo hi = elim (ℕ_discrete s u) [
  | yes e ↦ rw e (Has-here u (count_up n (suc u)))
  | no ne ↦
      Has-there s (count_up n (suc s)) u (Has-count_up n (suc s) u (omega arith) (omega arith))
]

max_value-lt : (input : List ℕ) → All (λ u. u < 256) input → max_value input < 256
unfolding max_value
max_value-lt [] h = omega arith
max_value-lt (x ∷ xs) (h, hs) = omega (arith, max_value-lt xs hs)

all_listed :
    (input : List ℕ) (m : ℕ)
    → All (λ u. u < 256) input
    → max_value input ≤ m
    → All (λ u. (u < 256) × Has (count_up (m + 1) 0) u) input
unfolding max_value
all_listed [] m all h = tt
all_listed (x ∷ xs) m (b, all) h =
    ((b, Has-count_up (m + 1) 0 x (omega arith) (omega arith)), all_listed xs m all (omega arith))

-- For every context map of bytes, the decoder's inverse transform of the encoder's
-- move-to-front transform is the map.
pub inverse_transform-move_to_front_transform :
    (input : List ℕ)
    → All (λ u. u < 256) input
    → inverse_transform (move_to_front_transform input) ≡ input
unfolding inverse_transform move_to_front_transform
inverse_transform-move_to_front_transform input all =
    let m : ℕ = max_value input in
    let h = max_value-lt input all in
    let listed = take-count_up (m + 1) 256 0 (omega (arith, h)) in
    ap₂ (λ (s t : List ℕ). inverse_loop s (transform_loop t input))
      (sym (take-append-drop (m + 1) (count_up 256 0))
        ∙ ap (λ (t : List ℕ). t ++ drop (m + 1) (count_up 256 0)) listed)
      listed
    ∙ inverse_loop-transform_loop input (count_up (m + 1) 0) (drop (m + 1) (count_up 256 0))
        (all_listed input m all (omega arith))
