-- ===== src/Prefix/CodeLengths/Stages.antt =====
-- What the stage knows after the first lengths in the order, and how many lengths are stored.
use mbrotli.Common.{
  ℕ, zero, suc, ◌+◌, ◌-◌, ◌*◌, ◌/◌, ◌^◌, ◌≤◌, ◌<◌, arith, ltb, ◌==◌, ◌≡◌, ◌∙◌, inl, inr, refl, sym,
  ap, false, List, [], ◌∷◌, get_or, length, if◌then◌else◌, all_below_sound, eq_of_test, ltb→lt,
  ltb→ge, ge→ltb, Bool-cases, eq→test, length-set, get_or-set_same, get_or-set_other,
}
use mbrotli.Common.Slices.{array_ext, get_or-replicate}
use mbrotli.Command.{pos}
use mbrotli.Prefix.Lengths.{minus}
use mbrotli.Prefix.CodeLengths.{Small, order, take_value, start_lengths, codes_to_store, skip_some}
use mbrotli.Prefix.CodeLengths.Values.{placed}

-- The share of the 32 codes of five bits that a length takes, and the shares of the first lengths.
unfoldable pub share : ℕ → ℕ
share v = if v == 0 then 0 else 32 / 2 ^ v

unfoldable pub shares : ℕ → List ℕ → ℕ
shares zero depths = 0
shares (suc k) depths = shares k depths + share (placed depths k)

-- How many of the first lengths are not 0.
unfoldable pub used : ℕ → List ℕ → ℕ
used zero depths = 0
used (suc k) depths = used k depths + (if placed depths k == 0 then 0 else 1)

abbrev pub place : ℕ → ℕ
place i = get_or order i 0

abbrev places : List ℕ
places = 4 ∷ 0 ∷ 1 ∷ 2 ∷ 3 ∷ 5 ∷ 7 ∷ 9 ∷ 10 ∷ 11 ∷ 12 ∷ 13 ∷ 14 ∷ 15 ∷ 16 ∷ 17 ∷ 8 ∷ 6 ∷ []

place-lt : (i : ℕ) → i < 18 → place i < 18
place-lt i h = ltb→lt (place i) 18 (all_below_sound 18 (λ j. ltb (place j) 18) i refl h)

places-lt : (j : ℕ) → j < 18 → get_or places j 0 < 18
places-lt j h =
    ltb→lt (get_or places j 0) 18 (all_below_sound 18 (λ k. ltb (get_or places k 0) 18) j refl h)

place-places : (j : ℕ) → j < 18 → place (get_or places j 0) ≡ j
place-places j h =
    eq_of_test (place (get_or places j 0)) j
      (all_below_sound 18 (λ k. place (get_or places k 0) == k) j refl h)

-- The order has each symbol once.
places-place : (i : ℕ) → i < 18 → get_or places (place i) 0 ≡ i
places-place i h =
    eq_of_test (get_or places (place i) 0) i
      (all_below_sound 18 (λ k. get_or places (place k) 0 == k) i refl h)

place-injective : (i j : ℕ) → i < 18 → j < 18 → place i ≡ place j → i ≡ j
place-injective i j hi hj e =
    sym (places-place i hi) ∙ ap (λ (k : ℕ). get_or places k 0) e ∙ places-place j hj

pub record At (depths : List ℕ) (k : ℕ) (s : Small) : Type 0 where
  pub index : s.index ≡ k
  pub size : length s.small ≡ 18
  pub known : (i : ℕ) → i < 18 → i < k → get_or s.small (place i) 0 ≡ placed depths i
  pub unknown : (i : ℕ) → i < 18 → k ≤ i → get_or s.small (place i) 0 ≡ 0
  pub space : s.space ≡ pos (32 - shares k depths)
  pub count : s.count ≡ used k depths

module _ (depths : List ℕ) where
  minus-share :
      (v n : ℕ)
      → share v ≤ n
      → (if v == 0 then pos n else minus (pos n) (32 / 2 ^ v)) ≡ pos (n - share v)
  unfolding share minus
  minus-share v n h = elim (Bool-cases (v == 0)) [
    | inl e ↦ rw e (ap pos (omega arith))
    | inr e ↦ let fits : 32 / 2 ^ v ≤ n = rw e at h in rw (e, ge→ltb n (32 / 2 ^ v) fits) refl
  ]

  more_used : (n v : ℕ) → (if v == 0 then n else n + 1) ≡ n + (if v == 0 then 0 else 1)
  more_used n v = ground arith

  pub take_value-At :
      (k : ℕ) (s : Small)
      → k < 18
      → shares (suc k) depths ≤ 32
      → At depths k s
      → At depths (suc k) (take_value (placed depths k) s)
  unfolding take_value shares used
  take_value-At k s lt fits a = record {
    index = omega (arith, a.index);
    size = length-set s.small (get_or order s.index 0) (placed depths k) ∙ a.size;
    known = λ i hi below. elim (Bool-cases (ltb i k)) [
      | inl e ↦ rw a.index (
          get_or-set_other s.small (place k) (place i) (placed depths k) 0
            (λ same. omega (arith, place-injective k i lt hi same, ltb→lt i k e))
          ∙ a.known i hi (ltb→lt i k e))
      | inr e ↦
          let last : k ≡ i = omega (arith, below, ltb→ge i k e) in
          rw (a.index, ← last)
            (get_or-set_same s.small (place k) (placed depths k) 0
              (omega (arith, a.size, place-lt k lt)))
    ];
    unknown = λ i hi above. rw a.index (
        get_or-set_other s.small (place k) (place i) (placed depths k) 0
          (λ same. omega (arith, place-injective k i lt hi same, above))
        ∙ a.unknown i hi (omega (arith, above)));
    space = rw a.space (
        minus-share (placed depths k) (32 - shares k depths) (omega (arith, fits))
        ∙ ap pos (omega arith));
    count = rw a.count (more_used (used k depths) (placed depths k));
  }

  -- The lengths that are not read are 0.
  pub At-all :
      (k : ℕ) (s : Small)
      → length depths ≡ 18
      → At depths k s
      → ((i : ℕ) → k ≤ i → i < 18 → placed depths i ≡ 0)
      → s.small ≡ depths
  At-all k s size a rest = array_ext s.small depths 0 (a.size ∙ sym size) (λ j h.
      let i : ℕ = get_or places j 0 in
      let small : i < 18 = places-lt j (omega (arith, h, a.size)) in
      let same : place i ≡ j = place-places j (omega (arith, h, a.size)) in
      ap (λ (m : ℕ). get_or s.small m 0) (sym same)
      ∙ elim (Bool-cases (ltb i k)) [
        | inl e ↦ a.known i small (ltb→lt i k e)
        | inr e ↦ a.unknown i small (ltb→ge i k e) ∙ sym (rest i (ltb→ge i k e) small)
      ]
      ∙ ap (λ (m : ℕ). get_or depths m 0) same)

  none_before :
      (k : ℕ)
      → ((i : ℕ) → i < k → placed depths i ≡ 0)
      → (shares k depths ≡ 0) × (used k depths ≡ 0)
  unfolding shares used share
  none_before zero h = (refl, refl)
  none_before (suc k) h =
      let (none, unused) = none_before k (λ i lt. h i (omega (arith, lt))) in
      rw (h k (omega arith)) (omega (arith, none), omega (arith, unused))

  pub start_lengths-At :
      (k : ℕ) → ((i : ℕ) → i < k → placed depths i ≡ 0) → At depths k (start_lengths k)
  unfolding start_lengths
  start_lengths-At k h = record {
    index = refl;
    size = refl;
    known = λ i hi lt. get_or-replicate 18 0 (place i) 0 (place-lt i hi) ∙ sym (h i lt);
    unknown = λ i hi le. get_or-replicate 18 0 (place i) 0 (place-lt i hi);
    space = ap pos (omega (arith, (none_before k h).0));
    count = sym (none_before k h).1;
  }

  -- Lengths of 0 add no share.
  pub shares_rest :
      (n k : ℕ)
      → ((i : ℕ) → k ≤ i → i < k + n → placed depths i ≡ 0)
      → shares (k + n) depths ≡ shares k depths
  unfolding shares share
  shares_rest zero k h = ap (λ (m : ℕ). shares m depths) (let z : k + 0 ≡ k = omega arith in z)
  shares_rest (suc n) k h =
      ap (λ (m : ℕ). shares m depths) (let z : k + suc n ≡ suc (k + n) = omega arith in z)
      ∙ ap (λ (v : ℕ). shares (k + n) depths + (if v == 0 then 0 else 32 / 2 ^ v))
          (h (k + n) (omega arith) (omega arith))
      ∙ (let z : shares (k + n) depths + 0 ≡ shares (k + n) depths = omega arith in z)
      ∙ shares_rest n k (λ i le lt. h i le (omega (arith, lt)))

  pub used_rest :
      (n k : ℕ)
      → ((i : ℕ) → k ≤ i → i < k + n → placed depths i ≡ 0)
      → used (k + n) depths ≡ used k depths
  unfolding used
  used_rest zero k h = ap (λ (m : ℕ). used m depths) (let z : k + 0 ≡ k = omega arith in z)
  used_rest (suc n) k h =
      ap (λ (m : ℕ). used m depths) (let z : k + suc n ≡ suc (k + n) = omega arith in z)
      ∙ ap (λ (v : ℕ). used (k + n) depths + (if v == 0 then 0 else 1))
          (h (k + n) (omega arith) (omega arith))
      ∙ (let z : used (k + n) depths + 0 ≡ used (k + n) depths = omega arith in z)
      ∙ used_rest n k (λ i le lt. h i le (omega (arith, lt)))

  pub shares-le : (n k : ℕ) → shares k depths ≤ shares (k + n) depths
  unfolding shares
  shares-le zero k =
      let z : k ≡ k + 0 = omega arith in omega (arith, ap (λ (m : ℕ). shares m depths) z)
  shares-le (suc n) k =
      let z : k + suc n ≡ suc (k + n) = omega arith in
      omega (arith, ap (λ (m : ℕ). shares m depths) z, shares-le n k)

  -- The last length that is stored is not 0.
  pub codes_to_store-last :
      (n : ℕ)
      → (codes_to_store n depths ≤ n)
        × ((i : ℕ) → codes_to_store n depths ≤ i → i < n → placed depths i ≡ 0)
        × ((k : ℕ) → codes_to_store n depths ≡ suc k → placed depths k ≡ 0 → ⊥)
  unfolding codes_to_store
  codes_to_store-last zero =
      (omega arith, λ i le lt. absurd (omega (arith, lt)), λ k e zero_there. omega (arith, e))
  codes_to_store-last (suc n) =
      let (fewer, zeros, last) = codes_to_store-last n in
      elim (Bool-cases (placed depths n == 0)) [
        | inl e ↦
            rw (codes_to_store, e)
              (
                omega (arith, fewer),
                λ i le lt. elim (Bool-cases (ltb i n)) [
                  | inl f ↦ zeros i le (ltb→lt i n f)
                  | inr f ↦
                      let same : n ≡ i = omega (arith, lt, ltb→ge i n f) in
                      ap (λ (k : ℕ). placed depths k) (sym same) ∙ eq_of_test (placed depths n) 0 e
                ],
                last,
              )
        | inr e ↦
            rw (codes_to_store, e)
              (
                omega arith,
                λ i le lt. absurd (omega (arith, le, lt)),
                λ k same none.
                    let here : n ≡ k = omega (arith, same) in
                    cc (
                      e,
                      eq→test (placed depths n) 0 (ap (λ (m : ℕ). placed depths m) here ∙ none),
                    ),
              )
      ]

  -- The skipped lengths are 0, and there is not one of them.
  pub skip_some-cases :
      ((skip_some depths == 1) ≡ false)
      × (skip_some depths ≤ 3)
      × ((i : ℕ) → i < skip_some depths → placed depths i ≡ 0)
  unfolding skip_some
  skip_some-cases = elim (Bool-cases (placed depths 0 == 0)) [
    | inr e ↦ rw e (refl, omega arith, λ i lt. absurd (omega (arith, lt)))
    | inl e ↦ elim (Bool-cases (placed depths 1 == 0)) [
      | inr f ↦ rw (e, f) (refl, omega arith, λ i lt. absurd (omega (arith, lt)))
      | inl f ↦ elim (Bool-cases (placed depths 2 == 0)) [
        | inr g ↦
            rw (e, f, g)
              (
                refl,
                omega arith,
                λ i lt.
                    first 2 (omega arith) (eq_of_test _ 0 e) (eq_of_test _ 0 f)
                      (λ h. absurd (omega (arith, h))) i lt,
              )
        | inl g ↦
            rw (e, f, g)
              (
                refl,
                omega arith,
                λ i lt.
                    first 3 (omega arith) (eq_of_test _ 0 e) (eq_of_test _ 0 f)
                      (λ h. eq_of_test _ 0 g) i lt,
              )
      ]
    ]
  ]
    where
      first :
          (n : ℕ)
          → n ≤ 3
          → placed depths 0 ≡ 0
          → placed depths 1 ≡ 0
          → (2 < n → placed depths 2 ≡ 0)
          → (i : ℕ) → i < n
          → placed depths i ≡ 0
      first n le a b c zero lt = a
      first n le a b c (suc zero) lt = b
      first n le a b c (suc (suc zero)) lt = c lt
      first n le a b c (suc (suc (suc i))) lt = absurd (omega (arith, lt, le))

  -- A length that is not 0 has a share, of 16 at most.
  pub share-bounds : (v : ℕ) → v ≤ 5 → (v ≡ 0 → ⊥) → (0 < share v) × (share v ≤ 16)
  unfolding share
  share-bounds zero h ne = absurd (ne refl)
  share-bounds (suc zero) h ne = omega arith
  share-bounds (suc (suc zero)) h ne = omega arith
  share-bounds (suc (suc (suc zero))) h ne = omega arith
  share-bounds (suc (suc (suc (suc zero)))) h ne = omega arith
  share-bounds (suc (suc (suc (suc (suc zero))))) h ne = omega arith
  share-bounds (suc (suc (suc (suc (suc (suc v)))))) h ne = absurd (omega (arith, h))

  pub shares-used : ((i : ℕ) → placed depths i ≤ 5) → (k : ℕ) → shares k depths ≤ 16 * used k depths
  unfolding shares used
  shares-used fine zero = omega arith
  shares-used fine (suc k) = elim (Bool-cases (placed depths k == 0)) [
    | inl e ↦
        rw (used, e)
          (omega (
            arith,
            shares-used fine k,
            ap share (eq_of_test (placed depths k) 0 e),
            let z : share 0 ≡ 0 = unfold share in refl in z,
          ))
    | inr e ↦
        rw (used, e)
          (omega (
            arith,
            shares-used fine k,
            (share-bounds (placed depths k) (fine k) (λ z. not_zero (placed depths k) e z)).1,
          ))
  ]
    where
      not_zero : (v : ℕ) → (v == 0) ≡ false → v ≡ 0 → ⊥
      not_zero v e z = cc (e, eq→test v 0 z)
