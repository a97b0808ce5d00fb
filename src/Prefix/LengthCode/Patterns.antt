-- ===== src/Prefix/LengthCode/Patterns.antt =====
-- The encoder's patterns are those of the canonical codes.
use mbrotli.Common.{
  ℕ, zero, suc, ◌+◌, ◌-◌, ◌*◌, ◌%◌, ◌^◌, ◌≤◌, ◌<◌, arith, List, [], ◌∷◌, Option, none, some, get_or,
  get_elem?, set, take, length, replicate, All,
}
use mbrotli.Common.{
  ◌≡◌, ◌≢◌, refl, sym, ap, ◌∙◌, eq→test, ne→test, get_or-set_same, get_or-set_other, length-set,
}
use native.Mathlib.Decide.{ℕ_discrete}
use native.Mathlib.Nat.{le_refl}
use mathlib.Core.Path.{subst}
use mbrotli.Common.Pow.{mod-pow-eq_of_lt, pow-le}
use mbrotli.Prefix.Keys.{reverse_bits}
use mbrotli.Prefix.LengthCode.{count_depths, first_codes, symbols_of, convert_bit_depths_to_symbols}
use mbrotli.Prefix.LengthCode.Rows.{count, count-same, count-other}
use mbrotli.Prefix.LengthCode.Canonical.{Fits, first_code}

count_depths-get :
    (ds bl : List ℕ) (i : ℕ)
    → All (λ x. x ≤ 15) ds
    → length bl ≡ 16
    → get_or (count_depths ds bl) i 0 ≡ get_or bl i 0 + count i ds
unfolding count_depths
count_depths-get [] bl i h e = unfold count in omega arith
count_depths-get (d ∷ ds) bl i (h, hs) e = elim (ℕ_discrete d i) [
  | yes same ↦
      count_depths-get ds (set bl d (get_or bl d 0 + 1)) i hs
        (length-set bl d (get_or bl d 0 + 1) ∙ e)
      ∙ omega (
        arith,
        count-same i d ds same,
        ap (λ (t : ℕ). get_or (set bl d (get_or bl d 0 + 1)) t 0) (sym same)
            ∙ get_or-set_same bl d (get_or bl d 0 + 1) 0 (omega (arith, h, e)),
        ap (λ (t : ℕ). get_or bl t 0) same,
      )
  | no ne ↦
      count_depths-get ds (set bl d (get_or bl d 0 + 1)) i hs
        (length-set bl d (get_or bl d 0 + 1) ∙ e)
      ∙ omega (arith, count-other i d ds ne, get_or-set_other bl d i (get_or bl d 0 + 1) 0 ne)
]

zeros : (n l : ℕ) → get_or {A = ℕ} (replicate n 0) l 0 ≡ 0
zeros zero l = refl
zeros (suc n) zero = refl
zeros (suc n) (suc l) = zeros n l

-- The first codes of the encoder are those of the rows.
first_codes-get :
    (n m i code : ℕ) (bl ds : List ℕ)
    → m < n
    → i + n ≤ 16
    → (code + get_or bl (i - 1) 0) * 2 < 2 ^ 16
    → Fits n i ((code + get_or bl (i - 1) 0) * 2) ds
    → ((l : ℕ) → i ≤ l → get_or bl l 0 ≡ count l ds)
    → get_or (first_codes n i code bl) m 0 ≡ first_code m i ((code + get_or bl (i - 1) 0) * 2) ds
unfolding first_codes first_code Fits
first_codes-get zero m i code bl ds h top small fits counts = elim h [ ]
first_codes-get (suc n) zero i code bl ds h top small fits counts =
    mod-pow-eq_of_lt ((code + get_or bl (i - 1) 0) * 2) 16 small
first_codes-get (suc n) (suc m) i code bl ds h top small (narrow, room, fits) counts =
    let start : ℕ = (code + get_or bl (i - 1) 0) * 2 in
    let cut : start % 2 ^ 16 ≡ start = mod-pow-eq_of_lt start 16 small in
    let back : (start + get_or bl (suc i - 1) 0) * 2 ≡ (start + count i ds) * 2 =
      ap (λ (t : ℕ). (start + t) * 2)
        (ap (λ (j : ℕ). get_or bl j 0) (let e : suc i - 1 ≡ i = omega arith in e)
          ∙ counts i (le_refl i)) in
    rw cut (
      first_codes-get n m (suc i) start bl ds (omega (arith, h)) (omega (arith, top))
        (omega (arith, back, room, below)) (subst (λ (t : ℕ). Fits n (suc i) t ds) (sym back) fits)
        (λ l le. counts l (omega (arith, le)))
      ∙ ap (λ (t : ℕ). first_code m (suc i) t ds) back)
  where
    below : 2 ^ i ≤ 2 ^ 14
    below = pow-le {b = 14} (omega (arith, top, h))

symbols_of-get :
    (ds next bits : List ℕ) (j w : ℕ)
    → All (λ x. x ≤ 15) ds
    → length next ≡ 16
    → length ds ≤ length bits
    → get_elem? ds j ≡ some w
    → w ≢ 0
    → get_or (symbols_of ds next bits) j 0 ≡ reverse_bits w (get_or next w 0 + count w (take j ds))
unfolding symbols_of
symbols_of-get [] next bits j w h e room at ne = cc
symbols_of-get (d ∷ ds) next [] j w h e room at ne = elim room [ ]
symbols_of-get (d ∷ ds) next (b ∷ bits) zero w h e room at ne =
    let same : d ≡ w = ap {B = ℕ} (λ (o : Option ℕ). elim o [ none ↦ d | some y ↦ y ]) at in
    rw (same, ne→test w 0 ne) (ap (reverse_bits w) (unfold count in omega arith))
symbols_of-get (d ∷ ds) next (b ∷ bits) (suc j) w (h, hs) e room at ne = elim (ℕ_discrete d 0) [
  | yes z ↦ rw (eq→test d 0 z) (
      symbols_of-get ds next bits j w hs e (omega (arith, room)) at ne
      ∙ ap (λ (t : ℕ). reverse_bits w (get_or next w 0 + t))
          (sym (count-other w d (take j ds) (λ y. ne (sym y ∙ z)))))
  | no nz ↦ rw (ne→test d 0 nz) (
      symbols_of-get ds (set next d (get_or next d 0 + 1)) bits j w hs
        (length-set next d (get_or next d 0 + 1) ∙ e) (omega (arith, room)) at ne
      ∙ ap (reverse_bits w) (advance next e))
]
  where
    advance :
        (next : List ℕ)
        → length next ≡ 16
        → get_or (set next d (get_or next d 0 + 1)) w 0 + count w (take j ds)
          ≡ get_or next w 0 + count w (take (suc j) (d ∷ ds))
    advance next e = elim (ℕ_discrete d w) [
      | yes same ↦ omega (
        arith,
        count-same w d (take j ds) same,
        ap (λ (t : ℕ). get_or (set next d (get_or next d 0 + 1)) t 0) (sym same)
            ∙ get_or-set_same next d (get_or next d 0 + 1) 0 (omega (arith, h, e)),
        ap (λ (t : ℕ). get_or next t 0) same,
      )
      | no other ↦ omega (
        arith,
        count-other w d (take j ds) other,
        get_or-set_other next d w (get_or next d 0 + 1) 0 other,
      )
    ]

cleared : (xs : List ℕ) → get_or (set xs 0 0) 0 0 ≡ 0
cleared [] = refl
cleared (x ∷ xs) = refl

length-first_codes : (n i code : ℕ) (bl : List ℕ) → length (first_codes n i code bl) ≡ n
unfolding first_codes
length-first_codes zero i code bl = refl
length-first_codes (suc n) i code bl =
    ap suc (length-first_codes n (suc i) ((code + get_or bl (i - 1) 0) * 2 % 2 ^ 16) bl)

-- The pattern of a symbol: its place among those of its length, after the first code of the length.
pub convert-get :
    (ds bits : List ℕ) (j w : ℕ)
    → All (λ x. x ≤ 15) ds
    → Fits 15 1 0 ds
    → length ds ≤ length bits
    → get_elem? ds j ≡ some (suc w)
    → w < 15
    → get_or (convert_bit_depths_to_symbols ds bits) j 0
      ≡ reverse_bits (suc w) (first_code w 1 0 ds + count (suc w) (take j ds))
unfolding convert_bit_depths_to_symbols
convert-get ds bits j w h fits room at less =
    symbols_of-get ds (0 ∷ first_codes 15 1 0 bl) bits j (suc w) h
      (ap suc (length-first_codes 15 1 0 bl)) room at (λ e. omega (arith, e))
    ∙ ap (λ (t : ℕ). reverse_bits (suc w) (t + count (suc w) (take j ds)))
        (first_codes-get 15 w 1 0 bl ds less (omega arith) (omega (arith, none_zero))
            (subst (λ (t : ℕ). Fits 15 1 t ds) (sym none_zero) fits) counts
          ∙ ap (λ (t : ℕ). first_code w 1 t ds) none_zero)
  where
    bl : List ℕ
    bl = set (count_depths ds (replicate 16 0)) 0 0

    none_zero : (0 + get_or bl (1 - 1) 0) * 2 ≡ 0
    none_zero = ap (λ (t : ℕ). (0 + t) * 2) (cleared (count_depths ds (replicate 16 0)))

    counts : (l : ℕ) → 1 ≤ l → get_or bl l 0 ≡ count l ds
    counts l le =
        get_or-set_other (count_depths ds (replicate 16 0)) 0 l 0 0 (λ e. omega (arith, e, le))
        ∙ count_depths-get ds (replicate 16 0) l h refl
        ∙ omega (arith, zeros 16 l)
