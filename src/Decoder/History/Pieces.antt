-- ===== src/Decoder/History/Pieces.antt =====
-- One piece of a copy, and the reference that it follows.
use native.Mathlib.Nat.{mod-eq_of_lt, add-mod_left}
use mbrotli.Common.{
  ℕ, zero, suc, ◌+◌, ◌-◌, ◌%◌, ◌^◌, ◌≤◌, ◌<◌, arith, max, ltb, leb, ◌≡◌, ◌∙◌, ◌⊎◌, inl, inr, refl,
  sym, ap, Bool-cases, if◌then◌else◌, Option, none, List, [], ◌∷◌, ◌++◌, length, get_or, take, drop,
  length-append, leb→le, ltb→lt, ltb→ge, lt→ltb, ge→ltb,
}
use mbrotli.Common.Slices.{
  Gives, gives, Gives-map, get_or-append_left, get_or-append_right, overlay, length-overlay,
  slice-cases, write_slice-cases, slice_of_le, length-slice, write_slice_of_le,
}
use mbrotli.Decoder.History.{
  copy_back, copy_piece, copy_overlapping, copy_within, copy_short, copy16, copy_vector,
}
use mbrotli.Decoder.History.Copies.{
  Repeats, copy_overlapping-Repeats, copy_within_lem, moved-inside, moved-outside,
}
use mbrotli.Decoder.History.Spans.{Extends}

pub length-copy_back :
    (n d : ℕ) (decoded : List ℕ) → length (copy_back n d decoded) ≡ length decoded + n
unfolding copy_back
length-copy_back zero d decoded = omega arith
length-copy_back (suc n) d decoded =
    length-append (copy_back n d decoded) _ ∙ omega (arith, length-copy_back n d decoded)

-- A copy in two parts.
pub copy_back_add :
    (m n d : ℕ) (decoded : List ℕ)
    → copy_back (n + m) d decoded ≡ copy_back n d (copy_back m d decoded)
unfolding copy_back
copy_back_add m zero d decoded =
    ap (λ (k : ℕ). copy_back k d decoded) (let e : 0 + m ≡ m = omega arith in e)
copy_back_add m (suc n) d decoded =
    ap (λ (k : ℕ). copy_back k d decoded) (let e : suc n + m ≡ suc (n + m) = omega arith in e)
    ∙ ap (λ (before : List ℕ). before ++ (get_or before (length before - d) 0 ∷ []))
        (copy_back_add m n d decoded)

-- The byte that a copy adds to what it repeats.
repeated_byte :
    (n d : ℕ) (decoded before : List ℕ)
    → 0 < d
    → d ≤ length decoded
    → Extends decoded n (λ i. get_or decoded (length decoded - d + i % d) 0) before
    → get_or before (length before - d) 0 ≡ get_or decoded (length decoded - d + n % d) 0
repeated_byte n d decoded before any le x = elim (Bool-cases (ltb n d)) [
  | inl e ↦
      let low : n < d = ltb→lt n d e in
      ap (λ (k : ℕ). get_or before k 0)
        (let z : length before - d ≡ length decoded - d + n = omega (arith, x.size, le) in z)
      ∙ x.keeps (length decoded - d + n) (omega (arith, low, le))
      ∙ ap (λ (k : ℕ). get_or decoded (length decoded - d + k) 0) (sym (mod-eq_of_lt low))
  | inr e ↦
      let high : d ≤ n = ltb→ge n d e in
      ap (λ (k : ℕ). get_or before k 0)
        (let z : length before - d ≡ length decoded + (n - d) = omega (arith, x.size, high) in z)
      ∙ x.adds (n - d) (omega (arith, high, any))
      ∙ ap (λ (k : ℕ). get_or decoded (length decoded - d + k) 0)
          (sym (add-mod_left d (n - d))
            ∙ ap (λ (k : ℕ). k % d) (let z : d + (n - d) ≡ n = omega (arith, high) in z))
]

-- One more element.
Extends-append :
    (n : ℕ) (more : ℕ → ℕ) (decoded before : List ℕ) (next : ℕ)
    → Extends decoded n more before
    → next ≡ more n
    → Extends decoded (suc n) more (before ++ (next ∷ []))
Extends-append n more decoded before next x same = record {
  size = length-append before (next ∷ []) ∙ omega (arith, x.size);
  keeps = λ p h. get_or-append_left before (next ∷ []) p 0 (omega (arith, x.size, h)) ∙ x.keeps p h;
  adds = λ i h. elim (Bool-cases (ltb i n)) [
    | inl e ↦
        get_or-append_left before (next ∷ []) (length decoded + i) 0
          (omega (arith, x.size, ltb→lt i n e))
        ∙ x.adds i (ltb→lt i n e)
    | inr e ↦
        let last : n ≡ i = omega (arith, h, ltb→ge i n e) in
        ap (λ (k : ℕ). get_or (before ++ (next ∷ [])) k 0)
          (let z : length decoded + i ≡ length before + 0 = omega (arith, x.size, last) in z)
        ∙ get_or-append_right before (next ∷ []) 0 0
        ∙ same
        ∙ ap more last
  ];
}

-- A copy's bytes repeat the last ones of what was decoded.
pub copy_back-Extends :
    (n d : ℕ) (decoded : List ℕ)
    → 0 < d
    → d ≤ length decoded
    → Extends decoded n (λ i. get_or decoded (length decoded - d + i % d) 0) (copy_back n d decoded)
unfolding copy_back
copy_back-Extends zero d decoded any le = record {
  size = omega arith;
  keeps = λ p h. refl;
  adds = λ i h. absurd (omega (arith, h));
}
copy_back-Extends (suc n) d decoded any le =
    let x = copy_back-Extends n d decoded any le in
    Extends-append n (λ i. get_or decoded (length decoded - d + i % d) 0) decoded
      (copy_back n d decoded)
      (get_or (copy_back n d decoded) (length (copy_back n d decoded) - d) 0) x
      (repeated_byte n d decoded (copy_back n d decoded) any le x)

-- Bytes that lie before the run, or from its start on, are not changed before they are read.
module _ (ring : List ℕ) (src dst n d : ℕ) (away : n ≤ d) where
  moved-Repeats :
      (m slack : ℕ)
      → n ≤ m
      → m ≤ max n slack
      → src + m ≤ length ring
      → dst + m ≤ length ring
      → Repeats ring dst src n slack d (overlay ring dst (take m (drop src ring)))
  moved-Repeats m slack le few from into = record {
    size = length-overlay ring dst (take m (drop src ring));
    outside = λ x h. moved-outside ring src m dst x from (omega (arith, h, few));
    inside = λ j h.
        moved-inside ring src m dst j from into (omega (arith, h, le))
        ∙ ap (λ (k : ℕ). get_or ring (src + k) 0) (sym (mod-eq_of_lt (omega (arith, h, away))));
  }

  pub copy_within-Repeats :
      (slack : ℕ)
      → src + n ≤ length ring
      → dst + n ≤ length ring
      → Gives (Repeats ring dst src n slack d) (copy_within ring src n dst)
  copy_within-Repeats slack from into =
      rw (copy_within_lem ring src n dst from into)
        (gives (moved-Repeats n slack (omega arith) (omega arith) from into))

  -- A vector copy, or none.
  pub copy_vector-Repeats :
      (width slack : ℕ)
      → n ≤ width
      → width ≤ slack
      → (copy_vector width ring src dst ≡ none)
        ⊎ ((src + width ≤ length ring)
            × (dst + width ≤ length ring)
            × Gives (Repeats ring dst src n slack d) (copy_vector width ring src dst))
  unfolding copy_vector
  copy_vector-Repeats width slack le few = elim (slice-cases ring src width) [
    | inl e ↦ inl (rw (copy_vector, e) refl)
    | inr from ↦ elim (write_slice-cases ring dst (take width (drop src ring))) [
      | inl e ↦ inl (rw (copy_vector, slice_of_le ring src width from) e)
      | inr into ↦
          let into' : dst + width ≤ length ring =
            omega (arith, into, length-slice ring src width from) in
          inr (
            from,
            into',
            rw
                (
                  copy_vector,
                  slice_of_le ring src width from,
                  write_slice_of_le ring dst (take width (drop src ring)) into,
                )
                (gives (moved-Repeats width slack le (omega (arith, few)) from into')),
          )
    ]
  ]

  copy_short-Repeats :
      (word : Option (List ℕ)) (slack : ℕ)
      → (word ≡ none) ⊎ Gives (Repeats ring dst src n slack d) word
      → src + n ≤ length ring
      → dst + n ≤ length ring
      → Gives (Repeats ring dst src n slack d) (copy_short word ring src n dst)
  unfolding copy_short
  copy_short-Repeats word slack (inl e) from into =
      rw (copy_short, e) (copy_within-Repeats slack from into)
  copy_short-Repeats word slack (inr (gives p)) from into = gives p

Repeats-slack :
    {old : List ℕ} {dst src n slack d : ℕ} {new : List ℕ}
    → Repeats old dst src n 0 d new
    → Repeats old dst src n slack d new
Repeats-slack p = record {
  size = p.size;
  outside = λ x h. p.outside x (omega (arith, h));
  inside = p.inside;
}

module _ (ring : List ℕ) (dst src n d : ℕ) (any : 0 < n) (some_back : 0 < d)
    (into : dst + n ≤ length ring) (from : src + n ≤ length ring)
    (small : length ring < 2 ^ 63) where
  overlapping_piece :
      dst ≡ src + d → Gives (Repeats ring dst src n 16 d) (copy_overlapping ring dst src n d)
  overlapping_piece e = rw e (
      Gives-map (copy_overlapping-Repeats ring src d some_back n (omega (arith, e, into)) any small)
        (λ new p. Repeats-slack p))

  apart_piece :
      n ≤ d
      → Gives
          (Repeats ring dst src n 16 d)
          (copy_short (if leb n 16 then copy16 ring src dst else none) ring src n dst)
  unfolding copy16
  apart_piece away = elim (Bool-cases (leb n 16)) [
    | inl e ↦
        copy_short-Repeats ring src dst n d away (if leb n 16 then copy16 ring src dst else none) 16
          (rw e
            (elim (copy_vector-Repeats ring src dst n d away 16 16 (leb→le n 16 e) (omega arith)) [
              | inl f ↦ inl f
              | inr (a, b, g) ↦ inr g
            ]))
          from into
    | inr e ↦
        copy_short-Repeats ring src dst n d away (if leb n 16 then copy16 ring src dst else none) 16
          (inl (rw e refl)) from into
  ]

  -- Where the source is, is seen from the source and the destination.
  pub copy_piece-Repeats :
      (dst ≡ src + d) ⊎ ((dst ≤ src) × (n ≤ d))
      → Gives (Repeats ring dst src n 16 d) (copy_piece ring dst src n d)
  unfolding copy_piece
  copy_piece-Repeats (inr (after, away)) = rw (copy_piece, ge→ltb src dst after) (apart_piece away)
  copy_piece-Repeats (inl e) = elim (Bool-cases (ltb d n)) [
    | inl f ↦ rw (copy_piece, lt→ltb src dst (omega (arith, e, some_back)), f) (overlapping_piece e)
    | inr f ↦
        rw (copy_piece, lt→ltb src dst (omega (arith, e, some_back)), f)
          (apart_piece (ltb→ge d n f))
  ]
