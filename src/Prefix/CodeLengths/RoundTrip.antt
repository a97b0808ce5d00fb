-- ===== src/Prefix/CodeLengths/RoundTrip.antt =====
-- The decoder reads the code lengths that the encoder stores.
use mbrotli.Common.{
  ℕ, zero, suc, ◌+◌, ◌-◌, ◌*◌, ◌/◌, ◌%◌, ◌^◌, ◌≤◌, ◌<◌, arith, ltb, ◌==◌, ◌&&◌, ◌||◌, not, ◌≡◌, ◌∙◌,
  ◌⊎◌, inl, inr, refl, sym, ap, ap₂, true, false, some, List, [], ◌∷◌, get_or, length,
  if◌then◌else◌, All, Bool-cases, lt→ltb, ltb→lt, ltb→ge, ge→ltb, eq→test,
}
use mbrotli.Common.Pow.{pow-add, div-div-pow}
use mbrotli.Common.Bytes.{IsByte}
use mbrotli.Decoder.Bits.Position.{Origin, from, size, text}
use mbrotli.Decoder.Bits.Calls.{Runs, Runs-bind, Runs-pure, Runs-false, Runs-read, Runs-eq, Runs-at}
use mbrotli.Encoder.Writer.{BitWriter, write}
use mbrotli.Encoder.Writer.Fields.{IsWritten}
use mbrotli.Encoder.Writer.Sequences.{
  Field, IsField, width, pack, write_all, over, from-written, write_all-IsWritten,
}
use mbrotli.Prefix.CodeLengths.{
  Small, take_value, is_positive, is_negative, is_zero, checked_lengths, start_lengths,
  code_lengths, codes_to_store, skip_some, store_code_length_code,
}
use mbrotli.Prefix.CodeLengths.Values.{
  placed, value_fields, value_field-IsField, store_lengths-fields,
}
use mbrotli.Prefix.CodeLengths.Rows.{goes, advance, lengths_loop-Runs}
use mbrotli.Prefix.CodeLengths.Stages.{
  At, share, shares, used, share-bounds, shares-used, shares-le, shares_rest, used_rest,
  take_value-At, At-all, start_lengths-At, codes_to_store-last, skip_some-cases,
}

-- The lengths of a complete code of several symbols, or of a code of one symbol.
abbrev pub IsComplete : ℕ → List ℕ → Type 0
IsComplete num_codes depths =
    ((1 < num_codes) × (shares 18 depths ≡ 32)) ⊎ ((num_codes ≤ 1) × (used 18 depths ≡ 1))

unfoldable stored : ℕ → List ℕ → ℕ
stored num_codes depths = if ltb 1 num_codes then codes_to_store 18 depths else 18

-- Where the reader stops.
record Ends (depths : List ℕ) (c : ℕ) : Type 0 where
  few : c ≤ 18
  zeros : (i : ℕ) → c ≤ i → i < 18 → placed depths i ≡ 0
  before : (k : ℕ) → k < c → shares k depths < 32
  total : shares c depths ≤ 32
  ends : (c ≡ 18) ⊎ (shares c depths ≡ 32)
  skips : skip_some depths ≤ c
  complete : (used 18 depths ≡ 1) ⊎ (shares c depths ≡ 32)

module _ (depths : List ℕ) (fine : (i : ℕ) → placed depths i ≤ 5) where
  -- All of the shares are those of the lengths that are stored.
  stored_shares :
      (c : ℕ)
      → c ≤ 18
      → ((i : ℕ) → c ≤ i → i < 18 → placed depths i ≡ 0)
      → (shares 18 depths ≡ shares c depths) × (used 18 depths ≡ used c depths)
  stored_shares c few zeros = (
    ap (λ (m : ℕ). shares m depths) (sym whole)
        ∙ shares_rest depths (18 - c) c (λ i le lt. zeros i le (omega (arith, lt, whole))),
    ap (λ (m : ℕ). used m depths) (sym whole)
        ∙ used_rest depths (18 - c) c (λ i le lt. zeros i le (omega (arith, lt, whole))),
  )
    where
      whole : c + (18 - c) ≡ 18
      whole = omega (arith, few)

  trimmed-Ends : shares 18 depths ≡ 32 → (c : ℕ) → codes_to_store 18 depths ≡ c → Ends depths c
  unfolding shares
  trimmed-Ends full zero e =
      let (few, zeros, last) = codes_to_store-last depths 18 in
      absurd (
        omega (
          arith,
          full,
          (stored_shares 0 (omega arith) (λ i le lt. zeros i (omega (arith, e)) lt)).0,
          let z : shares 0 depths ≡ 0 = refl in z,
        ))
  trimmed-Ends full (suc k) e =
      let (few, zeros, last) = codes_to_store-last depths 18 in
      let zeros' : (i : ℕ) → suc k ≤ i → i < 18 → placed depths i ≡ 0 =
        λ i le lt. zeros i (omega (arith, e, le)) lt in
      let all : shares (suc k) depths ≡ 32 =
        sym (stored_shares (suc k) (omega (arith, few, e)) zeros').0 ∙ full in
      let own = share-bounds depths (placed depths k) (fine k) (last k e) in
      record {
        few = omega (arith, few, e);
        zeros = zeros';
        before = λ j lt. omega (
          arith,
          all,
          own.0,
          shares-le depths (k - j) j,
          ap (λ (m : ℕ). shares m depths) (let z : j + (k - j) ≡ k = omega (arith, lt) in z),
          let z : shares (suc k) depths ≡ shares k depths + share (placed depths k) = refl in z,
        );
        total = omega (arith, all);
        ends = inr all;
        skips = elim (Bool-cases (ltb k (skip_some depths))) [
          | inl f ↦ absurd (last k e ((skip_some-cases depths).2 k (ltb→lt k (skip_some depths) f)))
          | inr f ↦ omega (arith, ltb→ge k (skip_some depths) f)
        ];
        complete = inr all;
      }

  single-Ends : used 18 depths ≡ 1 → Ends depths 18
  single-Ends one = record {
    few = omega arith;
    zeros = λ i le lt. absurd (omega (arith, le, lt));
    before = λ k lt. omega (
      arith,
      shares-used depths fine 18,
      one,
      shares-le depths (18 - k) k,
      ap (λ (m : ℕ). shares m depths) (let z : k + (18 - k) ≡ 18 = omega (arith, lt) in z),
    );
    total = omega (arith, shares-used depths fine 18, one);
    ends = inl refl;
    skips = omega (arith, (skip_some-cases depths).1);
    complete = inl one;
  }

  advance-At :
      (m i : ℕ) (s : Small)
      → i + m ≤ 18
      → shares (i + m) depths ≤ 32
      → At depths i s
      → At depths (i + m) (advance m i depths s)
  advance-At zero i s few fits a = rw (let z : i + 0 ≡ i = omega arith in z) a
  advance-At (suc m) i s few fits a = rw (let z : i + suc m ≡ suc i + m = omega arith in z) (
      advance-At m (suc i) (take_value (placed depths i) s) (omega (arith, few))
        (omega (
          arith,
          fits,
          ap (λ (k : ℕ). shares k depths) (let z : i + suc m ≡ suc i + m = omega arith in z),
        ))
        (take_value-At depths i s (omega (arith, few))
          (omega (
            arith,
            fits,
            shares-le depths m (suc i),
            ap (λ (k : ℕ). shares k depths) (let z : i + suc m ≡ suc i + m = omega arith in z),
          ))
          a))

  goes-At : (k : ℕ) (s : Small) → At depths k s → k < 18 → shares k depths < 32 → goes s ≡ true
  unfolding is_positive
  goes-At k s a lt part =
      rw (a.index, a.space, lt→ltb k 18 lt, lt→ltb 0 (32 - shares k depths) (omega (arith, part)))
        refl

  stops-At :
      (k : ℕ) (s : Small) → At depths k s → (k ≡ 18) ⊎ (shares k depths ≡ 32) → goes s ≡ false
  unfolding is_positive
  stops-At k s a (inl e) = rw (a.index, e) refl
  stops-At k s a (inr e) =
      rw (a.space, e) (elim (Bool-cases (ltb s.index 18)) [ inl f ↦ rw f refl | inr f ↦ rw f refl ])

  value_fields-IsField :
      (n i : ℕ) → All IsField (value_fields depths n i) × (width (value_fields depths n i) ≤ 4 * n)
  unfolding width
  value_fields-IsField zero i = (tt, omega arith)
  value_fields-IsField (suc n) i =
      let (is, small) = value_field-IsField (placed depths i) (fine i) in
      let (rest, more) = value_fields-IsField n (suc i) in ((is, rest), omega (arith, small, more))

  stored-Ends :
      (num_codes : ℕ) → IsComplete num_codes depths → Ends depths (stored num_codes depths)
  unfolding stored
  stored-Ends num_codes (inl (several, full)) =
      rw (stored, lt→ltb 1 num_codes several) (trimmed-Ends full (codes_to_store 18 depths) refl)
  stored-Ends num_codes (inr (one, single)) =
      rw (stored, ge→ltb 1 num_codes one) (single-Ends single)

  -- The check after the loop.
  checked-Runs :
      (o : Origin) (d : ℕ) (c : ℕ) (s : Small)
      → length depths ≡ 18
      → Ends depths c
      → At depths c s
      → Runs o d 0 (checked_lengths s) (some (depths, used 18 depths)) d 0
  unfolding checked_lengths is_negative is_zero
  checked-Runs o d c s size x a = Runs-false o _ fine_space (
      Runs-eq o
        (ap₂ (λ (l : List ℕ) (n : ℕ). some (l, n)) (At-all depths c s size a x.zeros)
          (a.count ∙ sym (stored_shares c x.few x.zeros).1))
        (Runs-pure o d 0 (some (s.small, s.count))))
    where
      fine_space : (is_negative s.space || (not (s.count == 1) && not (is_zero s.space))) ≡ false
      fine_space = rw a.space (elim x.complete [
        | inl one ↦
            rw (eq→test s.count 1 (a.count ∙ sym (stored_shares c x.few x.zeros).1 ∙ one)) refl
        | inr all ↦
            rw all (elim (Bool-cases (s.count == 1)) [ inl f ↦ rw f refl | inr f ↦ rw f refl ])
      ])

  stored_fields : ℕ → List Field
  stored_fields num_codes =
      (2, skip_some depths)
      ∷ value_fields depths (stored num_codes depths - skip_some depths) (skip_some depths)

  stored_fields-IsField :
      (num_codes : ℕ)
      → stored num_codes depths ≤ 18
      → All IsField (stored_fields num_codes) × (width (stored_fields num_codes) ≤ 74)
  unfolding stored_fields width
  stored_fields-IsField num_codes few =
      let n : ℕ = stored num_codes depths - skip_some depths in
      let (all, short) = value_fields-IsField n (skip_some depths) in
      (((omega arith, omega (arith, (skip_some-cases depths).1)), all), omega (arith, short, few))

  stored-fields :
      (num_codes : ℕ) (w : BitWriter)
      → store_code_length_code num_codes depths w ≡ write_all (stored_fields num_codes) w
  unfolding store_code_length_code stored stored_fields write_all
  stored-fields num_codes w =
      store_lengths-fields
        ((if ltb 1 num_codes then codes_to_store 18 depths else 18) - skip_some depths)
        (skip_some depths) depths (write 2 (skip_some depths) w)

  code_lengths-Runs :
      (o : Origin) (d b rest num_codes : ℕ)
      → length depths ≡ 18
      → Ends depths (stored num_codes depths)
      → from o d ≡ pack (stored_fields num_codes) + 2 ^ width (stored_fields num_codes) * rest
      → d + width (stored_fields num_codes) ≤ size o
      → Runs o d b code_lengths
          (some (depths, used 18 depths))
          (d + width (stored_fields num_codes))
          0
  unfolding code_lengths stored_fields pack width
  code_lengths-Runs o d b rest num_codes size18 x e room =
      Runs-bind _ (Runs-eq o shown (Runs-read o d b 2 (omega arith) (omega (arith, room)))) (
        Runs-false o _ cases.0 (
          Runs-bind _
            (Runs-at o (omega arith) (
              lengths_loop-Runs o depths fine n 18 (d + 2) 0 skip rest (start_lengths skip)
                (omega (arith, x.few)) runs
                (stops-At c (advance n skip depths (start_lengths skip)) last x.ends) after
                (omega (arith, room))))
            (checked-Runs o _ c (advance n skip depths (start_lengths skip)) size18 x last)))
    where
      skip : ℕ
      skip = skip_some depths

      c : ℕ
      c = stored num_codes depths

      n : ℕ
      n = c - skip

      vs : List Field
      vs = value_fields depths n skip

      cases : ((skip == 1) ≡ false) × (skip ≤ 3) × ((i : ℕ) → i < skip → placed depths i ≡ 0)
      cases = skip_some-cases depths

      here : from o d ≡ skip + 2 ^ 2 * (pack vs + 2 ^ width vs * rest)
      here = omega (arith, e, ap (λ (t : ℕ). t * rest) (pow-add 2 (width vs)))

      shown : from o d % 2 ^ 2 ≡ skip
      shown = omega (arith, here, cases.1)

      after : from o (d + 2) ≡ pack vs + 2 ^ width vs * rest
      after = sym (div-div-pow (text o) d 2) ∙ omega (arith, here, cases.1)

      whole : skip + n ≡ c
      whole = omega (arith, x.skips)

      at : (m : ℕ) → m ≤ n → At depths (skip + m) (advance m skip depths (start_lengths skip))
      at m le =
          advance-At m skip (start_lengths skip) (omega (arith, le, whole, x.few))
            (omega (
              arith,
              x.total,
              shares-le depths (c - (skip + m)) (skip + m),
              ap (λ (k : ℕ). shares k depths)
                  (let z : skip + m + (c - (skip + m)) ≡ c = omega (arith, le, whole) in z),
            ))
            (start_lengths-At depths skip cases.2)

      last : At depths c (advance n skip depths (start_lengths skip))
      last = rw whole at (at n (omega arith))

      runs : (m : ℕ) → m < n → goes (advance m skip depths (start_lengths skip)) ≡ true
      runs m lt =
          goes-At (skip + m) (advance m skip depths (start_lengths skip)) (at m (omega (arith, lt)))
            (omega (arith, lt, whole, x.few)) (x.before (skip + m) (omega (arith, lt, whole)))

-- An entry of a list with a bound.
entry-le : (xs : List ℕ) (i : ℕ) → All (λ v. v ≤ 5) xs → get_or xs i 0 ≤ 5
entry-le [] i h = omega arith
entry-le (v ∷ xs) zero (h, hs) = h
entry-le (v ∷ xs) (suc i) (h, hs) = entry-le xs i hs

-- For a writer with eight bytes of room past the field, the decoder reads back the 18 lengths of a
-- code-length code from where `store_code_length_code` wrote them, with the number of those that
-- are not 0, and stops where the writer did. The lengths are at most 5, and they are those of a
-- complete code and `num_codes` is above 1, or just one of them is not 0 and `num_codes` is at most
-- 1.
pub code_lengths-store_code_length_code :
    (num_codes : ℕ) (depths : List ℕ) {w : BitWriter} {x : ℕ}
    → IsWritten w x
    → length depths ≡ 18
    → All (λ v. v ≤ 5) depths
    → IsComplete num_codes depths
    → (w.position + 74) / 8 + 8 ≤ length w.storage
    → (h : All IsByte (store_code_length_code num_codes depths w).storage)
    → Runs
        (over (store_code_length_code num_codes depths w).storage h)
        w.position
        0
        code_lengths
        (some (depths, used 18 depths))
        (store_code_length_code num_codes depths w).position
        0
code_lengths-store_code_length_code num_codes depths {w} {x} is size18 small complete room =
    rw fields read_back
  where
    fine : (i : ℕ) → placed depths i ≤ 5
    fine i = entry-le depths _ small

    ends : Ends depths (stored num_codes depths)
    ends = stored-Ends depths fine num_codes complete

    fs : List Field
    fs = stored_fields depths fine num_codes

    ok : All IsField fs × (width fs ≤ 74)
    ok = stored_fields-IsField depths fine num_codes ends.few

    space : (w.position + width fs) / 8 + 8 ≤ length w.storage
    space = omega (arith, ok.1, room)

    fields : store_code_length_code num_codes depths w ≡ write_all fs w
    fields = stored-fields depths fine num_codes w

    read_back :
        (h : All IsByte (write_all fs w).storage)
        → Runs
            (over (write_all fs w).storage h)
            w.position
            0
            code_lengths
            (some (depths, used 18 depths))
            (write_all fs w).position
            0
    read_back h =
        let (rest, seen, inside) = from-written fs is ok.0 space h in
        Runs-at _ (sym (write_all-IsWritten fs is ok.0 space).1) (
          code_lengths-Runs depths fine (over (write_all fs w).storage h) w.position 0 rest
            num_codes size18 ends seen inside)
