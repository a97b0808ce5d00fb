-- ===== src/Command/Symbols.antt =====
-- The command symbol that the encoder folds, as the decoder splits it.
use mbrotli.Common.{ℕ, ◌<◌, arith}
use mbrotli.Common.{◌≡◌, refl, Bool, true, false, ◌&&◌, not, ltb, ◌==◌}
use mbrotli.Common.{get_or, all_below, all_below_sound, eq_of_test, ltb→lt}
use mbrotli.Format.{ins_base, ins_extra, copy_base, copy_extra}
use mbrotli.Command.{combine_length_codes, distance_context}
use mbrotli.Command.Slots.{slot, insert_of, copy_of}

same : Bool → Bool → Bool
same true b = b
same false b = not b

same→ : (a b : Bool) → same a b ≡ true → a ≡ b
unfolding same
same→ true true h = refl
same→ false false h = refl
same→ true false h = ground arith
same→ false true h = ground arith

and→ : (a b : Bool) → (a && b) ≡ true → (a ≡ true) × (b ≡ true)
and→ true b h = (refl, h)
and→ false b h = ground arith

-- One pair of codes: the symbol is in the alphabet, it splits back, and it is implicit when it may be.
splits : Bool → ℕ → ℕ → Bool
splits last i c =
    let s = combine_length_codes i c last in
    ltb s 704
    && ((insert_of s == i)
        && ((copy_of s == c) && same (slot s).implicit (last && (ltb i 8 && ltb c 16))))

splits_all : (last : Bool) → all_below 24 (λ i. all_below 24 (λ c. splits last i c)) ≡ true
unfolding splits same combine_length_codes insert_of copy_of slot
splits_all true = refl
splits_all false = refl

-- For all 24 by 24 pairs of codes and both flags, the folded symbol lies below 704, the decoder's
-- split returns the pair, and the decoder takes the distance as implicit exactly when the encoder
-- asked for the last distance and the pair has a symbol for it.
pub slot-combine_length_codes :
    (last : Bool) (i c : ℕ)
    → i < 24
    → c < 24
    → (combine_length_codes i c last < 704)
      × (insert_of (combine_length_codes i c last) ≡ i)
      × (copy_of (combine_length_codes i c last) ≡ c)
      × ((slot (combine_length_codes i c last)).implicit ≡ (last && (ltb i 8 && ltb c 16)))
unfolding splits
slot-combine_length_codes last i c hi hc =
    let row =
      all_below_sound 24 (λ i. all_below 24 (λ c. splits last i c)) i (splits_all last) hi in
    let one = all_below_sound 24 (λ c. splits last i c) c row hc in
    let (small, rest) = and→ _ _ one in
    let (insert, rest') = and→ _ _ rest in
    let (copy, flag) = and→ _ _ rest' in
    (ltb→lt _ _ small, eq_of_test _ _ insert, eq_of_test _ _ copy, same→ _ _ flag)

-- The table's entry has the bases and widths of the codes, none cut by its field's width.
exact : ℕ → Bool
exact s =
    ((slot s).insert_extra == get_or ins_extra (insert_of s) 0)
    && (((slot s).copy_extra_bits == get_or copy_extra (copy_of s) 0)
        && (((slot s).insert_start == get_or ins_base (insert_of s) 0)
            && (((slot s).copy_start == get_or copy_base (copy_of s) 0)
                && ((slot s).context == distance_context s))))

exact_all : all_below 704 exact ≡ true
unfolding exact slot insert_of copy_of distance_context
exact_all = refl

-- For every command symbol, the decoder's table entry holds the bases and the extra-bit widths of
-- its two codes uncut, and its distance context is the one that the encoder computes.
pub slot-exact :
    (s : ℕ)
    → s < 704
    → ((slot s).insert_extra ≡ get_or ins_extra (insert_of s) 0)
      × ((slot s).copy_extra_bits ≡ get_or copy_extra (copy_of s) 0)
      × ((slot s).insert_start ≡ get_or ins_base (insert_of s) 0)
      × ((slot s).copy_start ≡ get_or copy_base (copy_of s) 0)
      × ((slot s).context ≡ distance_context s)
unfolding exact
slot-exact s h = let e = all_below_sound 704 exact s exact_all h in ground arith
