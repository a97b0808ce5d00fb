-- ===== src/Prefix/LengthCode/Reading.antt =====
-- Reading a code length with the table of a complete code, however the bytes arrive.
use mbrotli.Common.{
  ℕ, zero, suc, ◌+◌, ◌*◌, ◌%◌, ◌^◌, ◌≤◌, ◌<◌, arith, ltb, leb, true, false, List, [], ◌∷◌, All,
  length, take, get_or, get_elem?, some,
}
use mbrotli.Common.{
  ◌≡◌, ◌≢◌, refl, sym, ap, ap₂, ◌∙◌, inl, inr, Bool-cases, ltb→ge, ne→test, replicate,
}
use mbrotli.Common.Pow.{mod-mod-pow}
use mbrotli.Common.BitOps.{bit_and_mask}
use mbrotli.Decoder.Errors.{Poll, ready}
use mbrotli.Decoder.Bits.{Cursor, refill}
use mbrotli.Decoder.Bits.Position.{Origin, IsAt, from, size}
use mbrotli.Decoder.Bits.Loads.{Waited}
use mbrotli.Decoder.Bits.Refills.{refill-Refilled}
use mbrotli.Prefix.Table.{Code, bits_of, value_of, new_code}
use mbrotli.Prefix.Codes.{IsPrefix, Coded, ReadsCodes, loop-Coded, shown-Coded}
use mbrotli.Prefix.Lengths.Holds.{kraft}
use mathlib.Core.Path.{subst}
use mbrotli.Prefix.Keys.Reversed.{reverse_bits_lem}
use mbrotli.Prefix.LengthCode.Patterns.{convert-get}
use mbrotli.Prefix.LengthCode.{
  convert_bit_depths_to_symbols, build, length_entry, take_entry, length_loop, length_rounds,
  decode_length,
}
use mbrotli.Prefix.LengthCode.Rows.{count}
use mbrotli.Prefix.LengthCode.Canonical.{Fits, first_code, build_rows-enters, code-bound}
use mbrotli.Prefix.LengthCode.Shares.{kraft-Fits, Fits-fewer}
use mbrotli.Prefix.LengthCode.Complete.{Keyed, complete-Keyed}

-- The symbol and the width of the code length that a bit string starts with.
unfoldable pub length_at : List Code → ℕ → ℕ × ℕ
length_at table x = (value_of (length_entry table x), bits_of (length_entry table x))

length_loop-ReadsCodes :
    (table : List Code) → ReadsCodes (length_at table) (λ fuel. length_loop fuel table)
unfolding length_loop length_at take_entry
length_loop-ReadsCodes table = record {
  takes = λ fuel c h.
      let e : leb (bits_of (length_entry table c.bits.value)) c.bits.count ≡ true = ground arith in
      rw e refl;
  loads = λ fuel c h.
      let e : leb (bits_of (length_entry table c.bits.value)) c.bits.count ≡ false = ground arith in
      rw e refl;
}

length_rounds-Coded :
    (table : List Code) {o : Origin} {d b : ℕ} (c : Cursor)
    → IsPrefix (length_at table)
    → IsAt o d b c
    → Coded (length_at table) o d (length_rounds table c)
unfolding length_rounds
length_rounds-Coded table c prefix at =
    loop-Coded (length_at table) (λ fuel. length_loop fuel table) prefix
      (length_loop-ReadsCodes table) c at

take_entry-Coded :
    (table : List Code) {o : Origin} {d b : ℕ} (c : Cursor)
    → IsPrefix (length_at table)
    → ((x : ℕ) → (length_at table x).1 ≤ 5)
    → IsAt o d b c
    → 5 ≤ c.bits.count
    → Coded (length_at table) o d (take_entry table c)
unfolding take_entry length_at
take_entry-Coded table {o} {d} c prefix narrow at h =
    shown-Coded c (take_entry table c) prefix at (omega (arith, h, narrow (from o d))) refl

decode_length-Coded :
    (table : List Code) {o : Origin} {d b : ℕ} (c : Cursor)
    → IsPrefix (length_at table)
    → ((x : ℕ) → (length_at table x).1 ≤ 5)
    → IsAt o d b c
    → c.bits.count ≤ 63
    → c.input.fast_end ≤ length o.bytes
    → Coded (length_at table) o d (decode_length table c)
unfolding decode_length
decode_length-Coded table {o} {d} c prefix narrow at hc hf =
    elim (Bool-cases (ltb c.bits.count 5)) [
      | inr enough ↦
          rw enough (take_entry-Coded table c prefix narrow at (ltb→ge c.bits.count 5 enough))
      | inl few ↦ rw few (elim (refill-Refilled c at hc hf).answers [
        | inl full ↦
            let p = refill-Refilled c at hc hf in
            rw full (
              take_entry-Coded table (refill c).1 prefix narrow p.stays
                (omega (arith, p.filled full)))
        | inr (empty, same) ↦ rw (empty, same) (length_rounds-Coded table c prefix at)
      ])
    ]

-- The entry of every number in the table of a complete code.
entry-new_code :
    (lengths : List ℕ) (used x : ℕ)
    → All (λ x. x ≤ 5) lengths
    → kraft lengths ≡ 32768
    → used ≢ 1
    → (q : Keyed lengths (x % 32)) → length_entry (build lengths used) x ≡ new_code q.width q.symbol
unfolding build
entry-new_code lengths used x h full ne q =
    rw (bit_and_mask 5 x, ne→test used 1 ne)
      (build_rows-enters 5 q.rows 1 q.width q.symbol 0 (x % 32) lengths (replicate 32 0) q.few
        q.wide q.at (omega arith) q.key
        (Fits-fewer 15 5 1 0 lengths (omega arith) (kraft-Fits lengths (omega (arith, full)))))

get-lt : (xs : List ℕ) (j w : ℕ) → get_elem? xs j ≡ some w → j < length xs
get-lt [] j w e = cc
get-lt (x ∷ xs) zero w e = omega arith
get-lt (x ∷ xs) (suc j) w e = omega (arith, get-lt xs j w e)

module _ (lengths : List ℕ) (used : ℕ) (h : All (λ x. x ≤ 5) lengths) (full : kraft lengths ≡ 32768)
    (ne : used ≢ 1) (few : length lengths ≤ 18) where
  length_at-Keyed :
      (x : ℕ) (q : Keyed lengths (x % 32)) → length_at (build lengths used) x ≡ (q.symbol, q.width)
  unfolding length_at new_code bits_of value_of
  length_at-Keyed x q = rw (entry-new_code lengths used x h full ne q) (
      ap₂ (λ (a b : ℕ). (a, b))
        (omega (arith, q.few, q.wide, few, get-lt lengths q.symbol q.width q.at))
        (bit_and_mask 8 (q.symbol * 2 ^ 8 % 2 ^ 32 + q.width) ∙ omega (arith, q.few, q.wide)))

  build-IsPrefix : IsPrefix (length_at (build lengths used))
  build-IsPrefix = record {
    narrow = λ x.
        let q = complete-Keyed lengths (x % 32) h full (omega arith) in
        omega (arith, q.few, q.wide, ap (λ (p : ℕ × ℕ). p.1) (length_at-Keyed x q));
    stable = λ x y e. stable x y (complete-Keyed lengths (x % 32) h full (omega arith)) e;
  }
    where
      stable :
          (x y : ℕ) (q : Keyed lengths (x % 32))
          → y % 2 ^ (length_at (build lengths used) x).1
            ≡ x % 2 ^ (length_at (build lengths used) x).1
          → length_at (build lengths used) y ≡ length_at (build lengths used) x
      stable x y q e =
          length_at-Keyed y (record {
            symbol = q.symbol;
            rows = q.rows;
            width = q.width;
            few = q.few;
            wide = q.wide;
            at = q.at;
            key =
                mod-mod-pow y q.width 5 (omega (arith, q.few, q.wide))
                ∙ subst (λ (w : ℕ). y % 2 ^ w ≡ x % 2 ^ w)
                    (ap (λ (p : ℕ × ℕ). p.1) (length_at-Keyed x q)) e
                ∙ sym (mod-mod-pow x q.width 5 (omega (arith, q.few, q.wide)))
                ∙ q.key;
          })
          ∙ sym (length_at-Keyed x q)

  build-narrow : (x : ℕ) → (length_at (build lengths used) x).1 ≤ 5
  build-narrow x =
      let q = complete-Keyed lengths (x % 32) h full (omega arith) in
      omega (arith, q.few, q.wide, ap (λ (p : ℕ × ℕ). p.1) (length_at-Keyed x q))

All-weaken : (xs : List ℕ) → All (λ x. x ≤ 5) xs → All (λ x. x ≤ 15) xs
All-weaken [] h = tt
All-weaken (x ∷ xs) (h, hs) = (omega (arith, h), All-weaken xs hs)

-- What reading a code of `width` bits for `symbol` promises.
pub record CodeRead (symbol width : ℕ) (o : Origin) (d : ℕ) (out : Poll ℕ × Cursor) : Type 0 where
  pub read : d + width ≤ size o → (out.0 ≡ ready symbol) × IsAt o (d + width) 0 out.1
  pub waited : size o < d + width → Waited o d out

-- For at most eighteen lengths, none over five, that fill the code space exactly, and a reader at
-- a position where the bits are the pattern that the encoder makes for a symbol of these lengths:
-- with the decoder's table for the lengths, where more than one is used, the reader ends; it
-- returns that symbol and stands after the pattern where the input holds all of it, and otherwise
-- waits at the position with all the input accepted, whatever the bits are that follow.
pub decode_length-convert_bit_depths_to_symbols :
    (lengths bits : List ℕ) (used j w : ℕ) {o : Origin} {d b : ℕ} (c : Cursor)
    → All (λ x. x ≤ 5) lengths
    → kraft lengths ≡ 32768
    → used ≢ 1
    → length lengths ≤ 18
    → length lengths ≤ length bits
    → get_elem? lengths j ≡ some (suc w)
    → w < 5
    → from o d % 2 ^ suc w ≡ get_or (convert_bit_depths_to_symbols lengths bits) j 0
    → IsAt o d b c
    → c.bits.count ≤ 63
    → c.input.fast_end ≤ length o.bytes
    → CodeRead j (suc w) o d (decode_length (build lengths used) c)
decode_length-convert_bit_depths_to_symbols lengths bits used j w {o} {d} c h full ne few room at
      less e here hc hf =
    subst (λ (p : ℕ × ℕ). Shape p) found (record { read = coded.read; waited = coded.waited })
  where
    Shape : ℕ × ℕ → Type 0
    Shape p = CodeRead p.0 p.1 o d (decode_length (build lengths used) c)

    fits : Fits 15 1 0 lengths
    fits = kraft-Fits lengths (omega (arith, full))

    coded : Coded (length_at (build lengths used)) o d (decode_length (build lengths used) c)
    coded =
        decode_length-Coded (build lengths used) c (build-IsPrefix lengths used h full ne few)
          (build-narrow lengths used h full ne few) here hc hf

    found : length_at (build lengths used) (from o d) ≡ (j, suc w)
    found = length_at-Keyed lengths used h full ne few (from o d) (record {
      symbol = j;
      rows = w;
      width = suc w;
      few = less;
      wide = omega arith;
      at = at;
      key =
          mod-mod-pow (from o d) (suc w) 5 (omega (arith, less))
          ∙ e
          ∙ convert-get lengths bits j w (All-weaken lengths h) fits room at (omega (arith, less))
          ∙ reverse_bits_lem (suc w) (first_code w 1 0 lengths + count (suc w) (take j lengths))
              (omega arith) (omega (arith, less))
              (code-bound 15 w 1 (suc w) j 0 lengths (omega (arith, less)) (omega arith) at fits);
    })
