-- ===== src/Prefix/Decode.antt =====
-- Decoding with a table reads one code off the bit string, however the bytes arrive.
use mbrotli.Common.{ℕ, ◌+◌, ◌≤◌, arith}
use mbrotli.Common.{◌≡◌, refl, ap, ap₂, ◌∙◌, Bool, true, Option, none, some, length, inl, inr}
use mbrotli.Common.{ltb, leb, if◌then◌else◌, Bool-cases, ge→ltb, lt→ltb}
use mbrotli.Common.Pow.{div-div-pow}
use mbrotli.Decoder.Errors.{ready, pending}
use mbrotli.Decoder.Bits.{Bits, Cursor, load_byte, refill, drop_bits, ◌>>=◌, ◌>>◌, pure}
use mbrotli.Decoder.Bits.Position.{Origin, IsAt, from}
use mbrotli.Decoder.Bits.Refills.{refill-Refilled}
use mbrotli.Prefix.Table.{
  Table, bits_of, value_of, root_entry, second_entry, decode_fast, try_decode, decode_loop, decode,
  decode_refilling,
}
use mbrotli.Prefix.Codes.{IsPrefix, Coded, ReadsCodes, loop-Coded, shown-Coded}

-- The symbol and the width of the code that a bit string starts with.
unfoldable pub code_at : Table → ℕ → ℕ × ℕ
code_at t x =
    let e = root_entry t x in
    let e' = second_entry t e x in
    if ltb 8 (bits_of e) then (value_of e', 8 + bits_of e') else (value_of e, bits_of e)

try_decode_lem :
    (t : Table) (b : Bits)
    → try_decode t b ≡ (
        if ltb b.count (code_at t b.value).1
        then none
        else some ((code_at t b.value).1, (code_at t b.value).0))
unfolding try_decode code_at
try_decode_lem t b = elim (Bool-cases (ltb 8 (bits_of (root_entry t b.value)))) [
  | inl deep ↦ elim (Bool-cases (ltb b.count 8)) [
    | inl few ↦
        let short : ltb b.count (8 + bits_of (second_entry t (root_entry t b.value) b.value))
            ≡ true =
          ground arith in
        rw (deep, few, short) refl
    | inr enough ↦ rw (deep, enough) refl
  ]
  | inr flat ↦ rw flat refl
]

decode_loop-ReadsCodes : (t : Table) → ReadsCodes (code_at t) (λ fuel. decode_loop fuel t)
unfolding decode_loop
decode_loop-ReadsCodes t = record {
  takes = λ fuel c h.
      ap
        (λ (r : Option (ℕ × ℕ)). elim r [
          | some (width, symbol) ↦ (drop_bits width >> pure symbol) c
          | none ↦
              (load_byte >>= λ more. if more then decode_loop fuel t else λ c'. (pending, c')) c
        ])
        (try_decode_lem t c.bits
          ∙ ap
              (λ (short : Bool).
                if short
                then none
                else some ((code_at t c.bits.value).1, (code_at t c.bits.value).0))
              (ge→ltb c.bits.count (code_at t c.bits.value).1 h));
  loads = λ fuel c h.
      ap
        (λ (r : Option (ℕ × ℕ)). elim r [
          | some (width, symbol) ↦ (drop_bits width >> pure symbol) c
          | none ↦
              (load_byte >>= λ more. if more then decode_loop fuel t else λ c'. (pending, c')) c
        ])
        (try_decode_lem t c.bits
          ∙ ap
              (λ (short : Bool).
                if short
                then none
                else some ((code_at t c.bits.value).1, (code_at t c.bits.value).0))
              (lt→ltb c.bits.count (code_at t c.bits.value).1 h));
}

-- For a table of codes that are decided by their own bits and are at most fifteen wide, and for
-- every reader at a position, whose input limit and `u64` total admit all the input, `decode`
-- ends: where the input holds the whole code at the position
-- it returns the code's symbol and stands after the code, and otherwise it waits at the position
-- with all the input accepted. In either case it does not fail.
pub decode-Coded :
    (t : Table) {o : Origin} {d b : ℕ} (c : Cursor)
    → IsPrefix (code_at t)
    → IsAt o d b c
    → Coded (code_at t) o d (decode t c)
unfolding decode
decode-Coded t c prefix at =
    loop-Coded (code_at t) (λ fuel. decode_loop fuel t) prefix (decode_loop-ReadsCodes t) c at

drop-drop_bits :
    (j k s : ℕ) (c : Cursor)
    → (drop_bits j >> (drop_bits k >> pure s)) c ≡ (drop_bits (j + k) >> pure s) c
unfolding drop_bits
drop-drop_bits j k s c =
    ap₂ (λ (v n : ℕ). (ready s, record { bits = record { value = v; count = n }; input = c.input }))
      (div-div-pow c.bits.value j k) (omega arith)

decode_fast_lem :
    (t : Table) (c : Cursor)
    → let (symbol, width) = code_at t c.bits.value in
      decode_fast t c ≡ (drop_bits width >> pure symbol) c
unfolding decode_fast code_at
decode_fast_lem t c = elim (Bool-cases (ltb 8 (bits_of (root_entry t c.bits.value)))) [
  | inl deep ↦
      let e = second_entry t (root_entry t c.bits.value) c.bits.value in
      rw deep (drop-drop_bits 8 (bits_of e) (value_of e) c)
  | inr flat ↦ rw flat refl
]

decode_fast-Coded :
    (t : Table) {o : Origin} {d b : ℕ} (c : Cursor)
    → IsPrefix (code_at t)
    → IsAt o d b c
    → 15 ≤ c.bits.count
    → Coded (code_at t) o d (decode_fast t c)
decode_fast-Coded t {o} {d} c prefix at h =
    shown-Coded c (decode_fast t c) prefix at (omega (arith, h, prefix.narrow (from o d)))
      (decode_fast_lem t c)

-- For a table of codes that are decided by their own bits and are at most fifteen wide, and for
-- every reader at a position, with 63 bits in store at most and fast loads that stay within the
-- input, whose limit and `u64` total admit all the input: `decode_refilling` reads the same code as `decode`: the word that it may load
-- at once, and the lookup that does not test the count, change neither the symbol, the position
-- after it nor the wait at the end of the input.
pub decode_refilling-Coded :
    (t : Table) {o : Origin} {d b : ℕ} (c : Cursor)
    → IsPrefix (code_at t)
    → IsAt o d b c
    → c.bits.count ≤ 63
    → c.input.fast_end ≤ length o.bytes
    → Coded (code_at t) o d (decode_refilling t c)
unfolding decode_refilling
decode_refilling-Coded t {o} {d} c prefix at hc hf = elim (Bool-cases (leb 15 c.bits.count)) [
  | inl enough ↦ rw enough (decode_fast-Coded t c prefix at (ground arith))
  | inr few ↦ rw few (elim (refill-Refilled c at hc hf).answers [
    | inl full ↦
        let p = refill-Refilled c at hc hf in
        rw full (decode_fast-Coded t (refill c).1 prefix p.stays (omega (arith, p.filled full)))
    | inr (empty, same) ↦ rw (empty, same) (decode-Coded t c prefix at)
  ])
]
