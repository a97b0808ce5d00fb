-- ===== src/Prefix/Tests.antt =====
-- Prefix codes at concrete inputs: a table of two codes, a run of symbols, and code lengths.
use mbrotli.Common.{
  ℕ, zero, suc, ◌+◌, ◌*◌, ◌%◌, ◌^◌, ◌≤◌, ◌<◌, arith, ◌==◌, if◌then◌else◌, Bool-cases, inl, inr,
}
use mbrotli.Common.{
  ◌≡◌, refl, sym, ap, ◌∙◌, List, [], ◌∷◌, ◌++◌, none, length, All, replicate, get_or,
}
use mathlib.Core.Path.{subst}
use mbrotli.Common.BitOps.{bit_and_mask}
use mbrotli.Common.Bytes.{IsByte, number}
use mbrotli.Decoder.Errors.{ready}
use mbrotli.Decoder.Bits.{Cursor, new_input}
use mbrotli.Decoder.Bits.Position.{Origin, IsAt, from}
use mbrotli.Decoder.Bits.Calls.{IsAt-start}
use mbrotli.Prefix.Table.{new_code, Table, root_entry, bits_of, value_of, decode, decode_refilling}
use mbrotli.Prefix.Codes.{IsPrefix, Coded}
use mbrotli.Prefix.Decode.{code_at, decode-Coded, decode_refilling-Coded}
use mbrotli.Prefix.Lists.{Lists, clear, push_run, assign_loop}
use mbrotli.Prefix.Lists.Order.{pushes, push_run-pushes, clear-Below, Below-Before, Below-later}
use mbrotli.Prefix.Lengths.{Reader, start_symbols, symbols_loop}
use mbrotli.Prefix.Lengths.Holds.{kraft}
use mbrotli.Prefix.Keys.{reverse_bits, reverse_loop, reverse_lut}
use mbrotli.Prefix.LengthCode.{
  decode_length, build, convert_bit_depths_to_symbols, count_depths, first_codes, symbols_of,
}
use mbrotli.Prefix.LengthCode.Reading.{CodeRead, decode_length-convert_bit_depths_to_symbols}
use mbrotli.Prefix.Runs.{write_huffman_tree}
use mbrotli.Prefix.Runs.RoundTrip.{symbols_loop-write_huffman_tree}

-- The code 0 for the symbol 7, and 1 for 9.
abbrev alternating : ℕ → List ℕ
alternating zero = []
alternating (suc n) = 1793 ∷ 2305 ∷ alternating n

alternating-get :
    (n k : ℕ) → k < 2 * n → get_or (alternating n) k 0 ≡ (if k % 2 == 0 then 1793 else 2305)
alternating-get zero k h = absurd (omega (arith, h))
alternating-get (suc n) zero h = refl
alternating-get (suc n) (suc zero) h = refl
alternating-get (suc n) (suc (suc k)) h =
    alternating-get n k (omega (arith, h))
    ∙ ap (λ (t : ℕ). if t == 0 then 1793 else 2305) (omega arith)

abbrev two : Table
two = record { root = alternating 128; second = [] }

two-entry : (x : ℕ) → root_entry two x ≡ (if x % 2 == 0 then 1793 else 2305)
two-entry x =
    ap (λ (k : ℕ). get_or (alternating 128) k 0) (bit_and_mask 8 x)
    ∙ alternating-get 128 (x % 2 ^ 8) (omega arith)
    ∙ ap (λ (t : ℕ). if t == 0 then 1793 else 2305) (omega arith)

two-code : (x : ℕ) → code_at two x ≡ (if x % 2 == 0 then 7 else 9, 1)
unfolding code_at bits_of value_of
two-code x = elim (Bool-cases (x % 2 == 0)) [
  | inl t ↦ rw (two-entry x, t) refl
  | inr f ↦ rw (two-entry x, f) refl
]

two-IsPrefix : IsPrefix (code_at two)
two-IsPrefix = record {
  narrow = λ x. omega (arith, ap (λ (p : ℕ × ℕ). p.1) (two-code x));
  stable = λ x y e.
      let width : (code_at two x).1 ≡ 1 = ap (λ (p : ℕ × ℕ). p.1) (two-code x) in
      let bit : y % 2 ≡ x % 2 = subst (λ (w : ℕ). y % 2 ^ w ≡ x % 2 ^ w) width e in
      two-code y ∙ ap (λ (t : ℕ). (if t == 0 then 7 else 9, 1)) bit ∙ sym (two-code x);
}

abbrev read_bytes : List ℕ
read_bytes = 11 ∷ 2 ∷ 128 ∷ []

no_carry : 0 < 2 ^ 0
no_carry = omega arith

not_wide : 0 ≤ 64
not_wide = omega arith

all_bytes : All IsByte read_bytes
all_bytes = omega arith

abbrev o : Origin
o = record {
  carry = 0;
  held = 0;
  bytes = read_bytes;
  carry_fits = no_carry;
  held_fits = not_wide;
  all_bytes = all_bytes;
}

abbrev c : Cursor
c = record { bits = record { value = 0; count = 0 }; input = new_input read_bytes 0 none }

c-IsAt : IsAt o 0 0 c
c-IsAt = IsAt-start 0 0 read_bytes 0 none no_carry not_wide all_bytes (omega arith) tt

fast_end-le : c.input.fast_end ≤ length o.bytes
unfolding new_input
fast_end-le = omega arith

decode-Coded_example : Coded (code_at two) o 0 (decode two c)
decode-Coded_example = decode-Coded two c two-IsPrefix c-IsAt

decode_refilling-Coded_example : Coded (code_at two) o 0 (decode_refilling two c)
decode_refilling-Coded_example =
    decode_refilling-Coded two c two-IsPrefix c-IsAt (omega arith) fast_end-le

-- The first bit of 11 is one.
decode-two : (decode two c).0 ≡ ready 9
unfolding decode mbrotli.Prefix.Table.decode_loop mbrotli.Prefix.Table.try_decode bits_of value_of
    new_input mbrotli.Decoder.Bits.load_byte mbrotli.Decoder.Bits.accept
    mbrotli.Decoder.Bits.drop_bits mbrotli.Decoder.Bits.within_limit
decode-two = refl

abbrev eight : Lists
eight = record { next = replicate 8 0; head = []; tail = []; counts = []; total = 0; last = 0 }

push_run-pushes_example : push_run 2 (suc (2 + 3)) 4 (clear eight) ≡ pushes 4 2 4 (clear eight)
push_run-pushes_example =
    push_run-pushes 2 3 4 (clear eight)
      (Below-Before (Below-later (omega arith) (clear-Below eight)) (omega arith)) (omega arith)

-- Twelve symbols without a code, sixty-four of six bits, and five without a code.
abbrev lengths : List ℕ
lengths = replicate 12 0 ++ (replicate 64 6 ++ replicate 5 0)

lengths_small : All (λ x. x ≤ 15) lengths
lengths_small = omega arith

lengths_full : kraft lengths ≡ 32768
unfolding kraft
lengths_full = refl

symbols_loop-write_huffman_tree_example :
    (r : Reader) × (symbols_loop 704 (start_symbols eight) (write_huffman_tree lengths 81)
      ≡ ready (r, []))
    × (r.lists ≡ assign_loop 0 lengths (clear eight))
symbols_loop-write_huffman_tree_example =
    symbols_loop-write_huffman_tree lengths 704 eight lengths_small lengths_full (omega arith)
      (omega arith) (omega arith)

-- Two code lengths of two bits, and four of three.
abbrev depths : List ℕ
depths = 2 ∷ 2 ∷ 0 ∷ 3 ∷ 3 ∷ (replicate 11 0 ++ (3 ∷ 3 ∷ []))

-- The pattern of the symbol 16.
pattern : get_or (convert_bit_depths_to_symbols depths (replicate 18 0)) 16 0 ≡ 3
unfolding convert_bit_depths_to_symbols count_depths first_codes symbols_of reverse_bits
    reverse_loop reverse_lut
pattern = refl

depths_narrow : All (λ x. x ≤ 5) depths
depths_narrow = omega arith

depths_full : kraft depths ≡ 32768
unfolding kraft
depths_full = refl

-- The first byte is 11.
starts : from o 0 % 2 ^ 3 ≡ 3
unfolding number
starts = refl

decode_length-convert_bit_depths_to_symbols_example :
    CodeRead 16 3 o 0 (decode_length (build depths 6) c)
decode_length-convert_bit_depths_to_symbols_example =
    decode_length-convert_bit_depths_to_symbols depths (replicate 18 0) 6 16 2 c depths_narrow
      depths_full (λ e. omega (arith, e)) (omega arith) (omega arith) refl (omega arith)
      (starts ∙ sym pattern) c-IsAt (omega arith) fast_end-le
