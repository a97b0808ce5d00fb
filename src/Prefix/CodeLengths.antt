-- ===== src/Prefix/CodeLengths.antt =====
-- The code lengths of the code-length code: `Stage::Start` and `Stage::CodeLengths` of
-- `Builder::read` in src/decompressor/core/huffman.rs, and `store_code_length_code` of
-- src/shared/huffman.rs.
mod Tests
pub mod Values
pub mod Rows
pub mod Stages
pub mod RoundTrip
use mbrotli.Common.{
  ℕ, zero, suc, ◌+◌, ◌-◌, ◌*◌, ◌/◌, ◌^◌, ltb, ◌==◌, ◌&&◌, ◌||◌, not, if◌then◌else◌, Bool, true,
  false, Option, none, some, List, [], ◌∷◌, get_or, set, replicate,
}
use mbrotli.Command.{ℤ, pos, negsuc}
use mbrotli.Decoder.Errors.{Poll, ready, pending, failed, DecodeError, InvalidDataKind}
use mbrotli.Decoder.Bits.{Cursor, M, ◌>>=◌, ◌>>◌, pure, fail, peek, read, drop_bits}
use mbrotli.Encoder.Writer.{BitWriter, write}
use mbrotli.Prefix.Lengths.{minus}

-- `ORDER`
abbrev pub order : List ℕ
order = 1 ∷ 2 ∷ 3 ∷ 4 ∷ 0 ∷ 5 ∷ 17 ∷ 6 ∷ 16 ∷ 7 ∷ 8 ∷ 9 ∷ 10 ∷ 11 ∷ 12 ∷ 13 ∷ 14 ∷ 15 ∷ []

-- What the stage keeps.
pub record Small : Type 0 where
  pub index : ℕ
  pub space : ℤ
  pub count : ℕ
  pub small : List ℕ

unfoldable pub is_positive : ℤ → Bool
is_positive (pos n) = ltb 0 n
is_positive (negsuc n) = false

unfoldable pub is_negative : ℤ → Bool
is_negative (pos n) = false
is_negative (negsuc n) = true

unfoldable pub is_zero : ℤ → Bool
is_zero (pos n) = n == 0
is_zero (negsuc n) = false

-- The width and the value of one length's code.
unfoldable pub value_code : M (ℕ × ℕ)
value_code = peek 2 >>= λ first.
    if first == 0
    then pure (2, 0)
    else if first == 1
    then pure (2, 4)
    else if first == 2
    then pure (2, 3)
    else (peek 3 >>= λ next.
        if next == 3
        then pure (3, 2)
        else (peek 4 >>= λ last. pure (4, if last == 7 then 1 else 5)))

unfoldable pub take_value : ℕ → Small → Small
take_value value s = record {
  index = s.index + 1;
  space = if value == 0 then s.space else minus s.space (32 / 2 ^ value);
  count = if value == 0 then s.count else s.count + 1;
  small = set s.small (get_or order s.index 0) value;
}

-- A round for each of the 18 lengths.
unfoldable pub lengths_loop : ℕ → Small → M Small
lengths_loop zero s = pure s
lengths_loop (suc fuel) s =
    if ltb s.index 18 && is_positive s.space
    then (value_code >>= λ code. drop_bits code.0 >>= λ _. lengths_loop fuel (take_value code.1 s))
    else pure s

unfoldable pub checked_lengths : Small → M (Option (List ℕ × ℕ))
checked_lengths s =
    if is_negative s.space || (not (s.count == 1) && not (is_zero s.space))
    then fail (DecodeError.invalid_data InvalidDataKind.huffman)
    else pure (some (s.small, s.count))

unfoldable pub start_lengths : ℕ → Small
start_lengths skip = record { index = skip; space = pos 32; count = 0; small = replicate 18 0 }

-- The lengths and how many are not 0, or none where a simple description follows.
unfoldable pub code_lengths : M (Option (List ℕ × ℕ))
code_lengths = read 2 >>= λ skip.
    if skip == 1 then pure none else (lengths_loop 18 (start_lengths skip) >>= checked_lengths)

-- `STORAGE_ORDER`
abbrev pub storage_order : List ℕ
storage_order = 1 ∷ 2 ∷ 3 ∷ 4 ∷ 0 ∷ 5 ∷ 17 ∷ 6 ∷ 16 ∷ 7 ∷ 8 ∷ 9 ∷ 10 ∷ 11 ∷ 12 ∷ 13 ∷ 14 ∷ 15 ∷ []

abbrev pub code_length_huffman_symbols : List ℕ
code_length_huffman_symbols = 0 ∷ 7 ∷ 3 ∷ 2 ∷ 1 ∷ 15 ∷ []

abbrev pub code_length_huffman_depths : List ℕ
code_length_huffman_depths = 2 ∷ 4 ∷ 3 ∷ 2 ∷ 2 ∷ 4 ∷ []

-- The loop that leaves out the last lengths that are 0.
unfoldable pub codes_to_store : ℕ → List ℕ → ℕ
codes_to_store zero bitdepth = 0
codes_to_store (suc codes) bitdepth =
    let fewer = codes_to_store codes bitdepth in
    if get_or bitdepth (get_or storage_order codes 0) 0 == 0 then fewer else suc codes

unfoldable pub skip_some : List ℕ → ℕ
skip_some bitdepth =
    if (get_or bitdepth (get_or storage_order 0 0) 0 == 0)
      && (get_or bitdepth (get_or storage_order 1 0) 0 == 0)
    then (if get_or bitdepth (get_or storage_order 2 0) 0 == 0 then 3 else 2)
    else 0

-- The loop over the order from an index on.
unfoldable pub store_lengths : ℕ → ℕ → List ℕ → BitWriter → BitWriter
store_lengths zero i bitdepth w = w
store_lengths (suc n) i bitdepth w =
    let l = get_or bitdepth (get_or storage_order i 0) 0 in
    store_lengths n (suc i) bitdepth
      (write (get_or code_length_huffman_depths l 0) (get_or code_length_huffman_symbols l 0) w)

unfoldable pub store_code_length_code : ℕ → List ℕ → BitWriter → BitWriter
store_code_length_code num_codes bitdepth w =
    let codes = if ltb 1 num_codes then codes_to_store 18 bitdepth else 18 in
    let skip = skip_some bitdepth in store_lengths (codes - skip) skip bitdepth (write 2 skip w)
