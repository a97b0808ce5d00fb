-- ===== src/Prefix/Lengths.antt =====
-- src/decompressor/core/huffman.rs: the symbols of a complex description, `Stage::Symbols` and
-- `Stage::Repeat` of `Builder::read`.
pub mod Holds
pub mod Steps
pub mod Chains
use mbrotli.Common.{
  ℕ, zero, suc, ◌+◌, ◌-◌, ◌*◌, ◌/◌, ◌%◌, ◌^◌, ltb, ◌==◌, if◌then◌else◌, not, ◌||◌, List, [], ◌∷◌,
  Bool, true, false,
}
use mbrotli.Command.{ℤ, pos, negsuc}
use mbrotli.Decoder.Errors.{Poll, ready, pending, failed, DecodeError, InvalidDataKind}
use mbrotli.Prefix.Lists.{Lists, clear, push, push_run}

-- The part of a `Builder` that these stages change.
pub record Reader : Type 0 where
  pub lists : Lists
  pub index : ℕ
  pub space : ℤ
  pub previous : ℕ
  pub repeat_length : ℕ
  pub repeat : ℕ

unfoldable pub minus : ℤ → ℕ → ℤ
minus (pos n) k = if ltb n k then negsuc (k - n - 1) else pos (n - k)
minus (negsuc n) k = negsuc (n + k)

-- The end of `Stage::CodeLengths`.
unfoldable pub start_symbols : Lists → Reader
start_symbols l = record {
  lists = clear l;
  index = 0;
  space = pos 32768;
  previous = 8;
  repeat_length = 0;
  repeat = 0;
}

-- A symbol below 16.
unfoldable pub plain : ℕ → Reader → Reader
plain symbol r = record {
  lists = if symbol == 0 then r.lists else push r.index symbol r.lists;
  index = r.index + 1;
  space = if symbol == 0 then r.space else minus r.space (32768 / 2 ^ symbol);
  previous = if symbol == 0 then r.previous else symbol;
  repeat_length = r.repeat_length;
  repeat = 0;
}

-- A symbol from 16 on, and its extra field.
unfoldable pub repeated : ℕ → ℕ → ℕ → Reader → Poll Reader
repeated alphabet symbol extra r =
    let width = symbol - 14 in
    let length = if symbol == 16 then r.previous else 0 in
    let before = if r.repeat_length == length then r.repeat else 0 in
    let repeat = (if before == 0 then 0 else (before - 2) * 2 ^ width) + extra + 3 in
    let delta = repeat - before in
    let end = r.index + delta in
    if ltb alphabet end
    then failed (DecodeError.invalid_data InvalidDataKind.huffman)
    else ready (record {
      lists = if length == 0 then r.lists else push_run r.index end length r.lists;
      index = end;
      space = if length == 0 then r.space else minus r.space (delta * 2 ^ (15 - length));
      previous = r.previous;
      repeat_length = length;
      repeat = repeat;
    })

unfoldable pub step : ℕ → ℕ × ℕ → Reader → Poll Reader
unfolding plain repeated
step alphabet (symbol, extra) r =
    if ltb symbol 16 then ready (plain symbol r) else repeated alphabet symbol extra r

-- What the loop finds before it decodes a symbol.
pub data Head : Type 0 where
  complete invalid wanting : Head

unfoldable pub head_of : ℕ → ℤ → ℕ → Head
head_of alphabet (pos zero) index = Head.complete
head_of alphabet (pos (suc n)) index = if index == alphabet then Head.invalid else Head.wanting
head_of alphabet (negsuc n) index = Head.invalid

-- The loop over the symbols that the code of the lengths decodes, each with its extra field; it
-- gives back those that it leaves.
unfoldable pub symbols_loop : ℕ → Reader → List (ℕ × ℕ) → Poll (Reader × List (ℕ × ℕ))
unfolding step
symbols_loop alphabet r [] = elim (head_of alphabet r.space r.index) [
  | complete ↦ ready (r, [])
  | invalid ↦ failed (DecodeError.invalid_data InvalidDataKind.huffman)
  | wanting ↦ pending
]
symbols_loop alphabet r (symbol ∷ symbols) = elim (head_of alphabet r.space r.index) [
  | complete ↦ ready (r, symbol ∷ symbols)
  | invalid ↦ failed (DecodeError.invalid_data InvalidDataKind.huffman)
  | wanting ↦ elim (step alphabet symbol r) [
    | ready r' ↦ symbols_loop alphabet r' symbols
    | pending ↦ pending
    | failed e ↦ failed e
  ]
]
