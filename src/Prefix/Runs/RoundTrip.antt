-- ===== src/Prefix/Runs/RoundTrip.antt =====
-- The decoder reads the lengths back that the encoder wrote as runs.
use mbrotli.Common.{
  ℕ, ◌+◌, ◌-◌, ◌≤◌, arith, ltb, ◌==◌, if◌then◌else◌, List, [], ◌∷◌, ◌++◌, Bool, false,
}
use mbrotli.Common.{
  ◌≡◌, inl, inr, refl, sym, ap, ◌∙◌, Bool-cases, length, replicate, take, All, append-nil,
  length-take,
}
use mbrotli.Decoder.Errors.{ready, pending, failed, DecodeError, InvalidDataKind}
use mbrotli.Prefix.Lists.{Lists, clear, assign_loop, max_alphabet}
use mbrotli.Prefix.Lists.Order.{clear-Below}
use mbrotli.Prefix.Lengths.{Reader, Head, complete, invalid, wanting, start_symbols, symbols_loop}
use mbrotli.Prefix.Lengths.Holds.{
  kraft, Holds, last_value, kraft-append, kraft-replicate, assign_loop-append, assign_loop-zeros,
}
use mbrotli.Prefix.Lengths.Steps.{Fresh, closed_head}
use mbrotli.Prefix.Runs.{tree_loop, trimmed_length, decide_over_rle_use, write_huffman_tree}
use mbrotli.Prefix.Runs.Codes.{}
use mbrotli.Prefix.Runs.Trimmed.{All-take, take-whole, Trimmed, trimmed_length-Trimmed}
use mbrotli.Prefix.Runs.Pieces.{Idle}
use mbrotli.Prefix.Runs.Whole.{Whole, tree_loop-Whole}

start-Holds : (l : Lists) → Holds l [] (start_symbols l)
unfolding start_symbols kraft assign_loop last_value
start-Holds l = record {
  placed = refl;
  below = clear-Below l;
  built = refl;
  fits = omega arith;
  left = refl;
  last = refl;
}

start-Idle : (a b : Bool) (l : Lists) (depth : List ℕ) → Idle a b (start_symbols l) depth
unfolding Idle Fresh start_symbols
start-Idle a b l [] = tt
start-Idle a b l (v ∷ rest) =
    λ _. elim (Bool-cases (0 == v)) [ inl t ↦ rw t refl | inr t ↦ rw t refl ]

-- Once the code space is full, the loop ends, and keeps what it has.
full-loop :
    (alphabet : ℕ) {l : Lists} {done : List ℕ} (r : Reader)
    → Holds l done r
    → kraft done ≡ 32768
    → symbols_loop alphabet r [] ≡ ready (r, [])
unfolding symbols_loop
full-loop alphabet r h full =
    ap
      (λ (h : Head). elim h [
        | complete ↦ ready (r, [])
        | invalid ↦ failed (DecodeError.invalid_data InvalidDataKind.huffman)
        | wanting ↦ pending
      ])
      (closed_head alphabet h full)

-- For code lengths of at most fifteen that fill the code space exactly, of 704 symbols at most and
-- not more than the alphabet: the decoder's loop, on the codes that the encoder writes for the
-- lengths, with or without repeat codes and less the zeros at the end, takes every code, ends
-- without an error, and leaves the lists that it has when each symbol is appended with its length.
pub symbols_loop-write_huffman_tree :
    (depth : List ℕ) (alphabet : ℕ) (l : Lists)
    → All (λ x. x ≤ 15) depth
    → kraft depth ≡ 32768
    → length depth ≤ 704
    → length depth ≤ alphabet
    → alphabet ≤ max_alphabet
    → (r : Reader) × (symbols_loop alphabet
          (start_symbols l)
          (write_huffman_tree depth (length depth))
        ≡ ready (r, []))
      × (r.lists ≡ assign_loop 0 depth (clear l))
unfolding write_huffman_tree last_value kraft
symbols_loop-write_huffman_tree depth alphabet l narrow full short room small = (
  w.reader,
  ap (symbols_loop alphabet (start_symbols l)) (w.appended ∙ sym (append-nil w.codes))
      ∙ w.read.loop []
      ∙ full-loop alphabet w.reader w.read.state shares,
  w.read.state.built
      ∙ sym (
          ap (λ (xs : List ℕ). assign_loop 0 xs (clear l)) same
          ∙ assign_loop-append 0 (take m depth) (replicate (length depth - m) 0) (clear l)
          ∙ assign_loop-zeros (length depth - m) (0 + length (take m depth))
              (assign_loop 0 (take m depth) (clear l))),
)
  where
    m : ℕ
    m = trimmed_length depth (length depth)

    t : Trimmed depth (length depth) m
    t = trimmed_length-Trimmed depth (length depth) (omega arith)

    rle : Bool × Bool
    rle = if ltb 50 (length depth) then decide_over_rle_use depth m else (false, false)

    same : depth ≡ take m depth ++ replicate (length depth - m) 0
    same = sym (take-whole depth) ∙ t.zeros

    shares : kraft (take m depth) ≡ 32768
    shares = omega (
      arith,
      full,
      ap kraft same,
      kraft-append (take m depth) (replicate (length depth - m) 0),
      kraft-replicate (length depth - m) 0,
    )

    sizes : length (take m depth) ≤ length depth
    sizes = omega (arith, length-take m depth)

    w :
        Whole alphabet l []
          (take m depth)
          (start_symbols l)
          []
          (tree_loop m rle.0 rle.1 8 (take m depth) [])
    w =
        tree_loop-Whole m rle.0 rle.1 alphabet (take m depth) (start_symbols l) []
          (omega (arith, length-take m depth)) (start-Holds l)
          (start-Idle rle.0 rle.1 l (take m depth)) (All-take (λ x. x ≤ 15) m depth narrow) t.closed
          (omega (arith, shares)) (omega (arith, sizes, room)) (omega (arith, small))
          (omega (arith, sizes, short))
