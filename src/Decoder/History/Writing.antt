-- ===== src/Decoder/History/Writing.antt =====
-- Bytes from outside the ring, and sequences of copies and writes.
use mathlib.Core.Path.{subst}
use native.Mathlib.Nat.{mod-lt}
use mbrotli.Common.{
  ℕ, zero, suc, ◌+◌, ◌-◌, ◌%◌, ◌^◌, ◌≤◌, ◌<◌, arith, min, ◌≡◌, ◌∙◌, ap, true, Option, List, [], ◌∷◌,
  ◌++◌, length, get_or, take, drop, length-append, length-take, length-drop, take-append-drop,
  append_assoc, append-nil,
}
use mbrotli.Common.Slices.{
  ◌>>=◌, Gives, gives, Gives-bind, overlay, write_slice, slice_of_le, write_slice_of_le,
  length-overlay, get_or-overlay_outside, get_or-overlay_inside, get_or-append_left,
  get_or-append_right,
}
use mbrotli.Decoder.History.{History, flush_at_end, write_loop}
use mbrotli.Decoder.History.Spans.{slot-Room, Extends, Holds-piece}
use mbrotli.Decoder.History.Delivery.{Frame, IsFrame}
use mbrotli.Decoder.History.Tracking.{Tracks, put-Tracks}

append-Extends :
    (decoded bytes : List ℕ)
    → Extends decoded (length bytes) (λ i. get_or bytes i 0) (decoded ++ bytes)
append-Extends decoded bytes = record {
  size = length-append decoded bytes;
  keeps = λ p h. get_or-append_left decoded bytes p 0 h;
  adds = λ i h. get_or-append_right decoded bytes i 0;
}

module _ (w : Frame) (f : IsFrame w) where
  -- One piece of a write.
  written-Tracks :
      (bytes decoded : List ℕ) (n : ℕ) (h : History) {after : List ℕ}
      (rest : History → Option History)
      → n ≡ length bytes
      → Tracks w decoded h
      → 0 < length bytes
      → length decoded + length bytes ≤ w.end
      → length decoded % w.size + length bytes ≤ w.size
      → ((h' : History) → Tracks w (decoded ++ bytes) h' → Gives (Tracks w after) (rest h'))
      → Gives (Tracks w after) (
          write_slice h.ring (length decoded % w.size) bytes >>= λ ring.
          (flush_at_end w.linear
              (length decoded % w.size + n)
              ring
              ((length decoded + n) % 2 ^ 64)
              h.flushed
              h.output
            >>= rest))
  written-Tracks bytes decoded n h rest e t any fit into then_rest =
      rw
        (
          e,
          write_slice_of_le h.ring (length decoded % w.size) bytes
              (omega (arith, into, t.as_large)),
        )
        (Gives-bind
          (put-Tracks f (append-Extends decoded bytes) h ring' size' t fit into any (
            Holds-piece f.room h.flushed (length bytes) 0 (λ i. get_or bytes i 0) t.as_large size'
              any fit (omega arith) t.lap into t.held (append-Extends decoded bytes)
              (λ x away.
                get_or-overlay_outside h.ring (length decoded % w.size) bytes x 0
                  (omega (arith, away)))
              (λ i lt.
                get_or-overlay_inside h.ring (length decoded % w.size) bytes i 0 lt
                  (omega (arith, into, t.as_large)))))
          then_rest)
    where
      ring' : List ℕ
      ring' = overlay h.ring (length decoded % w.size) bytes

      size' : length ring' ≡ w.size
      size' = length-overlay h.ring (length decoded % w.size) bytes ∙ t.as_large

  pub write_loop-Tracks :
      (fuel : ℕ) (bytes decoded : List ℕ) (h : History)
      → length bytes ≤ fuel
      → Tracks w decoded h
      → length decoded + length bytes ≤ w.end
      → Gives (Tracks w (decoded ++ bytes)) (write_loop fuel w.linear true bytes h)
  unfolding write_loop
  write_loop-Tracks zero [] decoded h enough t fit = rw append-nil (gives t)
  write_loop-Tracks zero (b ∷ bytes) decoded h enough t fit = absurd (omega (arith, enough))
  write_loop-Tracks (suc fuel) [] decoded h enough t fit = rw append-nil (gives t)
  write_loop-Tracks (suc fuel) (b ∷ bytes) decoded h enough t fit =
      let dst : ℕ = length decoded % w.size in
      let piece : ℕ = min (length (b ∷ bytes)) (w.size - dst) in
      let source : List ℕ = take piece (b ∷ bytes) in
      let inside : dst < w.size = mod-lt (length decoded) (omega (arith, t.lap)) in
      let long : piece ≡ length source = omega (arith, length-take piece (b ∷ bytes)) in
      rw
        (
          t.as_large,
          t.at,
          slot-Room f.room (length decoded) (omega (arith, fit)),
          slice_of_le (b ∷ bytes) 0 piece (omega arith),
        )
        (written-Tracks source decoded piece h
          (write_loop fuel w.linear true (drop piece (b ∷ bytes))) long t
          (omega (arith, long, inside)) (omega (arith, long, fit)) (omega (arith, long, inside))
          (λ h' t'.
            subst
              (λ (l : List ℕ).
                Gives (Tracks w l) (write_loop fuel w.linear true (drop piece (b ∷ bytes)) h'))
              (append_assoc decoded source (drop piece (b ∷ bytes))
                ∙ ap (λ (l : List ℕ). decoded ++ l) (take-append-drop piece (b ∷ bytes)))
              (write_loop-Tracks fuel (drop piece (b ∷ bytes)) (decoded ++ source) h'
                (omega (arith, length-drop piece (b ∷ bytes), enough, inside)) t'
                (omega (
                  arith,
                  length-append decoded source,
                  length-drop piece (b ∷ bytes),
                  long,
                  fit,
                )))))
