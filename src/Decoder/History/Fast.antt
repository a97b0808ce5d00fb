-- ===== src/Decoder/History/Fast.antt =====
-- src/decompressor/core/stream.rs: the copy of the command loop, for a ring, which takes a copy at
-- once where neither side wraps.
use mathlib.Core.Path.{subst}
use mbrotli.Common.{
  ℕ, ◌+◌, ◌-◌, ◌%◌, ◌^◌, ◌≤◌, ◌<◌, arith, max, leb, ◌≡◌, ◌⊎◌, inl, inr, refl, Bool, false,
  Bool-cases, if◌then◌else◌, Option, none, some, List, length, leb→le,
}
use mbrotli.Common.Slices.{◌>>=◌, Gives, gives, Gives-bind}
use mbrotli.Decoder.History.{
  History, copy16, copy32, copy_vector, copy_within, copy_overlapping, copy_ring, flush_at_end,
  slot, back, copy_back,
}
use mbrotli.Decoder.History.Slots.{back_lem}
use mbrotli.Decoder.History.Copies.{Repeats, copy_overlapping-Repeats}
use mbrotli.Decoder.History.Spans.{slot-Room, Room-small}
use mbrotli.Decoder.History.Pieces.{copy_vector-Repeats, copy_within-Repeats}
use mbrotli.Decoder.History.Delivery.{Frame, IsFrame}
use mbrotli.Decoder.History.Tracking.{Tracks, Repeats-Tracks, place-cases, reach-lt}
use mbrotli.Decoder.History.Operations.{copy_ring-Tracks}

-- The vector copy of a short run that its source does not overlap.
unfoldable pub short_copy : List ℕ → ℕ → ℕ → ℕ → ℕ → Option (List ℕ)
short_copy ring src dst len distance =
    if leb len distance
    then (if leb len 16
        then copy16 ring src dst
        else if leb len 32
        then copy32 ring src dst
        else none)
    else none

-- A copy that is not short, of sides that do not wrap.
unfoldable pub whole_copy : List ℕ → ℕ → ℕ → ℕ → ℕ → Option (List ℕ)
whole_copy ring src dst len distance =
    if leb len distance
    then copy_within ring src len dst
    else copy_overlapping ring dst src len distance

-- What follows the attempt of a vector copy.
unfoldable pub after_short : Option (List ℕ) → ℕ → ℕ → ℕ → ℕ → ℕ → ℕ → History → Option History
after_short (some ring) size dst src position distance len h =
    flush_at_end false (dst + len) ring ((position + len) % 2 ^ 64) h.flushed h.output
after_short none size dst src position distance len h =
    if leb (max dst src + len) size
    then (do
      ring ← whole_copy h.ring src dst len distance
      flush_at_end false (dst + len) ring ((position + len) % 2 ^ 64) h.flushed h.output)
    else copy_ring false distance len h

unfoldable pub command_copy : ℕ → ℕ → History → Option History
command_copy distance len h =
    let size = length h.ring in
    let dst = slot size h.position in
    let src = slot size (back h.position distance) in
    after_short (short_copy h.ring src dst len distance) size dst src h.position distance len h

module _ (ring : List ℕ) (src dst len distance : ℕ) where
  -- A vector copy has room for both of its windows.
  short_copy-Repeats :
      (short_copy ring src dst len distance ≡ none)
      ⊎ ((slack : ℕ) × (slack ≤ len + 16)
          × (src + len ≤ length ring)
          × (dst + len ≤ length ring)
          × Gives (Repeats ring dst src len slack distance) (short_copy ring src dst len distance))
  unfolding short_copy copy16 copy32
  short_copy-Repeats = elim (Bool-cases (leb len distance)) [
    | inr e ↦ inl (rw e refl)
    | inl e ↦ elim (Bool-cases (leb len 16)) [
      | inl f ↦ rw (e, f) (vector 16 (leb→le len distance e) (leb→le len 16 f) (omega arith))
      | inr f ↦ elim (Bool-cases (leb len 32)) [
        | inl g ↦ rw (e, f, g) (vector 32 (leb→le len distance e) (leb→le len 32 g) (above len f))
        | inr g ↦ inl (rw (e, f, g) refl)
      ]
    ]
  ]
    where
      above : (len : ℕ) → leb len 16 ≡ false → 32 ≤ len + 16
      above len f = ground arith

      vector :
          (width : ℕ)
          → len ≤ distance
          → len ≤ width
          → width ≤ len + 16
          → (copy_vector width ring src dst ≡ none)
            ⊎ ((slack : ℕ) × (slack ≤ len + 16)
                × (src + len ≤ length ring)
                × (dst + len ≤ length ring)
                × Gives (Repeats ring dst src len slack distance) (copy_vector width ring src dst))
      vector width away le few =
          elim (copy_vector-Repeats ring src dst len distance away width width le (omega arith)) [
            | inl e ↦ inl e
            | inr (a, b, g) ↦ inr (width, few, omega (arith, a, le), omega (arith, b, le), g)
          ]

  whole_copy-Repeats :
      0 < len
      → 0 < distance
      → (dst ≡ src + distance) ⊎ ((dst ≤ src) × (len ≤ distance))
      → src + len ≤ length ring
      → dst + len ≤ length ring
      → length ring < 2 ^ 63
      → Gives (Repeats ring dst src len 0 distance) (whole_copy ring src dst len distance)
  unfolding whole_copy
  whole_copy-Repeats any some_back place from into small = elim (Bool-cases (leb len distance)) [
    | inl e ↦
        rw (whole_copy, e)
          (copy_within-Repeats ring src dst len distance (leb→le len distance e) 0 from into)
    | inr e ↦
        rw (whole_copy, e)
          (elim place [
            | inr (after, away) ↦ absurd (over e away)
            | inl same ↦ rw same (
                copy_overlapping-Repeats ring src distance some_back len (omega (arith, same, into))
                  any small)
          ])
  ]
    where
      over : leb len distance ≡ false → len ≤ distance → ⊥
      over e away = ground arith

module _ (w : Frame) (f : IsFrame w) (ring_kind : w.linear ≡ false) where
  -- The copy of the command loop succeeds, whether it goes by a vector copy, as a whole or in
  -- pieces, and what the ring then holds and the output has is that of the decoded bytes with the
  -- run copied byte by byte from the distance back. The history is a ring that tracks the decoded
  -- bytes, as large as the window or not filled; the length and the distance are not 0, and the
  -- distance is within the reach and the decoded bytes.
  pub command_copy-Tracks :
      (d n : ℕ) (decoded : List ℕ) (h : History)
      → Tracks w decoded h
      → 0 < n
      → length decoded + n ≤ w.end
      → 0 < d
      → d ≤ length decoded
      → d ≤ w.reach
      → Gives (Tracks w (copy_back n d decoded)) (command_copy d n h)
  unfolding command_copy after_short
  command_copy-Tracks d n decoded h t any fit some_back le near =
      simp
        (
          t.as_large,
          t.at,
          slot-Room f.room (length decoded) (omega (arith, any, fit)),
          back_lem (length decoded) d le (omega (arith, fit, any, f.bounded)),
          slot-Room f.room (length decoded - d) (omega (arith, any, fit)),
        )
        (elim (short_copy-Repeats h.ring src dst n d) [
          | inr (slack, few, from, into, g) ↦ short slack few from into g
          | inl e ↦ elim (Bool-cases (leb (max dst src + n) w.size)) [
            | inl g ↦
                let room : max dst src + n ≤ w.size = leb→le (max dst src + n) w.size g in
                rw (e, after_short, g)
                  (Gives-bind
                    (whole_copy-Repeats h.ring src dst n d any some_back
                      (place-cases w f d n decoded (reach-lt w f n d decoded any fit le near) le
                        (omega (arith, room)))
                      (omega (arith, room, t.as_large)) (omega (arith, room, t.as_large))
                      (omega (arith, t.as_large, Room-small f.room)))
                    (λ ring p.
                      done 0 (omega arith) (omega (arith, room)) (omega (arith, room)) ring p))
            | inr g ↦
                rw (e, after_short, g)
                  (subst
                    (λ (b : Bool). Gives (Tracks w (copy_back n d decoded)) (copy_ring b d n h))
                    ring_kind (copy_ring-Tracks w f d n decoded h t fit some_back le near))
          ]
        ])
    where
      dst : ℕ
      dst = length decoded % w.size

      src : ℕ
      src = (length decoded - d) % w.size

      done :
          (slack : ℕ)
          → slack ≤ n + 16
          → src + n ≤ w.size
          → dst + n ≤ w.size
          → (ring : List ℕ) → Repeats h.ring dst src n slack d ring
          → Gives
              (Tracks w (copy_back n d decoded))
              (flush_at_end false (dst + n) ring ((length decoded + n) % 2 ^ 64) h.flushed h.output)
      done slack few from into ring p =
          subst
            (λ (b : Bool).
              Gives (Tracks w (copy_back n d decoded))
                (flush_at_end b (dst + n) ring ((length decoded + n) % 2 ^ 64) h.flushed h.output))
            ring_kind
            (Repeats-Tracks w f d n slack decoded h ring t any fit some_back le near few into from
              p)

      short :
          (slack : ℕ)
          → slack ≤ n + 16
          → src + n ≤ length h.ring
          → dst + n ≤ length h.ring
          → {o : Option (List ℕ)} → Gives (Repeats h.ring dst src n slack d) o
          → Gives
              (Tracks w (copy_back n d decoded))
              (after_short o w.size dst src (length decoded) d n h)
      short slack few from into (gives p) =
          done slack few (omega (arith, from, t.as_large)) (omega (arith, into, t.as_large)) _ p
