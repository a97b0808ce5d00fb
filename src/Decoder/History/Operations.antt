-- ===== src/Decoder/History/Operations.antt =====
-- Sequences of copies and writes, with the flush that follows them, against what they mean for all
-- that is decoded.
use mathlib.Core.Path.{subst}
use mbrotli.Common.{
  ℕ, ◌+◌, ◌-◌, ◌%◌, ◌≤◌, ◌<◌, arith, ◌≡◌, ◌∙◌, inl, inr, refl, sym, leb, ◌==◌, ap, Bool, true,
  false, Option, some, List, [], ◌∷◌, ◌++◌, length, get_or, take, drop, if◌then◌else◌, Bool-cases,
  length-append, length-drop, get_elem?, eq_of_test, leb→le, le→leb,
}
use mbrotli.Common.Slices.{
  ◌>>=◌, Gives, gives, Gives-bind, length-slice, get_or-slice, get_or-drop, array_ext,
  get_elem?-get_or,
}
use native.Mathlib.Nat.{mod-lt, zero-mod}
use mbrotli.Decoder.History.{
  Output, History, flush_ring, copy_back, copy_ring, write_ring, previous_bytes, slot, back,
}
use mbrotli.Decoder.History.Slots.{back_lem}
use mbrotli.Decoder.History.Spans.{slot-Room}
use mbrotli.Decoder.History.Pieces.{length-copy_back}
use mbrotli.Decoder.History.Delivery.{Frame, IsFrame, Delivered, flush_ring-Sent}
use mbrotli.Decoder.History.Tracking.{Tracks, copy_loop-Tracks}
use mbrotli.Decoder.History.Writing.{write_loop-Tracks}

pub data Operation : Type 0 where
  copies : ℕ → ℕ → Operation
  writes : List ℕ → Operation

-- What an operation adds to all that is decoded.
unfoldable pub meant : Operation → List ℕ → List ℕ
meant (copies distance n) decoded = copy_back n distance decoded
meant (writes bytes) decoded = decoded ++ bytes

unfoldable pub all_meant : List Operation → List ℕ → List ℕ
all_meant [] decoded = decoded
all_meant (op ∷ ops) decoded = all_meant ops (meant op decoded)

-- A distance is not 0, and goes no further back than the history and the reach.
unfoldable pub IsAllowed : ℕ → Operation → List ℕ → Type 0
IsAllowed reach (copies distance n) decoded =
    (0 < distance) × (distance ≤ length decoded) × (distance ≤ reach)
IsAllowed reach (writes bytes) decoded = Unit {0}

unfoldable pub AreAllowed : ℕ → ℕ → List Operation → List ℕ → Type 0
AreAllowed reach end [] decoded = length decoded ≤ end
AreAllowed reach end (op ∷ ops) decoded =
    IsAllowed reach op decoded × AreAllowed reach end ops (meant op decoded)

unfoldable pub perform : Bool → Operation → History → Option History
perform linear (copies distance n) h = copy_ring linear distance n h
perform linear (writes bytes) h = write_ring linear true bytes h

unfoldable pub perform_all : Bool → List Operation → History → Option History
perform_all linear [] h = some h
perform_all linear (op ∷ ops) h = do h' ← perform linear op h; perform_all linear ops h'

-- The byte that is `k` before the end.
unfoldable pub byte_back : ℕ → List ℕ → ℕ
byte_back k decoded = if leb k (length decoded) then get_or decoded (length decoded - k) 0 else 0

-- The operations, and the flush at the end of them.
unfoldable pub deliver : Bool → List Operation → History → Option Output
deliver linear ops h = do
  h' ← perform_all linear ops h
  (flushed, output) ← flush_ring linear h'.ring h'.position h'.flushed h'.output
  some output

AreAllowed-length :
    (reach end : ℕ) (ops : List Operation) (decoded : List ℕ)
    → AreAllowed reach end ops decoded
    → length decoded ≤ end
unfolding AreAllowed meant
AreAllowed-length reach end [] decoded a = a
AreAllowed-length reach end (copies d n ∷ ops) decoded (a, rest) = omega (
  arith,
  AreAllowed-length reach end ops (copy_back n d decoded) rest,
  length-copy_back n d decoded,
)
AreAllowed-length reach end (writes bytes ∷ ops) decoded (a, rest) =
    omega
      (arith, AreAllowed-length reach end ops (decoded ++ bytes) rest, length-append decoded bytes)

module _ (w : Frame) (f : IsFrame w) where
  -- `copy_ring` keeps track: it succeeds, and what the ring holds and the output has is that of
  -- the decoded bytes with the run copied byte by byte from `d` back. The distance is not 0, and
  -- within the reach and what is decoded.
  pub copy_ring-Tracks :
      (d n : ℕ) (decoded : List ℕ) (h : History)
      → Tracks w decoded h
      → length decoded + n ≤ w.end
      → 0 < d
      → d ≤ length decoded
      → d ≤ w.reach
      → Gives (Tracks w (copy_back n d decoded)) (copy_ring w.linear d n h)
  unfolding copy_ring
  copy_ring-Tracks d n decoded h t fit any le near =
      copy_loop-Tracks w f n d n decoded h (omega arith) t fit any le near

  -- `write_ring`, with an output to flush to, keeps track: it succeeds, and what the ring holds and
  -- the output has is that of the decoded bytes with the written ones after them.
  write_ring-Tracks :
      (bytes decoded : List ℕ) (h : History)
      → Tracks w decoded h
      → length decoded + length bytes ≤ w.end
      → Gives (Tracks w (decoded ++ bytes)) (write_ring w.linear true bytes h)
  unfolding write_ring
  write_ring-Tracks bytes decoded h t fit =
      write_loop-Tracks w f (length bytes) bytes decoded h (omega arith) t fit

  perform-Tracks :
      (op : Operation) (decoded : List ℕ) (h : History)
      → Tracks w decoded h
      → IsAllowed w.reach op decoded
      → length (meant op decoded) ≤ w.end
      → Gives (Tracks w (meant op decoded)) (perform w.linear op h)
  unfolding perform meant IsAllowed
  perform-Tracks (copies d n) decoded h t (any, le, near) fit =
      copy_ring-Tracks d n decoded h t (omega (arith, fit, length-copy_back n d decoded)) any le
        near
  perform-Tracks (writes bytes) decoded h t a fit =
      write_ring-Tracks bytes decoded h t (omega (arith, fit, length-append decoded bytes))

  perform_all-Tracks :
      (ops : List Operation) (decoded : List ℕ) (h : History)
      → Tracks w decoded h
      → AreAllowed w.reach w.end ops decoded
      → Gives (Tracks w (all_meant ops decoded)) (perform_all w.linear ops h)
  unfolding perform_all all_meant AreAllowed
  perform_all-Tracks [] decoded h t a = gives t
  perform_all-Tracks (op ∷ ops) decoded h t (a, rest) =
      Gives-bind
        (perform-Tracks op decoded h t a
          (AreAllowed-length w.reach w.end ops (meant op decoded) rest))
        (λ h' t'. perform_all-Tracks ops (meant op decoded) h' t' rest)

  all_meant-le :
      (ops : List Operation) (decoded : List ℕ)
      → AreAllowed w.reach w.end ops decoded
      → length (all_meant ops decoded) ≤ w.end
  unfolding all_meant AreAllowed
  all_meant-le [] decoded a = a
  all_meant-le (op ∷ ops) decoded (a, rest) = all_meant-le ops (meant op decoded) rest

  Delivered-drop :
      (decoded : List ℕ) (output : Output)
      → w.start ≤ length decoded
      → length decoded ≤ w.end
      → Delivered true w.start w.base w.capacity decoded (length decoded) output
      → take (length decoded - w.start) (drop w.base output.bytes) ≡ drop w.start decoded
  Delivered-drop decoded output le fit d =
      array_ext (take (length decoded - w.start) (drop w.base output.bytes)) (drop w.start decoded)
        0 (omega (arith, long, length-drop w.start decoded))
        (λ i h.
          let few : i < length decoded - w.start = omega (arith, long, h) in
          get_or-slice output.bytes w.base (length decoded - w.start) i 0 few
          ∙ ap (λ (k : ℕ). get_or output.bytes (w.base + k) 0)
              (let z : i ≡ w.start + i - w.start = omega arith in z)
          ∙ d.sent refl (w.start + i) (omega arith) (omega (arith, few))
          ∙ sym (get_or-drop w.start decoded i 0))
    where
      long :
          length (take (length decoded - w.start) (drop w.base output.bytes))
          ≡ length decoded - w.start
      long =
          length-slice output.bytes w.base (length decoded - w.start)
            (omega (arith, d.room, le, fit, f.fits_output))

  -- Where the output is delivered to, a sequence of copies and writes, with the flush after it,
  -- succeeds, and the output then has, from `w.base` on, just the bytes from position `w.start` on of all that the
  -- sequence means, whatever the ring's size, the places where it wraps, and the ways that its
  -- pieces are copied, and it counts them. Every distance is not 0 and within the reach and what is
  -- decoded; the ring tracks what was decoded before, and is either a power of two with 16 bytes
  -- beyond the reach, or not filled by the sequence; the output has room for all of it.
  pub deliver-all_meant :
      (ops : List Operation) (decoded : List ℕ) (h : History)
      → w.sends ≡ true
      → Tracks w decoded h
      → AreAllowed w.reach w.end ops decoded
      → Gives
          (λ (output : Output).
            (output.produced ≡ w.base + (length (all_meant ops decoded) - w.start))
            × (take (length (all_meant ops decoded) - w.start) (drop w.base output.bytes)
                ≡ drop w.start (all_meant ops decoded)))
          (deliver w.linear ops h)
  unfolding deliver
  deliver-all_meant ops decoded h sends t a =
      Gives-bind (perform_all-Tracks ops decoded h t a) (λ h' t'. rw t'.at (
        Gives-bind
          (flush_ring-Sent w f h'.ring (all_meant ops decoded) h'.flushed h'.output t'.as_large
            (all_meant-le ops decoded a) t'.upto (omega (arith, t'.lap)) t'.held t'.sent)
          (λ r (all, (d, mode)). gives (
            d.count,
            Delivered-drop (all_meant ops decoded) r.1 d.later (all_meant-le ops decoded a) (
                subst
                  (λ (b : Bool).
                    Delivered b w.start w.base w.capacity (all_meant ops decoded)
                      (length (all_meant ops decoded)) r.1)
                  sends d),
          ))))

  read_back :
      (k : ℕ) (decoded : List ℕ) (h : History)
      → Tracks w decoded h
      → 0 < k
      → k ≤ length decoded
      → k ≤ w.reach
      → length decoded ≤ w.end
      → get_elem? h.ring (slot w.size (back (length decoded) k))
        ≡ some (get_or decoded (length decoded - k) 0)
  read_back k decoded h t any le near fit =
      rw
        (
          back_lem (length decoded) k le (omega (arith, fit, f.bounded)),
          slot-Room f.room (length decoded - k) (omega (arith, fit, any, le)),
          get_elem?-get_or h.ring ((length decoded - k) % w.size) 0 (
              omega (
                arith,
                t.as_large,
                mod-lt (length decoded - k) {m = w.size} (omega (arith, t.lap)),
              )),
        )
        (ap some (
          ap (λ (m : ℕ). get_or h.ring ((length decoded - k) % m) 0) (sym t.as_large)
          ∙ t.held.byte_at (length decoded - k) (omega (arith, any, le))
              (inr (omega (arith, near, le)))))

  -- For a ring that tracks the decoded bytes, with a reach of two at least, `previous_bytes` is the
  -- last decoded byte and the one before it, and 0 for each that is not there.
  pub previous_bytes-byte_back :
      (decoded : List ℕ) (h : History)
      → Tracks w decoded h
      → 2 ≤ w.reach
      → length decoded ≤ w.end
      → previous_bytes h.ring h.position ≡ some (byte_back 1 decoded, byte_back 2 decoded)
  unfolding previous_bytes byte_back
  previous_bytes-byte_back decoded h t near fit = elim (Bool-cases (leb 2 (length decoded))) [
    | inl e ↦
        let two : 2 ≤ length decoded = leb→le 2 (length decoded) e in
        rw
          (
            t.at,
            t.as_large,
            e,
            le→leb 1 (length decoded) (omega (arith, two)),
            read_back 1 decoded h t (omega arith) (omega (arith, two)) (omega (arith, near)) fit,
            read_back 2 decoded h t (omega arith) (omega (arith, two)) (omega (arith, near)) fit,
          )
          refl
    | inr e ↦ elim (Bool-cases (length decoded == 0)) [
      | inl g ↦
          let empty : length decoded ≡ 0 = eq_of_test (length decoded) 0 g in rw (t.at, empty) refl
      | inr g ↦
          let one : length decoded ≡ 1 = single e g in
          let first : get_or h.ring 0 0 ≡ get_or decoded 0 0 =
            ap (λ (k : ℕ). get_or h.ring k 0) (sym (zero-mod (length h.ring)))
            ∙ t.held.byte_at 0 (omega (arith, one)) (inr (omega (arith, one, near))) in
          rw (t.at, one, get_elem?-get_or h.ring 0 0 (omega (arith, t.as_large, t.lap)), first) refl
    ]
  ]
    where
      single : leb 2 (length decoded) ≡ false → (length decoded == 0) ≡ false → length decoded ≡ 1
      single e g = ground arith
