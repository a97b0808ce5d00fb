-- ===== src/Decoder/History/Tracking.antt =====
-- The history through the loops over pieces: it tracks all that is decoded.
use mathlib.Core.Path.{subst}
use native.Mathlib.Nat.{mod-lt, mod-le}
use mbrotli.Common.{
  ℕ, zero, suc, ◌+◌, ◌-◌, ◌%◌, ◌^◌, ◌≤◌, ◌<◌, arith, min, ◌==◌, ◌≡◌, ◌∙◌, ◌⊎◌, inl, inr, refl, sym,
  ap, false, Bool-cases, Option, List, length, get_or, eq_of_test,
}
use mbrotli.Common.Slices.{◌>>=◌, Gives, gives, Gives-bind}
use mbrotli.Decoder.History.{Output, History, flush_at_end, copy_back, copy_piece, copy_loop}
use mbrotli.Decoder.History.Slots.{mod-shift, back_lem, source-cases}
use mbrotli.Decoder.History.Copies.{Repeats}
use mbrotli.Decoder.History.Spans.{Holds, Room, slot-Room, Room-small, Extends, Holds-piece}
use mbrotli.Decoder.History.Pieces.{
  copy_back-Extends, copy_back_add, length-copy_back, copy_piece-Repeats,
}
use mbrotli.Decoder.History.Delivery.{Frame, IsFrame, Sent, flush_ring-Sent}

-- The ring holds what copies may reach and what is not flushed, which lies in one lap, and the rest
-- is delivered.
pub record Tracks (w : Frame) (decoded : List ℕ) (h : History) : Type 0 where
  pub as_large : length h.ring ≡ w.size
  pub at : h.position ≡ length decoded
  pub upto : h.flushed ≤ length decoded
  pub lap : h.flushed % w.size + (length decoded - h.flushed) < w.size
  pub held : Holds w.reach h.flushed h.ring decoded
  pub sent : Sent w decoded h.flushed h.output

module _ {w : Frame} (f : IsFrame w) {decoded decoded' : List ℕ} {n : ℕ} {more : ℕ → ℕ}
    (x : Extends decoded n more decoded') where
  Sent-Extends :
      {flushed : ℕ} {output : Output}
      → flushed ≤ length decoded
      → Sent w decoded flushed output
      → Sent w decoded' flushed output
  Sent-Extends le (d, mode) = (
    record {
      later = d.later;
      count = d.count;
      room = d.room;
      sent = λ e p from upto. d.sent e p from upto ∙ sym (x.keeps p (omega (arith, upto, le)));
    },
    mode,
  )

  -- The ring after a piece, which is flushed where it reaches the ring's end.
  pub put-Tracks :
      (h : History) (ring' : List ℕ)
      → length ring' ≡ w.size
      → Tracks w decoded h
      → length decoded + n ≤ w.end
      → length decoded % w.size + n ≤ w.size
      → 0 < n
      → Holds w.reach h.flushed ring' decoded'
      → Gives (Tracks w decoded') (
          flush_at_end w.linear
            (length decoded % w.size + n)
            ring'
            ((length decoded + n) % 2 ^ 64)
            h.flushed
            h.output)
  unfolding flush_at_end
  put-Tracks h ring' s' t fit one any held' =
      elim (Bool-cases (length decoded % w.size + n == w.size)) [
        | inl e ↦
            rw (flush_at_end, s', e, moved)
              (Gives-bind
                (flush_ring-Sent w f ring' decoded' h.flushed h.output s'
                  (omega (arith, x.size, fit)) (omega (arith, x.size, t.upto))
                  (omega (arith, x.size, one, start, t.upto)) held' (Sent-Extends t.upto t.sent))
                (λ r (all, q). gives (record {
                  as_large = s';
                  at = refl;
                  upto = omega (arith, all);
                  lap = omega (arith, all, mod-lt r.0 {m = w.size} (omega (arith, one, any)));
                  held = record {
                    byte_at = λ p lt needed. held'.byte_at p lt (omega (arith, needed, lt, all));
                  };
                  sent = subst (λ (k : ℕ). Sent w decoded' k r.1) (sym all) q;
                })))
        | inr e ↦
            let before : length decoded % w.size + n < w.size = not_end e in
            rw (flush_at_end, s', e)
              (gives (record {
                as_large = s';
                at = moved;
                upto = omega (arith, x.size, t.upto);
                lap = omega (arith, x.size, before, start, t.upto);
                held = held';
                sent = Sent-Extends t.upto t.sent;
              }))
      ]
    where
      moved : (length decoded + n) % 2 ^ 64 ≡ length decoded'
      moved = omega (arith, x.size, fit, f.bounded)

      start : length decoded % w.size ≡ h.flushed % w.size + (length decoded - h.flushed)
      start =
          ap (λ (k : ℕ). k % w.size)
            (let z : length decoded ≡ h.flushed + (length decoded - h.flushed) =
                omega (arith, t.upto) in
              z)
          ∙ mod-shift w.size h.flushed (length decoded - h.flushed) t.lap

      not_end :
          (length decoded % w.size + n == w.size) ≡ false → length decoded % w.size + n < w.size
      not_end e = ground (arith, one)

module _ (w : Frame) (f : IsFrame w) where
  pub reach-lt :
      (n d : ℕ) (decoded : List ℕ)
      → 0 < n
      → length decoded + n ≤ w.end
      → d ≤ length decoded
      → d ≤ w.reach
      → d < w.size
  reach-lt n d decoded any fit le near = by_room f.room
    where
      by_room : Room w.size w.reach w.end → d < w.size
      by_room (Room.wraps k h e r) = omega (arith, near, r)
      by_room (Room.fits h small) = omega (arith, h, fit, le, any)

  -- The ring after a run that repeats what is decoded.
  pub Repeats-Tracks :
      (d n slack : ℕ) (decoded : List ℕ) (h : History) (ring : List ℕ)
      → Tracks w decoded h
      → 0 < n
      → length decoded + n ≤ w.end
      → 0 < d
      → d ≤ length decoded
      → d ≤ w.reach
      → slack ≤ n + 16
      → length decoded % w.size + n ≤ w.size
      → (length decoded - d) % w.size + n ≤ w.size
      → Repeats h.ring (length decoded % w.size) ((length decoded - d) % w.size) n slack d ring
      → Gives (Tracks w (copy_back n d decoded)) (
          flush_at_end w.linear
            (length decoded % w.size + n)
            ring
            ((length decoded + n) % 2 ^ 64)
            h.flushed
            h.output)
  Repeats-Tracks d n slack decoded h ring t any fit some_back le near few into from p =
      put-Tracks f x h ring (p.size ∙ t.as_large) t fit into any (
        Holds-piece f.room h.flushed n slack (λ i. get_or decoded (length decoded - d + i % d) 0)
          t.as_large (p.size ∙ t.as_large) any fit few t.lap into t.held x p.outside
          (λ i lt. p.inside i lt ∙ source i lt))
    where
      x :
          Extends decoded n
            (λ i. get_or decoded (length decoded - d + i % d) 0)
            (copy_back n d decoded)
      x = copy_back-Extends n d decoded some_back le

      source :
          (i : ℕ)
          → i < n
          → get_or h.ring ((length decoded - d) % w.size + i % d) 0
            ≡ get_or decoded (length decoded - d + i % d) 0
      source i lt =
          let small : i % d < d = mod-lt i some_back in
          let fewer : i % d ≤ i = mod-le i d in
          ap (λ (k : ℕ). get_or h.ring k 0)
            (sym (mod-shift w.size (length decoded - d) (i % d) (omega (arith, fewer, lt, from))))
          ∙ ap (λ (m : ℕ). get_or h.ring ((length decoded - d + i % d) % m) 0) (sym t.as_large)
          ∙ t.held.byte_at (length decoded - d + i % d) (omega (arith, small, le))
              (inr (omega (arith, near, le)))

  -- The source of a run that does not wrap is just before it, or far enough from it.
  pub place-cases :
      (d n : ℕ) (decoded : List ℕ)
      → d < w.size
      → d ≤ length decoded
      → (length decoded - d) % w.size + n ≤ w.size
      → (length decoded % w.size ≡ (length decoded - d) % w.size + d)
        ⊎ ((length decoded % w.size ≤ (length decoded - d) % w.size) × (n ≤ d))
  place-cases d n decoded short le from = elim (source-cases w.size (length decoded) d short le) [
    | inl (in_lap, e) ↦ inl (omega (arith, in_lap, e))
    | inr (ahead, e) ↦ inr (omega (arith, ahead, e, short), omega (arith, ahead, e, short, from))
  ]

  -- One piece of a copy.
  piece-Tracks :
      (d n : ℕ) (decoded : List ℕ) (h : History) {after : List ℕ} (rest : History → Option History)
      → Tracks w decoded h
      → 0 < n
      → length decoded + n ≤ w.end
      → 0 < d
      → d ≤ length decoded
      → d ≤ w.reach
      → d < w.size
      → length decoded % w.size + n ≤ w.size
      → (length decoded - d) % w.size + n ≤ w.size
      → ((h' : History) → Tracks w (copy_back n d decoded) h' → Gives (Tracks w after) (rest h'))
      → Gives (Tracks w after) (
          copy_piece h.ring (length decoded % w.size) ((length decoded - d) % w.size) n d
          >>= λ ring.
              (flush_at_end w.linear
                  (length decoded % w.size + n)
                  ring
                  ((length decoded + n) % 2 ^ 64)
                  h.flushed
                  h.output
                >>= rest))
  piece-Tracks d n decoded h rest t any fit some_back le near short into from then_rest =
      Gives-bind
        (copy_piece-Repeats h.ring (length decoded % w.size) ((length decoded - d) % w.size) n d any
          some_back (omega (arith, t.as_large, into)) (omega (arith, t.as_large, from))
          (omega (arith, t.as_large, Room-small f.room)) (place-cases d n decoded short le from))
        (λ ring p.
          Gives-bind
            (Repeats-Tracks d n 16 decoded h ring t any fit some_back le near (omega arith) into
              from p)
            then_rest)

  pub copy_loop-Tracks :
      (fuel d n : ℕ) (decoded : List ℕ) (h : History)
      → n ≤ fuel
      → Tracks w decoded h
      → length decoded + n ≤ w.end
      → 0 < d
      → d ≤ length decoded
      → d ≤ w.reach
      → Gives (Tracks w (copy_back n d decoded)) (copy_loop fuel w.linear d n h)
  unfolding copy_loop copy_back
  copy_loop-Tracks zero d n decoded h enough t fit some_back le near =
      let none_left : n ≡ 0 = omega (arith, enough) in rw (none_left, copy_back) (gives t)
  copy_loop-Tracks (suc fuel) d n decoded h enough t fit some_back le near =
      elim (Bool-cases (n == 0)) [
        | inl e ↦ let none_left : n ≡ 0 = eq_of_test n 0 e in rw (none_left, copy_back) (gives t)
        | inr e ↦
            let any : 0 < n = not_zero n e in
            let short : d < w.size = reach-lt n d decoded any fit le near in
            let dst : ℕ = length decoded % w.size in
            let src : ℕ = (length decoded - d) % w.size in
            let piece : ℕ = min (min n (w.size - dst)) (w.size - src) in
            let inside : dst < w.size = mod-lt (length decoded) (omega (arith, short)) in
            let inside' : src < w.size = mod-lt (length decoded - d) (omega (arith, short)) in
            rw
              (
                copy_loop,
                e,
                t.as_large,
                t.at,
                slot-Room f.room (length decoded) (omega (arith, any, fit)),
                back_lem (length decoded) d le (omega (arith, fit, any, f.bounded)),
                slot-Room f.room (length decoded - d) (omega (arith, any, fit)),
              )
              (piece-Tracks d piece decoded h (copy_loop fuel w.linear d (n - piece)) t
                (omega (arith, any, inside, inside')) (omega (arith, fit)) some_back le near short
                (omega (arith, inside)) (omega (arith, inside'))
                (λ h' t'.
                  let whole : (n - piece) + piece ≡ n = omega arith in
                  subst
                    (λ (l : List ℕ). Gives (Tracks w l) (copy_loop fuel w.linear d (n - piece) h'))
                    (sym (copy_back_add piece (n - piece) d decoded)
                      ∙ ap (λ (k : ℕ). copy_back k d decoded) whole)
                    (copy_loop-Tracks fuel d (n - piece) (copy_back piece d decoded) h'
                      (omega (arith, any, enough, inside, inside')) t'
                      (omega (arith, length-copy_back piece d decoded, fit)) some_back
                      (omega (arith, length-copy_back piece d decoded, le)) near)))
      ]
    where
      not_zero : (n : ℕ) → (n == 0) ≡ false → 0 < n
      not_zero n e = ground arith
