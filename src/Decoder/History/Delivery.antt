-- ===== src/Decoder/History/Delivery.antt =====
-- The delivery of the ring's bytes to the output.
use mathlib.Core.Path.{subst}
use mbrotli.Common.{
  ℕ, ◌+◌, ◌-◌, ◌%◌, ◌^◌, ◌≤◌, ◌<◌, arith, ltb, ◌==◌, ◌≡◌, ◌∙◌, inl, inr, refl, sym, ap, Bool, true,
  false, Bool-cases, List, length, get_or, take, drop, ltb→lt, ltb→ge, eq_of_test,
}
use mbrotli.Common.Slices.{
  Gives, gives, overlay, slice_of_le, write_slice_of_le, length-overlay, get_or-overlay_outside,
  get_or-overlay_inside, length-slice, get_or-slice,
}
use mbrotli.Decoder.History.{Output, delivers, flush_ring, back}
use mbrotli.Decoder.History.Slots.{mod-shift, back_lem}
use mbrotli.Decoder.History.Spans.{Holds, Room, slot-Room}

-- What an output of a capacity has been given: the decoded bytes from `start` on, up to `flushed`,
-- stand in it from `base` on, where bytes are delivered at all.
pub record Delivered (sends : Bool) (start base capacity : ℕ) (decoded : List ℕ) (flushed : ℕ)
    (output : Output) : Type 0 where
  pub later : start ≤ flushed
  pub count : output.produced ≡ base + (flushed - start)
  pub room : length output.bytes ≡ capacity
  pub sent :
      sends ≡ true
      → (p : ℕ) → start ≤ p
      → p < flushed
      → get_or output.bytes (base + (p - start)) 0 ≡ get_or decoded p 0

-- The lengths of a run of operations: of the ring, of what a copy may reach, of all that will be
-- decoded, and of the output; and how the output is used.
pub record Frame : Type 0 where
  pub linear : Bool
  pub sends : Bool
  pub size : ℕ
  pub reach : ℕ
  pub end : ℕ
  pub start : ℕ
  pub base : ℕ
  pub capacity : ℕ

pub record IsFrame (w : Frame) : Type 0 where
  pub room : Room w.size w.reach w.end
  pub bounded : w.end < 2 ^ 64
  pub fits_output : w.base + (w.end - w.start) ≤ w.capacity

abbrev pub Sent : Frame → List ℕ → ℕ → Output → Type 0
Sent w decoded flushed output =
    Delivered w.sends w.start w.base w.capacity decoded flushed output
    × (delivers w.linear output ≡ w.sends)

module _ (w : Frame) (f : IsFrame w) where
  flushes :
      (ring decoded : List ℕ) (flushed : ℕ) (output : Output)
      → length ring ≡ w.size
      → length decoded ≤ w.end
      → flushed < length decoded
      → flushed % w.size + (length decoded - flushed) ≤ w.size
      → Holds w.reach flushed ring decoded
      → Delivered true w.start w.base w.capacity decoded flushed output
      → Delivered true w.start w.base w.capacity decoded (length decoded) (record output {
        bytes =
            overlay output.bytes output.produced
              (take (length decoded - flushed) (drop (flushed % w.size) ring));
        produced = output.produced + (length decoded - flushed);
      })
  flushes ring decoded flushed output s le any lap held d = record {
    later = omega (arith, d.later, any);
    count = omega (arith, d.count, d.later, any);
    room =
        length-overlay output.bytes output.produced
          (take (length decoded - flushed) (drop (flushed % w.size) ring))
        ∙ d.room;
    sent = λ e p from upto. elim (Bool-cases (ltb p flushed)) [
      | inl g ↦
          let before : p < flushed = ltb→lt p flushed g in
          get_or-overlay_outside output.bytes output.produced
            (take (length decoded - flushed) (drop (flushed % w.size) ring))
            (w.base + (p - w.start)) 0 (inl (omega (arith, d.count, before, from)))
          ∙ d.sent refl p from before
      | inr g ↦
          let i : ℕ = p - flushed in
          let whole : flushed + i ≡ p = omega (arith, ltb→ge p flushed g) in
          let few : i < length decoded - flushed = omega (arith, whole, upto) in
          let long : length (take (length decoded - flushed) (drop (flushed % w.size) ring))
              ≡ length decoded - flushed =
            length-slice ring (flushed % w.size) (length decoded - flushed)
              (omega (arith, lap, s)) in
          ap
            (λ (k : ℕ).
              get_or
                (overlay output.bytes output.produced
                  (take (length decoded - flushed) (drop (flushed % w.size) ring)))
                k 0)
            (let z : w.base + (p - w.start) ≡ output.produced + i =
                omega (arith, d.count, d.later, whole) in
              z)
          ∙ get_or-overlay_inside output.bytes output.produced
              (take (length decoded - flushed) (drop (flushed % w.size) ring)) i 0
              (omega (arith, long, few))
              (omega (arith, long, d.count, d.later, d.room, le, any, f.fits_output))
          ∙ get_or-slice ring (flushed % w.size) (length decoded - flushed) i 0 few
          ∙ ap (λ (k : ℕ). get_or ring k 0)
              (sym (mod-shift w.size flushed i (omega (arith, few, lap))))
          ∙ ap (λ (k : ℕ). get_or ring (k % w.size) 0) whole
          ∙ ap (λ (m : ℕ). get_or ring (p % m) 0) (sym s)
          ∙ held.byte_at p upto (inl (ltb→ge p flushed g))
    ];
  }

  -- All that is decoded is delivered.
  pub flush_ring-Sent :
      (ring decoded : List ℕ) (flushed : ℕ) (output : Output)
      → length ring ≡ w.size
      → length decoded ≤ w.end
      → flushed ≤ length decoded
      → flushed % w.size + (length decoded - flushed) ≤ w.size
      → Holds w.reach flushed ring decoded
      → Sent w decoded flushed output
      → Gives
          (λ (r : ℕ × Output). (r.0 ≡ length decoded) × Sent w decoded (length decoded) r.1)
          (flush_ring w.linear ring (length decoded) flushed output)
  unfolding flush_ring delivers
  flush_ring-Sent ring decoded flushed output s le upto lap held (d, mode) =
      elim (Bool-cases (length decoded - flushed == 0)) [
        | inl e ↦
            let all : flushed ≡ length decoded =
              omega (arith, eq_of_test (length decoded - flushed) 0 e, upto) in
            rw (flush_ring, pending, e)
              (gives (
                all,
                (
                  subst (λ (k : ℕ). Delivered w.sends w.start w.base w.capacity decoded k output)
                      all d,
                  mode,
                ),
              ))
        | inr e ↦
            let any : flushed < length decoded = not_equal e in
            elim (Bool-cases w.sends) [
              | inl t ↦
                  rw
                    (
                      flush_ring,
                      pending,
                      e,
                      mode,
                      t,
                      s,
                      slot-Room f.room flushed (omega (arith, any, le)),
                      slice_of_le ring (flushed % w.size) (length decoded - flushed)
                          (omega (arith, s, lap)),
                      write_slice_of_le output.bytes output.produced
                          (take (length decoded - flushed) (drop (flushed % w.size) ring))
                          (fits d any),
                    )
                    (gives (
                      refl,
                      (
                        flushes ring decoded flushed output s le any lap held (
                            subst
                              (λ (b : Bool).
                                Delivered b w.start w.base w.capacity decoded flushed output)
                              t d),
                        mode ∙ t,
                      ),
                    ))
              | inr t ↦
                  rw (flush_ring, pending, e, mode, t)
                    (gives (
                      refl,
                      (
                        record {
                          later = omega (arith, d.later, any);
                          count = omega (arith, d.count, d.later, any);
                          room = d.room;
                          sent = λ c. cc;
                        },
                        mode ∙ t,
                      ),
                    ))
            ]
      ]
    where
      pending : back (length decoded) flushed ≡ length decoded - flushed
      pending = back_lem (length decoded) flushed upto (omega (arith, le, f.bounded))

      not_equal : (length decoded - flushed == 0) ≡ false → flushed < length decoded
      not_equal e = ground arith

      fits :
          Delivered w.sends w.start w.base w.capacity decoded flushed output
          → flushed < length decoded
          → output.produced
              + length (take (length decoded - flushed) (drop (flushed % w.size) ring))
            ≤ length output.bytes
      fits d any = omega (
        arith,
        length-slice ring (flushed % w.size) (length decoded - flushed) (omega (arith, lap, s)),
        d.count,
        d.later,
        d.room,
        le,
        f.fits_output,
        any,
      )
