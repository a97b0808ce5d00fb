-- ===== src/Decoder/History/Grows.antt =====
-- The operations that grow the ring keep what is decoded.
use native.Mathlib.Nat.{mod-one}
use mbrotli.Common.{
  ℕ, ◌+◌, ◌-◌, ◌%◌, ◌^◌, ◌≤◌, ◌<◌, arith, ltb, leb, ◌||◌, ◌≡◌, ◌∙◌, ◌⊎◌, inl, inr, refl, sym, ap,
  true, false, Bool-cases, List, ◌++◌, length, get_or, take, replicate, length-append, length-take,
  ltb→lt, ltb→ge,
}
use mbrotli.Common.Slices.{
  Gives, gives, overlay, write_slice_of_le, length-overlay, get_or-overlay_outside,
  get_or-overlay_inside, get_or-append_left, get_or-append_right, get_or-take, get_or-replicate,
  length-replicate,
}
use mbrotli.Decoder.Errors.{ready, failed, DecodeError}
use mbrotli.Decoder.Memory.{Buffer, Memory, Allocator, Outcome, reserve, resize, resized}
use mbrotli.Decoder.Memory.Accounts.{Reserves, Answers, reserve-Answers}
use mbrotli.Decoder.History.{copy_back}
use mbrotli.Decoder.History.Spans.{Extends}
use mbrotli.Decoder.History.Pieces.{copy_back-Extends}
use mbrotli.Decoder.History.Growth.{ring_size, grow_ring, repeat_grow}
use mbrotli.Decoder.History.Enlarged.{IsRing, Unwrapped, Enlarged, Aimed, ring_size-Aimed}

-- An error, which leaves the account and the ring, or a ring with a property.
unfoldable pub Grows : (List ℕ → Type 0) → Memory → Buffer ℕ → Outcome ℕ → Type 0
Grows P m ring out =
    ((e : DecodeError) × (out ≡ (failed e, m, ring))) ⊎ ((out.0 ≡ ready tt) × P out.2.items)

module _ (allocator : Allocator) (law : Reserves allocator) where
  module _ (size wanted : ℕ) (m : Memory) (ring : Buffer ℕ)
      (full : length ring.items ≤ ring.capacity) where
    pub reserve-Grows :
        Grows (λ items. items ≡ ring.items) m ring (reserve allocator size wanted m ring)
    unfolding Grows Answers
    reserve-Grows = elim (reserve-Answers allocator law size wanted m ring full) [
      | inl (e, short, f) ↦ inl (e, f)
      | inr (inl (there, f)) ↦
          inr (ap (λ (o : Outcome ℕ). o.0) f, ap (λ (o : Outcome ℕ). o.2.items) f)
      | inr (inr g) ↦ inr (g.result, g.kept)
    ]

  -- `Vec::resize` to a larger size.
  length-resized :
      (size desired v : ℕ) (b : Buffer ℕ)
      → length b.items ≤ desired
      → length (resized allocator size desired v b).items ≡ desired
  unfolding resized
  length-resized size desired v b le =
      length-append (take desired b.items) (replicate (desired - length b.items) v)
      ∙ omega
          (arith, length-take desired b.items, length-replicate (desired - length b.items) v, le)

  pub resized-old :
      (size desired v : ℕ) (b : Buffer ℕ) (p : ℕ)
      → length b.items ≤ desired
      → p < length b.items
      → get_or (resized allocator size desired v b).items p 0 ≡ get_or b.items p 0
  unfolding resized
  resized-old size desired v b p le lt =
      get_or-append_left (take desired b.items) (replicate (desired - length b.items) v) p 0
        (omega (arith, length-take desired b.items, le, lt))
      ∙ get_or-take desired b.items p 0 (omega (arith, le, lt))

  resized-new :
      (size desired v : ℕ) (b : Buffer ℕ) (p : ℕ)
      → length b.items ≤ p
      → p < desired
      → get_or (resized allocator size desired v b).items p 0 ≡ v
  unfolding resized
  resized-new size desired v b p le lt =
      ap (λ (k : ℕ). get_or (take desired b.items ++ replicate (desired - length b.items) v) k 0)
        (let z : p ≡ length (take desired b.items) + (p - length b.items) =
            omega (arith, length-take desired b.items, le, lt) in
          z)
      ∙ get_or-append_right (take desired b.items) (replicate (desired - length b.items) v)
          (p - length b.items) 0
      ∙ get_or-replicate (desired - length b.items) v (p - length b.items) 0 (omega (arith, le, lt))

  module _ (bits : ℕ) (low : 6 ≤ bits) (high : bits < 63) where
    -- A new ring of the size that is aimed at.
    pub resized-Enlarged :
        (len end v : ℕ) (decoded : List ℕ) (b : Buffer ℕ)
        → Aimed bits len end (ring_size len (2 ^ bits) end)
        → length b.items ≤ ring_size len (2 ^ bits) end
        → length decoded ≤ ring_size len (2 ^ bits) end
        → ((p : ℕ)
            → p < length decoded
            → get_or (resized allocator 1 (ring_size len (2 ^ bits) end) v b).items p 0
              ≡ get_or decoded p 0)
        → Enlarged bits end decoded (resized allocator 1 (ring_size len (2 ^ bits) end) v b).items
    resized-Enlarged len end v decoded b a le fit same =
        let long = length-resized 1 (ring_size len (2 ^ bits) end) v b le in
        record {
          kept = record { fits = omega (arith, long, fit); bytes = same };
          ring = IsRing.power a.exponent a.small (long ∙ a.is_power);
          addressable = omega (arith, long, a.enough);
        }

    -- `grow_ring` leaves the account and the ring with an error, or it succeeds: the ring still has
    -- all that is decoded, its size is 0 or a power of two, and positions below `end` are
    -- addressable or the ring is as large as the window. The ring, of such a size up to the
    -- window's, has every decoded byte at its position; the window is a power of two from 2^6 to
    -- 2^62, and the allocator is as documented.
    pub grow_ring-Grows :
        (end : ℕ) (decoded : List ℕ) (m : Memory) (ring : Buffer ℕ)
        → length ring.items ≤ ring.capacity
        → IsRing bits (length ring.items)
        → Unwrapped decoded ring.items
        → length ring.items ≤ 2 ^ bits
        → Grows (Enlarged bits end decoded) m ring (grow_ring allocator (2 ^ bits) end m ring)
    unfolding grow_ring resize Grows
    grow_ring-Grows end decoded m ring full r u le =
        elim (Bool-cases (leb end (length ring.items) || leb (2 ^ bits) (length ring.items))) [
          | inl e ↦
              rw (grow_ring, e)
                (inr (
                  refl,
                  record {
                    kept = u;
                    ring = r;
                    addressable = either end (length ring.items) (2 ^ bits) e le;
                  },
                ))
          | inr e ↦ elim (reserve-Grows 1 desired m ring full) [
            | inl (x, f) ↦
                rw (grow_ring, e, resize, ap (λ (o : Outcome ℕ). o.0) f)
                  (inl (x, ap (λ (o : Outcome ℕ). (failed x, o.1, o.2)) f))
            | inr (done, same) ↦
                rw (grow_ring, e, resize, done)
                  (inr (
                    refl,
                    resized-Enlarged (length ring.items) end 0 decoded out.2
                        (ring_size-Aimed bits low high (length ring.items) end r (short e))
                        (omega (arith, ap (λ (l : List ℕ). length l) same, grown e))
                        (omega (arith, u.fits, grown e))
                        (λ p lt.
                          resized-old 1 desired 0 out.2 p
                            (omega (arith, ap (λ (l : List ℕ). length l) same, grown e))
                            (omega (arith, ap (λ (l : List ℕ). length l) same, u.fits, lt))
                          ∙ ap (λ (l : List ℕ). get_or l p 0) same
                          ∙ u.bytes p lt),
                  ))
          ]
        ]
      where
        desired : ℕ
        desired = ring_size (length ring.items) (2 ^ bits) end

        out : Outcome ℕ
        out = reserve allocator 1 desired m ring

        not_either : (end len window : ℕ) → (leb end len || leb window len) ≡ false → len < window
        not_either end len window e = ground arith

        short :
            (leb end (length ring.items) || leb (2 ^ bits) (length ring.items)) ≡ false
            → length ring.items < 2 ^ bits
        short e = not_either end (length ring.items) (2 ^ bits) e

        grown :
            (leb end (length ring.items) || leb (2 ^ bits) (length ring.items)) ≡ false
            → length ring.items ≤ desired
        grown e = (ring_size-Aimed bits low high (length ring.items) end r (short e)).grows

        either :
            (end len window : ℕ)
            → (leb end len || leb window len) ≡ true
            → len ≤ window
            → (end ≤ len) ⊎ (len ≡ window)
        either end len window e h = ground arith

    -- The last bytes of the ring are overwritten from a position on, and a new part follows.
    module _ (end : ℕ) (decoded : List ℕ) (m : Memory) (ring : Buffer ℕ)
        (full : length ring.items ≤ ring.capacity) (r : IsRing bits (length ring.items))
        (u : Unwrapped decoded ring.items) (above : length ring.items < end)
        (inside : end ≤ 2 ^ bits) where
      aimed : Aimed bits (length ring.items) end (ring_size (length ring.items) (2 ^ bits) end)
      aimed = ring_size-Aimed bits low high (length ring.items) end r (omega (arith, above, inside))

      reached : end ≤ ring_size (length ring.items) (2 ^ bits) end
      reached = omega (arith, aimed.enough, inside)

      -- `repeat_grow`, with the last decoded byte, leaves the account and the ring with an error, or
      -- it succeeds: the ring has what is decoded with that byte copied up to `end`, and a power of
      -- two for its size. The ring has every decoded byte at its position, one at least, and ends
      -- before `end`; the window does not, is a power of two from 2^6 to 2^62, and the allocator is
      -- as documented.
      pub repeat_grow-Grows :
          0 < length decoded
          → Gives (Grows (Enlarged bits end (copy_back (end - length decoded) 1 decoded)) m ring) (
              repeat_grow allocator
                (2 ^ bits)
                (length decoded)
                (get_or decoded (length decoded - 1) 0)
                end
                m
                ring)
      unfolding repeat_grow Grows
      repeat_grow-Grows any = elim (reserve-Grows 1 desired m ring full) [
        | inl (x, f) ↦
            rw (repeat_grow, ap (λ (o : Outcome ℕ). o.0) f)
              (gives (inl (x, ap (λ (o : Outcome ℕ). (failed x, o.1, o.2)) f)))
        | inr (done, same) ↦
            rw
              (
                repeat_grow,
                done,
                same,
                write_slice_of_le ring.items (length decoded) tail_bytes (
                    omega (
                      arith,
                      length-replicate (length ring.items - length decoded) last_byte,
                      u.fits,
                    )),
              )
              (gives (
                inr (
                  refl,
                  resized-Enlarged (length ring.items) end last_byte
                      (copy_back (end - length decoded) 1 decoded)
                      (record {
                        items = filled;
                        capacity = (reserve allocator 1 desired m ring).2.capacity;
                      })
                      aimed (omega (arith, size', aimed.grows))
                      (omega (arith, x'.size, reached, above, u.fits))
                      (by_place (reserve allocator 1 desired m ring).2.capacity),
                )))
      ]
        where
          desired : ℕ
          desired = ring_size (length ring.items) (2 ^ bits) end

          last_byte : ℕ
          last_byte = get_or decoded (length decoded - 1) 0

          tail_bytes : List ℕ
          tail_bytes = replicate (length ring.items - length decoded) last_byte

          filled : List ℕ
          filled = overlay ring.items (length decoded) tail_bytes

          size' : length filled ≡ length ring.items
          size' = length-overlay ring.items (length decoded) tail_bytes

          x' :
              Extends decoded
                (end - length decoded)
                (λ i. get_or decoded (length decoded - 1 + i % 1) 0)
                (copy_back (end - length decoded) 1 decoded)
          x' = copy_back-Extends (end - length decoded) 1 decoded (omega arith) (omega (arith, any))

          last :
              (p : ℕ)
              → length decoded ≤ p
              → p < end
              → get_or (copy_back (end - length decoded) 1 decoded) p 0 ≡ last_byte
          last p from lt =
              ap (λ (k : ℕ). get_or (copy_back (end - length decoded) 1 decoded) k 0)
                (let z : p ≡ length decoded + (p - length decoded) = omega (arith, from) in z)
              ∙ x'.adds (p - length decoded) (omega (arith, from, lt))
              ∙ ap (λ (k : ℕ). get_or decoded k 0)
                  (let z : length decoded - 1 + (p - length decoded) % 1 ≡ length decoded - 1 =
                      omega (arith, mod-one (p - length decoded)) in
                    z)

          by_place :
              (capacity p : ℕ)
              → p < length (copy_back (end - length decoded) 1 decoded)
              → get_or
                  (resized allocator 1 desired last_byte
                    (record { items = filled; capacity = capacity })).items
                  p
                  0
                ≡ get_or (copy_back (end - length decoded) 1 decoded) p 0
          by_place capacity p lt = elim (Bool-cases (ltb p (length ring.items))) [
            | inr e ↦
                resized-new 1 desired last_byte (record { items = filled; capacity = capacity }) p
                  (omega (arith, size', ltb→ge p (length ring.items) e))
                  (omega (arith, lt, x'.size, reached, above, u.fits))
                ∙ sym (
                    last p (omega (arith, ltb→ge p (length ring.items) e, u.fits))
                      (omega (arith, lt, x'.size, above, u.fits)))
            | inl e ↦
                resized-old 1 desired last_byte (record { items = filled; capacity = capacity }) p
                  (omega (arith, size', aimed.grows))
                  (omega (arith, size', ltb→lt p (length ring.items) e))
                ∙ elim (Bool-cases (ltb p (length decoded))) [
                  | inl g ↦
                      let old : p < length decoded = ltb→lt p (length decoded) g in
                      get_or-overlay_outside ring.items (length decoded) tail_bytes p 0 (inl old)
                      ∙ u.bytes p old
                      ∙ sym (x'.keeps p old)
                  | inr g ↦
                      let from : length decoded ≤ p = ltb→ge p (length decoded) g in
                      let few : p - length decoded < length ring.items - length decoded =
                        omega (arith, from, ltb→lt p (length ring.items) e) in
                      ap (λ (k : ℕ). get_or filled k 0)
                        (let z : p ≡ length decoded + (p - length decoded) = omega (arith, from) in
                          z)
                      ∙ get_or-overlay_inside ring.items (length decoded) tail_bytes
                          (p - length decoded) 0
                          (omega (
                            arith,
                            few,
                            length-replicate (length ring.items - length decoded) last_byte,
                          ))
                          (omega (
                            arith,
                            u.fits,
                            length-replicate (length ring.items - length decoded) last_byte,
                          ))
                      ∙ get_or-replicate (length ring.items - length decoded) last_byte
                          (p - length decoded) 0 few
                      ∙ sym (last p from (omega (arith, ltb→lt p (length ring.items) e, above)))
                ]
          ]
