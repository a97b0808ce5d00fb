-- ===== src/Decoder/History/Raw.antt =====
-- Bytes that are written to a ring while it grows.
use mbrotli.Common.{
  ℕ, ◌+◌, ◌-◌, ◌^◌, ◌≤◌, ◌<◌, arith, ltb, ◌≡◌, ◌∙◌, inl, inr, refl, sym, ap, Bool-cases, List, ◌++◌,
  length, get_or, take, drop, length-append, length-take, length-drop, ltb→lt, ltb→ge,
}
use mbrotli.Common.Slices.{
  Gives, gives, overlay, slice_of_le, write_slice_of_le, length-overlay, get_or-overlay_outside,
  get_or-overlay_inside, get_or-append_left, get_or-append_right, get_or-take, get_or-drop,
}
use mbrotli.Decoder.Errors.{failed}
use mbrotli.Decoder.Memory.{Buffer, Memory, Allocator, Outcome, reserve}
use mbrotli.Decoder.Memory.Accounts.{Reserves}
use mbrotli.Decoder.History.Growth.{ring_size, write_raw_growing}
use mbrotli.Decoder.History.Enlarged.{IsRing, Unwrapped, Enlarged, Aimed, ring_size-Aimed}
use mbrotli.Decoder.History.Grows.{Grows, reserve-Grows, resized-old, resized-Enlarged}

module _ (allocator : Allocator) (law : Reserves allocator) (bits : ℕ) (low : 6 ≤ bits)
    (high : bits < 63) where
  -- `write_raw` of bytes that the ring has no room for and the window has leaves the account and
  -- the ring with an error, or it succeeds: the ring has what is decoded with the bytes after it,
  -- and a power of two for its size. The ring has every decoded byte at its position; the window is
  -- a power of two from 2^6 to 2^62, and the allocator is as documented.
  pub write_raw_growing-Grows :
      (bytes decoded : List ℕ) (m : Memory) (ring : Buffer ℕ)
      → length ring.items ≤ ring.capacity
      → IsRing bits (length ring.items)
      → Unwrapped decoded ring.items
      → length ring.items < length decoded + length bytes
      → length decoded + length bytes ≤ 2 ^ bits
      → Gives
          (Grows (Enlarged bits (length decoded + length bytes) (decoded ++ bytes)) m ring)
          (write_raw_growing allocator (2 ^ bits) (length decoded) bytes m ring)
  unfolding write_raw_growing Grows
  write_raw_growing-Grows bytes decoded m ring full r u above inside =
      elim (reserve-Grows allocator law 1 desired m ring full) [
        | inl (x, f) ↦
            rw (write_raw_growing, ap (λ (o : Outcome ℕ). o.0) f)
              (gives (inl (x, ap (λ (o : Outcome ℕ). (failed x, o.1, o.2)) f)))
        | inr (done, same) ↦
            rw
              (
                write_raw_growing,
                done,
                same,
                slice_of_le bytes 0 existing (omega (arith, above)),
                write_slice_of_le ring.items (length decoded) first (omega (arith, few, u.fits)),
              )
              (gives (
                inr (
                  refl,
                  resized-Enlarged allocator law bits low high (length ring.items)
                      (length decoded + length bytes) 0 (decoded ++ bytes)
                      (record {
                        items = filled;
                        capacity = (reserve allocator 1 desired m ring).2.capacity;
                      })
                      aimed (omega (arith, size', reached)) (omega (arith, size', whole, reached))
                      (λ p lt.
                        resized-old allocator law 1 desired 0
                          (record {
                            items = filled;
                            capacity = (reserve allocator 1 desired m ring).2.capacity;
                          })
                          p (omega (arith, size', reached)) (omega (arith, size', whole, lt))
                        ∙ by_place p (omega (arith, whole, lt))),
                )))
      ]
    where
      desired : ℕ
      desired = ring_size (length ring.items) (2 ^ bits) (length decoded + length bytes)

      aimed :
          Aimed bits
            (length ring.items)
            (length decoded + length bytes)
            (ring_size (length ring.items) (2 ^ bits) (length decoded + length bytes))
      aimed =
          ring_size-Aimed bits low high (length ring.items) (length decoded + length bytes) r
            (omega (arith, above, inside))

      reached : length decoded + length bytes ≤ desired
      reached = omega (arith, aimed.enough, inside)

      existing : ℕ
      existing = length ring.items - length decoded

      first : List ℕ
      first = take existing bytes

      few : length first ≡ existing
      few = omega (arith, length-take existing bytes, above)

      put : List ℕ
      put = overlay ring.items (length decoded) first

      filled : List ℕ
      filled = put ++ drop existing bytes

      put_size : length put ≡ length ring.items
      put_size = length-overlay ring.items (length decoded) first

      size' : length filled ≡ length decoded + length bytes
      size' =
          length-append put (drop existing bytes)
          ∙ omega (arith, put_size, length-drop existing bytes, u.fits, above)

      whole : length (decoded ++ bytes) ≡ length decoded + length bytes
      whole = length-append decoded bytes

      added :
          (p : ℕ)
          → length decoded ≤ p
          → get_or bytes (p - length decoded) 0 ≡ get_or (decoded ++ bytes) p 0
      added p from =
          sym (get_or-append_right decoded bytes (p - length decoded) 0)
          ∙ ap (λ (k : ℕ). get_or (decoded ++ bytes) k 0)
              (let z : length decoded + (p - length decoded) ≡ p = omega (arith, from) in z)

      by_place :
          (p : ℕ)
          → p < length decoded + length bytes
          → get_or filled p 0 ≡ get_or (decoded ++ bytes) p 0
      by_place p lt = elim (Bool-cases (ltb p (length ring.items))) [
        | inr e ↦
            let late : length ring.items ≤ p = ltb→ge p (length ring.items) e in
            ap (λ (k : ℕ). get_or filled k 0)
              (let z : p ≡ length put + (p - length ring.items) = omega (arith, put_size, late) in
                z)
            ∙ get_or-append_right put (drop existing bytes) (p - length ring.items) 0
            ∙ get_or-drop existing bytes (p - length ring.items) 0
            ∙ ap (λ (k : ℕ). get_or bytes k 0)
                (let z : existing + (p - length ring.items) ≡ p - length decoded =
                    omega (arith, late, u.fits) in
                  z)
            ∙ added p (omega (arith, late, u.fits))
        | inl e ↦
            let early : p < length ring.items = ltb→lt p (length ring.items) e in
            get_or-append_left put (drop existing bytes) p 0 (omega (arith, put_size, early))
            ∙ elim (Bool-cases (ltb p (length decoded))) [
              | inl g ↦
                  let old : p < length decoded = ltb→lt p (length decoded) g in
                  get_or-overlay_outside ring.items (length decoded) first p 0 (inl old)
                  ∙ u.bytes p old
                  ∙ sym (get_or-append_left decoded bytes p 0 old)
              | inr g ↦
                  let from : length decoded ≤ p = ltb→ge p (length decoded) g in
                  let i : p - length decoded < existing = omega (arith, from, early) in
                  ap (λ (k : ℕ). get_or put k 0)
                    (let z : p ≡ length decoded + (p - length decoded) = omega (arith, from) in z)
                  ∙ get_or-overlay_inside ring.items (length decoded) first (p - length decoded) 0
                      (omega (arith, few, i)) (omega (arith, few, u.fits))
                  ∙ get_or-take existing bytes (p - length decoded) 0 i
                  ∙ added p from
            ]
      ]
