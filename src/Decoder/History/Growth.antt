-- ===== src/Decoder/History/Growth.antt =====
-- src/decompressor/core/stream.rs: the growth of the ring up to the window's size.
use mbrotli.Common.{
  ℕ, zero, suc, ◌+◌, ◌-◌, ◌*◌, ◌^◌, max, min, leb, ◌||◌, if◌then◌else◌, Option, none, some, List,
  ◌++◌, length, replicate, drop,
}
use mbrotli.Common.Slices.{◌>>=◌, slice, write_slice}
use mbrotli.Decoder.Errors.{ready, pending, failed}
use mbrotli.Decoder.Memory.{Buffer, Memory, Allocator, Outcome, reserve, resize, resized}

abbrev min_ring : ℕ
min_ring = 64

-- `checked_next_power_of_two` on 64 bits: the first of the powers from `2 ^ k` on.
unfoldable pub next_power : ℕ → ℕ → ℕ → Option ℕ
next_power zero k end = none
next_power (suc n) k end = if leb end (2 ^ k) then some (2 ^ k) else next_power n (suc k) end

unfoldable pub or_max : Option ℕ → ℕ
or_max none = 2 ^ 64 - 1
or_max (some p) = p

-- A length of 64 bits fits `usize`.
unfoldable pub ring_size : ℕ → ℕ → ℕ → ℕ
ring_size len window end =
    min (max (max (or_max (next_power 64 0 end)) (min (len * 2) (2 ^ 64 - 1))) min_ring) window

module _ (allocator : Allocator) where
  unfoldable pub grow_ring : ℕ → ℕ → Memory → Buffer ℕ → Outcome ℕ
  grow_ring window end m ring =
      if leb end (length ring.items) || leb window (length ring.items)
      then (ready tt, m, ring)
      else resize allocator 1 (ring_size (length ring.items) window end) 0 m ring

  -- The ring's last bytes and its new ones are all the one byte. None is a position out of range.
  unfoldable pub repeat_grow : ℕ → ℕ → ℕ → ℕ → Memory → Buffer ℕ → Option (Outcome ℕ)
  repeat_grow window position byte end m ring =
      let desired = ring_size (length ring.items) window end in
      let (result, m', ring') = reserve allocator 1 desired m ring in
      elim result [
        | ready u ↦ do
          filled ← write_slice ring'.items position (replicate (length ring'.items - position) byte)
          some (
            ready tt,
            m',
            resized allocator 1 desired byte (record { items = filled; capacity = ring'.capacity }),
          )
        | pending ↦ some (pending, m', ring')
        | failed e ↦ some (failed e, m', ring')
      ]

  unfoldable ensure_ring : ℕ → ℕ → Memory → Buffer ℕ → Outcome ℕ
  ensure_ring window end m ring =
      if leb end (length ring.items) then (ready tt, m, ring) else grow_ring window end m ring

  -- The first branch of `write_raw`, which then sets the position to the end of the bytes. They are
  -- the ring's last ones and the start of its new ones. None is a position out of range.
  unfoldable pub write_raw_growing : ℕ → ℕ → List ℕ → Memory → Buffer ℕ → Option (Outcome ℕ)
  write_raw_growing window position bytes m ring =
      let desired = ring_size (length ring.items) window (position + length bytes) in
      let (result, m', ring') = reserve allocator 1 desired m ring in
      elim result [
        | ready u ↦ do
          let existing = length ring.items - position
          first ← slice bytes 0 existing
          filled ← write_slice ring'.items position first
          some (
            ready tt,
            m',
            resized allocator 1 desired 0
                (record { items = filled ++ drop existing bytes; capacity = ring'.capacity }),
          )
        | pending ↦ some (pending, m', ring')
        | failed e ↦ some (failed e, m', ring')
      ]
