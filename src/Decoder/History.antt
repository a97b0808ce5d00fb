-- ===== src/Decoder/History.antt =====
-- src/decompressor/core/stream.rs: the ring of decoded bytes, the copies within it, and their
-- delivery to the caller's output.

mod Tests
pub mod Copies
pub mod Slots
pub mod Spans
pub mod Pieces
pub mod Delivery
pub mod Tracking
pub mod Writing
pub mod Operations
pub mod Growth
pub mod Enlarged
pub mod Grows
pub mod Fast
pub mod Raw
use mbrotli.Common.{
  ℕ, zero, suc, ◌+◌, ◌-◌, ◌*◌, ◌%◌, ◌^◌, bit_and, min, ltb, leb, ◌==◌, ◌&&◌, not, if◌then◌else◌,
  Bool, true, false, Option, none, some, List, [], ◌∷◌, ◌++◌, length, get_elem?, get_or, replicate,
  drop,
}
use mbrotli.Common.Slices.{◌>>=◌, store, slice, write_slice}

-- The part of `Output` that delivery reads: the sink's bytes, whether a member is collected in
-- history, and how many bytes are produced.
pub record Output : Type 0 where
  pub bytes : List ℕ
  pub collect : Option ℕ
  pub produced : ℕ

abbrev is_none : Option ℕ → Bool
is_none none = true
is_none (some n) = false

-- The switch is whether the member's history is the output itself.
unfoldable pub delivers : Bool → Output → Bool
delivers linear output = is_none output.collect && not linear

-- The powers of two below `2 ^ n`.
unfoldable pub is_power_below : ℕ → ℕ → Bool
is_power_below zero len = false
is_power_below (suc n) len = if len == 2 ^ n then true else is_power_below n len

unfoldable pub is_power_of_two : ℕ → Bool
unfolding is_power_below
is_power_of_two len = is_power_below 64 len

unfoldable pub history_mask : ℕ → ℕ
unfolding is_power_of_two
history_mask len = if is_power_of_two len then len - 1 else 2 ^ 64 - 1

-- `wrapping_sub` on 64 bits
unfoldable pub back : ℕ → ℕ → ℕ
back position distance = (position + (2 ^ 64 - distance)) % 2 ^ 64

unfoldable pub slot : ℕ → ℕ → ℕ
unfolding history_mask
slot len position = bit_and position (history_mask len)

unfoldable pub flush_ring : Bool → List ℕ → ℕ → ℕ → Output → Option (ℕ × Output)
flush_ring linear ring position flushed output =
    let pending = back position flushed in
    if pending == 0
    then some (flushed, output)
    else if delivers linear output
    then (do
      source ← slice ring (slot (length ring) flushed) pending
      bytes ← write_slice output.bytes output.produced source
      some (position, record output { bytes = bytes; produced = output.produced + pending }))
    else some (position, record output { produced = output.produced + pending })

-- `ring.copy_within(src..src + n, dst)`
unfoldable pub copy_within : List ℕ → ℕ → ℕ → ℕ → Option (List ℕ)
copy_within ring src n dst = do source ← slice ring src n; write_slice ring dst source

-- The loop over a short run, by the number of rounds done.
unfoldable pub copy_bytewise : ℕ → List ℕ → ℕ → ℕ → Option (List ℕ)
copy_bytewise zero ring dst src = some ring
copy_bytewise (suc i) ring dst src = do
  ring' ← copy_bytewise i ring dst src
  byte ← get_elem? ring' (src + i)
  store ring' (dst + i) byte

-- The loop of a longer run: its chunks double. The fuel counts rounds.
unfoldable pub copy_doubling : ℕ → List ℕ → ℕ → ℕ → ℕ → ℕ → ℕ → Option (List ℕ)
copy_doubling zero ring dst src len chunk done = if ltb done len then none else some ring
copy_doubling (suc fuel) ring dst src len chunk done = elim (ltb done len) [
  | true ↦ do
    let n = min chunk (len - done)
    ring' ← copy_within ring src n (dst + done)
    copy_doubling fuel ring' dst src len (chunk * 2 % 2 ^ 64) (done + n)
  | false ↦ some ring
]

unfoldable pub copy_overlapping : List ℕ → ℕ → ℕ → ℕ → ℕ → Option (List ℕ)
copy_overlapping ring dst src len distance =
    if distance == 1
    then (do byte ← get_elem? ring src; write_slice ring dst (replicate len byte))
    else if leb len 16
    then copy_bytewise len ring dst src
    else copy_doubling len ring dst src len distance 0

-- `copy16` and `copy32`: a load of that many bytes and a store of them, where both windows are
-- inside the ring.
unfoldable pub copy_vector : ℕ → List ℕ → ℕ → ℕ → Option (List ℕ)
copy_vector width ring src dst = do word ← slice ring src width; write_slice ring dst word

unfoldable pub copy16 : List ℕ → ℕ → ℕ → Option (List ℕ)
copy16 ring src dst = copy_vector 16 ring src dst

unfoldable pub copy32 : List ℕ → ℕ → ℕ → Option (List ℕ)
copy32 ring src dst = copy_vector 32 ring src dst

-- A vector copy where it is allowed and has room, or the exact copy.
unfoldable pub copy_short : Option (List ℕ) → List ℕ → ℕ → ℕ → ℕ → Option (List ℕ)
copy_short (some ring') ring src n dst = some ring'
copy_short none ring src n dst = copy_within ring src n dst

-- One piece of `copy_ring`.
unfoldable pub copy_piece : List ℕ → ℕ → ℕ → ℕ → ℕ → Option (List ℕ)
copy_piece ring dst src piece distance =
    if ltb src dst && ltb distance piece
    then copy_overlapping ring dst src piece distance
    else copy_short (if leb piece 16 then copy16 ring src dst else none) ring src piece dst

-- What the copies read and write.
pub record History : Type 0 where
  pub ring : List ℕ
  pub position : ℕ
  pub flushed : ℕ
  pub output : Output

-- A piece that reaches the end of the ring is flushed.
unfoldable pub flush_at_end : Bool → ℕ → List ℕ → ℕ → ℕ → Output → Option History
flush_at_end linear stop ring position flushed output =
    if stop == length ring
    then (do
      (flushed', output') ← flush_ring linear ring position flushed output
      some (record { ring = ring; position = position; flushed = flushed'; output = output' }))
    else some (record { ring = ring; position = position; flushed = flushed; output = output })

unfoldable pub copy_loop : ℕ → Bool → ℕ → ℕ → History → Option History
copy_loop zero linear distance length' h = if length' == 0 then some h else none
copy_loop (suc fuel) linear distance length' h = elim (length' == 0) [
  | true ↦ some h
  | false ↦ do
    let size = length h.ring
    let dst = slot size h.position
    let src = slot size (back h.position distance)
    let piece = min (min length' (size - dst)) (size - src)
    ring ← copy_piece h.ring dst src piece distance
    h' ← flush_at_end linear (dst + piece) ring ((h.position + piece) % 2 ^ 64) h.flushed h.output
    copy_loop fuel linear distance (length' - piece) h'
]

-- Every round copies a byte at least.
unfoldable pub copy_ring : Bool → ℕ → ℕ → History → Option History
copy_ring linear distance length' h = copy_loop length' linear distance length' h

-- The bytes of a run, from a source outside the ring. A caller without an output is not flushed
-- for.
unfoldable pub write_loop : ℕ → Bool → Bool → List ℕ → History → Option History
write_loop zero linear flushes [] h = some h
write_loop zero linear flushes (b ∷ bytes) h = none
write_loop (suc fuel) linear flushes [] h = some h
write_loop (suc fuel) linear flushes (b ∷ bytes) h = do
  let size = length h.ring
  let dst = slot size h.position
  let piece = min (length (b ∷ bytes)) (size - dst)
  source ← slice (b ∷ bytes) 0 piece
  ring ← write_slice h.ring dst source
  let position = (h.position + piece) % 2 ^ 64
  h' ←
      (if flushes
        then flush_at_end linear (dst + piece) ring position h.flushed h.output
        else some (record h { ring = ring; position = position }))
  write_loop fuel linear flushes (drop piece (b ∷ bytes)) h'

unfoldable pub write_ring : Bool → Bool → List ℕ → History → Option History
write_ring linear flushes bytes h = write_loop (length bytes) linear flushes bytes h

-- `previous_bytes` and `first_bytes`
unfoldable pub previous_bytes : List ℕ → ℕ → Option (ℕ × ℕ)
previous_bytes ring position =
    if leb 2 position
    then (do
      p1 ← get_elem? ring (slot (length ring) (back position 1))
      p2 ← get_elem? ring (slot (length ring) (back position 2))
      some (p1, p2))
    else if position == 0
    then some (0, 0)
    else (do p1 ← get_elem? ring 0; some (p1, 0))

-- The reference: each byte of a copy is the one a distance back in all that is decoded so far.
unfoldable pub copy_back : ℕ → ℕ → List ℕ → List ℕ
copy_back zero distance decoded = decoded
copy_back (suc n) distance decoded =
    let before = copy_back n distance decoded in
    before ++ (get_or before (length before - distance) 0 ∷ [])
