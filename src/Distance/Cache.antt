-- ===== src/Distance/Cache.antt =====
-- src/decompressor/core/distance.rs: the ring of the four most recent distances, and the short
-- codes that refer to it.
use mbrotli.Common.{ℕ, ◌+◌, ◌-◌, ◌%◌, ◌^◌, bit_and, Bool, true, false, ◌&&◌, not}
use mbrotli.Common.{List, [], ◌∷◌, Option, none, some, ltb, leb, ◌==◌, if◌then◌else◌, get_or, set}
use mbrotli.Decoder.Errors.{DecodeError, InvalidDataKind}

-- `index` counts pushes and wraps with `usize`.
pub record Cache : Type 0 where
  pub slots : List ℕ
  pub index : ℕ

abbrev pub default : Cache
default = record { slots = 16 ∷ 15 ∷ 11 ∷ 4 ∷ []; index = 4 }

-- `wrapping_sub` and `wrapping_add` on a 64-bit `usize`
abbrev pub wrapping_sub : ℕ → ℕ → ℕ
wrapping_sub a b = (a + (2 ^ 64 - b % 2 ^ 64)) % 2 ^ 64

abbrev pub wrapping_add : ℕ → ℕ → ℕ
wrapping_add a b = (a + b) % 2 ^ 64

unfoldable pub recent : Cache → ℕ → ℕ
recent c back = get_or c.slots (bit_and (wrapping_sub c.index (1 + back)) 3) 0

unfoldable pub pop : Cache → ℕ × Cache
pop c =
    let index = wrapping_sub c.index 1 in
    (get_or c.slots (bit_and index 3) 0, record c { index = index })

unfoldable pub push : ℕ → Cache → Cache
push distance c = record {
  slots = set c.slots (bit_and c.index 3) distance;
  index = wrapping_add c.index 1;
}

-- A result that may be an error.
pub data Resolved : Type 0 where
  ok : ℕ → Resolved
  err : DecodeError → Resolved

abbrev pub max_distance : ℕ
max_distance = 2 ^ 63 - 4

-- `INDEX`, and `OFFSET` by its sign and size.
abbrev index_table : List ℕ
index_table = 0 ∷ 1 ∷ 2 ∷ 3 ∷ 0 ∷ 0 ∷ 0 ∷ 0 ∷ 0 ∷ 0 ∷ 1 ∷ 1 ∷ 1 ∷ 1 ∷ 1 ∷ 1 ∷ []

abbrev offset_table : List (Bool × ℕ)
offset_table =
    (false, 0)
    ∷ (false, 0)
    ∷ (false, 0)
    ∷ (false, 0)
    ∷ (true, 1)
    ∷ (false, 1)
    ∷ (true, 2)
    ∷ (false, 2)
    ∷ (true, 3)
    ∷ (false, 3)
    ∷ (true, 1)
    ∷ (false, 1)
    ∷ (true, 2)
    ∷ (false, 2)
    ∷ (true, 3)
    ∷ (false, 3)
    ∷ []

-- `checked_add_signed` of a `u64`
unfoldable pub checked_add_signed : ℕ → Bool × ℕ → Option ℕ
checked_add_signed x (true, n) = if ltb x n then none else some (x - n)
checked_add_signed x (false, n) = if ltb (x + n) (2 ^ 64) then some (x + n) else none

unfoldable pub short : ℕ → Cache → Resolved
short symbol cache =
    elim (checked_add_signed (recent cache (get_or index_table (bit_and symbol 15) 0))
      (get_or offset_table (bit_and symbol 15) (false, 0))) [
        | none ↦ err (DecodeError.invalid_data InvalidDataKind.distance)
        | some v ↦
            if not (v == 0) && leb v max_distance
            then ok v
            else err (DecodeError.invalid_data InvalidDataKind.distance)
      ]
