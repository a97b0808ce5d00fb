-- ===== src/Decoder/Memory.antt =====
-- src/decompressor/core/memory.rs: the storage that the decoder accounts for.
pub mod Accounts
pub mod Limit
mod Tests
use mbrotli.Common.{
  ℕ, zero, suc, ◌+◌, ◌-◌, ◌*◌, ◌%◌, ◌^◌, max, min, ltb, leb, ◌==◌, ◌||◌, if◌then◌else◌, Bool, true,
  false, Option, none, some, List, [], ◌∷◌, ◌++◌, length, replicate, take, get_elem?, set,
}
use mbrotli.Decoder.Errors.{Poll, ready, pending, failed, DecodeError, InvalidDataKind}

-- A vector: its elements, and how many it has storage for.
pub record Buffer (A : Type 0) : Type 0 where
  pub items : List A
  pub capacity : ℕ

pub record Memory : Type 0 where
  pub live : ℕ
  pub limit : Option ℕ

-- `Vec::try_reserve_exact`: from the size of an element, the capacity, the length and the number
-- of elements wanted beyond it, the new capacity, or none where there is no storage.
abbrev pub Allocator : Type 0
Allocator = ℕ → ℕ → ℕ → ℕ → Option ℕ

unfoldable pub checked_mul : ℕ → ℕ → Option ℕ
checked_mul a b = if ltb (a * b) (2 ^ 64) then some (a * b) else none

unfoldable pub checked_add : ℕ → ℕ → Option ℕ
checked_add a b = if ltb (a + b) (2 ^ 64) then some (a + b) else none

unfoldable pub over_limit : Option ℕ → ℕ → Bool
over_limit none next = false
over_limit (some limit) next = ltb limit next

unfoldable pub limit_of : Option ℕ → ℕ
limit_of none = 0
limit_of (some limit) = limit

abbrev pub Outcome : Type 0 → Type 0
Outcome A = Poll (Unit {0}) × Memory × Buffer A

module _ (allocator : Allocator) {A : Type 0} (size : ℕ) where
  -- The last statements of `reserve`.
  unfoldable pub allocate : ℕ → Memory → Buffer A → Outcome A
  allocate target m b =
      elim (allocator size b.capacity (length b.items) (target - length b.items)) [
        | none ↦ (failed DecodeError.allocation_failed, m, b)
        | some capacity ↦ (
          ready tt,
          record { live = (m.live + (capacity - b.capacity) * size) % 2 ^ 64; limit = m.limit },
          record { items = b.items; capacity = capacity },
        )
      ]

  unfoldable pub within : ℕ → ℕ → Memory → Buffer A → Outcome A
  unfolding allocate over_limit limit_of
  within target next m b =
      if over_limit m.limit next
      then (failed (DecodeError.memory_limit_exceeded (limit_of m.limit)), m, b)
      else allocate target m b

  unfoldable pub grow : ℕ → Memory → Buffer A → Outcome A
  unfolding within checked_mul checked_add
  grow target m b = elim (checked_mul target size) [
    | none ↦ (failed DecodeError.size_overflow, m, b)
    | some replacement ↦ elim (checked_add m.live replacement) [
      | none ↦ (failed DecodeError.size_overflow, m, b)
      | some next ↦ within target next m b
    ]
  ]

  -- `reserve`: the target is twice the capacity at least.
  unfoldable pub reserve : ℕ → Memory → Buffer A → Outcome A
  unfolding grow
  reserve wanted m b =
      if ltb b.capacity wanted
      then grow (max wanted (min (b.capacity * 2) (2 ^ 64 - 1))) m b
      else (ready tt, m, b)

  -- `Vec::resize`
  unfoldable pub resized : ℕ → A → Buffer A → Buffer A
  resized wanted default b = record {
    items = take wanted b.items ++ replicate (wanted - length b.items) default;
    capacity = b.capacity;
  }

  unfoldable pub resize : ℕ → A → Memory → Buffer A → Outcome A
  unfolding reserve resized
  resize wanted default m b =
      let (result, m', b') = reserve wanted m b in
      elim result [
        | ready u ↦ (ready u, m', resized wanted default b')
        | pending ↦ (pending, m', b')
        | failed e ↦ (failed e, m', b')
      ]
