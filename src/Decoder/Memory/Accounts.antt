-- ===== src/Decoder/Memory/Accounts.antt =====
-- What a reservation promises on every path.
use mbrotli.Common.{
  ℕ, ◌+◌, ◌-◌, ◌*◌, ◌%◌, ◌^◌, ◌≤◌, ◌<◌, arith, max, min, ltb, ◌≡◌, ◌⊎◌, inl, inr, refl, false,
  Bool-cases, ltb→lt, ltb→ge, Option, none, some, length,
}
use mbrotli.Decoder.Errors.{ready, failed, DecodeError}
use mbrotli.Decoder.Memory.{
  Buffer, Memory, Allocator, checked_mul, checked_add, over_limit, limit_of, Outcome, allocate,
  within, grow, reserve,
}

-- What the documentation of `try_reserve_exact` says of a vector that has it granted: room for
-- what was asked, and no capacity lost.
pub record Reserves (allocator : Allocator) : Type 0 where
  pub granted :
      (size capacity count more capacity' : ℕ)
      → allocator size capacity count more ≡ some capacity'
      → (count + more ≤ capacity') × (capacity ≤ capacity')

-- A need within the limit.
abbrev pub Within : Option ℕ → ℕ → Type 0
Within none next = Unit {0}
Within (some limit) next = next ≤ limit

module _ {A : Type 0} where
  -- Storage is taken: enough of it, twice the old at least, within the limit while the old is
  -- still there, and accounted for.
  pub record Grown (allocator : Allocator) (size wanted : ℕ) (m : Memory) (b : Buffer A)
      (out : Outcome A) : Type 0 where
    pub result : out.0 ≡ ready tt
    pub short : b.capacity < wanted
    pub kept : out.2.items ≡ b.items
    pub enough : wanted ≤ out.2.capacity
    pub doubled : min (b.capacity * 2) (2 ^ 64 - 1) ≤ out.2.capacity
    pub not_less : b.capacity ≤ out.2.capacity
    pub target : ℕ
    pub aimed : target ≡ max wanted (min (b.capacity * 2) (2 ^ 64 - 1))
    pub given :
        allocator size b.capacity (length b.items) (target - length b.items) ≡ some out.2.capacity
    pub affordable : Within m.limit (m.live + target * size)
    pub fits : m.live + target * size < 2 ^ 64
    pub accounted : out.1 ≡ record {
      live = (m.live + (out.2.capacity - b.capacity) * size) % 2 ^ 64;
      limit = m.limit;
    }

  -- An error changes nothing, room that is there costs nothing, and otherwise storage is taken.
  unfoldable pub Answers : Allocator → ℕ → ℕ → Memory → Buffer A → Outcome A → Type 0
  Answers allocator size wanted m b out =
      ((e : DecodeError) × (b.capacity < wanted) × (out ≡ (failed e, m, b)))
      ⊎ (((wanted ≤ b.capacity) × (out ≡ (ready tt, m, b))) ⊎ Grown allocator size wanted m b out)

  module _ (allocator : Allocator) (law : Reserves allocator) (size wanted : ℕ) (m : Memory)
      (b : Buffer A) where
    allocate-Answers :
        (target : ℕ)
        → b.capacity < wanted
        → length b.items ≤ b.capacity
        → target ≡ max wanted (min (b.capacity * 2) (2 ^ 64 - 1))
        → Within m.limit (m.live + target * size)
        → m.live + target * size < 2 ^ 64
        → (granted : Option ℕ)
        → allocator size b.capacity (length b.items) (target - length b.items) ≡ granted
        → Answers allocator size wanted m b (allocate allocator size target m b)
    unfolding allocate Answers
    allocate-Answers target short full aimed afford fits none e =
        rw (allocate, e) (inl (DecodeError.allocation_failed, short, refl))
    allocate-Answers target short full aimed afford fits (some capacity) e =
        let (room, kept) =
          law.granted size b.capacity (length b.items) (target - length b.items) capacity e in
        rw (allocate, e)
          (inr (
            inr (record {
              result = refl;
              short = short;
              kept = refl;
              enough = omega (arith, room, aimed, short, full);
              doubled = omega (arith, room, aimed, short, full);
              not_less = kept;
              target = target;
              aimed = aimed;
              given = e;
              affordable = afford;
              fits = fits;
              accounted = refl;
            })))

    fits_limit : (l : Option ℕ) (next : ℕ) → over_limit l next ≡ false → Within l next
    unfolding over_limit
    fits_limit none next e = tt
    fits_limit (some limit) next e = ltb→ge limit next e

    grow-Answers :
        (target : ℕ)
        → b.capacity < wanted
        → length b.items ≤ b.capacity
        → target ≡ max wanted (min (b.capacity * 2) (2 ^ 64 - 1))
        → Answers allocator size wanted m b (grow allocator size target m b)
    unfolding grow within checked_mul checked_add Answers
    grow-Answers target short full aimed = elim (Bool-cases (ltb (target * size) (2 ^ 64))) [
      | inr wide ↦ rw (grow, wide) (inl (DecodeError.size_overflow, short, refl))
      | inl fine ↦ elim (Bool-cases (ltb (m.live + target * size) (2 ^ 64))) [
        | inr wide ↦ rw (grow, fine, wide) (inl (DecodeError.size_overflow, short, refl))
        | inl fits ↦ elim (Bool-cases (over_limit m.limit (m.live + target * size))) [
          | inl over ↦
              rw (grow, fine, fits, over)
                (inl (DecodeError.memory_limit_exceeded (limit_of m.limit), short, refl))
          | inr under ↦
              rw (grow, fine, fits, under)
                (allocate-Answers target short full aimed
                  (fits_limit m.limit (m.live + target * size) under)
                  (ltb→lt (m.live + target * size) (2 ^ 64) fits)
                  (allocator size b.capacity (length b.items) (target - length b.items)) refl)
        ]
      ]
    ]

    pub reserve-Answers :
        length b.items ≤ b.capacity
        → Answers allocator size wanted m b (reserve allocator size wanted m b)
    unfolding reserve Answers
    reserve-Answers full = elim (Bool-cases (ltb b.capacity wanted)) [
      | inl short ↦ rw short (
          grow-Answers (max wanted (min (b.capacity * 2) (2 ^ 64 - 1)))
            (ltb→lt b.capacity wanted short) full refl)
      | inr there ↦ rw there (inr (inl (ltb→ge b.capacity wanted there, refl)))
    ]
