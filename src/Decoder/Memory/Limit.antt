-- ===== src/Decoder/Memory/Limit.antt =====
-- The storage of several vectors stays accounted for and near the limit.
use mbrotli.Common.{
  ℕ, zero, suc, ◌+◌, ◌-◌, ◌*◌, ◌%◌, ◌^◌, ◌≤◌, ◌<◌, arith, max, min, ltb, if◌then◌else◌, Bool-cases,
  ltb→lt, ltb→ge, ◌≡◌, inl, inr, refl, sym, ap, Option, none, some, List, [], ◌∷◌, length, All,
  get_elem?, set,
}
use native.Mathlib.Nat.{mul-le-mul_right}
use mbrotli.Decoder.Memory.{Buffer, Memory, Allocator, reserve, Outcome}
use mbrotli.Decoder.Memory.Accounts.{Reserves, Within, Grown, Answers, reserve-Answers}

-- A vector with the size of its elements.
pub record Slot (A : Type 0) : Type 0 where
  pub size : ℕ
  pub buffer : Buffer A

-- Vectors that share an account, and what the latest storage that one of them was given has beyond
-- what was asked for.
pub record Ledger (A : Type 0) : Type 0 where
  pub memory : Memory
  pub slots : List (Slot A)
  pub excess : ℕ

-- A need that passes the limit by an excess at most.
abbrev pub WithinBy : Option ℕ → ℕ → ℕ → Type 0
WithinBy none excess live = Unit {0}
WithinBy (some limit) excess live = live ≤ limit + excess

WithinBy-le : (l : Option ℕ) (x y z : ℕ) → x ≤ y + z → Within l y → WithinBy l z x
WithinBy-le none x y z h p = tt
WithinBy-le (some limit) x y z h p = omega (arith, h, p)

-- What a reservation gave beyond what it asked for, in bytes: nothing new where it gave nothing.
unfoldable pub beyond : ℕ → ℕ → ℕ → ℕ → ℕ → ℕ
beyond size wanted old new before =
    if ltb old new then (new - max wanted (min (old * 2) (2 ^ 64 - 1))) * size else before

module _ {A : Type 0} where
  unfoldable pub held : List (Slot A) → ℕ
  held [] = 0
  held (s ∷ slots) = s.buffer.capacity * s.size + held slots

  abbrev pub IsFull : Slot A → Type 0
  IsFull s = length s.buffer.items ≤ s.buffer.capacity

  -- A call of `reserve` for the vector of a number.
  unfoldable pub reserve_at : Allocator → ℕ × ℕ → Ledger A → Ledger A
  unfolding beyond
  reserve_at allocator (i, wanted) w = elim (get_elem? w.slots i) [
    | none ↦ w
    | some s ↦
        let (result, m, b) = reserve allocator s.size wanted w.memory s.buffer in
        record {
          memory = m;
          slots = set w.slots i (record { size = s.size; buffer = b });
          excess = beyond s.size wanted s.buffer.capacity b.capacity w.excess;
        }
  ]

  unfoldable pub reserve_all : Allocator → List (ℕ × ℕ) → Ledger A → Ledger A
  unfolding reserve_at
  reserve_all allocator [] w = w
  reserve_all allocator (request ∷ requests) w =
      reserve_all allocator requests (reserve_at allocator request w)

  -- What is accounted for is what is held, modulo the width of the account, and it passes the limit
  -- by no more than the latest storage has beyond what was asked for.
  pub record Accounted (w : Ledger A) : Type 0 where
    pub exact : w.memory.live ≡ held w.slots % 2 ^ 64
    pub inside : WithinBy w.memory.limit w.excess w.memory.live
    pub full : All IsFull w.slots

  held-set :
      (slots : List (Slot A)) (i : ℕ) (s t : Slot A)
      → get_elem? slots i ≡ some s
      → s.buffer.capacity * s.size ≤ t.buffer.capacity * t.size
      → held (set slots i t)
        ≡ held slots + (t.buffer.capacity * t.size - s.buffer.capacity * s.size)
  unfolding held
  held-set [] i s t e h = cc
  held-set (x ∷ slots) zero s t e h =
      let same : x.buffer.capacity * x.size ≡ s.buffer.capacity * s.size =
        ap {B = ℕ}
          (λ (o : Option (Slot A)). elim o [ none ↦ 0 | some y ↦ y.buffer.capacity * y.size ]) e in
      omega (arith, h, same)
  held-set (x ∷ slots) (suc i) s t e h = omega (arith, h, held-set slots i s t e h)

  set-same :
      (slots : List (Slot A)) (i : ℕ) (s : Slot A)
      → get_elem? slots i ≡ some s
      → set slots i s ≡ slots
  set-same [] i s e = refl
  set-same (x ∷ slots) zero s e =
      ap (λ (o : Option (Slot A)). elim o [ none ↦ x ∷ slots | some y ↦ y ∷ slots ]) (sym e)
  set-same (x ∷ slots) (suc i) s e = ap (λ (t : List (Slot A)). x ∷ t) (set-same slots i s e)

  IsFull-set :
      (slots : List (Slot A)) (i : ℕ) (t : Slot A)
      → All IsFull slots
      → IsFull t
      → All IsFull (set slots i t)
  IsFull-set [] i t h p = h
  IsFull-set (x ∷ slots) zero t (h, hs) p = (p, hs)
  IsFull-set (x ∷ slots) (suc i) t (h, hs) p = (h, IsFull-set slots i t hs p)

  IsFull-get :
      (slots : List (Slot A)) (i : ℕ) (s : Slot A)
      → All IsFull slots
      → get_elem? slots i ≡ some s
      → IsFull s
  IsFull-get [] i s h e = cc
  IsFull-get (x ∷ slots) zero s (h, hs) e = omega (
    arith,
    h,
    ap {B = ℕ} (λ (o : Option (Slot A)). elim o [ none ↦ 0 | some y ↦ length y.buffer.items ]) e,
    ap {B = ℕ} (λ (o : Option (Slot A)). elim o [ none ↦ 0 | some y ↦ y.buffer.capacity ]) e,
  )
  IsFull-get (x ∷ slots) (suc i) s (h, hs) e = IsFull-get slots i s hs e

product : (size a b : ℕ) → b ≤ a → a * size ≡ b * size + (a - b) * size
product size a b h =
    omega (arith, ap (λ (t : ℕ). t * size) (let e : a ≡ b + (a - b) = omega (arith, h) in e))

beyond-same : (size wanted old before : ℕ) → beyond size wanted old old before ≡ before
unfolding beyond
beyond-same size wanted old before = elim (Bool-cases (ltb old old)) [
  | inl less ↦ omega (arith, ltb→lt old old less)
  | inr there ↦ rw (beyond, there) refl
]

beyond-more :
    (size wanted old new before : ℕ)
    → old < new
    → beyond size wanted old new before ≡ (new - max wanted (min (old * 2) (2 ^ 64 - 1))) * size
unfolding beyond
beyond-more size wanted old new before h = elim (Bool-cases (ltb old new)) [
  | inl less ↦ rw (beyond, less) refl
  | inr there ↦ omega (arith, h, ltb→ge old new there)
]

module _ {A : Type 0} {allocator : Allocator} (law : Reserves allocator) where
  Grown-Accounted :
      (wanted i : ℕ) (s : Slot A) (w : Ledger A) (out : Outcome A)
      → Accounted w
      → get_elem? w.slots i ≡ some s
      → Grown allocator s.size wanted w.memory s.buffer out
      → Accounted (record {
        memory = out.1;
        slots = set w.slots i (record { size = s.size; buffer = out.2 });
        excess = beyond s.size wanted s.buffer.capacity out.2.capacity w.excess;
      })
  Grown-Accounted wanted i s w out h e g = rw g.accounted (record {
    exact = omega (arith, gained, h.exact, added);
    inside =
        rw
          (beyond-more s.size wanted s.buffer.capacity out.2.capacity w.excess
            (omega (arith, g.short, g.enough)))
          (rw (sym g.aimed) (
            WithinBy-le w.memory.limit
              ((w.memory.live + (out.2.capacity - s.buffer.capacity) * s.size) % 2 ^ 64)
              (w.memory.live + g.target * s.size) ((out.2.capacity - g.target) * s.size)
              (omega (arith, less, split)) g.affordable));
    full =
        IsFull-set w.slots i (record { size = s.size; buffer = out.2 }) h.full
          (omega (arith, IsFull-get w.slots i s h.full e, ap length g.kept, g.not_less));
  })
    where
      given : g.target ≤ out.2.capacity
      given = omega (
        arith,
        IsFull-get w.slots i s h.full e,
        g.aimed,
        g.short,
        (law.granted s.size s.buffer.capacity (length s.buffer.items)
            (g.target - length s.buffer.items) out.2.capacity g.given).0,
      )

      less : (out.2.capacity - s.buffer.capacity) * s.size ≤ out.2.capacity * s.size
      less = mul-le-mul_right s.size (omega arith)

      split : out.2.capacity * s.size ≡ g.target * s.size + (out.2.capacity - g.target) * s.size
      split = product s.size out.2.capacity g.target given

      gained :
          out.2.capacity * s.size
          ≡ s.buffer.capacity * s.size + (out.2.capacity - s.buffer.capacity) * s.size
      gained = product s.size out.2.capacity s.buffer.capacity g.not_less

      added :
          held (set w.slots i (record { size = s.size; buffer = out.2 }))
          ≡ held w.slots + (out.2.capacity * s.size - s.buffer.capacity * s.size)
      added =
          held-set w.slots i s (record { size = s.size; buffer = out.2 }) e (omega (arith, gained))

  same-Accounted :
      (i : ℕ) (s : Slot A) (w : Ledger A) (wanted : ℕ)
      → Accounted w
      → get_elem? w.slots i ≡ some s
      → Accounted (record {
        memory = w.memory;
        slots = set w.slots i s;
        excess = beyond s.size wanted s.buffer.capacity s.buffer.capacity w.excess;
      })
  same-Accounted i s w wanted h e =
      rw (set-same w.slots i s e, beyond-same s.size wanted s.buffer.capacity w.excess) h

  reserve_at-Accounted :
      (request : ℕ × ℕ) (w : Ledger A) → Accounted w → Accounted (reserve_at allocator request w)
  unfolding reserve_at Answers
  reserve_at-Accounted (i, wanted) w h = go (get_elem? w.slots i) refl
    where
      go :
          (found : Option (Slot A))
          → get_elem? w.slots i ≡ found
          → Accounted (reserve_at allocator (i, wanted) w)
      go none e = rw (reserve_at, e) h
      go (some s) e =
          rw (reserve_at, e)
            (elim (reserve-Answers allocator law s.size wanted w.memory s.buffer
              (IsFull-get w.slots i s h.full e)) [
                | inl (error, short, same) ↦ rw same (same-Accounted i s w wanted h e)
                | inr (inl (there, same)) ↦ rw same (same-Accounted i s w wanted h e)
                | inr (inr g) ↦
                    Grown-Accounted wanted i s w (reserve allocator s.size wanted w.memory s.buffer)
                      h e g
              ])

  -- For an allocator as documented, which may give more than it is asked for, three facts survive
  -- any requests for room by any of the vectors, failures included. The account is what the vectors
  -- hold, modulo 2 ^ 64. It passes the limit by no more than what the latest storage that was given
  -- has beyond what was asked for (before any is given, by no more than the excess at the start).
  -- Each vector has room for its elements.
  pub reserve_all-Accounted :
      (requests : List (ℕ × ℕ)) (w : Ledger A)
      → Accounted w
      → Accounted (reserve_all allocator requests w)
  unfolding reserve_all
  reserve_all-Accounted [] w h = h
  reserve_all-Accounted (request ∷ requests) w h =
      reserve_all-Accounted requests (reserve_at allocator request w)
        (reserve_at-Accounted request w h)
