-- ===== src/Decoder/Bits/Calls.antt =====
-- Readers as steps along the bit string: what runs to a value and where it leaves the position,
-- and how one call's input goes on in the next.
use mbrotli.Common.{ℕ, zero, suc, ◌+◌, ◌-◌, ◌*◌, ◌/◌, ◌%◌, ◌^◌, ◌≤◌, ◌<◌, arith}
use mbrotli.Common.{◌≡◌, refl, sym, ap, ◌∙◌, List, [], ◌∷◌, ◌++◌, Option, Bool, true, false}
use mbrotli.Common.{length, drop, All, Bool-cases, inl, inr, ◌⊎◌, ◌==◌, if◌then◌else◌}
use mbrotli.Common.Pow.{pow-pos, pow-add, mod-pow-lt, pow-le, pow-join, pow-split, mod-pow-eq_of_lt}
use mathlib.Core.Path.{subst}
use native.Mathlib.Nat.{le_refl, add-mul-div_left, div-one}
use mbrotli.Decoder.Errors.{ready, pending}
use mbrotli.Decoder.Bits.{Cursor, M, ◌>>=◌, continue, new_input, peek, drop_bits, read, uint8}
use mbrotli.Common.Bytes.{IsByte, number, number-append, All-append}
use mbrotli.Decoder.Bits.Position.{Origin, text, size, from, IsAt, IsAt-weaken, Fits, from_buffered}
use mbrotli.Decoder.Bits.Loads.{peek-Peeked, Waited, drop_bits-IsAt, peek-Waited}

-- From bit `d` of `o` with `b` bits buffered, `m` returns `a` and stands at `d'` with `b'` buffered.
pub record Runs {A : Type 0} (o : Origin) (d b : ℕ) (m : M A) (a : A) (d' b' : ℕ) : Type 0 where
  pub run : (c : Cursor) → IsAt o d b c → ((m c).0 ≡ ready a) × IsAt o d' b' (m c).1

module _ {A B : Type 0} {o : Origin} where
  pub Runs-bind :
      {d b d₁ b₁ d₂ b₂ : ℕ} {m : M A} (f : A → M B) {a : A} {r : B}
      → Runs o d b m a d₁ b₁
      → Runs o d₁ b₁ (f a) r d₂ b₂
      → Runs o d b (m >>= f) r d₂ b₂
  Runs-bind {d₂ = d₂} {b₂ = b₂} {m = m} f {r = r} first rest = record {
    run = λ c at.
        let p = first.run c at in
        subst (λ q. ((continue q (m c).1 f).0 ≡ ready r) × IsAt o d₂ b₂ (continue q (m c).1 f).1)
          (sym p.0) (rest.run (m c).1 p.1);
  }

  -- Where the first step waits, the whole waits.
  pub Waited-bind :
      {d : ℕ} (m : M A) (f : A → M B) (c : Cursor) → Waited o d (m c) → Waited o d ((m >>= f) c)
  Waited-bind {d = d} m f c w =
      subst (λ q. Waited o d (continue q (m c).1 f)) (sym w.waits)
        (record { waits = refl; stays = w.stays; used = w.used })

module _ (o : Origin) where
  pub Runs-pure : {A : Type 0} (d b : ℕ) (a : A) → Runs o d b (λ c. (ready a, c)) a d b
  Runs-pure d b a = record { run = λ c at. (refl, at) }

  pub Runs-peek : (d b k : ℕ) → k ≤ 56 → d + k ≤ size o → Runs o d b (peek k) (from o d % 2 ^ k) d k
  Runs-peek d b k hk room = record {
    run = λ c at. let p = peek-Peeked k c at hk room in (p.field, p.stays);
  }

  pub Runs-drop : (d b k : ℕ) → k ≤ b → Runs o d b (drop_bits k) tt (d + k) (b - k)
  Runs-drop d b k h = record { run = λ c at. drop_bits-IsAt k at h }

  pub Runs-weaken :
      {A : Type 0} {d b d' : ℕ} {m : M A} {a : A} (b' : ℕ)
      → Runs o d b m a d' b'
      → Runs o d b m a d' 0
  Runs-weaken b' r = record {
    run = λ c at. let p = r.run c at in (p.0, IsAt-weaken 0 (omega arith) p.1);
  }

  -- A test that is decided picks its branch.
  pub Runs-true :
      {A : Type 0} {d b d' b' : ℕ} {t : Bool} {m : M A} (m' : M A) {a : A}
      → t ≡ true
      → Runs o d b m a d' b'
      → Runs o d b (if t then m else m') a d' b'
  Runs-true m' e r = rw e r

  pub Runs-false :
      {A : Type 0} {d b d' b' : ℕ} {t : Bool} (m : M A) {m' : M A} {a : A}
      → t ≡ false
      → Runs o d b m' a d' b'
      → Runs o d b (if t then m else m') a d' b'
  Runs-false m e r = rw e r

  pub Runs-eq :
      {A : Type 0} {d b d' b' : ℕ} {m : M A} {a a' : A}
      → a ≡ a'
      → Runs o d b m a d' b'
      → Runs o d b m a' d' b'
  Runs-eq {d = d} {b = b} {d' = d'} {b' = b'} {m = m} e r = subst (λ x. Runs o d b m x d' b') e r

  pub Runs-at :
      {A : Type 0} {d b d' d'' b' : ℕ} {m : M A} {a : A}
      → d' ≡ d''
      → Runs o d b m a d' b'
      → Runs o d b m a d'' b'
  Runs-at {d = d} {b = b} {b' = b'} {m = m} {a = a} e r = subst (λ x. Runs o d b m a x b') e r

  -- Dropping a field that was peeked, and returning a value.
  pub Runs-finish :
      {A : Type 0} (d k : ℕ) (a : A)
      → Runs o d k (drop_bits k >>= λ _. λ c. (ready a, c)) a (d + k) 0
  Runs-finish d k a =
      Runs-weaken (k - k) (Runs-bind _ (Runs-drop d k k (le_refl k)) (Runs-pure (d + k) (k - k) a))

  -- `read` returns the field and moves past it.
  pub Runs-read :
      (d b k : ℕ) → k ≤ 56 → d + k ≤ size o → Runs o d b (read k) (from o d % 2 ^ k) (d + k) 0
  unfolding read
  Runs-read d b k hk room =
      Runs-bind _ (Runs-peek d b k hk room) (Runs-finish d k (from o d % 2 ^ k))

-- The number and the width of a `uint8` code, from the bits that follow.
unfoldable pub uint8_code : ℕ → ℕ × ℕ
uint8_code x =
    let n = x % 16 / 2 in
    if x % 2 == 0 then (0, 1) else if n == 0 then (1, 4) else (2 ^ n + x % 2 ^ (4 + n) / 16, 4 + n)

-- The three forms of the code.
pub uint8_code-cases :
    (x : ℕ)
    → ((x % 2 == 0) ≡ true) × (uint8_code x ≡ (0, 1))
      ⊎ ((x % 2 == 0) ≡ false) × ((x % 16 / 2 == 0) ≡ true) × (uint8_code x ≡ (1, 4))
      ⊎ ((x % 2 == 0) ≡ false)
        × ((x % 16 / 2 == 0) ≡ false)
        × (uint8_code x ≡ (2 ^ (x % 16 / 2) + x % 2 ^ (4 + x % 16 / 2) / 16, 4 + x % 16 / 2))
unfolding uint8_code
uint8_code-cases x = elim (Bool-cases (x % 2 == 0)) [
  | inl short ↦ inl (short, rw short)
  | inr long ↦ inr (elim (Bool-cases (x % 16 / 2 == 0)) [
    | inl one ↦ inl (long, one, rw (long, one))
    | inr more ↦ inr (long, more, rw (long, more))
  ])
]

module _ (o : Origin) where
  -- `uint8` returns the number that the bits at the position spell, 0 to 255 by its three forms, and
  -- moves past exactly its code, of 1 or of 4 to 11 bits, where the input has them.
  pub Runs-uint8 :
      (d b : ℕ)
      → d + (uint8_code (from o d)).1 ≤ size o
      → Runs o d b uint8 (uint8_code (from o d)).0 (d + (uint8_code (from o d)).1) 0
  unfolding uint8
  Runs-uint8 d b room = elim (uint8_code-cases (from o d)) [
    | inl (short, e) ↦ rw e (
        Runs-bind _ (Runs-peek o d b 1 (omega arith) (omega (arith, ap (λ (p : ℕ × ℕ). p.1) e)))
          (Runs-true o _ short (Runs-finish o d 1 0)))
    | inr (inl (long, one, e)) ↦ rw e (
        Runs-bind _ (Runs-peek o d b 1 (omega arith) (omega (arith, ap (λ (p : ℕ × ℕ). p.1) e))) (
          Runs-false o _ long (
            Runs-bind _ (Runs-peek o d 1 4 (omega arith) (omega (arith, ap (λ (p : ℕ × ℕ). p.1) e)))
              (Runs-true o _ one (Runs-finish o d 4 1)))))
    | inr (inr (long, more, e)) ↦
        let n : ℕ = from o d % 16 / 2 in
        let w : d + (4 + n) ≤ size o = omega (arith, ap (λ (p : ℕ × ℕ). p.1) e) in
        rw e (
          Runs-bind _ (Runs-peek o d b 1 (omega arith) (omega arith)) (
            Runs-false o _ long (
              Runs-bind _ (Runs-peek o d 1 4 (omega arith) (omega arith)) (
                Runs-false o _ more (
                  Runs-bind _ (Runs-peek o d 4 (4 + n) (omega arith) w)
                    (Runs-finish o d (4 + n) _))))))
  ]

-- A call that stopped at the end of its input, and the call that goes on with `more`.
abbrev pub joined : (o : Origin) (more : List ℕ) → All IsByte more → Origin
joined o more h = record {
  carry = o.carry;
  held = o.held;
  bytes = o.bytes ++ more;
  carry_fits = o.carry_fits;
  held_fits = o.held_fits;
  all_bytes = All-append o.bytes more o.all_bytes h;
}

-- The reservoir that a settled call hands to the next one, over the next input.
pub IsAt-start :
    (carry held : ℕ) (bytes : List ℕ) (total : ℕ) (limit : Option ℕ) (fits : carry < 2 ^ held)
    (small : held ≤ 64) (all : All IsByte bytes)
    → total + length bytes < 2 ^ 64
    → Fits limit (total + length bytes)
    → IsAt
        (record {
          carry = carry;
          held = held;
          bytes = bytes;
          carry_fits = fits;
          held_fits = small;
          all_bytes = all;
        })
        0
        0
        (record {
          bits = record { value = carry; count = held };
          input = new_input bytes total limit;
        })
unfolding new_input
IsAt-start carry held bytes total limit fits small all ht hl = record {
  same_bytes = refl;
  placed = omega arith;
  inside = omega arith;
  buffered = omega arith;
  extent = held;
  counted = omega arith;
  narrow = small;
  shown = sym (
      ap (λ (t : ℕ). t % 2 ^ held) (div-one (carry + 2 ^ held * number bytes))
      ∙ (pow-join held (number bytes) carry fits).1);
  total_fits = ht;
  limit_fits = hl;
}

drop_all : (n : ℕ) (xs : List ℕ) → length xs ≤ n → drop n xs ≡ []
drop_all zero [] h = refl
drop_all zero (x ∷ xs) h = elim h [ ]
drop_all (suc n) [] h = refl
drop_all (suc n) (x ∷ xs) h = drop_all n xs (omega arith)

-- Suspension loses nothing. At the end of its input the reservoir holds exactly the bits from
-- its position on; followed by any further bytes, it reads as the uninterrupted input would.
pub from-joined :
    {o : Origin} {d b : ℕ} {c : Cursor} (more : List ℕ) (h : All IsByte more)
    → IsAt o d b c
    → c.input.consumed ≡ length o.bytes
    → (c.bits.value < 2 ^ c.bits.count)
      × (from (joined o more h) d ≡ c.bits.value + 2 ^ c.bits.count * number more)
unfolding number
from-joined {o} {d} {b} {c} more h at end = (rw value fits, joins)
  where
    nothing_left : from o d / 2 ^ c.bits.count ≡ 0
    nothing_left =
        from_buffered at
        ∙ ap number
            (drop_all c.input.consumed c.input.bytes (omega (arith, ap length at.same_bytes)))

    fits : from o d < 2 ^ c.bits.count
    fits = omega (
      arith,
      pow-split (from o d) c.bits.count,
      ap (λ (t : ℕ). 2 ^ c.bits.count * t) nothing_left,
      mod-pow-lt (from o d) c.bits.count,
    )

    value : c.bits.value ≡ from o d
    value =
        at.shown ∙ mod-pow-eq_of_lt (from o d) at.extent (omega (arith, fits, pow-le at.counted))

    whole : text (joined o more h) ≡ text o + 2 ^ d * (2 ^ c.bits.count * number more)
    whole = omega (
      arith,
      ap (λ (t : ℕ). 2 ^ o.held * t) (number-append o.bytes more),
      ap (λ (t : ℕ). t * number more) (pow-add o.held (8 * length o.bytes)),
      ap (λ (t : ℕ). t * number more) (pow-add d c.bits.count),
      ap (λ (t : ℕ). 2 ^ t * number more)
          (let e : d + c.bits.count ≡ o.held + 8 * length o.bytes = omega (arith, at.placed) in e),
    )

    joins : from (joined o more h) d ≡ c.bits.value + 2 ^ c.bits.count * number more
    joins =
        ap (λ (t : ℕ). t / 2 ^ d) whole
        ∙ add-mul-div_left (text o) (2 ^ c.bits.count * number more) (pow-pos d)
        ∙ ap (λ (t : ℕ). t + 2 ^ c.bits.count * number more) (sym value)

-- A `peek` that lacks input waits and loses nothing: its reservoir then holds exactly the bits
-- from the position to the end of the input, and followed by the next call's bytes, whatever they
-- are, it reads as the uninterrupted input from that position. For a width of at most 56 bits, a
-- cursor that stands at the position, and an input that the limit and the `u64` total admit.
pub peek-joined :
    {o : Origin} {d b : ℕ} (k : ℕ) (c : Cursor) (more : List ℕ) (h : All IsByte more)
    → IsAt o d b c
    → k ≤ 56
    → size o < d + k
    → ((peek k c).0 ≡ pending)
      × ((peek k c).1.bits.value < 2 ^ (peek k c).1.bits.count)
      × (from (joined o more h) d
          ≡ (peek k c).1.bits.value + 2 ^ (peek k c).1.bits.count * number more)
peek-joined k c more h at hk short =
    let w = peek-Waited k c at hk short in
    let (fits, reads) = from-joined more h w.stays w.used in (w.waits, fits, reads)
