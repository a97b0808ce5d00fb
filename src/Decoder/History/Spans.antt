-- ===== src/Decoder/History/Spans.antt =====
-- The ring against all that is decoded so far: which bytes it still holds, and that a piece that is
-- put into it keeps them.
use native.Mathlib.Nat.{mod-eq_of_lt, mod-lt}
use mbrotli.Common.{
  ℕ, suc, ◌+◌, ◌-◌, ◌%◌, ◌^◌, ◌≤◌, ◌<◌, arith, max, ltb, ◌≡◌, ◌∙◌, ◌⊎◌, inl, inr, sym, ap,
  Bool-cases, List, length, get_or, ltb→lt, ltb→ge,
}
use mbrotli.Common.Pow.{pow-le, pow-step, pow-pos}
use mbrotli.Decoder.History.{slot}
use mbrotli.Decoder.History.Slots.{mod-shift, lap_apart, slot-pow, slot-below}

-- The bytes that a copy may refer to, and those that are not flushed, stand in their slots.
pub record Holds (reach flushed : ℕ) (ring decoded : List ℕ) : Type 0 where
  pub byte_at :
      (p : ℕ)
      → p < length decoded
      → (flushed ≤ p) ⊎ (length decoded ≤ p + reach)
      → get_or ring (p % length ring) 0 ≡ get_or decoded p 0

-- A ring of the window's size, which wraps, or one that is not filled up to `end`.
pub data Room (size reach end : ℕ) : Type 0 where
  wraps : (k : ℕ) → k < 63 → size ≡ 2 ^ k → reach + 16 ≤ size → Room size reach end
  fits : end ≤ size → size < 2 ^ 63 → Room size reach end

-- The decoded bytes with more after them.
pub record Extends (old : List ℕ) (n : ℕ) (more : ℕ → ℕ) (new : List ℕ) : Type 0 where
  pub size : length new ≡ length old + n
  pub keeps : (p : ℕ) → p < length old → get_or new p 0 ≡ get_or old p 0
  pub adds : (i : ℕ) → i < n → get_or new (length old + i) 0 ≡ more i

module _ {size reach end : ℕ} where
  pub Room-small : Room size reach end → size < 2 ^ 63
  Room-small (Room.wraps k h e r) =
      rw e (omega (arith, pow-step k, pow-pos k, let d : 2 ^ suc k ≤ 2 ^ 63 = pow-le h in d))
  Room-small (Room.fits le h) = h

  -- The slot that the code computes.
  pub slot-Room : Room size reach end → (p : ℕ) → p < end → slot size p ≡ p % size
  slot-Room (Room.wraps k h e r) p lt = rw e (slot-pow k p (omega (arith, h)))
  slot-Room (Room.fits le h) p lt = slot-below size p (omega (arith, le, lt)) (omega (arith, h))

  -- A byte that is needed is not in a slot of the piece at `position`.
  clash :
      Room size reach end
      → (flushed position n slack p : ℕ) → 0 < n
      → position + n ≤ end
      → slack ≤ n + 16
      → flushed % size + (position - flushed) < size
      → p < position
      → position % size ≤ p % size
      → p % size < position % size + max n slack
      → (flushed ≤ p) ⊎ (position + n ≤ p + reach)
      → ⊥
  clash room flushed position n slack p any fit few lap old low high (inl here) =
      let upto : flushed + (position - flushed) ≡ position = omega (arith, here, old) in
      let upto' : flushed + (p - flushed) ≡ p = omega (arith, here) in
      omega (
        arith,
        low,
        old,
        here,
        mod-shift size flushed (position - flushed) lap,
        mod-shift size flushed (p - flushed) (omega (arith, lap, old)),
        ap (λ (k : ℕ). k % size) upto,
        ap (λ (k : ℕ). k % size) upto',
      )
  clash (Room.wraps k h e r) flushed position n slack p any fit few lap old low high (inr near) =
      let i : ℕ = p % size - position % size in
      let same : (position + i) % size ≡ position % size + i =
        mod-shift size position i (omega (arith, mod-lt p {m = size} (omega (arith, r)), low)) in
      let apart : p + size ≤ position + i =
        lap_apart size p (position + i) (omega (arith, old)) (omega (arith, same, low)) in
      omega (arith, apart, high, few, near, r, low, any)
  clash (Room.fits le h) flushed position n slack p any fit few lap old low high (inr near) =
      let inside : position < size = omega (arith, le, fit, any) in
      omega (
        arith,
        low,
        old,
        mod-eq_of_lt {n = position} {m = size} inside,
        mod-eq_of_lt {n = p} {m = size} (omega (arith, inside, old)),
      )

  -- A piece of `n` bytes at `position`, with up to `slack` bytes written in all.
  pub Holds-piece :
      Room size reach end
      → (flushed n slack : ℕ) (more : ℕ → ℕ) {ring ring' decoded decoded' : List ℕ}
      → length ring ≡ size
      → length ring' ≡ size
      → 0 < n
      → length decoded + n ≤ end
      → slack ≤ n + 16
      → flushed % size + (length decoded - flushed) < size
      → length decoded % size + n ≤ size
      → Holds reach flushed ring decoded
      → Extends decoded n more decoded'
      → ((x : ℕ)
          → (x < length decoded % size) ⊎ (length decoded % size + max n slack ≤ x)
          → get_or ring' x 0 ≡ get_or ring x 0)
      → ((i : ℕ) → i < n → get_or ring' (length decoded % size + i) 0 ≡ more i)
      → Holds reach flushed ring' decoded'
  Holds-piece room flushed n slack more {ring} {ring'} {decoded} {decoded'} s s' any fit few lap one
        held x outside inside =
      record {
        byte_at = λ p lt needed. elim (Bool-cases (ltb p (length decoded))) [
          | inl e ↦
              let old : p < length decoded = ltb→lt p (length decoded) e in
              ap (λ (m : ℕ). get_or ring' (p % m) 0) s'
              ∙ outside (p % size) (away p old (omega (arith, needed, x.size)))
              ∙ ap (λ (m : ℕ). get_or ring (p % m) 0) (sym s)
              ∙ held.byte_at p old (omega (arith, needed, x.size))
              ∙ sym (x.keeps p old)
          | inr e ↦
              let i : ℕ = p - length decoded in
              let whole : length decoded + i ≡ p = omega (arith, ltb→ge p (length decoded) e) in
              let few_more : i < n = omega (arith, ltb→ge p (length decoded) e, lt, x.size) in
              ap (λ (m : ℕ). get_or ring' (p % m) 0) s'
              ∙ ap (λ (k : ℕ). get_or ring' (k % size) 0) (sym whole)
              ∙ ap (λ (k : ℕ). get_or ring' k 0)
                  (mod-shift size (length decoded) i (omega (arith, few_more, one)))
              ∙ inside i few_more
              ∙ sym (x.adds i few_more)
              ∙ ap (λ (k : ℕ). get_or decoded' k 0) whole
        ];
      }
    where
      away :
          (p : ℕ)
          → p < length decoded
          → (flushed ≤ p) ⊎ (length decoded + n ≤ p + reach)
          → (p % size < length decoded % size) ⊎ (length decoded % size + max n slack ≤ p % size)
      away p old h = elim (Bool-cases (ltb (p % size) (length decoded % size))) [
        | inl e ↦ inl (ltb→lt (p % size) (length decoded % size) e)
        | inr e ↦ elim (Bool-cases (ltb (p % size) (length decoded % size + max n slack))) [
          | inr f ↦ inr (ltb→ge (p % size) (length decoded % size + max n slack) f)
          | inl f ↦ absurd (
              clash room flushed (length decoded) n slack p any fit few lap old
                (ltb→ge (p % size) (length decoded % size) e)
                (ltb→lt (p % size) (length decoded % size + max n slack) f) h)
        ]
      ]
