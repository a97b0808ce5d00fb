-- ===== src/Distance/Recent.antt =====
-- The ring of recent distances as the list it stands for, and the bounds of what a symbol resolves to.
use mbrotli.Common.{ℕ, suc, ◌+◌, ◌-◌, ◌*◌, ◌%◌, ◌^◌, ◌≤◌, ◌<◌, arith, bit_and}
use mbrotli.Common.{◌≡◌, refl, sym, ap, ap₂, ◌∙◌, true, false, leb}
use mbrotli.Common.{
  List, [], ◌∷◌, length, get_or, set, get_or-set_same, get_or-set_other, set-get_or, length-set,
  take,
}
use mbrotli.Common.BitOps.{bit_and_mask}
use native.Mathlib.Decide.{dec_lt}
use mbrotli.Distance.Cache.{Cache, ok, recent, push, pop, short, wrapping_sub, wrapping_add}
use mbrotli.Distance.Layout.{DistanceLayout, extra_bits, validate_symbol, resolve, entry}
use mbrotli.Distance.Entries.{entry-agrees, resolve-entry}

pub record IsCache (c : Cache) : Type 0 where
  pub four : length c.slots ≡ 4
  pub counter : c.index < 2 ^ 64

-- The distances, the most recent first.
unfoldable pub recents : Cache → List ℕ
recents c = recent c 0 ∷ recent c 1 ∷ recent c 2 ∷ recent c 3 ∷ []

slot : (i back : ℕ) → back < 4 → bit_and (wrapping_sub i (1 + back)) 3 ≡ (i % 2 ^ 64 + 3 - back) % 4
slot i back h = bit_and_mask 2 (wrapping_sub i (1 + back)) ∙ omega (arith, h)

after_push :
    (i back : ℕ)
    → back < 3
    → bit_and (wrapping_sub (wrapping_add i 1) (1 + suc back)) 3
      ≡ bit_and (wrapping_sub i (1 + back)) 3
after_push i back h =
    slot (wrapping_add i 1) (suc back) (omega arith) ∙ omega (arith, slot i back (omega arith))

module _ {c : Cache} (d : ℕ) (is : IsCache c) where
  push-IsCache : IsCache (push d c)
  unfolding push
  push-IsCache = record {
    four = length-set c.slots (bit_and c.index 3) d ∙ is.four;
    counter = omega arith;
  }

  push-newest : recent (push d c) 0 ≡ d
  unfolding recent push
  push-newest =
      ap (λ (t : ℕ). get_or (set c.slots (bit_and c.index 3) d) t 0)
        (slot (wrapping_add c.index 1) 0 (omega arith)
          ∙ omega (arith, is.counter, bit_and_mask 2 c.index))
      ∙ get_or-set_same c.slots (bit_and c.index 3) d 0
          (omega (arith, is.four, bit_and_mask 2 c.index))

  push-older : (back : ℕ) → back < 3 → recent (push d c) (suc back) ≡ recent c back
  unfolding recent push
  push-older back h =
      ap (λ (t : ℕ). get_or (set c.slots (bit_and c.index 3) d) t 0) (after_push c.index back h)
      ∙ get_or-set_other c.slots (bit_and c.index 3) (bit_and (wrapping_sub c.index (1 + back)) 3) d
          0
          (λ e. absurd (
            omega
              (arith, is.counter, h, e, slot c.index back (omega arith), bit_and_mask 2 c.index)))

  -- For a cache of four slots, a push puts the distance before the others and forgets the oldest
  -- of the four, also where the counter wraps, and the cache keeps its form.
  pub recents-push : IsCache (push d c) × (recents (push d c) ≡ d ∷ take 3 (recents c))
  unfolding recents
  recents-push = (
    push-IsCache,
    rw
        (
          push-newest,
          push-older 0 (omega arith),
          push-older 1 (omega arith),
          push-older 2 (omega arith),
        )
        refl,
  )

-- For a cache of four slots, `pop` returns the most recent distance, and pushing it back, as a
-- command with an implicit distance does, leaves the cache as it was, also where the counter
-- wraps.
pub push-pop : (c : Cache) → IsCache c → ((pop c).0 ≡ recent c 0) × (push (pop c).0 (pop c).1 ≡ c)
unfolding pop push recent
push-pop c is = (
  refl,
  ap₂ (λ (s : List ℕ) (i : ℕ). record { slots = s; index = i })
      (set-get_or c.slots (bit_and (wrapping_sub c.index 1) 3) 0) (omega (arith, is.counter)),
)

-- A short code that resolves gives a distance from 1 to 2^63 - 4.
short-bound : (symbol : ℕ) (c : Cache) (v : ℕ) → short symbol c ≡ ok v → (0 < v) × (v ≤ 2 ^ 63 - 4)
unfolding short
short-bound symbol c v e = ground arith

resolve-short :
    (l : DistanceLayout) (symbol extra : ℕ) (c : Cache)
    → symbol < 16
    → resolve l symbol extra c ≡ short symbol c
unfolding resolve
resolve-short l symbol extra c near =
    let test : leb 16 symbol ≡ false = ground arith in rw test refl

-- Whatever symbol the header validates and whatever the cache holds: a distance that `resolve`
-- returns, for extra bits that fit the symbol, is from 1 to 2^63 - 4.
pub resolve-bound :
    (l : DistanceLayout) (symbol extra : ℕ) (c : Cache) (v : ℕ)
    → validate_symbol l symbol ≡ true
    → extra < 2 ^ extra_bits l symbol
    → resolve l symbol extra c ≡ ok v
    → (0 < v) × (v ≤ 2 ^ 63 - 4)
resolve-bound l symbol extra c v valid le e = elim (dec_lt symbol 16) [
  | yes near ↦ short-bound symbol c v (sym (resolve-short l symbol extra c near) ∙ e)
  | no far ↦
      let (w, d, s, pos, top) = entry-agrees l symbol extra (omega arith) valid le in
      let same : (entry l symbol).base + extra * 2 ^ l.postfix ≡ v =
        ok_injective (sym (resolve-entry l symbol extra c (omega arith) valid le) ∙ e) in
      omega (arith, d, pos, top, same)
]
  where
    ok_injective : {a b : ℕ} → ok a ≡ ok b → a ≡ b
    ok_injective p = ground (arith, p)
