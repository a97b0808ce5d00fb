-- ===== src/Blocks/Types.antt =====
-- Block types: the decoder's switches follow the encoder's codes.
use mbrotli.Common.{ℕ, ◌+◌, ◌-◌, ◌%◌, ◌<◌, arith}
use mbrotli.Common.{◌≡◌, refl, sym, ap, ap₂, ◌∙◌, eq→test, ne→test}
use mbrotli.Common.{List, [], ◌∷◌, All}
use native.Mathlib.Nat.{mod-eq_of_lt}
use native.Mathlib.Decide.{ℕ_discrete}
use mbrotli.Blocks.{BlockTypeCodeCalculator, new, next, Block, reset, switch_to}

-- The encoder's two types are the decoder's.
Agrees : BlockTypeCodeCalculator → Block → Type 0
Agrees c b = (c.last_type ≡ b.current) × (c.second_last_type ≡ b.previous)

-- The codes of a sequence of types, and the types that a decoder takes from codes.
unfoldable pub codes : List ℕ → BlockTypeCodeCalculator → List ℕ
codes [] c = []
codes (t ∷ ts) c = let (code, c') = next t c in code ∷ codes ts c'

unfoldable pub switches : List ℕ → Block → List ℕ
switches [] b = []
switches (s ∷ ss) b = let b' = switch_to s b in b'.current ∷ switches ss b'

switch_to-next :
    (t : ℕ) (c : BlockTypeCodeCalculator) (b : Block)
    → Agrees c b
    → t < b.count
    → ((switch_to (next t c).0 b).current ≡ t)
      × Agrees (next t c).1 (switch_to (next t c).0 b)
      × ((switch_to (next t c).0 b).count ≡ b.count)
unfolding switch_to next Agrees
switch_to-next t c b (last, second) h = elim (ℕ_discrete t (c.last_type + 1)) [
  | yes e ↦
      let to : (b.current + 1) % b.count ≡ t =
        ap (λ (n : ℕ). n % b.count) (omega (arith, e, last)) ∙ mod-eq_of_lt h in
      rw (eq→test t (c.last_type + 1) e) (to, (sym to, last), refl)
  | no ne ↦ elim (ℕ_discrete t c.second_last_type) [
    | yes e ↦
        let to : b.previous % b.count ≡ t =
          ap (λ (n : ℕ). n % b.count) (omega (arith, e, second)) ∙ mod-eq_of_lt h in
        rw (ne→test t (c.last_type + 1) ne, eq→test t c.second_last_type e)
          (to, (sym to, last), refl)
    | no ne' ↦
        let to : (t + 2 - 2) % b.count ≡ t =
          ap (λ (n : ℕ). n % b.count) (omega arith) ∙ mod-eq_of_lt h in
        rw
          (
            ne→test t (c.last_type + 1) ne,
            ne→test t c.second_last_type ne',
            ne→test (t + 2) 0 (omega arith),
            ne→test (t + 2) 1 (omega arith),
          )
          (to, (sym to, last), refl)
  ]
]

switches-codes_from :
    (ts : List ℕ) (c : BlockTypeCodeCalculator) (b : Block)
    → Agrees c b
    → All (λ t. t < b.count) ts
    → switches (codes ts c) b ≡ ts
unfolding switches codes
switches-codes_from [] c b agree all = refl
switches-codes_from (t ∷ ts) c b agree (h, all) =
    let (to, agree', same) = switch_to-next t c b agree h in
    ap₂ (λ (x : ℕ) (xs : List ℕ). x ∷ xs) to
      (switches-codes_from ts (next t c).1 (switch_to (next t c).0 b) agree' (rw same all))

-- For every sequence of block types below the decoder's count, after the first block, of type 0
-- and without a switch: the decoder's switches on the encoder's codes go through those types.
pub switches-codes :
    (count : ℕ) (ts : List ℕ)
    → All (λ t. t < count) ts
    → switches (codes ts (next 0 new).1) (record reset { count = count }) ≡ ts
unfolding next Agrees
switches-codes count ts all =
    switches-codes_from ts (next 0 new).1 (record reset { count = count }) (refl, refl) all
