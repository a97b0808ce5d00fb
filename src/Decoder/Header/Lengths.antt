-- ===== src/Decoder/Header/Lengths.antt =====
-- The meta-block length field, wherever the bits that follow spell it.
use mbrotli.Common.{ℕ, ◌+◌, ◌-◌, ◌*◌, ◌/◌, ◌%◌, ◌^◌, ◌≤◌, ◌<◌, arith}
use mbrotli.Common.{◌≡◌, ◌≢◌, refl, sym, ap, ◌∙◌, Bool, true, false, ◌⊎◌, inl, inr, not, ◌&&◌}
use mbrotli.Common.{ltb, ◌==◌, eq→test, ne→test, ge→ltb}
use mbrotli.Common.Pow.{pow-join, mod-div-pow, mod-mod-pow, mod-pow-lt, pow-split, div-div-pow}
use native.Mathlib.Nat.{le_refl}
use mbrotli.Decoder.Bits.Position.{Origin, from, size}
use mbrotli.Decoder.Bits.Calls.{
  Runs, Runs-bind, Runs-peek, Runs-drop, Runs-pure, Runs-finish, Runs-true, Runs-false, Runs-at,
  Runs-weaken,
}
use mbrotli.Decoder.Header.{MetaBlock, sized, data_header, metablock}

-- The bits `x` spell, after `p` flag bits, the nibble count `nb`, the length less one `l` in as
-- few nibbles as it needs, and then `tail`.
pub record Spells (x p nb l tail : ℕ) : Type 0 where
  pub few : nb ≤ 2
  pub fits : l < 2 ^ ((nb + 4) * 4)
  pub least : (nb ≡ 0) ⊎ (2 ^ ((nb + 3) * 4) ≤ l)
  pub spelled : x / 2 ^ p ≡ nb + 4 * (l + 2 ^ ((nb + 4) * 4) * tail)

and-false : (b : Bool) → (b && false) ≡ false
and-false true = refl
and-false false = refl

module _ {x p nb l tail : ℕ} (s : Spells x p nb l tail) where
  spelled_nibbles : x % 2 ^ (p + 2) / 2 ^ p % 256 ≡ nb
  spelled_nibbles = omega (
    arith,
    s.few,
    s.spelled,
    mod-div-pow x p (p + 2) (omega arith),
    ap (λ (t : ℕ). x / 2 ^ p % 2 ^ t) (let e : p + 2 - p ≡ 2 = omega arith in e),
  )

  after_count : x / 2 ^ (p + 2) ≡ l + 2 ^ ((nb + 4) * 4) * tail
  after_count = sym (div-div-pow x p 2) ∙ omega (arith, s.few, s.spelled)

  spelled_length :
      (w : ℕ) → p + 2 + (nb + 4) * 4 ≤ w → x % 2 ^ w / 2 ^ (p + 2) % 2 ^ ((nb + 4) * 4) ≡ l
  spelled_length w h =
      ap (λ (t : ℕ). t % 2 ^ ((nb + 4) * 4)) (mod-div-pow x (p + 2) w (omega arith))
      ∙ mod-mod-pow (x / 2 ^ (p + 2)) ((nb + 4) * 4) (w - (p + 2)) (omega arith)
      ∙ ap (λ (t : ℕ). t % 2 ^ ((nb + 4) * 4)) after_count
      ∙ (pow-join ((nb + 4) * 4) tail l s.fits).1

  after_length : x / 2 ^ (p + 2 + (nb + 4) * 4) ≡ tail
  after_length =
      sym (div-div-pow x (p + 2) ((nb + 4) * 4))
      ∙ ap (λ (t : ℕ). t / 2 ^ ((nb + 4) * 4)) after_count
      ∙ (pow-join ((nb + 4) * 4) tail l s.fits).0

  -- The check for a length that fewer nibbles would hold passes.
  not_padded : (ltb 4 (nb + 4) && (l / 2 ^ ((nb + 4 - 1) * 4) == 0)) ≡ false
  not_padded = elim s.least [
    | inl e ↦ rw (ge→ltb 4 (nb + 4) (omega arith)) refl
    | inr h ↦
        let q : l / 2 ^ ((nb + 4 - 1) * 4) ≢ 0 = λ z. absurd (
          omega (
            arith,
            pow-split l ((nb + 4 - 1) * 4),
            mod-pow-lt l ((nb + 4 - 1) * 4),
            ap (λ (t : ℕ). 2 ^ ((nb + 4 - 1) * 4) * t) z,
            ap (λ (t : ℕ). 2 ^ t) (let e : (nb + 4 - 1) * 4 ≡ (nb + 3) * 4 = omega arith in e),
          )) in
        rw (ne→test _ 0 q) (and-false _)
  ]

module _ (o : Origin) {d nb l tail : ℕ} where
  data_last :
      (b : ℕ)
      → Spells (from o d) 2 nb l tail
      → d + (4 + (nb + 4) * 4) ≤ size o
      → Runs o d b
          (data_header 2 true (nb + 4))
          (MetaBlock.compressed (l + 1) true)
          (d + (4 + (nb + 4) * 4))
          0
  unfolding data_header
  data_last b s room =
      let w : ℕ = 4 + (nb + 4) * 4 in
      Runs-bind _ (Runs-peek o d b (w + 0) (omega (arith, s.few)) (omega arith)) (
        rw (spelled_length s (w + 0) (omega arith)) (
          Runs-false o _ (not_padded s) (
            Runs-at o (omega arith) (Runs-finish o d (w + 0) (MetaBlock.compressed (l + 1) true)))))

  -- What follows the flags of a last block.
  sized_last :
      (b : ℕ)
      → Spells (from o d) 2 nb l tail
      → d + (4 + (nb + 4) * 4) ≤ size o
      → Runs o d b (sized 2 true) (MetaBlock.compressed (l + 1) true) (d + (4 + (nb + 4) * 4)) 0
  unfolding sized
  sized_last b s room = Runs-bind _ (Runs-peek o d b (2 + 2) (omega arith) (omega arith)) (
      rw (spelled_nibbles s) (
        Runs-false o _ (ne→test (nb + 4) 7 (λ e. absurd (omega (arith, s.few))))
          (data_last (2 + 2) s room)))

  -- The header of the last compressed meta-block: ISLAST set, ISEMPTY clear, the length.
  pub metablock-Spells_last :
      (b : ℕ)
      → from o d % 4 ≡ 1
      → Spells (from o d) 2 nb l tail
      → d + (4 + (nb + 4) * 4) ≤ size o
      → Runs o d b metablock (MetaBlock.compressed (l + 1) true) (d + (4 + (nb + 4) * 4)) 0
  unfolding metablock
  metablock-Spells_last b flags s room =
      Runs-bind _ (Runs-peek o d b 1 (omega arith) (omega arith)) (
        Runs-true o {t = not (from o d % 2 ^ 1 == 0)} _
          (rw (ne→test (from o d % 2 ^ 1) 0 (omega arith)) refl)
          (Runs-bind _ (Runs-peek o d 1 2 (omega arith) (omega arith)) (
            Runs-false o {t = not (from o d % 2 ^ 2 / 2 % 2 == 0)} _
              (rw (eq→test (from o d % 2 ^ 2 / 2 % 2) 0 (omega arith)) refl)
              (sized_last 2 s room))))

  data_more :
      (b : ℕ)
      → Spells (from o d) 1 nb l tail
      → tail % 2 ≡ 0
      → d + (4 + (nb + 4) * 4) ≤ size o
      → Runs o d b
          (data_header 1 false (nb + 4))
          (MetaBlock.compressed (l + 1) false)
          (d + (4 + (nb + 4) * 4))
          0
  unfolding data_header
  data_more b s even room =
      let w : ℕ = 3 + (nb + 4) * 4 in
      let raw : from o d % 2 ^ (w + 1) / 2 ^ w ≡ 0 = omega (
        arith,
        even,
        after_length s,
        mod-div-pow (from o d) w (w + 1) (omega arith),
        ap (λ (t : ℕ). from o d / 2 ^ w % 2 ^ t) (let e : w + 1 - w ≡ 1 = omega arith in e),
      ) in
      Runs-bind _ (Runs-peek o d b (w + 1) (omega (arith, s.few)) (omega arith)) (
        rw (spelled_length s (w + 1) (omega arith)) (
          Runs-false o _ (not_padded s) (
            rw raw (
              Runs-at o (omega arith) (
                Runs-weaken o (w + 1 - (w + 1)) (
                  Runs-bind _ (Runs-drop o d (w + 1) (w + 1) (le_refl (w + 1))) (
                    Runs-pure o (d + (w + 1)) (w + 1 - (w + 1))
                      (MetaBlock.compressed (l + 1) false))))))))

  -- The header of a compressed meta-block that others follow.
  pub metablock-Spells_more :
      (b : ℕ)
      → from o d % 2 ≡ 0
      → Spells (from o d) 1 nb l tail
      → tail % 2 ≡ 0
      → d + (4 + (nb + 4) * 4) ≤ size o
      → Runs o d b metablock (MetaBlock.compressed (l + 1) false) (d + (4 + (nb + 4) * 4)) 0
  unfolding metablock sized
  metablock-Spells_more b flag s even room =
      Runs-bind _ (Runs-peek o d b 1 (omega arith) (omega arith)) (
        Runs-false o {t = not (from o d % 2 ^ 1 == 0)} _
          (rw (eq→test (from o d % 2 ^ 1) 0 (omega arith)) refl)
          (Runs-bind _ (Runs-peek o d 1 (1 + 2) (omega arith) (omega arith)) (
            rw (spelled_nibbles s) (
              Runs-false o _ (ne→test (nb + 4) 7 (λ e. absurd (omega (arith, s.few))))
                (data_more (1 + 2) s even room)))))
