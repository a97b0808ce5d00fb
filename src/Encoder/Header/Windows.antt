-- ===== src/Encoder/Header/Windows.antt =====
-- The decoder reads the window header that the encoder declares.
use mbrotli.Common.{ℕ, ◌+◌, ◌-◌, ◌*◌, ◌/◌, ◌%◌, ◌^◌, ◌≤◌, ◌<◌, arith}
use mbrotli.Common.{◌≡◌, ◌≢◌, refl, sym, ap, ◌∙◌, Bool, true, false, not, ◌&&◌, ◌||◌, inl, inr, ◌⊎◌}
use mbrotli.Common.{ltb, ◌==◌, if◌then◌else◌, eq→test, ne→test, ge→ltb, all_below, all_below_sound}
use mbrotli.Encoder.Header.{window_header}
use mbrotli.Decoder.Bits.Position.{Origin, from, size}
use mbrotli.Decoder.Bits.Calls.{
  Runs, Runs-bind, Runs-peek, Runs-pure, Runs-finish, Runs-true, Runs-false, Runs-eq,
}
use mbrotli.Decoder.Header.{
  Window, WindowEncoding, WindowLimit, declaration, long_declaration, checked_window, window,
  window_standard,
}

-- The ordinary header's bits, by arithmetic.
Spelled : ℕ → ℕ × ℕ → Type 0
Spelled bits (v, w) =
    (bits ≡ 16) × (v ≡ 0) × (w ≡ 1)
    ⊎ (bits ≡ 17) × (v ≡ 1) × (w ≡ 7)
    ⊎ (17 < bits) × (v ≡ (bits - 17) * 2 + 1) × (w ≡ 4)
    ⊎ (bits < 16) × (v ≡ (bits - 8) * 16 + 1) × (w ≡ 7)

-- The same as a test on one size.
spelled : ℕ → Bool
spelled bits =
    let (v, w) = window_header (record { declared_bits = bits; large = false }) in
    ltb bits 10
    || (if bits == 16
        then (v == 0) && (w == 1)
        else if bits == 17
        then (v == 1) && (w == 7)
        else if ltb 17 bits
        then (v == (bits - 17) * 2 + 1) && (w == 4)
        else (v == (bits - 8) * 16 + 1) && (w == 7))

spelled_all : all_below 25 spelled ≡ true
unfolding spelled window_header
spelled_all = refl

module _ (o : Origin) (limit : WindowLimit) {d bits : ℕ} (lo : 10 ≤ bits) (hi : bits ≤ 24)
    (allowed : bits ≤ limit.max_bits) where
  -- An ordinary declaration that was peeked is accepted and dropped.
  checked_ordinary :
      (w : ℕ)
      → Runs o d w
          (checked_window limit (record { bits = bits; width = w; large = false }))
          (record { bits = bits; encoding = WindowEncoding.standard })
          (d + w)
          0
  unfolding checked_window window_standard
  checked_ordinary w =
      rw (ge→ltb limit.max_bits bits allowed, ge→ltb bits 10 lo, ge→ltb 24 bits hi)
        (Runs-finish o d w (record { bits = bits; encoding = WindowEncoding.standard }))

  -- The three forms, by the bits that follow.
  declaration_short :
      from o d % 2 ≡ 0
      → d + 1 ≤ size o
      → bits ≡ 16
      → Runs o d 0
          (window limit)
          (record { bits = bits; encoding = WindowEncoding.standard })
          (d + 1)
          0
  unfolding window declaration
  declaration_short z room e =
      Runs-bind _
        (Runs-bind _ (Runs-peek o d 0 1 (omega arith) room) (
          Runs-true o _ (eq→test (from o d % 2 ^ 1) 0 z) (
            Runs-eq o (ap (λ (t : ℕ). record { bits = t; width = 1; large = false }) (sym e))
              (Runs-pure o d 1 _))))
        (checked_ordinary 1)

  declaration_four :
      from o d % 16 ≡ (bits - 17) * 2 + 1
      → d + 4 ≤ size o
      → 17 < bits
      → Runs o d 0
          (window limit)
          (record { bits = bits; encoding = WindowEncoding.standard })
          (d + 4)
          0
  unfolding window declaration
  declaration_four z room e =
      Runs-bind _
        (Runs-bind _ (Runs-peek o d 0 1 (omega arith) (omega arith)) (
          Runs-false o _ (ne→test (from o d % 2 ^ 1) 0 (omega arith)) (
            Runs-bind _ (Runs-peek o d 1 4 (omega arith) room) (
              Runs-true o {t = not (from o d % 2 ^ 4 / 2 == 0)} _
                (rw (ne→test (from o d % 2 ^ 4 / 2) 0 (omega arith)) refl)
                (Runs-eq o
                  (ap (λ (t : ℕ). record { bits = t; width = 4; large = false }) (omega arith))
                  (Runs-pure o d 4 _))))))
        (checked_ordinary 4)

  seven_bits :
      (x n : ℕ)
      → n ≢ 1
      → x / 16 ≡ n
      → (n ≡ 0) × (bits ≡ 17) ⊎ (n ≢ 0) × (bits ≡ 8 + n)
      → Runs o d 7 (long_declaration x) (record { bits = bits; width = 7; large = false }) d 7
  unfolding long_declaration
  seven_bits x n ne e (inl (z, b)) =
      rw (e, eq→test n 0 z)
        (Runs-eq o (ap (λ (t : ℕ). record { bits = t; width = 7; large = false }) (sym b))
          (Runs-pure o d 7 _))
  seven_bits x n ne e (inr (nz, b)) =
      rw (e, ne→test n 0 nz, ne→test n 1 ne)
        (Runs-eq o (ap (λ (t : ℕ). record { bits = t; width = 7; large = false }) (sym b))
          (Runs-pure o d 7 _))

  declaration_seven :
      (n : ℕ)
      → n < 8
      → n ≢ 1
      → from o d % 128 ≡ 16 * n + 1
      → d + 7 ≤ size o
      → (n ≡ 0) × (bits ≡ 17) ⊎ (n ≢ 0) × (bits ≡ 8 + n)
      → Runs o d 0
          (window limit)
          (record { bits = bits; encoding = WindowEncoding.standard })
          (d + 7)
          0
  unfolding window declaration
  declaration_seven n top ne z room which =
      Runs-bind _
        (Runs-bind _ (Runs-peek o d 0 1 (omega arith) (omega arith)) (
          Runs-false o _ (ne→test (from o d % 2 ^ 1) 0 (omega arith)) (
            Runs-bind _ (Runs-peek o d 1 4 (omega arith) (omega arith)) (
              Runs-false o {t = not (from o d % 2 ^ 4 / 2 == 0)} _
                (rw (eq→test (from o d % 2 ^ 4 / 2) 0 (omega arith)) refl)
                (Runs-bind _ (Runs-peek o d 4 7 (omega arith) room) long_form)))))
        (checked_ordinary 7)
    where
      long_form :
          Runs o d 7
            (long_declaration (from o d % 2 ^ 7))
            (record { bits = bits; width = 7; large = false })
            d
            7
      long_form = seven_bits (from o d % 2 ^ 7) n ne (omega arith) which

spelled→ :
    (bits v w : ℕ)
    → 10 ≤ bits
    → (ltb bits 10
        || (if bits == 16
            then (v == 0) && (w == 1)
            else if bits == 17
            then (v == 1) && (w == 7)
            else if ltb 17 bits
            then (v == (bits - 17) * 2 + 1) && (w == 4)
            else (v == (bits - 8) * 16 + 1) && (w == 7)))
      ≡ true
    → Spelled bits (v, w)
unfolding Spelled
spelled→ bits v w lo h = ground arith

-- For an ordinary window of 10 to 24 bits that the decoder's limit admits: wherever the bits that
-- `header` gives stand in the input, whatever follows them, the decoder's `window` reads that
-- window and moves past exactly those bits.
pub window-window_header :
    (o : Origin) (limit : WindowLimit) (d bits rest : ℕ)
    → 10 ≤ bits
    → bits ≤ 24
    → bits ≤ limit.max_bits
    → from o d
      ≡ (window_header (record { declared_bits = bits; large = false })).0
        + 2 ^ (window_header (record { declared_bits = bits; large = false })).1 * rest
    → d + (window_header (record { declared_bits = bits; large = false })).1 ≤ size o
    → Runs o d 0
        (window limit)
        (record { bits = bits; encoding = WindowEncoding.standard })
        (d + (window_header (record { declared_bits = bits; large = false })).1)
        0
unfolding spelled Spelled
window-window_header o limit d bits rest lo hi allowed seen room =
    cases (spelled→ bits v w lo (all_below_sound 25 spelled bits spelled_all (omega arith)))
  where
    v : ℕ
    v = (window_header (record { declared_bits = bits; large = false })).0

    w : ℕ
    w = (window_header (record { declared_bits = bits; large = false })).1

    read : Window
    read = record { bits = bits; encoding = WindowEncoding.standard }

    power : {k : ℕ} → w ≡ k → from o d ≡ v + 2 ^ k * rest
    power e = seen ∙ ap (λ (t : ℕ). v + 2 ^ t * rest) e

    cases : Spelled bits (v, w) → Runs o d 0 (window limit) read (d + w) 0
    cases (inl (b, hv, hw)) = rw hw (
        declaration_short o limit lo hi allowed (omega (arith, power hw, hv))
          (omega (arith, room, hw)) b)
    cases (inr (inl (b, hv, hw))) = rw hw (
        declaration_seven o limit lo hi allowed 0 (omega arith) (omega arith)
          (omega (arith, power hw, hv)) (omega (arith, room, hw)) (inl (refl, b)))
    cases (inr (inr (inl (b, hv, hw)))) = rw hw (
        declaration_four o limit lo hi allowed (omega (arith, power hw, hv))
          (omega (arith, room, hw)) b)
    cases (inr (inr (inr (b, hv, hw)))) = rw hw (
        declaration_seven o limit lo hi allowed (bits - 8) (omega arith) (omega arith)
          (omega (arith, power hw, hv)) (omega (arith, room, hw)) (inr (omega arith, omega arith)))
