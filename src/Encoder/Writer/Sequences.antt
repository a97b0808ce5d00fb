-- ===== src/Encoder/Writer/Sequences.antt =====
-- Several fields written one after the other, and what a reader over the buffer sees of them.
use mbrotli.Common.{ℕ, ◌+◌, ◌-◌, ◌*◌, ◌/◌, ◌^◌, ◌≤◌, ◌<◌, arith}
use mbrotli.Common.{◌≡◌, refl, sym, ap, ◌∙◌, List, [], ◌∷◌}
use mbrotli.Common.{length, take, drop, All, length-take, take-append-drop}
use mbrotli.Common.Pow.{pow-add, pow-join}
use mbrotli.Common.Bytes.{IsByte, number, number-append}
use mbrotli.Encoder.Writer.{BitWriter, write}
use mbrotli.Encoder.Writer.Fields.{IsWritten, write-IsWritten}
use mbrotli.Decoder.Bits.Position.{Origin, size, from}

-- A field is its width and its value.
abbrev pub Field : Type 0
Field = ℕ × ℕ

abbrev pub IsField : Field → Type 0
IsField (n, v) = (n ≤ 56) × (v < 2 ^ n)

unfoldable pub width : List Field → ℕ
width [] = 0
width ((n, v) ∷ fs) = n + width fs

-- The fields as one number, the first lowest.
unfoldable pub pack : List Field → ℕ
pack [] = 0
pack ((n, v) ∷ fs) = v + 2 ^ n * pack fs

unfoldable pub write_all : List Field → BitWriter → BitWriter
write_all [] w = w
write_all ((n, v) ∷ fs) w = write_all fs (write n v w)

pub write_all-IsWritten :
    (fs : List Field) {w : BitWriter} {x : ℕ}
    → IsWritten w x
    → All IsField fs
    → (w.position + width fs) / 8 + 8 ≤ length w.storage
    → IsWritten (write_all fs w) (x + 2 ^ w.position * pack fs)
      × ((write_all fs w).position ≡ w.position + width fs)
      × (length (write_all fs w).storage ≡ length w.storage)
unfolding width pack write_all
write_all-IsWritten [] {w} {x} is ok room =
    (rw (let e : x + 2 ^ w.position * 0 ≡ x = omega arith in e) is, omega arith, refl)
write_all-IsWritten ((n, v) ∷ fs) {w} {x} is (ok, oks) room =
    let (is', pos, len) = write-IsWritten n v is ok.0 ok.1 (omega arith) in
    let (all, pos', len') = write_all-IsWritten fs is' oks (omega (arith, pos, len)) in
    (rw sum all, omega (arith, pos, pos'), omega (arith, len, len'))
  where
    sum :
        x + 2 ^ w.position * (v + 2 ^ n * pack fs)
        ≡ x + 2 ^ w.position * v + 2 ^ (write n v w).position * pack fs
    sum = omega (
      arith,
      ap (λ (t : ℕ). 2 ^ t * pack fs) (write-IsWritten n v is ok.0 ok.1 (omega arith)).1,
      ap (λ (t : ℕ). t * pack fs) (pow-add w.position n),
    )

-- The bytes of a buffer as a reader's whole input.
abbrev pub over : (bytes : List ℕ) → All IsByte bytes → Origin
over bytes h = record {
  carry = 0;
  held = 0;
  bytes = bytes;
  carry_fits = omega arith;
  held_fits = omega arith;
  all_bytes = h;
}

-- At the position where the fields were begun, the buffer reads as the fields and something more.
pub from-written :
    (fs : List Field) {w : BitWriter} {x : ℕ}
    → IsWritten w x
    → All IsField fs
    → (w.position + width fs) / 8 + 8 ≤ length w.storage
    → (h : All IsByte (write_all fs w).storage)
    → (rest : ℕ) × (from (over (write_all fs w).storage h) w.position
        ≡ pack fs + 2 ^ width fs * rest)
      × (w.position + width fs ≤ size (over (write_all fs w).storage h))
from-written fs {w} {x} is ok room h = (2 ^ spare * after, seen, omega (arith, all.0.room, all.1))
  where
    all :
        IsWritten (write_all fs w) (x + 2 ^ w.position * pack fs)
        × ((write_all fs w).position ≡ w.position + width fs)
        × (length (write_all fs w).storage ≡ length w.storage)
    all = write_all-IsWritten fs is ok room

    bytes : List ℕ
    bytes = (write_all fs w).storage

    ends : ℕ
    ends = (write_all fs w).position / 8 + 1

    -- bits between the end of the fields and the end of their last byte
    spare : ℕ
    spare = 8 * ends - (w.position + width fs)

    after : ℕ
    after = number (drop ends bytes)

    whole : number bytes ≡ number (take ends bytes) + 2 ^ (8 * ends) * after
    whole =
        ap number (sym (take-append-drop ends bytes))
        ∙ number-append (take ends bytes) (drop ends bytes)
        ∙ ap (λ (n : ℕ). number (take ends bytes) + 2 ^ (8 * n) * after)
            (omega (arith, length-take ends bytes, all.0.room))

    place : 2 ^ (8 * ends) ≡ 2 ^ w.position * (2 ^ width fs * 2 ^ spare)
    place =
        ap (λ (t : ℕ). 2 ^ t)
          (let e : 8 * ends ≡ w.position + (width fs + spare) = omega (arith, all.1) in e)
        ∙ pow-add w.position (width fs + spare)
        ∙ ap (λ (t : ℕ). 2 ^ w.position * t) (pow-add (width fs) spare)

    shape :
        0 + 2 ^ 0 * number bytes
        ≡ x + 2 ^ w.position * (pack fs + 2 ^ width fs * (2 ^ spare * after))
    shape = omega (arith, whole, all.0.holds, ap (λ (t : ℕ). t * after) place)

    seen : from (over bytes h) w.position ≡ pack fs + 2 ^ width fs * (2 ^ spare * after)
    seen =
        ap (λ (t : ℕ). t / 2 ^ w.position) shape
        ∙ (pow-join w.position (pack fs + 2 ^ width fs * (2 ^ spare * after)) x is.fits).0
