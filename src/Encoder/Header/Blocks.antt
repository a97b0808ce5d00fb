-- ===== src/Encoder/Header/Blocks.antt =====
-- The decoder reads the meta-block headers that the encoder writes.
use mbrotli.Common.{ℕ, zero, suc, ◌+◌, ◌-◌, ◌*◌, ◌/◌, ◌%◌, ◌^◌, ◌≤◌, ◌<◌, arith}
use mbrotli.Common.{
  ◌≡◌, refl, sym, ap, ap₂, ◌∙◌, List, [], ◌∷◌, ◌++◌, Bool, true, false, All, ◌⊎◌, inl, inr, length,
}
use mbrotli.Common.Pow.{pow-add}
use mbrotli.Common.Bytes.{IsByte}
use mbrotli.Encoder.Writer.{BitWriter}
use mbrotli.Encoder.Writer.Fields.{IsWritten}
use mbrotli.Encoder.Writer.Sequences.{
  Field, IsField, width, pack, write_all, over, from-written, write_all-IsWritten,
}
use mbrotli.Encoder.Header.{encode_mlen, store_compressed_meta_block_header}
use mbrotli.Encoder.Header.Fields.{
  mlen_fields, compressed_fields, compressed-fields, encode_mlen-cases,
}
use mbrotli.Decoder.Bits.Position.{Origin, from, size}
use mbrotli.Decoder.Bits.Calls.{Runs, Runs-eq, Runs-at}
use mbrotli.Decoder.Header.{MetaBlock, metablock}
use mbrotli.Decoder.Header.Lengths.{Spells, metablock-Spells_last, metablock-Spells_more}

-- A length's field sizes, as `encode_mlen-cases` gives them.
record Sizes (length : ℕ) : Type 0 where
  pub nb : ℕ
  pub few : nb ≤ 2
  pub encoded : encode_mlen length ≡ (nb, (nb + 4) * 4, length - 1)
  pub fits : length - 1 < 2 ^ ((nb + 4) * 4)
  pub least : (nb ≡ 0) ⊎ (2 ^ ((nb + 3) * 4) ≤ length - 1)

sizes : (length : ℕ) → 0 < length → length ≤ 2 ^ 24 → Sizes length
sizes length pos h =
    let (n, f, e, b, l) = encode_mlen-cases length pos h in
    record { nb = n; few = f; encoded = e; fits = b; least = l }

module _ {length : ℕ} (s : Sizes length) where
  last_fields :
      compressed_fields true length
      ≡ (1, 1) ∷ (1, 0) ∷ (2, s.nb) ∷ ((s.nb + 4) * 4, length - 1) ∷ []
  unfolding compressed_fields mlen_fields
  last_fields = rw s.encoded refl

  more_fields :
      compressed_fields false length
      ≡ (1, 0) ∷ (2, s.nb) ∷ ((s.nb + 4) * 4, length - 1) ∷ (1, 0) ∷ []
  unfolding compressed_fields mlen_fields
  more_fields = rw s.encoded refl

  fields-IsField : (last : Bool) → All IsField (compressed_fields last length)
  fields-IsField true = rw last_fields (omega (arith, s.few, s.fits))
  fields-IsField false = rw more_fields (omega (arith, s.few, s.fits))

  width-fields : (last : Bool) → width (compressed_fields last length) ≡ 4 + (s.nb + 4) * 4
  unfolding width
  width-fields true = rw last_fields (omega arith)
  width-fields false = rw more_fields (omega arith)

  last-Spells :
      (rest : ℕ)
      → Spells
          (pack (compressed_fields true length) + 2 ^ (4 + (s.nb + 4) * 4) * rest)
          2
          s.nb
          (length - 1)
          rest
        × ((pack (compressed_fields true length) + 2 ^ (4 + (s.nb + 4) * 4) * rest) % 4 ≡ 1)
  unfolding pack
  last-Spells rest = rw last_fields (
    record {
      few = s.few;
      fits = s.fits;
      least = s.least;
      spelled = omega (arith, s.few, ap (λ (t : ℕ). t * rest) (pow-add 4 ((s.nb + 4) * 4)));
    },
    omega (arith, s.few, ap (λ (t : ℕ). t * rest) (pow-add 4 ((s.nb + 4) * 4))),
  )

  more-Spells :
      (rest : ℕ)
      → Spells
          (pack (compressed_fields false length) + 2 ^ (4 + (s.nb + 4) * 4) * rest)
          1
          s.nb
          (length - 1)
          (2 * rest)
        × ((pack (compressed_fields false length) + 2 ^ (4 + (s.nb + 4) * 4) * rest) % 2 ≡ 0)
  unfolding pack
  more-Spells rest = rw more_fields (
    record {
      few = s.few;
      fits = s.fits;
      least = s.least;
      spelled = omega (arith, s.few, ap (λ (t : ℕ). t * rest) (pow-add 4 ((s.nb + 4) * 4)));
    },
    omega (arith, s.few, ap (λ (t : ℕ). t * rest) (pow-add 4 ((s.nb + 4) * 4))),
  )

-- Any origin whose next bits are a header's fields reads as that header.
metablock-fields :
    (last : Bool) {length : ℕ} (s : Sizes length) (o : Origin) {d : ℕ} (rest : ℕ)
    → 0 < length
    → from o d ≡ pack (compressed_fields last length) + 2 ^ (4 + (s.nb + 4) * 4) * rest
    → d + (4 + (s.nb + 4) * 4) ≤ size o
    → Runs o d 0 metablock (MetaBlock.compressed length last) (d + (4 + (s.nb + 4) * 4)) 0
metablock-fields true {length} s o rest pos e room =
    let p = last-Spells s rest in
    Runs-eq o (ap (λ (t : ℕ). MetaBlock.compressed t true) (omega arith)) (
      metablock-Spells_last o {nb = s.nb} {l = length - 1} {tail = rest} 0
        (ap (λ (t : ℕ). t % 4) e ∙ p.1) (rw e p.0) room)
metablock-fields false {length} s o rest pos e room =
    let p = more-Spells s rest in
    Runs-eq o (ap (λ (t : ℕ). MetaBlock.compressed t false) (omega arith)) (
      metablock-Spells_more o {nb = s.nb} {l = length - 1} {tail = 2 * rest} 0
        (ap (λ (t : ℕ). t % 2) e ∙ p.1) (rw e p.0) (omega arith) room)

-- For a writer with eight bytes of room past the header, the decoder's `metablock` reads a
-- compressed meta-block's header, last or not, back as the length and the flag that were
-- written, for every length from 1 to 2^24, and stops where the writer stopped.
pub metablock-store_compressed :
    (last : Bool) (length : ℕ) {w : BitWriter} {x : ℕ}
    → IsWritten w x
    → 0 < length
    → length ≤ 2 ^ 24
    → (w.position + 28) / 8 + 8 ≤ mbrotli.Common.length w.storage
    → (h : All IsByte (store_compressed_meta_block_header last length w).storage)
    → Runs
        (over (store_compressed_meta_block_header last length w).storage h)
        w.position
        0
        metablock
        (MetaBlock.compressed length last)
        (store_compressed_meta_block_header last length w).position
        0
metablock-store_compressed last length {w} {x} is pos top room =
    rw (compressed-fields last length w) read_back
  where
    s : Sizes length
    s = sizes length pos top

    fs : List Field
    fs = compressed_fields last length

    space : (w.position + width fs) / 8 + 8 ≤ mbrotli.Common.length w.storage
    space = omega (arith, width-fields s last, s.few)

    read_back :
        (h : All IsByte (write_all fs w).storage)
        → Runs
            (over (write_all fs w).storage h)
            w.position
            0
            metablock
            (MetaBlock.compressed length last)
            (write_all fs w).position
            0
    read_back h =
        let (rest, seen, inside) = from-written fs is (fields-IsField s last) space h in
        Runs-at _
          (omega
            (arith, width-fields s last, write_all-IsWritten fs is (fields-IsField s last) space))
          (metablock-fields last s _ rest pos
            (seen ∙ ap (λ (t : ℕ). pack fs + 2 ^ t * rest) (width-fields s last))
            (omega (arith, inside, width-fields s last)))
