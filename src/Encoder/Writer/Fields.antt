-- ===== src/Encoder/Writer/Fields.antt =====
-- What the bit writer leaves in its buffer: the fields written so far as one number, each above
-- those before it.
use mbrotli.Common.{ℕ, zero, suc, ◌+◌, ◌*◌, ◌/◌, ◌%◌, ◌^◌, ◌≤◌, ◌<◌, max, arith, bit_or}
use mbrotli.Common.{◌≡◌, refl, sym, ap, ap₂, ◌∙◌, List, [], ◌∷◌, ◌++◌, false}
use mbrotli.Common.{
  length, take, drop, get_or, All, ge→ltb, length-append, length-take, length-drop, take-append,
  take-append_le,
}
use mbrotli.Common.Pow.{pow-add, pow-le, pow-join, mod-pow-eq_of_lt, digits-lt}
use mbrotli.Common.Pow.{mod-mod-pow}
use native.Mathlib.Nat.{lt_of_mul-lt-mul_left, mul_comm, le_trans}
use mbrotli.Common.BitOps.{bit_or_overlap}
use mbrotli.Common.Bytes.{
  IsByte, number, to_le_bytes, number-append, number-to_le_bytes, length-to_le_bytes,
}
use mbrotli.Common.Bytes.{number-take, All-take, All-drop, All-append, All-to_le_bytes, byte_power}
use mbrotli.Encoder.Writer.{BitWriter, write, overwrite}

-- `w` has written the number `x`: the bytes up to its position hold it, and nothing above it.
pub record IsWritten (w : BitWriter) (x : ℕ) : Type 0 where
  pub fits : x < 2 ^ w.position
  pub holds : number (take (w.position / 8 + 1) w.storage) ≡ x
  pub room : w.position / 8 + 1 ≤ length w.storage
  pub all_bytes : All IsByte w.storage
  pub sound : w.overflowed ≡ false

-- The byte at an index is what a longer prefix adds.
number-take-suc :
    (n : ℕ) (xs : List ℕ)
    → n < length xs
    → number (take (n + 1) xs) ≡ number (take n xs) + 2 ^ (8 * n) * get_or xs n 0
unfolding number
number-take-suc n [] h = elim h [ ]
number-take-suc zero (x ∷ xs) h = omega arith
number-take-suc (suc n) (x ∷ xs) h = omega (
  arith,
  number-take-suc n xs (omega arith),
  ap (λ (t : ℕ). t * get_or xs n 0) (byte_power n),
  ap (λ (k : ℕ). number (take k (x ∷ xs))) (let e : suc n + 1 ≡ suc (n + 1) = omega arith in e),
)

-- The byte at the position, and the whole bytes below it, are the two digits of the number.
position_digits :
    {w : BitWriter} {x : ℕ}
    → IsWritten w x
    → (x
        ≡ number (take (w.position / 8) w.storage)
          + 2 ^ (8 * (w.position / 8)) * get_or w.storage (w.position / 8) 0)
      × (get_or w.storage (w.position / 8) 0 < 2 ^ (w.position % 8))
position_digits {w} {x} is = (digits, lt_of_mul-lt-mul_left (2 ^ (8 * (w.position / 8))) below)
  where
    digits :
        x
        ≡ number (take (w.position / 8) w.storage)
          + 2 ^ (8 * (w.position / 8)) * get_or w.storage (w.position / 8) 0
    digits = sym is.holds ∙ number-take-suc (w.position / 8) w.storage (omega (arith, is.room))

    split : 2 ^ w.position ≡ 2 ^ (8 * (w.position / 8)) * 2 ^ (w.position % 8)
    split =
        ap (λ (t : ℕ). 2 ^ t)
          (let e : w.position ≡ 8 * (w.position / 8) + w.position % 8 = omega arith in e)
        ∙ pow-add (8 * (w.position / 8)) (w.position % 8)

    below :
        2 ^ (8 * (w.position / 8)) * get_or w.storage (w.position / 8) 0
        < 2 ^ (8 * (w.position / 8)) * 2 ^ (w.position % 8)
    below = omega (arith, digits, is.fits, split)

-- A field laid over a byte that is clear from bit `r` on.
laid_over :
    (b r n v : ℕ)
    → b < 2 ^ r
    → r ≤ 7
    → n ≤ 56
    → v < 2 ^ n
    → bit_or b (v * 2 ^ r % 2 ^ 64) ≡ b + 2 ^ r * v
laid_over b r n v hb hr hn hv =
    let j = pow-join r v b hb in
    ap₂ bit_or (sym j.1) (
      uncut
      ∙ ap (λ (t : ℕ). 2 ^ r * t)
          (sym (mod-pow-eq_of_lt v 64 (omega (arith, hv, pow-le {a = n} {b = 64} (omega arith))))
            ∙ ap (λ (t : ℕ). t % 2 ^ 64) (sym j.0)))
    ∙ bit_or_overlap r r 64 (b + 2 ^ r * v) (omega arith)
    ∙ mod-pow-eq_of_lt (b + 2 ^ r * v) (max r (r + 64))
        (omega (arith, whole, pow-le {a = r + n} {b = max r (r + 64)} (omega arith)))
  where
    whole : b + 2 ^ r * v < 2 ^ (r + n)
    whole = rw (pow-add r n) (digits-lt (2 ^ r) (2 ^ n) b v hb hv)

    uncut : v * 2 ^ r % 2 ^ 64 ≡ 2 ^ r * v
    uncut =
        mod-pow-eq_of_lt (v * 2 ^ r) 64
          (omega (arith, whole, pow-le {a = r + n} {b = 64} (omega arith)))
        ∙ mul_comm v (2 ^ r)

-- The prefix of an overwritten buffer that ends inside the new bytes.
take-overwrite :
    (storage bytes : List ℕ) (start k : ℕ)
    → start ≤ length storage
    → k ≤ length bytes
    → take (start + k) (overwrite storage start bytes) ≡ take start storage ++ take k bytes
unfolding overwrite
take-overwrite storage bytes start k hs hk =
    ap (λ (n : ℕ). take (n + k) whole) (omega (arith, length-take start storage))
    ∙ take-append k (take start storage) (bytes ++ drop (start + length bytes) storage)
    ∙ ap (λ (ys : List ℕ). take start storage ++ ys)
        (take-append_le k bytes (drop (start + length bytes) storage) hk)
  where
    whole : List ℕ
    whole = take start storage ++ (bytes ++ drop (start + length bytes) storage)

pub length-overwrite :
    (storage bytes : List ℕ) (start : ℕ)
    → start + length bytes ≤ length storage
    → length (overwrite storage start bytes) ≡ length storage
unfolding overwrite
length-overwrite storage bytes start h = omega (
  arith,
  length-append (take start storage) (bytes ++ drop (start + length bytes) storage),
  length-append bytes (drop (start + length bytes) storage),
  length-take start storage,
  length-drop (start + length bytes) storage,
)

pub All-overwrite :
    (storage bytes : List ℕ) (start : ℕ)
    → All IsByte storage
    → All IsByte bytes
    → All IsByte (overwrite storage start bytes)
unfolding overwrite
All-overwrite storage bytes start hs hb =
    All-append (take start storage) _ (All-take start storage hs)
      (All-append bytes _ hb (All-drop (start + length bytes) storage hs))

-- The number in a prefix that ends `k` bytes into an overwritten word.
number-overwrite :
    (storage : List ℕ) (start k value : ℕ)
    → All IsByte storage
    → start ≤ length storage
    → k ≤ 8
    → value < 2 ^ (8 * k)
    → number (take (start + k) (overwrite storage start (to_le_bytes 8 value)))
      ≡ number (take start storage) + 2 ^ (8 * start) * value
number-overwrite storage start k value all hs hk hv =
    ap number (
      take-overwrite storage (to_le_bytes 8 value) start k hs
        (omega (arith, length-to_le_bytes 8 value)))
    ∙ number-append (take start storage) (take k (to_le_bytes 8 value))
    ∙ ap₂ (λ (n m : ℕ). number (take start storage) + 2 ^ (8 * n) * m)
        (omega (arith, length-take start storage))
        (number-take k (to_le_bytes 8 value) (All-to_le_bytes 8 value)
          ∙ ap (λ (t : ℕ). t % 2 ^ (8 * k)) (number-to_le_bytes 8 value)
          ∙ mod-mod-pow value (8 * k) 64 (omega arith)
          ∙ mod-pow-eq_of_lt value (8 * k) hv)

-- For a writer that has written the number `x`, and a field of at most 56 bits that fits its
-- width, with eight bytes of room: `write` moves the position by the width, puts the field above
-- `x`, keeps the buffer a sequence of bytes of the same length, and does not overflow.
pub write-IsWritten :
    {w : BitWriter} {x : ℕ} (n v : ℕ)
    → IsWritten w x
    → n ≤ 56
    → v < 2 ^ n
    → w.position / 8 + 8 ≤ length w.storage
    → IsWritten (write n v w) (x + 2 ^ w.position * v)
      × ((write n v w).position ≡ w.position + n)
      × (length (write n v w).storage ≡ length w.storage)
unfolding write
write-IsWritten {w} {x} n v is hn hv room =
    rw (ge→ltb (length w.storage) (w.position / 8 + 8) room) (
      record {
        fits = total_fits;
        holds =
            ap (λ (k : ℕ). number (take k new_storage)) ends
            ∙ number-overwrite w.storage start bytes value is.all_bytes (omega arith) (omega arith)
                value_fits
            ∙ total;
        room = omega (arith, same_length);
        all_bytes =
            All-overwrite w.storage (to_le_bytes 8 value) start is.all_bytes
              (All-to_le_bytes 8 value);
        sound = is.sound;
      },
      refl,
      same_length,
    )
  where
    start : ℕ
    start = w.position / 8

    shift : ℕ
    shift = w.position % 8

    first : ℕ
    first = get_or w.storage start 0

    value : ℕ
    value = bit_or first (v * 2 ^ shift % 2 ^ 64)

    -- how many bytes of the word lie below the new position, its own included
    bytes : ℕ
    bytes = (shift + n) / 8 + 1

    new_storage : List ℕ
    new_storage = overwrite w.storage start (to_le_bytes 8 value)

    ends : (w.position + n) / 8 + 1 ≡ start + bytes
    ends = omega arith

    laid : value ≡ first + 2 ^ shift * v
    laid = laid_over first shift n v (position_digits is).1 (omega arith) hn hv

    value_fits : value < 2 ^ (8 * bytes)
    value_fits = rw laid (
        le_trans (digits-lt (2 ^ shift) (2 ^ n) first v (position_digits is).1 hv)
          (rw (← pow-add shift n) (pow-le {a = shift + n} {b = 8 * bytes} (omega arith))))

    place : 2 ^ w.position ≡ 2 ^ (8 * start) * 2 ^ shift
    place =
        ap (λ (t : ℕ). 2 ^ t) (let e : w.position ≡ 8 * start + shift = omega arith in e)
        ∙ pow-add (8 * start) shift

    total : number (take start w.storage) + 2 ^ (8 * start) * value ≡ x + 2 ^ w.position * v
    total = omega (
      arith,
      (position_digits is).0,
      ap (λ (t : ℕ). 2 ^ (8 * start) * t) laid,
      ap (λ (t : ℕ). t * v) place,
    )

    total_fits : x + 2 ^ w.position * v < 2 ^ (w.position + n)
    total_fits = rw (pow-add w.position n) (digits-lt (2 ^ w.position) (2 ^ n) x v is.fits hv)

    same_length : length new_storage ≡ length w.storage
    same_length =
        length-overwrite w.storage (to_le_bytes 8 value) start
          (omega (arith, length-to_le_bytes 8 value))
