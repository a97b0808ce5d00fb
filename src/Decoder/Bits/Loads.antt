-- ===== src/Decoder/Bits/Loads.antt =====
-- Loading bytes one at a time: the position stays, and a field is shown as soon as it is there.
use mbrotli.Common.{ℕ, zero, suc, ◌+◌, ◌-◌, ◌*◌, ◌/◌, ◌%◌, ◌^◌, ◌≤◌, ◌<◌, max, arith}
use mbrotli.Common.{◌≡◌, refl, ap, ap₂, ◌∙◌, List, [], ◌∷◌, Option, none, some, Bool, true, false}
use mbrotli.Common.{length, drop, get_elem?, All, Bool-cases, inl, inr, ltb, bit_or}
use mbrotli.Common.Pow.{pow-pos, pow-add, mod-mod-pow, mod-pow-eq_of_lt, pow-le}
use mbrotli.Common.BitOps.{bit_or_overlap, bit_and_mask}
use native.Mathlib.Nat.{mul-lt-mul_of_pos_right}
use native.Mathlib.Decide.{dec_lt}
use mbrotli.Common.Pow.{mod-div-pow, div-div-pow}
use mbrotli.Decoder.Errors.{Poll, ready, pending}
use mbrotli.Decoder.Bits.{
  Cursor, M, accept, load_byte, within_limit, low, peek_loop, peek, drop_bits,
}
use mbrotli.Common.Bytes.{IsByte, number}
use mbrotli.Decoder.Bits.Position.{Origin, text, size, from, Fits, IsAt, IsAt-weaken, from_buffered}

head-drop :
    (xs : List ℕ) (i : ℕ) {b : ℕ}
    → All IsByte xs
    → get_elem? xs i ≡ some b
    → (b < 256) × (number (drop i xs) % 256 ≡ b) × (i < length xs)
unfolding number
head-drop [] i h e = cc
head-drop (x ∷ xs) zero (hx, hs) e = ground arith
head-drop (x ∷ xs) (suc i) (hx, hs) e =
    let t = head-drop xs i hs e in (t.0, t.1, omega (arith, t.2))

elem_exists : (xs : List ℕ) (i : ℕ) → i < length xs → (b : ℕ) × (get_elem? xs i ≡ some b)
elem_exists [] i h = elim h [ ]
elem_exists (x ∷ xs) zero h = (x, refl)
elem_exists (x ∷ xs) (suc i) h = elem_exists xs i (omega arith)

elem_absent : (xs : List ℕ) (i : ℕ) → length xs ≤ i → get_elem? xs i ≡ none
elem_absent [] i h = refl
elem_absent (x ∷ xs) zero h = elim h [ ]
elem_absent (x ∷ xs) (suc i) h = elem_absent xs i (omega arith)

-- A shifted byte that fits the word is not cut.
shifted_byte : (b k : ℕ) → b < 256 → k ≤ 56 → b * 2 ^ k % 2 ^ 64 ≡ 2 ^ k * (b % 2 ^ 8)
shifted_byte b k hb hk =
    mod-pow-eq_of_lt (b * 2 ^ k) 64 (omega (arith, room))
    ∙ omega (arith, ap (λ (t : ℕ). 2 ^ k * t) (mod-pow-eq_of_lt b 8 hb))
  where
    room : b * 2 ^ k < 2 ^ 64
    room = omega (
      arith,
      mul-lt-mul_of_pos_right hb (pow-pos k),
      pow-add 8 k,
      pow-le {a = 8 + k} {b = 64} (omega arith),
    )

-- Accepting the next byte keeps the position.
pub accept-IsAt :
    {o : Origin} {d b : ℕ} {c : Cursor} (byte : ℕ)
    → IsAt o d b c
    → get_elem? c.input.bytes c.input.consumed ≡ some byte
    → c.bits.count ≤ 56
    → IsAt o d (c.bits.count + 8) (accept byte c)
unfolding accept
accept-IsAt {o} {d} {b} {c} byte at e h = record {
  same_bytes = at.same_bytes;
  placed = omega (arith, at.placed);
  inside =
      omega
        (arith, (head-drop c.input.bytes c.input.consumed bytes_ok e).2, ap length at.same_bytes);
  buffered = omega arith;
  extent = max at.extent (c.bits.count + 8);
  counted = omega arith;
  narrow = omega arith;
  shown =
      ap₂ bit_or at.shown (shifted ∙ ap (λ (t : ℕ). 2 ^ c.bits.count * t) next_byte)
      ∙ bit_or_overlap c.bits.count at.extent 8 (from o d) at.counted;
  total_fits = at.total_fits;
  limit_fits = at.limit_fits;
}
  where
    bytes_ok : All IsByte c.input.bytes
    bytes_ok = rw at.same_bytes o.all_bytes

    shifted : byte * 2 ^ c.bits.count % 2 ^ 64 ≡ 2 ^ c.bits.count * (byte % 2 ^ 8)
    shifted = shifted_byte byte c.bits.count (head-drop _ _ bytes_ok e).0 h

    next_byte : byte % 2 ^ 8 ≡ from o d / 2 ^ c.bits.count % 2 ^ 8
    next_byte = rw (from_buffered at) (omega (arith, head-drop _ _ bytes_ok e))

within_limit-Fits :
    (l : Option ℕ) (next total : ℕ) (go : M Bool) (c : Cursor)
    → Fits l total
    → next ≤ total
    → within_limit l next go c ≡ go c
unfolding within_limit
within_limit-Fits none next total go c f h = refl
within_limit-Fits (some limit) next total go c f h = ground arith

pub load_byte_more :
    {o : Origin} {d b : ℕ} {c : Cursor}
    → IsAt o d b c
    → c.input.consumed < length o.bytes
    → (byte : ℕ) × (get_elem? c.input.bytes c.input.consumed ≡ some byte)
      × (load_byte c ≡ (ready true, accept byte c))
unfolding load_byte
load_byte_more {o} {d} {b} {c} at h =
    let (byte, e) =
      elem_exists c.input.bytes c.input.consumed (omega (arith, ap length at.same_bytes)) in
    (
      byte,
      e,
      ground (
        arith,
        e,
        within_limit-Fits c.input.limit (c.input.total_before + c.input.consumed + 1)
            (c.input.total_before + length o.bytes) (λ c. (ready true, accept byte c)) c
            at.limit_fits (omega arith),
      ),
    )

pub load_byte_end :
    {o : Origin} {d b : ℕ} {c : Cursor}
    → IsAt o d b c
    → c.input.consumed ≡ length o.bytes
    → load_byte c ≡ (ready false, c)
unfolding load_byte
load_byte_end {o} {d} {b} {c} at h =
    ground
      (arith, elem_absent c.input.bytes c.input.consumed (omega (arith, ap length at.same_bytes)))

-- The low bits of the reservoir are the field at the position.
pub low_shown :
    {o : Origin} {d b : ℕ} {c : Cursor} (k : ℕ)
    → IsAt o d b c
    → k ≤ c.bits.count
    → low k c ≡ (ready (from o d % 2 ^ k), c)
unfolding low
low_shown {o} {d} {b} {c} k at h =
    ap (λ (v : ℕ). (ready v, c))
      (bit_and_mask k c.bits.value
        ∙ ap (λ (t : ℕ). t % 2 ^ k) at.shown
        ∙ mod-mod-pow (from o d) k at.extent (omega arith))

-- What a peek of `k` bits promises of its result: the field, the same position, and no byte
-- accepted beyond the field.
pub record Peeked (o : Origin) (d k : ℕ) (c : Cursor) (out : Poll ℕ × Cursor) : Type 0 where
  pub field : out.0 ≡ ready (from o d % 2 ^ k)
  pub stays : IsAt o d k out.1
  pub exact : out.1.bits.count ≤ max c.bits.count (k + 7)

low-Peeked :
    {o : Origin} {d b : ℕ} {c : Cursor} (k : ℕ)
    → IsAt o d b c
    → k ≤ c.bits.count
    → Peeked o d k c (low k c)
low-Peeked {c = c} k at h =
    rw (low_shown k at h) (record { field = refl; stays = IsAt-weaken k h at; exact = omega arith })

peek_loop-Peeked :
    {o : Origin} {d : ℕ} (fuel k : ℕ) {b : ℕ} (c : Cursor)
    → IsAt o d b c
    → k ≤ 56
    → k ≤ c.bits.count + 8 * fuel
    → d + k ≤ size o
    → Peeked o d k c (peek_loop fuel k c)
unfolding peek_loop
peek_loop-Peeked zero k c at hk enough room = low-Peeked k at (omega arith)
peek_loop-Peeked {o} {d} (suc fuel) k c at hk enough room = elim (Bool-cases (ltb c.bits.count k)) [
  | inl short ↦
      let lt : c.bits.count < k = ground arith in
      let (byte, e, step) = load_byte_more at (omega arith) in
      rw (short, step)
        (earlier byte lt (
          peek_loop-Peeked fuel k (accept byte c) (accept-IsAt byte at e (omega arith)) hk
            (unfold accept in omega arith) room))
  | inr full ↦ rw full (low-Peeked k at (ground arith))
]
  where
    earlier :
        (byte : ℕ) {out : Poll ℕ × Cursor}
        → c.bits.count < k
        → Peeked o d k (accept byte c) out
        → Peeked o d k c out
    earlier byte h p = record {
      field = p.field;
      stays = p.stays;
      exact = unfold accept in omega (arith, p.exact);
    }

-- For a cursor at a position and a width of at most 56 bits that the input still has there, `peek`
-- returns the bits at the position, keeps the position with those bits buffered, and buffers no
-- more than it had before or seven bits beyond the field: it accepts no byte past the field.
pub peek-Peeked :
    {o : Origin} {d b : ℕ} (k : ℕ) (c : Cursor)
    → IsAt o d b c
    → k ≤ 56
    → d + k ≤ size o
    → Peeked o d k c (peek k c)
unfolding peek
peek-Peeked k c at hk room = peek_loop-Peeked k k c at hk (omega arith) room

-- A reader that waits for input has accepted all there is, and stays at its position.
pub record Waited (o : Origin) (d : ℕ) {A : Type 0} (out : Poll A × Cursor) : Type 0 where
  pub waits : out.0 ≡ pending
  pub stays : IsAt o d 0 out.1
  pub used : out.1.input.consumed ≡ length o.bytes

peek_loop-Waited :
    {o : Origin} {d : ℕ} (fuel k : ℕ) {b : ℕ} (c : Cursor)
    → IsAt o d b c
    → k ≤ 56
    → k ≤ c.bits.count + 8 * fuel
    → size o < d + k
    → Waited o d (peek_loop fuel k c)
unfolding peek_loop
peek_loop-Waited zero k c at hk enough room = absurd (omega arith)
peek_loop-Waited {o} {d} (suc fuel) k c at hk enough room =
    elim (dec_lt c.input.consumed (length o.bytes)) [
      | yes more ↦
          let (byte, e, step) = load_byte_more at more in
          rw (short, step)
            (peek_loop-Waited fuel k (accept byte c) (accept-IsAt byte at e (omega arith)) hk
              (unfold accept in omega arith) room)
      | no over ↦
          rw (short, load_byte_end at (omega arith))
            (record { waits = refl; stays = IsAt-weaken 0 (omega arith) at; used = omega arith })
    ]
  where
    short : ltb c.bits.count k ≡ true
    short = ground arith

-- For a cursor at a position, whose input limit and `u64` total admit all the input, and a width of
-- at most 56 bits that runs past the end of the input, `peek` waits without an error, keeps the position, and has accepted all the input.
pub peek-Waited :
    {o : Origin} {d b : ℕ} (k : ℕ) (c : Cursor)
    → IsAt o d b c
    → k ≤ 56
    → size o < d + k
    → Waited o d (peek k c)
unfolding peek
peek-Waited k c at hk room = peek_loop-Waited k k c at hk (omega arith) room

-- Dropping buffered bits moves the position by them.
pub drop_bits-IsAt :
    {o : Origin} {d b : ℕ} {c : Cursor} (k : ℕ)
    → IsAt o d b c
    → k ≤ b
    → ((drop_bits k c).0 ≡ ready tt) × IsAt o (d + k) (b - k) (drop_bits k c).1
unfolding drop_bits
drop_bits-IsAt {o} {d} {b} {c} k at h = (
  refl,
  record {
    same_bytes = at.same_bytes;
    placed = omega (arith, at.placed);
    inside = at.inside;
    buffered = omega (arith, at.buffered);
    extent = at.extent - k;
    counted = omega (arith, at.counted);
    narrow = omega (arith, at.narrow);
    shown =
        ap (λ (t : ℕ). t / 2 ^ k) at.shown
        ∙ mod-div-pow (from o d) k at.extent (omega (arith, at.counted, at.buffered))
        ∙ ap (λ (t : ℕ). t % 2 ^ (at.extent - k)) (div-div-pow (text o) d k);
    total_fits = at.total_fits;
    limit_fits = at.limit_fits;
  },
)
