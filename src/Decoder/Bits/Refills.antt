-- ===== src/Decoder/Bits/Refills.antt =====
-- Loading eight bytes at a time, and giving buffered bytes back: the position stays.
use mbrotli.Common.{ℕ, zero, suc, ◌+◌, ◌-◌, ◌*◌, ◌/◌, ◌%◌, ◌^◌, ◌≤◌, ◌<◌, min, max, arith}
use mbrotli.Common.{◌≡◌, refl, sym, ap, ap₂, ◌∙◌, List, [], ◌∷◌, Bool, true, false}
use mbrotli.Common.{
  length, take, drop, All, Bool-cases, inl, inr, ltb, lt→ltb, ge→ltb, bit_or, length-take,
  length-drop, drop-drop,
}
use mbrotli.Common.{◌⊎◌}
use mbrotli.Common.Pow.{pow-pos, pow-add, mod-mod-pow, mod-mul}
use mbrotli.Common.BitOps.{bit_or_overlap, bit_and_mask}
use native.Mathlib.Decide.{dec_lt}
use native.Mathlib.Nat.{mul-div_cancel, mul-mod_left}
use mbrotli.Decoder.Errors.{Poll, ready}
use mbrotli.Decoder.Bits.{Bits, Cursor, or_word, refill_from, refill, refill_rest, settle, unread}
use mbrotli.Common.Bytes.{IsByte, number, number-take, All-drop}
use mbrotli.Decoder.Bits.Position.{Origin, from, IsAt, from_buffered}

take_past : (n i k : ℕ) (xs : List ℕ) → i + k ≤ n → take k (drop i (take n xs)) ≡ take k (drop i xs)
take_past n zero zero xs h = refl
take_past zero zero (suc k) xs h = absurd (omega arith)
take_past (suc n) zero (suc k) [] h = refl
take_past (suc n) zero (suc k) (x ∷ xs) h =
    ap (λ (ys : List ℕ). x ∷ ys) (take_past n zero k xs (omega arith))
take_past zero (suc i) k xs h = absurd (omega arith)
take_past (suc n) (suc i) k [] h = refl
take_past (suc n) (suc i) k (x ∷ xs) h = take_past n i k xs (omega arith)

-- A shifted word loses the bits that leave the register, and no others.
shifted_word : (y k : ℕ) → k ≤ 64 → y % 2 ^ 64 * 2 ^ k % 2 ^ 64 ≡ 2 ^ k * (y % 2 ^ (64 - k))
shifted_word y k h =
    ap (λ (t : ℕ). y % 2 ^ 64 * 2 ^ k % t) split
    ∙ mod-mul (y % 2 ^ 64 * 2 ^ k) (2 ^ k) (2 ^ (64 - k)) (pow-pos k) (pow-pos (64 - k))
    ∙ omega (
      arith,
      mul-mod_left (y % 2 ^ 64) (2 ^ k),
      ap (λ (t : ℕ). 2 ^ k * (t % 2 ^ (64 - k))) (mul-div_cancel (y % 2 ^ 64) (pow-pos k)),
      ap (λ (t : ℕ). 2 ^ k * t) (mod-mod-pow y (64 - k) 64 (omega arith)),
    )
  where
    split : 2 ^ 64 ≡ 2 ^ k * 2 ^ (64 - k)
    split =
        ap (λ (t : ℕ). 2 ^ t) (let e : 64 ≡ k + (64 - k) = omega arith in e) ∙ pow-add k (64 - k)

-- The word operation shows 64 bits of the string.
or_word-shown :
    (x m : ℕ) (b : Bits) (chunk : List ℕ)
    → b.value ≡ x % 2 ^ m
    → b.count ≤ m
    → m ≤ 64
    → number chunk ≡ x / 2 ^ b.count % 2 ^ 64
    → (or_word b chunk).value ≡ x % 2 ^ 64
unfolding or_word
or_word-shown x m b chunk hv hc hm hn =
    ap₂ bit_or hv (
      ap (λ (t : ℕ). t * 2 ^ b.count % 2 ^ 64) hn
      ∙ shifted_word (x / 2 ^ b.count) b.count (omega arith))
    ∙ bit_or_overlap b.count m (64 - b.count) x hc
    ∙ ap (λ (t : ℕ). x % 2 ^ t) (let e : max m (b.count + (64 - b.count)) ≡ 64 = omega arith in e)

-- What a refill promises: the same position; 56 bits where it answers `true`, and nothing changed
-- where it answers `false`.
pub record Refilled (o : Origin) (d b : ℕ) (c : Cursor) (out : Poll Bool × Cursor) : Type 0 where
  pub stays : IsAt o d b out.1
  pub filled : out.0 ≡ ready true → 56 ≤ out.1.bits.count
  pub answers : (out.0 ≡ ready true) ⊎ ((out.0 ≡ ready false) × (out.1 ≡ c))

-- The whole bytes that fit go in, and eight bytes are there to take them from.
accept_word :
    {o : Origin} {d b : ℕ} (c : Cursor)
    → IsAt o d b c
    → c.bits.count ≤ 63
    → c.input.consumed + 8 ≤ length o.bytes
    → IsAt o d b (record {
      bits = or_word c.bits (take 8 (drop c.input.consumed c.input.bytes));
      input = record c.input { consumed = c.input.consumed + (63 - c.bits.count) / 8 };
    })
accept_word {o} {d} {b} c at hc room = record {
  same_bytes = at.same_bytes;
  placed = unfold or_word in omega (arith, at.placed);
  inside = omega arith;
  buffered = unfold or_word in omega (arith, at.buffered);
  extent = 64;
  counted = unfold or_word in omega arith;
  narrow = omega arith;
  shown = or_word-shown (from o d) at.extent c.bits _ at.shown at.counted at.narrow chunk;
  total_fits = at.total_fits;
  limit_fits = at.limit_fits;
}
  where
    bytes_ok : All IsByte (drop c.input.consumed c.input.bytes)
    bytes_ok = All-drop c.input.consumed c.input.bytes (rw at.same_bytes o.all_bytes)

    chunk :
        number (take 8 (drop c.input.consumed c.input.bytes)) ≡ from o d / 2 ^ c.bits.count % 2 ^ 64
    chunk = number-take 8 _ bytes_ok ∙ ap (λ (t : ℕ). t % 2 ^ 64) (sym (from_buffered at))

module _ (c : Cursor) where
  fast_rest : List ℕ
  fast_rest = drop c.input.consumed (take c.input.fast_end c.input.bytes)

  refill_short : length fast_rest < 8 → refill c ≡ (ready (ltb 56 c.bits.count), c)
  unfolding refill fast_rest
  refill_short h = ground arith

  refill_long :
      8 ≤ length fast_rest
      → refill c ≡ (
        ready true,
        record {
          bits = or_word c.bits (take 8 fast_rest);
          input = record c.input { consumed = c.input.consumed + (63 - c.bits.count) / 8 };
        },
      )
  unfolding refill fast_rest
  refill_long h = ground arith

  -- Eight acceptable bytes are the next eight bytes of the input.
  fast_word :
      8 ≤ length fast_rest
      → (c.input.consumed + 8 ≤ c.input.fast_end)
        × (take 8 fast_rest ≡ take 8 (drop c.input.consumed c.input.bytes))
  unfolding fast_rest
  fast_word h = (room, take_past c.input.fast_end c.input.consumed 8 c.input.bytes room)
    where
      room : c.input.consumed + 8 ≤ c.input.fast_end
      room = omega (
        arith,
        length-drop c.input.consumed (take c.input.fast_end c.input.bytes),
        length-take c.input.fast_end c.input.bytes,
      )

-- For a cursor at a position with at most 63 bits buffered, `refill` keeps the position; it
-- answers `true` only with 56 bits buffered, and where it answers `false` nothing is changed.
pub refill-Refilled :
    {o : Origin} {d b : ℕ} (c : Cursor)
    → IsAt o d b c
    → c.bits.count ≤ 63
    → c.input.fast_end ≤ length o.bytes
    → Refilled o d b c (refill c)
refill-Refilled {o} {d} {b} c at hc hf = elim (dec_lt (length (fast_rest c)) 8) [
  | yes short ↦ rw (refill_short c short) (record {
    stays = at;
    filled = λ e. ground arith;
    answers = elim (Bool-cases (ltb 56 c.bits.count)) [
      | inl t ↦ inl (ap ready t)
      | inr f ↦ inr (ap ready f, refl)
    ];
  })
  | no enough ↦
      let w = fast_word c (omega arith) in
      rw (refill_long c (omega arith), w.1)
        (record {
          stays = accept_word c at hc (omega (arith, w.0));
          filled = λ e. unfold or_word in omega arith;
          answers = inl refl;
        })
]

-- On every reservoir, `refill_rest` on the unread slice gives the same answer, the same
-- reservoir and the same unread bytes as `refill_from` at the position in the whole slice.
pub refill_rest-refill_from :
    (b : Bits) (fast : List ℕ) (consumed : ℕ)
    → let (done, b', consumed') = refill_from b fast consumed in
      refill_rest b (drop consumed fast) ≡ (done, b', drop consumed' fast)
unfolding refill_rest refill_from
refill_rest-refill_from b fast consumed = ground (
  arith,
  drop-drop (min ((63 - b.count) / 8) 8) consumed fast,
  ap (λ (k : ℕ). drop (consumed + k) fast) (at_most_seven b.count),
)
  where
    at_most_seven : (k : ℕ) → min ((63 - k) / 8) 8 ≡ (63 - k) / 8
    at_most_seven k = omega arith

-- For a cursor at a position, `settle` keeps the position, and the reservoir then holds the
-- buffered bits of the input and no others.
pub settle-IsAt :
    {o : Origin} {d b : ℕ} (c : Cursor)
    → IsAt o d b c
    → IsAt o d b (settle c) × ((settle c).bits.value ≡ from o d % 2 ^ c.bits.count)
unfolding settle
settle-IsAt {o} {d} c at = (
  record {
    same_bytes = at.same_bytes;
    placed = at.placed;
    inside = at.inside;
    buffered = at.buffered;
    extent = c.bits.count;
    counted = omega arith;
    narrow = omega (arith, at.counted, at.narrow);
    shown = masked;
    total_fits = at.total_fits;
    limit_fits = at.limit_fits;
  },
  masked,
)
  where
    masked : (settle c).bits.value ≡ from o d % 2 ^ c.bits.count
    masked =
        bit_and_mask c.bits.count c.bits.value
        ∙ ap (λ (t : ℕ). t % 2 ^ c.bits.count) at.shown
        ∙ mod-mod-pow (from o d) c.bits.count at.extent at.counted

-- For a cursor at a position, `unread` keeps the position; it leaves less than a byte buffered
-- or has given back all that this call accepted, and accepts nothing more.
pub unread-IsAt :
    {o : Origin} {d b : ℕ} (c : Cursor)
    → IsAt o d b c
    → IsAt o d 0 (unread c)
      × (((unread c).bits.count < 8) ⊎ ((unread c).input.consumed ≡ 0))
      × ((unread c).input.consumed ≤ c.input.consumed)
unfolding unread
unread-IsAt {o} {d} c at = (
  elim (dec_lt (c.bits.count - whole * 8) 64) [
    | yes small ↦ rw (lt→ltb (c.bits.count - whole * 8) 64 small) (record {
      same_bytes = at.same_bytes;
      placed = omega (arith, at.placed);
      inside = omega (arith, at.inside);
      buffered = omega arith;
      extent = c.bits.count - whole * 8;
      counted = omega arith;
      narrow = omega arith;
      shown =
          bit_and_mask (c.bits.count - whole * 8) c.bits.value
          ∙ ap (λ (t : ℕ). t % 2 ^ (c.bits.count - whole * 8)) at.shown
          ∙ mod-mod-pow (from o d) (c.bits.count - whole * 8) at.extent (omega (arith, at.counted));
      total_fits = at.total_fits;
      limit_fits = at.limit_fits;
    })
    | no full ↦ rw (ge→ltb (c.bits.count - whole * 8) 64 (omega arith)) (record {
      same_bytes = at.same_bytes;
      placed = omega (arith, at.placed);
      inside = omega (arith, at.inside);
      buffered = omega arith;
      extent = at.extent;
      counted = omega (arith, at.counted);
      narrow = at.narrow;
      shown = at.shown;
      total_fits = at.total_fits;
      limit_fits = at.limit_fits;
    })
  ],
  emptied,
  omega arith,
)
  where
    whole : ℕ
    whole = min (c.bits.count / 8) (min c.input.consumed 8)

    emptied : (c.bits.count - whole * 8 < 8) ⊎ (c.input.consumed - whole ≡ 0)
    emptied = elim (dec_lt c.input.consumed (c.bits.count / 8)) [
      | yes few ↦ inr (omega (arith, at.counted, at.narrow))
      | no many ↦ inl (omega (arith, at.counted, at.narrow))
    ]
