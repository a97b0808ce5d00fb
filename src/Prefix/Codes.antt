-- ===== src/Prefix/Codes.antt =====
-- Codes that are decided by their own bits: what a reader at a position shows of them.
use mbrotli.Common.{ℕ, zero, suc, ◌+◌, ◌-◌, ◌%◌, ◌^◌, ◌≤◌, ◌<◌, arith, if◌then◌else◌}
use mbrotli.Common.{◌≡◌, refl, sym, ap, ◌∙◌, length}
use mbrotli.Common.Pow.{mod-mod-pow}
use mathlib.Core.Path.{subst}
use native.Mathlib.Decide.{dec_lt}
use mbrotli.Decoder.Errors.{Poll, ready, pending}
use mbrotli.Decoder.Bits.{Cursor, M, accept, load_byte, drop_bits, ◌>>=◌, ◌>>◌, continue, pure}
use mbrotli.Decoder.Bits.Position.{Origin, IsAt, IsAt-weaken, from, size}
use mbrotli.Decoder.Bits.Loads.{Waited, drop_bits-IsAt, load_byte_more, load_byte_end, accept-IsAt}

-- A code of at most fifteen bits, decided by those bits alone.
pub record IsPrefix (look : ℕ → ℕ × ℕ) : Type 0 where
  pub narrow : (x : ℕ) → (look x).1 ≤ 15
  pub stable : (x y : ℕ) → y % 2 ^ (look x).1 ≡ x % 2 ^ (look x).1 → look y ≡ look x

module _ {look : ℕ → ℕ × ℕ} (prefix : IsPrefix look) {o : Origin} {d : ℕ} where
  -- The reservoir shows the code as soon as it is buffered, and shows no other code before.
  pub code-shown :
      {b : ℕ} {c : Cursor}
      → IsAt o d b c
      → (look (from o d)).1 ≤ c.bits.count
      → look c.bits.value ≡ look (from o d)
  code-shown {c = c} at h = prefix.stable (from o d) c.bits.value (
      ap (λ (v : ℕ). v % 2 ^ (look (from o d)).1) at.shown
      ∙ mod-mod-pow (from o d) (look (from o d)).1 at.extent (omega (arith, h, at.counted)))

  pub code-hidden :
      {b : ℕ} {c : Cursor}
      → IsAt o d b c
      → c.bits.count < (look (from o d)).1
      → c.bits.count < (look c.bits.value).1
  code-hidden {c = c} at h = elim (dec_lt c.bits.count (look c.bits.value).1) [
    | yes p ↦ p
    | no p ↦
        let same : look (from o d) ≡ look c.bits.value = prefix.stable c.bits.value (from o d) (
          sym (
            ap (λ (v : ℕ). v % 2 ^ (look c.bits.value).1) at.shown
            ∙ mod-mod-pow (from o d) (look c.bits.value).1 at.extent
                (omega (arith, p, at.counted)))) in
        absurd (omega (arith, h, p, ap (λ (p : ℕ × ℕ). p.1) same))
  ]

  -- Dropping a code that is buffered, and returning its symbol.
  pub drop-code :
      {b : ℕ} {c : Cursor} (w s : ℕ)
      → IsAt o d b c
      → w ≤ c.bits.count
      → (((drop_bits w >> pure s) c).0 ≡ ready s) × IsAt o (d + w) 0 ((drop_bits w >> pure s) c).1
  drop-code {c = c} w s at h =
      let (e, at') = drop_bits-IsAt w (IsAt-weaken c.bits.count (omega arith) at) h in
      subst
        (λ q.
          ((continue q (drop_bits w c).1 (λ _. pure s)).0 ≡ ready s)
          × IsAt o (d + w) 0 (continue q (drop_bits w c).1 (λ _. pure s)).1)
        (sym e) (refl, IsAt-weaken 0 (omega arith) at')

-- What reading one code promises: its symbol and the position after it where the input holds the
-- whole code, and otherwise a wait at the same position with all the input accepted.
pub record Coded (look : ℕ → ℕ × ℕ) (o : Origin) (d : ℕ) (out : Poll ℕ × Cursor) : Type 0 where
  pub read :
      d + (look (from o d)).1 ≤ size o
      → (out.0 ≡ ready (look (from o d)).0) × IsAt o (d + (look (from o d)).1) 0 out.1
  pub waited : size o < d + (look (from o d)).1 → Waited o d out

-- A loop that reads a code takes it where it is buffered, and loads a byte where it is not.
pub record ReadsCodes (look : ℕ → ℕ × ℕ) (loop : ℕ → M ℕ) : Type 0 where
  pub takes :
      (fuel : ℕ) (c : Cursor)
      → (look c.bits.value).1 ≤ c.bits.count
      → loop (suc fuel) c ≡ (drop_bits (look c.bits.value).1 >> pure (look c.bits.value).0) c
  pub loads :
      (fuel : ℕ) (c : Cursor)
      → c.bits.count < (look c.bits.value).1
      → loop (suc fuel) c
        ≡ (load_byte >>= λ more. if more then loop fuel else λ c'. (pending, c')) c

module _ (look : ℕ → ℕ × ℕ) (loop : ℕ → M ℕ) (prefix : IsPrefix look) (reads : ReadsCodes look loop)
    {o : Origin} {d : ℕ} where
  loop-ready :
      (fuel : ℕ) {b : ℕ} (c : Cursor)
      → IsAt o d b c
      → d + (look (from o d)).1 ≤ size o
      → length o.bytes < fuel + c.input.consumed
      → ((loop fuel c).0 ≡ ready (look (from o d)).0)
        × IsAt o (d + (look (from o d)).1) 0 (loop fuel c).1
  loop-ready zero c at room enough = absurd (omega (arith, at.inside))
  loop-ready (suc fuel) c at room enough = elim (dec_lt c.bits.count (look (from o d)).1) [
    | yes short ↦
        let (byte, e, step) = load_byte_more at (omega (arith, at.placed)) in
        rw (reads.loads fuel c (code-hidden prefix at short), step)
          (loop-ready fuel (accept byte c)
            (accept-IsAt byte at e (omega (arith, prefix.narrow (from o d)))) room
            (unfold accept in omega (arith, enough)))
    | no full ↦
        let h : (look (from o d)).1 ≤ c.bits.count = omega arith in
        let same = code-shown prefix at h in
        rw (reads.takes fuel c (omega (arith, h, ap (λ (p : ℕ × ℕ). p.1) same)), same)
          (drop-code prefix (look (from o d)).1 (look (from o d)).0 at h)
  ]

  loop-Waited :
      (fuel : ℕ) {b : ℕ} (c : Cursor)
      → IsAt o d b c
      → size o < d + (look (from o d)).1
      → length o.bytes < fuel + c.input.consumed
      → Waited o d (loop fuel c)
  loop-Waited zero c at room enough = absurd (omega (arith, at.inside))
  loop-Waited (suc fuel) c at room enough =
      let short : c.bits.count < (look (from o d)).1 = omega (arith, at.placed, at.inside) in
      elim (dec_lt c.input.consumed (length o.bytes)) [
        | yes more ↦
            let (byte, e, step) = load_byte_more at more in
            rw (reads.loads fuel c (code-hidden prefix at short), step)
              (loop-Waited fuel (accept byte c)
                (accept-IsAt byte at e (omega (arith, prefix.narrow (from o d)))) room
                (unfold accept in omega (arith, enough)))
        | no over ↦
            rw
              (
                reads.loads fuel c (code-hidden prefix at short),
                load_byte_end at (omega (arith, at.inside)),
              )
              (record {
                waits = refl;
                stays = IsAt-weaken 0 (omega arith) at;
                used = omega (arith, at.inside);
              })
      ]

  -- With one round for each unread byte and one more the loop ends as it should.
  pub loop-Coded :
      {b : ℕ} (c : Cursor)
      → IsAt o d b c
      → Coded look o d (loop (suc (length c.input.bytes - c.input.consumed)) c)
  loop-Coded c at = record {
    read = λ room.
        loop-ready (suc (length c.input.bytes - c.input.consumed)) c at room
          (omega (arith, ap length at.same_bytes, at.inside));
    waited = λ room.
        loop-Waited (suc (length c.input.bytes - c.input.consumed)) c at room
          (omega (arith, ap length at.same_bytes, at.inside));
  }

-- A code that is buffered is taken as it should be.
pub shown-Coded :
    {look : ℕ → ℕ × ℕ} {o : Origin} {d b : ℕ} (c : Cursor) (out : Poll ℕ × Cursor)
    → IsPrefix look
    → IsAt o d b c
    → (look (from o d)).1 ≤ c.bits.count
    → out ≡ (drop_bits (look c.bits.value).1 >> pure (look c.bits.value).0) c
    → Coded look o d out
shown-Coded {look} {o} {d} c out prefix at h e = record {
  read = λ _.
      rw (e, code-shown prefix at h)
        (drop-code prefix (look (from o d)).1 (look (from o d)).0 at h);
  waited = λ short. absurd (omega (arith, short, h, at.placed, at.inside));
}
