-- ===== src/Decoder/History/Copies.antt =====
-- The three ways to copy a run over its own source, each a repetition of the bytes before it.
use native.Mathlib.Nat.{mod-eq_of_lt, mod-one, mod-add-mod, add-mod_left}
use mathlib.Core.Path.{subst}
use mbrotli.Common.{
  ℕ, zero, suc, ◌+◌, ◌-◌, ◌*◌, ◌%◌, ◌^◌, ◌≤◌, ◌<◌, arith, max, min, ltb, leb, ◌==◌, ◌≡◌, ◌∙◌, ◌⊎◌,
  inl, inr, refl, sym, ap, Bool, true, false, Bool-cases, Option, some, List, length, get_or, set,
  take, drop, replicate, length-set, get_or-set_same, get_or-set_other, ge→ltb, ltb→lt, ltb→ge,
  eq_of_test,
}
use mbrotli.Common.Slices.{
  Gives, gives, Gives-bind, overlay, write_slice, length-overlay, get_or-overlay_outside,
  get_or-overlay_inside, get_or-replicate, length-replicate, get_elem?-get_or, array_ext,
  store_of_lt, slice_of_le, write_slice_of_le, get_or-slice, length-slice,
}
use mbrotli.Decoder.History.{copy_within, copy_bytewise, copy_doubling, copy_overlapping}

-- The run of `n` bytes at an index repeats the `d` bytes at another. No other byte is changed, but
-- for those up to `slack` bytes from the run's start.
pub record Repeats (old : List ℕ) (dst src n slack d : ℕ) (new : List ℕ) : Type 0 where
  pub size : length new ≡ length old
  pub outside : (x : ℕ) → (x < dst) ⊎ (dst + max n slack ≤ x) → get_or new x 0 ≡ get_or old x 0
  pub inside : (j : ℕ) → j < n → get_or new (dst + j) 0 ≡ get_or old (src + j % d) 0

-- Two such runs are equal.
Repeats-unique :
    {old : List ℕ} {dst src n d : ℕ} {a b : List ℕ}
    → Repeats old dst src n 0 d a
    → Repeats old dst src n 0 d b
    → a ≡ b
Repeats-unique {old} {dst} {src} {n} {d} {a} {b} p q =
    array_ext a b 0 (p.size ∙ sym q.size)
      (λ x h. by_place x (ltb x dst) refl (ltb x (dst + n)) refl)
  where
    by_place :
        (x : ℕ) (low : Bool)
        → ltb x dst ≡ low
        → (inner : Bool) → ltb x (dst + n) ≡ inner
        → get_or a x 0 ≡ get_or b x 0
    by_place x true e inner f =
        p.outside x (inl (ltb→lt x dst e)) ∙ sym (q.outside x (inl (ltb→lt x dst e)))
    by_place x false e false f =
        let far : dst + max n 0 ≤ x = omega (arith, ltb→ge x (dst + n) f) in
        p.outside x (inr far) ∙ sym (q.outside x (inr far))
    by_place x false e true f =
        let here : dst + (x - dst) ≡ x = omega (arith, ltb→ge x dst e) in
        let small : x - dst < n = omega (arith, ltb→ge x dst e, ltb→lt x (dst + n) f) in
        ap (λ (k : ℕ). get_or a k 0) (sym here)
        ∙ (p.inside (x - dst) small ∙ sym (q.inside (x - dst) small))
        ∙ ap (λ (k : ℕ). get_or b k 0) here

Gives-unique :
    {old : List ℕ} {dst src n d : ℕ} {a b : Option (List ℕ)}
    → Gives (Repeats old dst src n 0 d) a
    → Gives (Repeats old dst src n 0 d) b
    → a ≡ b
Gives-unique (gives p) (gives q) = ap some (Repeats-unique p q)

-- A slice that is put elsewhere.
pub copy_within_lem :
    (ring : List ℕ) (src n dst : ℕ)
    → src + n ≤ length ring
    → dst + n ≤ length ring
    → copy_within ring src n dst ≡ some (overlay ring dst (take n (drop src ring)))
unfolding copy_within
copy_within_lem ring src n dst h k = rw (slice_of_le ring src n h) (
    write_slice_of_le ring dst (take n (drop src ring))
      (omega (arith, length-slice ring src n h, k)))

pub moved-outside :
    (ring : List ℕ) (src n dst x : ℕ)
    → src + n ≤ length ring
    → (x < dst) ⊎ (dst + n ≤ x)
    → get_or (overlay ring dst (take n (drop src ring))) x 0 ≡ get_or ring x 0
moved-outside ring src n dst x h o =
    get_or-overlay_outside ring dst (take n (drop src ring)) x 0
      (omega (arith, length-slice ring src n h, o))

pub moved-inside :
    (ring : List ℕ) (src n dst j : ℕ)
    → src + n ≤ length ring
    → dst + n ≤ length ring
    → j < n
    → get_or (overlay ring dst (take n (drop src ring))) (dst + j) 0 ≡ get_or ring (src + j) 0
moved-inside ring src n dst j h k l =
    get_or-overlay_inside ring dst (take n (drop src ring)) j 0
      (omega (arith, length-slice ring src n h, l)) (omega (arith, length-slice ring src n h, k))
    ∙ get_or-slice ring src n j 0 l

-- The run starts a distance behind its source, and lies in the ring.
module _ (ring : List ℕ) (src d : ℕ) (positive : 0 < d) where
  Repeats-none : Repeats ring (src + d) src 0 0 d ring
  Repeats-none = record {
    size = refl;
    outside = λ x h. refl;
    inside = λ j h. absurd (omega (arith, h));
  }

  -- A byte of the run so far, or before it, by its offset from the source.
  Repeats-at :
      {n : ℕ} {new : List ℕ}
      → Repeats ring (src + d) src n 0 d new
      → (j : ℕ) → j < n + d
      → get_or new (src + j) 0 ≡ get_or ring (src + j % d) 0
  Repeats-at {n} {new} p j h = elim (Bool-cases (ltb j d)) [
    | inl e ↦
        let low : j < d = ltb→lt j d e in
        p.outside (src + j) (inl (omega (arith, low)))
        ∙ ap (λ (k : ℕ). get_or ring (src + k) 0) (sym (mod-eq_of_lt low))
    | inr e ↦
        let high : d ≤ j = ltb→ge j d e in
        let there : src + d + (j - d) ≡ src + j = omega (arith, high) in
        let whole : d + (j - d) ≡ j = omega (arith, high) in
        ap (λ (k : ℕ). get_or new k 0) (sym there)
        ∙ p.inside (j - d) (omega (arith, high, h))
        ∙ ap (λ (k : ℕ). get_or ring (src + k) 0)
            (sym (add-mod_left d (j - d)) ∙ ap (λ (k : ℕ). k % d) whole)
  ]

  -- One more byte.
  Repeats-set :
      (n : ℕ) (new : List ℕ)
      → src + d + suc n ≤ length ring
      → Repeats ring (src + d) src n 0 d new
      → Repeats ring (src + d) src (suc n) 0 d (set new (src + d + n) (get_or new (src + n) 0))
  Repeats-set n new room p = record {
    size = length-set new (src + d + n) (get_or new (src + n) 0) ∙ p.size;
    outside = λ x h.
        get_or-set_other new (src + d + n) x (get_or new (src + n) 0) 0 (λ e. omega (arith, e, h))
        ∙ p.outside x (omega (arith, h));
    inside = λ j h. elim (Bool-cases (ltb j n)) [
      | inl e ↦
          get_or-set_other new (src + d + n) (src + d + j) (get_or new (src + n) 0) 0
            (λ f. omega (arith, f, ltb→lt j n e))
          ∙ p.inside j (ltb→lt j n e)
      | inr e ↦
          let last : n ≡ j = omega (arith, ltb→ge j n e, h) in
          ap (λ (k : ℕ). get_or (set new (src + d + n) (get_or new (src + n) 0)) (src + d + k) 0)
            (sym last)
          ∙ get_or-set_same new (src + d + n) (get_or new (src + n) 0) 0
              (omega (arith, room, p.size))
          ∙ Repeats-at p n (omega (arith, positive))
          ∙ ap (λ (k : ℕ). get_or ring (src + k % d) 0) last
    ];
  }

  copy_bytewise-Repeats :
      (n : ℕ)
      → src + d + n ≤ length ring
      → Gives (Repeats ring (src + d) src n 0 d) (copy_bytewise n ring (src + d) src)
  unfolding copy_bytewise
  copy_bytewise-Repeats zero room = gives Repeats-none
  copy_bytewise-Repeats (suc n) room =
      Gives-bind (copy_bytewise-Repeats n (omega (arith, room))) (λ new p.
        rw
          (
            get_elem?-get_or new (src + n) 0 (omega (arith, room, p.size, positive)),
            store_of_lt new (src + d + n) (get_or new (src + n) 0) (omega (arith, room, p.size)),
          )
          (gives (Repeats-set n new room p)))

  -- A chunk: its source is a whole number of repetitions before its place.
  Repeats-moved :
      (done n chunk : ℕ) (new : List ℕ)
      → chunk ≡ done + d
      → done % d ≡ 0
      → n ≤ chunk
      → src + d + (done + n) ≤ length ring
      → Repeats ring (src + d) src done 0 d new
      → Repeats ring
          (src + d)
          src
          (done + n)
          0
          d
          (overlay new (src + d + done) (take n (drop src new)))
  Repeats-moved done n chunk new e whole le room p = record {
    size = length-overlay new (src + d + done) (take n (drop src new)) ∙ p.size;
    outside = λ x h.
        moved-outside new src n (src + d + done) x (omega (arith, room, p.size)) (omega (arith, h))
        ∙ p.outside x (omega (arith, h));
    inside = λ j h. elim (Bool-cases (ltb j done)) [
      | inl f ↦
          moved-outside new src n (src + d + done) (src + d + j) (omega (arith, room, p.size))
            (omega (arith, ltb→lt j done f))
          ∙ p.inside j (ltb→lt j done f)
      | inr f ↦
          let high : done ≤ j = ltb→ge j done f in
          let split : done + (j - done) ≡ j = omega (arith, high) in
          let place : src + d + done + (j - done) ≡ src + d + j = omega (arith, high) in
          ap (λ (k : ℕ). get_or (overlay new (src + d + done) (take n (drop src new))) k 0)
            (sym place)
          ∙ moved-inside new src n (src + d + done) (j - done) (omega (arith, room, p.size))
              (omega (arith, room, p.size)) (omega (arith, high, h))
          ∙ Repeats-at p (j - done) (omega (arith, high, h, e, le))
          ∙ ap (λ (k : ℕ). get_or ring (src + k) 0)
              (ap (λ (k : ℕ). k % d) (let z : j - done ≡ 0 + (j - done) = omega arith in z)
                ∙ ap (λ (k : ℕ). (k + (j - done)) % d) (sym whole)
                ∙ mod-add-mod done d (j - done)
                ∙ ap (λ (k : ℕ). k % d) split)
    ];
  }

  doubled : (done : ℕ) → done % d ≡ 0 → (done + (done + d)) % d ≡ 0
  doubled done whole =
      ap (λ (k : ℕ). k % d) (let e : done + (done + d) ≡ d + (done + done) = omega arith in e)
      ∙ add-mod_left d (done + done)
      ∙ sym (mod-add-mod done d done)
      ∙ ap (λ (k : ℕ). (k + done) % d) whole
      ∙ ap (λ (k : ℕ). k % d) (let e : 0 + done ≡ done = omega arith in e)
      ∙ whole

  done_doubling :
      (fuel len chunk done : ℕ) (new : List ℕ)
      → len ≤ done
      → copy_doubling fuel new (src + d) src len chunk done ≡ some new
  unfolding copy_doubling
  done_doubling zero len chunk done new h = rw (copy_doubling, ge→ltb done len h)
  done_doubling (suc fuel) len chunk done new h = rw (copy_doubling, ge→ltb done len h)

  copy_doubling-Repeats :
      (fuel len chunk done : ℕ) (new : List ℕ)
      → len ≤ done + fuel
      → done ≤ len
      → chunk ≡ done + d
      → done % d ≡ 0
      → src + d + len ≤ length ring
      → length ring < 2 ^ 63
      → Repeats ring (src + d) src done 0 d new
      → Gives
          (Repeats ring (src + d) src len 0 d)
          (copy_doubling fuel new (src + d) src len chunk done)
  unfolding copy_doubling
  copy_doubling-Repeats zero len chunk done new enough le e whole room small p =
      let same : done ≡ len = omega (arith, enough, le) in
      rw (ge→ltb done len (omega (arith, same)))
        (gives (subst (λ (k : ℕ). Repeats ring (src + d) src k 0 d new) same p))
  copy_doubling-Repeats (suc fuel) len chunk done new enough le e whole room small p =
      elim (Bool-cases (ltb done len)) [
        | inr f ↦
            let same : done ≡ len = omega (arith, ltb→ge done len f, le) in
            rw (copy_doubling, f)
              (gives (subst (λ (k : ℕ). Repeats ring (src + d) src k 0 d new) same p))
        | inl f ↦
            let here : done < len = ltb→lt done len f in
            let n : ℕ = min chunk (len - done) in
            let moved : List ℕ = overlay new (src + d + done) (take n (drop src new)) in
            let q : Repeats ring (src + d) src (done + n) 0 d moved =
              Repeats-moved done n chunk new e whole (omega arith) (omega (arith, room, here)) p in
            rw
              (
                copy_doubling,
                f,
                copy_within_lem new src n (src + d + done) (omega (arith, room, here, p.size))
                    (omega (arith, room, here, p.size)),
              )
              (elim (Bool-cases (ltb chunk (len - done))) [
                | inl g ↦
                    let less : chunk < len - done = ltb→lt chunk (len - done) g in
                    let full : n ≡ chunk = omega (arith, less) in
                    copy_doubling-Repeats fuel len (chunk * 2 % 2 ^ 64) (done + n) moved
                      (omega (arith, enough, here, e, positive)) (omega (arith, here))
                      (omega (arith, less, e, small, room))
                      (ap (λ (k : ℕ). (done + k) % d) (full ∙ e) ∙ doubled done whole) room small q
                | inr g ↦
                    let last : done + n ≡ len = omega (arith, here, ltb→ge chunk (len - done) g) in
                    rw
                      (done_doubling fuel len (chunk * 2 % 2 ^ 64) (done + n) moved
                        (omega (arith, last)))
                      (gives (subst (λ (k : ℕ). Repeats ring (src + d) src k 0 d moved) last q))
              ])
      ]

  fill-Repeats :
      (len : ℕ) (same : d ≡ 1)
      → src + d + len ≤ length ring
      → Gives
          (Repeats ring (src + d) src len 0 d)
          (write_slice ring (src + d) (replicate len (get_or ring src 0)))
  fill-Repeats len same room =
      rw
        (write_slice_of_le ring (src + d) (replicate len (get_or ring src 0))
          (omega (arith, length-replicate len (get_or ring src 0), room)))
        (gives (record {
          size = length-overlay ring (src + d) (replicate len (get_or ring src 0));
          outside = λ x h.
              get_or-overlay_outside ring (src + d) (replicate len (get_or ring src 0)) x 0
                (omega (arith, length-replicate len (get_or ring src 0), h));
          inside = λ j h.
              get_or-overlay_inside ring (src + d) (replicate len (get_or ring src 0)) j 0
                (omega (arith, length-replicate len (get_or ring src 0), h))
                (omega (arith, length-replicate len (get_or ring src 0), room))
              ∙ get_or-replicate len (get_or ring src 0) j 0 h
              ∙ ap (λ (k : ℕ). get_or ring k 0) (let z : src ≡ src + 0 = omega arith in z)
              ∙ ap (λ (k : ℕ). get_or ring (src + k) 0) (sym (mod-one j))
              ∙ ap (λ (k : ℕ). get_or ring (src + j % k) 0) (sym same);
        }))

  pub copy_overlapping-Repeats :
      (len : ℕ)
      → src + d + len ≤ length ring
      → 0 < len
      → length ring < 2 ^ 63
      → Gives (Repeats ring (src + d) src len 0 d) (copy_overlapping ring (src + d) src len d)
  unfolding copy_overlapping
  copy_overlapping-Repeats len room any small = elim (Bool-cases (d == 1)) [
    | inl e ↦
        rw (e, get_elem?-get_or ring src 0 (omega (arith, room, any)))
          (fill-Repeats len (eq_of_test d 1 e) room)
    | inr e ↦ elim (Bool-cases (leb len 16)) [
      | inl f ↦ rw (e, f) (copy_bytewise-Repeats len room)
      | inr f ↦
          rw (e, f)
            (copy_doubling-Repeats len len d 0 ring (omega arith) (omega arith) (omega arith)
              (mod-eq_of_lt positive) room small Repeats-none)
    ]
  ]

  -- A copy over its own source is the loop that copies one byte after the other, whichever way it
  -- is done. The two runs lie in a ring of less than `2 ^ 63` bytes, the distance and the length
  -- are not 0.
  pub copy_overlapping-copy_bytewise :
      (len : ℕ)
      → src + d + len ≤ length ring
      → 0 < len
      → length ring < 2 ^ 63
      → copy_overlapping ring (src + d) src len d ≡ copy_bytewise len ring (src + d) src
  copy_overlapping-copy_bytewise len room any small =
      Gives-unique (copy_overlapping-Repeats len room any small) (copy_bytewise-Repeats len room)
