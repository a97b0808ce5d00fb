-- ===== src/Prefix/Lengths/Steps.antt =====
-- How the loop over the symbols reads a single length, and a run of repeat codes.
use mbrotli.Common.{
  ℕ, suc, ◌+◌, ◌-◌, ◌*◌, ◌^◌, ◌≤◌, ◌<◌, arith, ◌==◌, if◌then◌else◌, List, [], ◌∷◌, ◌++◌, Bool,
}
use mbrotli.Common.{
  ◌≡◌, ◌⊎◌, inl, inr, refl, sym, ap, ◌∙◌, ne→test, lt→ltb, ge→ltb, length, replicate, append_assoc,
}
use mbrotli.Decoder.Errors.{Poll, ready, pending, failed, DecodeError, InvalidDataKind}
use mbrotli.Prefix.Lists.{Lists}
use mbrotli.Prefix.Lengths.{
  Reader, plain, repeated, step, Head, complete, invalid, wanting, head_of, symbols_loop,
}
use mbrotli.Prefix.Lengths.Holds.{
  weight, kraft, Holds, Extends-Holds, plain-Extends, repeated-Extends, last_value-replicate,
}

-- The loop takes `inputs`, and then holds the lengths `done`.
pub record Read (alphabet : ℕ) (l : Lists) (r : Reader) (inputs : List (ℕ × ℕ)) (done : List ℕ)
    (r' : Reader) : Type 0 where
  pub state : Holds l done r'
  pub loop :
      (rest : List (ℕ × ℕ))
      → symbols_loop alphabet r (inputs ++ rest) ≡ symbols_loop alphabet r' rest

pub Read-trans :
    {alphabet : ℕ} {l : Lists} {r r' r'' : Reader} {a b : List (ℕ × ℕ)} {done done' : List ℕ}
    → Read alphabet l r a done r'
    → Read alphabet l r' b done' r''
    → Read alphabet l r (a ++ b) done' r''
Read-trans {alphabet} {r = r} {a = a} {b = b} p q = record {
  state = q.state;
  loop = λ rest.
      ap (symbols_loop alphabet r) (append_assoc a b rest) ∙ p.loop (b ++ rest) ∙ q.loop rest;
}

open_head :
    {alphabet : ℕ} {l : Lists} {done : List ℕ} {r : Reader}
    → Holds l done r
    → kraft done < 32768
    → length done < alphabet
    → head_of alphabet r.space r.index ≡ wanting
unfolding head_of
open_head {alphabet} {l} {done} {r} h some room =
    let e : 32768 - kraft done ≡ suc (32767 - kraft done) = omega (arith, some) in
    rw (h.left, e, h.placed, ne→test (length done) alphabet (λ z. omega (arith, z, room))) refl

pub closed_head :
    (alphabet : ℕ) {l : Lists} {done : List ℕ} {r : Reader}
    → Holds l done r
    → kraft done ≡ 32768
    → head_of alphabet r.space r.index ≡ complete
unfolding head_of
closed_head alphabet {l} {done} {r} h full =
    let e : 32768 - kraft done ≡ 0 = omega (arith, full) in rw (h.left, e) refl

symbols_loop-step :
    (alphabet : ℕ) (r r' : Reader) (s : ℕ × ℕ) (rest : List (ℕ × ℕ))
    → head_of alphabet r.space r.index ≡ wanting
    → step alphabet s r ≡ ready r'
    → symbols_loop alphabet r (s ∷ rest) ≡ symbols_loop alphabet r' rest
unfolding symbols_loop
symbols_loop-step alphabet r r' s rest e p =
    ap
      (λ (h : Head). elim h [
        | complete ↦ ready (r, s ∷ rest)
        | invalid ↦ failed (DecodeError.invalid_data InvalidDataKind.huffman)
        | wanting ↦ elim (step alphabet s r) [
          | ready r' ↦ symbols_loop alphabet r' rest
          | pending ↦ pending
          | failed e ↦ failed e
        ]
      ])
      e
    ∙ ap
        (λ (q : Poll Reader). elim q [
          | ready r' ↦ symbols_loop alphabet r' rest
          | pending ↦ pending
          | failed e ↦ failed e
        ])
        p

pub plain-Read :
    {alphabet : ℕ} {l : Lists} {done : List ℕ} {r : Reader} (v : ℕ)
    → Holds l done r
    → v ≤ 15
    → kraft done < 32768
    → kraft done + weight v ≤ 32768
    → length done < alphabet
    → alphabet ≤ 65535
    → Read alphabet l r ((v, 0) ∷ []) (done ++ (v ∷ [])) (plain v r)
unfolding step
plain-Read {alphabet} {l} {done} {r} v h le some fit room small = record {
  state =
      Extends-Holds 1 v h (plain-Extends v r le) le (omega (arith, fit))
        (omega (arith, room, small));
  loop = λ rest.
      symbols_loop-step alphabet r (plain v r) (v, 0) rest (open_head h some room)
        (ap (λ (t : Bool). if t then ready (plain v r) else repeated alphabet v 0 r)
          (lt→ltb v 16 (omega (arith, le))));
}

-- A repeat code and the length that it repeats.
unfoldable pub Repeats : ℕ → ℕ → Reader → Type 0
Repeats code v r = ((code ≡ 17) × (v ≡ 0)) ⊎ ((code ≡ 16) × (v ≡ r.previous))

-- No run of `v` is under way.
unfoldable pub Fresh : ℕ → Reader → Type 0
Fresh v r = (if r.repeat_length == v then r.repeat else 0) ≡ 0

pub one_more :
    (alphabet code extra before n v : ℕ) {l : Lists} {done : List ℕ} (r : Reader)
    → Holds l done r
    → Repeats code v r
    → v ≤ 15
    → (if r.repeat_length == v then r.repeat else 0) ≡ before
    → (if before == 0 then 0 else (before - 2) * 2 ^ (code - 14)) + extra + 3 ≡ before + suc n
    → kraft done < 32768
    → kraft done + suc n * weight v ≤ 32768
    → length done + suc n ≤ alphabet
    → alphabet ≤ 65535
    → (r' : Reader) × Read alphabet l r ((code, extra) ∷ []) (done ++ replicate (suc n) v) r'
      × (r'.repeat ≡ before + suc n)
      × (r'.repeat_length ≡ v)
      × (r'.previous ≡ r.previous)
unfolding step Repeats
one_more alphabet code extra before n v {l} {done} r h by le chain total some fit room small =
    let (r', e, extends, run, length') =
      repeated-Extends alphabet code extra before n v r le value chain total (rw h.placed h.below)
        same (omega (arith, room, h.placed)) (omega (arith, room, small, h.placed)) in
    (
      r',
      record {
        state = Extends-Holds (suc n) v h extends le fit (omega (arith, room, small));
        loop = λ rest.
            symbols_loop-step alphabet r r' (code, extra) rest
              (open_head h some (omega (arith, room)))
              (ap (λ (t : Bool). if t then ready (plain code r) else repeated alphabet code extra r)
                  (ge→ltb code 16 late)
                ∙ e);
      },
      run,
      length',
      extends.previous ∙ last_value-replicate r.previous (suc n) v same,
    )
  where
    same : (v ≡ 0) ⊎ (v ≡ r.previous)
    same = elim by [ inl (c, z) ↦ inl z | inr (c, z) ↦ inr z ]

    value : (if code == 16 then r.previous else 0) ≡ v
    value = elim by [
      | inl (c, z) ↦ ap (λ (t : ℕ). if t == 16 then r.previous else 0) c ∙ sym z
      | inr (c, z) ↦ ap (λ (t : ℕ). if t == 16 then r.previous else 0) c ∙ sym z
    ]

    late : 16 ≤ code
    late = elim by [ inl (c, z) ↦ omega (arith, c) | inr (c, z) ↦ omega (arith, c) ]
