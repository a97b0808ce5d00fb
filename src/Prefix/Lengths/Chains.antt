-- ===== src/Prefix/Lengths/Chains.antt =====
-- The repeat codes of a run: one number in digits, the high ones first.
use mbrotli.Common.{
  ℕ, zero, suc, ◌+◌, ◌-◌, ◌*◌, ◌/◌, ◌%◌, ◌^◌, ◌≤◌, ◌<◌, arith, ◌==◌, if◌then◌else◌, List, [], ◌∷◌,
  ◌++◌, Bool,
}
use mbrotli.Common.{
  ◌≡◌, ◌≢◌, inl, inr, sym, ap, ◌∙◌, eq→test, ne→test, length, replicate, append_assoc,
  length-append,
}
use mbrotli.Common.Pow.{pow-pos, pow-split}
use native.Mathlib.Decide.{ℕ_discrete}
use native.Mathlib.Nat.{div-eq_of_lt, div-le_self, mul-le-mul_right}
use mathlib.Core.Path.{subst}
use mbrotli.Prefix.Lists.{Lists}
use mbrotli.Prefix.Lengths.{Reader}
use mbrotli.Prefix.Lengths.Holds.{
  weight, kraft, Holds, kraft-append, kraft-replicate, replicate-add, length-replicate,
}
use mbrotli.Prefix.Lengths.Steps.{Read, Read-trans, one_more, Repeats, Fresh}

-- The repeat codes of a run of `n + 3` lengths, the high digits of `n` first.
unfoldable pub chain : ℕ → ℕ → ℕ → ℕ → List (ℕ × ℕ)
chain zero code width n = (code, n % 2 ^ width) ∷ []
chain (suc fuel) code width n =
    let high = chain fuel code width (n / 2 ^ width - 1) in
    if n / 2 ^ width == 0
    then ((code, n % 2 ^ width) ∷ [])
    else (high ++ ((code, n % 2 ^ width) ∷ []))

-- What a run of `n` lengths `v` leads to.
pub record After (alphabet : ℕ) (l : Lists) (done : List ℕ) (v n : ℕ) (r : Reader)
    (inputs : List (ℕ × ℕ)) : Type 0 where
  pub reader : Reader
  pub read : Read alphabet l r inputs (done ++ replicate n v) reader
  pub run : reader.repeat ≡ n
  pub length_kept : reader.repeat_length ≡ v
  pub previous_kept : reader.previous ≡ r.previous

chain_last :
    (alphabet code n v : ℕ) {l : Lists} {done : List ℕ} (r : Reader)
    → n / 2 ^ (code - 14) ≡ 0
    → Holds l done r
    → Repeats code v r
    → v ≤ 15
    → Fresh v r
    → kraft done < 32768
    → kraft done + (n + 3) * weight v ≤ 32768
    → length done + (n + 3) ≤ alphabet
    → alphabet ≤ 65535
    → After alphabet l done v (n + 3) r ((code, n % 2 ^ (code - 14)) ∷ [])
unfolding Fresh
chain_last alphabet code n v {l} {done} r z h by le fresh some fit room small =
    let e : n + 3 ≡ suc (n + 2) = omega arith in
    let digit : n % 2 ^ (code - 14) ≡ n =
      omega (arith, pow-split n (code - 14), ap (λ (t : ℕ). 2 ^ (code - 14) * t) z) in
    let (r', read, run, kept, previous) =
      one_more alphabet code (n % 2 ^ (code - 14)) 0 (n + 2) v r h by le fresh
        (omega (arith, digit)) some (rw (sym e) fit) (rw (sym e) room) small in
    rw e (record {
      reader = r';
      read = read;
      run = run ∙ omega arith;
      length_kept = kept;
      previous_kept = previous;
    })

-- A part of the run leaves code space, where the whole of it fits.
pub partial :
    (done : List ℕ) (v m k : ℕ)
    → kraft done < 32768
    → kraft done + (m + suc k) * weight v ≤ 32768
    → kraft (done ++ replicate m v) < 32768
partial done v m k some fit = elim (ℕ_discrete (weight v) 0) [
  | yes z ↦ omega (arith, some, more, ap (λ (t : ℕ). m * t) z)
  | no ne ↦ omega (arith, fit, more, mul-le-mul_of_pos k (weight v) ne)
]
  where
    more : kraft (done ++ replicate m v) ≡ kraft done + m * weight v
    more = kraft-append done (replicate m v) ∙ ap (λ (t : ℕ). kraft done + t) (kraft-replicate m v)

    mul-le-mul_of_pos : (k x : ℕ) → x ≢ 0 → 0 < suc k * x
    mul-le-mul_of_pos k x ne = ground arith

-- The last digit of a longer run, after the codes of its high digits.
chain_more :
    (alphabet code n v : ℕ) {l : Lists} {done : List ℕ} (r : Reader) {inputs : List (ℕ × ℕ)}
    → n / 2 ^ (code - 14) ≢ 0
    → Repeats code v r
    → v ≤ 15
    → kraft done < 32768
    → kraft done + (n + 3) * weight v ≤ 32768
    → length done + (n + 3) ≤ alphabet
    → alphabet ≤ 65535
    → After alphabet l done v (n / 2 ^ (code - 14) - 1 + 3) r inputs
    → After alphabet l done v (n + 3) r (inputs ++ ((code, n % 2 ^ (code - 14)) ∷ []))
unfolding Repeats
chain_more alphabet code n v {l} {done} r {inputs} ne by le some fit room small high =
    let (r', read, run, kept, previous) =
      one_more alphabet code (n % 2 ^ (code - 14)) (m + 3) k v high.reader high.read.state by' le
        before total (partial done v (m + 3) k some (omega (arith, fit, split)))
        (omega (arith, fit, split, shares)) (omega (arith, room, whole, sizes)) small in
    record {
      reader = r';
      read = Read-trans high.read (
          subst (λ d. Read alphabet l high.reader ((code, n % 2 ^ (code - 14)) ∷ []) d r') joined
            read);
      run = run ∙ omega (arith, whole);
      length_kept = kept;
      previous_kept = previous ∙ high.previous_kept;
    }
  where
    m : ℕ
    m = n / 2 ^ (code - 14) - 1

    k : ℕ
    k = n - m - 1

    whole : n + 3 ≡ m + 3 + suc k
    whole = omega (arith, ne, div-le_self n (2 ^ (code - 14)))

    by' : Repeats code v high.reader
    by' = elim by [ inl z ↦ inl z | inr (c, z) ↦ inr (c, z ∙ sym high.previous_kept) ]

    before : (if high.reader.repeat_length == v then high.reader.repeat else 0) ≡ m + 3
    before =
        ap (λ (t : Bool). if t then high.reader.repeat else 0)
          (eq→test high.reader.repeat_length v high.length_kept)
        ∙ high.run

    split : (n + 3) * weight v ≡ (m + 3 + suc k) * weight v
    split = ap (λ (t : ℕ). t * weight v) whole

    digits : m + 3 - 2 ≡ n / 2 ^ (code - 14)
    digits = omega (arith, ne)

    total :
        (if m + 3 == 0 then 0 else (m + 3 - 2) * 2 ^ (code - 14)) + n % 2 ^ (code - 14) + 3
        ≡ m + 3 + suc k
    total =
        rw (ne→test (m + 3) 0 (omega arith)) (
          omega (arith, whole, pow-split n (code - 14), ap (λ (t : ℕ). t * 2 ^ (code - 14)) digits))

    shares : kraft (done ++ replicate (m + 3) v) ≡ kraft done + (m + 3) * weight v
    shares =
        kraft-append done (replicate (m + 3) v)
        ∙ ap (λ (t : ℕ). kraft done + t) (kraft-replicate (m + 3) v)

    sizes : length (done ++ replicate (m + 3) v) ≡ length done + (m + 3)
    sizes =
        length-append done (replicate (m + 3) v)
        ∙ ap (λ (t : ℕ). length done + t) (length-replicate (m + 3) v)

    joined : (done ++ replicate (m + 3) v) ++ replicate (suc k) v ≡ done ++ replicate (n + 3) v
    joined =
        append_assoc done (replicate (m + 3) v) (replicate (suc k) v)
        ∙ ap (λ (t : List ℕ). done ++ t)
            (replicate-add (m + 3) (suc k) v ∙ ap (λ (t : ℕ). replicate t v) (sym whole))

fewer : (n w : ℕ) → n / 2 ^ w ≢ 0 → n / 2 ^ w - 1 + 3 ≤ n + 3
fewer n w ne = omega (arith, ne, div-le_self n (2 ^ w))

pub chain-After :
    (alphabet code fuel n v : ℕ) {l : Lists} {done : List ℕ} (r : Reader)
    → n ≤ fuel
    → Holds l done r
    → Repeats code v r
    → v ≤ 15
    → Fresh v r
    → kraft done < 32768
    → kraft done + (n + 3) * weight v ≤ 32768
    → length done + (n + 3) ≤ alphabet
    → alphabet ≤ 65535
    → After alphabet l done v (n + 3) r (chain fuel code (code - 14) n)
unfolding chain
chain-After alphabet code zero n v r enough h by le fresh some fit room small =
    chain_last alphabet code n v r (div-eq_of_lt (omega (arith, enough, pow-pos (code - 14)))) h by
      le fresh some fit room small
chain-After alphabet code (suc fuel) n v {l} {done} r enough h by le fresh some fit room small =
    elim (ℕ_discrete (n / 2 ^ (code - 14)) 0) [
      | yes z ↦
          rw (eq→test (n / 2 ^ (code - 14)) 0 z)
            (chain_last alphabet code n v r z h by le fresh some fit room small)
      | no ne ↦ rw (ne→test (n / 2 ^ (code - 14)) 0 ne) (
          chain_more alphabet code n v r ne by le some fit room small (
            chain-After alphabet code fuel (n / 2 ^ (code - 14) - 1) v r
              (omega (arith, enough, ne, div-le_self n (2 ^ (code - 14)))) h by le fresh some
              (omega (arith, fit, mul-le-mul_right (weight v) (fewer n (code - 14) ne)))
              (omega (arith, room, div-le_self n (2 ^ (code - 14)))) small))
    ]
