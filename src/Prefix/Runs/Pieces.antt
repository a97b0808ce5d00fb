-- ===== src/Prefix/Runs/Pieces.antt =====
-- One run of a sequence: its codes, what is left, and the reader before and after it.
use mbrotli.Common.{
  ℕ, suc, ◌+◌, ◌*◌, ◌≤◌, ◌<◌, arith, ◌==◌, ◌&&◌, ◌||◌, not, if◌then◌else◌, List, [], ◌∷◌, ◌++◌,
  Bool, true,
}
use mbrotli.Common.{
  ◌≡◌, ◌⊎◌, inl, inr, refl, sym, ap, ◌∙◌, Bool-cases, eq→test, ne→test, length, replicate, drop,
  length-append, length-drop, drop-drop,
}
use native.Mathlib.Decide.{ℕ_discrete}
use mathlib.Core.Path.{subst}
use mbrotli.Prefix.Lists.{Lists}
use mbrotli.Prefix.Lengths.{Reader}
use mbrotli.Prefix.Lengths.Holds.{
  weight, kraft, Holds, last_value, last_value-append, last_value-replicate, kraft-append,
  kraft-replicate, length-replicate,
}
use mbrotli.Prefix.Lengths.Steps.{Fresh}
use mbrotli.Prefix.Runs.{CodeLengthRuns, same_ahead, write_repetitions, write_zero_repetitions}
use mbrotli.Prefix.Runs.Codes.{
  value_codes, zero_codes, write_repetitions-room, write_zero_repetitions-room, length-value_codes,
  length-zero_codes,
}
use mbrotli.Prefix.Runs.Reads.{Took, Room, value_codes-Took, zero_codes-Took}
use mbrotli.Prefix.Runs.Trimmed.{same_ahead-split, Other, same_ahead-Other, Closed}

-- Whether runs of `v` are coded as runs.
abbrev pub flag : Bool → Bool → ℕ → Bool
flag rle_values rle_zeros v = not (v == 0) && rle_values || (v == 0) && rle_zeros

abbrev pub more : Bool → Bool → ℕ → List ℕ → ℕ
more rle_values rle_zeros v rest = if flag rle_values rle_zeros v then same_ahead v rest else 0

-- The codes of a run, and their number.
abbrev pub run_codes : ℕ → ℕ → ℕ → CodeLengthRuns
run_codes previous v n = if v == 0 then zero_codes n else value_codes previous v n

pub run_codes-room :
    (previous v n : ℕ) (runs : CodeLengthRuns)
    → 0 < n
    → length runs + n ≤ 704
    → (if v == 0 then write_zero_repetitions n runs else write_repetitions previous v n runs)
      ≡ runs ++ run_codes previous v n
run_codes-room previous v n runs some h = elim (ℕ_discrete v 0) [
  | yes e ↦ rw (eq→test v 0 e) (write_zero_repetitions-room n runs h)
  | no ne ↦ rw (ne→test v 0 ne) (write_repetitions-room previous v n runs some h)
]

pub length-run_codes : (previous v n : ℕ) → 0 < n → length (run_codes previous v n) ≤ n
length-run_codes previous v n some = elim (ℕ_discrete v 0) [
  | yes e ↦ rw (eq→test v 0 e) (length-zero_codes n)
  | no ne ↦ rw (ne→test v 0 ne) (length-value_codes previous v n some)
]

pub run_codes-Took :
    {alphabet : ℕ} {l : Lists} (v n : ℕ) {done : List ℕ} {r : Reader}
    → Holds l done r
    → Fresh v r ⊎ (n ≤ 1)
    → 0 < n
    → Room alphabet done v n
    → Took alphabet l done v n r (run_codes (last_value 8 done) v n)
run_codes-Took {alphabet} {l} v n {done} {r} h idle some fits = elim (ℕ_discrete v 0) [
  | yes e ↦ rw e (
      zero_codes-Took n h (subst (λ (t : ℕ). Fresh t r ⊎ (n ≤ 1)) e idle) some
        (subst (λ (t : ℕ). Room alphabet done t n) e fits))
  | no ne ↦ rw (ne→test v 0 ne) (value_codes-Took v n h ne idle some fits)
]

-- No run of the first length is under way, where it is one that runs are coded for.
unfoldable pub Idle : Bool → Bool → Reader → List ℕ → Type 0
Idle a b r [] = Unit {0}
Idle a b r (v ∷ rest) = flag a b v ≡ true → Fresh v r

-- After a run the next length is another, or no run is under way.
pub next-Idle :
    (a b : Bool) (v : ℕ) (rest : List ℕ) (r : Reader)
    → (r.repeat ≡ 0) ⊎ ((r.repeat_length ≡ v) × (3 ≤ suc (more a b v rest)))
    → Idle a b r (drop (more a b v rest) rest)
unfolding Idle Other Fresh
next-Idle a b v rest r ended = go (drop (more a b v rest) rest) other
  where
    other : (3 ≤ suc (more a b v rest)) → Other v (drop (more a b v rest) rest)
    other long = elim (Bool-cases (flag a b v)) [
      | inl t ↦ rw t (same_ahead-Other v rest)
      | inr f ↦
          absurd (omega (arith, long, ap (λ (t : Bool). if t then same_ahead v rest else 0) f))
    ]

    go : (xs : List ℕ) → ((3 ≤ suc (more a b v rest)) → Other v xs) → Idle a b r xs
    go [] h = tt
    go (x ∷ xs) h = λ _. elim ended [
      | inl e ↦
          rw e (elim (Bool-cases (r.repeat_length == x)) [ inl t ↦ rw t refl | inr t ↦ rw t refl ])
      | inr (e, long) ↦
          ap (λ (t : Bool). if t then r.repeat else 0)
            (ne→test r.repeat_length x (λ z. h long (sym z ∙ e)))
    ]

-- The run ahead, and the rest.
pub more-split :
    (a b : Bool) (v : ℕ) (rest : List ℕ)
    → replicate (suc (more a b v rest)) v ++ drop (more a b v rest) rest ≡ v ∷ rest
more-split a b v rest = elim (Bool-cases (flag a b v)) [
  | inl t ↦ rw t (ap (λ (xs : List ℕ). v ∷ xs) (same_ahead-split v rest))
  | inr f ↦ rw f refl
]

pub record Cut (v : ℕ) (rest : List ℕ) (m : ℕ) : Type 0 where
  pub sizes : suc m + length (drop m rest) ≡ suc (length rest)
  pub shares : (suc m) * weight v + kraft (drop m rest) ≡ kraft (v ∷ rest)

pub cut :
    (v : ℕ) (rest : List ℕ) (m : ℕ) → replicate (suc m) v ++ drop m rest ≡ v ∷ rest → Cut v rest m
cut v rest m e = record {
  sizes = omega (
    arith,
    ap length e,
    length-append (replicate (suc m) v) (drop m rest),
    length-replicate (suc m) v,
  );
  shares = omega (
    arith,
    ap kraft e,
    kraft-append (replicate (suc m) v) (drop m rest),
    kraft-replicate (suc m) v,
  );
}

pub cut-Room :
    {alphabet : ℕ} {done : List ℕ} {v : ℕ} {rest : List ℕ} (m : ℕ)
    → Cut v rest m
    → v ≤ 15
    → Closed (v ∷ rest)
    → kraft done + kraft (v ∷ rest) ≤ 32768
    → length done + suc (length rest) ≤ alphabet
    → alphabet ≤ 65535
    → Room alphabet done v (suc m)
unfolding Closed
cut-Room m c le closed fit room small = record {
  value = le;
  some = λ _. omega (arith, fit, closed 0 (omega arith));
  fit = omega (arith, fit, c.shares);
  room = omega (arith, room, c.sizes);
  small = small;
}

pub drop-Closed : (v : ℕ) (rest : List ℕ) (m : ℕ) → Closed (v ∷ rest) → Closed (drop m rest)
unfolding Closed
drop-Closed v rest m closed k h =
    rw (drop-drop k m rest) (closed (suc (m + k)) (omega (arith, h, length-drop m rest)))

pub last_value-run :
    (done : List ℕ) (v m : ℕ)
    → (if v == 0 then last_value 8 done else v) ≡ last_value 8 (done ++ replicate (suc m) v)
unfolding last_value
last_value-run done v m = elim (ℕ_discrete v 0) [
  | yes e ↦ rw (eq→test v 0 e) (
      sym (
        last_value-append 8 done (replicate (suc m) v)
        ∙ last_value-replicate (last_value 8 done) (suc m) v (inl e)))
  | no ne ↦ rw (ne→test v 0 ne) (
      sym (
        last_value-append 8 done (replicate (suc m) v)
        ∙ ap (λ (p : ℕ). last_value p (replicate m v))
            (ap (λ (t : Bool). if t then last_value 8 done else v) (ne→test v 0 ne))
        ∙ last_value-replicate v m v (inr refl)))
]
