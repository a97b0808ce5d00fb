-- ===== src/Prefix/Runs/Whole.antt =====
-- The codes of a sequence, run by run.
use mbrotli.Common.{ℕ, zero, suc, ◌+◌, ◌≤◌, arith, if◌then◌else◌, List, [], ◌∷◌, ◌++◌, Bool}
use mbrotli.Common.{
  ◌≡◌, ◌⊎◌, inl, inr, refl, sym, ap, ap₂, ◌∙◌, Bool-cases, length, replicate, drop, All,
  append_assoc, append-nil, length-append,
}
use mathlib.Core.Path.{subst}
use mbrotli.Prefix.Lists.{Lists}
use mbrotli.Prefix.Lengths.{Reader}
use mbrotli.Prefix.Lengths.Holds.{
  kraft, Holds, last_value, kraft-append, kraft-replicate, length-replicate,
}
use mbrotli.Prefix.Lengths.Steps.{Read, Read-trans, Fresh}
use mbrotli.Prefix.Runs.{CodeLengthRuns, same_ahead, tree_loop}
use mbrotli.Prefix.Runs.Codes.{}
use mbrotli.Prefix.Runs.Reads.{Took}
use mbrotli.Prefix.Runs.Trimmed.{All-drop, Closed}
use mbrotli.Prefix.Runs.Pieces.{
  flag, more, run_codes, run_codes-room, length-run_codes, run_codes-Took, Idle, next-Idle,
  more-split, cut, cut-Room, drop-Closed, last_value-run,
}

-- What the codes of a sequence lead to.
pub record Whole (alphabet : ℕ) (l : Lists) (done depth : List ℕ) (r : Reader)
    (runs written : CodeLengthRuns) : Type 0 where
  pub codes : CodeLengthRuns
  pub reader : Reader
  pub appended : written ≡ runs ++ codes
  pub read : Read alphabet l r codes (done ++ depth) reader

pub nil-Whole :
    {alphabet : ℕ} {l : Lists} {done : List ℕ} (r : Reader) (runs : CodeLengthRuns)
    → Holds l done r
    → Whole alphabet l done [] r runs runs
nil-Whole {l = l} r runs h = record {
  codes = [];
  reader = r;
  appended = sym (append-nil runs);
  read = record { state = subst (λ d. Holds l d r) (sym (append-nil _)) h; loop = λ rest. refl };
}

pub cons-Whole :
    {alphabet : ℕ} {l : Lists} {done xs depth : List ℕ} {v n : ℕ} (r : Reader)
    (runs codes : CodeLengthRuns) {written written' : CodeLengthRuns}
    → replicate n v ++ xs ≡ depth
    → (took : Took alphabet l done v n r codes) → written ≡ written'
    → Whole alphabet l (done ++ replicate n v) xs took.reader (runs ++ codes) written'
    → Whole alphabet l done depth r runs written
cons-Whole {alphabet} {l} {done} {xs} {depth} {v} {n} r runs codes e took same w = record {
  codes = codes ++ w.codes;
  reader = w.reader;
  appended = same ∙ w.appended ∙ append_assoc runs codes w.codes;
  read =
      subst (λ d. Read alphabet l r (codes ++ w.codes) d w.reader)
        (append_assoc done (replicate n v) xs ∙ ap (λ (t : List ℕ). done ++ t) e)
        (Read-trans took.read w.read);
}

pub tree_loop-Whole :
    (fuel : ℕ) (a b : Bool) (alphabet : ℕ) {l : Lists} (depth : List ℕ) {done : List ℕ} (r : Reader)
    (runs : CodeLengthRuns)
    → length depth ≤ fuel
    → Holds l done r
    → Idle a b r depth
    → All (λ x. x ≤ 15) depth
    → Closed depth
    → kraft done + kraft depth ≤ 32768
    → length done + length depth ≤ alphabet
    → alphabet ≤ 65535
    → length runs + length depth ≤ 704
    → Whole alphabet l done depth r runs (tree_loop fuel a b (last_value 8 done) depth runs)
unfolding tree_loop Idle
tree_loop-Whole zero a b alphabet [] r runs enough h idle small closed fit room alpha space =
    nil-Whole r runs h
tree_loop-Whole zero a b alphabet (v ∷ rest) r runs enough h idle small closed fit room alpha
      space =
    elim enough [ ]
tree_loop-Whole (suc fuel) a b alphabet [] r runs enough h idle small closed fit room alpha space =
    nil-Whole r runs h
tree_loop-Whole (suc fuel) a b alphabet {l} (v ∷ rest) {done} r runs enough h idle (le, small)
      closed fit room alpha space =
    let m = more a b v rest in
    let split = more-split a b v rest in
    let c = cut v rest m split in
    let took =
      run_codes-Took v (suc m) h (fresh idle) (omega arith)
        (cut-Room m c le closed fit room alpha) in
    cons-Whole r runs (run_codes (last_value 8 done) v (suc m)) split took
      (ap₂ (λ (p : ℕ) (w : CodeLengthRuns). tree_loop fuel a b p (drop m rest) w)
        (last_value-run done v m)
        (run_codes-room (last_value 8 done) v (suc m) runs (omega arith)
          (omega (arith, space, c.sizes))))
      (tree_loop-Whole fuel a b alphabet (drop m rest) took.reader
        (runs ++ run_codes (last_value 8 done) v (suc m)) (omega (arith, enough, c.sizes))
        took.read.state (next-Idle a b v rest took.reader took.ended)
        (All-drop (λ x. x ≤ 15) m rest small) (drop-Closed v rest m closed)
        (omega (
          arith,
          fit,
          c.shares,
          kraft-append done (replicate (suc m) v),
          kraft-replicate (suc m) v,
        ))
        (omega (
          arith,
          room,
          c.sizes,
          length-append done (replicate (suc m) v),
          length-replicate (suc m) v,
        ))
        alpha
        (omega (
          arith,
          space,
          c.sizes,
          length-append runs (run_codes (last_value 8 done) v (suc m)),
          length-run_codes (last_value 8 done) v (suc m) (omega arith),
        )))
  where
    fresh : Idle a b r (v ∷ rest) → Fresh v r ⊎ (suc (more a b v rest) ≤ 1)
    fresh idle = elim (Bool-cases (flag a b v)) [
      | inl t ↦ inl (idle t)
      | inr f ↦ inr (omega (arith, ap (λ (t : Bool). if t then same_ahead v rest else 0) f))
    ]
