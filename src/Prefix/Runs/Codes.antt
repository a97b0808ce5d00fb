-- ===== src/Prefix/Runs/Codes.antt =====
-- The runs as lists: what each writer of src/shared/huffman.rs appends while there is room.
use mbrotli.Common.{
  ℕ, zero, suc, ◌+◌, ◌-◌, ◌/◌, ◌%◌, ◌^◌, ◌≤◌, ◌<◌, arith, ltb, ◌==◌, if◌then◌else◌, [], ◌∷◌, ◌++◌,
  Bool,
}
use mbrotli.Common.{
  ◌≡◌, inl, inr, refl, sym, ap, ap₂, ◌∙◌, Bool-cases, eq→test, ne→test, lt→ltb, ltb→ge, length,
  replicate, take, drop, append_assoc, append-nil, length-append,
}
use native.Mathlib.Decide.{ℕ_discrete}
use native.Mathlib.Nat.{div-le_self}
use mbrotli.Prefix.Lengths.Chains.{chain}
use mbrotli.Prefix.Runs.{
  CodeLengthRuns, push_code, reversed, reverse, push_times, repeat_loop, write_rest, write_seven,
  write_repetitions, write_zero_repetitions,
}

abbrev pub plains : ℕ → ℕ → CodeLengthRuns
plains n v = replicate n (v, 0)

unfoldable pub rest_codes : ℕ → ℕ → ℕ → ℕ → CodeLengthRuns
rest_codes code width v n = if ltb n 3 then plains n v else chain (n - 3) code width (n - 3)

unfoldable pub seven_codes : ℕ → ℕ → CodeLengthRuns
unfolding rest_codes
seven_codes v n = if n == 7 then ((v, 0) ∷ rest_codes 16 2 v (n - 1)) else rest_codes 16 2 v n

unfoldable pub value_codes : ℕ → ℕ → ℕ → CodeLengthRuns
unfolding seven_codes
value_codes previous v n =
    if previous == v then seven_codes v n else ((v, 0) ∷ seven_codes v (n - 1))

unfoldable pub zero_codes : ℕ → CodeLengthRuns
unfolding rest_codes
zero_codes n = if n == 11 then ((0, 0) ∷ rest_codes 17 3 0 (n - 1)) else rest_codes 17 3 0 n

reversed-append : (xs : CodeLengthRuns) (x : ℕ × ℕ) → reversed (xs ++ (x ∷ [])) ≡ x ∷ reversed xs
unfolding reversed
reversed-append [] x = refl
reversed-append (y ∷ xs) x = ap (λ (t : CodeLengthRuns). t ++ (y ∷ [])) (reversed-append xs x)

reversed-reversed : (xs : CodeLengthRuns) → reversed (reversed xs) ≡ xs
unfolding reversed
reversed-reversed [] = refl
reversed-reversed (x ∷ xs) =
    reversed-append (reversed xs) x ∙ ap (λ (t : CodeLengthRuns). x ∷ t) (reversed-reversed xs)

take-length : (xs ys : CodeLengthRuns) → take (length xs) (xs ++ ys) ≡ xs
take-length [] ys = refl
take-length (x ∷ xs) ys = ap (λ (t : CodeLengthRuns). x ∷ t) (take-length xs ys)

drop-length : (xs ys : CodeLengthRuns) → drop (length xs) (xs ++ ys) ≡ ys
drop-length [] ys = refl
drop-length (x ∷ xs) ys = drop-length xs ys

reverse-append : (xs ys : CodeLengthRuns) → reverse (length xs) (xs ++ reversed ys) ≡ xs ++ ys
unfolding reverse
reverse-append xs ys =
    ap₂ (λ (a b : CodeLengthRuns). a ++ b) (take-length xs (reversed ys))
      (ap reversed (drop-length xs (reversed ys)) ∙ reversed-reversed ys)

push_code-room :
    (symbol extra : ℕ) (runs : CodeLengthRuns)
    → length runs < 704
    → push_code symbol extra runs ≡ runs ++ ((symbol, extra) ∷ [])
unfolding push_code
push_code-room symbol extra runs h =
    ap (λ (t : Bool). if t then runs ++ ((symbol, extra) ∷ []) else runs)
      (lt→ltb (length runs) 704 h)

snoc-length : (runs : CodeLengthRuns) (x : ℕ × ℕ) → length (runs ++ (x ∷ [])) ≡ length runs + 1
snoc-length runs x = length-append runs (x ∷ [])

push_times-room :
    (n v : ℕ) (runs : CodeLengthRuns)
    → length runs + n ≤ 704
    → push_times n v runs ≡ runs ++ plains n v
unfolding push_times
push_times-room zero v runs h = sym (append-nil runs)
push_times-room (suc n) v runs h =
    ap (push_times n v) (push_code-room v 0 runs (omega (arith, h)))
    ∙ push_times-room n v (runs ++ ((v, 0) ∷ [])) (omega (arith, h, snoc-length runs (v, 0)))
    ∙ append_assoc runs ((v, 0) ∷ []) (plains n v)

repeat_loop-room :
    (fuel code width n : ℕ) (runs : CodeLengthRuns)
    → length runs + suc n ≤ 704
    → repeat_loop fuel code width n runs ≡ runs ++ reversed (chain fuel code width n)
unfolding repeat_loop chain reversed
repeat_loop-room zero code width n runs h =
    push_code-room code (n % 2 ^ width) runs (omega (arith, h))
repeat_loop-room (suc fuel) code width n runs h = elim (ℕ_discrete (n / 2 ^ width) 0) [
  | yes z ↦
      rw (eq→test (n / 2 ^ width) 0 z) (push_code-room code (n % 2 ^ width) runs (omega (arith, h)))
  | no ne ↦
      let x : ℕ × ℕ = (code, n % 2 ^ width) in
      rw (ne→test (n / 2 ^ width) 0 ne) (
        ap (repeat_loop fuel code width (n / 2 ^ width - 1))
          (push_code-room code (n % 2 ^ width) runs (omega (arith, h)))
        ∙ repeat_loop-room fuel code width (n / 2 ^ width - 1) (runs ++ (x ∷ []))
            (omega (arith, h, ne, snoc-length runs x, div-le_self n (2 ^ width)))
        ∙ append_assoc runs (x ∷ []) (reversed (chain fuel code width (n / 2 ^ width - 1)))
        ∙ ap (λ (t : CodeLengthRuns). runs ++ t)
            (sym (reversed-append (chain fuel code width (n / 2 ^ width - 1)) x)))
]

write_rest-room :
    (code width v n : ℕ) (runs : CodeLengthRuns)
    → length runs + n ≤ 704
    → write_rest code width v n runs ≡ runs ++ rest_codes code width v n
unfolding write_rest rest_codes
write_rest-room code width v n runs h = elim (Bool-cases (ltb n 3)) [
  | inl few ↦ rw few (push_times-room n v runs h)
  | inr many ↦
      let more : 3 ≤ n = ltb→ge n 3 many in
      rw many (
        ap (reverse (length runs))
          (repeat_loop-room (n - 3) code width (n - 3) runs (omega (arith, h, more)))
        ∙ reverse-append runs (chain (n - 3) code width (n - 3)))
]

-- One plain code, and what follows it.
snoc-room :
    (v n : ℕ) (runs codes : CodeLengthRuns) (f : CodeLengthRuns → CodeLengthRuns)
    → length runs + suc n ≤ 704
    → ((runs' : CodeLengthRuns) → length runs' + n ≤ 704 → f runs' ≡ runs' ++ codes)
    → f (push_code v 0 runs) ≡ runs ++ ((v, 0) ∷ codes)
snoc-room v n runs codes f h p =
    ap f (push_code-room v 0 runs (omega (arith, h)))
    ∙ p (runs ++ ((v, 0) ∷ [])) (omega (arith, h, snoc-length runs (v, 0)))
    ∙ append_assoc runs ((v, 0) ∷ []) codes

write_seven-room :
    (v n : ℕ) (runs : CodeLengthRuns)
    → length runs + n ≤ 704
    → write_seven v n runs ≡ runs ++ seven_codes v n
unfolding write_seven seven_codes
write_seven-room v n runs h = elim (ℕ_discrete n 7) [
  | yes e ↦ rw (eq→test n 7 e) (
      snoc-room v (n - 1) runs (rest_codes 16 2 v (n - 1)) (write_rest 16 2 v (n - 1))
        (omega (arith, h, e)) (write_rest-room 16 2 v (n - 1)))
  | no ne ↦ rw (ne→test n 7 ne) (write_rest-room 16 2 v n runs h)
]

pub write_repetitions-room :
    (previous v n : ℕ) (runs : CodeLengthRuns)
    → 0 < n
    → length runs + n ≤ 704
    → write_repetitions previous v n runs ≡ runs ++ value_codes previous v n
unfolding write_repetitions value_codes
write_repetitions-room previous v n runs some h = elim (ℕ_discrete previous v) [
  | yes e ↦ rw (eq→test previous v e) (write_seven-room v n runs h)
  | no ne ↦ rw (ne→test previous v ne) (
      snoc-room v (n - 1) runs (seven_codes v (n - 1)) (write_seven v (n - 1))
        (omega (arith, h, some)) (write_seven-room v (n - 1)))
]

pub write_zero_repetitions-room :
    (n : ℕ) (runs : CodeLengthRuns)
    → length runs + n ≤ 704
    → write_zero_repetitions n runs ≡ runs ++ zero_codes n
unfolding write_zero_repetitions zero_codes
write_zero_repetitions-room n runs h = elim (ℕ_discrete n 11) [
  | yes e ↦ rw (eq→test n 11 e) (
      snoc-room 0 (n - 1) runs (rest_codes 17 3 0 (n - 1)) (write_rest 17 3 0 (n - 1))
        (omega (arith, h, e)) (write_rest-room 17 3 0 (n - 1)))
  | no ne ↦ rw (ne→test n 11 ne) (write_rest-room 17 3 0 n runs h)
]

length-chain : (fuel code w n : ℕ) → length (chain fuel code w n) ≤ suc n
unfolding chain
length-chain zero code w n = omega arith
length-chain (suc fuel) code w n = elim (ℕ_discrete (n / 2 ^ w) 0) [
  | yes z ↦ rw (eq→test (n / 2 ^ w) 0 z) (omega arith)
  | no ne ↦ rw (ne→test (n / 2 ^ w) 0 ne) (
      omega (
        arith,
        ne,
        length-chain fuel code w (n / 2 ^ w - 1),
        length-append (chain fuel code w (n / 2 ^ w - 1)) ((code, n % 2 ^ w) ∷ []),
        shrinks,
      ))
]
  where
    shrinks : n / 2 ^ w ≤ n
    shrinks = div-le_self n (2 ^ w)

length-plains : (n v : ℕ) → length (plains n v) ≡ n
length-plains zero v = refl
length-plains (suc n) v = ap suc (length-plains n v)

length-rest_codes : (code w v n : ℕ) → length (rest_codes code w v n) ≤ n
unfolding rest_codes
length-rest_codes code w v n = elim (Bool-cases (ltb n 3)) [
  | inl few ↦ rw few (omega (arith, length-plains n v))
  | inr many ↦ rw many (omega (arith, length-chain (n - 3) code w (n - 3), ltb→ge n 3 many))
]

length-seven_codes : (v n : ℕ) → length (seven_codes v n) ≤ n
unfolding seven_codes
length-seven_codes v n = elim (ℕ_discrete n 7) [
  | yes e ↦ rw (eq→test n 7 e) (omega (arith, e, length-rest_codes 16 2 v (n - 1)))
  | no ne ↦ rw (ne→test n 7 ne) (length-rest_codes 16 2 v n)
]

pub length-value_codes : (previous v n : ℕ) → 0 < n → length (value_codes previous v n) ≤ n
unfolding value_codes
length-value_codes previous v n some = elim (ℕ_discrete previous v) [
  | yes e ↦ rw (eq→test previous v e) (length-seven_codes v n)
  | no ne ↦ rw (ne→test previous v ne) (omega (arith, some, length-seven_codes v (n - 1)))
]

pub length-zero_codes : (n : ℕ) → length (zero_codes n) ≤ n
unfolding zero_codes
length-zero_codes n = elim (ℕ_discrete n 11) [
  | yes e ↦ rw (eq→test n 11 e) (omega (arith, e, length-rest_codes 17 3 0 (n - 1)))
  | no ne ↦ rw (ne→test n 11 ne) (length-rest_codes 17 3 0 n)
]
