-- ===== src/Prefix/LengthCode/Writes.antt =====
-- What replicating a code in a table changes.
use mbrotli.Common.{
  ℕ, zero, suc, ◌+◌, ◌*◌, ◌/◌, ◌%◌, ◌^◌, ◌<◌, arith, ltb, List, get_or, set, length, length-set,
  get_or-set_same, get_or-set_other,
}
use mbrotli.Common.{◌≡◌, ◌≢◌, refl, ap, ◌∙◌, Bool-cases, inl, inr, lt→ltb}
use mbrotli.Common.Pow.{pow-pos, pow-split, pow-join}
use native.Mathlib.Nat.{div-le_self}
use mbrotli.Prefix.LengthCode.{replicate_loop, replicate_code}

length-replicate_loop :
    (fuel index step v : ℕ) (table : List ℕ)
    → length (replicate_loop fuel index step v table) ≡ length table
unfolding replicate_loop
length-replicate_loop zero index step v table = refl
length-replicate_loop (suc fuel) index step v table = elim (Bool-cases (ltb index (length table))) [
  | inl t ↦ rw t (
      length-replicate_loop fuel (index + step) step v (set table index v)
      ∙ length-set table index v)
  | inr f ↦ rw f refl
]

replicate_loop-miss :
    (fuel index step v k : ℕ) (table : List ℕ)
    → ((j : ℕ) → k ≢ index + j * step)
    → get_or (replicate_loop fuel index step v table) k 0 ≡ get_or table k 0
unfolding replicate_loop
replicate_loop-miss zero index step v k table miss = refl
replicate_loop-miss (suc fuel) index step v k table miss =
    elim (Bool-cases (ltb index (length table))) [
      | inl t ↦ rw t (
          replicate_loop-miss fuel (index + step) step v k (set table index v)
            (λ j e. miss (suc j) (omega (arith, e)))
          ∙ get_or-set_other table index k v 0 (λ e. miss 0 (omega (arith, e))))
      | inr f ↦ rw f refl
    ]

replicate_loop-hit :
    (fuel j index step v k : ℕ) (table : List ℕ)
    → k ≡ index + j * step
    → 0 < step
    → k < length table
    → j < fuel
    → get_or (replicate_loop fuel index step v table) k 0 ≡ v
unfolding replicate_loop
replicate_loop-hit zero j index step v k table e some h enough = elim enough [ ]
replicate_loop-hit (suc fuel) zero index step v k table e some h enough =
    let same : k ≡ index = omega (arith, e) in
    rw (same, lt→ltb index (length table) (omega (arith, h, same)))
      (replicate_loop-miss fuel (index + step) step v index (set table index v)
          (λ j z. omega (arith, z, some))
        ∙ get_or-set_same table index v 0 (omega (arith, h, same)))
replicate_loop-hit (suc fuel) (suc j) index step v k table e some h enough =
    rw (lt→ltb index (length table) (omega (arith, h, e))) (
      replicate_loop-hit fuel j (index + step) step v k (set table index v) (omega (arith, e)) some
        (omega (arith, h, length-set table index v)) (omega (arith, enough)))

pub length-replicate_code :
    (table : List ℕ) (start step v : ℕ) → length (replicate_code table start step v) ≡ length table
unfolding replicate_code
length-replicate_code table start step v = length-replicate_loop (length table) start step v table

pub replicate_code-hit :
    (table : List ℕ) (start l v k : ℕ)
    → k % 2 ^ l ≡ start
    → k < length table
    → get_or (replicate_code table start (2 ^ l) v) k 0 ≡ v
unfolding replicate_code
replicate_code-hit table start l v k e h =
    replicate_loop-hit (length table) (k / 2 ^ l) start (2 ^ l) v k table
      (omega (arith, pow-split k l, e)) (pow-pos l) h (omega (arith, h, div-le_self k (2 ^ l)))

pub replicate_code-miss :
    (table : List ℕ) (start l v k : ℕ)
    → start < 2 ^ l
    → k % 2 ^ l ≢ start
    → get_or (replicate_code table start (2 ^ l) v) k 0 ≡ get_or table k 0
unfolding replicate_code
replicate_code-miss table start l v k small ne =
    replicate_loop-miss (length table) start (2 ^ l) v k table
      (λ j e. ne (ap (λ (t : ℕ). t % 2 ^ l) (omega (arith, e)) ∙ (pow-join l j start small).1))
