-- ===== src/Prefix/Lengths/Holds.antt =====
-- The state of the reader after a sequence of code lengths, and how a symbol changes it.
use mbrotli.Common.{
  ℕ, zero, suc, ◌+◌, ◌-◌, ◌*◌, ◌/◌, ◌^◌, ◌≤◌, arith, ◌==◌, if◌then◌else◌, List, [], ◌∷◌, ◌++◌, Bool,
}
use mbrotli.Common.{
  ◌≡◌, ◌≢◌, ◌⊎◌, inl, inr, refl, sym, ap, ap₂, ◌∙◌, eq→test, ne→test, ge→ltb, length, replicate,
  length-append,
}
use mbrotli.Common.Pow.{pow-pos, pow-add, div-mod_unique}
use native.Mathlib.Decide.{ℕ_discrete}
use mbrotli.Command.{pos}
use mbrotli.Decoder.Errors.{ready}
use mbrotli.Prefix.Lists.{Lists, clear, push, push_run, assign_loop}
use mbrotli.Prefix.Lists.Order.{
  pushes, push_run-pushes, Below, Below-Before, Below-later, push-Below,
}
use mbrotli.Prefix.Lengths.{Reader, minus, plain, repeated}

-- The share of the code space that a length takes, of 32768 in all.
abbrev pub weight : ℕ → ℕ
weight x = if x == 0 then 0 else 2 ^ (15 - x)

unfoldable pub kraft : List ℕ → ℕ
kraft [] = 0
kraft (x ∷ xs) = weight x + kraft xs

-- The last length that is not zero.
unfoldable pub last_value : ℕ → List ℕ → ℕ
last_value p [] = p
last_value p (x ∷ xs) = last_value (if x == 0 then p else x) xs

pub kraft-append : (xs ys : List ℕ) → kraft (xs ++ ys) ≡ kraft xs + kraft ys
unfolding kraft
kraft-append [] ys = omega arith
kraft-append (x ∷ xs) ys = omega (arith, kraft-append xs ys)

pub kraft-replicate : (n v : ℕ) → kraft (replicate n v) ≡ n * weight v
unfolding kraft
kraft-replicate zero v = omega arith
kraft-replicate (suc n) v = omega (arith, kraft-replicate n v)

pub last_value-append :
    (p : ℕ) (xs ys : List ℕ) → last_value p (xs ++ ys) ≡ last_value (last_value p xs) ys
unfolding last_value
last_value-append p [] ys = refl
last_value-append p (x ∷ xs) ys = last_value-append (if x == 0 then p else x) xs ys

pub last_value-replicate : (p n v : ℕ) → (v ≡ 0) ⊎ (v ≡ p) → last_value p (replicate n v) ≡ p
unfolding last_value
last_value-replicate p zero v h = refl
last_value-replicate p (suc n) v (inl e) =
    ap (λ (q : ℕ). last_value q (replicate n v))
      (ap (λ (t : Bool). if t then p else v) (eq→test v 0 e))
    ∙ last_value-replicate p n v (inl e)
last_value-replicate p (suc n) v (inr e) = elim (ℕ_discrete v 0) [
  | yes z ↦
      ap (λ (q : ℕ). last_value q (replicate n v))
        (ap (λ (t : Bool). if t then p else v) (eq→test v 0 z))
      ∙ last_value-replicate p n v (inr e)
  | no z ↦
      ap (λ (q : ℕ). last_value q (replicate n v))
        (ap (λ (t : Bool). if t then p else v) (ne→test v 0 z) ∙ e)
      ∙ last_value-replicate p n v (inr e)
]

pub assign_loop-append :
    (s : ℕ) (xs ys : List ℕ) (l : Lists)
    → assign_loop s (xs ++ ys) l ≡ assign_loop (s + length xs) ys (assign_loop s xs l)
unfolding assign_loop
assign_loop-append s [] ys l = ap (λ (t : ℕ). assign_loop t ys l) (omega arith)
assign_loop-append s (x ∷ xs) ys l =
    assign_loop-append (suc s) xs ys (if x == 0 then l else push s x l)
    ∙ ap (λ (t : ℕ). assign_loop t ys (assign_loop (suc s) xs (if x == 0 then l else push s x l)))
        (let e : suc s + length xs ≡ s + suc (length xs) = omega arith in e)

replicate-suc : (n v : ℕ) → replicate (suc n) v ≡ replicate n v ++ (v ∷ [])
replicate-suc zero v = refl
replicate-suc (suc n) v = ap (λ (t : List ℕ). v ∷ t) (replicate-suc n v)

pub replicate-add : (a b v : ℕ) → replicate a v ++ replicate b v ≡ replicate (a + b) v
replicate-add zero b v = ap (λ (n : ℕ). replicate n v) (omega arith)
replicate-add (suc a) b v =
    ap (λ (t : List ℕ). v ∷ t) (replicate-add a b v)
    ∙ ap (λ (n : ℕ). replicate n v) (let e : suc (a + b) ≡ suc a + b = omega arith in e)

pub length-replicate : (n v : ℕ) → length (replicate n v) ≡ n
length-replicate zero v = refl
length-replicate (suc n) v = ap suc (length-replicate n v)

pub assign_loop-zeros : (n s : ℕ) (l : Lists) → assign_loop s (replicate n 0) l ≡ l
unfolding assign_loop
assign_loop-zeros zero s l = refl
assign_loop-zeros (suc n) s l = assign_loop-zeros n (suc s) l

assign_loop-pushes :
    (n s v : ℕ) (l : Lists) → v ≢ 0 → assign_loop s (replicate n v) l ≡ pushes n s v l
unfolding assign_loop pushes
assign_loop-pushes zero s v l ne = refl
assign_loop-pushes (suc n) s v l ne =
    ap (λ (t : List ℕ). assign_loop s t l) (replicate-suc n v)
    ∙ assign_loop-append s (replicate n v) (v ∷ []) l
    ∙ ap₂ (λ (m : ℕ) (t : Lists). assign_loop m (v ∷ []) t)
        (ap (λ (m : ℕ). s + m) (length-replicate n v)) (assign_loop-pushes n s v l ne)
    ∙ ap (λ (t : Bool). if t then pushes n s v l else push (s + n) v (pushes n s v l))
        (ne→test v 0 ne)

-- The reader that has read the lengths `done`.
pub record Holds (l : Lists) (done : List ℕ) (r : Reader) : Type 0 where
  pub placed : r.index ≡ length done
  pub below : Below (length done) r.lists
  pub built : r.lists ≡ assign_loop 0 done (clear l)
  pub fits : kraft done ≤ 32768
  pub left : r.space ≡ pos (32768 - kraft done)
  pub last : r.previous ≡ last_value 8 done

share : (v : ℕ) → v ≤ 15 → 32768 / 2 ^ v ≡ 2 ^ (15 - v)
share v h =
    ap (λ (t : ℕ). t / 2 ^ v) (omega (arith, pow-add v (15 - v), whole))
    ∙ (div-mod_unique (2 ^ v) (2 ^ (15 - v)) 0 (pow-pos v)).0
  where
    whole : 2 ^ (v + (15 - v)) ≡ 32768
    whole = ap (λ (t : ℕ). 2 ^ t) (let e : v + (15 - v) ≡ 15 = omega (arith, h) in e)

minus-pos : (n k : ℕ) → k ≤ n → minus (pos n) k ≡ pos (n - k)
unfolding minus
minus-pos n k h = rw (ge→ltb n k h) refl

pushes-Below :
    (n start v : ℕ) (l : Lists)
    → v ≤ 15
    → start + n ≤ 65535
    → Below start l
    → Below (start + n) (pushes n start v l)
unfolding pushes
pushes-Below zero start v l le room b = Below-later (omega arith) b
pushes-Below (suc n) start v l le room b = Below-later (omega arith) (
    push-Below (start + n) v (pushes n start v l) (omega (arith, room)) le
      (pushes-Below n start v l le (omega (arith, room)) b))

-- A reader that has taken `n` lengths `v` more.
pub record Extends (n v : ℕ) (r r' : Reader) : Type 0 where
  pub index : r'.index ≡ r.index + n
  pub lists : r'.lists ≡ (if v == 0 then r.lists else pushes n r.index v r.lists)
  pub space : r'.space ≡ (if v == 0 then r.space else minus r.space (n * 2 ^ (15 - v)))
  pub previous : r'.previous ≡ last_value r.previous (replicate n v)

pub Extends-Holds :
    {l : Lists} {done : List ℕ} {r r' : Reader} (n v : ℕ)
    → Holds l done r
    → Extends n v r r'
    → v ≤ 15
    → kraft done + n * weight v ≤ 32768
    → length done + n ≤ 65535
    → Holds l (done ++ replicate n v) r'
Extends-Holds {l} {done} {r} {r'} n v h x le fit room = record {
  placed = x.index ∙ omega (arith, h.placed, longer);
  below = elim (ℕ_discrete v 0) [
    | yes e ↦ rw (x.lists, eq→test v 0 e) (Below-later (omega (arith, longer)) h.below)
    | no ne ↦
        rw (x.lists, ne→test v 0 ne, h.placed)
          (Below-later (omega (arith, longer))
            (pushes-Below n (length done) v r.lists le room h.below))
  ];
  built = x.lists ∙ elim (ℕ_discrete v 0) [
    | yes e ↦ rw (eq→test v 0 e) (
        h.built
        ∙ sym (
            assign_loop-append 0 done (replicate n v) (clear l)
            ∙ ap
                (λ (t : ℕ).
                  assign_loop (0 + length done) (replicate n t) (assign_loop 0 done (clear l)))
                e
            ∙ assign_loop-zeros n (0 + length done) (assign_loop 0 done (clear l))))
    | no ne ↦ rw (ne→test v 0 ne) (
        ap₂ (λ (m : ℕ) (t : Lists). pushes n m v t) h.placed h.built
        ∙ sym (
            assign_loop-append 0 done (replicate n v) (clear l)
            ∙ assign_loop-pushes n (0 + length done) v (assign_loop 0 done (clear l)) ne
            ∙ ap (λ (m : ℕ). pushes n m v (assign_loop 0 done (clear l)))
                (let e : 0 + length done ≡ length done = omega arith in e)))
  ];
  fits = omega (arith, fit, more);
  left = x.space ∙ elim (ℕ_discrete v 0) [
    | yes e ↦ rw (eq→test v 0 e) (h.left ∙ ap pos (omega (arith, more, none e)))
    | no ne ↦
        rw (ne→test v 0 ne, h.left)
          (minus-pos (32768 - kraft done) (n * 2 ^ (15 - v)) (omega (arith, fit, some ne))
            ∙ ap pos (omega (arith, more, some ne)))
  ];
  last =
      x.previous
      ∙ ap (λ (p : ℕ). last_value p (replicate n v)) h.last
      ∙ sym (last_value-append 8 done (replicate n v));
}
  where
    longer : length (done ++ replicate n v) ≡ length done + n
    longer =
        length-append done (replicate n v) ∙ ap (λ (t : ℕ). length done + t) (length-replicate n v)

    more : kraft (done ++ replicate n v) ≡ kraft done + n * weight v
    more = kraft-append done (replicate n v) ∙ ap (λ (t : ℕ). kraft done + t) (kraft-replicate n v)

    none : v ≡ 0 → n * weight v ≡ 0
    none e = ap (λ (t : Bool). n * (if t then 0 else 2 ^ (15 - v))) (eq→test v 0 e) ∙ omega arith

    some : v ≢ 0 → n * weight v ≡ n * 2 ^ (15 - v)
    some ne = ap (λ (t : Bool). n * (if t then 0 else 2 ^ (15 - v))) (ne→test v 0 ne)

pub plain-Extends : (v : ℕ) (r : Reader) → v ≤ 15 → Extends 1 v r (plain v r)
unfolding plain last_value pushes
plain-Extends v r le = record {
  index = refl;
  lists = ap (λ (m : ℕ). if v == 0 then r.lists else push m v r.lists) (omega arith);
  space = ap (λ (m : ℕ). if v == 0 then r.space else minus r.space m) (share v le ∙ omega arith);
  previous = refl;
}

-- A repeat code, where `before` lengths of the run are read.
pub repeated-Extends :
    (alphabet symbol extra before n v : ℕ) (r : Reader)
    → v ≤ 15
    → (if symbol == 16 then r.previous else 0) ≡ v
    → (if r.repeat_length == v then r.repeat else 0) ≡ before
    → (if before == 0 then 0 else (before - 2) * 2 ^ (symbol - 14)) + extra + 3 ≡ before + suc n
    → Below r.index r.lists
    → (v ≡ 0) ⊎ (v ≡ r.previous)
    → r.index + suc n ≤ alphabet
    → r.index + suc n ≤ 65535
    → (r' : Reader) × (repeated alphabet symbol extra r ≡ ready r')
      × Extends (suc n) v r r'
      × (r'.repeat ≡ before + suc n)
      × (r'.repeat_length ≡ v)
unfolding repeated
repeated-Extends alphabet symbol extra before n v r le value chain total below same room small =
    let delta : before + suc n - before ≡ suc n = omega arith in
    rw (value, chain, total, delta, ge→ltb alphabet (r.index + suc n) room)
      (run_reader, refl, extends, refl, refl)
  where
    run_reader : Reader
    run_reader = record {
      lists = if v == 0 then r.lists else push_run r.index (r.index + suc n) v r.lists;
      index = r.index + suc n;
      space = if v == 0 then r.space else minus r.space (suc n * 2 ^ (15 - v));
      previous = r.previous;
      repeat_length = v;
      repeat = before + suc n;
    }

    extends : Extends (suc n) v r run_reader
    extends = record {
      index = refl;
      lists =
          ap (λ (t : Lists). if v == 0 then r.lists else t)
            (ap (λ (e : ℕ). push_run r.index e v r.lists) (omega arith)
              ∙ push_run-pushes r.index n v r.lists (Below-Before below le) (omega (arith, small)));
      space = refl;
      previous = sym (last_value-replicate r.previous (suc n) v same);
    }
