-- ===== src/Prefix/Lists/Order.antt =====
-- A run that links itself in one pass is the same as its symbols appended one by one.
use mbrotli.Common.{
  ℕ, zero, suc, ◌+◌, ◌-◌, ◌%◌, ◌^◌, ◌≤◌, ◌<◌, arith, ◌==◌, if◌then◌else◌, List, [], ◌∷◌, get_or,
  set, length,
}
use mbrotli.Common.{
  ◌≡◌, ◌≢◌, ◌⊎◌, inl, inr, refl, sym, ap, ◌∙◌, false, eq→test, ne→test, get_or-set_same,
  get_or-set_other, length-set, replicate,
}
use native.Mathlib.Decide.{ℕ_discrete}
use mbrotli.Prefix.Lists.{clear, Lists, none_link, push, link_run, push_run}

-- The symbols from `start` on, appended one by one.
unfoldable pub pushes : ℕ → ℕ → ℕ → Lists → Lists
unfolding push
pushes zero start length l = l
pushes (suc n) start length l = push (start + n) length (pushes n start length l)

set-set_same : {A : Type 0} (xs : List A) (i : ℕ) (v w : A) → set (set xs i v) i w ≡ set xs i w
set-set_same [] i v w = refl
set-set_same (x ∷ xs) zero v w = refl
set-set_same (x ∷ xs) (suc i) v w = ap (λ ys. x ∷ ys) (set-set_same xs i v w)

set-set_comm :
    {A : Type 0} (xs : List A) (i j : ℕ) (v w : A)
    → i ≢ j
    → set (set xs i v) j w ≡ set (set xs j w) i v
set-set_comm [] i j v w ne = refl
set-set_comm (x ∷ xs) zero zero v w ne = absurd (ne refl)
set-set_comm (x ∷ xs) zero (suc j) v w ne = refl
set-set_comm (x ∷ xs) (suc i) zero v w ne = refl
set-set_comm (x ∷ xs) (suc i) (suc j) v w ne =
    ap (λ ys. x ∷ ys) (set-set_comm xs i j v w (λ e. ne (ap suc e)))

-- The tail of the list of `k` is none, or a symbol before `start`.
pub record Before (start k : ℕ) (l : Lists) : Type 0 where
  pub in_tail : suc k ≤ length l.tail
  pub in_counts : suc k ≤ length l.counts
  pub earlier : (get_or l.tail k 0 ≡ none_link) ⊎ (get_or l.tail k 0 < start)

-- The links of a run with one more symbol, and a write before the run.
links-suc :
    (n start a : ℕ) (xs : List ℕ)
    → set (link_run (suc n) start xs) (suc (start + n)) a
      ≡ set
          (set
            (set (link_run n start xs) (start + n) none_link)
            (start + n)
            ((suc (start + n)) % 2 ^ 16))
          (suc (start + n))
          a
unfolding link_run
links-suc n start a xs =
    ap (λ (t : List ℕ). set t (suc (start + n)) a)
      (sym (set-set_same (link_run n start xs) (start + n) none_link ((suc (start + n)) % 2 ^ 16)))

links-set :
    (n start a p v : ℕ) (xs : List ℕ)
    → p < start
    → set (set (link_run (suc n) start xs) (suc (start + n)) a) p v
      ≡ set
          (set
            (set (set (link_run n start xs) (start + n) none_link) p v)
            (start + n)
            ((suc (start + n)) % 2 ^ 16))
          (suc (start + n))
          a
links-set n start a p v xs h =
    ap (λ (t : List ℕ). set t p v) (links-suc n start a xs)
    ∙ set-set_comm
        (set (set (link_run n start xs) (start + n) none_link) (start + n)
          ((suc (start + n)) % 2 ^ 16))
        (suc (start + n)) p a v (omega (arith, h))
    ∙ ap (λ (t : List ℕ). set t (suc (start + n)) a)
        (set-set_comm (set (link_run n start xs) (start + n) none_link) (start + n) p
          ((suc (start + n)) % 2 ^ 16) v (omega (arith, h)))

-- What a run of `suc n` symbols leaves.
run_lists : ℕ → ℕ → ℕ → Lists → Lists
unfolding link_run
run_lists n start k l =
    let previous = get_or l.tail k 0 in
    let linked = set (link_run n start l.next) (start + n) none_link in
    record {
      next = if previous == none_link then linked else set linked previous (start % 2 ^ 16);
      head = if previous == none_link then set l.head k (start % 2 ^ 16) else l.head;
      tail = set l.tail k ((start + n) % 2 ^ 16);
      counts = set l.counts k (get_or l.counts k 0 + suc n);
      total = l.total + suc n;
      last = start + n;
    }

push_run_lem :
    (n start k : ℕ) (l : Lists)
    → start + n < 65535
    → push_run start (suc (start + n)) k l ≡ run_lists n start k l
unfolding push_run run_lists
push_run_lem n start k l room =
    let a : suc (start + n) - 1 - start ≡ n = omega arith in
    let b : suc (start + n) - 1 ≡ start + n = omega arith in
    let c : (suc (start + n) - start) % 2 ^ 16 ≡ suc n = omega (arith, room) in
    let d : suc (start + n) - start ≡ suc n = omega arith in rw (a, b, c, d) refl

-- One more symbol at the end of a run.
run_lists-suc :
    (n start k : ℕ) (l : Lists)
    → Before start k l
    → suc (start + n) < 65535
    → run_lists (suc n) start k l ≡ push (start + suc n) k (run_lists n start k l)
unfolding run_lists push
run_lists-suc n start k l before room =
    let e : start + suc n ≡ suc (start + n) = omega arith in
    let tail : get_or (set l.tail k ((start + n) % 2 ^ 16)) k 0 ≡ start + n =
      get_or-set_same l.tail k ((start + n) % 2 ^ 16) 0 before.in_tail ∙ omega (arith, room) in
    let more : (start + n == none_link) ≡ false = ground arith in
    let count : set l.counts k (get_or l.counts k 0 + suc (suc n))
        ≡ set (set l.counts k (get_or l.counts k 0 + suc n)) k
            (get_or (set l.counts k (get_or l.counts k 0 + suc n)) k 0 + 1) =
      sym (
        set-set_same l.counts k (get_or l.counts k 0 + suc n)
          (get_or (set l.counts k (get_or l.counts k 0 + suc n)) k 0 + 1)
        ∙ ap (λ (v : ℕ). set l.counts k v)
            (omega (
              arith,
              get_or-set_same l.counts k (get_or l.counts k 0 + suc n) 0 before.in_counts,
            ))) in
    let total : l.total + suc (suc n) ≡ l.total + suc n + 1 = omega arith in
    elim before.earlier [
      | inl none ↦
          rw (e, tail, more, eq→test (get_or l.tail k 0) none_link none)
            (λ i. record {
              next = links-suc n start none_link l.next i;
              head = set l.head k (start % 2 ^ 16);
              tail =
                  sym (set-set_same l.tail k ((start + n) % 2 ^ 16) (suc (start + n) % 2 ^ 16)) i;
              counts = count i;
              total = total i;
              last = suc (start + n);
            })
      | inr p ↦
          rw (e, tail, more, ne→test (get_or l.tail k 0) none_link (λ z. omega (arith, z, p, room)))
            (λ i. record {
              next = links-set n start none_link (get_or l.tail k 0) (start % 2 ^ 16) l.next p i;
              head = l.head;
              tail =
                  sym (set-set_same l.tail k ((start + n) % 2 ^ 16) (suc (start + n) % 2 ^ 16)) i;
              counts = count i;
              total = total i;
              last = suc (start + n);
            })
    ]

run_lists-zero :
    (start k : ℕ) (l : Lists)
    → Before start k l
    → start < 65535
    → run_lists 0 start k l ≡ push (start + 0) k l
unfolding run_lists push link_run
run_lists-zero start k l before room =
    let e : start + 0 ≡ start = omega arith in
    elim before.earlier [
      | inl none ↦ rw (e, eq→test (get_or l.tail k 0) none_link none) refl
      | inr p ↦
          rw (e, ne→test (get_or l.tail k 0) none_link (λ z. omega (arith, z, p, room)))
            (λ i. record {
              next =
                  set-set_comm l.next start (get_or l.tail k 0) none_link (start % 2 ^ 16)
                    (λ z. omega (arith, z, p)) i;
              head = l.head;
              tail = set l.tail k (start % 2 ^ 16);
              counts = set l.counts k (get_or l.counts k 0 + 1);
              total = l.total + 1;
              last = start;
            })
    ]

run_lists-pushes :
    (n start k : ℕ) (l : Lists)
    → Before start k l
    → start + n < 65535
    → run_lists n start k l ≡ pushes (suc n) start k l
unfolding pushes
run_lists-pushes zero start k l before room = run_lists-zero start k l before (omega (arith, room))
run_lists-pushes (suc n) start k l before room =
    run_lists-suc n start k l before (omega (arith, room))
    ∙ ap (push (start + suc n) k) (run_lists-pushes n start k l before (omega (arith, room)))

-- For lists that hold symbols before `start` only, and a length they have a list for: appending
-- the run from `start` to `end` by `push_run`, whose symbols it links in one pass, leaves the same
-- lists, links, counts and totals as appending the symbols one by one by `push`.
pub push_run-pushes :
    (start n k : ℕ) (l : Lists)
    → Before start k l
    → start + n < 65535
    → push_run start (suc (start + n)) k l ≡ pushes (suc n) start k l
push_run-pushes start n k l before room =
    push_run_lem n start k l room ∙ run_lists-pushes n start k l before room

-- All symbols of the sixteen lists are before `symbol`.
pub record Below (symbol : ℕ) (l : Lists) : Type 0 where
  pub tails : length l.tail ≡ 16
  pub sizes : length l.counts ≡ 16
  pub all : (k : ℕ) → k ≤ 15 → (get_or l.tail k 0 ≡ none_link) ⊎ (get_or l.tail k 0 < symbol)

pub Below-Before : {symbol k : ℕ} {l : Lists} → Below symbol l → k ≤ 15 → Before symbol k l
Below-Before b h = record {
  in_tail = omega (arith, h, b.tails);
  in_counts = omega (arith, h, b.sizes);
  earlier = b.all _ h;
}

pub Below-later :
    {symbol symbol' : ℕ} {l : Lists} → symbol ≤ symbol' → Below symbol l → Below symbol' l
Below-later h b = record {
  tails = b.tails;
  sizes = b.sizes;
  all = λ k le. elim (b.all k le) [ inl e ↦ inl e | inr p ↦ inr (omega (arith, p, h)) ];
}

pub push-Below :
    (symbol length : ℕ) (l : Lists)
    → symbol < 65535
    → length ≤ 15
    → Below symbol l
    → Below (suc symbol) (push symbol length l)
unfolding push
push-Below symbol k l h le b = record {
  tails = length-set l.tail k (symbol % 2 ^ 16) ∙ b.tails;
  sizes = length-set l.counts k (get_or l.counts k 0 + 1) ∙ b.sizes;
  all = λ j hj. elim (ℕ_discrete k j) [
    | yes e ↦ inr (
        omega (
          arith,
          h,
          get_or-set_same l.tail k (symbol % 2 ^ 16) 0 (omega (arith, le, b.tails)),
          ap (λ (t : ℕ). get_or (set l.tail k (symbol % 2 ^ 16)) t 0) e,
        ))
    | no ne ↦
        let other = get_or-set_other l.tail k j (symbol % 2 ^ 16) 0 ne in
        elim (b.all j hj) [ inl e ↦ inl (other ∙ e) | inr p ↦ inr (omega (arith, p, other)) ]
  ];
}

get_or-replicate : (n k a d : ℕ) → k < n → get_or (replicate n a) k d ≡ a
get_or-replicate zero k a d h = elim h [ ]
get_or-replicate (suc n) zero a d h = refl
get_or-replicate (suc n) (suc k) a d h = get_or-replicate n k a d (omega arith)

pub clear-Below : (l : Lists) → Below 0 (clear l)
unfolding clear
clear-Below l = record {
  tails = refl;
  sizes = refl;
  all = λ k h. inl (get_or-replicate 16 k none_link 0 (omega (arith, h)));
}
