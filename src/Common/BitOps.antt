-- ===== src/Common/BitOps.antt =====
-- `&` with a mask of low ones, and `|` of overlapping views of one number, as arithmetic.
use Prim.Native.Nat.{ℕ, zero, suc, ◌+◌, ◌-◌, ◌*◌, ◌/◌, ◌%◌, ◌^◌, ◌≤◌, ◌<◌, min, max}
use Prim.Native.Nat.{bit_and, bit_or, digits, bit_and-bitwise, bit_or-bitwise}
use mathlib.Core.Path.{◌≡◌, refl, sym, ap, ap₂, ◌∙◌}
use native.Mathlib.Nat.{le_refl, mod-one, div-one, div-div-eq-div-mul}
use native.Mathlib.Omega.{arith}
use mbrotli.Common.Pow.{pow-pos, pow-step, mod-mul}

-- The fuel of the native operations' definition does not matter.
more_fuel :
    (z : ℕ → ℕ) (f : ℕ → ℕ → ℕ) (n m a b : ℕ) → a ≤ n → a ≤ m → digits z f n a b ≡ digits z f m a b
more_fuel z f zero zero a b p q = refl
more_fuel z f zero (suc m) zero b p q = refl
more_fuel z f zero (suc m) (suc a) b p q = elim p [ ]
more_fuel z f (suc n) zero zero b p q = refl
more_fuel z f (suc n) zero (suc a) b p q = elim q [ ]
more_fuel z f (suc n) (suc m) zero b p q = refl
more_fuel z f (suc n) (suc m) (suc a) b p q =
    ap (λ (t : ℕ). t * 2 + f (suc a % 2) (b % 2))
      (more_fuel z f n m (suc a / 2) (b / 2) (omega arith) (omega arith))

pub and_digit : (a b : ℕ) → bit_and a b ≡ bit_and (a / 2) (b / 2) * 2 + min (a % 2) (b % 2)
and_digit zero b = rw (bit_and-bitwise 0 b, bit_and-bitwise 0 (b / 2)) (omega arith)
and_digit (suc a) b = omega (
  arith,
  bit_and-bitwise (suc a) b,
  bit_and-bitwise (suc a / 2) (b / 2),
  more_fuel (λ y. 0) min a (suc a / 2) (suc a / 2) (b / 2) (omega arith) (omega arith),
)

pub or_digit : (a b : ℕ) → bit_or a b ≡ bit_or (a / 2) (b / 2) * 2 + max (a % 2) (b % 2)
or_digit zero b = rw (bit_or-bitwise 0 b, bit_or-bitwise 0 (b / 2)) (omega arith)
or_digit (suc a) b = omega (
  arith,
  bit_or-bitwise (suc a) b,
  bit_or-bitwise (suc a / 2) (b / 2),
  more_fuel (λ y. y) max a (suc a / 2) (suc a / 2) (b / 2) (omega arith) (omega arith),
)

and_nil : (n a : ℕ) → a ≤ n → bit_and a 0 ≡ 0
and_nil n zero h = refl
and_nil zero (suc a) h = elim h [ ]
and_nil (suc n) (suc a) h = omega (arith, and_digit (suc a) 0, and_nil n (suc a / 2) (omega arith))

or_nil : (n a : ℕ) → a ≤ n → bit_or a 0 ≡ a
or_nil n zero h = refl
or_nil zero (suc a) h = elim h [ ]
or_nil (suc n) (suc a) h = omega (arith, or_digit (suc a) 0, or_nil n (suc a / 2) (omega arith))

-- The lowest bit and the rest of a number cut to some bits.
cut : (x k : ℕ) → (x % 2 ^ suc k % 2 ≡ x % 2) × (x % 2 ^ suc k / 2 ≡ x / 2 % 2 ^ k)
cut x k =
    omega (arith, ap (λ (t : ℕ). x % t) (pow-step k), mod-mul x 2 (2 ^ k) (omega arith) (pow-pos k))

-- `x & ((1 << k) - 1)` keeps the low `k` bits.
pub bit_and_mask : (k x : ℕ) → bit_and x (2 ^ k - 1) ≡ x % 2 ^ k
bit_and_mask zero x = omega (arith, and_nil x x (le_refl x))
bit_and_mask (suc k) x = omega (
  arith,
  and_digit x (2 ^ suc k - 1),
  pow-step k,
  pow-pos k,
  ap (λ (t : ℕ). bit_and (x / 2) t) (halved k),
  bit_and_mask k (x / 2),
  cut x k,
)
  where
    halved : (j : ℕ) → (2 ^ suc j - 1) / 2 ≡ 2 ^ j - 1
    halved j = omega (arith, pow-step j, pow-pos j)

max_zero : (m : ℕ) → max m 0 ≡ m
max_zero m = omega arith

max-suc : (m w : ℕ) → max (suc m) (suc w) ≡ suc (max m w)
max-suc m w = omega arith

bit_or-zero_left : (b : ℕ) → bit_or 0 b ≡ b
bit_or-zero_left b = bit_or-bitwise 0 b

-- Two cuts of one number, of which the wider wins.
or_cuts : (m w x : ℕ) → bit_or (x % 2 ^ m) (x % 2 ^ w) ≡ x % 2 ^ max m w
or_cuts zero w x =
    omega (
      arith,
      ap (λ (t : ℕ). bit_or t (x % 2 ^ w)) (mod-one x),
      bit_or-zero_left (x % 2 ^ w),
      widest,
    )
  where
    widest : x % 2 ^ w ≡ x % 2 ^ max 0 w
    widest = ap (λ (t : ℕ). x % 2 ^ t) (omega arith)
or_cuts (suc m) zero x = omega (
  arith,
  ap (bit_or (x % 2 ^ suc m)) (mod-one x),
  or_nil (x % 2 ^ suc m) (x % 2 ^ suc m) (le_refl _),
  ap (λ (t : ℕ). x % 2 ^ t) (max_zero (suc m)),
)
or_cuts (suc m) (suc w) x = omega (
  arith,
  or_digit (x % 2 ^ suc m) (x % 2 ^ suc w),
  cut x m,
  cut x w,
  ap₂ bit_or (cut x m).1 (cut x w).1,
  or_cuts m w (x / 2),
  cut x (max m w),
  ap (λ (t : ℕ). x % 2 ^ t) (max-suc m w),
)

-- `|` of the low `m` bits of a number with its bits from `c` up to `c + w`, where these touch.
pub bit_or_overlap :
    (c m w x : ℕ) → c ≤ m → bit_or (x % 2 ^ m) (2 ^ c * (x / 2 ^ c % 2 ^ w)) ≡ x % 2 ^ max m (c + w)
bit_or_overlap zero m w x h =
    ap (bit_or (x % 2 ^ m)) same ∙ or_cuts m w x ∙ ap (λ (t : ℕ). x % 2 ^ max m t) (omega arith)
  where
    same : 2 ^ 0 * (x / 2 ^ 0 % 2 ^ w) ≡ x % 2 ^ w
    same = omega (arith, ap (λ (t : ℕ). t % 2 ^ w) (div-one x))
bit_or_overlap (suc c) zero w x h = elim h [ ]
bit_or_overlap (suc c) (suc m) w x h = omega (
  arith,
  or_digit (x % 2 ^ suc m) (2 ^ suc c * (x / 2 ^ suc c % 2 ^ w)),
  cut x m,
  doubled,
  ap₂ bit_or (cut x m).1 halved,
  bit_or_overlap c m w (x / 2) (omega arith),
  cut x (max m (c + w)),
  ap (λ (t : ℕ). x % 2 ^ t) widest,
)
  where
    rest : x / 2 ^ suc c ≡ x / 2 / 2 ^ c
    rest = ap (λ (t : ℕ). x / t) (pow-step c) ∙ sym (div-div-eq-div-mul x 2 (2 ^ c))

    doubled : 2 ^ suc c * (x / 2 ^ suc c % 2 ^ w) ≡ 2 * (2 ^ c * (x / 2 / 2 ^ c % 2 ^ w))
    doubled = omega (
      arith,
      ap (λ (t : ℕ). 2 ^ suc c * (t % 2 ^ w)) rest,
      ap (λ (t : ℕ). t * (x / 2 / 2 ^ c % 2 ^ w)) (pow-step c),
    )

    halved : 2 ^ suc c * (x / 2 ^ suc c % 2 ^ w) / 2 ≡ 2 ^ c * (x / 2 / 2 ^ c % 2 ^ w)
    halved = omega (arith, doubled)

    widest : max (suc m) (suc c + w) ≡ suc (max m (c + w))
    widest = omega arith

pub bit_or-lt : (k : ℕ) (a b : ℕ) → a < 2 ^ k → b < 2 ^ k → bit_or a b < 2 ^ k
bit_or-lt zero a b ha hb =
    let e : a ≡ 0 = omega arith in let f : b ≡ 0 = omega arith in rw (e, f) (omega arith)
bit_or-lt (suc k) a b ha hb = omega (
  arith,
  or_digit a b,
  pow-step k,
  bit_or-lt k (a / 2) (b / 2) (omega (arith, pow-step k)) (omega (arith, pow-step k)),
)

-- Numbers without a common bit.
pub bit_or_add : (k : ℕ) (a b : ℕ) → a < 2 ^ k → bit_or (2 ^ k * b) a ≡ 2 ^ k * b + a
bit_or_add zero a b ha =
    let e : a ≡ 0 = omega arith in
    rw e (omega (arith, or_nil (2 ^ 0 * b) (2 ^ 0 * b) (le_refl (2 ^ 0 * b))))
bit_or_add (suc k) a b ha = omega (
  arith,
  or_digit (2 ^ suc k * b) a,
  pow-step k,
  ap (λ (t : ℕ). t * b) (pow-step k),
  bit_or_add k (a / 2) b (omega (arith, pow-step k)),
  ap (λ (t : ℕ). bit_or t (a / 2))
      (let e : 2 ^ suc k * b / 2 ≡ 2 ^ k * b = omega (arith, ap (λ (t : ℕ). t * b) (pow-step k)) in
        e),
)

zero_or : (b : ℕ) → bit_or 0 b ≡ b
zero_or b = bit_or-bitwise 0 b

pub bit_or_low : (k : ℕ) (a b : ℕ) → a < 2 ^ k → bit_or a (2 ^ k * b) ≡ a + 2 ^ k * b
bit_or_low zero a b ha = let e : a ≡ 0 = omega arith in rw e (omega (arith, zero_or (2 ^ 0 * b)))
bit_or_low (suc k) a b ha = omega (
  arith,
  or_digit a (2 ^ suc k * b),
  pow-step k,
  ap (λ (t : ℕ). t * b) (pow-step k),
  bit_or_low k (a / 2) b (omega (arith, pow-step k)),
  ap (λ (t : ℕ). bit_or (a / 2) t)
      (let e : 2 ^ suc k * b / 2 ≡ 2 ^ k * b = omega (arith, ap (λ (t : ℕ). t * b) (pow-step k)) in
        e),
)
