-- ===== src/Common/Pow.antt =====
-- Quotients and remainders by powers of two, and by products.
use Prim.Native.Nat.{ℕ, zero, suc, ◌+◌, ◌-◌, ◌*◌, ◌/◌, ◌%◌, ◌^◌, ◌≤◌, ◌<◌}
use mathlib.Core.Path.{◌≡◌, sym, ap, ◌∙◌}
use native.Mathlib.Nat.{pow-suc, one-le-pow, mod-eq_of_lt, mod-lt, mul-add-mod_self_left}
use native.Mathlib.Nat.{mul-add-div, div-eq_of_lt, div-add-mod, div-div-eq-div-mul}
use native.Mathlib.Nat.{add-zero, mul-le-mul_left, pow-le-pow_right}
use native.Mathlib.Omega.{arith}

pub pow-pos : (k : ℕ) → 0 < 2 ^ k
pow-pos k = one-le-pow k 2 (omega arith)

-- `2 ^ suc k` doubled, the form that `omega` can use.
pub pow-step : (k : ℕ) → 2 ^ suc k ≡ 2 * 2 ^ k
pow-step k = omega (arith, pow-suc 2 k)

pub pow-add : (a b : ℕ) → 2 ^ (a + b) ≡ 2 ^ a * 2 ^ b
pow-add a zero = rw add-zero (omega arith)
pow-add a (suc b) =
    ap (λ (t : ℕ). 2 ^ t) (add_suc a b)
    ∙ omega
        (arith, pow-step (a + b), pow-step b, pow-add a b, ap (λ (t : ℕ). 2 ^ a * t) (pow-step b))
  where
    add_suc : (n m : ℕ) → n + suc m ≡ suc (n + m)
    add_suc n m = omega arith

pub div-mod_unique : (m q r : ℕ) → r < m → ((m * q + r) / m ≡ q) × ((m * q + r) % m ≡ r)
div-mod_unique m q r h = (
  mul-add-div (omega arith) q r ∙ omega (arith, div-eq_of_lt h),
  mul-add-mod_self_left m q r ∙ mod-eq_of_lt h,
)

-- Two digits below a product stay below it.
pub digits-lt : (m n r s : ℕ) → r < m → s < n → r + m * s < m * n
digits-lt m n r s hr hs = omega (arith, mul-le-mul_left m hs)

-- The remainder by a product, in two digits.
pub mod-mul : (x m n : ℕ) → 0 < m → 0 < n → x % (m * n) ≡ x % m + m * (x / m % n)
mod-mul x m n hm hn =
    ap (λ (t : ℕ). t % (m * n)) whole
    ∙ (div-mod_unique (m * n) (x / m / n) (x % m + m * (x / m % n))
        (digits-lt m n (x % m) (x / m % n) (mod-lt x hm) (mod-lt (x / m) hn))).1
  where
    whole : x ≡ m * n * (x / m / n) + (x % m + m * (x / m % n))
    whole = omega (arith, div-add-mod x m, ap (λ (t : ℕ). m * t) (div-add-mod (x / m) n))

pub mod-pow-add : (x a b : ℕ) → x % 2 ^ (a + b) ≡ x % 2 ^ a + 2 ^ a * (x / 2 ^ a % 2 ^ b)
mod-pow-add x a b = rw (pow-add a b) (mod-mul x (2 ^ a) (2 ^ b) (pow-pos a) (pow-pos b))

pub mod-pow-lt : (x a : ℕ) → x % 2 ^ a < 2 ^ a
mod-pow-lt x a = mod-lt x (pow-pos a)

-- Low bits of low bits, and high bits of low bits.
pub mod-pow-add_parts :
    (x a b : ℕ)
    → (x % 2 ^ (a + b) / 2 ^ a ≡ x / 2 ^ a % 2 ^ b) × (x % 2 ^ (a + b) % 2 ^ a ≡ x % 2 ^ a)
mod-pow-add_parts x a b =
    let u = div-mod_unique (2 ^ a) (x / 2 ^ a % 2 ^ b) (x % 2 ^ a) (mod-pow-lt x a) in
    let e : x % 2 ^ (a + b) ≡ 2 ^ a * (x / 2 ^ a % 2 ^ b) + x % 2 ^ a =
      omega (arith, mod-pow-add x a b) in
    (ap (λ (t : ℕ). t / 2 ^ a) e ∙ u.0, ap (λ (t : ℕ). t % 2 ^ a) e ∙ u.1)

pub mod-mod-pow : (x a m : ℕ) → a ≤ m → x % 2 ^ m % 2 ^ a ≡ x % 2 ^ a
mod-mod-pow x a m h =
    ap (λ (t : ℕ). x % 2 ^ t % 2 ^ a) (omega arith) ∙ (mod-pow-add_parts x a (m - a)).1

pub mod-div-pow : (x a m : ℕ) → a ≤ m → x % 2 ^ m / 2 ^ a ≡ x / 2 ^ a % 2 ^ (m - a)
mod-div-pow x a m h =
    ap (λ (t : ℕ). x % 2 ^ t / 2 ^ a) (omega arith) ∙ (mod-pow-add_parts x a (m - a)).0

pub div-div-pow : (x a b : ℕ) → x / 2 ^ a / 2 ^ b ≡ x / 2 ^ (a + b)
div-div-pow x a b = div-div-eq-div-mul x (2 ^ a) (2 ^ b) ∙ ap (λ (t : ℕ). x / t) (sym (pow-add a b))

pub pow-le : {a b : ℕ} → a ≤ b → 2 ^ a ≤ 2 ^ b
pow-le h = pow-le-pow_right (omega arith) h

pub mod-pow-eq_of_lt : (x a : ℕ) → x < 2 ^ a → x % 2 ^ a ≡ x
mod-pow-eq_of_lt x a h = mod-eq_of_lt h

-- Low and high parts put together.
pub pow-split : (x a : ℕ) → x ≡ x % 2 ^ a + 2 ^ a * (x / 2 ^ a)
pow-split x a = omega (arith, div-add-mod x (2 ^ a))

pub pow-join :
    (a q r : ℕ) → r < 2 ^ a → ((r + 2 ^ a * q) / 2 ^ a ≡ q) × ((r + 2 ^ a * q) % 2 ^ a ≡ r)
pow-join a q r h =
    let u = div-mod_unique (2 ^ a) q r h in
    let e : r + 2 ^ a * q ≡ 2 ^ a * q + r = omega arith in
    (ap (λ (t : ℕ). t / 2 ^ a) e ∙ u.0, ap (λ (t : ℕ). t % 2 ^ a) e ∙ u.1)
