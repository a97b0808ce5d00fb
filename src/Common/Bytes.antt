-- ===== src/Common/Bytes.antt =====
-- Bytes as groups of eight bits of a number, least significant first.
use Prim.Native.Nat.{ℕ, zero, suc, ◌+◌, ◌*◌, ◌/◌, ◌%◌, ◌^◌, ◌<◌}
use mathlib.Core.Path.{◌≡◌, sym, ap, ◌∙◌, refl}
use mathlib.Core.List.{List, [], ◌∷◌, ◌++◌}
use native.Mathlib.Nat.{div-one, mod-one, zero-div, zero-mod, div-div-eq-div-mul}
use native.Mathlib.Omega.{arith}
use mbrotli.Common.Lists.{length, take, drop, All}
use mbrotli.Common.Pow.{pow-pos, pow-add, mod-mul, digits-lt}

abbrev pub IsByte : ℕ → Type 0
IsByte b = b < 256

-- `u64::from_le_bytes`, at every length
unfoldable pub number : List ℕ → ℕ
number [] = 0
number (b ∷ bs) = b + 256 * number bs

-- `u64::to_le_bytes`, at every length
unfoldable pub to_le_bytes : ℕ → ℕ → List ℕ
to_le_bytes zero value = []
to_le_bytes (suc n) value = (value % 256) ∷ to_le_bytes n (value / 256)

pub byte_power : (n : ℕ) → 2 ^ (8 * suc n) ≡ 256 * 2 ^ (8 * n)
byte_power n = ap (λ (t : ℕ). 2 ^ t) eight ∙ pow-add 8 (8 * n)
  where
    eight : 8 * suc n ≡ 8 + 8 * n
    eight = omega arith

pub number-lt : (xs : List ℕ) → All IsByte xs → number xs < 2 ^ (8 * length xs)
unfolding number
number-lt [] h = omega arith
number-lt (x ∷ xs) (hx, hs) =
    rw (byte_power (length xs))
      (digits-lt 256 (2 ^ (8 * length xs)) x (number xs) hx (number-lt xs hs))

pub All-drop : (n : ℕ) (xs : List ℕ) → All IsByte xs → All IsByte (drop n xs)
All-drop zero xs h = h
All-drop (suc n) [] h = tt
All-drop (suc n) (x ∷ xs) (hx, hs) = All-drop n xs hs

-- Bytes are groups of eight bits.
pub number-drop :
    (n : ℕ) (xs : List ℕ) → All IsByte xs → number xs / 2 ^ (8 * n) ≡ number (drop n xs)
unfolding number
number-drop zero xs h = div-one _
number-drop (suc n) [] h = zero-div _
number-drop (suc n) (x ∷ xs) (hx, hs) =
    rw (byte_power n, ← div-div-eq-div-mul (x + 256 * number xs) 256 (2 ^ (8 * n)), rest)
      (number-drop n xs hs)
  where
    rest : (x + 256 * number xs) / 256 ≡ number xs
    rest = omega arith

pub number-take :
    (n : ℕ) (xs : List ℕ) → All IsByte xs → number (take n xs) ≡ number xs % 2 ^ (8 * n)
unfolding number
number-take zero xs h = omega (arith, mod-one (number xs))
number-take (suc n) [] h = sym (zero-mod _)
number-take (suc n) (x ∷ xs) (hx, hs) = omega (
  arith,
  ap (λ (t : ℕ). (x + 256 * number xs) % t) (byte_power n),
  mod-mul (x + 256 * number xs) 256 (2 ^ (8 * n)) (omega arith) (pow-pos (8 * n)),
  ap (λ (t : ℕ). t % 2 ^ (8 * n)) rest,
  number-take n xs hs,
)
  where
    rest : (x + 256 * number xs) / 256 ≡ number xs
    rest = omega arith

pub All-append : (xs ys : List ℕ) → All IsByte xs → All IsByte ys → All IsByte (xs ++ ys)
All-append [] ys h k = k
All-append (x ∷ xs) ys (hx, hs) k = (hx, All-append xs ys hs k)

pub number-append :
    (xs ys : List ℕ) → number (xs ++ ys) ≡ number xs + 2 ^ (8 * length xs) * number ys
unfolding number
number-append [] ys = omega arith
number-append (x ∷ xs) ys =
    omega (arith, number-append xs ys, ap (λ (t : ℕ). t * number ys) (byte_power (length xs)))

pub number-to_le_bytes : (n x : ℕ) → number (to_le_bytes n x) ≡ x % 2 ^ (8 * n)
unfolding number to_le_bytes
number-to_le_bytes zero x = omega (arith, mod-one x)
number-to_le_bytes (suc n) x = omega (
  arith,
  number-to_le_bytes n (x / 256),
  ap (λ (t : ℕ). x % t) (byte_power n),
  mod-mul x 256 (2 ^ (8 * n)) (omega arith) (pow-pos (8 * n)),
)

pub length-to_le_bytes : (n x : ℕ) → length (to_le_bytes n x) ≡ n
unfolding to_le_bytes
length-to_le_bytes zero x = refl
length-to_le_bytes (suc n) x = ap suc (length-to_le_bytes n (x / 256))

pub All-to_le_bytes : (n x : ℕ) → All IsByte (to_le_bytes n x)
unfolding to_le_bytes
All-to_le_bytes zero x = tt
All-to_le_bytes (suc n) x = (omega arith, All-to_le_bytes n (x / 256))

pub All-take : (n : ℕ) (xs : List ℕ) → All IsByte xs → All IsByte (take n xs)
All-take zero xs h = tt
All-take (suc n) [] h = tt
All-take (suc n) (x ∷ xs) (hx, hs) = (hx, All-take n xs hs)
