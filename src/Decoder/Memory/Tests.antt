-- ===== src/Decoder/Memory/Tests.antt =====
-- The account of storage with an allocator that gives 3 elements more than it is asked for, up to a
-- size.
use mbrotli.Common.{
  ℕ, ◌+◌, arith, max, leb, if◌then◌else◌, ◌≡◌, refl, sym, ap, Bool, true, false, Option, none, some,
  List, [], ◌∷◌, replicate,
}
use mbrotli.Decoder.Memory.{Buffer, Memory, Allocator, reserve}
use mbrotli.Decoder.Memory.Accounts.{Reserves}
use mbrotli.Decoder.Memory.Limit.{Slot, Ledger, Accounted, held, reserve_all, reserve_all-Accounted}

abbrev generous : Allocator
generous size capacity count more =
    if leb (count + more) 1000 then some (max capacity (count + more) + 3) else none

chosen : (b : Bool) (x y : ℕ) → (if b then some x else none) ≡ some y → y ≡ x
chosen true x y e = ap {B = ℕ} (λ (o : Option ℕ). elim o [ none ↦ x | some z ↦ z ]) (sym e)
chosen false x y e = ap {B = ℕ} (λ (o : Option ℕ). elim o [ none ↦ x | some z ↦ z ]) (sym e)

generous-Reserves : Reserves generous
generous-Reserves = record {
  granted = λ size capacity count more capacity' e.
      let g = chosen (leb (count + more) 1000) (max capacity (count + more) + 3) capacity' e in
      (omega (arith, g), omega (arith, g));
}

abbrev m : Memory
m = record { live = 40; limit = some 500 }

abbrev b : Buffer ℕ
b = record { items = replicate 7 0; capacity = 10 }

abbrev fresh : Buffer ℕ
fresh = record { items = []; capacity = 0 }

abbrev w : Ledger ℕ
w = record {
  memory = m;
  slots = record { size = 4; buffer = b } ∷ record { size = 4; buffer = fresh } ∷ [];
  excess = 0;
}

w-Accounted : Accounted w
unfolding held
w-Accounted = record { exact = refl; inside = omega arith; full = (omega arith, (omega arith, tt)) }

-- The second request passes the limit, and there is no third vector.
abbrev requests : List (ℕ × ℕ)
requests = (0, 12) ∷ (0, 2000) ∷ (0, 90) ∷ (1, 30) ∷ (2, 5) ∷ []

reserve_all-Accounted_example : Accounted (reserve_all generous requests w)
reserve_all-Accounted_example = reserve_all-Accounted generous-Reserves requests w w-Accounted

-- The account passes the limit here, by less than the excess.
after :
    ((reserve_all generous requests w).memory.live ≡ 504)
    × ((reserve_all generous requests w).excess ≡ 12)
unfolding reserve_all mbrotli.Decoder.Memory.Limit.reserve_at mbrotli.Decoder.Memory.Limit.beyond
    reserve mbrotli.Decoder.Memory.grow mbrotli.Decoder.Memory.within
    mbrotli.Decoder.Memory.allocate mbrotli.Decoder.Memory.checked_mul
    mbrotli.Decoder.Memory.checked_add mbrotli.Decoder.Memory.over_limit
after = (refl, refl)
