-- ===== src/Format/Contexts/Bounds.antt =====
-- Every literal context selects one of 64 trees.
use mbrotli.Common.{
  ℕ, ◌+◌, ◌<◌, arith, ◌≡◌, refl, true, ltb, ltb→lt, get_or, all_below, all_below_sound,
}
use mbrotli.Common.BitOps.{bit_or-lt}
use mbrotli.Format.Contexts.{ContextMode, lut, context}

entries_small : (mode : ContextMode) → all_below 512 (λ i. ltb (get_or (lut mode) i 0) 64) ≡ true
unfolding lut
entries_small ContextMode.utf8 = refl
entries_small ContextMode.signed = refl

-- In either mode, two bytes give a context below 64.
pub context-lt :
    (mode : ContextMode) (prev1 prev2 : ℕ)
    → prev1 < 256
    → prev2 < 256
    → context mode prev1 prev2 < 64
unfolding context
context-lt mode prev1 prev2 h1 h2 =
    bit_or-lt 6 (get_or (lut mode) prev1 0) (get_or (lut mode) (256 + prev2) 0)
      (small prev1 (omega arith)) (small (256 + prev2) (omega arith))
  where
    small : (i : ℕ) → i < 512 → get_or (lut mode) i 0 < 64
    small i h =
        ltb→lt _ _
          (all_below_sound 512 (λ i. ltb (get_or (lut mode) i 0) 64) i (entries_small mode) h)
