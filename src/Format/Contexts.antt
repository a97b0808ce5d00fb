-- ===== src/Format/Contexts.antt =====
-- The literal context tables and `ContextMode` of src/shared/format.rs.
pub mod Bounds
use mbrotli.Common.{ℕ, ◌+◌, bit_or, List, [], ◌∷◌, get_or}

abbrev context_lut_utf8 : List ℕ
context_lut_utf8 =
    0 ∷ 0 ∷ 0 ∷ 0 ∷ 0 ∷ 0 ∷ 0 ∷ 0 ∷ 0 ∷ 4 ∷ 4 ∷ 0 ∷ 0 ∷ 4 ∷ 0 ∷ 0 ∷ 0 ∷ 0 ∷ 0 ∷ 0 ∷ 0 ∷ 0 ∷ 0 ∷ 0
    ∷ 0 ∷ 0 ∷ 0 ∷ 0 ∷ 0 ∷ 0 ∷ 0 ∷ 0 ∷ 8 ∷ 12 ∷ 16 ∷ 12 ∷ 12 ∷ 20 ∷ 12 ∷ 16 ∷ 24 ∷ 28 ∷ 12 ∷ 12 ∷ 32
    ∷ 12 ∷ 36 ∷ 12 ∷ 44 ∷ 44 ∷ 44 ∷ 44 ∷ 44 ∷ 44 ∷ 44 ∷ 44 ∷ 44 ∷ 44 ∷ 32 ∷ 32 ∷ 24 ∷ 40 ∷ 28 ∷ 12
    ∷ 12 ∷ 48 ∷ 52 ∷ 52 ∷ 52 ∷ 48 ∷ 52 ∷ 52 ∷ 52 ∷ 48 ∷ 52 ∷ 52 ∷ 52 ∷ 52 ∷ 52 ∷ 48 ∷ 52 ∷ 52 ∷ 52
    ∷ 52 ∷ 52 ∷ 48 ∷ 52 ∷ 52 ∷ 52 ∷ 52 ∷ 52 ∷ 24 ∷ 12 ∷ 28 ∷ 12 ∷ 12 ∷ 12 ∷ 56 ∷ 60 ∷ 60 ∷ 60 ∷ 56
    ∷ 60 ∷ 60 ∷ 60 ∷ 56 ∷ 60 ∷ 60 ∷ 60 ∷ 60 ∷ 60 ∷ 56 ∷ 60 ∷ 60 ∷ 60 ∷ 60 ∷ 60 ∷ 56 ∷ 60 ∷ 60 ∷ 60
    ∷ 60 ∷ 60 ∷ 24 ∷ 12 ∷ 28 ∷ 12 ∷ 0 ∷ 0 ∷ 1 ∷ 0 ∷ 1 ∷ 0 ∷ 1 ∷ 0 ∷ 1 ∷ 0 ∷ 1 ∷ 0 ∷ 1 ∷ 0 ∷ 1 ∷ 0
    ∷ 1 ∷ 0 ∷ 1 ∷ 0 ∷ 1 ∷ 0 ∷ 1 ∷ 0 ∷ 1 ∷ 0 ∷ 1 ∷ 0 ∷ 1 ∷ 0 ∷ 1 ∷ 0 ∷ 1 ∷ 0 ∷ 1 ∷ 0 ∷ 1 ∷ 0 ∷ 1 ∷ 0
    ∷ 1 ∷ 0 ∷ 1 ∷ 0 ∷ 1 ∷ 0 ∷ 1 ∷ 0 ∷ 1 ∷ 0 ∷ 1 ∷ 0 ∷ 1 ∷ 0 ∷ 1 ∷ 0 ∷ 1 ∷ 0 ∷ 1 ∷ 0 ∷ 1 ∷ 0 ∷ 1 ∷ 0
    ∷ 1 ∷ 2 ∷ 3 ∷ 2 ∷ 3 ∷ 2 ∷ 3 ∷ 2 ∷ 3 ∷ 2 ∷ 3 ∷ 2 ∷ 3 ∷ 2 ∷ 3 ∷ 2 ∷ 3 ∷ 2 ∷ 3 ∷ 2 ∷ 3 ∷ 2 ∷ 3 ∷ 2
    ∷ 3 ∷ 2 ∷ 3 ∷ 2 ∷ 3 ∷ 2 ∷ 3 ∷ 2 ∷ 3 ∷ 2 ∷ 3 ∷ 2 ∷ 3 ∷ 2 ∷ 3 ∷ 2 ∷ 3 ∷ 2 ∷ 3 ∷ 2 ∷ 3 ∷ 2 ∷ 3 ∷ 2
    ∷ 3 ∷ 2 ∷ 3 ∷ 2 ∷ 3 ∷ 2 ∷ 3 ∷ 2 ∷ 3 ∷ 2 ∷ 3 ∷ 2 ∷ 3 ∷ 2 ∷ 3 ∷ 2 ∷ 3 ∷ 0 ∷ 0 ∷ 0 ∷ 0 ∷ 0 ∷ 0 ∷ 0
    ∷ 0 ∷ 0 ∷ 0 ∷ 0 ∷ 0 ∷ 0 ∷ 0 ∷ 0 ∷ 0 ∷ 0 ∷ 0 ∷ 0 ∷ 0 ∷ 0 ∷ 0 ∷ 0 ∷ 0 ∷ 0 ∷ 0 ∷ 0 ∷ 0 ∷ 0 ∷ 0 ∷ 0
    ∷ 0 ∷ 0 ∷ 1 ∷ 1 ∷ 1 ∷ 1 ∷ 1 ∷ 1 ∷ 1 ∷ 1 ∷ 1 ∷ 1 ∷ 1 ∷ 1 ∷ 1 ∷ 1 ∷ 1 ∷ 2 ∷ 2 ∷ 2 ∷ 2 ∷ 2 ∷ 2 ∷ 2
    ∷ 2 ∷ 2 ∷ 2 ∷ 1 ∷ 1 ∷ 1 ∷ 1 ∷ 1 ∷ 1 ∷ 1 ∷ 2 ∷ 2 ∷ 2 ∷ 2 ∷ 2 ∷ 2 ∷ 2 ∷ 2 ∷ 2 ∷ 2 ∷ 2 ∷ 2 ∷ 2 ∷ 2
    ∷ 2 ∷ 2 ∷ 2 ∷ 2 ∷ 2 ∷ 2 ∷ 2 ∷ 2 ∷ 2 ∷ 2 ∷ 2 ∷ 2 ∷ 1 ∷ 1 ∷ 1 ∷ 1 ∷ 1 ∷ 1 ∷ 3 ∷ 3 ∷ 3 ∷ 3 ∷ 3 ∷ 3
    ∷ 3 ∷ 3 ∷ 3 ∷ 3 ∷ 3 ∷ 3 ∷ 3 ∷ 3 ∷ 3 ∷ 3 ∷ 3 ∷ 3 ∷ 3 ∷ 3 ∷ 3 ∷ 3 ∷ 3 ∷ 3 ∷ 3 ∷ 3 ∷ 1 ∷ 1 ∷ 1 ∷ 1
    ∷ 0 ∷ 0 ∷ 0 ∷ 0 ∷ 0 ∷ 0 ∷ 0 ∷ 0 ∷ 0 ∷ 0 ∷ 0 ∷ 0 ∷ 0 ∷ 0 ∷ 0 ∷ 0 ∷ 0 ∷ 0 ∷ 0 ∷ 0 ∷ 0 ∷ 0 ∷ 0 ∷ 0
    ∷ 0 ∷ 0 ∷ 0 ∷ 0 ∷ 0 ∷ 0 ∷ 0 ∷ 0 ∷ 0 ∷ 0 ∷ 0 ∷ 0 ∷ 0 ∷ 0 ∷ 0 ∷ 0 ∷ 0 ∷ 0 ∷ 0 ∷ 0 ∷ 0 ∷ 0 ∷ 0 ∷ 0
    ∷ 0 ∷ 0 ∷ 0 ∷ 0 ∷ 0 ∷ 0 ∷ 0 ∷ 0 ∷ 0 ∷ 0 ∷ 0 ∷ 0 ∷ 0 ∷ 0 ∷ 0 ∷ 0 ∷ 0 ∷ 0 ∷ 0 ∷ 0 ∷ 0 ∷ 0 ∷ 0 ∷ 0
    ∷ 0 ∷ 0 ∷ 0 ∷ 0 ∷ 0 ∷ 0 ∷ 0 ∷ 0 ∷ 0 ∷ 0 ∷ 0 ∷ 0 ∷ 0 ∷ 0 ∷ 0 ∷ 0 ∷ 0 ∷ 0 ∷ 0 ∷ 0 ∷ 0 ∷ 0 ∷ 0 ∷ 0
    ∷ 0 ∷ 2 ∷ 2 ∷ 2 ∷ 2 ∷ 2 ∷ 2 ∷ 2 ∷ 2 ∷ 2 ∷ 2 ∷ 2 ∷ 2 ∷ 2 ∷ 2 ∷ 2 ∷ 2 ∷ 2 ∷ 2 ∷ 2 ∷ 2 ∷ 2 ∷ 2 ∷ 2
    ∷ 2 ∷ 2 ∷ 2 ∷ 2 ∷ 2 ∷ 2 ∷ 2 ∷ 2 ∷ 2 ∷ []

abbrev context_lut_signed : List ℕ
context_lut_signed =
    0 ∷ 8 ∷ 8 ∷ 8 ∷ 8 ∷ 8 ∷ 8 ∷ 8 ∷ 8 ∷ 8 ∷ 8 ∷ 8 ∷ 8 ∷ 8 ∷ 8 ∷ 8 ∷ 16 ∷ 16 ∷ 16 ∷ 16 ∷ 16 ∷ 16 ∷ 16
    ∷ 16 ∷ 16 ∷ 16 ∷ 16 ∷ 16 ∷ 16 ∷ 16 ∷ 16 ∷ 16 ∷ 16 ∷ 16 ∷ 16 ∷ 16 ∷ 16 ∷ 16 ∷ 16 ∷ 16 ∷ 16 ∷ 16
    ∷ 16 ∷ 16 ∷ 16 ∷ 16 ∷ 16 ∷ 16 ∷ 16 ∷ 16 ∷ 16 ∷ 16 ∷ 16 ∷ 16 ∷ 16 ∷ 16 ∷ 16 ∷ 16 ∷ 16 ∷ 16 ∷ 16
    ∷ 16 ∷ 16 ∷ 16 ∷ 24 ∷ 24 ∷ 24 ∷ 24 ∷ 24 ∷ 24 ∷ 24 ∷ 24 ∷ 24 ∷ 24 ∷ 24 ∷ 24 ∷ 24 ∷ 24 ∷ 24 ∷ 24
    ∷ 24 ∷ 24 ∷ 24 ∷ 24 ∷ 24 ∷ 24 ∷ 24 ∷ 24 ∷ 24 ∷ 24 ∷ 24 ∷ 24 ∷ 24 ∷ 24 ∷ 24 ∷ 24 ∷ 24 ∷ 24 ∷ 24
    ∷ 24 ∷ 24 ∷ 24 ∷ 24 ∷ 24 ∷ 24 ∷ 24 ∷ 24 ∷ 24 ∷ 24 ∷ 24 ∷ 24 ∷ 24 ∷ 24 ∷ 24 ∷ 24 ∷ 24 ∷ 24 ∷ 24
    ∷ 24 ∷ 24 ∷ 24 ∷ 24 ∷ 24 ∷ 24 ∷ 24 ∷ 24 ∷ 24 ∷ 24 ∷ 32 ∷ 32 ∷ 32 ∷ 32 ∷ 32 ∷ 32 ∷ 32 ∷ 32 ∷ 32
    ∷ 32 ∷ 32 ∷ 32 ∷ 32 ∷ 32 ∷ 32 ∷ 32 ∷ 32 ∷ 32 ∷ 32 ∷ 32 ∷ 32 ∷ 32 ∷ 32 ∷ 32 ∷ 32 ∷ 32 ∷ 32 ∷ 32
    ∷ 32 ∷ 32 ∷ 32 ∷ 32 ∷ 32 ∷ 32 ∷ 32 ∷ 32 ∷ 32 ∷ 32 ∷ 32 ∷ 32 ∷ 32 ∷ 32 ∷ 32 ∷ 32 ∷ 32 ∷ 32 ∷ 32
    ∷ 32 ∷ 32 ∷ 32 ∷ 32 ∷ 32 ∷ 32 ∷ 32 ∷ 32 ∷ 32 ∷ 32 ∷ 32 ∷ 32 ∷ 32 ∷ 32 ∷ 32 ∷ 32 ∷ 32 ∷ 40 ∷ 40
    ∷ 40 ∷ 40 ∷ 40 ∷ 40 ∷ 40 ∷ 40 ∷ 40 ∷ 40 ∷ 40 ∷ 40 ∷ 40 ∷ 40 ∷ 40 ∷ 40 ∷ 40 ∷ 40 ∷ 40 ∷ 40 ∷ 40
    ∷ 40 ∷ 40 ∷ 40 ∷ 40 ∷ 40 ∷ 40 ∷ 40 ∷ 40 ∷ 40 ∷ 40 ∷ 40 ∷ 40 ∷ 40 ∷ 40 ∷ 40 ∷ 40 ∷ 40 ∷ 40 ∷ 40
    ∷ 40 ∷ 40 ∷ 40 ∷ 40 ∷ 40 ∷ 40 ∷ 40 ∷ 40 ∷ 48 ∷ 48 ∷ 48 ∷ 48 ∷ 48 ∷ 48 ∷ 48 ∷ 48 ∷ 48 ∷ 48 ∷ 48
    ∷ 48 ∷ 48 ∷ 48 ∷ 48 ∷ 56 ∷ 0 ∷ 1 ∷ 1 ∷ 1 ∷ 1 ∷ 1 ∷ 1 ∷ 1 ∷ 1 ∷ 1 ∷ 1 ∷ 1 ∷ 1 ∷ 1 ∷ 1 ∷ 1 ∷ 2 ∷ 2
    ∷ 2 ∷ 2 ∷ 2 ∷ 2 ∷ 2 ∷ 2 ∷ 2 ∷ 2 ∷ 2 ∷ 2 ∷ 2 ∷ 2 ∷ 2 ∷ 2 ∷ 2 ∷ 2 ∷ 2 ∷ 2 ∷ 2 ∷ 2 ∷ 2 ∷ 2 ∷ 2 ∷ 2
    ∷ 2 ∷ 2 ∷ 2 ∷ 2 ∷ 2 ∷ 2 ∷ 2 ∷ 2 ∷ 2 ∷ 2 ∷ 2 ∷ 2 ∷ 2 ∷ 2 ∷ 2 ∷ 2 ∷ 2 ∷ 2 ∷ 2 ∷ 2 ∷ 2 ∷ 2 ∷ 3 ∷ 3
    ∷ 3 ∷ 3 ∷ 3 ∷ 3 ∷ 3 ∷ 3 ∷ 3 ∷ 3 ∷ 3 ∷ 3 ∷ 3 ∷ 3 ∷ 3 ∷ 3 ∷ 3 ∷ 3 ∷ 3 ∷ 3 ∷ 3 ∷ 3 ∷ 3 ∷ 3 ∷ 3 ∷ 3
    ∷ 3 ∷ 3 ∷ 3 ∷ 3 ∷ 3 ∷ 3 ∷ 3 ∷ 3 ∷ 3 ∷ 3 ∷ 3 ∷ 3 ∷ 3 ∷ 3 ∷ 3 ∷ 3 ∷ 3 ∷ 3 ∷ 3 ∷ 3 ∷ 3 ∷ 3 ∷ 3 ∷ 3
    ∷ 3 ∷ 3 ∷ 3 ∷ 3 ∷ 3 ∷ 3 ∷ 3 ∷ 3 ∷ 3 ∷ 3 ∷ 3 ∷ 3 ∷ 3 ∷ 3 ∷ 4 ∷ 4 ∷ 4 ∷ 4 ∷ 4 ∷ 4 ∷ 4 ∷ 4 ∷ 4 ∷ 4
    ∷ 4 ∷ 4 ∷ 4 ∷ 4 ∷ 4 ∷ 4 ∷ 4 ∷ 4 ∷ 4 ∷ 4 ∷ 4 ∷ 4 ∷ 4 ∷ 4 ∷ 4 ∷ 4 ∷ 4 ∷ 4 ∷ 4 ∷ 4 ∷ 4 ∷ 4 ∷ 4 ∷ 4
    ∷ 4 ∷ 4 ∷ 4 ∷ 4 ∷ 4 ∷ 4 ∷ 4 ∷ 4 ∷ 4 ∷ 4 ∷ 4 ∷ 4 ∷ 4 ∷ 4 ∷ 4 ∷ 4 ∷ 4 ∷ 4 ∷ 4 ∷ 4 ∷ 4 ∷ 4 ∷ 4 ∷ 4
    ∷ 4 ∷ 4 ∷ 4 ∷ 4 ∷ 4 ∷ 4 ∷ 5 ∷ 5 ∷ 5 ∷ 5 ∷ 5 ∷ 5 ∷ 5 ∷ 5 ∷ 5 ∷ 5 ∷ 5 ∷ 5 ∷ 5 ∷ 5 ∷ 5 ∷ 5 ∷ 5 ∷ 5
    ∷ 5 ∷ 5 ∷ 5 ∷ 5 ∷ 5 ∷ 5 ∷ 5 ∷ 5 ∷ 5 ∷ 5 ∷ 5 ∷ 5 ∷ 5 ∷ 5 ∷ 5 ∷ 5 ∷ 5 ∷ 5 ∷ 5 ∷ 5 ∷ 5 ∷ 5 ∷ 5 ∷ 5
    ∷ 5 ∷ 5 ∷ 5 ∷ 5 ∷ 5 ∷ 5 ∷ 6 ∷ 6 ∷ 6 ∷ 6 ∷ 6 ∷ 6 ∷ 6 ∷ 6 ∷ 6 ∷ 6 ∷ 6 ∷ 6 ∷ 6 ∷ 6 ∷ 6 ∷ 7 ∷ []

pub data ContextMode : Type 0 where
  utf8 signed : ContextMode

unfoldable pub lut : ContextMode → List ℕ
lut ContextMode.utf8 = context_lut_utf8
lut ContextMode.signed = context_lut_signed

unfoldable pub code : ContextMode → ℕ
code ContextMode.utf8 = 2
code ContextMode.signed = 3

-- The context of a literal that two bytes precede.
unfoldable pub context : ContextMode → ℕ → ℕ → ℕ
context mode prev1 prev2 = bit_or (get_or (lut mode) prev1 0) (get_or (lut mode) (256 + prev2) 0)
