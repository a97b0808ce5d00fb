-- ===== src/Format.antt =====
-- The tables of src/shared/format.rs.
pub mod Contexts
use mbrotli.Common.{ℕ, List, [], ◌∷◌}

abbrev pub ins_base : List ℕ
ins_base =
    0 ∷ 1 ∷ 2 ∷ 3 ∷ 4 ∷ 5 ∷ 6 ∷ 8 ∷ 10 ∷ 14 ∷ 18 ∷ 26 ∷ 34 ∷ 50 ∷ 66 ∷ 98 ∷ 130 ∷ 194 ∷ 322 ∷ 578
    ∷ 1090 ∷ 2114 ∷ 6210 ∷ 22594 ∷ []

abbrev pub ins_extra : List ℕ
ins_extra =
    0 ∷ 0 ∷ 0 ∷ 0 ∷ 0 ∷ 0 ∷ 1 ∷ 1 ∷ 2 ∷ 2 ∷ 3 ∷ 3 ∷ 4 ∷ 4 ∷ 5 ∷ 5 ∷ 6 ∷ 7 ∷ 8 ∷ 9 ∷ 10 ∷ 12 ∷ 14
    ∷ 24 ∷ []

abbrev pub copy_base : List ℕ
copy_base =
    2 ∷ 3 ∷ 4 ∷ 5 ∷ 6 ∷ 7 ∷ 8 ∷ 9 ∷ 10 ∷ 12 ∷ 14 ∷ 18 ∷ 22 ∷ 30 ∷ 38 ∷ 54 ∷ 70 ∷ 102 ∷ 134 ∷ 198
    ∷ 326 ∷ 582 ∷ 1094 ∷ 2118 ∷ []

abbrev pub copy_extra : List ℕ
copy_extra =
    0 ∷ 0 ∷ 0 ∷ 0 ∷ 0 ∷ 0 ∷ 0 ∷ 0 ∷ 1 ∷ 1 ∷ 2 ∷ 2 ∷ 3 ∷ 3 ∷ 4 ∷ 4 ∷ 5 ∷ 5 ∷ 6 ∷ 7 ∷ 8 ∷ 9 ∷ 10 ∷ 24
    ∷ []

-- Each entry is the offset and the number of extra bits.
abbrev pub prefix_code_ranges : List (ℕ × ℕ)
prefix_code_ranges =
    (1, 2)
    ∷ (5, 2)
    ∷ (9, 2)
    ∷ (13, 2)
    ∷ (17, 3)
    ∷ (25, 3)
    ∷ (33, 3)
    ∷ (41, 3)
    ∷ (49, 4)
    ∷ (65, 4)
    ∷ (81, 4)
    ∷ (97, 4)
    ∷ (113, 5)
    ∷ (145, 5)
    ∷ (177, 5)
    ∷ (209, 5)
    ∷ (241, 6)
    ∷ (305, 6)
    ∷ (369, 7)
    ∷ (497, 8)
    ∷ (753, 9)
    ∷ (1265, 10)
    ∷ (2289, 11)
    ∷ (4337, 12)
    ∷ (8433, 13)
    ∷ (16625, 24)
    ∷ []
