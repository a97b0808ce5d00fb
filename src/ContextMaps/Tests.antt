-- ===== src/ContextMaps/Tests.antt =====
-- Context maps at concrete inputs.
use mbrotli.Common.{ℕ, arith, ◌≡◌, List, [], ◌∷◌, All, length}
use mbrotli.ContextMaps.{
  move_to_front_transform, inverse_transform, run_length_code_zeros, entries, values,
}
use mbrotli.ContextMaps.MoveToFront.{inverse_transform-move_to_front_transform}
use mbrotli.ContextMaps.RunFields.{IsField}
use mbrotli.ContextMaps.ZeroRuns.{entries-run_length_code_zeros}

inverse_transform-move_to_front_transform_example :
    inverse_transform (move_to_front_transform (3 ∷ 3 ∷ 0 ∷ 1 ∷ [])) ≡ 3 ∷ 3 ∷ 0 ∷ 1 ∷ []
inverse_transform-move_to_front_transform_example =
    inverse_transform-move_to_front_transform (3 ∷ 3 ∷ 0 ∷ 1 ∷ []) (omega arith)

abbrev map : List ℕ
map = 2 ∷ 0 ∷ 0 ∷ 0 ∷ 1 ∷ 0 ∷ []

entries-run_length_code_zeros_example :
    (entries (run_length_code_zeros map 6).1 3 (length map) [] (run_length_code_zeros map 6).0
      ≡ values map)
    × All (IsField (run_length_code_zeros map 6).1) (run_length_code_zeros map 6).0
entries-run_length_code_zeros_example =
    entries-run_length_code_zeros map 6 3 (omega arith) (omega arith) (omega arith) (omega arith)
