-- ===== src/Prefix/Runs.antt =====
-- src/shared/huffman.rs: the runs of a sequence of code lengths, `CodeLengthRuns`.
pub mod Codes
pub mod Reads
pub mod Trimmed
pub mod Pieces
pub mod Whole
pub mod RoundTrip
use mbrotli.Common.{
  ℕ, zero, suc, ◌+◌, ◌-◌, ◌*◌, ◌/◌, ◌%◌, ◌^◌, ltb, leb, ◌==◌, ◌&&◌, ◌||◌, not, if◌then◌else◌, List,
  [], ◌∷◌, ◌++◌, Bool, false,
}
use mbrotli.Common.{length, take, drop, get_or}

-- `NUM_COMMAND_SYMBOLS`
abbrev pub num_command_symbols : ℕ
num_command_symbols = 704

-- The symbols with their extra bits, `len` of them.
abbrev pub CodeLengthRuns : Type 0
CodeLengthRuns = List (ℕ × ℕ)

-- `push`: past the end of the arrays nothing is kept.
unfoldable pub push_code : ℕ → ℕ → CodeLengthRuns → CodeLengthRuns
push_code symbol extra runs =
    if ltb (length runs) num_command_symbols then runs ++ ((symbol, extra) ∷ []) else runs

unfoldable pub reversed : CodeLengthRuns → CodeLengthRuns
reversed [] = []
reversed (x ∷ xs) = reversed xs ++ (x ∷ [])

unfoldable pub reverse : ℕ → CodeLengthRuns → CodeLengthRuns
unfolding reversed
reverse start runs = take start runs ++ reversed (drop start runs)

-- `for _ in 0..repetitions { self.push(value, 0) }`
unfoldable pub push_times : ℕ → ℕ → CodeLengthRuns → CodeLengthRuns
unfolding push_code
push_times zero value runs = runs
push_times (suc n) value runs = push_times n value (push_code value 0 runs)

-- The loop that pushes a repeat code with `width` bits of the count at a time, the low ones first.
-- Each round makes the count smaller, so the count is enough fuel.
unfoldable pub repeat_loop : ℕ → ℕ → ℕ → ℕ → CodeLengthRuns → CodeLengthRuns
unfolding push_code
repeat_loop zero code width repetitions runs = push_code code (repetitions % 2 ^ width) runs
repeat_loop (suc fuel) code width repetitions runs =
    let runs' = push_code code (repetitions % 2 ^ width) runs in
    let rest = repeat_loop fuel code width (repetitions / 2 ^ width - 1) runs' in
    if repetitions / 2 ^ width == 0 then runs' else rest

-- What `write_repetitions` and `write_zero_repetitions` do in the end with `repetitions`.
unfoldable pub write_rest : ℕ → ℕ → ℕ → ℕ → CodeLengthRuns → CodeLengthRuns
unfolding repeat_loop push_times reverse
write_rest code width value repetitions runs =
    if ltb repetitions 3
    then push_times repetitions value runs
    else reverse (length runs) (repeat_loop (repetitions - 3) code width (repetitions - 3) runs)

unfoldable pub write_seven : ℕ → ℕ → CodeLengthRuns → CodeLengthRuns
unfolding write_rest push_code
write_seven value repetitions runs =
    if repetitions == 7
    then write_rest 16 2 value (repetitions - 1) (push_code value 0 runs)
    else write_rest 16 2 value repetitions runs

unfoldable pub write_repetitions : ℕ → ℕ → ℕ → CodeLengthRuns → CodeLengthRuns
unfolding write_seven push_code
write_repetitions previous_value value repetitions runs =
    if previous_value == value
    then write_seven value repetitions runs
    else write_seven value (repetitions - 1) (push_code value 0 runs)

unfoldable pub write_zero_repetitions : ℕ → CodeLengthRuns → CodeLengthRuns
unfolding write_rest push_code
write_zero_repetitions repetitions runs =
    if repetitions == 11
    then write_rest 17 3 0 (repetitions - 1) (push_code 0 0 runs)
    else write_rest 17 3 0 repetitions runs

-- How many of the lengths ahead are `value`.
unfoldable pub same_ahead : ℕ → List ℕ → ℕ
same_ahead value [] = 0
same_ahead value (x ∷ xs) = if x == value then suc (same_ahead value xs) else 0

-- The loop of `decide_over_rle_use`; each round takes one length at least.
unfoldable pub decide_loop : ℕ → List ℕ → ℕ → ℕ → ℕ → ℕ → Bool × Bool
unfolding same_ahead
decide_loop fuel [] total_zero total_non_zero count_zero count_non_zero =
    (ltb (count_non_zero * 2) total_non_zero, ltb (count_zero * 2) total_zero)
decide_loop zero (value ∷ rest) total_zero total_non_zero count_zero count_non_zero = (false, false)
decide_loop (suc fuel) (value ∷ rest) total_zero total_non_zero count_zero count_non_zero =
    let reps = 1 + same_ahead value rest in
    let zeros = leb 3 reps && (value == 0) in
    let values = leb 4 reps && not (value == 0) in
    decide_loop fuel (drop (same_ahead value rest) rest)
      (if zeros then total_zero + reps else total_zero)
      (if values then total_non_zero + reps else total_non_zero)
      (if zeros then count_zero + 1 else count_zero)
      (if values then count_non_zero + 1 else count_non_zero)

unfoldable pub decide_over_rle_use : List ℕ → ℕ → Bool × Bool
unfolding decide_loop
decide_over_rle_use depth length = decide_loop length (take length depth) 0 0 1 1

-- The first loop of `write_huffman_tree`: the length without the zeros at the end.
unfoldable pub trimmed_length : List ℕ → ℕ → ℕ
trimmed_length depth zero = 0
trimmed_length depth (suc n) = if get_or depth n 0 == 0 then trimmed_length depth n else suc n

-- The last loop of `write_huffman_tree`; each round takes one length at least.
unfoldable pub tree_loop : ℕ → Bool → Bool → ℕ → List ℕ → CodeLengthRuns → CodeLengthRuns
unfolding same_ahead write_zero_repetitions write_repetitions
tree_loop zero rle_values rle_zeros previous_value depth runs = runs
tree_loop (suc fuel) rle_values rle_zeros previous_value [] runs = runs
tree_loop (suc fuel) rle_values rle_zeros previous_value (value ∷ rest) runs =
    let more =
      if not (value == 0) && rle_values || (value == 0) && rle_zeros
      then same_ahead value rest
      else 0 in
    tree_loop fuel rle_values rle_zeros (if value == 0 then previous_value else value)
      (drop more rest)
      (if value == 0
        then write_zero_repetitions (suc more) runs
        else write_repetitions previous_value value (suc more) runs)

unfoldable pub write_huffman_tree : List ℕ → ℕ → CodeLengthRuns
unfolding tree_loop trimmed_length decide_over_rle_use
write_huffman_tree depth length =
    let new_length = trimmed_length depth length in
    let (rle_values, rle_zeros) =
      if ltb 50 length then decide_over_rle_use depth new_length else (false, false) in
    tree_loop new_length rle_values rle_zeros 8 (take new_length depth) []
