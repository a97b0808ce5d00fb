-- ===== src/ContextMaps.antt =====
-- Context maps on both sides: the transforms of src/shared/bitstream.rs and the entries and the
-- inverse transform of src/decompressor/core/context_map.rs.
pub mod MoveToFront
pub mod RunFields
pub mod ZeroRuns
mod Tests
use mbrotli.Common.{
  ℕ, zero, suc, ◌+◌, ◌-◌, ◌*◌, ◌/◌, ◌%◌, ◌^◌, min, max, Bool, true, false, ◌&&◌, not, List, [], ◌∷◌,
  ◌++◌,
}
use mbrotli.Common.{ltb, leb, ◌==◌, if◌then◌else◌, get_or, take, drop, length, replicate}
use mbrotli.Encoder.Log2.{log2_floor_non_zero}
use mbrotli.Decoder.Errors.{DecodeError, InvalidDataKind}

-- The index of a value, or the list's length when it is absent.
unfoldable pub index_of : List ℕ → ℕ → ℕ
index_of [] value = 0
index_of (x ∷ xs) value = if x == value then 0 else suc (index_of xs value)

-- `v[..=index].rotate_right(1)`
unfoldable pub rotate_front : List ℕ → ℕ → List ℕ
rotate_front v index = get_or v index 0 ∷ (take index v ++ drop (suc index) v)

unfoldable pub move_to_front : List ℕ → ℕ → List ℕ
unfolding rotate_front
move_to_front v index = if ltb index (length v) then rotate_front v index else v

-- `n` values from `k` on.
unfoldable pub count_up : ℕ → ℕ → List ℕ
count_up zero k = []
count_up (suc n) k = k ∷ count_up n (suc k)

unfoldable pub max_value : List ℕ → ℕ
max_value [] = 0
max_value (x ∷ xs) = max x (max_value xs)

unfoldable pub transform_loop : List ℕ → List ℕ → List ℕ
transform_loop mtf [] = []
transform_loop mtf (value ∷ rest) =
    let index = index_of mtf (value % 256) in index ∷ transform_loop (move_to_front mtf index) rest

unfoldable pub move_to_front_transform : List ℕ → List ℕ
unfolding transform_loop count_up max_value
move_to_front_transform input = transform_loop (take (max_value input + 1) (count_up 256 0)) input

-- The decoder's `Stage::Transform`, with the flag set.
unfoldable pub inverse_loop : List ℕ → List ℕ → List ℕ
inverse_loop symbols [] = []
inverse_loop symbols (index ∷ rest) =
    get_or symbols index 0 ∷ inverse_loop (rotate_front symbols index) rest

unfoldable pub inverse_transform : List ℕ → List ℕ
unfolding inverse_loop count_up
inverse_transform values = inverse_loop (count_up 256 0) values

-- `run_length_code_zeros`: the longest run of zeros.
unfoldable pub longest_run : ℕ → ℕ → List ℕ → ℕ
longest_run reps best [] = max best reps
longest_run reps best (v ∷ vs) =
    if v == 0 then longest_run (reps + 1) best vs else longest_run 0 (max best reps) vs

unfoldable pub max_prefix : List ℕ → ℕ → ℕ
unfolding longest_run
max_prefix v max_run_length_prefix =
    let max_reps = longest_run 0 0 v in
    min (if ltb 0 max_reps then log2_floor_non_zero max_reps else 0) max_run_length_prefix

-- The words of one run of zeros; each word takes one zero at least from it.
unfoldable pub run_words : ℕ → ℕ → ℕ → List ℕ
run_words zero p reps = []
run_words (suc fuel) p reps =
    let rest = run_words fuel p (reps - (2 * 2 ^ p - 1)) in
    if reps == 0
    then []
    else if ltb reps (2 * 2 ^ p)
    then (let run_length_prefix = log2_floor_non_zero reps in
        (run_length_prefix + (reps - 2 ^ run_length_prefix) * 2 ^ 9) ∷ [])
    else ((p + (2 ^ p - 1) * 2 ^ 9) ∷ rest)

-- How many zeros a list starts with.
unfoldable pub zeros_ahead : List ℕ → ℕ
zeros_ahead [] = 0
zeros_ahead (v ∷ vs) = if v == 0 then suc (zeros_ahead vs) else 0

-- The second loop; each round takes one value at least.
unfoldable pub code_loop : ℕ → ℕ → List ℕ → List ℕ
unfolding run_words zeros_ahead
code_loop zero p v = []
code_loop (suc fuel) p [] = []
code_loop (suc fuel) p (v ∷ vs) =
    let rest = code_loop fuel p (drop (zeros_ahead vs) vs) in
    let plain = code_loop fuel p vs in
    if not (v == 0)
    then ((v + p) ∷ plain)
    else (run_words (1 + zeros_ahead vs) p (1 + zeros_ahead vs) ++ rest)

-- The packed words and the prefix used.
unfoldable pub run_length_code_zeros : List ℕ → ℕ → List ℕ × ℕ
unfolding code_loop max_prefix
run_length_code_zeros v max_run_length_prefix =
    let p = max_prefix v max_run_length_prefix in (code_loop (length v) p v, p)

-- `encode_context_map`: how many extra bits it writes after a symbol.
unfoldable pub extra_width : ℕ → ℕ → ℕ
extra_width max_run_length_prefix symbol =
    if not (symbol == 0) && leb symbol max_run_length_prefix then symbol else 0

-- A step of the decoder's entries.
pub data Entries : Type 0 where
  values : List ℕ → Entries
  failed : DecodeError → Entries

-- `Stage::Entries` and `Stage::Repeat`: one symbol and, for a repeat, its extra bits.
unfoldable pub entry : ℕ → ℕ → ℕ → List ℕ → ℕ → ℕ → Entries
entry run trees size v symbol extra =
    if not (symbol == 0) && leb symbol run
    then (let end = length v + 2 ^ symbol + extra in
        if ltb size end
        then failed (DecodeError.invalid_data InvalidDataKind.context_map)
        else values (v ++ replicate (end - length v) 0))
    else (let value = if symbol == 0 then 0 else symbol - run in
        if leb trees value
        then failed (DecodeError.invalid_data InvalidDataKind.context_map)
        else values (v ++ (value % 256 ∷ [])))

-- The loop over the symbols that the encoder packed with their extra bits.
unfoldable pub entries : ℕ → ℕ → ℕ → List ℕ → List ℕ → Entries
unfolding entry
entries run trees size v [] = values v
entries run trees size v (word ∷ words) =
    elim (entry run trees size v (word % 2 ^ 9) (word / 2 ^ 9)) [
      | values v' ↦ entries run trees size v' words
      | failed e ↦ failed e
    ]
