-- ===== src/Blocks/Tests.antt =====
-- Block lengths and types at concrete inputs.
use mbrotli.Common.{◌^◌, ◌<◌, arith, ◌≡◌, [], ◌∷◌}
use mbrotli.Blocks.{range, block_length_code, start_length, reset, new, next}
use mbrotli.Blocks.Lengths.{start_length-block_length_code}
use mbrotli.Blocks.Types.{codes, switches, switches-codes}

start_length-block_length_code_example :
    ((block_length_code 1000).0 < 26)
    × ((block_length_code 1000).1 ≡ (range (block_length_code 1000).0).1)
    × ((block_length_code 1000).2 < 2 ^ (block_length_code 1000).1)
    × ((start_length (block_length_code 1000).0 (block_length_code 1000).2 reset).remaining ≡ 1000)
start_length-block_length_code_example =
    start_length-block_length_code 1000 reset (omega arith) (omega arith)

switches-codes_example :
    switches (codes (1 ∷ 0 ∷ 2 ∷ 1 ∷ []) (next 0 new).1) (record reset { count = 3 })
    ≡ 1 ∷ 0 ∷ 2 ∷ 1 ∷ []
switches-codes_example = switches-codes 3 (1 ∷ 0 ∷ 2 ∷ 1 ∷ []) (omega arith)
