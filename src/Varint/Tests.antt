-- ===== src/Varint/Tests.antt =====
-- Integers at concrete values.
use mbrotli.Common.{◌+◌, arith, ◌≡◌, [], ◌∷◌, ◌++◌, length}
use mbrotli.Varint.{ok, encoded_len, read, write, write_loop, number, read_number}
use mbrotli.Varint.RoundTrip.{read-write}

read-write_example :
    (write 300 [] ≡ ok (write_loop 9 300))
    × (encoded_len 300 ≡ length (write_loop 9 300))
    × (read (write_loop 9 300 ++ 7 ∷ []) ≡ ok (300, encoded_len 300))
    × (read_number (write_loop 9 300 ++ 7 ∷ []) 5 ≡ number 300 (5 + encoded_len 300))
read-write_example = read-write 300 (7 ∷ []) 5 (omega arith)
