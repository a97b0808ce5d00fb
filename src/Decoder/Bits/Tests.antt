-- ===== src/Decoder/Bits/Tests.antt =====
-- The bit reader at concrete inputs: a stored member, its first byte alone, and a reservoir.
use mbrotli.Common.{
  ℕ, ◌+◌, ◌*◌, ◌^◌, ◌≤◌, ◌<◌, arith, ◌≡◌, List, [], ◌∷◌, none, ◌⊎◌, length, drop, All,
}
use mbrotli.Common.Bytes.{IsByte, number}
use mbrotli.Decoder.Bits.{Cursor, new_input, peek, refill, refill_from, refill_rest, unread}
use mbrotli.Decoder.Bits.Position.{Origin, IsAt, from, size}
use mbrotli.Decoder.Bits.Loads.{Peeked, peek-Peeked, Waited, peek-Waited}
use mbrotli.Decoder.Bits.Refills.{Refilled, refill-Refilled, refill_rest-refill_from, unread-IsAt}
use mbrotli.Decoder.Bits.Calls.{uint8_code, joined, peek-joined, IsAt-start}
use mbrotli.Decoder.Errors.{pending}

abbrev stored : List ℕ
stored = 11 ∷ 2 ∷ 128 ∷ 104 ∷ 101 ∷ 108 ∷ 108 ∷ 111 ∷ 3 ∷ []

stored_fits : 0 < 2 ^ 0
stored_fits = omega arith

stored_small : 0 ≤ 64
stored_small = omega arith

stored_bytes : All IsByte stored
stored_bytes = omega arith

abbrev o : Origin
o = record {
  carry = 0;
  held = 0;
  bytes = stored;
  carry_fits = stored_fits;
  held_fits = stored_small;
  all_bytes = stored_bytes;
}

abbrev c : Cursor
c = record { bits = record { value = 0; count = 0 }; input = new_input stored 0 none }

c-IsAt : IsAt o 0 0 c
c-IsAt = IsAt-start 0 0 stored 0 none stored_fits stored_small stored_bytes (omega arith) tt

peek-Peeked_example : Peeked o 0 14 c (peek 14 c)
peek-Peeked_example = peek-Peeked 14 c c-IsAt (omega arith) (omega arith)

fast_end-le : c.input.fast_end ≤ length o.bytes
unfolding new_input
fast_end-le = omega arith

refill-Refilled_example : Refilled o 0 0 c (refill c)
refill-Refilled_example = refill-Refilled c c-IsAt (omega arith) fast_end-le

refill_rest-refill_from_example :
    let (done, b', consumed') = refill_from (record { value = 5; count = 3 }) stored 1 in
    refill_rest (record { value = 5; count = 3 }) (drop 1 stored)
    ≡ (done, b', drop consumed' stored)
refill_rest-refill_from_example = refill_rest-refill_from (record { value = 5; count = 3 }) stored 1

peeked : Peeked o 0 14 c (peek 14 c)
peeked = peek-Peeked 14 c c-IsAt (omega arith) (omega arith)

-- After a peek the reservoir holds two bytes, which `unread` gives back.
unread-IsAt_example :
    IsAt o 0 0 (unread (peek 14 c).1)
    × (((unread (peek 14 c).1).bits.count < 8) ⊎ ((unread (peek 14 c).1).input.consumed ≡ 0))
    × ((unread (peek 14 c).1).input.consumed ≤ (peek 14 c).1.input.consumed)
unread-IsAt_example = unread-IsAt (peek 14 c).1 peeked.stays

abbrev first : List ℕ
first = 11 ∷ []

first_bytes : All IsByte first
first_bytes = omega arith

abbrev late : Origin
late = record {
  carry = 0;
  held = 0;
  bytes = first;
  carry_fits = stored_fits;
  held_fits = stored_small;
  all_bytes = first_bytes;
}

abbrev c_late : Cursor
c_late = record { bits = record { value = 0; count = 0 }; input = new_input first 0 none }

c_late-IsAt : IsAt late 0 0 c_late
c_late-IsAt = IsAt-start 0 0 first 0 none stored_fits stored_small first_bytes (omega arith) tt

peek-Waited_example : Waited late 0 (peek 14 c_late)
peek-Waited_example = peek-Waited 14 c_late c_late-IsAt (omega arith) (omega arith)

more_bytes : All IsByte (2 ∷ 128 ∷ [])
more_bytes = omega arith

peek-joined_example :
    ((peek 14 c_late).0 ≡ pending)
    × ((peek 14 c_late).1.bits.value < 2 ^ (peek 14 c_late).1.bits.count)
    × (from (joined late (2 ∷ 128 ∷ []) more_bytes) 0
        ≡ (peek 14 c_late).1.bits.value + 2 ^ (peek 14 c_late).1.bits.count * number (2 ∷ 128 ∷ []))
peek-joined_example =
    peek-joined 14 c_late (2 ∷ 128 ∷ []) more_bytes c_late-IsAt (omega arith) (omega arith)

short_code : 0 + (uint8_code (from o 0)).1 ≤ size o
unfolding uint8_code number
short_code = omega arith
