-- ===== src/Decoder/History/Tests.antt =====
-- The ring on small inputs, and one run of each of its operations.
use mbrotli.Common.{
  ◌∙◌, ℕ, zero, suc, ◌+◌, ◌-◌, ◌%◌, ◌^◌, ◌<◌, arith, max, ◌≡◌, refl, ap, true, false, Option, none,
  some, List, [], ◌∷◌, ◌++◌, length, get_or, take, drop, replicate,
}
use mbrotli.Common.Slices.{Gives}
use mbrotli.Decoder.Memory.{Memory, Buffer, Allocator}
use mbrotli.Decoder.Memory.Accounts.{Reserves}
use mbrotli.Decoder.History.{
  Output, History, copy_overlapping, copy_bytewise, copy_back, previous_bytes, copy_ring,
}
use mbrotli.Decoder.History.Copies.{copy_overlapping-copy_bytewise}
use mbrotli.Decoder.History.Spans.{Room}
use mbrotli.Decoder.History.Delivery.{Frame, IsFrame}
use mbrotli.Decoder.History.Tracking.{Tracks}
use mbrotli.Decoder.History.Operations.{
  Operation, copies, writes, all_meant, deliver, byte_back, deliver-all_meant,
  previous_bytes-byte_back,
}
use mbrotli.Decoder.History.Fast.{command_copy, command_copy-Tracks}
use mbrotli.Decoder.History.Growth.{grow_ring, repeat_grow, write_raw_growing}
use mbrotli.Decoder.History.Enlarged.{IsRing, Unwrapped, Enlarged}
use mbrotli.Decoder.History.Grows.{Grows, grow_ring-Grows, repeat_grow-Grows}
use mbrotli.Decoder.History.Raw.{write_raw_growing-Grows}

abbrev three : List ℕ
three = 7 ∷ 8 ∷ 9 ∷ []

abbrev small : List ℕ
small = 5 ∷ 1 ∷ 2 ∷ 3 ∷ replicate 36 0

copy_overlapping-copy_bytewise_example :
    copy_overlapping small (1 + 3) 1 20 3 ≡ copy_bytewise 20 small (1 + 3) 1
copy_overlapping-copy_bytewise_example =
    copy_overlapping-copy_bytewise small 1 3 (omega arith) 20 (omega arith) (omega arith)
      (omega arith)

-- A ring of 64 bytes, and an output with two bytes in it.
abbrev w : Frame
w = record {
  linear = false;
  sends = true;
  size = 64;
  reach = 48;
  end = 120;
  start = 0;
  base = 2;
  capacity = 130;
}

w-IsFrame : IsFrame w
w-IsFrame = record {
  room = Room.wraps 6 (omega arith) refl (omega arith);
  bounded = omega arith;
  fits_output = omega arith;
}

abbrev fresh : History
fresh = record {
  ring = replicate 64 0;
  position = 0;
  flushed = 0;
  output = record { bytes = replicate 130 0; collect = none; produced = 2 };
}

fresh-Tracks : Tracks w [] fresh
unfolding mbrotli.Decoder.History.delivers
fresh-Tracks = record {
  as_large = refl;
  at = refl;
  upto = omega arith;
  lap = omega arith;
  held = record { byte_at = λ p lt needed. absurd (omega (arith, lt)) };
  sent = (
    record {
      later = omega arith;
      count = refl;
      room = refl;
      sent = λ e p from upto. absurd (omega (arith, upto));
    },
    refl,
  );
}

abbrev run : List Operation
run = writes (7 ∷ 8 ∷ 9 ∷ []) ∷ copies 2 5 ∷ copies 1 60 ∷ copies 40 30 ∷ []

-- The run wraps.
deliver-all_meant_example :
    Gives
      (λ (output : Output).
        (output.produced ≡ 2 + (length (all_meant run []) - 0))
        × (take (length (all_meant run []) - 0) (drop 2 output.bytes) ≡ drop 0 (all_meant run [])))
      (deliver false run fresh)
unfolding all_meant mbrotli.Decoder.History.Operations.meant copy_back
    mbrotli.Decoder.History.Operations.AreAllowed mbrotli.Decoder.History.Operations.IsAllowed
deliver-all_meant_example = deliver-all_meant w w-IsFrame run [] fresh refl fresh-Tracks (
  tt,
  (
    (omega arith, omega arith, omega arith),
    (
      (omega arith, omega arith, omega arith),
      ((omega arith, omega arith, omega arith), omega arith),
    ),
  ),
)

-- Three bytes are decoded and not delivered yet.
abbrev started : History
started = record {
  ring = three ++ replicate 61 0;
  position = 3;
  flushed = 0;
  output = record { bytes = replicate 130 0; collect = none; produced = 2 };
}

three_at : (p : ℕ) → p < 3 → get_or (three ++ replicate 61 0) (p % 64) 0 ≡ get_or three p 0
three_at zero h = refl
three_at (suc zero) h = refl
three_at (suc (suc zero)) h = refl
three_at (suc (suc (suc p))) h = absurd (omega (arith, h))

started-Tracks : Tracks w three started
unfolding mbrotli.Decoder.History.delivers
started-Tracks = record {
  as_large = refl;
  at = refl;
  upto = omega arith;
  lap = omega arith;
  held = record { byte_at = λ p lt needed. three_at p lt };
  sent = (
    record {
      later = omega arith;
      count = refl;
      room = refl;
      sent = λ e p from upto. absurd (omega (arith, upto));
    },
    refl,
  );
}

command_copy-Tracks_example : Gives (Tracks w (copy_back 20 3 three)) (command_copy 3 20 started)
command_copy-Tracks_example =
    command_copy-Tracks w w-IsFrame refl 3 20 three started started-Tracks (omega arith)
      (omega arith) (omega arith) (omega arith) (omega arith)

previous_bytes-byte_back_example :
    previous_bytes (three ++ replicate 61 0) 3 ≡ some (byte_back 1 three, byte_back 2 three)
previous_bytes-byte_back_example =
    previous_bytes-byte_back w w-IsFrame three started started-Tracks (omega arith) (omega arith)

-- An allocator that always gives what is asked for.
abbrev generous : Allocator
generous size capacity count more = some (max capacity (count + more))

generous-Reserves : Reserves generous
generous-Reserves = record {
  granted = λ size capacity count more capacity' e.
      let same : max capacity (count + more) ≡ capacity' =
        ap {B = ℕ} (λ (o : Option ℕ). elim o [ none ↦ 0 | some z ↦ z ]) e in
      (omega (arith, same), omega (arith, same));
}

abbrev account : Memory
account = record { live = 64; limit = some 5000 }

abbrev full_ring : Buffer ℕ
full_ring = record { items = three ++ replicate 61 0; capacity = 64 }

full_ring-Unwrapped : Unwrapped three full_ring.items
full_ring-Unwrapped = record {
  fits = omega arith;
  bytes = λ p lt. ap (λ (k : ℕ). get_or (three ++ replicate 61 0) k 0) (low p lt) ∙ three_at p lt;
}
  where
    low : (p : ℕ) → p < 3 → p ≡ p % 64
    low p lt = omega (arith, lt)

grow_ring-Grows_example :
    Grows
      (Enlarged 10 100 three)
      account
      full_ring
      (grow_ring generous (2 ^ 10) 100 account full_ring)
grow_ring-Grows_example =
    grow_ring-Grows generous generous-Reserves 10 (omega arith) (omega arith) 100 three account
      full_ring (omega arith) (IsRing.power 6 (omega arith) refl) full_ring-Unwrapped (omega arith)

repeat_grow-Grows_example :
    Gives
      (Grows (Enlarged 10 100 (copy_back (100 - 3) 1 three)) account full_ring)
      (repeat_grow generous (2 ^ 10) 3 9 100 account full_ring)
repeat_grow-Grows_example =
    repeat_grow-Grows generous generous-Reserves 10 (omega arith) (omega arith) 100 three account
      full_ring (omega arith) (IsRing.power 6 (omega arith) refl) full_ring-Unwrapped (omega arith)
      (omega arith) (omega arith)

write_raw_growing-Grows_example :
    Gives
      (Grows (Enlarged 10 (3 + 70) (three ++ replicate 70 6)) account full_ring)
      (write_raw_growing generous (2 ^ 10) 3 (replicate 70 6) account full_ring)
write_raw_growing-Grows_example =
    write_raw_growing-Grows generous generous-Reserves 10 (omega arith) (omega arith)
      (replicate 70 6) three account full_ring (omega arith) (IsRing.power 6 (omega arith) refl)
      full_ring-Unwrapped (omega arith) (omega arith)

-- A copy that overlaps its source, in a ring of 64 bytes, and the flush that follows.
runs :
    Gives
      (λ (output : Output).
        take 12 output.bytes ≡ 0 ∷ 0 ∷ 7 ∷ 8 ∷ 9 ∷ 8 ∷ 9 ∷ 8 ∷ 9 ∷ 8 ∷ 0 ∷ 0 ∷ [])
      (deliver false (writes three ∷ copies 2 5 ∷ []) fresh)
unfolding deliver mbrotli.Decoder.History.Operations.perform_all
    mbrotli.Decoder.History.Operations.perform mbrotli.Decoder.History.write_ring
    mbrotli.Decoder.History.write_loop mbrotli.Decoder.History.slot
    mbrotli.Decoder.History.flush_at_end mbrotli.Decoder.History.copy_ring
    mbrotli.Decoder.History.copy_loop mbrotli.Decoder.History.copy_piece
    mbrotli.Decoder.History.back mbrotli.Decoder.History.copy_overlapping
    mbrotli.Decoder.History.copy_bytewise mbrotli.Decoder.History.flush_ring
    mbrotli.Decoder.History.delivers mbrotli.Decoder.History.copy16
    mbrotli.Decoder.History.copy_doubling mbrotli.Decoder.History.copy_short
    mbrotli.Decoder.History.copy_vector mbrotli.Decoder.History.copy_within
    mbrotli.Decoder.History.history_mask mbrotli.Decoder.History.is_power_below
    mbrotli.Decoder.History.is_power_of_two mbrotli.Common.Slices.slice
    mbrotli.Common.Slices.write_slice mbrotli.Common.Slices.store
runs = Gives.gives refl
