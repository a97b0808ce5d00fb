-- ===== src/Decoder/Bits.antt =====
-- src/decompressor/core/bits.rs: the 64-bit reservoir and the input of one call.
pub mod Position
pub mod Loads
pub mod Refills
pub mod Calls
mod Tests
use mbrotli.Common.{ℕ, zero, suc, ◌+◌, ◌-◌, ◌*◌, ◌/◌, ◌%◌, ◌^◌, min, bit_and, bit_or}
use mbrotli.Common.{Bool, true, false, Option, none, some, List, [], ◌∷◌}
use mbrotli.Common.{ltb, leb, ◌==◌, if◌then◌else◌, get_elem?, take, drop, length}
use mbrotli.Common.Bytes.{number}
use mbrotli.Decoder.Errors.{DecodeError, InvalidDataKind, Poll, ready, pending, failed}

-- Widest field either path reads in one step.
abbrev pub max_peek : ℕ
max_peek = 56

pub record Bits : Type 0 where
  pub value : ℕ
  pub count : ℕ

-- `fast_end` is the end of the prefix that needs no limit check on each byte.
pub record Input : Type 0 where
  pub bytes : List ℕ
  pub consumed : ℕ
  pub total_before : ℕ
  pub limit : Option ℕ
  pub fast_end : ℕ

-- The two objects that every reader is handed as `&mut`.
pub record Cursor : Type 0 where
  pub bits : Bits
  pub input : Input

abbrev u64_max : ℕ
u64_max = 2 ^ 64 - 1

-- How many bytes the limit and the `u64` total still admit; ℕ's `-` is `saturating_sub`.
unfoldable pub budget : ℕ → Option ℕ → ℕ
budget total_before none = min u64_max (u64_max - total_before)
budget total_before (some limit) = min (limit - total_before) (u64_max - total_before)

unfoldable pub new_input : List ℕ → ℕ → Option ℕ → Input
unfolding budget
new_input bytes total_before limit = record {
  bytes = bytes;
  consumed = 0;
  total_before = total_before;
  limit = limit;
  fast_end = min (budget total_before limit) (length bytes);
}

abbrev pub empty_bits : Bits
empty_bits = record { value = 0; count = 0 }

abbrev pub mask : ℕ → ℕ
mask count = 2 ^ count - 1

-- A computation over both objects. The changes made before an error stay.
abbrev pub M : Type 0 → Type 0
M A = Cursor → Poll A × Cursor

-- What follows a step that ended with `r` and left `c`.
abbrev pub continue : {A B : Type 0} → Poll A → Cursor → (A → M B) → Poll B × Cursor
continue (ready a) c f = f a c
continue pending c f = (pending, c)
continue (failed e) c f = (failed e, c)

infixl 5 ◌>>=◌ ◌>>◌
abbrev pub ◌>>=◌ : {A B : Type 0} → M A → (A → M B) → M B
◌>>=◌ m f c = continue (m c).0 (m c).1 f

abbrev pub ◌>>◌ : {B : Type 0} → M (Unit {0}) → M B → M B
m >> k = m >>= λ _. k

abbrev pub pure : {A : Type 0} → A → M A
pure a c = (ready a, c)

abbrev pub fail : {A : Type 0} → DecodeError → M A
fail e c = (failed e, c)

-- `value |= u64::from(byte) << count; count += 8; consumed += 1`
unfoldable pub accept : ℕ → Cursor → Cursor
accept byte c = record {
  bits = record {
    value = bit_or c.bits.value (byte * 2 ^ c.bits.count % 2 ^ 64);
    count = c.bits.count + 8;
  };
  input = record c.input { consumed = c.input.consumed + 1 };
}

-- Whether the byte that makes the total `next` stays within the input limit.
unfoldable pub within_limit : Option ℕ → ℕ → M Bool → M Bool
within_limit none next go = go
within_limit (some limit) next go =
    if ltb limit next then fail (DecodeError.input_limit_exceeded limit) else go

-- Accepts one byte, or answers `false` where the input is used up.
unfoldable pub load_byte : M Bool
unfolding within_limit
load_byte c = elim (get_elem? c.input.bytes c.input.consumed) [
  | none ↦ (ready false, c)
  | some byte ↦
      let next = c.input.total_before + c.input.consumed + 1 in
      if leb (2 ^ 64) next
      then (failed DecodeError.size_overflow, c)
      else within_limit c.input.limit next (λ c. (ready true, accept byte c)) c
]

-- `value & mask(count)` of the reservoir
unfoldable pub low : ℕ → M ℕ
low count c = (ready (bit_and c.bits.value (mask count)), c)

-- `while self.count < count { if !load_byte()? { return Ok(None) } }`, then the field. Each round
-- adds 8 bits, so `count` rounds are more than enough.
unfoldable pub peek_loop : ℕ → ℕ → M ℕ
unfolding low
peek_loop zero count c = low count c
peek_loop (suc fuel) count c =
    let again : M ℕ = peek_loop fuel count in
    let more : M ℕ = load_byte >>= λ loaded. if loaded then again else λ c. (pending, c) in
    if ltb c.bits.count count then more c else low count c

unfoldable pub peek : ℕ → M ℕ
peek count = peek_loop count count

-- The next eight bytes, where there are as many.
unfoldable pub first_chunk : List ℕ → Option (List ℕ)
first_chunk rest = if ltb (length rest) 8 then none else some (take 8 rest)

-- The reservoir after a whole word went in unmasked, and how many of its bytes it accepts.
unfoldable pub or_word : Bits → List ℕ → Bits
unfolding number
or_word b chunk = record {
  value = bit_or b.value (number chunk * 2 ^ b.count % 2 ^ 64);
  count = b.count + (63 - b.count) / 8 * 8;
}

-- `refill_from`: over the acceptable prefix `fast`, with the position passed and returned.
unfoldable pub refill_from : Bits → List ℕ → ℕ → Bool × Bits × ℕ
unfolding first_chunk or_word
refill_from b fast consumed = elim (first_chunk (drop consumed fast)) [
  | none ↦ (ltb max_peek b.count, b, consumed)
  | some chunk ↦ (true, or_word b chunk, consumed + (63 - b.count) / 8)
]

unfoldable pub refill : M Bool
unfolding refill_from
refill c =
    let (done, b, consumed) =
      refill_from c.bits (take c.input.fast_end c.input.bytes) c.input.consumed in
    (ready done, record { bits = b; input = record c.input { consumed = consumed } })

-- `refill_rest`: the same with the unread input as a shrinking slice.
unfoldable pub refill_rest : Bits → List ℕ → Bool × Bits × List ℕ
unfolding first_chunk or_word
refill_rest b rest = elim (first_chunk rest) [
  | none ↦ (ltb max_peek b.count, b, rest)
  | some chunk ↦ (true, or_word b chunk, drop (min ((63 - b.count) / 8) 8) rest)
]

unfoldable pub settle : Cursor → Cursor
settle c = record c {
  bits = record { value = bit_and c.bits.value (mask c.bits.count); count = c.bits.count };
}

-- Returns the whole buffered bytes of this call to the input.
unfoldable pub unread : Cursor → Cursor
unread c =
    let whole = min (c.bits.count / 8) (min c.input.consumed 8) in
    let count = c.bits.count - whole * 8 in
    record {
      bits = record {
        value = if ltb count 64 then bit_and c.bits.value (mask count) else c.bits.value;
        count = count;
      };
      input = record c.input { consumed = c.input.consumed - whole };
    }

-- `drop`: callers have buffered `count` bits, so `self.count - count` does not go below zero.
unfoldable pub drop_bits : ℕ → M (Unit {0})
drop_bits count c = (
  ready tt,
  record c { bits = record { value = c.bits.value / 2 ^ count; count = c.bits.count - count } },
)

-- `take`: bits that are buffered already
unfoldable pub take_bits : ℕ → M ℕ
take_bits count = do value ← low count; drop_bits count; pure value

unfoldable pub read : ℕ → M ℕ
read count = do value ← peek count; drop_bits count; pure value

unfoldable pub align : M (Unit {0})
align c =
    let padding = c.bits.count % 8 in
    if bit_and c.bits.value (mask padding) == 0
    then drop_bits padding c
    else (failed (DecodeError.invalid_data InvalidDataKind.padding), c)

-- A number from 0 to 255 in 1, or 4 to 11, bits.
unfoldable pub uint8 : M ℕ
uint8 = do
  first ← peek 1
  if first == 0 then (do drop_bits 1; pure 0) else (do
    head ← peek 4
    let n = head / 2
    if n == 0
        then (do drop_bits 4; pure 1)
        else (do all ← peek (4 + n); drop_bits (4 + n); pure (2 ^ n + all / 16)))
