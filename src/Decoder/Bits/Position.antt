-- ===== src/Decoder/Bits/Position.antt =====
-- What a reservoir and its input stand for: a position in one string of bits, least significant
-- bit first.
use mbrotli.Common.{ℕ, ◌+◌, ◌*◌, ◌/◌, ◌%◌, ◌^◌, ◌≤◌, ◌<◌}
use mbrotli.Common.{◌≡◌, sym, ap, ◌∙◌, List, Option, none, some}
use mbrotli.Common.{length, drop, All}
use mbrotli.Common.Pow.{div-div-pow, pow-join}
use mbrotli.Common.Bytes.{IsByte, number, number-drop}
use mbrotli.Decoder.Bits.{Cursor}

-- The bits that a call starts with: `held` carried over in the reservoir, then the input's bytes.
pub record Origin : Type 0 where
  pub carry : ℕ
  pub held : ℕ
  pub bytes : List ℕ
  pub carry_fits : carry < 2 ^ held
  pub held_fits : held ≤ 64
  pub all_bytes : All IsByte bytes

-- The whole bit string as one number, and its length.
abbrev pub text : Origin → ℕ
text o = o.carry + 2 ^ o.held * number o.bytes

abbrev pub size : Origin → ℕ
size o = o.held + 8 * length o.bytes

-- The number that starts at bit `d`.
abbrev pub from : Origin → ℕ → ℕ
from o d = text o / 2 ^ d

-- The input may be accepted whole: neither the limit nor the `u64` total is passed.
abbrev pub Fits : Option ℕ → ℕ → Type 0
Fits none total = Unit {0}
Fits (some limit) total = total ≤ limit

-- `c` stands at bit `d` of `o`, with `b` bits at least buffered. The reservoir shows `extent` bits
-- of the string: those that are buffered and perhaps some that are not accepted yet.
pub record IsAt (o : Origin) (d b : ℕ) (c : Cursor) : Type 0 where
  pub same_bytes : c.input.bytes ≡ o.bytes
  pub placed : d + c.bits.count ≡ o.held + 8 * c.input.consumed
  pub inside : c.input.consumed ≤ length o.bytes
  pub buffered : b ≤ c.bits.count
  pub extent : ℕ
  pub counted : c.bits.count ≤ extent
  pub narrow : extent ≤ 64
  pub shown : c.bits.value ≡ from o d % 2 ^ extent
  pub total_fits : c.input.total_before + length o.bytes < 2 ^ 64
  pub limit_fits : Fits c.input.limit (c.input.total_before + length o.bytes)

-- Past what is buffered the string goes on with the unread bytes.
pub from_buffered :
    {o : Origin} {d b : ℕ} {c : Cursor}
    → IsAt o d b c
    → from o d / 2 ^ c.bits.count ≡ number (drop c.input.consumed c.input.bytes)
from_buffered {o} {d} {b} {c} at =
    div-div-pow (text o) d c.bits.count
    ∙ ap (λ (t : ℕ). text o / 2 ^ t) at.placed
    ∙ sym (div-div-pow (text o) o.held (8 * c.input.consumed))
    ∙ ap (λ (t : ℕ). t / 2 ^ (8 * c.input.consumed))
        (pow-join o.held (number o.bytes) o.carry o.carry_fits).0
    ∙ number-drop c.input.consumed o.bytes o.all_bytes
    ∙ ap (λ (xs : List ℕ). number (drop c.input.consumed xs)) (sym at.same_bytes)

pub IsAt-weaken :
    {o : Origin} {d b : ℕ} {c : Cursor} (b' : ℕ) → b' ≤ c.bits.count → IsAt o d b c → IsAt o d b' c
IsAt-weaken b' h at = record {
  same_bytes = at.same_bytes;
  placed = at.placed;
  inside = at.inside;
  buffered = h;
  extent = at.extent;
  counted = at.counted;
  narrow = at.narrow;
  shown = at.shown;
  total_fits = at.total_fits;
  limit_fits = at.limit_fits;
}
