-- ===== src/Command/RoundTrip.antt =====
-- A command's lengths, as the decoder computes them from the symbol and the extra bits.
use mbrotli.Common.{ℕ, ◌+◌, ◌-◌, ◌*◌, ◌/◌, ◌%◌, ◌^◌, ◌≤◌, ◌<◌, arith, bit_and, bit_or}
use mbrotli.Common.{◌≡◌, refl, sym, ap, ap₂, ◌∙◌, Bool, true, ◌&&◌, ltb, ◌==◌, if◌then◌else◌}
use mbrotli.Common.{get_or, all_below, all_below_sound, eq_of_test, lt→ltb, ge→ltb}
use mbrotli.Common.Pow.{pow-join}
use mbrotli.Common.BitOps.{bit_or_add, bit_or_low, bit_and_mask}
use mbrotli.Format.{ins_base, ins_extra, copy_base, copy_extra}
use mbrotli.Command.{
  Command, ℤ, pos, negsuc, wrap, new, copy_len, copy_len_code, sign_extend, extra_bits, length_code,
  insert_length_code, copy_length_code, combine_length_codes, distance_context,
}
use mbrotli.Command.Lengths.{InRange, insert_length_code-InRange, copy_length_code-InRange}
use mbrotli.Command.Symbols.{slot-combine_length_codes, slot-exact}
use mbrotli.Command.Slots.{slot, insert_of, copy_of}
use mbrotli.Distance.Params.{DistanceParams}

-- A command whose symbol is the one of its lengths, both of which the format can write.
pub record IsCommand (last : Bool) (c : Command) : Type 0 where
  pub insert_fits : c.insert_len < 22594 + 2 ^ 24
  pub copy_some : 2 ≤ copy_len_code c
  pub copy_fits : copy_len_code c < 2118 + 2 ^ 24
  pub symbol : c.cmd_prefix ≡ length_code c.insert_len (copy_len_code c) last

-- For a command with the symbol of its lengths, which the format can write: the decoder's table
-- entry for the symbol asks for as many extra bits as `extra_bits` counts, and with their value
-- gives the insert length and the copy length of the command.
pub slot-extra_bits :
    (last : Bool) (c : Command)
    → IsCommand last c
    → ((extra_bits c).0 ≡ (slot c.cmd_prefix).insert_extra + (slot c.cmd_prefix).copy_extra_bits)
      × ((slot c.cmd_prefix).insert_start + (extra_bits c).1 % 2 ^ (slot c.cmd_prefix).insert_extra
          ≡ c.insert_len)
      × ((slot c.cmd_prefix).copy_start + (extra_bits c).1 / 2 ^ (slot c.cmd_prefix).insert_extra
          ≡ copy_len_code c)
unfolding extra_bits length_code
slot-extra_bits last c is = (
  ap₂ (λ (a b : ℕ). a + b) (sym ie) (sym ce),
  ap₂ (λ (a b : ℕ). a + value % 2 ^ b) bi ie ∙ omega (arith, low, lo_i),
  ap₂ (λ (a b : ℕ). a + value / 2 ^ b) bc ie ∙ omega (arith, high, lo_c),
)
  where
    i : ℕ
    i = insert_length_code c.insert_len

    k : ℕ
    k = copy_length_code (copy_len_code c)

    range_i : InRange ins_base ins_extra i c.insert_len
    range_i = insert_length_code-InRange c.insert_len is.insert_fits

    lo_i : get_or ins_base i 0 ≤ c.insert_len
    lo_i = range_i.1

    range_c : InRange copy_base copy_extra k (copy_len_code c)
    range_c = copy_length_code-InRange (copy_len_code c) is.copy_some is.copy_fits

    lo_c : get_or copy_base k 0 ≤ copy_len_code c
    lo_c = range_c.1

    w : ℕ
    w = get_or ins_extra i 0

    x : ℕ
    x = copy_len_code c - get_or copy_base k 0

    y : ℕ
    y = c.insert_len - get_or ins_base i 0

    value : ℕ
    value = bit_or (x * 2 ^ w) y

    sum : value ≡ y + 2 ^ w * x
    sum =
        ap (λ (t : ℕ). bit_or t y) (let e : x * 2 ^ w ≡ 2 ^ w * x = omega arith in e)
        ∙ bit_or_add w y x range_i.2
        ∙ omega arith

    low : value % 2 ^ w ≡ y
    low = ap (λ (t : ℕ). t % 2 ^ w) sum ∙ (pow-join w x y range_i.2).1

    high : value / 2 ^ w ≡ x
    high = ap (λ (t : ℕ). t / 2 ^ w) sum ∙ (pow-join w x y range_i.2).0

    split :
        (combine_length_codes i k last < 704)
        × (insert_of (combine_length_codes i k last) ≡ i)
        × (copy_of (combine_length_codes i k last) ≡ k)
        × ((slot (combine_length_codes i k last)).implicit ≡ (last && (ltb i 8 && ltb k 16)))
    split = slot-combine_length_codes last i k range_i.0 range_c.0

    entry :
        ((slot (combine_length_codes i k last)).insert_extra
          ≡ get_or ins_extra (insert_of (combine_length_codes i k last)) 0)
        × ((slot (combine_length_codes i k last)).copy_extra_bits
            ≡ get_or copy_extra (copy_of (combine_length_codes i k last)) 0)
        × ((slot (combine_length_codes i k last)).insert_start
            ≡ get_or ins_base (insert_of (combine_length_codes i k last)) 0)
        × ((slot (combine_length_codes i k last)).copy_start
            ≡ get_or copy_base (copy_of (combine_length_codes i k last)) 0)
        × ((slot (combine_length_codes i k last)).context
            ≡ distance_context (combine_length_codes i k last))
    entry = slot-exact (combine_length_codes i k last) split.0

    ie : (slot c.cmd_prefix).insert_extra ≡ w
    ie =
        ap (λ (t : ℕ). (slot t).insert_extra) is.symbol
        ∙ entry.0
        ∙ ap (λ (t : ℕ). get_or ins_extra t 0) split.1

    ce : (slot c.cmd_prefix).copy_extra_bits ≡ get_or copy_extra k 0
    ce =
        ap (λ (t : ℕ). (slot t).copy_extra_bits) is.symbol
        ∙ entry.1
        ∙ ap (λ (t : ℕ). get_or copy_extra t 0) split.2

    bi : (slot c.cmd_prefix).insert_start ≡ get_or ins_base i 0
    bi =
        ap (λ (t : ℕ). (slot t).insert_start) is.symbol
        ∙ entry.2
        ∙ ap (λ (t : ℕ). get_or ins_base t 0) split.1

    bc : (slot c.cmd_prefix).copy_start ≡ get_or copy_base k 0
    bc =
        ap (λ (t : ℕ). (slot t).copy_start) is.symbol
        ∙ entry.3
        ∙ ap (λ (t : ℕ). get_or copy_base t 0) split.2

-- The seven bits above the copy length, as a signed number of 32 bits.
extended : ℕ → Bool
extended m =
    sign_extend (bit_or m (bit_and m 0x40 * 2) % 256)
    == (if ltb m 64 then m else m + (2 ^ 32 - 128))

extended_all : all_below 128 extended ≡ true
unfolding extended sign_extend
extended_all = refl

module _ (copylen d : ℕ) (small : copylen < 2 ^ 25) (byte : d < 256) where
  abbrev field : ℕ
  field = bit_or (copylen % 2 ^ 32) (d * 2 ^ 25 % 2 ^ 32)

  field_parts : field ≡ copylen + 2 ^ 25 * (d % 128)
  field_parts =
      ap₂ bit_or (let e : copylen % 2 ^ 32 ≡ copylen = omega (arith, small) in e)
        (let e : d * 2 ^ 25 % 2 ^ 32 ≡ 2 ^ 25 * (d % 128) = omega (arith, byte) in e)
      ∙ bit_or_low 25 copylen (d % 128) small

  field_low : bit_and field (2 ^ 25 - 1) ≡ copylen
  field_low = bit_and_mask 25 field ∙ omega (arith, field_parts, small)

  field_high : field / 2 ^ 25 ≡ d % 128
  field_high = omega (arith, field_parts, small)

  field_delta :
      sign_extend (bit_or (field / 2 ^ 25) (bit_and (field / 2 ^ 25) 0x40 * 2) % 256)
      ≡ (if ltb (d % 128) 64 then d % 128 else d % 128 + (2 ^ 32 - 128))
  unfolding extended
  field_delta =
      rw field_high
        (eq_of_test _ _ (all_below_sound 128 extended (d % 128) extended_all (omega arith)))

-- A delta of seven bits that leaves the length above zero.
unfoldable pub IsDelta : ℤ → ℕ → Type 0
IsDelta (pos n) copylen = n < 64
IsDelta (negsuc n) copylen = (n < 64) × (n < copylen)

-- For copy lengths below 2^25 and deltas from -64 to 63 that leave a length of zero or more,
-- `Command::new` keeps the copy length, and the length that the decoder will see is the copy
-- length and the delta.
pub copy_len_code-new :
    (dist : DistanceParams) (insertlen copylen : ℕ) (delta : ℤ) (distance_code : ℕ)
    → copylen < 2 ^ 25
    → IsDelta delta copylen
    → (copy_len (new dist insertlen copylen delta distance_code) ≡ copylen)
      × (copy_len_code (new dist insertlen copylen delta distance_code)
          ≡ (copylen + wrap 64 delta) % 2 ^ 64)
unfolding new copy_len copy_len_code wrap IsDelta
copy_len_code-new dist insertlen copylen (pos n) distance_code small h = (
  field_low copylen (n % 2 ^ 8) small (omega arith),
  rw
      (
        field_low copylen (n % 2 ^ 8) small (omega arith),
        field_delta copylen (n % 2 ^ 8) small (omega arith),
        lt→ltb (n % 2 ^ 8 % 128) 64 (omega (arith, h)),
      )
      (omega (arith, h, small)),
)
copy_len_code-new dist insertlen copylen (negsuc n) distance_code small (h, below) = (
  field_low copylen (2 ^ 8 - 1 - n % 2 ^ 8) small (omega arith),
  rw
      (
        field_low copylen (2 ^ 8 - 1 - n % 2 ^ 8) small (omega arith),
        field_delta copylen (2 ^ 8 - 1 - n % 2 ^ 8) small (omega arith),
        ge→ltb ((2 ^ 8 - 1 - n % 2 ^ 8) % 128) 64 (omega (arith, h)),
      )
      (omega (arith, h, below, small)),
)
