-- ===== src/Prefix/CodeLengths/Tests.antt =====
-- A code-length code with six lengths that are not 0, stored and read.
use mbrotli.Common.{
  ℕ, ◌+◌, ◌/◌, ◌≤◌, arith, ◌≡◌, inl, refl, List, [], ◌∷◌, ◌++◌, some, length, All, replicate,
}
use mbrotli.Common.Bytes.{IsByte, number}
use mbrotli.Decoder.Bits.Calls.{Runs}
use mbrotli.Encoder.Writer.{BitWriter, new_writer}
use mbrotli.Encoder.Writer.Fields.{IsWritten}
use mbrotli.Encoder.Writer.Sequences.{over}
use mbrotli.Prefix.CodeLengths.{code_lengths, store_code_length_code}
use mbrotli.Prefix.CodeLengths.Stages.{used, shares}
use mbrotli.Prefix.CodeLengths.RoundTrip.{IsComplete, code_lengths-store_code_length_code}

abbrev depths : List ℕ
depths = 2 ∷ 2 ∷ 0 ∷ 3 ∷ 3 ∷ (replicate 11 0 ++ (3 ∷ 3 ∷ []))

abbrev w : BitWriter
w = new_writer (replicate 20 0) 0

w-IsWritten : IsWritten w 0
unfolding new_writer number
w-IsWritten = record {
  fits = omega arith;
  holds = refl;
  room = omega arith;
  all_bytes = omega arith;
  sound = refl;
}

w_room : (w.position + 74) / 8 + 8 ≤ length w.storage
unfolding new_writer
w_room = omega arith

depths-IsComplete : IsComplete 2 depths
unfolding shares mbrotli.Prefix.CodeLengths.Stages.share
depths-IsComplete = inl (omega arith, refl)

stored_bytes : All IsByte (store_code_length_code 2 depths w).storage
unfolding store_code_length_code mbrotli.Prefix.CodeLengths.codes_to_store
    mbrotli.Prefix.CodeLengths.skip_some mbrotli.Prefix.CodeLengths.store_lengths new_writer
    mbrotli.Encoder.Writer.write mbrotli.Encoder.Writer.overwrite mbrotli.Common.Bytes.to_le_bytes
stored_bytes = omega arith

code_lengths-store_code_length_code_example :
    Runs
      (over (store_code_length_code 2 depths w).storage stored_bytes)
      w.position
      0
      code_lengths
      (some (depths, used 18 depths))
      (store_code_length_code 2 depths w).position
      0
code_lengths-store_code_length_code_example =
    code_lengths-store_code_length_code 2 depths w-IsWritten refl (omega arith) depths-IsComplete
      w_room stored_bytes
