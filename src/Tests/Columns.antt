-- ===== src/Tests/Columns.antt =====
-- The theorems on the column encodings, applied to concrete columns.
use automerge_r.Common.{
  map, ℕ, ◌≡◌, refl, List, [], ◌∷◌, Option, none, some, Bool, true, false, length, ok, arith,
  Result,
}
use automerge_r.Common.Int.{ℤ, pos, negsuc, ◌-ℤ◌}
use automerge_r.Columnar.Leb128.{Reader, reader}
use automerge_r.Columnar.Encodable.{
  encode_u64, encode_i64, encode_i64_loop, encode_u64_loop, low_bits_of_byte, low_bits_of_u64,
}
use automerge_r.Columnar.Sizes.{length-encode_u64, ulebsize}
use automerge_r.Columnar.Raw.{Error}
use automerge_r.Columnar.Codecs.{u64_codec}
use automerge_r.Columnar.Rle.Encoder
use automerge_r.Columnar.Rle.Decoder
use automerge_r.Columnar.Rle.Decoder.{RleDecoder}
use automerge_r.Columnar.Rle.RoundTrip.{collect-finish}
use automerge_r.Columnar.Rle.Terminates.{try_next_terminates}
use automerge_r.Columnar.Delta
use automerge_r.Columnar.Delta.RoundTrip.{collect_delta-finish}
use automerge_r.Columnar.Boolean
use automerge_r.Columnar.Boolean.RoundTrip.{collect_bool-finish}
use automerge_r.Columnar.Boolean.MaybeRoundTrip.{maybe_collect-maybe_finish}

abbrev leb128 : Reader ℕ
leb128 = reader 0

length-encode_u64_example : length (encode_u64 16384) ≡ ulebsize 16384
length-encode_u64_example = length-encode_u64 16384 (omega arith)

-- A run, nulls, literals and a run again.
abbrev column : List (Option ℕ)
column = some 5 ∷ some 5 ∷ none ∷ some 1 ∷ some 2 ∷ some 300 ∷ some 300 ∷ []

abbrev column_bytes : List ℕ
column_bytes =
    (Encoder.finish (u64_codec leb128)
      (Encoder.append_all (u64_codec leb128) (Encoder.new []) column)).0

column_bytes_run : column_bytes ≡ 2 ∷ 5 ∷ 0 ∷ 1 ∷ 126 ∷ 1 ∷ 2 ∷ 2 ∷ 172 ∷ 2 ∷ []
unfolding Encoder.finish Encoder.finish_state Encoder.append_all Encoder.append Encoder.append_value
    Encoder.value_after Encoder.append_null Encoder.null_after Encoder.new u64_codec
    Encoder.flush_run Encoder.put Encoder.flush_lit_run Encoder.flush_null_run encode_i64
    encode_i64_loop encode_u64 encode_u64_loop low_bits_of_byte low_bits_of_u64
column_bytes_run = refl

collect-finish_example :
    Decoder.collect leb128 (u64_codec leb128) 8 (Decoder.from column_bytes) ≡ some (ok column)
unfolding u64_codec
collect-finish_example = collect-finish leb128 (u64_codec leb128) column (omega arith) (
  omega arith,
  (omega arith, (tt, (omega arith, (omega arith, (omega arith, (omega arith, tt)))))),
)

-- The header of a run without its value.
try_next_terminates_example :
    (res : Result (Error ℕ) (Option (RleDecoder ℕ × Option ℕ))) × (Decoder.try_next leb128
        (u64_codec leb128)
        (Decoder.from (0 ∷ 0 ∷ 3 ∷ []))
      ≡ some res)
try_next_terminates_example =
    try_next_terminates leb128 (u64_codec leb128) (Decoder.from (0 ∷ 0 ∷ 3 ∷ []))

abbrev counters : List (Option ℤ)
counters = some (pos 10) ∷ some (pos 11) ∷ none ∷ some (pos 12) ∷ some (negsuc 4) ∷ []

collect_delta-finish_example :
    Delta.collect leb128 6
      (Delta.from (Delta.finish leb128 (Delta.append_all leb128 (Delta.new []) counters)).0)
    ≡ some (ok counters)
unfolding ◌-ℤ◌
collect_delta-finish_example = collect_delta-finish leb128 counters (omega arith) (
  omega arith,
  omega arith,
  (omega arith, omega arith, (omega arith, omega arith, (omega arith, omega arith, tt))),
)

abbrev flags : List Bool
flags = true ∷ true ∷ false ∷ true ∷ []

collect_bool-finish_example :
    Boolean.collect leb128 5
      (Boolean.from (Boolean.finish (Boolean.append_all (Boolean.from_sink []) flags)).0)
    ≡ some (ok flags)
collect_bool-finish_example = collect_bool-finish leb128 flags (omega arith)

maybe_collect-maybe_finish_example :
    Boolean.maybe_collect leb128 5 (
      Boolean.from
        (Boolean.maybe_finish (Boolean.maybe_append_all (Boolean.maybe_from_sink []) flags)).0)
    ≡ some (ok (map some flags))
maybe_collect-maybe_finish_example = maybe_collect-maybe_finish leb128 flags (omega arith)
