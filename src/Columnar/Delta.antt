-- ===== src/Columnar/Delta.antt =====
-- columnar/encoding/delta.rs: integers as run length encoded differences.
pub mod RoundTrip
use automerge_r.Common.{
  ℕ, zero, suc, ◌-◌, ◌^◌, ltb, if◌then◌else◌, List, [], ◌∷◌, Option, none, some, Result, ok, err,
}
use automerge_r.Common.Int.{ℤ, pos, negsuc, ◌+ℤ◌, ◌-ℤ◌}
use automerge_r.Columnar.Leb128.{Reader}
use automerge_r.Columnar.Raw.{Error}
use automerge_r.Columnar.Codecs.{i64_codec}
use automerge_r.Columnar.Rle.Encoder.{RleEncoder}
use automerge_r.Columnar.Rle.Encoder
use automerge_r.Columnar.Rle.Decoder.{RleDecoder, gather}
use automerge_r.Columnar.Rle.Decoder

-- The nearest number of an `i64`.
abbrev pub clamp : ℤ → ℤ
clamp (pos n) = if ltb n (2 ^ 63) then pos n else pos (2 ^ 63 - 1)
clamp (negsuc n) = if ltb n (2 ^ 63) then negsuc n else negsuc (2 ^ 63 - 1)

abbrev pub saturating_add : ℤ → ℤ → ℤ
saturating_add a b = clamp (a +ℤ b)

abbrev pub saturating_sub : ℤ → ℤ → ℤ
saturating_sub a b = clamp (a -ℤ b)

pub record DeltaEncoder : Type 0 where
  pub rle : RleEncoder ℤ
  pub absolute_value : ℤ

unfoldable pub new : List ℕ → DeltaEncoder
new output = record { rle = Encoder.new output; absolute_value = pos 0 }

pub record DeltaDecoder : Type 0 where
  pub rle : RleDecoder ℤ
  pub absolute_val : ℤ

unfoldable pub from : List ℕ → DeltaDecoder
from bytes = record { rle = Decoder.from bytes; absolute_val = pos 0 }

module _ {E : Type 0} (r : Reader E) where
  unfoldable pub append_value : DeltaEncoder → ℤ → DeltaEncoder
  append_value e value = record {
    rle = Encoder.append_value (i64_codec r) e.rle (saturating_sub value e.absolute_value);
    absolute_value = value;
  }

  unfoldable pub append_null : DeltaEncoder → DeltaEncoder
  append_null e = record {
    rle = Encoder.append_null (i64_codec r) e.rle;
    absolute_value = e.absolute_value;
  }

  unfoldable pub append : DeltaEncoder → Option ℤ → DeltaEncoder
  append e (some v) = append_value e v
  append e none = append_null e

  unfoldable pub append_all : DeltaEncoder → List (Option ℤ) → DeltaEncoder
  append_all e [] = e
  append_all e (v ∷ vs) = append_all (append e v) vs

  unfoldable pub finish : DeltaEncoder → List ℕ × ℕ
  finish e = Encoder.finish (i64_codec r) e.rle

  -- The sum so far and the value, from what the run length decoder gives.
  abbrev pub add_delta :
      ℤ
      → Option (Result (Error E) (Option (RleDecoder ℤ × Option ℤ)))
      → Option (Result (Error E) (Option (DeltaDecoder × Option ℤ)))
  add_delta a none = none
  add_delta a (some (err e)) = some (err e)
  add_delta a (some (ok none)) = some (ok none)
  add_delta a (some (ok (some (d, none)))) =
      some (ok (some (record { rle = d; absolute_val = a }, none)))
  add_delta a (some (ok (some (d, some delta)))) = some (
      ok (
        some (
          record { rle = d; absolute_val = saturating_add a delta },
          some (saturating_add a delta),
        )))

  unfoldable pub next : DeltaDecoder → Option (Result (Error E) (Option (DeltaDecoder × Option ℤ)))
  next d = add_delta d.absolute_val (Decoder.try_next r (i64_codec r) d.rle)

  unfoldable pub collect : ℕ → DeltaDecoder → Option (Result (Error E) (List (Option ℤ)))
  collect zero d = none
  collect (suc fuel) d = gather (collect fuel) (next d)
