-- ===== src/Columnar/Boolean.antt =====
-- columnar/encoding/boolean.rs: booleans as the counts of the same value, first of `false`.
pub mod Counted
pub mod RoundTrip
pub mod Maybe
pub mod MaybeRoundTrip
use automerge_r.Common.{
  ℕ, zero, suc, ◌+◌, ◌-◌, Bool, true, false, not, List, [], ◌∷◌, ◌++◌, Option, none, some, length,
  ltb, ◌==◌, if◌then◌else◌, Result, ok, err, ◌>>=◌,
}
use automerge_r.Columnar.Leb128.{Reader}
use automerge_r.Columnar.Encodable.{encode_u64}
use automerge_r.Columnar.Raw.{Error, RawDecoder, read}
use automerge_r.Columnar.Raw
use automerge_r.Columnar.Rle.Decoder.{again, gather}

pub record BooleanEncoder : Type 0 where
  pub written : ℕ
  pub buf : List ℕ
  pub last : Bool
  pub count : ℕ

unfoldable pub from_sink : List ℕ → BooleanEncoder
from_sink sink = record { written = 0; buf = sink; last = false; count = 0 }

-- `==` of `bool`
abbrev pub eq_bool : Bool → Bool → Bool
eq_bool true b = b
eq_bool false b = not b

unfoldable pub append : BooleanEncoder → Bool → BooleanEncoder
append e value =
    let bytes = encode_u64 e.count in
    if eq_bool value e.last
    then record { written = e.written; buf = e.buf; last = e.last; count = e.count + 1 }
    else record {
      written = e.written + length bytes;
      buf = e.buf ++ bytes;
      last = value;
      count = 1;
    }

unfoldable pub append_all : BooleanEncoder → List Bool → BooleanEncoder
append_all e [] = e
append_all e (v ∷ vs) = append_all (append e v) vs

unfoldable pub finish : BooleanEncoder → List ℕ × ℕ
finish e =
    let bytes = encode_u64 e.count in
    if ltb 0 e.count then (e.buf ++ bytes, e.written + length bytes) else (e.buf, e.written)

pub record BooleanDecoder : Type 0 where
  pub decoder : RawDecoder
  pub last_value : Bool
  pub count : ℕ

unfoldable pub from : List ℕ → BooleanDecoder
from bytes = record { decoder = Raw.new bytes; last_value = true; count = 0 }

pub record MaybeBooleanEncoder : Type 0 where
  pub encoder : BooleanEncoder
  pub all_false : Bool

unfoldable pub maybe_from_sink : List ℕ → MaybeBooleanEncoder
maybe_from_sink buf = record { encoder = from_sink buf; all_false = true }

unfoldable pub maybe_append : MaybeBooleanEncoder → Bool → MaybeBooleanEncoder
maybe_append e value = record {
  encoder = append e.encoder value;
  all_false = if value then false else e.all_false;
}

unfoldable pub maybe_append_all : MaybeBooleanEncoder → List Bool → MaybeBooleanEncoder
maybe_append_all e [] = e
maybe_append_all e (v ∷ vs) = maybe_append_all (maybe_append e v) vs

unfoldable pub maybe_finish : MaybeBooleanEncoder → List ℕ × ℕ
maybe_finish e = if e.all_false then (e.encoder.buf, 0) else finish e.encoder

module _ {E : Type 0} (r : Reader E) where
  -- `while self.count == 0`, with the bytes left and one more as fuel; the inner `none` stands for
  -- the end of the column, the outer one for no fuel.
  unfoldable pub seek : ℕ → BooleanDecoder → Option (Result (Error E) (Option BooleanDecoder))
  seek zero d = none
  seek (suc fuel) d =
      if d.count == 0
      then (if Raw.done d.decoder
          then some (ok none)
          else again (seek fuel) (
              read r.unsigned d.decoder >>= λ q.
              ok (record { decoder = q.0; last_value = not d.last_value; count = q.1 })))
      else some (ok (some d))

  -- `self.count -= 1`, and the value.
  abbrev pub outcome :
      Option (Result (Error E) (Option BooleanDecoder))
      → Option (Result (Error E) (Option (BooleanDecoder × Bool)))
  outcome none = none
  outcome (some (err x)) = some (err x)
  outcome (some (ok none)) = some (ok none)
  outcome (some (ok (some d))) = some (
      ok (
        some (
          record { decoder = d.decoder; last_value = d.last_value; count = d.count - 1 },
          d.last_value,
        )))

  unfoldable pub next : BooleanDecoder → Option (Result (Error E) (Option (BooleanDecoder × Bool)))
  next d = outcome (seek (suc (length (Raw.buf d.decoder))) d)

  -- The column as a list, with fuel for one more step than it has values.
  unfoldable pub collect : ℕ → BooleanDecoder → Option (Result (Error E) (List Bool))
  collect zero d = none
  collect (suc fuel) d = gather (collect fuel) (next d)

  -- `transpose().map(Some).transpose()`
  abbrev pub valued :
      Option (Result (Error E) (Option (BooleanDecoder × Bool)))
      → Option (Result (Error E) (Option (BooleanDecoder × Option Bool)))
  valued none = none
  valued (some (err x)) = some (err x)
  valued (some (ok none)) = some (ok none)
  valued (some (ok (some (d, v)))) = some (ok (some (d, some v)))

  -- `MaybeBooleanDecoder` wraps a `BooleanDecoder`.
  unfoldable pub maybe_next :
      BooleanDecoder → Option (Result (Error E) (Option (BooleanDecoder × Option Bool)))
  maybe_next d = if Raw.is_empty d.decoder then some (ok none) else valued (next d)

  unfoldable pub maybe_collect : ℕ → BooleanDecoder → Option (Result (Error E) (List (Option Bool)))
  maybe_collect zero d = none
  maybe_collect (suc fuel) d = gather (maybe_collect fuel) (maybe_next d)
