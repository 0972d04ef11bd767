-- ===== src/Columnar/Rle/Decoder.antt =====
-- columnar/encoding/rle.rs: `RleDecoder`, the loop that finds the next run, and the iterator. The
-- decoder that an error leaves behind is not kept.
use automerge_r.Common.{
  ℕ, zero, suc, Bool, true, false, ◌&&◌, List, [], ◌∷◌, Option, none, some, length, ◌==◌,
  if◌then◌else◌, Result, ok, err, ◌>>=◌,
}
use automerge_r.Common.Int.{ℤ, pos, negsuc}
use automerge_r.Columnar.Leb128.{Reader}
use automerge_r.Columnar.Raw.{Codec, Error, RawDecoder, read}
use automerge_r.Columnar.Raw
use automerge_r.Columnar.Rle.{as_i64, neg_i64, pred_i64}

pub record RleDecoder (T : Type 0) : Type 0 where
  pub decoder : RawDecoder
  pub last_value : Option T
  pub count : ℤ
  pub literal : Bool

unfoldable pub from : {T : Type 0} → List ℕ → RleDecoder T
from bytes = record { decoder = Raw.new bytes; last_value = none; count = pos 0; literal = false }

-- `count == 0`
abbrev pub is_zero : ℤ → Bool
is_zero (pos n) = n == 0
is_zero (negsuc n) = false

unfoldable pub done : {T : Type 0} → RleDecoder T → Bool
done d = Raw.done d.decoder && is_zero d.count

module _ {E : Type 0} where
  -- The next turn of a loop, from the outcome of this one.
  abbrev pub again :
      {D R : Type 0}
      → (D → Option (Result (Error E) R))
      → Result (Error E) D
      → Option (Result (Error E) R)
  again next (err x) = some (err x)
  again next (ok d) = next d

  abbrev pub prepend :
      {A : Type 0} → A → Option (Result (Error E) (List A)) → Option (Result (Error E) (List A))
  prepend v none = none
  prepend v (some (err x)) = some (err x)
  prepend v (some (ok vs)) = some (ok (v ∷ vs))

  -- `Iterator::collect`, up to the end or the first error.
  abbrev pub gather :
      {S A : Type 0}
      → (S → Option (Result (Error E) (List A)))
      → Option (Result (Error E) (Option (S × A)))
      → Option (Result (Error E) (List A))
  gather next none = none
  gather next (some (err x)) = some (err x)
  gather next (some (ok none)) = some (ok [])
  gather next (some (ok (some (d, v)))) = prepend v (next d)

module _ {E T : Type 0} (r : Reader E) (c : Codec E T) where
  -- One turn of the loop, from the count it read.
  unfoldable pub next_run : RleDecoder T → RawDecoder → ℤ → Result (Error E) (RleDecoder T)
  next_run d raw (negsuc n) = ok (record {
    decoder = raw;
    last_value = d.last_value;
    count = neg_i64 (negsuc n);
    literal = true;
  })
  next_run d raw (pos zero) = read r.unsigned raw >>= λ q.
      ok (record { decoder = q.0; last_value = none; count = as_i64 q.1; literal = false })
  next_run d raw (pos (suc n)) = read c.decode raw >>= λ q.
      ok (record { decoder = q.0; last_value = some q.1; count = pos (suc n); literal = false })

  -- `while self.count == 0`. Each turn reads a byte at least, so the bytes left and one more are
  -- fuel enough; the inner `none` stands for the end of the column, the outer one for no fuel.
  unfoldable pub seek : ℕ → RleDecoder T → Option (Result (Error E) (Option (RleDecoder T)))
  seek zero d = none
  seek (suc fuel) d =
      if is_zero d.count
      then (if Raw.done d.decoder
          then some (ok none)
          else again (seek fuel) (read r.signed d.decoder >>= λ q. next_run d q.0 q.1))
      else some (ok (some d))

  -- `self.count -= 1`, and the value.
  unfoldable pub take_value : RleDecoder T → Result (Error E) (RleDecoder T × Option T)
  take_value d =
      if d.literal
      then (read c.decode d.decoder >>= λ q. ok (
        record {
          decoder = q.0;
          last_value = d.last_value;
          count = pred_i64 d.count;
          literal = true;
        },
        some q.1,
      ))
      else ok (
        record {
          decoder = d.decoder;
          last_value = d.last_value;
          count = pred_i64 d.count;
          literal = false;
        },
        d.last_value,
      )

  abbrev pub value_of : Option (RleDecoder T) → Result (Error E) (Option (RleDecoder T × Option T))
  value_of none = ok none
  value_of (some d) = take_value d >>= λ q. ok (some q)

  abbrev pub outcome :
      Option (Result (Error E) (Option (RleDecoder T)))
      → Option (Result (Error E) (Option (RleDecoder T × Option T)))
  outcome none = none
  outcome (some found) = some (found >>= value_of)

  unfoldable pub try_next :
      RleDecoder T → Option (Result (Error E) (Option (RleDecoder T × Option T)))
  try_next d = outcome (seek (suc (length (Raw.buf d.decoder))) d)

  -- The column as a list, with fuel for one more step than it has values.
  unfoldable pub collect : ℕ → RleDecoder T → Option (Result (Error E) (List (Option T)))
  collect zero d = none
  collect (suc fuel) d = gather (collect fuel) (try_next d)
