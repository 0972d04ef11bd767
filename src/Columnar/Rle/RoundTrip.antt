-- ===== src/Columnar/Rle/RoundTrip.antt =====
-- columnar/encoding/rle.rs: the decoder on what the encoder wrote.
use automerge_r.Common.{suc, ◌^◌, ◌<◌, ◌≡◌, List, [], Option, some, length, All, ok, arith}
use automerge_r.Columnar.Leb128.{Reader}
use automerge_r.Columnar.Raw.{Codec}
use automerge_r.Columnar.Raw
use automerge_r.Columnar.Raw.Position.{new-IsAt}
use automerge_r.Columnar.Rle.Encoder.{new, append_all, finish}
use automerge_r.Columnar.Rle.Decoder.{from, collect}
use automerge_r.Columnar.Rle.Appended.{IsEntry, append_all-Encoded, new-Encoded}
use automerge_r.Columnar.Rle.Finished.{kept_values, Output, finish-Output}
use automerge_r.Columnar.Rle.Decoded.{collect-Runs}

module _ {E T : Type 0} (r : Reader E) (c : Codec E T) where
  written :
      (vs : List (Option T))
      → length vs < 2 ^ 63
      → All (IsEntry c) vs
      → Output c (finish c (append_all c (new []) vs)) vs
  written vs h hv =
      finish-Output c (append_all c (new []) vs) vs
        (append_all-Encoded c (new []) [] vs (new-Encoded c) (omega arith) hv) h

  -- A column that is appended value by value and finished is decoded to the same values, and to
  -- no value at all if it has only nulls; the values are encodable and fewer than 2^63.
  pub collect-finish :
      (vs : List (Option T))
      → length vs < 2 ^ 63
      → All (IsEntry c) vs
      → collect r c (suc (length (kept_values vs))) (from (finish c (append_all c (new []) vs)).0)
        ≡ some (ok (kept_values vs))
  unfolding from
  collect-finish vs h hv =
      collect-Runs r c (written vs h hv).runs (Raw.new (finish c (append_all c (new []) vs)).0) _ _
        (new-IsAt _)

  -- `finish` returns the number of the bytes that it wrote.
  pub finish_counted :
      (vs : List (Option T))
      → length vs < 2 ^ 63
      → All (IsEntry c) vs
      → (finish c (append_all c (new []) vs)).1 ≡ length (finish c (append_all c (new []) vs)).0
  finish_counted vs h hv = (written vs h hv).counted
