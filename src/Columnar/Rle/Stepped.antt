-- ===== src/Columnar/Rle/Stepped.antt =====
-- columnar/encoding/rle.rs: one step of the decoder on a column in the format.
use automerge_r.Common.{
  ℕ, zero, suc, ◌^◌, ◌<◌, ◌≡◌, refl, sym, ap, ◌∙◌, Bool, true, false, List, [], ◌++◌, append_assoc,
  Option, none, some, length, length-append, if◌then◌else◌, arith, ok, Result, suc==zero, ◌>>=◌,
}
use mathlib.Core.Path.{subst}
use automerge_r.Common.Int.{ℤ, pos, negsuc}
use automerge_r.Columnar.Leb128.{Reader, IsI64}
use automerge_r.Columnar.Encodable.{encode_i64}
use automerge_r.Columnar.Encodable.RoundTrip.{signed-encode_i64, encode_i64_nonempty}
use automerge_r.Columnar.Raw.{Codec, Error, RawDecoder, buf, moved, read}
use automerge_r.Columnar.Raw
use automerge_r.Columnar.Raw.Position.{IsAt, moved-IsAt, read-IsAt, done-IsAt, done_end}
use automerge_r.Columnar.Rle.{as_i64, neg_i64}
use automerge_r.Columnar.Rle.Decoder.{
  RleDecoder, next_run, seek, again, take_value, outcome, try_next,
}

pub header_step :
    {E D R : Type 0} (f : D → Option (Result (Error E) R)) (b : Bool) (turn : Result (Error E) D)
    {d : D} {y : Option (Result (Error E) R)} (z : Option (Result (Error E) R))
    → b ≡ false
    → turn ≡ ok d
    → f d ≡ y
    → (if b then z else again f turn) ≡ y
header_step f true turn z eb et h = absurd (cc)
header_step f false turn z eb et h = ap (again f) et ∙ h

module _ {E T : Type 0} (r : Reader E) (c : Codec E T) where
  abbrev pub within : RawDecoder → Option T → ℕ → Bool → RleDecoder T
  within raw lv n b = record { decoder = raw; last_value = lv; count = pos n; literal = b }

  -- Inside a run there is nothing to seek.
  pub seek_now :
      (fuel : ℕ) (raw : RawDecoder) (lv : Option T) (n : ℕ) (b : Bool)
      → 0 < fuel
      → seek r c fuel (within raw lv (suc n) b) ≡ some (ok (some (within raw lv (suc n) b)))
  unfolding seek
  seek_now zero raw lv n b h = absurd (omega arith)
  seek_now (suc fuel) raw lv n b h = rw (suc==zero n) refl

  pub try_next_found :
      (d d' : RleDecoder T)
      → seek r c (suc (length (buf d.decoder))) d ≡ some (ok (some d'))
      → try_next r c d ≡ some (take_value r c d' >>= λ q. ok (some q))
  unfolding try_next
  try_next_found d d' e = ap (outcome r c) e

  -- The turn that finds a run goes on inside it.
  pub seek_header :
      (fuel : ℕ) (raw raw' raw'' : RawDecoder) (z : ℤ) (lv lv' : Option T) (n : ℕ) (b b' : Bool)
      → Raw.done raw ≡ false
      → read r.signed raw ≡ ok (raw', z)
      → next_run r c (within raw lv 0 b) raw' z ≡ ok (within raw'' lv' (suc n) b')
      → 0 < fuel
      → seek r c (suc fuel) (within raw lv 0 b) ≡ some (ok (some (within raw'' lv' (suc n) b')))
  unfolding seek
  seek_header fuel raw raw' raw'' z lv lv' n b b' dn er en nz =
      let d = within raw lv 0 b in
      let turn : (read r.signed raw >>= λ q. next_run r c d q.0 q.1)
          ≡ ok (within raw'' lv' (suc n) b') =
        ap (λ t. t >>= λ q. next_run r c d q.0 q.1) er ∙ en in
      header_step (seek r c fuel) (Raw.done raw) (read r.signed raw >>= λ q. next_run r c d q.0 q.1)
        (some (ok none)) dn turn (seek_now fuel raw'' lv' n b' nz)

  pub try_next_header :
      {raw raw' : RawDecoder} (raw'' : RawDecoder) {z : ℤ} (lv lv' : Option T) (n : ℕ) (b b' : Bool)
      (bs : List ℕ)
      → IsAt raw bs
      → 0 < length bs
      → read r.signed raw ≡ ok (raw', z)
      → next_run r c (within raw lv 0 b) raw' z ≡ ok (within raw'' lv' (suc n) b')
      → try_next r c (within raw lv 0 b) ≡ try_next r c (within raw'' lv' (suc n) b')
  try_next_header {raw} {raw'} raw'' {z} lv lv' n b b' bs at nz er en =
      let found =
        seek_header (length (buf raw)) raw raw' raw'' z lv lv' n b b' (done-IsAt at nz) er en
          (omega (arith, ap length at.left, nz)) in
      try_next_found _ _ found
      ∙ sym (try_next_found _ _ (seek_now (suc (length (buf raw''))) raw'' lv' n b' (omega arith)))

  -- Values of a run, and of literals.
  pub try_next_plain :
      (raw : RawDecoder) (lv : Option T) (n : ℕ)
      → try_next r c (within raw lv (suc n) false) ≡ some (ok (some (within raw lv n false, lv)))
  unfolding take_value
  try_next_plain raw lv n =
      try_next_found _ _ (seek_now (suc (length (buf raw))) raw lv n false (omega arith))

  pub try_next_literal :
      (raw : RawDecoder) (lv : Option T) (n : ℕ) (v : T) (bs : List ℕ)
      → IsAt raw (c.encode v ++ bs)
      → c.IsEncodable v
      → try_next r c (within raw lv (suc n) true)
        ≡ some (ok (some (within (moved raw (length (c.encode v))) lv n true, some v)))
  unfolding take_value
  try_next_literal raw lv n v bs at hv =
      let e =
        read-IsAt c.decode (c.encode v) bs v at (c.decode-encode v bs hv) (c.encode_nonempty v) in
      try_next_found _ _ (seek_now (suc (length (buf raw))) raw lv n true (omega arith)) ∙ rw e refl

  pub try_next_end :
      (raw : RawDecoder) (lv : Option T) (b : Bool)
      → IsAt raw []
      → try_next r c (within raw lv 0 b) ≡ some (ok none)
  unfolding try_next seek
  try_next_end raw lv b at = rw (done_end at) refl

  -- The count of a run is read, and the loop goes on behind it.
  pub header_read :
      (raw : RawDecoder) (z : ℤ) (mid bs : List ℕ)
      → IsAt raw (encode_i64 z ++ mid ++ bs)
      → IsI64 z
      → (read r.signed raw ≡ ok (moved raw (length (encode_i64 z)), z))
        × IsAt (moved raw (length (encode_i64 z))) (mid ++ bs)
  header_read raw z mid bs at hz =
      let at' : IsAt raw (encode_i64 z ++ (mid ++ bs)) =
        subst (λ as_. IsAt raw as_) (append_assoc (encode_i64 z) mid bs) at in
      (
        read-IsAt r.signed (encode_i64 z) (mid ++ bs) z at' (signed-encode_i64 r z (mid ++ bs) hz)
            (encode_i64_nonempty z),
        moved-IsAt (encode_i64 z) (mid ++ bs) at',
      )

  pub header_length : (z : ℤ) (mid bs : List ℕ) → 0 < length (encode_i64 z ++ mid ++ bs)
  header_length z mid bs = omega (
    arith,
    encode_i64_nonempty z,
    length-append (encode_i64 z ++ mid) bs,
    length-append (encode_i64 z) mid,
  )

  pub next_run_value :
      (d : RleDecoder T) (raw raw' : RawDecoder) (n : ℕ) (v : T)
      → read c.decode raw ≡ ok (raw', v)
      → next_run r c d raw (pos (suc n)) ≡ ok (within raw' (some v) (suc n) false)
  unfolding next_run
  next_run_value d raw raw' n v e = rw e refl

  pub next_run_nulls :
      (d : RleDecoder T) (raw raw' : RawDecoder) (n : ℕ)
      → read r.unsigned raw ≡ ok (raw', n)
      → n < 2 ^ 63
      → next_run r c d raw (pos 0) ≡ ok (within raw' none n false)
  unfolding next_run
  next_run_nulls d raw raw' n e h =
      let small : as_i64 n ≡ pos n = ground arith in
      rw e (
        ap
          (λ (k : ℤ). ok (record { decoder = raw'; last_value = none; count = k; literal = false }))
          small)

  pub next_run_literals :
      (raw raw' : RawDecoder) (lv : Option T) (b : Bool) (n : ℕ)
      → suc n < 2 ^ 63
      → next_run r c (within raw lv 0 b) raw' (negsuc n) ≡ ok (within raw' lv (suc n) true)
  unfolding next_run
  next_run_literals raw raw' lv b n h =
      let small : neg_i64 (negsuc n) ≡ pos (suc n) = ground arith in
      ap (λ (k : ℤ). ok (record { decoder = raw'; last_value = lv; count = k; literal = true }))
        small
