-- ===== src/Columnar/Rle/Terminates.antt =====
-- columnar/encoding/rle.rs: the loop of `try_next` ends on every input.
use automerge_r.Common.{
  ℕ, zero, suc, ◌+◌, ◌-◌, ◌<◌, ◌≤◌, ◌≡◌, refl, ap, ◌∙◌, List, Option, none, some, length,
  length-drop, ok, err, arith, Result, bind_ok, ◌>>=◌, if◌then◌else◌, ◌==◌, Bool, true, false,
}
use automerge_r.Common.Int.{ℤ, pos, negsuc}
use automerge_r.Columnar.Leb128.{Reader}
use automerge_r.Columnar.Raw.{Codec, Error, RawDecoder, buf, moved, after, read}
use automerge_r.Columnar.Raw
use automerge_r.Columnar.Rle.Decoder.{RleDecoder, is_zero, next_run, seek, again, try_next, outcome}

-- A read that succeeds leaves fewer bytes.
moved_shorter :
    (d : RawDecoder) (k n : ℕ)
    → k ≡ length (buf d) - n
    → (k == 0) ≡ false
    → length (buf (moved d k)) < length (buf d)
moved_shorter d k n e nz =
    ground (arith, length-drop d.offset d.data_bytes, length-drop (d.offset + k) d.data_bytes)

picked :
    {X A : Type 0} (b : Bool) (x : X) {a a' : A}
    → (if b then err x else ok a) ≡ ok a'
    → (b ≡ false) × (a ≡ a')
picked true x h = absurd (cc)
picked false x h = (refl, cc)

after_shorter :
    {E T : Type 0} (d d' : RawDecoder) (res : Result E (T × List ℕ)) (v : T)
    → after d res ≡ ok (d', v)
    → length (buf d') < length (buf d)
after_shorter d d' (err e) v h = absurd (cc)
after_shorter d d' (ok (t, rest)) v h =
    let k = length (buf d) - length rest in
    let p = picked (k == 0) _ h in
    omega (
      arith,
      moved_shorter d k (length rest) refl p.0,
      ap (λ (q : RawDecoder × _). length (buf q.0)) p.1,
    )

read_shorter :
    {E T : Type 0} (decode : List ℕ → Result E (T × List ℕ)) (d d' : RawDecoder) (v : T)
    → read decode d ≡ ok (d', v)
    → length (buf d') < length (buf d)
unfolding read
read_shorter decode d d' v h = after_shorter d d' (decode (buf d)) v h

-- The loop goes on with a decoder for which it ends.
seek_ends :
    {E T R : Type 0} (zero_count at_end : Bool) (turn : Result (Error E) (RleDecoder T))
    (f : RleDecoder T → Option (Result (Error E) R)) (ended found : R)
    → ((d : RleDecoder T) → turn ≡ ok d → (out : Result (Error E) R) × (f d ≡ some out))
    → (out : Result (Error E) R) × ((if zero_count
          then (if at_end then some (ok ended) else again f turn)
          else some (ok found))
        ≡ some out)
seek_ends false at_end turn f ended found h = (ok found, refl)
seek_ends true true turn f ended found h = (ok ended, refl)
seek_ends true false (err x) f ended found h = (err x, refl)
seek_ends true false (ok d) f ended found h = h d refl

abbrev left_of : {E T : Type 0} → RawDecoder → Result (Error E) (RleDecoder T) → ℕ
left_of raw (ok d) = length (buf d.decoder)
left_of raw (err x) = length (buf raw)

module _ {E T : Type 0} (r : Reader E) (c : Codec E T) where
  next_run_shorter :
      (d d' : RleDecoder T) (raw : RawDecoder) (z : ℤ)
      → next_run r c d raw z ≡ ok d'
      → length (buf d'.decoder) ≤ length (buf raw)
  unfolding next_run
  next_run_shorter d d' raw (negsuc n) h =
      omega (arith, ap (λ (t : Result (Error E) (RleDecoder T)). left_of raw t) h)
  next_run_shorter d d' raw (pos zero) h =
      let (q, er, eq) = bind_ok (read r.unsigned raw) _ d' h in
      omega (
        arith,
        read_shorter r.unsigned raw q.0 q.1 er,
        ap (λ (t : Result (Error E) (RleDecoder T)). left_of raw t) eq,
      )
  next_run_shorter d d' raw (pos (suc n)) h =
      let (q, er, eq) = bind_ok (read c.decode raw) _ d' h in
      omega (
        arith,
        read_shorter c.decode raw q.0 q.1 er,
        ap (λ (t : Result (Error E) (RleDecoder T)). left_of raw t) eq,
      )

  seek_terminates :
      (fuel : ℕ) (d : RleDecoder T)
      → length (buf d.decoder) < fuel
      → (out : Result (Error E) (Option (RleDecoder T))) × (seek r c fuel d ≡ some out)
  unfolding seek
  seek_terminates zero d h = absurd (omega arith)
  seek_terminates (suc fuel) d h =
      seek_ends (is_zero d.count) (Raw.done d.decoder)
        (read r.signed d.decoder >>= λ q. next_run r c d q.0 q.1) (seek r c fuel) none (some d)
        (λ d' e.
          let (q, er, en) = bind_ok (read r.signed d.decoder) (λ q. next_run r c d q.0 q.1) d' e in
          seek_terminates fuel d' (
            omega (
              arith,
              read_shorter r.signed d.decoder q.0 q.1 er,
              next_run_shorter d d' q.0 q.1 en,
            )))

  outcome-some :
      (out : Result (Error E) (Option (RleDecoder T)))
      → (res : Result (Error E) (Option (RleDecoder T × Option T))) × (outcome r c (some out)
          ≡ some res)
  outcome-some out = (_, refl)

  -- Every call of the iterator returns, whatever the bytes and the readers of its values are: the
  -- fuel of the loop is enough.
  pub try_next_terminates :
      (d : RleDecoder T)
      → (res : Result (Error E) (Option (RleDecoder T × Option T))) × (try_next r c d ≡ some res)
  unfolding try_next
  try_next_terminates d =
      let (out, e) = seek_terminates (suc (length (buf d.decoder))) d (omega arith) in
      let (res, e') = outcome-some out in (res, ap (outcome r c) e ∙ e')
