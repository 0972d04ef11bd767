-- ===== src/Columnar/Boolean/RoundTrip.antt =====
-- columnar/encoding/boolean.rs: the decoders on what the encoders wrote.
use automerge_r.Common.{
  ℕ, zero, suc, ◌+◌, ◌-◌, ◌^◌, ◌<◌, ◌≤◌, ◌≡◌, refl, sym, ap, ◌∙◌, Bool, true, false, not, List, [],
  ◌++◌, length, length-append, length-replicate, replicate, arith, none, some, ok, suc==zero, ◌>>=◌,
}
use automerge_r.Columnar.Leb128.{Reader}
use automerge_r.Columnar.Encodable.{encode_u64}
use automerge_r.Columnar.Encodable.RoundTrip.{IsU64, unsigned-encode_u64, encode_u64_nonempty}
use automerge_r.Columnar.Raw.{Error, RawDecoder, buf, moved, read}
use automerge_r.Columnar.Raw
use automerge_r.Columnar.Raw.Position.{IsAt, new-IsAt, moved-IsAt, read-IsAt, done-IsAt, done_end}
use automerge_r.Columnar.Rle.Decoder.{gather, prepend}
use automerge_r.Columnar.Rle.Stepped.{header_step}
use automerge_r.Columnar.Boolean.{
  BooleanDecoder, from_sink, append_all, finish, from, seek, outcome, next, collect,
}
use automerge_r.Columnar.Boolean.Counted.{
  Counted, of_nothing, of_count, from_sink-Encoded, append_all-Encoded, finish-Output, Output,
}

not-not : (b : Bool) → not (not b) ≡ b
not-not true = refl
not-not false = refl

-- A first run of values `b`, and the counts behind it.
record FirstRun (raw : RawDecoder) (b : Bool) (n : ℕ) (vs : List Bool) (b' : Bool) : Type 0 where
  bytes : List ℕ
  values : List Bool
  at : IsAt raw bytes
  counts : Counted (not b) bytes values b'
  whole : vs ≡ replicate (suc n) b ++ values

module _ {E : Type 0} (r : Reader E) where
  abbrev within : RawDecoder → Bool → ℕ → BooleanDecoder
  within raw b n = record { decoder = raw; last_value = b; count = n }

  -- What the loop finds: the end, or a run.
  data Found (F : ℕ) (d : BooleanDecoder) (vs : List Bool) (b' : Bool) : Type 0 where
    ended : vs ≡ [] → seek r F d ≡ some (ok none) → Found F d vs b'
    found :
        (raw : RawDecoder) (b : Bool) (n : ℕ)
        → FirstRun raw b n vs b'
        → seek r F d ≡ some (ok (some (within raw b (suc n))))
        → Found F d vs b'

  seek_now :
      (F : ℕ) (raw : RawDecoder) (b : Bool) (n : ℕ)
      → 0 < F
      → seek r F (within raw b (suc n)) ≡ some (ok (some (within raw b (suc n))))
  unfolding seek
  seek_now zero raw b n h = absurd (omega arith)
  seek_now (suc F) raw b n h = rw (suc==zero n) refl

  seek_end :
      (F : ℕ) (raw : RawDecoder) (b : Bool)
      → IsAt raw []
      → seek r (suc F) (within raw b 0) ≡ some (ok none)
  unfolding seek
  seek_end F raw b at = rw (done_end at) refl

  -- A turn reads one count.
  seek_turn :
      (F n : ℕ) (raw : RawDecoder) (b : Bool) (bs : List ℕ)
      → IsAt raw (encode_u64 n ++ bs)
      → IsU64 n
      → seek r (suc F) (within raw (not b) 0)
        ≡ seek r F (within (moved raw (length (encode_u64 n))) (not (not b)) n)
  unfolding seek
  seek_turn F n raw b bs at h =
      let e =
        read-IsAt r.unsigned (encode_u64 n) bs n at (unsigned-encode_u64 r n bs h)
          (encode_u64_nonempty n) in
      let nz : 0 < length (encode_u64 n ++ bs) =
        omega (arith, encode_u64_nonempty n, length-append (encode_u64 n) bs) in
      header_step (seek r F) (Raw.done raw)
        (read r.unsigned raw >>= λ q.
          ok (record { decoder = q.0; last_value = not (not b); count = q.1 }))
        (some (ok none)) (done-IsAt at nz)
        (ap (λ t. t >>= λ q. ok (record { decoder = q.0; last_value = not (not b); count = q.1 }))
          e)
        refl

  next_found :
      (d d' : BooleanDecoder)
      → seek r (suc (length (buf d.decoder))) d ≡ some (ok (some d'))
      → next r d ≡ outcome r (some (ok (some d')))
  unfolding next
  next_found d d' e = ap (outcome r) e

  turned :
      {F F' : ℕ} {d d' : BooleanDecoder} {vs : List Bool} {b' : Bool}
      → seek r F' d' ≡ seek r F d
      → Found F d vs b'
      → Found F' d' vs b'
  turned e (ended ev es) = ended ev (e ∙ es)
  turned e (found raw b n run es) = found raw b n run (e ∙ es)

  find :
      (F : ℕ) {b b' : Bool} {bs : List ℕ} {vs : List Bool}
      → Counted b bs vs b'
      → (raw : RawDecoder) → IsAt raw bs
      → length bs < F
      → Found F (within raw (not b) 0) vs b'
  find zero s raw at h = absurd (omega arith)
  find (suc F) (of_nothing b) raw at h = ended refl (seek_end F raw (not b) at)
  find (suc F) (of_count zero b {bs = bs} {vs = vs} hn s) raw at h =
      turned (seek_turn F 0 raw b bs at hn) (
        find F s (moved raw (length (encode_u64 0))) (moved-IsAt (encode_u64 0) bs at)
          (omega (arith, length-append (encode_u64 0) bs, encode_u64_nonempty 0)))
  find (suc F) (of_count (suc n) b {bs = bs} {vs = vs} hn s) raw at h =
      let raw' = moved raw (length (encode_u64 (suc n))) in
      let some_fuel : 0 < F =
        omega (arith, length-append (encode_u64 (suc n)) bs, encode_u64_nonempty (suc n)) in
      found raw' b n
        (record {
          bytes = bs;
          values = vs;
          at = moved-IsAt (encode_u64 (suc n)) bs at;
          counts = s;
          whole = refl;
        })
        (seek_turn F (suc n) raw b bs at hn
          ∙ ap (λ (t : Bool). seek r F (within raw' t (suc n))) (not-not b)
          ∙ seek_now F raw' b n some_fuel)

  -- The rest of a run, and then what is behind it.
  collect_plain :
      (n j k : ℕ) (raw : RawDecoder) (b : Bool) (vs : List Bool)
      → j ≡ n + k
      → collect r k (within raw b 0) ≡ some (ok vs)
      → collect r j (within raw b n) ≡ some (ok (replicate n b ++ vs))
  unfolding collect
  collect_plain zero j k raw b vs ej h =
      let e : j ≡ k = omega arith in ap (λ (t : ℕ). collect r t (within raw b 0)) e ∙ h
  collect_plain (suc n) zero k raw b vs ej h = absurd (omega arith)
  collect_plain (suc n) (suc j) k raw b vs ej h =
      let pred : suc n - 1 ≡ n = omega arith in
      ap (gather (collect r j))
        (next_found _ _ (seek_now (suc (length (buf raw))) raw b n (omega arith)))
      ∙ ap (λ (t : ℕ). prepend b (collect r j (within raw b t))) pred
      ∙ ap (prepend b) (collect_plain n j k raw b vs (omega arith) h)

  collect-Found :
      (d : BooleanDecoder) (vs : List Bool) (b' : Bool)
      → Found (suc (length (buf d.decoder))) d vs b'
      → ((raw : RawDecoder) (b : Bool) (n : ℕ) (run : FirstRun raw b n vs b')
          → collect r (suc (length run.values)) (within raw b 0) ≡ some (ok run.values))
      → collect r (suc (length vs)) d ≡ some (ok vs)
  unfolding collect next
  collect-Found d vs b' (ended ev es) h =
      ap (λ o. gather (collect r (length vs)) (outcome r o)) es ∙ ap (λ us. some (ok us)) (sym ev)
  collect-Found d vs b' (found raw b n run es) h =
      let same =
        ap (λ o. gather (collect r (length vs)) (outcome r o))
          (es ∙ sym (seek_now (suc (length (buf raw))) raw b n (omega arith))) in
      let enough : suc (length vs) ≡ suc n + suc (length run.values) = omega (
        arith,
        ap length run.whole,
        length-append (replicate (suc n) b) run.values,
        length-replicate (suc n) b,
      ) in
      same
      ∙ collect_plain (suc n) (suc (length vs)) (suc (length run.values)) raw b run.values enough
          (h raw b n run)
      ∙ ap (λ us. some (ok us)) (sym run.whole)

  -- The decoder reads the values of a column in the format, and then ends.
  collect-Counted :
      (m : ℕ) {b b' : Bool} {bs : List ℕ} {vs : List Bool}
      → Counted b bs vs b'
      → length vs ≤ m
      → (raw : RawDecoder) → IsAt raw bs
      → collect r (suc (length vs)) (within raw (not b) 0) ≡ some (ok vs)
  collect-Counted zero {b} {b'} {vs = vs} s h raw at =
      collect-Found (within raw (not b) 0) vs b'
        (find (suc (length (buf raw))) s raw at (omega (arith, ap length at.left)))
        (λ raw' b1 n run. absurd (omega (arith, ap length run.whole, h)))
  collect-Counted (suc m) {b} {b'} {vs = vs} s h raw at =
      collect-Found (within raw (not b) 0) vs b'
        (find (suc (length (buf raw))) s raw at (omega (arith, ap length at.left)))
        (λ raw' b1 n run.
          ap (λ (t : Bool). collect r (suc (length run.values)) (within raw' t 0))
            (sym (not-not b1))
          ∙ collect-Counted m run.counts
              (omega (
                arith,
                h,
                ap length run.whole,
                length-append (replicate (suc n) b1) run.values,
                length-replicate (suc n) b1,
              ))
              raw' run.at)

  encoded :
      (vs : List Bool) → length vs < 2 ^ 64 → Output (finish (append_all (from_sink []) vs)) vs
  encoded vs h =
      finish-Output (append_all (from_sink []) vs) vs
        (append_all-Encoded (from_sink []) [] vs from_sink-Encoded (omega arith)) h

  -- A column of fewer than 2^64 booleans that is appended value by value and finished is decoded to
  -- the same values, behind which the decoder ends.
  pub collect_bool-finish :
      (vs : List Bool)
      → length vs < 2 ^ 64
      → collect r (suc (length vs)) (from (finish (append_all (from_sink []) vs)).0) ≡ some (ok vs)
  unfolding from
  collect_bool-finish vs h =
      collect-Counted (length vs) (encoded vs h).counts (omega arith)
        (Raw.new (finish (append_all (from_sink []) vs)).0) (new-IsAt _)

  -- `BooleanEncoder::finish` returns the number of the bytes that it wrote.
  pub finish_bool_counted :
      (vs : List Bool)
      → length vs < 2 ^ 64
      → (finish (append_all (from_sink []) vs)).1 ≡ length (finish (append_all (from_sink []) vs)).0
  finish_bool_counted vs h = (encoded vs h).counted
