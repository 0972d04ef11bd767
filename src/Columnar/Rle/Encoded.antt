-- ===== src/Columnar/Rle/Encoded.antt =====
-- columnar/encoding/rle.rs: what the encoder has flushed and what its state still holds.
use automerge_r.Common.{
  ℕ, zero, suc, ◌^◌, ◌<◌, ◌≡◌, refl, sym, ap, ◌∙◌, false, List, [], ◌∷◌, ◌++◌, append_assoc,
  append-nil, Option, none, some, map, length, length-append, replicate, All, arith,
}
use automerge_r.Common.Int.{pos, negsuc}
use automerge_r.Columnar.Encodable.{encode_u64, encode_i64}
use automerge_r.Columnar.Raw.{Codec}
use automerge_r.Columnar.Rle.{as_i64, neg_i64}
use automerge_r.Columnar.Rle.Encoder.{
  RleState, empty, initial_null_run, null_run, literal_run, lone_val, run, RleEncoder, encode_all,
  put, with_state, flush_run, flush_null_run, flush_lit_run,
}
use automerge_r.Columnar.Rle.Format.{
  Runs, of_nothing, of_run, of_nulls, of_literals, Runs-append, recast,
}
use automerge_r.Columnar.Rle.Nulls.{all_null, length-map}

-- The values that are not in the buffer yet.
abbrev pub pending : {T : Type 0} → RleState T → List (Option T)
pending empty = []
pending (initial_null_run n) = replicate n none
pending (null_run n) = replicate n none
pending (literal_run last vs) = map some (vs ++ last ∷ [])
pending (lone_val v) = some v ∷ []
pending (run v n) = replicate n (some v)

module _ {E T : Type 0} (c : Codec E T) where
  -- What a state says of itself and of the values flushed before it.
  abbrev pub IsLive : RleState T → List (Option T) → Type 0
  IsLive empty flushed = flushed ≡ []
  IsLive (initial_null_run n) flushed = (0 < n) × (flushed ≡ [])
  IsLive (null_run n) flushed = (0 < n) × (all_null flushed ≡ false)
  IsLive (literal_run last vs) flushed = (0 < length vs) × All c.IsEncodable vs × c.IsEncodable last
  IsLive (lone_val v) flushed = c.IsEncodable v
  IsLive (run v n) flushed = (0 < n) × c.IsEncodable v

  pub record Encoded (e : RleEncoder T) (vs : List (Option T)) : Type 0 where
    pub flushed : List (Option T)
    pub runs : Runs c e.buf flushed
    pub whole : vs ≡ flushed ++ pending e.state
    pub live : IsLive e.state flushed
    pub counted : e.written ≡ length e.buf

  one_run :
      (n : ℕ) (v : T)
      → 0 < n
      → n < 2 ^ 63
      → c.IsEncodable v
      → Runs c (encode_i64 (as_i64 n) ++ c.encode v) (replicate n (some v))
  one_run zero v nz h hv = absurd (omega arith)
  one_run (suc n) v nz h hv =
      let e : as_i64 (suc n) ≡ pos (suc n) = ground arith in
      recast c (append-nil _ ∙ ap (λ z. encode_i64 z ++ c.encode v) (sym e)) (append-nil _)
        (of_run n v h hv of_nothing)

  one_null_run :
      (n : ℕ) → 0 < n → n < 2 ^ 63 → Runs c (encode_i64 (pos 0) ++ encode_u64 n) (replicate n none)
  one_null_run zero nz h = absurd (omega arith)
  one_null_run (suc n) nz h = recast c (append-nil _) (append-nil _) (of_nulls n h of_nothing)

  one_literal_run :
      (ls : List T)
      → 0 < length ls
      → length ls < 2 ^ 63
      → All c.IsEncodable ls
      → Runs c (encode_i64 (neg_i64 (as_i64 (length ls))) ++ encode_all c.encode ls) (map some ls)
  one_literal_run [] nz h hv = absurd (omega arith)
  one_literal_run (l ∷ ls) nz h hv =
      let e : neg_i64 (as_i64 (suc (length ls))) ≡ negsuc (length ls) = ground arith in
      recast c (append-nil _ ∙ ap (λ z. encode_i64 z ++ encode_all c.encode (l ∷ ls)) (sym e))
        (append-nil _) (of_literals l ls h hv of_nothing)

  -- Two writes extend the runs.
  put-Runs :
      (e : RleEncoder T) (as_ bs : List ℕ) (us vs : List (Option T))
      → Runs c e.buf us
      → Runs c (as_ ++ bs) vs
      → Runs c (put (put e as_) bs).buf (us ++ vs)
  unfolding put
  put-Runs e as_ bs us vs s t = recast c (sym (append_assoc e.buf as_ bs)) refl (Runs-append c s t)

  pub put_counted :
      (e : RleEncoder T) (bs : List ℕ)
      → e.written ≡ length e.buf
      → (put e bs).written ≡ length (put e bs).buf
  unfolding put
  put_counted e bs h = omega (arith, length-append e.buf bs)

  written_twice :
      (e : RleEncoder T) (as_ bs : List ℕ)
      → e.written ≡ length e.buf
      → (put (put e as_) bs).written ≡ length (put (put e as_) bs).buf
  written_twice e as_ bs h = put_counted (put e as_) bs (put_counted e as_ h)

  -- The flushes of a run, of nulls and of literals.
  pub run_flushed :
      (e : RleEncoder T) (v : T) (n : ℕ) (us : List (Option T))
      → Runs c e.buf us
      → 0 < n
      → n < 2 ^ 63
      → c.IsEncodable v
      → Runs c (flush_run c e v n).buf (us ++ replicate n (some v))
  unfolding flush_run
  run_flushed e v n us s nz h hv = put-Runs e _ _ us _ s (one_run n v nz h hv)

  pub nulls_flushed :
      (e : RleEncoder T) (n : ℕ) (us : List (Option T))
      → Runs c e.buf us
      → 0 < n
      → n < 2 ^ 63
      → Runs c (flush_null_run c e n).buf (us ++ replicate n none)
  unfolding flush_null_run
  nulls_flushed e n us s nz h = put-Runs e _ _ us _ s (one_null_run n nz h)

  pub literals_flushed :
      (e : RleEncoder T) (ls : List T) (us : List (Option T))
      → Runs c e.buf us
      → 0 < length ls
      → length ls < 2 ^ 63
      → All c.IsEncodable ls
      → Runs c (flush_lit_run c e ls).buf (us ++ map some ls)
  unfolding flush_lit_run
  literals_flushed e ls us s nz h hv = put-Runs e _ _ us _ s (one_literal_run ls nz h hv)

  pub flush_run_counted :
      (e : RleEncoder T) (v : T) (n : ℕ)
      → e.written ≡ length e.buf
      → (flush_run c e v n).written ≡ length (flush_run c e v n).buf
  unfolding flush_run
  flush_run_counted e v n h = written_twice e _ _ h

  pub flush_null_run_counted :
      (e : RleEncoder T) (n : ℕ)
      → e.written ≡ length e.buf
      → (flush_null_run c e n).written ≡ length (flush_null_run c e n).buf
  unfolding flush_null_run
  flush_null_run_counted e n h = written_twice e _ _ h

  pub flush_lit_run_counted :
      (e : RleEncoder T) (ls : List T)
      → e.written ≡ length e.buf
      → (flush_lit_run c e ls).written ≡ length (flush_lit_run c e ls).buf
  unfolding flush_lit_run
  flush_lit_run_counted e ls h = written_twice e _ _ h

  -- A longer state with nothing flushed.
  pub kept :
      {e : RleEncoder T} {vs : List (Option T)} (x : Encoded e vs) (s : RleState T) (v : Option T)
      → pending s ≡ pending e.state ++ v ∷ []
      → IsLive s x.flushed
      → Encoded (with_state e s) (vs ++ v ∷ [])
  kept x s v e live = record {
    flushed = x.flushed;
    runs = x.runs;
    whole =
        ap (λ us. us ++ v ∷ []) x.whole
        ∙ append_assoc x.flushed _ _
        ∙ ap (λ us. x.flushed ++ us) (sym e);
    live = live;
    counted = x.counted;
  }

  -- A state of one value after all the others were flushed.
  pub restarted :
      {e : RleEncoder T} {vs : List (Option T)} (e' : RleEncoder T) (x : Encoded e vs)
      (s : RleState T) (v : Option T)
      → Runs c e'.buf (x.flushed ++ pending e.state)
      → e'.written ≡ length e'.buf
      → pending s ≡ v ∷ []
      → IsLive s (x.flushed ++ pending e.state)
      → Encoded (with_state e' s) (vs ++ v ∷ [])
  restarted {e} e' x s v runs counted pend live = record {
    flushed = x.flushed ++ pending e.state;
    runs = runs;
    whole =
        ap (λ us. us ++ v ∷ []) x.whole
        ∙ ap (λ us. (x.flushed ++ pending e.state) ++ us) (sym pend);
    live = live;
    counted = counted;
  }

  pub pending_bound :
      {e : RleEncoder T} {vs : List (Option T)}
      → Encoded e vs
      → length vs < 2 ^ 63
      → length (pending e.state) < 2 ^ 63
  pending_bound {e} x h =
      omega (arith, ap length x.whole, length-append x.flushed (pending e.state))

  pub literals_bound :
      (last : T) (ls : List T)
      → length (map some (ls ++ last ∷ [])) < 2 ^ 63
      → (0 < length (ls ++ last ∷ [])) × (length (ls ++ last ∷ []) < 2 ^ 63)
  literals_bound last ls h =
      omega (arith, length-map (ls ++ last ∷ []), length-append ls (last ∷ []))
