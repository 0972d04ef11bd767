-- ===== src/Columnar/Rle/Flushed.antt =====
-- columnar/encoding/rle.rs: what `finish` writes of the state that the encoder still holds.
use automerge_r.Common.{
  ◌^◌, ◌<◌, ◌≡◌, ap, ◌∙◌, true, false, List, [], ◌∷◌, ◌++◌, Option, none, some, map, length,
  length-replicate, replicate, All, arith, All-append,
}
use automerge_r.Columnar.Raw.{Codec}
use automerge_r.Columnar.Rle.Encoder.{
  RleState, empty, initial_null_run, null_run, literal_run, lone_val, run, RleEncoder, with_state,
  flush_lit_run, finish_state,
}
use automerge_r.Columnar.Rle.Format.{Runs}
use automerge_r.Columnar.Rle.Nulls.{
  all_null, all_null-append_left, all_null-append_right, all_null-literals, all_null-replicate,
  all_null-run,
}
use automerge_r.Columnar.Rle.Encoded.{
  pending, nulls_flushed, literals_flushed, run_flushed, flush_run_counted, flush_null_run_counted,
  flush_lit_run_counted, pending_bound, literals_bound, Encoded,
}

module _ {E T : Type 0} (c : Codec E T) where
  -- The flush of a state that holds values: the runs, the count of bytes, and a value among them.
  pub record Flushed (e : RleEncoder T) (vs : List (Option T)) : Type 0 where
    pub out : Runs c e.buf vs
    pub bytes : e.written ≡ length e.buf
    pub valued : all_null vs ≡ false

  literals_out :
      (e : RleEncoder T) (ls : List T) (us : List (Option T))
      → Runs c e.buf us
      → e.written ≡ length e.buf
      → 0 < length ls
      → length ls < 2 ^ 63
      → All c.IsEncodable ls
      → Flushed (flush_lit_run c e ls) (us ++ map some ls)
  literals_out e ls us s counted nz h hv = record {
    out = literals_flushed c e ls us s nz h hv;
    bytes = flush_lit_run_counted c e ls counted;
    valued = all_null-append_right us (map some ls) (all_null-literals ls nz);
  }

  pub finish_state-Flushed :
      (s : RleState T) (e : RleEncoder T) (vs : List (Option T)) (x : Encoded c (with_state e s) vs)
      → length vs < 2 ^ 63
      → all_null vs ≡ false
      → Flushed (finish_state c s (with_state e empty)) (x.flushed ++ pending s)
  unfolding finish_state
  finish_state-Flushed empty e vs x h nn = absurd (cc (x.live, x.whole, nn))
  finish_state-Flushed (initial_null_run n) e vs x h nn =
      let nulls : all_null vs ≡ true =
        ap all_null x.whole
        ∙ ap (λ us. all_null (us ++ replicate n none)) x.live.1
        ∙ all_null-replicate T n in
      absurd (cc (nulls, nn))
  finish_state-Flushed (null_run n) e vs x h nn = record {
    out =
        nulls_flushed c (with_state e empty) n x.flushed x.runs x.live.0
          (omega (arith, pending_bound c x h, length-replicate {A = Option T} n none));
    bytes = flush_null_run_counted c (with_state e empty) n x.counted;
    valued = all_null-append_left x.flushed (replicate n none) x.live.1;
  }
  finish_state-Flushed (lone_val v) e vs x h nn =
      literals_out (with_state e empty) (v ∷ []) x.flushed x.runs x.counted (omega arith)
        (omega arith) (x.live, tt)
  finish_state-Flushed (run v n) e vs x h nn = record {
    out =
        run_flushed c (with_state e empty) v n x.flushed x.runs x.live.0
          (omega (arith, pending_bound c x h, length-replicate {A = Option T} n (some v))) x.live.1;
    bytes = flush_run_counted c (with_state e empty) v n x.counted;
    valued = all_null-append_right x.flushed (replicate n (some v)) (all_null-run n v x.live.0);
  }
  finish_state-Flushed (literal_run last ls) e vs x h nn =
      let bound = literals_bound c last ls (pending_bound c x h) in
      literals_out (with_state e empty) (ls ++ last ∷ []) x.flushed x.runs x.counted bound.0 bound.1
        (All-append c.IsEncodable ls (last ∷ []) x.live.1 (x.live.2, tt))
