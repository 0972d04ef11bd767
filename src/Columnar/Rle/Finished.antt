-- ===== src/Columnar/Rle/Finished.antt =====
-- columnar/encoding/rle.rs: what `finish` puts out, in each state of the encoder.
use automerge_r.Common.{
  ℕ, ◌^◌, ◌<◌, ◌≡◌, refl, sym, ap, ◌∙◌, Bool, true, false, List, [], ◌∷◌, ◌++◌, Option, none,
  length, length-append, replicate, if◌then◌else◌, arith, Bool-cases, inl, inr,
}
use automerge_r.Columnar.Raw.{Codec}
use automerge_r.Columnar.Rle.Encoder.{
  RleState, empty, initial_null_run, null_run, literal_run, lone_val, run, RleEncoder, with_state,
  finish_state, finish,
}
use automerge_r.Columnar.Rle.Format.{Runs, recast}
use automerge_r.Columnar.Rle.Flushed.{finish_state-Flushed}
use automerge_r.Columnar.Rle.Encoded.{Encoded}
use automerge_r.Columnar.Rle.Nulls.{all_null, all_null-run, all_null-literals, all_null-append_left}
use automerge_r.Columnar.Rle.Appended.{valued_pending}

-- The values of the output: none of a column of nulls.
abbrev pub kept_values : {T : Type 0} → List (Option T) → List (Option T)
kept_values vs = if all_null vs then [] else vs

module _ {E T : Type 0} (c : Codec E T) where
  pub record Output (out : List ℕ × ℕ) (vs : List (Option T)) : Type 0 where
    pub runs : Runs c out.0 (kept_values vs)
    pub counted : out.1 ≡ length out.0

  -- Nothing is flushed of a column of nulls.
  unflushed :
      {e : RleEncoder T} (vs : List (Option T)) (x : Encoded c e vs)
      → x.flushed ≡ []
      → all_null vs ≡ true
      → Output (e.buf, e.written) vs
  unflushed vs x nothing nn = record {
    runs = recast c refl (nothing ∙ ap (λ (b : Bool). if b then [] else vs) (sym nn)) x.runs;
    counted = x.counted;
  }

  nulls_output :
      (s : RleState T) (e : RleEncoder T) (vs : List (Option T))
      → Encoded c (with_state e s) vs
      → all_null vs ≡ true
      → Output
          (
            (finish_state c s (with_state e empty)).buf,
            (finish_state c s (with_state e empty)).written,
          )
          vs
  unfolding finish_state
  nulls_output empty e vs x nn = unflushed vs x x.live nn
  nulls_output (initial_null_run n) e vs x nn = unflushed vs x x.live.1 nn
  nulls_output (null_run n) e vs x nn =
      let v : all_null vs ≡ false =
        ap all_null x.whole ∙ all_null-append_left x.flushed (replicate n none) x.live.1 in
      absurd (cc (v, nn))
  nulls_output (lone_val v) e vs x nn = absurd (cc (valued_pending c x refl, nn))
  nulls_output (run v n) e vs x nn =
      absurd (cc (valued_pending c x (all_null-run n v x.live.0), nn))
  nulls_output (literal_run last ls) e vs x nn =
      let v = all_null-literals (ls ++ last ∷ []) (omega (arith, length-append ls (last ∷ []))) in
      absurd (cc (valued_pending c x v, nn))

  pub finish-Output :
      (e : RleEncoder T) (vs : List (Option T))
      → Encoded c e vs
      → length vs < 2 ^ 63
      → Output (finish c e) vs
  unfolding finish
  finish-Output e vs x h = elim (Bool-cases (all_null vs)) [
    | inl nn ↦ nulls_output e.state e vs x nn
    | inr nn ↦
        let f = finish_state-Flushed c e.state e vs x h nn in
        record {
          runs =
              recast c refl (sym x.whole ∙ ap (λ (b : Bool). if b then [] else vs) (sym nn)) f.out;
          counted = f.bytes;
        }
  ]
