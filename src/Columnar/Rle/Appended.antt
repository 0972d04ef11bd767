-- ===== src/Columnar/Rle/Appended.antt =====
-- columnar/encoding/rle.rs: appending a value or a null, in each state of the encoder.
use automerge_r.Common.{
  ℕ, ◌+◌, ◌^◌, ◌<◌, ◌≡◌, refl, sym, ap, ◌∙◌, false, List, [], ◌∷◌, ◌++◌, append_assoc, append-nil,
  Option, none, some, map, length, length-append, length-replicate, replicate, All, arith,
  All-append, Bool-cases, inl, inr,
}
use mathlib.Core.Path.{subst}
use automerge_r.Columnar.Raw.{Codec}
use automerge_r.Columnar.Rle.Encoder.{
  RleState, empty, initial_null_run, null_run, literal_run, lone_val, run, RleEncoder, with_state,
  flush_run, flush_null_run, flush_lit_run, finish_state, null_after, append_null, value_after,
  append_value, append, append_all, new,
}
use automerge_r.Columnar.Rle.Format.{of_nothing, recast}
use automerge_r.Columnar.Rle.Flushed.{finish_state-Flushed}
use automerge_r.Columnar.Rle.Encoded.{
  pending, Encoded, kept, restarted, nulls_flushed, flush_null_run_counted, pending_bound,
  literals_flushed, flush_lit_run_counted,
}
use automerge_r.Columnar.Rle.Nulls.{
  all_null, replicate-append, all_null-run, all_null-literals, all_null-append_right,
  map-some-append, length-map,
}

regroup :
    {A : Type 0} (us ms : List A) (a b : A)
    → (us ++ (ms ++ a ∷ [])) ++ b ∷ [] ≡ (us ++ ms) ++ a ∷ b ∷ []
regroup us ms a b =
    ap (λ ws. ws ++ b ∷ []) (sym (append_assoc us ms (a ∷ [])))
    ∙ append_assoc (us ++ ms) (a ∷ []) (b ∷ [])

module _ {E T : Type 0} (c : Codec E T) where
  pub valued_pending :
      {e : RleEncoder T} {vs : List (Option T)}
      → Encoded c e vs
      → all_null (pending e.state) ≡ false
      → all_null vs ≡ false
  valued_pending {e} x h = ap all_null x.whole ∙ all_null-append_right x.flushed (pending e.state) h

  -- A null behind values, which are flushed.
  nulls_begin :
      (s : RleState T) (e : RleEncoder T) (vs : List (Option T))
      → Encoded c (with_state e s) vs
      → length vs < 2 ^ 63
      → all_null (pending s) ≡ false
      → Encoded c
          (with_state (finish_state c s (with_state e empty)) (null_run 1))
          (vs ++ none ∷ [])
  nulls_begin s e vs x h v =
      let f = finish_state-Flushed c s e vs x h (valued_pending x v) in
      restarted c (finish_state c s (with_state e empty)) x (null_run 1) none f.out f.bytes refl
        (omega arith, f.valued)

  null_step :
      (s : RleState T) (e : RleEncoder T) (vs : List (Option T))
      → Encoded c (with_state e s) vs
      → length vs < 2 ^ 63
      → Encoded c (null_after c s (with_state e empty)) (vs ++ none ∷ [])
  unfolding null_after finish_state
  null_step empty e vs x h = kept c x (initial_null_run 1) none refl (omega arith, x.live)
  null_step (initial_null_run n) e vs x h =
      kept c x (initial_null_run (n + 1)) none (replicate-append n none) (omega arith, x.live.1)
  null_step (null_run n) e vs x h =
      kept c x (null_run (n + 1)) none (replicate-append n none) (omega arith, x.live.1)
  null_step (lone_val v) e vs x h = nulls_begin (lone_val v) e vs x h refl
  null_step (run v n) e vs x h = nulls_begin (run v n) e vs x h (all_null-run n v x.live.0)
  null_step (literal_run last ls) e vs x h =
      nulls_begin (literal_run last ls) e vs x h
        (all_null-literals (ls ++ last ∷ []) (omega (arith, length-append ls (last ∷ []))))

  -- A value behind nulls, which are flushed.
  after_nulls :
      (n : ℕ) (e : RleEncoder T) (vs : List (Option T)) (v : T) (s : RleState T)
      → (x : Encoded c (with_state e s) vs) → length vs < 2 ^ 63
      → 0 < n
      → pending s ≡ replicate n none
      → c.IsEncodable v
      → Encoded c
          (with_state (flush_null_run c (with_state e empty) n) (lone_val v))
          (vs ++ some v ∷ [])
  after_nulls n e vs v s x h nz es hv =
      let bound : n < 2 ^ 63 =
        omega (arith, pending_bound c x h, ap length es, length-replicate {A = Option T} n none) in
      let out = nulls_flushed c (with_state e empty) n x.flushed x.runs nz bound in
      restarted c (flush_null_run c (with_state e empty) n) x (lone_val v) (some v)
        (recast c refl (ap (λ us. x.flushed ++ us) (sym es)) out)
        (flush_null_run_counted c (with_state e empty) n x.counted) refl hv

  -- A second value like the last of some literals, which are flushed without it.
  run_begins :
      (last : T) (ls : List T) (e : RleEncoder T) (vs : List (Option T)) (v : T)
      → Encoded c (with_state e (literal_run last ls)) vs
      → length vs < 2 ^ 63
      → c.IsEncodable v
      → last ≡ v
      → Encoded c
          (with_state (flush_lit_run c (with_state e empty) ls) (run v 2))
          (vs ++ some v ∷ [])
  run_begins last ls e vs v x h hv same = record {
    flushed = x.flushed ++ map some ls;
    runs =
        literals_flushed c (with_state e empty) ls x.flushed x.runs x.live.0
          (omega (
            arith,
            pending_bound c x h,
            length-map (ls ++ last ∷ []),
            length-append ls (last ∷ []),
          ))
          x.live.1;
    whole =
        ap (λ us. us ++ some v ∷ [])
          (x.whole ∙ ap (λ us. x.flushed ++ us) (map-some-append ls (last ∷ [])))
        ∙ regroup x.flushed (map some ls) (some last) (some v)
        ∙ ap (λ (t : T). (x.flushed ++ map some ls) ++ some t ∷ some v ∷ []) same;
    live = (omega arith, hv);
    counted = flush_lit_run_counted c (with_state e empty) ls x.counted;
  }

  value_step :
      (s : RleState T) (e : RleEncoder T) (vs : List (Option T)) (v : T)
      → Encoded c (with_state e s) vs
      → length vs < 2 ^ 63
      → c.IsEncodable v
      → Encoded c (value_after c s v (with_state e empty)) (vs ++ some v ∷ [])
  unfolding value_after finish_state
  value_step empty e vs v x h hv = kept c x (lone_val v) (some v) refl hv
  value_step (initial_null_run n) e vs v x h hv =
      after_nulls n e vs v (initial_null_run n) x h x.live.0 refl hv
  value_step (null_run n) e vs v x h hv = after_nulls n e vs v (null_run n) x h x.live.0 refl hv
  value_step (lone_val other) e vs v x h hv = elim (Bool-cases (c.eq other v)) [
    | inl same ↦ rw same (
        kept c x (run v 2) (some v)
          (ap (λ (t : T). some t ∷ some v ∷ []) (sym (c.eq_sound other v same))) (omega arith, hv))
    | inr other_value ↦
        rw other_value
          (kept c x (literal_run v (other ∷ [])) (some v) refl (omega arith, (x.live, tt), hv))
  ]
  value_step (run other n) e vs v x h hv = elim (Bool-cases (c.eq other v)) [
    | inl same ↦ rw same (
        kept c x (run other (n + 1)) (some v)
          (replicate-append n (some other)
            ∙ ap (λ (t : T). replicate n (some other) ++ some t ∷ []) (c.eq_sound other v same))
          (omega arith, x.live.1))
    | inr other_value ↦
        let f =
          finish_state-Flushed c (run other n) e vs x h
            (valued_pending x (all_null-run n other x.live.0)) in
        rw other_value (
          restarted c (flush_run c (with_state e empty) other n) x (lone_val v) (some v) f.out
            f.bytes refl hv)
  ]
  value_step (literal_run last ls) e vs v x h hv = elim (Bool-cases (c.eq last v)) [
    | inl same ↦ rw same (run_begins last ls e vs v x h hv (c.eq_sound last v same))
    | inr other_value ↦ rw other_value (
        kept c x (literal_run v (ls ++ last ∷ [])) (some v)
          (map-some-append (ls ++ last ∷ []) (v ∷ []))
          (
            omega (arith, length-append ls (last ∷ [])),
            All-append c.IsEncodable ls (last ∷ []) x.live.1 (x.live.2, tt),
            hv,
          ))
  ]

  abbrev pub IsEntry : Option T → Type 0
  IsEntry none = Unit
  IsEntry (some v) = c.IsEncodable v

  pub append-Encoded :
      (e : RleEncoder T) (vs : List (Option T)) (v : Option T)
      → Encoded c e vs
      → length vs < 2 ^ 63
      → IsEntry v
      → Encoded c (append c e v) (vs ++ v ∷ [])
  unfolding append append_null append_value
  append-Encoded e vs none x h hv = null_step e.state e vs x h
  append-Encoded e vs (some v) x h hv = value_step e.state e vs v x h hv

  pub append_all-Encoded :
      (e : RleEncoder T) (vs us : List (Option T))
      → Encoded c e vs
      → length vs + length us < 2 ^ 63
      → All IsEntry us
      → Encoded c (append_all c e us) (vs ++ us)
  unfolding append_all
  append_all-Encoded e vs [] x h hv = subst (λ ws. Encoded c e ws) (sym (append-nil vs)) x
  append_all-Encoded e vs (u ∷ us) x h hv =
      let step = append-Encoded e vs u x (omega arith) hv.0 in
      subst (λ ws. Encoded c (append_all c (append c e u) us) ws) (append_assoc vs (u ∷ []) us)
        (append_all-Encoded (append c e u) (vs ++ u ∷ []) us step
          (omega (arith, length-append vs (u ∷ []))) hv.1)

  pub new-Encoded : Encoded c (new []) []
  unfolding new
  new-Encoded = record {
    flushed = [];
    runs = of_nothing;
    whole = refl;
    live = refl;
    counted = refl;
  }
