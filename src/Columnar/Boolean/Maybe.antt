-- ===== src/Columnar/Boolean/Maybe.antt =====
-- columnar/encoding/boolean.rs: `MaybeBooleanEncoder`, which writes nothing of a column of `false`.
use automerge_r.Common.{
  ℕ, ◌+◌, ◌≡◌, refl, ap, ◌∙◌, Bool, true, false, ◌&&◌, List, [], ◌∷◌, if◌then◌else◌,
}
use automerge_r.Columnar.Boolean.{
  BooleanEncoder, MaybeBooleanEncoder, from_sink, append, append_all, finish, maybe_from_sink,
  maybe_append, maybe_append_all, maybe_finish,
}

abbrev pub all_false : List Bool → Bool
all_false [] = true
all_false (true ∷ vs) = false
all_false (false ∷ vs) = all_false vs

and_true : (b : Bool) → b ≡ (b && true)
and_true true = refl
and_true false = refl

and_false : (b : Bool) → false ≡ (b && false)
and_false true = refl
and_false false = refl

-- The flag, and the encoder inside.
all_false-maybe_append_all :
    (e : MaybeBooleanEncoder) (vs : List Bool)
    → (maybe_append_all e vs).all_false ≡ (e.all_false && all_false vs)
unfolding maybe_append_all maybe_append
all_false-maybe_append_all e [] = and_true e.all_false
all_false-maybe_append_all e (true ∷ vs) =
    all_false-maybe_append_all (maybe_append e true) vs ∙ and_false e.all_false
all_false-maybe_append_all e (false ∷ vs) = all_false-maybe_append_all (maybe_append e false) vs

encoder-maybe_append_all :
    (e : MaybeBooleanEncoder) (vs : List Bool)
    → (maybe_append_all e vs).encoder ≡ append_all e.encoder vs
unfolding maybe_append_all append_all maybe_append
encoder-maybe_append_all e [] = refl
encoder-maybe_append_all e (v ∷ vs) = encoder-maybe_append_all (maybe_append e v) vs

-- Counting `false` writes nothing.
buf-append_all :
    (n w : ℕ) (vs : List Bool)
    → all_false vs ≡ true
    → (append_all (record { written = w; buf = []; last = false; count = n }) vs).buf ≡ []
unfolding append_all append
buf-append_all n w [] h = refl
buf-append_all n w (true ∷ vs) h = absurd (cc)
buf-append_all n w (false ∷ vs) h = buf-append_all (n + 1) w vs h

either_way :
    (b b' : Bool) (e : BooleanEncoder) (e' : BooleanEncoder)
    → b ≡ b'
    → e ≡ e'
    → (b' ≡ true → e'.buf ≡ [])
    → (if b then (e.buf, 0) else finish e) ≡ (if b' then ([], 0) else finish e')
either_way true true e e' eb ee h =
    ap (λ (t : BooleanEncoder). (t.buf, 0)) ee ∙ ap (λ bs. (bs, 0)) (h refl)
either_way true false e e' eb ee h = absurd (cc)
either_way false true e e' eb ee h = absurd (cc)
either_way false false e e' eb ee h = ap finish ee

-- A column with a `true` is written as `BooleanEncoder` writes it, and one without as no byte.
pub maybe_finish-maybe_append_all :
    (vs : List Bool)
    → maybe_finish (maybe_append_all (maybe_from_sink []) vs)
      ≡ (if all_false vs then ([], 0) else finish (append_all (from_sink []) vs))
unfolding maybe_finish maybe_from_sink from_sink
maybe_finish-maybe_append_all vs =
    let e = maybe_append_all (maybe_from_sink []) vs in
    either_way e.all_false (all_false vs) e.encoder (append_all (from_sink []) vs)
      (all_false-maybe_append_all (maybe_from_sink []) vs)
      (encoder-maybe_append_all (maybe_from_sink []) vs) (buf-append_all 0 0 vs)
