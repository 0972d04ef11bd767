-- ===== src/Columnar/Boolean/MaybeRoundTrip.antt =====
-- columnar/encoding/boolean.rs: `MaybeBooleanDecoder` on what `MaybeBooleanEncoder` wrote.
use automerge_r.Common.{
  ℕ, zero, suc, ◌-◌, ◌^◌, ◌<◌, ◌≡◌, refl, ap, ◌∙◌, Bool, true, false, not, List, [], ◌∷◌, Option,
  none, some, map, length, suc==zero, ◌==◌, if◌then◌else◌, Result, ok, err, ◌>>=◌,
}
use mathlib.Core.Path.{subst}
use automerge_r.Columnar.Leb128.{Reader}
use automerge_r.Columnar.Raw.{Error, RawDecoder, buf, moved, after, read}
use automerge_r.Columnar.Raw
use automerge_r.Columnar.Rle.Decoder.{again, gather, prepend}
use automerge_r.Columnar.Boolean.{
  BooleanDecoder, from_sink, append_all, finish, from, seek, outcome, next, collect, valued,
  maybe_next, maybe_collect, maybe_from_sink, maybe_append_all, maybe_finish,
}
use automerge_r.Columnar.Boolean.Maybe.{all_false, maybe_finish-maybe_append_all}
use automerge_r.Columnar.Boolean.RoundTrip.{collect_bool-finish}

-- A result's decoder, if there is one, reads the bytes `bs`.
abbrev IsRawOf : {E T : Type 0} → List ℕ → Result (Error E) (RawDecoder × T) → Type 0
IsRawOf bs (err x) = Unit
IsRawOf bs (ok q) = q.0.data_bytes ≡ bs

abbrev IsSoughtOf :
    {E : Type 0} → List ℕ → Option (Result (Error E) (Option BooleanDecoder)) → Type 0
IsSoughtOf bs none = Unit
IsSoughtOf bs (some (err x)) = Unit
IsSoughtOf bs (some (ok none)) = Unit
IsSoughtOf bs (some (ok (some d))) = d.decoder.data_bytes ≡ bs

unless_unmoved :
    {E T : Type 0} (bs : List ℕ) (b : Bool) (x : Error E) (q : RawDecoder × T)
    → q.0.data_bytes ≡ bs
    → IsRawOf bs (if b then err x else ok q)
unless_unmoved bs true x q h = tt
unless_unmoved bs false x q h = h

after-IsRawOf :
    {E T : Type 0} (d : RawDecoder) (res : Result E (T × List ℕ))
    → IsRawOf d.data_bytes (after d res)
after-IsRawOf d (err e) = tt
after-IsRawOf d (ok (v, rest)) =
    unless_unmoved d.data_bytes (length (buf d) - length rest == 0) _ _ refl

read-IsRawOf :
    {E T : Type 0} (decode : List ℕ → Result E (T × List ℕ)) (d : RawDecoder)
    → IsRawOf d.data_bytes (read decode d)
unfolding read
read-IsRawOf decode d = after-IsRawOf d (decode (buf d))

turn-IsSoughtOf :
    {E : Type 0} (b at_end : Bool) (d : BooleanDecoder) (turn : Result (Error E) (RawDecoder × ℕ))
    (f : BooleanDecoder → Option (Result (Error E) (Option BooleanDecoder)))
    → ((d' : BooleanDecoder) → IsSoughtOf d'.decoder.data_bytes (f d'))
    → IsRawOf d.decoder.data_bytes turn
    → IsSoughtOf d.decoder.data_bytes (
        if b
        then (if at_end
            then some (ok none)
            else again f (
                turn >>= λ q.
                ok (record { decoder = q.0; last_value = not d.last_value; count = q.1 })))
        else some (ok (some d)))
turn-IsSoughtOf false at_end d turn f h e = refl
turn-IsSoughtOf true true d turn f h e = tt
turn-IsSoughtOf true false d (err x) f h e = tt
turn-IsSoughtOf true false d (ok (raw, n)) f h e =
    let d' : BooleanDecoder = record { decoder = raw; last_value = not d.last_value; count = n } in
    subst (λ bs. IsSoughtOf bs (f d')) e (h d')

module _ {E : Type 0} (r : Reader E) where
  seek-IsSoughtOf :
      (fuel : ℕ) (d : BooleanDecoder) → IsSoughtOf d.decoder.data_bytes (seek r fuel d)
  unfolding seek
  seek-IsSoughtOf zero d = tt
  seek-IsSoughtOf (suc fuel) d =
      turn-IsSoughtOf (d.count == 0) (Raw.done d.decoder) d (read r.unsigned d.decoder)
        (seek r fuel) (seek-IsSoughtOf fuel) (read-IsRawOf r.unsigned d.decoder)

  -- The values of a column that has no nulls.
  abbrev pub all_some :
      Option (Result (Error E) (List Bool)) → Option (Result (Error E) (List (Option Bool)))
  all_some none = none
  all_some (some (err x)) = some (err x)
  all_some (some (ok vs)) = some (ok (map some vs))

  prepend-all_some :
      (v : Bool) (o : Option (Result (Error E) (List Bool)))
      → prepend (some v) (all_some o) ≡ all_some (prepend v o)
  prepend-all_some v none = refl
  prepend-all_some v (some (err x)) = refl
  prepend-all_some v (some (ok vs)) = refl

  gather-valued :
      (k : ℕ) (bs : List ℕ) (o : Option (Result (Error E) (Option BooleanDecoder)))
      → IsSoughtOf bs o
      → ((d : BooleanDecoder)
          → d.decoder.data_bytes ≡ bs
          → maybe_collect r k d ≡ all_some (collect r k d))
      → gather (maybe_collect r k) (valued r (outcome r o))
        ≡ all_some (gather (collect r k) (outcome r o))
  gather-valued k bs none e h = refl
  gather-valued k bs (some (err x)) e h = refl
  gather-valued k bs (some (ok none)) e h = refl
  gather-valued k bs (some (ok (some d))) e h =
      let d' : BooleanDecoder = record {
        decoder = d.decoder;
        last_value = d.last_value;
        count = d.count - 1;
      } in
      ap (prepend (some d.last_value)) (h d' e) ∙ prepend-all_some d.last_value (collect r k d')

  collect_nonempty :
      (k b : ℕ) (bs : List ℕ) (d : BooleanDecoder)
      → d.decoder.data_bytes ≡ b ∷ bs
      → maybe_collect r k d ≡ all_some (collect r k d)
  unfolding maybe_collect collect maybe_next next Raw.is_empty
  collect_nonempty zero b bs d e = refl
  collect_nonempty (suc k) b bs d e =
      let full : (length d.decoder.data_bytes == 0) ≡ false =
        ap (λ xs. length xs == 0) e ∙ suc==zero (length bs) in
      rw full (
        gather-valued k d.decoder.data_bytes (seek r (suc (length (buf d.decoder))) d)
          (seek-IsSoughtOf (suc (length (buf d.decoder))) d)
          (λ d' e'. collect_nonempty k b bs d' (e' ∙ e)))

  -- On every input the decoder returns what `BooleanDecoder` returns, with each value inside `Some`.
  maybe_collect-from :
      (k : ℕ) (bs : List ℕ)
      → maybe_collect r (suc k) (from bs) ≡ all_some (collect r (suc k) (from bs))
  unfolding maybe_collect collect maybe_next next Raw.is_empty from seek Raw.done
  maybe_collect-from k [] = refl
  maybe_collect-from k (b ∷ bs) = collect_nonempty (suc k) b bs (from (b ∷ bs)) refl

  column_read :
      (b : Bool) (vs : List Bool)
      → length vs < 2 ^ 64
      → maybe_collect r
          (suc (length vs))
          (from (if b then ([], 0) else finish (append_all (from_sink []) vs)).0)
        ≡ some (ok (map some (if b then [] else vs)))
  unfolding collect next seek from Raw.done
  column_read true vs h = maybe_collect-from (length vs) []
  column_read false vs h =
      maybe_collect-from (length vs) (finish (append_all (from_sink []) vs)).0
      ∙ ap all_some (collect_bool-finish r vs h)

  -- A column of fewer than 2^64 booleans that `MaybeBooleanEncoder` wrote is decoded to its values,
  -- each inside `Some`, and to no value if all of them are `false`; then the decoder ends.
  pub maybe_collect-maybe_finish :
      (vs : List Bool)
      → length vs < 2 ^ 64
      → maybe_collect r
          (suc (length vs))
          (from (maybe_finish (maybe_append_all (maybe_from_sink []) vs)).0)
        ≡ some (ok (map some (if all_false vs then [] else vs)))
  maybe_collect-maybe_finish vs h =
      ap (λ (o : List ℕ × ℕ). maybe_collect r (suc (length vs)) (from o.0))
        (maybe_finish-maybe_append_all vs)
      ∙ column_read (all_false vs) vs h
