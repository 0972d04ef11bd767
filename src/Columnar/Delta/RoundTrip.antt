-- ===== src/Columnar/Delta/RoundTrip.antt =====
-- columnar/encoding/delta.rs: the decoder on what the encoder wrote.
use automerge_r.Common.{
  ℕ, zero, suc, ◌^◌, ◌<◌, ◌≡◌, refl, sym, ap, ◌∙◌, Bool, true, false, List, [], ◌∷◌, Option, none,
  some, length, All, ok, err, arith, Result, if◌then◌else◌,
}
use mathlib.Core.Path.{subst}
use automerge_r.Common.Int.{ℤ, pos, negsuc, ◌+ℤ◌, ◌-ℤ◌}
use automerge_r.Columnar.Leb128.{Reader, IsI64}
use automerge_r.Columnar.Raw.{Error}
use automerge_r.Columnar.Codecs.{i64_codec}
use automerge_r.Columnar.Rle.Encoder.{RleEncoder}
use automerge_r.Columnar.Rle.Encoder
use automerge_r.Columnar.Rle.Decoder.{RleDecoder, gather, prepend}
use automerge_r.Columnar.Rle.Decoder
use automerge_r.Columnar.Rle.Nulls.{all_null}
use automerge_r.Columnar.Rle.Appended.{IsEntry}
use automerge_r.Columnar.Rle.Finished.{kept_values}
use automerge_r.Columnar.Rle.RoundTrip.{collect-finish}
use automerge_r.Columnar.Delta.{
  DeltaEncoder, DeltaDecoder, clamp, saturating_add, saturating_sub, new, from, append_value,
  append_null, append, append_all, finish, add_delta, next, collect,
}

-- The differences that the encoder passes on, and the sums that the decoder makes.
abbrev deltas : ℤ → List (Option ℤ) → List (Option ℤ)
deltas a [] = []
deltas a (none ∷ vs) = none ∷ deltas a vs
deltas a (some v ∷ vs) = some (saturating_sub v a) ∷ deltas v vs

abbrev sums : ℤ → List (Option ℤ) → List (Option ℤ)
sums a [] = []
sums a (none ∷ ds) = none ∷ sums a ds
sums a (some d ∷ ds) = some (saturating_add a d) ∷ sums (saturating_add a d) ds

-- The values and the steps between them are in the range of an `i64`.
abbrev pub InRange : ℤ → List (Option ℤ) → Type 0
InRange a [] = Unit
InRange a (none ∷ vs) = InRange a vs
InRange a (some v ∷ vs) = IsI64 v × IsI64 (v -ℤ a) × InRange v vs

clamp_lem : (z : ℤ) → IsI64 z → clamp z ≡ z
clamp_lem (pos n) h = ground arith
clamp_lem (negsuc n) h = ground arith

add_sub : (a v : ℤ) → a +ℤ (v -ℤ a) ≡ v
unfolding ◌+ℤ◌ ◌-ℤ◌
add_sub (pos m) (pos n) = ground arith
add_sub (pos m) (negsuc n) = ground arith
add_sub (negsuc m) (pos n) = ground arith
add_sub (negsuc m) (negsuc n) = ground arith

saturating_add-saturating_sub :
    (a v : ℤ) → IsI64 v → IsI64 (v -ℤ a) → saturating_add a (saturating_sub v a) ≡ v
saturating_add-saturating_sub a v hv hd =
    ap (λ (d : ℤ). clamp (a +ℤ d)) (clamp_lem (v -ℤ a) hd) ∙ ap clamp (add_sub a v) ∙ clamp_lem v hv

sums-deltas : (a : ℤ) (vs : List (Option ℤ)) → InRange a vs → sums a (deltas a vs) ≡ vs
sums-deltas a [] h = refl
sums-deltas a (none ∷ vs) h = ap (◌∷◌ none) (sums-deltas a vs h)
sums-deltas a (some v ∷ vs) h =
    let e = saturating_add-saturating_sub a v h.0 h.1 in
    ap (λ (t : ℤ). some t ∷ sums t (deltas v vs)) e ∙ ap (◌∷◌ (some v)) (sums-deltas v vs h.2)

length-deltas : (a : ℤ) (vs : List (Option ℤ)) → length (deltas a vs) ≡ length vs
length-deltas a [] = refl
length-deltas a (none ∷ vs) = ap suc (length-deltas a vs)
length-deltas a (some v ∷ vs) = ap suc (length-deltas v vs)

all_null-deltas : (a : ℤ) (vs : List (Option ℤ)) → all_null (deltas a vs) ≡ all_null vs
all_null-deltas a [] = refl
all_null-deltas a (none ∷ vs) = all_null-deltas a vs
all_null-deltas a (some v ∷ vs) = refl

if_sums :
    (b b' : Bool) (a : ℤ) (ds vs : List (Option ℤ))
    → b ≡ b'
    → sums a ds ≡ vs
    → sums a (if b then [] else ds) ≡ (if b' then [] else vs)
if_sums true true a ds vs eb e = refl
if_sums true false a ds vs eb e = absurd (cc)
if_sums false true a ds vs eb e = absurd (cc)
if_sums false false a ds vs eb e = e

length_kept :
    (b b' : Bool) (ds vs : List (Option ℤ))
    → b ≡ b'
    → length ds ≡ length vs
    → length (if b then [] else ds) ≡ length (if b' then [] else vs)
length_kept true true ds vs eb e = refl
length_kept true false ds vs eb e = absurd (cc)
length_kept false true ds vs eb e = absurd (cc)
length_kept false false ds vs eb e = e

module _ {E : Type 0} (r : Reader E) where
  abbrev sum_column :
      ℤ → Option (Result (Error E) (List (Option ℤ))) → Option (Result (Error E) (List (Option ℤ)))
  sum_column a none = none
  sum_column a (some (err e)) = some (err e)
  sum_column a (some (ok ds)) = some (ok (sums a ds))

  prepend_null :
      (a : ℤ) (o : Option (Result (Error E) (List (Option ℤ))))
      → prepend none (sum_column a o) ≡ sum_column a (prepend none o)
  prepend_null a none = refl
  prepend_null a (some (err e)) = refl
  prepend_null a (some (ok ds)) = refl

  prepend_sum :
      (a d : ℤ) (o : Option (Result (Error E) (List (Option ℤ))))
      → prepend (some (saturating_add a d)) (sum_column (saturating_add a d) o)
        ≡ sum_column a (prepend (some d) o)
  prepend_sum a d none = refl
  prepend_sum a d (some (err e)) = refl
  prepend_sum a d (some (ok ds)) = refl

  gather_sums :
      (f : DeltaDecoder → Option (Result (Error E) (List (Option ℤ))))
      (g : RleDecoder ℤ → Option (Result (Error E) (List (Option ℤ)))) (a : ℤ)
      (res : Option (Result (Error E) (Option (RleDecoder ℤ × Option ℤ))))
      → ((d : RleDecoder ℤ) (b : ℤ) → f (record { rle = d; absolute_val = b }) ≡ sum_column b (g d))
      → gather f (add_delta r a res) ≡ sum_column a (gather g res)
  gather_sums f g a none h = refl
  gather_sums f g a (some (err e)) h = refl
  gather_sums f g a (some (ok none)) h = refl
  gather_sums f g a (some (ok (some (d, none)))) h =
      ap (prepend none) (h d a) ∙ prepend_null a (g d)
  gather_sums f g a (some (ok (some (d, some delta)))) h =
      ap (prepend (some (saturating_add a delta))) (h d (saturating_add a delta))
      ∙ prepend_sum a delta (g d)

  -- The decoder sums up what the run length decoder gives.
  collect_sums :
      (fuel : ℕ) (d : RleDecoder ℤ) (a : ℤ)
      → collect r fuel (record { rle = d; absolute_val = a })
        ≡ sum_column a (Decoder.collect r (i64_codec r) fuel d)
  unfolding collect next Decoder.collect
  collect_sums zero d a = refl
  collect_sums (suc fuel) d a =
      gather_sums (collect r fuel) (Decoder.collect r (i64_codec r) fuel) a
        (Decoder.try_next r (i64_codec r) d) (collect_sums fuel)

  -- The encoder passes the differences on.
  append_all-deltas :
      (e : DeltaEncoder) (vs : List (Option ℤ))
      → (append_all r e vs).rle
        ≡ Encoder.append_all (i64_codec r) e.rle (deltas e.absolute_value vs)
  unfolding append_all append append_null append_value Encoder.append_all Encoder.append
  append_all-deltas e [] = refl
  append_all-deltas e (none ∷ vs) = append_all-deltas (append_null r e) vs
  append_all-deltas e (some v ∷ vs) = append_all-deltas (append_value r e v) vs

  deltas-IsEntry :
      (a : ℤ) (vs : List (Option ℤ)) → InRange a vs → All (IsEntry (i64_codec r)) (deltas a vs)
  unfolding i64_codec
  deltas-IsEntry a [] h = tt
  deltas-IsEntry a (none ∷ vs) h = (tt, deltas-IsEntry a vs h)
  deltas-IsEntry a (some v ∷ vs) h =
      (subst IsI64 (sym (clamp_lem (v -ℤ a) h.1)) h.1, deltas-IsEntry v vs h.2)

  -- A column of integers that is appended value by value and finished is decoded to the same
  -- values, and to no value at all if it has only nulls; the values and the steps between them
  -- are in the range of an `i64`, the first step being from 0, and there are fewer than 2^63.
  pub collect_delta-finish :
      (vs : List (Option ℤ))
      → length vs < 2 ^ 63
      → InRange (pos 0) vs
      → collect r (suc (length (kept_values vs))) (from (finish r (append_all r (new []) vs)).0)
        ≡ some (ok (kept_values vs))
  unfolding from new finish
  collect_delta-finish vs h hv =
      let ds : List (Option ℤ) = deltas (pos 0) vs in
      let c = i64_codec r in
      let back =
        collect-finish r c ds (omega (arith, length-deltas (pos 0) vs))
          (deltas-IsEntry (pos 0) vs hv) in
      let n =
        length_kept (all_null ds) (all_null vs) ds vs (all_null-deltas (pos 0) vs)
          (length-deltas (pos 0) vs) in
      let e = append_all-deltas (new []) vs in
      let k = suc (length (kept_values vs)) in
      let d = Decoder.from (Encoder.finish c (Encoder.append_all c (Encoder.new []) ds)).0 in
      let kept =
        if_sums (all_null ds) (all_null vs) (pos 0) ds vs (all_null-deltas (pos 0) vs)
          (sums-deltas (pos 0) vs hv) in
      ap
        (λ (t : RleEncoder ℤ).
          collect r k (record { rle = Decoder.from (Encoder.finish c t).0; absolute_val = pos 0 }))
        e
      ∙ collect_sums k d (pos 0)
      ∙ ap (sum_column (pos 0)) (ap (λ (t : ℕ). Decoder.collect r c (suc t) d) (sym n) ∙ back)
      ∙ ap (λ us. some (ok us)) kept
