-- ===== src/Columnar/Boolean/Counted.antt =====
-- columnar/encoding/boolean.rs: the format of a column of booleans, and what the encoder keeps of it.
use automerge_r.Common.{
  ℕ, ◌+◌, ◌^◌, ◌<◌, ◌≡◌, refl, sym, ap, ◌∙◌, Bool, true, false, not, List, [], ◌∷◌, ◌++◌,
  append_assoc, append-nil, length, length-append, length-replicate, replicate, arith, ltb,
  Bool-cases, inl, inr,
}
use mathlib.Core.Path.{subst}
use automerge_r.Columnar.Encodable.{encode_u64}
use automerge_r.Columnar.Encodable.RoundTrip.{IsU64}
use automerge_r.Columnar.Rle.Nulls.{replicate-append}
use automerge_r.Columnar.Boolean.{BooleanEncoder, from_sink, eq_bool, append, append_all, finish}

-- `Counted b bytes values b'`: counts of `b` and `not b` in turns, the next one of `b'`.
pub data Counted : Bool → List ℕ → List Bool → Bool → Type 0 where
  of_nothing : (b : Bool) → Counted b [] [] b
  of_count :
      (n : ℕ) (b : Bool) {b' : Bool} {bs : List ℕ} {vs : List Bool}
      → IsU64 n
      → Counted (not b) bs vs b'
      → Counted b (encode_u64 n ++ bs) (replicate n b ++ vs) b'

recast :
    {b b' : Bool} {bs cs : List ℕ} {us vs : List Bool}
    → bs ≡ cs
    → us ≡ vs
    → Counted b bs us b'
    → Counted b cs vs b'
recast {b} {b'} {cs = cs} {us = us} eb ev s =
    subst (λ ws. Counted b cs ws b') ev (subst (λ as_. Counted b as_ us b') eb s)

-- One more count at the end.
add_count :
    (n : ℕ) {b b' : Bool} {bs : List ℕ} {vs : List Bool}
    → IsU64 n
    → Counted b bs vs b'
    → Counted b (bs ++ encode_u64 n) (vs ++ replicate n b') (not b')
add_count n h (of_nothing b) =
    recast (append-nil _) (append-nil _) (of_count n b h (of_nothing (not b)))
add_count n h (of_count m b {bs = bs} {vs = vs} hm s) =
    recast (sym (append_assoc (encode_u64 m) bs _)) (sym (append_assoc (replicate m b) vs _))
      (of_count m b hm (add_count n h s))

pub record Encoded (e : BooleanEncoder) (vs : List Bool) : Type 0 where
  pub flushed : List Bool
  pub counts : Counted false e.buf flushed e.last
  pub whole : vs ≡ flushed ++ replicate e.count e.last
  pub counted : e.written ≡ length e.buf

pub from_sink-Encoded : Encoded (from_sink []) []
unfolding from_sink
from_sink-Encoded = record { flushed = []; counts = of_nothing false; whole = refl; counted = refl }

eq_bool-true : (a b : Bool) → eq_bool a b ≡ true → a ≡ b
eq_bool-true true true h = refl
eq_bool-true true false h = absurd (cc)
eq_bool-true false true h = absurd (cc)
eq_bool-true false false h = refl

eq_bool-false : (a b : Bool) → eq_bool a b ≡ false → a ≡ not b
eq_bool-false true true h = absurd (cc)
eq_bool-false true false h = refl
eq_bool-false false true h = refl
eq_bool-false false false h = absurd (cc)

count_bound :
    {e : BooleanEncoder} {vs : List Bool} → Encoded e vs → length vs < 2 ^ 64 → IsU64 e.count
count_bound {e} x h = omega (
  arith,
  ap length x.whole,
  length-append x.flushed (replicate e.count e.last),
  length-replicate e.count e.last,
)

append-Encoded :
    (e : BooleanEncoder) (vs : List Bool) (v : Bool)
    → Encoded e vs
    → length vs < 2 ^ 64
    → Encoded (append e v) (vs ++ v ∷ [])
unfolding append
append-Encoded e vs v x h = elim (Bool-cases (eq_bool v e.last)) [
  | inl same ↦ rw same (record {
    flushed = x.flushed;
    counts = x.counts;
    whole =
        ap (λ us. us ++ v ∷ []) x.whole
        ∙ append_assoc x.flushed (replicate e.count e.last) (v ∷ [])
        ∙ ap (λ (t : Bool). x.flushed ++ (replicate e.count e.last ++ t ∷ []))
            (eq_bool-true v e.last same)
        ∙ ap (λ us. x.flushed ++ us) (sym (replicate-append e.count e.last));
    counted = x.counted;
  })
  | inr differs ↦ rw differs (record {
    flushed = vs;
    counts =
        subst (λ b. Counted false (e.buf ++ encode_u64 e.count) vs b)
          (sym (eq_bool-false v e.last differs))
          (recast refl (sym x.whole) (add_count e.count (count_bound x h) x.counts));
    whole = refl;
    counted = omega (arith, x.counted, length-append e.buf (encode_u64 e.count));
  })
]

pub append_all-Encoded :
    (e : BooleanEncoder) (vs us : List Bool)
    → Encoded e vs
    → length vs + length us < 2 ^ 64
    → Encoded (append_all e us) (vs ++ us)
unfolding append_all
append_all-Encoded e vs [] x h = subst (λ ws. Encoded e ws) (sym (append-nil vs)) x
append_all-Encoded e vs (u ∷ us) x h =
    subst (λ ws. Encoded (append_all (append e u) us) ws) (append_assoc vs (u ∷ []) us)
      (append_all-Encoded (append e u) (vs ++ u ∷ []) us (append-Encoded e vs u x (omega arith))
        (omega (arith, length-append vs (u ∷ []))))

-- What `finish` puts out: the counts of all the values.
pub record Output (out : List ℕ × ℕ) (vs : List Bool) : Type 0 where
  pub next_value : Bool
  pub counts : Counted false out.0 vs next_value
  pub counted : out.1 ≡ length out.0

pub finish-Output :
    (e : BooleanEncoder) (vs : List Bool) → Encoded e vs → length vs < 2 ^ 64 → Output (finish e) vs
unfolding finish
finish-Output e vs x h = elim (Bool-cases (ltb 0 e.count)) [
  | inl some_left ↦ rw some_left (record {
    next_value = not e.last;
    counts = recast refl (sym x.whole) (add_count e.count (count_bound x h) x.counts);
    counted = omega (arith, x.counted, length-append e.buf (encode_u64 e.count));
  })
  | inr none_left ↦
      let z : e.count ≡ 0 = ground arith in
      rw none_left (record {
        next_value = e.last;
        counts =
            recast refl
              (sym (
                x.whole ∙ ap (λ (n : ℕ). x.flushed ++ replicate n e.last) z ∙ append-nil x.flushed))
              x.counts;
        counted = x.counted;
      })
]
