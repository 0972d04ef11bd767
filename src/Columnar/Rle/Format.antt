-- ===== src/Columnar/Rle/Format.antt =====
-- columnar/encoding/rle.rs: the format of a run length encoded column, apart from its encoder
-- and its decoder.
use automerge_r.Common.{
  ℕ, suc, ◌^◌, ◌<◌, ◌≡◌, sym, List, [], ◌∷◌, ◌++◌, append_assoc, Option, none, some, map, length,
  replicate, All,
}
use automerge_r.Common.Int.{pos, negsuc}
use automerge_r.Columnar.Encodable.{encode_u64, encode_i64}
use automerge_r.Columnar.Raw.{Codec}
use automerge_r.Columnar.Rle.Encoder.{encode_all}
use mathlib.Core.Path.{subst}

module _ {E T : Type 0} (c : Codec E T) where
  -- `Runs bytes values`: the bytes are the runs of the values.
  pub data Runs : List ℕ → List (Option T) → Type 0 where
    of_nothing : Runs [] []
    of_run :
        (n : ℕ) (v : T) {bs : List ℕ} {vs : List (Option T)}
        → suc n < 2 ^ 63
        → c.IsEncodable v
        → Runs bs vs
        → Runs (encode_i64 (pos (suc n)) ++ c.encode v ++ bs) (replicate (suc n) (some v) ++ vs)
    of_nulls :
        (n : ℕ) {bs : List ℕ} {vs : List (Option T)}
        → suc n < 2 ^ 63
        → Runs bs vs
        → Runs (encode_i64 (pos 0) ++ encode_u64 (suc n) ++ bs) (replicate (suc n) none ++ vs)
    of_literals :
        (l : T) (ls : List T) {bs : List ℕ} {vs : List (Option T)}
        → length (l ∷ ls) < 2 ^ 63
        → All c.IsEncodable (l ∷ ls)
        → Runs bs vs
        → Runs
            (encode_i64 (negsuc (length ls)) ++ encode_all c.encode (l ∷ ls) ++ bs)
            (map some (l ∷ ls) ++ vs)

  pub recast :
      {bs bs' : List ℕ} {vs vs' : List (Option T)} → bs ≡ bs' → vs ≡ vs' → Runs bs vs → Runs bs' vs'
  recast {bs' = bs'} {vs = vs} eb ev s =
      subst (λ (ws : List (Option T)). Runs bs' ws) ev (subst (λ (as_ : List ℕ). Runs as_ vs) eb s)

  pub Runs-append :
      {as_ bs : List ℕ} {us vs : List (Option T)}
      → Runs as_ us
      → Runs bs vs
      → Runs (as_ ++ bs) (us ++ vs)
  Runs-append of_nothing t = t
  Runs-append (of_run n v {bs} {vs} h hv s) t =
      recast (sym (append_assoc (encode_i64 (pos (suc n)) ++ c.encode v) bs _))
        (sym (append_assoc (replicate (suc n) (some v)) vs _)) (of_run n v h hv (Runs-append s t))
  Runs-append (of_nulls n {bs} {vs} h s) t =
      recast (sym (append_assoc (encode_i64 (pos 0) ++ encode_u64 (suc n)) bs _))
        (sym (append_assoc (replicate (suc n) none) vs _)) (of_nulls n h (Runs-append s t))
  Runs-append (of_literals l ls {bs} {vs} h hv s) t =
      recast
        (sym (append_assoc (encode_i64 (negsuc (length ls)) ++ encode_all c.encode (l ∷ ls)) bs _))
        (sym (append_assoc (map some (l ∷ ls)) vs _)) (of_literals l ls h hv (Runs-append s t))
