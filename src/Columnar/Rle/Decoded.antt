-- ===== src/Columnar/Rle/Decoded.antt =====
-- columnar/encoding/rle.rs: the decoder on a column in the format.
use automerge_r.Common.{
  ℕ, zero, suc, ◌+◌, ◌≡◌, ap, ◌∙◌, Bool, true, false, List, [], ◌∷◌, ◌++◌, append_assoc, Option,
  none, some, map, length, length-append, length-replicate, replicate, All, arith, ok,
}
use mathlib.Core.Path.{subst}
use automerge_r.Common.Int.{pos, negsuc}
use automerge_r.Columnar.Leb128.{Reader}
use automerge_r.Columnar.Encodable.{encode_u64, encode_i64}
use automerge_r.Columnar.Encodable.RoundTrip.{unsigned-encode_u64, encode_u64_nonempty}
use automerge_r.Columnar.Raw.{Codec, RawDecoder, moved}
use automerge_r.Columnar.Raw.Position.{IsAt, moved-IsAt, read-IsAt}
use automerge_r.Columnar.Rle.Nulls.{length-map}
use automerge_r.Columnar.Rle.Encoder.{encode_all}
use automerge_r.Columnar.Rle.Decoder.{gather, prepend, collect}
use automerge_r.Columnar.Rle.Format.{Runs, of_nothing, of_run, of_nulls, of_literals}
use automerge_r.Columnar.Rle.Stepped.{
  within, try_next_header, try_next_plain, try_next_literal, try_next_end, header_read,
  header_length, next_run_value, next_run_nulls, next_run_literals,
}

module _ {E T : Type 0} (r : Reader E) (c : Codec E T) where
  -- The rest of a run, and then what is behind it.
  pub collect_plain :
      (n j k : ℕ) (raw : RawDecoder) (lv : Option T) (vs : List (Option T))
      → j ≡ n + k
      → collect r c k (within r c raw lv 0 false) ≡ some (ok vs)
      → collect r c j (within r c raw lv n false) ≡ some (ok (replicate n lv ++ vs))
  unfolding collect
  collect_plain zero j k raw lv vs ej h =
      let e : j ≡ k = omega arith in ap (λ (t : ℕ). collect r c t (within r c raw lv 0 false)) e ∙ h
  collect_plain (suc n) zero k raw lv vs ej h = absurd (omega arith)
  collect_plain (suc n) (suc j) k raw lv vs ej h =
      ap (gather (collect r c j)) (try_next_plain r c raw lv n)
      ∙ ap (prepend lv) (collect_plain n j k raw lv vs (omega arith) h)

  pub collect_literals :
      (ls : List T) (j k : ℕ) (raw : RawDecoder) (lv : Option T) (bs : List ℕ)
      (vs : List (Option T))
      → j ≡ length ls + k
      → IsAt raw (encode_all c.encode ls ++ bs)
      → All c.IsEncodable ls
      → ((raw' : RawDecoder)
          → IsAt raw' bs
          → collect r c k (within r c raw' lv 0 true) ≡ some (ok vs))
      → collect r c j (within r c raw lv (length ls) true) ≡ some (ok (map some ls ++ vs))
  unfolding collect
  collect_literals [] j k raw lv bs vs ej at hv h =
      let e : j ≡ k = omega arith in
      ap (λ (t : ℕ). collect r c t (within r c raw lv 0 true)) e ∙ h raw at
  collect_literals (l ∷ ls) zero k raw lv bs vs ej at hv h = absurd (omega arith)
  collect_literals (l ∷ ls) (suc j) k raw lv bs vs ej at hv h =
      let at' : IsAt raw (c.encode l ++ (encode_all c.encode ls ++ bs)) =
        subst (λ as_. IsAt raw as_) (append_assoc (c.encode l) (encode_all c.encode ls) bs) at in
      let behind = moved raw (length (c.encode l)) in
      ap (gather (collect r c j))
        (try_next_literal r c raw lv (length ls) l (encode_all c.encode ls ++ bs) at' hv.0)
      ∙ ap (prepend (some l)) (
          collect_literals ls j k behind lv bs vs (omega arith)
            (moved-IsAt (c.encode l) (encode_all c.encode ls ++ bs) at') hv.1 h)

  -- The decoder reads the values of a column in the format, and then ends.
  pub collect-Runs :
      {bs : List ℕ} {vs : List (Option T)}
      → Runs c bs vs
      → (raw : RawDecoder) (lv : Option T) (b : Bool) → IsAt raw bs
      → collect r c (suc (length vs)) (within r c raw lv 0 b) ≡ some (ok vs)
  unfolding collect
  collect-Runs of_nothing raw lv b at = ap (gather (collect r c 0)) (try_next_end r c raw lv b at)
  collect-Runs (of_run n v {bs} {vs} h hv s) raw lv b at =
      let z = pos (suc n) in
      let (er, at1) = header_read r c raw z (c.encode v) bs at h in
      let raw1 = moved raw (length (encode_i64 z)) in
      let raw2 = moved raw1 (length (c.encode v)) in
      let ev =
        read-IsAt c.decode (c.encode v) bs v at1 (c.decode-encode v bs hv) (c.encode_nonempty v) in
      let en = next_run_value r c (within r c raw lv 0 b) raw1 raw2 n v ev in
      let j = length (replicate (suc n) (some v) ++ vs) in
      ap (gather (collect r c j)) (
        try_next_header r c raw2 lv (some v) n b false (encode_i64 z ++ c.encode v ++ bs) at
          (header_length r c z (c.encode v) bs) er en)
      ∙ collect_plain (suc n) (suc j) (suc (length vs)) raw2 (some v) vs
          (omega (
            arith,
            length-append (replicate (suc n) (some v)) vs,
            length-replicate (suc n) (some v),
          ))
          (collect-Runs s raw2 (some v) false (moved-IsAt (c.encode v) bs at1))
  collect-Runs (of_nulls n {bs} {vs} h s) raw lv b at =
      let (er, at1) = header_read r c raw (pos 0) (encode_u64 (suc n)) bs at (omega arith) in
      let raw1 = moved raw (length (encode_i64 (pos 0))) in
      let raw2 = moved raw1 (length (encode_u64 (suc n))) in
      let ev =
        read-IsAt r.unsigned (encode_u64 (suc n)) bs (suc n) at1
          (unsigned-encode_u64 r (suc n) bs (omega arith)) (encode_u64_nonempty (suc n)) in
      let j = length (replicate {A = Option T} (suc n) none ++ vs) in
      ap (gather (collect r c j)) (
        try_next_header r c raw2 lv none n b false (encode_i64 (pos 0) ++ encode_u64 (suc n) ++ bs)
          at (header_length r c (pos 0) (encode_u64 (suc n)) bs) er
          (next_run_nulls r c (within r c raw lv 0 b) raw1 raw2 (suc n) ev h))
      ∙ collect_plain (suc n) (suc j) (suc (length vs)) raw2 none vs
          (omega (
            arith,
            length-append (replicate {A = Option T} (suc n) none) vs,
            length-replicate {A = Option T} (suc n) none,
          ))
          (collect-Runs s raw2 none false (moved-IsAt (encode_u64 (suc n)) bs at1))
  collect-Runs (of_literals l ls {bs} {vs} h hv s) raw lv b at =
      let z = negsuc (length ls) in
      let lits = encode_all c.encode (l ∷ ls) in
      let (er, at1) = header_read r c raw z lits bs at (omega arith) in
      let raw1 = moved raw (length (encode_i64 z)) in
      let j = length (map some (l ∷ ls) ++ vs) in
      ap (gather (collect r c j)) (
        try_next_header r c raw1 lv lv (length ls) b true (encode_i64 z ++ lits ++ bs) at
          (header_length r c z lits bs) er (next_run_literals r c raw raw1 lv b (length ls) h))
      ∙ collect_literals (l ∷ ls) (suc j) (suc (length vs)) raw1 lv bs vs
          (omega (arith, length-append (map some (l ∷ ls)) vs, length-map (l ∷ ls))) at1 hv
          (λ raw' at'. collect-Runs s raw' lv true at')
