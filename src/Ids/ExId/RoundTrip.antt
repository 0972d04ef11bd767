-- ===== src/Ids/ExId/RoundTrip.antt =====
-- exid.rs: an id is read back from its bytes.
use automerge_r.Common.{ℕ, ◌≡◌, refl, sym, List, [], ◌++◌, length, ok, append-nil, arith}
use automerge_r.Parse.Input.{Input, advance}
use automerge_r.Parse.Leb128.{LebError, leb_from_leb}
use automerge_r.Parse.Leb128.Writer.{Writer, IsU64}
use automerge_r.Parse.Combinators.Reads.{leb128_u64-Reads, take_n-Reads}
use automerge_r.Ids.ExId.{ExId, root_id, id, to_bytes, parse_id, try_from}

-- The numbers of an id fit a u64.
abbrev pub IsExId : ExId → Type 0
IsExId root_id = Unit
IsExId (id ctr actor idx) = IsU64 ctr × IsU64 (length actor) × IsU64 idx

module _ (w : Writer) where
  parse_id-bytes :
      (i : Input) (ctr idx : ℕ) (actor : List ℕ)
      → IsExId (id ctr actor idx)
      → i.bytes ≡ w.unsigned (length actor) ++ (actor ++ (w.unsigned idx ++ w.unsigned ctr))
      → parse_id i ≡ ok (id ctr actor idx)
  unfolding parse_id
  parse_id-bytes i ctr idx actor (hc, ha, hi) e =
      let tail = w.unsigned idx ++ w.unsigned ctr in
      let i₁ = advance i (actor ++ tail) (length (w.unsigned (length actor))) in
      let i₂ = advance i₁ tail (length actor) in
      let i₃ = advance i₂ (w.unsigned ctr) (length (w.unsigned idx)) in
      ground (
        arith,
        (leb128_u64-Reads {E = LebError} w (length actor) ha).run i (actor ++ tail) e,
        (take_n-Reads {E = Unit {0}} actor).run i₁ tail refl,
        (leb128_u64-Reads {E = LebError} w idx hi).run i₂ (w.unsigned ctr) refl,
        (leb128_u64-Reads {E = LebError} w ctr hc).run i₃ [] (sym (append-nil (w.unsigned ctr))),
      )

  -- What `to_bytes` writes is read back, the actor's index included.
  pub exid_try_from-to_bytes : (x : ExId) → IsExId x → try_from (to_bytes w x) ≡ ok x
  unfolding try_from to_bytes
  exid_try_from-to_bytes root_id h = refl
  exid_try_from-to_bytes (id ctr actor idx) h = parse_id-bytes _ ctr idx actor h refl
