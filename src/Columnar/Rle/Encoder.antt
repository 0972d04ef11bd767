-- ===== src/Columnar/Rle/Encoder.antt =====
-- columnar/encoding/rle.rs: `RleEncoder`, its states and what each appended value does.
use automerge_r.Common.{ℕ, ◌+◌, List, [], ◌∷◌, ◌++◌, Option, none, some, length, if◌then◌else◌}
use automerge_r.Common.Int.{pos}
use automerge_r.Columnar.Encodable.{encode_u64, encode_i64}
use automerge_r.Columnar.Raw.{Codec}
use automerge_r.Columnar.Rle.{as_i64, neg_i64}

pub data RleState (T : Type 0) : Type 0 where
  empty : RleState T
  initial_null_run : ℕ → RleState T
  null_run : ℕ → RleState T
  literal_run : T → List T → RleState T
  lone_val : T → RleState T
  run : T → ℕ → RleState T

pub record RleEncoder (T : Type 0) : Type 0 where
  pub buf : List ℕ
  pub written : ℕ
  pub state : RleState T

abbrev pub encode_all : {T : Type 0} → (T → List ℕ) → List T → List ℕ
encode_all f [] = []
encode_all f (v ∷ vs) = f v ++ encode_all f vs

unfoldable pub new : {T : Type 0} → List ℕ → RleEncoder T
new output_buf = record { buf = output_buf; written = 0; state = empty }

-- `encode`: the bytes go to the buffer and are counted.
unfoldable pub put : {T : Type 0} → RleEncoder T → List ℕ → RleEncoder T
put e bytes = record { buf = e.buf ++ bytes; written = e.written + length bytes; state = e.state }

abbrev pub with_state : {T : Type 0} → RleEncoder T → RleState T → RleEncoder T
with_state e s = record { buf = e.buf; written = e.written; state = s }

module _ {E T : Type 0} (c : Codec E T) where
  unfoldable pub flush_run : RleEncoder T → T → ℕ → RleEncoder T
  flush_run e val len = put (put e (encode_i64 (as_i64 len))) (c.encode val)

  unfoldable pub flush_null_run : RleEncoder T → ℕ → RleEncoder T
  flush_null_run e len = put (put e (encode_i64 (pos 0))) (encode_u64 len)

  unfoldable pub flush_lit_run : RleEncoder T → List T → RleEncoder T
  flush_lit_run e vs =
      put (put e (encode_i64 (neg_i64 (as_i64 (length vs))))) (encode_all c.encode vs)

  unfoldable pub finish_state : RleState T → RleEncoder T → RleEncoder T
  finish_state empty e = e
  finish_state (initial_null_run size) e = e
  finish_state (null_run size) e = flush_null_run e size
  finish_state (literal_run last vs) e = flush_lit_run e (vs ++ last ∷ [])
  finish_state (lone_val value) e = flush_lit_run e (value ∷ [])
  finish_state (run value len) e = flush_run e value len

  unfoldable pub finish : RleEncoder T → List ℕ × ℕ
  finish e = let e' = finish_state e.state (with_state e empty) in (e'.buf, e'.written)

  unfoldable pub null_after : RleState T → RleEncoder T → RleEncoder T
  null_after empty e = with_state e (initial_null_run 1)
  null_after (initial_null_run size) e = with_state e (initial_null_run (size + 1))
  null_after (null_run size) e = with_state e (null_run (size + 1))
  null_after (lone_val other) e = with_state (flush_lit_run e (other ∷ [])) (null_run 1)
  null_after (run other len) e = with_state (flush_run e other len) (null_run 1)
  null_after (literal_run last vs) e = with_state (flush_lit_run e (vs ++ last ∷ [])) (null_run 1)

  unfoldable pub append_null : RleEncoder T → RleEncoder T
  append_null e = null_after e.state (with_state e empty)

  unfoldable pub value_after : RleState T → T → RleEncoder T → RleEncoder T
  value_after empty value e = with_state e (lone_val value)
  value_after (lone_val other) value e =
      if c.eq other value
      then with_state e (run value 2)
      else with_state e (literal_run value (other ∷ []))
  value_after (run other len) value e =
      if c.eq other value
      then with_state e (run other (len + 1))
      else with_state (flush_run e other len) (lone_val value)
  value_after (literal_run last vs) value e =
      if c.eq last value
      then with_state (flush_lit_run e vs) (run value 2)
      else with_state e (literal_run value (vs ++ last ∷ []))
  value_after (null_run size) value e = with_state (flush_null_run e size) (lone_val value)
  value_after (initial_null_run size) value e = with_state (flush_null_run e size) (lone_val value)

  unfoldable pub append_value : RleEncoder T → T → RleEncoder T
  append_value e value = value_after e.state value (with_state e empty)

  unfoldable pub append : RleEncoder T → Option T → RleEncoder T
  append e (some t) = append_value e t
  append e none = append_null e

  -- A column appended value by value.
  unfoldable pub append_all : RleEncoder T → List (Option T) → RleEncoder T
  append_all e [] = e
  append_all e (v ∷ vs) = append_all (append e v) vs
