-- ===== src/Parse/Combinators.antt =====
-- storage/parse.rs: the combinators, and the parsers of an actor id and a change hash. Numbers of
-- type usize have 64 bits, so that `len as usize` keeps a u64.
pub mod Reads
use automerge_r.Common.{ℕ, zero, suc, List, [], ◌∷◌, ◌++◌, Result, ok, err, ◌>>=◌}
use automerge_r.Parse.Input.{Input, ParseResult, Parser, take_n}
use automerge_r.Parse.Leb128.{FromLeb, leb128_u64}

abbrev pub hash_size : ℕ
hash_size = 32

module _ {E : Type 0} where
  unfoldable pub map_parser : {A B : Type 0} → Parser A E → (A → B) → Parser B E
  map_parser parser f input = do (input', o1) ← parser input; ok (input', f o1)

  unfoldable pub tuple2 : {A B : Type 0} → Parser A E → Parser B E → Parser (A × B) E
  tuple2 f g input = do (i, one) ← f input; (i', two) ← g i; ok (i', (one, two))

  -- `for _ in 0..n`: the parser's results are pushed on `res`, and its first error ends the loop.
  unfoldable pub parse_times :
      {A : Type 0} → ℕ → Parser A E → Input → List A → ParseResult (List A) E
  parse_times zero g input res = ok (input, res)
  parse_times (suc n) g input res = do (i, e) ← g input; parse_times n g i (res ++ (e ∷ []))

  unfoldable pub apply_n : {A : Type 0} → ℕ → Parser A E → Parser (List A) E
  unfolding parse_times
  apply_n n f input = parse_times n f input []

  unfoldable pub change_hash : Parser (List ℕ) E
  unfolding take_n
  change_hash input = take_n hash_size input

module _ {E : Type 0} ⦃f : FromLeb E⦄ where
  unfoldable pub length_prefixed : {A : Type 0} → Parser A E → Parser (List A) E
  unfolding leb128_u64 parse_times
  length_prefixed g input = do (i, count) ← leb128_u64 input; parse_times count g i []

  unfoldable pub length_prefixed_bytes : Parser (List ℕ) E
  unfolding leb128_u64 take_n
  length_prefixed_bytes input = do (i, len) ← leb128_u64 input; take_n len i

  unfoldable pub actor_id : Parser (List ℕ) E
  unfolding leb128_u64 take_n
  actor_id input = do
    (i, length') ← leb128_u64 input
    (i', bytes) ← take_n length' i
    ok (i', bytes)
