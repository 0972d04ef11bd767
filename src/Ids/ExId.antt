-- ===== src/Ids/ExId.antt =====
-- exid.rs: the external ids of objects and their byte form. An actor id is a list of bytes.
pub mod RoundTrip
use automerge_r.Common.{
  Option, some, ℕ, ◌+◌, ◌/◌, ◌%◌, Bool, true, false, not, List, [], ◌∷◌, ◌++◌, ◌==◌, ltb, ◌&&◌,
  if◌then◌else◌, length, Result, ok, err, ◌>>=◌, map_err,
}
use automerge_r.Parse.Input.{Input, Parser, ParseError, new, take_1, take_n}
use automerge_r.Parse.Leb128.{FromLeb, LebError, leb_from_leb, leb128_u64}
use automerge_r.Parse.Leb128.Writer.{Writer}
use automerge_r.Ids.OpId.{OpId, root, op_id_new}

abbrev pub ActorId : Type 0
ActorId = List ℕ

-- The counter, the actor and the index of the actor when the id was made.
pub data ExId : Type 0 where
  root_id : ExId
  id : ℕ → ActorId → ℕ → ExId

-- The text of a parser's error is kept as the error.
pub data ObjIdFromBytesError : Type 0 where
  no_version : ObjIdFromBytesError
  invalid_version : ℕ → ObjIdFromBytesError
  invalid_type : ℕ → ObjIdFromBytesError
  parse_actor_len : ParseError LebError → ObjIdFromBytesError
  parse_actor : ObjIdFromBytesError
  parse_counter : ParseError LebError → ObjIdFromBytesError
  parse_actor_idx_hint : ParseError LebError → ObjIdFromBytesError

-- The tag is `version | (type << 4)`, with version 0 and the types 0 for the root and 1 for an id.
unfoldable pub to_bytes : Writer → ExId → List ℕ
to_bytes w root_id = 0 ∷ []
to_bytes w (id ctr actor idx) =
    16 ∷ (w.unsigned (length actor) ++ (actor ++ (w.unsigned idx ++ w.unsigned ctr)))

unfoldable pub parse_id : Input → Result ObjIdFromBytesError ExId
parse_id i = do
  (i₁, len) ← map_err parse_actor_len (leb128_u64 i)
  (i₂, actor) ← map_err (λ _. parse_actor) (take_n {E = Unit {0}} len i₁)
  (i₃, counter) ← map_err parse_counter (leb128_u64 i₂)
  (_, actor_idx_hint) ← map_err parse_actor_idx_hint (leb128_u64 i₃)
  ok (id actor_idx_hint actor counter)

-- `tag & 0b1111` and `tag >> 4` of a byte
unfoldable pub try_from : List ℕ → Result ObjIdFromBytesError ExId
unfolding take_1
try_from value = do
  (i, tag) ← map_err (λ _. no_version) (take_1 {E = Unit {0}} (new value))
  let version = tag % 16
  let type_tag = tag / 16
  if not (version == 0)
      then err (invalid_version version)
      else if type_tag == 0
      then ok root_id
      else if type_tag == 1
      then parse_id i
      else err (invalid_type type_tag)

-- `none` is the panic of `OpId::new`.
unfoldable pub to_internal_obj : ExId → Option OpId
unfolding op_id_new
to_internal_obj root_id = some root
to_internal_obj (id ctr _ actor) = op_id_new ctr actor
