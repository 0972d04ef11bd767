-- ===== src/Ids/Cursor.antt =====
-- cursor.rs: cursors and their byte form. Every error of reading one is `InvalidCursorFormat`.
pub mod RoundTrip
use automerge_r.Common.{
  ℕ, List, [], ◌∷◌, ◌++◌, ◌==◌, not, if◌then◌else◌, length, Result, ok, err, ◌>>=◌, map_err,
}
use automerge_r.Parse.Input.{Input, new, take_1, take_n}
use automerge_r.Parse.Leb128.{LebError, leb_from_leb, leb128_u64}
use automerge_r.Parse.Leb128.Writer.{Writer}
use automerge_r.Ids.ExId.{ActorId}

pub data MoveCursor : Type 0 where
  before after : MoveCursor

pub record OpCursor : Type 0 where
  pub ctr : ℕ
  pub actor : ActorId
  pub move_cursor : MoveCursor

pub data Cursor : Type 0 where
  start end : Cursor
  op : OpCursor → Cursor

pub data CursorError : Type 0 where
  invalid_cursor_format : CursorError

abbrev pub version_tag : ℕ
version_tag = 1

abbrev pub start_tag : ℕ
start_tag = 1

abbrev pub end_tag : ℕ
end_tag = 2

abbrev pub op_tag : ℕ
op_tag = 3

abbrev pub move_tag : MoveCursor → ℕ
move_tag before = 1
move_tag after = 2

unfoldable pub to_bytes : Writer → Cursor → List ℕ
to_bytes w start = version_tag ∷ start_tag ∷ []
to_bytes w end = version_tag ∷ end_tag ∷ []
to_bytes w (op c) =
    version_tag
    ∷ op_tag
    ∷ (w.unsigned (length c.actor)
        ++ (c.actor ++ (w.unsigned c.ctr ++ (move_tag c.move_cursor ∷ []))))

abbrev invalid : {E : Type 0} → E → CursorError
invalid _ = invalid_cursor_format

-- The older form, with no tags behind the version.
unfoldable pub parse_0 : Input → Result CursorError Cursor
parse_0 i = do
  (i₁, len) ← map_err invalid (leb128_u64 {E = LebError} i)
  (i₂, actor) ← map_err invalid (take_n {E = Unit {0}} len i₁)
  (_, ctr) ← map_err invalid (leb128_u64 {E = LebError} i₂)
  ok (op (record { ctr = ctr; actor = actor; move_cursor = after }))

unfoldable pub parse_op : Input → Result CursorError Cursor
parse_op i = do
  (i₁, len) ← map_err invalid (leb128_u64 {E = LebError} i)
  (i₂, actor) ← map_err invalid (take_n {E = Unit {0}} len i₁)
  (i₃, ctr) ← map_err invalid (leb128_u64 {E = LebError} i₂)
  (_, move_type) ← map_err invalid (take_1 {E = Unit {0}} i₃)
  if move_type == 2
      then ok (op (record { ctr = ctr; actor = actor; move_cursor = after }))
      else if move_type == 1
      then ok (op (record { ctr = ctr; actor = actor; move_cursor = before }))
      else err invalid_cursor_format

-- Behind the version
unfoldable pub parse_1 : Input → Result CursorError Cursor
unfolding take_1
parse_1 i = do
  (i', cursor_type) ← map_err invalid (take_1 {E = Unit {0}} i)
  if cursor_type == start_tag
      then ok start
      else if cursor_type == end_tag
      then ok end
      else if cursor_type == op_tag
      then parse_op i'
      else err invalid_cursor_format

unfoldable pub try_from : List ℕ → Result CursorError Cursor
unfolding take_1 parse_1
try_from value = do
  (i, version) ← map_err invalid (take_1 {E = Unit {0}} (new value))
  if version == 0
      then parse_0 i
      else if not (version == version_tag)
      then err invalid_cursor_format
      else parse_1 i
