-- ===== src/Ids/Cursor/RoundTrip.antt =====
-- cursor.rs: a cursor is read back from its bytes, and from those of version 0.
use automerge_r.Common.{ℕ, ◌≡◌, refl, sym, [], ◌∷◌, ◌++◌, length, ok, append-nil, arith}
use automerge_r.Parse.Input.{Input, advance}
use automerge_r.Parse.Leb128.{LebError, leb_from_leb}
use automerge_r.Parse.Leb128.Writer.{Writer, IsU64}
use automerge_r.Parse.Combinators.Reads.{leb128_u64-Reads, take_n-Reads, take_1-Reads}
use automerge_r.Ids.ExId.{ActorId}
use automerge_r.Ids.Cursor.{
  after, OpCursor, Cursor, start, end, op, move_tag, to_bytes, parse_0, parse_op, try_from,
}

abbrev pub IsCursor : Cursor → Type 0
IsCursor start = Unit
IsCursor end = Unit
IsCursor (op c) = IsU64 c.ctr × IsU64 (length c.actor)

module _ (w : Writer) where
  parse_op-bytes :
      (i : Input) (c : OpCursor)
      → IsCursor (op c)
      → i.bytes
        ≡ w.unsigned (length c.actor)
          ++ (c.actor ++ (w.unsigned c.ctr ++ (move_tag c.move_cursor ∷ [])))
      → parse_op i ≡ ok (op c)
  unfolding parse_op
  parse_op-bytes i c (hc, ha) e =
      let last = move_tag c.move_cursor ∷ [] in
      let tail = w.unsigned c.ctr ++ last in
      let i₁ = advance i (c.actor ++ tail) (length (w.unsigned (length c.actor))) in
      let i₂ = advance i₁ tail (length c.actor) in
      let i₃ = advance i₂ last (length (w.unsigned c.ctr)) in
      ground (
        arith,
        (leb128_u64-Reads {E = LebError} w (length c.actor) ha).run i (c.actor ++ tail) e,
        (take_n-Reads {E = Unit {0}} c.actor).run i₁ tail refl,
        (leb128_u64-Reads {E = LebError} w c.ctr hc).run i₂ last refl,
        (take_1-Reads {E = Unit {0}} (move_tag c.move_cursor)).run i₃ [] refl,
      )

  parse_0-bytes :
      (i : Input) (ctr : ℕ) (actor : ActorId)
      → IsU64 ctr
      → IsU64 (length actor)
      → i.bytes ≡ w.unsigned (length actor) ++ (actor ++ w.unsigned ctr)
      → parse_0 i ≡ ok (op (record { ctr = ctr; actor = actor; move_cursor = after }))
  unfolding parse_0
  parse_0-bytes i ctr actor hc ha e =
      let i₁ = advance i (actor ++ w.unsigned ctr) (length (w.unsigned (length actor))) in
      let i₂ = advance i₁ (w.unsigned ctr) (length actor) in
      ground (
        arith,
        (leb128_u64-Reads {E = LebError} w (length actor) ha).run i (actor ++ w.unsigned ctr) e,
        (take_n-Reads {E = Unit {0}} actor).run i₁ (w.unsigned ctr) refl,
        (leb128_u64-Reads {E = LebError} w ctr hc).run i₂ [] (sym (append-nil (w.unsigned ctr))),
      )

  try_from-to_bytes : (c : Cursor) → IsCursor c → try_from (to_bytes w c) ≡ ok c
  unfolding try_from to_bytes
  try_from-to_bytes start h = refl
  try_from-to_bytes end h = refl
  try_from-to_bytes (op c) h = parse_op-bytes _ c h refl

  -- Every cursor is read back from its bytes, and an operation's cursor in the form of version 0
  -- is read as one that moves after.
  pub cursor_try_from-to_bytes :
      (c : Cursor) (old : OpCursor)
      → IsCursor c
      → IsCursor (op old)
      → (try_from (to_bytes w c) ≡ ok c)
        × (try_from (0 ∷ (w.unsigned (length old.actor) ++ (old.actor ++ w.unsigned old.ctr)))
            ≡ ok (op (record old { move_cursor = after })))
  unfolding try_from
  cursor_try_from-to_bytes c old h (hc, ha) =
      (try_from-to_bytes c h, parse_0-bytes _ old.ctr old.actor hc ha refl)
