-- ===== src/Sync/ChunkList.antt =====
-- sync.rs: the chunks of changes in a message.
use automerge_r.Common.{ℕ, List, [], ◌∷◌, ◌++◌}
use automerge_r.Parse.Input.{Parser}
use automerge_r.Parse.Combinators.{length_prefixed, length_prefixed_bytes}
use automerge_r.Sync.Errors.{ReadMessageError, message_from_leb}

-- `ChunkList`
abbrev pub ChunkList : Type 0
ChunkList = List (List ℕ)

unfoldable pub parse : Parser ChunkList ReadMessageError
unfolding length_prefixed length_prefixed_bytes
parse i = length_prefixed length_prefixed_bytes i

unfoldable pub join : ChunkList → List ℕ
join [] = []
join (v ∷ vs) = v ++ join vs
