-- ===== src/Sync/MessageVersion.antt =====
-- sync.rs: the first byte of a message.
use automerge_r.Common.{ℕ, [], ◌∷◌, ◌==◌, if◌then◌else◌, ok, err, ◌>>=◌}
use automerge_r.Parse.Input.{Parser, error, take_1}
use automerge_r.Sync.Errors.{ReadMessageError, message_from_leb, wrong_type}

pub data MessageVersion : Type 0 where
  v1 v2 : MessageVersion

abbrev pub message_type_sync : ℕ
message_type_sync = 0x42

abbrev pub message_type_sync_v2 : ℕ
message_type_sync_v2 = 0x43

unfoldable pub parse : Parser MessageVersion ReadMessageError
unfolding take_1
parse input = do
  (i, first_byte) ← take_1 input
  if first_byte == message_type_sync
      then ok (i, v1)
      else if first_byte == message_type_sync_v2
      then ok (i, v2)
      else err (error (wrong_type (message_type_sync ∷ message_type_sync_v2 ∷ []) first_byte))

unfoldable pub encode : MessageVersion → ℕ
encode v1 = message_type_sync
encode v2 = message_type_sync_v2
